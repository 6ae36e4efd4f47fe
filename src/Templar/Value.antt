-- ===== src/Templar/Value.antt =====
-- templar.c: characters, strings and the values of the language. A string is the list of its bytes before the NUL.
use crusader_os_v.Base.{
  ℕ, ◌+◌, Bool, true, false, ◌&&◌, ◌||◌, not, List, [], ◌∷◌, reverse, ◌==◌, leb, if◌then◌else◌,
  codes,
}
use crusader_os_v.Base.Int.{ℤ, sub_ℕ, is_zero}
use crusader_os_v.Text.{head}
use crusader_os_v.Text.Numbers.{itoa_digits, parse_digits}
use crusader_os_v.Templar.Word.{is_negative, neg32}

unfoldable pub tpl_isalpha : ℕ → Bool
tpl_isalpha c = leb b'a' c && leb c b'z' || leb b'A' c && leb c b'Z' || c == b'_'

unfoldable pub tpl_isdigit : ℕ → Bool
tpl_isdigit c = leb b'0' c && leb c b'9'

unfoldable pub tpl_isalnum : ℕ → Bool
unfolding tpl_isalpha tpl_isdigit
tpl_isalnum c = tpl_isalpha c || tpl_isdigit c

unfoldable pub tpl_isspace : ℕ → Bool
tpl_isspace c = c == 32 || c == 9 || c == 13

unfoldable pub tpl_strcmp : List ℕ → List ℕ → ℤ
tpl_strcmp [] b = sub_ℕ 0 (head b)
tpl_strcmp (x ∷ a) [] = sub_ℕ x 0
tpl_strcmp (x ∷ a) (y ∷ b) =
    if not (x == 0) && not (y == 0) && x == y then tpl_strcmp a b else sub_ℕ x y

-- `tpl_strcmp(a, b) == 0`
unfoldable pub same : List ℕ → List ℕ → Bool
unfolding tpl_strcmp
same a b = is_zero (tpl_strcmp a b)

-- The lowest value stays negative when it is negated, and has no digits then.
unfoldable pub tpl_itoa : ℕ → List ℕ
unfolding itoa_digits
tpl_itoa v =
    let digits = λ (n : ℕ). reverse (itoa_digits (λ d. b'0' + d) 10 n 10) in
    if v == 0
    then b'0' ∷ []
    else if is_negative v
    then b'-' ∷ (if is_negative (neg32 v) then [] else digits (neg32 v))
    else digits v

unfoldable pub tpl_atoi : List ℕ → ℕ
unfolding neg32 parse_digits
tpl_atoi [] = 0
tpl_atoi (c ∷ s) = if c == b'-' then neg32 (parse_digits 0 s) else parse_digits 0 (c ∷ s)

pub data TplVal : Type 0 where
  num : ℕ → TplVal
  str : List ℕ → TplVal
  nil : TplVal

unfoldable pub tpl_val_to_str : TplVal → List ℕ
unfolding tpl_itoa
tpl_val_to_str (num n) = tpl_itoa n
tpl_val_to_str (str s) = s
tpl_val_to_str nil = codes "nil"

unfoldable pub tpl_val_truthy : TplVal → Bool
tpl_val_truthy (num n) = not (n == 0)
tpl_val_truthy (str s) = not (head s == 0)
tpl_val_truthy nil = false

unfoldable pub tpl_val_num : TplVal → ℕ
unfolding tpl_atoi
tpl_val_num (num n) = n
tpl_val_num (str s) = tpl_atoi s
tpl_val_num nil = 0

abbrev pub is_str : TplVal → Bool
is_str (str s) = true
is_str _ = false

-- The 0 or 1 of a test.
abbrev pub of_bool : Bool → TplVal
of_bool b = if b then num 1 else num 0
