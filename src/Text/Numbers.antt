-- ===== src/Text/Numbers.antt =====
-- The conversions of string.c between numbers and text. A character is its code; an `int` is its
-- value, and a result that would not fit one wraps to its 32-bit pattern.
use crusader_os_v.Base.{
  ℕ, zero, suc, ◌+◌, ◌-◌, ◌*◌, ◌/◌, ◌%◌, ◌^◌, Bool, true, false, ◌&&◌, ◌||◌, List, [], ◌∷◌, ◌==◌,
  leb, ltb, if◌then◌else◌, reverse, Option, none, some,
}
use crusader_os_v.Base.Int.{ℤ, pos, negsuc}
use crusader_os_v.Text.{head}

-- A digit of `itoa` below 16, for a value that is not negative.
unfoldable pub digit_char : ℕ → ℕ
digit_char d = if ltb d 10 then d + b'0' else d - 10 + b'A'

-- The digits of a value, the lowest first; 32 rounds are enough for an `int` in every base.
unfoldable pub itoa_digits : (ℕ → ℕ) → ℕ → ℕ → ℕ → List ℕ
itoa_digits char zero value base = []
itoa_digits char (suc fuel) value base =
    let rest = itoa_digits char fuel (value / base) base in
    if value == 0 then [] else char (value % base) ∷ rest

-- The value 0 has a digit of its own. In C the remainder of a negative value is negative, so that a negative value
-- in another base than 10 gives characters below '0'. The lowest `int` cannot be negated in C; here it can.
unfoldable pub itoa_value : ℤ → ℕ → List ℕ
itoa_value (pos zero) base = b'0' ∷ []
itoa_value (pos (suc n)) base = reverse (itoa_digits digit_char 32 (suc n) base)
itoa_value (negsuc n) base =
    if base == 10
    then b'-' ∷ reverse (itoa_digits digit_char 32 (suc n) base)
    else reverse (itoa_digits (λ d. b'0' - d) 32 (suc n) base)

-- The string that `itoa` leaves in its buffer.
unfoldable pub itoa : ℤ → ℕ → List ℕ
itoa value base = if ltb base 2 || ltb 16 base then [] else itoa_value value base

unfoldable pub is_digit : ℕ → Bool
is_digit c = leb b'0' c && leb c b'9'

-- The loop of `str_to_int`, and of `atoi` behind the sign.
unfoldable pub parse_digits : ℕ → List ℕ → ℕ
parse_digits res [] = res
parse_digits res (c ∷ s) =
    let rest = parse_digits ((res * 10 + (c - b'0')) % 2 ^ 32) s in if is_digit c then rest else res

unfoldable pub str_to_int : List ℕ → ℕ
str_to_int s = parse_digits 0 s

unfoldable pub is_space : ℕ → Bool
is_space c = c == b' ' || c == 9 || c == 10 || c == 13 || c == 12 || c == 11

unfoldable pub skip_space : List ℕ → List ℕ
skip_space [] = []
skip_space (c ∷ s) = if is_space c then skip_space s else c ∷ s

-- The sign and what is behind it: whether it is a minus.
unfoldable pub sign_of : List ℕ → Bool × List ℕ
sign_of [] = (false, [])
sign_of (c ∷ s) = if c == b'+' then (false, s) else if c == b'-' then (true, s) else (false, c ∷ s)

-- `val * sign` as a 32-bit pattern.
abbrev pub signed : Bool → ℕ → ℕ
signed negative val = if negative then (2 ^ 32 - val % 2 ^ 32) % 2 ^ 32 else val % 2 ^ 32

unfoldable pub atoi : List ℕ → ℕ
atoi s = let (negative, rest) = sign_of (skip_space s) in signed negative (parse_digits 0 rest)

-- The digit that a character stands for in `strtol`.
unfoldable pub digit_value : ℕ → Option ℕ
digit_value c =
    if leb b'0' c && leb c b'9'
    then some (c - b'0')
    else if leb b'a' c && leb c b'z'
    then some (c - b'a' + 10)
    else if leb b'A' c && leb c b'Z'
    then some (c - b'A' + 10)
    else none

unfoldable pub strtol_digits : ℕ → ℕ → List ℕ → ℕ
strtol_digits base acc [] = acc
strtol_digits base acc (c ∷ s) =
    let next = λ (d : ℕ). strtol_digits base ((acc * base + d) % 2 ^ 32) s in
    elim (digit_value c) [
      | none ↦ acc
      | some d ↦ let rest = next d in if leb base d then acc else rest
    ]

-- `s[0] == '0'` and an `x` behind it.
unfoldable pub hex_prefix : List ℕ → Bool
hex_prefix (c ∷ x ∷ s) = c == b'0' && (x == b'x' || x == b'X')
hex_prefix _ = false

unfoldable pub base_of : ℕ → List ℕ → ℕ
base_of base s =
    if base == 0 then (if head s == b'0' then (if hex_prefix s then 16 else 8) else 10) else base

unfoldable pub drop_prefix : ℕ → List ℕ → List ℕ
drop_prefix base (c ∷ x ∷ s) = if base == 16 && hex_prefix (c ∷ x ∷ s) then s else c ∷ x ∷ s
drop_prefix base s = s

-- `strtol` with no `endptr`, as a 32-bit pattern.
unfoldable pub strtol : List ℕ → ℕ → ℕ
strtol s base =
    let (negative, rest) = sign_of (skip_space s) in
    let b = base_of base rest in signed negative (strtol_digits b 0 (drop_prefix b rest))

-- `strrchr`: the text from the last `c` on, `none` for NULL.
unfoldable pub strrchr : List ℕ → ℕ → Option (List ℕ)
strrchr [] c = if c == 0 then some [] else none
strrchr (x ∷ s) c =
    let later = strrchr s c in
    if x == 0
    then (if c == 0 then some (x ∷ s) else none)
    else elim later [ some t ↦ some t | none ↦ (if x == c then some (x ∷ s) else none) ]
