-- ===== src/Templar/Lexer/Numerals.antt =====
-- templar.c: a number is spelled, and read by the lexer, as one token.
use mathlib.Core.Path.{subst}
use crusader_os_v.Base.{
  ℕ, ◌+◌, ◌^◌, ◌<◌, ◌≤◌, ◌≡◌, ◌≢◌, refl, sym, ap, ◌∙◌, true, false, List, [], ◌∷◌, arith, ◌==◌,
  length, length-reverse, reverse, Bool-cases, ==_iff, inl, inr,
}
use crusader_os_v.Text.Numbers.{itoa_digits, is_digit, parse_digits}
use crusader_os_v.Text.Decimal.{AllDigits, IsDigitChar, itoa_digits_lem}
use crusader_os_v.Templar.Word.{neg32, is_negative}
use crusader_os_v.Templar.Value.{tpl_itoa, tpl_atoi, tpl_isdigit}
use crusader_os_v.Templar.Sound.Numbers.{length-itoa_digits}
use crusader_os_v.Templar.State.{TplTok, tk_num}
use crusader_os_v.Templar.Lexer.{tok}
use crusader_os_v.Templar.Lexer.Spelling.{All, Spelled, number, minus_number}

abbrev digits_of : ℕ → List ℕ
digits_of n = reverse (itoa_digits (λ d. b'0' + d) 10 n 10)

decimal : IsDigitChar (λ d. b'0' + d)
unfolding is_digit
decimal d l = ground arith

-- At least one digit, and no more than ten.
record IsNumeral (n : ℕ) (s : List ℕ) : Type 0 where
  first : ℕ
  rest : List ℕ
  made : s ≡ first ∷ rest
  first_digit : tpl_isdigit first ≡ true
  digits : All tpl_isdigit rest
  short : length rest ≤ 9
  means : parse_digits 0 (first ∷ rest) ≡ n

all_digits : (s : List ℕ) → AllDigits s → All tpl_isdigit s
unfolding is_digit tpl_isdigit
all_digits [] all = tt
all_digits (c ∷ s) (d, all) = (d, all_digits s all)

digits_of-IsNumeral : (n : ℕ) → n ≢ 0 → n < 2 ^ 32 → IsNumeral n (digits_of n)
unfolding parse_digits
digits_of-IsNumeral n h l =
    let (all, means) = itoa_digits_lem (λ d. b'0' + d) decimal 10 n (omega arith) (omega arith) in
    let short = length-itoa_digits (λ d. b'0' + d) 10 n 10 in
    numeral (digits_of n) all means
      (rw (length-reverse (itoa_digits (λ d. b'0' + d) 10 n 10)) short)
  where
    numeral : (s : List ℕ) → AllDigits s → parse_digits 0 s ≡ n → length s ≤ 10 → IsNumeral n s
    numeral [] all means short = absurd (h (sym means))
    numeral (c ∷ s) all means short =
        let (d, ds) = all_digits (c ∷ s) all in
        record {
          first = c;
          rest = s;
          made = refl;
          first_digit = d;
          digits = ds;
          short = omega arith;
          means = means;
        }

minus_or_digit : (c : ℕ) → tpl_isdigit c ≡ true → (c == b'-') ≡ false
unfolding tpl_isdigit
minus_or_digit c h = ground arith

abbrev num_tok : ℕ → List ℕ → ℕ → TplTok
num_tok line s n = record (tok line tk_num s) { num = n }

numeral-Spelled : (line n : ℕ) (s : List ℕ) → IsNumeral n s → Spelled line (num_tok line s n)
unfolding tpl_atoi
numeral-Spelled line n s h =
    subst (λ x. Spelled line (num_tok line x n)) (sym h.made)
      (subst (λ m. Spelled line (num_tok line (h.first ∷ h.rest) m)) value_of
        (number h.first h.rest h.first_digit h.digits (omega (arith, h.short))))
  where
    value_of : tpl_atoi (h.first ∷ h.rest) ≡ n
    value_of = rw (minus_or_digit h.first h.first_digit) h.means

minus_numeral-Spelled :
    (line n m : ℕ) (s : List ℕ)
    → IsNumeral m s
    → neg32 m ≡ n
    → Spelled line (num_tok line (b'-' ∷ s) n)
unfolding tpl_atoi
minus_numeral-Spelled line n m s h e =
    subst (λ x. Spelled line (num_tok line (b'-' ∷ x) n)) (sym h.made)
      (subst (λ k. Spelled line (num_tok line (b'-' ∷ h.first ∷ h.rest) k)) value_of
        (minus_number h.first h.rest h.first_digit h.digits (omega (arith, h.short))))
  where
    value_of : tpl_atoi (b'-' ∷ h.first ∷ h.rest) ≡ n
    value_of = ap neg32 h.means ∙ e

zero-IsNumeral : IsNumeral 0 (b'0' ∷ [])
unfolding tpl_isdigit parse_digits is_digit
zero-IsNumeral = record {
  first = b'0';
  rest = [];
  made = refl;
  first_digit = refl;
  digits = tt;
  short = omega arith;
  means = refl;
}

neg32-neg32 : (n : ℕ) → n < 2 ^ 32 → neg32 (neg32 n) ≡ n
unfolding neg32
neg32-neg32 n l = ground arith

-- A negative number other than the lowest.
neg32-positive :
    (n : ℕ)
    → n < 2 ^ 32
    → n ≢ 2 ^ 31
    → is_negative n ≡ true
    → (is_negative (neg32 n) ≡ false) × (neg32 n ≢ 0) × (neg32 n < 2 ^ 32)
unfolding neg32
neg32-positive n l h e = (ground arith, λ z. absurd (ground arith), ground arith)

tpl_itoa-positive : (n : ℕ) → (n == 0) ≡ false → is_negative n ≡ false → tpl_itoa n ≡ digits_of n
unfolding tpl_itoa
tpl_itoa-positive n h k = rw (h, k) refl

tpl_itoa-negative :
    (n : ℕ)
    → (n == 0) ≡ false
    → is_negative n ≡ true
    → is_negative (neg32 n) ≡ false
    → tpl_itoa n ≡ b'-' ∷ digits_of (neg32 n)
unfolding tpl_itoa
tpl_itoa-negative n h k l = rw (h, k, l) refl

tpl_itoa-zero : tpl_itoa 0 ≡ b'0' ∷ []
unfolding tpl_itoa
tpl_itoa-zero = refl

-- A number other than the lowest is spelled as one token.
pub number-Spelled :
    (line n : ℕ) → n < 2 ^ 32 → n ≢ 2 ^ 31 → Spelled line (num_tok line (tpl_itoa n) n)
number-Spelled line n l h = elim (Bool-cases (n == 0)) [
  | inl z ↦ rw ((==_iff n 0).0 z, tpl_itoa-zero) (numeral-Spelled line 0 (b'0' ∷ []) zero-IsNumeral)
  | inr nz ↦ elim (Bool-cases (is_negative n)) [
    | inl neg ↦
        let (p, nz', l') = neg32-positive n l h neg in
        rw (tpl_itoa-negative n nz neg p) (
          minus_numeral-Spelled line n (neg32 n) (digits_of (neg32 n))
            (digits_of-IsNumeral (neg32 n) nz' l') (neg32-neg32 n l))
    | inr pos ↦ rw (tpl_itoa-positive n nz pos) (
        numeral-Spelled line n (digits_of n) (digits_of-IsNumeral n (λ z. absurd (ground arith)) l))
  ]
]
