-- ===== src/Text/Decimal.antt =====
-- What `itoa` writes in base 10 is what `str_to_int` and `atoi` read.
use native.Mathlib.Nat.{pow-suc}
use mathlib.Core.List.{reverse-cons}
use crusader_os_v.Base.{
  ℕ, zero, suc, ◌+◌, ◌-◌, ◌*◌, ◌/◌, ◌%◌, ◌^◌, ◌<◌, ◌≡◌, refl, ◌∙◌, arith, true, false, List, [],
  ◌∷◌, ◌++◌, ◌==◌, reverse, Bool-cases, inl, inr,
}
use crusader_os_v.Base.Int.{ℤ, pos, negsuc}
use crusader_os_v.Text.Numbers.{
  digit_char, itoa_digits, itoa_value, itoa, is_digit, parse_digits, str_to_int, is_space,
  skip_space, sign_of, atoi,
}

abbrev pub AllDigits : List ℕ → Type 0
AllDigits [] = Unit {0}
AllDigits (c ∷ cs) = (is_digit c ≡ true) × AllDigits cs

AllDigits-snoc : (xs : List ℕ) (c : ℕ) → AllDigits xs → is_digit c ≡ true → AllDigits (xs ++ c ∷ [])
AllDigits-snoc [] c all d = (d, tt)
AllDigits-snoc (x ∷ xs) c (e, all) d = (e, AllDigits-snoc xs c all d)

parse_digits-snoc :
    (xs : List ℕ) (c res : ℕ)
    → AllDigits xs
    → is_digit c ≡ true
    → parse_digits res (xs ++ c ∷ []) ≡ (parse_digits res xs * 10 + (c - b'0')) % 2 ^ 32
unfolding parse_digits
parse_digits-snoc [] c res all d = rw d refl
parse_digits-snoc (x ∷ xs) c res (e, all) d =
    rw e (parse_digits-snoc xs c ((res * 10 + (x - b'0')) % 2 ^ 32) all d)

digit_char-digit : (d : ℕ) → d < 10 → (is_digit (digit_char d) ≡ true) × (digit_char d - b'0' ≡ d)
unfolding digit_char is_digit
digit_char-digit d l = ground arith

-- A function that gives the characters of the digits of base 10.
abbrev pub IsDigitChar : (ℕ → ℕ) → Type 0
IsDigitChar char = (d : ℕ) → d < 10 → (is_digit (char d) ≡ true) × (char d - b'0' ≡ d)

-- The digits, turned round, read as the value.
pub itoa_digits_lem :
    (char : ℕ → ℕ) (chars : IsDigitChar char) (fuel v : ℕ)
    → v < 10 ^ fuel
    → v < 2 ^ 32
    → AllDigits (reverse (itoa_digits char fuel v 10))
      × (parse_digits 0 (reverse (itoa_digits char fuel v 10)) ≡ v)
unfolding itoa_digits parse_digits
itoa_digits_lem char chars zero v l small = (tt, omega arith)
itoa_digits_lem char chars (suc fuel) v l small = elim (Bool-cases (v == 0)) [
  | inl done ↦ rw done (tt, ground arith)
  | inr more ↦
      let rest = itoa_digits char fuel (v / 10) 10 in
      let (all, value) =
        itoa_digits_lem char chars fuel (v / 10) (omega (arith, pow-suc 10 fuel)) (omega arith) in
      let (digit, same) = chars (v % 10) (omega arith) in
      rw (more, reverse-cons (char (v % 10)) rest)
        (
          AllDigits-snoc (reverse rest) (char (v % 10)) all digit,
          parse_digits-snoc (reverse rest) (char (v % 10)) 0 all digit ∙ omega (arith, value, same),
        )
]

zero_text : str_to_int (b'0' ∷ []) ≡ 0
unfolding str_to_int parse_digits is_digit
zero_text = refl

-- Every `int` that is not negative is read back by `str_to_int` from the text that `itoa` writes in base 10.
pub str_to_int-itoa : (n : ℕ) → n < 2 ^ 31 → str_to_int (itoa (pos n) 10) ≡ n
unfolding str_to_int itoa itoa_value
str_to_int-itoa zero l = zero_text
str_to_int-itoa (suc n) l =
    (itoa_digits_lem digit_char digit_char-digit 32 (suc n) (omega arith) (omega arith)).1

sign_of-digits : (xs : List ℕ) → AllDigits xs → sign_of (skip_space xs) ≡ (false, xs)
unfolding sign_of skip_space is_space is_digit
sign_of-digits [] all = refl
sign_of-digits (c ∷ xs) (d, all) = ground arith

sign_of-minus : (xs : List ℕ) → sign_of (skip_space (b'-' ∷ xs)) ≡ (true, xs)
unfolding sign_of skip_space is_space
sign_of-minus xs = refl

-- The 32-bit pattern of an `int`.
abbrev pub pattern_of : ℤ → ℕ
pattern_of (pos n) = n
pattern_of (negsuc n) = 2 ^ 32 - (n + 1)

abbrev pub IsInt : ℤ → Type 0
IsInt (pos n) = n < 2 ^ 31
IsInt (negsuc n) = n + 1 < 2 ^ 31

zero_text-atoi : atoi (b'0' ∷ []) ≡ 0
unfolding atoi parse_digits is_digit sign_of skip_space is_space
zero_text-atoi = refl

-- Every `int` of either sign, but the lowest, is read back by `atoi` from the text that `itoa` writes in base 10.
pub atoi-itoa : (z : ℤ) → IsInt z → atoi (itoa z 10) ≡ pattern_of z
unfolding atoi itoa itoa_value
atoi-itoa (pos zero) ok = zero_text-atoi
atoi-itoa (pos (suc n)) ok =
    let digits = reverse (itoa_digits digit_char 32 (suc n) 10) in
    let (all, value) =
      itoa_digits_lem digit_char digit_char-digit 32 (suc n) (omega arith) (omega arith) in
    rw (sign_of-digits digits all, value) (omega arith)
atoi-itoa (negsuc n) ok =
    let digits = reverse (itoa_digits digit_char 32 (suc n) 10) in
    let (all, value) =
      itoa_digits_lem digit_char digit_char-digit 32 (suc n) (omega arith) (omega arith) in
    rw (sign_of-minus digits, value) (omega arith)
