-- ===== src/Console/Format/Laws.antt =====
-- The text of a 64-bit number is its decimal text.
use native.Mathlib.Nat.{pow-suc, div-add-mod', mod-lt, mul-le-mul_right}
use mathlib.Core.Path.{subst}
use crusader_os_v.Base.{
  ℕ, zero, suc, ◌+◌, ◌-◌, ◌*◌, ◌/◌, ◌%◌, ◌^◌, ◌<◌, ◌≤◌, ◌≡◌, refl, ap, ◌∙◌, arith, true, List, [],
  ◌∷◌, ◌==◌, leb, ltb, length, Bool-cases, inl, inr, dec_lt, leb→le, sym,
}
use crusader_os_v.Console.Format.{first_div, div_digits, llu_text}

-- The number that decimal digits stand for.
abbrev pub decimal_value : List ℕ → ℕ
decimal_value [] = 0
decimal_value (c ∷ cs) = (c - b'0') * 10 ^ length cs + decimal_value cs

abbrev pub AreDigits : List ℕ → Type 0
AreDigits [] = Unit {0}
AreDigits (c ∷ cs) = (b'0' ≤ c) × (c ≤ b'9') × AreDigits cs

positive : (k : ℕ) → 0 < 10 ^ k
positive zero = omega arith
positive (suc k) = omega (arith, pow-suc 10 k, positive k)

digit-lt : (v k : ℕ) → v < 10 ^ suc k → v / 10 ^ k < 10
digit-lt v k l = elim (dec_lt (v / 10 ^ k) 10) [
  | yes small ↦ small
  | no big ↦ absurd (
      omega (
        arith,
        div-add-mod' v (10 ^ k),
        pow-suc 10 k,
        mul-le-mul_right {m = 10} {n = v / 10 ^ k} (10 ^ k) (omega arith),
      ))
]

div_digits-zero : (fuel v : ℕ) → div_digits fuel v 0 ≡ []
unfolding div_digits
div_digits-zero zero v = refl
div_digits-zero (suc fuel) v = refl

div_digits_lem :
    (k fuel v : ℕ)
    → k < fuel
    → v < 10 ^ suc k
    → (length (div_digits fuel v (10 ^ k)) ≡ suc k)
      × (decimal_value (div_digits fuel v (10 ^ k)) ≡ v)
      × AreDigits (div_digits fuel v (10 ^ k))
unfolding div_digits
div_digits_lem k zero v l m = absurd (omega arith)
div_digits_lem zero (suc fuel) v l m =
    rw (div_digits-zero fuel (v % 1)) (refl, omega arith, (omega arith, omega arith, tt))
div_digits_lem (suc k) (suc fuel) v l m =
    let rest : 10 ^ suc k / 10 ≡ 10 ^ k = omega (arith, pow-suc 10 k) in
    let some : ltb 0 (10 ^ suc k) ≡ true = ground (arith, positive (suc k)) in
    let (len, value, digits) =
      div_digits_lem k fuel (v % 10 ^ suc k) (omega arith) (mod-lt v (positive (suc k))) in
    rw (some, rest, len, value)
      (
        refl,
        (let digit : b'0' + v / 10 ^ suc k - b'0' ≡ v / 10 ^ suc k = omega arith in
            rw digit (div-add-mod' v (10 ^ suc k))),
        (omega arith, omega (arith, digit-lt v (suc k) m), digits),
      )

-- The search stops at the highest power of ten that is not above the number.
first_div_lem :
    (fuel j v : ℕ)
    → v < 10 ^ (j + fuel)
    → 10 ^ j ≤ v
    → (k : ℕ) × (k < j + fuel)
      × (first_div fuel v (10 ^ j) ≡ 10 ^ k)
      × (10 ^ k ≤ v)
      × (v < 10 ^ suc k)
unfolding first_div
first_div_lem zero j v l m =
    absurd (let e : j + 0 ≡ j = omega arith in omega (arith, ap (λ t. 10 ^ t) e))
first_div_lem (suc fuel) j v l m = elim (Bool-cases (leb (10 ^ j) (v / 10))) [
  | inl more ↦
      let next : 10 ^ j * 10 ≡ 10 ^ (j + 1) = sym (pow-suc 10 j) ∙ ap (λ t. 10 ^ t) (omega arith) in
      let e : j + 1 + fuel ≡ j + suc fuel = omega arith in
      let (k, kl, at, lo, hi) =
        first_div_lem fuel (j + 1) v (subst (λ t. v < 10 ^ t) (sym e) l)
          (omega (arith, leb→le (10 ^ j) (v / 10) more, next)) in
      (k, omega arith, rw (more, next) at, lo, hi)
  | inr stop ↦ (j, omega arith, rw stop refl, m, ground (arith, pow-suc 10 j))
]

-- The text of %llu for every 64-bit number consists of digits, stands for the number, and has no zero in front but for 0
-- itself.
pub llu_text_lem :
    (v : ℕ)
    → v < 2 ^ 64
    → (decimal_value (llu_text v) ≡ v)
      × AreDigits (llu_text v)
      × (0 < length (llu_text v))
      × (0 < v → 10 ^ (length (llu_text v) - 1) ≤ v)
unfolding llu_text
llu_text_lem v l = elim (Bool-cases (v == 0)) [
  | inl none ↦
      rw none
        (ground arith, (omega arith, omega arith, tt), omega arith, λ p. absurd (ground arith))
  | inr some ↦
      let (k, kl, at, lo, hi) = first_div_lem 20 0 v (omega arith) (ground arith) in
      let (len, value, digits) = div_digits_lem k 21 v (omega arith) hi in
      rw (some, at)
        (value, digits, omega (arith, len), λ p. subst (λ t. 10 ^ t ≤ v) (omega (arith, len)) lo)
]
