-- ===== src/Division/Laws.antt =====
-- The division of libdiv.c is division.
use Prim.Native.Nat.{bit_or}
use native.Mathlib.Nat.{
  pow-suc, pow-succ', div-le_self, one-le-pow, div-div-eq-div-mul, div-eq_of_lt-le, div-add-mod,
}
use crusader_os_v.Base.{
  ℕ, zero, suc, ◌+◌, ◌*◌, ◌/◌, ◌%◌, ◌^◌, ◌≤◌, ◌<◌, ◌≡◌, refl, ap, ◌∙◌, sym, arith, leb, ◌==◌,
  Bool-cases, inl, inr, false,
}
use crusader_os_v.Bits.{bit, bit-lt, bit_or-disjoint}
use crusader_os_v.Division.{Division, divide_step, divide_from, udivdi3, umoddi3}

-- The high bits of `a`, down to bit `i`, are divided: `q` has the quotient's bits in their places.
record IsDivided (a b i : ℕ) (d : Division) : Type 0 where
  m : ℕ
  quotient : d.q ≡ m * 2 ^ i
  divided : m * b + d.r ≡ a / 2 ^ i
  remainder : d.r < b

next_bit : (a i : ℕ) → a / 2 ^ i ≡ a / 2 ^ suc i * 2 + bit a i
unfolding bit
next_bit a i =
    let e : a / 2 ^ suc i ≡ a / 2 ^ i / 2 = rw (pow-suc, ← div-div-eq-div-mul) refl in
    omega (arith, e)

-- The shift of the remainder loses no bit: it is at most the high bits of `a`.
shift_fits : (a i r : ℕ) → a < 2 ^ 64 → r ≤ a / 2 ^ suc i → r * 2 % 2 ^ 64 ≡ r * 2
shift_fits a i r small h =
    let e : a / 2 ^ suc i ≡ a / 2 / 2 ^ i = rw (pow-succ', ← div-div-eq-div-mul) refl in
    omega (arith, e, div-le_self (a / 2) (2 ^ i))

-- The new remainder before the test: the old one with the next bit behind it.
shifted :
    (a i r : ℕ)
    → a < 2 ^ 64
    → r ≤ a / 2 ^ suc i
    → bit_or (r * 2 % 2 ^ 64) (bit a i) ≡ r * 2 + bit a i
shifted a i r small h = rw (shift_fits a i r small h) (bit_or-disjoint 1 r (bit a i) (bit-lt a i))

-- The quotient with its bit `i` set, where its bits up to `i` are 0.
raised : (i m : ℕ) → bit_or (m * 2 ^ suc i) (2 ^ i) ≡ (m * 2 + 1) * 2 ^ i
raised i m =
    bit_or-disjoint (suc i) m (2 ^ i) (omega (arith, pow-suc 2 i, one-le-pow i 2))
    ∙ omega (arith, ap (λ (t : ℕ). m * t) (pow-suc 2 i))

divide_step-IsDivided :
    (a b i : ℕ) (d : Division)
    → a < 2 ^ 64
    → IsDivided a b (suc i) d
    → IsDivided a b i (divide_step a b i d)
unfolding divide_step
divide_step-IsDivided a b i d small v =
    let r = d.r * 2 + bit a i in
    let e = shifted a i d.r small (grind (arith, v.divided)) in
    elim (Bool-cases (leb b r)) [
      | inl fits ↦
          rw (e, fits)
            (record {
              m = v.m * 2 + 1;
              quotient = rw v.quotient (raised i v.m);
              divided = ground (arith, v.divided, next_bit a i);
              remainder = ground (arith, v.remainder, bit-lt a i);
            })
      | inr small ↦
          rw (e, small)
            (record {
              m = v.m * 2;
              quotient = v.quotient ∙ omega (arith, ap (λ (t : ℕ). v.m * t) (pow-suc 2 i));
              divided = ground (arith, v.divided, next_bit a i);
              remainder = ground arith;
            })
    ]

divide_from-IsDivided :
    (a b n : ℕ) (d : Division)
    → a < 2 ^ 64
    → IsDivided a b n d
    → IsDivided a b 0 (divide_from a b n d)
unfolding divide_from
divide_from-IsDivided a b zero d small v = v
divide_from-IsDivided a b (suc i) d small v =
    divide_from-IsDivided a b i (divide_step a b i d) small (divide_step-IsDivided a b i d small v)

IsDivided-all :
    (a b : ℕ) → a < 2 ^ 64 → 0 < b → IsDivided a b 0 (divide_from a b 64 (record { q = 0; r = 0 }))
IsDivided-all a b small pos =
    divide_from-IsDivided a b 64 (record { q = 0; r = 0 }) small
      (record { m = 0; quotient = refl; divided = omega arith; remainder = pos })

div_unique : (a b q r : ℕ) → q * b + r ≡ a → r < b → (q ≡ a / b) × (r ≡ a % b)
div_unique a b q r e l =
    let quotient : a / b ≡ q = div-eq_of_lt-le b (omega arith) (grind arith) in
    (sym quotient, grind (arith, quotient, div-add-mod a b))

-- For every 64-bit dividend and every divisor but 0, `__udivdi3` is the quotient and `__umoddi3` the
-- remainder: the shift of the remainder never loses its highest bit.
pub udivdi3_lem : (a b : ℕ) → a < 2 ^ 64 → 0 < b → (udivdi3 a b ≡ a / b) × (umoddi3 a b ≡ a % b)
unfolding udivdi3 umoddi3
udivdi3_lem a b small pos =
    let v = IsDivided-all a b small pos in
    let d = divide_from a b 64 (record { q = 0; r = 0 }) in
    let some_b : (b == 0) ≡ false = ground arith in
    let q : v.m ≡ d.q = omega (arith, v.quotient) in
    let (eq, er) = div_unique a b v.m d.r (v.divided ∙ omega arith) v.remainder in
    rw (some_b) (sym q ∙ eq, er)
