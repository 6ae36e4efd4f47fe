-- ===== src/Bits.antt =====
-- Single bits of a word, as the C code tests, sets and clears them.
mod Step
use Step.{bit_or_step, bit_and_step}
use Prim.Native.Nat.{bit_and, bit_or, min, max}
use crusader_os_v.Base.{
  ℕ, zero, suc, ◌+◌, ◌-◌, ◌*◌, ◌/◌, ◌%◌, ◌^◌, ◌≤◌, ◌<◌, ◌≡◌, refl, arith, ◌==◌, if◌then◌else◌, ap,
  ◌∙◌,
}
use native.Mathlib.Nat.{pow-suc, pow-succ', one-le-pow, div-div-eq-div-mul, pow-le-pow_right}

-- `(a >> j) & 1`
unfoldable pub bit : ℕ → ℕ → ℕ
bit a j = a / 2 ^ j % 2

-- `a | (1 << k)`
unfoldable pub set_bit : ℕ → ℕ → ℕ
set_bit a k = bit_or a (2 ^ k)

-- `a & ~(1 << k)` at the width `w`
unfoldable pub clear_bit : ℕ → ℕ → ℕ → ℕ
clear_bit w a k = bit_and a (2 ^ w - 1 - 2 ^ k)

pub bit-zero : (a : ℕ) → bit a 0 ≡ a % 2
unfolding bit
bit-zero a = omega arith

pub bit-suc : (a j : ℕ) → bit a (suc j) ≡ bit (a / 2) j
unfolding bit
bit-suc a j = rw (pow-succ', ← div-div-eq-div-mul) refl

pub bit-lt : (a j : ℕ) → bit a j < 2
unfolding bit
bit-lt a j = omega arith

-- `|` and `&` work on each digit by itself.
pub bit-bit_or : (a b j : ℕ) → bit (bit_or a b) j ≡ max (bit a j) (bit b j)
bit-bit_or a b zero = omega (arith, bit-zero a, bit-zero b, bit-zero (bit_or a b), bit_or_step a b)
bit-bit_or a b (suc j) =
    let half : bit_or a b / 2 ≡ bit_or (a / 2) (b / 2) = omega (arith, bit_or_step a b) in
    rw (bit-suc (bit_or a b) j, half, bit-bit_or (a / 2) (b / 2) j, bit-suc a j, bit-suc b j) refl

pub bit-bit_and : (a b j : ℕ) → bit (bit_and a b) j ≡ min (bit a j) (bit b j)
bit-bit_and a b zero =
    omega (arith, bit-zero a, bit-zero b, bit-zero (bit_and a b), bit_and_step a b)
bit-bit_and a b (suc j) =
    let half : bit_and a b / 2 ≡ bit_and (a / 2) (b / 2) = omega (arith, bit_and_step a b) in
    rw (bit-suc (bit_and a b) j, half, bit-bit_and (a / 2) (b / 2) j, bit-suc a j, bit-suc b j) refl

bit-zero_num : (j : ℕ) → bit 0 j ≡ 0
bit-zero_num zero = bit-zero 0
bit-zero_num (suc j) = bit-suc 0 j ∙ bit-zero_num j

bit-pow : (k j : ℕ) → bit (2 ^ k) j ≡ (if j == k then 1 else 0)
bit-pow zero zero = bit-zero 1
bit-pow zero (suc j) = bit-suc 1 j ∙ bit-zero_num j ∙ ground arith
bit-pow (suc k) zero = bit-zero (2 ^ suc k) ∙ ground (arith, pow-suc 2 k)
bit-pow (suc k) (suc j) =
    let half : 2 ^ suc k / 2 ≡ 2 ^ k = omega (arith, pow-suc 2 k) in
    rw (bit-suc, half, bit-pow k j) (ground arith)

bit-ones : (w j : ℕ) → j < w → bit (2 ^ w - 1) j ≡ 1
bit-ones zero j h = elim h [ ]
bit-ones (suc w) zero h = bit-zero (2 ^ suc w - 1) ∙ omega (arith, pow-suc 2 w, one-le-pow w 2)
bit-ones (suc w) (suc j) h =
    let half : (2 ^ suc w - 1) / 2 ≡ 2 ^ w - 1 = omega (arith, pow-suc 2 w, one-le-pow w 2) in
    bit-suc (2 ^ suc w - 1) j ∙ rw half (bit-ones w j (omega arith))

bit-hole : (w k j : ℕ) → k < w → j < w → bit (2 ^ w - 1 - 2 ^ k) j ≡ (if j == k then 0 else 1)
bit-hole zero k j h l = elim h [ ]
bit-hole (suc w) zero zero h l =
    bit-zero (2 ^ suc w - 1 - 1) ∙ omega (arith, pow-suc 2 w, one-le-pow w 2)
bit-hole (suc w) zero (suc j) h l =
    let half : (2 ^ suc w - 1 - 1) / 2 ≡ 2 ^ w - 1 = omega (arith, pow-suc 2 w, one-le-pow w 2) in
    rw (bit-suc, half, bit-ones w j (omega arith)) (ground arith)
bit-hole (suc w) (suc k) zero h l =
    bit-zero (2 ^ suc w - 1 - 2 ^ suc k)
    ∙ ground (
      arith,
      pow-suc 2 w,
      pow-suc 2 k,
      pow-suc 2 (suc k),
      one-le-pow w 2,
      pow-le-pow_right {n = 2} (omega arith) h,
    )
bit-hole (suc w) (suc k) (suc j) h l =
    let half : (2 ^ suc w - 1 - 2 ^ suc k) / 2 ≡ 2 ^ w - 1 - 2 ^ k =
      omega (arith, pow-suc 2 w, pow-suc 2 k, one-le-pow w 2) in
    rw (bit-suc, half, bit-hole w k j (omega arith) (omega arith)) (ground arith)

-- Setting bit `k` changes that bit and no other.
pub bit-set_bit : (a k j : ℕ) → bit (set_bit a k) j ≡ (if j == k then 1 else bit a j)
unfolding set_bit
bit-set_bit a k j = ground (arith, bit-bit_or a (2 ^ k) j, bit-pow k j, bit-lt a j)

-- Clearing bit `k` of a `w`-bit word changes that bit and no other.
pub bit-clear_bit :
    (w a k j : ℕ) → k < w → j < w → bit (clear_bit w a k) j ≡ (if j == k then 0 else bit a j)
unfolding clear_bit
bit-clear_bit w a k j h l =
    ground (arith, bit-bit_and a (2 ^ w - 1 - 2 ^ k) j, bit-hole w k j h l, bit-lt a j)

bit_and-zero_up_to : (n a : ℕ) → a ≤ n → bit_and a 0 ≡ 0
bit_and-zero_up_to n zero h = refl
bit_and-zero_up_to zero (suc a) h = elim h [ ]
bit_and-zero_up_to (suc n) (suc a) h =
    omega (arith, bit_and_step (suc a) 0, bit_and-zero_up_to n (suc a / 2) (omega arith))

bit_and-zero : (a : ℕ) → bit_and a 0 ≡ 0
bit_and-zero a = bit_and-zero_up_to a a (omega arith)

-- The test `a & (1 << k)` is nonzero exactly when bit `k` is set.
pub bit_and-pow : (k a : ℕ) → bit_and a (2 ^ k) ≡ bit a k * 2 ^ k
bit_and-pow zero a = omega (arith, bit-zero a, bit_and_step a 1, bit_and-zero (a / 2))
bit_and-pow (suc k) a =
    let half : 2 ^ suc k / 2 ≡ 2 ^ k = omega (arith, pow-suc 2 k) in
    rw (bit-suc a k, bit_and_step a (2 ^ suc k), half, bit_and-pow k (a / 2))
      (omega (arith, pow-suc 2 k, ap (λ (t : ℕ). bit (a / 2) k * t) (pow-suc 2 k)))

bit_or-zero_up_to : (n a : ℕ) → a ≤ n → bit_or a 0 ≡ a
bit_or-zero_up_to n zero h = refl
bit_or-zero_up_to zero (suc a) h = elim h [ ]
bit_or-zero_up_to (suc n) (suc a) h =
    omega (arith, bit_or_step (suc a) 0, bit_or-zero_up_to n (suc a / 2) (omega arith))

-- `|` of a number whose low `k` bits are 0 and one that fits in them is their sum.
pub bit_or-disjoint : (k m r : ℕ) → r < 2 ^ k → bit_or (m * 2 ^ k) r ≡ m * 2 ^ k + r
bit_or-disjoint zero m r h =
    let e : r ≡ 0 = omega arith in
    rw e (bit_or-zero_up_to (m * 1) (m * 1) (omega arith) ∙ omega arith)
bit_or-disjoint (suc k) m r h =
    let double : m * 2 ^ suc k ≡ m * 2 ^ k * 2 =
      omega (arith, ap (λ (t : ℕ). m * t) (pow-suc 2 k)) in
    let half : m * 2 ^ k * 2 / 2 ≡ m * 2 ^ k = omega arith in
    rw
      (
        double,
        bit_or_step (m * 2 ^ k * 2) r,
        half,
        bit_or-disjoint k m (r / 2) (omega (arith, pow-suc 2 k)),
      )
      (omega arith)
