-- ===== src/Bits/Step.antt =====
-- One binary digit of `|` and `&`: the library's operations as a recursion with no fuel.
use Prim.Native.Nat.{min, max, digits, bit_and, bit_or, bit_and-bitwise, bit_or-bitwise}
use native.Mathlib.Nat.{le_refl}
use crusader_os_v.Base.{ℕ, zero, suc, ◌+◌, ◌*◌, ◌/◌, ◌%◌, ◌≤◌, ◌≡◌, refl, arith}

-- The fuel of `digits` does not matter once it covers the number.
same_digits :
    (z : ℕ → ℕ) (op : ℕ → ℕ → ℕ) (k l x y : ℕ)
    → x ≤ k
    → x ≤ l
    → digits z op k x y ≡ digits z op l x y
same_digits z op zero zero x y p q = refl
same_digits z op zero (suc l) zero y p q = refl
same_digits z op zero (suc l) (suc x) y p q = elim p [ ]
same_digits z op (suc k) l zero y p q =
    elim l as (λ l. digits z op (suc k) 0 y ≡ digits z op l 0 y) [ zero ↦ refl | suc l ↦ refl ]
same_digits z op (suc k) zero (suc x) y p q = elim q [ ]
same_digits z op (suc k) (suc l) (suc x) y p q =
    rw (same_digits z op k l (suc x / 2) (y / 2) (omega arith) (omega arith))

pub bit_or_step : (x y : ℕ) → bit_or x y ≡ bit_or (x / 2) (y / 2) * 2 + max (x % 2) (y % 2)
bit_or_step zero y = simp bit_or-bitwise (omega arith)
bit_or_step (suc x) y = simp bit_or-bitwise (
    omega
      (arith, same_digits (λ t. t) max x (suc x / 2) (suc x / 2) (y / 2) (omega arith) (le_refl _)))

pub bit_and_step : (x y : ℕ) → bit_and x y ≡ bit_and (x / 2) (y / 2) * 2 + min (x % 2) (y % 2)
bit_and_step zero y = simp bit_and-bitwise (omega arith)
bit_and_step (suc x) y = simp bit_and-bitwise (
    omega
      (arith, same_digits (λ t. 0) min x (suc x / 2) (suc x / 2) (y / 2) (omega arith) (le_refl _)))
