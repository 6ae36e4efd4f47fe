-- ===== src/Division.antt =====
-- libdiv.c: 64-bit division for the compiler, bit by bit.
pub mod Laws
use Prim.Native.Nat.{bit_or}
use crusader_os_v.Base.{ℕ, zero, suc, ◌+◌, ◌-◌, ◌*◌, ◌^◌, ◌%◌, ◌==◌, leb, if◌then◌else◌}
use crusader_os_v.Bits.{bit}

abbrev pub u64_mod : ℕ
u64_mod = 2 ^ 64

-- The quotient and the remainder so far.
pub record Division : Type 0 where
  pub q : ℕ
  pub r : ℕ

-- The body of the loop at the bit `i`.
unfoldable pub divide_step : ℕ → ℕ → ℕ → Division → Division
divide_step a b i d =
    let r = bit_or (d.r * 2 % u64_mod) (bit a i) in
    if leb b r then (record { q = bit_or d.q (2 ^ i); r = r - b }) else (record { q = d.q; r = r })

-- `for (i = n - 1; i >= 0; --i)`
unfoldable pub divide_from : ℕ → ℕ → ℕ → Division → Division
divide_from a b zero d = d
divide_from a b (suc i) d = divide_from a b i (divide_step a b i d)

unfoldable pub udivdi3 : ℕ → ℕ → ℕ
udivdi3 a b = if b == 0 then u64_mod - 1 else (divide_from a b 64 (record { q = 0; r = 0 })).q

unfoldable pub umoddi3 : ℕ → ℕ → ℕ
umoddi3 a b = if b == 0 then a else (divide_from a b 64 (record { q = 0; r = 0 })).r
