-- ===== src/Templar/Word.antt =====
-- templar.c: the arithmetic on `int32_t`. A value is its 32-bit pattern; a result that does not fit wraps.
use crusader_os_v.Base.{
  ℕ, ◌+◌, ◌-◌, ◌*◌, ◌/◌, ◌%◌, ◌^◌, Bool, true, false, ◌&&◌, ◌||◌, not, Option, none, some, ◌==◌,
  leb, ltb, if◌then◌else◌,
}

abbrev pub wrap : ℕ → ℕ
wrap n = n % 2 ^ 32

abbrev pub is_negative : ℕ → Bool
is_negative a = leb (2 ^ 31) a

unfoldable pub neg32 : ℕ → ℕ
neg32 a = wrap (2 ^ 32 - wrap a)

unfoldable pub add32 : ℕ → ℕ → ℕ
add32 a b = wrap (a + b)

unfoldable pub sub32 : ℕ → ℕ → ℕ
unfolding neg32
sub32 a b = wrap (a + neg32 b)

unfoldable pub mul32 : ℕ → ℕ → ℕ
mul32 a b = wrap (a * b)

-- The distance from 0.
abbrev pub magnitude : ℕ → ℕ
magnitude a = if is_negative a then 2 ^ 32 - a else a

-- `a < b` for signed values.
unfoldable pub lt32 : ℕ → ℕ → Bool
lt32 a b =
    if is_negative a
    then (if is_negative b then ltb a b else true)
    else (if is_negative b then false else ltb a b)

unfoldable pub le32 : ℕ → ℕ → Bool
unfolding lt32
le32 a b = not (lt32 b a)

-- The division that the processor refuses, with a fault.
abbrev pub faults : ℕ → ℕ → Bool
faults a b = b == 0 || a == 2 ^ 31 && b == 2 ^ 32 - 1

-- `a / b` and `a % b`, rounded to 0: the remainder has the sign of `a`.
unfoldable pub div32 : ℕ → ℕ → Option ℕ
unfolding neg32
div32 a b =
    let q = magnitude a / magnitude b in
    if faults a b
    then none
    else if is_negative a
    then some (if is_negative b then q else neg32 q)
    else some (if is_negative b then neg32 q else q)

unfoldable pub mod32 : ℕ → ℕ → Option ℕ
unfolding neg32
mod32 a b =
    let r = magnitude a % magnitude b in
    if faults a b then none else some (if is_negative a then neg32 r else r)
