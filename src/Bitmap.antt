-- ===== src/Bitmap.antt =====
-- A bitmap: an array of words of which bit `i % w` of word `i / w` stands for item `i`. The array is
-- a function from the index of a word. pmm.c has words of 32 bits, fs.c words of 8.
use native.Mathlib.Nat.{div-add-mod, mod-lt}
use crusader_os_v.Base.{ℕ, ◌/◌, ◌%◌, ◌<◌, ◌≡◌, arith, ◌==◌, if◌then◌else◌, update}
use crusader_os_v.Bits.{bit, set_bit, clear_bit, bit-set_bit, bit-clear_bit, bit-lt}

abbrev pub Words : Type 0
Words = ℕ → ℕ

module _ (w : ℕ) where
  -- The bit of item `i`.
  unfoldable pub test : Words → ℕ → ℕ
  test bm i = bit (bm (i / w)) (i % w)

  unfoldable pub mark : Words → ℕ → Words
  mark bm i = update bm (i / w) (set_bit (bm (i / w)) (i % w))

  unfoldable pub unmark : Words → ℕ → Words
  unmark bm i = update bm (i / w) (clear_bit w (bm (i / w)) (i % w))

  pub test-lt : (bm : Words) (i : ℕ) → test bm i < 2
  unfolding test
  test-lt bm i = bit-lt (bm (i / w)) (i % w)

  pub test-mark : (bm : Words) (i j : ℕ) → test (mark bm i) j ≡ (if j == i then 1 else test bm j)
  unfolding test mark
  test-mark bm i j =
      ground (arith, bit-set_bit (bm (i / w)) (i % w) (j % w), div-add-mod i w, div-add-mod j w)

  pub test-unmark :
      (bm : Words) (i j : ℕ) → 0 < w → test (unmark bm i) j ≡ (if j == i then 0 else test bm j)
  unfolding test unmark
  test-unmark bm i j h = ground (
    arith,
    bit-clear_bit w (bm (i / w)) (i % w) (j % w) (mod-lt i h) (mod-lt j h),
    div-add-mod i w,
    div-add-mod j w,
  )
