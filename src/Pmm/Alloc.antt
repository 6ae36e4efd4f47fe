-- ===== src/Pmm/Alloc.antt =====
-- `pmm_alloc_block` takes the first free frame.
use mathlib.Core.Path.{subst}
use crusader_os_v.Base.{
  ℕ, zero, suc, ◌+◌, ◌-◌, ◌*◌, ◌/◌, ◌%◌, ◌^◌, ◌≤◌, ◌<◌, ◌≡◌, refl, ◌⊎◌, inl, inr, true, arith, ◌==◌,
  if◌then◌else◌, Bool-cases, Option, none, some, dec_lt, all_below, all_below_sound, Option-cases,
}
use crusader_os_v.Bits.{bit}
use crusader_os_v.Bitmap
use crusader_os_v.Bitmap.{Words}
use crusader_os_v.Pmm.{Pmm, free_bit, free_frame, pmm_alloc_block, max_blocks, block_size, incr}

-- `found` is the first free frame from `i` on, below `m`; `none` if there is none.
abbrev pub IsFirstFree : Words → ℕ → ℕ → Option ℕ → Type 0
IsFirstFree bm i m none = (j : ℕ) → i ≤ j → j < m → Bitmap.test 32 bm j ≡ 1
IsFirstFree bm i m (some k) =
    (i ≤ k)
    × (k < m)
    × (Bitmap.test 32 bm k ≡ 0)
    × ((j : ℕ) → i ≤ j → j < k → Bitmap.test 32 bm j ≡ 1)

full_table : all_below 32 (λ j. bit (2 ^ 32 - 1) j == 1) ≡ true
unfolding bit
full_table = refl

pub full_word :
    (bm : Words) (i j : ℕ)
    → bm i ≡ 2 ^ 32 - 1
    → i * 32 ≤ j
    → j < i * 32 + 32
    → Bitmap.test 32 bm j ≡ 1
unfolding Bitmap.test
full_word bm i j h l m =
    let word : j / 32 ≡ i = omega arith in
    rw (word, h)
      (ground (
        arith,
        all_below_sound 32 (λ j. bit (2 ^ 32 - 1) j == 1) (j % 32) full_table (omega arith),
      ))

-- A search that starts later finds the same frame if those before are in use.
widen :
    (bm : Words) (i k m : ℕ) (found : Option ℕ)
    → i ≤ k
    → ((j : ℕ) → i ≤ j → j < k → Bitmap.test 32 bm j ≡ 1)
    → IsFirstFree bm k m found
    → IsFirstFree bm i m found
widen bm i k m none l used h =
    λ j lo hi. elim (dec_lt j k) [ yes p ↦ used j lo p | no p ↦ h j (omega arith) hi ]
widen bm i k m (some n) l used (a, b, c, d) = (
  omega arith,
  b,
  c,
  λ j lo hi. elim (dec_lt j k) [ yes p ↦ used j lo p | no p ↦ d j (omega arith) hi ],
)

free_bit_lem : (bm : Words) (n i : ℕ) → IsFirstFree bm i (i + n) (free_bit bm n i)
unfolding free_bit
free_bit_lem bm zero i = λ j l m. absurd (omega arith)
free_bit_lem bm (suc n) i = elim (Bool-cases (Bitmap.test 32 bm i == 0)) [
  | inl free ↦ rw free (omega arith, omega arith, ground arith, λ j l m. absurd (omega arith))
  | inr taken ↦ rw taken (
      widen bm i (i + 1) (i + suc n) (free_bit bm n (i + 1)) (omega arith)
        (λ j l m.
          let same : j ≡ i = omega arith in rw same (ground (arith, Bitmap.test-lt 32 bm i)))
        (let e : i + suc n ≡ i + 1 + n = omega arith in rw e (free_bit_lem bm n (i + 1))))
]

after_word :
    (bm : Words) (i m : ℕ) (rest here : Option ℕ)
    → i * 32 + 32 ≤ m
    → IsFirstFree bm (i * 32) (i * 32 + 32) here
    → IsFirstFree bm ((i + 1) * 32) m rest
    → IsFirstFree bm (i * 32) m (elim here [ some found ↦ some found | none ↦ rest ])
after_word bm i m rest none l here after =
    widen bm (i * 32) ((i + 1) * 32) m rest (omega arith) (λ j lo hi. here j lo (omega arith)) after
after_word bm i m rest (some k) l (a, b, c, d) after = (a, omega arith, c, d)

free_frame_lem : (bm : Words) (n i : ℕ) → IsFirstFree bm (i * 32) ((i + n) * 32) (free_frame bm n i)
unfolding free_frame
free_frame_lem bm zero i = λ j l m. absurd (omega arith)
free_frame_lem bm (suc n) i =
    let rest : IsFirstFree bm ((i + 1) * 32) ((i + suc n) * 32) (free_frame bm n (i + 1)) =
      (let e : i + suc n ≡ i + 1 + n = omega arith in rw e (free_frame_lem bm n (i + 1))) in
    elim (Bool-cases (bm i == 2 ^ 32 - 1)) [
      | inl full ↦ rw full (
          widen bm (i * 32) ((i + 1) * 32) ((i + suc n) * 32) (free_frame bm n (i + 1))
            (omega arith) (λ j l m. full_word bm i j (ground arith) l (omega arith)) rest)
      | inr part ↦ rw part (
          after_word bm i ((i + suc n) * 32) (free_frame bm n (i + 1)) (free_bit bm 32 (i * 32))
            (omega arith) (free_bit_lem bm 32 (i * 32)) rest)
    ]

-- The machine after frame `i` was taken.
pub record Taken (s : Pmm) (i : ℕ) (addr : ℕ) (s' : Pmm) : Type 0 where
  pub in_memory : i < max_blocks
  pub address : addr ≡ i * block_size
  pub was_free : Bitmap.test 32 s.bitmap i ≡ 0
  pub first : (j : ℕ) → j < i → Bitmap.test 32 s.bitmap j ≡ 1
  pub marked :
      (j : ℕ) → Bitmap.test 32 s'.bitmap j ≡ (if j == i then 1 else Bitmap.test 32 s.bitmap j)
  pub counted : s'.used_blocks ≡ incr s.used_blocks

-- Every frame is in use and nothing was done.
pub record IsExhausted (s : Pmm) (addr : ℕ) (s' : Pmm) : Type 0 where
  pub null : addr ≡ 0
  pub unchanged : s' ≡ s
  pub full : (j : ℕ) → j < max_blocks → Bitmap.test 32 s.bitmap j ≡ 1

-- Either every frame is in use, and the result is the null pointer and nothing changes, or the result is the
-- address of the first free frame, which is marked, and no other, and counted as used.
pub pmm_alloc_block_lem :
    (s : Pmm)
    → IsExhausted s (pmm_alloc_block s).0 (pmm_alloc_block s).1
      ⊎ ((i : ℕ) × Taken s i (pmm_alloc_block s).0 (pmm_alloc_block s).1)
unfolding pmm_alloc_block
pmm_alloc_block_lem s =
    let found = free_frame s.bitmap (max_blocks / 32) 0 in
    elim (Option-cases found) [
      | inl none_left ↦ inl (
          rw (pmm_alloc_block, none_left)
            (record {
              null = refl;
              unchanged = refl;
              full = λ j l.
                  subst (IsFirstFree s.bitmap 0 max_blocks) none_left
                    (free_frame_lem s.bitmap (max_blocks / 32) 0) j (omega arith) l;
            }))
      | inr (i, is_some) ↦ inr (
        i,
        rw (pmm_alloc_block, is_some)
            (let (lo, hi, free, used) =
                subst (IsFirstFree s.bitmap 0 max_blocks) is_some
                  (free_frame_lem s.bitmap (max_blocks / 32) 0) in
              record {
                in_memory = hi;
                address = omega arith;
                was_free = free;
                first = λ j l. used j (omega arith) l;
                marked = λ j. Bitmap.test-mark 32 s.bitmap i j;
                counted = refl;
              }),
      )
    ]
