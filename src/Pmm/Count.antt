-- ===== src/Pmm/Count.antt =====
-- The count of used frames is the number of frames marked in the bitmap.
use crusader_os_v.Base.{
  ℕ, zero, suc, ◌+◌, ◌/◌, ◌^◌, ◌≤◌, ◌<◌, ◌≡◌, refl, sym, inl, inr, arith, ltb, ◌==◌, if◌then◌else◌,
}
use crusader_os_v.Bitmap
use crusader_os_v.Bitmap.{Words}
use crusader_os_v.Pmm.{
  Pmm, pmm_init, clear_region, pmm_init_region, pmm_alloc_block, pmm_free_block, max_blocks,
  block_size, decr,
}
use crusader_os_v.Pmm.Alloc.{full_word, pmm_alloc_block_lem}

-- The number of marked frames below `n`.
unfoldable pub count_marked : Words → ℕ → ℕ
count_marked bm zero = 0
count_marked bm (suc n) = Bitmap.test 32 bm n + count_marked bm n

count_marked-le : (bm : Words) (n : ℕ) → count_marked bm n ≤ n
unfolding count_marked
count_marked-le bm zero = omega arith
count_marked-le bm (suc n) = omega (arith, count_marked-le bm n, Bitmap.test-lt 32 bm n)

count_marked-marked :
    (bm bm' : Words) (i n : ℕ)
    → ((j : ℕ) → Bitmap.test 32 bm' j ≡ (if j == i then 1 else Bitmap.test 32 bm j))
    → count_marked bm' n + (if ltb i n then Bitmap.test 32 bm i else 0)
      ≡ count_marked bm n + (if ltb i n then 1 else 0)
unfolding count_marked
count_marked-marked bm bm' i zero h = ground arith
count_marked-marked bm bm' i (suc n) h = ground (arith, count_marked-marked bm bm' i n h, h n)

count_marked-unmark :
    (bm : Words) (i n : ℕ)
    → count_marked (Bitmap.unmark 32 bm i) n + (if ltb i n then Bitmap.test 32 bm i else 0)
      ≡ count_marked bm n
unfolding count_marked
count_marked-unmark bm i zero = ground arith
count_marked-unmark bm i (suc n) =
    ground (arith, count_marked-unmark bm i n, Bitmap.test-unmark 32 bm i n (omega arith))

count_marked-all :
    (bm : Words) (n : ℕ) → ((j : ℕ) → j < n → Bitmap.test 32 bm j ≡ 1) → count_marked bm n ≡ n
unfolding count_marked
count_marked-all bm zero h = refl
count_marked-all bm (suc n) h =
    omega (arith, count_marked-all bm n (λ j l. h j (omega arith)), h n (omega arith))

-- The count agrees with the bitmap, for the frames below `m`.
abbrev pub CountsBelow : ℕ → Pmm → Type 0
CountsBelow m s = s.used_blocks ≡ count_marked s.bitmap m

abbrev pub IsCounted : Pmm → Type 0
IsCounted s = CountsBelow max_blocks s

-- Frames that are marked are cleared one by one, each taken off the count.
clear_region_lem :
    (m n i : ℕ) (s : Pmm)
    → m ≤ 2 ^ 20
    → i + n ≤ m
    → 0 < i
    → CountsBelow m s
    → ((j : ℕ) → j < m → (j ≡ 0) → Bitmap.test 32 s.bitmap j ≡ 1)
    → ((j : ℕ) → i ≤ j → j < m → Bitmap.test 32 s.bitmap j ≡ 1)
    → CountsBelow m (clear_region i n s)
      × (0 < m → Bitmap.test 32 (clear_region i n s).bitmap 0 ≡ 1)
unfolding clear_region
clear_region_lem m zero i s cap l p counted first marked = (counted, λ q. first 0 q refl)
clear_region_lem m (suc n) i s cap l p counted first marked =
    clear_region_lem m n (i + 1)
      (record { bitmap = Bitmap.unmark 32 s.bitmap i; used_blocks = decr s.used_blocks }) cap
      (omega arith) (omega arith)
      (ground (
        arith,
        count_marked-unmark s.bitmap i m,
        marked i (omega arith) (omega arith),
        count_marked-le s.bitmap m,
      ))
      (λ j lo z. ground (arith, Bitmap.test-unmark 32 s.bitmap i j (omega arith), first j lo z))
      (λ j lo hi.
        ground (arith, Bitmap.test-unmark 32 s.bitmap i j (omega arith), marked j (omega arith) hi))

pmm_init-full : (s : Pmm) (j : ℕ) → j < max_blocks → Bitmap.test 32 (pmm_init s).bitmap j ≡ 1
unfolding pmm_init
pmm_init-full s j l =
    full_word (pmm_init s).bitmap (j / 32) j (ground arith) (omega arith) (omega arith)

-- Freeing a region of the memory after the start leaves the count right, and frame 0 in use: a region that
-- does not begin in frame 0 and ends within the memory.
pub pmm_init_region-IsCounted :
    (base_addr size : ℕ) (s : Pmm)
    → 0 < base_addr / block_size
    → base_addr / block_size + size / block_size ≤ max_blocks
    → IsCounted (pmm_init_region base_addr size (pmm_init s))
unfolding pmm_init_region pmm_init
pmm_init_region-IsCounted base_addr size s p l =
    let start = pmm_init s in
    let counted : IsCounted start =
      sym (count_marked-all start.bitmap max_blocks (pmm_init-full s)) in
    let s' = clear_region (base_addr / block_size) (size / block_size) start in
    let (counted', first) =
      clear_region_lem max_blocks (size / block_size) (base_addr / block_size) start (omega arith) l
        p counted (λ j lo z. pmm_init-full s j lo) (λ j lo hi. pmm_init-full s j hi) in
    ground (
      arith,
      count_marked-marked s'.bitmap (Bitmap.mark 32 s'.bitmap 0) 0 max_blocks
          (Bitmap.test-mark 32 s'.bitmap 0),
      counted',
      first,
    )

pmm_free_block-IsCounted :
    (s : Pmm) (addr : ℕ)
    → IsCounted s
    → addr / block_size < max_blocks
    → Bitmap.test 32 s.bitmap (addr / block_size) ≡ 1
    → IsCounted (pmm_free_block addr s)
unfolding pmm_free_block
pmm_free_block-IsCounted s addr counted l used = ground (
  arith,
  count_marked-le s.bitmap max_blocks,
  count_marked-unmark s.bitmap (addr / block_size) max_blocks,
)

-- The count stays right when a frame is taken, whether or not there is one, and when one in use is freed.
pub pmm_alloc_block-IsCounted :
    (s : Pmm)
    → IsCounted s
    → IsCounted (pmm_alloc_block s).1
      × ((addr : ℕ)
          → addr / block_size < max_blocks
          → Bitmap.test 32 s.bitmap (addr / block_size) ≡ 1
          → IsCounted (pmm_free_block addr s))
pmm_alloc_block-IsCounted s counted = (
  elim (pmm_alloc_block_lem s) [
    | inl none_left ↦ rw none_left.unchanged counted
    | inr (i, taken) ↦ ground (
      arith,
      taken.counted,
      taken.was_free,
      taken.in_memory,
      count_marked-le (pmm_alloc_block s).1.bitmap max_blocks,
      count_marked-marked s.bitmap (pmm_alloc_block s).1.bitmap i max_blocks taken.marked,
    )
  ],
  λ addr l used. pmm_free_block-IsCounted s addr counted l used,
)
