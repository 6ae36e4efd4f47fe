-- ===== src/Pmm.antt =====
-- The allocator of page frames of pmm.c: a bitmap of 32-bit words and a count of the used frames.
pub mod Alloc
pub mod Count
use crusader_os_v.Base.{
  ℕ, zero, suc, ◌+◌, ◌-◌, ◌*◌, ◌/◌, ◌%◌, ◌^◌, Option, none, some, ◌==◌, ltb, if◌then◌else◌,
}
use crusader_os_v.Bitmap
use crusader_os_v.Bitmap.{Words}

abbrev pub block_size : ℕ
block_size = 4096

abbrev pub max_blocks : ℕ
max_blocks = 1_048_576

-- The words of the array are those below `max_blocks / 32`; the function goes on with what lies behind it.
pub record Pmm : Type 0 where
  pub bitmap : Words
  pub used_blocks : ℕ

-- A `uint32_t` counted up and down.
abbrev pub incr : ℕ → ℕ
incr n = (n + 1) % 2 ^ 32

abbrev pub decr : ℕ → ℕ
decr n = (n + (2 ^ 32 - 1)) % 2 ^ 32

unfoldable pub pmm_init : Pmm → Pmm
pmm_init s = record {
  bitmap = λ k. if ltb k (max_blocks / 32) then 2 ^ 32 - 1 else s.bitmap k;
  used_blocks = max_blocks;
}

-- The loops of `pmm_init_region` and `pmm_deinit_region` from the frame `i` on, with `n` frames left.
unfoldable pub clear_region : ℕ → ℕ → Pmm → Pmm
clear_region i zero s = s
clear_region i (suc n) s =
    clear_region (i + 1) n
      (record { bitmap = Bitmap.unmark 32 s.bitmap i; used_blocks = decr s.used_blocks })

unfoldable pub mark_region : ℕ → ℕ → Pmm → Pmm
mark_region i zero s = s
mark_region i (suc n) s =
    mark_region (i + 1) n
      (record { bitmap = Bitmap.mark 32 s.bitmap i; used_blocks = incr s.used_blocks })

unfoldable pub pmm_init_region : ℕ → ℕ → Pmm → Pmm
pmm_init_region base_addr size s =
    let s = clear_region (base_addr / block_size) (size / block_size) s in
    record s { bitmap = Bitmap.mark 32 s.bitmap 0 }

unfoldable pub pmm_deinit_region : ℕ → ℕ → Pmm → Pmm
pmm_deinit_region base_addr size s = mark_region (base_addr / block_size) (size / block_size) s

-- The free memory, in kilobytes.
unfoldable pub pmm_count_mem : Pmm → ℕ
pmm_count_mem s = (max_blocks + 2 ^ 32 - s.used_blocks) % 2 ^ 32 * 4 % 2 ^ 32

-- The loop over the bits of a word, at the frame `i` with `n` bits left.
unfoldable pub free_bit : Words → ℕ → ℕ → Option ℕ
free_bit bm zero i = none
free_bit bm (suc n) i =
    let rest = free_bit bm n (i + 1) in if Bitmap.test 32 bm i == 0 then some i else rest

-- The loop over the words, at the word `i` with `n` words left; a full word is skipped.
unfoldable pub free_frame : Words → ℕ → ℕ → Option ℕ
free_frame bm zero i = none
free_frame bm (suc n) i =
    let rest = free_frame bm n (i + 1) in
    if bm i == 2 ^ 32 - 1
    then rest
    else elim (free_bit bm 32 (i * 32)) [ some found ↦ some found | none ↦ rest ]

-- The address of the frame, or the null pointer.
unfoldable pub pmm_alloc_block : Pmm → ℕ × Pmm
pmm_alloc_block s = elim (free_frame s.bitmap (max_blocks / 32) 0) [
  | some i ↦ (
    i * block_size % 2 ^ 32,
    record { bitmap = Bitmap.mark 32 s.bitmap i; used_blocks = incr s.used_blocks },
  )
  | none ↦ (0, s)
]

unfoldable pub pmm_free_block : ℕ → Pmm → Pmm
pmm_free_block addr s = record {
  bitmap = Bitmap.unmark 32 s.bitmap (addr / block_size);
  used_blocks = decr s.used_blocks;
}
