-- ===== src/Fs/Bitmaps/Alloc.antt =====
-- The allocators of blocks and inodes: the first free item is taken, and nothing else changes hands.
use crusader_os_v.Base.{
  ℕ, zero, suc, ◌+◌, ◌-◌, ◌≤◌, ◌<◌, ◌≡◌, ◌≢◌, ◌⊎◌, refl, inl, inr, arith, ◌==◌, if◌then◌else◌,
  Bool-cases, Option, none, some, dec_lt, ℕ_discrete, ◌∙◌, ap,
}
use crusader_os_v.Bitmap
use crusader_os_v.Fs.State.{Fs}
use crusader_os_v.Fs.Bitmaps.{
  get_block_bitmap_bit, set_block_bitmap_bit, clear_block_bitmap_bit, save_block_bitmap,
  alloc_start, alloc_block_from, alloc_block, free_block, save_inode_bitmap, alloc_inode_from,
  alloc_inode,
}

pub get_bit-lt : (i : ℕ) (s : Fs) → get_block_bitmap_bit i s < 2
unfolding get_block_bitmap_bit
get_bit-lt i s = ground (arith, Bitmap.test-lt 8 s.block_bitmap i)

-- Saving the bitmap does not change it.
get_bit-save :
    (j : ℕ) (s : Fs) → get_block_bitmap_bit j (save_block_bitmap s) ≡ get_block_bitmap_bit j s
unfolding get_block_bitmap_bit save_block_bitmap
get_bit-save j s = refl

get_bit-set :
    (i j : ℕ) (s : Fs)
    → i < s.superblock.total_blocks
    → get_block_bitmap_bit j (set_block_bitmap_bit i s)
      ≡ (if j == i then 1 else get_block_bitmap_bit j s)
unfolding get_block_bitmap_bit set_block_bitmap_bit
get_bit-set i j s h = ground (arith, Bitmap.test-mark 8 s.block_bitmap i j)

get_bit-clear :
    (i j : ℕ) (s : Fs)
    → i < s.superblock.total_blocks
    → get_block_bitmap_bit j (clear_block_bitmap_bit i s)
      ≡ (if j == i then 0 else get_block_bitmap_bit j s)
unfolding get_block_bitmap_bit clear_block_bitmap_bit
get_bit-clear i j s h = ground (arith, Bitmap.test-unmark 8 s.block_bitmap i j)

superblock-set :
    (i : ℕ) (s : Fs) → (save_block_bitmap (set_block_bitmap_bit i s)).superblock ≡ s.superblock
unfolding set_block_bitmap_bit save_block_bitmap
superblock-set i s = ground arith

-- Block `i` is the first free one from `start` on in `s`, and it is what `s'` marks in addition.
pub record Allocated (start : ℕ) (s : Fs) (i : ℕ) (s' : Fs) : Type 0 where
  pub from_start : start ≤ i
  pub on_drive : i < s.superblock.total_blocks
  pub was_free : get_block_bitmap_bit i s ≡ 0
  pub first : (j : ℕ) → start ≤ j → j < i → get_block_bitmap_bit j s ≡ 1
  pub marked :
      (j : ℕ) → get_block_bitmap_bit j s' ≡ (if j == i then 1 else get_block_bitmap_bit j s)
  pub same_superblock : s'.superblock ≡ s.superblock

-- No block from `start` on is free, and nothing was done.
pub record IsFull (start : ℕ) (s : Fs) (i : ℕ) (s' : Fs) : Type 0 where
  pub no_block : i ≡ 0
  pub unchanged : s' ≡ s
  pub full : (j : ℕ) → start ≤ j → get_block_bitmap_bit j s ≡ 1

free-lt : (i : ℕ) (s : Fs) → get_block_bitmap_bit i s ≡ 0 → i < s.superblock.total_blocks
unfolding get_block_bitmap_bit
free-lt i s h = ground arith

beyond : (i : ℕ) (s : Fs) → s.superblock.total_blocks ≤ i → get_block_bitmap_bit i s ≡ 1
unfolding get_block_bitmap_bit
beyond i s h = ground arith

alloc_block_from_lem :
    (n start i : ℕ) (s : Fs)
    → s.superblock.total_blocks ≤ i + n
    → start ≤ i
    → ((j : ℕ) → start ≤ j → j < i → get_block_bitmap_bit j s ≡ 1)
    → IsFull start s (alloc_block_from n i s).0 (alloc_block_from n i s).1
      ⊎ Allocated start s (alloc_block_from n i s).0 (alloc_block_from n i s).1
unfolding alloc_block_from
alloc_block_from_lem zero start i s e le used = inl (record {
  no_block = refl;
  unchanged = refl;
  full =
      λ j l. elim (dec_lt j i) [ yes below ↦ used j l below | no above ↦ beyond j s (omega arith) ];
})
alloc_block_from_lem (suc n) start i s e le used =
    elim (Bool-cases (get_block_bitmap_bit i s == 0)) [
      | inl free ↦
          rw (free, alloc_block_from)
            (inr (record {
              from_start = le;
              on_drive = free-lt i s (ground arith);
              was_free = ground arith;
              first = used;
              same_superblock = superblock-set i s;
              marked = λ j.
                  get_bit-save j (set_block_bitmap_bit i s)
                  ∙ get_bit-set i j s (free-lt i s (ground arith));
            }))
      | inr taken ↦
          rw (taken, alloc_block_from)
            (alloc_block_from_lem n start (i + 1) s (omega arith) (omega arith) λ j l m.
              elim (ℕ_discrete j i) [
                | yes same ↦ rw same (ground (arith, get_bit-lt i s))
                | no other ↦ used j l (omega arith)
              ])
    ]

-- `alloc_block` either finds every block from its start on in use, returns 0 and changes nothing, or
-- returns the first free block there, which lies on the drive, and marks it and no other.
pub alloc_block_lem :
    (s : Fs)
    → IsFull (alloc_start s.superblock) s (alloc_block s).0 (alloc_block s).1
      ⊎ Allocated (alloc_start s.superblock) s (alloc_block s).0 (alloc_block s).1
unfolding alloc_block
alloc_block_lem s =
    let start = alloc_start s.superblock in
    alloc_block_from_lem (s.superblock.total_blocks - start) start start s (omega arith)
      (omega arith) (λ j l m. absurd (omega arith))

-- Freeing the block that `alloc_block` returned gives back the bitmap from before, at every block.
pub free_block-alloc_block :
    (s : Fs) (j : ℕ)
    → (alloc_block s).0 ≢ 0
    → get_block_bitmap_bit j (free_block (alloc_block s).0 (alloc_block s).1)
      ≡ get_block_bitmap_bit j s
unfolding free_block
free_block-alloc_block s j h = elim (alloc_block_lem s) [
  | inl full ↦ absurd (h full.no_block)
  | inr a ↦ ground (
    arith,
    get_bit-save j (clear_block_bitmap_bit (alloc_block s).0 (alloc_block s).1),
    get_bit-clear (alloc_block s).0 j (alloc_block s).1,
    a.marked j,
    ap (λ sb. sb.total_blocks) a.same_superblock,
    a.on_drive,
    a.was_free,
  )
]

-- What `alloc_inode` takes: the first inode of the table whose bit is clear.
pub record AllocatedInode (s : Fs) (i : ℕ) (s' : Fs) : Type 0 where
  pub in_table : i < s.superblock.inode_count
  pub was_free : Bitmap.test 8 s.inode_bitmap i ≡ 0
  pub first : (j : ℕ) → j < i → Bitmap.test 8 s.inode_bitmap j ≡ 1
  pub marked :
      (j : ℕ)
      → Bitmap.test 8 s'.inode_bitmap j ≡ (if j == i then 1 else Bitmap.test 8 s.inode_bitmap j)

-- How `alloc_inode` ends: with such an inode, or with none, all inodes in use and nothing done.
abbrev pub AllocInodeResult : Fs → Option ℕ → Fs → Type 0
AllocInodeResult s (some i) s' = AllocatedInode s i s'
AllocInodeResult s none s' =
    (s' ≡ s) × ((j : ℕ) → j < s.superblock.inode_count → Bitmap.test 8 s.inode_bitmap j ≡ 1)

alloc_inode_from_lem :
    (n i : ℕ) (s : Fs)
    → i + n ≡ s.superblock.inode_count
    → ((j : ℕ) → j < i → Bitmap.test 8 s.inode_bitmap j ≡ 1)
    → AllocInodeResult s (alloc_inode_from n i s).0 (alloc_inode_from n i s).1
unfolding alloc_inode_from save_inode_bitmap
alloc_inode_from_lem zero i s e used = (refl, λ j l. used j (omega arith))
alloc_inode_from_lem (suc n) i s e used = elim (Bool-cases (Bitmap.test 8 s.inode_bitmap i == 0)) [
  | inl free ↦
      rw (free, alloc_inode_from)
        (record {
          in_table = omega arith;
          was_free = ground arith;
          first = used;
          marked = λ j. Bitmap.test-mark 8 s.inode_bitmap i j;
        })
  | inr taken ↦
      rw (taken, alloc_inode_from)
        (alloc_inode_from_lem n (i + 1) s (omega arith) λ j l. elim (ℕ_discrete j i) [
          | yes same ↦ rw same (ground (arith, Bitmap.test-lt 8 s.inode_bitmap i))
          | no other ↦ used j (omega arith)
        ])
]

-- `alloc_inode` returns the first free inode of the table and marks it and no other in memory, or
-- fails with every inode in use and nothing changed.
pub alloc_inode_lem : (s : Fs) → AllocInodeResult s (alloc_inode s).0 (alloc_inode s).1
unfolding alloc_inode
alloc_inode_lem s =
    alloc_inode_from_lem s.superblock.inode_count 0 s (omega arith) (λ j l. elim l [ ])
