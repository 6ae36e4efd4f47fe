-- ===== src/Fs/Bitmaps.antt =====
-- The block and inode bitmaps of fs.c, in memory and on the disk, and the allocators on them.
pub mod Alloc
pub mod Sync
use Prim.Native.Nat.{min}
use crusader_os_v.Base.{
  ℕ, zero, suc, ◌+◌, ◌-◌, ◌*◌, ◌/◌, ◌%◌, ◌^◌, Bool, true, false, ◌&&◌, Option, none, some, ◌==◌,
  leb, ltb, if◌then◌else◌,
}
use crusader_os_v.Bitmap
use crusader_os_v.Bitmap.{Words}
use crusader_os_v.Disk.{Disk, Block, block_read, block_write}
use crusader_os_v.Fs.State.{
  Fs, Superblock, M, pure, ◌>>=◌, ◌>>◌, asks, modify, sector_size, fs_magic,
}

unfoldable pub get_block_bitmap_bit : ℕ → Fs → ℕ
get_block_bitmap_bit idx s =
    if leb s.superblock.total_blocks idx then 1 else Bitmap.test 8 s.block_bitmap idx

unfoldable pub set_block_bitmap_bit : ℕ → Fs → Fs
set_block_bitmap_bit idx s =
    if leb s.superblock.total_blocks idx
    then s
    else record s { block_bitmap = Bitmap.mark 8 s.block_bitmap idx }

unfoldable pub clear_block_bitmap_bit : ℕ → Fs → Fs
clear_block_bitmap_bit idx s =
    if leb s.superblock.total_blocks idx
    then s
    else record s { block_bitmap = Bitmap.unmark 8 s.block_bitmap idx }

-- The sector that `save_block_bitmap` fills: `tocopy` bytes from `src`, then zeros.
abbrev pub bitmap_sector : Words → ℕ → ℕ → Block
bitmap_sector bm src tocopy k = if ltb k tocopy then bm (src + k) else 0

-- The loop of `save_block_bitmap`: `n` rounds are left, `i` are done.
unfoldable pub save_block_sectors : Words → ℕ → ℕ → ℕ → ℕ → ℕ → Disk → Disk
save_block_sectors bm start zero i bytes_left src d = d
save_block_sectors bm start (suc n) i bytes_left src d =
    let tocopy = min sector_size bytes_left in
    save_block_sectors bm start n (i + 1) (bytes_left - sector_size) (src + tocopy)
      (block_write ((start + i) % 2 ^ 32) (bitmap_sector bm src tocopy) d)

unfoldable pub save_block_bitmap : Fs → Fs
save_block_bitmap s = record s {
  disk =
      save_block_sectors s.block_bitmap s.superblock.bitmap_start s.block_bitmap_sectors 0
        s.block_bitmap_bytes 0 s.disk;
}

-- The loop of `load_block_bitmap`.
unfoldable pub load_block_sectors : Disk → ℕ → ℕ → ℕ → ℕ → ℕ → Words → Words
load_block_sectors d start zero i bytes_left dst bm = bm
load_block_sectors d start (suc n) i bytes_left dst bm =
    let tocopy = min sector_size bytes_left in
    load_block_sectors d start n (i + 1) (bytes_left - sector_size) (dst + tocopy) λ j.
      if leb dst j && ltb j (dst + tocopy)
      then block_read ((start + i) % 2 ^ 32) d (j - dst)
      else bm j

unfoldable pub load_block_bitmap : Fs → Fs
load_block_bitmap s = record s {
  block_bitmap =
      load_block_sectors s.disk s.superblock.bitmap_start s.block_bitmap_sectors 0
        s.block_bitmap_bytes 0 s.block_bitmap;
}

unfoldable pub save_inode_sectors : Words → ℕ → ℕ → ℕ → Disk → Disk
save_inode_sectors bm start zero i d = d
save_inode_sectors bm start (suc n) i d =
    save_inode_sectors bm start n (i + 1)
      (block_write ((start + i) % 2 ^ 32) (λ k. bm (i * sector_size + k)) d)

abbrev pub inode_bitmap_start : Fs → ℕ
inode_bitmap_start s = (s.superblock.bitmap_start + s.block_bitmap_sectors) % 2 ^ 32

unfoldable pub save_inode_bitmap : Fs → Fs
save_inode_bitmap s = record s {
  disk = save_inode_sectors s.inode_bitmap (inode_bitmap_start s) s.inode_bitmap_sectors 0 s.disk;
}

unfoldable pub load_inode_sectors : Disk → ℕ → ℕ → ℕ → Words → Words
load_inode_sectors d start zero i bm = bm
load_inode_sectors d start (suc n) i bm = load_inode_sectors d start n (i + 1) λ j.
    if leb (i * sector_size) j && ltb j (i * sector_size + sector_size)
    then block_read ((start + i) % 2 ^ 32) d (j - i * sector_size)
    else bm j

unfoldable pub load_inode_bitmap : Fs → Fs
load_inode_bitmap s = record s {
  inode_bitmap =
      load_inode_sectors s.disk (inode_bitmap_start s) s.inode_bitmap_sectors 0 s.inode_bitmap;
}

-- Where `alloc_block` begins its search.
unfoldable pub alloc_start : Superblock → ℕ
alloc_start sb = if sb.magic == fs_magic && ltb 1 sb.data_start then sb.data_start else 1

-- The loop of `alloc_block` at the block `i`, with `n` blocks left. A superblock with more blocks than the bitmap in
-- memory has bits, which formatting never writes, is not modelled: there the source reads behind the bitmap, and from
-- 2^32 blocks on its counter wraps.
unfoldable pub alloc_block_from : ℕ → ℕ → M ℕ
alloc_block_from zero i s = (0, s)
alloc_block_from (suc n) i s = elim (get_block_bitmap_bit i s == 0) [
  | true ↦ (i, save_block_bitmap (set_block_bitmap_bit i s))
  | false ↦ alloc_block_from n (i + 1) s
]

-- 0 if no block is free.
unfoldable pub alloc_block : M ℕ
alloc_block s =
    let start = alloc_start s.superblock in
    alloc_block_from (s.superblock.total_blocks - start) start s

unfoldable pub free_block : ℕ → Fs → Fs
free_block idx s = save_block_bitmap (clear_block_bitmap_bit idx s)

unfoldable pub alloc_inode_from : ℕ → ℕ → M (Option ℕ)
alloc_inode_from zero i s = (none, s)
alloc_inode_from (suc n) i s = elim (Bitmap.test 8 s.inode_bitmap i == 0) [
  | true ↦ (some i, save_inode_bitmap (record s { inode_bitmap = Bitmap.mark 8 s.inode_bitmap i }))
  | false ↦ alloc_inode_from n (i + 1) s
]

-- `none` is the -1 of the source.
unfoldable pub alloc_inode : M (Option ℕ)
alloc_inode s = alloc_inode_from s.superblock.inode_count 0 s

-- The ids of the callers are not negative.
unfoldable pub free_inode : ℕ → Fs → Fs
free_inode idx s =
    if leb s.superblock.inode_count idx
    then s
    else save_inode_bitmap (record s { inode_bitmap = Bitmap.unmark 8 s.inode_bitmap idx })
