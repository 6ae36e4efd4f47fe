-- ===== src/Fs/Format.antt =====
-- Drives and formatting in fs.c: finding the drives, laying out an empty file system, mounting one.
pub mod Layout
pub mod Mount
use Prim.Native.Nat.{min}
use crusader_os_v.Base.{
  ℕ, zero, suc, ◌+◌, ◌-◌, ◌*◌, ◌/◌, ◌%◌, ◌^◌, Bool, true, false, ◌&&◌, not, List, [], ◌∷◌, ◌==◌,
  leb, ltb, if◌then◌else◌, set, codes, update,
}
use crusader_os_v.Base.Int.{ℤ, pos, negsuc}
use crusader_os_v.Bits.{set_bit}
use crusader_os_v.Disk
use crusader_os_v.Disk.{Disk, Block, zeros, block_read, block_write}
use crusader_os_v.Text.{strcpy, strcat}
use crusader_os_v.Fs.State.{
  Fs, Superblock, Inode, Device, M, ◌>>=◌, ◌>>◌, pure, modify, asks, sector_size, inode_size,
  fs_magic, block_bitmap_max_size, inode_bitmap_size, inodes_per_block,
}
use crusader_os_v.Fs.Inode.{u32, byte_of, read_inode, write_inode}
use crusader_os_v.Fs.Bitmaps.{
  set_block_bitmap_bit, save_block_bitmap, load_block_bitmap, save_inode_bitmap, load_inode_bitmap,
  alloc_block,
}
use crusader_os_v.Fs.File.{zero_inode, fs_create_dir, fs_cd}

-- `superblock_t` as it lies in sector 0; the rest of the sector is zero.
unfoldable pub superblock_byte : Superblock → Block
superblock_byte sb i =
    if ltb i 4
    then byte_of sb.magic i
    else if ltb i 8
    then byte_of sb.block_size (i - 4)
    else if ltb i 16
    then byte_of sb.total_blocks (i - 8)
    else if ltb i 20
    then byte_of sb.inode_count (i - 16)
    else if ltb i 24
    then byte_of sb.bitmap_start (i - 20)
    else if ltb i 28
    then byte_of sb.inode_start (i - 24)
    else if ltb i 32
    then byte_of sb.data_start (i - 28)
    else 0

unfoldable pub superblock_of : Block → Superblock
superblock_of b = record {
  magic = u32 b 0;
  block_size = u32 b 4;
  total_blocks = u32 b 8 + u32 b 12 * 2 ^ 32;
  inode_count = u32 b 16;
  bitmap_start = u32 b 20;
  inode_start = u32 b 24;
  data_start = u32 b 28;
}

-- The sizes that `format_fs`, `qformat_fs` and `init_fs` compute from the superblock.
unfoldable pub bitmap_bytes : ℕ → ℕ
bitmap_bytes total_blocks = (total_blocks + 7) / 8 % 2 ^ 32

unfoldable pub sectors_of_bytes : ℕ → ℕ
sectors_of_bytes bytes = (bytes + sector_size - 1) % 2 ^ 32 / sector_size

unfoldable pub inode_bitmap_sectors_of : ℕ → ℕ
inode_bitmap_sectors_of inode_count = sectors_of_bytes ((inode_count + 7) % 2 ^ 32 / 8)

unfoldable pub table_blocks_of : ℕ → ℕ
table_blocks_of inode_count = sectors_of_bytes (inode_count * inode_size % 2 ^ 32)

-- `total_blocks` and `inode_count` for a drive of so many sectors.
unfoldable pub total_blocks_of : ℕ → ℕ
total_blocks_of sectors =
    let capped =
      if ltb (block_bitmap_max_size * 8) sectors then block_bitmap_max_size * 8 else sectors in
    if ltb (inode_bitmap_size * 8) (capped / 4) then inode_bitmap_size * 8 * 4 else capped

unfoldable pub inode_count_of : ℕ → ℕ
inode_count_of total_blocks =
    let rounded = (total_blocks / 4 + 7) / 8 * 8 in if rounded == 0 then 8 else rounded

-- The superblock of an empty file system on a drive of so many sectors.
unfoldable pub layout : ℕ → Superblock
layout sectors =
    let total = total_blocks_of sectors in
    let inodes = inode_count_of total in
    let inode_start = 1 + sectors_of_bytes (bitmap_bytes total) + inode_bitmap_sectors_of inodes in
    record {
      magic = fs_magic;
      block_size = sector_size;
      total_blocks = total;
      inode_count = inodes;
      bitmap_start = 1;
      inode_start = inode_start;
      data_start = inode_start + table_blocks_of inodes;
    }

-- The globals that follow from the superblock.
unfoldable pub set_sizes : Fs → Fs
set_sizes s = record s {
  block_bitmap_bytes = bitmap_bytes s.superblock.total_blocks;
  block_bitmap_sectors = sectors_of_bytes (bitmap_bytes s.superblock.total_blocks);
  inode_bitmap_sectors = inode_bitmap_sectors_of s.superblock.inode_count;
  inode_table_blocks = table_blocks_of s.superblock.inode_count;
}

-- `for (i = 0; i < data_start; i++) set_block_bitmap_bit(i);` with `n` rounds left.
unfoldable pub mark_metadata : ℕ → ℕ → Fs → Fs
mark_metadata zero i s = s
mark_metadata (suc n) i s = mark_metadata n (i + 1) (set_block_bitmap_bit i s)

unfoldable pub create_root : Fs → Fs
create_root s =
    let s =
      save_inode_bitmap
        (record s { inode_bitmap = update s.inode_bitmap 0 (set_bit (s.inode_bitmap 0) 0) }) in
    let (b, s) = alloc_block s in
    if b == 0
    then s
    else let root : Inode = record zero_inode { kind = 2; direct = set zero_inode.direct 0 b } in
      let s = write_inode 0 root s in record s { disk = block_write b zeros s.disk }

unfoldable pub create_defdirs : M (Unit {0})
create_defdirs = do
  dir ← asks (λ s. s.current_dir)
  fs_create_dir (codes "user") dir
  fs_create_dir (codes "data") dir
  fs_create_dir (codes "mount") dir
  fs_create_dir (codes "lock") dir
  fs_create_dir (codes "cosfiles") dir
  modify (λ s. record s { current_path = strcat (strcpy (codes ">")) (codes "user") })
  fs_cd (codes "user")
  pure tt

-- `select_drive(g_drives[g_current_drive]...)`
abbrev pub select_current : Fs → Fs
select_current s =
    let dev = s.drives s.current_drive in
    record s { disk = Disk.select_drive dev.ata_base dev.is_slave s.disk }

-- `init_fs` selects the drive and reads the superblock.
unfoldable pub read_superblock : Fs → Fs
read_superblock s =
    let s = select_current s in record s { superblock = superblock_of (block_read 0 s.disk) }

-- What `init_fs` does with the superblock in memory.
unfoldable pub load_fs : Fs → Fs
load_fs s =
    if not (s.superblock.magic == fs_magic)
    then s
    else let s = load_inode_bitmap (load_block_bitmap (set_sizes s)) in
      if (read_inode 0 s).kind == 2 then s else create_root s

unfoldable pub init_fs : Fs → Fs
init_fs s =
    let s = if ltb 4 s.active_drives then (record s { active_drives = 0 }) else s in
    if s.active_drives == 0 then s else load_fs (read_superblock s)

-- The part that both ways of formatting begin with: the drive, the superblock and the sizes.
unfoldable pub begin_format : Fs → Fs
begin_format s =
    let s = select_current s in
    set_sizes
      (record s { current_dir = 0; superblock = layout (s.drives s.current_drive).total_sectors })

-- The superblock goes to sector 0, and the bitmaps in memory hold the metadata blocks alone.
unfoldable pub begin_bitmaps : Fs → Fs
begin_bitmaps s = mark_metadata s.superblock.data_start 0 (record s {
  disk = block_write 0 (superblock_byte s.superblock) s.disk;
  block_bitmap = λ _. 0;
  inode_bitmap = λ _. 0;
})

unfoldable pub format_fs : Fs → Fs
format_fs s =
    init_fs
      (create_defdirs
        (create_root (save_inode_bitmap (save_block_bitmap (begin_bitmaps (begin_format s)))))).1

-- `n` sectors of zeros from `start + i` on.
unfoldable pub clear_sectors : ℕ → ℕ → ℕ → Disk → Disk
clear_sectors start zero i d = d
clear_sectors start (suc n) i d =
    clear_sectors start n (i + 1) (block_write ((start + i) % 2 ^ 32) zeros d)

-- What `qformat_fs` clears: both bitmaps, and at most 64 blocks of the inode table.
unfoldable pub clear_metadata : Fs → Fs
clear_metadata s =
    let sb = s.superblock in
    let d = clear_sectors sb.bitmap_start s.block_bitmap_sectors 0 s.disk in
    let d =
      clear_sectors ((sb.bitmap_start + s.block_bitmap_sectors) % 2 ^ 32) s.inode_bitmap_sectors 0
        d in
    record s { disk = clear_sectors sb.inode_start (min 64 s.inode_table_blocks) 0 d }

unfoldable pub qformat_fs : Fs → Fs
qformat_fs s =
    init_fs
      (create_defdirs
        (create_root (save_block_bitmap (begin_bitmaps (clear_metadata (begin_format s)))))).1

-- The drive changed to, if there is one of that number (0 or -1 in the source).
unfoldable pub fs_change_drive : ℤ → M Bool
fs_change_drive (negsuc n) s = (false, s)
fs_change_drive (pos id) s =
    if leb s.active_drives id then (false, s) else (true, init_fs (record s { current_drive = id }))

-- What `drives` asks of the hardware: whether a controller answers at a port (`inb(base + 7)` is not
-- 0xFF), and what `ata_get_total_sectors_dev` reports of a drive on it.
pub record Probe : Type 0 where
  pub present : ℕ → Bool
  pub sectors : ℕ → ℕ → ℕ

-- One round of `drives`.
unfoldable pub probe_drive : Probe → ℕ → ℕ → Fs → Fs
probe_drive hw base slave s =
    let n = hw.sectors base slave in
    if not (hw.present base)
    then s
    else if ltb 0 n && ltb n 0x0fff_ffff
    then (record s {
      drives =
          update s.drives s.active_drives
            (record { ata_base = base; is_slave = slave; total_sectors = n });
      active_drives = s.active_drives + 1;
    })
    else s

unfoldable pub drives : Probe → Fs → Fs
drives hw s =
    let s = record s { active_drives = 0 } in
    let s = probe_drive hw 0x1f0 1 (probe_drive hw 0x1f0 0 s) in
    probe_drive hw 0x170 1 (probe_drive hw 0x170 0 s)
