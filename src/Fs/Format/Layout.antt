-- ===== src/Fs/Format/Layout.antt =====
-- The layout that formatting chooses, for a drive of any size.
use crusader_os_v.Base.{
  ℕ, ◌+◌, ◌*◌, ◌/◌, ◌^◌, ◌≤◌, ◌<◌, ◌≡◌, ◌⊎◌, refl, inl, inr, arith, ap, sym, ◌∙◌,
}
use crusader_os_v.Fs.State.{
  Fs, Superblock, block_bitmap_max_size, inode_bitmap_size, inodes_per_block,
}
use crusader_os_v.Fs.Inode.{u32, byte_of}
use crusader_os_v.Fs.Inode.Codec.{u32-bytes}
use crusader_os_v.Fs.Bitmaps.{alloc_start, alloc_block}
use crusader_os_v.Fs.Bitmaps.Alloc.{alloc_block_lem}
use crusader_os_v.Fs.Format.{
  superblock_byte, superblock_of, bitmap_bytes, sectors_of_bytes, inode_bitmap_sectors_of,
  table_blocks_of, total_blocks_of, inode_count_of, layout, Probe, probe_drive, drives,
}

-- The regions of a file system lie one behind the other, and each is large enough for what it holds.
pub record IsLayout (sectors : ℕ) (sb : Superblock) : Type 0 where
  pub on_drive : sb.total_blocks ≤ sectors
  pub bitmap_in_memory : bitmap_bytes sb.total_blocks ≤ block_bitmap_max_size
  pub inodes_in_memory : sb.inode_count ≤ inode_bitmap_size * 8
  pub some_inodes : 8 ≤ sb.inode_count
  pub block_bits : sb.total_blocks ≤ 8 * bitmap_bytes sb.total_blocks
  pub block_bitmap_area :
      bitmap_bytes sb.total_blocks ≤ 512 * sectors_of_bytes (bitmap_bytes sb.total_blocks)
  pub inode_bitmap_area : sb.inode_count ≤ 8 * 512 * inode_bitmap_sectors_of sb.inode_count
  pub bitmap_after_superblock : sb.bitmap_start ≡ 1
  pub table_after_bitmaps :
      sb.inode_start
      ≡ sb.bitmap_start
        + sectors_of_bytes (bitmap_bytes sb.total_blocks)
        + inode_bitmap_sectors_of sb.inode_count
  pub inode_in_table :
      (i : ℕ) → i < sb.inode_count → sb.inode_start + i / inodes_per_block < sb.data_start
  pub addressable : sb.data_start < 2 ^ 28

total_blocks_bounds : (n : ℕ) → (total_blocks_of n ≤ n) × (total_blocks_of n ≤ 262144)
unfolding total_blocks_of
total_blocks_bounds n = ground arith

inode_count_bounds : (t : ℕ) → t ≤ 262144 → (8 ≤ inode_count_of t) × (inode_count_of t ≤ 65536)
unfolding inode_count_of
inode_count_bounds t h = ground arith

-- Formatting lays the superblock, both bitmaps, the inode table and the data out without overlap. The
-- bitmaps fit the static arrays of the kernel and their areas on the drive, every inode lies in the
-- table, and the metadata can be addressed, whatever number of sectors the drive reports.
pub layout-IsLayout : (sectors : ℕ) → IsLayout sectors (layout sectors)
unfolding layout bitmap_bytes sectors_of_bytes inode_bitmap_sectors_of table_blocks_of
layout-IsLayout n =
    let t = total_blocks_bounds n in
    let c = inode_count_bounds (total_blocks_of n) t.1 in
    record {
      on_drive = t.0;
      bitmap_in_memory = omega arith;
      inodes_in_memory = omega arith;
      some_inodes = c.0;
      block_bits = omega arith;
      block_bitmap_area = omega arith;
      inode_bitmap_area = omega arith;
      bitmap_after_superblock = refl;
      table_after_bitmaps = refl;
      inode_in_table = λ i l. omega arith;
      addressable = omega arith;
    }

alloc_start-layout : (sectors : ℕ) → alloc_start (layout sectors) ≡ (layout sectors).data_start
unfolding alloc_start layout sectors_of_bytes table_blocks_of
alloc_start-layout n =
    let c = inode_count_bounds (total_blocks_of n) (total_blocks_bounds n).1 in
    ground (arith, c.0, c.1)

-- On a formatted drive, `alloc_block` never returns a block of the superblock, a bitmap or the inode
-- table: what it returns is 0 or lies in the data area and on the drive.
pub alloc_block-layout :
    (sectors : ℕ) (s : Fs)
    → s.superblock ≡ layout sectors
    → ((alloc_block s).0 ≡ 0)
      ⊎ ((s.superblock.data_start ≤ (alloc_block s).0)
          × ((alloc_block s).0 < s.superblock.total_blocks))
alloc_block-layout sectors s e = elim (alloc_block_lem s) [
  | inl full ↦ inl full.no_block
  | inr a ↦
      let start : alloc_start s.superblock ≡ s.superblock.data_start =
        ap alloc_start e ∙ alloc_start-layout sectors ∙ ap (λ sb. sb.data_start) (sym e) in
      inr (omega (arith, start, a.from_start), a.on_drive)
]

-- The fields of a superblock are in the ranges of their C types.
pub record IsPacked (sb : Superblock) : Type 0 where
  pub magic : sb.magic < 2 ^ 32
  pub block_size : sb.block_size < 2 ^ 32
  pub total_blocks : sb.total_blocks < 2 ^ 64
  pub inode_count : sb.inode_count < 2 ^ 32
  pub bitmap_start : sb.bitmap_start < 2 ^ 32
  pub inode_start : sb.inode_start < 2 ^ 32
  pub data_start : sb.data_start < 2 ^ 32

u64-bytes :
    (sb : Superblock)
    → sb.total_blocks < 2 ^ 64
    → u32 (superblock_byte sb) 8 + u32 (superblock_byte sb) 12 * 2 ^ 32 ≡ sb.total_blocks
unfolding u32 superblock_byte byte_of
u64-bytes sb h = omega arith

-- A superblock survives the way through sector 0: what formatting writes is what mounting reads.
pub superblock_of-superblock_byte :
    (sb : Superblock) → IsPacked sb → superblock_of (superblock_byte sb) ≡ sb
unfolding superblock_of superblock_byte
superblock_of-superblock_byte sb p = λ i. record {
  magic = u32-bytes (superblock_byte sb) 0 sb.magic p.magic refl refl refl refl i;
  block_size = u32-bytes (superblock_byte sb) 4 sb.block_size p.block_size refl refl refl refl i;
  total_blocks = u64-bytes sb p.total_blocks i;
  inode_count =
      u32-bytes (superblock_byte sb) 16 sb.inode_count p.inode_count refl refl refl refl i;
  bitmap_start =
      u32-bytes (superblock_byte sb) 20 sb.bitmap_start p.bitmap_start refl refl refl refl i;
  inode_start =
      u32-bytes (superblock_byte sb) 24 sb.inode_start p.inode_start refl refl refl refl i;
  data_start = u32-bytes (superblock_byte sb) 28 sb.data_start p.data_start refl refl refl refl i;
}

-- After some rounds of `drives`.
record IsProbed (rounds : ℕ) (s : Fs) : Type 0 where
  few : s.active_drives ≤ rounds
  sized :
      (k : ℕ)
      → k < s.active_drives
      → (0 < (s.drives k).total_sectors) × ((s.drives k).total_sectors < 0x0fff_ffff)

probe_drive-IsProbed :
    (hw : Probe) (base slave n : ℕ) (s : Fs)
    → IsProbed n s
    → IsProbed (n + 1) (probe_drive hw base slave s)
unfolding probe_drive
probe_drive-IsProbed hw base slave n s p = record {
  few = ground arith;
  sized = λ k l. ground (arith, p.sized k);
}

-- `drives` never registers more drives than `g_drives` has room for, and every drive that it
-- registers has a size above 0 and below 0xFFFFFFF sectors.
pub drives_bound :
    (hw : Probe) (s : Fs)
    → ((drives hw s).active_drives ≤ 4)
      × ((k : ℕ)
          → k < (drives hw s).active_drives
          → (0 < ((drives hw s).drives k).total_sectors)
            × (((drives hw s).drives k).total_sectors < 0x0fff_ffff))
unfolding drives
drives_bound hw s =
    let start : IsProbed 0 (record s { active_drives = 0 }) = record {
      few = omega arith;
      sized = λ k l. elim l [ ];
    } in
    let p = probe_drive-IsProbed hw 0x170 1 3 _ (
      probe_drive-IsProbed hw 0x170 0 2 _
        (probe_drive-IsProbed hw 0x1f0 1 1 _ (probe_drive-IsProbed hw 0x1f0 0 0 _ start))) in
    (p.few, p.sized)
