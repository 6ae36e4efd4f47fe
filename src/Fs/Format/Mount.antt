-- ===== src/Fs/Format/Mount.antt =====
-- Mounting a drive that was formatted: `init_fs` reads the superblock back that formatting wrote to sector 0.
use crusader_os_v.Base.{ℕ, ◌+◌, ◌^◌, ◌≤◌, ◌<◌, ◌≡◌}
use crusader_os_v.Disk.{Disk, block_read}
use crusader_os_v.Fs.State.{Fs, Inode}
use crusader_os_v.Fs.Bitmaps.{save_block_bitmap, save_inode_bitmap}
use crusader_os_v.Fs.Format.{
  superblock_byte, layout, create_root, begin_format, begin_bitmaps, bitmap_bytes, sectors_of_bytes,
  inode_bitmap_sectors_of,
}

-- The same drive is selected, with the same first sector.
record SameDrive (d e : Disk) : Type 0 where
  base : e.ata_base ≡ d.ata_base
  slave : e.is_slave ≡ d.is_slave
  first : block_read 0 e ≡ block_read 0 d

-- A state in which the superblock and the sizes are those of a layout, and the layout is what the first sector of the
-- current drive, which is selected, holds.
record IsFormatted (n : ℕ) (s : Fs) : Type 0 where
  superblock : s.superblock ≡ layout n
  first : block_read 0 s.disk ≡ superblock_byte (layout n)
  base : s.disk.ata_base ≡ (s.drives s.current_drive).ata_base
  slave : s.disk.is_slave ≡ (s.drives s.current_drive).is_slave
  some_drives : 0 < s.active_drives
  few_drives : s.active_drives ≤ 4
  block_sectors : s.block_bitmap_sectors ≡ sectors_of_bytes (bitmap_bytes (layout n).total_blocks)
  inode_sectors : s.inode_bitmap_sectors ≡ inode_bitmap_sectors_of (layout n).inode_count

-- Where the areas of a layout lie.
record Areas (n : ℕ) : Type 0 where
  bitmap : (layout n).bitmap_start ≡ 1
  table :
      1
        + sectors_of_bytes (bitmap_bytes (layout n).total_blocks)
        + inode_bitmap_sectors_of (layout n).inode_count
      ≡ (layout n).inode_start
  table_end : (layout n).inode_start < (layout n).data_start
  on_drive : (layout n).data_start < 2 ^ 28
  blocks : (layout n).total_blocks ≤ 262144

-- What `format_fs` has done before it creates the default directories.
abbrev pub with_root : Fs → Fs
with_root s = create_root (save_inode_bitmap (save_block_bitmap (begin_bitmaps (begin_format s))))
