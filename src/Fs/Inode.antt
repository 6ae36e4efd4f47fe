-- ===== src/Fs/Inode.antt =====
-- The inode table of fs.c: `inode_t` as 128 bytes of a sector.
pub mod Codec
pub mod Table
use crusader_os_v.Base.{
  ℕ, ◌+◌, ◌-◌, ◌*◌, ◌/◌, ◌%◌, ◌^◌, ◌&&◌, [], leb, ltb, if◌then◌else◌, get_or, tabulate, replicate,
}
use crusader_os_v.Disk.{Disk, Block, block_read, block_write}
use crusader_os_v.Fs.State.{
  Fs, Inode, sector_size, inode_size, inodes_per_block, inode_direct, tag_len, max_tags,
}

-- A little-endian `uint32_t` at an offset, and its bytes.
unfoldable pub u32 : Block → ℕ → ℕ
u32 b o = b o + b (o + 1) * 2 ^ 8 + b (o + 2) * 2 ^ 16 + b (o + 3) * 2 ^ 24

unfoldable pub byte_of : ℕ → ℕ → ℕ
byte_of v k = v / 256 ^ k % 256

-- The layout of `inode_t`: the fields in order, packed.
unfoldable pub inode_byte : Inode → ℕ → ℕ
inode_byte n i =
    if ltb i 4
    then byte_of n.size i
    else if ltb i 52
    then byte_of (get_or n.direct ((i - 4) / 4) 0) (i % 4)
    else if ltb i 56
    then byte_of n.single_indirect (i % 4)
    else if ltb i 60
    then byte_of n.double_indirect (i % 4)
    else if ltb i 64
    then byte_of n.triple_indirect (i % 4)
    else if ltb i 65
    then n.kind
    else if ltb i 77
    then get_or n.main_tag (i - 65) 0
    else if ltb i 113
    then get_or (get_or n.tags ((i - 77) / tag_len) []) ((i - 77) % tag_len) 0
    else get_or n.unused (i - 113) 0

unfoldable pub inode_at : Block → ℕ → Inode
inode_at b o = record {
  size = u32 b (o + 0);
  direct = tabulate inode_direct (λ k. u32 b (o + (4 + 4 * k)));
  single_indirect = u32 b (o + 52);
  double_indirect = u32 b (o + 56);
  triple_indirect = u32 b (o + 60);
  kind = b (o + 64);
  main_tag = tabulate tag_len (λ k. b (o + (65 + k)));
  tags = tabulate max_tags (λ t. tabulate tag_len (λ k. b (o + (77 + tag_len * t + k))));
  unused = tabulate 15 (λ k. b (o + (113 + k)));
}

-- `memcpy(buf + offset, src, n)`
unfoldable pub overlay : Block → ℕ → ℕ → (ℕ → ℕ) → Block
overlay buf offset n src i = if leb offset i && ltb i (offset + n) then src (i - offset) else buf i

-- The block and the offset of an inode in the table.
unfoldable pub inode_block : ℕ → Fs → ℕ
inode_block idx s = (s.superblock.inode_start + idx / inodes_per_block) % 2 ^ 32

unfoldable pub inode_offset : ℕ → ℕ
inode_offset idx = idx % inodes_per_block * inode_size

unfoldable pub read_inode : ℕ → Fs → Inode
read_inode idx s = inode_at (block_read (inode_block idx s) s.disk) (inode_offset idx)

unfoldable pub write_inode : ℕ → Inode → Fs → Fs
write_inode idx inode s =
    let block = inode_block idx s in
    let buf = block_read block s.disk in
    record s {
      disk =
          block_write block (overlay buf (inode_offset idx) inode_size (inode_byte inode)) s.disk;
    }
