-- ===== src/Fs/Inode/Table.antt =====
-- The inode table on the disk: an inode reads back as it was written, and its neighbours stay.
use crusader_os_v.Base.{
  ℕ, ◌+◌, ◌-◌, ◌*◌, ◌/◌, ◌%◌, ◌^◌, ◌≤◌, ◌<◌, ◌≡◌, ◌≢◌, sym, ==_refl, ==_ne, ap, ◌∙◌, arith, dec_lt,
  ℕ_discrete, ◌==◌, if◌then◌else◌,
}
use crusader_os_v.Disk.{Block, block_read, block_write}
use crusader_os_v.Disk.Laws.{
  block_read-block_write, block_read-block_write_self, block_read-block_write_ne,
}
use crusader_os_v.Fs.State.{Fs, Inode, inode_size, inodes_per_block}
use crusader_os_v.Fs.Inode.{
  inode_byte, inode_at, overlay, inode_block, inode_offset, read_inode, write_inode,
}
use crusader_os_v.Fs.Inode.Codec.{IsStorable, inode_at-same, inode_at-inode_byte}

pub overlay-inside :
    (b : Block) (o n : ℕ) (f : ℕ → ℕ) (k : ℕ) → k < n → overlay b o n f (o + k) ≡ f k
unfolding overlay
overlay-inside b o n f k l = let e : o + k - o ≡ k = omega arith in ground (arith, ap f e)

pub overlay-below : (b : Block) (o n : ℕ) (f : ℕ → ℕ) (i : ℕ) → i < o → overlay b o n f i ≡ b i
unfolding overlay
overlay-below b o n f i l = ground arith

pub overlay-above : (b : Block) (o n : ℕ) (f : ℕ → ℕ) (i : ℕ) → o + n ≤ i → overlay b o n f i ≡ b i
unfolding overlay
overlay-above b o n f i l = ground arith

-- The block of inode `i` lies where the drive can address it.
abbrev pub InTable : ℕ → Fs → Type 0
InTable i s = s.superblock.inode_start + i / inodes_per_block < 2 ^ 28

module _ (i : ℕ) (n : Inode) (s : Fs) (v : IsStorable n) (hi : InTable i s) where
  same_inode : read_inode i (write_inode i n s) ≡ n
  unfolding read_inode write_inode inode_block
  same_inode =
      rw (block_read-block_write, ==_refl)
        (inode_at-same
            (overlay (block_read (inode_block i s) s.disk) (inode_offset i) inode_size
              (inode_byte n))
            (inode_byte n) (inode_offset i) 0
            (λ k l.
              overlay-inside (block_read (inode_block i s) s.disk) (inode_offset i) inode_size
                (inode_byte n) k l
              ∙ ap (inode_byte n) (omega arith))
          ∙ inode_at-inode_byte v)

  module _ (j : ℕ) (ne : j ≢ i) (hj : InTable j s) where
    other_slot :
        (buf : Block)
        → j / inodes_per_block ≡ i / inodes_per_block
        → inode_at (overlay buf (inode_offset i) inode_size (inode_byte n)) (inode_offset j)
          ≡ inode_at buf (inode_offset j)
    unfolding inode_offset
    other_slot buf e = inode_at-same _ _ (inode_offset j) (inode_offset j) (λ k l.
        elim (dec_lt (j % inodes_per_block) (i % inodes_per_block)) [
          | yes lower ↦
              overlay-below buf (i % 4 * 128) 128 (inode_byte n) (j % 4 * 128 + k) (omega arith)
          | no higher ↦
              overlay-above buf (i % 4 * 128) 128 (inode_byte n) (j % 4 * 128 + k) (omega arith)
        ])

    other_inode : read_inode j (write_inode i n s) ≡ read_inode j s
    unfolding read_inode write_inode inode_block
    other_inode =
        let block = inode_block i s in
        let buf = block_read block s.disk in
        let new = overlay buf (inode_offset i) inode_size (inode_byte n) in
        elim (ℕ_discrete (j / inodes_per_block) (i / inodes_per_block)) [
          | yes e ↦
              let same : inode_block j s ≡ block =
                ap (λ t. (s.superblock.inode_start + t) % 2 ^ 32) e in
              ap (λ b. inode_at (block_read b (block_write block new s.disk)) (inode_offset j)) same
              ∙ ap (λ b. inode_at b (inode_offset j)) (block_read-block_write_self block new s.disk)
              ∙ other_slot buf e
              ∙ ap (λ b. inode_at (block_read b s.disk) (inode_offset j)) (sym same)
          | no apart ↦
              ap (λ b. inode_at b (inode_offset j))
                (block_read-block_write_ne (inode_block j s) block new s.disk (omega arith))
        ]

-- In an inode table that the drive can address, `write_inode` changes the inode that it writes and no
-- other, also in the same sector: whatever is read back is what was written last. The inode written
-- is in the ranges of its C types.
pub read_inode-write_inode :
    (i j : ℕ) (n : Inode) (s : Fs)
    → IsStorable n
    → InTable i s
    → InTable j s
    → read_inode j (write_inode i n s) ≡ (if j == i then n else read_inode j s)
read_inode-write_inode i j n s v hi hj = elim (ℕ_discrete j i) [
  | yes e ↦ rw (e, ==_refl) (same_inode i n s v hi)
  | no ne ↦ rw (==_ne j i ne) (other_inode i n s v hi j ne hj)
]

-- Writing an inode leaves the other sectors alone.
pub block_read-write_inode :
    (a idx : ℕ) (n : Inode) (s : Fs)
    → a % 2 ^ 28 ≢ inode_block idx s % 2 ^ 28
    → block_read a (write_inode idx n s).disk ≡ block_read a s.disk
unfolding write_inode
block_read-write_inode a idx n s h =
    block_read-block_write_ne a (inode_block idx s)
      (overlay (block_read (inode_block idx s) s.disk) (inode_offset idx) inode_size (inode_byte n))
      s.disk h
