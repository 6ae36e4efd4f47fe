-- ===== src/Fs/Blocks/Full.antt =====
-- What `get_physical_block` does when no block is free.
use crusader_os_v.Base.{
  ℕ, ◌+◌, ◌-◌, ◌/◌, ◌%◌, ◌^◌, ◌≤◌, ◌<◌, ◌≡◌, ◌≢◌, refl, ap, ◌∙◌, inl, inr, Bool-cases, true, false,
  arith, ltb, if◌then◌else◌,
}
use crusader_os_v.Disk.{zeros, block_read, block_write, zero_block}
use crusader_os_v.Disk.Laws.{block_read-block_write_self}
use crusader_os_v.Fs.State.{Fs, Inode}
use crusader_os_v.Fs.Inode.{inode_block}
use crusader_os_v.Fs.Inode.Table.{block_read-write_inode}
use crusader_os_v.Fs.Bitmaps.{alloc_start, alloc_block}
use crusader_os_v.Fs.Bitmaps.Alloc.{alloc_block_lem}
use crusader_os_v.Fs.Blocks.{ensure_root, get_physical_block}

alloc_start_pos : (s : Fs) → 0 < alloc_start s.superblock
unfolding alloc_start
alloc_start_pos s = ground arith

-- A search that finds nothing leaves the state alone.
pub alloc_block-full : (s : Fs) → (alloc_block s).0 ≡ 0 → (alloc_block s).1 ≡ s
alloc_block-full s e = elim (alloc_block_lem s) [
  | inl full ↦ full.unchanged
  | inr a ↦ absurd (omega (arith, e, a.from_start, alloc_start_pos s))
]

inode_block-superblock :
    (idx : ℕ) (s t : Fs) → s.superblock ≡ t.superblock → inode_block idx s ≡ inode_block idx t
unfolding inode_block
inode_block-superblock idx s t e = ap (λ sb. (sb.inode_start + idx / 4) % 2 ^ 32) e

-- The superblock is gone: sector 0 holds zeros.
abbrev pub IsWiped : Fs → Type 0
IsWiped s = block_read 0 s.disk ≡ zeros

-- The pointer of the inode that the way to a block behind the direct ones begins at.
abbrev pub root_of : Inode → ℕ → ℕ
root_of node l =
    if ltb l (12 + 128)
    then node.single_indirect
    else if ltb l (12 + 128 + 16384)
    then node.double_indirect
    else node.triple_indirect

module _ (inode_idx : ℕ) (s : Fs) (full : (alloc_block s).0 ≡ 0)
    (apart : inode_block inode_idx s % 2 ^ 28 ≢ 0) where
  ensure_root-full :
      (node : Inode) (root : ℕ) (put : ℕ → Inode)
      → root ≡ 0
      → let r = ensure_root inode_idx node root put true s in (r.0.0 ≡ 0) × IsWiped r.1
  unfolding ensure_root zero_block
  ensure_root-full node root put e = rw e (
      let b = (alloc_block s).0 in
      let t = (alloc_block s).1 in
      let d = block_write b zeros t.disk in
      let same : inode_block inode_idx (record t { disk = d }) ≡ inode_block inode_idx s =
        inode_block-superblock inode_idx (record t { disk = d }) s
          (ap (λ (u : Fs). u.superblock) (alloc_block-full s full)) in
      (
        full,
        block_read-write_inode 0 inode_idx (put b) (record t { disk = d }) (omega (arith, same))
            ∙ ap (λ c. block_read 0 (block_write c zeros t.disk)) full
            ∙ block_read-block_write_self 0 zeros t.disk,
      ))

  -- On a full drive, asking for a block behind the direct ones whose pointer in the inode is missing, whatever the other pointers are, returns 0 and fills sector 0, the superblock, with zeros, if the inode itself is not in sector 0.
  pub get_physical_block-wipes :
      (node : Inode) (l : ℕ)
      → root_of node l ≡ 0
      → 12 ≤ l
      → l < 12 + 128 + 128 ^ 2 + 128 ^ 3
      → let r = get_physical_block inode_idx node l true s in (r.0.0 ≡ 0) × IsWiped r.1
  unfolding get_physical_block
  get_physical_block-wipes node l e lo hi =
      let past : ltb l 12 ≡ false = ground arith in
      elim (Bool-cases (ltb (l - 12) 128)) [
        | inl one ↦
            let w =
              ensure_root-full node node.single_indirect (λ b. record node { single_indirect = b })
                (ground arith) in
            rw (past, one) (rw w.0 (refl, w.1))
        | inr more ↦ elim (Bool-cases (ltb (l - 12 - 128) 16384)) [
          | inl two ↦
              let w =
                ensure_root-full node node.double_indirect
                  (λ b. record node { double_indirect = b }) (ground arith) in
              rw (past, more, two) (rw w.0 (refl, w.1))
          | inr rest ↦
              let three : ltb (l - 12 - 128 - 16384) 2097152 ≡ true = ground arith in
              let w =
                ensure_root-full node node.triple_indirect
                  (λ b. record node { triple_indirect = b }) (ground arith) in
              rw (past, more, rest, three) (rw w.0 (refl, w.1))
        ]
      ]
