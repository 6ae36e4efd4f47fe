-- ===== src/Fs/Blocks.antt =====
-- Block pointers of fs.c: from a file's logical block to the sector that holds it, and back to free.
pub mod Full
pub mod Lookup
use crusader_os_v.Base.{
  ℕ, zero, suc, ◌+◌, ◌-◌, ◌*◌, ◌/◌, ◌%◌, Bool, true, false, ◌&&◌, List, [], ◌∷◌, ◌==◌, ltb,
  if◌then◌else◌, get_or, set,
}
use crusader_os_v.Disk.{Disk, Block, block_read, block_write, zero_block}
use crusader_os_v.Fs.State.{
  Fs, Inode, M, pure, ◌>>=◌, ◌>>◌, asks, modify, inode_direct, ptrs_per_block,
}
use crusader_os_v.Fs.Inode.{u32, byte_of, overlay, write_inode}
use crusader_os_v.Fs.Bitmaps.{alloc_block, free_block}

-- `ptrs[i] = v` in a sector of `uint32_t`.
unfoldable pub store_u32 : Block → ℕ → ℕ → Block
store_u32 buf i v = overlay buf (4 * i) 4 (byte_of v)

-- Allocate a block for pointer `i` of the sector `ptrs` at `table`, clear it if it holds pointers
-- itself (`is_table`), and write the sector back.
unfoldable pub extend_table : ℕ → Block → ℕ → Bool → M ℕ
extend_table table ptrs i is_table = do
  b ← alloc_block
  modify (λ s. if is_table then (record s { disk = zero_block b s.disk }) else s)
  modify (λ s. record s { disk = block_write table (store_u32 ptrs i b) s.disk })
  pure b

-- One step through the sector of pointers at `table`: its pointer `i`, which is allocated if it is 0
-- and `do_alloc`.
unfoldable pub follow : ℕ → ℕ → Bool → Bool → M ℕ
follow table i is_table do_alloc = do
  ptrs ← asks (λ s. block_read table s.disk)
  if u32 ptrs (4 * i) == 0 && do_alloc
      then extend_table table ptrs i is_table
      else pure (u32 ptrs (4 * i))

-- The pointer of the inode itself to an indirect block, `root`, which `put` stores.
unfoldable pub ensure_root : ℕ → Inode → ℕ → (ℕ → Inode) → Bool → M (ℕ × Inode)
ensure_root inode_idx node root put do_alloc =
    if root == 0 && do_alloc
    then (do
      b ← alloc_block
      modify (λ s. record s { disk = zero_block b s.disk })
      modify (write_inode inode_idx (put b))
      pure (b, put b))
    else pure (root, node)

-- The block that the logical block of a file lies in, 0 if none, and what has become of `*node`.
unfoldable pub get_physical_block : ℕ → Inode → ℕ → Bool → M (ℕ × Inode)
get_physical_block inode_idx node logical_idx do_alloc =
    if ltb logical_idx inode_direct
    then (if get_or node.direct logical_idx 0 == 0 && do_alloc
        then (do
          b ← alloc_block
          let node' : Inode = record node { direct = set node.direct logical_idx b }
          modify (write_inode inode_idx node')
          pure (b, node'))
        else pure (get_or node.direct logical_idx 0, node))
    else let i1 = logical_idx - inode_direct in
      if ltb i1 ptrs_per_block
      then (do
        (root, node) ←
            ensure_root inode_idx node node.single_indirect
              (λ b. record node { single_indirect = b }) do_alloc
        if root == 0 then pure (0, node) else do p ← follow root i1 false do_alloc; pure (p, node))
      else let i2 = i1 - ptrs_per_block in
        if ltb i2 (ptrs_per_block * ptrs_per_block)
        then (do
          (root, node) ←
              ensure_root inode_idx node node.double_indirect
                (λ b. record node { double_indirect = b }) do_alloc
          if root == 0 then pure (0, node) else do
            t ← follow root (i2 / ptrs_per_block) true do_alloc
            if t == 0
                then pure (0, node)
                else do p ← follow t (i2 % ptrs_per_block) false do_alloc; pure (p, node))
        else let i3 = i2 - ptrs_per_block * ptrs_per_block in
          if ltb i3 (ptrs_per_block * ptrs_per_block * ptrs_per_block)
          then (do
            (root, node) ←
                ensure_root inode_idx node node.triple_indirect
                  (λ b. record node { triple_indirect = b }) do_alloc
            if root == 0 then pure (0, node) else do
              let rem = i3 % (ptrs_per_block * ptrs_per_block)
              t ← follow root (i3 / (ptrs_per_block * ptrs_per_block)) true do_alloc
              if t == 0 then pure (0, node) else do
                u ← follow t (rem / ptrs_per_block) true do_alloc
                if u == 0
                    then pure (0, node)
                    else do p ← follow u (rem % ptrs_per_block) false do_alloc; pure (p, node))
          else pure (0, node)

-- The loop of `free_indirect_tree` over the pointers of the sector `ptrs`, from pointer `i` with `n`
-- left; `free` is the recursive call.
unfoldable pub free_pointers : (ℕ → Fs → Fs) → Block → ℕ → ℕ → Fs → Fs
free_pointers free ptrs zero i s = s
free_pointers free ptrs (suc n) i s =
    let p = u32 ptrs (4 * i) in free_pointers free ptrs n (i + 1) (if p == 0 then s else free p s)

unfoldable pub free_indirect_tree : ℕ → ℕ → Fs → Fs
free_indirect_tree zero block_lba s = if block_lba == 0 then s else free_block block_lba s
free_indirect_tree (suc depth) block_lba s =
    if block_lba == 0
    then s
    else free_block block_lba
        (free_pointers (free_indirect_tree depth) (block_read block_lba s.disk) ptrs_per_block 0 s)
