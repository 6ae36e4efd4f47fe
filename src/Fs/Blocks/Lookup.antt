-- ===== src/Fs/Blocks/Lookup.antt =====
-- `get_physical_block` that does not allocate, against a tree of pointers.
use crusader_os_v.Base.{
  ℕ, zero, suc, ◌+◌, ◌-◌, ◌*◌, ◌/◌, ◌%◌, ◌^◌, ◌≤◌, ◌≡◌, Bool, false, arith, ◌==◌, ltb,
  if◌then◌else◌, get_or,
}
use crusader_os_v.Disk.{Disk, block_read}
use crusader_os_v.Fs.State.{Fs, Inode}
use crusader_os_v.Fs.Inode.{u32}
use crusader_os_v.Fs.Blocks.{follow, ensure_root, get_physical_block}

-- The leaf `i` of the tree of pointers of a depth at a block; 0 where a pointer on the way is 0.
pub leaf : Disk → ℕ → ℕ → ℕ → ℕ
leaf d zero block i = block
leaf d (suc depth) block i =
    if block == 0
    then 0
    else leaf d depth (u32 (block_read block d) (4 * (i / 128 ^ depth))) (i % 128 ^ depth)

-- The logical block of a file: a direct pointer, or a leaf of the first tree that reaches so far.
pub file_block : Disk → Inode → ℕ → ℕ
file_block d node l =
    if ltb l 12
    then get_or node.direct l 0
    else if ltb l (12 + 128)
    then leaf d 1 node.single_indirect (l - 12)
    else if ltb l (12 + 128 + 128 ^ 2)
    then leaf d 2 node.double_indirect (l - (12 + 128))
    else if ltb l (12 + 128 + 128 ^ 2 + 128 ^ 3)
    then leaf d 3 node.triple_indirect (l - (12 + 128 + 128 ^ 2))
    else 0

-- Without `do_alloc`, `get_physical_block` returns the block that the tree of pointers gives, and
-- changes neither the inode nor the state.
pub get_physical_block-file_block :
    (inode_idx : ℕ) (node : Inode) (l : ℕ) (s : Fs)
    → get_physical_block inode_idx node l false s ≡ ((file_block s.disk node l, node), s)
unfolding get_physical_block follow ensure_root file_block leaf
get_physical_block-file_block inode_idx node l s = ground arith

-- Beyond the reach of the triple indirect block there is no block, not even by allocation, and
-- nothing is changed.
pub get_physical_block-beyond :
    (inode_idx : ℕ) (node : Inode) (l : ℕ) (alloc : Bool) (s : Fs)
    → 12 + 128 + 128 ^ 2 + 128 ^ 3 ≤ l
    → get_physical_block inode_idx node l alloc s ≡ ((0, node), s)
unfolding get_physical_block
get_physical_block-beyond inode_idx node l alloc s h = ground arith
