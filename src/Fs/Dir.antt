-- ===== src/Fs/Dir.antt =====
-- Directories of fs.c: blocks of 16 entries of 32 bytes, a `uint32_t` inode and a name of 28 bytes.
pub mod Entry
pub mod Lookup
use crusader_os_v.Base.{
  ℕ, zero, suc, ◌+◌, ◌-◌, ◌*◌, Bool, true, false, not, ◌&&◌, Option, none, some, List, [], ◌∷◌,
  ◌==◌, leb, if◌then◌else◌, get_or, set, tabulate,
}
use crusader_os_v.Base.Int.{is_zero}
use crusader_os_v.Disk.{Disk, Block, zeros, block_read, block_write}
use crusader_os_v.Text.{strcmp, strncpy}
use crusader_os_v.Fs.State.{
  Fs, Inode, M, pure, ◌>>=◌, ◌>>◌, asks, modify, sector_size, inode_direct,
}
use crusader_os_v.Fs.Inode.{u32, byte_of, overlay, write_inode}
use crusader_os_v.Fs.Bitmaps.{alloc_block}

abbrev pub entries_per_block : ℕ
entries_per_block = 16

-- `entries[i].inode`
unfoldable pub entry_inode : Block → ℕ → ℕ
entry_inode buf i = u32 buf (i * 32)

-- `entries[i].name`, a pointer: the bytes from there to the end of the buffer.
unfoldable pub entry_name : Block → ℕ → List ℕ
entry_name buf i = tabulate (sector_size - (i * 32 + 4)) (λ k. buf (i * 32 + 4 + k))

-- The test of `dir_lookup` on an entry.
unfoldable pub entry_matches : ℕ → List ℕ → Block → ℕ → Bool
entry_matches inode_count name buf i =
    not (entry_inode buf i == 0)
    && not (leb inode_count (entry_inode buf i))
    && is_zero (strcmp (entry_name buf i) name)

-- The inner loop of `dir_lookup`, at entry `i` with `n` left.
unfoldable pub lookup_entries : ℕ → List ℕ → Block → ℕ → ℕ → Option ℕ
lookup_entries inode_count name buf zero i = none
lookup_entries inode_count name buf (suc n) i =
    let rest = lookup_entries inode_count name buf n (i + 1) in
    if entry_matches inode_count name buf i then some (entry_inode buf i) else rest

-- The outer loop, over the direct blocks that are left; it ends at the first 0.
unfoldable pub lookup_blocks : ℕ → List ℕ → Disk → List ℕ → Option ℕ
lookup_blocks inode_count name d [] = none
lookup_blocks inode_count name d (lba ∷ blocks) =
    let rest = lookup_blocks inode_count name d blocks in
    if lba == 0
    then none
    else elim (lookup_entries inode_count name (block_read lba d) entries_per_block 0) [
      | some found ↦ some found
      | none ↦ rest
    ]

-- `none` is the -1 of the source.
unfoldable pub dir_lookup : Inode → List ℕ → Fs → Option ℕ
dir_lookup dir name s =
    if dir.kind == 2 then lookup_blocks s.superblock.inode_count name s.disk dir.direct else none

-- `entries[i].inode = inode_idx`, then the name: `strncpy` of 27 bytes and a NUL.
unfoldable pub store_entry : Block → ℕ → ℕ → List ℕ → Block
store_entry buf i inode_idx name =
    let buf = overlay buf (i * 32) 4 (byte_of inode_idx) in
    let buf = overlay buf (i * 32 + 4) 27 (λ k. get_or (strncpy name 27) k 0) in
    overlay buf (i * 32 + 31) 1 (λ _. 0)

-- The first entry with inode 0, from entry `i` with `n` left.
unfoldable pub free_entry : Block → ℕ → ℕ → Option ℕ
free_entry buf zero i = none
free_entry buf (suc n) i =
    let rest = free_entry buf n (i + 1) in if entry_inode buf i == 0 then some i else rest

-- The loop of `dir_add` at the direct block `b`, with `n` blocks left; `buf` is the sector buffer.
-- The result says whether the entry was added, and what has become of `*dir`.
unfoldable pub dir_add_from : ℕ → ℕ → ℕ → ℕ → List ℕ → Inode → M (Bool × Inode)
dir_add_from dir_inode_id inode_idx zero b name dir = pure (false, dir)
dir_add_from dir_inode_id inode_idx (suc n) b name dir =
    let next = dir_add_from dir_inode_id inode_idx n (b + 1) name in
    let put = λ (dir' : Inode) (buf : Block).
      elim (free_entry buf entries_per_block 0) as (λ _. M (Bool × Inode)) [
        | some i ↦ λ s. (
          (true, dir'),
          record s {
            disk = block_write (get_or dir'.direct b 0) (store_entry buf i inode_idx name) s.disk;
          },
        )
        | none ↦ next dir'
      ] in
    if get_or dir.direct b 0 == 0
    then (do
      new_block ← alloc_block
      if new_block == 0 then pure (false, dir) else do
        let dir' : Inode = record dir { direct = set dir.direct b new_block }
        modify (write_inode dir_inode_id dir')
        put dir' zeros)
    else (do buf ← asks (λ s. block_read (get_or dir.direct b 0) s.disk); put dir buf)

unfoldable pub dir_add : ℕ → Inode → List ℕ → ℕ → M (Bool × Inode)
dir_add dir_inode_id dir name inode_idx =
    dir_add_from dir_inode_id inode_idx inode_direct 0 name dir

-- `entries[i].inode = 0` and `memset(entries[i].name, 0, 28)`
unfoldable pub clear_entry : Block → ℕ → Block
clear_entry buf i = overlay (overlay buf (i * 32) 4 (λ _. 0)) (i * 32 + 4) 28 (λ _. 0)

-- The entry that `dir_remove` clears.
unfoldable pub named_entry : List ℕ → Block → ℕ → ℕ → Option ℕ
named_entry name buf zero i = none
named_entry name buf (suc n) i =
    let rest = named_entry name buf n (i + 1) in
    if not (entry_inode buf i == 0) && is_zero (strcmp (entry_name buf i) name)
    then some i
    else rest

unfoldable pub remove_blocks : List ℕ → List ℕ → M Bool
remove_blocks name [] = pure false
remove_blocks name (lba ∷ blocks) =
    let rest = remove_blocks name blocks in
    if lba == 0 then rest else (do
      buf ← asks (λ s. block_read lba s.disk)
      elim (named_entry name buf entries_per_block 0) as (λ _. M Bool) [
        | some i ↦ λ s. (true, record s { disk = block_write lba (clear_entry buf i) s.disk })
        | none ↦ rest
      ])

-- Whether an entry was removed (0 or -1 in the source).
unfoldable pub dir_remove : Inode → List ℕ → M Bool
dir_remove dir name = if dir.kind == 2 then remove_blocks name dir.direct else pure false
