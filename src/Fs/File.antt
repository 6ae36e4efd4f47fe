-- ===== src/Fs/File.antt =====
-- Files of fs.c: reading, writing, creating, deleting, searching, and the current directory.
pub mod Read
pub mod Write
use Prim.Native.Nat.{min}
use crusader_os_v.Base.{
  ℕ, zero, suc, ◌+◌, ◌-◌, ◌*◌, ◌/◌, ◌%◌, ◌^◌, Bool, true, false, not, ◌&&◌, ◌||◌, Option, none,
  some, List, [], ◌∷◌, ◌==◌, leb, ltb, if◌then◌else◌, get_or, set, length, replicate, codes,
  tabulate,
}
use crusader_os_v.Base.Int.{is_zero}
use crusader_os_v.Bitmap
use crusader_os_v.Disk.{Disk, Block, zeros, block_read, block_write}
use crusader_os_v.Text.{strcmp, strncpy, strlen}
use crusader_os_v.Fs.State.{
  Fs, Inode, M, pure, ◌>>=◌, ◌>>◌, asks, modify, sector_size, inode_size, inode_direct, tag_len,
  max_tags,
}
use crusader_os_v.Fs.Inode.{overlay, inode_byte, read_inode, write_inode}
use crusader_os_v.Fs.Bitmaps.{alloc_block, free_block, alloc_inode, free_inode}
use crusader_os_v.Fs.Dir.{dir_lookup, dir_add, dir_remove}
use crusader_os_v.Fs.Blocks.{get_physical_block, free_indirect_tree}

-- How an operation that loops on fuel ends: `failed` is the -1 of the source.
pub data Outcome (A : Type 0) : Type 0 where
  done : A → Outcome A
  failed : Outcome A
  out_of_fuel : Outcome A

-- `chunk_size`: to the end of the sector, or of the data.
abbrev pub chunk : ℕ → ℕ → ℕ
chunk offset_in_block left = min (sector_size - offset_in_block) left

-- The loop of `fs_write`, which ends with the counter `written` and the node; `buf` is the sector buffer, which keeps its contents between rounds.
unfoldable pub write_from : ℕ → ℕ → ℕ → List ℕ → ℕ → Block → Inode → M (Outcome (ℕ × Inode))
write_from zero inode_idx offset bytes written buf node = pure out_of_fuel
write_from (suc fuel) inode_idx offset bytes written buf node =
    let at = (offset + written) % 2 ^ 32 in
    let left = length bytes - written in
    let within = at % sector_size in
    let n = chunk within left in
    let round : M (Outcome (ℕ × Inode)) = (do
      (phys, node) ← get_physical_block inode_idx node (at / sector_size) true
      if phys == 0 then pure failed else do
        old ← asks (λ s. block_read phys s.disk)
        let start : Block = if ltb 0 within || ltb left sector_size then old else buf
        let new : Block = overlay start within n (λ k. get_or bytes (written + k) 0)
        modify (λ s. record s { disk = block_write phys new s.disk })
        write_from fuel inode_idx offset bytes (written + n) new node) in
    if ltb written (length bytes) then round else pure (done (written, node))

-- What follows the loop of `fs_write`: a longer file has a new size.
unfoldable pub close_write : ℕ → ℕ → Outcome (ℕ × Inode) → M (Outcome ℕ)
close_write inode_idx offset (done (written, node)) s =
    let end = (offset + written) % 2 ^ 32 in
    (
      done written,
      if ltb node.size end then write_inode inode_idx (record node { size = end }) s else s,
    )
close_write inode_idx offset failed s = (failed, s)
close_write inode_idx offset out_of_fuel s = (out_of_fuel, s)

-- `fs_write`: the number of bytes written.
unfoldable pub fs_write : ℕ → ℕ → List ℕ → M (Outcome ℕ)
fs_write inode_idx offset bytes = do
  node ← asks (read_inode inode_idx)
  r ← write_from (length bytes + 1) inode_idx offset bytes 0 zeros node
  close_write inode_idx offset r

-- How many bytes `fs_read` reads: to the end of the file, in 32-bit arithmetic.
unfoldable pub read_size : ℕ → ℕ → ℕ → ℕ
read_size file_size offset size =
    if ltb file_size ((offset + size) % 2 ^ 32)
    then (file_size + 2 ^ 32 - offset) % 2 ^ 32
    else size

-- The sector that `fs_read` copies from: zeros where the file has no block.
unfoldable pub sector_of : ℕ → Inode → ℕ → Fs → Block
sector_of inode_idx node index s =
    let phys = (get_physical_block inode_idx node index false s).0.0 in
    if phys == 0 then zeros else block_read phys s.disk

-- The loop of `fs_read` into `buffer`, which ends with the counter `bytes_read`. With `do_alloc` off nothing is allocated, so that the node and
-- the globals stay as they are.
unfoldable pub read_from : ℕ → ℕ → Inode → ℕ → ℕ → ℕ → Block → Fs → Outcome (ℕ × Block)
read_from zero inode_idx node offset size bytes_read buffer s = out_of_fuel
read_from (suc fuel) inode_idx node offset size bytes_read buffer s =
    let at = (offset + bytes_read) % 2 ^ 32 in
    let within = at % sector_size in
    let n = chunk within (size - bytes_read) in
    let sector = sector_of inode_idx node (at / sector_size) s in
    let rest =
      read_from fuel inode_idx node offset size (bytes_read + n)
        (overlay buffer bytes_read n (λ k. sector (within + k))) s in
    if ltb bytes_read size then rest else done (bytes_read, buffer)

-- `fs_read`: the number of bytes read, and the buffer.
unfoldable pub fs_read : ℕ → Inode → ℕ → ℕ → Block → Fs → Outcome (ℕ × Block)
fs_read inode_idx node offset size buffer s =
    let n = read_size node.size offset size in read_from (n + 1) inode_idx node offset n 0 buffer s

-- `memset(&node, 0, sizeof(node))`
abbrev pub zero_inode : Inode
zero_inode = record {
  size = 0;
  direct = replicate inode_direct 0;
  single_indirect = 0;
  double_indirect = 0;
  triple_indirect = 0;
  kind = 0;
  main_tag = replicate tag_len 0;
  tags = replicate max_tags (replicate tag_len 0);
  unused = replicate 15 0;
}

-- The inode that `fs_create_file` writes, with its first block.
unfoldable pub new_file : List ℕ → ℕ → Inode
new_file main_tag b = record zero_inode {
  kind = 1;
  direct = set zero_inode.direct 0 b;
  main_tag = strncpy main_tag tag_len;
  tags = set zero_inode.tags 0 (strncpy (codes "normal") tag_len);
}

-- `none` is the `(uint32_t)-1` of the source; `main_tag` is not null.
unfoldable pub fs_create_file : List ℕ → List ℕ → M (Option ℕ)
fs_create_file name main_tag = if strlen main_tag == 0 then pure none else do
  found ← alloc_inode
  elim found as (λ _. M (Option ℕ)) [
    | none ↦ pure none
    | some idx ↦ do
      b ← alloc_block
      if b == 0 then (λ s. (none, free_inode idx s)) else do
        modify (write_inode idx (new_file main_tag b))
        root ← asks (λ s. read_inode s.current_dir s)
        dir_add 0 root name idx
        pure (some idx)
  ]

unfoldable pub new_dir : ℕ → Inode
new_dir b = record zero_inode { kind = 2; direct = set zero_inode.direct 0 b }

unfoldable pub fs_create_dir : List ℕ → ℕ → M (Option ℕ)
fs_create_dir name parent_inode_idx = do
  found ← alloc_inode
  elim found as (λ _. M (Option ℕ)) [
    | none ↦ pure none
    | some idx ↦ do
      b ← alloc_block
      if b == 0 then (λ s. (none, free_inode idx s)) else do
        modify (write_inode idx (new_dir b))
        parent ← asks (read_inode parent_inode_idx)
        dir_add parent_inode_idx parent name idx
        pure (some idx)
  ]

-- The loop of `fs_delete_file` over the direct blocks.
unfoldable pub free_direct : List ℕ → Fs → Fs
free_direct [] s = s
free_direct (b ∷ blocks) s = free_direct blocks (if b == 0 then s else free_block b s)

-- Whether the file was there (0 or -1 in the source).
unfoldable pub fs_delete_file : List ℕ → M Bool
fs_delete_file name = do
  root ← asks (read_inode 0)
  found ← asks (dir_lookup root name)
  elim found as (λ _. M Bool) [
    | none ↦ pure false
    | some inode_num ↦ do
      node ← asks (read_inode inode_num)
      modify (free_direct node.direct)
      modify (free_indirect_tree 1 node.single_indirect)
      modify (free_indirect_tree 2 node.double_indirect)
      modify (free_indirect_tree 3 node.triple_indirect)
      modify (free_inode inode_num)
      dir_remove root name
      pure true
  ]

unfoldable pub fs_resolve_path : List ℕ → ℕ → Fs → Option ℕ
fs_resolve_path path current_dir_inode s = dir_lookup (read_inode current_dir_inode s) path s

pub data CdResult : Type 0 where
  ok not_found not_a_directory : CdResult

-- 0, -1 and -2 in the source.
unfoldable pub fs_cd : List ℕ → M CdResult
fs_cd name s =
    if is_zero (strcmp name (codes ".."))
    then (ok, record s { current_dir = 0 })
    else elim (dir_lookup (read_inode s.current_dir s) name s) [
      | none ↦ (not_found, s)
      | some target ↦
          if (read_inode target s).kind == 2
          then (ok, record s { current_dir = target })
          else (not_a_directory, s)
    ]

-- A pointer to the byte `o` of an `inode_t`. A tag of 12 bytes has no NUL, and a string that starts
-- there goes on into the next field.
unfoldable pub inode_text : Inode → ℕ → List ℕ
inode_text n o = tabulate (inode_size - o) (λ k. inode_byte n (o + k))

-- The loop of `fs_find_by_tag` over the tags, from tag `t` with `n` left.
unfoldable pub any_tag : List ℕ → Inode → ℕ → ℕ → Bool
any_tag tag node zero t = false
any_tag tag node (suc n) t =
    is_zero (strcmp (inode_text node (77 + tag_len * t)) tag) || any_tag tag node n (t + 1)

unfoldable pub has_tag : List ℕ → Inode → Bool
has_tag tag node = is_zero (strcmp (inode_text node 65) tag) || any_tag tag node max_tags 0

-- The loop of `fs_find_by_tag` at inode `i`, with `n` inodes left and room for `room` more results.
unfoldable pub find_by_tag_from : ℕ → ℕ → List ℕ → ℕ → Fs → List ℕ
find_by_tag_from zero i tag room s = []
find_by_tag_from (suc n) i tag room s =
    let skip = find_by_tag_from n (i + 1) tag room s in
    let take = i ∷ find_by_tag_from n (i + 1) tag (room - 1) s in
    if Bitmap.test 8 s.inode_bitmap i == 0
    then skip
    else if not (has_tag tag (read_inode i s))
    then skip
    else if leb room 1
    then i ∷ []
    else take

-- The results that `fs_find_by_tag` stores.
unfoldable pub fs_find_by_tag : List ℕ → ℕ → Fs → List ℕ
fs_find_by_tag tag max_results s =
    find_by_tag_from (s.superblock.inode_count - 1) 1 tag max_results s
