-- ===== src/Fs/Tests.antt =====
-- Runs of fs.c on a small drive.
use Prim.Native.Nat.{min}
use crusader_os_v.Base.{
  none, some, codes, ℕ, zero, suc, ◌%◌, ◌^◌, ◌-◌, ◌<◌, ◌≤◌, ◌≡◌, ◌≢◌, ◌⊎◌, refl, arith, true, false,
  List, [], ◌∷◌, replicate, ◌==◌, if◌then◌else◌, get_or, length,
}
use crusader_os_v.Bits.{bit}
use crusader_os_v.Bitmap
use crusader_os_v.Disk.{Block, zeros}
use crusader_os_v.Fs.State.{Fs, Inode}
use crusader_os_v.Fs.Inode.{u32, read_inode, write_inode, inode_block}
use crusader_os_v.Fs.Inode.Codec.{IsStorable}
use crusader_os_v.Fs.Inode.Table.{read_inode-write_inode}
use crusader_os_v.Fs.Bitmaps.{
  get_block_bitmap_bit, load_block_bitmap, save_block_bitmap, alloc_start, alloc_block_from,
  alloc_block, free_block, alloc_inode,
}
use crusader_os_v.Fs.Bitmaps.Alloc.{
  Allocated, IsFull, alloc_block_lem, free_block-alloc_block, AllocInodeResult, alloc_inode_lem,
}
use crusader_os_v.Fs.Bitmaps.Sync.{load_block_bitmap-save_block_bitmap}
use crusader_os_v.Fs.Blocks.{get_physical_block}
use crusader_os_v.Fs.Blocks.Lookup.{file_block, get_physical_block-file_block}
use crusader_os_v.Fs.Blocks.Full.{IsWiped, get_physical_block-wipes}
use crusader_os_v.Fs.File.{done, failed, read_size, fs_read, fs_write}
use crusader_os_v.Fs.File.Write.{fs_write-ends}
use crusader_os_v.Fs.Dir.{entry_inode, entry_matches, lookup_entries, store_entry}
use crusader_os_v.Fs.Dir.Entry.{IsTerminated}
use crusader_os_v.Fs.Dir.Lookup.{store_entry-lookup}
use crusader_os_v.Text.{c_string}
use crusader_os_v.Fs.File.Read.{file_byte, Copied, fs_read_lem, read_size-past_end}
use crusader_os_v.Fs.Format.{
  layout, sectors_of_bytes, bitmap_bytes, total_blocks_of, inode_bitmap_sectors_of, inode_count_of,
  table_blocks_of, Probe,
}
use crusader_os_v.Fs.Format.Layout.{IsLayout, layout-IsLayout, alloc_block-layout}

-- A master drive of 64 sectors on the primary port, all zero, with the superblock that formatting writes.
abbrev small : Fs
small = record {
  superblock = record {
    magic = 0x5a4c_534a;
    block_size = 512;
    total_blocks = 64;
    inode_count = 16;
    bitmap_start = 1;
    inode_start = 3;
    data_start = 7;
  };
  block_bitmap = λ _. 0;
  inode_bitmap = λ _. 0;
  block_bitmap_bytes = 8;
  block_bitmap_sectors = 1;
  inode_bitmap_sectors = 1;
  inode_table_blocks = 4;
  current_dir = 0;
  current_path = [];
  drives = λ _. record { ata_base = 0x1f0; is_slave = 0; total_sectors = 64 };
  active_drives = 1;
  current_drive = 0;
  disk = record { ata_base = 0x1f0; is_slave = 0; media = λ _ _ _ _. 0 };
}

-- The same drive with every block in use.
abbrev full : Fs
full = record small { block_bitmap = λ _. 255 }

-- A file of 600 bytes in the blocks 20 and 21, with the indirect blocks still missing.
abbrev file : Inode
file = record {
  size = 600;
  direct = 20 ∷ 21 ∷ replicate 10 0;
  single_indirect = 0;
  double_indirect = 0;
  triple_indirect = 0;
  kind = 1;
  main_tag = replicate 12 0;
  tags = replicate 3 (replicate 12 0);
  unused = replicate 15 0;
}

small-layout : small.superblock ≡ layout 64
unfolding layout sectors_of_bytes bitmap_bytes total_blocks_of inode_bitmap_sectors_of
    inode_count_of table_blocks_of
small-layout = refl

first_free : (alloc_block small).0 ≡ 7
unfolding alloc_block alloc_block_from get_block_bitmap_bit Bitmap.test bit alloc_start
first_free = refl

none_free : (alloc_block full).0 ≡ 0
unfolding alloc_block alloc_block_from get_block_bitmap_bit Bitmap.test bit alloc_start
none_free = refl

inode_block_of_6 : inode_block 6 full % 2 ^ 28 ≢ 0
unfolding inode_block
inode_block_of_6 e = absurd (omega (arith, e))

abbrev AllLt : List ℕ → ℕ → Type 0
AllLt [] n = Unit {0}
AllLt (x ∷ xs) n = (x < n) × AllLt xs n

get_or-lt : (xs : List ℕ) (n k : ℕ) → 0 < n → AllLt xs n → get_or xs k 0 < n
get_or-lt [] n k p all = p
get_or-lt (x ∷ xs) n zero p (l, all) = l
get_or-lt (x ∷ xs) n (suc k) p (l, all) = get_or-lt xs n k p all

file_tag : (t : ℕ) → t < 3 → length (get_or file.tags t []) ≡ 12
file_tag zero l = refl
file_tag (suc zero) l = refl
file_tag (suc (suc zero)) l = refl
file_tag (suc (suc (suc t))) l = absurd (omega arith)

file-IsStorable : IsStorable file
file-IsStorable = record {
  size = omega arith;
  direct = λ k. get_or-lt file.direct (2 ^ 32) k (omega arith) (
    omega arith,
    (
      omega arith,
      (
        omega arith,
        (
          omega arith,
          (
            omega arith,
            (
              omega arith,
              (
                omega arith,
                (omega arith, (omega arith, (omega arith, (omega arith, (omega arith, tt))))),
              ),
            ),
          ),
        ),
      ),
    ),
  );
  direct_length = refl;
  single_indirect = omega arith;
  double_indirect = omega arith;
  triple_indirect = omega arith;
  main_tag = refl;
  tags = refl;
  tag = file_tag;
  unused = refl;
}

fs_read_lem_example :
    (out : Block) × (fs_read 6 file 500 200 zeros small ≡ done (min 200 (600 - 500), out))
    × Copied (file_byte 6 file small) 500 0 (min 200 (600 - 500)) zeros out
fs_read_lem_example =
    fs_read_lem 6 file 500 200 zeros small (omega arith) (omega arith) (omega arith)

get_physical_block-file_block_example :
    get_physical_block 6 file 150 false small ≡ ((file_block small.disk file 150, file), small)
get_physical_block-file_block_example = get_physical_block-file_block 6 file 150 small

alloc_block_lem_example :
    IsFull (alloc_start small.superblock) small (alloc_block small).0 (alloc_block small).1
    ⊎ Allocated (alloc_start small.superblock) small (alloc_block small).0 (alloc_block small).1
alloc_block_lem_example = alloc_block_lem small

free_block-alloc_block_example :
    get_block_bitmap_bit 7 (free_block (alloc_block small).0 (alloc_block small).1)
    ≡ get_block_bitmap_bit 7 small
free_block-alloc_block_example =
    free_block-alloc_block small 7 (λ e. absurd (omega (arith, first_free, e)))

alloc_inode_lem_example : AllocInodeResult small (alloc_inode small).0 (alloc_inode small).1
alloc_inode_lem_example = alloc_inode_lem small

read_inode-write_inode_example :
    read_inode 7 (write_inode 6 file small) ≡ (if 7 == 6 then file else read_inode 7 small)
read_inode-write_inode_example =
    read_inode-write_inode 6 7 file small file-IsStorable (omega arith) (omega arith)

load_block_bitmap-save_block_bitmap_example :
    (load_block_bitmap (record (save_block_bitmap full) { block_bitmap = λ _. 1 })).block_bitmap 3
    ≡ 255
load_block_bitmap-save_block_bitmap_example =
    load_block_bitmap-save_block_bitmap full (λ _. 1) 3
      (record { sectors = omega arith; addressable = omega arith }) (omega arith)

layout-IsLayout_example : IsLayout 64 (layout 64)
layout-IsLayout_example = layout-IsLayout 64

alloc_block-layout_example :
    ((alloc_block small).0 ≡ 0) ⊎ ((7 ≤ (alloc_block small).0) × ((alloc_block small).0 < 64))
alloc_block-layout_example = alloc_block-layout 64 small small-layout

-- The single indirect block is there, the double one is not.
abbrev grown : Inode
grown = record file { single_indirect = 22 }

get_physical_block-wipes_example :
    ((get_physical_block 6 grown 140 true full).0.0 ≡ 0)
    × IsWiped (get_physical_block 6 grown 140 true full).1
get_physical_block-wipes_example =
    get_physical_block-wipes 6 full none_free inode_block_of_6 grown 140 refl (omega arith)
      (omega arith)

read_size-past_end_example : 50 < read_size 100 200 50
read_size-past_end_example = read_size-past_end 100 200 50 (omega arith) (omega arith)

-- Every port answers: a drive of 64 sectors as master and as slave.
abbrev four_drives : Probe
four_drives = record { present = λ _. true; sectors = λ _ _. 64 }

-- An empty directory block.
empty_slot : entry_inode zeros 0 ≡ 0
unfolding entry_inode u32
empty_slot = refl

empty_lookup : lookup_entries 16 (codes "a.txt") zeros 16 0 ≡ none
unfolding lookup_entries entry_matches entry_inode u32
empty_lookup = refl

short_name : length (c_string (codes "a.txt")) ≤ 27
unfolding c_string
short_name = omega arith

store_entry-lookup_example :
    (lookup_entries 16 (codes "a.txt") (store_entry zeros 0 6 (codes "a.txt")) 16 0 ≡ some 6)
    × ((n : List ℕ)
        → c_string n ≢ c_string (codes "a.txt")
        → lookup_entries 16 n (store_entry zeros 0 6 (codes "a.txt")) 16 0
          ≡ lookup_entries 16 n zeros 16 0)
    × IsTerminated (store_entry zeros 0 6 (codes "a.txt"))
store_entry-lookup_example =
    store_entry-lookup zeros 0 6 16 (codes "a.txt") (λ j l. refl) (omega arith) empty_slot
      (omega arith) (omega arith) (omega arith) short_name empty_lookup

fs_write-ends_example :
    ((fs_write 6 0 (1 ∷ 2 ∷ 3 ∷ []) small).0 ≡ done 3)
    ⊎ ((fs_write 6 0 (1 ∷ 2 ∷ 3 ∷ []) small).0 ≡ failed)
fs_write-ends_example = fs_write-ends 6 0 (1 ∷ 2 ∷ 3 ∷ []) small
