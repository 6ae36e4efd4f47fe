-- ===== src/Fs/State.antt =====
-- The data of fs.h and the globals of fs.c, and the monad of the operations over them.
use crusader_os_v.Base.{ℕ, List}
use crusader_os_v.Bitmap.{Words}
use crusader_os_v.Disk.{Disk}

abbrev pub sector_size : ℕ
sector_size = 512

abbrev pub inode_size : ℕ
inode_size = 128

abbrev pub inodes_per_block : ℕ
inodes_per_block = 4

abbrev pub inode_direct : ℕ
inode_direct = 12

abbrev pub ptrs_per_block : ℕ
ptrs_per_block = 128

abbrev pub tag_len : ℕ
tag_len = 12

abbrev pub max_tags : ℕ
max_tags = 3

abbrev pub block_bitmap_max_size : ℕ
block_bitmap_max_size = 32768

abbrev pub inode_bitmap_size : ℕ
inode_bitmap_size = 32768

abbrev pub fs_magic : ℕ
fs_magic = 0x5a4c_534a

-- `superblock_t`
pub record Superblock : Type 0 where
  pub magic : ℕ
  pub block_size : ℕ
  pub total_blocks : ℕ
  pub inode_count : ℕ
  pub bitmap_start : ℕ
  pub inode_start : ℕ
  pub data_start : ℕ

-- `inode_t`; `kind` is its `type`: 1 for a file, 2 for a directory.
pub record Inode : Type 0 where
  pub size : ℕ
  pub direct : List ℕ
  pub single_indirect : ℕ
  pub double_indirect : ℕ
  pub triple_indirect : ℕ
  pub kind : ℕ
  pub main_tag : List ℕ
  pub tags : List (List ℕ)
  pub unused : List ℕ

-- What fs.c uses of `fs_device_t`.
pub record Device : Type 0 where
  pub ata_base : ℕ
  pub is_slave : ℕ
  pub total_sectors : ℕ

-- The globals of fs.c.
pub record Fs : Type 0 where
  pub superblock : Superblock
  pub block_bitmap : Words
  pub inode_bitmap : Words
  pub block_bitmap_bytes : ℕ
  pub block_bitmap_sectors : ℕ
  pub inode_bitmap_sectors : ℕ
  pub inode_table_blocks : ℕ
  pub current_dir : ℕ
  pub current_path : List ℕ
  pub drives : ℕ → Device
  pub active_drives : ℕ
  pub current_drive : ℕ
  pub disk : Disk

-- An operation takes the globals and returns its result with the globals that it leaves.
abbrev pub M : Type 0 → Type 0
M A = Fs → A × Fs

abbrev pub pure : {A : Type 0} → A → M A
pure a s = (a, s)

infixl 5 ◌>>=◌ ◌>>◌
abbrev pub ◌>>=◌ : {A B : Type 0} → M A → (A → M B) → M B
◌>>=◌ m f s = let (a, s') = m s in f a s'

abbrev pub ◌>>◌ : {A B : Type 0} → M A → M B → M B
m >> k = m >>= λ _. k

-- An operation that reads the globals, and one that returns nothing.
abbrev pub asks : {A : Type 0} → (Fs → A) → M A
asks f s = (f s, s)

abbrev pub modify : (Fs → Fs) → M (Unit {0})
modify f s = (tt, f s)
