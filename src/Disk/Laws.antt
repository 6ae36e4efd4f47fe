-- ===== src/Disk/Laws.antt =====
-- Addressing and reading back what was written.
use Prim.Native.Nat.{bit_or}
use crusader_os_v.Base.{
  ℕ, ◌/◌, ◌%◌, ◌^◌, ◌≡◌, refl, Bool, true, ◌&&◌, arith, ◌==◌, if◌then◌else◌, all_below,
  all_below_sound, ==_refl, ==_ne, ◌≢◌,
}
use crusader_os_v.Bits.{bit}
use crusader_os_v.Disk.{Disk, Block, task_file, unit, address, block_read, block_write}

-- The four high address bits and the drive bit share a register.
abbrev selects : ℕ → ℕ → Bool
selects drive x =
    let r = bit_or (if drive == 0 then 0xe0 else 0xf0) x in r % 16 == x && bit r 4 == drive

select_table : (all_below 16 (selects 0) ≡ true) × (all_below 16 (selects 1) ≡ true)
unfolding bit
select_table = (refl, refl)

-- The registers of a command name the drive that is selected, and the low 28 bits of the block.
pub task_file_lem :
    (slave lba : ℕ)
    → (unit (task_file slave lba) ≡ (if slave == 0 then 0 else 1))
      × (address (task_file slave lba) ≡ lba % 2 ^ 28)
unfolding unit address task_file
task_file_lem slave lba = ground (
  arith,
  all_below_sound 16 (selects 0) (lba / 2 ^ 24 % 16) select_table.0,
  all_below_sound 16 (selects 1) (lba / 2 ^ 24 % 16) select_table.1,
)

-- A block reads as it was last written, and a write leaves the other blocks alone.
pub block_read-block_write :
    (a b : ℕ) (buf : Block) (d : Disk)
    → block_read a (block_write b buf d)
      ≡ (if a % 2 ^ 28 == b % 2 ^ 28 then buf else block_read a d)
unfolding block_read block_write
block_read-block_write a b buf d =
    ground (arith, task_file_lem d.is_slave a, task_file_lem d.is_slave b)

pub block_read-block_write_self :
    (a : ℕ) (buf : Block) (d : Disk) → block_read a (block_write a buf d) ≡ buf
block_read-block_write_self a buf d = rw (block_read-block_write, ==_refl)

pub block_read-block_write_ne :
    (a b : ℕ) (buf : Block) (d : Disk)
    → a % 2 ^ 28 ≢ b % 2 ^ 28
    → block_read a (block_write b buf d) ≡ block_read a d
block_read-block_write_ne a b buf d h =
    rw (block_read-block_write, ==_ne (a % 2 ^ 28) (b % 2 ^ 28) h)
