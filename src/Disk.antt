-- ===== src/Disk.antt =====
-- The ATA driver of fs.c: the drive that is selected, and the sectors that the drives hold. A sector
-- is a function from the offset of a byte.
pub mod Laws
use Prim.Native.Nat.{bit_or}
use crusader_os_v.Base.{ℕ, ◌+◌, ◌*◌, ◌/◌, ◌%◌, ◌^◌, ◌&&◌, ◌==◌, if◌then◌else◌}
use crusader_os_v.Bits.{bit}

abbrev pub Block : Type 0
Block = ℕ → ℕ

-- The sector at an address of the drive `unit` (0 master, 1 slave) on the controller at a port.
abbrev pub Media : Type 0
Media = ℕ → ℕ → ℕ → Block

-- `current_ata_base`, `current_is_slave`, and the drives behind the ports.
pub record Disk : Type 0 where
  pub ata_base : ℕ
  pub is_slave : ℕ
  pub media : Media

-- What the `outb` calls of a command leave in the registers that hold the address.
pub record Registers : Type 0 where
  pub drive : ℕ
  pub lba0 : ℕ
  pub lba1 : ℕ
  pub lba2 : ℕ

unfoldable pub task_file : ℕ → ℕ → Registers
task_file is_slave lba = record {
  drive = bit_or (if is_slave == 0 then 0xe0 else 0xf0) (lba / 2 ^ 24 % 16);
  lba0 = lba % 256;
  lba1 = lba / 2 ^ 8 % 256;
  lba2 = lba / 2 ^ 16 % 256;
}

-- How a drive reads these registers, as ATA documents it for 28-bit addresses; no code of the source.
unfoldable pub unit : Registers → ℕ
unit r = bit r.drive 4

unfoldable pub address : Registers → ℕ
address r = r.lba0 + r.lba1 * 2 ^ 8 + r.lba2 * 2 ^ 16 + r.drive % 16 * 2 ^ 24

unfoldable pub block_read : ℕ → Disk → Block
block_read lba d = let r = task_file d.is_slave lba in d.media d.ata_base (unit r) (address r)

unfoldable pub block_write : ℕ → Block → Disk → Disk
block_write lba buf d =
    let r = task_file d.is_slave lba in
    record d {
      media = λ base u a.
          if base == d.ata_base && u == unit r && a == address r then buf else d.media base u a;
    }

unfoldable pub select_drive : ℕ → ℕ → Disk → Disk
select_drive base slave d = record d { ata_base = base; is_slave = slave }

-- `memset(buf, 0, 512)`, and the sector that `zero_block` writes.
abbrev pub zeros : Block
zeros = λ _. 0

unfoldable pub zero_block : ℕ → Disk → Disk
zero_block lba d = block_write lba zeros d
