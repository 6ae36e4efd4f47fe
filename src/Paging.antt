-- ===== src/Paging.antt =====
-- The page tables of paging.c. Tables lie in the memory, a function from the address of a word.
pub mod Tables
pub mod Translate
use Prim.Native.Nat.{bit_or}
use crusader_os_v.Base.{
  ℕ, zero, suc, ◌+◌, ◌-◌, ◌*◌, ◌/◌, ◌%◌, ◌^◌, Bool, true, false, ◌&&◌, ◌==◌, leb, ltb,
  if◌then◌else◌, update,
}

pub record Paging : Type 0 where
  pub page_directory : ℕ
  pub next_free_page : ℕ
  pub memory : ℕ → ℕ

abbrev pub pd_index : ℕ → ℕ
pd_index virt = virt / 2 ^ 22

abbrev pub pt_index : ℕ → ℕ
pt_index virt = virt / 2 ^ 12 % 1024

-- The address of the directory entry of an address.
abbrev pub pd_slot : Paging → ℕ → ℕ
pd_slot s virt = s.page_directory + 4 * pd_index virt

-- `memset(table, 0, 4096)`
unfoldable pub clear_table : ℕ → (ℕ → ℕ) → ℕ → ℕ
clear_table table memory a = if leb table a && ltb a (table + 4096) then 0 else memory a

-- The new table of an address whose directory entry is not present.
unfoldable pub ensure_table : ℕ → Paging → Paging
ensure_table virt s =
    if s.memory (pd_slot s virt) % 2 == 0
    then record s {
      next_free_page = (s.next_free_page + 4096) % 2 ^ 32;
      memory =
          update (clear_table s.next_free_page s.memory) (pd_slot s virt)
            (bit_or s.next_free_page 3);
    }
    else s

unfoldable pub map_page : ℕ → ℕ → ℕ → Paging → Paging
map_page phys virt flags s =
    let s = ensure_table virt s in
    let page_table = s.memory (pd_slot s virt) / 4096 * 4096 in
    record s {
      memory = update s.memory (page_table + 4 * pt_index virt) (bit_or (phys / 4096 * 4096) flags);
    }

-- The loops of `init_paging`: pages mapped to themselves, from the page `i` on with `n` left.
unfoldable pub identity_pages : ℕ → ℕ → Paging → Paging
identity_pages i zero s = s
identity_pages i (suc n) s =
    identity_pages (i + 1) n (map_page (i * 4096 % 2 ^ 32) (i * 4096 % 2 ^ 32) 0x03 s)

unfoldable pub framebuffer_pages : ℕ → ℕ → ℕ → Paging → Paging
framebuffer_pages base i zero s = s
framebuffer_pages base i (suc n) s =
    framebuffer_pages base (i + 4096) n
      (map_page ((base + i) % 2 ^ 32) ((base + i) % 2 ^ 32) 0x03 s)

-- The tables that are then handed to the processor.
unfoldable pub init_paging : ℕ → ℕ → ℕ → ℕ → Paging → Paging
init_paging fb_phys_addr fb_width fb_height fb_bpp s =
    let s : Paging = record {
      page_directory = 0x1_0000;
      next_free_page = 0x100_0000;
      memory = clear_table 0x1_0000 s.memory;
    } in
    let fb_size = fb_width * fb_height * (fb_bpp / 8) % 2 ^ 32 in
    framebuffer_pages fb_phys_addr 0 ((fb_size + 4095) / 4096) (identity_pages 0 1048576 s)
