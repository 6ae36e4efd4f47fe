-- ===== src/Paging/Tables.antt =====
-- The page tables as the processor reads them, and a new table among them.
use Prim.Native.Nat.{bit_or}
use crusader_os_v.Base.{
  ℕ, ◌+◌, ◌*◌, ◌/◌, ◌%◌, ◌^◌, ◌<◌, ◌≤◌, ◌≡◌, ◌≢◌, sym, ap, ◌∙◌, arith, Option, none, some, ◌==◌,
  if◌then◌else◌, ℕ_discrete,
}
use crusader_os_v.Bits.{bit_or-disjoint}
use crusader_os_v.Paging.{Paging, pd_index, pt_index, pd_slot, clear_table, ensure_table}

-- The table entry of an address; `none` if its directory entry is not present.
unfoldable pub entry_of : Paging → ℕ → Option ℕ
entry_of s virt =
    if s.memory (pd_slot s virt) % 2 == 0
    then none
    else some (s.memory (s.memory (pd_slot s virt) / 4096 * 4096 + 4 * pt_index virt))

-- The directory is a page below the tables; each entry that is present names a table between them and the next free
-- page, and no two name the same.
pub record IsPaging (s : Paging) : Type 0 where
  pub directory_page : s.page_directory % 4096 ≡ 0
  pub free_page : s.next_free_page % 4096 ≡ 0
  pub below : s.page_directory + 4096 ≤ s.next_free_page
  pub table_free :
      (d : ℕ)
      → d < 1024
      → s.memory (s.page_directory + 4 * d) % 2 ≢ 0
      → (s.page_directory + 4096 ≤ s.memory (s.page_directory + 4 * d) / 4096 * 4096)
        × (s.memory (s.page_directory + 4 * d) / 4096 * 4096 + 4096 ≤ s.next_free_page)
  pub distinct :
      (d e : ℕ)
      → d < 1024
      → e < 1024
      → s.memory (s.page_directory + 4 * d) % 2 ≢ 0
      → s.memory (s.page_directory + 4 * e) % 2 ≢ 0
      → s.memory (s.page_directory + 4 * d) / 4096 ≡ s.memory (s.page_directory + 4 * e) / 4096
      → d ≡ e

-- The address of a directory entry.
abbrev pub slot : Paging → ℕ → ℕ
slot s d = s.page_directory + 4 * d

-- A new table, for the directory entry `d`.
module _ (s : Paging) (virt : ℕ) (ok : IsPaging s) (range : virt < 2 ^ 32)
    (absent : s.memory (pd_slot s virt) % 2 ≡ 0) (room : s.next_free_page + 4096 < 2 ^ 32) where
  entry_bits : bit_or s.next_free_page 3 ≡ s.next_free_page + 3
  entry_bits =
      let e : s.next_free_page / 4096 * 2 ^ 12 ≡ s.next_free_page = omega (arith, ok.free_page) in
      rw⁻¹ e (bit_or-disjoint 12 (s.next_free_page / 4096) 3 (omega arith))

  new_free : (ensure_table virt s).next_free_page ≡ s.next_free_page + 4096
  unfolding ensure_table
  new_free = ground (arith, absent, room)

  new_directory : (ensure_table virt s).page_directory ≡ s.page_directory
  unfolding ensure_table
  new_directory = ground (arith, absent)

  new_here : (ensure_table virt s).memory (pd_slot s virt) ≡ s.next_free_page + 3
  unfolding ensure_table
  new_here = ground (arith, absent, entry_bits)

  new_table :
      (a : ℕ)
      → s.next_free_page ≤ a
      → a < s.next_free_page + 4096
      → (ensure_table virt s).memory a ≡ 0
  unfolding ensure_table clear_table
  new_table a lo hi = ground (arith, absent, ok.below)

  pub new_other :
      (a : ℕ)
      → a ≢ pd_slot s virt
      → a < s.next_free_page
      → (ensure_table virt s).memory a ≡ s.memory a
  unfolding ensure_table clear_table
  new_other a ne lo = ground (arith, absent)

  pub new_slot_other :
      (d : ℕ)
      → d < 1024
      → d ≢ pd_index virt
      → (ensure_table virt s).memory ((ensure_table virt s).page_directory + 4 * d)
        ≡ s.memory (slot s d)
  new_slot_other d l ne =
      ap (λ p. (ensure_table virt s).memory (p + 4 * d)) new_directory
      ∙ new_other (slot s d) (λ e. ne (omega (arith, e))) (omega (arith, ok.below))

  pub new_slot_here :
      (d : ℕ)
      → d ≡ pd_index virt
      → (ensure_table virt s).memory ((ensure_table virt s).page_directory + 4 * d)
        ≡ s.next_free_page + 3
  new_slot_here d e =
      ap (λ p. (ensure_table virt s).memory (p + 4 * d)) new_directory
      ∙ ap (λ k. (ensure_table virt s).memory (s.page_directory + 4 * k)) e
      ∙ new_here

  pub new-IsPaging : IsPaging (ensure_table virt s)
  new-IsPaging = record {
    directory_page = omega (arith, new_directory, ok.directory_page);
    free_page = omega (arith, new_free, ok.free_page);
    below = omega (arith, new_directory, new_free, ok.below);
    table_free = λ d l there. elim (ℕ_discrete d (pd_index virt)) [
      | yes e ↦ (
        omega (arith, new_slot_here d e, new_directory, ok.below, ok.free_page),
        omega (arith, new_slot_here d e, new_free, ok.free_page),
      )
      | no ne ↦
          let same = new_slot_other d l ne in
          let (lo, hi) = ok.table_free d l (λ z. there (omega (arith, same, z))) in
          (omega (arith, same, lo, new_directory), omega (arith, same, hi, new_free))
    ];
    distinct = λ d e l m there there' tables. elim (ℕ_discrete d (pd_index virt)) [
      | yes p ↦ elim (ℕ_discrete e (pd_index virt)) [
        | yes q ↦ p ∙ sym q
        | no ne ↦
            let same = new_slot_other e m ne in
            let (lo, hi) = ok.table_free e m (λ z. there' (omega (arith, same, z))) in
            absurd (omega (arith, same, hi, tables, new_slot_here d p, ok.free_page))
      ]
      | no ne ↦
          let same = new_slot_other d l ne in
          elim (ℕ_discrete e (pd_index virt)) [
            | yes q ↦
                let (lo, hi) = ok.table_free d l (λ z. there (omega (arith, same, z))) in
                absurd (omega (arith, same, hi, tables, new_slot_here e q, ok.free_page))
            | no ne' ↦
                let same' = new_slot_other e m ne' in
                ok.distinct d e l m (λ z. there (omega (arith, same, z)))
                  (λ z. there' (omega (arith, same', z))) (omega (arith, same, same', tables))
          ]
    ];
  }
