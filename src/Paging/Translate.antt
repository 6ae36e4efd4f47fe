-- ===== src/Paging/Translate.antt =====
-- The translation of addresses by the processor, and what `map_page` does to it.
use Prim.Native.Nat.{bit_or}
use crusader_os_v.Base.{
  ℕ, ◌+◌, ◌*◌, ◌/◌, ◌%◌, ◌^◌, ◌<◌, ◌≤◌, ◌≡◌, ◌≢◌, refl, sym, ap, ◌∙◌, arith, false, some, ◌==◌,
  update, Bool-cases, inl, inr, ℕ_discrete, ==_ne, ==_refl,
}
use crusader_os_v.Paging.{Paging, pd_index, pt_index, pd_slot, ensure_table, map_page}
use crusader_os_v.Paging.Tables.{
  entry_of, IsPaging, slot, new_other, new_slot_other, new_slot_here, new-IsPaging,
}

-- With a table for the address there, the page is entered in it, and the entries of other pages stay.
module _ (s : Paging) (phys virt flags : ℕ) (ok : IsPaging s) (range : virt < 2 ^ 32)
    (present : s.memory (pd_slot s virt) % 2 ≢ 0) where
  ensured : ensure_table virt s ≡ s
  unfolding ensure_table
  ensured = ground arith

  abbrev target : ℕ
  target = s.memory (pd_slot s virt) / 4096 * 4096 + 4 * pt_index virt

  abbrev entry : ℕ
  entry = bit_or (phys / 4096 * 4096) flags

  mapped : map_page phys virt flags s ≡ record s { memory = update s.memory target entry }
  unfolding map_page
  mapped = rw ensured refl

  after : Paging
  after = record s { memory = update s.memory target entry }

  table_here :
      (s.page_directory + 4096 ≤ s.memory (pd_slot s virt) / 4096 * 4096)
      × (s.memory (pd_slot s virt) / 4096 * 4096 + 4096 ≤ s.next_free_page)
  table_here = ok.table_free (pd_index virt) (omega arith) present

  slot_same : (d : ℕ) → d < 1024 → after.memory (slot s d) ≡ s.memory (slot s d)
  unfolding after
  slot_same d l =
      let ne : (slot s d == target) ≡ false =
        ==_ne (slot s d) target (λ e. absurd (omega (arith, e, table_here.0))) in
      rw ne refl

  after-IsPaging : IsPaging after
  unfolding after
  after-IsPaging = record {
    directory_page = ok.directory_page;
    free_page = ok.free_page;
    below = ok.below;
    table_free = λ d l there.
        let (lo, hi) = ok.table_free d l (λ z. there (omega (arith, slot_same d l, z))) in
        (omega (arith, slot_same d l, lo), omega (arith, slot_same d l, hi));
    distinct = λ d e l m there there' tables.
        ok.distinct d e l m (λ z. there (omega (arith, slot_same d l, z)))
          (λ z. there' (omega (arith, slot_same e m, z)))
          (omega (arith, slot_same d l, slot_same e m, tables));
  }

  entry_here : entry_of after virt ≡ some entry
  unfolding entry_of after
  entry_here =
      let there : (s.memory (pd_slot s virt) % 2 == 0) ≡ false =
        ==_ne (s.memory (pd_slot s virt) % 2) 0 present in
      rw (slot_same (pd_index virt) (omega arith), there, ==_refl target) refl

  entry_other : (v : ℕ) → v < 2 ^ 32 → v / 4096 ≢ virt / 4096 → entry_of after v ≡ entry_of s v
  unfolding entry_of after
  entry_other v l differ =
      let same = slot_same (pd_index v) (omega arith) in
      let address = s.memory (pd_slot s v) / 4096 * 4096 + 4 * pt_index v in
      elim (Bool-cases (s.memory (pd_slot s v) % 2 == 0)) [
        | inl absent ↦ rw (same, absent) refl
        | inr there ↦
            let there' : s.memory (pd_slot s v) % 2 ≢ 0 = (λ z. absurd (ground arith)) in
            let apart : address ≢ target = (λ e. elim (ℕ_discrete (pd_index v) (pd_index virt)) [
              | yes d ↦
                  let tables : s.memory (pd_slot s v) ≡ s.memory (pd_slot s virt) =
                    ap (λ k. s.memory (slot s k)) d in
                  differ (omega (arith, e, tables, d))
              | no ne ↦ ne (
                  ok.distinct (pd_index v) (pd_index virt) (omega arith) (omega arith) there'
                    present (omega (arith, e)))
            ]) in
            rw (same, there, ==_ne address target apart) refl
      ]

-- A new table leaves the entries there are.
new-entry_of :
    (s : Paging) (virt : ℕ)
    → IsPaging s
    → virt < 2 ^ 32
    → s.next_free_page + 4096 < 2 ^ 32
    → (absent : s.memory (pd_slot s virt) % 2 ≡ 0) → (v e : ℕ) → v < 2 ^ 32
    → entry_of s v ≡ some e
    → entry_of (ensure_table virt s) v ≡ some e
unfolding entry_of
new-entry_of s virt ok range room absent v e l found =
    elim (Bool-cases (s.memory (pd_slot s v) % 2 == 0)) [
      | inl none_there ↦ absurd (ground arith)
      | inr there ↦
          let there' : s.memory (pd_slot s v) % 2 ≢ 0 = (λ z. absurd (ground arith)) in
          let differ : pd_index v ≢ pd_index virt =
            (λ d. there' (ap (λ k. s.memory (slot s k) % 2) d ∙ absent)) in
          let same = new_slot_other s virt ok range absent room (pd_index v) (omega arith) differ in
          let (lo, hi) = ok.table_free (pd_index v) (omega arith) there' in
          let address = s.memory (pd_slot s v) / 4096 * 4096 + 4 * pt_index v in
          let kept : (ensure_table virt s).memory address ≡ s.memory address =
            new_other s virt ok range absent room address (λ z. absurd (omega (arith, z, lo)))
              (omega (arith, hi)) in
          let opened : entry_of s v ≡ some (s.memory address) = rw there refl in
          rw (same, there, kept) (sym opened ∙ found)
    ]

abbrev pub Mapped : ℕ → ℕ → ℕ → Paging → Paging → Type 0
Mapped phys virt flags s s' =
    IsPaging s'
    × (entry_of s' virt ≡ some (bit_or (phys / 4096 * 4096) flags))
    × ((v e : ℕ)
        → v < 2 ^ 32
        → v / 4096 ≢ virt / 4096
        → entry_of s v ≡ some e
        → entry_of s' v ≡ some e)

map_page-present :
    (phys virt flags : ℕ) (s : Paging)
    → IsPaging s
    → virt < 2 ^ 32
    → s.memory (pd_slot s virt) % 2 ≢ 0
    → Mapped phys virt flags s (map_page phys virt flags s)
unfolding after
map_page-present phys virt flags s ok range present =
    rw (mapped s phys virt flags ok range present) (
      after-IsPaging s phys virt flags ok range present,
      entry_here s phys virt flags ok range present,
      λ v e l differ found. entry_other s phys virt flags ok range present v l differ ∙ found,
    )

map_page-ensure_table :
    (phys virt flags : ℕ) (s : Paging)
    → IsPaging (ensure_table virt s)
    → virt < 2 ^ 32
    → (ensure_table virt s).memory (pd_slot (ensure_table virt s) virt) % 2 ≢ 0
    → map_page phys virt flags s ≡ map_page phys virt flags (ensure_table virt s)
unfolding map_page
map_page-ensure_table phys virt flags s ok range present =
    rw (ensured (ensure_table virt s) phys virt flags ok range present) refl

-- After `map_page`, the processor finds the physical page with its flags at the virtual address, every other page that had
-- an entry has the same one, and the tables are still disjoint: whether or not a new table was needed. There is room for
-- one in the 32-bit memory.
pub map_page_lem :
    (phys virt flags : ℕ) (s : Paging)
    → IsPaging s
    → virt < 2 ^ 32
    → s.next_free_page + 4096 < 2 ^ 32
    → Mapped phys virt flags s (map_page phys virt flags s)
map_page_lem phys virt flags s ok range room = elim (ℕ_discrete (s.memory (pd_slot s virt) % 2) 0) [
  | no present ↦ map_page-present phys virt flags s ok range present
  | yes absent ↦
      let t = ensure_table virt s in
      let here = new_slot_here s virt ok range absent room (pd_index virt) refl in
      let present : t.memory (pd_slot t virt) % 2 ≢ 0 =
        (λ z. absurd (omega (arith, here, z, ok.free_page))) in
      let ok' = new-IsPaging s virt ok range absent room in
      let (paging, entry, others) = map_page-present phys virt flags t ok' range present in
      rw (map_page-ensure_table phys virt flags s ok' range present) (
        paging,
        entry,
        λ v e l differ found.
            others v e l differ (new-entry_of s virt ok range room absent v e l found),
      )
]
