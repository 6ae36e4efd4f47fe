-- ===== src/Fs/Dir/Lookup.antt =====
-- One block of a directory as a map from names: what `dir_lookup` finds after `dir_add` has stored an entry.
use crusader_os_v.Base.{
  ℕ, zero, suc, ◌+◌, ◌^◌, ◌<◌, ◌≤◌, ◌≡◌, ◌≢◌, refl, sym, ap, ◌∙◌, arith, true, false, none, some,
  List, length, take, Bool-cases, inl, inr, ℕ_discrete,
}
use crusader_os_v.Base.Int.{is_zero}
use crusader_os_v.Disk.{Block}
use crusader_os_v.Text.{c_string, strcmp}
use crusader_os_v.Text.Laws.{strcmp_iff}
use crusader_os_v.Fs.Dir.{
  entry_inode, entry_name, entry_matches, lookup_entries, store_entry, entries_per_block,
}
use crusader_os_v.Fs.Dir.Entry.{
  IsTerminated, take-all, stored_end, stored_other, entry_inode-store_entry, entry_inode-other,
  entry_name-store_entry, entry_name-other,
}

-- The comparison of names depends on what they mean as strings.
strcmp-cong :
    (a b name : List ℕ)
    → c_string a ≡ c_string b
    → is_zero (strcmp a name) ≡ is_zero (strcmp b name)
strcmp-cong a b name e = elim (Bool-cases (is_zero (strcmp a name))) [
  | inl same ↦ same ∙ sym ((strcmp_iff b name).1 (sym e ∙ (strcmp_iff a name).0 same))
  | inr differ ↦ elim (Bool-cases (is_zero (strcmp b name))) [
    | inl same ↦ (strcmp_iff a name).1 (e ∙ (strcmp_iff b name).0 same) ∙ sym same
    | inr differ' ↦ differ ∙ sym differ'
  ]
]

lookup_entries-cong :
    (count : ℕ) (name : List ℕ) (a b : Block) (n j : ℕ)
    → ((k : ℕ)
        → j ≤ k
        → k < j + n
        → (entry_matches count name a k ≡ entry_matches count name b k)
          × (entry_matches count name b k ≡ true → entry_inode a k ≡ entry_inode b k))
    → lookup_entries count name a n j ≡ lookup_entries count name b n j
unfolding lookup_entries
lookup_entries-cong count name a b zero j same = refl
lookup_entries-cong count name a b (suc n) j same =
    let rest =
      lookup_entries-cong count name a b n (j + 1)
        (λ k lo hi. same k (omega arith) (omega arith)) in
    let (here, inode) = same j (omega arith) (omega arith) in ground (arith, rest, here, inode)

lookup_entries-none :
    (count : ℕ) (name : List ℕ) (b : Block) (n j k : ℕ)
    → lookup_entries count name b n j ≡ none
    → j ≤ k
    → k < j + n
    → entry_matches count name b k ≡ false
unfolding lookup_entries
lookup_entries-none count name b zero j k e lo hi = absurd (omega arith)
lookup_entries-none count name b (suc n) j k e lo hi =
    elim (Bool-cases (entry_matches count name b j)) [
      | inl here ↦ absurd (ground arith)
      | inr not_here ↦ elim (ℕ_discrete k j) [
        | yes same ↦ rw same not_here
        | no differ ↦
            lookup_entries-none count name b n (j + 1) k (ground arith) (omega arith) (omega arith)
      ]
    ]

lookup_entries-only :
    (count : ℕ) (name : List ℕ) (b : Block) (n j i : ℕ)
    → j ≤ i
    → i < j + n
    → entry_matches count name b i ≡ true
    → ((k : ℕ) → j ≤ k → k < j + n → k ≢ i → entry_matches count name b k ≡ false)
    → lookup_entries count name b n j ≡ some (entry_inode b i)
unfolding lookup_entries
lookup_entries-only count name b zero j i lo hi here others = absurd (omega arith)
lookup_entries-only count name b (suc n) j i lo hi here others = elim (ℕ_discrete j i) [
  | yes same ↦ rw (same, here) refl
  | no differ ↦ rw (others j (omega arith) (omega arith) differ) (
      lookup_entries-only count name b n (j + 1) i (omega arith) (omega arith) here
        (λ k a c d. others k (omega arith) (omega arith) d))
]

store_entry-other :
    (buf : Block) (i v count : ℕ) (name n : List ℕ) (k : ℕ)
    → v < 2 ^ 32
    → IsTerminated buf
    → k < entries_per_block
    → k ≢ i
    → entry_matches count n (store_entry buf i v name) k ≡ entry_matches count n buf k
unfolding entry_matches
store_entry-other buf i v count name n k small ended l ne =
    rw
      (
        entry_inode-other buf i v name small k ne,
        strcmp-cong (entry_name (store_entry buf i v name) k) (entry_name buf k) n
            (entry_name-other buf i v name small k ended l ne),
      )
      refl

-- The entry stored answers to its name, cut to 27 bytes, and to no other.
store_entry-here :
    (buf : Block) (i v count : ℕ) (name n : List ℕ)
    → i < entries_per_block
    → v < 2 ^ 32
    → 0 < v
    → v < count
    → length (c_string name) ≤ 27
    → entry_matches count n (store_entry buf i v name) i ≡ is_zero (strcmp name n)
unfolding entry_matches
store_entry-here buf i v count name n l small p below fits =
    let whole : take 27 (c_string name) ≡ c_string name = take-all 27 (c_string name) fits in
    rw
      (
        entry_inode-store_entry buf i v name small,
        strcmp-cong (entry_name (store_entry buf i v name) i) name n
            (entry_name-store_entry buf i v name small l ∙ whole),
      )
      (ground arith)

free_slot :
    (buf : Block) (i count : ℕ) (n : List ℕ)
    → entry_inode buf i ≡ 0
    → entry_matches count n buf i ≡ false
unfolding entry_matches
free_slot buf i count n free = rw free refl

strcmp-differs : (a n : List ℕ) → c_string n ≢ c_string a → is_zero (strcmp a n) ≡ false
strcmp-differs a n differ = elim (Bool-cases (is_zero (strcmp a n))) [
  | inl same ↦ absurd (differ (sym ((strcmp_iff a n).0 same)))
  | inr e ↦ e
]

-- Storing an entry for a new name into a free slot of a block, as `dir_add` does, makes the name lead to its inode, leaves
-- every other name as it was, and keeps every name of the block terminated. The name has at most 27 bytes, the inode
-- is in the table and not 0, and the names of the block are terminated.
pub store_entry-lookup :
    (buf : Block) (i v count : ℕ) (name : List ℕ)
    → IsTerminated buf
    → i < entries_per_block
    → entry_inode buf i ≡ 0
    → 0 < v
    → v < count
    → v < 2 ^ 32
    → length (c_string name) ≤ 27
    → lookup_entries count name buf entries_per_block 0 ≡ none
    → (lookup_entries count name (store_entry buf i v name) entries_per_block 0 ≡ some v)
      × ((n : List ℕ)
          → c_string n ≢ c_string name
          → lookup_entries count n (store_entry buf i v name) entries_per_block 0
            ≡ lookup_entries count n buf entries_per_block 0)
      × IsTerminated (store_entry buf i v name)
store_entry-lookup buf i v count name ended l free p below small fits absent =
    let b = store_entry buf i v name in
    let self : is_zero (strcmp name name) ≡ true = (strcmp_iff name name).1 refl in
    let found : lookup_entries count name b entries_per_block 0 ≡ some (entry_inode b i) =
      lookup_entries-only count name b entries_per_block 0 i (omega arith) (omega arith)
        (store_entry-here buf i v count name name l small p below fits ∙ self)
        (λ k lo hi ne.
          store_entry-other buf i v count name name k small ended (omega arith) ne
          ∙ lookup_entries-none count name buf entries_per_block 0 k absent (omega arith)
              (omega arith)) in
    (
      found ∙ ap some (entry_inode-store_entry buf i v name small),
      λ n differ. lookup_entries-cong count n b buf entries_per_block 0 (λ k lo hi.
          elim (ℕ_discrete k i) [
            | yes same ↦
                let unused : entry_matches count n buf k ≡ false =
                  (rw same (free_slot buf i count n free)) in
                let other : is_zero (strcmp name n) ≡ false = strcmp-differs name n differ in
                (
                  rw same (store_entry-here buf i v count name n l small p below fits)
                      ∙ other
                      ∙ sym unused,
                  λ m. absurd (ground arith),
                )
            | no ne ↦ (
              store_entry-other buf i v count name n k small ended (omega arith) ne,
              λ m. entry_inode-other buf i v name small k ne,
            )
          ]),
      λ j m. elim (ℕ_discrete j i) [
        | yes same ↦ rw same (stored_end buf i v name small)
        | no ne ↦ stored_other buf i v name small j 31 ne (omega arith) ∙ ended j m
      ],
    )
