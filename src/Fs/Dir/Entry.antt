-- ===== src/Fs/Dir/Entry.antt =====
-- The entries of a directory block: the bytes that `dir_add` stores, and what they mean.
use mathlib.Core.Path.{subst}
use crusader_os_v.Base.{
  ℕ, zero, suc, ◌+◌, ◌-◌, ◌*◌, ◌^◌, ◌<◌, ◌≤◌, ◌≡◌, ◌≢◌, refl, ap, ◌∙◌, arith, List, [], ◌∷◌, length,
  take, get_or, tabulate,
}
use crusader_os_v.Disk.{Block}
use crusader_os_v.Text.{c_string, strncpy}
use crusader_os_v.Text.Laws.{c_string-strncpy, length-strncpy}
use crusader_os_v.Fs.Inode.{u32, byte_of, overlay}
use crusader_os_v.Fs.Inode.Codec.{u32-bytes}
use crusader_os_v.Fs.Dir.{entry_inode, entry_name, store_entry, entries_per_block}

-- The name of every entry ends within its 28 bytes.
abbrev pub IsTerminated : Block → Type 0
IsTerminated buf = (j : ℕ) → j < entries_per_block → buf (j * 32 + 31) ≡ 0

c_string-cong :
    (n m : ℕ) (f g : ℕ → ℕ)
    → m < n
    → f m ≡ 0
    → g m ≡ 0
    → ((k : ℕ) → k < m → f k ≡ g k)
    → c_string (tabulate n f) ≡ c_string (tabulate n g)
unfolding c_string
c_string-cong zero m f g l fz gz same = absurd (omega arith)
c_string-cong (suc n) zero f g l fz gz same = rw (fz, gz) refl
c_string-cong (suc n) (suc m) f g l fz gz same =
    rw
      (
        same 0 (omega arith),
        c_string-cong n m (λ k. f (suc k)) (λ k. g (suc k)) (omega arith) fz gz
            (λ k q. same (suc k) (omega arith)),
      )
      refl

c_string-get_or :
    (xs : List ℕ) (n : ℕ) → length xs ≤ n → c_string (tabulate n (λ k. get_or xs k 0)) ≡ c_string xs
unfolding c_string
c_string-get_or [] zero l = refl
c_string-get_or [] (suc n) l = refl
c_string-get_or (x ∷ xs) zero l = absurd (omega arith)
c_string-get_or (x ∷ xs) (suc n) l = rw (c_string-get_or xs n (omega arith)) refl

get_or-beyond : (xs : List ℕ) (k : ℕ) → length xs ≤ k → get_or xs k 0 ≡ 0
get_or-beyond [] k l = refl
get_or-beyond (x ∷ xs) zero l = absurd (omega arith)
get_or-beyond (x ∷ xs) (suc k) l = get_or-beyond xs k (omega arith)

pub take-all : (n : ℕ) (xs : List ℕ) → length xs ≤ n → take n xs ≡ xs
take-all zero [] l = refl
take-all zero (x ∷ xs) l = absurd (omega arith)
take-all (suc n) [] l = refl
take-all (suc n) (x ∷ xs) l = ap (λ t. x ∷ t) (take-all n xs (omega arith))

module _ (buf : Block) (i v : ℕ) (name : List ℕ) (small : v < 2 ^ 32) where
  -- The bytes of the entry stored, and the bytes of the others.
  stored_inode : (k : ℕ) → k < 4 → store_entry buf i v name (i * 32 + k) ≡ byte_of v k
  unfolding store_entry overlay
  stored_inode k l =
      ground (arith, ap (byte_of v) (let e : i * 32 + k - i * 32 ≡ k = omega arith in e))

  stored_name :
      (k : ℕ) → k < 27 → store_entry buf i v name (i * 32 + 4 + k) ≡ get_or (strncpy name 27) k 0
  unfolding store_entry overlay
  stored_name k l = ground (
    arith,
    ap (λ t. get_or (strncpy name 27) t 0)
        (let e : i * 32 + 4 + k - (i * 32 + 4) ≡ k = omega arith in e),
  )

  pub stored_end : store_entry buf i v name (i * 32 + 31) ≡ 0
  unfolding store_entry overlay
  stored_end = ground arith

  pub stored_other :
      (j k : ℕ) → j ≢ i → k < 32 → store_entry buf i v name (j * 32 + k) ≡ buf (j * 32 + k)
  unfolding store_entry overlay
  stored_other j k ne l = ground arith

  pub entry_inode-store_entry : entry_inode (store_entry buf i v name) i ≡ v
  unfolding entry_inode
  entry_inode-store_entry =
      u32-bytes (store_entry buf i v name) (i * 32) v small
        (ap (store_entry buf i v name) (omega arith) ∙ stored_inode 0 (omega arith))
        (stored_inode 1 (omega arith)) (stored_inode 2 (omega arith)) (stored_inode 3 (omega arith))

  pub entry_inode-other :
      (j : ℕ) → j ≢ i → entry_inode (store_entry buf i v name) j ≡ entry_inode buf j
  unfolding entry_inode u32
  entry_inode-other j ne =
      let e : j * 32 + 0 ≡ j * 32 = omega arith in
      let first : store_entry buf i v name (j * 32) ≡ buf (j * 32) =
        subst (λ t. store_entry buf i v name t ≡ buf t) e (stored_other j 0 ne (omega arith)) in
      omega (
        arith,
        first,
        stored_other j 1 ne (omega arith),
        stored_other j 2 ne (omega arith),
        stored_other j 3 ne (omega arith),
      )

  pub entry_name-store_entry :
      i < entries_per_block
      → c_string (entry_name (store_entry buf i v name) i) ≡ take 27 (c_string name)
  unfolding entry_name
  entry_name-store_entry l =
      c_string-cong (512 - (i * 32 + 4)) 27 (λ k. store_entry buf i v name (i * 32 + 4 + k))
        (λ k. get_or (strncpy name 27) k 0) (omega arith)
        (ap (store_entry buf i v name) (omega arith) ∙ stored_end)
        (get_or-beyond (strncpy name 27) 27 (omega (arith, length-strncpy name 27))) stored_name
      ∙ c_string-get_or (strncpy name 27) (512 - (i * 32 + 4))
          (omega (arith, length-strncpy name 27))
      ∙ c_string-strncpy name 27

  pub entry_name-other :
      (j : ℕ)
      → IsTerminated buf
      → j < entries_per_block
      → j ≢ i
      → c_string (entry_name (store_entry buf i v name) j) ≡ c_string (entry_name buf j)
  unfolding entry_name
  entry_name-other j ended l ne =
      let e : (k : ℕ) → j * 32 + 4 + k ≡ j * 32 + (4 + k) = λ k. omega arith in
      let same : (k : ℕ)
          → k < 28
          → store_entry buf i v name (j * 32 + 4 + k) ≡ buf (j * 32 + 4 + k) =
        (λ k m. rw (e k) (stored_other j (4 + k) ne (omega arith))) in
      let last : buf (j * 32 + 4 + 27) ≡ 0 = ap buf (omega arith) ∙ ended j l in
      c_string-cong (512 - (j * 32 + 4)) 27 (λ k. store_entry buf i v name (j * 32 + 4 + k))
        (λ k. buf (j * 32 + 4 + k)) (omega arith) (same 27 (omega arith) ∙ last) last
        (λ k m. same k (omega arith))
