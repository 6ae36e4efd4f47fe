-- ===== src/Console/Status/Notes.antt =====
-- The notes: what a new one and a deleted one do to the slots.
use crusader_os_v.Base.{
  ℕ, zero, suc, ◌+◌, ◌≤◌, ◌<◌, ◌≡◌, ◌≢◌, ◌⊎◌, refl, inl, inr, arith, true, false, List, take,
  Bool-cases, ℕ_discrete, ==_refl, ==_ne,
}
use crusader_os_v.Text.{c_string}
use crusader_os_v.Console.Status.{Note, max_notes, new_note_from, new_note}
use crusader_os_v.Console.Status.Laws.{c_string-append_nul}

-- Every slot from `i` on is taken, and nothing was done.
abbrev pub AreTaken : ℕ → ℕ → (ℕ → Note) → (ℕ → Note) → Type 0
AreTaken i n notes notes' =
    ((j : ℕ) → i ≤ j → j < i + n → (notes j).active ≡ true) × (notes' ≡ notes)

-- The first free slot from `i` on is `k`, and it holds the note; the other slots are as they were.
pub record Noted (i n : ℕ) (name content : List ℕ) (notes notes' : ℕ → Note) (k : ℕ) : Type 0 where
  pub from : i ≤ k
  pub slot : k < i + n
  pub was_free : (notes k).active ≡ false
  pub first : (j : ℕ) → i ≤ j → j < k → (notes j).active ≡ true
  pub now_active : (notes' k).active ≡ true
  pub name_kept : c_string (notes' k).name ≡ take 19 (c_string name)
  pub content_kept : c_string (notes' k).content ≡ take 49 (c_string content)
  pub others : (j : ℕ) → j ≢ k → notes' j ≡ notes j

earlier :
    (i j : ℕ) (notes : ℕ → Note)
    → (notes i).active ≡ true
    → i ≤ j
    → (i + 1 ≤ j → (notes j).active ≡ true)
    → (notes j).active ≡ true
earlier i j notes here l later = elim (ℕ_discrete j i) [
  | yes same ↦ rw same here
  | no other ↦ later (omega arith)
]

new_note_from_lem :
    (n i : ℕ) (name content : List ℕ) (notes : ℕ → Note)
    → AreTaken i n notes (new_note_from n i name content notes)
      ⊎ ((k : ℕ) × Noted i n name content notes (new_note_from n i name content notes) k)
unfolding new_note_from
new_note_from_lem zero i name content notes = inl (λ j l m. absurd (omega arith), refl)
new_note_from_lem (suc n) i name content notes = elim (Bool-cases (notes i).active) [
  | inr free ↦ inr (
    i,
    rw (new_note_from, free)
        (record {
          from = omega arith;
          slot = omega arith;
          was_free = free;
          first = λ j l m. absurd (omega arith);
          now_active = rw (==_refl i) refl;
          name_kept = rw (==_refl i) (c_string-append_nul 19 name);
          content_kept = rw (==_refl i) (c_string-append_nul 49 content);
          others = λ j ne. rw (==_ne j i ne) refl;
        }),
  )
  | inl taken ↦
      rw (new_note_from, taken)
        (elim (new_note_from_lem n (i + 1) name content notes) [
          | inl (all, same) ↦
              inl (λ j l m. earlier i j notes taken l (λ p. all j p (omega arith)), same)
          | inr (k, noted) ↦ inr (
            k,
            record {
              from = omega (arith, noted.from);
              slot = omega (arith, noted.slot);
              was_free = noted.was_free;
              first = λ j l m. earlier i j notes taken l (λ p. noted.first j p m);
              now_active = noted.now_active;
              name_kept = noted.name_kept;
              content_kept = noted.content_kept;
              others = noted.others;
            },
          )
        ])
]

-- A new note goes to the first free slot, with its name cut to 19 bytes and its content to 49, and no other note changes;
-- with all fifteen slots taken nothing happens.
pub new_note_lem :
    (name content : List ℕ) (notes : ℕ → Note)
    → AreTaken 0 max_notes notes (new_note name content notes)
      ⊎ ((k : ℕ) × Noted 0 max_notes name content notes (new_note name content notes) k)
unfolding new_note
new_note_lem name content notes = new_note_from_lem max_notes 0 name content notes
