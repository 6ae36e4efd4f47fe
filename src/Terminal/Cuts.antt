-- ===== src/Terminal/Cuts.antt =====
-- What taking a line apart writes into the buffer: a NUL in place of a space behind a word, and nothing else.
use crusader_os_v.Base.{
  ℕ, zero, suc, ◌+◌, ◌-◌, ◌≤◌, ◌<◌, ◌≡◌, ◌⊎◌, refl, sym, ap, ◌∙◌, arith, List, [], ◌∷◌, length,
  get_or, update, inl, inr, Bool-cases, ltb, ==_iff, ◌==◌, if◌then◌else◌, ℕ_discrete,
}
use crusader_os_v.Terminal.{skip_spaces, cut_word, cut_buf, string_at}

-- The line stands in the buffer from index `i` on.
abbrev pub Holds : List ℕ → ℕ → (ℕ → ℕ) → Type 0
Holds p i buf = (k : ℕ) → k < length p → buf (i + k) ≡ get_or p k 0

-- A rest of a line that begins at its index `n`.
record IsRest (n : ℕ) (rest p : List ℕ) : Type 0 where
  size : n + length rest ≡ length p
  same : (k : ℕ) → get_or rest k 0 ≡ get_or p (n + k) 0

IsRest-all : (p : List ℕ) (n : ℕ) → n ≡ 0 → IsRest n p p
IsRest-all p n e = record {
  size = omega (arith, e);
  same = λ k. ap (λ i. get_or p i 0) (omega (arith, e));
}

IsRest-suc : (c n m : ℕ) (rest p : List ℕ) → IsRest n rest p → m ≡ suc n → IsRest m rest (c ∷ p)
IsRest-suc c n m rest p r e = record {
  size = omega (arith, r.size, e);
  same = λ k. r.same k ∙ ap (λ i. get_or (c ∷ p) i 0) (index k);
}
  where
    index : (k : ℕ) → suc (n + k) ≡ m + k
    index k = omega (arith, e)

skip_spaces-IsRest : (p : List ℕ) → IsRest (length p - length (skip_spaces p)) (skip_spaces p) p
unfolding skip_spaces
skip_spaces-IsRest [] = record { size = refl; same = λ k. refl }
skip_spaces-IsRest (c ∷ p) = elim (Bool-cases (c == 32)) [
  | inl space ↦
      let ih = skip_spaces-IsRest p in
      rw space (IsRest-suc c _ _ (skip_spaces p) p ih (omega (arith, ih.size)))
  | inr other ↦ rw other (IsRest-all (c ∷ p) _ (omega arith))
]

-- A word that a space ends.
record IsCut (q word after : List ℕ) : Type 0 where
  space : get_or q (length word) 0 ≡ 32
  rest : IsRest (length word + 1) after q

cut_word-IsCut :
    (q : List ℕ) → length (cut_word q).0 < length q → IsCut q (cut_word q).0 (cut_word q).1
unfolding cut_word
cut_word-IsCut [] l = absurd (omega arith)
cut_word-IsCut (c ∷ q) l = elim (Bool-cases (c == 32)) [
  | inl space ↦ rw space (record {
    space = (==_iff c 32).0 space;
    rest = IsRest-suc c 0 _ q q (IsRest-all q 0 refl) (omega arith);
  })
  | inr other ↦
      let ih = cut_word-IsCut q (ground arith) in
      rw other (record {
        space = ih.space;
        rest = IsRest-suc c _ _ (cut_word q).1 q ih.rest (omega arith);
      })
]

-- A byte after the writes: as before, or a NUL in place of a space of the line.
abbrev pub Cut : ℕ → ℕ → (ℕ → ℕ) → (ℕ → ℕ) → ℕ → Type 0
Cut i n old new j = (new j ≡ old j) ⊎ ((i ≤ j) × (j < i + n) × (old j ≡ 32) × (new j ≡ 0))

-- A write at index `end`, which is in the line and a space, and further ones behind it.
Cut-then :
    (i n end m : ℕ) (old new : ℕ → ℕ) (j : ℕ)
    → i ≤ end
    → end + 1 + m ≡ i + n
    → old end ≡ 32
    → Cut (end + 1) m (update old end 0) new j
    → Cut i n old new j
Cut-then i n end m old new j lo hi space (inl same) = elim (ℕ_discrete j end) [
  | yes here ↦
      inr (omega (arith, here), omega (arith, here), ap old here ∙ space, ground (arith, same))
  | no away ↦ inl (ground (arith, same, away))
]
Cut-then i n end m old new j lo hi space (inr (from, to, was, is)) =
    inr (omega arith, omega arith, ground (arith, was), is)

module _ (p : List ℕ) (i : ℕ) (buf : ℕ → ℕ) (held : Holds p i buf) where
  -- A byte of a rest of the line, in the buffer.
  rest_byte :
      (d : ℕ) (q : List ℕ) (k at : ℕ)
      → IsRest d q p
      → k < length q
      → at ≡ i + (d + k)
      → buf at ≡ get_or q k 0
  rest_byte d q k at r l e = ap buf e ∙ held (d + k) (omega (arith, r.size)) ∙ sym (r.same k)

  -- The line is held behind a write, too.
  rest_held :
      (d m end : ℕ) (q after : List ℕ)
      → IsRest d q p
      → IsRest (m + 1) after q
      → end ≡ i + d + m
      → Holds after (end + 1) (update buf end 0)
  rest_held d m end q after r t e k l =
      ==_no (end + 1 + k) end (omega arith) (buf (end + 1 + k))
      ∙ rest_byte d q (m + 1 + k) (end + 1 + k) r (omega (arith, t.size)) (omega (arith, e))
      ∙ sym (t.same k)
    where
      ==_no : (a b : ℕ) → b < a → (x : ℕ) → (if a == b then 0 else x) ≡ x
      ==_no a b l x = ground arith

-- A round of the loop, with what the rounds behind it write.
Cut-round :
    (n : ℕ) (p : List ℕ) (i : ℕ) (buf : ℕ → ℕ) (j : ℕ)
    → Holds p i buf
    → ((q : List ℕ) (i : ℕ) (buf : ℕ → ℕ)
        → Holds q i buf
        → Cut i (length q) buf (cut_buf n q i buf) j)
    → (q : List ℕ) → IsRest (length p - length q) q p
    → Cut i
        (length p)
        buf
        (elim q [
          | [] ↦ buf
          | c ∷ rest ↦
              let (word, after) = cut_word (c ∷ rest) in
              let end = i + (length p - length (c ∷ rest)) + length word in
              if ltb (length word) (length (c ∷ rest))
              then cut_buf n after (end + 1) (update buf end 0)
              else buf
        ])
        j
Cut-round n p i buf j h ih [] r = inl refl
Cut-round n p i buf j h ih (c ∷ rest) r =
    let q = c ∷ rest in
    let d = length p - length q in
    let word = (cut_word q).0 in
    let after = (cut_word q).1 in
    let end = i + d + length word in
    elim (Bool-cases (ltb (length word) (length q))) [
      | inr last ↦ rw last (inl refl)
      | inl more ↦
          let cut = cut_word-IsCut q (ground arith) in
          rw more (
            Cut-then i (length p) end (length after) buf
              (cut_buf n after (end + 1) (update buf end 0)) j (omega arith)
              (omega (arith, r.size, cut.rest.size))
              (rest_byte p i buf h d q (length word) end r (ground arith) (omega arith) ∙ cut.space)
              (ih after (end + 1) (update buf end 0)
                (rest_held p i buf h d (length word) end q after r cut.rest refl)))
    ]

pub cut_buf-Cut :
    (n : ℕ) (p : List ℕ) (i : ℕ) (buf : ℕ → ℕ) (j : ℕ)
    → Holds p i buf
    → Cut i (length p) buf (cut_buf n p i buf) j
unfolding cut_buf
cut_buf-Cut zero p i buf j h = inl refl
cut_buf-Cut (suc n) p i buf j h =
    Cut-round n p i buf j h (λ q i buf held. cut_buf-Cut n q i buf j held) (skip_spaces p)
      (skip_spaces-IsRest p)

pub length-string_at :
    (n : ℕ) (buf : ℕ → ℕ) (i m : ℕ) → buf (i + m) ≡ 0 → length (string_at n buf i) ≤ m
unfolding string_at
length-string_at zero buf i m e = omega arith
length-string_at (suc n) buf i zero e =
    let z : buf i ≡ 0 = ap buf (omega arith) ∙ e in rw z (omega arith)
length-string_at (suc n) buf i (suc m) e =
    let ih = length-string_at n buf (i + 1) m (ap buf (omega arith) ∙ e) in ground (arith, ih)

pub string_at-Holds : (n : ℕ) (buf : ℕ → ℕ) (i : ℕ) → Holds (string_at n buf i) i buf
unfolding string_at
string_at-Holds zero buf i k l = absurd (omega arith)
string_at-Holds (suc n) buf i k l = elim (Bool-cases (buf i == 0)) [
  | inl end ↦ absurd (ground arith)
  | inr more ↦ rw more (byte (string_at-Holds n buf (i + 1)) k (ground arith))
]
  where
    byte :
        Holds (string_at n buf (i + 1)) (i + 1) buf
        → (k : ℕ) → k < suc (length (string_at n buf (i + 1)))
        → buf (i + k) ≡ get_or (buf i ∷ string_at n buf (i + 1)) k 0
    byte ih zero l = ap buf (omega arith)
    byte ih (suc k) l = ap buf (omega arith) ∙ ih k (omega arith)

pub string_at-end : (n : ℕ) (buf : ℕ → ℕ) (i : ℕ) → buf i ≡ 0 → string_at n buf i ≡ []
unfolding string_at
string_at-end zero buf i e = refl
string_at-end (suc n) buf i e = rw e refl
