-- ===== src/Terminal/Line.antt =====
-- A line of words is taken apart into its words.
use crusader_os_v.Base.{
  ℕ, zero, suc, ◌<◌, ◌≡◌, ◌≢◌, refl, ap, arith, List, [], ◌∷◌, ◌++◌, length, take, ==_ne,
}
use crusader_os_v.Terminal.{skip_spaces, cut_word, arguments}

-- A character of a word.
abbrev pub IsWord : List ℕ → Type 0
IsWord [] = Unit {0}
IsWord (c ∷ cs) = (c ≢ 32) × IsWord cs

abbrev pub AreWords : List (List ℕ) → Type 0
AreWords [] = Unit {0}
AreWords (word ∷ words) = (0 < length word) × IsWord word × AreWords words

abbrev pub spaces : ℕ → List ℕ → List ℕ
spaces zero p = p
spaces (suc n) p = 32 ∷ spaces n p

-- What follows a word: some spaces at the end of the line, or at least one space and the next word.
unfoldable pub continued : List (List ℕ) → (ℕ → ℕ) → List ℕ
continued [] gaps = spaces (gaps 0) []
continued (word ∷ words) gaps = 32 ∷ spaces (gaps 0) (word ++ continued words (λ i. gaps (suc i)))

-- The line of the words, with `k` spaces at its start and further spaces as `gaps` says.
unfoldable pub line_of : ℕ → List (List ℕ) → (ℕ → ℕ) → List ℕ
line_of k [] gaps = spaces k []
line_of k (word ∷ words) gaps = spaces k (word ++ continued words gaps)

skip_spaces-spaces : (k : ℕ) (p : List ℕ) → skip_spaces (spaces k p) ≡ skip_spaces p
unfolding skip_spaces
skip_spaces-spaces zero p = refl
skip_spaces-spaces (suc k) p = skip_spaces-spaces k p

skip_spaces-word : (c : ℕ) (p : List ℕ) → c ≢ 32 → skip_spaces (c ∷ p) ≡ c ∷ p
unfolding skip_spaces
skip_spaces-word c p ne = rw (==_ne c 32 ne) refl

cut_word-end : (w : List ℕ) → IsWord w → cut_word (w ++ []) ≡ (w, [])
unfolding cut_word
cut_word-end [] ok = refl
cut_word-end (c ∷ w) (ne, ok) = rw (==_ne c 32 ne, cut_word-end w ok) refl

cut_word-space : (w p : List ℕ) → IsWord w → cut_word (w ++ 32 ∷ p) ≡ (w, p)
unfolding cut_word
cut_word-space [] p ok = refl
cut_word-space (c ∷ w) p (ne, ok) = rw (==_ne c 32 ne, cut_word-space w p ok) refl

-- The line after the first space of what follows a word.
continued-drop :
    (words : List (List ℕ)) (gaps : ℕ → ℕ)
    → (k : ℕ) × (g : ℕ → ℕ) × ((w : List ℕ)
        → IsWord w
        → cut_word (w ++ continued words gaps) ≡ (w, line_of k words g))
unfolding continued line_of
continued-drop [] gaps =
    elim (gaps 0)
      as (λ n.
        (k : ℕ) × (g : ℕ → ℕ) × ((w : List ℕ)
          → IsWord w
          → cut_word (w ++ spaces n []) ≡ (w, spaces k []))) [
            | zero ↦ (0, gaps, λ w ok. cut_word-end w ok)
            | suc n ↦ (n, gaps, λ w ok. cut_word-space w (spaces n []) ok)
          ]
continued-drop (word ∷ words) gaps = (
  gaps 0,
  (λ i. gaps (suc i)),
  λ w ok. cut_word-space w (spaces (gaps 0) (word ++ continued words (λ i. gaps (suc i)))) ok,
)

-- Taking a line apart gives the words of the line, the first `n` of them if there are more: whatever the spaces
-- before, between and after the words.
pub arguments-line_of :
    (n k : ℕ) (words : List (List ℕ)) (gaps : ℕ → ℕ)
    → AreWords words
    → arguments n (line_of k words gaps) ≡ take n words
unfolding arguments line_of skip_spaces
arguments-line_of zero k words gaps ok = refl
arguments-line_of (suc n) k [] gaps ok = rw (arguments, skip_spaces-spaces k []) refl
arguments-line_of (suc n) k ([] ∷ words) gaps (some_char, word, ok) = absurd (omega arith)
arguments-line_of (suc n) k ((c ∷ cs) ∷ words) gaps (some_char, (ne, word), ok) =
    let (k', g, cut) = continued-drop words gaps in
    rw
      (
        arguments,
        skip_spaces-spaces k ((c ∷ cs) ++ continued words gaps),
        skip_spaces-word c (cs ++ continued words gaps) ne,
        cut (c ∷ cs) (ne, word),
      )
      (ap (λ t. (c ∷ cs) ∷ t) (arguments-line_of n k' words g ok))
