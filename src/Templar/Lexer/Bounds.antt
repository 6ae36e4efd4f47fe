-- ===== src/Templar/Lexer/Bounds.antt =====
-- templar.c: what a round of the lexer takes and gives.
use crusader_os_v.Base.{
  ℕ, zero, suc, ◌<◌, ◌≤◌, ◌≡◌, refl, Bool, true, false, ◌&&◌, ◌||◌, List, [], ◌∷◌, Option, none,
  some, arith, ◌==◌, if◌then◌else◌, length, Bool-cases, inl, inr,
}
use crusader_os_v.Text.{head, c_string}
use crusader_os_v.Templar.Value.{tpl_isalpha, tpl_isdigit, tpl_isalnum}
use crusader_os_v.Templar.State.{TokKind, tk_newline, tk_eof, is, TplTok, max_str}
use crusader_os_v.Templar.Lexer.{
  tail, tok, skip_spaces, skip_comment, scan, scan_string, word_kind, lex_name, lex_number,
  lex_string, pair_kind, char_kind, Lexed, finished, skipped, token, lex_operator, lex_at,
}
use crusader_os_v.Templar.Sound.{TokFits}
use crusader_os_v.Templar.Sound.Numbers.{tpl_atoi-lt}

length-tail : (p : List ℕ) → length (tail p) ≤ length p
length-tail [] = omega arith
length-tail (c ∷ p) = omega arith

pub length-skip_spaces : (p : List ℕ) → length (skip_spaces p) ≤ length p
unfolding skip_spaces
length-skip_spaces [] = omega arith
length-skip_spaces (c ∷ p) = ground (arith, length-skip_spaces p)

length-skip_comment : (p : List ℕ) → length (skip_comment p) ≤ length p
unfolding skip_comment
length-skip_comment [] = omega arith
length-skip_comment (c ∷ p) = ground (arith, length-skip_comment p)

length-scan :
    (test : ℕ → Bool) (n : ℕ) (p : List ℕ)
    → (length (scan test n p).0 ≤ n) × (length (scan test n p).1 ≤ length p)
unfolding scan
length-scan test zero p = omega arith
length-scan test (suc n) [] = omega arith
length-scan test (suc n) (c ∷ p) = ground (arith, length-scan test n p)

-- A byte that passes the test is taken.
scan_takes :
    (test : ℕ → Bool) (n : ℕ) (c : ℕ) (p : List ℕ)
    → test c ≡ true
    → length (scan test (suc n) (c ∷ p)).1 ≤ length p
unfolding scan
scan_takes test n c p h = ground (arith, length-scan test n p)

length-scan_string :
    (n : ℕ) (p : List ℕ)
    → (length (scan_string n p).0 ≤ n) × (length (scan_string n p).1 ≤ length p)
unfolding scan_string
length-scan_string zero p = omega arith
length-scan_string (suc n) [] = omega arith
length-scan_string (suc n) (c ∷ p) =
    ground (arith, length-scan_string n p, length-scan_string n (tail p), length-tail p)

length-c_string : (s : List ℕ) → length (c_string s) ≤ length s
unfolding c_string
length-c_string [] = omega arith
length-c_string (c ∷ s) = ground (arith, length-c_string s)

-- A token of the program, and what is behind it is shorter than `n` bytes.
pub record IsToken (n : ℕ) (t : TplTok) (rest : List ℕ) : Type 0 where
  pub fits : TokFits t
  pub not_eof : is t.kind tk_eof ≡ false
  pub shorter : length rest < n

pub data LexedFits (n : ℕ) : Lexed → Type 0 where
  end_fits : LexedFits n finished
  skip_fits : {rest : List ℕ} → length rest < n → LexedFits n (skipped rest)
  token_fits : {t : TplTok} {rest : List ℕ} → IsToken n t rest → LexedFits n (token (t, rest))

tok_fits :
    (line : ℕ) (kind : TokKind) (text : List ℕ)
    → length text < max_str
    → TokFits (tok line kind text)
tok_fits line kind text h = record { text_fits = h; number_fits = omega arith }

word_kind-ne-eof : (text : List ℕ) → is (word_kind text) tk_eof ≡ false
unfolding word_kind
word_kind-ne-eof text = ground arith

-- The arithmetic of the proofs below, away from the texts.
under : (n k : ℕ) → n ≤ k → n < suc k
under n k h = omega arith

isalpha-isalnum : (c : ℕ) → tpl_isalpha c ≡ true → tpl_isalnum c ≡ true
unfolding tpl_isalnum
isalpha-isalnum c h = ground arith

lex_name-IsToken :
    (line c : ℕ) (p : List ℕ)
    → tpl_isalpha c ≡ true
    → IsToken (suc (length p)) (lex_name line (c ∷ p)).0 (lex_name line (c ∷ p)).1
unfolding lex_name
lex_name-IsToken line c p h = record {
  fits = tok_fits line _ _ (under _ 255 (length-scan tpl_isalnum 255 (c ∷ p)).0);
  not_eof = word_kind-ne-eof _;
  shorter = under _ _ (scan_takes tpl_isalnum 254 c p (isalpha-isalnum c h));
}

lex_number-IsToken :
    (line c : ℕ) (p : List ℕ)
    → (tpl_isdigit c || c == b'-' && tpl_isdigit (head p)) ≡ true
    → IsToken (suc (length p)) (lex_number line (c ∷ p)).0 (lex_number line (c ∷ p)).1
unfolding lex_number
lex_number-IsToken line c p h = elim (Bool-cases (c == b'-')) [
  | inl minus ↦ rw minus (record {
    fits = record {
      text_fits = below _ _ (length-scan tpl_isdigit 14 p).0 (omega arith);
      number_fits = tpl_atoi-lt _;
    };
    not_eof = refl;
    shorter = under _ _ (length-scan tpl_isdigit 14 p).1;
  })
  | inr digit ↦ rw digit (record {
    fits = record {
      text_fits = under_max _ _ (length-scan tpl_isdigit 15 (c ∷ p)).0 (omega arith);
      number_fits = tpl_atoi-lt _;
    };
    not_eof = refl;
    shorter = under _ _ (scan_takes tpl_isdigit 14 c p (ground arith));
  })
]
  where
    under_max : (n k : ℕ) → n ≤ k → k < 255 → n < 256
    under_max n k a b = omega arith

    below : (n k : ℕ) → n ≤ k → k < 255 → suc n < 256
    below n k a b = omega arith

lex_string-IsToken :
    (line : ℕ) (p : List ℕ) → IsToken (suc (length p)) (lex_string line p).0 (lex_string line p).1
unfolding lex_string
lex_string-IsToken line p = record {
  fits =
      tok_fits line _ _
        (short _ _ (length-c_string (scan_string 255 p).0) (length-scan_string 255 p).0);
  not_eof = refl;
  shorter = closed (scan_string 255 p).1 (length-scan_string 255 p).1;
}
  where
    short : (a b : ℕ) → a ≤ b → b ≤ 255 → a < 256
    short a b h k = omega arith

    closed :
        (rest : List ℕ)
        → length rest ≤ length p
        → length (if head rest == b'"' then tail rest else rest) < suc (length p)
    closed rest h = ground (arith, length-tail rest)

pair_kind-ne-eof : (c d : ℕ) (k : TokKind) → pair_kind c d ≡ some k → is k tk_eof ≡ false
unfolding pair_kind
pair_kind-ne-eof c d k h = ground arith

char_kind-ne-eof : (c : ℕ) (k : TokKind) → char_kind c ≡ some k → is k tk_eof ≡ false
unfolding char_kind
char_kind-ne-eof c k h = ground arith

lex_operator-fits : (line c : ℕ) (p : List ℕ) → LexedFits (suc (length p)) (lex_operator line c p)
unfolding lex_operator
lex_operator-fits line c p = operator (pair_kind c (head p)) refl
  where
    single :
        (o : Option TokKind)
        → char_kind c ≡ o
        → LexedFits
            (suc (length p))
            (elim o [ some kind ↦ token (tok line kind (c ∷ []), p) | none ↦ skipped p ])
    single (some k) e = token_fits (record {
      fits = tok_fits line k (c ∷ []) (omega arith);
      not_eof = char_kind-ne-eof c k e;
      shorter = under _ _ (omega arith);
    })
    single none e = skip_fits (omega arith)

    operator :
        (o : Option TokKind)
        → pair_kind c (head p) ≡ o
        → LexedFits (suc (length p)) (elim o [
          | some kind ↦ token (tok line kind (c ∷ head p ∷ []), tail p)
          | none ↦ elim (char_kind c) [
            | some kind ↦ token (tok line kind (c ∷ []), p)
            | none ↦ skipped p
          ]
        ])
    operator (some k) e = token_fits (record {
      fits = tok_fits line k (c ∷ head p ∷ []) (omega arith);
      not_eof = pair_kind-ne-eof c (head p) k e;
      shorter = under _ _ (length-tail p);
    })
    operator none e = single (char_kind c) refl

either_fits :
    {n : ℕ} (b : Bool) {x y : Lexed}
    → (b ≡ true → LexedFits n x)
    → (b ≡ false → LexedFits n y)
    → LexedFits n (if b then x else y)
either_fits true h k = h refl
either_fits false h k = k refl

pub lex_at-fits : (line : ℕ) (p : List ℕ) → LexedFits (length p) (lex_at line p)
unfolding lex_at
lex_at-fits line [] = end_fits
lex_at-fits line (c ∷ p) =
    either_fits (c == b'#') (λ _. skip_fits (under _ _ (length-skip_comment p)))
      (λ _.
        either_fits (c == 10) (λ _. token_fits newline)
          (λ _.
            either_fits (c == 0) (λ _. end_fits)
              (λ _.
                either_fits (tpl_isalpha c) (λ h. token_fits (lex_name-IsToken line c p h))
                  (λ _.
                    either_fits (tpl_isdigit c || c == b'-' && tpl_isdigit (head p))
                      (λ h. token_fits (lex_number-IsToken line c p h))
                      (λ _.
                        either_fits (c == b'"') (λ _. token_fits (lex_string-IsToken line p))
                          (λ _. lex_operator-fits line c p))))))
  where
    newline : IsToken (suc (length p)) (tok line tk_newline (10 ∷ [])) p
    newline = record {
      fits = tok_fits line tk_newline (10 ∷ []) (omega arith);
      not_eof = refl;
      shorter = under _ _ (omega arith);
    }
