-- ===== src/Templar/Lexer/Rounds.antt =====
-- templar.c: what a round of the lexer makes of the spelling of a token.
use crusader_os_v.Base.{
  ℕ, ◌≡◌, refl, ◌∙◌, Bool, true, false, ◌&&◌, List, [], ◌∷◌, ◌++◌, none, some, arith, ◌==◌,
}
use crusader_os_v.Text.{head}
use crusader_os_v.Templar.Value.{tpl_isalpha, tpl_isdigit, tpl_isalnum}
use crusader_os_v.Templar.State.{TokKind, tk_newline, tk_str, is, TplTok}
use crusader_os_v.Templar.Lexer.{
  tok, token, lex_name, word_kind, lex_number, lex_string, pair_kind, char_kind, lex_operator,
  lex_at,
}
use crusader_os_v.Templar.Lexer.Spelling.{
  quoted, spelling, Spelled, newline, word, number, minus_number, string, pair, single, scan-stops,
  scan_string-quoted, c_string-no_nul,
}

-- The tests of a round, for the first byte of a token.
word_at :
    (line c : ℕ) (p : List ℕ)
    → tpl_isalpha c ≡ true
    → lex_at line (c ∷ p) ≡ token (lex_name line (c ∷ p))
unfolding lex_at tpl_isalpha
word_at line c p h = ground arith

number_at :
    (line c : ℕ) (p : List ℕ)
    → tpl_isdigit c ≡ true
    → lex_at line (c ∷ p) ≡ token (lex_number line (c ∷ p))
unfolding lex_at tpl_isalpha tpl_isdigit
number_at line c p h = ground arith

minus_at :
    (line : ℕ) (p : List ℕ)
    → tpl_isdigit (head p) ≡ true
    → lex_at line (b'-' ∷ p) ≡ token (lex_number line (b'-' ∷ p))
unfolding lex_at tpl_isalpha tpl_isdigit
minus_at line p h = rw h refl

newline_at :
    (line : ℕ) (p : List ℕ) → lex_at line (10 ∷ p) ≡ token (tok line tk_newline (10 ∷ []), p)
unfolding lex_at
newline_at line p = refl

string_at : (line : ℕ) (p : List ℕ) → lex_at line (b'"' ∷ p) ≡ token (lex_string line p)
unfolding lex_at tpl_isalpha tpl_isdigit
string_at line p = refl

digit_no-minus : (c : ℕ) → tpl_isdigit c ≡ true → (c == b'-') ≡ false
unfolding tpl_isdigit
digit_no-minus c h = ground arith

digit-isalnum : (c : ℕ) → tpl_isalpha c ≡ true → tpl_isalnum c ≡ true
unfolding tpl_isalnum
digit-isalnum c h = ground arith

pub word_kind-ne-str : (text : List ℕ) → is (word_kind text) tk_str ≡ false
unfolding word_kind
word_kind-ne-str text = ground arith

pub pair_kind-ne-str : (c d : ℕ) (k : TokKind) → pair_kind c d ≡ some k → is k tk_str ≡ false
unfolding pair_kind
pair_kind-ne-str c d k h = ground arith

pub char_kind-ne-str : (c : ℕ) (k : TokKind) → char_kind c ≡ some k → is k tk_str ≡ false
unfolding char_kind
char_kind-ne-str c k h = ground arith

-- A byte that begins nothing else begins an operator.
abbrev Plain : ℕ → Type 0
Plain c =
    ((c == b'#') ≡ false)
    × ((c == 10) ≡ false)
    × ((c == 0) ≡ false)
    × (tpl_isalpha c ≡ false)
    × (tpl_isdigit c ≡ false)
    × ((c == b'"') ≡ false)

pair_kind-Plain : (c d : ℕ) (k : TokKind) → pair_kind c d ≡ some k → Plain c × ((c == b'-') ≡ false)
unfolding pair_kind tpl_isalpha tpl_isdigit
pair_kind-Plain c d k h = ground arith

char_kind-Plain : (c : ℕ) (k : TokKind) → char_kind c ≡ some k → Plain c
unfolding char_kind tpl_isalpha tpl_isdigit
char_kind-Plain c k h = ground arith

operator_at :
    (line c : ℕ) (p : List ℕ)
    → Plain c
    → (c == b'-' && tpl_isdigit (head p)) ≡ false
    → lex_at line (c ∷ p) ≡ lex_operator line c p
unfolding lex_at
operator_at line c p (h, i, j, k, l, m) n = rw (h, i, j, k, l, n, m) refl

and_false : (a b : Bool) → a ≡ false → (a && b) ≡ false
and_false a b h = rw h refl

false_and : (a b : Bool) → b ≡ false → (a && b) ≡ false
false_and true b h = h
false_and false b h = refl

pair_at :
    (line c d : ℕ) (p : List ℕ) (k : TokKind)
    → pair_kind c d ≡ some k
    → lex_at line (c ∷ d ∷ p) ≡ token (tok line k (c ∷ d ∷ []), p)
unfolding lex_operator
pair_at line c d p k h =
    let (plain, no_minus) = pair_kind-Plain c d k h in
    operator_at line c (d ∷ p) plain (and_false _ _ no_minus) ∙ rw (lex_operator, h) refl

blank-pair_kind : (c : ℕ) → pair_kind c 32 ≡ none
unfolding pair_kind
blank-pair_kind c = refl

blank-isdigit : tpl_isdigit 32 ≡ false
unfolding tpl_isdigit
blank-isdigit = refl

blank-isalnum : tpl_isalnum 32 ≡ false
unfolding tpl_isalnum tpl_isalpha tpl_isdigit
blank-isalnum = refl

single_at :
    (line c : ℕ) (p : List ℕ) (k : TokKind)
    → char_kind c ≡ some k
    → lex_at line (c ∷ 32 ∷ p) ≡ token (tok line k (c ∷ []), 32 ∷ p)
unfolding lex_operator
single_at line c p k h =
    operator_at line c (32 ∷ p) (char_kind-Plain c k h) (false_and _ _ blank-isdigit)
    ∙ rw (lex_operator, blank-pair_kind c, h) refl

pub lex_at-spelling :
    (line : ℕ) (t : TplTok) (rest : List ℕ)
    → Spelled line t
    → lex_at line (spelling t (32 ∷ rest)) ≡ token (t, 32 ∷ rest)
unfolding lex_name lex_number lex_string
lex_at-spelling line t rest newline = newline_at line (32 ∷ rest)
lex_at-spelling line t rest (word c w a all l) =
    rw
      (
        word_kind-ne-str (c ∷ w),
        word_at line c (w ++ 32 ∷ rest) a,
        scan-stops tpl_isalnum 255 (c ∷ w) 32 rest (digit-isalnum c a, all) blank-isalnum
            (omega arith),
      )
      refl
lex_at-spelling line t rest (number c w d all l) =
    rw
      (
        number_at line c (w ++ 32 ∷ rest) d,
        digit_no-minus c d,
        scan-stops tpl_isdigit 15 (c ∷ w) 32 rest (d, all) blank-isdigit (omega arith),
      )
      refl
lex_at-spelling line t rest (minus_number c w d all l) =
    rw
      (
        minus_at line (c ∷ (w ++ 32 ∷ rest)) d,
        scan-stops tpl_isdigit 14 (c ∷ w) 32 rest (d, all) blank-isdigit (omega arith),
      )
      refl
lex_at-spelling line t rest (string s all l) =
    rw
      (
        string_at line (quoted s ++ b'"' ∷ 32 ∷ rest),
        scan_string-quoted 255 s (32 ∷ rest) all l,
        c_string-no_nul s all,
      )
      refl
lex_at-spelling line t rest (pair c d kind e) =
    rw (pair_kind-ne-str c d kind e) (pair_at line c d (32 ∷ rest) kind e)
lex_at-spelling line t rest (single c kind e) =
    rw (char_kind-ne-str c kind e) (single_at line c rest kind e)
