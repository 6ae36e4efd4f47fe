-- ===== src/Templar/Expr/Source.antt =====
-- templar.c: from the source text of an expression to its value.
use mathlib.Core.Path.{subst}
use crusader_os_v.Base.{
  ℕ, suc, ◌^◌, ◌<◌, ◌≤◌, ◌≡◌, ◌≢◌, refl, ap, ◌∙◌, Bool, true, false, List, [], ◌∷◌, ◌++◌, some,
  arith, length, if◌then◌else◌, ltb, codes, drop,
}
use crusader_os_v.Templar.Value.{TplVal, same, tpl_strcmp, tpl_isalpha, tpl_isalnum}
use crusader_os_v.Templar.State.{
  TplTok, TplState, tk_name, tk_eof, tk_eqeq, tk_neq, tk_lt, tk_gt, tk_lte, tk_gte, tk_plus,
  tk_minus, tk_star, tk_slash, tk_percent, tk_lparen, tk_rparen, done, ◌>>=◌, max_tokens, max_name,
}
use crusader_os_v.Templar.Lexer.{tok, word_kind, next_line, tpl_lexer, pair_kind, char_kind}
use crusader_os_v.Templar.Lexer.Spelling.{
  All, no_nul, Spelled, word, string, pair, single, AllSpelled, text_of,
}
use crusader_os_v.Templar.Lexer.Printed.{line_behind, tpl_lexer-text_of}
use crusader_os_v.Templar.Lexer.Numerals.{number-Spelled}
use crusader_os_v.Templar.Exec.{tpl_expr}
use crusader_os_v.Templar.Expr.Tree.{
  Expr, lit, text, var, negate, invert, bin, BinOp, mul, div, rem, add, sub, eqeq, neq, lt, gt, lte,
  gte, and_op, or_op, printed, value, NamesFit, op_tok, parens, rank,
}
use crusader_os_v.Templar.Expr.Walk.{bind-done}
use crusader_os_v.Templar.Expr.Meaning.{tpl_expr-value}

-- A name of letters, digits and underscores that begins with no digit and is no keyword.
pub data IsName : List ℕ → Type 0 where
  name :
      (c : ℕ) (w : List ℕ)
      → tpl_isalpha c ≡ true
      → All tpl_isalnum w
      → word_kind (c ∷ w) ≡ tk_name
      → length (c ∷ w) < max_name
      → IsName (c ∷ w)

-- The expressions that can be written down: the lowest number cannot, since its digits are not printed.
abbrev pub Writable : Expr → Type 0
Writable (lit n) = (n < 2 ^ 32) × (n ≢ 2 ^ 31)
Writable (text s) = All no_nul s × (length s ≤ 255)
Writable (var x) = IsName x
Writable (negate e) = Writable e
Writable (invert e) = Writable e
Writable (bin op a b) = Writable a × Writable b

-- Tokens that are spelled in one line, none of them its end.
abbrev InLine : ℕ → List TplTok → Type 0
InLine line [] = Unit
InLine line (t ∷ ts) = Spelled line t × (next_line t ≡ line) × InLine line ts

InLine-append :
    (line : ℕ) (xs ys : List TplTok) → InLine line xs → InLine line ys → InLine line (xs ++ ys)
InLine-append line [] ys h k = k
InLine-append line (x ∷ xs) ys (s, e, h) k = (s, e, InLine-append line xs ys h k)

InLine-AllSpelled : (line : ℕ) (ts : List TplTok) → InLine line ts → AllSpelled line ts
InLine-AllSpelled line [] h = tt
InLine-AllSpelled line (t ∷ ts) (s, e, h) = (s, rw e (InLine-AllSpelled line ts h))

InLine-line_behind : (line : ℕ) (ts : List TplTok) → InLine line ts → line_behind line ts ≡ line
unfolding line_behind
InLine-line_behind line [] h = refl
InLine-line_behind line (t ∷ ts) (s, e, h) = rw e (InLine-line_behind line ts h)

InLine-op_tok :
    (line : ℕ) (op : BinOp) (ts : List TplTok) → InLine line ts → InLine line (op_tok line op ∷ ts)
unfolding pair_kind char_kind word_kind tpl_isalpha tpl_isalnum same tpl_strcmp
InLine-op_tok line mul ts h = (single b'*' tk_star refl, refl, h)
InLine-op_tok line div ts h = (single b'/' tk_slash refl, refl, h)
InLine-op_tok line rem ts h = (single b'%' tk_percent refl, refl, h)
InLine-op_tok line add ts h = (single b'+' tk_plus refl, refl, h)
InLine-op_tok line sub ts h = (single b'-' tk_minus refl, refl, h)
InLine-op_tok line eqeq ts h = (pair b'=' b'=' tk_eqeq refl, refl, h)
InLine-op_tok line neq ts h = (pair b'!' b'=' tk_neq refl, refl, h)
InLine-op_tok line lt ts h = (single b'<' tk_lt refl, refl, h)
InLine-op_tok line gt ts h = (single b'>' tk_gt refl, refl, h)
InLine-op_tok line lte ts h = (pair b'<' b'=' tk_lte refl, refl, h)
InLine-op_tok line gte ts h = (pair b'>' b'=' tk_gte refl, refl, h)
InLine-op_tok line and_op ts h =
    (word b'a' (codes "nd") refl (refl, (refl, tt)) (omega arith), refl, h)
InLine-op_tok line or_op ts h = (word b'o' (codes "r") refl (refl, tt) (omega arith), refl, h)

InLine-parens :
    (line : ℕ) (b : Bool) (ts : List TplTok)
    → InLine line ts
    → InLine line (if b then ts else parens line ts)
unfolding char_kind
InLine-parens line true ts h = h
InLine-parens line false ts h = (
  single b'(' tk_lparen refl,
  refl,
  InLine-append line ts _ h (single b')' tk_rparen refl, refl, tt),
)

name-Spelled : (line : ℕ) (x : List ℕ) → IsName x → Spelled line (tok line tk_name x)
name-Spelled line x (name c w a all k l) =
    subst (λ kind. Spelled line (tok line kind (c ∷ w))) k (word c w a all (omega arith))

printed-InLine : (line level : ℕ) (e : Expr) → Writable e → InLine line (printed line level e)
unfolding printed char_kind word_kind tpl_isalpha tpl_isalnum same tpl_strcmp
printed-InLine line level (lit n) (l, h) = (number-Spelled line n l h, refl, tt)
printed-InLine line level (text s) (all, l) = (string s all l, refl, tt)
printed-InLine line level (var x) h = (name-Spelled line x h, refl, tt)
printed-InLine line level (negate e) h =
    (single b'-' tk_minus refl, refl, printed-InLine line 0 e h)
printed-InLine line level (invert e) h =
    (word b'n' (codes "ot") refl (refl, (refl, tt)) (omega arith), refl, printed-InLine line 0 e h)
printed-InLine line level (bin op a b) (h, k) = InLine-parens line (ltb (rank op) level) _ (
    InLine-append line (printed line (suc (rank op)) a) _ (printed-InLine line (suc (rank op)) a h)
      (InLine-op_tok line op _ (printed-InLine line (rank op) b k)))

Writable-NamesFit : (e : Expr) → Writable e → NamesFit e
Writable-NamesFit (lit n) h = tt
Writable-NamesFit (text s) h = tt
Writable-NamesFit (var x) (name c w a all k l) = l
Writable-NamesFit (negate e) h = Writable-NamesFit e h
Writable-NamesFit (invert e) h = Writable-NamesFit e h
Writable-NamesFit (bin op a b) (h, k) = (Writable-NamesFit a h, Writable-NamesFit b k)

-- The text of an expression with all its tokens apart, and no more parentheses than it needs.
abbrev pub source_of : Expr → List ℕ
source_of e = text_of (printed 1 4 e)

-- Lexing the text of an expression and evaluating the tokens gives the value of the tree, for every expression without calls whose names, strings and numbers can be written down and that has less than 512 tokens. The conditions: no error is pending, the tokens begin at the first, the value exists (no string overruns its buffer and no division faults), and the fuel exceeds the number of tokens.
pub tpl_expr-source_of :
    (e : Expr) (v : TplVal) (fuel : ℕ) (s : TplState)
    → Writable e
    → length (printed 1 4 e) < max_tokens
    → s.src ≡ source_of e
    → s.tok_pos ≡ 0
    → s.error ≡ false
    → value s.vars e ≡ some v
    → length (printed 1 4 e) < fuel
    → (tpl_lexer >>= λ _. tpl_expr fuel) s
      ≡ done v (record s {
        tokens = printed 1 4 e ++ tok 1 tk_eof [] ∷ [];
        tok_pos = length (printed 1 4 e);
      })
tpl_expr-source_of e v fuel s writable room src start clean h enough =
    let ts = printed 1 4 e in
    let in_line = printed-InLine 1 4 e writable in
    let eof = tok 1 tk_eof [] in
    let lexed = record s { tokens = ts ++ eof ∷ [] } in
    bind-done tpl_lexer (λ _. tpl_expr fuel) s
      (tpl_lexer-text_of ts s (InLine-AllSpelled 1 ts in_line) room src
        ∙ ap (λ n. done tt (record s { tokens = ts ++ tok n tk_eof [] ∷ [] }))
            (InLine-line_behind 1 ts in_line))
    ∙ tpl_expr-value 1 e v fuel lexed eof [] clean (Writable-NamesFit e writable) h
        (ap (λ n. drop n (ts ++ eof ∷ [])) start)
        (record { no_call = refl; below = ((((tt, refl), refl), refl), refl) }) enough
    ∙ ap (λ n. done v (record lexed { tok_pos = n })) (omega (arith, start))
