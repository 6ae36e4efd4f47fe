-- ===== src/Templar/Lexer/Printed.antt =====
-- templar.c: what the lexer makes of the spelling of tokens.
use crusader_os_v.Base.{
  ℕ, zero, suc, ◌+◌, ◌<◌, ◌≤◌, ◌≡◌, refl, Bool, true, false, List, [], ◌∷◌, ◌++◌, some, arith, ◌==◌,
  if◌then◌else◌, length, length-append,
}
use crusader_os_v.Text.{head}
use crusader_os_v.Templar.Value.{tpl_isalpha, tpl_isdigit, tpl_isspace}
use crusader_os_v.Templar.State.{TokKind, tk_eof, tk_str, is, TplTok, TplState, done, max_tokens}
use crusader_os_v.Templar.Lexer.{
  tok, skip_spaces, pair_kind, char_kind, lex_at, next_line, lex_from, store_tokens, tpl_lexer,
}
use crusader_os_v.Templar.Lexer.Spelling.{
  quoted, spelling, text_of, Spelled, newline, word, number, minus_number, string, pair, single,
  AllSpelled,
}
use crusader_os_v.Templar.Lexer.Rounds.{
  word_kind-ne-str, pair_kind-ne-str, char_kind-ne-str, lex_at-spelling,
}

-- The first byte is no white space and no NUL.
abbrev Solid : ℕ → Type 0
Solid c = (tpl_isspace c ≡ false) × ((c == 0) ≡ false)

data Begins : List ℕ → Type 0 where
  begins_with : {c : ℕ} (p : List ℕ) → Solid c → Begins (c ∷ p)

alpha-Solid : (c : ℕ) → tpl_isalpha c ≡ true → Solid c
unfolding tpl_isalpha tpl_isspace
alpha-Solid c h = ground arith

digit-Solid : (c : ℕ) → tpl_isdigit c ≡ true → Solid c
unfolding tpl_isdigit tpl_isspace
digit-Solid c h = ground arith

pair_kind-Solid : (c d : ℕ) (k : TokKind) → pair_kind c d ≡ some k → Solid c
unfolding pair_kind tpl_isspace
pair_kind-Solid c d k h = ground arith

char_kind-Solid : (c : ℕ) (k : TokKind) → char_kind c ≡ some k → Solid c
unfolding char_kind tpl_isspace
char_kind-Solid c k h = ground arith

spelling-Begins :
    (line : ℕ) (t : TplTok) (rest : List ℕ) → Spelled line t → Begins (spelling t rest)
unfolding tpl_isspace
spelling-Begins line t rest newline = begins_with rest (refl, refl)
spelling-Begins line t rest (word c w a all l) =
    rw (word_kind-ne-str (c ∷ w)) (begins_with (w ++ rest) (alpha-Solid c a))
spelling-Begins line t rest (number c w d all l) = begins_with (w ++ rest) (digit-Solid c d)
spelling-Begins line t rest (minus_number c w d all l) = begins_with (c ∷ w ++ rest) (refl, refl)
spelling-Begins line t rest (string s all l) = begins_with (quoted s ++ b'"' ∷ rest) (refl, refl)
spelling-Begins line t rest (pair c d kind e) =
    rw (pair_kind-ne-str c d kind e) (begins_with (d ∷ rest) (pair_kind-Solid c d kind e))
spelling-Begins line t rest (single c kind e) =
    rw (char_kind-ne-str c kind e) (begins_with rest (char_kind-Solid c kind e))

skip_spaces-Begins : (p : List ℕ) → Begins p → skip_spaces p ≡ p
unfolding skip_spaces
skip_spaces-Begins p (begins_with q (h, k)) = rw h refl

head-Begins : (p : List ℕ) → Begins p → (head p == 0) ≡ false
head-Begins p (begins_with q (h, k)) = k

-- The line behind the tokens.
unfoldable pub line_behind : ℕ → List TplTok → ℕ
line_behind line [] = line
line_behind line (t ∷ ts) = line_behind (next_line t) ts

skip_text :
    (line : ℕ) (ts : List TplTok)
    → AllSpelled line ts
    → (skip_spaces (text_of ts) ≡ text_of ts) × (skip_spaces (32 ∷ text_of ts) ≡ text_of ts)
unfolding skip_spaces tpl_isspace
skip_text line [] all = (refl, refl)
skip_text line (t ∷ ts) (h, all) =
    let e = skip_spaces-Begins _ (spelling-Begins line t (32 ∷ text_of ts) h) in (e, e)

lex_from-text_of :
    (fuel room line : ℕ) (ts : List TplTok)
    → AllSpelled line ts
    → length ts < fuel
    → length ts ≤ room
    → lex_from fuel room line (32 ∷ text_of ts)
      ≡ some (ts ++ tok (line_behind line ts) tk_eof [] ∷ [])
unfolding lex_from line_behind lex_at skip_spaces tpl_isspace
lex_from-text_of zero room line ts h k l = absurd (omega arith)
lex_from-text_of (suc fuel) zero line [] h k l = refl
lex_from-text_of (suc fuel) zero line (t ∷ ts) h k l = absurd (omega arith)
lex_from-text_of (suc fuel) (suc room) line [] h k l = refl
lex_from-text_of (suc fuel) (suc room) line (t ∷ ts) (h, all) k l =
    rw
      (
        (skip_text line (t ∷ ts) (h, all)).1,
        lex_at-spelling line t (text_of ts) h,
        lex_from-text_of fuel room (next_line t) ts all (omega arith) (omega arith),
      )
      refl

-- The same without a blank in front.
lex_from-first :
    (fuel room line : ℕ) (ts : List TplTok)
    → AllSpelled line ts
    → length ts < fuel
    → length ts ≤ room
    → lex_from fuel room line (text_of ts) ≡ some (ts ++ tok (line_behind line ts) tk_eof [] ∷ [])
unfolding lex_from line_behind
lex_from-first zero room line ts h k l = absurd (omega arith)
lex_from-first (suc fuel) zero line [] h k l = refl
lex_from-first (suc fuel) zero line (t ∷ ts) h k l = absurd (omega arith)
lex_from-first (suc fuel) (suc room) line [] h k l = refl
lex_from-first (suc fuel) (suc room) line (t ∷ ts) (h, all) k l =
    rw
      (
        head-Begins _ (spelling-Begins line t (32 ∷ text_of ts) h),
        (skip_text line (t ∷ ts) (h, all)).0,
        lex_at-spelling line t (text_of ts) h,
        lex_from-text_of fuel room (next_line t) ts all (omega arith) (omega arith),
      )
      refl

length-spelling : (t : TplTok) (rest : List ℕ) → length rest ≤ length (spelling t rest)
length-spelling t rest = either (is t.kind tk_str)
  where
    either :
        (b : Bool)
        → length rest ≤ length (if b then b'"' ∷ (quoted t.text ++ b'"' ∷ rest) else t.text ++ rest)
    either true = omega (arith, length-append (quoted t.text) (b'"' ∷ rest))
    either false = omega (arith, length-append t.text rest)

length-text_of : (ts : List TplTok) → length ts ≤ length (text_of ts)
length-text_of [] = omega arith
length-text_of (t ∷ ts) = omega (arith, length-text_of ts, length-spelling t (32 ∷ text_of ts))

-- Tokens that have a spelling are what the lexer finds in their text, with the end of the text behind them, if there is room for them. A newline token counts the lines.
pub tpl_lexer-text_of :
    (ts : List TplTok) (s : TplState)
    → AllSpelled 1 ts
    → length ts < max_tokens
    → s.src ≡ text_of ts
    → tpl_lexer s ≡ done tt (record s { tokens = ts ++ tok (line_behind 1 ts) tk_eof [] ∷ [] })
unfolding tpl_lexer store_tokens
tpl_lexer-text_of ts s h l e =
    rw
      (
        e,
        lex_from-first (length (text_of ts) + 1) 511 1 ts h (omega (arith, length-text_of ts))
            (omega arith),
      )
      refl
