-- ===== src/Templar/Lexer.antt =====
-- templar.c: `tpl_lexer`. The source text is the list of the bytes of `src`; the end of the list stands for a NUL.
pub mod Bounds
pub mod Rounds
pub mod Printed
pub mod Numerals
pub mod Spelling
pub mod Total
use crusader_os_v.Base.{
  ℕ, zero, suc, ◌+◌, ◌-◌, Bool, true, false, ◌&&◌, ◌||◌, not, List, [], ◌∷◌, Option, none, some,
  ◌==◌, if◌then◌else◌, codes, length,
}
use crusader_os_v.Text.{head, c_string}
use crusader_os_v.Templar.Value.{tpl_isalpha, tpl_isdigit, tpl_isalnum, tpl_isspace, tpl_atoi, same}
use crusader_os_v.Templar.State.{
  TokKind, tk_name, tk_num, tk_str, tk_eq, tk_eqeq, tk_neq, tk_lt, tk_gt, tk_lte, tk_gte, tk_plus,
  tk_minus, tk_star, tk_slash, tk_lparen, tk_rparen, tk_lbrace, tk_rbrace, tk_colon, tk_comma,
  tk_newline, tk_eof, tk_and, tk_or, tk_not, tk_percent, TplTok, TplState, M, done, stopped,
  out_of_fuel, max_tokens,
}

abbrev pub tail : List ℕ → List ℕ
tail [] = []
tail (c ∷ p) = p

abbrev pub tok : ℕ → TokKind → List ℕ → TplTok
tok line kind text = record { kind = kind; text = text; num = 0; line = line }

-- `while (*p && *p == ' ') p++;`: what is behind the white space, and behind a comment.
unfoldable pub skip_spaces : List ℕ → List ℕ
skip_spaces [] = []
skip_spaces (c ∷ p) = if tpl_isspace c then skip_spaces p else c ∷ p

unfoldable pub skip_comment : List ℕ → List ℕ
skip_comment [] = []
skip_comment (c ∷ p) = if c == 0 || c == 10 then c ∷ p else skip_comment p

-- At most `n` bytes while the test holds, and the rest.
unfoldable pub scan : (ℕ → Bool) → ℕ → List ℕ → List ℕ × List ℕ
scan test zero p = ([], p)
scan test (suc n) [] = ([], [])
scan test (suc n) (c ∷ p) =
    let (text, rest) = scan test n p in if test c then (c ∷ text, rest) else ([], c ∷ p)

abbrev pub escape : ℕ → ℕ
escape c = if c == b'n' then 10 else if c == b't' then 9 else c

-- The bytes between the quotes, at most `n`. A backslash takes the byte behind it, a NUL too.
unfoldable pub scan_string : ℕ → List ℕ → List ℕ × List ℕ
scan_string zero p = ([], p)
scan_string (suc n) [] = ([], [])
scan_string (suc n) (c ∷ p) =
    let (escaped, after) = scan_string n (tail p) in
    let (text, rest) = scan_string n p in
    if c == 0 || c == b'"'
    then ([], c ∷ p)
    else if c == b'\\'
    then (escape (head p) ∷ escaped, after)
    else (c ∷ text, rest)

unfoldable pub word_kind : List ℕ → TokKind
word_kind text =
    if same text (codes "and")
    then tk_and
    else if same text (codes "or")
    then tk_or
    else if same text (codes "not")
    then tk_not
    else tk_name

unfoldable pub lex_name : ℕ → List ℕ → TplTok × List ℕ
lex_name line p =
    let (text, rest) = scan tpl_isalnum 255 p in (tok line (word_kind text) text, rest)

-- The sign takes one of the 15 bytes.
unfoldable pub lex_number : ℕ → List ℕ → TplTok × List ℕ
lex_number line p =
    let (digits, rest) =
      if head p == b'-' then scan tpl_isdigit 14 (tail p) else scan tpl_isdigit 15 p in
    let text = if head p == b'-' then b'-' ∷ digits else digits in
    (record (tok line tk_num text) { num = tpl_atoi text }, rest)

-- `p` is behind the opening quote. The text ends at a NUL that was escaped.
unfoldable pub lex_string : ℕ → List ℕ → TplTok × List ℕ
lex_string line p =
    let (text, rest) = scan_string 255 p in
    (tok line tk_str (c_string text), if head rest == b'"' then tail rest else rest)

-- The operators of two characters.
unfoldable pub pair_kind : ℕ → ℕ → Option TokKind
pair_kind c d =
    if not (d == b'=')
    then none
    else if c == b'='
    then some tk_eqeq
    else if c == b'!'
    then some tk_neq
    else if c == b'<'
    then some tk_lte
    else if c == b'>'
    then some tk_gte
    else none

-- The `switch`.
unfoldable pub char_kind : ℕ → Option TokKind
char_kind c =
    if c == b'='
    then some tk_eq
    else if c == b'<'
    then some tk_lt
    else if c == b'>'
    then some tk_gt
    else if c == b'+'
    then some tk_plus
    else if c == b'-'
    then some tk_minus
    else if c == b'*'
    then some tk_star
    else if c == b'/'
    then some tk_slash
    else if c == b'%'
    then some tk_percent
    else if c == b'('
    then some tk_lparen
    else if c == b')'
    then some tk_rparen
    else if c == b'{'
    then some tk_lbrace
    else if c == b'}'
    then some tk_rbrace
    else if c == b':'
    then some tk_colon
    else if c == b','
    then some tk_comma
    else none

-- A round of the loop: the end, nothing for a token, or a token; with the rest of the text, and the line.
pub data Lexed : Type 0 where
  finished : Lexed
  skipped : List ℕ → Lexed
  token : TplTok × List ℕ → Lexed

unfoldable pub lex_operator : ℕ → ℕ → List ℕ → Lexed
lex_operator line c p = elim (pair_kind c (head p)) [
  | some kind ↦ token (tok line kind (c ∷ head p ∷ []), tail p)
  | none ↦ elim (char_kind c) [ some kind ↦ token (tok line kind (c ∷ []), p) | none ↦ skipped p ]
]

-- The white space is skipped, and `p` is `c` and what is behind it.
unfoldable pub lex_at : ℕ → List ℕ → Lexed
lex_at line [] = finished
lex_at line (c ∷ p) =
    if c == b'#'
    then skipped (skip_comment p)
    else if c == 10
    then token (tok line tk_newline (10 ∷ []), p)
    else if c == 0
    then finished
    else if tpl_isalpha c
    then token (lex_name line (c ∷ p))
    else if tpl_isdigit c || c == b'-' && tpl_isdigit (head p)
    then token (lex_number line (c ∷ p))
    else if c == b'"'
    then token (lex_string line p)
    else lex_operator line c p

abbrev pub next_line : TplTok → ℕ
next_line t = elim t.kind [ tk_newline ↦ t.line + 1 | _ ↦ t.line ]

abbrev pub prepend : TplTok → Option (List TplTok) → Option (List TplTok)
prepend t (some ts) = some (t ∷ ts)
prepend t none = none

-- The loop, with `room` for so many more tokens before the end; `none` if the fuel runs out.
unfoldable pub lex_from : ℕ → ℕ → ℕ → List ℕ → Option (List TplTok)
lex_from zero room line p = none
lex_from (suc fuel) zero line p = some (tok line tk_eof [] ∷ [])
lex_from (suc fuel) (suc room) line p =
    if head p == 0 then some (tok line tk_eof [] ∷ []) else elim (lex_at line (skip_spaces p)) [
      | finished ↦ some (tok line tk_eof [] ∷ [])
      | skipped rest ↦ lex_from fuel (suc room) line rest
      | token (t, rest) ↦ prepend t (lex_from fuel room (next_line t) rest)
    ]

unfoldable pub store_tokens : Option (List TplTok) → M (Unit {0})
store_tokens (some tokens) s = done tt (record s { tokens = tokens })
store_tokens none s = stopped out_of_fuel s

unfoldable pub tpl_lexer : M (Unit {0})
tpl_lexer s = store_tokens (lex_from (length s.src + 1) (max_tokens - 1) 1 s.src) s
