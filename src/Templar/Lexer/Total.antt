-- ===== src/Templar/Lexer/Total.antt =====
-- templar.c: the lexer ends on every program, and what it gives fits the array of tokens.
use crusader_os_v.Base.{
  ℕ, zero, suc, ◌+◌, ◌<◌, ◌≤◌, ◌≡◌, refl, false, List, [], ◌∷◌, Option, none, some, arith, ◌==◌,
  length, Bool-cases, inl, inr,
}
use crusader_os_v.Text.{head}
use crusader_os_v.Templar.State.{tk_eof, is, TplTok, TplState, max_tokens, done}
use crusader_os_v.Templar.Lexer.{
  tok, skip_spaces, Lexed, finished, skipped, token, lex_at, next_line, prepend, lex_from,
  store_tokens, tpl_lexer,
}
use crusader_os_v.Templar.Lexer.Bounds.{
  LexedFits, skip_fits, token_fits, lex_at-fits, length-skip_spaces,
}
use crusader_os_v.Templar.Sound.{TokFits}
use crusader_os_v.Templar.Sound.Steps.{AreTokens}

-- Tokens with the end of the text behind them, and at most `room` in front of it.
pub record Tokenized (room : ℕ) (toks : List TplTok) : Type 0 where
  pub tokens : AreTokens toks
  pub count : length toks ≤ room + 1

pub data LexesTo (room : ℕ) : Option (List TplTok) → Type 0 where
  lexes : {toks : List TplTok} → Tokenized room toks → LexesTo room (some toks)

eof_only : (room line : ℕ) → LexesTo room (some (tok line tk_eof [] ∷ []))
eof_only room line = lexes (record {
  tokens = record {
    ends = refl;
    fit = (record { text_fits = omega arith; number_fits = omega arith }, tt);
  };
  count = omega arith;
})

add_token :
    (room : ℕ) (t : TplTok) (toks : List TplTok)
    → TokFits t
    → is t.kind tk_eof ≡ false
    → Tokenized room toks
    → Tokenized (suc room) (t ∷ toks)
add_token room t [] f e h = absurd h.tokens.ends
add_token room t (u ∷ toks) f e h = record {
  tokens = record { ends = (e, h.tokens.ends); fit = (f, h.tokens.fit) };
  count = omega (arith, h.count);
}

prepend_lem :
    (room : ℕ) (t : TplTok) (o : Option (List TplTok))
    → TokFits t
    → is t.kind tk_eof ≡ false
    → LexesTo room o
    → LexesTo (suc room) (prepend t o)
prepend_lem room t (some toks) f e (lexes h) = lexes (add_token room t toks f e h)
prepend_lem room t none f e h = elim h [ ]

round :
    (fuel room line : ℕ) (n : ℕ) (l : Lexed)
    → n ≤ fuel
    → LexedFits n l
    → ((room line : ℕ) (p : List ℕ) → length p < fuel → LexesTo room (lex_from fuel room line p))
    → LexesTo (suc room) (elim l [
      | finished ↦ some (tok line tk_eof [] ∷ [])
      | skipped rest ↦ lex_from fuel (suc room) line rest
      | token (t, rest) ↦ prepend t (lex_from fuel room (next_line t) rest)
    ])
round fuel room line n finished h f ih = eof_only (suc room) line
round fuel room line n (skipped rest) h (skip_fits s) ih = ih (suc room) line rest (omega arith)
round fuel room line n (token (t, rest)) h (token_fits s) ih =
    prepend_lem room t _ s.fits s.not_eof (ih room (next_line t) rest (omega (arith, s.shorter)))

lex_from-LexesTo :
    (fuel room line : ℕ) (p : List ℕ) → length p < fuel → LexesTo room (lex_from fuel room line p)
unfolding lex_from
lex_from-LexesTo zero room line p h = absurd (omega arith)
lex_from-LexesTo (suc fuel) zero line p h = eof_only zero line
lex_from-LexesTo (suc fuel) (suc room) line p h = elim (Bool-cases (head p == 0)) [
  | inl end ↦ rw end (eof_only (suc room) line)
  | inr more ↦ rw more (
      round fuel room line (length (skip_spaces p)) (lex_at line (skip_spaces p))
        (omega (arith, length-skip_spaces p)) (lex_at-fits line (skip_spaces p))
        (lex_from-LexesTo fuel))
]

-- On every program the lexer ends, and changes the state in nothing but the tokens: at most 512, each with a text of less than 256 bytes, the last one and no other the end of the text.
pub tpl_lexer_total :
    (s : TplState)
    → (toks : List TplTok) × (tpl_lexer s ≡ done tt (record s { tokens = toks }))
      × AreTokens toks
      × (length toks ≤ max_tokens)
unfolding tpl_lexer store_tokens
tpl_lexer_total s = tokens_of _ refl (lex_from-LexesTo (length s.src + 1) 511 1 s.src (omega arith))
  where
    tokens_of :
        (o : Option (List TplTok))
        → lex_from (length s.src + 1) 511 1 s.src ≡ o
        → LexesTo 511 o
        → (toks : List TplTok) × (tpl_lexer s ≡ done tt (record s { tokens = toks }))
          × AreTokens toks
          × (length toks ≤ max_tokens)
    tokens_of (some toks) e (lexes h) = (toks, rw e refl, h.tokens, h.count)
    tokens_of none e h = elim h [ ]
