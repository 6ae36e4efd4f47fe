-- ===== src/Templar/Sound/Steps.antt =====
-- templar.c: the operations on the tokens, the variables and the output keep the state sound.
use crusader_os_v.Base.{
  ℕ, zero, suc, ◌+◌, ◌-◌, ◌<◌, ◌≡◌, refl, Bool, true, false, List, [], ◌∷◌, arith, inl, inr,
  Bool-cases, ==_ne, length, get_or, drop,
}
use crusader_os_v.Templar.State.{
  TokKind, kind_code, TplTok, TplState, Effect, no_tok, tk_eof, is, has_error, tpl_error, emit,
  tpl_peek, peek_next, get_pos, set_pos, tpl_advance, advance_by, count_newlines, tpl_skip_newlines,
  tpl_expect, tpl_match,
}
use crusader_os_v.Templar.Sound.{
  TokFits, All, EndsEof, IsSound, finishes, Keeps, Any, Keeps-pure, ◌⟫◌, Keeps-either,
}

-- Tokens that the lexer may give.
pub record AreTokens (toks : List TplTok) : Type 0 where
  pub ends : EndsEof toks
  pub fit : All TokFits toks

no_tok_fits : TokFits no_tok
no_tok_fits = record { text_fits = omega arith; number_fits = omega arith }

get_or_fits : (ts : List TplTok) (p : ℕ) → All TokFits ts → TokFits (get_or ts p no_tok)
get_or_fits [] p h = no_tok_fits
get_or_fits (t ∷ ts) zero (h, hs) = h
get_or_fits (t ∷ ts) (suc p) (h, hs) = get_or_fits ts p hs

next_in_tokens :
    (ts : List TplTok) (p : ℕ)
    → EndsEof ts
    → p < length ts
    → is (get_or ts p no_tok).kind tk_eof ≡ false
    → p + 1 < length ts
next_in_tokens [] p e h k = absurd e
next_in_tokens (t ∷ []) zero e h k = cc
next_in_tokens (t ∷ []) (suc p) e h k = absurd (omega arith)
next_in_tokens (t ∷ u ∷ ts) zero e h k = omega arith
next_in_tokens (t ∷ u ∷ ts) (suc p) (_, e) h k =
    omega (arith, next_in_tokens (u ∷ ts) p e (omega arith) k)

-- A count that stops in front of the end of the text.
abbrev pub StopsAtEof : (List TplTok → ℕ) → Type 0
StopsAtEof count = (ts : List TplTok) → EndsEof ts → count ts < length ts

drop_ends : (ts : List TplTok) (p : ℕ) → EndsEof ts → p < length ts → EndsEof (drop p ts)
drop_ends [] p e h = absurd e
drop_ends (t ∷ ts) zero e h = e
drop_ends (t ∷ []) (suc p) e h = absurd (omega arith)
drop_ends (t ∷ u ∷ ts) (suc p) (_, e) h = drop_ends (u ∷ ts) p e (omega arith)

length-drop : (ts : List TplTok) (p : ℕ) → length (drop p ts) ≡ length ts - p
length-drop [] zero = refl
length-drop [] (suc p) = omega arith
length-drop (t ∷ ts) zero = omega arith
length-drop (t ∷ ts) (suc p) = omega (arith, length-drop ts p)

advance_by_in_tokens :
    (count : List TplTok → ℕ) (ts : List TplTok) (p : ℕ)
    → StopsAtEof count
    → EndsEof ts
    → p < length ts
    → p + count (drop p ts) < length ts
advance_by_in_tokens count ts p in_front e h =
    omega (arith, in_front (drop p ts) (drop_ends ts p e h), length-drop ts p)

count_newlines-StopsAtEof : StopsAtEof count_newlines
unfolding count_newlines
count_newlines-StopsAtEof [] e = absurd e
count_newlines-StopsAtEof (t ∷ []) e = ground (arith, ==_ne (kind_code t.kind) 20)
count_newlines-StopsAtEof (t ∷ u ∷ ts) (_, e) = ground (arith, count_newlines-StopsAtEof (u ∷ ts) e)

module _ {toks : List TplTok} where
  moved :
      {s : TplState}
      → IsSound toks s
      → (p : ℕ) → p < length toks
      → IsSound toks (record s { tok_pos = p })
  moved i p h = record {
    same_tokens = i.same_tokens;
    in_tokens = h;
    var_count = i.var_count;
    vars_fit = i.vars_fit;
    func_count = i.func_count;
    funcs_fit = i.funcs_fit;
  }

  -- A change of the error or of the output.
  unmoved :
      {s : TplState}
      → IsSound toks s
      → (e : Bool) (msg : List ℕ) (out : List Effect)
      → IsSound toks (record s { error = e; error_msg = msg; output = out })
  unmoved i e msg out = record {
    same_tokens = i.same_tokens;
    in_tokens = i.in_tokens;
    var_count = i.var_count;
    vars_fit = i.vars_fit;
    func_count = i.func_count;
    funcs_fit = i.funcs_fit;
  }

  pub Keeps-has_error : Keeps toks Any has_error
  unfolding has_error
  Keeps-has_error = record { at = λ s i. finishes tt i }

  pub Keeps-tpl_error : (msg : List ℕ) → Keeps toks Any (tpl_error msg)
  unfolding tpl_error
  Keeps-tpl_error msg = record { at = λ s i. finishes tt (unmoved i true msg s.output) }

  pub Keeps-emit : (e : Effect) → Keeps toks Any (emit e)
  unfolding emit
  Keeps-emit e = record { at = λ s i. finishes tt (unmoved i s.error s.error_msg (e ∷ s.output)) }

  pub Keeps-get_pos : Keeps toks (λ p. p < length toks) get_pos
  unfolding get_pos
  Keeps-get_pos = record { at = λ s i. finishes i.in_tokens i }

  pub Keeps-set_pos : (p : ℕ) → p < length toks → Keeps toks Any (set_pos p)
  unfolding set_pos
  Keeps-set_pos p h = record { at = λ s i. finishes tt (moved i p h) }

module _ {toks : List TplTok} (lexed : AreTokens toks) where
  pub Keeps-peek : Keeps toks TokFits tpl_peek
  unfolding tpl_peek
  Keeps-peek = record {
    at = λ s i. finishes (rw i.same_tokens (get_or_fits toks s.tok_pos lexed.fit)) i;
  }

  pub Keeps-peek_next : Keeps toks TokFits peek_next
  unfolding peek_next
  Keeps-peek_next = record {
    at = λ s i. finishes (rw i.same_tokens (get_or_fits toks (s.tok_pos + 1) lexed.fit)) i;
  }

  pub Keeps-advance : Keeps toks Any tpl_advance
  unfolding tpl_advance
  Keeps-advance = record {
    at = λ s i. elim (Bool-cases (is (get_or s.tokens s.tok_pos no_tok).kind tk_eof)) [
      | inl e ↦ rw e (finishes tt i)
      | inr e ↦ rw e (
          finishes tt (
            moved i (s.tok_pos + 1)
              (next_in_tokens toks s.tok_pos lexed.ends i.in_tokens (rw (← i.same_tokens) e))))
    ];
  }

  pub Keeps-advance_by :
      (count : List TplTok → ℕ) → StopsAtEof count → Keeps toks Any (advance_by count)
  unfolding advance_by
  Keeps-advance_by count in_front = record {
    at = λ s i. finishes tt (
        moved i (s.tok_pos + count (drop s.tok_pos s.tokens)) (
          rw i.same_tokens
            (advance_by_in_tokens count toks s.tok_pos in_front lexed.ends i.in_tokens)));
  }

  pub Keeps-skip_newlines : Keeps toks Any tpl_skip_newlines
  unfolding tpl_skip_newlines
  Keeps-skip_newlines = Keeps-advance_by count_newlines count_newlines-StopsAtEof

  pub Keeps-expect : (k : TokKind) → Keeps toks Any (tpl_expect k)
  unfolding tpl_expect
  Keeps-expect k = Keeps-peek ⟫ λ t _.
      Keeps-either _ (Keeps-advance ⟫ λ _ _. Keeps-pure _ tt)
        (Keeps-tpl_error _ ⟫ λ _ _. Keeps-pure _ tt)

  pub Keeps-match : (k : TokKind) → Keeps toks Any (tpl_match k)
  unfolding tpl_match
  Keeps-match k =
      Keeps-peek ⟫ λ t _. Keeps-either _ (Keeps-advance ⟫ λ _ _. Keeps-pure _ tt) (Keeps-pure _ tt)
