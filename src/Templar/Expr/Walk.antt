-- ===== src/Templar/Expr/Walk.antt =====
-- templar.c: what the operations on the tokens do, where it is known which tokens are ahead.
use crusader_os_v.Base.{
  ℕ, zero, suc, ◌+◌, ◌≡◌, refl, sym, ap, ◌∙◌, true, false, List, [], ◌∷◌, ◌++◌, arith, lt→ltb,
  length, get_or, drop, ◌<◌,
}
use crusader_os_v.Templar.State.{
  TokKind, tk_eof, is, TplTok, TplState, M, done, pure, ◌>>=◌, has_error, no_tok, tpl_peek,
  tpl_advance, tpl_expect, max_name,
}
use crusader_os_v.Templar.Vars.{copy_name}

-- The state behind so many more tokens.
abbrev pub behind : ℕ → TplState → TplState
behind n s = record s { tok_pos = s.tok_pos + n }

-- The tokens from the current one on.
abbrev pub Ahead : TplState → List TplTok → Type 0
Ahead s ts = drop s.tok_pos s.tokens ≡ ts

drop_nil : (n : ℕ) → ◌≡◌ {A = List TplTok} (drop n []) []
drop_nil zero = refl
drop_nil (suc n) = refl

drop-drop : (p n : ℕ) (ts : List TplTok) → drop (p + n) ts ≡ drop n (drop p ts)
drop-drop zero n ts = ap (λ k. drop k ts) (omega arith)
drop-drop (suc p) n [] = drop_nil (suc p + n) ∙ sym (drop_nil n)
drop-drop (suc p) n (t ∷ ts) = ap (λ k. drop k (t ∷ ts)) (suc_add p n) ∙ drop-drop p n ts
  where
    suc_add : (p n : ℕ) → suc p + n ≡ suc (p + n)
    suc_add p n = omega arith

drop-length : (xs r : List TplTok) → drop (length xs) (xs ++ r) ≡ r
drop-length [] r = refl
drop-length (x ∷ xs) r = drop-length xs r

drop-append : (ts xs r : List TplTok) (p : ℕ) → drop p ts ≡ xs ++ r → drop (p + length xs) ts ≡ r
drop-append ts xs r p h = drop-drop p (length xs) ts ∙ ap (drop (length xs)) h ∙ drop-length xs r

get_or-drop : (ts r : List TplTok) (t : TplTok) (p : ℕ) → drop p ts ≡ t ∷ r → get_or ts p no_tok ≡ t
get_or-drop [] r t zero h = cc
get_or-drop [] r t (suc p) h = cc
get_or-drop (u ∷ ts) r t zero h = cc
get_or-drop (u ∷ ts) r t (suc p) h = get_or-drop ts r t p h

pub behind-Ahead :
    (s : TplState) (xs r : List TplTok) → Ahead s (xs ++ r) → Ahead (behind (length xs) s) r
behind-Ahead s xs r h = drop-append s.tokens xs r s.tok_pos h

pub behind-behind : (m n : ℕ) (s : TplState) → behind n (behind m s) ≡ behind (m + n) s
behind-behind m n s = ap (λ p. record s { tok_pos = p }) (omega arith)

pub bind-done :
    {A B : Type 0} (m : M A) (f : A → M B) (s : TplState) {a : A} {s' : TplState}
    → m s ≡ done a s'
    → (m >>= f) s ≡ f a s'
unfolding ◌>>=◌
bind-done m f s e = rw e refl

pub peek-Ahead :
    (s : TplState) (t : TplTok) (r : List TplTok) → Ahead s (t ∷ r) → tpl_peek s ≡ done t s
unfolding tpl_peek
peek-Ahead s t r h = rw (get_or-drop s.tokens r t s.tok_pos h) refl

pub advance-Ahead :
    (s : TplState) (t : TplTok) (r : List TplTok)
    → Ahead s (t ∷ r)
    → is t.kind tk_eof ≡ false
    → tpl_advance s ≡ done tt (behind 1 s)
unfolding tpl_advance
advance-Ahead s t r h k = rw (get_or-drop s.tokens r t s.tok_pos h) (rw k refl)

pub expect-Ahead :
    (k : TokKind) (s : TplState) (t : TplTok) (r : List TplTok)
    → Ahead s (t ∷ r)
    → is t.kind k ≡ true
    → is t.kind tk_eof ≡ false
    → tpl_expect k s ≡ done true (behind 1 s)
unfolding tpl_expect pure
expect-Ahead k s t r h e n =
    bind-done tpl_peek _ s (peek-Ahead s t r h)
    ∙ rw e (bind-done tpl_advance _ s (advance-Ahead s t r h n))

pub no_error : (s : TplState) → s.error ≡ false → has_error s ≡ done false s
unfolding has_error
no_error s e = rw e refl

pub copy_name-fits :
    (name : List ℕ) (s : TplState) → length name < max_name → copy_name name s ≡ done name s
unfolding copy_name pure
copy_name-fits name s h = rw (lt→ltb _ _ h) refl
