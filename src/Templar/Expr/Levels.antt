-- ===== src/Templar/Expr/Levels.antt =====
-- templar.c: `tpl_term`, `tpl_additive`, `tpl_comparison` and `tpl_expr` as levels over `tpl_primary`, and how one level
-- reads what the level below reads.
use crusader_os_v.Base.{
  length-append, ℕ, zero, suc, ◌≡◌, refl, ap, ◌∙◌, Bool, true, false, List, [], ◌∷◌, ◌++◌, arith,
  length,
}
use mathlib.Core.List.{append_assoc}
use crusader_os_v.Templar.Value.{TplVal}
use crusader_os_v.Templar.State.{
  TokKind, tk_eof, tk_lparen, is, TplTok, TplVar, TplState, M, done, pure, ◌>>=◌, tpl_peek,
  tpl_advance, has_error,
}
use crusader_os_v.Templar.Expr.{
  operators, is_factor, factor, is_sum, sum, is_comparison, comparison, is_logic, logic,
}
use crusader_os_v.Templar.Expr.Walk.{
  behind, Ahead, behind-Ahead, bind-done, peek-Ahead, advance-Ahead, no_error,
}

-- The operators of each loop, from `tpl_term` up.
abbrev pub goes : ℕ → TokKind → Bool
goes zero = is_factor
goes (suc zero) = is_sum
goes (suc (suc zero)) = is_comparison
goes _ = is_logic

abbrev pub operate : ℕ → TokKind → TplVal → TplVal → M TplVal
operate zero = factor
operate (suc zero) = sum
operate (suc (suc zero)) = comparison
operate _ = logic

-- The primary, and four loops over it.
abbrev pub level : ℕ → M TplVal → ℕ → M TplVal
level fuel primary zero = primary
level fuel primary (suc d) =
    level fuel primary d >>= λ left. operators (goes d) (operate d) (level fuel primary d) fuel left

-- `t` ends an operand of the loop `d`: it starts no call, and is no operator of the loops below.
abbrev pub NotBelow : ℕ → TokKind → Type 0
NotBelow zero k = Unit
NotBelow (suc d) k = NotBelow d k × (goes d k ≡ false)

pub record Follows (d : ℕ) (t : TplTok) : Type 0 where
  pub no_call : is t.kind tk_lparen ≡ false
  pub below : NotBelow d t.kind

pub record Ready (vars : List TplVar) (s : TplState) : Type 0 where
  pub clean : s.error ≡ false
  pub same_vars : s.vars ≡ vars

pub Follows-suc : (d : ℕ) (t : TplTok) → Follows (suc d) t → Follows d t
Follows-suc d t f = record { no_call = f.no_call; below = f.below.0 }

module _ (vars : List TplVar) where
  -- A step reads these tokens, whatever may follow them, and its value is this.
  abbrev pub Yields : ℕ → M TplVal → List TplTok → TplVal → Type 0
  Yields d m ts v =
      (s : TplState) (t : TplTok) (rest : List TplTok)
      → Ready vars s
      → Ahead s (ts ++ t ∷ rest)
      → Follows d t
      → m s ≡ done v (behind (length ts) s)

  -- With the tokens read, so many rounds of the loop `d` are left; an operator of the loop may follow.
  abbrev pub Loops : ℕ → ℕ → M TplVal → List TplTok → TplVal → ℕ → Type 0
  Loops fuel d primary ts v left =
      (s : TplState) (t : TplTok) (rest : List TplTok)
      → Ready vars s
      → Ahead s (ts ++ t ∷ rest)
      → Follows d t
      → level fuel primary (suc d) s
        ≡ operators (goes d) (operate d) (level fuel primary d) left v (behind (length ts) s)

  module _ (fuel : ℕ) (primary : M TplVal) (d : ℕ) (ts : List TplTok) (v : TplVal) where
    -- What the level below reads is the first operand.
    pub first_operand : Yields d (level fuel primary d) ts v → Loops fuel d primary ts v fuel
    first_operand y s t rest r a f = bind-done (level fuel primary d) _ s (y s t rest r a f)

    -- The loop ends in front of a token that is no operator of its own.
    pub last_operand :
        (left : ℕ)
        → Loops fuel d primary ts v (suc left)
        → Yields (suc d) (level fuel primary (suc d)) ts v
    unfolding operators pure
    last_operand left l s t rest r a f =
        l s t rest r a (Follows-suc d t f)
        ∙ bind-done has_error _ (behind (length ts) s) (no_error (behind (length ts) s) r.clean)
        ∙ bind-done tpl_peek _ (behind (length ts) s)
            (peek-Ahead (behind (length ts) s) t rest (behind-Ahead s ts (t ∷ rest) a))
        ∙ rw f.below.1 refl

  -- A round of the loop: an operator and its right operand.
  module _ (fuel : ℕ) (primary : M TplVal) (d : ℕ) (ts us : List TplTok) (op : TplTok)
      (a b v : TplVal) where
    pub next_operand :
        (left : ℕ)
        → Loops fuel d primary ts a (suc left)
        → Yields d (level fuel primary d) us b
        → Follows d op
        → goes d op.kind ≡ true
        → is op.kind tk_eof ≡ false
        → ((s : TplState) → operate d op.kind a b s ≡ done v s)
        → Loops fuel d primary (ts ++ op ∷ us) v left
    unfolding operators
    next_operand left la yb fo go ne ap_op s t rest r h f =
        let h' : Ahead s (ts ++ op ∷ (us ++ t ∷ rest)) = h ∙ append_assoc ts (op ∷ us) (t ∷ rest) in
        let s1 : TplState = behind (length ts) s in
        let s2 : TplState = behind 1 s1 in
        let s3 : TplState = behind (length us) s2 in
        let a1 : Ahead s1 (op ∷ (us ++ t ∷ rest)) = behind-Ahead s ts _ h' in
        let a2 : Ahead s2 (us ++ t ∷ rest) = behind-Ahead s1 (op ∷ []) _ a1 in
        la s op (us ++ t ∷ rest) r h' fo
        ∙ bind-done has_error _ s1 (no_error s1 r.clean)
        ∙ bind-done tpl_peek _ s1 (peek-Ahead s1 op _ a1)
        ∙ rw go (
            bind-done tpl_advance _ s1 (advance-Ahead s1 op _ a1 ne)
            ∙ bind-done (level fuel primary d) _ s2
                (yb s2 t rest (record { clean = r.clean; same_vars = r.same_vars }) a2 f)
            ∙ bind-done (operate d op.kind a b) _ s3 (ap_op s3)
            ∙ ap (operators (goes d) (operate d) (level fuel primary d) left v) (passed ts us s))
      where
        passed :
            (ts us : List TplTok) (s : TplState)
            → behind (length us) (behind 1 (behind (length ts) s))
              ≡ behind (length (ts ++ op ∷ us)) s
        passed ts us s =
            ap (λ p. record s { tok_pos = p }) (omega (arith, length-append ts (op ∷ us)))
