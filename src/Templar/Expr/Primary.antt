-- ===== src/Templar/Expr/Primary.antt =====
-- templar.c: `tpl_primary` reads the tokens of a literal, of a variable, and of what stands behind a sign or in
-- parentheses; and what it reads is read by every level.
use crusader_os_v.Base.{
  length-append, ℕ, zero, suc, ◌≡◌, refl, ap, ◌∙◌, not, List, [], ◌∷◌, ◌++◌, arith, ◌==◌, length,
  ◌<◌, ◌≤◌, Bool-cases, inl, inr, ==_iff, codes,
}
use mathlib.Core.Path.{subst}
use mathlib.Core.List.{append_assoc}
use crusader_os_v.Templar.Word.{neg32}
use crusader_os_v.Templar.Value.{TplVal, num, str, tpl_val_num, tpl_val_truthy, of_bool}
use crusader_os_v.Templar.State.{
  tk_name, tk_minus, tk_not, tk_lparen, tk_rparen, TplTok, TplVar, TplState, M, done, pure,
  tpl_peek, tpl_advance, tpl_expect, has_error, max_name,
}
use crusader_os_v.Templar.Vars.{find_var, or_nil, templar_get_var, copy_name}
use crusader_os_v.Templar.Lexer.{tok}
use crusader_os_v.Templar.Expr.{
  primary_of, tpl_primary, tpl_term, tpl_additive, tpl_comparison, expr_over, expr_with,
}
use crusader_os_v.Templar.Expr.Tree.{
  Expr, lit, text, var, negate, invert, BinOp, rank, op_tok, parens, printed,
}
use crusader_os_v.Templar.Expr.Walk.{
  behind, Ahead, behind-Ahead, bind-done, peek-Ahead, advance-Ahead, expect-Ahead, no_error,
  copy_name-fits,
}
use crusader_os_v.Templar.Expr.Levels.{level, Follows, Ready, Yields, first_operand, last_operand}

one_more : (n : ℕ) (s : TplState) → behind n (behind 1 s) ≡ behind (suc n) s
one_more n s = ap (λ p. record s { tok_pos = p }) (omega arith)

module _ (line : ℕ) (call : M TplVal → ℕ → List ℕ → M TplVal) (vars : List TplVar) where
  -- `tpl_primary` where the loops have the fuel `n`.
  abbrev pub prim : ℕ → ℕ → M TplVal
  prim n fuel = tpl_primary (call (expr_with call n) n) (expr_with call n) fuel

  abbrev pub levels : ℕ → ℕ → M TplVal
  levels n d = level n (prim n n) d

  abbrev pub body : BinOp → Expr → Expr → List TplTok
  body op a b = printed line (suc (rank op)) a ++ op_tok line op ∷ printed line (rank op) b

  abbrev pub Primary : List TplTok → TplVal → Type 0
  Primary ts v = (n fuel : ℕ) → length ts ≤ n → length ts ≤ fuel → Yields vars 0 (prim n fuel) ts v

  -- What a primary reads is read by every level.
  pub flat :
      (ts : List TplTok) (v : TplVal) (n : ℕ)
      → Yields vars 0 (prim (suc n) (suc n)) ts v
      → (d : ℕ) → Yields vars d (levels (suc n) d) ts v
  flat ts v n y zero = y
  flat ts v n y (suc d) =
      last_operand vars (suc n) _ d ts v n (first_operand vars (suc n) _ d ts v (flat ts v n y d))

  -- So is what a level reads by the levels above it.
  pub climb :
      (ts : List TplTok) (v : TplVal) (n r : ℕ)
      → Yields vars (suc r) (levels (suc n) (suc r)) ts v
      → (d : ℕ) → r < d
      → Yields vars d (levels (suc n) d) ts v
  climb ts v n r y zero h = absurd (omega arith)
  climb ts v n r y (suc d) h = elim (Bool-cases (r == d)) [
    | inl e ↦ subst (λ k. Yields vars (suc k) (levels (suc n) (suc k)) ts v) ((==_iff r d).0 e) y
    | inr e ↦
        last_operand vars (suc n) _ d ts v n
          (first_operand vars (suc n) _ d ts v (climb ts v n r y d (ground arith)))
  ]

  -- Steps of `tpl_primary`.
  module _ (n fuel : ℕ) (s : TplState) (t : TplTok) (rest : List TplTok) where
    primary_step :
        Ready vars s
        → Ahead s (t ∷ rest)
        → prim n (suc fuel) s
          ≡ primary_of (call (expr_with call n) n) (expr_with call n) (prim n fuel) t.kind t s
    unfolding tpl_primary
    primary_step r a =
        bind-done has_error _ s (no_error s r.clean)
        ∙ bind-done tpl_peek _ s (peek-Ahead s t rest a)

  pub lit_lem : (m : ℕ) → Primary (printed line 0 (lit m)) (num m)
  unfolding printed primary_of pure
  lit_lem m n zero h k s t rest r a f = absurd (omega arith)
  lit_lem m n (suc fuel) h k s t rest r a f =
      primary_step n fuel s _ (t ∷ rest) r a
      ∙ bind-done tpl_advance _ s (advance-Ahead s _ (t ∷ rest) a refl)

  pub text_lem : (m : List ℕ) → Primary (printed line 0 (text m)) (str m)
  unfolding printed primary_of pure
  text_lem m n zero h k s t rest r a f = absurd (omega arith)
  text_lem m n (suc fuel) h k s t rest r a f =
      primary_step n fuel s _ (t ∷ rest) r a
      ∙ bind-done tpl_advance _ s (advance-Ahead s _ (t ∷ rest) a refl)

  pub var_lem :
      (x : List ℕ)
      → length x < max_name
      → Primary (printed line 0 (var x)) (or_nil (find_var vars x))
  unfolding printed primary_of templar_get_var
  var_lem x l n zero h k s t rest r a f = absurd (omega arith)
  var_lem x l n (suc fuel) h k s t rest r a f =
      primary_step n fuel s _ (t ∷ rest) r a
      ∙ bind-done (copy_name x) _ s (copy_name-fits x s l)
      ∙ bind-done tpl_advance _ s (advance-Ahead s _ (t ∷ rest) a refl)
      ∙ bind-done tpl_peek _ (behind 1 s)
          (peek-Ahead (behind 1 s) t rest (behind-Ahead s (tok line tk_name x ∷ []) (t ∷ rest) a))
      ∙ rw f.no_call (ap (λ vs. done (or_nil (find_var vs x)) (behind 1 s)) r.same_vars)

  module _ (e : Expr) (x : TplVal) (ih : Primary (printed line 0 e) x) where
    pub negate_lem : Primary (printed line 0 (negate e)) (num (neg32 (tpl_val_num x)))
    unfolding printed primary_of pure
    negate_lem n zero h k s t rest r a f = absurd (omega arith)
    negate_lem n (suc fuel) h k s t rest r a f =
        let s1 : TplState = behind 1 s in
        primary_step n fuel s _ _ r a
        ∙ bind-done tpl_advance _ s (advance-Ahead s _ _ a refl)
        ∙ bind-done (prim n fuel) _ s1 (
            ih n fuel (omega arith) (omega arith) s1 t rest
              (record { clean = r.clean; same_vars = r.same_vars })
              (behind-Ahead s (tok line tk_minus (codes "-") ∷ []) _ a) f)
        ∙ ap (done (num (neg32 (tpl_val_num x)))) (one_more (length (printed line 0 e)) s)

    pub invert_lem : Primary (printed line 0 (invert e)) (of_bool (not (tpl_val_truthy x)))
    unfolding printed primary_of pure
    invert_lem n zero h k s t rest r a f = absurd (omega arith)
    invert_lem n (suc fuel) h k s t rest r a f =
        let s1 : TplState = behind 1 s in
        primary_step n fuel s _ _ r a
        ∙ bind-done tpl_advance _ s (advance-Ahead s _ _ a refl)
        ∙ bind-done (prim n fuel) _ s1 (
            ih n fuel (omega arith) (omega arith) s1 t rest
              (record { clean = r.clean; same_vars = r.same_vars })
              (behind-Ahead s (tok line tk_not (codes "not") ∷ []) _ a) f)
        ∙ ap (done (of_bool (not (tpl_val_truthy x)))) (one_more (length (printed line 0 e)) s)

  -- Four levels make `tpl_expr`.
  pub expr_levels : (n : ℕ) → expr_with call (suc n) ≡ levels n 4
  unfolding expr_with expr_over tpl_term tpl_additive tpl_comparison
  expr_levels n = refl

  rparen_Follows : Follows 4 (tok line tk_rparen (codes ")"))
  rparen_Follows = record { no_call = refl; below = ((((tt, refl), refl), refl), refl) }

  pub parens_lem :
      (ts : List TplTok) (v : TplVal)
      → ((n : ℕ) → length ts ≤ n → Yields vars 4 (levels n 4) ts v)
      → Primary (parens line ts) v
  unfolding primary_of pure
  parens_lem ts v y zero fuel h k s t rest r a f = absurd (omega arith)
  parens_lem ts v y (suc n) zero h k s t rest r a f = absurd (omega arith)
  parens_lem ts v y (suc n) (suc fuel) h k s t rest r a f =
      let rparen : TplTok = tok line tk_rparen (codes ")") in
      let s1 : TplState = behind 1 s in
      let s2 : TplState = behind (length ts) s1 in
      let a1 : Ahead s1 (ts ++ rparen ∷ t ∷ rest) =
        behind-Ahead s (tok line tk_lparen (codes "(") ∷ []) _ (
          a
          ∙ ap (λ xs. tok line tk_lparen (codes "(") ∷ xs)
              (append_assoc ts (rparen ∷ []) (t ∷ rest))) in
      primary_step (suc n) fuel s _ _ r a
      ∙ bind-done tpl_advance _ s (advance-Ahead s _ _ a refl)
      ∙ bind-done (expr_with call (suc n)) _ s1 (
          ap (λ m. m s1) (expr_levels n)
          ∙ y n (shorter ts n h) s1 rparen (t ∷ rest)
              (record { clean = r.clean; same_vars = r.same_vars }) a1 rparen_Follows)
      ∙ bind-done (tpl_expect tk_rparen) _ s2
          (expect-Ahead tk_rparen s2 rparen (t ∷ rest) (behind-Ahead s1 ts _ a1) refl refl)
      ∙ ap (done v) (enclosed ts s)
    where
      shorter : (ts : List TplTok) (n : ℕ) → length (parens line ts) ≤ suc n → length ts ≤ n
      shorter ts n h = omega (arith, length-append ts (tok line tk_rparen (codes ")") ∷ []))

      enclosed :
          (ts : List TplTok) (s : TplState)
          → behind 1 (behind (length ts) (behind 1 s)) ≡ behind (length (parens line ts)) s
      enclosed ts s =
          ap (λ p. record s { tok_pos = p })
            (omega (arith, length-append ts (tok line tk_rparen (codes ")") ∷ [])))
