-- ===== src/Templar/Sound/Exprs.antt =====
-- templar.c: the evaluation of an expression keeps the state sound, and its value fits.
use crusader_os_v.Base.{
  ℕ, zero, suc, ◌^◌, ◌<◌, ◌≡◌, refl, Bool, Option, none, some, List, arith, ◌==◌,
}
use crusader_os_v.Templar.Word.{div32, mod32}
use crusader_os_v.Templar.Value.{TplVal, num, nil}
use crusader_os_v.Templar.State.{
  TokKind, tk_name, tk_num, tk_str, tk_plus, tk_minus, tk_star, tk_slash, tk_lparen, tk_and, tk_not,
  TplTok, M, divide_error, pure, stop, ◌>>=◌,
}
use crusader_os_v.Templar.Expr.{
  primary_of, tpl_primary, operators, quotient, factor, tpl_term, sum, tpl_additive, comparison,
  tpl_comparison, logic, expr_over, expr_with,
}
use crusader_os_v.Templar.Sound.{
  ValFits, num_fits, str_fits, nil_fits, TokFits, Keeps, Keeps-pure, Keeps-stop, ◌⟫◌, Keeps-either,
}
use crusader_os_v.Templar.Sound.Numbers.{
  neg32-lt, add32-lt, sub32-lt, mul32-lt, div32-lt, mod32-lt, tpl_val_num-lt, of_bool_fits,
}
use crusader_os_v.Templar.Sound.Steps.{
  AreTokens, Keeps-has_error, Keeps-peek, Keeps-advance, Keeps-expect,
}
use crusader_os_v.Templar.Sound.Vars.{Keeps-get_var, Keeps-copy_name, Keeps-strcat}

module _ {toks : List TplTok} (lexed : AreTokens toks) {call : List ℕ → M TplVal} {expr : M TplVal}
    (calls : (name : List ℕ) → Keeps toks ValFits (call name))
    (exprs : Keeps toks ValFits expr) where
  Keeps-primary_of :
      (primary : M TplVal) (k : TokKind) (t : TplTok)
      → Keeps toks ValFits primary
      → TokFits t
      → Keeps toks ValFits (primary_of call expr primary k t)
  unfolding primary_of
  Keeps-primary_of primary tk_num t p f =
      Keeps-advance lexed ⟫ λ _ _. Keeps-pure _ (num_fits f.number_fits)
  Keeps-primary_of primary tk_str t p f =
      Keeps-advance lexed ⟫ λ _ _. Keeps-pure _ (str_fits f.text_fits)
  Keeps-primary_of primary tk_not t p f =
      Keeps-advance lexed ⟫ λ _ _. p ⟫ λ _ _. Keeps-pure _ (of_bool_fits _)
  Keeps-primary_of primary tk_minus t p f =
      Keeps-advance lexed ⟫ λ _ _. p ⟫ λ _ _. Keeps-pure _ (num_fits (neg32-lt _))
  Keeps-primary_of primary tk_lparen t p f =
      Keeps-advance lexed ⟫ λ _ _. exprs ⟫ λ v h. Keeps-expect lexed _ ⟫ λ _ _. Keeps-pure v h
  Keeps-primary_of primary tk_name t p f = Keeps-copy_name _ ⟫ λ name _.
      Keeps-advance lexed ⟫ λ _ _.
      Keeps-peek lexed ⟫ λ _ _. Keeps-either _ (calls name) (Keeps-get_var name)
  Keeps-primary_of primary _ t p f = Keeps-advance lexed ⟫ λ _ _. Keeps-pure nil nil_fits

  pub Keeps-primary : (fuel : ℕ) → Keeps toks ValFits (tpl_primary call expr fuel)
  unfolding tpl_primary
  Keeps-primary zero = Keeps-stop _
  Keeps-primary (suc fuel) = Keeps-has_error ⟫ λ _ _.
      Keeps-either _ (Keeps-pure nil nil_fits)
        (Keeps-peek lexed ⟫ λ t f. Keeps-primary_of _ t.kind t (Keeps-primary fuel) f)

abbrev Operates : List TplTok → (TokKind → TplVal → TplVal → M TplVal) → Type 0
Operates toks operate =
    (k : TokKind) (a b : TplVal) → ValFits a → ValFits b → Keeps toks ValFits (operate k a b)

module _ {toks : List TplTok} (lexed : AreTokens toks) where
  Keeps-operators :
      (goes_on : TokKind → Bool) {operate : TokKind → TplVal → TplVal → M TplVal}
      {operand : M TplVal}
      → Operates toks operate
      → Keeps toks ValFits operand
      → (fuel : ℕ) (left : TplVal) → ValFits left
      → Keeps toks ValFits (operators goes_on operate operand fuel left)
  unfolding operators
  Keeps-operators goes_on op arg zero left f = Keeps-stop _
  Keeps-operators goes_on op arg (suc fuel) left f = Keeps-has_error ⟫ λ _ _.
      Keeps-either _ (Keeps-pure left f) (
        Keeps-peek lexed ⟫ λ t _.
        Keeps-either _
          (Keeps-advance lexed ⟫ λ _ _. arg ⟫ λ right h.
            op t.kind left right f h ⟫ λ v g. Keeps-operators goes_on op arg fuel v g)
          (Keeps-pure left f))

  -- The first operand and the loop.
  Keeps-level :
      (goes_on : TokKind → Bool) (operate : TokKind → TplVal → TplVal → M TplVal)
      (operand : M TplVal) (fuel : ℕ)
      → Operates toks operate
      → Keeps toks ValFits operand
      → Keeps toks ValFits (operand >>= λ left. operators goes_on operate operand fuel left)
  Keeps-level goes_on operate operand fuel op arg =
      arg ⟫ λ left f. Keeps-operators goes_on op arg fuel left f

module _ {toks : List TplTok} where
  Keeps-quotient :
      (divide : ℕ → ℕ → Option ℕ) (a b : ℕ)
      → ((q : ℕ) → divide a b ≡ some q → q < 2 ^ 32)
      → Keeps toks ValFits (quotient divide a b)
  Keeps-quotient divide a b h = Keeps-either (b == 0) (Keeps-pure _ (num_fits (omega arith))) (
      elim (divide a b)
          as (λ o.
            divide a b ≡ o
            → Keeps toks ValFits (elim o [ some q ↦ pure (num q) | none ↦ stop divide_error ])) [
              | some q ↦ λ e. Keeps-pure _ (num_fits (h q e))
              | none ↦ λ e. Keeps-stop _
            ]
        refl)

  factor-Operates : Operates toks factor
  unfolding factor
  factor-Operates tk_star a b f g = Keeps-pure _ (num_fits (mul32-lt _ _))
  factor-Operates tk_slash a b f g =
      Keeps-quotient div32 _ _ (λ q e. div32-lt _ _ q (tpl_val_num-lt a f) e)
  factor-Operates _ a b f g =
      Keeps-quotient mod32 _ _ (λ q e. mod32-lt _ _ q (tpl_val_num-lt a f) e)

  sum-Operates : Operates toks sum
  unfolding sum
  sum-Operates tk_plus a b f g =
      Keeps-either _ (Keeps-strcat _ _ ⟫ λ s h. Keeps-pure _ (str_fits h))
        (Keeps-pure _ (num_fits (add32-lt _ _)))
  sum-Operates _ a b f g = Keeps-pure _ (num_fits (sub32-lt _ _))

  comparison-Operates : Operates toks comparison
  unfolding comparison
  comparison-Operates k a b f g =
      Keeps-either _ (Keeps-pure _ (of_bool_fits _)) (Keeps-pure _ (of_bool_fits _))

  logic-Operates : Operates toks logic
  unfolding logic
  logic-Operates tk_and a b f g = Keeps-pure _ (of_bool_fits _)
  logic-Operates _ a b f g = Keeps-pure _ (of_bool_fits _)

module _ {toks : List TplTok} (lexed : AreTokens toks) {call : M TplVal → ℕ → List ℕ → M TplVal}
    (calls : (inner : M TplVal) (fuel : ℕ) (name : List ℕ)
      → Keeps toks ValFits inner
      → Keeps toks ValFits (call inner fuel name)) where
  Keeps-expr_over :
      (inner : M TplVal) (fuel : ℕ)
      → Keeps toks ValFits inner
      → Keeps toks ValFits (expr_over call inner fuel)
  unfolding expr_over tpl_term tpl_additive tpl_comparison
  Keeps-expr_over inner fuel h = Keeps-level lexed _ _ _ fuel logic-Operates (
      Keeps-level lexed _ _ _ fuel comparison-Operates (
        Keeps-level lexed _ _ _ fuel sum-Operates (
          Keeps-level lexed _ _ _ fuel factor-Operates
            (Keeps-primary lexed (λ name. calls inner fuel name h) h fuel))))

  pub Keeps-expr : (fuel : ℕ) → Keeps toks ValFits (expr_with call fuel)
  unfolding expr_with
  Keeps-expr zero = Keeps-stop _
  Keeps-expr (suc fuel) = Keeps-expr_over (expr_with call fuel) fuel (Keeps-expr fuel)
