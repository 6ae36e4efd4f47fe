-- ===== src/Templar/Faults.antt =====
-- templar.c: loops over tokens that cannot end as they are meant to.
use crusader_os_v.Base.{
  length-append, ℕ, zero, suc, ◌+◌, ◌*◌, ◌<◌, ◌≤◌, ◌≡◌, refl, Bool, true, false, List, ◌++◌, arith,
  ltb, ltb→lt, length, get_or, codes, Bool-cases, inl, inr,
}
use crusader_os_v.Templar.Value.{TplVal, nil, tpl_val_to_str}
use crusader_os_v.Templar.State.{
  TokKind, tk_rparen, tk_eof, tk_comma, tk_name, is, TplState, M, done, stopped, overrun,
  out_of_fuel, pure, stop, ◌>>=◌, has_error, tpl_peek, tpl_match, no_tok, max_str,
}
use crusader_os_v.Templar.Vars.{tpl_strcat}
use crusader_os_v.Templar.Expr.{
  tpl_primary, operators, tpl_term, tpl_additive, tpl_comparison, expr_over, expr_with,
}
use crusader_os_v.Templar.Builtin.{texts}
use crusader_os_v.Templar.Exec.{tpl_expr, params_loop}

-- The kind of the current token.
abbrev pub kind_at : TplState → TokKind
kind_at s = (get_or s.tokens s.tok_pos no_tok).kind

module _ (s : TplState) (failed : s.error ≡ true) where
  operators_failed :
      (goes_on : TokKind → Bool) (operate : TokKind → TplVal → TplVal → M TplVal)
      (operand : M TplVal) (fuel : ℕ)
      → operand s ≡ done nil s
      → (operand >>= λ left. operators goes_on operate operand (suc fuel) left) s ≡ done nil s
  unfolding operators has_error ◌>>=◌ pure
  operators_failed goes_on operate operand fuel h = rw h (rw failed refl)

  primary_failed :
      (call : List ℕ → M TplVal) (expr : M TplVal) (fuel : ℕ)
      → tpl_primary call expr (suc fuel) s ≡ done nil s
  unfolding tpl_primary has_error ◌>>=◌ pure
  primary_failed call expr fuel = rw failed refl

  -- With an error pending an expression has no value and stays in front of its tokens.
  expr_failed : (fuel : ℕ) → tpl_expr (suc (suc fuel)) s ≡ done nil s
  unfolding expr_with expr_over tpl_term tpl_additive tpl_comparison
  expr_failed fuel = operators_failed _ _ _ fuel (
      operators_failed _ _ _ fuel
        (operators_failed _ _ _ fuel (operators_failed _ _ _ fuel (primary_failed _ _ fuel))))

longer :
    (buf : List ℕ) (rounds : ℕ)
    → max_str ≤ length buf + 3 * suc rounds
    → max_str ≤ length (buf ++ codes "nil") + 3 * rounds
longer buf rounds h = omega (arith, length-append buf (codes "nil"))

-- With an error pending and a token ahead that is neither a closing parenthesis, a comma nor the end of the text, the loop over the arguments of print, print_raw and concat never ends: it appends "nil" to its buffer of 256 bytes, whatever the buffer holds, until it writes behind it.
pub texts_overrun :
    (fuel rounds : ℕ) (buf : List ℕ) (s : TplState)
    → s.error ≡ true
    → is (kind_at s) tk_rparen ≡ false
    → is (kind_at s) tk_eof ≡ false
    → is (kind_at s) tk_comma ≡ false
    → max_str ≤ length buf + 3 * rounds
    → length buf < max_str
    → texts (tpl_expr (suc (suc fuel))) rounds buf s ≡ stopped overrun s
unfolding texts tpl_peek tpl_strcat tpl_val_to_str pure stop ◌>>=◌
texts_overrun fuel zero buf s failed np ne nc h k = absurd (omega arith)
texts_overrun fuel (suc rounds) buf s failed np ne nc h k = rw np (
    rw ne (
      rw (expr_failed s failed fuel)
        (elim (Bool-cases (ltb (length (buf ++ codes "nil")) max_str)) [
          | inl room ↦ rw room (
              rw nc (
                texts_overrun fuel rounds (buf ++ codes "nil") s failed np ne nc
                  (longer buf rounds h) (ltb→lt (length (buf ++ codes "nil")) max_str room)))
          | inr full ↦ rw full refl
        ])))

-- At a token that is no name, no comma, no closing parenthesis and not the end of the text, as in `fn f(1)`, the loop over the parameters of a function goes on for ever, however much fuel it has.
pub params_loop-never :
    (fuel : ℕ) (params : List (List ℕ)) (s : TplState)
    → is (kind_at s) tk_rparen ≡ false
    → is (kind_at s) tk_eof ≡ false
    → is (kind_at s) tk_name ≡ false
    → is (kind_at s) tk_comma ≡ false
    → params_loop fuel params s ≡ stopped out_of_fuel s
unfolding params_loop tpl_peek tpl_match pure stop ◌>>=◌
params_loop-never zero params s np ne nn nc = refl
params_loop-never (suc fuel) params s np ne nn nc =
    rw np (rw ne (rw nn (rw nc (params_loop-never fuel params s np ne nn nc))))
