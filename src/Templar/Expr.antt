-- ===== src/Templar/Expr.antt =====
-- templar.c: the expressions, evaluated as they are parsed. The calls of `tpl_expr` and `tpl_call_builtin` inside
-- are arguments of `tpl_primary`.
pub mod Tree
pub mod Walk
pub mod Levels
pub mod Operators
pub mod Primary
pub mod Refines
pub mod Source
pub mod Meaning
use crusader_os_v.Base.{
  ℕ, zero, suc, ◌+◌, Bool, true, false, ◌&&◌, ◌||◌, not, List, [], ◌∷◌, Option, none, some, ◌==◌,
  if◌then◌else◌,
}
use crusader_os_v.Base.Int.{ℤ, pos_part, neg_part, is_zero}
use crusader_os_v.Templar.Word.{neg32, add32, sub32, mul32, div32, mod32, lt32, le32}
use crusader_os_v.Templar.Value.{
  TplVal, num, str, nil, tpl_strcmp, tpl_val_to_str, tpl_val_truthy, tpl_val_num, is_str, of_bool,
}
use crusader_os_v.Templar.State.{
  TokKind, tk_name, tk_num, tk_str, tk_eqeq, tk_neq, tk_lt, tk_gt, tk_lte, tk_gte, tk_plus,
  tk_minus, tk_star, tk_slash, tk_lparen, tk_rparen, tk_eof, tk_and, tk_or, tk_not, tk_percent, is,
  TplTok, M, divide_error, out_of_fuel, pure, stop, ◌>>=◌, ◌>>◌, has_error, tpl_peek, tpl_advance,
  tpl_expect,
}
use crusader_os_v.Templar.Vars.{templar_get_var, copy_name, tpl_strcat}

module _ (call : List ℕ → M TplVal) (expr : M TplVal) where
  -- The cases of `tpl_primary`, with itself as an argument.
  unfoldable pub primary_of : M TplVal → TokKind → TplTok → M TplVal
  primary_of primary tk_num t = do tpl_advance; pure (num t.num)
  primary_of primary tk_str t = do tpl_advance; pure (str t.text)
  primary_of primary tk_not t = do tpl_advance; v ← primary; pure (of_bool (not (tpl_val_truthy v)))
  primary_of primary tk_minus t = do tpl_advance; v ← primary; pure (num (neg32 (tpl_val_num v)))
  primary_of primary tk_lparen t = do tpl_advance; v ← expr; tpl_expect tk_rparen; pure v
  primary_of primary tk_name t = do
    name ← copy_name t.text
    tpl_advance
    next ← tpl_peek
    if is next.kind tk_lparen then call name else templar_get_var name
  primary_of primary _ t = do tpl_advance; pure nil

  unfoldable pub tpl_primary : ℕ → M TplVal
  tpl_primary zero = stop out_of_fuel
  tpl_primary (suc fuel) = do
    e ← has_error
    if e then pure nil else (do t ← tpl_peek; primary_of (tpl_primary fuel) t.kind t)

-- The loop of `tpl_term`, `tpl_additive`, `tpl_comparison` and `tpl_expr` behind their first operand: the operators
-- that it goes on for, what they do, and the level below.
module _ (goes_on : TokKind → Bool) (operate : TokKind → TplVal → TplVal → M TplVal)
    (operand : M TplVal) where
  unfoldable pub operators : ℕ → TplVal → M TplVal
  operators zero left = stop out_of_fuel
  operators (suc fuel) left = do
    e ← has_error
    if e then pure left else (do
      t ← tpl_peek
      if goes_on t.kind
          then (do
            tpl_advance
            right ← operand
            left ← operate t.kind left right
            operators fuel left)
          else pure left)

-- `b?a/b:0`; the processor refuses the division of the lowest value by -1.
abbrev pub quotient : (ℕ → ℕ → Option ℕ) → ℕ → ℕ → M TplVal
quotient divide a b =
    if b == 0
    then pure (num 0)
    else elim (divide a b) [ some q ↦ pure (num q) | none ↦ stop divide_error ]

abbrev pub is_factor : TokKind → Bool
is_factor k = is k tk_star || is k tk_slash || is k tk_percent

unfoldable pub factor : TokKind → TplVal → TplVal → M TplVal
factor tk_star left right = pure (num (mul32 (tpl_val_num left) (tpl_val_num right)))
factor tk_slash left right = quotient div32 (tpl_val_num left) (tpl_val_num right)
factor _ left right = quotient mod32 (tpl_val_num left) (tpl_val_num right)

unfoldable pub tpl_term : M TplVal → ℕ → M TplVal
tpl_term primary fuel = do left ← primary; operators is_factor factor primary fuel left

abbrev pub is_sum : TokKind → Bool
is_sum k = is k tk_plus || is k tk_minus

unfoldable pub sum : TokKind → TplVal → TplVal → M TplVal
sum tk_plus left right =
    if is_str left || is_str right
    then (do s ← tpl_strcat (tpl_val_to_str left) (tpl_val_to_str right); pure (str s))
    else pure (num (add32 (tpl_val_num left) (tpl_val_num right)))
sum _ left right = pure (num (sub32 (tpl_val_num left) (tpl_val_num right)))

unfoldable pub tpl_additive : M TplVal → ℕ → M TplVal
tpl_additive term fuel = do left ← term; operators is_sum sum term fuel left

abbrev pub is_comparison : TokKind → Bool
is_comparison k =
    is k tk_eqeq || is k tk_neq || is k tk_lt || is k tk_gt || is k tk_lte || is k tk_gte

-- The operators on what `tpl_strcmp` returns, and on two numbers.
unfoldable pub compare_text : TokKind → ℤ → Bool
compare_text tk_eqeq c = is_zero c
compare_text tk_neq c = not (is_zero c)
compare_text tk_lt c = not (neg_part c == 0)
compare_text tk_gt c = not (pos_part c == 0)
compare_text tk_lte c = pos_part c == 0
compare_text _ c = neg_part c == 0

unfoldable pub compare_num : TokKind → ℕ → ℕ → Bool
compare_num tk_eqeq a b = a == b
compare_num tk_neq a b = not (a == b)
compare_num tk_lt a b = lt32 a b
compare_num tk_gt a b = lt32 b a
compare_num tk_lte a b = le32 a b
compare_num _ a b = le32 b a

unfoldable pub comparison : TokKind → TplVal → TplVal → M TplVal
comparison k left right =
    if is_str left || is_str right
    then pure (of_bool (compare_text k (tpl_strcmp (tpl_val_to_str left) (tpl_val_to_str right))))
    else pure (of_bool (compare_num k (tpl_val_num left) (tpl_val_num right)))

unfoldable pub tpl_comparison : M TplVal → ℕ → M TplVal
tpl_comparison additive fuel = do
  left ← additive
  operators is_comparison comparison additive fuel left

abbrev pub is_logic : TokKind → Bool
is_logic k = is k tk_and || is k tk_or

-- Both operands are evaluated first.
unfoldable pub logic : TokKind → TplVal → TplVal → M TplVal
logic tk_and left right = pure (of_bool (tpl_val_truthy left && tpl_val_truthy right))
logic _ left right = pure (of_bool (tpl_val_truthy left || tpl_val_truthy right))

-- `call` is `tpl_call_builtin` over the `tpl_expr` of its arguments.
module _ (call : M TplVal → ℕ → List ℕ → M TplVal) where
  -- The levels over an inner `tpl_expr`, that of the arguments and the parentheses.
  unfoldable pub expr_over : M TplVal → ℕ → M TplVal
  expr_over inner fuel =
      let primary = tpl_primary (call inner fuel) inner fuel in
      let additive = tpl_additive (tpl_term primary fuel) fuel in
      let compare = tpl_comparison additive fuel in
      do left ← compare; operators is_logic logic compare fuel left

  -- The fuel bounds the depth of the parentheses and the rounds of each loop.
  unfoldable pub expr_with : ℕ → M TplVal
  expr_with zero = stop out_of_fuel
  expr_with (suc fuel) = expr_over (expr_with fuel) fuel
