-- ===== src/Templar/Builtin/Args.antt =====
-- templar.c: how the builtin functions read their arguments.
use crusader_os_v.Base.{ℕ, zero, suc, ◌||◌, List, [], if◌then◌else◌}
use crusader_os_v.Templar.Value.{TplVal, tpl_val_to_str}
use crusader_os_v.Templar.Vars.{tpl_strcat}
use crusader_os_v.Templar.State.{
  tk_rparen, tk_comma, tk_eof, is, M, out_of_fuel, pure, stop, ◌>>=◌, ◌>>◌, tpl_peek, tpl_advance,
  tpl_expect, tpl_match,
}

-- `TplVal v=tpl_expr(s); tpl_match(s,TK_COMMA);`, and the last argument.
unfoldable pub argument : M TplVal → M TplVal
argument expr = do v ← expr; tpl_match tk_comma; pure v

unfoldable pub last_argument : M TplVal → M TplVal
last_argument expr = do v ← expr; tpl_expect tk_rparen; pure v

-- The loop of `print`, `print_raw` and `concat`: the texts of all the arguments, in a buffer.
unfoldable pub texts : M TplVal → ℕ → List ℕ → M (List ℕ)
texts expr zero buf = stop out_of_fuel
texts expr (suc fuel) buf = do
  t ← tpl_peek
  if is t.kind tk_rparen || is t.kind tk_eof then pure buf else (do
    v ← expr
    buf ← tpl_strcat buf (tpl_val_to_str v)
    next ← tpl_peek
    if is next.kind tk_comma then (do tpl_advance; texts expr fuel buf) else texts expr fuel buf)

-- The loop and the closing parenthesis.
unfoldable pub all_texts : M TplVal → ℕ → M (List ℕ)
all_texts expr fuel = do buf ← texts expr fuel []; tpl_expect tk_rparen; pure buf
