-- ===== src/Templar/Exec/Func.antt =====
-- templar.c: the statement `fn`, which keeps the name, the parameters and the place of a function.
use crusader_os_v.Base.{
  ℕ, zero, suc, ◌||◌, List, [], ◌∷◌, ◌++◌, if◌then◌else◌, codes, length, take, ltb, leb,
}
use crusader_os_v.Templar.State.{
  tk_name, tk_lparen, tk_rparen, tk_comma, tk_eof, is, TplFunc, M, done, overrun, out_of_fuel, pure,
  stop, ◌>>=◌, ◌>>◌, tpl_error, tpl_peek, get_pos, tpl_advance, tpl_expect, tpl_match, max_funcs,
  max_params,
}
use crusader_os_v.Templar.Vars.{copy_name}
use crusader_os_v.Templar.Exec.Flow.{TplExec, none_exec, skip_block, open_block}

-- One more parameter; the source writes it without a test that there is room.
unfoldable pub add_param : List (List ℕ) → List ℕ → M (List (List ℕ))
add_param params name =
    if ltb (length params) max_params then pure (params ++ name ∷ []) else stop overrun

-- `while(tpl_peek(s)->kind!=TK_RPAREN&&tpl_peek(s)->kind!=TK_EOF)`
unfoldable pub params_loop : ℕ → List (List ℕ) → M (List (List ℕ))
params_loop zero params = stop out_of_fuel
params_loop (suc fuel) params = do
  pn ← tpl_peek
  if is pn.kind tk_rparen || is pn.kind tk_eof
      then pure params
      else if is pn.kind tk_name
      then (do
        name ← copy_name pn.text
        params ← add_param params name
        tpl_advance
        tpl_match tk_comma
        params_loop fuel params)
      else (do tpl_match tk_comma; params_loop fuel params)

unfoldable pub func_count : M ℕ
func_count s = done (length s.funcs) s

-- `s->funcs[fidx]` is the new function, and the last one.
unfoldable pub add_func : ℕ → TplFunc → M (Unit {0})
add_func fidx f s = done tt (record s { funcs = take fidx s.funcs ++ f ∷ [] })

unfoldable pub fn_stmt : ℕ → M TplExec
fn_stmt fuel = do
  tpl_advance
  fname ← tpl_peek
  fidx ← func_count
  if is fname.kind tk_name
      then (if leb max_funcs fidx
          then (do tpl_error (codes "too many functions"); pure none_exec)
          else (do
            name ← copy_name fname.text
            tpl_advance
            tpl_expect tk_lparen
            params ← params_loop fuel []
            tpl_expect tk_rparen
            open_block
            line ← get_pos
            add_func fidx (record { name = name; line = line; params = params })
            skip_block
            pure none_exec))
      else (do tpl_error (codes "fn: expected name"); pure none_exec)
