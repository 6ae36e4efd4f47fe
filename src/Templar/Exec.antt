-- ===== src/Templar/Exec.antt =====
-- templar.c: statements, blocks, and running a program.
mod Flow
mod Loops
mod Func
unfoldable pub use Flow.*
unfoldable pub use Loops.*
unfoldable pub use Func.*
use crusader_os_v.Base.{
  ℕ, zero, suc, ◌+◌, ◌-◌, Bool, true, false, ◌&&◌, ◌||◌, not, List, [], ◌∷◌, ◌++◌, if◌then◌else◌,
  codes, length, leb, take, drop,
}
use crusader_os_v.Text.{c_string}
use crusader_os_v.Templar.Value.{TplVal, nil, same}
use crusader_os_v.Templar.State.{
  TokKind, tk_name, tk_eq, tk_rbrace, tk_newline, tk_eof, is, TplTok, TplState, klog, M, Run, done,
  out_of_fuel, pure, stop, ◌>>=◌, ◌>>◌, has_error, tpl_error, emit, tpl_peek, peek_next,
  tpl_advance, tpl_skip_newlines, max_src,
}
use crusader_os_v.Templar.Vars.{templar_set_var, copy_name}
use crusader_os_v.Templar.Lexer.{tpl_lexer}
use crusader_os_v.Templar.Expr.{expr_with}
use crusader_os_v.Templar.Builtin.{tpl_call_builtin}

-- `tpl_expr` with its builtin functions.
abbrev pub tpl_expr : ℕ → M TplVal
tpl_expr = expr_with tpl_call_builtin

module _ (expr : M TplVal) (block : M TplExec) where
  -- The statements that start with a name, by the tests in their order; `next` is the token behind the name.
  unfoldable pub name_stmt : ℕ → TplTok → TplTok → M TplExec
  name_stmt fuel t next =
      if same t.text (codes "var")
      then var_stmt expr
      else if is next.kind tk_eq
      then assign_stmt expr t
      else if same t.text (codes "if")
      then if_stmt expr block
      else if same t.text (codes "while")
      then while_stmt expr block fuel
      else if same t.text (codes "repeat")
      then repeat_stmt expr block
      else if same t.text (codes "for")
      then for_stmt expr block fuel
      else if same t.text (codes "return")
      then return_stmt expr
      else if same t.text (codes "break")
      then flag_stmt ret_break
      else if same t.text (codes "continue")
      then flag_stmt ret_cont
      else if same t.text (codes "fn")
      then fn_stmt fuel
      else expr_stmt expr

  unfoldable pub tpl_exec_stmt_ex : ℕ → M TplExec
  tpl_exec_stmt_ex fuel = do
    e ← has_error
    if e then pure none_exec else (do
      tpl_skip_newlines
      t ← tpl_peek
      if is t.kind tk_eof
          then pure none_exec
          else if is t.kind tk_name
          then (do next ← peek_next; name_stmt fuel t next)
          else expr_stmt expr)

-- The loop of a block, over its statements.
unfoldable pub block_loop : M TplExec → ℕ → M TplExec
block_loop stmt zero = stop out_of_fuel
block_loop stmt (suc fuel) = do
  e ← has_error
  if e then pure none_exec else (do
    tpl_skip_newlines
    t ← tpl_peek
    if is t.kind tk_eof || is t.kind tk_rbrace
        then pure none_exec
        else (do r ← stmt; if is_flag r ret_none then block_loop stmt fuel else pure r))

-- The fuel bounds the depth of the blocks and the rounds of each loop.
unfoldable pub tpl_exec_block_ex : ℕ → M TplExec
tpl_exec_block_ex zero = stop out_of_fuel
tpl_exec_block_ex (suc fuel) =
    block_loop (tpl_exec_stmt_ex (tpl_expr fuel) (tpl_exec_block_ex fuel) fuel) fuel

unfoldable pub begin_run : M (Unit {0})
begin_run s = done tt (record s { tok_pos = 0; error = false; error_msg = [] })

unfoldable pub error_text : M (List ℕ)
error_text s = done s.error_msg s

-- What `templar_run` does behind the lexer.
unfoldable pub run_tokens : ℕ → M Bool
run_tokens fuel = do
  tpl_exec_block_ex fuel
  e ← has_error
  if e
      then (do
        msg ← error_text
        emit (klog (codes "Templar error: "))
        emit (klog msg)
        emit (klog (10 ∷ []))
        pure false)
      else pure true

-- Whether the result is 0; else it is -1.
unfoldable pub templar_run : ℕ → M Bool
templar_run fuel = do begin_run; tpl_lexer; run_tokens fuel

-- The program goes to `src` up to its NUL, cut to the size of the array. Behind it stand a NUL and what was there
-- before.
unfoldable pub load_source : List ℕ → M (Unit {0})
load_source code s =
    let text = take (max_src - 1) (c_string code) in
    done tt (record s { src = text ++ 0 ∷ drop (length text + 1) s.src })

unfoldable pub templar_run_string : ℕ → List ℕ → M Bool
templar_run_string fuel code = do load_source code; templar_run fuel
