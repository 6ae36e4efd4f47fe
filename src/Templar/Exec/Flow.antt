-- ===== src/Templar/Exec/Flow.antt =====
-- templar.c: the simple statements and the choice of a branch.
use crusader_os_v.Base.{ℕ, zero, suc, Bool, ◌&&◌, ◌||◌, List, [], ◌∷◌, ◌==◌, if◌then◌else◌, codes}
use crusader_os_v.Templar.Value.{TplVal, nil, same, tpl_val_truthy}
use crusader_os_v.Templar.State.{
  tk_name, tk_eq, tk_lbrace, tk_rbrace, tk_colon, tk_newline, tk_eof, is, TplTok, M, pure, ◌>>=◌,
  ◌>>◌, tpl_error, tpl_peek, tpl_advance, advance_by, tpl_skip_newlines, tpl_expect,
}
use crusader_os_v.Templar.Vars.{templar_set_var, copy_name}

-- `TPL_RET_NONE` and the others, with their numbers.
pub data Flag : Type 0 where
  ret_none ret_return ret_break ret_cont : Flag

abbrev pub flag_code : Flag → ℕ
flag_code ret_none = 0
flag_code ret_return = 1
flag_code ret_break = 2
flag_code ret_cont = 3

pub record TplExec : Type 0 where
  pub flag : Flag
  pub val : TplVal

abbrev pub flagged : Flag → TplExec
flagged f = record { flag = f; val = nil }

abbrev pub none_exec : TplExec
none_exec = flagged ret_none

abbrev pub is_flag : TplExec → Flag → Bool
is_flag r f = flag_code r.flag == flag_code f

-- `int depth=1; while (depth>0 && ...)`: how many tokens the loop passes, at that depth.
unfoldable pub skip_depth : ℕ → List TplTok → ℕ
skip_depth zero ts = 0
skip_depth (suc depth) [] = 0
skip_depth (suc depth) (t ∷ ts) =
    let deeper = skip_depth (suc (suc depth)) ts in
    let higher = skip_depth depth ts in
    let level = skip_depth (suc depth) ts in
    if is t.kind tk_eof
    then 0
    else suc (if is t.kind tk_lbrace then deeper else if is t.kind tk_rbrace then higher else level)

-- `break` and `continue`.
unfoldable pub flag_stmt : Flag → M TplExec
flag_stmt f = do tpl_advance; pure (flagged f)

-- Behind the brace that closes the block.
unfoldable pub skip_block : M (Unit {0})
skip_block = advance_by (skip_depth 1)

-- The colon and the brace in front of a block.
unfoldable pub open_block : M (Unit {0})
open_block = do
  tpl_skip_newlines
  tpl_expect tk_colon
  tpl_skip_newlines
  tpl_expect tk_lbrace
  pure tt

unfoldable pub is_word : TplTok → List ℕ → Bool
is_word t word = is t.kind tk_name && same t.text word

unfoldable pub set_to : List ℕ → TplVal → M TplExec
set_to vname val = do templar_set_var vname val; pure none_exec

module _ (expr : M TplVal) where
  unfoldable pub var_stmt : M TplExec
  var_stmt = do
    tpl_advance
    name_tok ← tpl_peek
    if is name_tok.kind tk_name
        then (do
          vname ← copy_name name_tok.text
          tpl_advance
          t ← tpl_peek
          if is t.kind tk_eq
              then (do tpl_advance; val ← expr; set_to vname val)
              else set_to vname nil)
        else (do tpl_error (codes "expected var name"); pure none_exec)

  -- `t` is the name, and an equals sign is behind it.
  unfoldable pub assign_stmt : TplTok → M TplExec
  assign_stmt t = do
    vname ← copy_name t.text
    tpl_advance
    tpl_advance
    val ← expr
    set_to vname val

  unfoldable pub return_stmt : M TplExec
  return_stmt = do
    tpl_advance
    t ← tpl_peek
    if is t.kind tk_newline || is t.kind tk_rbrace || is t.kind tk_eof
        then pure (flagged ret_return)
        else (do v ← expr; pure (record { flag = ret_return; val = v }))

  unfoldable pub expr_stmt : M TplExec
  expr_stmt = do expr; pure none_exec

-- `else` behind a block: what is done with its block.
unfoldable pub else_part : M TplExec → TplExec → M TplExec
else_part body otherwise = do
  tpl_skip_newlines
  t ← tpl_peek
  if is_word t (codes "else") then (do tpl_advance; open_block; body) else pure otherwise

unfoldable pub block_and_brace : M TplExec → M TplExec
block_and_brace block = do r ← block; tpl_expect tk_rbrace; pure r

module _ (expr : M TplVal) (block : M TplExec) where
  unfoldable pub if_stmt : M TplExec
  if_stmt = do
    tpl_advance
    cond ← expr
    open_block
    if tpl_val_truthy cond
        then (do r ← block_and_brace block; else_part (do skip_block; pure r) r)
        else (do skip_block; else_part (block_and_brace block) none_exec)
