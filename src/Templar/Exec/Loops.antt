-- ===== src/Templar/Exec/Loops.antt =====
-- templar.c: `while`, `repeat` and `for`. A loop goes back to a position among the tokens.
use crusader_os_v.Base.{ℕ, zero, suc, Bool, ◌||◌, List, ◌==◌, if◌then◌else◌, codes}
use crusader_os_v.Templar.Word.{is_negative, add32, lt32, le32}
use crusader_os_v.Templar.Value.{TplVal, num, tpl_val_truthy, tpl_val_num}
use crusader_os_v.Templar.State.{
  tk_name, tk_rbrace, is, M, out_of_fuel, pure, stop, ◌>>=◌, ◌>>◌, has_error, tpl_error, tpl_peek,
  get_pos, set_pos, tpl_advance, tpl_expect,
}
use crusader_os_v.Templar.Vars.{templar_set_var, copy_name}
use crusader_os_v.Templar.Exec.Flow.{
  TplExec, ret_return, ret_break, none_exec, is_flag, skip_block, open_block, is_word,
}

-- Behind the body from its start on, with a result.
unfoldable pub leave_body : ℕ → TplExec → M TplExec
leave_body body_start r = do set_pos body_start; skip_block; pure r

-- What is behind the loop of `repeat`.
unfoldable pub end_repeat : ℕ → M TplExec
end_repeat cnt = do
  e ← has_error
  if cnt == 0 || is_negative cnt || e
      then (do skip_block; pure none_exec)
      else (do tpl_expect tk_rbrace; pure none_exec)

-- What is behind the loop of `for`.
unfoldable pub end_for : ℕ → M TplExec
end_for body_start = do e ← has_error; if e then pure none_exec else leave_body body_start none_exec

-- `step>0?i<=to:i>=to`
abbrev pub goes_on : ℕ → ℕ → ℕ → Bool
goes_on step to i = if lt32 0 step then le32 i to else le32 to i

unfoldable pub for_error : List ℕ → M TplExec
for_error msg = do tpl_error msg; pure none_exec

module _ (expr : M TplVal) where
  -- The step, 1 if there is none or it is 0.
  unfoldable pub step_part : M ℕ
  step_part = do
    t ← tpl_peek
    if is_word t (codes "step")
        then (do tpl_advance; sv ← expr; pure (if tpl_val_num sv == 0 then 1 else tpl_val_num sv))
        else pure 1

module _ (block : M TplExec) where
  -- So many rounds are left; `break` runs the body once more and then leaves.
  unfoldable pub repeat_loop : ℕ → ℕ → ℕ → M TplExec
  repeat_loop cnt body_start zero = end_repeat cnt
  repeat_loop cnt body_start (suc rounds) = do
    set_pos body_start
    r ← block
    e ← has_error
    if is_flag r ret_break
        then (do set_pos body_start; block; end_repeat cnt)
        else if is_flag r ret_return
        then leave_body body_start r
        else if e
        then end_repeat cnt
        else repeat_loop cnt body_start rounds

  unfoldable pub for_loop : List ℕ → ℕ → ℕ → ℕ → ℕ → ℕ → M TplExec
  for_loop iter_name step to body_start i zero = stop out_of_fuel
  for_loop iter_name step to body_start i (suc fuel) =
      if goes_on step to i
      then (do
        templar_set_var iter_name (num i)
        set_pos body_start
        r ← block
        e ← has_error
        if is_flag r ret_break
            then end_for body_start
            else if is_flag r ret_return
            then leave_body body_start r
            else if e
            then end_for body_start
            else for_loop iter_name step to body_start (add32 i step) fuel)
      else end_for body_start

module _ (expr : M TplVal) (block : M TplExec) where
  unfoldable pub while_loop : ℕ → ℕ → M TplExec
  while_loop cond_pos zero = stop out_of_fuel
  while_loop cond_pos (suc fuel) = do
    set_pos cond_pos
    cond ← expr
    open_block
    if tpl_val_truthy cond
        then (do
          r ← block
          tpl_expect tk_rbrace
          e ← has_error
          if is_flag r ret_break
              then pure none_exec
              else if is_flag r ret_return
              then pure r
              else if e
              then pure none_exec
              else while_loop cond_pos fuel)
        else (do skip_block; pure none_exec)

  unfoldable pub while_stmt : ℕ → M TplExec
  while_stmt fuel = do tpl_advance; cond_pos ← get_pos; while_loop cond_pos fuel

  unfoldable pub repeat_stmt : M TplExec
  repeat_stmt = do
    tpl_advance
    cnt_v ← expr
    let cnt = tpl_val_num cnt_v
    open_block
    body_start ← get_pos
    repeat_loop block cnt body_start (if is_negative cnt then 0 else cnt)

  -- Behind `in`.
  unfoldable pub for_range_part : List ℕ → ℕ → M TplExec
  for_range_part iter_name fuel = do
    from_v ← expr
    t ← tpl_peek
    if is_word t (codes "to")
        then (do
          tpl_advance
          to_v ← expr
          step ← step_part expr
          open_block
          body_start ← get_pos
          for_loop block iter_name step (tpl_val_num to_v) body_start (tpl_val_num from_v) fuel)
        else for_error (codes "for: expected 'to'")

  unfoldable pub for_stmt : ℕ → M TplExec
  for_stmt fuel = do
    tpl_advance
    vt ← tpl_peek
    if is vt.kind tk_name
        then (do
          iter_name ← copy_name vt.text
          tpl_advance
          t ← tpl_peek
          if is_word t (codes "in")
              then (do tpl_advance; for_range_part iter_name fuel)
              else for_error (codes "for: expected 'in'"))
        else for_error (codes "for: expected var name")
