-- ===== src/Templar/Sound/Loops.antt =====
-- templar.c: the statements with blocks, the loops, and a run of the interpreter keep the state sound.
use crusader_os_v.Base.{ℕ, zero, suc, ◌^◌, ◌<◌, List, length}
use crusader_os_v.Templar.Word.{add32}
use crusader_os_v.Templar.Value.{TplVal, num, tpl_val_num}
use crusader_os_v.Templar.State.{TplTok, M}
use crusader_os_v.Templar.Exec.{
  TplExec, none_exec, else_part, block_and_brace, if_stmt, while_loop, while_stmt, leave_body,
  end_repeat, repeat_loop, repeat_stmt, end_for, for_loop, for_error, for_range_part, for_stmt,
}
use crusader_os_v.Templar.Sound.{
  ValFits, num_fits, nil_fits, NameFits, Keeps, Keeps-pure, Keeps-stop, ◌⟫◌, Keeps-either,
}
use crusader_os_v.Templar.Sound.Numbers.{add32-lt, tpl_val_num-lt}
use crusader_os_v.Templar.Sound.Steps.{
  AreTokens, Keeps-has_error, Keeps-tpl_error, Keeps-get_pos, Keeps-set_pos, Keeps-peek,
  Keeps-advance, Keeps-skip_newlines, Keeps-expect,
}
use crusader_os_v.Templar.Sound.Vars.{Keeps-set_var, Keeps-copy_name}
use crusader_os_v.Templar.Sound.Stmts.{
  ExecFits, Keeps-skip_block, Keeps-open_block, Keeps-none, Keeps-step_part,
}

module _ {toks : List TplTok} (lexed : AreTokens toks) {expr : M TplVal} {block : M TplExec}
    (exprs : Keeps toks ValFits expr) (blocks : Keeps toks ExecFits block) where
  pub Keeps-else_part :
      {body : M TplExec} (r : TplExec)
      → Keeps toks ExecFits body
      → ExecFits r
      → Keeps toks ExecFits (else_part body r)
  unfolding else_part
  Keeps-else_part r k f = Keeps-skip_newlines lexed ⟫ λ _ _. Keeps-peek lexed ⟫ λ t _.
      Keeps-either _ (Keeps-advance lexed ⟫ λ _ _. Keeps-open_block lexed ⟫ λ _ _. k)
        (Keeps-pure r f)

  pub Keeps-block_and_brace : Keeps toks ExecFits (block_and_brace block)
  unfolding block_and_brace
  Keeps-block_and_brace = blocks ⟫ λ r f. Keeps-expect lexed _ ⟫ λ _ _. Keeps-pure r f

  pub Keeps-if_stmt : Keeps toks ExecFits (if_stmt expr block)
  unfolding if_stmt
  Keeps-if_stmt = Keeps-advance lexed ⟫ λ _ _. exprs ⟫ λ cond _. Keeps-open_block lexed ⟫ λ _ _.
      Keeps-either _
        (Keeps-block_and_brace ⟫ λ r f.
          Keeps-else_part r (Keeps-skip_block lexed ⟫ λ _ _. Keeps-pure r f) f)
        (Keeps-skip_block lexed ⟫ λ _ _. Keeps-else_part none_exec Keeps-block_and_brace nil_fits)

  pub Keeps-while_loop :
      (cond_pos : ℕ)
      → cond_pos < length toks
      → (fuel : ℕ) → Keeps toks ExecFits (while_loop expr block cond_pos fuel)
  unfolding while_loop
  Keeps-while_loop cond_pos h zero = Keeps-stop _
  Keeps-while_loop cond_pos h (suc fuel) = Keeps-set_pos cond_pos h ⟫ λ _ _. exprs ⟫ λ cond _.
      Keeps-open_block lexed ⟫ λ _ _.
      Keeps-either _
        (blocks ⟫ λ r f. Keeps-expect lexed _ ⟫ λ _ _. Keeps-has_error ⟫ λ _ _.
          Keeps-either _ (Keeps-none lexed) (
            Keeps-either _ (Keeps-pure r f)
              (Keeps-either _ (Keeps-none lexed) (Keeps-while_loop cond_pos h fuel))))
        (Keeps-skip_block lexed ⟫ λ _ _. Keeps-none lexed)

  pub Keeps-while_stmt : (fuel : ℕ) → Keeps toks ExecFits (while_stmt expr block fuel)
  unfolding while_stmt
  Keeps-while_stmt fuel =
      Keeps-advance lexed ⟫ λ _ _. Keeps-get_pos ⟫ λ p h. Keeps-while_loop p h fuel

  pub Keeps-leave_body :
      (body_start : ℕ) (r : TplExec)
      → body_start < length toks
      → ExecFits r
      → Keeps toks ExecFits (leave_body body_start r)
  unfolding leave_body
  Keeps-leave_body p r h f =
      Keeps-set_pos p h ⟫ λ _ _. Keeps-skip_block lexed ⟫ λ _ _. Keeps-pure r f

  pub Keeps-end_repeat : (cnt : ℕ) → Keeps toks ExecFits (end_repeat cnt)
  unfolding end_repeat
  Keeps-end_repeat cnt = Keeps-has_error ⟫ λ _ _.
      Keeps-either _ (Keeps-skip_block lexed ⟫ λ _ _. Keeps-none lexed)
        (Keeps-expect lexed _ ⟫ λ _ _. Keeps-none lexed)

  pub Keeps-repeat_loop :
      (cnt body_start : ℕ)
      → body_start < length toks
      → (rounds : ℕ) → Keeps toks ExecFits (repeat_loop block cnt body_start rounds)
  unfolding repeat_loop
  Keeps-repeat_loop cnt p h zero = Keeps-end_repeat cnt
  Keeps-repeat_loop cnt p h (suc rounds) = Keeps-set_pos p h ⟫ λ _ _. blocks ⟫ λ r f.
      Keeps-has_error ⟫ λ _ _.
      Keeps-either _ (Keeps-set_pos p h ⟫ λ _ _. blocks ⟫ λ _ _. Keeps-end_repeat cnt) (
        Keeps-either _ (Keeps-leave_body p r h f)
          (Keeps-either _ (Keeps-end_repeat cnt) (Keeps-repeat_loop cnt p h rounds)))

  pub Keeps-repeat_stmt : Keeps toks ExecFits (repeat_stmt expr block)
  unfolding repeat_stmt
  Keeps-repeat_stmt = Keeps-advance lexed ⟫ λ _ _. exprs ⟫ λ cnt_v _.
      Keeps-open_block lexed ⟫ λ _ _. Keeps-get_pos ⟫ λ p h. Keeps-repeat_loop _ p h _

  pub Keeps-end_for : (p : ℕ) → p < length toks → Keeps toks ExecFits (end_for p)
  unfolding end_for
  Keeps-end_for p h = Keeps-has_error ⟫ λ _ _.
      Keeps-either _ (Keeps-none lexed) (Keeps-leave_body p none_exec h nil_fits)

  pub Keeps-for_loop :
      (iter_name : List ℕ) (step to p i fuel : ℕ)
      → NameFits iter_name
      → p < length toks
      → i < 2 ^ 32
      → Keeps toks ExecFits (for_loop block iter_name step to p i fuel)
  unfolding for_loop
  Keeps-for_loop name step to p i zero n h l = Keeps-stop _
  Keeps-for_loop name step to p i (suc fuel) n h l =
      Keeps-either _
        (Keeps-set_var name (num i) n (num_fits l) ⟫ λ _ _. Keeps-set_pos p h ⟫ λ _ _.
          blocks ⟫ λ r f. Keeps-has_error ⟫ λ _ _. Keeps-either _ (Keeps-end_for p h) (
            Keeps-either _ (Keeps-leave_body p r h f) (
              Keeps-either _ (Keeps-end_for p h)
                (Keeps-for_loop name step to p (add32 i step) fuel n h (add32-lt i step)))))
        (Keeps-end_for p h)

  pub Keeps-for_error : (msg : List ℕ) → Keeps toks ExecFits (for_error msg)
  unfolding for_error
  Keeps-for_error msg = Keeps-tpl_error msg ⟫ λ _ _. Keeps-none lexed

  pub Keeps-for_range_part :
      (iter_name : List ℕ) (fuel : ℕ)
      → NameFits iter_name
      → Keeps toks ExecFits (for_range_part expr block iter_name fuel)
  unfolding for_range_part
  Keeps-for_range_part name fuel n = exprs ⟫ λ from_v f. Keeps-peek lexed ⟫ λ t _.
      Keeps-either _
        (Keeps-advance lexed ⟫ λ _ _. exprs ⟫ λ to_v _. Keeps-step_part lexed exprs ⟫ λ step _.
          Keeps-open_block lexed ⟫ λ _ _. Keeps-get_pos ⟫ λ p h.
          Keeps-for_loop name step (tpl_val_num to_v) p (tpl_val_num from_v) fuel n h
            (tpl_val_num-lt from_v f))
        (Keeps-for_error _)

  pub Keeps-for_stmt : (fuel : ℕ) → Keeps toks ExecFits (for_stmt expr block fuel)
  unfolding for_stmt
  Keeps-for_stmt fuel = Keeps-advance lexed ⟫ λ _ _. Keeps-peek lexed ⟫ λ vt _.
      Keeps-either _
        (Keeps-copy_name _ ⟫ λ name n. Keeps-advance lexed ⟫ λ _ _. Keeps-peek lexed ⟫ λ t _.
          Keeps-either _ (Keeps-advance lexed ⟫ λ _ _. Keeps-for_range_part name fuel n)
            (Keeps-for_error _))
        (Keeps-for_error _)
