-- ===== src/Templar/Sound/Blocks.antt =====
-- templar.c: the statement `fn`, the choice of a statement, blocks and runs keep the state sound.
use Prim.Native.String.{String}
use crusader_os_v.Base.{
  codes, ℕ, zero, suc, ◌<◌, ◌≤◌, ◌≡◌, false, List, [], ◌∷◌, arith, if◌then◌else◌, length, take, leb,
}
use crusader_os_v.Templar.Value.{same, TplVal}
use crusader_os_v.Templar.State.{TplTok, TplFunc, M, tk_eq, is, max_funcs}
use crusader_os_v.Templar.Exec.{
  TplExec, Flag, ret_break, ret_cont, flag_stmt, flagged, func_count, add_func, fn_stmt, name_stmt,
  tpl_exec_stmt_ex, block_loop, tpl_exec_block_ex, tpl_expr,
}
use crusader_os_v.Templar.Sound.{
  ValFits, nil_fits, FuncFits, All, Keeps, Any, Keeps-pure, Keeps-stop, ◌⟫◌, Keeps-if, Keeps-either,
  finishes,
}
use crusader_os_v.Templar.Sound.Steps.{
  AreTokens, Keeps-has_error, Keeps-tpl_error, Keeps-get_pos, Keeps-peek, Keeps-peek_next,
  Keeps-advance, Keeps-skip_newlines, Keeps-expect,
}
use crusader_os_v.Templar.Sound.Vars.{All-snoc, length-snoc, Keeps-copy_name}
use crusader_os_v.Templar.Sound.Exprs.{Keeps-expr}
use crusader_os_v.Templar.Sound.Builtins.{Keeps-call_builtin}
use crusader_os_v.Templar.Sound.Stmts.{
  ExecFits, Keeps-skip_block, Keeps-open_block, Keeps-none, Keeps-params_loop, Keeps-var_stmt,
  Keeps-assign_stmt, Keeps-return_stmt, Keeps-expr_stmt,
}
use crusader_os_v.Templar.Sound.Loops.{
  Keeps-if_stmt, Keeps-while_stmt, Keeps-repeat_stmt, Keeps-for_stmt,
}

length-take : (n : ℕ) (fs : List TplFunc) → length (take n fs) ≤ n
length-take zero fs = omega arith
length-take (suc n) [] = omega arith
length-take (suc n) (f ∷ fs) = omega (arith, length-take n fs)

All-take : (P : TplFunc → Type 0) (n : ℕ) (fs : List TplFunc) → All P fs → All P (take n fs)
All-take P zero fs h = tt
All-take P (suc n) [] h = tt
All-take P (suc n) (f ∷ fs) (h, hs) = (h, All-take P n fs hs)

module _ {toks : List TplTok} where
  Keeps-func_count : Keeps toks Any func_count
  unfolding func_count
  Keeps-func_count = record { at = λ s i. finishes tt i }

  Keeps-add_func :
      (fidx : ℕ) (f : TplFunc) → fidx < max_funcs → FuncFits f → Keeps toks Any (add_func fidx f)
  unfolding add_func
  Keeps-add_func fidx f h k = record {
    at = λ s i. finishes tt (record {
      same_tokens = i.same_tokens;
      in_tokens = i.in_tokens;
      var_count = i.var_count;
      vars_fit = i.vars_fit;
      func_count = omega (arith, length-take fidx s.funcs, length-snoc (take fidx s.funcs) f);
      funcs_fit =
          All-snoc FuncFits (take fidx s.funcs) f (All-take FuncFits fidx s.funcs i.funcs_fit) k;
    });
  }

not_leb : (a b : ℕ) → leb a b ≡ false → b < a
not_leb a b h = ground arith

module _ {toks : List TplTok} (lexed : AreTokens toks) where
  Keeps-flag_stmt : (f : Flag) → Keeps toks ExecFits (flag_stmt f)
  unfolding flag_stmt
  Keeps-flag_stmt f = Keeps-advance lexed ⟫ λ _ _. Keeps-pure (flagged f) nil_fits

  Keeps-fn_stmt : (fuel : ℕ) → Keeps toks ExecFits (fn_stmt fuel)
  unfolding fn_stmt
  Keeps-fn_stmt fuel = Keeps-advance lexed ⟫ λ _ _. Keeps-peek lexed ⟫ λ fname _.
      Keeps-func_count ⟫ λ fidx _.
      Keeps-either _
        (Keeps-if _ (λ _. Keeps-tpl_error _ ⟫ λ _ _. Keeps-none lexed)
          (λ room. Keeps-copy_name _ ⟫ λ name n. Keeps-advance lexed ⟫ λ _ _.
            Keeps-expect lexed _ ⟫ λ _ _.
            Keeps-params_loop lexed fuel [] (omega arith, tt) ⟫ λ params f.
            Keeps-expect lexed _ ⟫ λ _ _. Keeps-open_block lexed ⟫ λ _ _. Keeps-get_pos ⟫ λ p _.
            Keeps-add_func fidx _ (not_leb max_funcs fidx room)
              (record { name_fits = n; params_fit = f })
            ⟫ λ _ _. Keeps-skip_block lexed ⟫ λ _ _. Keeps-none lexed))
        (Keeps-tpl_error _ ⟫ λ _ _. Keeps-none lexed)

module _ {toks : List TplTok} (lexed : AreTokens toks) {expr : M TplVal} {block : M TplExec}
    (exprs : Keeps toks ValFits expr) (blocks : Keeps toks ExecFits block) where
  Keeps-name_stmt :
      (fuel : ℕ) (t next : TplTok) → Keeps toks ExecFits (name_stmt expr block fuel t next)
  unfolding name_stmt
  Keeps-name_stmt fuel t next = word "var" (Keeps-var_stmt lexed exprs) (
      Keeps-either (is next.kind tk_eq) (Keeps-assign_stmt lexed exprs t) (
        word "if" (Keeps-if_stmt lexed exprs blocks) (
          word "while" (Keeps-while_stmt lexed exprs blocks fuel) (
            word "repeat" (Keeps-repeat_stmt lexed exprs blocks) (
              word "for" (Keeps-for_stmt lexed exprs blocks fuel) (
                word "return" (Keeps-return_stmt lexed exprs) (
                  word "break" (Keeps-flag_stmt lexed ret_break) (
                    word "continue" (Keeps-flag_stmt lexed ret_cont)
                      (word "fn" (Keeps-fn_stmt lexed fuel) (Keeps-expr_stmt lexed exprs))))))))))
    where
      word :
          (w : String) {m n : M TplExec}
          → Keeps toks ExecFits m
          → Keeps toks ExecFits n
          → Keeps toks ExecFits (if same t.text (codes w) then m else n)
      word w = Keeps-either (same t.text (codes w))

  Keeps-exec_stmt_ex : (fuel : ℕ) → Keeps toks ExecFits (tpl_exec_stmt_ex expr block fuel)
  unfolding tpl_exec_stmt_ex
  Keeps-exec_stmt_ex fuel = Keeps-has_error ⟫ λ _ _. Keeps-either _ (Keeps-none lexed) (
      Keeps-skip_newlines lexed ⟫ λ _ _. Keeps-peek lexed ⟫ λ t _.
      Keeps-either _ (Keeps-none lexed) (
        Keeps-either _ (Keeps-peek_next lexed ⟫ λ next _. Keeps-name_stmt fuel t next)
          (Keeps-expr_stmt lexed exprs)))

module _ {toks : List TplTok} (lexed : AreTokens toks) where
  Keeps-block_loop :
      {stmt : M TplExec}
      → Keeps toks ExecFits stmt
      → (fuel : ℕ) → Keeps toks ExecFits (block_loop stmt fuel)
  unfolding block_loop
  Keeps-block_loop k zero = Keeps-stop _
  Keeps-block_loop k (suc fuel) = Keeps-has_error ⟫ λ _ _. Keeps-either _ (Keeps-none lexed) (
      Keeps-skip_newlines lexed ⟫ λ _ _. Keeps-peek lexed ⟫ λ t _.
      Keeps-either _ (Keeps-none lexed)
        (k ⟫ λ r f. Keeps-either _ (Keeps-block_loop k fuel) (Keeps-pure r f)))

  Keeps-tpl_expr : (fuel : ℕ) → Keeps toks ValFits (tpl_expr fuel)
  Keeps-tpl_expr fuel = Keeps-expr lexed (λ inner n name h. Keeps-call_builtin lexed h n name) fuel

  pub Keeps-exec_block_ex : (fuel : ℕ) → Keeps toks ExecFits (tpl_exec_block_ex fuel)
  unfolding tpl_exec_block_ex
  Keeps-exec_block_ex zero = Keeps-stop _
  Keeps-exec_block_ex (suc fuel) =
      Keeps-block_loop
        (Keeps-exec_stmt_ex lexed (Keeps-tpl_expr fuel) (Keeps-exec_block_ex fuel) fuel) fuel
