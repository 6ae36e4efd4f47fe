-- ===== src/Templar/Sound/Stmts.antt =====
-- templar.c: statements and blocks keep the state sound.
use crusader_os_v.Base.{ℕ, zero, suc, ◌≡◌, true, List, [], ◌∷◌, ◌++◌, arith, length, ltb, ltb→lt}
use crusader_os_v.Templar.Value.{TplVal, nil}
use crusader_os_v.Templar.State.{TplTok, M, pure, max_params}
use crusader_os_v.Templar.Exec.{
  TplExec, none_exec, skip_depth, skip_block, open_block, set_to, var_stmt, assign_stmt,
  return_stmt, expr_stmt, step_part, add_param, params_loop,
}
use crusader_os_v.Templar.Sound.{
  ValFits, nil_fits, NameFits, ParamsFit, Keeps, Any, Keeps-pure, Keeps-stop, ◌⟫◌, Keeps-if,
  Keeps-either,
}
use crusader_os_v.Templar.Sound.Steps.{
  AreTokens, StopsAtEof, Keeps-tpl_error, Keeps-peek, Keeps-advance, Keeps-advance_by,
  Keeps-skip_newlines, Keeps-expect, Keeps-match,
}
use crusader_os_v.Templar.Sound.Vars.{All-snoc, length-snoc, Keeps-set_var, Keeps-copy_name}

abbrev pub ExecFits : TplExec → Type 0
ExecFits r = ValFits r.val

skip_depth-StopsAtEof : (depth : ℕ) → StopsAtEof (skip_depth depth)
unfolding skip_depth
skip_depth-StopsAtEof zero [] e = absurd e
skip_depth-StopsAtEof (suc d) [] e = absurd e
skip_depth-StopsAtEof zero (t ∷ ts) e = omega arith
skip_depth-StopsAtEof (suc d) (t ∷ []) e = ground arith
skip_depth-StopsAtEof (suc d) (t ∷ u ∷ ts) (_, e) = ground (
  arith,
  skip_depth-StopsAtEof d (u ∷ ts) e,
  skip_depth-StopsAtEof (suc d) (u ∷ ts) e,
  skip_depth-StopsAtEof (suc (suc d)) (u ∷ ts) e,
)

module _ {toks : List TplTok} (lexed : AreTokens toks) where
  pub Keeps-skip_block : Keeps toks Any skip_block
  unfolding skip_block
  Keeps-skip_block = Keeps-advance_by lexed _ (skip_depth-StopsAtEof 1)

  pub Keeps-open_block : Keeps toks Any open_block
  unfolding open_block
  Keeps-open_block = Keeps-skip_newlines lexed ⟫ λ _ _. Keeps-expect lexed _ ⟫ λ _ _.
      Keeps-skip_newlines lexed ⟫ λ _ _. Keeps-expect lexed _ ⟫ λ _ _. Keeps-pure _ tt

  pub Keeps-none : Keeps toks ExecFits (pure none_exec)
  Keeps-none = Keeps-pure none_exec nil_fits

  pub Keeps-set_to :
      (vname : List ℕ) (v : TplVal)
      → NameFits vname
      → ValFits v
      → Keeps toks ExecFits (set_to vname v)
  unfolding set_to
  Keeps-set_to vname v n f = Keeps-set_var vname v n f ⟫ λ _ _. Keeps-none

  -- Functions.
  pub Keeps-add_param :
      (params : List (List ℕ)) (name : List ℕ)
      → ParamsFit params
      → NameFits name
      → Keeps toks ParamsFit (add_param params name)
  unfolding add_param
  Keeps-add_param params name (l, h) n = Keeps-if _ (λ room. keep room) (λ _. Keeps-stop _)
    where
      keep :
          ltb (length params) max_params ≡ true → Keeps toks ParamsFit (pure (params ++ name ∷ []))
      keep room = Keeps-pure _ (
        omega (arith, length-snoc params name, ltb→lt (length params) max_params room),
        All-snoc NameFits params name h n,
      )

  pub Keeps-params_loop :
      (fuel : ℕ) (params : List (List ℕ))
      → ParamsFit params
      → Keeps toks ParamsFit (params_loop fuel params)
  unfolding params_loop
  Keeps-params_loop zero params f = Keeps-stop _
  Keeps-params_loop (suc fuel) params f = Keeps-peek lexed ⟫ λ pn _.
      Keeps-either _ (Keeps-pure params f) (
        Keeps-either _
          (Keeps-copy_name _ ⟫ λ name n. Keeps-add_param params name f n ⟫ λ params f.
            Keeps-advance lexed ⟫ λ _ _.
            Keeps-match lexed _ ⟫ λ _ _. Keeps-params_loop fuel params f)
          (Keeps-match lexed _ ⟫ λ _ _. Keeps-params_loop fuel params f))

module _ {toks : List TplTok} (lexed : AreTokens toks) {expr : M TplVal}
    (exprs : Keeps toks ValFits expr) where
  pub Keeps-var_stmt : Keeps toks ExecFits (var_stmt expr)
  unfolding var_stmt
  Keeps-var_stmt = Keeps-advance lexed ⟫ λ _ _. Keeps-peek lexed ⟫ λ name_tok _.
      Keeps-either _
        (Keeps-copy_name _ ⟫ λ vname n. Keeps-advance lexed ⟫ λ _ _. Keeps-peek lexed ⟫ λ t _.
          Keeps-either _
            (Keeps-advance lexed ⟫ λ _ _. exprs ⟫ λ v f. Keeps-set_to lexed vname v n f)
            (Keeps-set_to lexed vname nil n nil_fits))
        (Keeps-tpl_error _ ⟫ λ _ _. Keeps-none lexed)

  pub Keeps-assign_stmt : (t : TplTok) → Keeps toks ExecFits (assign_stmt expr t)
  unfolding assign_stmt
  Keeps-assign_stmt t = Keeps-copy_name _ ⟫ λ vname n. Keeps-advance lexed ⟫ λ _ _.
      Keeps-advance lexed ⟫ λ _ _. exprs ⟫ λ v f. Keeps-set_to lexed vname v n f

  pub Keeps-return_stmt : Keeps toks ExecFits (return_stmt expr)
  unfolding return_stmt
  Keeps-return_stmt = Keeps-advance lexed ⟫ λ _ _. Keeps-peek lexed ⟫ λ t _.
      Keeps-either _ (Keeps-pure _ nil_fits) (exprs ⟫ λ v f. Keeps-pure _ f)

  pub Keeps-expr_stmt : Keeps toks ExecFits (expr_stmt expr)
  unfolding expr_stmt
  Keeps-expr_stmt = exprs ⟫ λ _ _. Keeps-none lexed

  pub Keeps-step_part : Keeps toks Any (step_part expr)
  unfolding step_part
  Keeps-step_part = Keeps-peek lexed ⟫ λ t _.
      Keeps-either _ (Keeps-advance lexed ⟫ λ _ _. exprs ⟫ λ sv f. Keeps-pure _ tt)
        (Keeps-pure _ tt)
