-- ===== src/Templar/Builtin/Console.antt =====
-- templar.c: the builtin functions that write on the console, move its cursor, or wait.
use crusader_os_v.Base.{ℕ, [], ◌∷◌, ◌*◌}
use crusader_os_v.Templar.Word.{wrap}
use crusader_os_v.Templar.Value.{TplVal, nil, tpl_val_to_str, tpl_val_num}
use crusader_os_v.Templar.State.{klog, move_cursor, nops, M, pure, ◌>>=◌, ◌>>◌, emit}
use crusader_os_v.Templar.Builtin.Args.{argument, last_argument, all_texts}

module _ (expr : M TplVal) where
  unfoldable pub print : ℕ → M TplVal
  print fuel = do buf ← all_texts expr fuel; emit (klog buf); emit (klog (10 ∷ [])); pure nil

  unfoldable pub print_raw : ℕ → M TplVal
  print_raw fuel = do buf ← all_texts expr fuel; emit (klog buf); pure nil

  unfoldable pub print_at : M TplVal
  print_at = do
    vx ← argument expr
    vy ← argument expr
    vs ← last_argument expr
    emit (move_cursor (tpl_val_num vx) (tpl_val_num vy))
    emit (klog (tpl_val_to_str vs))
    pure nil

  unfoldable pub set_cursor : M TplVal
  set_cursor = do
    vx ← argument expr
    vy ← last_argument expr
    emit (move_cursor (tpl_val_num vx) (tpl_val_num vy))
    pure nil

  -- A loop of so many rounds that do nothing.
  unfoldable pub sleep : M TplVal
  sleep = do vm ← last_argument expr; emit (nops (wrap (8000 * tpl_val_num vm))); pure nil
