-- ===== src/Templar/Builtin/Values.antt =====
-- templar.c: the builtin functions that compute a value.
use crusader_os_v.Base.{ℕ, length, if◌then◌else◌}
use crusader_os_v.Templar.Word.{wrap, neg32, lt32}
use crusader_os_v.Templar.Value.{TplVal, num, str, tpl_itoa, tpl_val_to_str, tpl_val_num}
use crusader_os_v.Templar.State.{tk_rparen, M, done, pure, ◌>>=◌, ◌>>◌, tpl_expect}
use crusader_os_v.Templar.Builtin.Args.{argument, last_argument, all_texts}

module _ (expr : M TplVal) where
  unfoldable pub int_of : M TplVal
  int_of = do v ← last_argument expr; pure (num (tpl_val_num v))

  unfoldable pub str_of : M TplVal
  str_of = do v ← last_argument expr; pure (str (tpl_val_to_str v))

  unfoldable pub len_of : M TplVal
  len_of = do v ← last_argument expr; pure (num (length (tpl_val_to_str v)))

  unfoldable pub abs_of : M TplVal
  abs_of = do
    v ← last_argument expr
    let n = tpl_val_num v
    pure (num (if lt32 n 0 then neg32 n else n))

  unfoldable pub min_of : M TplVal
  min_of = do
    a ← argument expr
    b ← last_argument expr
    let an = tpl_val_num a
    let bn = tpl_val_num b
    pure (num (if lt32 an bn then an else bn))

  unfoldable pub max_of : M TplVal
  max_of = do
    a ← argument expr
    b ← last_argument expr
    let an = tpl_val_num a
    let bn = tpl_val_num b
    pure (num (if lt32 bn an then an else bn))

  unfoldable pub concat_of : ℕ → M TplVal
  concat_of fuel = do buf ← all_texts expr fuel; pure (str buf)

  unfoldable pub numstr_of : M TplVal
  numstr_of = do v ← last_argument expr; pure (str (tpl_itoa (tpl_val_num v)))

-- The functions of no argument.
unfoldable pub screen_w : M TplVal
screen_w = do tpl_expect tk_rparen; pure (num 1280)

unfoldable pub screen_h : M TplVal
screen_h = do tpl_expect tk_rparen; pure (num 720)

unfoldable pub get_cursor : M (ℕ × ℕ)
get_cursor s = done (s.cursor s.output) s

unfoldable pub cursor_x : M TplVal
cursor_x = do tpl_expect tk_rparen; (x, y) ← get_cursor; pure (num (wrap x))

unfoldable pub cursor_y : M TplVal
cursor_y = do tpl_expect tk_rparen; (x, y) ← get_cursor; pure (num (wrap y))
