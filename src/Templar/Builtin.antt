-- ===== src/Templar/Builtin.antt =====
-- templar.c: `tpl_call_builtin`. The functions stand in the children; here they are found by their names.
mod Args
mod Values
mod Console
mod Screen
unfoldable pub use Args.*
unfoldable pub use Values.*
unfoldable pub use Console.*
unfoldable pub use Screen.*
use crusader_os_v.Base.{
  ℕ, suc, Bool, true, false, ◌||◌, List, [], ◌∷◌, Option, none, some, if◌then◌else◌, codes,
}
use crusader_os_v.Templar.Value.{TplVal, nil, same}
use crusader_os_v.Templar.State.{
  TplTok, tk_lparen, tk_rparen, tk_eof, is, M, pure, ◌>>=◌, ◌>>◌, has_error, tpl_error, advance_by,
  tpl_expect, tpl_match,
}

module _ (expr : M TplVal) (fuel : ℕ) where
  -- The tests on the name, in their order.
  abbrev pub builtins : List (List ℕ × M TplVal)
  builtins =
      (codes "print", print expr fuel)
      ∷ (codes "print_raw", print_raw expr fuel)
      ∷ (codes "cls", cls expr)
      ∷ (codes "swap", swap)
      ∷ (codes "pixel", pixel expr)
      ∷ (codes "rect", rect expr)
      ∷ (codes "line_h", line_h expr)
      ∷ (codes "line_v", line_v expr)
      ∷ (codes "text", text expr)
      ∷ (codes "print_at", print_at expr)
      ∷ (codes "circle", circle expr)
      ∷ (codes "filled_circle", filled_circle expr)
      ∷ (codes "triangle", triangle expr)
      ∷ (codes "sleep", sleep expr)
      ∷ (codes "int", int_of expr)
      ∷ (codes "str", str_of expr)
      ∷ (codes "len", len_of expr)
      ∷ (codes "abs", abs_of expr)
      ∷ (codes "min", min_of expr)
      ∷ (codes "max", max_of expr)
      ∷ (codes "concat", concat_of expr fuel)
      ∷ (codes "numstr", numstr_of expr)
      ∷ (codes "screen_w", screen_w)
      ∷ (codes "screen_h", screen_h)
      ∷ (codes "cursor_x", cursor_x)
      ∷ (codes "cursor_y", cursor_y)
      ∷ (codes "set_cursor", set_cursor expr)
      ∷ []

-- How many tokens stand before a closing parenthesis.
unfoldable pub count_arguments : List TplTok → ℕ
count_arguments [] = 0
count_arguments (t ∷ ts) =
    if is t.kind tk_rparen || is t.kind tk_eof then 0 else suc (count_arguments ts)

unfoldable pub unknown_builtin : M TplVal
unknown_builtin = do
  tpl_error (codes "unknown builtin")
  advance_by count_arguments
  tpl_match tk_rparen
  pure nil

unfoldable pub find_builtin : List (List ℕ × M TplVal) → List ℕ → M TplVal
find_builtin [] name = unknown_builtin
find_builtin ((n, b) ∷ rest) name = if same name n then b else find_builtin rest name

unfoldable pub tpl_call_builtin : M TplVal → ℕ → List ℕ → M TplVal
tpl_call_builtin expr fuel name = do
  tpl_expect tk_lparen
  e ← has_error
  if e then pure nil else find_builtin (builtins expr fuel) name
