-- ===== src/Templar/Sound/Builtins.antt =====
-- templar.c: every builtin function keeps the state sound, and its value fits.
use crusader_os_v.Base.{ℕ, ◌^◌, ◌<◌, Bool, true, false, List, [], ◌∷◌, arith, if◌then◌else◌}
use crusader_os_v.Templar.Value.{TplVal, num, nil, tpl_val_num}
use crusader_os_v.Templar.State.{TplTok, M, tk_rparen, pure, Effect, emit, ◌>>=◌, ◌>>◌, tpl_expect}
use crusader_os_v.Templar.Builtin.{
  argument, last_argument, int_of, str_of, len_of, abs_of, min_of, max_of, concat_of, numstr_of,
  screen_w, screen_h, cursor_x, cursor_y, print, print_raw, print_at, set_cursor, sleep, number,
  last_number, cls, swap, pixel, rect, line_h, line_v, background, text, circle, filled_circle,
  triangle, builtins, find_builtin, count_arguments, unknown_builtin, tpl_call_builtin,
}
use crusader_os_v.Templar.Sound.{
  ValFits, num_fits, str_fits, nil_fits, Keeps, Any, Keeps-pure, ◌⟫◌, Keeps-either,
}
use crusader_os_v.Templar.Sound.Numbers.{
  neg32-lt, length-tpl_itoa, tpl_val_to_str_fits, tpl_val_num-lt,
}
use crusader_os_v.Templar.Sound.Steps.{
  AreTokens, StopsAtEof, Keeps-has_error, Keeps-tpl_error, Keeps-emit, Keeps-peek, Keeps-advance,
  Keeps-advance_by, Keeps-expect, Keeps-match,
}
use crusader_os_v.Templar.Sound.Args.{
  Keeps-argument, Keeps-last_argument, Keeps-number, Keeps-last_number, Keeps-all_texts,
}
use crusader_os_v.Templar.Sound.Shapes.{
  Keeps-for_range, Keeps-for_each, Keeps-draw_text, Keeps-circle_from, Keeps-disc_row,
  Keeps-triangle_row, Keeps-get_cursor,
}

count_arguments-StopsAtEof : StopsAtEof count_arguments
unfolding count_arguments
count_arguments-StopsAtEof [] e = absurd e
count_arguments-StopsAtEof (t ∷ []) e = ground arith
count_arguments-StopsAtEof (t ∷ u ∷ ts) (_, e) =
    ground (arith, count_arguments-StopsAtEof (u ∷ ts) e)

infixr 1 ◌and◌
data AllKeep (toks : List TplTok) : List (List ℕ × M TplVal) → Type 0 where
  all_keep : AllKeep toks []
  ◌and◌ :
      {n : List ℕ} {b : M TplVal} {rest : List (List ℕ × M TplVal)}
      → Keeps toks ValFits b
      → AllKeep toks rest
      → AllKeep toks ((n, b) ∷ rest)

if_fits : (b : Bool) (m n : ℕ) → m < 2 ^ 32 → n < 2 ^ 32 → ValFits (num (if b then m else n))
if_fits true m n h k = num_fits h
if_fits false m n h k = num_fits k

module _ {toks : List TplTok} (lexed : AreTokens toks) {expr : M TplVal}
    (exprs : Keeps toks ValFits expr) where
  one_argument :
      (f : TplVal → TplVal)
      → ((v : TplVal) → ValFits v → ValFits (f v))
      → Keeps toks ValFits (last_argument expr >>= λ v. pure (f v))
  one_argument f h = Keeps-last_argument lexed exprs ⟫ λ v k. Keeps-pure (f v) (h v k)

  two_arguments :
      (f : TplVal → TplVal → TplVal)
      → ((a b : TplVal) → ValFits a → ValFits b → ValFits (f a b))
      → Keeps toks ValFits (argument expr >>= λ a. last_argument expr >>= λ b. pure (f a b))
  two_arguments f h = Keeps-argument lexed exprs ⟫ λ a g.
      Keeps-last_argument lexed exprs ⟫ λ b k. Keeps-pure (f a b) (h a b g k)

  Keeps-int : Keeps toks ValFits (int_of expr)
  unfolding int_of
  Keeps-int = one_argument _ (λ v h. num_fits (tpl_val_num-lt v h))

  Keeps-str : Keeps toks ValFits (str_of expr)
  unfolding str_of
  Keeps-str = one_argument _ (λ v h. str_fits (tpl_val_to_str_fits v h))

  Keeps-len : Keeps toks ValFits (len_of expr)
  unfolding len_of
  Keeps-len = one_argument _ (λ v h. num_fits (omega (arith, tpl_val_to_str_fits v h)))

  Keeps-abs : Keeps toks ValFits (abs_of expr)
  unfolding abs_of
  Keeps-abs = one_argument _ (λ v h. if_fits _ _ _ (neg32-lt _) (tpl_val_num-lt v h))

  Keeps-min : Keeps toks ValFits (min_of expr)
  unfolding min_of
  Keeps-min = two_arguments _ (λ a b h k. if_fits _ _ _ (tpl_val_num-lt a h) (tpl_val_num-lt b k))

  Keeps-max : Keeps toks ValFits (max_of expr)
  unfolding max_of
  Keeps-max = two_arguments _ (λ a b h k. if_fits _ _ _ (tpl_val_num-lt a h) (tpl_val_num-lt b k))

  Keeps-numstr : Keeps toks ValFits (numstr_of expr)
  unfolding numstr_of
  Keeps-numstr = one_argument _ (λ v h. str_fits (omega (arith, length-tpl_itoa (tpl_val_num v))))

  Keeps-concat : (fuel : ℕ) → Keeps toks ValFits (concat_of expr fuel)
  unfolding concat_of
  Keeps-concat fuel = Keeps-all_texts lexed exprs fuel ⟫ λ b h. Keeps-pure _ (str_fits h)

  -- An effect at the end, and no value.
  last_effect : (e : Effect) → Keeps toks ValFits (emit e >> pure nil)
  last_effect e = Keeps-emit e ⟫ λ _ _. Keeps-pure nil nil_fits

  number_then :
      {f : ℕ → M TplVal}
      → ((n : ℕ) → Keeps toks ValFits (f n))
      → Keeps toks ValFits (number expr >>= f)
  number_then k = Keeps-number lexed exprs ⟫ λ n _. k n

  last_then :
      {f : ℕ → M TplVal}
      → ((n : ℕ) → Keeps toks ValFits (f n))
      → Keeps toks ValFits (last_number expr >>= f)
  last_then k = Keeps-last_number lexed exprs ⟫ λ n _. k n

  Keeps-print : (fuel : ℕ) → Keeps toks ValFits (print expr fuel)
  unfolding print
  Keeps-print fuel = Keeps-all_texts lexed exprs fuel ⟫ λ b _. Keeps-emit _ ⟫ λ _ _. last_effect _

  Keeps-print_raw : (fuel : ℕ) → Keeps toks ValFits (print_raw expr fuel)
  unfolding print_raw
  Keeps-print_raw fuel = Keeps-all_texts lexed exprs fuel ⟫ λ b _. last_effect _

  Keeps-print_at : Keeps toks ValFits (print_at expr)
  unfolding print_at
  Keeps-print_at = Keeps-argument lexed exprs ⟫ λ _ _. Keeps-argument lexed exprs ⟫ λ _ _.
      Keeps-last_argument lexed exprs ⟫ λ _ _. Keeps-emit _ ⟫ λ _ _. last_effect _

  Keeps-set_cursor : Keeps toks ValFits (set_cursor expr)
  unfolding set_cursor
  Keeps-set_cursor =
      Keeps-argument lexed exprs ⟫ λ _ _. Keeps-last_argument lexed exprs ⟫ λ _ _. last_effect _

  Keeps-sleep : Keeps toks ValFits (sleep expr)
  unfolding sleep
  Keeps-sleep = Keeps-last_argument lexed exprs ⟫ λ _ _. last_effect _

  Keeps-cls : Keeps toks ValFits (cls expr)
  unfolding cls
  Keeps-cls = last_then λ _. last_effect _

  Keeps-swap : Keeps toks ValFits swap
  unfolding swap
  Keeps-swap = Keeps-expect lexed _ ⟫ λ _ _. last_effect _

  Keeps-pixel : Keeps toks ValFits (pixel expr)
  unfolding pixel
  Keeps-pixel = number_then λ _. number_then λ _. last_then λ _. last_effect _

  Keeps-rect : Keeps toks ValFits (rect expr)
  unfolding rect
  Keeps-rect =
      number_then
        λ _. number_then λ _. number_then λ _. number_then λ _. last_then λ _. last_effect _

  Keeps-line_h : Keeps toks ValFits (line_h expr)
  unfolding line_h
  Keeps-line_h = number_then λ _. number_then λ _. number_then λ _. last_then λ _. last_effect _

  Keeps-line_v : Keeps toks ValFits (line_v expr)
  unfolding line_v
  Keeps-line_v = number_then λ _. number_then λ _. number_then λ _. last_then λ _. last_effect _

  Keeps-background : Keeps toks Any (background expr)
  unfolding background
  Keeps-background = Keeps-peek lexed ⟫ λ t _.
      Keeps-either _ (Keeps-advance lexed ⟫ λ _ _. exprs ⟫ λ _ _. Keeps-pure _ tt) (Keeps-pure _ tt)

  Keeps-text : Keeps toks ValFits (text expr)
  unfolding text
  Keeps-text = number_then λ _. number_then λ _. Keeps-argument lexed exprs ⟫ λ s _. exprs ⟫ λ _ _.
      Keeps-background ⟫ λ _ _.
      Keeps-expect lexed _ ⟫ λ _ _. Keeps-draw_text _ _ _ _ _ ⟫ λ _ _. Keeps-pure nil nil_fits

  Keeps-circle : Keeps toks ValFits (circle expr)
  unfolding circle
  Keeps-circle = number_then λ cx. number_then λ cy.
      number_then
        λ r. last_then λ col. Keeps-circle_from _ cx cy col _ _ _ ⟫ λ _ _. Keeps-pure nil nil_fits

  Keeps-filled_circle : Keeps toks ValFits (filled_circle expr)
  unfolding filled_circle
  Keeps-filled_circle = number_then λ cx. number_then λ cy. number_then λ r. last_then λ col.
      Keeps-for_range _ _ ⟫ λ rows _.
      Keeps-for_each (Keeps-disc_row cx cy r col) rows ⟫ λ _ _. Keeps-pure nil nil_fits

  Keeps-triangle : Keeps toks ValFits (triangle expr)
  unfolding triangle
  Keeps-triangle = number_then λ _. number_then λ _. number_then λ _. number_then λ _.
      number_then λ _. number_then λ _. last_then λ col. Keeps-for_range _ _ ⟫ λ rows _.
      Keeps-for_each (Keeps-triangle_row _ _ _ col) rows ⟫ λ _ _. Keeps-pure nil nil_fits

  no_argument : (n : ℕ) → n < 2 ^ 32 → Keeps toks ValFits (tpl_expect tk_rparen >> pure (num n))
  no_argument n h = Keeps-expect lexed _ ⟫ λ _ _. Keeps-pure _ (num_fits h)

  Keeps-cursor_x : Keeps toks ValFits cursor_x
  unfolding cursor_x
  Keeps-cursor_x =
      Keeps-expect lexed _ ⟫ λ _ _. Keeps-get_cursor ⟫ λ at _. Keeps-pure _ (num_fits (omega arith))

  Keeps-cursor_y : Keeps toks ValFits cursor_y
  unfolding cursor_y
  Keeps-cursor_y =
      Keeps-expect lexed _ ⟫ λ _ _. Keeps-get_cursor ⟫ λ at _. Keeps-pure _ (num_fits (omega arith))

  Keeps-unknown_builtin : Keeps toks ValFits unknown_builtin
  unfolding unknown_builtin
  Keeps-unknown_builtin = Keeps-tpl_error _ ⟫ λ _ _.
      Keeps-advance_by lexed _ count_arguments-StopsAtEof ⟫ λ _ _.
      Keeps-match lexed _ ⟫ λ _ _. Keeps-pure nil nil_fits

  Keeps-find_builtin :
      (bs : List (List ℕ × M TplVal)) (name : List ℕ)
      → AllKeep toks bs
      → Keeps toks ValFits (find_builtin bs name)
  unfolding find_builtin
  Keeps-find_builtin [] name all_keep = Keeps-unknown_builtin
  Keeps-find_builtin ((n, b) ∷ rest) name (h and hs) =
      Keeps-either _ h (Keeps-find_builtin rest name hs)

  builtins_keep : (fuel : ℕ) → AllKeep toks (builtins expr fuel)
  unfolding screen_w screen_h
  builtins_keep fuel =
      Keeps-print fuel
      and Keeps-print_raw fuel
      and Keeps-cls
      and Keeps-swap
      and Keeps-pixel
      and Keeps-rect
      and Keeps-line_h
      and Keeps-line_v
      and Keeps-text
      and Keeps-print_at
      and Keeps-circle
      and Keeps-filled_circle
      and Keeps-triangle
      and Keeps-sleep
      and Keeps-int
      and Keeps-str
      and Keeps-len
      and Keeps-abs
      and Keeps-min
      and Keeps-max
      and Keeps-concat fuel
      and Keeps-numstr
      and no_argument 1280 (omega arith)
      and no_argument 720 (omega arith)
      and Keeps-cursor_x
      and Keeps-cursor_y
      and Keeps-set_cursor
      and all_keep

  pub Keeps-call_builtin :
      (fuel : ℕ) (name : List ℕ) → Keeps toks ValFits (tpl_call_builtin expr fuel name)
  unfolding tpl_call_builtin
  Keeps-call_builtin fuel name = Keeps-expect lexed _ ⟫ λ _ _. Keeps-has_error ⟫ λ _ _.
      Keeps-either _ (Keeps-pure nil nil_fits)
        (Keeps-find_builtin (builtins expr fuel) name (builtins_keep fuel))
