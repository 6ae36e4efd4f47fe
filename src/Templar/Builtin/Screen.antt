-- ===== src/Templar/Builtin/Screen.antt =====
-- templar.c: the builtin functions that draw.
use crusader_os_v.Base.{
  ℕ, zero, suc, ◌+◌, ◌-◌, ◌^◌, List, [], ◌∷◌, Option, none, some, ◌==◌, if◌then◌else◌,
}
use crusader_os_v.Templar.Word.{neg32, add32, sub32, mul32, div32, lt32, le32}
use crusader_os_v.Templar.Value.{TplVal, nil, tpl_val_to_str, tpl_val_num}
use crusader_os_v.Templar.State.{
  vesa_clear, vesa_swap, vesa_putpixel, vesa_draw_rec, vesa_draw_hor, vesa_draw_ver, vesa_draw_char,
  tk_rparen, tk_comma, is, M, divide_error, out_of_fuel, pure, stop, ◌>>=◌, ◌>>◌, emit, tpl_peek,
  tpl_advance, tpl_expect,
}
use crusader_os_v.Templar.Builtin.Args.{argument, last_argument}

-- The values of `for (i = from; i <= to; i++)`; the loop never ends if `to` is the greatest value.
unfoldable pub values_from : ℕ → ℕ → List ℕ
values_from zero i = []
values_from (suc n) i = i ∷ values_from n (add32 i 1)

unfoldable pub for_range : ℕ → ℕ → M (List ℕ)
for_range from to =
    if lt32 to from
    then pure []
    else if to == 2 ^ 31 - 1
    then stop out_of_fuel
    else pure (values_from (suc (sub32 to from)) from)

unfoldable pub for_each : (ℕ → M (Unit {0})) → List ℕ → M (Unit {0})
for_each body [] = pure tt
for_each body (i ∷ is) = do body i; for_each body is

-- The characters of a text, each 8 pixels behind the last.
unfoldable pub draw_text : List ℕ → ℕ → ℕ → ℕ → ℕ → M (Unit {0})
draw_text [] px py fg bg = pure tt
draw_text (c ∷ tmp) px py fg bg = do
  emit (vesa_draw_char c px py fg bg)
  draw_text tmp (add32 px 8) py fg bg

-- A pixel in each of the eight parts of a circle.
unfoldable pub eight_pixels : ℕ → ℕ → ℕ → ℕ → ℕ → M (Unit {0})
eight_pixels cx cy x y col = do
  emit (vesa_putpixel (add32 cx x) (add32 cy y) col)
  emit (vesa_putpixel (sub32 cx x) (add32 cy y) col)
  emit (vesa_putpixel (add32 cx x) (sub32 cy y) col)
  emit (vesa_putpixel (sub32 cx x) (sub32 cy y) col)
  emit (vesa_putpixel (add32 cx y) (add32 cy x) col)
  emit (vesa_putpixel (sub32 cx y) (add32 cy x) col)
  emit (vesa_putpixel (add32 cx y) (sub32 cy x) col)
  emit (vesa_putpixel (sub32 cx y) (sub32 cy x) col)

-- `while (x <= y)`
unfoldable pub circle_from : ℕ → ℕ → ℕ → ℕ → ℕ → ℕ → ℕ → M (Unit {0})
circle_from zero cx cy col x y d = stop out_of_fuel
circle_from (suc fuel) cx cy col x y d =
    if le32 x y
    then (do
      eight_pixels cx cy x y col
      if lt32 d 0
          then circle_from fuel cx cy col (add32 x 1) y (add32 d (add32 (mul32 4 x) 6))
          else circle_from fuel cx cy col (add32 x 1) (sub32 y 1)
              (add32 d (add32 (mul32 4 (sub32 x y)) 10)))
    else pure tt

unfoldable pub disc_pixel : ℕ → ℕ → ℕ → ℕ → ℕ → ℕ → M (Unit {0})
disc_pixel cx cy r col dy dx =
    if le32 (add32 (mul32 dx dx) (mul32 dy dy)) (mul32 r r)
    then emit (vesa_putpixel (add32 cx dx) (add32 cy dy) col)
    else pure tt

unfoldable pub disc_row : ℕ → ℕ → ℕ → ℕ → ℕ → M (Unit {0})
disc_row cx cy r col dy = do row ← for_range (neg32 r) r; for_each (disc_pixel cx cy r col dy) row

-- The quotient, or the fault of the processor.
unfoldable pub divided : Option ℕ → M ℕ
divided (some q) = pure q
divided none = stop divide_error

-- `x1 + (x2 - x1) * (y - y1) / (y2 - y1)`, or `x1` if both rows are the same.
unfoldable pub edge : ℕ → ℕ → ℕ → ℕ → ℕ → M ℕ
edge x1 y1 x2 y2 y = if y1 == y2 then pure x1 else (do
  q ← divided (div32 (mul32 (sub32 x2 x1) (sub32 y y1)) (sub32 y2 y1))
  pure (add32 x1 q))

pub record Point : Type 0 where
  pub x : ℕ
  pub y : ℕ

-- A row of a triangle whose corners are sorted by their rows.
unfoldable pub triangle_row : Point → Point → Point → ℕ → ℕ → M (Unit {0})
triangle_row p q r col y = do
  xa ← if lt32 y q.y then edge p.x p.y q.x q.y y else edge q.x q.y r.x r.y y
  xb ← edge p.x p.y r.x r.y y
  if lt32 xb xa
      then emit (vesa_draw_hor xb y (add32 (sub32 xa xb) 1) col)
      else emit (vesa_draw_hor xa y (add32 (sub32 xb xa) 1) col)

-- `if(y1>y2){TPL_SWAP(x1,x2)TPL_SWAP(y1,y2)}`
abbrev pub in_order : Point → Point → Point × Point
in_order p q = if lt32 q.y p.y then (q, p) else (p, q)

abbrev pub sort_points : Point → Point → Point → Point × Point × Point
sort_points p q r =
    let (p, q) = in_order p q in let (p, r) = in_order p r in let (q, r) = in_order q r in (p, q, r)

unfoldable pub swap : M TplVal
swap = do tpl_expect tk_rparen; emit vesa_swap; pure nil

module _ (expr : M TplVal) where
  unfoldable pub number : M ℕ
  number = do v ← argument expr; pure (tpl_val_num v)

  unfoldable pub last_number : M ℕ
  last_number = do v ← last_argument expr; pure (tpl_val_num v)

  unfoldable pub cls : M TplVal
  cls = do col ← last_number; emit (vesa_clear col); pure nil

  unfoldable pub pixel : M TplVal
  pixel = do x ← number; y ← number; c ← last_number; emit (vesa_putpixel x y c); pure nil

  unfoldable pub rect : M TplVal
  rect = do
    x ← number
    y ← number
    w ← number
    h ← number
    c ← last_number
    emit (vesa_draw_rec x y w h c)
    pure nil

  unfoldable pub line_h : M TplVal
  line_h = do
    x ← number
    y ← number
    l ← number
    c ← last_number
    emit (vesa_draw_hor x y l c)
    pure nil

  unfoldable pub line_v : M TplVal
  line_v = do
    x ← number
    y ← number
    l ← number
    c ← last_number
    emit (vesa_draw_ver x y l c)
    pure nil

  -- The background is an argument that may be left out.
  unfoldable pub background : M ℕ
  background = do
    t ← tpl_peek
    if is t.kind tk_comma then (do tpl_advance; v ← expr; pure (tpl_val_num v)) else pure 0

  unfoldable pub text : M TplVal
  text = do
    x ← number
    y ← number
    s ← argument expr
    fg ← expr
    bg ← background
    tpl_expect tk_rparen
    draw_text (tpl_val_to_str s) x y (tpl_val_num fg) bg
    pure nil

  unfoldable pub circle : M TplVal
  circle = do
    cx ← number
    cy ← number
    r ← number
    col ← last_number
    circle_from (r + 2) cx cy col 0 r (sub32 3 (mul32 2 r))
    pure nil

  unfoldable pub filled_circle : M TplVal
  filled_circle = do
    cx ← number
    cy ← number
    r ← number
    col ← last_number
    rows ← for_range (neg32 r) r
    for_each (disc_row cx cy r col) rows
    pure nil

  unfoldable pub triangle : M TplVal
  triangle = do
    x1 ← number
    y1 ← number
    x2 ← number
    y2 ← number
    x3 ← number
    y3 ← number
    col ← last_number
    let corners =
        sort_points (record { x = x1; y = y1 }) (record { x = x2; y = y2 })
          (record { x = x3; y = y3 })
    rows ← for_range corners.0.y corners.2.y
    for_each (triangle_row corners.0 corners.1 corners.2 col) rows
    pure nil
