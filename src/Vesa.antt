-- ===== src/Vesa.antt =====
-- The graphics of vesa.c: pixels in the back buffer, and the shapes drawn with them. The buffers are functions from
-- a byte's index, and an `int` is its 32-bit pattern.
pub mod Pixels
use Prim.Native.Nat.{bit_and}
use crusader_os_v.Base.{
  ℕ, zero, suc, ◌+◌, ◌-◌, ◌*◌, ◌/◌, ◌%◌, ◌^◌, Bool, true, false, not, ◌&&◌, ◌||◌, ◌==◌, leb, ltb,
  if◌then◌else◌, update,
}

pub record Vesa : Type 0 where
  pub vesa_ready : Bool
  pub fb_width : ℕ
  pub fb_height : ℕ
  pub fb_bpp : ℕ
  pub fb_pitch : ℕ
  pub back : ℕ → ℕ
  pub lfb : ℕ → ℕ
  pub c_x : ℕ
  pub c_y : ℕ

-- `x < 0` for an `int`.
abbrev pub below_zero : ℕ → Bool
below_zero x = leb (2 ^ 31) x

-- The rounds of a loop `for (int i = 0; i < n; i++)`.
abbrev pub rounds : ℕ → ℕ
rounds n = if below_zero n then 0 else n

unfoldable pub vesa_init_from_params : ℕ → ℕ → ℕ → ℕ → Vesa → Vesa
vesa_init_from_params width height bpp pitch s = record s {
  fb_width = width;
  fb_height = height;
  fb_bpp = bpp;
  fb_pitch = if pitch == 0 then width * ((bpp + 7) / 8) % 2 ^ 32 else pitch;
  vesa_ready = true;
}

-- `n` bytes of a colour, the lowest first, from an index on.
unfoldable pub store_bytes : ℕ → ℕ → ℕ → (ℕ → ℕ) → ℕ → ℕ
store_bytes n at color mem i =
    if leb at i && ltb i (at + n) then color / 256 ^ (i - at) % 256 else mem i

unfoldable pub put_pixel_32 : ℕ → ℕ → ℕ → Vesa → Vesa
put_pixel_32 x y color s =
    let offset = (y * s.fb_pitch + x * (s.fb_bpp / 8)) % 2 ^ 32 in
    if below_zero x || leb 1280 x || below_zero y || leb 720 y
    then s
    else if leb (1280 * 900 * 4) offset
    then s
    else record s { back = store_bytes 4 offset color s.back }

-- What `vesa_putpixel` and `vesa_putpixel_34` do behind their bounds.
unfoldable pub store_pixel : ℕ → ℕ → ℕ → Vesa → Vesa
store_pixel x y color s =
    if s.fb_bpp == 32
    then put_pixel_32 x y color s
    else if s.fb_bpp == 24
    then record s { back = store_bytes 3 (y * s.fb_pitch + x * 4) color s.back }
    else if s.fb_bpp == 8
    then record s { lfb = update s.lfb ((y * s.fb_pitch + x) % 2 ^ 32) (color % 256) }
    else s

unfoldable pub vesa_putpixel : ℕ → ℕ → ℕ → Vesa → Vesa
vesa_putpixel x y color s =
    if not s.vesa_ready
    then s
    else if below_zero x || leb s.fb_width x || below_zero y || leb s.fb_height y
    then s
    else store_pixel x y color s

unfoldable pub vesa_putpixel_34 : ℕ → ℕ → ℕ → Vesa → Vesa
vesa_putpixel_34 x y color s =
    if not s.vesa_ready
    then s
    else if below_zero x || leb 952 x || below_zero y || leb s.fb_height y
    then s
    else store_pixel x y color s

-- The loops, from the first pixel or row on, with the number of those left.
unfoldable pub hor_from : ℕ → ℕ → ℕ → ℕ → Vesa → Vesa
hor_from x y zero col s = s
hor_from x y (suc a) col s = hor_from ((x + 1) % 2 ^ 32) y a col (vesa_putpixel x y col s)

unfoldable pub ver_from : ℕ → ℕ → ℕ → ℕ → Vesa → Vesa
ver_from x y zero col s = s
ver_from x y (suc a) col s = ver_from x ((y + 1) % 2 ^ 32) a col (vesa_putpixel x y col s)

unfoldable pub vesa_draw_hor : ℕ → ℕ → ℕ → ℕ → Vesa → Vesa
vesa_draw_hor x y a col s = hor_from x y (rounds a) col s

unfoldable pub vesa_draw_ver : ℕ → ℕ → ℕ → ℕ → Vesa → Vesa
vesa_draw_ver x y a col s = ver_from x y (rounds a) col s

-- Each row of a rectangle is drawn as a horizontal line is.
unfoldable pub rec_from : ℕ → ℕ → ℕ → ℕ → ℕ → Vesa → Vesa
rec_from x y width zero col s = s
rec_from x y width (suc height) col s =
    rec_from x ((y + 1) % 2 ^ 32) width height col (hor_from x y width col s)

unfoldable pub vesa_draw_rec : ℕ → ℕ → ℕ → ℕ → ℕ → Vesa → Vesa
vesa_draw_rec x y width height col s = rec_from x y (rounds width) (rounds height) col s

unfoldable pub vesa_clear : ℕ → Vesa → Vesa
vesa_clear color s =
    if not s.vesa_ready
    then s
    else record (rec_from 0 0 960 s.fb_height color s) { c_x = 0; c_y = 0 }

-- `memcpy` of the whole back buffer; the pointer to it is not null once the screen is ready.
unfoldable pub vesa_swap : Vesa → Vesa
vesa_swap s = if not s.vesa_ready then s else record s {
  lfb = λ i. if ltb i (s.fb_height * s.fb_pitch % 2 ^ 32) then s.back i else s.lfb i;
}

-- The font: the byte of a character and a row of it.
module _ (font8x8_basic : ℕ → ℕ → ℕ) where
  -- The pixels of a row, from column `cx` on, with `n` left.
  unfoldable pub glyph_row : (ℕ → ℕ → ℕ → Vesa → Vesa) → ℕ → ℕ → ℕ → ℕ → ℕ → ℕ → ℕ → Vesa → Vesa
  glyph_row put row fg bg x y zero cx s = s
  glyph_row put row fg bg x y (suc n) cx s =
      glyph_row put row fg bg x y n (cx + 1)
        (put ((x + cx) % 2 ^ 32) y (if bit_and row (2 ^ cx) == 0 then bg else fg) s)

  unfoldable pub glyph_rows : (ℕ → ℕ → ℕ → Vesa → Vesa) → ℕ → ℕ → ℕ → ℕ → ℕ → ℕ → ℕ → Vesa → Vesa
  glyph_rows put c fg bg x y zero cy s = s
  glyph_rows put c fg bg x y (suc n) cy s =
      glyph_rows put c fg bg x y n (cy + 1)
        (glyph_row put (font8x8_basic c cy) fg bg x ((y + cy) % 2 ^ 32) 8 0 s)

  -- A `char` is a byte, negative from 128 on.
  unfoldable pub vesa_draw_char : ℕ → ℕ → ℕ → ℕ → ℕ → Vesa → Vesa
  vesa_draw_char c x y fg bg s = if ltb 127 c then s else glyph_rows vesa_putpixel c fg bg x y 8 0 s

  unfoldable pub vesa_draw_char_34 : ℕ → ℕ → ℕ → ℕ → ℕ → Vesa → Vesa
  vesa_draw_char_34 c x y fg bg s =
      if ltb 127 c then s else glyph_rows vesa_putpixel_34 c fg bg x y 8 0 s

  unfoldable pub vesa_print_char : ℕ → Vesa → Vesa
  vesa_print_char c s =
      if not s.vesa_ready
      then s
      else if c == 10
      then record s { c_x = 0; c_y = (s.c_y + 8) % 2 ^ 32 }
      else if c == 8
      then (if not (below_zero s.c_x) && leb 8 s.c_x
          then vesa_draw_rec (s.c_x - 8) s.c_y 8 8 0 (record s { c_x = s.c_x - 8 })
          else if not (below_zero s.c_y) && leb 8 s.c_y
          then vesa_draw_rec 952 (s.c_y - 8) 8 8 0 (record s { c_x = 952; c_y = s.c_y - 8 })
          else s)
      else if c == 13
      then s
      else (let next = (s.c_x + 8) % 2 ^ 32 in
          let s : Vesa =
            if not (below_zero next) && ltb 952 next
            then record s { c_x = 0; c_y = (s.c_y + 8) % 2 ^ 32 }
            else s in
          let t = vesa_draw_char c s.c_x s.c_y 0xffffff 0 s in
          record t { c_x = (t.c_x + 8) % 2 ^ 32 })
