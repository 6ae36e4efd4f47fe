-- ===== src/Console.antt =====
-- The text console of klog.c: the cursor, and the drawing that the text asks for. Characters, coordinates and
-- colours are numbers; the cursor starts at 0 and is never moved below it.
pub mod Bounds
pub mod Status
pub mod Format
use crusader_os_v.Base.{
  ℕ, ◌+◌, ◌-◌, Bool, true, false, ◌||◌, List, [], ◌∷◌, ◌++◌, ◌==◌, leb, ltb, if◌then◌else◌,
}

-- `vesa_draw_char_34`, `vesa_draw_rec`, and the filling of the screen by `vesa_clear`.
pub data Draw : Type 0 where
  draw_char : (c x y fg_color bg_color : ℕ) → Draw
  draw_rec : (x y width height col : ℕ) → Draw
  clear : ℕ → Draw

pub record Cursor : Type 0 where
  pub c_x : ℕ
  pub c_y : ℕ

abbrev pub cursor : ℕ → Cursor → Draw
cursor func s =
    if func == b'e' || func == b'l'
    then draw_rec s.c_x s.c_y 8 8 0x000000
    else draw_rec s.c_x (s.c_y + 1) 3 7 0xffff00

-- What is behind a character: past the last line the console starts again at the top. `vesa_clear` moves the
-- cursor to the origin, if the screen is ready.
unfoldable pub wrap_screen : Bool → Cursor → List Draw × Cursor
wrap_screen ready s =
    if leb 720 s.c_y
    then (if ready then (clear 0 ∷ [], record { c_x = 0; c_y = 0 }) else ([], record s { c_y = 0 }))
    else ([], s)

-- `c_x += 8`, and the next line behind the last column.
abbrev pub advance : Cursor → Cursor
advance s =
    if ltb 952 (s.c_x + 8)
    then record { c_x = 0; c_y = s.c_y + 8 }
    else record s { c_x = s.c_x + 8 }

abbrev pub new_line : Cursor → Cursor
new_line s = record { c_x = 0; c_y = s.c_y + 8 }

-- One character of `klog`.
unfoldable pub klog_char : ℕ → Cursor → List Draw × Cursor
klog_char c s =
    if c == 10
    then (cursor b'e' s ∷ [], new_line s)
    else if c == 8
    then (if leb 8 s.c_x
        then (cursor b'e' s ∷ draw_char 32 (s.c_x - 8) s.c_y 0 0 ∷ [], record s { c_x = s.c_x - 8 })
        else if leb 8 s.c_y
        then (
          cursor b'e' s ∷ draw_char 32 944 (s.c_y - 8) 0 0 ∷ [],
          record { c_x = 944; c_y = s.c_y - 8 },
        )
        else (cursor b'e' s ∷ [], s))
    else (let out = cursor b'e' s ∷ draw_char c s.c_x s.c_y 0xffffff 0 ∷ [] in
        if ltb 952 (s.c_x + 8)
        then (out ++ draw_rec 0 (s.c_y + 8) 8 8 0 ∷ [], advance s)
        else (out, advance s))

-- One character of the coloured functions; `klog_red` does not erase the cursor.
unfoldable pub colour_char : Bool → ℕ → ℕ → ℕ → Cursor → List Draw × Cursor
colour_char erase fg bg c s =
    let out = if erase then cursor b'e' s ∷ [] else [] in
    if c == 10 then (out, new_line s) else (out ++ draw_char c s.c_x s.c_y fg bg ∷ [], advance s)

module _ (ready : Bool) where
  -- The loop over a message, with what is done for a character.
  unfoldable pub print_all :
      (ℕ → Cursor → List Draw × Cursor) → List ℕ → Cursor → List Draw × Cursor
  print_all char [] s = ([], s)
  print_all char (c ∷ msg) s =
      let (out, s) = char c s in
      let (wrap, s) = wrap_screen ready s in
      let (more, s) = print_all char msg s in (out ++ wrap ++ more, s)

  -- The cursor is drawn, or erased, after the message.
  abbrev pub print : ℕ → (ℕ → Cursor → List Draw × Cursor) → List ℕ → Cursor → List Draw × Cursor
  print func char msg s = let (out, s) = print_all char msg s in (out ++ cursor func s ∷ [], s)

  unfoldable pub klog : List ℕ → Cursor → List Draw × Cursor
  klog msg = print b'd' klog_char msg

  abbrev pub then_line : (Cursor → List Draw × Cursor) → Cursor → List Draw × Cursor
  then_line first s = let (out, s) = first s in let (more, s) = klog (10 ∷ []) s in (out ++ more, s)

  unfoldable pub kklog : List ℕ → Cursor → List Draw × Cursor
  kklog msg = then_line (klog msg)

  unfoldable pub klog_green : List ℕ → Cursor → List Draw × Cursor
  klog_green msg = print b'd' (colour_char true 0x000000 0x00ff00) msg

  unfoldable pub kklog_green : List ℕ → Cursor → List Draw × Cursor
  kklog_green msg = then_line (print b'd' (colour_char true 0x000000 0x00ff00) msg)

  unfoldable pub klog_red : List ℕ → Cursor → List Draw × Cursor
  klog_red msg = print_all (colour_char false 0xffffff 0xff0000) msg

  unfoldable pub klog_yellow : List ℕ → Cursor → List Draw × Cursor
  klog_yellow msg = print b'd' (colour_char true 0xffff00 0x000000) msg

  unfoldable pub klog_orange : List ℕ → Cursor → List Draw × Cursor
  klog_orange msg = print b'd' (colour_char true 0xffa500 0x000000) msg

  unfoldable pub kklog_red : List ℕ → Cursor → List Draw × Cursor
  kklog_red msg = then_line (print b'e' (colour_char true 0xffffff 0xff0000) msg)
