-- ===== src/Console/Bounds.antt =====
-- The cursor stays on the grid of the console.
use crusader_os_v.Base.{ℕ, ◌%◌, ◌≤◌, ◌<◌, ◌≡◌, arith, Bool, true, false, List, [], ◌∷◌, ◌++◌}
use crusader_os_v.Console.{
  Draw, draw_char, draw_rec, clear, Cursor, cursor, wrap_screen, klog_char, colour_char, print_all,
  print, then_line, klog, kklog, klog_green, kklog_green, klog_red, klog_yellow, klog_orange,
  kklog_red,
}

-- The cursor is at a cell of 8 by 8 pixels, in the first 120 columns and 90 lines.
abbrev pub IsOnGrid : Cursor → Type 0
IsOnGrid s = (s.c_x ≤ 952) × (s.c_y < 720) × (s.c_x % 8 ≡ 0) × (s.c_y % 8 ≡ 0)

-- A character is drawn in a cell of the grid.
abbrev pub InCell : Draw → Type 0
InCell (draw_char c x y fg bg) = (x ≤ 952) × (y < 720) × (x % 8 ≡ 0) × (y % 8 ≡ 0)
InCell (draw_rec x y width height col) = Unit {0}
InCell (clear col) = Unit {0}

abbrev pub AllInCells : List Draw → Type 0
AllInCells [] = Unit {0}
AllInCells (d ∷ ds) = InCell d × AllInCells ds

abbrev pub StaysOnGrid : (Cursor → List Draw × Cursor) → Type 0
StaysOnGrid op = (s : Cursor) → IsOnGrid s → AllInCells (op s).0 × IsOnGrid (op s).1

AllInCells-append : (xs ys : List Draw) → AllInCells xs → AllInCells ys → AllInCells (xs ++ ys)
AllInCells-append [] ys a b = b
AllInCells-append (x ∷ xs) ys (a, rest) b = (a, AllInCells-append xs ys rest b)

-- Between the character and the wrap the cursor may be on the line below the last one.
abbrev IsNearGrid : Cursor → Type 0
IsNearGrid s = (s.c_x ≤ 952) × (s.c_y ≤ 720) × (s.c_x % 8 ≡ 0) × (s.c_y % 8 ≡ 0)

abbrev StepsInCells : (ℕ → Cursor → List Draw × Cursor) → Type 0
StepsInCells char =
    (c : ℕ) (s : Cursor) → IsOnGrid s → AllInCells (char c s).0 × IsNearGrid (char c s).1

klog_char-cells : StepsInCells klog_char
unfolding klog_char
klog_char-cells c s ok = ground arith

colour_char-cells : (erase : Bool) (fg bg : ℕ) → StepsInCells (colour_char erase fg bg)
unfolding colour_char
colour_char-cells erase fg bg c s ok = ground arith

wrap_screen-cells :
    (ready : Bool) (s : Cursor)
    → IsNearGrid s
    → AllInCells (wrap_screen ready s).0 × IsOnGrid (wrap_screen ready s).1
unfolding wrap_screen
wrap_screen-cells ready s ok = ground arith

print_all-cells :
    (ready : Bool) (char : ℕ → Cursor → List Draw × Cursor) (msg : List ℕ)
    → StepsInCells char
    → StaysOnGrid (print_all ready char msg)
unfolding print_all
print_all-cells ready char [] step s ok = (tt, ok)
print_all-cells ready char (c ∷ msg) step s ok =
    let (cells, near) = step c s ok in
    let (cells', grid) = wrap_screen-cells ready (char c s).1 near in
    let (cells'', grid') =
      print_all-cells ready char msg step (wrap_screen ready (char c s).1).1 grid in
    let out = (wrap_screen ready (char c s).1).0 in
    let more = (print_all ready char msg (wrap_screen ready (char c s).1).1).0 in
    (
      AllInCells-append ((char c s).0 ++ out) more (AllInCells-append (char c s).0 out cells cells')
          cells'',
      grid',
    )

cursor-cells : (func : ℕ) (s : Cursor) → InCell (cursor func s)
cursor-cells func s = ground arith

print-cells :
    (ready : Bool) (func : ℕ) (char : ℕ → Cursor → List Draw × Cursor) (msg : List ℕ)
    → StepsInCells char
    → StaysOnGrid (print ready func char msg)
print-cells ready func char msg step s ok =
    let (cells, grid) = print_all-cells ready char msg step s ok in
    (
      AllInCells-append (print_all ready char msg s).0
          (cursor func (print_all ready char msg s).1 ∷ []) cells
          (cursor-cells func (print_all ready char msg s).1, tt),
      grid,
    )

klog-cells : (ready : Bool) (msg : List ℕ) → StaysOnGrid (klog ready msg)
unfolding klog
klog-cells ready msg = print-cells ready b'd' klog_char msg klog_char-cells

then_line-cells :
    (ready : Bool) (op : Cursor → List Draw × Cursor)
    → StaysOnGrid op
    → StaysOnGrid (then_line ready op)
then_line-cells ready op ok s grid =
    let (cells, grid) = ok s grid in
    let (cells', grid') = klog-cells ready (10 ∷ []) (op s).1 grid in
    (AllInCells-append (op s).0 (klog ready (10 ∷ []) (op s).1).0 cells cells', grid')

-- Every print function of the console, on any message: from a cursor on the grid, each character is drawn in a cell of
-- the grid, and the cursor is on the grid after it.
pub klog-IsOnGrid :
    (ready : Bool) (msg : List ℕ)
    → StaysOnGrid (klog ready msg)
      × StaysOnGrid (kklog ready msg)
      × StaysOnGrid (klog_green ready msg)
      × StaysOnGrid (kklog_green ready msg)
      × StaysOnGrid (klog_red ready msg)
      × StaysOnGrid (klog_yellow ready msg)
      × StaysOnGrid (klog_orange ready msg)
      × StaysOnGrid (kklog_red ready msg)
unfolding kklog klog_green kklog_green klog_red klog_yellow klog_orange kklog_red
klog-IsOnGrid ready msg =
    let colour = λ (fg bg : ℕ).
      print-cells ready b'd' (colour_char true fg bg) msg (colour_char-cells true fg bg) in
    (
      klog-cells ready msg,
      then_line-cells ready (klog ready msg) (klog-cells ready msg),
      colour 0x000000 0x00ff00,
      then_line-cells ready (print ready b'd' (colour_char true 0x000000 0x00ff00) msg)
          (colour 0x000000 0x00ff00),
      print_all-cells ready (colour_char false 0xffffff 0xff0000) msg
          (colour_char-cells false 0xffffff 0xff0000),
      colour 0xffff00 0x000000,
      colour 0xffa500 0x000000,
      then_line-cells ready (print ready b'e' (colour_char true 0xffffff 0xff0000) msg) (
          print-cells ready b'e' (colour_char true 0xffffff 0xff0000) msg
            (colour_char-cells true 0xffffff 0xff0000)),
    )
