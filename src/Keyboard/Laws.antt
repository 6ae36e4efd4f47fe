-- ===== src/Keyboard/Laws.antt =====
-- What is typed is what the scancodes of the keys pressed say.
use crusader_os_v.Base.{
  ℕ, ◌+◌, ◌<◌, ◌≢◌, Bool, true, false, List, [], ◌∷◌, ◌++◌, some, ◌==◌, if◌then◌else◌, ◌-◌, ◌&&◌,
  leb, ltb, length, get_or, codes,
}
use crusader_os_v.Keyboard.{Keyboard, key_char, bios_getchar_nonblocking}

-- The zero character is none.
abbrev pub visible : ℕ → List ℕ → List ℕ
visible c text = if c == 0 then text else c ∷ text

-- The characters that a list of scancodes gives, and the keyboard after it.
unfoldable pub typed : List ℕ → Keyboard → List ℕ × Keyboard
typed [] s = ([], s)
typed (sc ∷ scs) s =
    let (c, s) = bios_getchar_nonblocking (some sc) s in
    let (text, s) = typed scs s in (visible c text, s)

-- What is done at the keyboard: a key pressed and released, one of those with the prefix 0xe0, or a shift key
-- (the right one or the left one) pressed or released.
pub data KeyEvent : Type 0 where
  key : ℕ → KeyEvent
  extended_key : ℕ → KeyEvent
  shift_key : Bool → Bool → KeyEvent

-- The scancode of a key that is neither a shift key nor 0x60, which would be released by the prefix.
pub record IsKey (sc : ℕ) : Type 0 where
  pub seven_bits : sc < 0x80
  pub not_left : sc ≢ 0x2a
  pub not_right : sc ≢ 0x36
  pub not_prefix : sc ≢ 0x60

abbrev pub IsEvent : KeyEvent → Type 0
IsEvent (key sc) = IsKey sc
IsEvent (extended_key sc) = IsKey sc
IsEvent (shift_key right down) = Unit {0}

abbrev pub AllEvents : List KeyEvent → Type 0
AllEvents [] = Unit {0}
AllEvents (e ∷ es) = IsEvent e × AllEvents es

unfoldable pub scancodes : List KeyEvent → List ℕ
scancodes [] = []
scancodes (key sc ∷ es) = sc ∷ (sc + 0x80) ∷ scancodes es
scancodes (extended_key sc ∷ es) = 0xe0 ∷ sc ∷ 0xe0 ∷ (sc + 0x80) ∷ scancodes es
scancodes (shift_key right down ∷ es) =
    ((if right then 0x36 else 0x2a) + (if down then 0 else 0x80)) ∷ scancodes es

-- Keys in a row, from a scancode on: what they give without and with shift.
record Row : Type 0 where
  first : ℕ
  plain : List ℕ
  shifted : List ℕ

-- The keys of the US layout, row by row: the digits, the three rows of letters, the keys beside them and the keypad.
abbrev us_layout : List Row
us_layout =
    record { first = 1; plain = 27 ∷ []; shifted = 27 ∷ [] }
    ∷ record { first = 2; plain = codes "1234567890-="; shifted = codes "!@#$%^&*()_+" }
    ∷ record { first = 14; plain = 8 ∷ 9 ∷ []; shifted = 8 ∷ 9 ∷ [] }
    ∷ record { first = 16; plain = codes "qwertyuiop[]"; shifted = codes "QWERTYUIOP{}" }
    ∷ record { first = 28; plain = 10 ∷ []; shifted = 10 ∷ [] }
    ∷ record {
      first = 30;
      plain = codes "asdfghjkl;'`";
      shifted = codes "ASDFGHJKL:" ++ b'"' ∷ b'~' ∷ [];
    }
    ∷ record { first = 43; plain = b'\\' ∷ codes "zxcvbnm,./"; shifted = codes "|ZXCVBNM<>?" }
    ∷ record { first = 55; plain = codes "*"; shifted = codes "*" }
    ∷ record { first = 57; plain = codes " "; shifted = codes " " }
    ∷ record { first = 71; plain = codes "789-456+1230."; shifted = codes "789-456+1230." }
    ∷ []

-- What is printed on a key, 0 for a key that gives no character.
abbrev on_key : List Row → Bool → ℕ → ℕ
on_key [] shift sc = 0
on_key (row ∷ rows) shift sc =
    let rest = on_key rows shift sc in
    if leb row.first sc && ltb sc (row.first + length row.plain)
    then get_or (if shift then row.shifted else row.plain) (sc - row.first) 0
    else rest

unfoldable pub legend : Bool → ℕ → ℕ
legend shift sc = on_key us_layout shift sc

abbrev same_legend : ℕ → Bool
same_legend sc =
    key_char true sc == on_key us_layout true sc && key_char false sc == on_key us_layout false sc

-- The text that the events mean on a US keyboard, from a state of the shift keys on.
unfoldable pub meaning : List KeyEvent → Bool → List ℕ × Bool
meaning [] shift = ([], shift)
meaning (key sc ∷ es) shift =
    let (text, last) = meaning es shift in (visible (legend shift sc) text, last)
meaning (extended_key sc ∷ es) shift = meaning es shift
meaning (shift_key right down ∷ es) shift = meaning es down
