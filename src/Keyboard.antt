-- ===== src/Keyboard.antt =====
-- The keyboard of bioskbd.c.
pub mod Laws
use Prim.Native.Nat.{bit_and}
use crusader_os_v.Base.{
  ℕ, ◌+◌, ◌<◌, Bool, true, false, ◌||◌, List, [], ◌∷◌, Option, none, some, ◌==◌, leb, get_or,
  if◌then◌else◌,
}

pub record Keyboard : Type 0 where
  pub shift_pressed : Bool
  pub is_extended : Bool

abbrev pub map_lower : List ℕ
map_lower =
    0 ∷ 27 ∷ 49 ∷ 50 ∷ 51 ∷ 52 ∷ 53 ∷ 54 ∷ 55 ∷ 56 ∷ 57 ∷ 48 ∷ 45 ∷ 61 ∷ 8 ∷ 9 ∷ 113 ∷ 119 ∷ 101
    ∷ 114 ∷ 116 ∷ 121 ∷ 117 ∷ 105 ∷ 111 ∷ 112 ∷ 91 ∷ 93 ∷ 10 ∷ 0 ∷ 97 ∷ 115 ∷ 100 ∷ 102 ∷ 103 ∷ 104
    ∷ 106 ∷ 107 ∷ 108 ∷ 59 ∷ 39 ∷ 96 ∷ 0 ∷ 92 ∷ 122 ∷ 120 ∷ 99 ∷ 118 ∷ 98 ∷ 110 ∷ 109 ∷ 44 ∷ 46 ∷ 47
    ∷ 0 ∷ 42 ∷ 0 ∷ 32 ∷ 0 ∷ 0 ∷ 0 ∷ 0 ∷ 0 ∷ 0 ∷ 0 ∷ 0 ∷ 0 ∷ 0 ∷ 0 ∷ 0 ∷ 0 ∷ 55 ∷ 56 ∷ 57 ∷ 45 ∷ 52
    ∷ 53 ∷ 54 ∷ 43 ∷ 49 ∷ 50 ∷ 51 ∷ 48 ∷ 46 ∷ []

abbrev pub map_upper : List ℕ
map_upper =
    0 ∷ 27 ∷ 33 ∷ 64 ∷ 35 ∷ 36 ∷ 37 ∷ 94 ∷ 38 ∷ 42 ∷ 40 ∷ 41 ∷ 95 ∷ 43 ∷ 8 ∷ 9 ∷ 81 ∷ 87 ∷ 69 ∷ 82
    ∷ 84 ∷ 89 ∷ 85 ∷ 73 ∷ 79 ∷ 80 ∷ 123 ∷ 125 ∷ 10 ∷ 0 ∷ 65 ∷ 83 ∷ 68 ∷ 70 ∷ 71 ∷ 72 ∷ 74 ∷ 75 ∷ 76
    ∷ 58 ∷ 34 ∷ 126 ∷ 0 ∷ 124 ∷ 90 ∷ 88 ∷ 67 ∷ 86 ∷ 66 ∷ 78 ∷ 77 ∷ 60 ∷ 62 ∷ 63 ∷ 0 ∷ 42 ∷ 0 ∷ 32
    ∷ 0 ∷ 0 ∷ 0 ∷ 0 ∷ 0 ∷ 0 ∷ 0 ∷ 0 ∷ 0 ∷ 0 ∷ 0 ∷ 0 ∷ 0 ∷ 55 ∷ 56 ∷ 57 ∷ 45 ∷ 52 ∷ 53 ∷ 54 ∷ 43 ∷ 49
    ∷ 50 ∷ 51 ∷ 48 ∷ 46 ∷ []

-- The character of a scancode; the tables have 128 entries, zero from where the initialisers end.
unfoldable pub key_char : Bool → ℕ → ℕ
key_char shift sc = if shift then get_or map_upper sc 0 else get_or map_lower sc 0

-- `bios_getchar_nonblocking` on the scancode that is waiting, a byte, if one is; 0 is no character.
unfoldable pub bios_getchar_nonblocking : Option ℕ → Keyboard → ℕ × Keyboard
bios_getchar_nonblocking none s = (0, s)
bios_getchar_nonblocking (some sc) s =
    if sc == 0xe0
    then (0, record s { is_extended = true })
    else if (sc == 0x2a) || (sc == 0x36)
    then (0, record s { shift_pressed = true })
    else if (sc == 0xaa) || (sc == 0xb6)
    then (0, record s { shift_pressed = false })
    else if leb 0x80 sc
    then (0, record s { is_extended = false })
    else if s.is_extended
    then (0, record s { is_extended = false })
    else (key_char s.shift_pressed sc, s)
