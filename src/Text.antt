-- ===== src/Text.antt =====
-- string.c: C strings as lists of bytes. A pointer into memory is the list of the bytes from there
-- on; the end of the list stands for a NUL, so a list need not write its own.
pub mod Laws
pub mod Numbers
pub mod Decimal
use crusader_os_v.Base.{
  ℕ, zero, suc, ◌+◌, ◌-◌, ◌≡◌, Bool, true, false, ◌&&◌, ◌||◌, not, List, [], ◌∷◌, ◌++◌, ◌==◌, leb,
  if◌then◌else◌, get_or, replicate,
}
use crusader_os_v.Base.Int.{ℤ, sub_ℕ}

-- `*s`
abbrev pub head : List ℕ → ℕ
head [] = 0
head (c ∷ s) = c

-- The bytes before the first NUL: what a pointer means as a string.
unfoldable pub c_string : List ℕ → List ℕ
c_string [] = []
c_string (c ∷ s) = if c == 0 then [] else c ∷ c_string s

unfoldable pub strlen : List ℕ → ℕ
strlen [] = 0
strlen (c ∷ s) = if c == 0 then 0 else suc (strlen s)

unfoldable pub strcmp : List ℕ → List ℕ → ℤ
strcmp [] b = sub_ℕ 0 (head b)
strcmp (x ∷ a) [] = sub_ℕ x 0
strcmp (x ∷ a) (y ∷ b) = if not (x == 0) && x == y then strcmp a b else sub_ℕ x y

-- The string that `strcpy` leaves at its destination, without the final NUL.
unfoldable pub strcpy : List ℕ → List ℕ
strcpy [] = []
strcpy (c ∷ s) = if c == 0 then [] else c ∷ strcpy s

-- The string that `strcat` leaves at its destination.
unfoldable pub strcat : List ℕ → List ℕ → List ℕ
unfolding strcpy
strcat [] src = strcpy src
strcat (d ∷ dest) src = if d == 0 then strcpy src else d ∷ strcat dest src

-- The `n` bytes that `strncpy` writes: the string, then NULs.
unfoldable pub strncpy : List ℕ → ℕ → List ℕ
strncpy src zero = []
strncpy [] (suc n) = 0 ∷ strncpy [] n
strncpy (c ∷ src) (suc n) = if c == 0 then 0 ∷ strncpy [] n else c ∷ strncpy src n
