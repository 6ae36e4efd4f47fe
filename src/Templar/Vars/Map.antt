-- ===== src/Templar/Vars/Map.antt =====
-- templar.c: the variables are a map from names to values, with room for 64 of them.
use crusader_os_v.Base.{
  ℕ, ◌≡◌, refl, Bool, true, false, ◌&&◌, ◌||◌, List, [], ◌∷◌, ◌++◌, Option, none, some, arith, ltb,
  if◌then◌else◌, length,
}
use crusader_os_v.Templar.Value.{TplVal, same}
use crusader_os_v.Templar.State.{TplVar, max_vars}
use crusader_os_v.Templar.Vars.{find_var, store_var, set_found, set_vars}

pub same_refl : (a : List ℕ) → same a a ≡ true
unfolding same
same_refl [] = refl
same_refl (x ∷ a) = ground (arith, same_refl a)

-- Names that compare as equal compare alike with every name.
same_cong : (a b c : List ℕ) → same a b ≡ true → same a c ≡ same b c
unfolding same
same_cong [] [] c h = refl
same_cong [] (y ∷ b) [] h = ground arith
same_cong [] (y ∷ b) (z ∷ c) h = ground arith
same_cong (x ∷ a) [] [] h = ground arith
same_cong (x ∷ a) [] (z ∷ c) h = ground arith
same_cong (x ∷ a) (y ∷ b) [] h = ground arith
same_cong (x ∷ a) (y ∷ b) (z ∷ c) h = ground (arith, same_cong a b c)

same_sym : (a b : List ℕ) → same a b ≡ same b a
unfolding same
same_sym [] [] = refl
same_sym [] (y ∷ b) = ground arith
same_sym (x ∷ a) [] = ground arith
same_sym (x ∷ a) (y ∷ b) = ground (arith, same_sym a b)

abbrev pub is_some : Option TplVal → Bool
is_some (some v) = true
is_some none = false

find_var-store_var :
    (vars : List TplVar) (x y : List ℕ) (v : TplVal)
    → find_var (store_var vars x v) y
      ≡ (if same x y && is_some (find_var vars x) then some v else find_var vars y)
unfolding find_var store_var
find_var-store_var [] x y v = ground arith
find_var-store_var (w ∷ vars) x y v = ground (
  arith,
  find_var-store_var vars x y v,
  same_cong w.name x y,
  same_cong x y w.name,
  same_sym x w.name,
  same_sym y w.name,
)

find_var-append :
    (vars : List TplVar) (x y : List ℕ) (v : TplVal)
    → find_var vars x ≡ none
    → find_var (vars ++ record { name = x; val = v } ∷ []) y
      ≡ (if same x y then some v else find_var vars y)
unfolding find_var
find_var-append [] x y v h = refl
find_var-append (w ∷ vars) x y v h = ground (
  arith,
  find_var-append vars x y v,
  same_cong w.name x y,
  same_cong x y w.name,
  same_sym x w.name,
  same_sym y w.name,
)

found :
    (o : Option TplVal) (vars : List TplVar) (x y : List ℕ) (v : TplVal)
    → find_var vars x ≡ o
    → find_var (set_found o vars x v) y
      ≡ (if same x y && (is_some o || ltb (length vars) max_vars) then some v else find_var vars y)
unfolding set_found
found (some w) vars x y v e = ground (arith, find_var-store_var vars x y v)
found none vars x y v e = ground (arith, find_var-append vars x y v e)

-- A variable reads as it was last set: setting one changes no other, and sets it unless it is new and all 64 places are taken, when nothing changes. Names that compare as equal are the same variable.
pub find_var-set_vars :
    (vars : List TplVar) (x y : List ℕ) (v : TplVal)
    → find_var (set_vars vars x v) y ≡ (
        if same x y && (is_some (find_var vars x) || ltb (length vars) max_vars)
        then some v
        else find_var vars y)
unfolding set_vars
find_var-set_vars vars x y v = found (find_var vars x) vars x y v refl
