-- ===== src/Text/Laws.antt =====
-- The string functions, on what their arguments mean as strings.
use crusader_os_v.Base.{
  ℕ, zero, suc, ◌≡◌, ◌↔◌, refl, ap, true, List, [], ◌∷◌, ◌++◌, arith, length, take,
}
use crusader_os_v.Base.Int.{is_zero}
use crusader_os_v.Text.{c_string, strlen, strcmp, strcpy, strcat, strncpy}

-- `strcmp` returns 0 exactly for two pointers to the same string.
pub strcmp_iff : (a b : List ℕ) → (is_zero (strcmp a b) ≡ true) ↔ (c_string a ≡ c_string b)
unfolding strcmp c_string
strcmp_iff [] [] = (λ e. refl, λ e. refl)
strcmp_iff [] (y ∷ b) = (λ e. ground arith, λ e. ground arith)
strcmp_iff (x ∷ a) [] = (λ e. ground arith, λ e. ground arith)
strcmp_iff (x ∷ a) (y ∷ b) =
    (λ e. ground (arith, (strcmp_iff a b).0), λ e. ground (arith, (strcmp_iff a b).1))

pub strlen-eq-length : (s : List ℕ) → strlen s ≡ length (c_string s)
unfolding strlen c_string
strlen-eq-length [] = refl
strlen-eq-length (c ∷ s) = ground (arith, strlen-eq-length s)

strcpy-eq-c_string : (s : List ℕ) → strcpy s ≡ c_string s
unfolding strcpy c_string
strcpy-eq-c_string [] = refl
strcpy-eq-c_string (c ∷ s) = ground (arith, strcpy-eq-c_string s)

pub strcat_lem : (d s : List ℕ) → strcat d s ≡ c_string d ++ c_string s
unfolding strcat c_string
strcat_lem [] s = strcpy-eq-c_string s
strcat_lem (c ∷ d) s = ground (arith, strcpy-eq-c_string s, strcat_lem d s)

pub length-strncpy : (s : List ℕ) (n : ℕ) → length (strncpy s n) ≡ n
unfolding strncpy
length-strncpy s zero = refl
length-strncpy [] (suc n) = ap suc (length-strncpy [] n)
length-strncpy (c ∷ s) (suc n) = ground (arith, length-strncpy [] n, length-strncpy s n)

-- What `strncpy` writes means the string cut to `n` bytes, also when it writes no NUL.
pub c_string-strncpy : (s : List ℕ) (n : ℕ) → c_string (strncpy s n) ≡ take n (c_string s)
unfolding strncpy c_string
c_string-strncpy s zero = refl
c_string-strncpy [] (suc n) = refl
c_string-strncpy (c ∷ s) (suc n) = ground (arith, c_string-strncpy s n)
