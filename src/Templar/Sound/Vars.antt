-- ===== src/Templar/Sound/Vars.antt =====
-- templar.c: the operations on the variables, and the copies to arrays of a fixed size, keep the state sound.
use crusader_os_v.Base.{
  ℕ, ◌+◌, ◌<◌, ◌≤◌, ◌≡◌, refl, true, false, Option, none, some, List, [], ◌∷◌, ◌++◌, arith, inl,
  inr, Bool-cases, ltb, ltb→lt, if◌then◌else◌, length,
}
use crusader_os_v.Templar.Value.{TplVal, same}
use crusader_os_v.Templar.State.{TplTok, TplVar, overrun, max_vars, max_str}
use crusader_os_v.Templar.Vars.{
  find_var, or_nil, store_var, set_found, set_vars, templar_set_var, templar_get_var, copy_name,
  tpl_strcat,
}
use crusader_os_v.Templar.Sound.{
  ValFits, nil_fits, VarFits, All, NameFits, finishes, Keeps, Any, Keeps-pure, Keeps-stop, Keeps-if,
}

length-store_var :
    (vars : List TplVar) (name : List ℕ) (v : TplVal) → length (store_var vars name v) ≡ length vars
unfolding store_var
length-store_var [] name v = refl
length-store_var (w ∷ vars) name v = ground (arith, length-store_var vars name v)

store_var_fits :
    (vars : List TplVar) (name : List ℕ) (v : TplVal)
    → ValFits v
    → All VarFits vars
    → All VarFits (store_var vars name v)
unfolding store_var
store_var_fits [] name v f h = h
store_var_fits (w ∷ vars) name v f (hw, h) =
    elim (same w.name name)
      as (λ b. All VarFits (if b then record w { val = v } ∷ vars else w ∷ store_var vars name v)) [
        | true ↦ (record { name_fits = hw.name_fits; val_fits = f }, h)
        | false ↦ (hw, store_var_fits vars name v f h)
      ]

find_var_fits :
    (vars : List TplVar) (name : List ℕ) → All VarFits vars → ValFits (or_nil (find_var vars name))
unfolding find_var
find_var_fits [] name h = nil_fits
find_var_fits (w ∷ vars) name (hw, h) =
    elim (same w.name name)
      as (λ b. ValFits (or_nil (if b then some w.val else find_var vars name))) [
        | true ↦ hw.val_fits
        | false ↦ find_var_fits vars name h
      ]

pub All-snoc :
    {A : Type 0} (P : A → Type 0) (xs : List A) (x : A) → All P xs → P x → All P (xs ++ x ∷ [])
All-snoc P [] x h hx = (hx, tt)
All-snoc P (y ∷ xs) x (hy, h) hx = (hy, All-snoc P xs x h hx)

pub length-snoc : {A : Type 0} (xs : List A) (x : A) → length (xs ++ x ∷ []) ≡ length xs + 1
length-snoc [] x = omega arith
length-snoc (y ∷ xs) x = omega (arith, length-snoc xs x)

abbrev AreVars : List TplVar → Type 0
AreVars vars = (length vars ≤ max_vars) × All VarFits vars

set_found-AreVars :
    (o : Option TplVal) (vars : List TplVar) (name : List ℕ) (v : TplVal)
    → AreVars vars
    → NameFits name
    → ValFits v
    → AreVars (set_found o vars name v)
unfolding set_found
set_found-AreVars (some _) vars name v (l, h) n f =
    (omega (arith, length-store_var vars name v), store_var_fits vars name v f h)
set_found-AreVars none vars name v (l, h) n f = elim (Bool-cases (ltb (length vars) max_vars)) [
  | inl room ↦ rw room (
    omega (arith, length-snoc vars (record { name = name; val = v }), ltb→lt _ _ room),
    All-snoc VarFits vars _ h (record { name_fits = n; val_fits = f }),
  )
  | inr full ↦ rw full (l, h)
]

module _ {toks : List TplTok} where
  pub Keeps-set_var :
      (name : List ℕ) (v : TplVal)
      → NameFits name
      → ValFits v
      → Keeps toks Any (templar_set_var name v)
  unfolding templar_set_var set_vars
  Keeps-set_var name v n f = record {
    at = λ s i.
        let both =
          set_found-AreVars (find_var s.vars name) s.vars name v (i.var_count, i.vars_fit) n f in
        finishes tt (record {
          same_tokens = i.same_tokens;
          in_tokens = i.in_tokens;
          var_count = both.0;
          vars_fit = both.1;
          func_count = i.func_count;
          funcs_fit = i.funcs_fit;
        });
  }

  pub Keeps-get_var : (name : List ℕ) → Keeps toks ValFits (templar_get_var name)
  unfolding templar_get_var
  Keeps-get_var name = record { at = λ s i. finishes (find_var_fits s.vars name i.vars_fit) i }

  pub Keeps-copy_name : (name : List ℕ) → Keeps toks NameFits (copy_name name)
  unfolding copy_name
  Keeps-copy_name name = Keeps-if _ (λ h. Keeps-pure name (ltb→lt _ _ h)) (λ _. Keeps-stop overrun)

  pub Keeps-strcat : (a b : List ℕ) → Keeps toks (λ s. length s < max_str) (tpl_strcat a b)
  unfolding tpl_strcat
  Keeps-strcat a b = Keeps-if _ (λ h. Keeps-pure (a ++ b) (ltb→lt _ _ h)) (λ _. Keeps-stop overrun)
