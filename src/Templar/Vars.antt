-- ===== src/Templar/Vars.antt =====
-- templar.c: the variables, and the copies of strings into arrays of a fixed size.
pub mod Map
use crusader_os_v.Base.{
  ℕ, Bool, true, false, List, [], ◌∷◌, ◌++◌, Option, none, some, ltb, if◌then◌else◌, length,
}
use crusader_os_v.Templar.Value.{TplVal, nil, same}
use crusader_os_v.Templar.State.{
  TplVar, TplState, overrun, done, M, pure, stop, max_vars, max_str, max_name,
}

unfoldable pub find_var : List TplVar → List ℕ → Option TplVal
find_var [] name = none
find_var (v ∷ vars) name = if same v.name name then some v.val else find_var vars name

-- The first variable of that name gets the value.
unfoldable pub store_var : List TplVar → List ℕ → TplVal → List TplVar
store_var [] name val = []
store_var (v ∷ vars) name val =
    if same v.name name then record v { val = val } ∷ vars else v ∷ store_var vars name val

-- What is done with the value that the name had, if it had one.
unfoldable pub set_found : Option TplVal → List TplVar → List ℕ → TplVal → List TplVar
set_found (some _) vars name val = store_var vars name val
set_found none vars name val =
    if ltb (length vars) max_vars then vars ++ record { name = name; val = val } ∷ [] else vars

unfoldable pub set_vars : List TplVar → List ℕ → TplVal → List TplVar
set_vars vars name val = set_found (find_var vars name) vars name val

unfoldable pub templar_set_var : List ℕ → TplVal → M (Unit {0})
templar_set_var name val s = done tt (record s { vars = set_vars s.vars name val })

abbrev pub or_nil : Option TplVal → TplVal
or_nil (some v) = v
or_nil none = nil

unfoldable pub templar_get_var : List ℕ → M TplVal
templar_get_var name s = done (or_nil (find_var s.vars name)) s

-- `tpl_strcpy` to a `char[64]`, and `tpl_strcat` in a buffer of 256 bytes.
unfoldable pub copy_name : List ℕ → M (List ℕ)
copy_name name = if ltb (length name) max_name then pure name else stop overrun

unfoldable pub tpl_strcat : List ℕ → List ℕ → M (List ℕ)
tpl_strcat buf tmp = if ltb (length (buf ++ tmp)) max_str then pure (buf ++ tmp) else stop overrun
