-- ===== src/Templar/Sound.antt =====
-- templar.c: what the arrays of the interpreter's state hold stays inside them. `Keeps` is the claim for one step, with
-- a rule for each way to build a step.
pub mod Numbers
pub mod Steps
pub mod Vars
pub mod Exprs
pub mod Args
pub mod Shapes
pub mod Builtins
pub mod Stmts
pub mod Loops
pub mod Blocks
pub mod Programs
use crusader_os_v.Base.{
  ℕ, ◌+◌, ◌^◌, ◌<◌, ◌≤◌, ◌≡◌, refl, Bool, true, false, List, [], ◌∷◌, ◌++◌, arith, if◌then◌else◌,
  length,
}
use crusader_os_v.Templar.Value.{TplVal, num, str, nil}
use crusader_os_v.Templar.State.{
  TplTok, TplVar, TplFunc, TplState, Run, done, stopped, M, pure, stop, ◌>>=◌, tk_eof, is, Stop,
  max_vars, max_funcs, max_str, max_name, max_params,
}

pub data ValFits : TplVal → Type 0 where
  num_fits : {n : ℕ} → n < 2 ^ 32 → ValFits (num n)
  str_fits : {s : List ℕ} → length s < max_str → ValFits (str s)
  nil_fits : ValFits nil

pub record TokFits (t : TplTok) : Type 0 where
  pub text_fits : length t.text < max_str
  pub number_fits : t.num < 2 ^ 32

pub record VarFits (v : TplVar) : Type 0 where
  pub name_fits : length v.name < max_name
  pub val_fits : ValFits v.val

abbrev pub NameFits : List ℕ → Type 0
NameFits name = length name < max_name

abbrev pub All : {A : Type 0} → (A → Type 0) → List A → Type 0
All P [] = Unit
All P (x ∷ xs) = P x × All P xs

abbrev pub ParamsFit : List (List ℕ) → Type 0
ParamsFit params = (length params ≤ max_params) × All NameFits params

pub record FuncFits (f : TplFunc) : Type 0 where
  pub name_fits : length f.name < max_name
  pub params_fit : ParamsFit f.params

-- The last token, and no other, is the end of the text.
abbrev pub EndsEof : List TplTok → Type 0
EndsEof [] = ⊥
EndsEof (t ∷ []) = is t.kind tk_eof ≡ true
EndsEof (t ∷ u ∷ ts) = (is t.kind tk_eof ≡ false) × EndsEof (u ∷ ts)

-- The tokens do not change while a program runs, and the position is one of them.
pub record IsSound (toks : List TplTok) (s : TplState) : Type 0 where
  pub same_tokens : s.tokens ≡ toks
  pub in_tokens : s.tok_pos < length toks
  pub var_count : length s.vars ≤ max_vars
  pub vars_fit : All VarFits s.vars
  pub func_count : length s.funcs ≤ max_funcs
  pub funcs_fit : All FuncFits s.funcs

pub data Post {A : Type 0} (toks : List TplTok) (P : A → Type 0) : Run A → Type 0 where
  finishes : {a : A} {s : TplState} → P a → IsSound toks s → Post toks P (done a s)
  stops : {why : Stop} {s : TplState} → IsSound toks s → Post toks P (stopped why s)

-- `m` leaves the state sound, with a result that has the property.
pub record Keeps {A : Type 0} (toks : List TplTok) (P : A → Type 0) (m : M A) : Type 0 where
  pub at : (s : TplState) → IsSound toks s → Post toks P (m s)

abbrev pub Any : {A : Type 0} → A → Type 0
Any a = Unit {0}

module _ {toks : List TplTok} where
  pub Keeps-pure : {A : Type 0} {P : A → Type 0} (a : A) → P a → Keeps toks P (pure a)
  unfolding pure
  Keeps-pure a h = record { at = λ s i. finishes h i }

  pub Keeps-stop : {A : Type 0} {P : A → Type 0} (why : Stop) → Keeps toks P (stop why)
  unfolding stop
  Keeps-stop why = record { at = λ s i. stops i }

  Post-bind :
      {A B : Type 0} {P : A → Type 0} {Q : B → Type 0} (m : M A) (f : A → M B) (s : TplState)
      (r : Run A)
      → m s ≡ r
      → Post toks P r
      → ((a : A) → P a → Keeps toks Q (f a))
      → Post toks Q ((m >>= f) s)
  unfolding ◌>>=◌
  Post-bind m f s (done a s') e (finishes h i) k = rw e ((k a h).at s' i)
  Post-bind m f s (stopped why s') e (stops i) k = rw e (stops i)

  -- The rule for `>>=`.
  infixr 1 ◌⟫◌
  pub ◌⟫◌ :
      {A B : Type 0} {P : A → Type 0} {Q : B → Type 0} {m : M A} {f : A → M B}
      → Keeps toks P m
      → ((a : A) → P a → Keeps toks Q (f a))
      → Keeps toks Q (m >>= f)
  ◌⟫◌ {m} {f} k l = record { at = λ s i. Post-bind m f s (m s) refl (k.at s i) l }

  pub Keeps-if :
      {A : Type 0} {P : A → Type 0} (b : Bool) {m n : M A}
      → (b ≡ true → Keeps toks P m)
      → (b ≡ false → Keeps toks P n)
      → Keeps toks P (if b then m else n)
  Keeps-if true h k = h refl
  Keeps-if false h k = k refl

  -- A test whose equation is not used.
  pub Keeps-either :
      {A : Type 0} {P : A → Type 0} (b : Bool) {m n : M A}
      → Keeps toks P m
      → Keeps toks P n
      → Keeps toks P (if b then m else n)
  Keeps-either true h k = h
  Keeps-either false h k = k
