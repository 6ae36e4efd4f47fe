-- ===== src/Templar/State.antt =====
-- templar.h, and the first operations of templar.c on its state. A step of the interpreter takes the state and returns
-- its result with the state that it leaves, or the reason why there is none.
use crusader_os_v.Base.{
  ℕ, suc, ◌+◌, Bool, true, false, List, [], ◌∷◌, ◌==◌, if◌then◌else◌, get_or, drop, codes,
}
use crusader_os_v.Templar.Value.{TplVal}

-- `TplTokKind`, in its order.
pub data TokKind : Type 0 where
  tk_name tk_num tk_str tk_eq tk_eqeq tk_neq tk_lt tk_gt tk_lte tk_gte tk_plus tk_minus : TokKind
  tk_star tk_slash tk_lparen tk_rparen tk_lbrace tk_rbrace tk_colon tk_comma tk_newline : TokKind
  tk_eof tk_and tk_or tk_not tk_percent : TokKind

abbrev pub kind_code : TokKind → ℕ
kind_code tk_name = 0
kind_code tk_num = 1
kind_code tk_str = 2
kind_code tk_eq = 3
kind_code tk_eqeq = 4
kind_code tk_neq = 5
kind_code tk_lt = 6
kind_code tk_gt = 7
kind_code tk_lte = 8
kind_code tk_gte = 9
kind_code tk_plus = 10
kind_code tk_minus = 11
kind_code tk_star = 12
kind_code tk_slash = 13
kind_code tk_lparen = 14
kind_code tk_rparen = 15
kind_code tk_lbrace = 16
kind_code tk_rbrace = 17
kind_code tk_colon = 18
kind_code tk_comma = 19
kind_code tk_newline = 20
kind_code tk_eof = 21
kind_code tk_and = 22
kind_code tk_or = 23
kind_code tk_not = 24
kind_code tk_percent = 25

abbrev pub is : TokKind → TokKind → Bool
is a b = kind_code a == kind_code b

pub record TplTok : Type 0 where
  pub kind : TokKind
  pub text : List ℕ
  pub num : ℕ
  pub line : ℕ

pub record TplVar : Type 0 where
  pub name : List ℕ
  pub val : TplVal

pub record TplFunc : Type 0 where
  pub name : List ℕ
  pub line : ℕ
  pub params : List (List ℕ)

-- What the interpreter makes the console and the screen do; `nops` is the delay of `sleep`.
pub data Effect : Type 0 where
  klog : List ℕ → Effect
  vesa_clear : ℕ → Effect
  vesa_swap : Effect
  vesa_putpixel : (x y col : ℕ) → Effect
  vesa_draw_rec : (x y width height col : ℕ) → Effect
  vesa_draw_hor : (x y length col : ℕ) → Effect
  vesa_draw_ver : (x y length col : ℕ) → Effect
  vesa_draw_char : (c x y fg bg : ℕ) → Effect
  move_cursor : (x y : ℕ) → Effect
  nops : ℕ → Effect

-- `output` is what was done so far, the last first, and `cursor` tells where it leaves `c_x` and `c_y`. The counts of
-- the source are the lengths of the lists.
pub record TplState : Type 0 where
  pub src : List ℕ
  pub tokens : List TplTok
  pub tok_pos : ℕ
  pub vars : List TplVar
  pub funcs : List TplFunc
  pub error : Bool
  pub error_msg : List ℕ
  pub output : List Effect
  pub cursor : List Effect → ℕ × ℕ

abbrev pub max_vars : ℕ
max_vars = 64

abbrev pub max_funcs : ℕ
max_funcs = 32

abbrev pub max_str : ℕ
max_str = 256

abbrev pub max_name : ℕ
max_name = 64

abbrev pub max_params : ℕ
max_params = 8

abbrev pub max_src : ℕ
max_src = 8192

abbrev pub max_tokens : ℕ
max_tokens = 512

-- `overrun`: the source would write behind an array. `divide_error`: the processor refuses a division.
pub data Stop : Type 0 where
  overrun divide_error out_of_fuel : Stop

-- The end of a computation: its result, or why it stops and the state that it stops in, before the write that would
-- overrun an array.
pub data Run (A : Type 0) : Type 0 where
  done : A → TplState → Run A
  stopped : Stop → TplState → Run A

abbrev pub M : Type 0 → Type 0
M A = TplState → Run A

abbrev continue : {A B : Type 0} → Run A → (A → M B) → Run B
continue (done a s) f = f a s
continue (stopped why s) f = stopped why s

unfoldable pub pure : {A : Type 0} → A → M A
pure a s = done a s

unfoldable pub stop : {A : Type 0} → Stop → M A
stop why s = stopped why s

infixl 5 ◌>>=◌ ◌>>◌
unfoldable pub ◌>>=◌ : {A B : Type 0} → M A → (A → M B) → M B
unfolding pure stop
◌>>=◌ m f s = continue (m s) f

abbrev pub ◌>>◌ : {A B : Type 0} → M A → M B → M B
m >> k = m >>= λ _. k

unfoldable pub has_error : M Bool
has_error s = done s.error s

unfoldable pub tpl_error : List ℕ → M (Unit {0})
tpl_error msg s = done tt (record s { error = true; error_msg = msg })

unfoldable pub emit : Effect → M (Unit {0})
emit e s = done tt (record s { output = e ∷ s.output })

-- Where the array is not written, for the look-ups by `get_or`.
abbrev pub no_tok : TplTok
no_tok = record { kind = tk_eof; text = []; num = 0; line = 0 }

unfoldable pub tpl_peek : M TplTok
tpl_peek s = done (get_or s.tokens s.tok_pos no_tok) s

-- `&s->tokens[s->tok_pos+1]`
unfoldable pub peek_next : M TplTok
peek_next s = done (get_or s.tokens (s.tok_pos + 1) no_tok) s

unfoldable pub get_pos : M ℕ
get_pos s = done s.tok_pos s

unfoldable pub set_pos : ℕ → M (Unit {0})
set_pos p s = done tt (record s { tok_pos = p })

unfoldable pub tpl_advance : M (Unit {0})
tpl_advance s =
    if is (get_or s.tokens s.tok_pos no_tok).kind tk_eof
    then done tt s
    else done tt (record s { tok_pos = s.tok_pos + 1 })

-- A loop that advances: how many of the tokens from the current one on it passes.
unfoldable pub advance_by : (List TplTok → ℕ) → M (Unit {0})
advance_by count s = done tt (record s { tok_pos = s.tok_pos + count (drop s.tok_pos s.tokens) })

unfoldable pub count_newlines : List TplTok → ℕ
count_newlines [] = 0
count_newlines (t ∷ ts) = if is t.kind tk_newline then suc (count_newlines ts) else 0

unfoldable pub tpl_skip_newlines : M (Unit {0})
tpl_skip_newlines = advance_by count_newlines

unfoldable pub tpl_expect : TokKind → M Bool
tpl_expect k = do
  t ← tpl_peek
  if is t.kind k
      then (do tpl_advance; pure true)
      else (do tpl_error (codes "unexpected token"); pure false)

unfoldable pub tpl_match : TokKind → M Bool
tpl_match k = do t ← tpl_peek; if is t.kind k then (do tpl_advance; pure true) else pure false
