-- ===== src/Templar/Expr/Tree.antt =====
-- templar.c: the expressions of the language as trees, their tokens and their values: what the parser that evaluates is
-- compared with.
use crusader_os_v.Base.{
  ℕ, suc, ◌<◌, Bool, ◌&&◌, ◌||◌, not, List, [], ◌∷◌, ◌++◌, Option, none, some, ◌==◌, ltb,
  if◌then◌else◌, length, codes,
}
use crusader_os_v.Base.Int.{neg_part, is_zero}
use crusader_os_v.Templar.Word.{neg32, add32, sub32, mul32, div32, mod32, lt32}
use crusader_os_v.Templar.Value.{
  TplVal, num, str, tpl_itoa, tpl_strcmp, tpl_val_to_str, tpl_val_truthy, tpl_val_num, is_str,
  of_bool,
}
use crusader_os_v.Templar.State.{
  TokKind, tk_name, tk_num, tk_str, tk_eqeq, tk_neq, tk_lt, tk_gt, tk_lte, tk_gte, tk_plus,
  tk_minus, tk_star, tk_slash, tk_lparen, tk_rparen, tk_and, tk_or, tk_not, tk_percent, TplTok,
  TplVar, max_str, max_name,
}
use crusader_os_v.Templar.Vars.{find_var, or_nil}
use crusader_os_v.Templar.Lexer.{tok}

pub data BinOp : Type 0 where
  mul div rem add sub eqeq neq lt gt lte gte and_op or_op : BinOp

pub data Expr : Type 0 where
  lit : ℕ → Expr
  text : List ℕ → Expr
  var : List ℕ → Expr
  negate : Expr → Expr
  invert : Expr → Expr
  bin : BinOp → Expr → Expr → Expr

-- How loosely an operator binds.
abbrev pub rank : BinOp → ℕ
rank mul = 0
rank div = 0
rank rem = 0
rank add = 1
rank sub = 1
rank and_op = 3
rank or_op = 3
rank _ = 2

abbrev pub op_kind : BinOp → TokKind
op_kind mul = tk_star
op_kind div = tk_slash
op_kind rem = tk_percent
op_kind add = tk_plus
op_kind sub = tk_minus
op_kind eqeq = tk_eqeq
op_kind neq = tk_neq
op_kind lt = tk_lt
op_kind gt = tk_gt
op_kind lte = tk_lte
op_kind gte = tk_gte
op_kind and_op = tk_and
op_kind or_op = tk_or

abbrev pub op_text : BinOp → List ℕ
op_text mul = codes "*"
op_text div = codes "/"
op_text rem = codes "%"
op_text add = codes "+"
op_text sub = codes "-"
op_text eqeq = codes "=="
op_text neq = codes "!="
op_text lt = codes "<"
op_text gt = codes ">"
op_text lte = codes "<="
op_text gte = codes ">="
op_text and_op = codes "and"
op_text or_op = codes "or"

-- The tokens of an expression in a line. `level` is how loosely its operator may bind without parentheses; the right
-- operand binds more tightly than the operator.
module _ (line : ℕ) where
  abbrev pub parens : List TplTok → List TplTok
  parens ts = tok line tk_lparen (codes "(") ∷ (ts ++ tok line tk_rparen (codes ")") ∷ [])

  abbrev pub op_tok : BinOp → TplTok
  op_tok op = tok line (op_kind op) (op_text op)

  unfoldable pub printed : ℕ → Expr → List TplTok
  printed level (lit n) = record (tok line tk_num (tpl_itoa n)) { num = n } ∷ []
  printed level (text s) = tok line tk_str s ∷ []
  printed level (var x) = tok line tk_name x ∷ []
  printed level (negate e) = tok line tk_minus (codes "-") ∷ printed 0 e
  printed level (invert e) = tok line tk_not (codes "not") ∷ printed 0 e
  printed level (bin op a b) =
      let body = printed (suc (rank op)) a ++ op_tok op ∷ printed (rank op) b in
      if ltb (rank op) level then body else parens body

-- What a comparison says, from whether the operands are in order and whether they are equal.
abbrev pub compares : BinOp → Bool → Bool → Bool
compares eqeq less same = same
compares neq less same = not same
compares lt less same = less
compares gt less same = not (less || same)
compares lte less same = less || same
compares _ less same = not less

unfoldable pub text_compares : BinOp → List ℕ → List ℕ → Bool
text_compares op a b = let c = tpl_strcmp a b in compares op (not (neg_part c == 0)) (is_zero c)

abbrev pub divides : (ℕ → ℕ → Option ℕ) → ℕ → ℕ → Option TplVal
divides divide a b =
    if b == 0 then some (num 0) else elim (divide a b) [ some q ↦ some (num q) | none ↦ none ]

-- The value of an operator, `none` where the code would overrun a buffer or the processor faults.
unfoldable pub apply : BinOp → TplVal → TplVal → Option TplVal
unfolding text_compares
apply mul a b = some (num (mul32 (tpl_val_num a) (tpl_val_num b)))
apply div a b = divides div32 (tpl_val_num a) (tpl_val_num b)
apply rem a b = divides mod32 (tpl_val_num a) (tpl_val_num b)
apply add a b =
    let joined = tpl_val_to_str a ++ tpl_val_to_str b in
    if is_str a || is_str b
    then (if ltb (length joined) max_str then some (str joined) else none)
    else some (num (add32 (tpl_val_num a) (tpl_val_num b)))
apply sub a b = some (num (sub32 (tpl_val_num a) (tpl_val_num b)))
apply and_op a b = some (of_bool (tpl_val_truthy a && tpl_val_truthy b))
apply or_op a b = some (of_bool (tpl_val_truthy a || tpl_val_truthy b))
apply op a b =
    if is_str a || is_str b
    then some (of_bool (text_compares op (tpl_val_to_str a) (tpl_val_to_str b)))
    else some (
        of_bool
          (compares op (lt32 (tpl_val_num a) (tpl_val_num b)) (tpl_val_num a == tpl_val_num b)))

infixl 5 ◌then_val◌
abbrev pub ◌then_val◌ : Option TplVal → (TplVal → Option TplVal) → Option TplVal
some v then_val f = f v
none then_val f = none

-- The value of an expression, with the variables as they are.
unfoldable pub value : List TplVar → Expr → Option TplVal
unfolding find_var apply
value vars (lit n) = some (num n)
value vars (text s) = some (str s)
value vars (var x) = some (or_nil (find_var vars x))
value vars (negate e) = value vars e then_val λ v. some (num (neg32 (tpl_val_num v)))
value vars (invert e) = value vars e then_val λ v. some (of_bool (not (tpl_val_truthy v)))
value vars (bin op a b) = value vars a then_val λ x. value vars b then_val λ y. apply op x y

-- Every name fits the buffer that it is copied to.
abbrev pub NamesFit : Expr → Type 0
NamesFit (lit n) = Unit
NamesFit (text s) = Unit
NamesFit (var x) = length x < max_name
NamesFit (negate e) = NamesFit e
NamesFit (invert e) = NamesFit e
NamesFit (bin op a b) = NamesFit a × NamesFit b
