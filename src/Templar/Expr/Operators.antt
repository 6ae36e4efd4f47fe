-- ===== src/Templar/Expr/Operators.antt =====
-- templar.c: the operators do what the trees of expressions say.
use crusader_os_v.Base.{
  ℕ, ◌≡◌, refl, ap, true, false, ◌||◌, not, Option, some, arith, ◌==◌, if◌then◌else◌,
}
use crusader_os_v.Base.Int.{ℤ, pos, negsuc, neg_part, is_zero}
use crusader_os_v.Templar.Word.{div32, mod32, lt32, le32}
use crusader_os_v.Templar.Value.{TplVal, tpl_strcmp, tpl_val_to_str, tpl_val_num, is_str, of_bool}
use crusader_os_v.Templar.State.{tk_eof, tk_plus, tk_lparen, is, TplState, done, pure, stop, ◌>>=◌}
use crusader_os_v.Templar.Vars.{tpl_strcat}
use crusader_os_v.Templar.Expr.{quotient, factor, sum, compare_text, compare_num, comparison, logic}
use crusader_os_v.Templar.Expr.Tree.{
  BinOp, mul, div, rem, add, sub, eqeq, neq, lt, gt, lte, gte, and_op, or_op, rank, op_kind, op_tok,
  compares, text_compares, divides, apply,
}
use crusader_os_v.Templar.Expr.Levels.{goes, operate, NotBelow, Follows}

pub goes_on : (op : BinOp) → goes (rank op) (op_kind op) ≡ true
goes_on mul = refl
goes_on _ = refl

pub op_tok-Follows : (line : ℕ) (op : BinOp) → Follows (rank op) (op_tok line op)
op_tok-Follows line op = record { no_call = no_call op; below = below op }
  where
    no_call : (op : BinOp) → is (op_kind op) tk_lparen ≡ false
    no_call mul = refl
    no_call _ = refl

    below : (op : BinOp) → NotBelow (rank op) (op_kind op)
    below mul = tt
    below div = tt
    below rem = tt
    below add = (tt, refl)
    below sub = (tt, refl)
    below and_op = (((tt, refl), refl), refl)
    below or_op = (((tt, refl), refl), refl)
    below _ = ((tt, refl), refl)

pub op_tok-ne-eof : (op : BinOp) → is (op_kind op) tk_eof ≡ false
op_tok-ne-eof mul = refl
op_tok-ne-eof _ = refl

num_compares :
    (op : BinOp) (a b : ℕ)
    → rank op ≡ 2
    → compare_num (op_kind op) a b ≡ compares op (lt32 a b) (a == b)
unfolding compare_num lt32 le32
num_compares eqeq a b h = refl
num_compares neq a b h = refl
num_compares lt a b h = refl
num_compares gt a b h = ground arith
num_compares lte a b h = ground arith
num_compares gte a b h = refl
num_compares mul a b h = absurd (omega arith)
num_compares div a b h = absurd (omega arith)
num_compares rem a b h = absurd (omega arith)
num_compares add a b h = absurd (omega arith)
num_compares sub a b h = absurd (omega arith)
num_compares and_op a b h = absurd (omega arith)
num_compares or_op a b h = absurd (omega arith)

sign_compares :
    (op : BinOp) (c : ℤ)
    → rank op ≡ 2
    → compare_text (op_kind op) c ≡ compares op (not (neg_part c == 0)) (is_zero c)
unfolding compare_text
sign_compares eqeq c h = refl
sign_compares neq c h = refl
sign_compares lt c h = refl
sign_compares gt (pos n) h = ground arith
sign_compares gt (negsuc n) h = ground arith
sign_compares lte (pos n) h = ground arith
sign_compares lte (negsuc n) h = ground arith
sign_compares gte (pos n) h = ground arith
sign_compares gte (negsuc n) h = ground arith
sign_compares mul c h = absurd (omega arith)
sign_compares div c h = absurd (omega arith)
sign_compares rem c h = absurd (omega arith)
sign_compares add c h = absurd (omega arith)
sign_compares sub c h = absurd (omega arith)
sign_compares and_op c h = absurd (omega arith)
sign_compares or_op c h = absurd (omega arith)

some_eq : {A : Type 0} {x y : A} → some x ≡ some y → x ≡ y
some_eq h = cc

comparison_lem :
    (op : BinOp) (a b v : TplVal)
    → rank op ≡ 2
    → (if is_str a || is_str b
        then some (of_bool (text_compares op (tpl_val_to_str a) (tpl_val_to_str b)))
        else some (
            of_bool (
              compares op (lt32 (tpl_val_num a) (tpl_val_num b)) (tpl_val_num a == tpl_val_num b))))
      ≡ some v
    → (s : TplState) → comparison (op_kind op) a b s ≡ done v s
unfolding comparison pure text_compares
comparison_lem op a b v r h s =
    elim (is_str a || is_str b)
        as (λ t.
          (if t
              then some (of_bool (text_compares op (tpl_val_to_str a) (tpl_val_to_str b)))
              else some (
                  of_bool (
                    compares op (lt32 (tpl_val_num a) (tpl_val_num b))
                      (tpl_val_num a == tpl_val_num b))))
            ≡ some v
          → (if t
                then pure (
                    of_bool (
                      compare_text (op_kind op) (tpl_strcmp (tpl_val_to_str a) (tpl_val_to_str b))))
                else pure (of_bool (compare_num (op_kind op) (tpl_val_num a) (tpl_val_num b))))
              s
            ≡ done v s) [
              | true ↦ λ e.
                  rw (sign_compares op (tpl_strcmp (tpl_val_to_str a) (tpl_val_to_str b)) r)
                    (ap (λ x. done x s) (some_eq e))
              | false ↦ λ e.
                  rw (num_compares op (tpl_val_num a) (tpl_val_num b) r)
                    (ap (λ x. done x s) (some_eq e))
            ]
      h

quotient_lem :
    (divide : ℕ → ℕ → Option ℕ) (a b : ℕ) (v : TplVal)
    → divides divide a b ≡ some v
    → (s : TplState) → quotient divide a b s ≡ done v s
unfolding pure
quotient_lem divide a b v h s = ground arith

sum_lem : (a b v : TplVal) → apply add a b ≡ some v → (s : TplState) → sum tk_plus a b s ≡ done v s
unfolding apply sum tpl_strcat pure stop ◌>>=◌
sum_lem a b v h s = ground arith

pub apply-operate :
    (op : BinOp) (a b v : TplVal)
    → apply op a b ≡ some v
    → (s : TplState) → operate (rank op) (op_kind op) a b s ≡ done v s
unfolding apply factor sum logic pure
apply-operate mul a b v h s = ap (λ x. done x s) (some_eq h)
apply-operate div a b v h s = quotient_lem div32 _ _ v h s
apply-operate rem a b v h s = quotient_lem mod32 _ _ v h s
apply-operate add a b v h s = sum_lem a b v h s
apply-operate sub a b v h s = ap (λ x. done x s) (some_eq h)
apply-operate and_op a b v h s = ap (λ x. done x s) (some_eq h)
apply-operate or_op a b v h s = ap (λ x. done x s) (some_eq h)
apply-operate eqeq a b v h s = comparison_lem eqeq a b v refl h s
apply-operate neq a b v h s = comparison_lem neq a b v refl h s
apply-operate lt a b v h s = comparison_lem lt a b v refl h s
apply-operate gt a b v h s = comparison_lem gt a b v refl h s
apply-operate lte a b v h s = comparison_lem lte a b v refl h s
apply-operate gte a b v h s = comparison_lem gte a b v refl h s
