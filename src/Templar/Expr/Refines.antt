-- ===== src/Templar/Expr/Refines.antt =====
-- templar.c: `tpl_expr` on the tokens of a tree reads exactly these and gives the value of the tree.
use crusader_os_v.Base.{
  length-append, ℕ, zero, suc, ◌+◌, ◌-◌, ◌≡◌, refl, sym, ap, Bool, true, false, List, ◌∷◌, ◌++◌,
  Option, none, some, arith, ◌==◌, ltb, lt→ltb, if◌then◌else◌, length, ◌<◌, ◌≤◌, Bool-cases, inl,
  inr, ==_iff,
}
use mathlib.Core.Path.{subst}
use crusader_os_v.Templar.Value.{TplVal, num, str}
use crusader_os_v.Templar.State.{TplTok, TplVar, M}
use crusader_os_v.Templar.Vars.{find_var, or_nil}
use crusader_os_v.Templar.Expr.Tree.{
  Expr, lit, text, var, negate, invert, bin, BinOp, mul, rank, op_tok, parens, printed, apply,
  ◌then_val◌, value, NamesFit,
}
use crusader_os_v.Templar.Expr.Levels.{Yields, Loops, first_operand, last_operand, next_operand}
use crusader_os_v.Templar.Expr.Operators.{goes_on, op_tok-Follows, op_tok-ne-eof, apply-operate}
use crusader_os_v.Templar.Expr.Primary.{
  prim, levels, body, Primary, flat, climb, lit_lem, text_lem, var_lem, negate_lem, invert_lem,
  parens_lem,
}

-- The rounds that the operators of a loop take in the tokens of a tree.
pub spine : ℕ → Expr → ℕ
spine d (bin op a b) = if rank op == d then suc (spine d a) else 0
spine d _ = 0

then_val-some :
    (o : Option TplVal) (f : TplVal → Option TplVal) (v : TplVal)
    → (o then_val f) ≡ some v
    → (x : TplVal) × (o ≡ some x) × (f x ≡ some v)
then_val-some (some x) f v h = (x, refl, h)
then_val-some none f v h = cc

-- A loop that has `spine` rounds of its fuel behind it has some left.
spine-lt : (line d : ℕ) (e : Expr) → spine d e < length (printed line (suc d) e)
unfolding spine printed
spine-lt line d (lit n) = omega arith
spine-lt line d (text s) = omega arith
spine-lt line d (var x) = omega arith
spine-lt line d (negate e) = omega arith
spine-lt line d (invert e) = omega arith
spine-lt line d (bin op a b) = elim (Bool-cases (rank op == d)) [
  | inl same ↦
      let e : rank op ≡ d = (==_iff (rank op) d).0 same in
      rw same (
        rw (lt→ltb (rank op) (suc d) (omega (arith, e))) (
          subst
            (λ k.
              suc (spine d a)
              < length (printed line (suc k) a ++ op_tok line op ∷ printed line (rank op) b))
            (sym e)
            (omega (
              arith,
              spine-lt line d a,
              length-append (printed line (suc d) a) (op_tok line op ∷ printed line (rank op) b),
            ))))
  | inr other ↦ rw other (
      some_tokens (ltb (rank op) (suc d)) (printed line (suc (rank op)) a) (op_tok line op)
        (printed line (rank op) b))
]
  where
    some_tokens :
        (t : Bool) (xs : List TplTok) (o : TplTok) (ys : List TplTok)
        → 0 < length (if t then xs ++ o ∷ ys else parens line (xs ++ o ∷ ys))
    some_tokens true xs o ys = omega (arith, length-append xs (o ∷ ys))
    some_tokens false xs o ys = omega arith

some-eq-some : {x y : TplVal} → some x ≡ some y → x ≡ y
some-eq-some h = cc

module _ (line : ℕ) (call : M TplVal → ℕ → List ℕ → M TplVal) (vars : List TplVar) where
  -- Every loop reads a tree, with the fuel that the operators of the loop do not take left.
  abbrev Leveled : Expr → TplVal → Type 0
  Leveled e v =
      (n d : ℕ)
      → d ≤ 3
      → length (printed line (suc d) e) ≤ n
      → Loops vars n d (prim line call vars n n) (printed line (suc d) e) v (n - spine d e)

  pub Read : Expr → TplVal → Type 0
  Read e v = Primary line call vars (printed line 0 e) v × Leveled e v

  -- What a loop reads, its level reads.
  level_of :
      (e : Expr) (v : TplVal) (n d : ℕ)
      → Leveled e v
      → d ≤ 3
      → length (printed line (suc d) e) ≤ n
      → Yields vars (suc d) (levels line call vars n (suc d)) (printed line (suc d) e) v
  level_of e v n d l h k = last_operand vars n _ d _ v (n - spine d e - 1) (
      subst (Loops vars n d (prim line call vars n n) (printed line (suc d) e) v)
        (omega (arith, spine-lt line d e)) (l n d h k))

  pub every_level :
      (e : Expr) (v : TplVal) (n d : ℕ)
      → Read e v
      → d ≤ 4
      → length (printed line d e) ≤ n
      → Yields vars d (levels line call vars n d) (printed line d e) v
  unfolding Read
  every_level e v n zero (p, l) h k = p n n k k
  every_level e v n (suc d) (p, l) h k = level_of e v n d l (omega arith) k

  -- A tree without an operator is read as a primary by every level.
  flat_Leveled :
      (e : Expr) (v : TplVal)
      → ((d : ℕ) → printed line d e ≡ printed line 0 e)
      → ((d : ℕ) → spine d e ≡ 0)
      → Primary line call vars (printed line 0 e) v
      → Leveled e v
  flat_Leveled e v same zeros p zero d h k = absurd (omega (arith, spine-lt line d e))
  flat_Leveled e v same zeros p (suc n) d h k =
      subst (Loops vars (suc n) d (prim line call vars (suc n) (suc n)) (printed line (suc d) e) v)
        (omega (arith, zeros d))
        (subst (λ ts. Loops vars (suc n) d (prim line call vars (suc n) (suc n)) ts v (suc n))
          (sym (same (suc d)))
          (first_operand vars (suc n) _ d _ v (
            flat line call vars _ v n
              (p (suc n) (suc n) (enough _ _ n (same (suc d)) k) (enough _ _ n (same (suc d)) k))
              d)))
    where
      enough : (xs ys : List TplTok) (n : ℕ) → xs ≡ ys → length xs ≤ suc n → length ys ≤ suc n
      enough xs ys n e h = omega (arith, ap length e)

  leaf :
      (e : Expr) (w v : TplVal)
      → ((d : ℕ) → printed line d e ≡ printed line 0 e)
      → ((d : ℕ) → spine d e ≡ 0)
      → Primary line call vars (printed line 0 e) w
      → some w ≡ some v
      → Read e v
  unfolding Read
  leaf e w v same zeros p h =
      subst (λ u. Primary line call vars (printed line 0 e) u × Leveled e u) (some-eq-some h)
        (p, flat_Leveled e w same zeros p)

  rank-le : (op : BinOp) → rank op ≤ 3
  rank-le mul = omega arith
  rank-le _ = omega arith

  module _ (op : BinOp) (a b : Expr) (x y v : TplVal) (ra : Read a x) (rb : Read b y)
      (applied : apply op x y ≡ some v) where
    abbrev tokens : List TplTok
    tokens = body line call vars op a b

    length-tokens :
        length tokens
        ≡ length (printed line (suc (rank op)) a) + suc (length (printed line (rank op) b))
    length-tokens =
        length-append (printed line (suc (rank op)) a) (op_tok line op ∷ printed line (rank op) b)

    -- The loop of the operator: the left operand and one round.
    own_loop :
        (n : ℕ)
        → length tokens ≤ n
        → Loops vars n (rank op) (prim line call vars n n) tokens v (n - suc (spine (rank op) a))
    unfolding Read
    own_loop n h =
        next_operand vars n _ (rank op) _ _ (op_tok line op) x y v _
          (subst
            (Loops vars n (rank op) (prim line call vars n n) (printed line (suc (rank op)) a) x)
            (omega (arith, spine-lt line (rank op) a, length-tokens))
            (ra.1 n (rank op) (rank-le op) (omega (arith, length-tokens))))
          (every_level b y n (rank op) rb (omega (arith, rank-le op))
            (omega (arith, length-tokens)))
          (op_tok-Follows line op) (goes_on op) (op_tok-ne-eof op) (apply-operate op x y v applied)

    higher_level :
        (n d : ℕ)
        → rank op < d
        → length tokens ≤ n
        → Yields vars d (levels line call vars n d) tokens v
    higher_level zero d h k = absurd (omega (arith, length-tokens))
    higher_level (suc n) d h k =
        climb line call vars tokens v n (rank op)
          (last_operand vars (suc n) _ (rank op) tokens v (n - suc (spine (rank op) a)) (
            subst (Loops vars (suc n) (rank op) (prim line call vars (suc n) (suc n)) tokens v)
              (omega (arith, spine-lt line (rank op) a, length-tokens)) (own_loop (suc n) k)))
          d h

    in_parens : Primary line call vars (parens line tokens) v
    in_parens =
        parens_lem line call vars tokens v (λ n h. higher_level n 4 (omega (arith, rank-le op)) h)

    bin_Primary : Primary line call vars (printed line 0 (bin op a b)) v
    unfolding printed
    bin_Primary = rw (no_lower (rank op)) in_parens
      where
        no_lower : (r : ℕ) → ltb r 0 ≡ false
        no_lower r = ground arith

    -- The tokens with or without parentheses, as the loop asks for them.
    either_way :
        (n d : ℕ) (t : Bool)
        → ltb (rank op) (suc d) ≡ t
        → length (if t then tokens else parens line tokens) ≤ n
        → Loops vars n d
            (prim line call vars n n)
            (if t then tokens else parens line tokens)
            v
            (n - (if rank op == d then suc (spine d a) else 0))
    either_way n d true e k = elim (Bool-cases (rank op == d)) [
      | inl own ↦ rw own (
          subst (λ r. Loops vars n r (prim line call vars n n) tokens v (n - suc (spine r a)))
            ((==_iff (rank op) d).0 own) (own_loop n k))
      | inr higher ↦ rw higher (
          subst (Loops vars n d (prim line call vars n n) tokens v) (omega arith)
            (first_operand vars n _ d tokens v (higher_level n d (above (rank op) d e higher) k)))
    ]
      where
        above : (r d : ℕ) → ltb r (suc d) ≡ true → (r == d) ≡ false → r < d
        above r d h k = ground arith
    either_way zero d false e k = absurd (omega arith)
    either_way (suc n) d false e k = rw (lower (rank op) d e) (
        subst (Loops vars (suc n) d (prim line call vars (suc n) (suc n)) (parens line tokens) v)
          (omega arith)
          (first_operand vars (suc n) _ d (parens line tokens) v
            (flat line call vars (parens line tokens) v n (in_parens (suc n) (suc n) k k) d)))
      where
        lower : (r d : ℕ) → ltb r (suc d) ≡ false → (r == d) ≡ false
        lower r d h = ground arith

    bin_Leveled : Leveled (bin op a b) v
    unfolding printed spine
    bin_Leveled n d h k = either_way n d (ltb (rank op) (suc d)) refl k

  -- Every tree is read by the primary and by each loop.
  pub reads : (e : Expr) (v : TplVal) → NamesFit e → value vars e ≡ some v → Read e v
  unfolding Read value printed spine
  reads (lit n) v f h = leaf (lit n) (num n) v (λ d. refl) (λ d. refl) (lit_lem line call vars n) h
  reads (text s) v f h =
      leaf (text s) (str s) v (λ d. refl) (λ d. refl) (text_lem line call vars s) h
  reads (var x) v f h =
      leaf (var x) (or_nil (find_var vars x)) v (λ d. refl) (λ d. refl) (var_lem line call vars x f)
        h
  reads (negate e) v f h =
      let (x, hx, hv) = then_val-some (value vars e) _ v h in
      leaf (negate e) _ v (λ d. refl) (λ d. refl) (negate_lem line call vars e x (reads e x f hx).0)
        hv
  reads (invert e) v f h =
      let (x, hx, hv) = then_val-some (value vars e) _ v h in
      leaf (invert e) _ v (λ d. refl) (λ d. refl) (invert_lem line call vars e x (reads e x f hx).0)
        hv
  reads (bin op a b) v (fa, fb) h =
      let (x, hx, h') = then_val-some (value vars a) _ v h in
      let (y, hy, hv) = then_val-some (value vars b) _ v h' in
      (
        bin_Primary op a b x y v (reads a x fa hx) (reads b y fb hy) hv,
        bin_Leveled op a b x y v (reads a x fa hx) (reads b y fb hy) hv,
      )
