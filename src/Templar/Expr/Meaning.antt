-- ===== src/Templar/Expr/Meaning.antt =====
-- templar.c: the value of an expression, read from its tokens.
use crusader_os_v.Base.{
  ℕ, zero, suc, ◌<◌, ◌≡◌, refl, ap, ◌∙◌, false, List, ◌∷◌, ◌++◌, some, arith, length,
}
use crusader_os_v.Templar.Value.{TplVal}
use crusader_os_v.Templar.State.{TplTok, TplState, done}
use crusader_os_v.Templar.Exec.{tpl_expr}
use crusader_os_v.Templar.Builtin.{tpl_call_builtin}
use crusader_os_v.Templar.Expr.Tree.{Expr, printed, value, NamesFit}
use crusader_os_v.Templar.Expr.Walk.{behind, Ahead}
use crusader_os_v.Templar.Expr.Levels.{Follows}
use crusader_os_v.Templar.Expr.Primary.{expr_levels}
use crusader_os_v.Templar.Expr.Refines.{reads, every_level}

-- On the tokens of any expression without calls, printed with no more parentheses than the ranks of its operators ask for, tpl_expr stops exactly behind them and returns the value of the tree, and nothing else of the state changes. The conditions: no error is pending, the names fit their buffer, the value exists (no string overruns its buffer and no division faults), the next token is no operator and no opening parenthesis, and the fuel exceeds the number of tokens.
pub tpl_expr-value :
    (line : ℕ) (e : Expr) (v : TplVal) (fuel : ℕ) (s : TplState) (t : TplTok) (rest : List TplTok)
    → s.error ≡ false
    → NamesFit e
    → value s.vars e ≡ some v
    → Ahead s (printed line 4 e ++ t ∷ rest)
    → Follows 4 t
    → length (printed line 4 e) < fuel
    → tpl_expr fuel s ≡ done v (behind (length (printed line 4 e)) s)
tpl_expr-value line e v zero s t rest clean names h a f k = elim k [ ]
tpl_expr-value line e v (suc n) s t rest clean names h a f k =
    ap (λ m. m s) (expr_levels line tpl_call_builtin s.vars n)
    ∙ every_level line tpl_call_builtin s.vars e v n 4
        (reads line tpl_call_builtin s.vars e v names h) (omega arith) (omega arith) s t rest
        (record { clean = clean; same_vars = refl }) a f
