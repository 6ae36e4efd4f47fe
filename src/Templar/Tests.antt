-- ===== src/Templar/Tests.antt =====
-- Programs of the language Templar, and the theorems about its interpreter at concrete inputs.
mod Source
use crusader_os_v.Base.{
  ◌≡◌, refl, List, [], ◌∷◌, ◌++◌, codes, true, false, ◌&&◌, ◌||◌, ◌≤◌, some, arith, length, ltb,
  if◌then◌else◌,
}
use crusader_os_v.Templar.Word.{neg32, sub32, mul32, lt32}
use crusader_os_v.Templar.Value.{tpl_strcmp, same, tpl_val_num}
use crusader_os_v.Templar.State.{TplTok, TplState, max_vars, max_tokens}
use crusader_os_v.Templar.Vars.{find_var, set_vars}
use crusader_os_v.Templar.Vars.Map.{is_some, find_var-set_vars}
use crusader_os_v.Templar.Lexer.{tok, tpl_lexer}
use crusader_os_v.Templar.Lexer.Total.{tpl_lexer_total}
use crusader_os_v.Templar.Expr.Tree.{Expr, printed, apply, value}
use crusader_os_v.Templar.Expr.Walk.{behind}
use crusader_os_v.Templar.Expr.Meaning.{tpl_expr-value}
use crusader_os_v.Templar.Sound.Programs.{EndsWithin, templar_run_string-EndsWithin}
use crusader_os_v.Templar.Sound.Steps.{AreTokens}
use crusader_os_v.Templar.Builtin.{texts}
use crusader_os_v.Templar.Exec.{tpl_expr, params_loop, templar_run_string}
use crusader_os_v.Templar.Sound.{num_fits}
use crusader_os_v.Templar.Value.{num}
use crusader_os_v.Templar.State.{tk_newline, tk_rparen, tk_num, done, stopped, overrun, out_of_fuel}
use crusader_os_v.Templar.Expr.Tree.{bin, lt, sub, mul, var, lit}
use crusader_os_v.Templar.Faults.{texts_overrun, params_loop-never}

abbrev pub fresh : TplState
fresh = record {
  src = [];
  tokens = [];
  tok_pos = 0;
  vars = record { name = codes "x"; val = num 7 } ∷ [];
  funcs = [];
  error = false;
  error_msg = [];
  output = [];
  cursor = λ _. (0, 0);
}

-- `x - 2 * (3 - x) < 20`
abbrev pub tree : Expr
tree =
    bin lt (bin sub (var (codes "x")) (bin mul (lit 2) (bin sub (lit 3) (var (codes "x")))))
      (lit 20)

abbrev end_tok : TplTok
end_tok = tok 1 tk_newline (10 ∷ [])

abbrev at_tree : TplState
at_tree = record fresh { tokens = printed 1 4 tree ++ end_tok ∷ [] }

tpl_expr-value_example :
    tpl_expr 20 at_tree ≡ done (num 1) (behind (length (printed 1 4 tree)) at_tree)
unfolding printed value find_var same tpl_strcmp apply neg32 sub32 mul32 lt32 tpl_val_num
tpl_expr-value_example =
    tpl_expr-value 1 tree (num 1) 20 at_tree end_tok [] refl (omega arith) refl refl
      (record { no_call = refl; below = ((((tt, refl), refl), refl), refl) }) (omega arith)

templar_run_string-EndsWithin_example :
    EndsWithin (templar_run_string 30 (codes "var y = x + 1 repeat 3 : { print(y) }") fresh)
templar_run_string-EndsWithin_example =
    templar_run_string-EndsWithin 30 (codes "var y = x + 1 repeat 3 : { print(y) }") fresh (record {
      var_count = omega arith;
      vars_fit = (record { name_fits = omega arith; val_fits = num_fits (omega arith) }, tt);
      func_count = omega arith;
      funcs_fit = tt;
    })

abbrev with_source : TplState
with_source = record fresh { src = codes "a >= \"b # c\" # the rest\n{ -3 }" }

tpl_lexer_total_example :
    (toks : List TplTok) × (tpl_lexer with_source ≡ done tt (record with_source { tokens = toks }))
    × AreTokens toks
    × (length toks ≤ max_tokens)
tpl_lexer_total_example = tpl_lexer_total with_source

find_var-set_vars_example : find_var (set_vars fresh.vars (codes "y") (num 8)) (codes "x") ≡ (
    if same (codes "y") (codes "x")
      && (is_some (find_var fresh.vars (codes "y")) || ltb (length fresh.vars) max_vars)
    then some (num 8)
    else find_var fresh.vars (codes "x"))
find_var-set_vars_example = find_var-set_vars fresh.vars (codes "y") (codes "x") (num 8)

-- Behind the error of `print((1 2))`.
abbrev failed : TplState
failed = record fresh {
  tokens = tok 1 tk_num (codes "2") ∷ tok 1 tk_rparen (codes ")") ∷ [];
  error = true;
}

texts_overrun_example : texts (tpl_expr 5) 90 [] failed ≡ stopped overrun failed
texts_overrun_example = texts_overrun 3 90 [] failed refl refl refl refl (omega arith) (omega arith)

-- At the parameter of `fn f(1)`.
abbrev at_number : TplState
at_number = record fresh { tokens = tok 1 tk_num (codes "1") ∷ tok 1 tk_rparen (codes ")") ∷ [] }

params_loop-never_example : params_loop 1000 [] at_number ≡ stopped out_of_fuel at_number
params_loop-never_example = params_loop-never 1000 [] at_number refl refl refl refl
