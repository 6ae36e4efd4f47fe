-- ===== src/Templar/Tests/Source.antt =====
-- Source texts of the language Templar, and the theorems about reading them at concrete inputs.
use crusader_os_v.Base.{◌≡◌, refl, List, [], ◌∷◌, ◌++◌, codes, arith}
use crusader_os_v.Text.Numbers.{itoa_digits}
use crusader_os_v.Templar.Word.{neg32, sub32, mul32, lt32}
use crusader_os_v.Templar.Value.{
  num, tpl_strcmp, same, tpl_val_num, tpl_itoa, tpl_isalpha, tpl_isalnum,
}
use crusader_os_v.Templar.State.{
  TplTok, done, ◌>>=◌, tk_eof, tk_name, tk_str, tk_newline, tk_lte, tk_lbrace, tk_and,
}
use crusader_os_v.Templar.Vars.{find_var}
use crusader_os_v.Templar.Lexer.{tok, tpl_lexer, word_kind, pair_kind, char_kind}
use crusader_os_v.Templar.Lexer.Spelling.{AllSpelled, text_of, word, string, pair, single, newline}
use crusader_os_v.Templar.Lexer.Printed.{line_behind, tpl_lexer-text_of}
use crusader_os_v.Templar.Expr.Tree.{printed, apply, value}
use crusader_os_v.Templar.Expr.Source.{source_of, Writable, name, tpl_expr-source_of}
use crusader_os_v.Templar.Exec.{tpl_expr}
use crusader_os_v.Templar.Tests.{fresh, tree}

source_of-tree : source_of tree ≡ codes "x - 2 * ( 3 - x ) < 20 "
unfolding printed tpl_itoa itoa_digits neg32
source_of-tree = refl

tree-Writable : Writable tree
unfolding tpl_isalpha tpl_isalnum word_kind same tpl_strcmp
tree-Writable = (
  (
    name b'x' [] refl tt refl (omega arith),
    (
      (omega arith, ground arith),
      ((omega arith, ground arith), name b'x' [] refl tt refl (omega arith)),
    ),
  ),
  (omega arith, ground arith),
)

tpl_expr-source_of_example :
    (tpl_lexer >>= λ _. tpl_expr 20) (record fresh { src = source_of tree })
    ≡ done (num 1) (record fresh {
      src = source_of tree;
      tokens = printed 1 4 tree ++ tok 1 tk_eof [] ∷ [];
      tok_pos = 11;
    })
unfolding printed value find_var same tpl_strcmp apply neg32 sub32 mul32 lt32 tpl_val_num
tpl_expr-source_of_example =
    tpl_expr-source_of tree (num 1) 20 (record fresh { src = source_of tree }) tree-Writable
      (omega arith) refl refl refl refl (omega arith)

-- `if <=`, a string with a quote in it, `{`, and a name in the next line.
abbrev tokens : List TplTok
tokens =
    tok 1 tk_name (codes "if")
    ∷ tok 1 tk_lte (codes "<=")
    ∷ tok 1 tk_str (codes "a" ++ b'"' ∷ [])
    ∷ tok 1 tk_lbrace (codes "{")
    ∷ tok 1 tk_newline (10 ∷ [])
    ∷ tok 2 tk_and (codes "and")
    ∷ []

tokens-AllSpelled : AllSpelled 1 tokens
unfolding tpl_isalpha tpl_isalnum word_kind same tpl_strcmp pair_kind char_kind
tokens-AllSpelled = (
  word b'i' (codes "f") refl (refl, tt) (omega arith),
  (
    pair b'<' b'=' tk_lte refl,
    (
      string (codes "a" ++ b'"' ∷ []) (refl, (refl, tt)) (omega arith),
      (
        single b'{' tk_lbrace refl,
        (newline, (word b'a' (codes "nd") refl (refl, (refl, tt)) (omega arith), tt)),
      ),
    ),
  ),
)

tpl_lexer-text_of_example :
    tpl_lexer (record fresh { src = text_of tokens })
    ≡ done tt (record fresh { src = text_of tokens; tokens = tokens ++ tok 2 tk_eof [] ∷ [] })
unfolding line_behind
tpl_lexer-text_of_example =
    tpl_lexer-text_of tokens (record fresh { src = text_of tokens }) tokens-AllSpelled (omega arith)
      refl
