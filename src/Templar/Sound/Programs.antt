-- ===== src/Templar/Sound/Programs.antt =====
-- templar.c: a program, whatever its text, leaves the arrays of the interpreter as they may be.
use crusader_os_v.Base.{
  ℕ, ◌<◌, ◌≤◌, refl, Bool, false, List, [], ◌∷◌, ◌++◌, ◌+◌, length, take, drop, arith,
}
use crusader_os_v.Text.{c_string}
use crusader_os_v.Templar.State.{
  TplTok, TplState, Run, Stop, done, stopped, ◌>>=◌, max_tokens, max_vars, max_funcs,
}
use crusader_os_v.Templar.Lexer.Total.{tpl_lexer_total}
use crusader_os_v.Templar.Exec.{
  begin_run, error_text, run_tokens, templar_run, load_source, templar_run_string,
}
use crusader_os_v.Templar.Sound.{
  stops, VarFits, FuncFits, All, IsSound, Post, finishes, Keeps, Any, Keeps-pure, ◌⟫◌, Keeps-either,
}
use crusader_os_v.Templar.Sound.Steps.{AreTokens, Keeps-has_error, Keeps-emit}
use crusader_os_v.Templar.Sound.Blocks.{Keeps-exec_block_ex}

-- What a program finds: the variables and functions of earlier ones, in the room that there is for them.
pub record HasRoom (s : TplState) : Type 0 where
  pub var_count : length s.vars ≤ max_vars
  pub vars_fit : All VarFits s.vars
  pub func_count : length s.funcs ≤ max_funcs
  pub funcs_fit : All FuncFits s.funcs

-- What it leaves: that, and tokens with the position at one of them.
pub record Within (s : TplState) : Type 0 where
  pub room : HasRoom s
  pub tokens : AreTokens s.tokens
  pub token_count : length s.tokens ≤ max_tokens
  pub in_tokens : s.tok_pos < length s.tokens

pub data EndsWithin : Run Bool → Type 0 where
  ended : {ok : Bool} {s : TplState} → Within s → EndsWithin (done ok s)
  cut_off : {why : Stop} {s : TplState} → Within s → EndsWithin (stopped why s)

module _ {toks : List TplTok} (lexed : AreTokens toks) where
  Keeps-error_text : Keeps toks Any error_text
  unfolding error_text
  Keeps-error_text = record { at = λ s i. finishes tt i }

  Keeps-run_tokens : (fuel : ℕ) → Keeps toks Any (run_tokens fuel)
  unfolding run_tokens
  Keeps-run_tokens fuel = Keeps-exec_block_ex lexed fuel ⟫ λ _ _. Keeps-has_error ⟫ λ _ _.
      Keeps-either _
        (Keeps-error_text ⟫ λ _ _.
          Keeps-emit _ ⟫ λ _ _. Keeps-emit _ ⟫ λ _ _. Keeps-emit _ ⟫ λ _ _. Keeps-pure _ tt)
        (Keeps-pure _ tt)

  sound-Within : {s : TplState} → length toks ≤ max_tokens → IsSound toks s → Within s
  sound-Within h i = record {
    room = record {
      var_count = i.var_count;
      vars_fit = i.vars_fit;
      func_count = i.func_count;
      funcs_fit = i.funcs_fit;
    };
    tokens = rw i.same_tokens lexed;
    token_count = rw i.same_tokens h;
    in_tokens = rw i.same_tokens i.in_tokens;
  }

  Post-EndsWithin : (r : Run Bool) → length toks ≤ max_tokens → Post toks Any r → EndsWithin r
  Post-EndsWithin (done ok s) h (finishes _ i) = ended (sound-Within h i)
  Post-EndsWithin (stopped why s) h (stops i) = cut_off (sound-Within h i)

-- `EndsEof` is false of no tokens.
not_empty : (toks : List TplTok) → AreTokens toks → 0 < length toks
not_empty [] l = absurd l.ends
not_empty (t ∷ toks) l = omega arith

-- Whatever the program and the fuel, a run that begins with variables and functions in the room for them ends, or stops in front of the first write that would overrun the buffer of a name, a text or the parameters of a function, in front of a division that the processor refuses, or at the end of the fuel; and in the state in which it ends or stops they are in their room again, with every name and text in its buffer, at most 512 tokens of less than 256 bytes each, the last of them the end of the text, and the position at one of them. What the source does after such a write is not said.
pub templar_run_string-EndsWithin :
    (fuel : ℕ) (code : List ℕ) (s : TplState)
    → HasRoom s
    → EndsWithin (templar_run_string fuel code s)
unfolding templar_run_string templar_run begin_run load_source ◌>>=◌
templar_run_string-EndsWithin fuel code s h =
    let begun : TplState = record s {
      src = take 8191 (c_string code) ++ 0 ∷ drop (length (take 8191 (c_string code)) + 1) s.src;
      tok_pos = 0;
      error = false;
      error_msg = [];
    } in
    let (toks, e, lexed, count) = tpl_lexer_total begun in
    rw e (
      Post-EndsWithin lexed (run_tokens fuel (record begun { tokens = toks })) count (
        (Keeps-run_tokens lexed fuel).at (record begun { tokens = toks })
          (record {
            same_tokens = refl;
            in_tokens = not_empty toks lexed;
            var_count = h.var_count;
            vars_fit = h.vars_fit;
            func_count = h.func_count;
            funcs_fit = h.funcs_fit;
          })))
