-- ===== src/Templar/Sound/Args.antt =====
-- templar.c: reading the arguments of a builtin function keeps the state sound.
use crusader_os_v.Base.{ℕ, zero, suc, ◌<◌, List, [], arith, length}
use crusader_os_v.Templar.Value.{TplVal}
use crusader_os_v.Templar.State.{TplTok, M, max_str}
use crusader_os_v.Templar.Builtin.{argument, last_argument, texts, all_texts, number, last_number}
use crusader_os_v.Templar.Sound.{ValFits, Keeps, Any, Keeps-pure, Keeps-stop, ◌⟫◌, Keeps-either}
use crusader_os_v.Templar.Sound.Steps.{
  AreTokens, Keeps-peek, Keeps-advance, Keeps-expect, Keeps-match,
}
use crusader_os_v.Templar.Sound.Vars.{Keeps-strcat}

module _ {toks : List TplTok} (lexed : AreTokens toks) {expr : M TplVal}
    (exprs : Keeps toks ValFits expr) where
  pub Keeps-argument : Keeps toks ValFits (argument expr)
  unfolding argument
  Keeps-argument = exprs ⟫ λ v h. Keeps-match lexed _ ⟫ λ _ _. Keeps-pure v h

  pub Keeps-last_argument : Keeps toks ValFits (last_argument expr)
  unfolding last_argument
  Keeps-last_argument = exprs ⟫ λ v h. Keeps-expect lexed _ ⟫ λ _ _. Keeps-pure v h

  pub Keeps-number : Keeps toks Any (number expr)
  unfolding number
  Keeps-number = Keeps-argument ⟫ λ v _. Keeps-pure _ tt

  pub Keeps-last_number : Keeps toks Any (last_number expr)
  unfolding last_number
  Keeps-last_number = Keeps-last_argument ⟫ λ v _. Keeps-pure _ tt

  pub Keeps-texts :
      (fuel : ℕ) (buf : List ℕ)
      → length buf < max_str
      → Keeps toks (λ b. length b < max_str) (texts expr fuel buf)
  unfolding texts
  Keeps-texts zero buf h = Keeps-stop _
  Keeps-texts (suc fuel) buf h = Keeps-peek lexed ⟫ λ t _. Keeps-either _ (Keeps-pure buf h) (
      exprs ⟫ λ v _. Keeps-strcat _ _ ⟫ λ b k. Keeps-peek lexed ⟫ λ _ _.
      Keeps-either _ (Keeps-advance lexed ⟫ λ _ _. Keeps-texts fuel b k) (Keeps-texts fuel b k))

  pub Keeps-all_texts : (fuel : ℕ) → Keeps toks (λ b. length b < max_str) (all_texts expr fuel)
  unfolding all_texts
  Keeps-all_texts fuel =
      Keeps-texts fuel [] (omega arith) ⟫ λ b k. Keeps-expect lexed _ ⟫ λ _ _. Keeps-pure b k
