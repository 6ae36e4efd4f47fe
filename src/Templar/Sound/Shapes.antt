-- ===== src/Templar/Sound/Shapes.antt =====
-- templar.c: the loops that draw keep the state sound.
use crusader_os_v.Base.{ℕ, zero, suc, Option, none, some, List, [], ◌∷◌}
use crusader_os_v.Templar.State.{TplTok, M, is}
use crusader_os_v.Templar.Builtin.{
  get_cursor, for_range, for_each, draw_text, eight_pixels, circle_from, disc_pixel, disc_row,
  divided, edge, triangle_row, Point,
}
use crusader_os_v.Templar.Sound.{Keeps, Any, Keeps-pure, Keeps-stop, ◌⟫◌, Keeps-either, finishes}
use crusader_os_v.Templar.Sound.Steps.{Keeps-emit}

module _ {toks : List TplTok} where
  pub Keeps-for_range : (from to : ℕ) → Keeps toks Any (for_range from to)
  unfolding for_range
  Keeps-for_range from to =
      Keeps-either _ (Keeps-pure _ tt) (Keeps-either _ (Keeps-stop _) (Keeps-pure _ tt))

  pub Keeps-for_each :
      {body : ℕ → M (Unit {0})}
      → ((i : ℕ) → Keeps toks Any (body i))
      → (is : List ℕ) → Keeps toks Any (for_each body is)
  unfolding for_each
  Keeps-for_each k [] = Keeps-pure _ tt
  Keeps-for_each k (i ∷ is) = k i ⟫ λ _ _. Keeps-for_each k is

  pub Keeps-draw_text : (s : List ℕ) (px py fg bg : ℕ) → Keeps toks Any (draw_text s px py fg bg)
  unfolding draw_text
  Keeps-draw_text [] px py fg bg = Keeps-pure _ tt
  Keeps-draw_text (c ∷ s) px py fg bg = Keeps-emit _ ⟫ λ _ _. Keeps-draw_text s _ py fg bg

  pub Keeps-eight_pixels : (cx cy x y col : ℕ) → Keeps toks Any (eight_pixels cx cy x y col)
  unfolding eight_pixels
  Keeps-eight_pixels cx cy x y col = Keeps-emit _ ⟫ λ _ _. Keeps-emit _ ⟫ λ _ _.
      Keeps-emit _ ⟫ λ _ _. Keeps-emit _ ⟫ λ _ _.
      Keeps-emit _ ⟫ λ _ _. Keeps-emit _ ⟫ λ _ _. Keeps-emit _ ⟫ λ _ _. Keeps-emit _

  pub Keeps-circle_from :
      (fuel cx cy col x y d : ℕ) → Keeps toks Any (circle_from fuel cx cy col x y d)
  unfolding circle_from
  Keeps-circle_from zero cx cy col x y d = Keeps-stop _
  Keeps-circle_from (suc fuel) cx cy col x y d =
      Keeps-either _
        (Keeps-eight_pixels cx cy x y col ⟫ λ _ _.
          Keeps-either _ (Keeps-circle_from fuel cx cy col _ _ _)
            (Keeps-circle_from fuel cx cy col _ _ _))
        (Keeps-pure _ tt)

  pub Keeps-disc_row : (cx cy r col dy : ℕ) → Keeps toks Any (disc_row cx cy r col dy)
  unfolding disc_row disc_pixel
  Keeps-disc_row cx cy r col dy = Keeps-for_range _ _ ⟫ λ row _.
      Keeps-for_each (λ _. Keeps-either _ (Keeps-emit _) (Keeps-pure _ tt)) row

  pub Keeps-divided : (o : Option ℕ) → Keeps toks Any (divided o)
  unfolding divided
  Keeps-divided (some q) = Keeps-pure q tt
  Keeps-divided none = Keeps-stop _

  pub Keeps-edge : (x1 y1 x2 y2 y : ℕ) → Keeps toks Any (edge x1 y1 x2 y2 y)
  unfolding edge
  Keeps-edge x1 y1 x2 y2 y =
      Keeps-either _ (Keeps-pure _ tt) (Keeps-divided _ ⟫ λ q _. Keeps-pure _ tt)

  pub Keeps-triangle_row : (p q r : Point) (col y : ℕ) → Keeps toks Any (triangle_row p q r col y)
  unfolding triangle_row
  Keeps-triangle_row p q r col y =
      Keeps-either _ (Keeps-edge _ _ _ _ y) (Keeps-edge _ _ _ _ y) ⟫ λ _ _.
      Keeps-edge _ _ _ _ y ⟫ λ _ _. Keeps-either _ (Keeps-emit _) (Keeps-emit _)

  pub Keeps-get_cursor : Keeps toks Any get_cursor
  unfolding get_cursor
  Keeps-get_cursor = record { at = λ s i. finishes tt i }
