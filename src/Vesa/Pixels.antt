-- ===== src/Vesa/Pixels.antt =====
-- Rectangles on a screen of 32 bits a pixel, byte for byte.
use native.Mathlib.Nat.{mul-le-mul_right, suc-mul}
use crusader_os_v.Base.{
  ℕ, zero, suc, ◌+◌, ◌-◌, ◌*◌, ◌/◌, ◌%◌, ◌^◌, ◌<◌, ◌≤◌, ◌≡◌, ◌⊎◌, refl, ap, inl, inr, Bool-cases,
  ◌∙◌, sym, arith, true, false, Bool, ◌&&◌, ◌||◌, ◌==◌, leb, ltb, if◌then◌else◌, dec_lt, ℕ_discrete,
}
use crusader_os_v.Vesa.{
  Vesa, store_bytes, put_pixel_32, store_pixel, vesa_putpixel, hor_from, rec_from, vesa_draw_rec,
  below_zero, rounds,
}

-- A screen of 32 bits a pixel that fits the back buffer, with rows that do not overlap.
pub record IsScreen (s : Vesa) : Type 0 where
  pub ready : s.vesa_ready ≡ true
  pub depth : s.fb_bpp ≡ 32
  pub columns : s.fb_width ≤ 1280
  pub rows : s.fb_height ≤ 720
  pub pitch_wide : 4 * s.fb_width ≤ s.fb_pitch
  pub pitch_bound : s.fb_pitch ≤ 6400

-- Byte `k` of the pixel at `x` and `y`.
abbrev pub pixel_byte : ℕ → ℕ → ℕ → Vesa → ℕ
pixel_byte x y k s = s.back (y * s.fb_pitch + x * 4 + k)

-- Different pixels share no byte.
apart :
    (p w x y k x' y' k' : ℕ)
    → 4 * w ≤ p
    → x < w
    → x' < w
    → k < 4
    → k' < 4
    → y * p + x * 4 + k ≡ y' * p + x' * 4 + k'
    → (x ≡ x') × (y ≡ y') × (k ≡ k')
apart p w x y k x' y' k' pw xw xw' k4 k4' e = elim (ℕ_discrete y y') [
  | yes same ↦ let row : y * p ≡ y' * p = ap (λ t. t * p) same in (omega arith, same, omega arith)
  | no other ↦ elim (dec_lt y y') [
    | yes above ↦ absurd (omega (arith, mul-le-mul_right {m = suc y} {n = y'} p above, suc-mul y p))
    | no below ↦
        absurd (omega (arith, mul-le-mul_right {m = suc y'} {n = y} p (omega arith), suc-mul y' p))
  ]
]

putpixel_inside :
    (x y col : ℕ) (s : Vesa)
    → IsScreen s
    → x < s.fb_width
    → y < s.fb_height
    → vesa_putpixel x y col s
      ≡ record s { back = store_bytes 4 (y * s.fb_pitch + x * 4) col s.back }
unfolding vesa_putpixel store_pixel put_pixel_32
putpixel_inside x y col s ok xs ys =
    let small : y * s.fb_pitch + x * 4 < 1280 * 900 * 4 = omega (
      arith,
      mul-le-mul_right {m = y} {n = 719} s.fb_pitch (omega (arith, ok.rows)),
      ok.pitch_bound,
      ok.columns,
    ) in
    let depth : s.fb_bpp / 8 ≡ 4 = omega (arith, ok.depth) in
    let within : (y * s.fb_pitch + x * 4) % 2 ^ 32 ≡ y * s.fb_pitch + x * 4 =
      omega (arith, small) in
    ground (arith, ok.ready, ok.depth, ok.columns, ok.rows, small, depth, within)

putpixel_outside :
    (x y col : ℕ) (s : Vesa) → (s.fb_width ≤ x) ⊎ (s.fb_height ≤ y) → vesa_putpixel x y col s ≡ s
unfolding vesa_putpixel
putpixel_outside x y col s out = ground arith

store_bytes_lem :
    (p w x y col x' y' k : ℕ) (mem : ℕ → ℕ)
    → 4 * w ≤ p
    → x < w
    → x' < w
    → k < 4
    → store_bytes 4 (y * p + x * 4) col mem (y' * p + x' * 4 + k)
      ≡ (if x' == x && y' == y then col / 256 ^ k % 256 else mem (y' * p + x' * 4 + k))
unfolding store_bytes
store_bytes_lem p w x y col x' y' k mem pw xw xw' k4 =
    let at = y * p + x * 4 in
    let i = y' * p + x' * 4 + k in
    elim (Bool-cases (leb at i && ltb i (at + 4))) [
      | inl here ↦
          let (ex, ey, ek) =
            apart p w x y (i - at) x' y' k pw xw xw' (ground arith) k4 (ground arith) in
          rw (here, ek) (ground arith)
      | inr away ↦ rw away (ground arith)
    ]

-- What a pixel drawn does to each byte of the screen.
putpixel_lem :
    (x y col x' y' k : ℕ) (s : Vesa)
    → IsScreen s
    → x' < s.fb_width
    → y' < s.fb_height
    → k < 4
    → pixel_byte x' y' k (vesa_putpixel x y col s)
      ≡ (if x' == x && y' == y then col / 256 ^ k % 256 else pixel_byte x' y' k s)
putpixel_lem x y col x' y' k s ok xw yh k4 =
    elim (Bool-cases (ltb x s.fb_width && ltb y s.fb_height)) [
      | inr outside ↦
          ap (pixel_byte x' y' k) (putpixel_outside x y col s (ground arith)) ∙ ground arith
      | inl inside ↦
          let xs : x < s.fb_width = ground arith in
          let ys : y < s.fb_height = ground arith in
          ap (pixel_byte x' y' k) (putpixel_inside x y col s ok xs ys)
          ∙ store_bytes_lem s.fb_pitch s.fb_width x y col x' y' k s.back ok.pitch_wide xs xw k4
    ]

-- Drawing leaves the shape of the screen alone.
record SameShape (s t : Vesa) : Type 0 where
  ready : t.vesa_ready ≡ s.vesa_ready
  depth : t.fb_bpp ≡ s.fb_bpp
  width : t.fb_width ≡ s.fb_width
  height : t.fb_height ≡ s.fb_height
  pitch : t.fb_pitch ≡ s.fb_pitch

putpixel-SameShape : (x y col : ℕ) (s : Vesa) → SameShape s (vesa_putpixel x y col s)
unfolding vesa_putpixel store_pixel put_pixel_32
putpixel-SameShape x y col s = record {
  ready = ground arith;
  depth = ground arith;
  width = ground arith;
  height = ground arith;
  pitch = ground arith;
}

SameShape-IsScreen : (s t : Vesa) → SameShape s t → IsScreen s → IsScreen t
SameShape-IsScreen s t same ok = record {
  ready = same.ready ∙ ok.ready;
  depth = same.depth ∙ ok.depth;
  columns = omega (arith, same.width, ok.columns);
  rows = omega (arith, same.height, ok.rows);
  pitch_wide = omega (arith, same.pitch, same.width, ok.pitch_wide);
  pitch_bound = omega (arith, same.pitch, ok.pitch_bound);
}

SameShape-trans : (s t u : Vesa) → SameShape s t → SameShape t u → SameShape s u
SameShape-trans s t u a b = record {
  ready = b.ready ∙ a.ready;
  depth = b.depth ∙ a.depth;
  width = b.width ∙ a.width;
  height = b.height ∙ a.height;
  pitch = b.pitch ∙ a.pitch;
}

hor_from-SameShape : (a x y col : ℕ) (s : Vesa) → SameShape s (hor_from x y a col s)
unfolding hor_from
hor_from-SameShape zero x y col s = record {
  ready = refl;
  depth = refl;
  width = refl;
  height = refl;
  pitch = refl;
}
hor_from-SameShape (suc a) x y col s =
    let x' = (x + 1) % 2 ^ 32 in
    SameShape-trans s (vesa_putpixel x y col s) (hor_from x' y a col (vesa_putpixel x y col s))
      (putpixel-SameShape x y col s) (hor_from-SameShape a x' y col (vesa_putpixel x y col s))

-- Whether `n` steps from the `int` `x` on come to `x'`, which is not negative.
abbrev pub covers : ℕ → ℕ → ℕ → Bool
covers x n x' = if below_zero x then ltb (x' + (2 ^ 32 - x)) n else leb x x' && ltb x' (x + n)

covers-suc :
    (x n x' : ℕ)
    → x < 2 ^ 32
    → suc n < 2 ^ 31
    → x' < 2 ^ 31
    → covers x (suc n) x' ≡ ((x' == x) || covers ((x + 1) % 2 ^ 32) n x')
covers-suc x n x' xl nl xl' = ground arith

covers-zero : (x x' : ℕ) → covers x 0 x' ≡ false
covers-zero x x' = ground arith

-- Two tests for one colour, as one.
merge_left :
    (c d e : Bool) (u v : ℕ)
    → (if c && e then u else (if d && e then u else v)) ≡ (if (d || c) && e then u else v)
merge_left c d e u v = ground arith

merge_right :
    (a c d : Bool) (u v : ℕ)
    → (if a && c then u else (if a && d then u else v)) ≡ (if a && (d || c) then u else v)
merge_right a c d u v = ground arith

if_and_false : (b : Bool) (u v : ℕ) → (if b && false then u else v) ≡ v
if_and_false b u v = ground arith

hor_from_lem :
    (a x y col x' y' k : ℕ) (s : Vesa)
    → IsScreen s
    → x < 2 ^ 32
    → a < 2 ^ 31
    → x' < s.fb_width
    → y' < s.fb_height
    → k < 4
    → pixel_byte x' y' k (hor_from x y a col s)
      ≡ (if covers x a x' && y' == y then col / 256 ^ k % 256 else pixel_byte x' y' k s)
unfolding hor_from
hor_from_lem zero x y col x' y' k s ok xl al xw yh k4 = rw (covers-zero x x') refl
hor_from_lem (suc a) x y col x' y' k s ok xl al xw yh k4 =
    let t = vesa_putpixel x y col s in
    let same = putpixel-SameShape x y col s in
    hor_from_lem a ((x + 1) % 2 ^ 32) y col x' y' k t (SameShape-IsScreen s t same ok) (omega arith)
      (omega arith) (omega (arith, same.width)) (omega (arith, same.height)) k4
    ∙ rw
        (
          covers-suc x a x' xl al (omega (arith, ok.columns)),
          putpixel_lem x y col x' y' k s ok xw yh k4,
        )
        (merge_left (covers ((x + 1) % 2 ^ 32) a x') (x' == x) (y' == y) _ _)

rec_from_lem :
    (height width x y col x' y' k : ℕ) (s : Vesa)
    → IsScreen s
    → x < 2 ^ 32
    → y < 2 ^ 32
    → width < 2 ^ 31
    → height < 2 ^ 31
    → x' < s.fb_width
    → y' < s.fb_height
    → k < 4
    → pixel_byte x' y' k (rec_from x y width height col s) ≡ (
        if covers x width x' && covers y height y'
        then col / 256 ^ k % 256
        else pixel_byte x' y' k s)
unfolding rec_from
rec_from_lem zero width x y col x' y' k s ok xl yl wl hl xw yh k4 =
    rw (covers-zero y y') (sym (if_and_false (covers x width x') _ _))
rec_from_lem (suc height) width x y col x' y' k s ok xl yl wl hl xw yh k4 =
    let t = hor_from x y width col s in
    let same = hor_from-SameShape width x y col s in
    rec_from_lem height width x ((y + 1) % 2 ^ 32) col x' y' k t (SameShape-IsScreen s t same ok) xl
      (omega arith) wl (omega arith) (omega (arith, same.width)) (omega (arith, same.height)) k4
    ∙ rw
        (
          covers-suc y height y' yl hl (omega (arith, ok.rows)),
          hor_from_lem width x y col x' y' k s ok xl wl xw yh k4,
        )
        (merge_right (covers x width x') (covers ((y + 1) % 2 ^ 32) height y') (y' == y) _ _)

-- On a screen of 32 bits a pixel that fits the back buffer, a rectangle with its corner and its size anywhere in the range of `int`, negative ones included, colours exactly the pixels of the screen that lie in it, with each of their four bytes, and no other pixel changes, whatever part of the rectangle lies outside the screen; of a negative width or height it draws nothing.
pub vesa_draw_rec_lem :
    (height width x y col x' y' k : ℕ) (s : Vesa)
    → IsScreen s
    → x < 2 ^ 32
    → y < 2 ^ 32
    → x' < s.fb_width
    → y' < s.fb_height
    → k < 4
    → pixel_byte x' y' k (vesa_draw_rec x y width height col s) ≡ (
        if covers x (rounds width) x' && covers y (rounds height) y'
        then col / 256 ^ k % 256
        else pixel_byte x' y' k s)
unfolding vesa_draw_rec
vesa_draw_rec_lem height width x y col x' y' k s ok xl yl xw yh k4 =
    rec_from_lem (rounds height) (rounds width) x y col x' y' k s ok xl yl (few width) (few height)
      xw yh k4
  where
    few : (n : ℕ) → rounds n < 2 ^ 31
    few n = ground arith
