-- ===== src/Draw/Shapes/Disc.antt =====
-- The disc of a circle: its pixels, one at a time, and its squares.
use native.Mathlib.Nat.{mul-le-mul, suc-mul, mul-suc}
use csf.Base.{
  ℕ, suc, ◌+◌, ◌*◌, ◌≤◌, ◌<◌, ◌≡◌, refl, sym, ap₂, ◌∙◌, Bool, true, false, not, ◌&&◌, arith, leb,
  if◌then◌else◌, if_lem, Bool-cases, inl, inr, leb→le,
}
use csf.Base.Int.{ℤ, pos, negsuc, ◌+ℤ◌, ◌-ℤ◌, ◌*ℤ◌, pos_part, neg_part, ◌≤ℤ◌}
use csf.Draw.{Image, in_bounds, blend_colors}
use csf.Draw.Shapes.{leb_ℤ, in_disc, disc_pixel}
use csf.Draw.Shapes.Paint.{Paints, eq_ℤ}
use csf.Draw.Shapes.Canvas.{IsCanvas, pixel, draw_pixel-IsCanvas, draw_pixel-at, not_outside}

-- What a pixel of the loops becomes.
abbrev pub disc : ℤ → ℤ → ℤ → ℕ → ℕ → ℕ → ℕ → ℕ
disc x y r color i j p = if in_disc x y r (pos i) (pos j) then blend_colors color p else p

eq_ℤ→eq : (k : ℤ) (i : ℕ) → eq_ℤ k (pos i) ≡ true → k ≡ pos i
eq_ℤ→eq (pos a) i e = ground arith
eq_ℤ→eq (negsuc a) i e = ground arith

pub if_same : (b : Bool) (a : ℕ) → (if b then a else a) ≡ a
if_same true a = refl
if_same false a = refl

merge :
    (q p d : Bool) (a b : ℕ)
    → (p ≡ true → q ≡ true → d ≡ true)
    → (if q && p then a else b) ≡ (if p && q then (if d then a else b) else b)
merge true true d a b h = rw (h refl refl)
merge true false d a b h = refl
merge false true d a b h = refl
merge false false d a b h = refl

keep :
    (p q d : Bool) (a b : ℕ)
    → (p ≡ true → q ≡ true → d ≡ false)
    → b ≡ (if p && q then (if d then a else b) else b)
keep true true d a b h = rw (h refl refl)
keep true false d a b h = refl
keep false q d a b h = refl

module _ (w h : ℕ) (x y r : ℤ) (color : ℕ) where
  disc_pixel-at :
      (s : Image) (k l : ℤ) (i j : ℕ)
      → IsCanvas w h s
      → i < w
      → j < h
      → pixel w (disc_pixel x y r color k l s) i j ≡ (
          if eq_ℤ k (pos i) && eq_ℤ l (pos j)
          then disc x y r color i j (pixel w s i j)
          else pixel w s i j)
  unfolding disc_pixel
  disc_pixel-at s k l i j c hi hj = elim (Bool-cases (in_bounds s k l)) [
    | inr e ↦ rw (e, not_outside w h s k l i j c hi hj e)
    | inl e ↦ elim (Bool-cases (in_disc x y r k l)) [
      | inl d ↦
          rw (e, d)
            (draw_pixel-at w h s k l color i j c hi hj
              ∙ merge (eq_ℤ l (pos j)) (eq_ℤ k (pos i)) (in_disc x y r (pos i) (pos j)) _ _
                  (λ p q. ap₂ (in_disc x y r) (sym (eq_ℤ→eq k i p)) (sym (eq_ℤ→eq l j q)) ∙ d))
      | inr d ↦
          rw (e, d)
            (keep (eq_ℤ k (pos i)) (eq_ℤ l (pos j)) (in_disc x y r (pos i) (pos j)) _ _
              (λ p q. ap₂ (in_disc x y r) (sym (eq_ℤ→eq k i p)) (sym (eq_ℤ→eq l j q)) ∙ d))
    ]
  ]

  pub pixels-Paints :
      (k l : ℤ)
      → Paints
          (IsCanvas w h)
          (pixel w)
          w
          h
          (λ s. disc_pixel x y r color l k s)
          (λ i j. eq_ℤ l (pos i) && eq_ℤ k (pos j))
          (disc x y r color)
  unfolding disc_pixel
  pixels-Paints k l = record {
    ok = λ s c.
        if_lem (λ (t : Image). IsCanvas w h t) (not (in_bounds s l k)) (λ p. c)
          (λ p.
            if_lem (λ (t : Image). IsCanvas w h t) (in_disc x y r l k)
              (λ q. draw_pixel-IsCanvas w h s l k color c) (λ q. c));
    at = λ s i j c hi hj. disc_pixel-at s l k i j c hi hj;
  }

-- Places at most `r` away are in the range of either axis.
square_le : (m n r : ℕ) → m * m + n * n ≤ r * r → m ≤ r
square_le m n r h = elim (Bool-cases (leb m r)) [
  | inl e ↦ ground arith
  | inr e ↦
      let l : suc r ≤ m = ground arith in
      let s : suc r * suc r ≤ m * m = mul-le-mul l l in
      absurd (omega (arith, s, h, suc-mul r (suc r), mul-suc r r))
]

abbrev pub abs_ℤ : ℤ → ℕ
abs_ℤ d = pos_part d + neg_part d

square_lem : (d : ℤ) → d *ℤ d ≡ pos (abs_ℤ d * abs_ℤ d)
unfolding ◌*ℤ◌
square_lem (pos m) = ground arith
square_lem (negsuc m) = ground arith

pos_square : (r : ℕ) → pos r *ℤ pos r ≡ pos (r * r)
unfolding ◌*ℤ◌
pos_square r = ground arith

pub le_test : (a b : ℤ) → a ≤ℤ b → leb_ℤ a b ≡ true
le_test a b h = ground arith

sum_test : (m n k : ℕ) → leb_ℤ (pos m +ℤ pos n) (pos k) ≡ leb (m + n) k
unfolding ◌+ℤ◌
sum_test m n k = ground arith

pub in_disc-leb :
    (x y j i : ℤ) (r : ℕ)
    → in_disc x y (pos r) j i
      ≡ leb (abs_ℤ (x -ℤ j) * abs_ℤ (x -ℤ j) + abs_ℤ (y -ℤ i) * abs_ℤ (y -ℤ i)) (r * r)
unfolding in_disc
in_disc-leb x y j i r =
    rw (square_lem (x -ℤ j), square_lem (y -ℤ i), pos_square r)
      (sum_test (abs_ℤ (x -ℤ j) * abs_ℤ (x -ℤ j)) (abs_ℤ (y -ℤ i) * abs_ℤ (y -ℤ i)) (r * r))

pub disc-le :
    (x y j i : ℤ) (r : ℕ)
    → in_disc x y (pos r) j i ≡ true
    → (abs_ℤ (x -ℤ j) ≤ r) × (abs_ℤ (y -ℤ i) ≤ r)
disc-le x y j i r e =
    let m = abs_ℤ (x -ℤ j) in
    let n = abs_ℤ (y -ℤ i) in
    let l : m * m + n * n ≤ r * r =
      leb→le (m * m + n * n) (r * r) (sym (in_disc-leb x y j i r) ∙ e) in
    (square_le m n r l, square_le n m r (omega (arith, l)))
