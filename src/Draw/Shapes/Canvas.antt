-- ===== src/Draw/Shapes/Canvas.antt =====
-- An image of a fixed size, pixel by pixel.
use native.Mathlib.Nat.{mul-le-mul_right, add-mul}
use csf.Base.{
  ℕ, zero, suc, ◌+◌, ◌*◌, ◌≤◌, ◌<◌, ◌≡◌, refl, sym, ap, ◌∙◌, Bool, true, false, ◌&&◌, arith, Option,
  none, some, List, [], ◌∷◌, get_or, get_elem?, length-set, set, ltb, leb, ◌==◌, if◌then◌else◌, inl,
  inr, Bool-cases, compare_cases, if_lem, u32,
}
use csf.Base.Int.{ℤ, pos, negsuc}
use csf.Draw.{Image, in_bounds, compute_index, draw_pixel, set_pixel, blend_colors}
use csf.Draw.Pixel.{IsImage, draw_pixel_lem}
use csf.Draw.Shapes.Paint.{eq_ℤ}

abbrev pub pixel : ℕ → Image → ℕ → ℕ → ℕ
pixel w img i j = get_or img.data' (j * w + i) 0

pub record IsCanvas (w h : ℕ) (img : Image) : Type 0 where
  pub width : img.width ≡ w
  pub height : img.height ≡ h
  pub image : IsImage img

-- Different pixels stand at different indices.
pub index_inj : (w i j a b : ℕ) → i < w → a < w → ((j * w + i) == (b * w + a)) ≡ (i == a && j == b)
index_inj w i j a b hi ha = elim (compare_cases j b) [
  | inl (e, l) ↦
      let m : suc j * w ≤ b * w = mul-le-mul_right w l in ground (arith, m, add-mul 1 j w)
  | inr (inl (e, l)) ↦ rw l (ground arith)
  | inr (inr (e, l)) ↦
      let m : suc b * w ≤ j * w = mul-le-mul_right w l in ground (arith, m, add-mul 1 b w)
]

abbrev pub default : Option ℕ → ℕ
default none = 0
default (some v) = v

pub get_or_of : (xs : List ℕ) (k : ℕ) → get_or xs k 0 ≡ default (get_elem? xs k)
get_or_of [] k = refl
get_or_of (x ∷ xs) zero = refl
get_or_of (x ∷ xs) (suc k) = get_or_of xs k

-- A write that keeps the size.
pub set-IsCanvas :
    (w h : ℕ) (img : Image) (k v : ℕ)
    → IsCanvas w h img
    → IsCanvas w h (record img { data' = set img.data' k v })
set-IsCanvas w h img k v c = record {
  width = c.width;
  height = c.height;
  image = record {
    size = length-set img.data' k v ∙ c.image.size;
    small = c.image.small;
    width_small = c.image.width_small;
    height_small = c.image.height_small;
  };
}

pub draw_pixel-IsCanvas :
    (w h : ℕ) (img : Image) (x y : ℤ) (color : ℕ)
    → IsCanvas w h img
    → IsCanvas w h (draw_pixel img x y color)
unfolding draw_pixel set_pixel
draw_pixel-IsCanvas w h img x y color c =
    let index = compute_index img x y in
    if_lem (λ (r : Image). IsCanvas w h r) (in_bounds img x y)
      (λ p.
        if_lem (λ (r : Image). IsCanvas w h r) (leb (u32 (img.width * img.height)) index) (λ q. c)
          (λ q. set-IsCanvas w h img index (blend_colors color (get_or img.data' index 0)) c))
      (λ p. c)

-- Where `draw_pixel` sees a coordinate out of bounds, no pixel has it; else it is one.
pub in_bounds-ltb :
    (img : Image) (a b : ℕ)
    → IsImage img
    → in_bounds img (pos a) (pos b) ≡ (ltb a img.width && ltb b img.height)
unfolding in_bounds
in_bounds-ltb img a b h = ground (arith, h.width_small, h.height_small)

pub in_bounds-negsuc :
    (img : Image) (a : ℕ) (y : ℤ)
    → (in_bounds img (negsuc a) y ≡ false) × (in_bounds img y (negsuc a) ≡ false)
unfolding in_bounds
in_bounds-negsuc img a y = (ground arith, ground arith)

-- No place in the image is out of bounds.
pub not_outside :
    (w h : ℕ) (img : Image) (x y : ℤ) (i j : ℕ)
    → IsCanvas w h img
    → i < w
    → j < h
    → in_bounds img x y ≡ false
    → (eq_ℤ x (pos i) && eq_ℤ y (pos j)) ≡ false
not_outside w h img (negsuc a) y i j c hi hj e = ground arith
not_outside w h img (pos a) (negsuc b) i j c hi hj e = ground arith
not_outside w h img (pos a) (pos b) i j c hi hj e =
    ground (arith, in_bounds-ltb img a b c.image, c.width, c.height)

unchanged :
    (img : Image) (x y : ℤ) (color : ℕ) → in_bounds img x y ≡ false → draw_pixel img x y color ≡ img
unfolding draw_pixel
unchanged img x y color e = rw e

default-if :
    (test both : Bool) (k index : ℕ) (xs : List ℕ) (g : ℕ → ℕ)
    → test ≡ both
    → (both ≡ true → k ≡ index)
    → default (if test then some (g (get_or xs index 0)) else get_elem? xs k)
      ≡ (if both then g (get_or xs k 0) else get_or xs k 0)
default-if true both k index xs g e h = rw (← e) (ap (λ n. g (get_or xs n 0)) (sym (h (sym e))))
default-if false both k index xs g e h = rw (← e) (sym (get_or_of xs k))

pub same_index : (i j a b w : ℕ) → (i == a && j == b) ≡ true → j * w + i ≡ b * w + a
same_index i j a b w e = let p : i ≡ a = ground arith in let q : j ≡ b = ground arith in rw (p, q)

draw_pixel-inside :
    (w h : ℕ) (img : Image) (a b color i j : ℕ)
    → IsCanvas w h img
    → a < w
    → b < h
    → i < w
    → pixel w (draw_pixel img (pos a) (pos b) color) i j
      ≡ (if (i == a && j == b) then blend_colors color (pixel w img i j) else pixel w img i j)
draw_pixel-inside w h img a b color i j c ha hb hi =
    let l = draw_pixel_lem img a b color (j * w + i) c.image (rw c.width ha) (rw c.height hb) in
    get_or_of (draw_pixel img (pos a) (pos b) color).data' (j * w + i)
    ∙ ap default l
    ∙ default-if _ (i == a && j == b) (j * w + i) (b * img.width + a) img.data' (blend_colors color)
        (ap (λ v. (j * w + i) == (b * v + a)) c.width ∙ index_inj w i j a b hi ha)
        (λ e. same_index i j a b w e ∙ ap (λ v. b * v + a) (sym c.width))

pub draw_pixel-at :
    (w h : ℕ) (img : Image) (x y : ℤ) (color i j : ℕ)
    → IsCanvas w h img
    → i < w
    → j < h
    → pixel w (draw_pixel img x y color) i j ≡ (
        if (eq_ℤ y (pos j) && eq_ℤ x (pos i))
        then blend_colors color (pixel w img i j)
        else pixel w img i j)
draw_pixel-at w h img (negsuc a) y color i j c hi hj =
    rw (unchanged img (negsuc a) y color (in_bounds-negsuc img a y).0) (ground arith)
draw_pixel-at w h img (pos a) (negsuc b) color i j c hi hj =
    rw (unchanged img (pos a) (negsuc b) color (in_bounds-negsuc img b (pos a)).1) (ground arith)
draw_pixel-at w h img (pos a) (pos b) color i j c hi hj =
    elim (Bool-cases (in_bounds img (pos a) (pos b))) [
      | inl p ↦
          draw_pixel-inside w h img a b color i j c
            (ground (arith, in_bounds-ltb img a b c.image, c.width))
            (ground (arith, in_bounds-ltb img a b c.image, c.height)) hi
          ∙ ground arith
      | inr p ↦
          rw (unchanged img (pos a) (pos b) color p)
            (ground (arith, in_bounds-ltb img a b c.image, c.width, c.height))
    ]
