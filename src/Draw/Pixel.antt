-- ===== src/Draw/Pixel.antt =====
-- One component of a blend, and one pixel.
use native.Mathlib.Nat.{mul_comm, mul-add, add-mul, mul-le-mul_left, mul-le-mul_right}
use csf.Base.{
  ℕ, suc, ◌+◌, ◌-◌, ◌*◌, ◌/◌, ◌%◌, ◌^◌, ◌≤◌, ◌<◌, min, max, ◌≡◌, sym, ap, ◌∙◌, true, false, some,
  arith, leb, ◌==◌, length, get_elem?, get_or, get_elem?-set_self, get_elem?-set_ne, set,
  ℕ_discrete, if◌then◌else◌, List, u32,
}
use csf.Base.Int.{pos, ◌+ℤ◌, ◌*ℤ◌}
use csf.Draw.{
  Image, to_i32, to_u32, in_bounds, compute_index, blend_components, blend_colors, set_pixel,
  draw_pixel,
}

whole : (m alpha : ℕ) → alpha ≤ 255 → alpha * m + m * (255 - alpha) ≡ 255 * m
whole m alpha h =
    let e : alpha + (255 - alpha) ≡ 255 = omega arith in
    ap (λ k. k + m * (255 - alpha)) (mul_comm alpha m)
    ∙ sym (mul-add m alpha (255 - alpha))
    ∙ ap (λ k. m * k) e
    ∙ mul_comm m 255

between :
    (s lo hi : ℕ)
    → 255 * lo ≤ s
    → s ≤ 255 * hi
    → hi ≤ 255
    → (lo ≤ s % 2 ^ 32 / 255 % 2 ^ 8) × (s % 2 ^ 32 / 255 % 2 ^ 8 ≤ hi)
between s lo hi l u h = (omega arith, omega arith)

-- A blended component lies between the two that it is made of, for every alpha.
pub blend_components_lem :
    (fg bg alpha : ℕ)
    → fg ≤ 255
    → bg ≤ 255
    → alpha ≤ 255
    → (min fg bg ≤ blend_components fg bg alpha) × (blend_components fg bg alpha ≤ max fg bg)
unfolding blend_components
blend_components_lem fg bg alpha hf hb ha =
    let beta = 255 - alpha in
    let lo1 : alpha * min fg bg ≤ alpha * fg = mul-le-mul_left alpha (omega arith) in
    let lo2 : min fg bg * beta ≤ bg * beta = mul-le-mul_right beta (omega arith) in
    let hi1 : alpha * fg ≤ alpha * max fg bg = mul-le-mul_left alpha (omega arith) in
    let hi2 : bg * beta ≤ max fg bg * beta = mul-le-mul_right beta (omega arith) in
    between (alpha * fg + bg * beta) (min fg bg) (max fg bg)
      (omega (arith, whole (min fg bg) alpha ha)) (omega (arith, whole (max fg bg) alpha ha))
      (omega arith)

-- An image whose array has its width times its height pixels, which an `int32_t` can count.
pub record IsImage (img : Image) : Type 0 where
  pub size : length img.data' ≡ img.width * img.height
  pub small : img.width * img.height < 2 ^ 31
  pub width_small : img.width < 2 ^ 31
  pub height_small : img.height < 2 ^ 31

pub in_bounds_lem :
    (img : Image) (i j : ℕ)
    → IsImage img
    → i < img.width
    → j < img.height
    → in_bounds img (pos i) (pos j) ≡ true
unfolding in_bounds
in_bounds_lem img i j h hi hj = ground (arith, h.width_small, h.height_small)

index_of :
    (img : Image) (i j : ℕ) {n : ℕ}
    → in_bounds img (pos i) (pos j) ≡ true
    → to_u32 (pos j *ℤ to_i32 img.width +ℤ pos i) ≡ n
    → compute_index img (pos i) (pos j) ≡ n
unfolding compute_index
index_of img i j q e = rw q e

pub compute_index_lem :
    (img : Image) (i j : ℕ)
    → IsImage img
    → i < img.width
    → j < img.height
    → (compute_index img (pos i) (pos j) ≡ j * img.width + i)
      × (j * img.width + i < img.width * img.height)
unfolding ◌+ℤ◌ ◌*ℤ◌
compute_index_lem img i j h hi hj =
    let l : suc j * img.width ≤ img.height * img.width = mul-le-mul_right img.width hj in
    let b : j * img.width + i < img.width * img.height =
      omega (arith, add-mul 1 j img.width, mul_comm img.width img.height) in
    let e1 : to_i32 img.width ≡ pos img.width = ground (arith, h.width_small) in
    let e2 : pos j *ℤ pos img.width ≡ pos (j * img.width) = ground arith in
    let e3 : pos (j * img.width) +ℤ pos i ≡ pos (j * img.width + i) = ground arith in
    let e4 : u32 (j * img.width + i) ≡ j * img.width + i = omega (arith, b, h.small) in
    (
      index_of img i j (in_bounds_lem img i j h hi hj)
          (ap (λ z. to_u32 (z +ℤ pos i)) (ap (λ w. pos j *ℤ w) e1 ∙ e2) ∙ ap to_u32 e3 ∙ e4),
      b,
    )

pub get_elem?-set :
    (xs : List ℕ) (index v k : ℕ)
    → index < length xs
    → get_elem? (set xs index v) k ≡ (if k == index then some v else get_elem? xs k)
get_elem?-set xs index v k l = elim (ℕ_discrete k index) [
  | yes e ↦
      let t : (k == index) ≡ true = ground (arith, e) in
      rw t (ap (λ j. get_elem? (set xs index v) j) e ∙ get_elem?-set_self xs index v l)
  | no n ↦
      let t : (k == index) ≡ false = ground (arith, n) in
      rw t (get_elem?-set_ne xs v (λ e. n (sym e)))
]

draw_at :
    (img : Image) (i j index color k : ℕ)
    → in_bounds img (pos i) (pos j) ≡ true
    → compute_index img (pos i) (pos j) ≡ index
    → index < img.width * img.height
    → IsImage img
    → get_elem? (draw_pixel img (pos i) (pos j) color).data' k ≡ (
        if k == index
        then some (blend_colors color (get_or img.data' index 0))
        else get_elem? img.data' k)
unfolding draw_pixel set_pixel
draw_at img i j index color k q e l h =
    let w : u32 (img.width * img.height) ≡ img.width * img.height = omega (arith, h.small) in
    let n : leb (img.width * img.height) index ≡ false = ground arith in
    rw (q, e, w, n)
      (get_elem?-set img.data' index (blend_colors color (get_or img.data' index 0)) k
        (omega (arith, h.size, l)))

-- A pixel that is drawn in bounds is blended with what the image has there, at row times width plus
-- column, and no other pixel changes.
pub draw_pixel_lem :
    (img : Image) (i j color k : ℕ)
    → IsImage img
    → i < img.width
    → j < img.height
    → get_elem? (draw_pixel img (pos i) (pos j) color).data' k ≡ (
        if k == j * img.width + i
        then some (blend_colors color (get_or img.data' (j * img.width + i) 0))
        else get_elem? img.data' k)
draw_pixel_lem img i j color k h hi hj =
    let c = compute_index_lem img i j h hi hj in
    draw_at img i j (j * img.width + i) color k (in_bounds_lem img i j h hi hj) c.0 c.1 h
