-- ===== src/Draw/Shapes/Tile/Copied.antt =====
-- The assignments of `draw_tile`, each at a place that the image and the tilemap have.
use csf.Base.{
  ℕ, suc, ◌+◌, ◌*◌, ◌<◌, ◌≡◌, refl, sym, ap, ap₂, ◌∙◌, subst, Bool, true, false, ◌&&◌, arith, ◌==◌,
  Option, some, none, zero, List, [], ◌∷◌, get_or, get_elem?, length, set, if◌then◌else◌, lt→ltb,
}
use csf.Base.Int.{ℤ, pos, ◌+ℤ◌, ◌-ℤ◌, pos_part, neg_part, int_laws}
use csf.Draw.{Image, compute_index}
use csf.Draw.Pixel.{compute_index_lem, get_elem?-set}
use csf.Draw.Shapes.{Rect, copy_pixel}
use csf.Draw.Shapes.Paint.{Paints, eq_ℤ, within}
use csf.Draw.Shapes.Canvas.{IsCanvas, pixel, set-IsCanvas, index_inj, get_or_of, default}
use csf.Draw.Shapes.Sprite.{sprite_color, eq_shift}
use csf.Draw.Shapes.Tile.{IsAxis}

-- An image, and no access outside of an array on the way to it.
abbrev pub IsSafe : ℕ → ℕ → Option Image → Type 0
IsSafe w h none = ⊥
IsSafe w h (some img) = IsCanvas w h img

abbrev pub pixel? : ℕ → Option Image → ℕ → ℕ → ℕ
pixel? w none i j = 0
pixel? w (some img) i j = pixel w img i j

-- One assignment, where both indices are in their arrays.
copy_pixel-some :
    (tilemap img : Image) (k l color : ℕ)
    → get_elem? tilemap.data' l ≡ some color
    → k < length img.data'
    → copy_pixel tilemap k l (some img) ≡ some (record img { data' = set img.data' k color })
unfolding copy_pixel
copy_pixel-some tilemap img k l color e h =
    rw (e, copy_pixel) (rw (lt→ltb k (length img.data') h) refl)

get_elem?-some : (xs : List ℕ) (k : ℕ) → k < length xs → get_elem? xs k ≡ some (get_or xs k 0)
get_elem?-some [] k h = elim h [ ]
get_elem?-some (x ∷ xs) zero h = refl
get_elem?-some (x ∷ xs) (suc k) h = get_elem?-some xs k (omega arith)

set-pixel :
    (w h : ℕ) (img : Image) (a b color i j : ℕ)
    → IsCanvas w h img
    → a < w
    → b * w + a < length img.data'
    → i < w
    → pixel w (record img { data' = set img.data' (b * w + a) color }) i j
      ≡ (if (i == a && j == b) then color else pixel w img i j)
set-pixel w h img a b color i j c ha hk hi =
    get_or_of (set img.data' (b * w + a) color) (j * w + i)
    ∙ ap default (get_elem?-set img.data' (b * w + a) color (j * w + i) hk)
    ∙ ap (λ t. default (if t then some color else get_elem? img.data' (j * w + i)))
        (index_inj w i j a b hi ha)
    ∙ default_if (i == a && j == b) color (j * w + i) img.data'
  where
    default_if :
        (t : Bool) (v k : ℕ) (xs : List ℕ)
        → default (if t then some v else get_elem? xs k) ≡ (if t then v else get_or xs k 0)
    default_if true v k xs = refl
    default_if false v k xs = sym (get_or_of xs k)

same_source :
    (at start to x c k : ℤ) → to ≡ x +ℤ start → to +ℤ k ≡ c → at +ℤ start +ℤ k ≡ at +ℤ (c -ℤ x)
same_source at start to x c k e f =
    let p = ap pos_part e in
    let q = ap neg_part e in let r = ap pos_part f in let t = ap neg_part f in omega int_laws

-- The index of a pixel, in an image and in any other of its size.
IsCanvas-index :
    (w h : ℕ) (img : Image) (a b : ℕ)
    → IsCanvas w h img
    → a < w
    → b < h
    → (compute_index img (pos a) (pos b) ≡ b * w + a)
      × ((s : Image) → IsCanvas w h s → b * w + a < length s.data')
IsCanvas-index w h img a b c ha hb =
    let (e, l) = compute_index_lem img a b c.image (rw c.width ha) (rw c.height hb) in
    let k : b * w + a < w * h =
      subst (λ v. b * v + a < v * h) c.width
        (subst (λ v. b * img.width + a < img.width * v) c.height l) in
    (
      e ∙ ap (λ v. b * v + a) c.width,
      λ s d. subst (λ v. b * w + a < v) (sym (d.image.size ∙ ap₂ ◌*◌ d.width d.height)) k,
    )

module _ (w h tw th : ℕ) (img tilemap : Image) (c : IsCanvas w h img)
    (m : IsCanvas tw th tilemap) where
  -- One assignment, at places that both have.
  copy-at :
      (a b a' b' : ℕ) (s : Option Image)
      → a < w
      → b < h
      → a' < tw
      → b' < th
      → IsSafe w h s
      → IsSafe w h (
          copy_pixel tilemap
            (compute_index img (pos a) (pos b))
            (compute_index tilemap (pos a') (pos b'))
            s)
        × ((i j : ℕ)
            → i < w
            → pixel? w
                (copy_pixel tilemap
                  (compute_index img (pos a) (pos b))
                  (compute_index tilemap (pos a') (pos b'))
                  s)
                i
                j
              ≡ (if (i == a && j == b)
                  then get_or tilemap.data' (compute_index tilemap (pos a') (pos b')) 0
                  else pixel? w s i j))
  copy-at a b a' b' none ha hb ha' hb' o = absurd o
  copy-at a b a' b' (some s) ha hb ha' hb' o =
      let (e, l) = IsCanvas-index w h img a b c ha hb in
      let (e', l') = IsCanvas-index tw th tilemap a' b' m ha' hb' in
      let source =
        get_elem?-some tilemap.data' (compute_index tilemap (pos a') (pos b'))
          (rw e' (l' tilemap m)) in
      rw (e, copy_pixel-some tilemap s (b * w + a) _ _ source (l s o))
        (set-IsCanvas w h s (b * w + a) _ o, λ i j hi. set-pixel w h s a b _ i j o ha (l s o) hi)

same_place : (to k : ℤ) (i a : ℕ) → to +ℤ k ≡ pos a → eq_ℤ k (pos i -ℤ to) ≡ (i == a)
same_place to k i a e = sym (eq_shift to k i) ∙ ap (λ z. eq_ℤ z (pos i)) e ∙ ground arith

choose :
    (p' q' p q : Bool) (u v b : ℕ)
    → p ≡ p'
    → q ≡ q'
    → (p' ≡ true → q' ≡ true → u ≡ v)
    → (if p' && q' then u else b) ≡ (if q && p then v else b)
choose true true p q u v b e f h = rw (e, f) (h refl refl)
choose true false p q u v b e f h = rw (e, f) refl
choose false true p q u v b e f h = rw (e, f) refl
choose false false p q u v b e f h = rw (e, f) refl

module _ (w h tw th : ℕ) (img tilemap : Image) (c : IsCanvas w h img) (m : IsCanvas tw th tilemap)
    (x y : ℤ) (tile : Rect) (at_x at_y width height : ℕ) (to_x start_x to_y start_y : ℤ) (n n' : ℕ)
    (tile_x : tile.x ≡ pos at_x) (tile_y : tile.y ≡ pos at_y)
    (cols : IsAxis x width w tw at_x to_x start_x n)
    (rows : IsAxis y height h th at_y to_y start_y n') where
  pub copies-Paints :
      (k l : ℤ)
      → within (pos 0) n k ≡ true
      → within (pos 0) n' l ≡ true
      → Paints
          (IsSafe w h)
          (pixel? w)
          w
          h
          (λ s.
            copy_pixel tilemap
              (compute_index img (to_x +ℤ k) (to_y +ℤ l))
              (compute_index tilemap (tile.x +ℤ start_x +ℤ k) (tile.y +ℤ start_y +ℤ l))
              s)
          (λ i j. eq_ℤ l (pos j -ℤ to_y) && eq_ℤ k (pos i -ℤ to_x))
          (λ i j p. sprite_color tilemap tile x y i j)
  copies-Paints k l p q =
      let (a, e, ha) = cols.target k p in
      let (b, f, hb) = rows.target l q in
      let (a', e', ha') = cols.source k p in
      let (b', f', hb') = rows.source l q in
      let u = ap (λ z. z +ℤ start_x +ℤ k) tile_x ∙ e' in
      let v = ap (λ z. z +ℤ start_y +ℤ l) tile_y ∙ f' in
      record {
        ok = λ s o.
            rw (e, f, u, v) (copy-at w h tw th img tilemap c m a b a' b' s ha hb ha' hb' o).0;
        at = λ s i j o hi hj.
            rw (e, f, u, v)
              ((copy-at w h tw th img tilemap c m a b a' b' s ha hb ha' hb' o).1 i j hi
                ∙ choose (i == a) (j == b) _ _ _ _ _ (same_place to_x k i a e)
                    (same_place to_y l j b f)
                    (λ r t.
                      ap₂ (λ g g'. get_or tilemap.data' (compute_index tilemap g g') 0)
                        (sym u
                          ∙ same_source tile.x start_x to_x x (pos i) k cols.offset
                              (e ∙ ap pos (ground arith)))
                        (sym v
                          ∙ same_source tile.y start_y to_y y (pos j) l rows.offset
                              (f ∙ ap pos (ground arith)))));
      }
