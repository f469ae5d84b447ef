-- ===== src/Draw/Shapes/Tile.antt =====
-- Which pixels `draw_tile` copies, along one axis.
pub mod Copied
pub mod Drawn
use csf.Base.{
  ℕ, suc, ◌+◌, ◌-◌, ◌*◌, ◌^◌, ◌≤◌, ◌<◌, min, ◌≡◌, ◌⊎◌, refl, sym, ap, ap₂, ◌∙◌, subst, Bool, true,
  false, not, ◌&&◌, ◌||◌, arith, ltb, leb, ◌==◌, if◌then◌else◌, Bool-cases, inl, inr, u32,
}
use csf.Base.Int.{
  ℤ, pos, negsuc, ◌+ℤ◌, ◌-ℤ◌, ltb_ℤ, pos_part, neg_part, +ℤ_parts, -ℤ_parts, eq_of_parts,
}
use csf.Draw.{to_i32, to_u32}
use csf.Draw.Shapes.{leb_ℤ, rounds, at_least_0, at_most_ℤ, Span, clip, limit}
use csf.Draw.Shapes.Paint.{within}

pub rounds_from_0 : (z : ℤ) → rounds (pos 0) z ≡ pos_part z
unfolding rounds ◌-ℤ◌
rounds_from_0 z = ground arith

pub pos_part-at_most_ℤ : (u v : ℤ) → pos_part (at_most_ℤ u v) ≡ min (pos_part u) (pos_part v)
pos_part-at_most_ℤ u v = ground arith

pos_part-sub : (m n : ℕ) → pos_part (pos m -ℤ pos n) ≡ m - n
unfolding ◌-ℤ◌
pos_part-sub m n = ground arith

pub to_i32-pos : (n : ℕ) → n < 2 ^ 31 → to_i32 n ≡ pos n
to_i32-pos n h = ground arith

-- The rounds, by the extent that `clip` leaves.
rounds-limit :
    (to start extent : ℤ) (map_size size at b : ℕ)
    → to ≡ pos b
    → size < 2 ^ 31
    → map_size < 2 ^ 31
    → rounds
        (pos 0)
        (limit (record { to = to; start = start; extent = extent }) map_size size (pos at))
      ≡ min (min (pos_part extent) (map_size - at)) (size - b)
unfolding limit
rounds-limit to start extent map_size size at b e hs hm =
    let u : pos_part (to_i32 map_size -ℤ pos at) ≡ map_size - at =
      ap (λ z. pos_part (z -ℤ pos at)) (to_i32-pos map_size hm) ∙ pos_part-sub map_size at in
    let v : pos_part (to_i32 size -ℤ to) ≡ size - b =
      ap₂ (λ y z. pos_part (y -ℤ z)) (to_i32-pos size hs) e ∙ pos_part-sub size b in
    rounds_from_0 (at_most_ℤ (at_most_ℤ extent (to_i32 map_size -ℤ pos at)) (to_i32 size -ℤ to))
    ∙ pos_part-at_most_ℤ (at_most_ℤ extent (to_i32 map_size -ℤ pos at)) (to_i32 size -ℤ to)
    ∙ ap₂ min (pos_part-at_most_ℤ extent (to_i32 map_size -ℤ pos at) ∙ ap (min (pos_part extent)) u)
        v

clip_pos :
    (a width size : ℕ)
    → a + width < 2 ^ 31
    → size < 2 ^ 31
    → (clip (pos a) (pos width) size).to ≡ pos a
      × (clip (pos a) (pos width) size).start ≡ pos 0
      × pos_part (clip (pos a) (pos width) size).extent
        ≡ (if ltb size (a + width) then size - a else width)
unfolding clip at_least_0 ◌+ℤ◌ ◌-ℤ◌
clip_pos a width size h hs = (ground arith, ground arith, ground arith)

clip_negsuc :
    (a width size : ℕ)
    → suc a ≤ width
    → width < 2 ^ 31
    → size < 2 ^ 31
    → (clip (negsuc a) (pos width) size).to ≡ pos 0
      × (clip (negsuc a) (pos width) size).start ≡ pos (suc a)
      × pos_part (clip (negsuc a) (pos width) size).extent ≡ min (width - suc a) size
unfolding clip at_least_0 ◌+ℤ◌ ◌-ℤ◌
clip_negsuc a width size l h hs = (ground arith, ground arith, ground arith)

-- What a loop of `n` rounds along an axis does, from `to` in the image and `start` in the tile: its
-- places in the image are those that the tile covers, and its places in the tilemap are in bounds.
pub record IsAxis (x : ℤ) (width size map_size at : ℕ) (to start : ℤ) (n : ℕ) : Type 0 where
  pub offset : to ≡ x +ℤ start
  pub covered :
      (i : ℕ)
      → i < size
      → within (pos 0) n (pos i -ℤ to) ≡ (leb_ℤ x (pos i) && ltb_ℤ (pos i) (x +ℤ pos width))
  pub target : (k : ℤ) → within (pos 0) n k ≡ true → (a : ℕ) × (to +ℤ k ≡ pos a) × (a < size)
  pub source :
      (k : ℤ)
      → within (pos 0) n k ≡ true
      → (b : ℕ) × (pos at +ℤ start +ℤ k ≡ pos b) × (b < map_size)

within_sub : (i b n : ℕ) → within (pos 0) n (pos i -ℤ pos b) ≡ (leb b i && ltb i (b + n))
within_sub i b n = ground (arith, -ℤ_parts (pos i) (pos b))

within_0 : (n : ℕ) (k : ℤ) → within (pos 0) n k ≡ true → (m : ℕ) × (k ≡ pos m) × (m < n)
within_0 n (pos m) h = (m, refl, ground arith)
within_0 n (negsuc m) h = absurd (ground arith)

+ℤ-pos : (m n : ℕ) → pos m +ℤ pos n ≡ pos (m + n)
unfolding ◌+ℤ◌
+ℤ-pos m n = ground arith

axis_of :
    (x : ℤ) (width size map_size at b start n : ℕ)
    → pos b ≡ x +ℤ pos start
    → ((i : ℕ)
        → i < size
        → (leb b i && ltb i (b + n)) ≡ (leb_ℤ x (pos i) && ltb_ℤ (pos i) (x +ℤ pos width)))
    → ((m : ℕ) → m < n → b + m < size)
    → ((m : ℕ) → m < n → at + start + m < map_size)
    → IsAxis x width size map_size at (pos b) (pos start) n
axis_of x width size map_size at b start n off cov tar src = record {
  offset = off;
  covered = λ i hi. within_sub i b n ∙ cov i hi;
  target = λ k h.
      let (m, e, l) = within_0 n k h in (b + m, ap (λ z. pos b +ℤ z) e ∙ +ℤ-pos b m, tar m l);
  source = λ k h.
      let (m, e, l) = within_0 n k h in
      (at + start + m, ap₂ (λ y z. y +ℤ z) (+ℤ-pos at start) e ∙ +ℤ-pos (at + start) m, src m l);
}

-- The axis of a tile, as `draw_tile` computes it.
abbrev pub TileAxis : ℤ → ℕ → ℕ → ℕ → ℕ → Type 0
TileAxis x width size map_size at =
    IsAxis x width size map_size at (clip x (pos width) size).to (clip x (pos width) size).start
      (rounds (pos 0) (limit (clip x (pos width) size) map_size size (pos at)))

computed :
    (x : ℤ) (width size map_size at : ℕ) {to to' start start' : ℤ} {n n' : ℕ}
    → to' ≡ to
    → start' ≡ start
    → n' ≡ n
    → IsAxis x width size map_size at to start n
    → IsAxis x width size map_size at to' start' n'
computed x width size map_size at {to} {to'} {start} {start'} {n} {n'} et es en axis =
    subst (λ t. IsAxis x width size map_size at t start' n') (sym et)
      (subst (λ t. IsAxis x width size map_size at to t n') (sym es)
        (subst (λ t. IsAxis x width size map_size at to start t) (sym en) axis))

-- A tile that starts in the image or behind it.
pub pos-TileAxis :
    (a width size map_size at : ℕ)
    → a + width < 2 ^ 31
    → size < 2 ^ 31
    → map_size < 2 ^ 31
    → at + width ≤ map_size
    → TileAxis (pos a) width size map_size at
pos-TileAxis a width size map_size at h hs hm ht =
    let c = clip_pos a width size h hs in
    let r = rounds-limit _ _ (clip (pos a) (pos width) size).extent map_size size at a c.0 hs hm in
    computed (pos a) width size map_size at c.0 c.1
      (r ∙ ap (λ v. min (min v (map_size - at)) (size - a)) c.2)
      (axis_of (pos a) width size map_size at a 0 _ (ground (arith, +ℤ_parts (pos a) (pos 0)))
        (λ i hi. ground (arith, +ℤ_parts (pos a) (pos width))) (λ m l. ground arith)
        (λ m l. ground arith))

-- A tile that starts before the image and reaches it, or ends just before it.
pub negsuc-TileAxis :
    (a width size map_size at : ℕ)
    → suc a ≤ width
    → width < 2 ^ 31
    → size < 2 ^ 31
    → map_size < 2 ^ 31
    → at + width ≤ map_size
    → TileAxis (negsuc a) width size map_size at
negsuc-TileAxis a width size map_size at l h hs hm ht =
    let c = clip_negsuc a width size l h hs in
    let r =
      rounds-limit _ _ (clip (negsuc a) (pos width) size).extent map_size size at 0 c.0 hs hm in
    computed (negsuc a) width size map_size at c.0 c.1
      (r ∙ ap (λ v. min (min v (map_size - at)) (size - 0)) c.2)
      (axis_of (negsuc a) width size map_size at 0 (suc a) _
        (ground (arith, +ℤ_parts (negsuc a) (pos (suc a))))
        (λ i hi. ground (arith, +ℤ_parts (negsuc a) (pos width))) (λ m l'. ground arith)
        (λ m l'. ground arith))
