-- ===== src/Draw/Shapes/Paint.antt =====
-- Loops over a region that paint each pixel of it once.
use csf.Base.{
  ℕ, zero, suc, ◌+◌, ◌<◌, ◌≡◌, refl, ◌∙◌, Bool, true, false, ◌&&◌, ◌||◌, arith, ltb, leb, ◌==◌,
  if◌then◌else◌,
}
use csf.Base.Int.{ℤ, pos, ◌+ℤ◌, pos_part, neg_part, +ℤ_parts}
use csf.Draw.Shapes.{for_ints, for_region, rounds}

abbrev pub eq_ℤ : ℤ → ℤ → Bool
eq_ℤ a b = (pos_part a + neg_part b) == (pos_part b + neg_part a)

-- `lo <= c && c < lo + n`.
abbrev pub within : ℤ → ℕ → ℤ → Bool
within lo n c =
    leb (pos_part lo + neg_part c) (pos_part c + neg_part lo)
    && ltb (pos_part c + neg_part lo) (pos_part lo + neg_part c + n)

within_step :
    (a b a' b' p q n : ℕ)
    → a' + b ≡ b' + a + 1
    → ((leb (a + q) (p + b) && ltb (p + b) (a + q + suc n))
        ≡ (((a + q) == (p + b)) || (leb (a' + q) (p + b') && ltb (p + b') (a' + q + n))))
      × (((a + q) == (p + b)) ≡ true → (leb (a' + q) (p + b') && ltb (p + b') (a' + q + n)) ≡ false)
within_step a b a' b' p q n e = (ground arith, λ h. ground arith)

-- The first of the rounds, and the others.
within-suc :
    (lo c : ℤ) (n : ℕ)
    → (within lo (suc n) c ≡ (eq_ℤ lo c || within (lo +ℤ pos 1) n c))
      × (eq_ℤ lo c ≡ true → within (lo +ℤ pos 1) n c ≡ false)
within-suc lo c n =
    within_step (pos_part lo) (neg_part lo) (pos_part (lo +ℤ pos 1)) (neg_part (lo +ℤ pos 1))
      (pos_part c) (neg_part c) n (omega (arith, +ℤ_parts lo (pos 1)))

or_true : (p : Bool) → (p || true) ≡ true
or_true true = refl
or_true false = refl

pub within-zero : (lo c : ℤ) → within lo 0 c ≡ false
within-zero lo c = ground arith

within-later : (lo k : ℤ) (n : ℕ) → within (lo +ℤ pos 1) n k ≡ true → within lo (suc n) k ≡ true
within-later lo k n q = (within-suc lo k n).0 ∙ rw q (or_true (eq_ℤ lo k))

within-first : (lo : ℤ) (n : ℕ) → within lo (suc n) lo ≡ true
within-first lo n = ground arith

if_and_false : (q : Bool) (a b : ℕ) → b ≡ (if q && false then a else b)
if_and_false true a b = refl
if_and_false false a b = refl

-- One pixel through the first round and the others.
round_at :
    (q one rest all : Bool) (g : ℕ → ℕ) (a b c : ℕ)
    → all ≡ (one || rest)
    → (one ≡ true → rest ≡ false)
    → b ≡ (if q && one then g a else a)
    → c ≡ (if q && rest then g b else b)
    → c ≡ (if q && all then g a else a)
round_at false one rest all g a b c e d p t = t ∙ p
round_at true false rest all g a b c e d p t = rw (e, ← p) t
round_at true true rest all g a b c e d p t = rw e (ground (arith, d refl, p, t))

and_comm : (p q : Bool) → (p && q) ≡ (q && p)
and_comm true true = refl
and_comm true false = refl
and_comm false true = refl
and_comm false false = refl

-- A state that shows pixels, of a size `w` times `h` that operations keep.
module _ {ℓ} {S : Type ℓ} (IsOk : S → Type 0) (pixel : S → ℕ → ℕ → ℕ) (w h : ℕ) where
  -- The operation keeps the states well formed, and changes the pixels of a region by `g`.
  pub record Paints (op : S → S) (region : ℕ → ℕ → Bool) (g : ℕ → ℕ → ℕ → ℕ) : Type ℓ where
    pub ok : (s : S) → IsOk s → IsOk (op s)
    pub at :
        (s : S) (i j : ℕ)
        → IsOk s
        → i < w
        → j < h
        → pixel (op s) i j ≡ (if region i j then g i j (pixel s i j) else pixel s i j)

  -- A loop that paints, in its round `k`, where a coordinate is `k`, paints where it is in range.
  pub for_ints-Paints :
      (body : ℤ → S → S) (within_region : ℕ → ℕ → Bool) (c : ℕ → ℕ → ℤ) (g : ℕ → ℕ → ℕ → ℕ)
      → (n : ℕ) (lo : ℤ)
      → ((k : ℤ)
          → within lo n k ≡ true
          → Paints (body k) (λ i j. within_region i j && eq_ℤ k (c i j)) g)
      → Paints (for_ints n lo body) (λ i j. within_region i j && within lo n (c i j)) g
  unfolding for_ints
  for_ints-Paints body region c g zero lo one = record {
    ok = λ s h. h;
    at = λ s i j o hi hj. rw (within-zero lo (c i j)) (if_and_false (region i j) _ _);
  }
  for_ints-Paints body region c g (suc n) lo one =
      let rest =
        for_ints-Paints body region c g n (lo +ℤ pos 1) (λ k q. one k (within-later lo k n q)) in
      let first = one lo (within-first lo n) in
      record {
        ok = λ s h. rest.ok (body lo s) (first.ok s h);
        at = λ s i j o hi hj.
            let d = within-suc lo (c i j) n in
            round_at (region i j) (eq_ℤ lo (c i j)) (within (lo +ℤ pos 1) n (c i j))
              (within lo (suc n) (c i j)) (g i j) (pixel s i j) (pixel (body lo s) i j) _ d.0 d.1
              (first.at s i j o hi hj) (rest.at (body lo s) i j (first.ok s o) hi hj);
      }

  Paints-congr :
      (op : S → S) (region region' : ℕ → ℕ → Bool) (g : ℕ → ℕ → ℕ → ℕ)
      → ((i j : ℕ) → region i j ≡ region' i j)
      → Paints op region g
      → Paints op region' g
  Paints-congr op region region' g e p = record {
    ok = p.ok;
    at = λ s i j o hi hj. rw (← (e i j)) (p.at s i j o hi hj);
  }

  -- Both loops: each pixel whose coordinates are in the two ranges is painted once.
  pub for_region-Paints :
      (body : ℤ → ℤ → S → S) (c d : ℕ → ℕ → ℤ) (g : ℕ → ℕ → ℕ → ℕ)
      → (min_x max_x min_y max_y : ℤ)
      → ((k l : ℤ)
          → within min_x (rounds min_x max_x) k ≡ true
          → within min_y (rounds min_y max_y) l ≡ true
          → Paints (body k l) (λ i j. eq_ℤ l (d i j) && eq_ℤ k (c i j)) g)
      → Paints
          (for_region min_x max_x min_y max_y body)
          (λ i j.
            within min_y (rounds min_y max_y) (d i j) && within min_x (rounds min_x max_x) (c i j))
          g
  for_region-Paints body c d g min_x max_x min_y max_y one =
      for_ints-Paints
        (λ col s'. for_ints (rounds min_y max_y) min_y (λ row s''. body col row s'') s')
        (λ i j. within min_y (rounds min_y max_y) (d i j)) c g (rounds min_x max_x) min_x
        (λ k p.
          Paints-congr (for_ints (rounds min_y max_y) min_y (λ row s''. body k row s''))
            (λ i j. eq_ℤ k (c i j) && within min_y (rounds min_y max_y) (d i j))
            (λ i j. within min_y (rounds min_y max_y) (d i j) && eq_ℤ k (c i j)) g
            (λ i j. and_comm (eq_ℤ k (c i j)) (within min_y (rounds min_y max_y) (d i j)))
            (for_ints-Paints (body k) (λ i j. eq_ℤ k (c i j)) d g (rounds min_y max_y) min_y
              (λ l q.
                Paints-congr (body k l) (λ i j. eq_ℤ l (d i j) && eq_ℤ k (c i j))
                  (λ i j. eq_ℤ k (c i j) && eq_ℤ l (d i j)) g
                  (λ i j. and_comm (eq_ℤ l (d i j)) (eq_ℤ k (c i j))) (one k l p q))))
