-- ===== src/BigInt/Quotient/Search.antt =====
-- The search of `operator/`: a round halves the gap between the bounds.
use native.Mathlib.Nat.{mul-le-mul_right, suc-mul, pow-suc}
use csf.Base
use csf.Base.{
  ℕ, zero, suc, ◌+◌, ◌-◌, ◌*◌, ◌/◌, ◌^◌, ◌≤◌, ◌<◌, Bool, true, false, List, [], ◌∷◌, Option, none,
  some, ◌≡◌, ◌≢◌, ◌⊎◌, inl, inr, refl, ap, ap₂, ◌∙◌, sym, arith, if◌then◌else◌, differ, length,
  Ordering, compare_cases, dec_lt, ltb,
}
use csf.BigInt.{BigInt, of_word, compare_magnitudes, plus, minus}
use csf.BigInt.Value.{value, IsWords}
use csf.BigInt.Order.{compare_magnitudes-compare}
use csf.BigInt.Product.{times, div_by_2}
use csf.BigInt.Quotient.{bisect}
use csf.BigInt.Quotient.Step.{IsNat, plus-IsNat, one-IsNat, middle-IsNat, pred-IsNat, times-IsNat}

-- `r` is the quotient of `t` by `d`, rounded down.
pub record IsQuotient (t d : ℕ) (q : BigInt) : Type 0 where
  pub lower : value q.magnitude * d ≤ t
  pub upper : t < value q.magnitude * d + d
  pub words : IsWords q.magnitude

pub record Found (t d : ℕ) (r : Option BigInt) : Type 0 where
  pub q : BigInt
  pub returns : r ≡ some q
  pub correct : IsQuotient t d q

pub compare-IsNat :
    (x y : BigInt) {v w : ℕ} → IsNat x v → IsNat y w → compare_magnitudes x y ≡ Base.compare v w
compare-IsNat x y p q =
    compare_magnitudes-compare x y p.words q.words ∙ ap₂ Base.compare p.amount q.amount

pos_of_product : (m d : ℕ) {t : ℕ} → t < m * d → 0 < m
pos_of_product zero d h = omega arith
pos_of_product (suc m) d h = omega arith

module _ (top bottom : BigInt) (t d : ℕ) (is_top : IsNat top t) (is_bottom : IsNat bottom d)
    (pos : 0 < d) where
  -- The quotient lies between the bounds, or the upper bound is the quotient.
  pub record Bounds (low high : BigInt) (l h : ℕ) : Type 0 where
    pub is_low : IsNat low l
    pub is_high : IsNat high h
    pub from_below : l * d < t + d
    pub from_above : t < h * d + d

  crossed : {low high : BigInt} {l h : ℕ} → Bounds low high l h → h < l → Found t d (some high)
  crossed {high = high} {l = l} {h = h} b lt =
      let past : suc h * d ≤ l * d = mul-le-mul_right d lt in
      let amount : value high.magnitude * d ≡ h * d = ap (λ v. v * d) b.is_high.amount in
      record {
        q = high;
        returns = refl;
        correct = record {
          lower = omega (arith, suc-mul h d, b.from_below);
          upper = omega (arith, b.from_above);
          words = b.is_high.words;
        };
      }

  abbrev middle : BigInt → BigInt → BigInt
  middle low high = div_by_2 (plus low high)

  -- What a round does after the test of the loop.
  abbrev turn : ℕ → BigInt → BigInt → Ordering → Option BigInt
  turn n low high Ordering.eq = some (middle low high)
  turn n low high Ordering.lt = bisect n top bottom (plus (middle low high) (of_word 1 false)) high
  turn n low high Ordering.gt = bisect n top bottom low (minus (middle low high) (of_word 1 false))

  bisect-turn :
      (n : ℕ) (low high : BigInt) (c c' : Ordering)
      → compare_magnitudes low high ≡ c
      → c ≢ Ordering.gt
      → compare_magnitudes (times (middle low high) bottom) top ≡ c'
      → bisect (suc n) top bottom low high ≡ turn n low high c'
  unfolding bisect
  bisect-turn n low high Ordering.gt c' e ne e' = absurd (ne refl)
  bisect-turn n low high Ordering.lt Ordering.lt e ne e' = rw (e, e', bisect)
  bisect-turn n low high Ordering.lt Ordering.eq e ne e' = rw (e, e', bisect)
  bisect-turn n low high Ordering.lt Ordering.gt e ne e' = rw (e, e', bisect)
  bisect-turn n low high Ordering.eq Ordering.lt e ne e' = rw (e, e', bisect)
  bisect-turn n low high Ordering.eq Ordering.eq e ne e' = rw (e, e', bisect)
  bisect-turn n low high Ordering.eq Ordering.gt e ne e' = rw (e, e', bisect)

  bisect_end :
      (n : ℕ) (low high : BigInt)
      → compare_magnitudes low high ≡ Ordering.gt
      → bisect (suc n) top bottom low high ≡ some high
  unfolding bisect
  bisect_end n low high e = rw (e, bisect)

  module _ {low high : BigInt} {l h : ℕ} (b : Bounds low high l h) (le : l ≤ h) where
    abbrev m : ℕ
    m = (l + h) / 2

    mid : IsNat (middle low high) m
    mid = middle-IsNat low high b.is_low b.is_high

    product : compare_magnitudes (times (middle low high) bottom) top ≡ Base.compare (m * d) t
    product =
        let (total, words) = times-IsNat (middle low high) bottom mid is_bottom in
        compare_magnitudes-compare _ top words is_top.words ∙ ap₂ Base.compare total is_top.amount

    raised : m * d < t → Bounds (plus (middle low high) (of_word 1 false)) high (m + 1) h
    raised lt = record {
      is_low = plus-IsNat (middle low high) (of_word 1 false) mid one-IsNat;
      is_high = b.is_high;
      from_below = omega arith;
      from_above = b.from_above;
    }

    lowered : t < m * d → Bounds low (minus (middle low high) (of_word 1 false)) l (m - 1)
    lowered gt =
        let some_m : 0 < m = pos_of_product m d gt in
        let split : m ≡ suc (m - 1) = omega arith in
        record {
          is_low = b.is_low;
          is_high = pred-IsNat (middle low high) mid some_m;
          from_below = b.from_below;
          from_above = omega (arith, ap (λ k. k * d) split, suc-mul (m - 1) d);
        }

    hit : m * d ≡ t → Found t d (some (middle low high))
    hit eq =
        let amount : value (middle low high).magnitude * d ≡ m * d = ap (λ v. v * d) mid.amount in
        record {
          q = middle low high;
          returns = refl;
          correct = record { lower = omega arith; upper = omega arith; words = mid.words };
        }

  abbrev pub Finds : ℕ → Type 0
  Finds n =
      (low high : BigInt) (l h : ℕ)
      → Bounds low high l h
      → h + 1 < l + 2 ^ n
      → Found t d (bisect (suc n) top bottom low high)

  -- A round at bounds that have not crossed, from what the rounds after it do.
  round-Found :
      (n : ℕ) (low high : BigInt) (l h : ℕ) (c : Ordering)
      → Finds n
      → Bounds low high l h
      → l ≤ h
      → h + 1 < l + 2 ^ suc n
      → compare_magnitudes low high ≡ c
      → c ≢ Ordering.gt
      → Found t d (bisect (suc (suc n)) top bottom low high)
  round-Found n low high l h c later b le room e ne =
      let half = pow-suc 2 n in
      let step = λ (c' : Ordering) (q : Base.compare ((l + h) / 2 * d) t ≡ c').
        bisect-turn (suc n) low high c c' e ne (product b le ∙ q) in
      elim (compare_cases ((l + h) / 2 * d) t) [
        | inl (q, lt) ↦ rw (step Ordering.lt q) (
            later (plus (middle low high) (of_word 1 false)) high ((l + h) / 2 + 1) h
              (raised b le lt) (omega arith))
        | inr (inl (q, eq)) ↦ rw (step Ordering.eq q) (hit b le eq)
        | inr (inr (q, gt)) ↦ rw (step Ordering.gt q) (
            later low (minus (middle low high) (of_word 1 false)) l ((l + h) / 2 - 1)
              (lowered b le gt) (omega (arith, pos_of_product ((l + h) / 2) d gt)))
      ]

  pub bisect-Found : (n : ℕ) → Finds n
  bisect-Found zero low high l h b room =
      let gt = compare-IsNat low high b.is_low b.is_high in
      rw (bisect_end zero low high (gt ∙ ground arith)) (crossed b (omega arith))
  bisect-Found (suc n) low high l h b room =
      let order = compare-IsNat low high b.is_low b.is_high in
      let later = bisect-Found n in
      elim (compare_cases l h) [
        | inl (e, lt) ↦
            round-Found n low high l h Ordering.lt later b (omega arith) room (order ∙ e) (λ q. cc)
        | inr (inl (e, eq)) ↦
            round-Found n low high l h Ordering.eq later b (omega arith) room (order ∙ e) (λ q. cc)
        | inr (inr (e, gt)) ↦ rw (bisect_end (suc n) low high (order ∙ e)) (crossed b gt)
      ]
