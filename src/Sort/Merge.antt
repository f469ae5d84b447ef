-- ===== src/Sort/Merge.antt =====
-- `merge` keeps the elements and the order, and is_sorted.c tells ordered files.
use mathlib.Core.List.{Perm, Permᴰ, perm_middle}
use mathlib.Core.List.Perm
use mathlib.Core.Logic.{∥∥₁_elim}
use native.Mathlib.Nat.{ℕ_set}
use csf.Base.{
  suc, Ordering, true, List, [], ◌∷◌, ◌++◌, ◌≡◌, ◌≢◌, ◌⊎◌, ◌↔◌, inl, inr, refl, ap, ◌∙◌, arith,
  length, Bool-cases,
}
use csf.Base.Int.{ℤ, ◌≤ℤ◌, ltb_ℤ}
use csf.Sort.{compare_i64, merge, none_below, is_sorted}

-- Every element is at least `x`.
abbrev pub Above : ℤ → List ℤ → Type 0
Above x [] = Unit {0}
Above x (y ∷ ys) = (x ≤ℤ y) × Above x ys

abbrev pub IsSorted : List ℤ → Type 0
IsSorted [] = Unit {0}
IsSorted (x ∷ xs) = Above x xs × IsSorted xs

Above-le : (x y : ℤ) (zs : List ℤ) → x ≤ℤ y → Above y zs → Above x zs
Above-le x y [] h a = tt
Above-le x y (z ∷ zs) h a = (omega arith, Above-le x y zs h a.1)

pub compare_i64_cases :
    (l r : ℤ)
    → ((compare_i64 l r ≡ Ordering.gt) × (r ≤ℤ l)) ⊎ ((compare_i64 l r ≢ Ordering.gt) × (l ≤ℤ r))
unfolding compare_i64
compare_i64_cases l r = elim (Bool-cases (ltb_ℤ r l)) [
  | inl e ↦ inl (ground arith, ground arith)
  | inr e ↦ inr (ground arith, ground arith)
]

module _ (l r : ℤ) (ls rs : List ℤ) where
  merge_right : compare_i64 l r ≡ Ordering.gt → merge (l ∷ ls) (r ∷ rs) ≡ r ∷ merge (l ∷ ls) rs
  unfolding merge
  merge_right e = rw (e, merge)

  merge_left : compare_i64 l r ≢ Ordering.gt → merge (l ∷ ls) (r ∷ rs) ≡ l ∷ merge ls (r ∷ rs)
  merge_left ne = go (compare_i64 l r) refl
    where
      go : (c : Ordering) → compare_i64 l r ≡ c → merge (l ∷ ls) (r ∷ rs) ≡ l ∷ merge ls (r ∷ rs)
      go Ordering.lt e = unfold merge in rw (e, merge)
      go Ordering.eq e = unfold merge in rw (e, merge)
      go Ordering.gt e = absurd (ne e)

-- What a merge of two ordered ranges is.
pub record IsMerged (ls rs out : List ℤ) : Type 0 where
  pub elements : Perm out (ls ++ rs)
  pub sorted : IsSorted ls → IsSorted rs → IsSorted out
  pub above : (x : ℤ) → Above x ls → Above x rs → Above x out

pub merge-IsMerged : (ls rs : List ℤ) → IsMerged ls rs (merge ls rs)
unfolding merge
merge-IsMerged [] [] = record { elements = Perm.refl []; sorted = λ p q. tt; above = λ x p q. tt }
merge-IsMerged [] (r ∷ rs) =
    let ih = merge-IsMerged [] rs in
    record {
      elements = Perm.cons r ih.elements;
      sorted = λ p q. (ih.above r tt q.0, ih.sorted tt q.1);
      above = λ x p q. (q.0, ih.above x tt q.1);
    }
merge-IsMerged (l ∷ ls) [] =
    let ih = merge-IsMerged ls [] in
    record {
      elements = Perm.cons l ih.elements;
      sorted = λ p q. (ih.above l p.0 tt, ih.sorted p.1 tt);
      above = λ x p q. (p.0, ih.above x p.1 tt);
    }
merge-IsMerged (l ∷ ls) (r ∷ rs) =
    let from_right = merge-IsMerged (l ∷ ls) rs in
    let from_left = merge-IsMerged ls (r ∷ rs) in
    elim (compare_i64_cases l r) [
      | inl (e, le) ↦ rw (merge_right l r ls rs e) (record {
        elements =
            Perm.trans (Perm.cons r from_right.elements) (Perm.symm (perm_middle (l ∷ ls) rs));
        sorted =
            λ p q. (from_right.above r (le, Above-le r l ls le p.0) q.0, from_right.sorted p q.1);
        above = λ x p q. (q.0, from_right.above x p q.1);
      })
      | inr (ne, le) ↦ rw (merge_left l r ls rs ne) (record {
        elements = Perm.cons l from_left.elements;
        sorted =
            λ p q. (from_left.above l p.0 (le, Above-le l r rs le q.0), from_left.sorted p.1 q);
        above = λ x p q. (p.0, from_left.above x p.1 q);
      })
    ]

length-permᴰ : {xs ys : List ℤ} → Permᴰ xs ys → length xs ≡ length ys
length-permᴰ Permᴰ.nil = refl
length-permᴰ (Permᴰ.cons e d) = ap suc (length-permᴰ d)
length-permᴰ (Permᴰ.swap e e') = refl
length-permᴰ (Permᴰ.trans d d') = length-permᴰ d ∙ length-permᴰ d'

pub length-perm : {xs ys : List ℤ} → Perm xs ys → length xs ≡ length ys
length-perm {xs} {ys} p = ∥∥₁_elim p (ℕ_set (length xs) (length ys)) length-permᴰ

none_below-Above : (x : ℤ) (ys : List ℤ) → none_below x ys ≡ true → Above x ys × IsSorted ys
unfolding none_below
none_below-Above x [] e = (tt, tt)
none_below-Above x (y ∷ ys) e =
    let le : x ≤ℤ y = ground arith in
    let (above, sorted) = none_below-Above y ys (ground arith) in
    ((le, Above-le x y ys le above), (above, sorted))

Above-none_below : (x : ℤ) (ys : List ℤ) → Above x ys → IsSorted ys → none_below x ys ≡ true
unfolding none_below
Above-none_below x [] a s = refl
Above-none_below x (y ∷ ys) a s = ground (arith, Above-none_below y ys s.0 s.1)

-- The program of is_sorted.c accepts a file exactly when all its values are in order.
pub is_sorted_iff : (xs : List ℤ) → (is_sorted xs ≡ true) ↔ IsSorted xs
unfolding is_sorted
is_sorted_iff [] = (λ e. tt, λ s. refl)
is_sorted_iff (x ∷ xs) = (λ e. none_below-Above x xs e, λ s. Above-none_below x xs s.0 s.1)
