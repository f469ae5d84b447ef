-- ===== src/Sort/Comparator.antt =====
-- The contract of `qsort`, and `compare_i64`, which keeps its part of it.
use mathlib.Core.List.{Perm}
use csf.Base.{Ordering, List, [], ◌∷◌, ◌≡◌, ◌≢◌, arith, inl, inr}
use csf.Base.Int.{ℤ, ◌≤ℤ◌}
use csf.Sort.{compare_i64}
use csf.Sort.Merge.{Above, IsSorted, compare_i64_cases}

-- What the C library asks of a comparator: two calls with the operands swapped agree, and the order is
-- transitive.
pub record IsComparator (compare : ℤ → ℤ → Ordering) : Type 0 where
  pub swaps : (x y : ℤ) → compare x y ≡ Ordering.gt → compare y x ≡ Ordering.lt
  pub swaps_back : (x y : ℤ) → compare x y ≡ Ordering.lt → compare y x ≡ Ordering.gt
  pub trans :
      (x y z : ℤ)
      → compare x y ≢ Ordering.gt
      → compare y z ≢ Ordering.gt
      → compare x z ≢ Ordering.gt

-- The comparator puts none of the elements in front of `x`.
abbrev pub NoneBefore : (ℤ → ℤ → Ordering) → ℤ → List ℤ → Type 0
NoneBefore compare x [] = Unit {0}
NoneBefore compare x (y ∷ ys) = (compare x y ≢ Ordering.gt) × NoneBefore compare x ys

abbrev pub InOrder : (ℤ → ℤ → Ordering) → List ℤ → Type 0
InOrder compare [] = Unit {0}
InOrder compare (x ∷ xs) = NoneBefore compare x xs × InOrder compare xs

-- What the C library says of `qsort`: with a comparator, the elements come out in its order.
pub record IsQsort (qsort : (ℤ → ℤ → Ordering) → List ℤ → List ℤ) : Type 0 where
  pub sorts :
      (compare : ℤ → ℤ → Ordering)
      → IsComparator compare
      → (xs : List ℤ) → InOrder compare (qsort compare xs)
  pub keeps :
      (compare : ℤ → ℤ → Ordering)
      → IsComparator compare
      → (xs : List ℤ) → Perm (qsort compare xs) xs

compare_i64-le : (x y : ℤ) → compare_i64 x y ≢ Ordering.gt → x ≤ℤ y
compare_i64-le x y h = elim (compare_i64_cases x y) [
  | inl (e, le) ↦ absurd (h e)
  | inr (e, le) ↦ le
]

pub compare_i64-IsComparator : IsComparator compare_i64
unfolding compare_i64
compare_i64-IsComparator = record {
  swaps = λ x y e. ground arith;
  swaps_back = λ x y e. ground arith;
  trans = λ x y z p q.
      let h = compare_i64-le x y p in let k = compare_i64-le y z q in λ e. ground arith;
}

NoneBefore-Above : (x : ℤ) (ys : List ℤ) → NoneBefore compare_i64 x ys → Above x ys
NoneBefore-Above x [] h = tt
NoneBefore-Above x (y ∷ ys) h = (compare_i64-le x y h.0, NoneBefore-Above x ys h.1)

InOrder-IsSorted : (xs : List ℤ) → InOrder compare_i64 xs → IsSorted xs
InOrder-IsSorted [] h = tt
InOrder-IsSorted (x ∷ xs) h = (NoneBefore-Above x xs h.0, InOrder-IsSorted xs h.1)

module _ {qsort : (ℤ → ℤ → Ordering) → List ℤ → List ℤ} (q : IsQsort qsort) where
  pub sorts_i64 : (xs : List ℤ) → IsSorted (qsort compare_i64 xs)
  sorts_i64 xs =
      InOrder-IsSorted (qsort compare_i64 xs) (q.sorts compare_i64 compare_i64-IsComparator xs)
