-- ===== src/Sort/Tests.antt =====
-- Sorts of short arrays, and the theorems at inputs that meet their hypotheses. `qsort` is an
-- insertion sort by the comparator.
use mathlib.Core.List.{Perm}
use mathlib.Core.List.Perm
use csf.Base.{Ordering, true, false, List, [], ◌∷◌, ◌++◌, ◌≡◌, ◌≢◌, refl, arith, some}
use csf.Base.Int.{ℤ, pos, negsuc}
use csf.Sort.{compare_i64, merge, copy_back, Os, seq_sort, join, merge_sort}
use csf.Sort.Comparator.{IsComparator, NoneBefore, InOrder, IsQsort}
use csf.Sort.Correct.{AllSucceed, Sorts, merge_sort-Sorts}

-- In front of the first element that the comparator does not put before it.
abbrev pub insert : (ℤ → ℤ → Ordering) → ℤ → List ℤ → List ℤ
insert compare x [] = x ∷ []
insert compare x (y ∷ ys) = elim (compare x y) [
  | Ordering.gt ↦ y ∷ insert compare x ys
  | _ ↦ x ∷ y ∷ ys
]

abbrev pub insertion_sort : (ℤ → ℤ → Ordering) → List ℤ → List ℤ
insertion_sort compare [] = []
insertion_sort compare (x ∷ xs) = insert compare x (insertion_sort compare xs)

-- What the insertion of an element makes of a list in order.
record IsInserted (compare : ℤ → ℤ → Ordering) (x : ℤ) (xs out : List ℤ) : Type 0 where
  elements : Perm out (x ∷ xs)
  in_order : InOrder compare xs → InOrder compare out
  none_before :
      (z : ℤ) → compare z x ≢ Ordering.gt → NoneBefore compare z xs → NoneBefore compare z out

module _ (compare : ℤ → ℤ → Ordering) (c : IsComparator compare) where
  NoneBefore-trans :
      (x y : ℤ) (zs : List ℤ)
      → compare x y ≢ Ordering.gt
      → NoneBefore compare y zs
      → NoneBefore compare x zs
  NoneBefore-trans x y [] h k = tt
  NoneBefore-trans x y (z ∷ zs) h k = (c.trans x y z h k.0, NoneBefore-trans x y zs h k.1)

  in_front :
      (x y : ℤ) (ys : List ℤ)
      → compare x y ≢ Ordering.gt
      → IsInserted compare x (y ∷ ys) (x ∷ y ∷ ys)
  in_front x y ys h = record {
    elements = Perm.refl (x ∷ y ∷ ys);
    in_order = λ o. ((h, NoneBefore-trans x y ys h o.0), o);
    none_before = λ z p q. (p, q);
  }

  behind :
      (x y : ℤ) (ys out : List ℤ)
      → compare x y ≡ Ordering.gt
      → IsInserted compare x ys out
      → IsInserted compare x (y ∷ ys) (y ∷ out)
  behind x y ys out e i = record {
    elements = Perm.trans (Perm.cons y i.elements) (Perm.swap x y ys);
    in_order = λ o. (i.none_before y (λ g. cc (c.swaps x y e, g)) o.0, i.in_order o.1);
    none_before = λ z p q. (q.0, i.none_before z p q.1);
  }

  insert-IsInserted : (x : ℤ) (ys : List ℤ) → IsInserted compare x ys (insert compare x ys)
  insert-IsInserted x [] = record {
    elements = Perm.refl (x ∷ []);
    in_order = λ o. (tt, tt);
    none_before = λ z p q. (p, tt);
  }
  insert-IsInserted x (y ∷ ys) = go (insert-IsInserted x ys) (compare x y) refl
    where
      go :
          IsInserted compare x ys (insert compare x ys)
          → (o : Ordering) → compare x y ≡ o
          → IsInserted compare x
              (y ∷ ys)
              (elim o [ Ordering.gt ↦ y ∷ insert compare x ys | _ ↦ x ∷ y ∷ ys ])
      go i Ordering.gt e = behind x y ys (insert compare x ys) e i
      go i Ordering.lt e = in_front x y ys (λ g. cc (e, g))
      go i Ordering.eq e = in_front x y ys (λ g. cc (e, g))

  insertion_sort-InOrder : (xs : List ℤ) → InOrder compare (insertion_sort compare xs)
  insertion_sort-InOrder [] = tt
  insertion_sort-InOrder (x ∷ xs) =
      (insert-IsInserted x (insertion_sort compare xs)).in_order (insertion_sort-InOrder xs)

  insertion_sort-perm : (xs : List ℤ) → Perm (insertion_sort compare xs) xs
  insertion_sort-perm [] = Perm.refl []
  insertion_sort-perm (x ∷ xs) =
      Perm.trans (insert-IsInserted x (insertion_sort compare xs)).elements
        (Perm.cons x (insertion_sort-perm xs))

pub insertion_sort-IsQsort : IsQsort insertion_sort
insertion_sort-IsQsort = record { sorts = insertion_sort-InOrder; keeps = insertion_sort-perm }

abbrev pub calm : Os
calm = record {
  fork_left = λ b e. true;
  fork_right = λ b e. true;
  waitpid_left = λ b e. true;
  waitpid_right = λ b e. true;
  malloc = λ b e. true;
}

pub calm-AllSucceed : AllSucceed calm
calm-AllSucceed = record {
  left = λ b e. refl;
  right = λ b e. refl;
  wait_left = λ b e. refl;
  wait_right = λ b e. refl;
  memory = λ b e. refl;
}

abbrev four : List ℤ
four = pos 3 ∷ negsuc 1 ∷ pos 0 ∷ pos 7 ∷ []

sort_four :
    merge_sort insertion_sort 5 calm 1 four 0 4
    ≡ some (record { arr = negsuc 1 ∷ pos 0 ∷ pos 3 ∷ pos 7 ∷ []; success = true })
unfolding merge_sort seq_sort copy_back join merge compare_i64
sort_four = refl

merge_sort-Sorts_example : Sorts [] four [] (merge_sort insertion_sort 5 calm 1 (four ++ []) 0 4)
merge_sort-Sorts_example =
    merge_sort-Sorts insertion_sort insertion_sort-IsQsort calm calm-AllSucceed 1 (omega arith) 5 []
      four [] 0 4 refl (omega arith) (omega arith)

-- The left half, `[3, -1]`, has failed, and the status of the right half is that of both.
left_failure_lost :
    join insertion_sort calm four false true 0 2 4
    ≡ record { arr = pos 0 ∷ pos 3 ∷ negsuc 1 ∷ pos 7 ∷ []; success = true }
unfolding join copy_back merge compare_i64
left_failure_lost = refl
