-- ===== src/Sort/Failure.antt =====
-- `merge_sort` with a threshold of 0.
use csf.Base.{
  ℕ, zero, suc, ◌+◌, ◌-◌, ◌/◌, ◌<◌, Ordering, true, false, List, ◌≡◌, refl, arith, none, leb,
  Option-cases, inl, inr,
}
use csf.Base.Int.{ℤ}
use csf.Sort.{Os, merge_sort}

module _ (qsort : (ℤ → ℤ → Ordering) → List ℤ → List ℤ) (os : Os) where
  -- A range that is split, and what its right half does, when the left one returned.
  none_right :
      (fuel threshold : ℕ) (arr : List ℤ) (begin end : ℕ)
      → leb (end - begin) threshold ≡ false
      → os.fork_left begin end ≡ true
      → os.fork_right begin end ≡ true
      → ((arr' : List ℤ)
          → merge_sort qsort fuel os threshold arr' (begin + (end - begin) / 2) end ≡ none)
      → merge_sort qsort (suc fuel) os threshold arr begin end ≡ none
  unfolding merge_sort
  none_right fuel threshold arr begin end gt fl fr right =
      elim (Option-cases
        (merge_sort qsort fuel os threshold arr begin (begin + (end - begin) / 2))) [
          | inl e ↦ rw (gt, merge_sort, fl, e) refl
          | inr (left, e) ↦ rw (gt, merge_sort, fl, e, fr, right left.arr) refl
        ]

  -- With threshold 0 a range that is not empty is split for ever: no depth of recursion is enough.
  pub zero_threshold_diverges :
      ((b e : ℕ) → os.fork_left b e ≡ true)
      → ((b e : ℕ) → os.fork_right b e ≡ true)
      → (fuel : ℕ) (arr : List ℤ) (begin end : ℕ) → begin < end
      → merge_sort qsort fuel os 0 arr begin end ≡ none
  unfolding merge_sort
  zero_threshold_diverges fl fr zero arr begin end h = refl
  zero_threshold_diverges fl fr (suc fuel) arr begin end h =
      none_right fuel 0 arr begin end (ground arith) (fl begin end) (fr begin end) (λ arr'.
        zero_threshold_diverges fl fr fuel arr' (begin + (end - begin) / 2) end (omega arith))
