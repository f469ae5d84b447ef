-- ===== src/Sort/Correct.antt =====
-- `merge_sort` sorts its range in place, where the system calls succeed.
use mathlib.Core.List.{Perm}
use mathlib.Core.List.Perm
use csf.Base.{
  ℕ, zero, suc, ◌+◌, ◌-◌, ◌/◌, ◌≤◌, ◌<◌, Ordering, true, false, List, ◌++◌, append_assoc, ◌≡◌, refl,
  sym, subst, ap, ◌∙◌, arith, Option, some, leb, length, length-append, length-take, length-drop,
  take-append-drop, take, drop, Bool-cases, inl, inr,
}
use csf.Base.Int.{ℤ}
use csf.Sort.{compare_i64, merge, range, copy_back, Os, Done, seq_sort, join, merge_sort}
use csf.Sort.Merge.{IsSorted, merge-IsMerged, length-perm}
use csf.Sort.Comparator.{IsQsort, compare_i64-IsComparator, sorts_i64}
use csf.Sort.Range.{range_middle, copy_back_middle}

pub record AllSucceed (os : Os) : Type 0 where
  pub left : (b e : ℕ) → os.fork_left b e ≡ true
  pub right : (b e : ℕ) → os.fork_right b e ≡ true
  pub wait_left : (b e : ℕ) → os.waitpid_left b e ≡ true
  pub wait_right : (b e : ℕ) → os.waitpid_right b e ≡ true
  pub memory : (b e : ℕ) → os.malloc b e ≡ true

-- The range between `pre` and `post` is sorted, and they are as they were.
pub record Sorts (pre mid post : List ℤ) (r : Option Done) : Type 0 where
  pub new : List ℤ
  pub returns : r ≡ some (record { arr = pre ++ (new ++ post); success = true })
  pub sorted : IsSorted new
  pub elements : Perm new mid

module _ (qsort : (ℤ → ℤ → Ordering) → List ℤ → List ℤ) (q : IsQsort qsort) (os : Os)
    (ok : AllSucceed os) (threshold : ℕ) (some_size : 1 ≤ threshold) where
  abbrev run : ℕ → List ℤ → ℕ → ℕ → Option Done
  run fuel arr begin end = merge_sort qsort fuel os threshold arr begin end

  small :
      (fuel : ℕ) (pre mid post : List ℤ) (begin end : ℕ)
      → begin ≡ length pre
      → end ≡ begin + length mid
      → leb (end - begin) threshold ≡ true
      → Sorts pre mid post (run (suc fuel) (pre ++ (mid ++ post)) begin end)
  unfolding seq_sort
  small fuel pre mid post begin end b e le =
      let here = range_middle pre mid post begin end b (omega arith) in
      let new = qsort compare_i64 mid in
      let size = length-perm (q.keeps compare_i64 compare_i64-IsComparator mid) in
      let copied = copy_back_middle pre mid post new begin b size in
      record {
        new = new;
        returns = unfold merge_sort in rw (le, merge_sort, here, copied) refl;
        sorted = sorts_i64 q mid;
        elements = q.keeps compare_i64 compare_i64-IsComparator mid;
      }

  -- Both halves sorted, the parent merges them.
  joined :
      (pre l r post : List ℤ) (begin mid end : ℕ)
      → begin ≡ length pre
      → mid ≡ begin + length l
      → end ≡ mid + length r
      → join qsort os (pre ++ (l ++ (r ++ post))) true true begin mid end
        ≡ record { arr = pre ++ (merge l r ++ post); success = true }
  unfolding join
  joined pre l r post begin mid end b m e =
      let arr = pre ++ (l ++ (r ++ post)) in
      let at_right : arr ≡ (pre ++ l) ++ (r ++ post) = sym (append_assoc pre l (r ++ post)) in
      let as_one : arr ≡ pre ++ ((l ++ r) ++ post) =
        ap (λ t. pre ++ t) (sym (append_assoc l r post)) in
      let left_range : range arr begin mid ≡ l =
        range_middle pre l (r ++ post) begin mid b (omega arith) in
      let right_range : range arr mid end ≡ r =
        ap (λ t. range t mid end) at_right
        ∙ range_middle (pre ++ l) r post mid end (omega (arith, length-append pre l))
            (omega (arith, length-append pre l)) in
      let size = length-perm (merge-IsMerged l r).elements in
      let copied : copy_back arr begin (merge l r) ≡ pre ++ (merge l r ++ post) =
        ap (λ t. copy_back t begin (merge l r)) as_one
        ∙ copy_back_middle pre (l ++ r) post (merge l r) begin b size in
      rw
        (
          ok.wait_left begin end,
          ok.wait_right begin end,
          ok.memory begin end,
          left_range,
          right_range,
          copied,
        )
        refl

  split_call :
      (fuel : ℕ) (arr : List ℤ) (begin end : ℕ) (left right : Done)
      → leb (end - begin) threshold ≡ false
      → run fuel arr begin (begin + (end - begin) / 2) ≡ some left
      → run fuel left.arr (begin + (end - begin) / 2) end ≡ some right
      → run (suc fuel) arr begin end
        ≡ some (
            join qsort os right.arr left.success right.success begin
              (begin + (end - begin) / 2)
              end)
  unfolding merge_sort
  split_call fuel arr begin end left right gt el er =
      rw (gt, merge_sort, ok.left begin end, el, ok.right begin end, er) refl

  halves :
      (fuel : ℕ) (pre l r post : List ℤ) (begin end : ℕ)
      → let m = begin + (end - begin) / 2 in
        begin ≡ length pre
        → m ≡ begin + length l
        → end ≡ m + length r
        → leb (end - begin) threshold ≡ false
        → (left : Sorts pre l (r ++ post) (run fuel (pre ++ (l ++ (r ++ post))) begin m))
        → Sorts (pre ++ left.new) r post (run fuel ((pre ++ left.new) ++ (r ++ post)) m end)
        → Sorts pre (l ++ r) post (run (suc fuel) (pre ++ ((l ++ r) ++ post)) begin end)
  halves fuel pre l r post begin end b m e gt left right =
      let mid = begin + (end - begin) / 2 in
      let merged = merge-IsMerged left.new right.new in
      let input : pre ++ ((l ++ r) ++ post) ≡ pre ++ (l ++ (r ++ post)) =
        ap (λ t. pre ++ t) (append_assoc l r post) in
      let between : pre ++ (left.new ++ (r ++ post)) ≡ (pre ++ left.new) ++ (r ++ post) =
        sym (append_assoc pre left.new (r ++ post)) in
      let after : (pre ++ left.new) ++ (right.new ++ post)
          ≡ pre ++ (left.new ++ (right.new ++ post)) =
        append_assoc pre left.new (right.new ++ post) in
      let called =
        split_call fuel (pre ++ (l ++ (r ++ post))) begin end
          (record { arr = pre ++ (left.new ++ (r ++ post)); success = true })
          (record { arr = (pre ++ left.new) ++ (right.new ++ post); success = true }) gt
          left.returns (ap (λ t. run fuel t mid end) between ∙ right.returns) in
      let size_l = length-perm left.elements in
      let size_r = length-perm right.elements in
      let last = joined pre left.new right.new post begin mid end b (omega arith) (omega arith) in
      record {
        new = merge left.new right.new;
        returns =
            ap (λ t. run (suc fuel) t begin end) input
            ∙ called
            ∙ ap (λ t. some (join qsort os t true true begin mid end)) after
            ∙ ap some last;
        sorted = merged.sorted left.sorted right.sorted;
        elements = Perm.trans merged.elements (Perm.append left.elements right.elements);
      }

  -- Where every system call succeeds, the threshold is at least 1 and qsort sorts by any comparator whose
  -- answers agree with each other, `merge_sort` returns with its range holding the same elements in
  -- order, and the rest of the array as it was. As many levels as the range has elements, and one, are
  -- enough: each half is smaller than its range.
  pub merge_sort-Sorts :
      (fuel : ℕ) (pre mid post : List ℤ) (begin end : ℕ)
      → begin ≡ length pre
      → end ≡ begin + length mid
      → length mid < fuel
      → Sorts pre mid post (run fuel (pre ++ (mid ++ post)) begin end)
  merge_sort-Sorts zero pre mid post begin end b e f = elim f [ ]
  merge_sort-Sorts (suc fuel) pre mid post begin end b e f =
      let half = (end - begin) / 2 in
      let l = take half mid in
      let r = drop half mid in
      let size_l = length-take half mid in
      let size_r = length-drop half mid in
      elim (Bool-cases (leb (end - begin) threshold)) [
        | inl le ↦ small fuel pre mid post begin end b e le
        | inr gt ↦
            let large : threshold < end - begin = ground arith in
            let left =
              merge_sort-Sorts fuel pre l (r ++ post) begin (begin + half) b (omega arith)
                (omega arith) in
            let size_new = length-perm left.elements in
            let right =
              merge_sort-Sorts fuel (pre ++ left.new) r post (begin + half) end
                (omega (arith, length-append pre left.new)) (omega arith) (omega arith) in
            subst (λ t. Sorts pre t post (run (suc fuel) (pre ++ (t ++ post)) begin end))
              (take-append-drop half mid)
              (halves fuel pre l r post begin end b (omega arith) (omega arith) gt left right)
      ]
