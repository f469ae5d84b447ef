-- ===== src/Sort.antt =====
-- csf_assign04/parsort.c and is_sorted.c: the merge sort by processes, and the test of its result.
-- An `int64_t` is an integer. The children sort ranges of the shared mapping that do not overlap,
-- so the left one is run first. `qsort` is the C library's, and what the system calls answer is a
-- parameter.
pub mod Merge
pub mod Range
pub mod Comparator
pub mod Correct
pub mod Failure
pub mod Program
mod Tests
use csf.Base.{
  ℕ, zero, suc, ◌+◌, ◌-◌, ◌/◌, Ordering, Bool, true, false, not, ◌||◌, List, [], ◌∷◌, Option, none,
  some, leb, if◌then◌else◌, set, take, drop,
}
use csf.Base.Int.{ℤ, ltb_ℤ}

-- -1, 1 or 0.
pub compare_i64 : ℤ → ℤ → Ordering
compare_i64 left right =
    if ltb_ℤ left right then Ordering.lt else if ltb_ℤ right left then Ordering.gt else Ordering.eq

-- The loop of `merge`, from the elements left in either range to what `temparr` gets.
pub merge : List ℤ → List ℤ → List ℤ
merge [] [] = []
merge [] (r ∷ rs) = r ∷ merge [] rs
merge (l ∷ ls) [] = l ∷ merge ls []
merge (l ∷ ls) (r ∷ rs) = elim (compare_i64 l r) [
  | Ordering.gt ↦ r ∷ merge (l ∷ ls) rs
  | _ ↦ l ∷ merge ls (r ∷ rs)
]

-- The elements of `[begin, end)`.
abbrev pub range : List ℤ → ℕ → ℕ → List ℤ
range arr begin end = take (end - begin) (drop begin arr)

-- `for (i = 0; i < size; i++) arr[begin + i] = temp_arr[i];`, with `i` the index of the next.
pub copy_back : List ℤ → ℕ → List ℤ → List ℤ
copy_back arr i [] = arr
copy_back arr i (x ∷ xs) = copy_back (set arr i x) (suc i) xs

-- Whether each call succeeds, at the range that is being sorted.
pub record Os : Type 0 where
  pub fork_left : ℕ → ℕ → Bool
  pub fork_right : ℕ → ℕ → Bool
  pub waitpid_left : ℕ → ℕ → Bool
  pub waitpid_right : ℕ → ℕ → Bool
  pub malloc : ℕ → ℕ → Bool

-- The memory, and whether the process exits with 0.
pub record Done : Type 0 where
  pub arr : List ℤ
  pub success : Bool

module _ (qsort : (ℤ → ℤ → Ordering) → List ℤ → List ℤ) where
  pub seq_sort : List ℤ → ℕ → ℕ → List ℤ
  seq_sort arr begin end = copy_back arr begin (qsort compare_i64 (range arr begin end))

  -- The parent, for whether each child exited with 0. Both calls of `waitpid` store into `wstatus`,
  -- the second only where it succeeds, and both checks read it.
  pub join : Os → List ℤ → Bool → Bool → ℕ → ℕ → ℕ → Done
  join os arr left_status right_status begin mid end =
      let wstatus = if os.waitpid_right begin end then right_status else left_status in
      let merged = merge (range arr begin mid) (range arr mid end) in
      if not (os.waitpid_left begin end) || not wstatus
      then record { arr = arr; success = false }
      else if not (os.waitpid_right begin end) || not wstatus
      then record { arr = arr; success = false }
      else if os.malloc begin end
      then record { arr = copy_back arr begin merged; success = true }
      else record { arr = arr; success = false }

  -- `none` is a recursion deeper than the fuel.
  pub merge_sort : ℕ → Os → ℕ → List ℤ → ℕ → ℕ → Option Done
  merge_sort zero os threshold arr begin end = none
  merge_sort (suc fuel) os threshold arr begin end =
      let size = end - begin in
      let mid = begin + size / 2 in
      elim (leb size threshold) [
        | true ↦ some (record { arr = seq_sort arr begin end; success = true })
        | false ↦ elim (os.fork_left begin end) [
          | false ↦ some (record { arr = arr; success = false })
          | true ↦ elim (merge_sort fuel os threshold arr begin mid) [
            | none ↦ none
            | some left ↦ elim (os.fork_right begin end) [
              | false ↦ some (record { arr = left.arr; success = false })
              | true ↦ elim (merge_sort fuel os threshold left.arr mid end) [
                | none ↦ none
                | some right ↦ some (join os right.arr left.success right.success begin mid end)
              ]
            ]
          ]
        ]
      ]

-- is_sorted.c: the exit code is 0 when this is true, an empty file included.
pub none_below : ℤ → List ℤ → Bool
none_below prev [] = true
none_below prev (curr ∷ rest) =
    let ok = none_below curr rest in if ltb_ℤ curr prev then false else ok

pub is_sorted : List ℤ → Bool
is_sorted [] = true
is_sorted (first ∷ rest) = none_below first rest
