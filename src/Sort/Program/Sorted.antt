-- ===== src/Sort/Program/Sorted.antt =====
-- parsort.c and is_sorted.c on one file, and the threshold argument.
use mathlib.Core.List.{Perm}
use csf.Base.{
  ℕ, ◌/◌, ◌^◌, ◌≤◌, ◌<◌, Ordering, true, List, [], ◌∷◌, append-nil, some, ◌≡◌, refl, ap, ◌∙◌, arith,
  length,
}
use csf.Base.Int.{ℤ}
use csf.Base.Text.{Text, print, digits, strtoul, strtoul_from}
use csf.Base.Text.Printed.{strtoul-print}
use csf.Sort.{merge_sort}
use csf.Sort.Merge.{IsSorted, is_sorted_iff}
use csf.Sort.Comparator.{IsQsort}
use csf.Sort.Correct.{AllSucceed, merge_sort-Sorts}
use csf.Sort.Failure.{zero_threshold_diverges}
use csf.Sort.Program.{
  File, st_size, System, Ended, succeeds, too_deep, unmap, sort_file, parsort_main, exit_code,
  judge, is_sorted_main,
}

judge-IsSorted : (values : List ℤ) → IsSorted values → exit_code (judge values) ≡ 0
unfolding judge
judge-IsSorted [] s = refl
judge-IsSorted (x ∷ xs) s = let e = (is_sorted_iff (x ∷ xs)).1 s in rw e refl

num_elements_lem : (file : File) → length file.rest < 8 → st_size file / 8 ≡ length file.values
num_elements_lem file h = omega arith

-- No file between the calls and the mapping, and no failure.
pub record Works (sys : System) (filename : Text) (file : File) : Type 0 where
  pub opens : sys.open_file filename ≡ some file
  pub whole_values : length file.rest < 8
  pub fstat_succeeds : sys.fstat ≡ true
  pub mmap_succeeds : sys.mmap (st_size file) ≡ true
  pub munmap_succeeds : sys.munmap (st_size file) ≡ true
  pub all_succeed : AllSucceed sys.os

-- The file that parsort leaves.
pub record Leaves (ended : Ended) (filename checker : Text) (file : File) : Type 0 where
  pub file' : File
  pub returns_0 : ended ≡ succeeds file'
  pub elements : Perm file'.values file.values
  pub same_rest : file'.rest ≡ file.rest
  pub accepted : exit_code (is_sorted_main (λ name. some file') (checker ∷ filename ∷ [])) ≡ 0

module _ (qsort : (ℤ → ℤ → Ordering) → List ℤ → List ℤ) (fuel : ℕ) (sys : System) (filename : Text)
    (file : File) where
  -- An accepted threshold comes down to `sort_file`.
  parsort_main-strtoul :
      (program argument : Text) (n : ℕ)
      → strtoul argument ≡ (n, [])
      → parsort_main qsort fuel sys (program ∷ filename ∷ argument ∷ [])
        ≡ sort_file qsort fuel sys n (sys.open_file filename)
  unfolding parsort_main
  parsort_main-strtoul program argument n e = rw e refl

  mapped :
      (n : ℕ)
      → Works sys filename file
      → sort_file qsort fuel sys n (sys.open_file filename)
        ≡ unmap qsort fuel sys file
            (merge_sort qsort fuel sys.os n file.values 0 (length file.values))
  unfolding sort_file
  mapped n w =
      rw (w.opens, w.fstat_succeeds, w.mmap_succeeds, num_elements_lem file w.whole_values) refl

  -- Where the calls succeed and qsort sorts by any comparator whose answers agree with each other,
  -- parsort with the digits of a threshold from 1 to 2 ^ 64 - 1 returns 0, and leaves in the file the values that were there and the bytes
  -- behind them, in an order that is_sorted accepts.
  pub parsort_then_is_sorted :
      (q : IsQsort qsort) (w : Works sys filename file) (program checker : Text) (n : ℕ)
      → 1 ≤ n
      → n < 2 ^ 64
      → length file.values < fuel
      → Leaves
          (parsort_main qsort fuel sys (program ∷ filename ∷ print 20 n [] ∷ []))
          filename
          checker
          file
  unfolding unmap is_sorted_main digits
  parsort_then_is_sorted q w program checker n least most enough =
      let r =
        merge_sort-Sorts qsort q sys.os w.all_succeed n least fuel [] file.values [] 0
          (length file.values) refl (omega arith) enough in
      let returns = rw (append-nil file.values, append-nil r.new) at r.returns in
      record {
        file' = record { values = r.new; rest = file.rest };
        returns_0 =
            parsort_main-strtoul program (print 20 n []) n (strtoul-print n [] most refl)
            ∙ mapped n w
            ∙ ap (unmap qsort fuel sys file) returns
            ∙ rw w.munmap_succeeds refl;
        elements = r.elements;
        same_rest = refl;
        accepted = judge-IsSorted r.new r.sorted;
      }

  -- A threshold argument that is empty is taken as 0: on a file with a value in it, where every call
  -- succeeds, parsort then forks without end, whatever depth is allowed.
  pub empty_threshold_diverges :
      (w : Works sys filename file) (program : Text)
      → 1 ≤ length file.values
      → parsort_main qsort fuel sys (program ∷ filename ∷ [] ∷ []) ≡ too_deep
  unfolding unmap strtoul strtoul_from
  empty_threshold_diverges w program some_value =
      parsort_main-strtoul program [] 0 refl
      ∙ mapped 0 w
      ∙ ap (unmap qsort fuel sys file) (
          zero_threshold_diverges qsort sys.os w.all_succeed.left w.all_succeed.right fuel
            file.values 0 (length file.values) (omega arith))
