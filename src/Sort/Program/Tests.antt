-- ===== src/Sort/Program/Tests.antt =====
-- Runs of the programs, and the theorems at inputs that meet their hypotheses.
use csf.Base.{zero, suc, ◌*◌, ◌^◌, true, false, [], ◌∷◌, ◌≡◌, refl, arith, some}
use csf.Base.Int.{pos, negsuc}
use csf.Base.Text.{codes, digits, print, strtoul, strtoul_from, strtoul_sign, strtoul_digits}
use csf.Sort.{merge_sort, is_sorted, none_below, merge, seq_sort, copy_back, join, compare_i64}
use csf.Sort.Tests.{insertion_sort, insertion_sort-IsQsort, calm, calm-AllSucceed}
use csf.Sort.Program.{
  File, System, fatal, threshold_invalid, succeeds, too_deep, unmap, sort_file, parsort_main,
  is_sorted_main, judge, not_sorted, write_failed, with_suffix, write_bytes, generate_main,
}
use csf.Sort.Program.Sorted.{Works, Leaves, parsort_then_is_sorted, empty_threshold_diverges}
use csf.Sort.Program.Bytes.{Fills, generate_main-Fills}

abbrev unsorted : File
unsorted = record { values = pos 3 ∷ negsuc 1 ∷ pos 7 ∷ []; rest = 5 ∷ 6 ∷ [] }

abbrev system : System
system = record {
  open_file = λ name. some unsorted;
  fstat = true;
  mmap = λ bytes. true;
  munmap = λ bytes. true;
  os = calm;
}

abbrev works : Works system (codes "data") unsorted
works = record {
  opens = refl;
  whole_values = omega arith;
  fstat_succeeds = refl;
  mmap_succeeds = refl;
  munmap_succeeds = refl;
  all_succeed = calm-AllSucceed;
}

abbrev sorted_file : File
sorted_file = record { values = negsuc 1 ∷ pos 3 ∷ pos 7 ∷ []; rest = 5 ∷ 6 ∷ [] }

sorts_three :
    parsort_main insertion_sort 4 system (codes "parsort" ∷ codes "data" ∷ codes " 1" ∷ [])
    ≡ succeeds sorted_file
unfolding parsort_main sort_file unmap merge_sort seq_sort copy_back join merge compare_i64 strtoul
    strtoul_from strtoul_sign strtoul_digits digits
sorts_three = refl

bad_threshold :
    parsort_main insertion_sort 4 system (codes "parsort" ∷ codes "data" ∷ codes "12k" ∷ [])
    ≡ fatal threshold_invalid
unfolding parsort_main strtoul strtoul_from strtoul_sign strtoul_digits digits
bad_threshold = refl

finds_disorder :
    is_sorted_main (λ name. some unsorted) (codes "is_sorted" ∷ codes "data" ∷ []) ≡ not_sorted
unfolding is_sorted_main judge is_sorted none_below
finds_disorder = refl

-- The second byte is not written.
disk_full :
    generate_main
      (λ i. 513)
      (λ i. elim i [ zero ↦ true | suc j ↦ false ])
      (λ name. true)
      (codes "gen_rand_data" ∷ codes "3k" ∷ codes "out" ∷ [])
    ≡ write_failed (1 ∷ [])
unfolding generate_main with_suffix write_bytes strtoul strtoul_from strtoul_sign strtoul_digits
    digits
disk_full = refl

parsort_then_is_sorted_example :
    Leaves
      (parsort_main insertion_sort 4 system (codes "parsort" ∷ codes "data" ∷ print 20 2 [] ∷ []))
      (codes "data")
      (codes "is_sorted")
      unsorted
parsort_then_is_sorted_example =
    parsort_then_is_sorted insertion_sort 4 system (codes "data") unsorted insertion_sort-IsQsort
      works (codes "parsort") (codes "is_sorted") 2 (omega arith) (omega arith) (omega arith)

empty_threshold_diverges_example :
    parsort_main insertion_sort 9 system (codes "parsort" ∷ codes "data" ∷ [] ∷ []) ≡ too_deep
empty_threshold_diverges_example =
    empty_threshold_diverges insertion_sort 9 system (codes "data") unsorted works (codes "parsort")
      (omega arith)

generate_main-Fills_example :
    Fills
      (generate_main
        (λ i. 7 * i)
        (λ i. true)
        (λ name. true)
        (codes "gen_rand_data" ∷ print 20 1 (codes "M") ∷ codes "out" ∷ []))
      (1 * 2 ^ 20)
generate_main-Fills_example =
    generate_main-Fills (λ i. 7 * i) (λ i. true) (λ i. refl) (λ name. true) (codes "gen_rand_data")
      (codes "out") 1 refl (omega arith)
