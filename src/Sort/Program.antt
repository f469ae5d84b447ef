-- ===== src/Sort/Program.antt =====
-- csf_assign04: the main functions of parsort.c, is_sorted.c and gen_rand_data.c. What the system calls
-- answer, and the numbers that `rand` gives, are parameters.
mod Tests
pub mod Sorted
pub mod Bytes
use csf.Base.{
  ℕ, zero, suc, ◌+◌, ◌-◌, ◌*◌, ◌/◌, ◌%◌, ◌^◌, bit_and, Ordering, Bool, true, false, not, List, [],
  ◌∷◌, Option, none, some, ◌==◌, if◌then◌else◌, length, get_or,
}
use csf.Base.Int.{ℤ}
use csf.Base.Text.{Text, strtoul}
use csf.Sort.{Os, Done, merge_sort, is_sorted}

-- The `int64_t`s that the bytes of a file are, and the bytes behind the last whole one.
pub record File : Type 0 where
  pub values : List ℤ
  pub rest : List ℕ

-- `st_size`.
abbrev pub st_size : File → ℕ
st_size file = 8 * length file.values + length file.rest

abbrev pub arg : List Text → ℕ → Text
arg argv i = get_or argv i []

-- `end != argv[i] + strlen(argv[i])` is that there is a rest.
abbrev pub at_end : Text → Bool
at_end [] = true
at_end (c ∷ s) = false

-- What `open` finds (`open_file`), and whether the other calls succeed, the last two for a length in bytes.
pub record System : Type 0 where
  pub open_file : Text → Option File
  pub fstat : Bool
  pub mmap : ℕ → Bool
  pub munmap : ℕ → Bool
  pub os : Os

-- The message of a call of `fatal` in `main`.
pub data Fatal : Type 0 where
  threshold_invalid could_not_open fstat_failed mmap_failed munmap_failed : Fatal

-- `succeeds` returns 0 with the file as it is then, and `sort_failed` is a call of `fatal` in
-- `merge_sort`; `too_deep` is a recursion deeper than the fuel.
pub data Ended : Type 0 where
  usage : Ended
  fatal : Fatal → Ended
  sort_failed : File → Ended
  too_deep : Ended
  succeeds : File → Ended

module _ (qsort : (ℤ → ℤ → Ordering) → List ℤ → List ℤ) (fuel : ℕ) (sys : System) where
  -- The mapping is shared, so the file holds what is written to it.
  unfoldable pub unmap : File → Option Done → Ended
  unmap file none = too_deep
  unmap file (some done) =
      let file' = record file { values = done.arr } in
      if not done.success
      then sort_failed file'
      else if sys.munmap (st_size file)
      then succeeds file'
      else fatal munmap_failed

  unfoldable pub sort_file : ℕ → Option File → Ended
  sort_file threshold none = fatal could_not_open
  sort_file threshold (some file) =
      let num_elements = st_size file / 8 in
      if not sys.fstat
      then fatal fstat_failed
      else if not (sys.mmap (st_size file))
      then fatal mmap_failed
      else unmap file (merge_sort qsort fuel sys.os threshold file.values 0 num_elements)

  unfoldable pub parsort_main : List Text → Ended
  parsort_main argv =
      let threshold = strtoul (arg argv 2) in
      if not (length argv == 3)
      then usage
      else if not (at_end threshold.1)
      then fatal threshold_invalid
      else sort_file threshold.0 (sys.open_file (arg argv 1))

-- What is_sorted.c prints, with what it returns.
pub data Verdict : Type 0 where
  wrong_arguments not_opened no_first_value not_sorted sorted : Verdict

abbrev pub exit_code : Verdict → ℕ
exit_code wrong_arguments = 1
exit_code not_opened = 1
exit_code no_first_value = 0
exit_code not_sorted = 1
exit_code sorted = 0

-- `fread` gives whole values.
unfoldable pub judge : List ℤ → Verdict
judge [] = no_first_value
judge (first ∷ rest) = if is_sorted (first ∷ rest) then sorted else not_sorted

abbrev pub judge_file : Option File → Verdict
judge_file none = not_opened
judge_file (some file) = judge file.values

unfoldable pub is_sorted_main : (Text → Option File) → List Text → Verdict
is_sorted_main fopen argv =
    if not (length argv == 2) then wrong_arguments else judge_file (fopen (arg argv 1))

-- The bytes that gen_rand_data.c has written, and whether it returns 0.
pub data Generated : Type 0 where
  bad_arguments : Generated
  no_output : Generated
  write_failed : List ℕ → Generated
  wrote : ℕ → List ℕ → Generated

-- The `M` suffix; a rest that does not start with it is passed over.
unfoldable pub with_suffix : ℕ → Text → ℕ
with_suffix size [] = size
with_suffix size (c ∷ s) = if c == b'M' then size * (1024 * 1024) % 2 ^ 64 else size

module _ (rand : ℕ → ℕ) (fwrite : ℕ → Bool) where
  -- The bytes from `i` on, and whether all `left` of them were written.
  unfoldable pub write_bytes : ℕ → ℕ → List ℕ × Bool
  write_bytes i zero = ([], true)
  write_bytes i (suc left) =
      let rest = write_bytes (suc i) left in
      if fwrite i then (bit_and (rand i) 0xff ∷ rest.0, rest.1) else ([], false)

  unfoldable pub generate_main : (Text → Bool) → List Text → Generated
  generate_main fopen argv =
      let number = strtoul (arg argv 1) in
      let size = with_suffix number.0 number.1 in
      let out = write_bytes 0 size in
      if not (length argv == 3)
      then bad_arguments
      else if not (fopen (arg argv 2))
      then no_output
      else if out.1
      then wrote size out.0
      else write_failed out.0
