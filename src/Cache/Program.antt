-- ===== src/Cache/Program.antt =====
-- csf_assign03/main.cpp: `read_trace_file` and `main`. The standard input is its text; what `>>` reads of
-- it is written out, for the C locale.
pub mod Ends
mod Tests
use csf.Base.{
  ℕ, zero, suc, ◌+◌, ◌-◌, ◌*◌, ◌^◌, Bool, true, false, not, ◌&&◌, ◌||◌, List, [], ◌∷◌, Option, none,
  some, ltb, ◌==◌, if◌then◌else◌, length, u32,
}
use csf.Base.Text.{Text, is_space, is_digit, digits}
use csf.Base.Text.Scan.{skip_space, take_word}
use csf.Cache.{Trace, Cache, CacheSim, init, ctz}
use csf.Cache.Simulator.{simulate}
use csf.Cache.Arguments.{stoul, Arguments, accepted, refused, exception, parse_arguments}

-- The rest after an unsigned number of 32 bits, if there is one.
unfoldable pub after_digits : Text → Option Text
after_digits [] = none
after_digits (c ∷ s) =
    let (n, rest) = digits 0 (c ∷ s) in if is_digit c && ltb n (2 ^ 32) then some rest else none

unfoldable pub after_number : Text → Option Text
after_number [] = none
after_number (c ∷ s) = if c == b'-' || c == b'+' then after_digits s else after_digits (c ∷ s)

-- `input >> type >> addr_str >> sz`: the type, the address and the rest, if all three are read.
unfoldable pub read_fields : ℕ → Text × Text → Option (ℕ × Text × Text)
read_fields type ([], rest) = none
read_fields type (c ∷ word, rest) = elim (after_number (skip_space rest)) [
  | none ↦ none
  | some rest' ↦ some (type, c ∷ word, rest')
]

unfoldable pub read_type : Text → Option (ℕ × Text × Text)
read_type [] = none
read_type (c ∷ s) = read_fields c (take_word (skip_space s))

pub data Traces : Type 0 where
  read : List Trace → Traces
  bad_address : Traces
  out_of_rounds : Traces

abbrev pub before : Trace → Traces → Traces
before t (read traces) = read (t ∷ traces)
before t bad_address = bad_address
before t out_of_rounds = out_of_rounds

-- The body of the loop: `std::stoul` in base 16, cut to a `uint32_t`.
abbrev pub with_trace : ℕ → Option ℕ → Traces → Traces
with_trace type none rest = bad_address
with_trace type (some address) rest = before (record { type = type; address = u32 address }) rest

-- The loop of `read_trace_file`, which never returns false.
unfoldable pub read_traces : ℕ → Text → Traces
read_traces zero input = out_of_rounds
read_traces (suc fuel) input = elim (read_type (skip_space input)) [
  | none ↦ read []
  | some (type, word, rest) ↦ with_trace type (stoul 16 word) (read_traces fuel rest)
]

-- As many rounds as the input has characters, and one to see its end.
unfoldable pub read_trace_file : Text → Traces
read_trace_file input = read_traces (suc (length input)) input

-- How the program ends: with 1, by an exception that nothing catches, at the counters to print, with a
-- shift that C++ does not define, or in a step that it does not take (an access out of range, or more
-- rounds than there are).
pub data Exit : Type 0 where
  failed : Exit
  terminated : Exit
  printed : CacheSim → Exit
  undefined : Exit
  stuck : Exit

abbrev pub print_cache : Option CacheSim → Exit
print_cache none = stuck
print_cache (some sim) = printed sim

-- `addr >> (block_offsets + set_offsets)`, of 32 bits, for the first access.
abbrev pub shift_is_defined : Cache → List Trace → Bool
shift_is_defined cache [] = true
shift_is_defined cache (t ∷ traces) = ltb (ctz 32 cache.block_size + ctz 32 cache.num_sets) 32

-- Whether there is memory for the traces and for the vectors of the constructor; else `std::bad_alloc`
-- is thrown.
module _ (has_memory : Cache → List Trace → Bool) where
  unfoldable pub run_traces : Cache → Traces → Exit
  run_traces cache (read traces) =
      if not (has_memory cache traces)
      then terminated
      else if not (shift_is_defined cache traces)
      then undefined
      else print_cache (simulate (init cache) traces)
  run_traces cache bad_address = terminated
  run_traces cache out_of_rounds = stuck

  abbrev pub run_arguments : Arguments → Text → Exit
  run_arguments (accepted cache) input = run_traces cache (read_trace_file input)
  run_arguments refused input = failed
  run_arguments exception input = terminated

  unfoldable pub main : List Text → Text → Exit
  main argv input = run_arguments (parse_arguments argv) input
