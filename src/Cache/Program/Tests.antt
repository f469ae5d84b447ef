-- ===== src/Cache/Program/Tests.antt =====
-- Runs of the program, and the theorems at inputs that meet their hypotheses.
use csf.Base.{◌≡◌, refl, Bool, ltb, ◌*◌, ◌^◌, List, [], ◌∷◌, ◌++◌, true, false}
use csf.Base.Text.{Text, codes, digits}
use csf.Cache.{Cache, Trace, ctz}
use csf.Base.Text.Scan.{skip_space, take_word}
use csf.Cache.Arguments.{
  number, skip_prefix, stoul_digits, stoul_sign, is_power_of_two, accepted, refused, exception,
  checked, filled, parse_arguments,
}
use csf.Cache.Program.{
  after_digits, after_number, read_fields, read_type, read, read_traces, read_trace_file, undefined,
  run_traces, main,
}
use csf.Cache.Program.Ends.{IsEnd, main_lem}

abbrev sizes : List Text → List Text
sizes policies = codes "csim" ∷ codes "256" ∷ codes "4" ∷ codes "16" ∷ policies

abbrev good : List Text
good = sizes (codes "write-allocate" ∷ codes "write-back" ∷ codes "lru" ∷ [])

abbrev good_cache : Cache
good_cache = record {
  num_sets = 256;
  block_num_per_set = 4;
  block_size = 16;
  is_write_allocate = true;
  is_write_back = true;
  is_lru = true;
  is_fifo = false;
}

abbrev two_lines : Text
two_lines = codes "s 0x1fffff50 1" ++ 10 ∷ codes "l 1fffff58 1" ++ 10 ∷ []

good_arguments : parse_arguments good ≡ accepted good_cache
unfolding parse_arguments filled checked is_power_of_two stoul_digits stoul_sign skip_prefix
    skip_space number
good_arguments = refl

-- Write-back without write-allocate, and a size that is no number.
refused_arguments :
    (parse_arguments (sizes (codes "no-write-allocate" ∷ codes "write-back" ∷ codes "lru" ∷ []))
      ≡ refused)
    × (parse_arguments (
          codes "csim"
          ∷ codes "many"
          ∷ codes "4"
          ∷ codes "16"
          ∷ codes "write-allocate"
          ∷ codes "write-back"
          ∷ codes "lru"
          ∷ [])
        ≡ exception)
unfolding parse_arguments filled checked is_power_of_two stoul_digits stoul_sign skip_prefix
    skip_space number
refused_arguments = (refl, refl)

both_lines :
    read_trace_file two_lines
    ≡ read (
        record { type = b's'; address = 0x1fff_ff50 }
        ∷ record { type = b'l'; address = 0x1fff_ff58 }
        ∷ [])
unfolding read_trace_file read_traces read_type read_fields after_number after_digits take_word
    skip_space digits stoul_digits stoul_sign skip_prefix number
both_lines = refl

-- As much memory as for 2 ^ 24 lines.
abbrev small_machine : Cache → List Trace → Bool
small_machine cache traces = ltb (cache.num_sets * cache.block_num_per_set) (2 ^ 24)

abbrev one_huge_block : List Text
one_huge_block =
    codes "csim"
    ∷ codes "65536"
    ∷ codes "1"
    ∷ codes "65536"
    ∷ codes "write-allocate"
    ∷ codes "write-back"
    ∷ codes "lru"
    ∷ []

-- A set index of 16 bits behind a block offset of 16 bits.
too_wide : main small_machine one_huge_block two_lines ≡ undefined
unfolding main run_traces parse_arguments filled checked is_power_of_two stoul_digits stoul_sign
    skip_prefix skip_space number read_trace_file read_traces read_type read_fields after_number
    after_digits take_word digits ctz
too_wide = refl

main_lem_example : IsEnd small_machine good two_lines (main small_machine good two_lines)
main_lem_example = main_lem small_machine good two_lines
