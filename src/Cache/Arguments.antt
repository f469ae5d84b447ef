-- ===== src/Cache/Arguments.antt =====
-- csf_assign03/main.cpp: `parse_arguments`, with what it uses of `std::stoul` where an `unsigned long`
-- has 64 bits.
pub mod Power
use csf.Base.{
  ℕ, zero, suc, ◌+◌, ◌-◌, ◌*◌, ◌%◌, ◌^◌, bit_and, Bool, true, false, not, differ, ◌&&◌, ◌||◌, List,
  [], ◌∷◌, Option, none, some, ltb, leb, ◌==◌, if◌then◌else◌, length, get_or, u32,
}
use csf.Base.Text.{Text, codes, same_text, digit_of}
use csf.Base.Text.Scan.{skip_space}
use csf.Cache.{Cache}

-- The number of the digits at the front, after `n`.
unfoldable pub number : ℕ → ℕ → Text → ℕ
number base n [] = n
number base n (c ∷ s) =
    let rest = number base (base * n + digit_of c) s in if ltb (digit_of c) base then rest else n

abbrev pub starts_with_digit : ℕ → Text → Bool
starts_with_digit base [] = false
starts_with_digit base (c ∷ s) = ltb (digit_of c) base

-- The `0x` that base 16 allows in front of a digit.
unfoldable pub skip_prefix : ℕ → Text → Text
skip_prefix base [] = []
skip_prefix base (c ∷ []) = c ∷ []
skip_prefix base (c ∷ d ∷ s) =
    if base == 16 && c == b'0' && (d == b'x' || d == b'X') && starts_with_digit base s
    then s
    else c ∷ d ∷ s

-- A minus negates in the unsigned type. `none` is an exception, for no digits or for a number out of
-- range.
unfoldable pub stoul_digits : ℕ → Bool → Text → Option ℕ
stoul_digits base negative s =
    let v = number base 0 s in
    if not (starts_with_digit base s)
    then none
    else if ltb v (2 ^ 64)
    then some (if negative then (2 ^ 64 - v) % 2 ^ 64 else v)
    else none

unfoldable pub stoul_sign : ℕ → Text → Option ℕ
stoul_sign base [] = none
stoul_sign base (c ∷ s) =
    if c == b'-'
    then stoul_digits base true (skip_prefix base s)
    else if c == b'+'
    then stoul_digits base false (skip_prefix base s)
    else stoul_digits base false (skip_prefix base (c ∷ s))

abbrev pub stoul : ℕ → Text → Option ℕ
stoul base s = stoul_sign base (skip_space s)

unfoldable pub is_power_of_two : ℕ → Bool
is_power_of_two x = not (x == 0) && bit_and x (u32 (x + 2 ^ 32 - 1)) == 0

-- What `parse_arguments` does: it fills the cache, returns false, or lets an exception through.
pub data Arguments : Type 0 where
  accepted : Cache → Arguments
  refused : Arguments
  exception : Arguments

-- The two tests, on the cache that was filled.
unfoldable pub checked : Cache → Arguments
checked cache =
    if not (differ cache.is_lru cache.is_fifo)
    then refused
    else if not (is_power_of_two cache.num_sets)
        || not (is_power_of_two cache.block_num_per_set)
        || not (is_power_of_two cache.block_size)
        || ltb cache.block_size 4
        || not cache.is_write_allocate && cache.is_write_back
    then refused
    else accepted cache

-- The three numbers are read in turn, and become `uint32_t`.
unfoldable pub filled : Option ℕ → Option ℕ → Option ℕ → Text → Text → Text → Arguments
filled none blocks bytes wa wb repl = exception
filled (some sets) none bytes wa wb repl = exception
filled (some sets) (some blocks) none wa wb repl = exception
filled (some sets) (some blocks) (some bytes) wa wb repl = checked (record {
  num_sets = u32 sets;
  block_num_per_set = u32 blocks;
  block_size = u32 bytes;
  is_write_allocate = same_text wa (codes "write-allocate");
  is_write_back = same_text wb (codes "write-back");
  is_lru = same_text repl (codes "lru");
  is_fifo = same_text repl (codes "fifo");
})

abbrev pub arg : List Text → ℕ → Text
arg argv i = get_or argv i []

unfoldable pub parse_arguments : List Text → Arguments
parse_arguments argv =
    if not (length argv == 7)
    then refused
    else filled (stoul 10 (arg argv 1)) (stoul 10 (arg argv 2)) (stoul 10 (arg argv 3)) (arg argv 4)
        (arg argv 5) (arg argv 6)
