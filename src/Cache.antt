-- ===== src/Cache.antt =====
-- csf_assign03/cache_sim.cpp and cache_sim.h: the cache simulator. A pointer or reference to a
-- line is its index, and a function that changes the set or the statistics returns them.
-- Shifts by 32 bits or more, which C++ leaves undefined, give 0 here.
pub mod Address
pub mod Lines
pub mod Arguments
mod Tests
pub mod Simulator
pub mod Program
use csf.Base.{
  ℕ, zero, suc, ◌+◌, ◌-◌, ◌*◌, ◌/◌, ◌%◌, bit_and, Bool, true, false, ◌&&◌, List, [], ◌∷◌, Option,
  none, some, ltb, ◌==◌, if◌then◌else◌, length, get_elem?, get_or, set, replicate, u32, ◌<<<◌,
  ◌>>>◌,
}

pub record Trace : Type 0 where
  pub type : ℕ
  pub address : ℕ

pub record CacheLine : Type 0 where
  pub tag : ℕ
  pub valid : Bool
  pub dirty : Bool
  pub load_time : ℕ
  pub access_time : ℕ

pub record CacheSet : Type 0 where
  pub lines : List CacheLine
  pub lru_counter : ℕ
  pub first_in : ℕ

pub record Cache : Type 0 where
  pub num_sets : ℕ
  pub block_num_per_set : ℕ
  pub block_size : ℕ
  pub is_write_allocate : Bool
  pub is_write_back : Bool
  pub is_lru : Bool
  pub is_fifo : Bool

-- The counters are `uint64_t`.
pub record Stats : Type 0 where
  pub total_loads : ℕ
  pub total_stores : ℕ
  pub load_hits : ℕ
  pub load_misses : ℕ
  pub store_hits : ℕ
  pub store_misses : ℕ
  pub total_cycles : ℕ

pub record CacheSim : Type 0 where
  pub config : Cache
  pub sets : List CacheSet
  pub stats : Stats

-- A line as `CacheLine` initialises it.
abbrev pub empty_line : CacheLine
empty_line = record { tag = 0; valid = false; dirty = false; load_time = 0; access_time = 0 }

abbrev pub no_stats : Stats
no_stats = record {
  total_loads = 0;
  total_stores = 0;
  load_hits = 0;
  load_misses = 0;
  store_hits = 0;
  store_misses = 0;
  total_cycles = 0;
}

-- The constructor.
pub init : Cache → CacheSim
init config =
    let empty_set : CacheSet = record {
      lines = replicate config.block_num_per_set empty_line;
      lru_counter = 0;
      first_in = 0;
    } in
    record { config = config; sets = replicate config.num_sets empty_set; stats = no_stats }

-- `__builtin_ctz`, with the bits left to look at.
pub ctz : ℕ → ℕ → ℕ
ctz zero x = 0
ctz (suc n) x = let above = suc (ctz n (x / 2)) in if x % 2 == 1 then 0 else above

pub parse_address : Cache → ℕ → ℕ × ℕ
parse_address config addr =
    let block_offsets = ctz 32 config.block_size in
    let set_offsets = ctz 32 config.num_sets in
    let set_idx = bit_and (addr >>> block_offsets) (u32 (1 <<< set_offsets) - 1) in
    (set_idx, addr >>> (block_offsets + set_offsets))

-- The loop of `find_cache_line`: the lines after it, where one hits.
pub touch : Cache → ℕ → ℕ → List CacheLine → Option (List CacheLine)
touch config now tag [] = none
touch config now tag (line ∷ lines) =
    let hit = if config.is_lru then record line { access_time = now } else line in
    elim (line.valid && line.tag == tag) [
      | true ↦ some (hit ∷ lines)
      | false ↦ elim (touch config now tag lines) [ none ↦ none | some rest ↦ some (line ∷ rest) ]
    ]

pub find_cache_line : Cache → CacheSet → ℕ → CacheSet × Bool
find_cache_line config s tag = elim (touch config s.lru_counter tag s.lines) [
  | none ↦ (s, false)
  | some lines ↦ (
    record s {
      lines = lines;
      lru_counter = if config.is_lru then u32 (s.lru_counter + 1) else s.lru_counter;
    },
    true,
  )
]

-- The index of the first line that is not valid.
pub first_invalid : List CacheLine → Option ℕ
first_invalid [] = none
first_invalid (line ∷ lines) = elim line.valid [
  | false ↦ some 0
  | true ↦ elim (first_invalid lines) [ none ↦ none | some i ↦ some (suc i) ]
]

-- `std::min_element` by `access_time`: the first of the least, from index `i` on.
pub min_element : ℕ → ℕ → ℕ → List CacheLine → ℕ
min_element best time i [] = best
min_element best time i (line ∷ lines) =
    let less = ltb line.access_time time in
    min_element (if less then i else best) (if less then line.access_time else time) (suc i) lines

abbrev pub least_recent : List CacheLine → ℕ
least_recent [] = 0
least_recent (line ∷ lines) = min_element 0 line.access_time 1 lines

abbrev pub line_at : CacheSet → ℕ → CacheLine
line_at s i = get_or s.lines i empty_line

-- The cycles of moving a block, computed in `uint32_t`.
abbrev pub transfer : Cache → ℕ
transfer config = u32 (config.block_size / 4 * 100)

-- The index of the line to replace, the set, and the cycles of a write back.
pub remove_line : Cache → CacheSet → ℕ × CacheSet × ℕ
remove_line config s =
    let victim = if config.is_fifo then s.first_in else least_recent s.lines in
    let next = (s.first_in + 1) % length s.lines in
    let s' = if config.is_fifo then record s { first_in = next } else s in
    let cost = if (line_at s victim).dirty && config.is_write_back then transfer config else 0 in
    elim (first_invalid s.lines) [ some i ↦ (i, s, 0) | none ↦ (victim, s', cost) ]

-- `*remove_me = {tag, true, dirty, 0, cache_set.lru_counter++}`
pub install : CacheSet → ℕ → ℕ → Bool → CacheSet
install s i tag dirty =
    let line : CacheLine = record {
      tag = tag;
      valid = true;
      dirty = dirty;
      load_time = 0;
      access_time = s.lru_counter;
    } in
    record s { lines = set s.lines i line; lru_counter = u32 (s.lru_counter + 1) }
