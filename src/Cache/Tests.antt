-- ===== src/Cache/Tests.antt =====
-- A small cache at work, and the theorems at inputs that meet their hypotheses.
use csf.Base.{ℕ, ◌+◌, true, false, List, [], ◌∷◌, Option, none, some, ◌≡◌, refl, arith}
use csf.Cache.{
  Trace, CacheSet, Cache, Stats, CacheSim, init, empty_line, no_stats, ctz, parse_address, touch,
  find_cache_line, first_invalid, min_element, remove_line, install,
}
use csf.Cache.Simulator.{handle_load, handle_store, mark, access_set, access_memory, simulate}
use csf.Cache.Simulator.Resident.{IsShaped, load_then_hit}
use csf.Cache.Simulator.Run.{IsConfig, IsReady, init-IsReady, simulate-IsReady}

-- 2 sets of 2 lines of 4 bytes
abbrev tiny : Cache
tiny = record {
  num_sets = 2;
  block_num_per_set = 2;
  block_size = 4;
  is_write_allocate = true;
  is_write_back = true;
  is_lru = true;
  is_fifo = false;
}

abbrev load_at : ℕ → Trace
load_at a = record { type = b'l'; address = a }

abbrev store_at : ℕ → Trace
store_at a = record { type = b's'; address = a }

-- Three blocks of set 0: the store makes block 8 dirty, and the load of block 24 evicts it.
abbrev script : List Trace
script = store_at 8 ∷ load_at 16 ∷ load_at 16 ∷ load_at 24 ∷ []

abbrev empty_set : CacheSet
empty_set = record { lines = empty_line ∷ empty_line ∷ []; lru_counter = 0; first_in = 0 }

stats_or : Option CacheSim → Stats
stats_or none = no_stats
stats_or (some sim) = sim.stats

script_stats : stats_or (simulate (init tiny) script) ≡ record {
  total_loads = 3;
  total_stores = 1;
  load_hits = 1;
  load_misses = 2;
  store_hits = 0;
  store_misses = 1;
  total_cycles = 404;
}
unfolding stats_or simulate access_memory access_set handle_load handle_store mark init ctz
    parse_address touch find_cache_line first_invalid min_element remove_line install
script_stats = refl

tiny-IsConfig : IsConfig tiny
tiny-IsConfig = record {
  block_bits = 2;
  set_bits = 1;
  block_size = refl;
  num_sets = refl;
  block_small = omega arith;
  sets_small = omega arith;
  some_block = omega arith;
}

empty_set-IsShaped : IsShaped 2 empty_set
empty_set-IsShaped = record { size = refl; queue = omega arith; unique = λ t. omega arith }

load_then_hit_example :
    (find_cache_line tiny (access_set tiny no_stats empty_set 5 true).1 5).1 ≡ true
load_then_hit_example = load_then_hit tiny 2 no_stats empty_set 5 empty_set-IsShaped

simulate-IsReady_example :
    (sim : CacheSim) × (simulate (init tiny) script ≡ some sim) × IsReady (0 + 4) sim
simulate-IsReady_example = simulate-IsReady 0 (init tiny) script (init-IsReady tiny tiny-IsConfig)
