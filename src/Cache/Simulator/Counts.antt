-- ===== src/Cache/Simulator/Counts.antt =====
-- The statistics: each access is counted once, as a load or a store, and as a hit or a miss.
use csf.Base.{ℕ, ◌+◌, Bool, true, false, ◌≡◌, arith, u64}
use csf.Cache.{CacheSet, Cache, Stats, find_cache_line}
use csf.Cache.Simulator.{handle_load, handle_store, access_set}

-- Loads and stores are hits and misses, and `n` is the number of both, all mod 2 ^ 64.
pub record IsCounted (st : Stats) (n : ℕ) : Type 0 where
  pub loads : st.total_loads ≡ u64 (st.load_hits + st.load_misses)
  pub stores : st.total_stores ≡ u64 (st.store_hits + st.store_misses)
  pub accesses : u64 (st.total_loads + st.total_stores) ≡ u64 n

-- The counters that a handler moves.
handle_load_counts :
    (config : Cache) (st : Stats) (s : CacheSet) (tag : ℕ) (hit : Bool)
    → let st' = (handle_load config st s tag hit).0 in
      (u64 (st'.load_hits + st'.load_misses) ≡ u64 (st.load_hits + st.load_misses + 1))
      × (st'.store_hits ≡ st.store_hits)
      × (st'.store_misses ≡ st.store_misses)
      × (st'.total_loads ≡ st.total_loads)
      × (st'.total_stores ≡ st.total_stores)
unfolding handle_load
handle_load_counts config st s tag true = omega arith
handle_load_counts config st s tag false = omega arith

handle_store_counts :
    (config : Cache) (st : Stats) (s : CacheSet) (tag : ℕ) (hit : Bool)
    → let st' = (handle_store config st s tag hit).0 in
      (u64 (st'.store_hits + st'.store_misses) ≡ u64 (st.store_hits + st.store_misses + 1))
      × (st'.load_hits ≡ st.load_hits)
      × (st'.load_misses ≡ st.load_misses)
      × (st'.total_loads ≡ st.total_loads)
      × (st'.total_stores ≡ st.total_stores)
unfolding handle_store
handle_store_counts config st s tag true = ground arith
handle_store_counts config st s tag false = ground arith

pub access_set-IsCounted :
    (config : Cache) (st : Stats) (s : CacheSet) (tag n : ℕ) (load : Bool)
    → IsCounted st n
    → IsCounted (access_set config st s tag load).0 (n + 1)
unfolding access_set
access_set-IsCounted config st s tag n true c =
    let (s', hit) = find_cache_line config s tag in
    omega (
      arith,
      handle_load_counts config (record st { total_loads = u64 (st.total_loads + 1) }) s' tag hit,
    )
access_set-IsCounted config st s tag n false c =
    let (s', hit) = find_cache_line config s tag in
    omega (
      arith,
      handle_store_counts config (record st { total_stores = u64 (st.total_stores + 1) }) s' tag
          hit,
    )
