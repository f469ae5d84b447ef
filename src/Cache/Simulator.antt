-- ===== src/Cache/Simulator.antt =====
-- csf_assign03/cache_sim.cpp: the handlers, `access_memory`, and the loop over the traces of
-- main.cpp. `none` is an access to `sets` out of range.
pub mod Counts
pub mod Resident
pub mod Run
use csf.Base.{
  ℕ, ◌+◌, Bool, true, false, ◌&&◌, List, [], ◌∷◌, Option, none, some, ◌==◌, if◌then◌else◌,
  get_elem?, set, u32, u64,
}
use csf.Cache.{
  Trace, CacheLine, CacheSet, Cache, Stats, CacheSim, parse_address, find_cache_line, transfer,
  remove_line, install,
}

unfoldable pub handle_load : Cache → Stats → CacheSet → ℕ → Bool → Stats × CacheSet
handle_load config st s tag true =
    (record st { load_hits = u64 (st.load_hits + 1); total_cycles = u64 (st.total_cycles + 1) }, s)
handle_load config st s tag false =
    let (i, s', cost) = remove_line config s in
    (
      record st {
        load_misses = u64 (st.load_misses + 1);
        total_cycles = u64 (st.total_cycles + u32 (1 + transfer config) + cost);
      },
      install s' i tag false,
    )

-- The loop of a store hit, up to its `break`: the lines, and whether one holds the tag.
unfoldable pub mark : Cache → ℕ → List CacheLine → List CacheLine × Bool
mark config tag [] = ([], false)
mark config tag (line ∷ lines) =
    let (later, found) = mark config tag lines in
    let marked = if config.is_write_back then record line { dirty = true } else line in
    if line.valid && line.tag == tag then (marked ∷ lines, true) else (line ∷ later, found)

unfoldable pub handle_store : Cache → Stats → CacheSet → ℕ → Bool → Stats × CacheSet
handle_store config st s tag true =
    let (lines, found) = mark config tag s.lines in
    let through = if found then if config.is_write_back then 0 else 100 else 0 in
    (
      record st {
        store_hits = u64 (st.store_hits + 1);
        total_cycles = u64 (st.total_cycles + 1 + through);
      },
      record s { lines = lines },
    )
handle_store config st s tag false =
    let (i, s', cost) = remove_line config s in
    let through = if config.is_write_back then 0 else 100 in
    if config.is_write_allocate
    then (
      record st {
        store_misses = u64 (st.store_misses + 1);
        total_cycles = u64 (st.total_cycles + u32 (1 + transfer config) + cost + through);
      },
      install s' i tag config.is_write_back,
    )
    else (
      record st {
        store_misses = u64 (st.store_misses + 1);
        total_cycles = u64 (st.total_cycles + 100);
      },
      s,
    )

-- `access_memory` at the set of the address.
unfoldable pub access_set : Cache → Stats → CacheSet → ℕ → Bool → Stats × CacheSet
access_set config st s tag load =
    let (s', hit) = find_cache_line config s tag in
    if load
    then handle_load config (record st { total_loads = u64 (st.total_loads + 1) }) s' tag hit
    else handle_store config (record st { total_stores = u64 (st.total_stores + 1) }) s' tag hit

unfoldable pub access_memory : CacheSim → Trace → Option CacheSim
access_memory sim trace =
    let (set_idx, tag) = parse_address sim.config trace.address in
    elim (get_elem? sim.sets set_idx) [
      | none ↦ none
      | some s ↦
          let (st, s') = access_set sim.config sim.stats s tag (trace.type == b'l') in
          some (record sim { sets = set sim.sets set_idx s'; stats = st })
    ]

-- `for (const auto &t : traces) sim.access_memory(t);`
unfoldable pub simulate : CacheSim → List Trace → Option CacheSim
simulate sim [] = some sim
simulate sim (t ∷ traces) = elim (access_memory sim t) [
  | none ↦ none
  | some sim' ↦ simulate sim' traces
]
