-- ===== src/Cache/Simulator/Resident.antt =====
-- The lines of a set across an access: no tag is held twice, and the block accessed is held.
use csf.Base.{
  ℕ, ◌+◌, ◌≤◌, ◌<◌, Bool, true, false, List, [], ◌∷◌, ◌≡◌, inl, inr, refl, ap, ◌∙◌, arith, length,
  length-set, Option-cases, Bool-cases, u64,
}
use csf.Cache.{CacheLine, CacheSet, Cache, Stats, touch, find_cache_line, remove_line, install}
use csf.Cache.Lines.{occupancy, touch-IsTouched, occupancy-set, remove_line-IsRemoval}
use csf.Cache.Simulator.{handle_load, handle_store, mark, access_set}

-- A set of `n` lines: its FIFO index is in range, and no two valid lines have one tag.
pub record IsShaped (n : ℕ) (s : CacheSet) : Type 0 where
  pub size : length s.lines ≡ n
  pub queue : s.first_in < n
  pub unique : (t : ℕ) → occupancy t s.lines ≤ 1

record IsMarked (lines : List CacheLine) (out : List CacheLine) : Type 0 where
  same : (t : ℕ) → occupancy t out ≡ occupancy t lines
  size : length out ≡ length lines

mark-IsMarked :
    (config : Cache) (tag : ℕ) (lines : List CacheLine) → IsMarked lines (mark config tag lines).0
unfolding mark
mark-IsMarked config tag [] = record { same = λ t. refl; size = refl }
mark-IsMarked config tag (line ∷ lines) =
    let ih = mark-IsMarked config tag lines in
    record { same = λ t. ground (arith, ih.same t); size = ground (arith, ih.size) }

-- What a lookup leaves: the tags and the lines are those before it, and it hits a tag held.
record IsLookup (s : CacheSet) (tag : ℕ) (out : CacheSet × Bool) : Type 0 where
  same : (t : ℕ) → occupancy t out.0.lines ≡ occupancy t s.lines
  size : length out.0.lines ≡ length s.lines
  queue : out.0.first_in ≡ s.first_in
  hit : out.1 ≡ true → 0 < occupancy tag s.lines
  miss : out.1 ≡ false → occupancy tag s.lines ≡ 0

find_cache_line-IsLookup :
    (config : Cache) (s : CacheSet) (tag : ℕ) → IsLookup s tag (find_cache_line config s tag)
unfolding find_cache_line
find_cache_line-IsLookup config s tag =
    let searched = touch-IsTouched config s.lru_counter tag s.lines in
    elim (Option-cases (touch config s.lru_counter tag s.lines)) [
      | inl e ↦
          rw (e, find_cache_line)
            (record {
              same = λ t. refl;
              size = refl;
              queue = refl;
              hit = λ q. cc;
              miss = λ q. searched.miss e;
            })
      | inr (lines, e) ↦
          rw (e, find_cache_line)
            (record {
              same = λ t. ground (arith, searched.same t);
              size = ground (arith, searched.size);
              queue = refl;
              hit = λ q. searched.hit lines e;
              miss = λ q. cc;
            })
    ]

-- Replacing a line on a miss.
install-IsShaped :
    (config : Cache) (n : ℕ) (s : CacheSet) (tag : ℕ) (dirty : Bool)
    → IsShaped n s
    → occupancy tag s.lines ≡ 0
    → let (i, s', cost) = remove_line config s in
      IsShaped n (install s' i tag dirty) × (0 < occupancy tag (install s' i tag dirty).lines)
unfolding install
install-IsShaped config n s tag dirty shaped absent =
    let (i, s', cost) = remove_line config s in
    let victim = remove_line-IsRemoval config s (rw (shaped.size) shaped.queue) in
    let line : CacheLine = record {
      tag = tag;
      valid = true;
      dirty = dirty;
      load_time = 0;
      access_time = s'.lru_counter;
    } in
    let slot : i < length s'.lines = rw victim.same_lines victim.in_range in
    (
      record {
        size = length-set s'.lines i line ∙ ap length victim.same_lines ∙ shaped.size;
        queue = omega (arith, victim.queue);
        unique = λ t. ground (
          arith,
          (occupancy-set t s'.lines i line).0,
          ap (occupancy t) victim.same_lines,
          shaped.unique t,
          absent,
        );
      },
      ground (arith, (occupancy-set tag s'.lines i line).1 slot),
    )

-- A set after an access that hits or allocates.
handle_load-IsShaped :
    (config : Cache) (n : ℕ) (st : Stats) (s : CacheSet) (tag : ℕ) (hit : Bool)
    → IsShaped n s
    → (hit ≡ true → 0 < occupancy tag s.lines)
    → (hit ≡ false → occupancy tag s.lines ≡ 0)
    → let s' = (handle_load config st s tag hit).1 in IsShaped n s' × (0 < occupancy tag s'.lines)
unfolding handle_load
handle_load-IsShaped config n st s tag true shaped held absent = (shaped, held refl)
handle_load-IsShaped config n st s tag false shaped held absent =
    install-IsShaped config n s tag false shaped (absent refl)

handle_store-IsShaped :
    (config : Cache) (n : ℕ) (st : Stats) (s : CacheSet) (tag : ℕ) (hit : Bool)
    → IsShaped n s
    → (hit ≡ false → occupancy tag s.lines ≡ 0)
    → IsShaped n (handle_store config st s tag hit).1
unfolding handle_store
handle_store-IsShaped config n st s tag true shaped absent =
    let marked = mark-IsMarked config tag s.lines in
    record {
      size = marked.size ∙ shaped.size;
      queue = shaped.queue;
      unique = λ t. omega (arith, marked.same t, shaped.unique t);
    }
handle_store-IsShaped config n st s tag false shaped absent =
    elim (Bool-cases config.is_write_allocate) [
      | inl e ↦ simp e (install-IsShaped config n s tag config.is_write_back shaped (absent refl)).0
      | inr e ↦ rw e shaped
    ]

lookup-IsShaped :
    (config : Cache) (n : ℕ) (s : CacheSet) (tag : ℕ)
    → IsShaped n s
    → IsShaped n (find_cache_line config s tag).0
lookup-IsShaped config n s tag shaped =
    let found = find_cache_line-IsLookup config s tag in
    record {
      size = found.size ∙ shaped.size;
      queue = omega (arith, found.queue, shaped.queue);
      unique = λ t. omega (arith, found.same t, shaped.unique t);
    }

-- Every access keeps the shape of its set.
pub access_set-IsShaped :
    (config : Cache) (n : ℕ) (st : Stats) (s : CacheSet) (tag : ℕ) (load : Bool)
    → IsShaped n s
    → IsShaped n (access_set config st s tag load).1
unfolding access_set
access_set-IsShaped config n st s tag true shaped =
    let found = find_cache_line-IsLookup config s tag in
    let (s', hit) = find_cache_line config s tag in
    (handle_load-IsShaped config n _ s' tag hit (lookup-IsShaped config n s tag shaped)
      (λ e. omega (arith, found.hit e, found.same tag))
      (λ e. omega (arith, found.miss e, found.same tag))).0
access_set-IsShaped config n st s tag false shaped =
    let found = find_cache_line-IsLookup config s tag in
    let (s', hit) = find_cache_line config s tag in
    handle_store-IsShaped config n _ s' tag hit (lookup-IsShaped config n s tag shaped)
      (λ e. omega (arith, found.miss e, found.same tag))

-- After a load the block is in its set: a second lookup hits.
pub load_then_hit :
    (config : Cache) (n : ℕ) (st : Stats) (s : CacheSet) (tag : ℕ)
    → IsShaped n s
    → (find_cache_line config (access_set config st s tag true).1 tag).1 ≡ true
unfolding access_set
load_then_hit config n st s tag shaped =
    let found = find_cache_line-IsLookup config s tag in
    let (s', hit) = find_cache_line config s tag in
    let after =
      (handle_load config (record st { total_loads = u64 (st.total_loads + 1) }) s' tag hit).1 in
    let held : 0 < occupancy tag after.lines =
      (handle_load-IsShaped config n _ s' tag hit (lookup-IsShaped config n s tag shaped)
        (λ e. omega (arith, found.hit e, found.same tag))
        (λ e. omega (arith, found.miss e, found.same tag))).1 in
    let again = find_cache_line-IsLookup config after tag in
    elim (Bool-cases (find_cache_line config after tag).1) [
      | inl e ↦ e
      | inr e ↦ absurd (omega (arith, again.miss e))
    ]
