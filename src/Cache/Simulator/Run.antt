-- ===== src/Cache/Simulator/Run.antt =====
-- Whole runs of the simulator: no access is out of range, and every one is counted.
use csf.Base.{
  ℕ, zero, suc, ◌+◌, ◌^◌, ◌<◌, List, [], ◌∷◌, some, ◌≡◌, refl, sym, subst, ap, ◌∙◌, arith, ◌==◌,
  length, length-set, length-replicate, get_elem?, get_elem?-set_self, get_elem?-set_ne, set,
  replicate, ℕ_discrete,
}
use csf.Cache.{Trace, CacheSet, Cache, CacheSim, init, parse_address, empty_line}
use csf.Cache.Lines.{occupancy}
use csf.Cache.Address.{parse_address_lem}
use csf.Cache.Simulator.{access_set, access_memory, simulate}
use csf.Cache.Simulator.Counts.{IsCounted, access_set-IsCounted}
use csf.Cache.Simulator.Resident.{IsShaped, access_set-IsShaped}

-- What `parse_arguments` lets through: the three sizes are powers of 2.
pub record IsConfig (config : Cache) : Type 0 where
  pub block_bits : ℕ
  pub set_bits : ℕ
  pub block_size : config.block_size ≡ 2 ^ block_bits
  pub num_sets : config.num_sets ≡ 2 ^ set_bits
  pub block_small : block_bits < 32
  pub sets_small : set_bits < 32
  pub some_block : 0 < config.block_num_per_set

-- A simulator after `n` accesses.
pub record IsReady (n : ℕ) (sim : CacheSim) : Type 0 where
  pub config : IsConfig sim.config
  pub size : length sim.sets ≡ sim.config.num_sets
  pub shapes :
      (i : ℕ) (s : CacheSet)
      → get_elem? sim.sets i ≡ some s
      → IsShaped sim.config.block_num_per_set s
  pub counted : IsCounted sim.stats n

get_elem?-lt {ℓ} :
    {A : Type ℓ} (xs : List A) (i : ℕ) → i < length xs → (x : A) × (get_elem? xs i ≡ some x)
get_elem?-lt [] i h = elim h [ ]
get_elem?-lt (x ∷ xs) zero h = (x, refl)
get_elem?-lt (x ∷ xs) (suc i) h = get_elem?-lt xs i (omega arith)

get_elem?-replicate {ℓ} :
    {A : Type ℓ} (n i : ℕ) (a x : A) → get_elem? (replicate n a) i ≡ some x → a ≡ x
get_elem?-replicate zero i a x e = cc
get_elem?-replicate (suc n) zero a x e = cc
get_elem?-replicate (suc n) (suc i) a x e = get_elem?-replicate n i a x e

occupancy-replicate : (n t : ℕ) → occupancy t (replicate n empty_line) ≡ 0
occupancy-replicate zero t = refl
occupancy-replicate (suc n) t = omega (arith, occupancy-replicate n t)

-- The constructor makes a simulator that is ready, with nothing counted.
pub init-IsReady : (config : Cache) → IsConfig config → IsReady 0 (init config)
unfolding init
init-IsReady config c = record {
  config = c;
  size = length-replicate config.num_sets _;
  shapes = λ i s e.
      subst (IsShaped config.block_num_per_set) (get_elem?-replicate config.num_sets i _ s e)
        (record {
          size = length-replicate config.block_num_per_set _;
          queue = c.some_block;
          unique = λ t. omega (arith, occupancy-replicate config.block_num_per_set t);
        });
  counted = record { loads = refl; stores = refl; accesses = refl };
}

shapes-set :
    (n i : ℕ) (sets : List CacheSet) (s' : CacheSet)
    → ((j : ℕ) (s : CacheSet) → get_elem? sets j ≡ some s → IsShaped n s)
    → i < length sets
    → IsShaped n s'
    → (j : ℕ) (s : CacheSet) → get_elem? (set sets i s') j ≡ some s
    → IsShaped n s
shapes-set n i sets s' all h new j s e = elim (ℕ_discrete i j) [
  | yes same ↦
      let found : get_elem? (set sets i s') j ≡ some s' =
        ap (get_elem? (set sets i s')) (sym same) ∙ get_elem?-set_self sets i s' h in
      let equal : s' ≡ s = cc in subst (IsShaped n) equal new
  | no other ↦ all j s (sym (get_elem?-set_ne sets s' other) ∙ e)
]

-- One access of a ready simulator is in range, and leaves it ready with one more counted.
pub access_memory-IsReady :
    (n : ℕ) (sim : CacheSim) (t : Trace)
    → IsReady n sim
    → (sim' : CacheSim) × (access_memory sim t ≡ some sim') × IsReady (n + 1) sim'
unfolding access_memory
access_memory-IsReady n sim t r =
    let (set_idx, tag) = parse_address sim.config t.address in
    let load = t.type == b'l' in
    let c = r.config in
    let address =
      parse_address_lem sim.config t.address c.block_bits c.set_bits c.block_size c.num_sets
        c.block_small c.sets_small in
    let in_range : set_idx < length sim.sets = omega (arith, address.0, r.size) in
    let (s, here) = get_elem?-lt sim.sets set_idx in_range in
    let (st, s') = access_set sim.config sim.stats s tag load in
    (
      record sim { sets = set sim.sets set_idx s'; stats = st },
      rw (here, access_memory) refl,
      record {
        config = c;
        size = length-set sim.sets set_idx s' ∙ r.size;
        shapes =
            shapes-set _ set_idx sim.sets s' r.shapes in_range
              (access_set-IsShaped sim.config _ sim.stats s tag load (r.shapes set_idx s here));
        counted = access_set-IsCounted sim.config sim.stats s tag n load r.counted;
      },
    )

after : {m n : ℕ} (sim : CacheSim) → m ≡ n → IsReady m sim → IsReady n sim
after sim e r = subst (λ k. IsReady k sim) e r

-- A run over any traces ends, never out of range, with every access counted.
pub simulate-IsReady :
    (n : ℕ) (sim : CacheSim) (traces : List Trace)
    → IsReady n sim
    → (sim' : CacheSim) × (simulate sim traces ≡ some sim') × IsReady (n + length traces) sim'
unfolding simulate
simulate-IsReady n sim [] r = (sim, refl, after sim (omega arith) r)
simulate-IsReady n sim (t ∷ traces) r =
    let (mid, e, ready) = access_memory-IsReady n sim t r in
    let (sim', e', ready') = simulate-IsReady (n + 1) mid traces ready in
    (sim', rw (e, simulate) e', after sim' (omega arith) ready')
