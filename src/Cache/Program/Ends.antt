-- ===== src/Cache/Program/Ends.antt =====
-- How `main` ends.
use csf.Base.{
  ℕ, zero, suc, ◌^◌, ◌≤◌, ◌<◌, ◌≡◌, ◌⊎◌, refl, subst, ◌+◌, Bool, false, Bool-cases, ◌&&◌, ◌||◌,
  arith, List, [], ◌∷◌, Option, none, some, ltb, ◌==◌, if_lem, inl, inr, length,
}
use csf.Base.Text.{Text, is_digit, digits}
use csf.Base.Text.Scan.{skip_space, take_word, length-skip_space, length-take_word, length-digits}
use csf.Cache.{Trace, Cache, CacheSim, init, ctz}
use csf.Cache.Simulator.{simulate}
use csf.Cache.Simulator.Run.{IsConfig, IsReady, init-IsReady, simulate-IsReady}
use csf.Cache.Arguments.{stoul, Arguments, accepted, refused, exception, parse_arguments}
use csf.Cache.Arguments.Power.{IsAccepted, parse_arguments-IsAccepted}
use csf.Cache.Program.{
  after_digits, after_number, read_fields, read_type, Traces, read, bad_address, out_of_rounds,
  with_trace, before, read_traces, read_trace_file, Exit, failed, terminated, printed, undefined,
  shift_is_defined, run_traces, run_arguments, main,
}

-- What is left is no longer than `s`.
abbrev AtMost : ℕ → Option Text → Type 0
AtMost n none = Unit {0}
AtMost n (some s) = length s ≤ n

after_digits-AtMost : (s : Text) (n : ℕ) → length s ≤ n → AtMost n (after_digits s)
unfolding after_digits
after_digits-AtMost [] n h = tt
after_digits-AtMost (c ∷ s) n h =
    if_lem (λ (r : Option Text). AtMost n r) (is_digit c && ltb (digits 0 (c ∷ s)).0 (2 ^ 32))
      (λ _. omega (arith, length-digits 0 (c ∷ s))) (λ _. tt)

after_number-AtMost : (s : Text) (n : ℕ) → length s ≤ n → AtMost n (after_number s)
unfolding after_number
after_number-AtMost [] n h = tt
after_number-AtMost (c ∷ s) n h =
    if_lem (λ (r : Option Text). AtMost n r) (c == b'-' || c == b'+')
      (λ _. after_digits-AtMost s n (omega arith)) (λ _. after_digits-AtMost (c ∷ s) n h)

-- A line leaves less than it had.
abbrev Shorter : ℕ → Option (ℕ × Text × Text) → Type 0
Shorter n none = Unit {0}
Shorter n (some (type, word, rest)) = length rest < n

read_fields-Shorter :
    (type n : ℕ) (word rest : Text) → length rest < n → Shorter n (read_fields type (word, rest))
unfolding read_fields
read_fields-Shorter type n [] rest h = tt
read_fields-Shorter type n (c ∷ word) rest h =
    go (after_number (skip_space rest))
      (after_number-AtMost (skip_space rest) (length rest) (length-skip_space rest))
  where
    go :
        (o : Option Text)
        → AtMost (length rest) o
        → Shorter n (elim o [ none ↦ none | some rest' ↦ some (type, c ∷ word, rest') ])
    go none a = tt
    go (some rest') a = omega arith

read_type-Shorter : (s : Text) → Shorter (length s) (read_type s)
unfolding read_type
read_type-Shorter [] = tt
read_type-Shorter (c ∷ s) =
    read_fields-Shorter c (suc (length s)) (take_word (skip_space s)).0 (take_word (skip_space s)).1
      (omega (arith, length-take_word (skip_space s), length-skip_space s))

abbrev IsRead : Traces → Type 0
IsRead (read traces) = Unit {0}
IsRead bad_address = Unit {0}
IsRead out_of_rounds = ⊥

before-IsRead : (t : Trace) (r : Traces) → IsRead r → IsRead (before t r)
before-IsRead t (read traces) h = tt
before-IsRead t bad_address h = tt
before-IsRead t out_of_rounds h = h

with_trace-IsRead :
    (type : ℕ) (address : Option ℕ) (r : Traces) → IsRead r → IsRead (with_trace type address r)
with_trace-IsRead type none r h = tt
with_trace-IsRead type (some address) r h = before-IsRead _ r h

-- The loop ends within as many rounds as there are characters, and one more.
read_traces-IsRead : (fuel : ℕ) (s : Text) → length s < fuel → IsRead (read_traces fuel s)
unfolding read_traces
read_traces-IsRead zero s h = absurd (omega arith)
read_traces-IsRead (suc fuel) s h =
    go (read_type (skip_space s)) (read_type-Shorter (skip_space s))
      (λ rest l. read_traces-IsRead fuel rest (omega (arith, length-skip_space s)))
  where
    go :
        (o : Option (ℕ × Text × Text))
        → Shorter (length (skip_space s)) o
        → ((rest : Text) → length rest < length (skip_space s) → IsRead (read_traces fuel rest))
        → IsRead (elim o [
          | none ↦ read []
          | some (type, word, rest) ↦ with_trace type (stoul 16 word) (read_traces fuel rest)
        ])
    go none l ih = tt
    go (some (type, word, rest)) l ih = with_trace-IsRead type (stoul 16 word) _ (ih rest l)

accepted-IsConfig : (cache : Cache) → IsAccepted cache → IsConfig cache
accepted-IsConfig cache a = record {
  block_bits = a.block_bits;
  set_bits = a.set_bits;
  block_size = a.block_size;
  num_sets = a.num_sets;
  block_small = a.block_small;
  sets_small = a.sets_small;
  some_block = a.some_block;
}

-- A run to the counters, over the traces of the input.
pub record IsRun (argv : List Text) (input : Text) (exit : Exit) : Type 0 where
  pub cache : Cache
  pub traces : List Trace
  pub sim : CacheSim
  pub accepts : parse_arguments argv ≡ accepted cache
  pub reads : read_trace_file input ≡ read traces
  pub prints : exit ≡ printed sim
  pub ready : IsReady (length traces) sim

-- An accepted cache whose block offset and set index take all the bits of an address.
pub record IsTooWide (argv : List Text) (exit : Exit) : Type 0 where
  pub cache : Cache
  pub accepts : parse_arguments argv ≡ accepted cache
  pub wide : 32 ≤ ctz 32 cache.block_size + ctz 32 cache.num_sets
  pub ends : exit ≡ undefined

run_lem :
    (cache : Cache) (traces : List Trace)
    → IsAccepted cache
    → (sim : CacheSim) × (simulate (init cache) traces ≡ some sim) × IsReady (length traces) sim
run_lem cache traces a =
    let config = accepted-IsConfig cache a in
    let (sim, e, r) = simulate-IsReady 0 (init cache) traces (init-IsReady cache config) in
    (sim, e, subst (λ n. IsReady n sim) (omega arith) r)

wide_of_shift :
    (cache : Cache) (traces : List Trace)
    → shift_is_defined cache traces ≡ false
    → 32 ≤ ctz 32 cache.block_size + ctz 32 cache.num_sets
wide_of_shift cache [] h = cc
wide_of_shift cache (t ∷ traces) h = ground arith

module _ (has_memory : Cache → List Trace → Bool) (argv : List Text) (input : Text) where
  -- The ways in which `main` ends.
  abbrev pub IsEnd : Exit → Type 0
  IsEnd exit =
      (exit ≡ failed) ⊎ ((exit ≡ terminated) ⊎ (IsTooWide argv exit ⊎ IsRun argv input exit))

  ends_with_traces :
      (cache : Cache) (r : Traces)
      → parse_arguments argv ≡ accepted cache
      → read_trace_file input ≡ r
      → IsRead r
      → IsEnd (run_traces has_memory cache r)
  unfolding run_traces
  ends_with_traces cache (read traces) p e h =
      let (sim, f, ready) = run_lem cache traces (parse_arguments-IsAccepted argv cache p) in
      elim (Bool-cases (has_memory cache traces)) [
        | inr m ↦ rw m (inr (inl refl))
        | inl m ↦ elim (Bool-cases (shift_is_defined cache traces)) [
          | inr d ↦
              rw (m, d)
                (inr (
                  inr (
                    inl (record {
                      cache = cache;
                      accepts = p;
                      wide = wide_of_shift cache traces d;
                      ends = refl;
                    }))))
          | inl d ↦
              rw (m, d, f)
                (inr (
                  inr (
                    inr (record {
                      cache = cache;
                      traces = traces;
                      sim = sim;
                      accepts = p;
                      reads = e;
                      prints = refl;
                      ready = ready;
                    }))))
        ]
      ]
  ends_with_traces cache bad_address p e h = inr (inl refl)
  ends_with_traces cache out_of_rounds p e h = elim h [ ]

  ends_with_arguments :
      (a : Arguments) → parse_arguments argv ≡ a → IsEnd (run_arguments has_memory a input)
  unfolding read_trace_file run_traces
  ends_with_arguments (accepted cache) p =
      ends_with_traces cache (read_trace_file input) p refl
        (read_traces-IsRead (suc (length input)) input (omega arith))
  ends_with_arguments refused p = inl refl
  ends_with_arguments exception p = inr (inl refl)

  -- On every command line and every input, `main` returns 1, or ends by an exception, of `std::stoul` or
  -- where memory runs out, or shifts an address by 32 bits or more, which C++ does not define, where block
  -- offset and set index take as many, or reads its traces and simulates them all: no access is out of
  -- range, every one is counted, and every set keeps its shape.
  pub main_lem : IsEnd (main has_memory argv input)
  unfolding main
  main_lem = ends_with_arguments (parse_arguments argv) refl
