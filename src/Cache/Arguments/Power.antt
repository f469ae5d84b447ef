-- ===== src/Cache/Arguments/Power.antt =====
-- The sizes that `parse_arguments` accepts.
use native.Mathlib.Nat.{pow-suc, one-le-pow, pow-le-pow_right}
use csf.Base.{
  ℕ, zero, suc, ◌+◌, ◌-◌, ◌/◌, ◌%◌, ◌^◌, ◌≤◌, ◌<◌, bit_and, ◌≡◌, refl, sym, subst, if_lem, ap, ◌∙◌,
  Bool, true, false, not, differ, ◌&&◌, ◌||◌, arith, Option, none, some, List, ◌==◌, length, ltb,
  inl, inr, Bool-cases, u32,
}
use csf.Base.Bits.{and_low}
use csf.Base.Text.{Text}
use csf.Cache.{Cache}
use csf.Cache.Arguments.{
  is_power_of_two, Arguments, accepted, refused, exception, checked, filled, parse_arguments, stoul,
  arg,
}

and_self : (n a : ℕ) → a ≤ n → bit_and a a ≡ a
and_self n zero h = refl
and_self zero (suc a) h = elim h [ ]
and_self (suc n) (suc a) h =
    omega (arith, and_low (suc a) (suc a), and_self n (suc a / 2) (omega arith))

double_pow : (k x : ℕ) → x / 2 ≡ 2 ^ k → x % 2 ≡ 0 → x ≡ 2 ^ suc k
double_pow k x e h = omega (arith, pow-suc 2 k)

-- A number that has no binary digit in common with the one before it is a power of 2.
power_of_two : (n x : ℕ) → x ≤ n → 0 < x → bit_and x (x - 1) ≡ 0 → (k : ℕ) × (x ≡ 2 ^ k)
power_of_two zero x h p e = absurd (omega arith)
power_of_two (suc n) x h p e = elim (Bool-cases (x % 2 == 0)) [
  | inr odd ↦
      let same : (x - 1) / 2 ≡ x / 2 = ground arith in
      let low : bit_and (x / 2) (x / 2) ≡ 0 =
        omega (arith, and_low x (x - 1), ap (bit_and (x / 2)) same) in
      (0, ground (arith, low, and_self x (x / 2)))
  | inl even ↦
      let before : (x - 1) / 2 ≡ x / 2 - 1 = ground arith in
      let low : bit_and (x / 2) (x / 2 - 1) ≡ 0 =
        omega (arith, and_low x (x - 1), ap (bit_and (x / 2)) before) in
      let (k, f) = power_of_two n (x / 2) (omega arith) (ground arith) low in
      (suc k, double_pow k x f (ground arith))
]

pow_le : (k n : ℕ) → n ≤ k → 2 ^ n ≤ 2 ^ k
pow_le k n h = pow-le-pow_right {n = 2} (omega arith) h

exponent_small : (k : ℕ) → 2 ^ k < 2 ^ 32 → k < 32
exponent_small k h = elim (Bool-cases (ltb k 32)) [
  | inl e ↦ ground arith
  | inr e ↦ let l = pow_le k 32 (ground arith) in absurd (omega arith)
]

-- What the test of the source accepts, for a `uint32_t`.
pub is_power_of_two_lem :
    (x : ℕ) → x < 2 ^ 32 → is_power_of_two x ≡ true → (k : ℕ) × (x ≡ 2 ^ k) × (k < 32)
unfolding is_power_of_two
is_power_of_two_lem x h t =
    let before : u32 (x + 2 ^ 32 - 1) ≡ x - 1 = ground arith in
    let low : bit_and x (x - 1) ≡ 0 = ap (bit_and x) (sym before) ∙ ground arith in
    let (k, e) = power_of_two x x (omega arith) (ground arith) low in
    (k, e, exponent_small k (omega arith))

-- A cache that `parse_arguments` accepts.
pub record IsAccepted (cache : Cache) : Type 0 where
  pub block_bits : ℕ
  pub set_bits : ℕ
  pub block_size : cache.block_size ≡ 2 ^ block_bits
  pub num_sets : cache.num_sets ≡ 2 ^ set_bits
  pub block_small : block_bits < 32
  pub sets_small : set_bits < 32
  pub some_block : 0 < cache.block_num_per_set
  pub policy : cache.is_lru ≡ not cache.is_fifo
  pub write_back : cache.is_write_back ≡ true → cache.is_write_allocate ≡ true

IsOk : Arguments → Type 0
IsOk (accepted cache) = IsAccepted cache
IsOk refused = Unit {0}
IsOk exception = Unit {0}

opposite : (a b : Bool) → not (differ a b) ≡ false → a ≡ not b
opposite true true h = absurd (ground arith)
opposite true false h = refl
opposite false true h = refl
opposite false false h = absurd (ground arith)

-- A test that is passed.
or_left : (a b : Bool) → (a || b) ≡ false → (a ≡ false) × (b ≡ false)
or_left true b h = absurd (ground arith)
or_left false b h = (refl, h)

of_not : (a : Bool) → not a ≡ false → a ≡ true
of_not true h = refl
of_not false h = absurd (ground arith)

and_not : (a b : Bool) → (not a && b) ≡ false → b ≡ true → a ≡ true
and_not true b h k = refl
and_not false b h k = absurd (ground (arith, h, k))

tests_lem :
    (cache : Cache)
    → cache.num_sets < 2 ^ 32
    → cache.block_num_per_set < 2 ^ 32
    → cache.block_size < 2 ^ 32
    → not (differ cache.is_lru cache.is_fifo) ≡ false
    → (not (is_power_of_two cache.num_sets)
        || not (is_power_of_two cache.block_num_per_set)
        || not (is_power_of_two cache.block_size)
        || ltb cache.block_size 4
        || not cache.is_write_allocate && cache.is_write_back)
      ≡ false
    → IsAccepted cache
tests_lem cache hs hb hz p q =
    let (r4, q5) = or_left _ _ q in
    let (r3, q4) = or_left _ _ r4 in
    let (r2, q3) = or_left _ _ r3 in
    let (q1, q2) = or_left _ _ r2 in
    let (s, es, ls) = is_power_of_two_lem cache.num_sets hs (of_not _ q1) in
    let (b, eb, lb) = is_power_of_two_lem cache.block_num_per_set hb (of_not _ q2) in
    let (z, ez, lz) = is_power_of_two_lem cache.block_size hz (of_not _ q3) in
    record {
      block_bits = z;
      set_bits = s;
      block_size = ez;
      num_sets = es;
      block_small = lz;
      sets_small = ls;
      some_block = omega (arith, eb, one-le-pow b 2);
      policy = opposite cache.is_lru cache.is_fifo p;
      write_back = λ w. and_not cache.is_write_allocate cache.is_write_back q5 w;
    }

checked-IsOk :
    (cache : Cache)
    → cache.num_sets < 2 ^ 32
    → cache.block_num_per_set < 2 ^ 32
    → cache.block_size < 2 ^ 32
    → IsOk (checked cache)
unfolding checked IsOk
checked-IsOk cache hs hb hz =
    if_lem (λ (r : Arguments). IsOk r) (not (differ cache.is_lru cache.is_fifo)) (λ p. tt)
      (λ p. if_lem (λ (r : Arguments). IsOk r) _ (λ q. tt) (λ q. tests_lem cache hs hb hz p q))

filled-IsOk :
    (sets blocks bytes : Option ℕ) (wa wb repl : Text) → IsOk (filled sets blocks bytes wa wb repl)
unfolding filled IsOk
filled-IsOk none blocks bytes wa wb repl = tt
filled-IsOk (some sets) none bytes wa wb repl = tt
filled-IsOk (some sets) (some blocks) none wa wb repl = tt
filled-IsOk (some sets) (some blocks) (some bytes) wa wb repl =
    checked-IsOk _ (omega arith) (omega arith) (omega arith)

parse-IsOk : (argv : List Text) → IsOk (parse_arguments argv)
unfolding parse_arguments IsOk
parse-IsOk argv =
    if_lem (λ (r : Arguments). IsOk r) (not (length argv == 7)) (λ p. tt)
      (λ p.
        filled-IsOk (stoul 10 (arg argv 1)) (stoul 10 (arg argv 2)) (stoul 10 (arg argv 3)) _ _ _)

-- A cache that `parse_arguments` accepts has powers of 2 for its sizes, one of the two policies, and no
-- write-back without write-allocate.
pub parse_arguments-IsAccepted :
    (argv : List Text) (cache : Cache) → parse_arguments argv ≡ accepted cache → IsAccepted cache
unfolding IsOk
parse_arguments-IsAccepted argv cache e = subst IsOk e (parse-IsOk argv)
