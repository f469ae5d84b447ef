-- ===== src/Cache/Lines.antt =====
-- The lines of a set: which tags they hold, and how many lines there are.
use csf.Base.{
  ℕ, zero, suc, ◌+◌, ◌%◌, ◌≤◌, ◌<◌, Bool, true, false, ◌&&◌, List, [], ◌∷◌, Option, none, some, ◌≡◌,
  inl, inr, refl, ap, arith, ◌==◌, if◌then◌else◌, length, set, Bool-cases, Option-cases,
}
use native.Mathlib.Nat.{mod-lt}
use csf.Cache.{
  CacheLine, CacheSet, Cache, touch, first_invalid, min_element, least_recent, remove_line,
}

abbrev pub matches : ℕ → CacheLine → Bool
matches tag line = line.valid && line.tag == tag

-- The number of valid lines that hold a tag.
abbrev pub occupancy : ℕ → List CacheLine → ℕ
occupancy tag [] = 0
occupancy tag (line ∷ lines) = (if matches tag line then 1 else 0) + occupancy tag lines

abbrev pub lines_or : List CacheLine → Option (List CacheLine) → List CacheLine
lines_or lines none = lines
lines_or lines (some lines') = lines'

-- What the search of a set does: it hits exactly the tags that are held, and changes neither the
-- tags nor the number of lines.
pub record IsTouched (tag : ℕ) (lines : List CacheLine) (r : Option (List CacheLine)) : Type 0 where
  pub miss : r ≡ none → occupancy tag lines ≡ 0
  pub hit : (lines' : List CacheLine) → r ≡ some lines' → 0 < occupancy tag lines
  pub same : (t : ℕ) → occupancy t (lines_or lines r) ≡ occupancy t lines
  pub size : length (lines_or lines r) ≡ length lines

module _ (config : Cache) (now tag : ℕ) where
  touch_here :
      (line : CacheLine) (lines : List CacheLine)
      → matches tag line ≡ true
      → touch config now tag (line ∷ lines)
        ≡ some ((if config.is_lru then record line { access_time = now } else line) ∷ lines)
  unfolding touch
  touch_here line lines e = rw (e, touch)

  touch_later :
      (line : CacheLine) (lines : List CacheLine)
      → matches tag line ≡ false
      → touch config now tag (line ∷ lines)
        ≡ (elim (touch config now tag lines) [ none ↦ none | some rest ↦ some (line ∷ rest) ])
  unfolding touch
  touch_later line lines e = rw (e, touch)

  later-IsTouched :
      (line : CacheLine) (lines : List CacheLine) (r : Option (List CacheLine))
      → matches tag line ≡ false
      → IsTouched tag lines r
      → IsTouched tag (line ∷ lines) (elim r [ none ↦ none | some rest ↦ some (line ∷ rest) ])
  later-IsTouched line lines none e ih = record {
    miss = λ q. ground (arith, ih.miss refl);
    hit = λ l q. cc;
    same = λ t. refl;
    size = refl;
  }
  later-IsTouched line lines (some rest) e ih = record {
    miss = λ q. cc;
    hit = λ l q. ground (arith, ih.hit rest refl);
    same = λ t. ground (arith, ih.same t);
    size = ap suc ih.size;
  }

  pub touch-IsTouched : (lines : List CacheLine) → IsTouched tag lines (touch config now tag lines)
  touch-IsTouched [] =
      unfold touch in record { miss = λ e. refl; hit = λ l e. cc; same = λ t. refl; size = refl }
  touch-IsTouched (line ∷ lines) = elim (Bool-cases (matches tag line)) [
    | inl e ↦ rw (touch_here line lines e) (record {
      miss = λ q. cc;
      hit = λ l q. rw e (omega arith);
      same = λ t. ground arith;
      size = refl;
    })
    | inr e ↦
        rw (touch_later line lines e)
          (later-IsTouched line lines (touch config now tag lines) e (touch-IsTouched lines))
  ]

-- A line that is replaced can add its own tag, and no other.
pub occupancy-set :
    (t : ℕ) (lines : List CacheLine) (i : ℕ) (line : CacheLine)
    → (occupancy t (set lines i line) ≤ occupancy t lines + (if matches t line then 1 else 0))
      × (i < length lines → (if matches t line then 1 else 0) ≤ occupancy t (set lines i line))
occupancy-set t [] i line = (omega arith, λ h. omega arith)
occupancy-set t (x ∷ lines) zero line = (omega arith, λ h. omega arith)
occupancy-set t (x ∷ lines) (suc i) line =
    let ih = occupancy-set t lines i line in
    (omega (arith, ih.0), λ h. omega (arith, ih.1 (omega arith)))

pub first_invalid-lt :
    (lines : List CacheLine) (i : ℕ) → first_invalid lines ≡ some i → i < length lines
unfolding first_invalid
first_invalid-lt [] i e = cc
first_invalid-lt (line ∷ lines) zero e = omega arith
first_invalid-lt (line ∷ lines) (suc i) e = ground (arith, first_invalid-lt lines i)

pub min_element-lt :
    (lines : List CacheLine) (best time i n : ℕ)
    → best < n
    → i + length lines ≤ n
    → min_element best time i lines < n
unfolding min_element
min_element-lt [] best time i n h k = h
min_element-lt (line ∷ lines) best time i n h k =
    min_element-lt lines _ _ (suc i) n (ground arith) (omega arith)

least_recent-lt : (lines : List CacheLine) → 0 < length lines → least_recent lines < length lines
least_recent-lt [] h = h
least_recent-lt (line ∷ lines) h =
    min_element-lt lines 0 line.access_time 1 (suc (length lines)) (omega arith) (omega arith)

-- The line chosen for replacement is one of the set, and only the FIFO index moves, within range.
pub record IsRemoval (s : CacheSet) (i : ℕ) (s' : CacheSet) : Type 0 where
  pub in_range : i < length s.lines
  pub same_lines : s'.lines ≡ s.lines
  pub same_counter : s'.lru_counter ≡ s.lru_counter
  pub queue : s'.first_in < length s.lines

pub remove_line-IsRemoval :
    (config : Cache) (s : CacheSet)
    → s.first_in < length s.lines
    → let (i, s', cost) = remove_line config s in IsRemoval s i s'
unfolding remove_line
remove_line-IsRemoval config s h =
    let some_line : 0 < length s.lines = omega arith in
    let next : (s.first_in + 1) % length s.lines < length s.lines = mod-lt _ some_line in
    elim (Option-cases (first_invalid s.lines)) [
      | inl e ↦
          let lru = least_recent-lt s.lines some_line in rw (e, remove_line) (ground (arith, lru))
      | inr (i, e) ↦
          let invalid = first_invalid-lt s.lines i e in
          rw (e, remove_line) (ground (arith, invalid))
    ]
