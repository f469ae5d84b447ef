-- ===== src/BigInt/Value.antt =====
-- The number that a vector of words stands for, and the operations that do not change it.
use csf.Base.{
  Bool, ℕ, zero, suc, ◌+◌, ◌-◌, ◌*◌, ◌^◌, ◌≤◌, ◌<◌, List, [], ◌∷◌, ◌≡◌, ◌⊎◌, inl, inr, refl, arith,
  ltb, ◌==◌, ◌&&◌, if◌then◌else◌, length, Bool-cases,
}
use csf.Base.Int.{ℤ, pos, sub_ℕ}
use csf.BigInt.{BigInt, first, rest, back, pop_back, all_zero, trim, trim_loop}

abbrev pub value : List ℕ → ℕ
value [] = 0
value (w ∷ ws) = w + 2 ^ 64 * value ws

-- Each word fits 64 bits.
abbrev pub IsWords : List ℕ → Type 0
IsWords [] = Unit {0}
IsWords (w ∷ ws) = (w < 2 ^ 64) × IsWords ws

abbrev pub signed : Bool → ℕ → ℤ
signed s n = if s then sub_ℕ 0 n else pos n

-- The integer that a `BigInt` stands for.
abbrev pub to_ℤ : BigInt → ℤ
to_ℤ x = signed x.sign (value x.magnitude)

pub value-rest : (ws : List ℕ) → value ws ≡ first ws + 2 ^ 64 * value (rest ws)
value-rest [] = refl
value-rest (w ∷ ws) = refl

pub rest-IsWords : (ws : List ℕ) → IsWords ws → (first ws < 2 ^ 64) × IsWords (rest ws)
rest-IsWords [] h = (omega arith, tt)
rest-IsWords (w ∷ ws) h = h

pub length-rest : (ws : List ℕ) → length (rest ws) ≡ length ws - 1
length-rest [] = refl
length-rest (w ∷ ws) = omega arith

pub all_zero-value : (ws : List ℕ) → all_zero ws ≡ (value ws == 0)
unfolding all_zero
all_zero-value [] = refl
all_zero-value (w ∷ ws) = ground (arith, all_zero-value ws)

pub value-pop_back : (ws : List ℕ) → back ws ≡ 0 → value (pop_back ws) ≡ value ws
value-pop_back [] h = refl
value-pop_back (w ∷ []) h = omega arith
value-pop_back (w ∷ v ∷ ws) h = omega (arith, value-pop_back (v ∷ ws) h)

pub pop_back-IsWords : (ws : List ℕ) → IsWords ws → IsWords (pop_back ws)
pop_back-IsWords [] h = tt
pop_back-IsWords (w ∷ []) h = tt
pop_back-IsWords (w ∷ v ∷ ws) h = (h.0, pop_back-IsWords (v ∷ ws) h.1)

length-pop_back : (ws : List ℕ) → length (pop_back ws) ≡ length ws - 1
length-pop_back [] = refl
length-pop_back (w ∷ []) = refl
length-pop_back (w ∷ v ∷ ws) = omega (arith, length-pop_back (v ∷ ws))

-- What the trimming of leading zeros gives: the same number, at most one word or a top word that
-- is not 0.
pub record IsTrimmed (ws out : List ℕ) : Type 0 where
  pub same : value out ≡ value ws
  pub words : IsWords ws → IsWords out
  pub top : (length out ≤ 1) ⊎ (0 < back out)

trim_loop-IsTrimmed : (n : ℕ) (ws : List ℕ) → length ws ≤ n → IsTrimmed ws (trim_loop n ws)
unfolding trim_loop
trim_loop-IsTrimmed zero ws h = record { same = refl; words = λ k. k; top = inl (omega arith) }
trim_loop-IsTrimmed (suc n) ws h = elim (Bool-cases (ltb 1 (length ws) && back ws == 0)) [
  | inl more ↦
      let ih : IsTrimmed (pop_back ws) (trim_loop n (pop_back ws)) =
        trim_loop-IsTrimmed n (pop_back ws) (omega (arith, length-pop_back ws)) in
      rw more (record {
        same = omega (arith, ih.same, value-pop_back ws (ground arith));
        words = λ k. ih.words (pop_back-IsWords ws k);
        top = ih.top;
      })
  | inr last ↦ rw last (record { same = refl; words = λ k. k; top = ground arith })
]

pub trim-IsTrimmed : (ws : List ℕ) → IsTrimmed ws (trim ws)
unfolding trim
trim-IsTrimmed ws = trim_loop-IsTrimmed (length ws) ws (omega arith)
