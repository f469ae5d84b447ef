-- ===== src/Sort/Range.antt =====
-- Reading and writing a range of the array, where the array is given in three parts.
use csf.Base.{
  ℕ, suc, ◌+◌, ◌-◌, List, [], ◌∷◌, ◌++◌, append_assoc, ◌≡◌, refl, sym, ap, ◌∙◌, arith, length,
  length-append, set, take, drop,
}
use csf.Base.Int.{ℤ}
use csf.Sort.{range, copy_back}

drop-append : (pre xs : List ℤ) → drop (length pre) (pre ++ xs) ≡ xs
drop-append [] xs = refl
drop-append (p ∷ pre) xs = drop-append pre xs

take-append : (mid post : List ℤ) → take (length mid) (mid ++ post) ≡ mid
take-append [] post = refl
take-append (m ∷ mid) post = ap (λ l. m ∷ l) (take-append mid post)

pub range_middle :
    (pre mid post : List ℤ) (begin end : ℕ)
    → begin ≡ length pre
    → end ≡ length pre + length mid
    → range (pre ++ (mid ++ post)) begin end ≡ mid
range_middle pre mid post begin end b e =
    let size : end - begin ≡ length mid = omega arith in
    rw (size, b, drop-append pre (mid ++ post)) (take-append mid post)

set-append :
    (pre : List ℤ) (x y : ℤ) (post : List ℤ)
    → set (pre ++ (x ∷ post)) (length pre) y ≡ pre ++ (y ∷ post)
set-append [] x y post = refl
set-append (p ∷ pre) x y post = ap (λ l. p ∷ l) (set-append pre x y post)

-- Copying as many elements as the range holds replaces the range and nothing else.
pub copy_back_middle :
    (pre mid post xs : List ℤ) (begin : ℕ)
    → begin ≡ length pre
    → length xs ≡ length mid
    → copy_back (pre ++ (mid ++ post)) begin xs ≡ pre ++ (xs ++ post)
unfolding copy_back
copy_back_middle pre [] post [] begin b e = refl
copy_back_middle pre [] post (x ∷ xs) begin b e = absurd (omega arith)
copy_back_middle pre (m ∷ mid) post [] begin b e = absurd (omega arith)
copy_back_middle pre (m ∷ mid) post (x ∷ xs) begin b e =
    let one : List ℤ = x ∷ [] in
    let written : set (pre ++ (m ∷ (mid ++ post))) begin x ≡ (pre ++ one) ++ (mid ++ post) =
      ap (λ i. set (pre ++ (m ∷ (mid ++ post))) i x) b
      ∙ set-append pre m x (mid ++ post)
      ∙ sym (append_assoc pre one (mid ++ post)) in
    let next =
      copy_back_middle (pre ++ one) mid post xs (suc begin) (omega (arith, length-append pre one))
        (omega arith) in
    ap (λ l. copy_back l (suc begin) xs) written ∙ next ∙ append_assoc pre one (xs ++ post)
