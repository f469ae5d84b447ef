-- ===== src/Sort/Program/Bytes.antt =====
-- The size and the bytes of the file that gen_rand_data.c writes.
use csf.Base.{
  ℕ, zero, suc, ◌*◌, ◌%◌, ◌^◌, ◌<◌, bit_and, Bool, true, List, [], ◌∷◌, ◌≡◌, refl, ap, arith,
  length,
}
use csf.Base.Bits.{bit_and-eq-mod}
use csf.Base.Text.{Text, codes, print, digits, strtoul}
use csf.Base.Text.Printed.{strtoul-print}
use csf.Sort.Program.{Generated, wrote, with_suffix, write_bytes, generate_main}

abbrev pub AllBytes : List ℕ → Type 0
AllBytes [] = Unit {0}
AllBytes (b ∷ bs) = (b < 256) × AllBytes bs

-- The program returns 0 with this many bytes in the file.
pub record Fills (g : Generated) (size : ℕ) : Type 0 where
  pub bytes : List ℕ
  pub returns_0 : g ≡ wrote size bytes
  pub all_written : length bytes ≡ size
  pub all_bytes : AllBytes bytes

module _ (rand : ℕ → ℕ) (fwrite : ℕ → Bool) (writes : (i : ℕ) → fwrite i ≡ true) where
  write_bytes_lem :
      (i left : ℕ)
      → let r = write_bytes rand fwrite i left in (r.1 ≡ true) × (length r.0 ≡ left) × AllBytes r.0
  unfolding write_bytes
  write_bytes_lem i zero = (refl, refl, tt)
  write_bytes_lem i (suc left) =
      let (whole, size, below) = write_bytes_lem (suc i) left in
      let b : bit_and (rand i) 0xff < 256 = omega (arith, bit_and-eq-mod 8 (rand i) 255 refl) in
      rw (writes i) (whole, ap suc size, (b, below))

  -- Where the file is opened and every fwrite succeeds, the size `n` with the suffix M, for `n` below
  -- 2 ^ 44, makes gen_rand_data return 0 with a file of `n` times 2 ^ 20 bytes.
  pub generate_main-Fills :
      (fopen : Text → Bool) (program filename : Text) (n : ℕ)
      → fopen filename ≡ true
      → n < 2 ^ 44
      → Fills
          (generate_main rand fwrite fopen (program ∷ print 20 n (codes "M") ∷ filename ∷ []))
          (n * 2 ^ 20)
  unfolding generate_main with_suffix digits
  generate_main-Fills fopen program filename n opened small =
      let read : strtoul (print 20 n (codes "M")) ≡ (n, codes "M") =
        strtoul-print n (codes "M") (omega arith) refl in
      let size : n * (1024 * 1024) % 2 ^ 64 ≡ n * 2 ^ 20 = omega arith in
      let (whole, count, below) = write_bytes_lem 0 (n * 2 ^ 20) in
      record {
        bytes = (write_bytes rand fwrite 0 (n * 2 ^ 20)).0;
        returns_0 = rw (read, opened, size, whole) refl;
        all_written = count;
        all_bytes = below;
      }
