-- ===== src/Bitmap/Tests.antt =====
-- Runs of kern/lib/bitmap.c on a bitmap of eleven bits.
use harvard_os161_operating.Prelude.{
  ℕ, zero, suc, ◌+◌, ◌-◌, ◌≤◌, ◌<◌, ◌≡◌, refl, ap, ◌∙◌, true, some, [], ◌∷◌, arith, get_elem?,
}
use harvard_os161_operating.Bitmap.Valid.{IsValid, is_used}
use harvard_os161_operating.Bitmap.FirstFree.{Outcome, alloc-Outcome}
use harvard_os161_operating.Bitmap.{
  Bitmap, allocated, test_bit, set_bit, fill_bits, mark_leftover, create, scan_byte, take_bit,
  alloc_from, alloc,
}

-- Eleven bits: the first nine are marked, and the five that fill the second byte.
abbrev nine_used : Bitmap
nine_used = record { nbits = 11; v = 0xff ∷ 0xf9 ∷ [] }

create_eleven : create true true 11 ≡ some (some (record { nbits = 11; v = 0 ∷ 0xf8 ∷ [] }))
unfolding create mark_leftover fill_bits set_bit
create_eleven = refl

alloc_ninth : alloc nine_used ≡ some (allocated 9 (record { nbits = 11; v = 0xff ∷ 0xfb ∷ [] }))
unfolding alloc alloc_from take_bit scan_byte set_bit test_bit
alloc_ninth = refl

nine_used-IsValid : IsValid nine_used
unfolding test_bit
nine_used-IsValid = record {
  fits = omega arith;
  block = refl;
  bytes = small;
  leftover = marked_behind;
}
  where
    small : (i w : ℕ) → get_elem? nine_used.v i ≡ some w → w < 256
    small zero w e = ground arith
    small (suc zero) w e = ground arith
    small (suc (suc i)) w e = cc

    marked_at : (k : ℕ) → k < 5 → is_used nine_used.v (11 + k) ≡ true
    marked_at zero h = refl
    marked_at (suc zero) h = refl
    marked_at (suc (suc zero)) h = refl
    marked_at (suc (suc (suc zero))) h = refl
    marked_at (suc (suc (suc (suc zero)))) h = refl
    marked_at (suc (suc (suc (suc (suc k))))) h = absurd (omega arith)

    marked_behind : (i : ℕ) → 11 ≤ i → i < 16 → is_used nine_used.v i ≡ true
    marked_behind i ge lt =
        let split : i ≡ 11 + (i - 11) = omega arith in
        ap (is_used nine_used.v) split ∙ marked_at (i - 11) (omega arith)

alloc-Outcome_example : Outcome nine_used (alloc nine_used)
alloc-Outcome_example = alloc-Outcome nine_used-IsValid
