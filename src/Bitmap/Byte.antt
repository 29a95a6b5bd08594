-- ===== src/Bitmap/Byte.antt =====
-- The bits of one byte of kern/lib/bitmap.c, by evaluation at all bytes.
use harvard_os161_operating.Prelude.{
  ℕ, zero, suc, ◌<◌, ◌≡◌, refl, sym, Bool, true, false, ◌&&◌, ◌||◌, not, arith, ltb, ◌==◌,
  if◌then◌else◌,
}
use harvard_os161_operating.Bitmap.{test_bit, set_bit, clear_bit}

-- The test holds at the numbers 0 .. count - 1.
holds_upto : (ℕ → Bool) → ℕ → Bool
holds_upto test zero = true
holds_upto test (suc count) = holds_upto (λ k. test (suc k)) count && test 0

holds-at :
    (test : ℕ → Bool) (k count : ℕ) → k < count → holds_upto test count ≡ true → test k ≡ true
unfolding holds_upto
holds-at test k zero lt h = absurd (omega arith)
holds-at test zero (suc count) lt h = ground arith
holds-at test (suc k) (suc count) lt h = ground (arith, holds-at (λ j. test (suc j)) k count)

abbrev same : Bool → Bool → Bool
same true b = b
same false b = not b

same→eq : (a b : Bool) → same a b ≡ true → a ≡ b
same→eq true b h = sym h
same→eq false b h = ground arith

set_table :
    holds_upto
      (λ w.
        holds_upto
          (λ o.
            holds_upto
              (λ k. same (test_bit (set_bit w o) k) (if o == k then true else test_bit w k))
              8)
          8)
      256
    ≡ true
unfolding holds_upto test_bit set_bit
set_table = refl

clear_table :
    holds_upto
      (λ w.
        holds_upto
          (λ o.
            holds_upto
              (λ k. same (test_bit (clear_bit w o) k) (if o == k then false else test_bit w k))
              8)
          8)
      256
    ≡ true
unfolding holds_upto test_bit clear_bit
clear_table = refl

range_table :
    holds_upto (λ w. holds_upto (λ o. ltb (set_bit w o) 256 && ltb (clear_bit w o) 256) 8) 256
    ≡ true
unfolding holds_upto clear_bit set_bit
range_table = refl

undo_table :
    holds_upto (λ w. holds_upto (λ o. test_bit w o || clear_bit (set_bit w o) o == w) 8) 256 ≡ true
unfolding holds_upto clear_bit set_bit test_bit
undo_table = refl

full_table : holds_upto (λ w. not (holds_upto (test_bit w) 8) || w == 0xff) 256 ≡ true
unfolding holds_upto test_bit
full_table = refl

-- Setting or clearing a bit of a byte changes that bit only.
pub test-set :
    (w o k : ℕ)
    → w < 256
    → o < 8
    → k < 8
    → test_bit (set_bit w o) k ≡ (if o == k then true else test_bit w k)
test-set w o k hw ho hk =
    same→eq _ _ (holds-at _ k 8 hk (holds-at _ o 8 ho (holds-at _ w 256 hw set_table)))

pub test-clear :
    (w o k : ℕ)
    → w < 256
    → o < 8
    → k < 8
    → test_bit (clear_bit w o) k ≡ (if o == k then false else test_bit w k)
test-clear w o k hw ho hk =
    same→eq _ _ (holds-at _ k 8 hk (holds-at _ o 8 ho (holds-at _ w 256 hw clear_table)))

pub byte_range : (w o : ℕ) → w < 256 → o < 8 → (set_bit w o < 256) × (clear_bit w o < 256)
byte_range w o hw ho = ground (arith, holds-at _ o 8 ho (holds-at _ w 256 hw range_table))

pub clear-set : (w o : ℕ) → w < 256 → o < 8 → test_bit w o ≡ false → clear_bit (set_bit w o) o ≡ w
clear-set w o hw ho e = ground (arith, holds-at _ o 8 ho (holds-at _ w 256 hw undo_table))

holds-all :
    (test : ℕ → Bool) (count : ℕ)
    → ((k : ℕ) → k < count → test k ≡ true)
    → holds_upto test count ≡ true
unfolding holds_upto
holds-all test zero h = refl
holds-all test (suc count) h =
    ground (arith, h 0, holds-all (λ j. test (suc j)) count (λ k lt. h (suc k) (omega arith)))

-- A byte with all bits set is `WORD_ALLBITS`.
pub full_byte : (w : ℕ) → w < 256 → ((k : ℕ) → k < 8 → test_bit w k ≡ true) → w ≡ 0xff
full_byte w hw h = ground (arith, holds-at _ w 256 hw full_table, holds-all (test_bit w) 8 h)

all_set_table : holds_upto (test_bit 0xff) 8 ≡ true
unfolding holds_upto test_bit
all_set_table = refl

pub test_all_bits : (k : ℕ) → k < 8 → test_bit 0xff k ≡ true
test_all_bits k h = holds-at _ k 8 h all_set_table

zero_table : holds_upto (λ k. not (test_bit 0 k)) 8 ≡ true
unfolding holds_upto test_bit
zero_table = refl

pub test_zero : (k : ℕ) → k < 8 → test_bit 0 k ≡ false
test_zero k h = ground (arith, holds-at _ k 8 h zero_table)
