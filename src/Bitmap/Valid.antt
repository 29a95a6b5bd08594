-- ===== src/Bitmap/Valid.antt =====
-- The bitmap of kern/lib/bitmap.c as a set of marked numbers, and the invariant of its block.
use harvard_os161_operating.Prelude.{
  ℕ, ◌+◌, ◌*◌, ◌/◌, ◌%◌, ◌^◌, ◌≤◌, ◌<◌, ◌≡◌, sym, ap, ◌∙◌, ◌≢◌, Bool, true, false, Option, none,
  some, List, arith, ℕ_discrete, ◌==◌, if◌then◌else◌, eq→==, ne→==, length, get_elem?, set,
  length-set, get_elem?-set_self, get_elem?-set_ne,
}
use harvard_os161_operating.Bitmap.Byte.{test-set, test-clear, byte_range}
use harvard_os161_operating.Bitmap.{Bitmap, test_bit, set_bit, clear_bit}

-- The bit at an offset of a byte that was read.
abbrev pub bit_of : Option ℕ → ℕ → Bool
bit_of none offset = false
bit_of (some w) offset = test_bit w offset

-- Whether bit `i` of the block is set.
abbrev pub is_used : List ℕ → ℕ → Bool
is_used v i = bit_of (get_elem? v (i / 8)) (i % 8)

pub record IsValid (b : Bitmap) : Type 0 where
  pub fits : b.nbits + 7 < 2 ^ 32
  pub block : length b.v ≡ (b.nbits + 7) / 8
  pub bytes : (i w : ℕ) → get_elem? b.v i ≡ some w → w < 256
  -- The bits behind the last one are marked.
  pub leftover : (i : ℕ) → b.nbits ≤ i → i < 8 * length b.v → is_used b.v i ≡ true

-- Storing a byte changes the bits of that byte only.
pub is_used-set :
    (v : List ℕ) (ix new k : ℕ)
    → ix < length v
    → is_used (set v ix new) k ≡ (if k / 8 == ix then test_bit new (k % 8) else is_used v k)
is_used-set v ix new k h = elim (ℕ_discrete (k / 8) ix) [
  | yes e ↦
      rw (eq→== (k / 8) ix e) (
        ap (λ o. bit_of o (k % 8))
          (ap (get_elem? (set v ix new)) e ∙ get_elem?-set_self v ix new h))
  | no ne ↦
      rw (ne→== (k / 8) ix ne)
        (ap (λ o. bit_of o (k % 8)) (get_elem?-set_ne v ix (k / 8) new (λ e. ne (sym e))))
]

-- Setting one bit that a byte lies behind marks that number and no other.
pub is_used-set_bit :
    (v : List ℕ) (i w k : ℕ)
    → get_elem? v (i / 8) ≡ some w
    → w < 256
    → i / 8 < length v
    → is_used (set v (i / 8) (set_bit w (i % 8))) k ≡ (if i == k then true else is_used v k)
is_used-set_bit v i w k here hw lt = elim (ℕ_discrete (k / 8) (i / 8)) [
  | yes e ↦
      let old : is_used v k ≡ test_bit w (k % 8) =
        ap (λ o. bit_of o (k % 8)) (ap (get_elem? v) e ∙ here) in
      ground (
        arith,
        old,
        is_used-set v (i / 8) (set_bit w (i % 8)) k lt,
        test-set w (i % 8) (k % 8) hw (omega arith) (omega arith),
      )
  | no ne ↦
      let other : i ≢ k = λ same. ne (ap (λ n. n / 8) (sym same)) in
      ground (arith, is_used-set v (i / 8) (set_bit w (i % 8)) k lt)
]

-- Clearing one bit frees that number and no other.
pub is_used-clear_bit :
    (v : List ℕ) (i w k : ℕ)
    → get_elem? v (i / 8) ≡ some w
    → w < 256
    → i / 8 < length v
    → is_used (set v (i / 8) (clear_bit w (i % 8))) k ≡ (if i == k then false else is_used v k)
is_used-clear_bit v i w k here hw lt = elim (ℕ_discrete (k / 8) (i / 8)) [
  | yes e ↦
      let old : is_used v k ≡ test_bit w (k % 8) =
        ap (λ o. bit_of o (k % 8)) (ap (get_elem? v) e ∙ here) in
      ground (
        arith,
        old,
        is_used-set v (i / 8) (clear_bit w (i % 8)) k lt,
        test-clear w (i % 8) (k % 8) hw (omega arith) (omega arith),
      )
  | no ne ↦
      let other : i ≢ k = λ same. ne (ap (λ n. n / 8) (sym same)) in
      ground (arith, is_used-set v (i / 8) (clear_bit w (i % 8)) k lt)
]

-- A byte stored below 256 keeps the bytes of the block below 256.
pub set-bytes :
    (v : List ℕ) (ix new : ℕ)
    → ((i w : ℕ) → get_elem? v i ≡ some w → w < 256)
    → new < 256
    → ix < length v
    → (i w : ℕ) → get_elem? (set v ix new) i ≡ some w
    → w < 256
set-bytes v ix new old small lt i w e = elim (ℕ_discrete ix i) [
  | yes same ↦
      let e' : get_elem? (set v ix new) ix ≡ some w = ap (get_elem? (set v ix new)) same ∙ e in
      ground (arith, get_elem?-set_self v ix new lt)
  | no ne ↦ old i w (sym (get_elem?-set_ne v ix i new ne) ∙ e)
]

-- Marking one more number keeps the invariant.
pub set_bit-IsValid :
    {b : Bitmap} (i w : ℕ)
    → IsValid b
    → get_elem? b.v (i / 8) ≡ some w
    → i / 8 < length b.v
    → IsValid (record b { v = set b.v (i / 8) (set_bit w (i % 8)) })
set_bit-IsValid {b} i w valid here lt = record {
  fits = valid.fits;
  block = length-set b.v (i / 8) (set_bit w (i % 8)) ∙ valid.block;
  bytes = set-bytes b.v (i / 8) _ valid.bytes (byte_range w (i % 8) hw (omega arith)).0 lt;
  leftover = λ k ge within. ground (
    arith,
    is_used-set_bit b.v i w k here hw lt,
    valid.leftover k ge (omega (arith, length-set b.v (i / 8) (set_bit w (i % 8)))),
  );
}
  where
    hw : w < 256
    hw = valid.bytes (i / 8) w here

-- Freeing a number below `nbits` keeps the invariant.
pub clear_bit-IsValid :
    {b : Bitmap} (i w : ℕ)
    → IsValid b
    → i < b.nbits
    → get_elem? b.v (i / 8) ≡ some w
    → i / 8 < length b.v
    → IsValid (record b { v = set b.v (i / 8) (clear_bit w (i % 8)) })
clear_bit-IsValid {b} i w valid below here lt = record {
  fits = valid.fits;
  block = length-set b.v (i / 8) (clear_bit w (i % 8)) ∙ valid.block;
  bytes = set-bytes b.v (i / 8) _ valid.bytes (byte_range w (i % 8) hw (omega arith)).1 lt;
  leftover = λ k ge within. ground (
    arith,
    is_used-clear_bit b.v i w k here hw lt,
    valid.leftover k ge (omega (arith, length-set b.v (i / 8) (clear_bit w (i % 8)))),
  );
}
  where
    hw : w < 256
    hw = valid.bytes (i / 8) w here
