-- ===== src/Bitmap/Create.antt =====
-- `bitmap_create` of kern/lib/bitmap.c: all numbers free, and the bits behind them marked.
use harvard_os161_operating.Prelude.{
  ℕ, zero, suc, ◌+◌, ◌-◌, ◌*◌, ◌/◌, ◌%◌, ◌^◌, ◌≤◌, ◌<◌, ◌≡◌, refl, ap, ◌∙◌, true, false, some,
  arith, dec_lt, ℕ_discrete, ltb, ◌==◌, if◌then◌else◌, lt→ltb, le→ltb, eq→==, ne→==, length,
  get_elem?, set, length-set, length-replicate, get_elem?-none, get_elem?-replicate,
}
use harvard_os161_operating.Bitmap.Byte.{test-set, byte_range, test_zero}
use harvard_os161_operating.Bitmap.Valid.{IsValid, bit_of, is_used, is_used-set, set-bytes}
use harvard_os161_operating.Bitmap.{
  Bitmap, div_round_up, test_bit, set_bit, fill_bits, mark_leftover, zero_bytes, create,
}

fill_bits_lem :
    (n j w : ℕ)
    → n + j ≡ 8
    → w < 256
    → (fill_bits n j w < 256)
      × ((k : ℕ) → k < 8 → test_bit (fill_bits n j w) k ≡ (if ltb k j then test_bit w k else true))
unfolding fill_bits
fill_bits_lem zero j w e hw = (hw, λ k lt. rw (lt→ltb k j (omega arith)) refl)
fill_bits_lem (suc n) j w e hw =
    let (small, bits) =
      fill_bits_lem n (j + 1) (set_bit w j) (omega arith) (byte_range w j hw (omega arith)).0 in
    (small, λ k lt. ground (arith, bits k lt, test-set w j k hw (omega arith) lt))

-- A block of zero bytes marks nothing.
is_used-replicate : (n i : ℕ) → i < 8 * n → is_used (zero_bytes n) i ≡ false
is_used-replicate n i h =
    ap (λ o. bit_of o (i % 8)) (get_elem?-replicate {A = ℕ} n 0 (i / 8) (omega arith))
    ∙ test_zero (i % 8) (omega arith)

-- What `bitmap_create` returns for `nbits`.
pub record Created (nbits : ℕ) (b : Bitmap) : Type 0 where
  pub valid : IsValid b
  pub same_bits : b.nbits ≡ nbits
  pub all_free : (i : ℕ) → i < nbits → is_used b.v i ≡ false

set_zero-bytes : (n i w : ℕ) → get_elem? (zero_bytes n) i ≡ some w → w < 256
set_zero-bytes n i w e = elim (dec_lt i n) [
  | yes lt ↦ ground (arith, get_elem?-replicate {A = ℕ} n 0 i lt)
  | no ge ↦
      absurd (cc (e, get_elem?-none (zero_bytes n) i (omega (arith, length-replicate {A = ℕ} n 0))))
]

module _ (nbits : ℕ) (fits : nbits + 7 < 2 ^ 32) where
  abbrev words : ℕ
  words = (nbits + 7) / 8

  length-words : length (zero_bytes words) ≡ words
  length-words = length-replicate {A = ℕ} words 0

  -- The bits fill whole bytes.
  whole-Created : words ≤ nbits / 8 → Created nbits (record { nbits = nbits; v = zero_bytes words })
  whole-Created whole = record {
    valid = record {
      fits = fits;
      block = length-words;
      bytes = set_zero-bytes words;
      leftover = λ i ge lt. absurd (omega (arith, length-words));
    };
    same_bits = refl;
    all_free = λ i lt. is_used-replicate words i (omega arith);
  }

  abbrev last : ℕ
  last = words - 1

  abbrev over : ℕ
  over = nbits - last * 8

  abbrev filled : ℕ
  filled = fill_bits (8 - over) over 0

  -- The last byte has bits to spare, and they are marked.
  part-Created :
      nbits / 8 < words
      → Created nbits (record { nbits = nbits; v = set (zero_bytes words) last filled })
  part-Created part =
      let (small, bits) = fill_bits_lem (8 - over) over 0 (omega arith) (omega arith) in
      let lt : last < length (zero_bytes words) = omega (arith, length-words) in
      let len : length (set (zero_bytes words) last filled) ≡ words =
        length-set (zero_bytes words) last filled ∙ length-words in
      record {
        valid = record {
          fits = fits;
          block = len;
          bytes = set-bytes (zero_bytes words) last filled (set_zero-bytes words) small lt;
          leftover = λ i ge within.
              is_used-set (zero_bytes words) last filled i lt
              ∙ rw
                  (
                    eq→== (i / 8) last (omega (arith, len)),
                    bits (i % 8) (omega arith),
                    le→ltb (i % 8) over (omega (arith, len)),
                  )
                  refl;
        };
        same_bits = refl;
        all_free =
            λ i below. is_used-set (zero_bytes words) last filled i lt ∙ free i below small bits;
      }
    where
      free :
          (i : ℕ)
          → i < nbits
          → filled < 256
          → ((k : ℕ) → k < 8 → test_bit filled k ≡ (if ltb k over then test_bit 0 k else true))
          → (if i / 8 == last then test_bit filled (i % 8) else is_used (zero_bytes words) i)
            ≡ false
      free i below small bits = elim (ℕ_discrete (i / 8) last) [
        | yes e ↦
            rw (eq→== (i / 8) last e, bits (i % 8) (omega arith), lt→ltb (i % 8) over (omega arith))
              (test_zero (i % 8) (omega arith))
        | no ne ↦ rw (ne→== (i / 8) last ne) (is_used-replicate words i (omega arith))
      ]

  -- With memory `bitmap_create` passes its assertions and returns a well-formed bitmap of `nbits`
  -- numbers in which every number is free.
  pub create_lem : (b : Bitmap) × (create true true nbits ≡ some (some b)) × Created nbits b
  unfolding create mark_leftover
  create_lem =
      let rounds : div_round_up nbits 8 ≡ words = omega (arith, fits) in
      elim (dec_lt (nbits / 8) words) [
        | yes part ↦ (
          _,
          rw
              (
                rounds,
                lt→ltb (nbits / 8) words part,
                eq→== (nbits / 8) last (omega arith),
                lt→ltb 0 over (omega arith),
                lt→ltb over 8 (omega arith),
                get_elem?-replicate {A = ℕ} words 0 last (omega arith),
                lt→ltb last (length (zero_bytes words)) (omega (arith, length-words)),
              )
              refl,
          part-Created part,
        )
        | no whole ↦ (
          _,
          rw (rounds, le→ltb (nbits / 8) words (omega arith)) refl,
          whole-Created (omega arith),
        )
      ]
