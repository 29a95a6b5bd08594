-- ===== src/Bitmap/FirstFree.antt =====
-- `bitmap_alloc` of kern/lib/bitmap.c hands out the lowest free number.
use harvard_os161_operating.Prelude.{
  ℕ, zero, suc, ◌+◌, ◌-◌, ◌*◌, ◌/◌, ◌%◌, ◌<◌, ◌≡◌, refl, ap, ◌∙◌, ◌≢◌, inl, inr, true, false,
  Option, some, List, arith, dec_lt, ℕ_discrete, ◌==◌, if◌then◌else◌, lt→ltb, eq→==, ne→==,
  Bool-cases, length, get_elem?, set, get_elem?-some,
}
use harvard_os161_operating.Bitmap.Byte.{full_byte, test_all_bits}
use harvard_os161_operating.Bitmap.Valid.{
  IsValid, bit_of, is_used, is_used-set_bit, set_bit-IsValid,
}
use harvard_os161_operating.Bitmap.{
  Bitmap, Alloc, allocated, no_space, div_round_up, test_bit, set_bit, scan_byte, take_bit,
  alloc_from, alloc,
}

-- In a byte that is not full the inner loop finds the first clear bit; its `assert(0)` is not
-- reached.
pub scan_byte_lem :
    (n o w : ℕ)
    → n + o ≡ 8
    → w < 256
    → w ≢ 0xff
    → ((k : ℕ) → k < o → test_bit w k ≡ true)
    → (r : ℕ) × (scan_byte n o w ≡ some r)
      × (r < 8)
      × (test_bit w r ≡ false)
      × ((k : ℕ) → k < r → test_bit w k ≡ true)
unfolding scan_byte
scan_byte_lem zero o w e hw open_bit before =
    absurd (open_bit (full_byte w hw (λ k lt. before k (omega arith))))
scan_byte_lem (suc n) o w e hw open_bit before = elim (Bool-cases (test_bit w o)) [
  | inl used ↦
      let (r, runs, lt, free, least) =
        scan_byte_lem n (o + 1) w (omega arith) hw open_bit (one_more used) in
      (r, rw used runs, lt, free, least)
  | inr free ↦ (o, rw free refl, omega arith, free, before)
]
  where
    one_more : test_bit w o ≡ true → (k : ℕ) → k < o + 1 → test_bit w k ≡ true
    one_more used k lt = elim (ℕ_discrete k o) [
      | yes e ↦ ap (test_bit w) e ∙ used
      | no ne ↦ before k (omega arith)
    ]

-- The number `i` was free, is the lowest such, and is marked now; nothing else has changed.
pub record Took (b : Bitmap) (i : ℕ) (b' : Bitmap) : Type 0 where
  pub inside : i < b.nbits
  pub was_free : is_used b.v i ≡ false
  pub lowest : (j : ℕ) → j < i → is_used b.v j ≡ true
  pub marked : (j : ℕ) → is_used b'.v j ≡ (if i == j then true else is_used b.v j)
  pub same_bits : b'.nbits ≡ b.nbits
  pub valid : IsValid b'

pub data Outcome (b : Bitmap) : Option Alloc → Type 0 where
  takes : {i : ℕ} {b' : Bitmap} → Took b i b' → Outcome b (some (allocated i b'))
  refuses : ((j : ℕ) → j < b.nbits → is_used b.v j ≡ true) → Outcome b (some no_space)

module _ {b : Bitmap} (valid : IsValid b) where
  bit_at :
      (ix w o : ℕ) → get_elem? b.v ix ≡ some w → o < 8 → is_used b.v (ix * 8 + o) ≡ test_bit w o
  bit_at ix w o here lt =
      let q : (ix * 8 + o) / 8 ≡ ix = omega arith in
      let r : (ix * 8 + o) % 8 ≡ o = omega arith in
      rw r (ap (λ c. bit_of c o) (ap (get_elem? b.v) q ∙ here))

  -- Bits are used up to byte `ix + 1` if they are up to byte `ix`, and that byte is full.
  extend :
      (ix : ℕ)
      → get_elem? b.v ix ≡ some 0xff
      → ((j : ℕ) → j < ix * 8 → is_used b.v j ≡ true)
      → (j : ℕ) → j < (ix + 1) * 8
      → is_used b.v j ≡ true
  extend ix here before j lt = elim (dec_lt j (ix * 8)) [
    | yes old ↦ before j old
    | no new ↦
        let split : j ≡ ix * 8 + (j - ix * 8) = omega arith in
        ap (is_used b.v) split
        ∙ bit_at ix 0xff (j - ix * 8) here (omega arith)
        ∙ test_all_bits (j - ix * 8) (omega arith)
  ]

  take_bit-Outcome :
      (ix w : ℕ)
      → get_elem? b.v ix ≡ some w
      → w ≢ 0xff
      → ix < length b.v
      → ((j : ℕ) → j < ix * 8 → is_used b.v j ≡ true)
      → Outcome b (take_bit b ix w)
  unfolding take_bit
  take_bit-Outcome ix w here open_byte lt before =
      let (o, scanned, small, free, least) =
        scan_byte_lem 8 0 w refl (valid.bytes ix w here) open_byte (λ k le. absurd (omega arith)) in
      let q : (ix * 8 + o) / 8 ≡ ix = omega arith in
      let r : (ix * 8 + o) % 8 ≡ o = omega arith in
      let was_free : is_used b.v (ix * 8 + o) ≡ false = bit_at ix w o here small ∙ free in
      let inside : ix * 8 + o < b.nbits = elim (dec_lt (ix * 8 + o) b.nbits) [
        | yes p ↦ p
        | no np ↦ absurd (cc (was_free, valid.leftover (ix * 8 + o) (omega arith) (omega arith)))
      ] in
      let here' : get_elem? b.v ((ix * 8 + o) / 8) ≡ some w = ap (get_elem? b.v) q ∙ here in
      let v' : List ℕ = set b.v ((ix * 8 + o) / 8) (set_bit w ((ix * 8 + o) % 8)) in
      let e : set b.v ix (set_bit w o) ≡ v' = rw (q, r) refl in
      let took : Took b (ix * 8 + o) (record b { v = v' }) = record {
        inside = inside;
        was_free = was_free;
        lowest = λ j le.
            below_free o j small before (λ k lt'. bit_at ix w k here (omega arith) ∙ least k lt')
              le;
        marked =
            λ j. is_used-set_bit b.v (ix * 8 + o) w j here' (valid.bytes ix w here) (omega arith);
        same_bits = refl;
        valid = set_bit-IsValid (ix * 8 + o) w valid here' (omega arith);
      } in
      rw (scanned, lt→ltb ix (length b.v) lt, lt→ltb (ix * 8 + o) b.nbits inside, e) (takes took)
    where
      below_free :
          (o j : ℕ)
          → o < 8
          → ((j : ℕ) → j < ix * 8 → is_used b.v j ≡ true)
          → ((k : ℕ) → k < o → is_used b.v (ix * 8 + k) ≡ true)
          → j < ix * 8 + o
          → is_used b.v j ≡ true
      below_free o j small early late le = elim (dec_lt j (ix * 8)) [
        | yes old ↦ early j old
        | no new ↦
            let split : j ≡ ix * 8 + (j - ix * 8) = omega arith in
            ap (is_used b.v) split ∙ late (j - ix * 8) (omega arith)
      ]

  alloc_from-Outcome :
      (n ix : ℕ)
      → n + ix ≡ length b.v
      → ((j : ℕ) → j < ix * 8 → is_used b.v j ≡ true)
      → Outcome b (alloc_from b n ix)
  unfolding alloc_from
  alloc_from-Outcome zero ix e before = refuses (λ j lt. before j (omega (arith, valid.block)))
  alloc_from-Outcome (suc n) ix e before =
      let (w, here) = get_elem?-some b.v ix (omega arith) in
      elim (ℕ_discrete w 0xff) [
        | yes full ↦
            rw (here, eq→== w 0xff full)
              (alloc_from-Outcome n (ix + 1) (omega arith)
                (extend ix (here ∙ ap Option.some full) before))
        | no open_byte ↦
            rw (here, ne→== w 0xff open_byte)
              (take_bit-Outcome ix w here open_byte (omega arith) before)
      ]

  -- `bitmap_alloc` marks the lowest free number below `nbits` and returns it, or returns ENOSPC if
  -- all of them are marked; no assertion fails.
  pub alloc-Outcome : Outcome b (alloc b)
  unfolding alloc
  alloc-Outcome =
      alloc_from-Outcome (div_round_up b.nbits 8) 0 (omega (arith, valid.block, valid.fits))
        (λ j lt. absurd (omega arith))
