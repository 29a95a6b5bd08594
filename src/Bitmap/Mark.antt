-- ===== src/Bitmap/Mark.antt =====
-- `bitmap_mark`, `bitmap_unmark` and `bitmap_isset` of kern/lib/bitmap.c.
use harvard_os161_operating.Prelude.{
  ◌>>=◌, ℕ, ◌/◌, ◌%◌, ◌<◌, ◌≡◌, refl, sym, ap, ◌∙◌, true, false, none, some, arith, ◌==◌,
  if◌then◌else◌, lt→ltb, eq→==, length, set, length-set, get_elem?-set_self, get_elem?-some,
  set-set, set-get,
}
use harvard_os161_operating.Bitmap.Byte.{test-set, clear-set}
use harvard_os161_operating.Bitmap.Valid.{
  IsValid, bit_of, is_used, is_used-set_bit, is_used-clear_bit, set_bit-IsValid, clear_bit-IsValid,
}
use harvard_os161_operating.Bitmap.{Bitmap, test_bit, set_bit, clear_bit, mark, unmark, isset}

module _ {b : Bitmap} (valid : IsValid b) (i : ℕ) (below : i < b.nbits) where
  -- `bitmap_mark` of a free number marks it, and no other.
  pub mark_lem :
      is_used b.v i ≡ false
      → (b' : Bitmap) × (mark b i ≡ some b')
        × IsValid b'
        × (b'.nbits ≡ b.nbits)
        × ((j : ℕ) → is_used b'.v j ≡ (if i == j then true else is_used b.v j))
  unfolding mark
  mark_lem free =
      let lt : i / 8 < length b.v = omega (arith, valid.block) in
      let (w, here) = get_elem?-some b.v (i / 8) lt in
      let free' : test_bit w (i % 8) ≡ false = ap (λ c. bit_of c (i % 8)) (sym here) ∙ free in
      (
        record b { v = set b.v (i / 8) (set_bit w (i % 8)) },
        rw (lt→ltb i b.nbits below, here, free', lt→ltb (i / 8) (length b.v) lt) refl,
        set_bit-IsValid i w valid here lt,
        refl,
        λ j. is_used-set_bit b.v i w j here (valid.bytes (i / 8) w here) lt,
      )

  -- The assertions of `bitmap_mark` and `bitmap_unmark` stop a number that is marked already, and
  -- one that is free already.
  pub mark_used : is_used b.v i ≡ true → mark b i ≡ none
  unfolding mark
  mark_used used =
      let lt : i / 8 < length b.v = omega (arith, valid.block) in
      let (w, here) = get_elem?-some b.v (i / 8) lt in
      let used' : test_bit w (i % 8) ≡ true = ap (λ c. bit_of c (i % 8)) (sym here) ∙ used in
      rw (lt→ltb i b.nbits below, here, used') refl

  pub unmark_free : is_used b.v i ≡ false → unmark b i ≡ none
  unfolding unmark
  unmark_free free =
      let lt : i / 8 < length b.v = omega (arith, valid.block) in
      let (w, here) = get_elem?-some b.v (i / 8) lt in
      let free' : test_bit w (i % 8) ≡ false = ap (λ c. bit_of c (i % 8)) (sym here) ∙ free in
      rw (lt→ltb i b.nbits below, here, free') refl

  -- `bitmap_unmark` of a marked number frees it, and no other.
  pub unmark_lem :
      is_used b.v i ≡ true
      → (b' : Bitmap) × (unmark b i ≡ some b')
        × IsValid b'
        × (b'.nbits ≡ b.nbits)
        × ((j : ℕ) → is_used b'.v j ≡ (if i == j then false else is_used b.v j))
  unfolding unmark
  unmark_lem used =
      let lt : i / 8 < length b.v = omega (arith, valid.block) in
      let (w, here) = get_elem?-some b.v (i / 8) lt in
      let used' : test_bit w (i % 8) ≡ true = ap (λ c. bit_of c (i % 8)) (sym here) ∙ used in
      (
        record b { v = set b.v (i / 8) (clear_bit w (i % 8)) },
        rw (lt→ltb i b.nbits below, here, used', lt→ltb (i / 8) (length b.v) lt) refl,
        clear_bit-IsValid i w valid below here lt,
        refl,
        λ j. is_used-clear_bit b.v i w j here (valid.bytes (i / 8) w here) lt,
      )

  -- Inside the bitmap `bitmap_isset` reads the bit.
  pub isset_lem : isset b i ≡ some (is_used b.v i)
  unfolding isset
  isset_lem =
      let (w, here) = get_elem?-some b.v (i / 8) (omega (arith, valid.block)) in rw here refl

  -- Marking a free number and freeing it again gives the bitmap back.
  pub unmark-mark : is_used b.v i ≡ false → (mark b i >>= λ b'. unmark b' i) ≡ some b
  unfolding mark unmark
  unmark-mark free =
      let lt : i / 8 < length b.v = omega (arith, valid.block) in
      let (w, here) = get_elem?-some b.v (i / 8) lt in
      let hw : w < 256 = valid.bytes (i / 8) w here in
      let free' : test_bit w (i % 8) ≡ false = ap (λ c. bit_of c (i % 8)) (sym here) ∙ free in
      let now : test_bit (set_bit w (i % 8)) (i % 8) ≡ true =
        test-set w (i % 8) (i % 8) hw (omega arith) (omega arith)
        ∙ rw (eq→== (i % 8) (i % 8) refl) refl in
      rw
        (
          lt→ltb i b.nbits below,
          here,
          free',
          lt→ltb (i / 8) (length b.v) lt,
          get_elem?-set_self b.v (i / 8) (set_bit w (i % 8)) lt,
          now,
          length-set b.v (i / 8) (set_bit w (i % 8)),
          lt→ltb (i / 8) (length b.v) lt,
          clear-set w (i % 8) hw (omega arith) free',
          set-set b.v (i / 8) (set_bit w (i % 8)) w,
          set-get b.v (i / 8) here,
        )
        (rw (lt→ltb i b.nbits below) refl)
