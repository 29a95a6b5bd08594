-- ===== src/Kheap/Pagerefs.antt =====
-- `allocpageref` and `freepageref` of kern/lib/kheap.c.
use mathlib.Core.Path.{subst}
use std.Path.{fun_ext}
use harvard_os161_operating.Prelude.{
  ℕ, zero, suc, ◌+◌, ◌-◌, ◌*◌, ◌/◌, ◌%◌, ◌≤◌, ◌<◌, ◌≡◌, refl, ap, ◌∙◌, ◌≢◌, inl, inr, Bool, true,
  false, Option, none, some, arith, ltb, ◌==◌, ltb→lt, lt→ltb, ==→eq, ==→ne, Bool-cases,
}
use harvard_os161_operating.Kheap.{Kheap, store_at, is_full, find_bit, find_word, freepageref}
use harvard_os161_operating.Kheap.Lists.{store_at_self}

is_full-used :
    (inuse : ℕ → Bool) (i n j : ℕ) → is_full inuse i n ≡ true → j < n → inuse (i * 32 + j) ≡ true
unfolding is_full
is_full-used inuse i zero j full h = elim h [ ]
is_full-used inuse i (suc n) j full h = elim (Bool-cases (j == n)) [
  | inl last ↦ rw (==→eq j n last) (ground arith)
  | inr earlier ↦ ground (arith, is_full-used inuse i n j, ==→ne j n earlier)
]

is_full-spare :
    (inuse : ℕ → Bool) (i n : ℕ)
    → is_full inuse i n ≡ false
    → (j : ℕ) × (j < n) × (inuse (i * 32 + j) ≡ false)
unfolding is_full
is_full-spare inuse i zero h = cc
is_full-spare inuse i (suc n) h = elim (Bool-cases (inuse (i * 32 + n))) [
  | inl used ↦
      let (j, lt, unused) = is_full-spare inuse i n (ground arith) in (j, omega arith, unused)
  | inr unused ↦ (n, omega arith, unused)
]

find_bit_lem :
    (inuse : ℕ → Bool) (i n j m : ℕ)
    → j ≤ m
    → m < j + n
    → inuse (i * 32 + m) ≡ false
    → (p : ℕ) × (find_bit inuse i n j ≡ some p) × (inuse p ≡ false) × (p < i * 32 + (j + n))
unfolding find_bit
find_bit_lem inuse i zero j m low high unused = absurd (omega arith)
find_bit_lem inuse i (suc n) j m low high unused = elim (Bool-cases (inuse (i * 32 + j))) [
  | inr here ↦ rw here (i * 32 + j, refl, here, omega arith)
  | inl used ↦
      let ne : j ≢ m = λ e. cc (subst (λ x. inuse (i * 32 + x) ≡ true) e used) in
      let (p, runs, free, lt) =
        find_bit_lem inuse i n (j + 1) m (omega (arith, ne)) (omega arith) unused in
      rw used (p, runs, free, omega arith)
]

-- All pagerefs from word `i` on are in use, or the result is one that is not.
pub data FindWord (inuse : ℕ → Bool) (n i : ℕ) : Option (Option ℕ) → Type 0 where
  all_used :
      ((q : ℕ) → i * 32 ≤ q → q < (i + n) * 32 → inuse q ≡ true) → FindWord inuse n i (some none)
  unused : (p : ℕ) → inuse p ≡ false → p < (i + n) * 32 → FindWord inuse n i (some (some p))

word_used :
    (inuse : ℕ → Bool) (i q : ℕ)
    → is_full inuse i 32 ≡ true
    → i * 32 ≤ q
    → q < (i + 1) * 32
    → inuse q ≡ true
word_used inuse i q full low high =
    ap inuse (omega arith) ∙ is_full-used inuse i 32 (q - i * 32) full (omega arith)

pub find_word-FindWord : (inuse : ℕ → Bool) (n i : ℕ) → FindWord inuse n i (find_word inuse n i)
unfolding find_word
find_word-FindWord inuse zero i = all_used (λ q low high. absurd (omega arith))
find_word-FindWord inuse (suc n) i = elim (Bool-cases (is_full inuse i 32)) [
  | inl full ↦ rw full (later full (find_word inuse n (i + 1)) (find_word-FindWord inuse n (i + 1)))
  | inr spare ↦
      let (j, lt, free) = is_full-spare inuse i 32 spare in
      let (p, runs, free', high) = find_bit_lem inuse i 32 0 j (omega arith) (omega arith) free in
      rw (spare, runs) (unused p free' (omega arith))
]
  where
    later :
        is_full inuse i 32 ≡ true
        → (r : Option (Option ℕ)) → FindWord inuse n (i + 1) r
        → FindWord inuse (suc n) i r
    later full r (all_used used) = all_used (λ q low high.
        elim (Bool-cases (ltb q ((i + 1) * 32))) [
          | inl first ↦ word_used inuse i q full low (ltb→lt q ((i + 1) * 32) first)
          | inr rest ↦ used q (ground arith) (omega arith)
        ])
    later full r (unused p free high) = unused p free (omega arith)

pub freepageref_lem :
    (p : ℕ) (k : Kheap)
    → p < 256
    → k.pagerefs_inuse p ≡ true
    → freepageref p k ≡ some (record k { pagerefs_inuse = store_at k.pagerefs_inuse p false })
unfolding freepageref
freepageref_lem p k small used =
    let same : p / 32 * 32 + p % 32 ≡ p = omega arith in rw (same, lt→ltb p 256 small, used) refl

store_at_back :
    (f : ℕ → Bool) (p : ℕ) → f p ≡ false → (q : ℕ) → store_at (store_at f p true) p false q ≡ f q
unfolding store_at
store_at_back f p free q = ground (arith, ==→eq q p)

-- Giving a pageref back that was just taken leaves the heap as it was.
pub freepageref-taken :
    (p : ℕ) (k : Kheap)
    → p < 256
    → k.pagerefs_inuse p ≡ false
    → freepageref p (record k { pagerefs_inuse = store_at k.pagerefs_inuse p true }) ≡ some k
freepageref-taken p k small free =
    freepageref_lem p (record k { pagerefs_inuse = store_at k.pagerefs_inuse p true }) small
      (store_at_self k.pagerefs_inuse p true)
    ∙ ap (λ f. some (record k { pagerefs_inuse = f }))
        (fun_ext (store_at_back k.pagerefs_inuse p free))
