-- ===== src/Kheap/PageSearch.antt =====
-- The search of `subpage_kmalloc` of kern/lib/kheap.c for a page with a free block.
use std.Path.{fun_ext}
use harvard_os161_operating.Prelude.{
  ℕ, ◌<◌, ◌≡◌, refl, inl, inr, true, false, Option, none, some, List, [], ◌∷◌, arith, ltb, ◌==◌,
  ltb→lt, ==→eq, eq→==, ==→ne, Bool-cases,
}
use harvard_os161_operating.Kheap.{Kheap, pr_blocktype, store_at, find_page}
use harvard_os161_operating.Kheap.Lists.{store_at_self, store_at_ne, has}

-- What the search through the pages of one size finds.
pub data FindPage (k : Kheap) (ps : List ℕ) : Option (Option ℕ) → Type 0 where
  exhausted : ((q : ℕ) → has q ps ≡ true → (k.pagerefs q).nfree ≡ 0) → FindPage k ps (some none)
  located : (p : ℕ) → has p ps ≡ true → 0 < (k.pagerefs p).nfree → FindPage k ps (some (some p))

pub find_page-FindPage :
    (k : Kheap) (t : ℕ) (ps : List ℕ)
    → ((q : ℕ) → has q ps ≡ true → pr_blocktype (k.pagerefs q) ≡ t)
    → FindPage k ps (find_page k t ps)
unfolding find_page
find_page-FindPage k t [] h = exhausted (λ q m. cc)
find_page-FindPage k t (p ∷ ps) h = elim (Bool-cases (ltb 0 (k.pagerefs p).nfree)) [
  | inl some_free ↦
      rw (eq→== (pr_blocktype (k.pagerefs p)) t (h p (ground arith)), some_free)
        (located p (ground arith) (ltb→lt 0 _ some_free))
  | inr none_free ↦
      rw (eq→== (pr_blocktype (k.pagerefs p)) t (h p (ground arith)), none_free)
        (later none_free (find_page k t ps) (find_page-FindPage k t ps (λ q m. h q (ground arith))))
]
  where
    later :
        ltb 0 (k.pagerefs p).nfree ≡ false
        → (r : Option (Option ℕ)) → FindPage k ps r
        → FindPage k (p ∷ ps) r
    later none_free r (exhausted all) = exhausted (λ q m. elim (Bool-cases (q == p)) [
      | inl this ↦ rw (==→eq q p this) (ground arith)
      | inr other ↦ all q (ground arith)
    ])
    later none_free r (located q m some_free) = located q (ground arith) some_free

pub store_at_twice :
    (f : ℕ → List ℕ) (p : ℕ) (xs ys : List ℕ) → store_at (store_at f p xs) p ys ≡ store_at f p ys
store_at_twice f p xs ys = fun_ext (at f p xs ys)
  where
    at :
        (f : ℕ → List ℕ) (p : ℕ) (xs ys : List ℕ) (q : ℕ)
        → store_at (store_at f p xs) p ys q ≡ store_at f p ys q
    at f p xs ys q = elim (Bool-cases (q == p)) [
      | inl this ↦
          rw (==→eq q p this, store_at_self (store_at f p xs) p ys, store_at_self f p ys) refl
      | inr other ↦
          rw
            (
              store_at_ne (store_at f p xs) p q ys (==→ne q p other),
              store_at_ne f p q ys (==→ne q p other),
              store_at_ne f p q xs (==→ne q p other),
            )
            refl
    ]
