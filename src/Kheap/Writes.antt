-- ===== src/Kheap/Writes.antt =====
-- A user of the heap of kern/lib/kheap.c writes to a block that it holds.
use mathlib.Core.Path.{subst}
use harvard_os161_operating.Prelude.{
  ℕ, ◌+◌, ◌-◌, ◌/◌, ◌≤◌, ◌<◌, ◌≡◌, sym, ap, ◌∙◌, ◌≢◌, ◌⊎◌, inl, inr, true, false, List, arith, ◌==◌,
  ==→eq, ==→ne, Bool-cases,
}
use harvard_os161_operating.Kheap.{Kheap, size_of, pr_pageaddr, pr_blocktype, store_at}
use harvard_os161_operating.Kheap.Sizes.{size_bounds, block_end, block_apart}
use harvard_os161_operating.Kheap.Lists.{store_at_ne, has, below_of_has}
use harvard_os161_operating.Kheap.Valid.{IsKheap, IsPage-spared, pages_disjoint}
use harvard_os161_operating.Kheap.Take.{block_at}
use harvard_os161_operating.Kheap.Outcomes.{InUse}
use harvard_os161_operating.Kheap.Clients.{block_size, in_page, Apart, InUse-Apart}

-- Blocks in use at the same address are the same.
pub same_block :
    {k : Kheap} {free : ℕ → List ℕ} (v : IsKheap k free) (p j q i : ℕ)
    → InUse k free p j
    → InUse k free q i
    → block_at (k.pagerefs p) j ≡ block_at (k.pagerefs q) i
    → (p ≡ q) × (j ≡ i)
same_block {k} {free} v p j q i used used' e = elim (Bool-cases (p == q)) [
  | inr other ↦ absurd (clash (InUse-Apart v p j q i used used' (inl (==→ne p q other))))
  | inl this ↦ elim (Bool-cases (j == i)) [
    | inl block ↦ (==→eq p q this, ==→eq j i block)
    | inr other ↦
        absurd (clash (InUse-Apart v p j q i used used' (inr (==→eq p q this, ==→ne j i other))))
  ]
]
  where
    clash :
        Apart
          (block_at (k.pagerefs p) j)
          (block_size (k.pagerefs p))
          (block_at (k.pagerefs q) i)
          (block_size (k.pagerefs q))
        → ⊥
    clash (inl before) =
        omega (arith, size_bounds (pr_blocktype (k.pagerefs p)) (v.pages p used.mine).typed)
    clash (inr behind) =
        omega (arith, size_bounds (pr_blocktype (k.pagerefs q)) (v.pages q used'.mine).typed)

-- A word of a block in use is written, which is what its user may do.
pub write-IsKheap :
    {k : Kheap} {free : ℕ → List ℕ} (p j x w : ℕ)
    → IsKheap k free
    → InUse k free p j
    → block_at (k.pagerefs p) j ≤ x
    → x < block_at (k.pagerefs p) j + block_size (k.pagerefs p)
    → IsKheap (record k { mem = store_at k.mem x w }) free
write-IsKheap {k} {free} p j x w v used low high = record {
  pages = λ q m.
      IsPage-spared (λ i i_free. store_at_ne k.mem x _ w (elsewhere_of q m i i_free)) (v.pages q m);
  apart = v.apart;
  distinct = v.distinct;
  bound = v.bound;
  in_use = v.in_use;
  sized = v.sized;
  sizes_distinct = v.sizes_distinct;
}
  where
    elsewhere_of :
        (q : ℕ)
        → has q k.allbase ≡ true
        → (i : ℕ) → has i (free q) ≡ true
        → block_at (k.pagerefs q) i ≢ x
    elsewhere_of q m i i_free e = elim (Bool-cases (q == p)) [
      | inl this ↦
          own_page (subst (λ y. has i (free y) ≡ true) (==→eq q p this) i_free)
            (ap (λ y. block_at (k.pagerefs y) i) (sym (==→eq q p this)) ∙ e)
      | inr other ↦
          other_page (below_of_has _ (free q) i (v.pages q m).below i_free) (
            pages_disjoint (k.pagerefs q) (k.pagerefs p)
              (v.apart q p m used.mine (==→ne q p other)))
    ]
      where
        own_page : has i (free p) ≡ true → block_at (k.pagerefs p) i ≡ x → ⊥
        own_page mine at =
            let page = v.pages p used.mine in
            let same =
              block_apart (pr_blocktype (k.pagerefs p)) page.typed j i
                (x - block_at (k.pagerefs p) j) (omega arith) (omega arith) in
            cc (subst (λ y. has y (free p) ≡ false) same used.taken, mine)

        other_page :
            i < 4096 / size_of (pr_blocktype (k.pagerefs q))
            → (pr_pageaddr (k.pagerefs q) + 4096 ≤ pr_pageaddr (k.pagerefs p))
              ⊎ (pr_pageaddr (k.pagerefs p) + 4096 ≤ pr_pageaddr (k.pagerefs q))
            → ⊥
        other_page lt (inl beneath) = omega (
          arith,
          block_end (pr_blocktype (k.pagerefs q)) (v.pages q m).typed i lt,
          size_bounds (pr_blocktype (k.pagerefs q)) (v.pages q m).typed,
        )
        other_page lt (inr above) = omega (arith, in_page v p j used)
