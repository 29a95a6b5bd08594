-- ===== src/Kheap/NewPage.antt =====
-- The heap of kern/lib/kheap.c with a new page.
use mathlib.Core.Path.{subst}
use harvard_os161_operating.Prelude.{
  ℕ, suc, ◌+◌, ◌-◌, ◌/◌, ◌≤◌, ◌<◌, ◌≡◌, refl, sym, ap, ◌∙◌, ◌≢◌, ◌⊎◌, inl, inr, true, false, ◌&&◌,
  ◌||◌, some, List, ◌∷◌, arith, ◌==◌, ==→eq, eq→==, ne→==, ==→ne, Bool-cases,
}
use harvard_os161_operating.Kheap.{Kheap, size_of, pr_pageaddr, pr_blocktype, store_at, new_page}
use harvard_os161_operating.Kheap.Sizes.{size_bounds, block_end}
use harvard_os161_operating.Kheap.Lists.{store_at_self, store_at_ne, has, Distinct}
use harvard_os161_operating.Kheap.Chain.{
  Linked, Links, count_down, length-count_down, count_down-Distinct, count_down-AllBelow,
  FreeList-count_down, link_page,
}
use harvard_os161_operating.Kheap.Valid.{IsPage, IsKheap, IsPage-at, IsPage-frame, pages_disjoint}
use harvard_os161_operating.Kheap.Fresh.{
  IsFresh, new_page_runs, fresh_pageref, pageaddr-fresh, blocktype-fresh,
}

-- The heap with the new page `p`.
module _ {k : Kheap} {free : ℕ → List ℕ} (v : IsKheap k free) (p page t : ℕ) (typed : t < 8)
    (small : p < 256) (absent : has p k.allbase ≡ false) (fresh : IsFresh k page) where
  abbrev pub with_page : (ℕ → ℕ) → Kheap
  with_page mem = record {
    mem = mem;
    pagerefs = store_at k.pagerefs p (fresh_pageref page t);
    pagerefs_inuse = store_at k.pagerefs_inuse p true;
    sizebases = store_at k.sizebases t (p ∷ k.sizebases t);
    allbase = p ∷ k.allbase;
  }

  addr : pr_pageaddr (fresh_pageref page t) ≡ page
  addr = pageaddr-fresh page t typed fresh.aligned

  type : pr_blocktype (fresh_pageref page t) ≡ t
  type = blocktype-fresh page t typed fresh.aligned

  fresh-IsPage :
      (mem : ℕ → ℕ) (fl : ℕ)
      → Linked t page (4096 / size_of t - 1) fl k.mem mem
      → IsPage mem (fresh_pageref page t) (count_down (4096 / size_of t))
  fresh-IsPage mem fl l =
      let n : ℕ = 4096 / size_of t in
      let same : suc (n - 1) ≡ n = omega (arith, size_bounds t typed) in
      IsPage-at mem (fresh_pageref page t) (count_down n) page t addr type typed fresh.low
        fresh.high
        (FreeList-count_down mem page (size_of t) n fl (omega (arith, size_bounds t typed))
          (subst (λ m. Links mem page (size_of t) (count_down m) fl) same l.links))
        (count_down-AllBelow n) (count_down-Distinct n) (sym (length-count_down n))

  other-IsPage :
      (mem : ℕ → ℕ) (q : ℕ)
      → ((a : ℕ) → (a < page) ⊎ (page + 4096 ≤ a) → mem a ≡ k.mem a)
      → has q k.allbase ≡ true
      → IsPage mem (k.pagerefs q) (free q)
  other-IsPage mem q spared m =
      IsPage-frame
        (λ a low high. spared a (
          outside a low high
            (pages_disjoint (k.pagerefs q) (fresh_pageref page t) (λ e. fresh.new q m (e ∙ addr)))))
        (v.pages q m)
    where
      outside :
          (a : ℕ)
          → pr_pageaddr (k.pagerefs q) ≤ a
          → a < pr_pageaddr (k.pagerefs q) + 4096
          → (pr_pageaddr (k.pagerefs q) + 4096 ≤ pr_pageaddr (fresh_pageref page t))
            ⊎ (pr_pageaddr (fresh_pageref page t) + 4096 ≤ pr_pageaddr (k.pagerefs q))
          → (a < page) ⊎ (page + 4096 ≤ a)
      outside a low high (inl beneath) = inl (omega (arith, addr))
      outside a low high (inr above) = inr (omega (arith, addr))

  sized_new :
      (u : ℕ)
      → u < 8
      → has p (store_at k.sizebases t (p ∷ k.sizebases t) u) ≡ (
          ((p == p) || has p k.allbase)
          && (pr_blocktype (store_at k.pagerefs p (fresh_pageref page t) p) == u))
  sized_new u lt = elim (Bool-cases (u == t)) [
    | inl this ↦
        rw
          (
            ==→eq u t this,
            store_at_self k.sizebases t (p ∷ k.sizebases t),
            store_at_self k.pagerefs p (fresh_pageref page t),
            type,
            eq→== p p refl,
            eq→== t t refl,
          )
          refl
    | inr other ↦
        rw
          (
            store_at_ne k.sizebases t u (p ∷ k.sizebases t) (==→ne u t other),
            store_at_self k.pagerefs p (fresh_pageref page t),
            type,
            eq→== p p refl,
            ne→== t u (λ e. ==→ne u t other (sym e)),
            v.sized u p lt,
            absent,
          )
          refl
  ]

  sized_old :
      (u q : ℕ)
      → u < 8
      → (q == p) ≡ false
      → has q (store_at k.sizebases t (p ∷ k.sizebases t) u) ≡ (
          ((q == p) || has q k.allbase)
          && (pr_blocktype (store_at k.pagerefs p (fresh_pageref page t) q) == u))
  sized_old u q lt old =
      rw (old, store_at_ne k.pagerefs p q (fresh_pageref page t) (==→ne q p old))
        (elim (Bool-cases (u == t)) [
          | inl this ↦
              rw (==→eq u t this, store_at_self k.sizebases t (p ∷ k.sizebases t), old)
                (v.sized t q typed)
          | inr other ↦
              rw (store_at_ne k.sizebases t u (p ∷ k.sizebases t) (==→ne u t other))
                (v.sized u q lt)
        ])

  sized_with :
      (u q : ℕ)
      → u < 8
      → has q (store_at k.sizebases t (p ∷ k.sizebases t) u) ≡ (
          ((q == p) || has q k.allbase)
          && (pr_blocktype (store_at k.pagerefs p (fresh_pageref page t) q) == u))
  sized_with u q lt = elim (Bool-cases (q == p)) [
    | inl new ↦ rw (==→eq q p new) (sized_new u lt)
    | inr old ↦ sized_old u q lt old
  ]

  sizebases-Distinct : (u : ℕ) → u < 8 → Distinct (store_at k.sizebases t (p ∷ k.sizebases t) u)
  sizebases-Distinct u lt = elim (Bool-cases (u == t)) [
    | inl this ↦
        rw (==→eq u t this, store_at_self k.sizebases t (p ∷ k.sizebases t))
          (
            v.sized t p typed ∙ ap (λ b. b && (pr_blocktype (k.pagerefs p) == t)) absent,
            v.sizes_distinct t typed,
          )
    | inr other ↦
        rw (store_at_ne k.sizebases t u (p ∷ k.sizebases t) (==→ne u t other))
          (v.sizes_distinct u lt)
  ]

  at-IsPage :
      (mem : ℕ → ℕ) (fl : ℕ)
      → Linked t page (4096 / size_of t - 1) fl k.mem mem
      → (q : ℕ) → ((q == p) || has q k.allbase) ≡ true
      → IsPage mem
          (store_at k.pagerefs p (fresh_pageref page t) q)
          (store_at free p (count_down (4096 / size_of t)) q)
  at-IsPage mem fl l q m = elim (Bool-cases (q == p)) [
    | inl this ↦
        rw
          (
            ==→eq q p this,
            store_at_self k.pagerefs p (fresh_pageref page t),
            store_at_self free p (count_down (4096 / size_of t)),
          )
          (fresh-IsPage mem fl l)
    | inr other ↦
        rw
          (
            store_at_ne k.pagerefs p q (fresh_pageref page t) (==→ne q p other),
            store_at_ne free p q (count_down (4096 / size_of t)) (==→ne q p other),
          )
          (other-IsPage mem q l.outside (ground arith))
  ]

  addr_of :
      (q : ℕ)
      → q ≢ p
      → pr_pageaddr (store_at k.pagerefs p (fresh_pageref page t) q) ≡ pr_pageaddr (k.pagerefs q)
  addr_of q ne = ap pr_pageaddr (store_at_ne k.pagerefs p q (fresh_pageref page t) ne)

  addr_new : pr_pageaddr (store_at k.pagerefs p (fresh_pageref page t) p) ≡ page
  addr_new = ap pr_pageaddr (store_at_self k.pagerefs p (fresh_pageref page t)) ∙ addr

  apart_with :
      (q r : ℕ)
      → ((q == p) || has q k.allbase) ≡ true
      → ((r == p) || has r k.allbase) ≡ true
      → q ≢ r
      → pr_pageaddr (store_at k.pagerefs p (fresh_pageref page t) q)
        ≢ pr_pageaddr (store_at k.pagerefs p (fresh_pageref page t) r)
  apart_with q r mq mr ne e = elim (Bool-cases (q == p)) [
    | inl this ↦
        let other : r ≢ p = λ e'. ne (==→eq q p this ∙ sym e') in
        fresh.new r (ground (arith, other)) (
          sym (addr_of r other)
          ∙ (sym e
              ∙ (ap (λ x. pr_pageaddr (store_at k.pagerefs p (fresh_pageref page t) x))
                    (==→eq q p this)
                  ∙ addr_new)))
    | inr first ↦ elim (Bool-cases (r == p)) [
      | inl this ↦ fresh.new q (ground arith) (
          sym (addr_of q (==→ne q p first))
          ∙ (e
              ∙ (ap (λ x. pr_pageaddr (store_at k.pagerefs p (fresh_pageref page t) x))
                    (==→eq r p this)
                  ∙ addr_new)))
      | inr second ↦
          v.apart q r (ground arith) (ground arith) ne
            (sym (addr_of q (==→ne q p first)) ∙ (e ∙ addr_of r (==→ne r p second)))
    ]
  ]

  in_use_with :
      (q : ℕ) → q < 256 → store_at k.pagerefs_inuse p true q ≡ ((q == p) || has q k.allbase)
  unfolding store_at
  in_use_with q lt = ground (arith, v.in_use q lt)

  bound_with : (q : ℕ) → ((q == p) || has q k.allbase) ≡ true → q < 256
  bound_with q m = ground (arith, v.bound q, ==→eq q p)

  pub with_page-IsKheap :
      (mem : ℕ → ℕ) (fl : ℕ)
      → Linked t page (4096 / size_of t - 1) fl k.mem mem
      → IsKheap (with_page mem) (store_at free p (count_down (4096 / size_of t)))
  with_page-IsKheap mem fl l = record {
    pages = at-IsPage mem fl l;
    apart = apart_with;
    distinct = (absent, v.distinct);
    bound = bound_with;
    in_use = in_use_with;
    sized = sized_with;
    sizes_distinct = sizebases-Distinct;
  }

  -- `new_page` on the heap in which the pageref is taken.
  pub new_page_lem :
      (mem : ℕ → ℕ) × (new_page p page t
          (record k { pagerefs_inuse = store_at k.pagerefs_inuse p true })
        ≡ some (with_page mem))
      × IsKheap (with_page mem) (store_at free p (count_down (4096 / size_of t)))
      × ((a : ℕ) → (a < page) ⊎ (page + 4096 ≤ a) → mem a ≡ k.mem a)
  new_page_lem =
      let (fl, mem, runs, l) = link_page t page typed fresh.low fresh.high k.mem in
      (
        mem,
        new_page_runs p page t (record k { pagerefs_inuse = store_at k.pagerefs_inuse p true })
            (omega (arith, size_bounds t typed)) runs
            (omega (
              arith,
              l.end,
              block_end t typed (4096 / size_of t - 1) (omega (arith, size_bounds t typed)),
              size_bounds t typed,
              fresh.high,
            )),
        with_page-IsKheap mem fl l,
        l.outside,
      )
