-- ===== src/Kheap/Valid.antt =====
-- When the heap of kern/lib/kheap.c is well formed, and with which free blocks.
use harvard_os161_operating.Prelude.{
  ℕ, ◌+◌, ◌*◌, ◌/◌, ◌%◌, ◌^◌, ◌≤◌, ◌<◌, ◌≡◌, sym, ap, ◌∙◌, ◌≢◌, ◌⊎◌, inl, inr, true, ◌&&◌, List,
  arith, ltb, ◌==◌, ltb→lt, ==→eq, ==→ne, Bool-cases, length,
}
use harvard_os161_operating.Kheap.{Pageref, Kheap, size_of, pr_pageaddr, pr_blocktype, store_at}
use harvard_os161_operating.Kheap.Sizes.{size_bounds, block_end}
use harvard_os161_operating.Kheap.Lists.{
  store_at_self, store_at_ne, has, Distinct, AllBelow, below_of_has,
}
use harvard_os161_operating.Kheap.Chain.{FreeList, FreeList-frame}

-- A page and its pageref, with the numbers of its free blocks in the order of the list.
pub record IsPage (mem : ℕ → ℕ) (pr : Pageref) (free : List ℕ) : Type 0 where
  pub typed : pr_blocktype pr < 8
  pub low : 4096 ≤ pr_pageaddr pr
  pub high : pr_pageaddr pr + 4096 < 2 ^ 32
  pub linked : FreeList mem (pr_pageaddr pr) (size_of (pr_blocktype pr)) free pr.freelist_offset
  pub below : AllBelow (4096 / size_of (pr_blocktype pr)) free
  pub distinct : Distinct free
  pub counted : pr.nfree ≡ length free

-- The heap with the free blocks of each of its pages.
pub record IsKheap (k : Kheap) (free : ℕ → List ℕ) : Type 0 where
  pub pages : (p : ℕ) → has p k.allbase ≡ true → IsPage k.mem (k.pagerefs p) (free p)
  pub apart :
      (p q : ℕ)
      → has p k.allbase ≡ true
      → has q k.allbase ≡ true
      → p ≢ q
      → pr_pageaddr (k.pagerefs p) ≢ pr_pageaddr (k.pagerefs q)
  pub distinct : Distinct k.allbase
  pub bound : (p : ℕ) → has p k.allbase ≡ true → p < 256
  pub in_use : (p : ℕ) → p < 256 → k.pagerefs_inuse p ≡ has p k.allbase
  pub sized :
      (t p : ℕ)
      → t < 8
      → has p (k.sizebases t) ≡ (has p k.allbase && (pr_blocktype (k.pagerefs p) == t))
  pub sizes_distinct : (t : ℕ) → t < 8 → Distinct (k.sizebases t)

-- The address and the type of a page are those that its word holds.
pub pageaddr_of_pab :
    (x y : Pageref)
    → x.pageaddr_and_blocktype ≡ y.pageaddr_and_blocktype
    → pr_pageaddr x ≡ pr_pageaddr y
unfolding pr_pageaddr
pageaddr_of_pab x y e = ap (λ w. w / 4096 * 4096) e

pub blocktype_of_pab :
    (x y : Pageref)
    → x.pageaddr_and_blocktype ≡ y.pageaddr_and_blocktype
    → pr_blocktype x ≡ pr_blocktype y
unfolding pr_blocktype
blocktype_of_pab x y e = ap (λ w. w % 4096) e

-- A page at a known place, of a known type.
pub IsPage-at :
    (mem : ℕ → ℕ) (pr : Pageref) (free : List ℕ) (page t : ℕ)
    → pr_pageaddr pr ≡ page
    → pr_blocktype pr ≡ t
    → t < 8
    → 4096 ≤ page
    → page + 4096 < 2 ^ 32
    → FreeList mem page (size_of t) free pr.freelist_offset
    → AllBelow (4096 / size_of t) free
    → Distinct free
    → pr.nfree ≡ length free
    → IsPage mem pr free
IsPage-at mem pr free page t addr type typed low high linked below distinct counted = record {
  typed = omega (arith, type);
  low = omega (arith, addr);
  high = omega (arith, addr);
  linked = rw (addr, type) linked;
  below = rw type below;
  distinct = distinct;
  counted = counted;
}

-- A change that spares the first words of the free blocks keeps the page.
pub IsPage-spared :
    {mem mem' : ℕ → ℕ} {pr : Pageref} {free : List ℕ}
    → ((j : ℕ)
        → has j free ≡ true
        → mem' (pr_pageaddr pr + j * size_of (pr_blocktype pr))
          ≡ mem (pr_pageaddr pr + j * size_of (pr_blocktype pr)))
    → IsPage mem pr free
    → IsPage mem' pr free
IsPage-spared {mem} {mem'} {pr} {free} spared v = record {
  typed = v.typed;
  low = v.low;
  high = v.high;
  linked =
      FreeList-frame mem mem' (pr_pageaddr pr) (size_of (pr_blocktype pr)) free _ spared v.linked;
  below = v.below;
  distinct = v.distinct;
  counted = v.counted;
}

pub IsPage-frame :
    {mem mem' : ℕ → ℕ} {pr : Pageref} {free : List ℕ}
    → ((a : ℕ) → pr_pageaddr pr ≤ a → a < pr_pageaddr pr + 4096 → mem' a ≡ mem a)
    → IsPage mem pr free
    → IsPage mem' pr free
IsPage-frame {mem} {mem'} {pr} {free} spared v =
    IsPage-spared
      (λ j m. spared (pr_pageaddr pr + j * size_of (pr_blocktype pr)) (omega arith) (
        omega (
          arith,
          block_end (pr_blocktype pr) v.typed j (below_of_has _ free j v.below m),
          size_bounds (pr_blocktype pr) v.typed,
        )))
      v

-- Different pages do not overlap.
pub pages_disjoint :
    (pr qr : Pageref)
    → pr_pageaddr pr ≢ pr_pageaddr qr
    → (pr_pageaddr pr + 4096 ≤ pr_pageaddr qr) ⊎ (pr_pageaddr qr + 4096 ≤ pr_pageaddr pr)
unfolding pr_pageaddr
pages_disjoint pr qr ne = elim (Bool-cases (ltb (pr_pageaddr pr) (pr_pageaddr qr))) [
  | inl less ↦ inl (omega (arith, ltb→lt (pr_pageaddr pr) (pr_pageaddr qr) less))
  | inr more ↦ inr (ground arith)
]

-- A change on one page, which keeps its place and its block type.
module _ {k : Kheap} {free : ℕ → List ℕ} (v : IsKheap k free) (p : ℕ)
    (mine : has p k.allbase ≡ true) (mem' : ℕ → ℕ) (pr' : Pageref) (js : List ℕ)
    (stays : pr'.pageaddr_and_blocktype ≡ (k.pagerefs p).pageaddr_and_blocktype)
    (spared : (a : ℕ)
      → (a < pr_pageaddr (k.pagerefs p)) ⊎ (pr_pageaddr (k.pagerefs p) + 4096 ≤ a)
      → mem' a ≡ k.mem a)
    (now : IsPage mem' pr' js) where
  pub same_pab :
      (q : ℕ)
      → (store_at k.pagerefs p pr' q).pageaddr_and_blocktype ≡ (k.pagerefs q).pageaddr_and_blocktype
  same_pab q = elim (Bool-cases (q == p)) [
    | inl this ↦
        rw (==→eq q p this)
          (ap (λ (x : Pageref). x.pageaddr_and_blocktype) (store_at_self k.pagerefs p pr') ∙ stays)
    | inr other ↦
        ap (λ (x : Pageref). x.pageaddr_and_blocktype)
          (store_at_ne k.pagerefs p q pr' (==→ne q p other))
  ]

  same_pageaddr : (q : ℕ) → pr_pageaddr (store_at k.pagerefs p pr' q) ≡ pr_pageaddr (k.pagerefs q)
  same_pageaddr q = pageaddr_of_pab _ _ (same_pab q)

  same_blocktype :
      (q : ℕ) → pr_blocktype (store_at k.pagerefs p pr' q) ≡ pr_blocktype (k.pagerefs q)
  same_blocktype q = blocktype_of_pab _ _ (same_pab q)

  at-IsPage :
      (q : ℕ)
      → has q k.allbase ≡ true
      → IsPage mem' (store_at k.pagerefs p pr' q) (store_at free p js q)
  at-IsPage q m = elim (Bool-cases (q == p)) [
    | inl this ↦ rw (==→eq q p this, store_at_self k.pagerefs p pr', store_at_self free p js) now
    | inr other ↦
        let ne : q ≢ p = ==→ne q p other in
        rw (store_at_ne k.pagerefs p q pr' ne, store_at_ne free p q js ne)
          (IsPage-frame
            (λ a low high. spared a (
              apart_from a low high (
                pages_disjoint (k.pagerefs p) (k.pagerefs q)
                  (v.apart p q mine m (λ e. ne (sym e))))))
            (v.pages q m))
  ]
    where
      apart_from :
          (a : ℕ)
          → pr_pageaddr (k.pagerefs q) ≤ a
          → a < pr_pageaddr (k.pagerefs q) + 4096
          → (pr_pageaddr (k.pagerefs p) + 4096 ≤ pr_pageaddr (k.pagerefs q))
            ⊎ (pr_pageaddr (k.pagerefs q) + 4096 ≤ pr_pageaddr (k.pagerefs p))
          → (a < pr_pageaddr (k.pagerefs p)) ⊎ (pr_pageaddr (k.pagerefs p) + 4096 ≤ a)
      apart_from a low high (inl above) = inr (omega arith)
      apart_from a low high (inr beneath) = inl (omega arith)

  pub replace_page :
      IsKheap (record k { mem = mem'; pagerefs = store_at k.pagerefs p pr' }) (store_at free p js)
  replace_page = record {
    pages = at-IsPage;
    apart = λ q r mq mr ne. rw (same_pageaddr q, same_pageaddr r) (v.apart q r mq mr ne);
    distinct = v.distinct;
    bound = v.bound;
    in_use = v.in_use;
    sized = λ t q lt. rw (same_blocktype q) (v.sized t q lt);
    sizes_distinct = v.sizes_distinct;
  }
