-- ===== src/Kheap/Serve.antt =====
-- `kmalloc` of kern/lib/kheap.c for its users.
use mathlib.Core.Path.{subst}
use harvard_os161_operating.Prelude.{
  ℕ, suc, ◌+◌, ◌*◌, ◌/◌, ◌≤◌, ◌<◌, ◌≡◌, refl, sym, ap, ◌∙◌, ◌≢◌, ◌⊎◌, inl, inr, true, false, some,
  List, ◌∷◌, arith, leb, ◌==◌, ==→eq, eq→==, ==→ne, Bool-cases,
}
use harvard_os161_operating.Kheap.{Kheap, size_of, pr_pageaddr, pr_blocktype, store_at, kmalloc}
use harvard_os161_operating.Kheap.Lists.{store_at_self, store_at_ne, has}
use harvard_os161_operating.Kheap.Chain.{count_down, has-count_down, count_down-has, place}
use harvard_os161_operating.Kheap.Valid.{
  IsPage, IsKheap, pageaddr_of_pab, blocktype_of_pab, pages_disjoint,
}
use harvard_os161_operating.Kheap.Take.{block_at}
use harvard_os161_operating.Kheap.Fresh.{IsFresh}
use harvard_os161_operating.Kheap.Alloc.{
  Scarce, Kmalloc, reuses, extends, refuses, SamePage, subpage_kmalloc-Kmalloc,
}
use harvard_os161_operating.Kheap.Outcomes.{InUse}
use harvard_os161_operating.Kheap.Clients.{Handed, block_size, in_page, keeps_use}

module _ {k : Kheap} {free : ℕ → List ℕ} (v : IsKheap k free) (sz t a : ℕ) (k' : Kheap)
    (typed : t < 8) (fits : sz ≤ size_of t) where
  served_reused :
      (p j : ℕ) (js : List ℕ)
      → has p k.allbase ≡ true
      → pr_blocktype (k.pagerefs p) ≡ t
      → free p ≡ j ∷ js
      → a ≡ block_at (k.pagerefs p) j
      → IsKheap k' (store_at free p js)
      → k'.mem ≡ k.mem
      → k'.allbase ≡ k.allbase
      → ((q : ℕ) → SamePage k k' q)
      → Handed k free sz a k'
  served_reused p j js mine type list at valid mem' all' pages' =
      let old : IsPage k.mem (k.pagerefs p) (j ∷ js) =
        subst (IsPage k.mem (k.pagerefs p)) list (v.pages p mine) in
      record {
        free' = store_at free p js;
        page = p;
        block = j;
        valid = valid;
        used = record {
          mine = rw all' mine;
          inside = rw (blocktype_of_pab (k'.pagerefs p) (k.pagerefs p) (pages' p)) old.below.0;
          taken = rw (store_at_self free p js) old.distinct.0;
        };
        at =
            rw
              (
                pageaddr_of_pab (k'.pagerefs p) (k.pagerefs p) (pages' p),
                blocktype_of_pab (k'.pagerefs p) (k.pagerefs p) (pages' p),
              )
              at;
        enough = rw (blocktype_of_pab (k'.pagerefs p) (k.pagerefs p) (pages' p), type) fits;
        new = λ u. cc (subst (λ xs. has j xs ≡ false) list u.taken, eq→== j j refl);
        others =
            λ q i u. (keeps_use q i (rw all' u.mine) (pages' q) (still q i u.taken) u, pages' q);
        only = only_taken;
        contents = λ q i x u low high. ap (λ m. m x) mem';
      }
    where
      was : (q : ℕ) → has q k'.allbase ≡ true → has q k.allbase ≡ true
      was q m = subst (λ x. has q x ≡ true) all' m

      only_taken :
          (q i : ℕ) → InUse k' (store_at free p js) q i → InUse k free q i ⊎ ((q ≡ p) × (i ≡ j))
      only_taken q i u = elim (Bool-cases (q == p)) [
        | inl this ↦ elim (Bool-cases (i == j)) [
          | inl block ↦ inr (==→eq q p this, ==→eq i j block)
          | inr other ↦ inl (
              keeps_use q i (was q u.mine) (sym (pages' q))
                (rw (==→eq q p this, list, other)
                  (subst (λ x. has i x ≡ false)
                    (ap (store_at free p js) (==→eq q p this) ∙ store_at_self free p js) u.taken))
                u)
        ]
        | inr other ↦ inl (
            keeps_use q i (was q u.mine) (sym (pages' q))
              (subst (λ x. has i x ≡ false) (store_at_ne free p q js (==→ne q p other)) u.taken) u)
      ]

      still : (q i : ℕ) → has i (free q) ≡ false → has i (store_at free p js q) ≡ false
      still q i taken = elim (Bool-cases (q == p)) [
        | inl this ↦
            rw (==→eq q p this, store_at_self free p js)
              (ground (arith, subst (λ x. has i x ≡ false) (ap free (==→eq q p this) ∙ list) taken))
        | inr other ↦ rw (store_at_ne free p q js (==→ne q p other)) taken
      ]

  served_new :
      (page p n : ℕ)
      → has p k.allbase ≡ false
      → IsFresh k page
      → suc n ≡ 4096 / size_of t
      → a ≡ page + n * size_of t
      → IsKheap k' (store_at free p (count_down n))
      → ((x : ℕ) → (x < page) ⊎ (page + 4096 ≤ x) → k'.mem x ≡ k.mem x)
      → k'.allbase ≡ p ∷ k.allbase
      → (pr_pageaddr (k'.pagerefs p) ≡ page) × (pr_blocktype (k'.pagerefs p) ≡ t)
      → ((q : ℕ) → q ≢ p → SamePage k k' q)
      → Handed k free sz a k'
  served_new page p n absent fresh count at valid outside all' (addr, type) pages' = record {
    free' = store_at free p (count_down n);
    page = p;
    block = n;
    valid = valid;
    used = record {
      mine = rw all' (ground arith);
      inside = rw type (omega arith);
      taken = rw (store_at_self free p (count_down n)) (has-count_down n n (omega arith));
    };
    at = rw (addr, type) at;
    enough = rw type fits;
    new = λ u. cc (u.mine, absent);
    others = λ q i u. (
      keeps_use q i (rw all' (ground (arith, u.mine))) (pages' q (other q u.mine))
          (rw (store_at_ne free p q (count_down n) (other q u.mine)) u.taken) u,
      pages' q (other q u.mine),
    );
    only = only_new;
    contents = λ q i x u low high. outside x (
        off q u.mine x (i * block_size (k.pagerefs q)) low (omega (arith, in_page v q i u))
          (pages_disjoint (k.pagerefs q) (k'.pagerefs p) (λ e. fresh.new q u.mine (e ∙ addr))));
  }
    where
      last : (i : ℕ) → i < 4096 / size_of t → has i (count_down n) ≡ false → i ≡ n
      last i less out = ground (arith, count_down-has n i)

      only_new :
          (q i : ℕ)
          → InUse k' (store_at free p (count_down n)) q i
          → InUse k free q i ⊎ ((q ≡ p) × (i ≡ n))
      only_new q i u = elim (Bool-cases (q == p)) [
        | inl this ↦ inr (
          ==→eq q p this,
          last i
              (subst (λ x. i < 4096 / size_of x)
                (ap (λ x. pr_blocktype (k'.pagerefs x)) (==→eq q p this) ∙ type) u.inside)
              (subst (λ x. has i x ≡ false)
                (ap (store_at free p (count_down n)) (==→eq q p this)
                  ∙ store_at_self free p (count_down n))
                u.taken),
        )
        | inr away ↦ inl (
            keeps_use q i (ground (arith, subst (λ x. has q x ≡ true) all' u.mine))
              (sym (pages' q (==→ne q p away)))
              (subst (λ x. has i x ≡ false) (store_at_ne free p q (count_down n) (==→ne q p away))
                u.taken)
              u)
      ]

      other : (q : ℕ) → has q k.allbase ≡ true → q ≢ p
      other q m e = cc (subst (λ x. has x k.allbase ≡ true) e m, absent)

      off :
          (q : ℕ)
          → has q k.allbase ≡ true
          → (x o : ℕ) → pr_pageaddr (k.pagerefs q) + o ≤ x
          → x < pr_pageaddr (k.pagerefs q) + 4096
          → (pr_pageaddr (k.pagerefs q) + 4096 ≤ pr_pageaddr (k'.pagerefs p))
            ⊎ (pr_pageaddr (k'.pagerefs p) + 4096 ≤ pr_pageaddr (k.pagerefs q))
          → (x < page) ⊎ (page + 4096 ≤ x)
      off q m x o low high (inl below) = inl (omega (arith, addr))
      off q m x o low high (inr above) = inr (omega (arith, addr))

-- What `kmalloc` returns for fewer than 2048 bytes: NULL, with the heap as it was, and then
-- `alloc_kpages` had no page or all pagerefs are in use; or a block that was not in use and is large
-- enough, and every block in use keeps its place and its contents.
pub kmalloc-Handed :
    {k : Kheap} {free : ℕ → List ℕ} (alloc_kpages : ℕ → ℕ) (sz : ℕ)
    → IsKheap k free
    → (alloc_kpages 1 ≡ 0) ⊎ IsFresh k (alloc_kpages 1)
    → sz < 2048
    → (a : ℕ) × (k' : Kheap) × (kmalloc alloc_kpages sz k ≡ some (a, k'))
      × (((a ≡ 0) × (k' ≡ k) × Scarce k (alloc_kpages 1)) ⊎ Handed k free sz a k')
unfolding kmalloc
kmalloc-Handed {k} {free} alloc_kpages sz v supply small =
    let (t, a, k', runs, fits, outcome) =
      subpage_kmalloc-Kmalloc (alloc_kpages 1) sz v supply (omega arith) in
    (a, k', rw (lt→leb_false sz small) runs, go t a k' fits.typed fits.enough outcome)
  where
    lt→leb_false : (sz : ℕ) → sz < 2048 → leb 2048 sz ≡ false
    lt→leb_false sz h = ground arith

    go :
        (t a : ℕ) (k' : Kheap)
        → t < 8
        → sz ≤ size_of t
        → Kmalloc k free (alloc_kpages 1) t a k'
        → ((a ≡ 0) × (k' ≡ k) × Scarce k (alloc_kpages 1)) ⊎ Handed k free sz a k'
    go t a k' typed fits (reuses p j js mine type list at valid mem' all' pages') =
        inr (served_reused v sz t a k' typed fits p j js mine type list at valid mem' all' pages')
    go t a k' typed fits
          (extends p n none_free absent fresh count at valid outside all' place pages') =
        inr (
          served_new v sz t a k' typed fits (alloc_kpages 1) p n absent fresh count at valid outside
            all' place pages')
    go t a k' typed fits (refuses none_free why null same_heap) = inl (null, same_heap, why)
