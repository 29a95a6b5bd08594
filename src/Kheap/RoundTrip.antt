-- ===== src/Kheap/RoundTrip.antt =====
-- `kfree` of what `kmalloc` of kern/lib/kheap.c returned.
use mathlib.Core.Path.{subst}
use harvard_os161_operating.Prelude.{
  ℕ, ◌+◌, ◌-◌, ◌*◌, ◌/◌, ◌%◌, ◌^◌, ◌≤◌, ◌<◌, ◌≡◌, refl, sym, ap, ◌∙◌, ◌≢◌, ◌⊎◌, inl, inr, true,
  some, List, [], ◌∷◌, arith, ◌==◌, le→leb, ==→eq, eq→==, ne→==, ==→ne, Bool-cases,
}
use harvard_os161_operating.Process.Change.{bind_some}
use harvard_os161_operating.Kheap.{Kheap, pr_pageaddr, kmalloc, kfree}
use harvard_os161_operating.Kheap.Lists.{has}
use harvard_os161_operating.Kheap.Valid.{IsKheap, pageaddr_of_pab, blocktype_of_pab}
use harvard_os161_operating.Kheap.Take.{block_at}
use harvard_os161_operating.Kheap.Fresh.{IsFresh}
use harvard_os161_operating.Kheap.Alloc.{Scarce, SamePage}
use harvard_os161_operating.Kheap.Outcomes.{InUse}
use harvard_os161_operating.Kheap.Freed.{subpage_kfree-elsewhere}
use harvard_os161_operating.Kheap.Clients.{Handed, block_size}
use harvard_os161_operating.Kheap.Serve.{kmalloc-Handed}
use harvard_os161_operating.Kheap.Release.{Released, Differ, kfree-Released}
use harvard_os161_operating.Kheap.Pointers.{same_result}

-- The same blocks are in use as before, with the same contents.
pub record Restored (k : Kheap) (free : ℕ → List ℕ) (k' : Kheap) : Type 0 where
  pub free' : ℕ → List ℕ
  pub valid : IsKheap k' free'
  pub still : (q i : ℕ) → InUse k free q i → InUse k' free' q i × SamePage k k' q
  pub only : (q i : ℕ) → InUse k' free' q i → InUse k free q i
  pub contents :
      (q i x : ℕ)
      → InUse k free q i
      → block_at (k.pagerefs q) i ≤ x
      → x < block_at (k.pagerefs q) i + block_size (k.pagerefs q)
      → k'.mem x ≡ k.mem x

module _ {k : Kheap} {free : ℕ → List ℕ} {sz a : ℕ} {k' : Kheap}
    (handed : Handed k free sz a k') where
  differs : (q i : ℕ) → InUse k free q i → Differ q i handed.page handed.block
  differs q i u = elim (Bool-cases (q == handed.page)) [
    | inr other ↦ inl (==→ne q handed.page other)
    | inl this ↦ elim (Bool-cases (i == handed.block)) [
      | inr other ↦ inr (==→eq q handed.page this, ==→ne i handed.block other)
      | inl block ↦ absurd (
          handed.new (
            subst (λ x. InUse k free x handed.block) (==→eq q handed.page this)
              (subst (λ x. InUse k free q x) (==→eq i handed.block block) u)))
    ]
  ]

  restores :
      {pages : List ℕ} {k'' : Kheap}
      → Released k' handed.free' handed.page handed.block pages k''
      → Restored k free k''
  restores {pages} {k''} released = record {
    free' = released.free';
    valid = released.valid;
    still = λ q i u.
        let (u', same_page) = handed.others q i u in
        let (u'', same_page') = released.others q i (differs q i u) u' in
        (u'', same_page' ∙ same_page);
    only = λ q i u. was_used q i u (handed.only q i (released.only q i u));
    contents = λ q i x u low high.
        let (u', same_page) = handed.others q i u in
        let addr = pageaddr_of_pab (k'.pagerefs q) (k.pagerefs q) same_page in
        let type = blocktype_of_pab (k'.pagerefs q) (k.pagerefs q) same_page in
        released.contents q i x (differs q i u) u' (rw (addr, type) low) (rw (addr, type) high)
        ∙ handed.contents q i x u low high;
  }
    where
      was_used :
          (q i : ℕ)
          → InUse k'' released.free' q i
          → InUse k free q i ⊎ ((q ≡ handed.page) × (i ≡ handed.block))
          → InUse k free q i
      was_used q i u (inl old) = old
      was_used q i u (inr (e, e')) = absurd (
          released.gone (
            subst (λ x. InUse k'' released.free' x handed.block) e
              (subst (λ x. InUse k'' released.free' q x) e' u)))

-- If `kmalloc` of fewer than 2048 bytes returned a pointer, `kfree` of it fails no assertion and the
-- same blocks are in use as before, in the same places with the same contents.
pub kfree-kmalloc :
    {k : Kheap} {free : ℕ → List ℕ} (alloc_kpages : ℕ → ℕ) (sz a : ℕ) {k' : Kheap}
    → IsKheap k free
    → (alloc_kpages 1 ≡ 0) ⊎ IsFresh k (alloc_kpages 1)
    → sz < 2048
    → kmalloc alloc_kpages sz k ≡ some (a, k')
    → a ≢ 0
    → (pages : List ℕ) × (k'' : Kheap) × (kfree a k' ≡ some (pages, k'')) × Restored k free k''
kfree-kmalloc {k} {free} alloc_kpages sz a {k'} v supply small runs not_null =
    let (b, k1, runs', outcome) = kmalloc-Handed alloc_kpages sz v supply small in
    let (e, e') = same_result runs' runs in go outcome e e'
  where
    go :
        {b : ℕ} {k1 : Kheap}
        → ((b ≡ 0) × (k1 ≡ k) × Scarce k (alloc_kpages 1)) ⊎ Handed k free sz b k1
        → b ≡ a
        → k1 ≡ k'
        → (pages : List ℕ) × (k'' : Kheap) × (kfree a k' ≡ some (pages, k'')) × Restored k free k''
    go (inl null) e e' = absurd (not_null (sym e ∙ null.0))
    go {b} {k1} (inr handed) e e' =
        let (pages, k'', runs', released) =
          kfree-Released handed.page handed.block handed.valid handed.used in
        (
          pages,
          k'',
          ap (λ x. kfree x k') (sym e ∙ handed.at)
              ∙ (ap (λ h. kfree (block_at (k1.pagerefs handed.page) handed.block) h) (sym e')
                  ∙ runs'),
          restores handed released,
        )

-- A request of 2048 bytes or more, where rounding it up does not wrap, gets enough whole pages from
-- `alloc_kpages`; if they are none of the heap's, `kfree` gives them to `free_kpages`. The heap stays
-- as it is.
pub kfree-kmalloc_large :
    {k : Kheap} {free : ℕ → List ℕ} (alloc_kpages : ℕ → ℕ) (sz n : ℕ)
    → IsKheap k free
    → 2048 ≤ sz
    → sz + 4095 < 2 ^ 32
    → n ≡ (sz + 4095) / 4096
    → alloc_kpages n % 4096 ≡ 0
    → alloc_kpages n ≢ 0
    → ((q : ℕ)
        → has q k.allbase ≡ true
        → (alloc_kpages n < pr_pageaddr (k.pagerefs q))
          ⊎ (pr_pageaddr (k.pagerefs q) + 4096 ≤ alloc_kpages n))
    → (kmalloc alloc_kpages sz k ≡ some (alloc_kpages n, k))
      × (sz ≤ n * 4096)
      × (kfree (alloc_kpages n) k ≡ some (alloc_kpages n ∷ [], k))
unfolding kmalloc kfree
kfree-kmalloc_large {k} alloc_kpages sz n v large small count aligned not_null off =
    let pages : (sz + 4096 - 1) % 2 ^ 32 / 4096 ≡ n = omega arith in
    (
      rw (le→leb 2048 sz large, pages) refl,
      omega arith,
      rw (ne→== (alloc_kpages n) 0 not_null) (
          bind_some _ (subpage_kfree-elsewhere (alloc_kpages n) v off)
          ∙ rw (eq→== _ 0 aligned) refl),
    )
