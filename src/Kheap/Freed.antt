-- ===== src/Kheap/Freed.antt =====
-- `subpage_kfree` of kern/lib/kheap.c.
use harvard_os161_operating.Prelude.{
  ℕ, ◌+◌, ◌*◌, ◌/◌, ◌≤◌, ◌<◌, ◌≡◌, refl, ap, ◌∙◌, ◌⊎◌, inl, inr, true, Option, none, some, List,
  ◌∷◌, arith, ◌==◌, if◌then◌else◌, ==→eq, ==→ne, Bool-cases, length,
}
use harvard_os161_operating.Process.Change.{bind_some}
use harvard_os161_operating.Kheap.{
  Kheap, Kfree, elsewhere, kept, gave_back, size_of, pr_pageaddr, pr_blocktype, store_at,
  find_owner, give_back, free_block, subpage_kfree,
}
use harvard_os161_operating.Kheap.Sizes.{size_bounds, block_end, block_aligned}
use harvard_os161_operating.Kheap.Lists.{has}
use harvard_os161_operating.Kheap.Valid.{
  IsKheap, blocktype_of_pab, pages_disjoint, same_pab, replace_page,
}
use harvard_os161_operating.Kheap.Take.{block_at}
use harvard_os161_operating.Kheap.Give.{without_page, give_back_runs, without_page-IsKheap}
use harvard_os161_operating.Kheap.Free.{FindOwner, nowhere, owned, find_owner-FindOwner}
use harvard_os161_operating.Kheap.Outcomes.{InUse, AfterFree, keeps, gives, freed_heap, free_runs}
use harvard_os161_operating.Kheap.Return.{freed_mem, few, freed_outside, freed_filled, freed-IsPage}
use harvard_os161_operating.Kheap.Alloc.{SamePage}

module _ {k : Kheap} {free : ℕ → List ℕ} (v : IsKheap k free) (p j : ℕ)
    (used : InUse k free p j) where
  spared :
      (x : ℕ)
      → (x < pr_pageaddr (k.pagerefs p)) ⊎ (pr_pageaddr (k.pagerefs p) + 4096 ≤ x)
      → freed_mem k.mem (k.pagerefs p) (block_at (k.pagerefs p) j) x ≡ k.mem x
  spared x out = freed_outside (v.pages p used.mine) j used.inside used.taken x (off out)
    where
      off :
          (x < pr_pageaddr (k.pagerefs p)) ⊎ (pr_pageaddr (k.pagerefs p) + 4096 ≤ x)
          → (x < block_at (k.pagerefs p) j)
            ⊎ (block_at (k.pagerefs p) j + size_of (pr_blocktype (k.pagerefs p)) ≤ x)
      off (inl low) = inl (omega arith)
      off (inr high) = inr (
          omega (
            arith,
            block_end (pr_blocktype (k.pagerefs p)) (v.pages p used.mine).typed j used.inside,
          ))

  freed-IsKheap :
      IsKheap
        (freed_heap k p
          (block_at (k.pagerefs p) j)
          (j * size_of (pr_blocktype (k.pagerefs p)))
          (length (free p) + 1))
        (store_at free p (j ∷ free p))
  freed-IsKheap =
      replace_page v p used.mine _ _ (j ∷ free p) refl spared
        (freed-IsPage (v.pages p used.mine) j used.inside used.taken)

  freed_pages :
      (q : ℕ)
      → SamePage k
          (freed_heap k p
            (block_at (k.pagerefs p) j)
            (j * size_of (pr_blocktype (k.pagerefs p)))
            (length (free p) + 1))
          q
  freed_pages =
      same_pab v p used.mine _ _ (j ∷ free p) refl spared
        (freed-IsPage (v.pages p used.mine) j used.inside used.taken)

  block_runs : free_block p (block_at (k.pagerefs p) j) k ≡ (
      if length (free p) + 1 == 4096 / size_of (pr_blocktype (k.pagerefs p))
      then give_back p (pr_pageaddr (k.pagerefs p)) (pr_blocktype (k.pagerefs p)) (
          freed_heap k p
            (block_at (k.pagerefs p) j)
            (j * size_of (pr_blocktype (k.pagerefs p)))
            (length (free p) + 1))
      else some (
        kept,
        freed_heap k p
            (block_at (k.pagerefs p) j)
            (j * size_of (pr_blocktype (k.pagerefs p)))
            (length (free p) + 1),
      ))
  block_runs =
      let page = v.pages p used.mine in
      let t : ℕ = pr_blocktype (k.pagerefs p) in
      let bounds = size_bounds t page.typed in
      let end = block_end t page.typed j used.inside in
      let room = few page j used.inside used.taken in
      free_runs p (block_at (k.pagerefs p) j) k (omega (arith, bounds, end, page.high))
        (omega (arith, bounds, end, page.high)) (omega (arith, bounds, end))
        (omega (arith, page.counted, room, bounds)) (omega (arith, bounds, end))
        (block_aligned t page.typed j) room

  -- Both cases, with what the test for a wholly free page decides.
  free_block_lem :
      (r : Kfree) × (k' : Kheap) × (free_block p (block_at (k.pagerefs p) j) k ≡ some (r, k'))
      × AfterFree k free p j r k'
  free_block_lem =
      let page = v.pages p used.mine in
      let k1 : Kheap =
        freed_heap k p (block_at (k.pagerefs p) j) (j * size_of (pr_blocktype (k.pagerefs p)))
          (length (free p) + 1) in
      let type = blocktype_of_pab _ _ (freed_pages p) in
      elim (Bool-cases (length (free p) + 1 == 4096 / size_of (pr_blocktype (k.pagerefs p)))) [
        | inr more ↦ (
          kept,
          k1,
          block_runs ∙ rw more refl,
          record {
            valid = freed-IsKheap;
            ends = keeps (ground (arith, few page j used.inside used.taken)) refl refl;
            pages = freed_pages;
            outside = freed_outside page j used.inside used.taken;
            filled = freed_filled page j used.inside used.taken;
          },
        )
        | inl all ↦ (
          gave_back (pr_pageaddr (k.pagerefs p)),
          without_page freed-IsKheap p (pr_blocktype (k.pagerefs p)) used.mine type page.typed,
          block_runs
              ∙ rw all (
                  give_back_runs freed-IsKheap p (pr_blocktype (k.pagerefs p)) used.mine type
                    page.typed (pr_pageaddr (k.pagerefs p))),
          record {
            valid =
                without_page-IsKheap freed-IsKheap p (pr_blocktype (k.pagerefs p)) used.mine type
                  page.typed;
            ends = gives (==→eq _ _ all) refl refl;
            pages = freed_pages;
            outside = freed_outside page j used.inside used.taken;
            filled = freed_filled page j used.inside used.taken;
          },
        )
      ]

  -- The page on which a block of the page `p` lies is `p`.
  pub only_owner :
      (q : ℕ)
      → has q k.allbase ≡ true
      → pr_pageaddr (k.pagerefs q) ≤ block_at (k.pagerefs p) j
      → block_at (k.pagerefs p) j < pr_pageaddr (k.pagerefs q) + 4096
      → q ≡ p
  only_owner q m low high = elim (Bool-cases (q == p)) [
    | inl this ↦ ==→eq q p this
    | inr other ↦ absurd (
        clash (
          pages_disjoint (k.pagerefs q) (k.pagerefs p) (v.apart q p m used.mine (==→ne q p other))))
  ]
    where
      clash :
          (pr_pageaddr (k.pagerefs q) + 4096 ≤ pr_pageaddr (k.pagerefs p))
            ⊎ (pr_pageaddr (k.pagerefs p) + 4096 ≤ pr_pageaddr (k.pagerefs q))
          → ⊥
      clash (inl beneath) = omega arith
      clash (inr above) =
          let page = v.pages p used.mine in
          omega (
            arith,
            block_end (pr_blocktype (k.pagerefs p)) page.typed j used.inside,
            size_bounds (pr_blocktype (k.pagerefs p)) page.typed,
          )

  owner_of :
      (r : Option (Option ℕ))
      → FindOwner k (block_at (k.pagerefs p) j) k.allbase r
      → r ≡ some (some p)
  owner_of r (nowhere all) = absurd (clash (all p used.mine))
    where
      clash :
          (block_at (k.pagerefs p) j < pr_pageaddr (k.pagerefs p))
            ⊎ (pr_pageaddr (k.pagerefs p) + 4096 ≤ block_at (k.pagerefs p) j)
          → ⊥
      clash (inl low) = omega arith
      clash (inr high) =
          let page = v.pages p used.mine in
          omega (
            arith,
            block_end (pr_blocktype (k.pagerefs p)) page.typed j used.inside,
            size_bounds (pr_blocktype (k.pagerefs p)) page.typed,
          )
  owner_of r (owned q m low high) = ap (λ x. some (some x)) (only_owner q m low high)

-- `subpage_kfree` of a block in use fails no assertion: the block is filled and becomes the first free
-- one of its page, and nothing else is written; if it was the last one in use there, the page is taken
-- off the lists and given to `free_kpages`, and else nothing is. The heap stays well formed.
pub subpage_kfree-AfterFree :
    {k : Kheap} {free : ℕ → List ℕ} (p j : ℕ)
    → IsKheap k free
    → InUse k free p j
    → (r : Kfree) × (k' : Kheap) × (subpage_kfree (block_at (k.pagerefs p) j) k ≡ some (r, k'))
      × AfterFree k free p j r k'
unfolding subpage_kfree
subpage_kfree-AfterFree {k} {free} p j v used =
    let (r, k', runs, after) = free_block_lem v p j used in
    let a : ℕ = block_at (k.pagerefs p) j in
    let found = owner_of v p j used (find_owner k a k.allbase) (
      find_owner-FindOwner k a k.allbase (λ q m. (v.pages q m).typed)
        (λ q m. (v.pages q m).high)) in
    (r, k', bind_some _ found ∙ runs, after)

-- An address on no page of the heap is handed back with -1, and nothing is changed.
pub subpage_kfree-elsewhere :
    {k : Kheap} {free : ℕ → List ℕ} (a : ℕ)
    → IsKheap k free
    → ((q : ℕ)
        → has q k.allbase ≡ true
        → (a < pr_pageaddr (k.pagerefs q)) ⊎ (pr_pageaddr (k.pagerefs q) + 4096 ≤ a))
    → subpage_kfree a k ≡ some (elsewhere, k)
unfolding subpage_kfree
subpage_kfree-elsewhere {k} a v off = bind_some _ (
    none_owns (find_owner k a k.allbase)
      (find_owner-FindOwner k a k.allbase (λ q m. (v.pages q m).typed) (λ q m. (v.pages q m).high)))
  where
    clash : (page : ℕ) → page ≤ a → a < page + 4096 → (a < page) ⊎ (page + 4096 ≤ a) → ⊥
    clash page low high (inl below) = omega arith
    clash page low high (inr above) = omega arith

    none_owns : (r : Option (Option ℕ)) → FindOwner k a k.allbase r → r ≡ some none
    none_owns r (nowhere all) = refl
    none_owns r (owned q m low high) = absurd (clash _ low high (off q m))
