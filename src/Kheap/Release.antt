-- ===== src/Kheap/Release.antt =====
-- `kfree` of kern/lib/kheap.c for its users.
use mathlib.Core.Path.{subst}
use harvard_os161_operating.Prelude.{
  ℕ, ◌+◌, ◌/◌, ◌≤◌, ◌<◌, ◌≡◌, refl, sym, ap, ◌∙◌, ◌≢◌, ◌⊎◌, inl, inr, true, false, some, List, [],
  ◌∷◌, arith, ◌==◌, ==→eq, eq→==, ne→==, ==→ne, Bool-cases, length,
}
use harvard_os161_operating.Process.Change.{bind_some}
use harvard_os161_operating.Kheap.{
  Kheap, Kfree, size_of, pr_pageaddr, pr_blocktype, store_at, unlink, subpage_kfree, kfree,
}
use harvard_os161_operating.Kheap.Lists.{
  store_at_self, store_at_ne, has, has-unlink, length-le_of_Distinct,
}
use harvard_os161_operating.Kheap.Valid.{IsKheap}
use harvard_os161_operating.Kheap.Take.{block_at}
use harvard_os161_operating.Kheap.Alloc.{SamePage}
use harvard_os161_operating.Kheap.Outcomes.{InUse, Freed, AfterFree, keeps, gives}
use harvard_os161_operating.Kheap.Freed.{subpage_kfree-AfterFree}
use harvard_os161_operating.Kheap.Clients.{block_size, keeps_use, Apart, InUse-Apart}

-- Two blocks are not the same.
abbrev pub Differ : ℕ → ℕ → ℕ → ℕ → Type 0
Differ q i p j = (q ≢ p) ⊎ ((q ≡ p) × (i ≢ j))

-- What `kfree` of the block `j` of the page `p` leaves.
pub record Released (k : Kheap) (free : ℕ → List ℕ) (p j : ℕ) (pages : List ℕ) (k' : Kheap)
    : Type 0 where
  pub free' : ℕ → List ℕ
  pub valid : IsKheap k' free'
  -- The page stays, or it is given to `free_kpages`.
  pub given :
      ((pages ≡ []) × (has p k'.allbase ≡ true))
      ⊎ ((pages ≡ pr_pageaddr (k.pagerefs p) ∷ []) × (has p k'.allbase ≡ false))
  pub gone : ¬ InUse k' free' p j
  pub others : (q i : ℕ) → Differ q i p j → InUse k free q i → InUse k' free' q i × SamePage k k' q
  pub only : (q i : ℕ) → InUse k' free' q i → InUse k free q i
  pub contents :
      (q i x : ℕ)
      → Differ q i p j
      → InUse k free q i
      → block_at (k.pagerefs q) i ≤ x
      → x < block_at (k.pagerefs q) i + block_size (k.pagerefs q)
      → k'.mem x ≡ k.mem x

module _ {k : Kheap} {free : ℕ → List ℕ} (v : IsKheap k free) (p j : ℕ) (used : InUse k free p j)
    {r : Kfree} {k' : Kheap} (after : AfterFree k free p j r k') where
  still_taken :
      (q i : ℕ)
      → Differ q i p j
      → has i (free q) ≡ false
      → has i (store_at free p (j ∷ free p) q) ≡ false
  still_taken q i (inl ne) taken = rw (store_at_ne free p q (j ∷ free p) ne) taken
  still_taken q i (inr (e, ne)) taken =
      rw (e, store_at_self free p (j ∷ free p), ne→== i j ne)
        (subst (λ x. has i (free x) ≡ false) e taken)

  was_taken : (q i : ℕ) → has i (store_at free p (j ∷ free p) q) ≡ false → has i (free q) ≡ false
  was_taken q i taken = elim (Bool-cases (q == p)) [
    | inl this ↦
        let at =
          ap (store_at free p (j ∷ free p)) (==→eq q p this) ∙ store_at_self free p (j ∷ free p) in
        rw (==→eq q p this) (ground (arith, subst (λ x. has i x ≡ false) at taken))
    | inr other ↦
        subst (λ x. has i x ≡ false) (store_at_ne free p q (j ∷ free p) (==→ne q p other)) taken
  ]

  not_taken : has j (store_at free p (j ∷ free p) p) ≡ true
  not_taken = rw (store_at_self free p (j ∷ free p)) (ground arith)

  contents_kept :
      (q i x : ℕ)
      → Differ q i p j
      → InUse k free q i
      → block_at (k.pagerefs q) i ≤ x
      → x < block_at (k.pagerefs q) i + block_size (k.pagerefs q)
      → k'.mem x ≡ k.mem x
  contents_kept q i x ne u low high = after.outside x (off (InUse-Apart v q i p j u used ne))
    where
      off :
          Apart
            (block_at (k.pagerefs q) i)
            (block_size (k.pagerefs q))
            (block_at (k.pagerefs p) j)
            (block_size (k.pagerefs p))
          → (x < block_at (k.pagerefs p) j)
            ⊎ (block_at (k.pagerefs p) j + block_size (k.pagerefs p) ≤ x)
      off (inl before) = inl (omega arith)
      off (inr behind) = inr (omega arith)

  -- If the page is given back, no other block of it was in use.
  last_one :
      length (free p) + 1 ≡ 4096 / size_of (pr_blocktype (k.pagerefs p))
      → (q i : ℕ) → Differ q i p j
      → InUse k free q i
      → q ≢ p
  last_one all q i (inl ne) u = ne
  last_one all q i (inr (e, ne)) u =
      let page = v.pages p used.mine in
      let taken = subst (λ x. has i (free x) ≡ false) e u.taken in
      let inside = subst (λ x. i < 4096 / size_of (pr_blocktype (k.pagerefs x))) e u.inside in
      let short =
        length-le_of_Distinct (4096 / size_of (pr_blocktype (k.pagerefs p))) (i ∷ j ∷ free p)
          (rw (ne→== i j ne) taken, (used.taken, page.distinct))
          (inside, (used.inside, page.below)) in
      absurd (omega (arith, short))

  release_keeps : k'.allbase ≡ k.allbase → Released k free p j [] k'
  release_keeps all' = record {
    free' = store_at free p (j ∷ free p);
    valid = after.valid;
    given = inl (refl, rw all' used.mine);
    gone = λ u. cc (u.taken, not_taken);
    others = λ q i ne u. (
      keeps_use q i (rw all' u.mine) (after.pages q) (still_taken q i ne u.taken) u,
      after.pages q,
    );
    only = λ q i u.
        keeps_use q i (subst (λ x. has q x ≡ true) all' u.mine) (sym (after.pages q))
          (was_taken q i u.taken) u;
    contents = contents_kept;
  }

  release_gives :
      length (free p) + 1 ≡ 4096 / size_of (pr_blocktype (k.pagerefs p))
      → k'.allbase ≡ unlink p k.allbase
      → Released k free p j (pr_pageaddr (k.pagerefs p) ∷ []) k'
  release_gives all all' = record {
    free' = store_at free p (j ∷ free p);
    valid = after.valid;
    given =
        inr (refl, rw (all', has-unlink p k.allbase p v.distinct, eq→== p p refl) (ground arith));
    gone = λ u. cc (u.taken, not_taken);
    others = λ q i ne u. (
      keeps_use q i
          (rw (all', has-unlink p k.allbase q v.distinct, u.mine, ne→== q p (last_one all q i ne u))
            refl)
          (after.pages q) (still_taken q i ne u.taken) u,
      after.pages q,
    );
    only = λ q i u.
        keeps_use q i
          (ground
            (arith, subst (λ x. has q x ≡ true) all' u.mine, has-unlink p k.allbase q v.distinct))
          (sym (after.pages q)) (was_taken q i u.taken) u;
    contents = contents_kept;
  }

-- `kfree` of a block in use fails no assertion. The block is not in use any more; every other block in
-- use keeps its place and its contents, and none comes into use. The page is given to `free_kpages`
-- exactly when it is taken off the heap's list of pages, and nothing else is.
pub kfree-Released :
    {k : Kheap} {free : ℕ → List ℕ} (p j : ℕ)
    → IsKheap k free
    → InUse k free p j
    → (pages : List ℕ) × (k' : Kheap) × (kfree (block_at (k.pagerefs p) j) k ≡ some (pages, k'))
      × Released k free p j pages k'
unfolding kfree
kfree-Released {k} {free} p j v used =
    let (r, k', runs, after) = subpage_kfree-AfterFree p j v used in go r k' runs after after.ends
  where
    not_null : (block_at (k.pagerefs p) j == 0) ≡ false
    not_null = ne→== _ 0 (omega (arith, (v.pages p used.mine).low))

    go :
        (r : Kfree) (k' : Kheap)
        → subpage_kfree (block_at (k.pagerefs p) j) k ≡ some (r, k')
        → AfterFree k free p j r k'
        → Freed k free p j r k'
        → (pages : List ℕ) × (k' : Kheap) × (kfree (block_at (k.pagerefs p) j) k ≡ some (pages, k'))
          × Released k free p j pages k'
    go r k' runs after (keeps more e all') = (
      [],
      k',
      rw not_null (bind_some _ (runs ∙ ap (λ x. some (x, k')) e)),
      release_keeps v p j used after all',
    )
    go r k' runs after (gives all e all') = (
      pr_pageaddr (k.pagerefs p) ∷ [],
      k',
      rw not_null (bind_some _ (runs ∙ ap (λ x. some (x, k')) e)),
      release_gives v p j used after all all',
    )
