-- ===== src/Kheap/Clients.antt =====
-- The heap of kern/lib/kheap.c as its users see it.
use harvard_os161_operating.Prelude.{
  ℕ, ◌+◌, ◌-◌, ◌*◌, ◌≤◌, ◌<◌, ◌≡◌, sym, ◌≢◌, ◌⊎◌, inl, inr, true, false, List, arith, leb, leb→le,
  Bool-cases,
}
use harvard_os161_operating.Kheap.{Pageref, Kheap, size_of, pr_pageaddr, pr_blocktype}
use harvard_os161_operating.Kheap.Sizes.{block_end, block_apart}
use harvard_os161_operating.Kheap.Lists.{has}
use harvard_os161_operating.Kheap.Valid.{IsKheap, blocktype_of_pab, pages_disjoint}
use harvard_os161_operating.Kheap.Take.{block_at}
use harvard_os161_operating.Kheap.Alloc.{SamePage}
use harvard_os161_operating.Kheap.Outcomes.{InUse}

abbrev pub block_size : Pageref → ℕ
block_size pr = size_of (pr_blocktype pr)

-- A block in use lies on its page.
pub in_page :
    {k : Kheap} {free : ℕ → List ℕ} (v : IsKheap k free) (p j : ℕ)
    → InUse k free p j
    → block_at (k.pagerefs p) j + block_size (k.pagerefs p) ≤ pr_pageaddr (k.pagerefs p) + 4096
in_page {k} v p j used =
    omega (arith, block_end (pr_blocktype (k.pagerefs p)) (v.pages p used.mine).typed j used.inside)

-- A block in use stays in use where the heap keeps its page and its free list gains no block.
pub keeps_use :
    {k k' : Kheap} {free free' : ℕ → List ℕ} (q i : ℕ)
    → has q k'.allbase ≡ true
    → SamePage k k' q
    → has i (free' q) ≡ false
    → InUse k free q i
    → InUse k' free' q i
keeps_use {k} {k'} q i mine same_page taken used = record {
  mine = mine;
  inside = rw (blocktype_of_pab (k'.pagerefs q) (k.pagerefs q) same_page) used.inside;
  taken = taken;
}

-- Two places apart.
abbrev pub Apart : ℕ → ℕ → ℕ → ℕ → Type 0
Apart a n b m = (a + n ≤ b) ⊎ (b + m ≤ a)

blocks-Apart :
    (t : ℕ)
    → t < 8
    → (page i j : ℕ) → i ≢ j
    → Apart (page + i * size_of t) (size_of t) (page + j * size_of t) (size_of t)
blocks-Apart t typed page i j ne =
    elim (Bool-cases (leb (page + i * size_of t + size_of t) (page + j * size_of t))) [
      | inl before ↦ inl (leb→le _ _ before)
      | inr no_before ↦
          elim (Bool-cases (leb (page + j * size_of t + size_of t) (page + i * size_of t))) [
            | inl after ↦ inr (leb→le _ _ after)
            | inr no_after ↦ elim (Bool-cases (leb (i * size_of t) (j * size_of t))) [
              | inl up ↦ absurd (
                  ne (
                    block_apart t typed i j (j * size_of t - i * size_of t) (ground arith)
                      (omega (arith, leb→le (i * size_of t) (j * size_of t) up))))
              | inr down ↦ absurd (
                  ne (
                    sym (
                      block_apart t typed j i (i * size_of t - j * size_of t) (ground arith)
                        (ground arith))))
            ]
          ]
    ]

-- Different blocks in use do not overlap.
pub InUse-Apart :
    {k : Kheap} {free : ℕ → List ℕ} (v : IsKheap k free) (p j q i : ℕ)
    → InUse k free p j
    → InUse k free q i
    → (p ≢ q) ⊎ ((p ≡ q) × (j ≢ i))
    → Apart
        (block_at (k.pagerefs p) j)
        (block_size (k.pagerefs p))
        (block_at (k.pagerefs q) i)
        (block_size (k.pagerefs q))
InUse-Apart {k} v p j q i used used' (inl ne) =
    go (pages_disjoint (k.pagerefs p) (k.pagerefs q) (v.apart p q used.mine used'.mine ne))
  where
    go :
        (pr_pageaddr (k.pagerefs p) + 4096 ≤ pr_pageaddr (k.pagerefs q))
          ⊎ (pr_pageaddr (k.pagerefs q) + 4096 ≤ pr_pageaddr (k.pagerefs p))
        → Apart
            (block_at (k.pagerefs p) j)
            (block_size (k.pagerefs p))
            (block_at (k.pagerefs q) i)
            (block_size (k.pagerefs q))
    go (inl below) = inl (omega (arith, in_page v p j used))
    go (inr above) = inr (omega (arith, in_page v q i used'))
InUse-Apart {k} v p j q i used used' (inr (e, ne)) = rw (sym e) (
    blocks-Apart (pr_blocktype (k.pagerefs p)) (v.pages p used.mine).typed
      (pr_pageaddr (k.pagerefs p)) j i ne)

-- What `kmalloc` leaves that hands out the block at `a` for `sz` bytes.
pub record Handed (k : Kheap) (free : ℕ → List ℕ) (sz a : ℕ) (k' : Kheap) : Type 0 where
  pub free' : ℕ → List ℕ
  pub page : ℕ
  pub block : ℕ
  pub valid : IsKheap k' free'
  pub used : InUse k' free' page block
  pub at : a ≡ block_at (k'.pagerefs page) block
  pub enough : sz ≤ block_size (k'.pagerefs page)
  -- It was not in use, and what was in use is so still, in the same place with the same contents.
  pub new : ¬ InUse k free page block
  pub others : (q i : ℕ) → InUse k free q i → InUse k' free' q i × SamePage k k' q
  pub only : (q i : ℕ) → InUse k' free' q i → InUse k free q i ⊎ ((q ≡ page) × (i ≡ block))
  pub contents :
      (q i x : ℕ)
      → InUse k free q i
      → block_at (k.pagerefs q) i ≤ x
      → x < block_at (k.pagerefs q) i + block_size (k.pagerefs q)
      → k'.mem x ≡ k.mem x
