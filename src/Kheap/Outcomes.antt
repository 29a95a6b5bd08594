-- ===== src/Kheap/Outcomes.antt =====
-- How `free_block` of kern/lib/kheap.c runs, and what `subpage_kfree` leaves.
use harvard_os161_operating.Prelude.{
  ℕ, ◌+◌, ◌*◌, ◌/◌, ◌%◌, ◌≤◌, ◌<◌, ◌≡◌, refl, ◌⊎◌, true, false, some, List, ◌∷◌, ◌==◌,
  if◌then◌else◌, lt→ltb, le→leb, eq→==, length,
}
use harvard_os161_operating.Kheap.{
  Kheap, Kfree, kept, gave_back, size_of, add32, sub32, to_u16, pr_pageaddr, pr_blocktype, store_at,
  unlink, give_back, free_block,
}
use harvard_os161_operating.Kheap.Lists.{has}
use harvard_os161_operating.Kheap.Valid.{IsKheap}
use harvard_os161_operating.Kheap.Take.{block_at}
use harvard_os161_operating.Kheap.Return.{freed_mem}
use harvard_os161_operating.Kheap.Alloc.{SamePage}

-- A block in use: its page is the heap's, and it is not among the free ones.
pub record InUse (k : Kheap) (free : ℕ → List ℕ) (p j : ℕ) : Type 0 where
  pub mine : has p k.allbase ≡ true
  pub inside : j < 4096 / size_of (pr_blocktype (k.pagerefs p))
  pub taken : has j (free p) ≡ false

-- The heap once a block is linked, before a wholly free page is given back.
abbrev pub freed_heap : Kheap → ℕ → ℕ → ℕ → ℕ → Kheap
freed_heap k p at offset nfree = record k {
  mem = freed_mem k.mem (k.pagerefs p) at;
  pagerefs =
      store_at k.pagerefs p (record (k.pagerefs p) { freelist_offset = offset; nfree = nfree });
}

-- `free_block` where its checks succeed.
pub free_runs :
    (p at : ℕ) (k : Kheap) {o m : ℕ}
    → sub32 at (pr_pageaddr (k.pagerefs p)) ≡ o
    → add32 (pr_pageaddr (k.pagerefs p)) o ≡ at
    → to_u16 o ≡ o
    → to_u16 ((k.pagerefs p).nfree + 1) ≡ m
    → o < 4096
    → o % size_of (pr_blocktype (k.pagerefs p)) ≡ 0
    → m ≤ 4096 / size_of (pr_blocktype (k.pagerefs p))
    → free_block p at k ≡ (
        if m == 4096 / size_of (pr_blocktype (k.pagerefs p))
        then give_back p
            (pr_pageaddr (k.pagerefs p))
            (pr_blocktype (k.pagerefs p))
            (freed_heap k p at o m)
        else some (kept, freed_heap k p at o m))
unfolding free_block
free_runs p at k {o} {m} offset back short count inside aligned room =
    rw (offset, back, short, count, lt→ltb o 4096 inside, eq→== _ 0 aligned, le→leb m _ room) refl

-- How the return of the block `j` of the page `p` ends: it is the first free block of its page; or it
-- was the last one in use there, and the page is no page of the heap any more.
pub data Freed (k : Kheap) (free : ℕ → List ℕ) (p j : ℕ) (r : Kfree) (k' : Kheap) : Type 0 where
  keeps :
      length (free p) + 1 < 4096 / size_of (pr_blocktype (k.pagerefs p))
      → r ≡ kept
      → k'.allbase ≡ k.allbase
      → Freed k free p j r k'
  gives :
      length (free p) + 1 ≡ 4096 / size_of (pr_blocktype (k.pagerefs p))
      → r ≡ gave_back (pr_pageaddr (k.pagerefs p))
      → k'.allbase ≡ unlink p k.allbase
      → Freed k free p j r k'

-- What holds in both cases.
pub record AfterFree (k : Kheap) (free : ℕ → List ℕ) (p j : ℕ) (r : Kfree) (k' : Kheap)
    : Type 0 where
  pub valid : IsKheap k' (store_at free p (j ∷ free p))
  pub ends : Freed k free p j r k'
  pub pages : (q : ℕ) → SamePage k k' q
  -- Outside of the block nothing is written; behind its first word it is filled.
  pub outside :
      (x : ℕ)
      → (x < block_at (k.pagerefs p) j)
        ⊎ (block_at (k.pagerefs p) j + size_of (pr_blocktype (k.pagerefs p)) ≤ x)
      → k'.mem x ≡ k.mem x
  pub filled :
      (i : ℕ)
      → 0 < i
      → i < size_of (pr_blocktype (k.pagerefs p)) / 4
      → k'.mem (block_at (k.pagerefs p) j + i * 4) ≡ 0xdeadbeef
