-- ===== src/Kheap/Sessions.antt =====
-- The heap of kern/lib/kheap.c over many calls, with the pointers that its users hold.
use harvard_os161_operating.Prelude.{ℕ, ◌+◌, ◌≤◌, ◌<◌, ◌≡◌, ◌≢◌, ◌⊎◌, true, some, List, ◌∷◌}
use harvard_os161_operating.Kheap.{Kheap, pr_pageaddr, store_at, unlink, kmalloc, kfree}
use harvard_os161_operating.Kheap.Lists.{has, Distinct}
use harvard_os161_operating.Kheap.Valid.{IsKheap}
use harvard_os161_operating.Kheap.Take.{block_at}
use harvard_os161_operating.Kheap.Fresh.{IsFresh}
use harvard_os161_operating.Kheap.Outcomes.{InUse}
use harvard_os161_operating.Kheap.Clients.{block_size}

-- The heap with the pointers that its users hold.
pub record Held : Type 0 where
  pub heap : Kheap
  pub live : List ℕ

-- A pointer to a block in use.
pub record Owned (k : Kheap) (free : ℕ → List ℕ) (a : ℕ) : Type 0 where
  pub page : ℕ
  pub block : ℕ
  pub used : InUse k free page block
  pub at : a ≡ block_at (k.pagerefs page) block

-- The heap is well formed, and each pointer is to a block of its own.
pub record IsHeld (s : Held) : Type 0 where
  pub free : ℕ → List ℕ
  pub valid : IsKheap s.heap free
  pub owned : (a : ℕ) → has a s.live ≡ true → Owned s.heap free a
  pub distinct : Distinct s.live

-- What a user may do: ask for a block, with what `alloc_kpages` may return; give back a block that it
-- holds; write a word of such a block.
pub data Step : Held → Held → Type 0 where
  allocates :
      (s : Held) (alloc_kpages : ℕ → ℕ) (sz a : ℕ) (k' : Kheap)
      → (alloc_kpages 1 ≡ 0) ⊎ IsFresh s.heap (alloc_kpages 1)
      → sz < 2048
      → kmalloc alloc_kpages sz s.heap ≡ some (a, k')
      → a ≢ 0
      → Step s (record { heap = k'; live = a ∷ s.live })
  finds_none :
      (s : Held) (alloc_kpages : ℕ → ℕ) (sz : ℕ) (k' : Kheap)
      → (alloc_kpages 1 ≡ 0) ⊎ IsFresh s.heap (alloc_kpages 1)
      → sz < 2048
      → kmalloc alloc_kpages sz s.heap ≡ some (0, k')
      → Step s (record { heap = k'; live = s.live })
  gives_up :
      (s : Held) (a : ℕ) (pages : List ℕ) (k' : Kheap)
      → has a s.live ≡ true
      → kfree a s.heap ≡ some (pages, k')
      → Step s (record { heap = k'; live = unlink a s.live })
  writes :
      (s : Held) (a p x w : ℕ)
      → has a s.live ≡ true
      → has p s.heap.allbase ≡ true
      → pr_pageaddr (s.heap.pagerefs p) ≤ a
      → a < pr_pageaddr (s.heap.pagerefs p) + 4096
      → a ≤ x
      → x < a + block_size (s.heap.pagerefs p)
      → Step s (record { heap = record (s.heap) { mem = store_at s.heap.mem x w }; live = s.live })

pub data Steps (s : Held) : Held → Type 0 where
  here : Steps s s
  next : {t u : Held} → Steps s t → Step t u → Steps s u
