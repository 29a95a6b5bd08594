-- ===== src/Kheap/Tests.antt =====
-- Runs of the heap at concrete inputs.
use harvard_os161_operating.Prelude.{
  ◌>>=◌, ℕ, ◌*◌, ◌≤◌, ◌≡◌, refl, ◌⊎◌, inl, inr, true, false, some, List, [], ◌∷◌, arith, ◌==◌,
  if◌then◌else◌, Bool-cases,
}
use harvard_os161_operating.Kheap.{
  Kheap, Kfree, size_of, invalid_offset, pr_pageaddr, pr_blocktype, mkpab, store_at, fill_deadbeef,
  is_full, find_bit, find_word, allocpageref, freepageref, unlink, remove_lists, blocktype_from,
  blocktype, take_block, find_page, link_blocks, new_page, extend, subpage_kmalloc, find_owner,
  give_back, free_block, subpage_kfree, kmalloc, kfree,
}
use harvard_os161_operating.Kheap.Lists.{has}
use harvard_os161_operating.Kheap.Valid.{IsPage, IsKheap}
use harvard_os161_operating.Kheap.Take.{block_at}
use harvard_os161_operating.Kheap.Fresh.{IsFresh}
use harvard_os161_operating.Kheap.Alloc.{Scarce, IsTypeOf, Kmalloc, subpage_kmalloc-Kmalloc}
use harvard_os161_operating.Kheap.Outcomes.{InUse, AfterFree}
use harvard_os161_operating.Kheap.Freed.{subpage_kfree-AfterFree}
use harvard_os161_operating.Kheap.Clients.{Handed}
use harvard_os161_operating.Kheap.Serve.{kmalloc-Handed}
use harvard_os161_operating.Kheap.Release.{Released, kfree-Released}
use harvard_os161_operating.Kheap.Sessions.{IsHeld, allocates, here, next}
use harvard_os161_operating.Kheap.Pointers.{Steps-IsHeld}
use harvard_os161_operating.Kheap.RoundTrip.{Restored, kfree-kmalloc, kfree-kmalloc_large}

-- An empty heap.
abbrev nothing : Kheap
nothing = record {
  mem = λ a. 0;
  pagerefs = λ p. record { pageaddr_and_blocktype = 0; freelist_offset = 0; nfree = 0 };
  pagerefs_inuse = λ p. false;
  sizebases = λ t. [];
  allbase = [];
}

-- The first block of 2048 bytes is the upper half of the page; the second, the lower one.
two_halves :
    (subpage_kmalloc 0x80010000 1500 nothing >>= λ r.
    subpage_kmalloc 0 2000 (r.1) >>= λ r'. some (r.0 ∷ r'.0 ∷ []))
    ≡ some (0x80010800 ∷ 0x80010000 ∷ [])
unfolding subpage_kmalloc extend blocktype blocktype_from find_page allocpageref find_word is_full
    find_bit new_page link_blocks take_block freepageref store_at size_of pr_pageaddr pr_blocktype
    mkpab
two_halves = refl

-- The page is given back when its last block is.
given_back :
    (subpage_kmalloc 0x80010000 1500 nothing >>= λ r. kfree (r.0) (r.1) >>= λ r'. some (r'.0))
    ≡ some (0x80010000 ∷ [])
unfolding subpage_kmalloc extend blocktype blocktype_from find_page allocpageref find_word is_full
    find_bit new_page link_blocks take_block freepageref store_at size_of pr_pageaddr pr_blocktype
    mkpab kfree subpage_kfree find_owner free_block give_back fill_deadbeef remove_lists unlink
given_back = refl

nothing-IsKheap : IsKheap nothing (λ p. [])
nothing-IsKheap = record {
  pages = λ p m. cc;
  apart = λ p q mp mq ne. cc;
  distinct = tt;
  bound = λ p m. cc;
  in_use = λ p h. refl;
  sized = λ t p h. refl;
  sizes_distinct = λ t h. tt;
}

nothing-IsFresh : IsFresh nothing 0x80010000
nothing-IsFresh = record { aligned = refl; low = omega arith; high = omega arith; new = λ q m. cc }

-- One page of two blocks, of which the upper one is in use.
abbrev half_used : Kheap
half_used = record {
  mem = λ a. if a == 0x80010800 then 41 else 0;
  pagerefs = λ p. record { pageaddr_and_blocktype = 0x80010007; freelist_offset = 0; nfree = 1 };
  pagerefs_inuse = λ p. p == 0;
  sizebases = λ t. if t == 7 then 0 ∷ [] else [];
  allbase = 0 ∷ [];
}

half_used-IsPage : IsPage half_used.mem (half_used.pagerefs 0) (0 ∷ [])
unfolding pr_pageaddr pr_blocktype size_of
half_used-IsPage = record {
  typed = omega arith;
  low = omega arith;
  high = omega arith;
  linked = (refl, refl);
  below = (omega arith, tt);
  distinct = (refl, tt);
  counted = refl;
}

half_used-IsKheap : IsKheap half_used (λ p. 0 ∷ [])
unfolding pr_pageaddr pr_blocktype
half_used-IsKheap = record {
  pages = λ p m. half_used-IsPage;
  apart = λ p q mp mq ne. absurd (ne (ground arith));
  distinct = (refl, tt);
  bound = λ p m. ground arith;
  in_use = λ p h. ground arith;
  sized = λ t p h. ground arith;
  sizes_distinct =
      λ t h. elim (Bool-cases (t == 7)) [ inl this ↦ rw this (refl, tt) | inr other ↦ rw other tt ];
}

upper-InUse : InUse half_used (λ p. 0 ∷ []) 0 1
unfolding pr_blocktype size_of
upper-InUse = record { mine = refl; inside = omega arith; taken = refl }

-- The next statements apply the theorems to these heaps.
subpage_kmalloc-Kmalloc_example :
    (t a : ℕ) × (k' : Kheap) × (subpage_kmalloc 0x80010000 1500 nothing ≡ some (a, k'))
    × IsTypeOf 1500 t
    × Kmalloc nothing (λ p. []) 0x80010000 t a k'
subpage_kmalloc-Kmalloc_example =
    subpage_kmalloc-Kmalloc 0x80010000 1500 nothing-IsKheap (inr nothing-IsFresh) (omega arith)

subpage_kfree-AfterFree_example :
    (r : Kfree) × (k' : Kheap) × (subpage_kfree (block_at (half_used.pagerefs 0) 1) half_used
      ≡ some (r, k'))
    × AfterFree half_used (λ p. 0 ∷ []) 0 1 r k'
subpage_kfree-AfterFree_example = subpage_kfree-AfterFree 0 1 half_used-IsKheap upper-InUse

kmalloc-Handed_example :
    (a : ℕ) × (k' : Kheap) × (kmalloc (λ n. 0) 1500 half_used ≡ some (a, k'))
    × (((a ≡ 0) × (k' ≡ half_used) × Scarce half_used 0) ⊎ Handed half_used (λ p. 0 ∷ []) 1500 a k')
kmalloc-Handed_example = kmalloc-Handed (λ n. 0) 1500 half_used-IsKheap (inl refl) (omega arith)

kfree-Released_example :
    (pages : List ℕ) × (k' : Kheap) × (kfree (block_at (half_used.pagerefs 0) 1) half_used
      ≡ some (pages, k'))
    × Released half_used (λ p. 0 ∷ []) 0 1 pages k'
kfree-Released_example = kfree-Released 0 1 half_used-IsKheap upper-InUse

-- The heap once its lower block is handed out too.
abbrev full_page : Kheap
full_page = record half_used {
  pagerefs =
      store_at half_used.pagerefs 0 (record {
        pageaddr_and_blocktype = 0x80010007;
        freelist_offset = invalid_offset;
        nfree = 0;
      });
}

lower_runs : kmalloc (λ n. 0) 1500 half_used ≡ some (0x80010000, full_page)
unfolding kmalloc subpage_kmalloc blocktype blocktype_from find_page take_block size_of pr_pageaddr
    pr_blocktype
lower_runs = refl

kfree-kmalloc_example :
    (pages : List ℕ) × (k'' : Kheap) × (kfree 0x80010000 full_page ≡ some (pages, k''))
    × Restored half_used (λ p. 0 ∷ []) k''
kfree-kmalloc_example =
    kfree-kmalloc (λ n. 0) 1500 0x80010000 half_used-IsKheap (inl refl) (omega arith) lower_runs
      (omega arith)

kfree-kmalloc_large_example :
    (kmalloc (λ n. 0x80020000) 5000 half_used ≡ some (0x80020000, half_used))
    × (5000 ≤ 2 * 4096)
    × (kfree 0x80020000 half_used ≡ some (0x80020000 ∷ [], half_used))
unfolding pr_pageaddr
kfree-kmalloc_large_example =
    kfree-kmalloc_large (λ n. 0x80020000) 5000 2 half_used-IsKheap (omega arith) (omega arith)
      (omega arith) (omega arith) (omega arith) (λ q m. inr (omega arith))

upper_at : (a : ℕ) → has a (0x80010800 ∷ []) ≡ true → a ≡ block_at (half_used.pagerefs 0) 1
unfolding pr_pageaddr pr_blocktype size_of
upper_at a m = ground arith

lone-IsHeld : IsHeld (record { heap = half_used; live = 0x80010800 ∷ [] })
lone-IsHeld = record {
  free = λ p. 0 ∷ [];
  valid = half_used-IsKheap;
  owned = λ a m. record { page = 0; block = 1; used = upper-InUse; at = upper_at a m };
  distinct = (refl, tt);
}

Steps-IsHeld_example : IsHeld (record { heap = full_page; live = 0x80010000 ∷ 0x80010800 ∷ [] })
Steps-IsHeld_example =
    Steps-IsHeld
      (next here (
        allocates (record { heap = half_used; live = 0x80010800 ∷ [] }) (λ n. 0) 1500 0x80010000
          full_page (inl refl) (omega arith) lower_runs (omega arith)))
      lone-IsHeld
