-- ===== src/Kheap/Alloc.antt =====
-- `subpage_kmalloc` of kern/lib/kheap.c.
use mathlib.Core.Path.{subst}
use harvard_os161_operating.Prelude.{
  ◌>>=◌, ℕ, suc, ◌+◌, ◌-◌, ◌*◌, ◌/◌, ◌≤◌, ◌<◌, ◌≡◌, refl, sym, ap, ◌∙◌, ◌≢◌, ◌⊎◌, inl, inr, true,
  false, Option, some, List, [], ◌∷◌, arith, ==→eq, eq→==, ne→==, length,
}
use harvard_os161_operating.Process.Change.{bind_some}
use harvard_os161_operating.Kheap.{
  Pageref, Kheap, size_of, pr_pageaddr, pr_blocktype, store_at, find_word, allocpageref, blocktype,
  take_block, find_page, new_page, extend, subpage_kmalloc,
}
use harvard_os161_operating.Kheap.Sizes.{size_bounds, blocktype_lem}
use harvard_os161_operating.Kheap.Lists.{store_at_self, store_at_ne, has}
use harvard_os161_operating.Kheap.Chain.{count_down}
use harvard_os161_operating.Kheap.Valid.{IsKheap, pageaddr_of_pab, blocktype_of_pab}
use harvard_os161_operating.Kheap.Take.{block_at, take_block_lem}
use harvard_os161_operating.Kheap.PageSearch.{
  FindPage, exhausted, located, find_page-FindPage, store_at_twice,
}
use harvard_os161_operating.Kheap.Pagerefs.{
  FindWord, all_used, unused, find_word-FindWord, freepageref-taken,
}
use harvard_os161_operating.Kheap.NewPage.{new_page_lem}
use harvard_os161_operating.Kheap.Fresh.{IsFresh, fresh_pageref, pageaddr-fresh, blocktype-fresh}

-- No page of this block type has a free block.
abbrev pub NoneFree : Kheap → (ℕ → List ℕ) → ℕ → Type 0
NoneFree k free t = (q : ℕ) → has q k.allbase ≡ true → pr_blocktype (k.pagerefs q) ≡ t → free q ≡ []

-- Pages keep their place and their block type.
abbrev pub SamePage : Kheap → Kheap → ℕ → Type 0
SamePage k k' q = (k'.pagerefs q).pageaddr_and_blocktype ≡ (k.pagerefs q).pageaddr_and_blocktype

-- There is no page, or no pageref for it.
pub data Scarce (k : Kheap) (page : ℕ) : Type 0 where
  no_page : page ≡ 0 → Scarce k page
  all_in_use : ((q : ℕ) → q < 256 → has q k.allbase ≡ true) → Scarce k page

-- The block type of a request: the first one that is large enough.
pub record IsTypeOf (sz t : ℕ) : Type 0 where
  pub typed : t < 8
  pub enough : sz ≤ size_of t
  pub least : (u : ℕ) → u < t → size_of u < sz

-- How a request for a block of type `t` ends: with the first free block of a page; with the last
-- block of a new page, where no page of the type has a free one; or with NULL, where there is
-- neither a block nor a page or a pageref for a new one.
pub data Kmalloc (k : Kheap) (free : ℕ → List ℕ) (page t a : ℕ) (k' : Kheap) : Type 0 where
  reuses :
      (p j : ℕ) (js : List ℕ)
      → has p k.allbase ≡ true
      → pr_blocktype (k.pagerefs p) ≡ t
      → free p ≡ j ∷ js
      → a ≡ block_at (k.pagerefs p) j
      → IsKheap k' (store_at free p js)
      → k'.mem ≡ k.mem
      → k'.allbase ≡ k.allbase
      → ((q : ℕ) → SamePage k k' q)
      → Kmalloc k free page t a k'
  extends :
      (p n : ℕ)
      → NoneFree k free t
      → has p k.allbase ≡ false
      → IsFresh k page
      → suc n ≡ 4096 / size_of t
      → a ≡ page + n * size_of t
      → IsKheap k' (store_at free p (count_down n))
      → ((x : ℕ) → (x < page) ⊎ (page + 4096 ≤ x) → k'.mem x ≡ k.mem x)
      → k'.allbase ≡ p ∷ k.allbase
      → (pr_pageaddr (k'.pagerefs p) ≡ page) × (pr_blocktype (k'.pagerefs p) ≡ t)
      → ((q : ℕ) → q ≢ p → SamePage k k' q)
      → Kmalloc k free page t a k'
  refuses : NoneFree k free t → Scarce k page → a ≡ 0 → k' ≡ k → Kmalloc k free page t a k'

module _ {k : Kheap} {free : ℕ → List ℕ} (v : IsKheap k free) (page t : ℕ) (typed : t < 8) where
  allocate_page :
      (p : ℕ)
      → p < 256
      → has p k.allbase ≡ false
      → NoneFree k free t
      → IsFresh k page
      → (a : ℕ) × (k' : Kheap) × ((new_page p page t
              (record k { pagerefs_inuse = store_at k.pagerefs_inuse p true })
            >>= take_block p)
          ≡ some (a, k'))
        × Kmalloc k free page t a k'
  allocate_page p small absent none_free fresh =
      let n : ℕ = 4096 / size_of t - 1 in
      let count : 4096 / size_of t ≡ suc n = omega (arith, size_bounds t typed) in
      let (mem, runs, valid, outside) = new_page_lem v p page t typed small absent fresh in
      let (k', runs', valid', mem', all', sizes', pages') =
        take_block_lem valid p n (count_down n) (ground arith)
          (store_at_self free p (count_down (4096 / size_of t)) ∙ ap count_down count) in
      let addr = pageaddr-fresh page t typed fresh.aligned in
      let type = blocktype-fresh page t typed fresh.aligned in
      let at = store_at_self k.pagerefs p (fresh_pageref page t) in
      (
        block_at (store_at k.pagerefs p (fresh_pageref page t) p) n,
        k',
        bind_some _ runs ∙ runs',
        extends p n none_free absent fresh (sym count) (rw (at, addr, type) refl)
            (subst (IsKheap k') (store_at_twice free p _ _) valid')
            (λ x out. rw mem' (outside x out)) all'
            (
              pageaddr_of_pab _ _ (pages' p) ∙ (ap pr_pageaddr at ∙ addr),
              blocktype_of_pab _ _ (pages' p) ∙ (ap pr_blocktype at ∙ type),
            )
            (λ q ne.
              pages' q
              ∙ ap (λ (x : Pageref). x.pageaddr_and_blocktype)
                  (store_at_ne k.pagerefs p q (fresh_pageref page t) ne)),
      )

  -- What `allocpageref` does with what it found, and `extend` with that.
  extend_lem :
      (page ≡ 0) ⊎ IsFresh k page
      → NoneFree k free t
      → (a : ℕ) × (k' : Kheap) × (extend page t k ≡ some (a, k')) × Kmalloc k free page t a k'
  unfolding extend allocpageref
  extend_lem supply none_free =
      go (find_word k.pagerefs_inuse 8 0) refl (find_word-FindWord k.pagerefs_inuse 8 0)
    where
      with_page_at :
          (p : ℕ)
          → p < 256
          → k.pagerefs_inuse p ≡ false
          → find_word k.pagerefs_inuse 8 0 ≡ some (some p)
          → (page ≡ 0) ⊎ IsFresh k page
          → (a : ℕ) × (k' : Kheap) × (extend page t k ≡ some (a, k')) × Kmalloc k free page t a k'
      with_page_at p small clear e (inl absent) = (
        0,
        k,
        bind_some _ (bind_some _ e) ∙ rw absent (bind_some _ (freepageref-taken p k small clear)),
        refuses none_free (no_page absent) refl refl,
      )
      with_page_at p small clear e (inr fresh) =
          let (a, k', runs, outcome) =
            allocate_page p small (sym (v.in_use p small) ∙ clear) none_free fresh in
          (
            a,
            k',
            bind_some _ (bind_some _ e)
                ∙ rw (ne→== page 0 (λ z. absurd (omega (arith, fresh.low)))) runs,
            outcome,
          )

      go :
          (r : Option (Option ℕ))
          → find_word k.pagerefs_inuse 8 0 ≡ r
          → FindWord k.pagerefs_inuse 8 0 r
          → (a : ℕ) × (k' : Kheap) × (extend page t k ≡ some (a, k')) × Kmalloc k free page t a k'
      go r e (all_used used) = (
        0,
        k,
        bind_some _ (bind_some _ e),
        refuses none_free
            (all_in_use (λ q lt. sym (v.in_use q lt) ∙ used q (omega arith) (omega arith))) refl
            refl,
      )
      go r e (unused p free_one high) = with_page_at p (omega arith) free_one e supply

  of_type :
      (p : ℕ)
      → has p (k.sizebases t) ≡ true
      → (has p k.allbase ≡ true) × (pr_blocktype (k.pagerefs p) ≡ t)
  of_type p m = ground (arith, v.sized t p typed, ==→eq (pr_blocktype (k.pagerefs p)) t)

  sized-NoneFree :
      ((q : ℕ) → has q (k.sizebases t) ≡ true → (k.pagerefs q).nfree ≡ 0) → NoneFree k free t
  sized-NoneFree all q m type = nil_of (free q) (omega (arith, (v.pages q m).counted, all q listed))
    where
      listed : has q (k.sizebases t) ≡ true
      listed = ground (arith, v.sized t q typed, eq→== (pr_blocktype (k.pagerefs q)) t type)

      nil_of : (xs : List ℕ) → length xs ≡ 0 → xs ≡ []
      nil_of [] e = refl
      nil_of (x ∷ xs) e = absurd (omega arith)

  -- Some page of the type has a free block, or none has.
  search_lem :
      (page ≡ 0) ⊎ IsFresh k page
      → (r : Option (Option ℕ)) → find_page k t (k.sizebases t) ≡ r
      → FindPage k (k.sizebases t) r
      → (sz : ℕ) → blocktype sz ≡ some t
      → (a : ℕ) × (k' : Kheap) × (subpage_kmalloc page sz k ≡ some (a, k'))
        × Kmalloc k free page t a k'
  unfolding subpage_kmalloc
  search_lem supply r e (exhausted all) sz enough =
      let (a, k', runs, outcome) = extend_lem supply (sized-NoneFree all) in
      (a, k', bind_some _ enough ∙ (bind_some _ e ∙ runs), outcome)
  search_lem supply r e (located p m some_free) sz enough =
      let (mine, type) = of_type p m in go (free p) refl mine type
    where
      go :
          (js : List ℕ)
          → free p ≡ js
          → has p k.allbase ≡ true
          → pr_blocktype (k.pagerefs p) ≡ t
          → (a : ℕ) × (k' : Kheap) × (subpage_kmalloc page sz k ≡ some (a, k'))
            × Kmalloc k free page t a k'
      go [] list mine type = absurd (omega (arith, (v.pages p mine).counted, ap length list))
      go (j ∷ js) list mine type =
          let (k', runs, valid, mem', all', sizes', pages') = take_block_lem v p j js mine list in
          (
            block_at (k.pagerefs p) j,
            k',
            bind_some _ enough ∙ (bind_some _ e ∙ runs),
            reuses p j js mine type list refl valid mem' all' pages',
          )

-- `subpage_kmalloc` of at most 2048 bytes fails no assertion, whatever `alloc_kpages(1)` returns of
-- what it may: 0, or an aligned page of kernel memory that the heap does not have. The request gets the
-- first block type that is large enough, and ends as `Kmalloc` says; the heap stays well formed.
pub subpage_kmalloc-Kmalloc :
    {k : Kheap} {free : ℕ → List ℕ} (page sz : ℕ)
    → IsKheap k free
    → (page ≡ 0) ⊎ IsFresh k page
    → sz ≤ 2048
    → (t a : ℕ) × (k' : Kheap) × (subpage_kmalloc page sz k ≡ some (a, k'))
      × IsTypeOf sz t
      × Kmalloc k free page t a k'
subpage_kmalloc-Kmalloc {k} {free} page sz v supply small =
    let (t, enough, typed, fits, least) = blocktype_lem sz small in
    let (a, k', runs, outcome) =
      search_lem v page t typed supply (find_page k t (k.sizebases t)) refl
        (find_page-FindPage k t (k.sizebases t) (λ q m. (of_type v page t typed q m).1)) sz
        enough in
    (t, a, k', runs, record { typed = typed; enough = fits; least = least }, outcome)
