-- ===== src/Kheap/Return.antt =====
-- What `free_block` of kern/lib/kheap.c does to a page and to memory.
use mathlib.Core.Path.{subst}
use harvard_os161_operating.Prelude.{
  ℕ, ◌+◌, ◌-◌, ◌*◌, ◌/◌, ◌^◌, ◌≤◌, ◌<◌, ◌≡◌, refl, ◌∙◌, ◌≢◌, ◌⊎◌, inl, inr, true, false, List, [],
  ◌∷◌, arith, ltb, leb, ◌==◌, if◌then◌else◌, ltb→lt, leb→le, eq→==, ne→==, Bool-cases, length,
}
use harvard_os161_operating.Kheap.{
  Pageref, size_of, invalid_offset, add32, pr_pageaddr, pr_blocktype, store_at, fill_deadbeef,
}
use harvard_os161_operating.Kheap.Sizes.{size_bounds, block_end, block_apart}
use harvard_os161_operating.Kheap.Lists.{
  store_at_self, store_at_ne, has, AllBelow, length-le_of_Distinct,
}
use harvard_os161_operating.Kheap.Chain.{Links, FreeList, Links-frame}
use harvard_os161_operating.Kheap.Valid.{IsPage}
use harvard_os161_operating.Kheap.Take.{block_at}
use harvard_os161_operating.Kheap.Free.{fill_outside, fill_inside}

-- What `free_block` writes through the first word of the block.
link_of :
    (mem : ℕ → ℕ) (page size offset : ℕ) (js : List ℕ)
    → FreeList mem page size js offset
    → AllBelow (4096 / size) js
    → ((j : ℕ) → j < 4096 / size → j * size < 4096)
    → page + 4096 < 2 ^ 32
    → Links mem page size js (if offset == invalid_offset then 0 else add32 page offset)
link_of mem page size offset [] linked below fits high =
    rw (eq→== offset invalid_offset linked) refl
link_of mem page size offset (j ∷ js) (here, links) (lt, below) fits high =
    let small = fits j lt in
    rw (ne→== offset invalid_offset (λ e. absurd (omega arith))) (omega arith, links)

-- Memory once the block at `at` is filled and linked in front of the free blocks of its page.
abbrev pub freed_mem : (ℕ → ℕ) → Pageref → ℕ → ℕ → ℕ
freed_mem mem pr at =
    store_at (fill_deadbeef (size_of (pr_blocktype pr) / 4) at mem) at (
      if pr.freelist_offset == invalid_offset then 0 else add32 (pr_pageaddr pr) pr.freelist_offset)

module _ {mem : ℕ → ℕ} {pr : Pageref} {js : List ℕ} (v : IsPage mem pr js) (j : ℕ)
    (lt : j < 4096 / size_of (pr_blocktype pr)) (taken : has j js ≡ false) where
  pub few : length js + 1 ≤ 4096 / size_of (pr_blocktype pr)
  few = omega (
    arith,
    length-le_of_Distinct (4096 / size_of (pr_blocktype pr)) (j ∷ js) (taken, v.distinct)
        (lt, v.below),
  )

  pub freed_outside :
      (a : ℕ)
      → (a < block_at pr j) ⊎ (block_at pr j + size_of (pr_blocktype pr) ≤ a)
      → freed_mem mem pr (block_at pr j) a ≡ mem a
  freed_outside a out =
      let bounds = size_bounds (pr_blocktype pr) v.typed in
      let end = block_end (pr_blocktype pr) v.typed j lt in
      store_at_ne (fill_deadbeef (size_of (pr_blocktype pr) / 4) (block_at pr j) mem)
        (block_at pr j) a _ (differs a out)
      ∙ fill_outside (size_of (pr_blocktype pr) / 4) (block_at pr j) mem a
          (omega (arith, bounds, end, v.high)) (beyond a bounds.1 out)
    where
      differs :
          (a : ℕ)
          → (a < block_at pr j) ⊎ (block_at pr j + size_of (pr_blocktype pr) ≤ a)
          → a ≢ block_at pr j
      differs a (inl low) = omega arith
      differs a (inr high) = omega (arith, size_bounds (pr_blocktype pr) v.typed)

      beyond :
          (a : ℕ)
          → size_of (pr_blocktype pr) / 4 * 4 ≡ size_of (pr_blocktype pr)
          → (a < block_at pr j) ⊎ (block_at pr j + size_of (pr_blocktype pr) ≤ a)
          → (a < block_at pr j) ⊎ (block_at pr j + size_of (pr_blocktype pr) / 4 * 4 ≤ a)
      beyond a e (inl low) = inl low
      beyond a e (inr high) = inr (omega arith)

  pub freed_filled :
      (i : ℕ)
      → 0 < i
      → i < size_of (pr_blocktype pr) / 4
      → freed_mem mem pr (block_at pr j) (block_at pr j + i * 4) ≡ 0xdeadbeef
  freed_filled i pos small =
      let bounds = size_bounds (pr_blocktype pr) v.typed in
      let end = block_end (pr_blocktype pr) v.typed j lt in
      store_at_ne (fill_deadbeef (size_of (pr_blocktype pr) / 4) (block_at pr j) mem)
        (block_at pr j) (block_at pr j + i * 4) _ (omega arith)
      ∙ fill_inside (size_of (pr_blocktype pr) / 4) (block_at pr j) i mem
          (omega (arith, bounds, end, v.high)) small

  other_free :
      (i : ℕ)
      → has i js ≡ true
      → freed_mem mem pr (block_at pr j) (block_at pr i) ≡ mem (block_at pr i)
  other_free i m =
      freed_outside (block_at pr i) (elim (Bool-cases (ltb (block_at pr i) (block_at pr j))) [
        | inl below ↦ inl (ltb→lt (block_at pr i) (block_at pr j) below)
        | inr above ↦
            elim (Bool-cases (leb (block_at pr j + size_of (pr_blocktype pr)) (block_at pr i))) [
              | inl behind ↦ inr (leb→le _ (block_at pr i) behind)
              | inr within ↦ absurd (overlap above within)
            ]
      ])
    where
      overlap :
          ltb (block_at pr i) (block_at pr j) ≡ false
          → leb (block_at pr j + size_of (pr_blocktype pr)) (block_at pr i) ≡ false
          → ⊥
      overlap above within =
          let t : ℕ = pr_blocktype pr in
          let d : ℕ = block_at pr i - block_at pr j in
          let start : block_at pr j ≤ block_at pr i = ground arith in
          let end : block_at pr i < block_at pr j + size_of t = ground arith in
          let e : j ≡ i = block_apart t v.typed j i d (omega arith) (omega arith) in
          cc (subst (λ x. has x js ≡ false) e taken)

  pub freed-IsPage :
      IsPage
        (freed_mem mem pr (block_at pr j))
        (record pr { freelist_offset = j * size_of (pr_blocktype pr); nfree = length js + 1 })
        (j ∷ js)
  unfolding pr_pageaddr pr_blocktype
  freed-IsPage = record {
    typed = v.typed;
    low = v.low;
    high = v.high;
    linked = (
      refl,
      rw
          (store_at_self (fill_deadbeef (size_of (pr_blocktype pr) / 4) (block_at pr j) mem)
            (block_at pr j))
          (Links-frame mem (freed_mem mem pr (block_at pr j)) (pr_pageaddr pr)
            (size_of (pr_blocktype pr)) js _ other_free
            (link_of mem (pr_pageaddr pr) (size_of (pr_blocktype pr)) pr.freelist_offset js v.linked
              v.below
              (λ i less. omega (
                arith,
                block_end (pr_blocktype pr) v.typed i less,
                size_bounds (pr_blocktype pr) v.typed,
              ))
              v.high)),
    );
    below = (lt, v.below);
    distinct = (taken, v.distinct);
    counted = omega arith;
  }
