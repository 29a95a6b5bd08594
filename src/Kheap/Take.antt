-- ===== src/Kheap/Take.antt =====
-- `subpage_kmalloc` from `doalloc`: a page gives its first free block.
use mathlib.Core.Path.{subst}
use harvard_os161_operating.Prelude.{
  ℕ, ◌+◌, ◌*◌, ◌/◌, ◌≤◌, ◌<◌, ◌≡◌, refl, ◌≢◌, true, some, List, [], ◌∷◌, arith, lt→ltb, ne→==,
  length,
}
use harvard_os161_operating.Kheap.{
  Pageref, Kheap, size_of, invalid_offset, add32, sub32, to_u16, pr_pageaddr, pr_blocktype,
  store_at, take_block,
}
use harvard_os161_operating.Kheap.Sizes.{size_bounds, block_end}
use harvard_os161_operating.Kheap.Lists.{has, length-le_of_Distinct}
use harvard_os161_operating.Kheap.Valid.{IsPage, IsKheap, same_pab, replace_page}

-- The address of a block.
abbrev pub block_at : Pageref → ℕ → ℕ
block_at pr j = pr_pageaddr pr + j * size_of (pr_blocktype pr)

take_last :
    (p : ℕ) (k : Kheap) {at : ℕ}
    → add32 (pr_pageaddr (k.pagerefs p)) (k.pagerefs p).freelist_offset ≡ at
    → k.mem at ≡ 0
    → to_u16 ((k.pagerefs p).nfree + 65535) ≡ 0
    → (k.pagerefs p).freelist_offset < 4096
    → take_block p k
      ≡ some (
        at,
        record k {
          pagerefs =
              store_at k.pagerefs p
                (record (k.pagerefs p) { freelist_offset = invalid_offset; nfree = 0 });
        },
      )
unfolding take_block
take_last p k e last none_left inside =
    rw (lt→ltb (k.pagerefs p).freelist_offset 4096 inside, e, last, none_left) refl

take_more :
    (p : ℕ) (k : Kheap) {at next n offset : ℕ}
    → add32 (pr_pageaddr (k.pagerefs p)) (k.pagerefs p).freelist_offset ≡ at
    → k.mem at ≡ next
    → next ≢ 0
    → sub32 next (pr_pageaddr (k.pagerefs p)) ≡ offset
    → offset < 4096
    → to_u16 ((k.pagerefs p).nfree + 65535) ≡ n
    → 0 < n
    → (k.pagerefs p).freelist_offset < 4096
    → take_block p k
      ≡ some (
        at,
        record k {
          pagerefs =
              store_at k.pagerefs p
                (record (k.pagerefs p) { freelist_offset = to_u16 offset; nfree = n });
        },
      )
unfolding take_block
take_more p k {at} {next} {n} {offset} e there not_null off small left some_left inside =
    rw
      (
        lt→ltb (k.pagerefs p).freelist_offset 4096 inside,
        e,
        there,
        ne→== next 0 not_null,
        off,
        left,
        lt→ltb 0 n some_left,
        lt→ltb offset 4096 small,
      )
      refl

-- The pageref once its first block is handed out.
record Taken (p : ℕ) (k : Kheap) (j : ℕ) (js : List ℕ) : Type 0 where
  pub offset : ℕ
  pub runs :
      take_block p k
      ≡ some (
        block_at (k.pagerefs p) j,
        record k {
          pagerefs =
              store_at k.pagerefs p
                (record (k.pagerefs p) { freelist_offset = offset; nfree = length js });
        },
      )
  pub page : IsPage k.mem (record (k.pagerefs p) { freelist_offset = offset; nfree = length js }) js

page_take :
    (p : ℕ) (k : Kheap) (j : ℕ) (js : List ℕ)
    → IsPage k.mem (k.pagerefs p) (j ∷ js)
    → Taken p k j js
unfolding pr_pageaddr pr_blocktype
page_take p k j [] v = record {
  offset = invalid_offset;
  runs =
      take_last p k
        (omega (arith, block_end (pr_blocktype (k.pagerefs p)) v.typed j v.below.0, v.linked.0))
        v.linked.1 (omega (arith, v.counted))
        (omega (
          arith,
          block_end (pr_blocktype (k.pagerefs p)) v.typed j v.below.0,
          size_bounds (pr_blocktype (k.pagerefs p)) v.typed,
          v.linked.0,
        ));
  page = record {
    typed = v.typed;
    low = v.low;
    high = v.high;
    linked = refl;
    below = tt;
    distinct = tt;
    counted = refl;
  };
}
page_take p k j (i ∷ js) v =
    let t : ℕ = pr_blocktype (k.pagerefs p) in
    let n : ℕ = 4096 / size_of t in
    let here = block_end t v.typed j v.below.0 in
    let there = block_end t v.typed i v.below.1.0 in
    let few : length (j ∷ i ∷ js) ≤ n = length-le_of_Distinct n (j ∷ i ∷ js) v.distinct v.below in
    let bounds = size_bounds t v.typed in
    record {
      offset = to_u16 (i * size_of t);
      runs =
          take_more p k (omega (arith, here, v.linked.0, v.high)) v.linked.1.0
            (omega (arith, v.low)) (omega (arith, there, bounds, v.high, v.low))
            (omega (arith, there, bounds)) (omega (arith, v.counted, few, bounds)) (omega arith)
            (omega (arith, here, bounds, v.linked.0));
      page = record {
        typed = v.typed;
        low = v.low;
        high = v.high;
        linked = (omega (arith, there, bounds), v.linked.1.1);
        below = v.below.1;
        distinct = v.distinct.1;
        counted = refl;
      };
    }

-- The block is the first of the list, memory stays, and the list goes on without it.
pub take_block_lem :
    {k : Kheap} {free : ℕ → List ℕ} (v : IsKheap k free) (p j : ℕ) (js : List ℕ)
    → has p k.allbase ≡ true
    → free p ≡ j ∷ js
    → (k' : Kheap) × (take_block p k ≡ some (block_at (k.pagerefs p) j, k'))
      × IsKheap k' (store_at free p js)
      × (k'.mem ≡ k.mem)
      × (k'.allbase ≡ k.allbase)
      × (k'.sizebases ≡ k.sizebases)
      × ((q : ℕ) → (k'.pagerefs q).pageaddr_and_blocktype ≡ (k.pagerefs q).pageaddr_and_blocktype)
take_block_lem {k} {free} v p j js mine e =
    let taken = page_take p k j js (subst (IsPage k.mem (k.pagerefs p)) e (v.pages p mine)) in
    let pr' : Pageref = record (k.pagerefs p) {
      freelist_offset = taken.offset;
      nfree = length js;
    } in
    (
      record k { pagerefs = store_at k.pagerefs p pr' },
      taken.runs,
      replace_page v p mine k.mem pr' js refl (λ a out. refl) taken.page,
      refl,
      refl,
      refl,
      same_pab v p mine k.mem pr' js refl (λ a out. refl) taken.page,
    )
