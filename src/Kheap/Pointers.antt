-- ===== src/Kheap/Pointers.antt =====
-- However the heap of kern/lib/kheap.c is used, its users hold blocks of their own.
use mathlib.Core.Option.{some-injective}
use mathlib.Core.Path.{subst}
use harvard_os161_operating.Prelude.{
  ℕ, ◌+◌, ◌≤◌, ◌<◌, ◌≡◌, refl, sym, ap, ◌∙◌, ◌≢◌, ◌⊎◌, inl, inr, Bool, true, false, ◌||◌, Option,
  some, List, ◌∷◌, arith, ◌==◌, ==→eq, ==→ne, Bool-cases,
}
use harvard_os161_operating.Kheap.{Kheap, pr_pageaddr, store_at, unlink, kfree}
use harvard_os161_operating.Kheap.Lists.{has, has-unlink, unlink-Distinct}
use harvard_os161_operating.Kheap.Valid.{pageaddr_of_pab, blocktype_of_pab}
use harvard_os161_operating.Kheap.Take.{block_at}
use harvard_os161_operating.Kheap.Outcomes.{InUse}
use harvard_os161_operating.Kheap.Freed.{only_owner}
use harvard_os161_operating.Kheap.Clients.{Handed, block_size, keeps_use}
use harvard_os161_operating.Kheap.Alloc.{Scarce, SamePage}
use harvard_os161_operating.Kheap.Serve.{kmalloc-Handed}
use harvard_os161_operating.Kheap.Release.{Released, Differ, kfree-Released}
use harvard_os161_operating.Kheap.Writes.{same_block, write-IsKheap}
use harvard_os161_operating.Kheap.Sessions.{
  Held, Owned, IsHeld, Step, Steps, allocates, finds_none, gives_up, writes, here, next,
}

-- A pointer goes on to be to the same block where that stays in use.
still_owned :
    {k k' : Kheap} {free free' : ℕ → List ℕ} (a : ℕ) (o : Owned k free a)
    → InUse k' free' o.page o.block
    → SamePage k k' o.page
    → Owned k' free' a
still_owned {k} {k'} a o used same_page = record {
  page = o.page;
  block = o.block;
  used = used;
  at =
      rw
        (
          pageaddr_of_pab (k'.pagerefs o.page) (k.pagerefs o.page) same_page,
          blocktype_of_pab (k'.pagerefs o.page) (k.pagerefs o.page) same_page,
        )
        o.at;
}

allocates-IsHeld :
    (s : Held) (sz a : ℕ) (k' : Kheap) (h : IsHeld s)
    → Handed s.heap h.free sz a k'
    → IsHeld (record { heap = k'; live = a ∷ s.live })
unfolding still_owned
allocates-IsHeld s sz a k' h handed = record {
  free = handed.free';
  valid = handed.valid;
  owned = owned_by;
  distinct = (fresh_pointer (has a s.live) refl, h.distinct);
}
  where
    kept_block : (b : ℕ) → has b s.live ≡ true → Owned k' handed.free' b
    kept_block b m =
        let o = h.owned b m in
        let (used, same_page) = handed.others o.page o.block o.used in
        still_owned b o used same_page

    owned_by : (b : ℕ) → ((b == a) || has b s.live) ≡ true → Owned k' handed.free' b
    owned_by b m = elim (Bool-cases (b == a)) [
      | inl this ↦ record {
        page = handed.page;
        block = handed.block;
        used = handed.used;
        at = ==→eq b a this ∙ handed.at;
      }
      | inr other ↦ kept_block b (ground arith)
    ]

    fresh_pointer : (b : Bool) → has a s.live ≡ b → has a s.live ≡ false
    fresh_pointer false e = e
    fresh_pointer true e =
        let o = h.owned a e in
        let o' = kept_block a e in
        let (p, j) =
          same_block handed.valid o'.page o'.block handed.page handed.block o'.used handed.used
            (sym o'.at ∙ handed.at) in
        absurd (
          handed.new (
            subst (λ x. InUse s.heap h.free x handed.block) p
              (subst (λ x. InUse s.heap h.free o.page x) j o.used)))

gives_up-IsHeld :
    (s : Held) (a : ℕ) (pages : List ℕ) (k' : Kheap) (h : IsHeld s) (o : Owned s.heap h.free a)
    → Released s.heap h.free o.page o.block pages k'
    → IsHeld (record { heap = k'; live = unlink a s.live })
gives_up-IsHeld s a pages k' h o released = record {
  free = released.free';
  valid = released.valid;
  owned = owned_by;
  distinct = unlink-Distinct a s.live h.distinct;
}
  where
    differ : (b : ℕ) (o' : Owned s.heap h.free b) → b ≢ a → Differ o'.page o'.block o.page o.block
    differ b o' ne = elim (Bool-cases (o'.page == o.page)) [
      | inr other ↦ inl (==→ne o'.page o.page other)
      | inl this ↦ elim (Bool-cases (o'.block == o.block)) [
        | inr apart ↦ inr (==→eq o'.page o.page this, ==→ne o'.block o.block apart)
        | inl block ↦ absurd (
            ne (
              o'.at
              ∙ (ap (λ x. block_at (s.heap.pagerefs x) o'.block) (==→eq o'.page o.page this)
                  ∙ (ap (λ x. block_at (s.heap.pagerefs o.page) x) (==→eq o'.block o.block block)
                      ∙ sym o.at))))
      ]
    ]

    owned_by : (b : ℕ) → has b (unlink a s.live) ≡ true → Owned k' released.free' b
    owned_by b m =
        let gone = has-unlink a s.live b h.distinct in
        let m' : has b s.live ≡ true = ground (arith) in
        let ne : b ≢ a = ==→ne b a (ground arith) in
        let o' = h.owned b m' in
        let (used, same_page) = released.others o'.page o'.block (differ b o' ne) o'.used in
        still_owned b o' used same_page

writes-IsHeld :
    (s : Held) (a p x w : ℕ)
    → IsHeld s
    → has a s.live ≡ true
    → has p s.heap.allbase ≡ true
    → pr_pageaddr (s.heap.pagerefs p) ≤ a
    → a < pr_pageaddr (s.heap.pagerefs p) + 4096
    → a ≤ x
    → x < a + block_size (s.heap.pagerefs p)
    → IsHeld (record { heap = record (s.heap) { mem = store_at s.heap.mem x w }; live = s.live })
writes-IsHeld s a p x w h m mine low high from to =
    let o = h.owned a m in
    let same =
      only_owner h.valid o.page o.block o.used p mine (omega (arith, o.at)) (omega (arith, o.at)) in
    let to' = subst (λ q. x < a + block_size (s.heap.pagerefs q)) same to in
    record {
      free = h.free;
      valid =
          write-IsKheap o.page o.block x w h.valid o.used (omega (arith, o.at))
            (omega (arith, o.at));
      owned = λ b m'.
          let o' = h.owned b m' in
          still_owned b o' (keeps_use o'.page o'.block o'.used.mine refl o'.used.taken o'.used)
            refl;
      distinct = h.distinct;
    }

-- The results of a call that runs are those it has.
pub same_result :
    {A : Type 0} {o : Option (A × Kheap)} {a b : A} {k k' : Kheap}
    → o ≡ some (a, k)
    → o ≡ some (b, k')
    → (a ≡ b) × (k ≡ k')
same_result {A} e e' =
    let same = some-injective _ _ (sym e ∙ e') in
    (ap (λ (x : A × Kheap). x.0) same, ap (λ (x : A × Kheap). x.1) same)

Step-IsHeld : {s t : Held} → Step s t → IsHeld s → IsHeld t
Step-IsHeld (allocates s alloc_kpages sz a k' supply small runs not_null) h =
    let (b, k'', runs', outcome) = kmalloc-Handed alloc_kpages sz h.valid supply small in
    let (e, e') = same_result runs' runs in
    go
      (subst
        (λ x.
          ((x ≡ 0) × (k'' ≡ s.heap) × Scarce s.heap (alloc_kpages 1))
          ⊎ Handed s.heap h.free sz x k'')
        e outcome)
      e'
  where
    go :
        {k'' : Kheap}
        → (((a ≡ 0) × (k'' ≡ s.heap) × Scarce s.heap (alloc_kpages 1))
            ⊎ Handed s.heap h.free sz a k'')
        → k'' ≡ k'
        → IsHeld (record { heap = k'; live = a ∷ s.live })
    go (inl null) e' = absurd (not_null null.0)
    go (inr handed) e' = allocates-IsHeld s sz a k' h (subst (Handed s.heap h.free sz a) e' handed)
Step-IsHeld (finds_none s alloc_kpages sz k' supply small runs) h =
    let (b, k'', runs', outcome) = kmalloc-Handed alloc_kpages sz h.valid supply small in
    let (e, e') = same_result runs' runs in go outcome e e'
  where
    go :
        {b : ℕ} {k'' : Kheap}
        → (((b ≡ 0) × (k'' ≡ s.heap) × Scarce s.heap (alloc_kpages 1))
            ⊎ Handed s.heap h.free sz b k'')
        → b ≡ 0
        → k'' ≡ k'
        → IsHeld (record { heap = k'; live = s.live })
    go (inl null) e e' =
        subst (λ k. IsHeld (record { heap = k; live = s.live })) (sym null.1 ∙ e') h
    go (inr handed) e e' =
        absurd (omega (arith, handed.at, (handed.valid.pages handed.page handed.used.mine).low))
Step-IsHeld (gives_up s a pages k' m runs) h =
    let o = h.owned a m in
    let (pages', k'', runs', released) = kfree-Released o.page o.block h.valid o.used in
    let (e, e') =
      same_result (subst (λ x. kfree x s.heap ≡ some (pages', k'')) (sym o.at) runs') runs in
    gives_up-IsHeld s a pages k' h o (
      subst (λ x. Released s.heap h.free o.page o.block x k') e
        (subst (Released s.heap h.free o.page o.block pages') e' released))
Step-IsHeld (writes s a p x w m mine low high from to) h =
    writes-IsHeld s a p x w h m mine low high from to

-- However requests, returns of held blocks and writes to held blocks follow one another, the heap
-- stays well formed, and each pointer that is held is to a block in use and held once.
pub Steps-IsHeld : {s t : Held} → Steps s t → IsHeld s → IsHeld t
Steps-IsHeld here h = h
Steps-IsHeld (next steps step) h = Step-IsHeld step (Steps-IsHeld steps h)
