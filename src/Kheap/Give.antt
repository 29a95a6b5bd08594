-- ===== src/Kheap/Give.antt =====
-- Giving a page of kern/lib/kheap.c back: `remove_lists`, `free_kpages`, `freepageref`.
use harvard_os161_operating.Prelude.{
  ℕ, ◌<◌, ◌≡◌, sym, ◌∙◌, inl, inr, true, false, ◌&&◌, some, List, arith, ◌==◌, lt→ltb, ==→eq, ne→==,
  ==→ne, Bool-cases,
}
use harvard_os161_operating.Process.Change.{bind_some}
use harvard_os161_operating.Kheap.{
  Kheap, gave_back, pr_blocktype, store_at, unlink, remove_lists, give_back,
}
use harvard_os161_operating.Kheap.Lists.{
  store_at_self, store_at_ne, has, Distinct, has-unlink, unlink-Distinct,
}
use harvard_os161_operating.Kheap.Valid.{IsKheap}
use harvard_os161_operating.Kheap.Pagerefs.{freepageref_lem}

module _ {k : Kheap} {free : ℕ → List ℕ} (v : IsKheap k free) (p t : ℕ)
    (mine : has p k.allbase ≡ true) (type : pr_blocktype (k.pagerefs p) ≡ t) (typed : t < 8) where
  abbrev pub without_page : Kheap
  without_page = record k {
    pagerefs_inuse = store_at k.pagerefs_inuse p false;
    sizebases = store_at k.sizebases t (unlink p (k.sizebases t));
    allbase = unlink p k.allbase;
  }

  pub give_back_runs : (page : ℕ) → give_back p page t k ≡ some (gave_back page, without_page)
  unfolding give_back remove_lists
  give_back_runs page =
      rw (lt→ltb t 8 typed)
        (bind_some _ (freepageref_lem p _ (v.bound p mine) (v.in_use p (v.bound p mine) ∙ mine)))

  still : (q : ℕ) → has q (unlink p k.allbase) ≡ true → has q k.allbase ≡ true
  still q m = ground (arith, has-unlink p k.allbase q v.distinct)

  in_use_without :
      (q : ℕ) → q < 256 → store_at k.pagerefs_inuse p false q ≡ has q (unlink p k.allbase)
  unfolding store_at
  in_use_without q lt = ground (arith, has-unlink p k.allbase q v.distinct, v.in_use q lt)

  sized_without :
      (u q : ℕ)
      → u < 8
      → has q (store_at k.sizebases t (unlink p (k.sizebases t)) u)
        ≡ (has q (unlink p k.allbase) && (pr_blocktype (k.pagerefs q) == u))
  sized_without u q lt = elim (Bool-cases (u == t)) [
    | inl this ↦
        rw
          (
            ==→eq u t this,
            store_at_self k.sizebases t (unlink p (k.sizebases t)),
            has-unlink p (k.sizebases t) q (v.sizes_distinct t typed),
            has-unlink p k.allbase q v.distinct,
            v.sized t q typed,
          )
          (ground arith)
    | inr other ↦
        rw
          (
            store_at_ne k.sizebases t u (unlink p (k.sizebases t)) (==→ne u t other),
            has-unlink p k.allbase q v.distinct,
            v.sized u q lt,
          )
          (elim (Bool-cases (q == p)) [
            | inl own ↦
                rw (==→eq q p own, type, ne→== t u (λ e. ==→ne u t other (sym e))) (ground arith)
            | inr differs ↦ rw differs (ground arith)
          ])
  ]

  unlinked-Distinct :
      (u : ℕ) → u < 8 → Distinct (store_at k.sizebases t (unlink p (k.sizebases t)) u)
  unlinked-Distinct u lt = elim (Bool-cases (u == t)) [
    | inl this ↦
        rw (==→eq u t this, store_at_self k.sizebases t (unlink p (k.sizebases t)))
          (unlink-Distinct p (k.sizebases t) (v.sizes_distinct t typed))
    | inr other ↦
        rw (store_at_ne k.sizebases t u (unlink p (k.sizebases t)) (==→ne u t other))
          (v.sizes_distinct u lt)
  ]

  pub without_page-IsKheap : IsKheap without_page free
  without_page-IsKheap = record {
    pages = λ q m. v.pages q (still q m);
    apart = λ q r mq mr ne. v.apart q r (still q mq) (still r mr) ne;
    distinct = unlink-Distinct p k.allbase v.distinct;
    bound = λ q m. v.bound q (still q m);
    in_use = in_use_without;
    sized = sized_without;
    sizes_distinct = unlinked-Distinct;
  }
