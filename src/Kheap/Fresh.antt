-- ===== src/Kheap/Fresh.antt =====
-- A new page of kern/lib/kheap.c.
use harvard_os161_operating.Prelude.{
  ℕ, ◌+◌, ◌-◌, ◌*◌, ◌/◌, ◌%◌, ◌^◌, ◌≤◌, ◌<◌, ◌≡◌, refl, ◌≢◌, true, some, ◌∷◌, arith, eq→==,
}
use harvard_os161_operating.Kheap.{
  Pageref, Kheap, size_of, sub32, to_u16, pr_pageaddr, pr_blocktype, mkpab, store_at, link_blocks,
  new_page,
}
use harvard_os161_operating.Kheap.Lists.{has}

-- What is known of a page that `alloc_kpages` returns: it is aligned, lies in the kernel's part of
-- memory, and is none of the heap's pages.
pub record IsFresh (k : Kheap) (page : ℕ) : Type 0 where
  pub aligned : page % 4096 ≡ 0
  pub low : 4096 ≤ page
  pub high : page + 4096 < 2 ^ 32
  pub new : (q : ℕ) → has q k.allbase ≡ true → pr_pageaddr (k.pagerefs q) ≢ page

pub new_page_runs :
    (p page t : ℕ) (k : Kheap) {n fl : ℕ} {mem : ℕ → ℕ}
    → to_u16 (4096 / size_of t) ≡ n
    → link_blocks (n - 1) page (size_of t) 1 page (store_at k.mem page 0) ≡ some (fl, mem)
    → to_u16 (sub32 fl page) ≡ (n - 1) * size_of t
    → new_page p page t k
      ≡ some (record k {
        mem = mem;
        pagerefs = store_at k.pagerefs p (record {
          pageaddr_and_blocktype = mkpab page t;
          freelist_offset = (n - 1) * size_of t;
          nfree = n;
        });
        sizebases = store_at k.sizebases t (p ∷ k.sizebases t);
        allbase = p ∷ k.allbase;
      })
unfolding new_page
new_page_runs p page t k {n} count links offset =
    rw (count, links, offset, eq→== ((n - 1) * size_of t) _ refl) refl

-- The pageref of a page at `page` that is wholly free.
abbrev pub fresh_pageref : ℕ → ℕ → Pageref
fresh_pageref page t = record {
  pageaddr_and_blocktype = mkpab page t;
  freelist_offset = (4096 / size_of t - 1) * size_of t;
  nfree = 4096 / size_of t;
}

pub pageaddr-fresh :
    (page t : ℕ) → t < 8 → page % 4096 ≡ 0 → pr_pageaddr (fresh_pageref page t) ≡ page
unfolding pr_pageaddr mkpab
pageaddr-fresh page t typed aligned = omega arith

pub blocktype-fresh :
    (page t : ℕ) → t < 8 → page % 4096 ≡ 0 → pr_blocktype (fresh_pageref page t) ≡ t
unfolding pr_blocktype mkpab
blocktype-fresh page t typed aligned = omega arith
