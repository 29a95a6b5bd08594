-- ===== src/Kheap/Free.antt =====
-- The steps of `subpage_kfree` of kern/lib/kheap.c before it frees a block.
use harvard_os161_operating.Prelude.{
  ℕ, zero, suc, ◌+◌, ◌*◌, ◌^◌, ◌≤◌, ◌<◌, ◌≡◌, refl, ◌∙◌, ◌⊎◌, inl, inr, true, false, ◌&&◌, Option,
  none, some, List, [], ◌∷◌, arith, ltb, leb, ◌==◌, ltb→lt, lt→ltb, leb→le, ==→eq, Bool-cases,
}
use harvard_os161_operating.Kheap.{
  Kheap, add32, pr_pageaddr, pr_blocktype, store_at, fill_deadbeef, find_owner,
}
use harvard_os161_operating.Kheap.Lists.{store_at_self, store_at_ne, has}

-- `fill_deadbeef` writes the words of the block and no others.
pub fill_outside :
    (n ptr : ℕ) (mem : ℕ → ℕ) (a : ℕ)
    → ptr + n * 4 < 2 ^ 32
    → (a < ptr) ⊎ (ptr + n * 4 ≤ a)
    → fill_deadbeef n ptr mem a ≡ mem a
unfolding fill_deadbeef
fill_outside zero ptr mem a h out = refl
fill_outside (suc n) ptr mem a h out =
    let next : add32 ptr 4 ≡ ptr + 4 = omega arith in
    rw next (
      fill_outside n (ptr + 4) (store_at mem ptr 0xdeadbeef) a (omega arith) (beyond out)
      ∙ store_at_ne mem ptr a 0xdeadbeef (ground arith))
  where
    beyond : (a < ptr) ⊎ (ptr + suc n * 4 ≤ a) → (a < ptr + 4) ⊎ (ptr + 4 + n * 4 ≤ a)
    beyond (inl low) = inl (omega arith)
    beyond (inr high) = inr (omega arith)

pub fill_inside :
    (n ptr i : ℕ) (mem : ℕ → ℕ)
    → ptr + n * 4 < 2 ^ 32
    → i < n
    → fill_deadbeef n ptr mem (ptr + i * 4) ≡ 0xdeadbeef
unfolding fill_deadbeef
fill_inside zero ptr i mem h lt = elim lt [ ]
fill_inside (suc n) ptr zero mem h lt =
    let next : add32 ptr 4 ≡ ptr + 4 = omega arith in
    let here : ptr + 0 ≡ ptr = omega arith in
    rw (next, here)
      (fill_outside n (ptr + 4) (store_at mem ptr 0xdeadbeef) ptr (omega arith) (inl (omega arith))
        ∙ store_at_self mem ptr 0xdeadbeef)
fill_inside (suc n) ptr (suc i) mem h lt =
    let next : add32 ptr 4 ≡ ptr + 4 = omega arith in
    let there : ptr + suc i * 4 ≡ ptr + 4 + i * 4 = omega arith in
    rw (next, there)
      (fill_inside n (ptr + 4) i (store_at mem ptr 0xdeadbeef) (omega arith) (omega arith))

-- The page on which an address lies, if there is one.
pub data FindOwner (k : Kheap) (a : ℕ) (ps : List ℕ) : Option (Option ℕ) → Type 0 where
  nowhere :
      ((q : ℕ)
        → has q ps ≡ true
        → (a < pr_pageaddr (k.pagerefs q)) ⊎ (pr_pageaddr (k.pagerefs q) + 4096 ≤ a))
      → FindOwner k a ps (some none)
  owned :
      (p : ℕ)
      → has p ps ≡ true
      → pr_pageaddr (k.pagerefs p) ≤ a
      → a < pr_pageaddr (k.pagerefs p) + 4096
      → FindOwner k a ps (some (some p))

off_page :
    (page a : ℕ) → (leb page a && ltb a (page + 4096)) ≡ false → (a < page) ⊎ (page + 4096 ≤ a)
off_page page a away = elim (Bool-cases (leb page a)) [
  | inl above ↦ inr (ground arith)
  | inr below ↦ inl (ground arith)
]

pub find_owner-FindOwner :
    (k : Kheap) (a : ℕ) (ps : List ℕ)
    → ((q : ℕ) → has q ps ≡ true → pr_blocktype (k.pagerefs q) < 8)
    → ((q : ℕ) → has q ps ≡ true → pr_pageaddr (k.pagerefs q) + 4096 < 2 ^ 32)
    → FindOwner k a ps (find_owner k a ps)
unfolding find_owner
find_owner-FindOwner k a [] types ends = nowhere (λ q m. cc)
find_owner-FindOwner k a (p ∷ ps) types ends =
    let page : ℕ = pr_pageaddr (k.pagerefs p) in
    let end : add32 page 4096 ≡ page + 4096 = omega (arith, ends p (ground arith)) in
    rw (lt→ltb (pr_blocktype (k.pagerefs p)) 8 (types p (ground arith)), end)
      (elim (Bool-cases (leb page a && ltb a (page + 4096))) [
        | inl here ↦ rw here (
            owned p (ground arith) (ground (arith, leb→le page a))
              (ground (arith, ltb→lt a (page + 4096))))
        | inr away ↦ rw away (
            later away (find_owner k a ps) (
              find_owner-FindOwner k a ps (λ q m. types q (ground arith))
                (λ q m. ends q (ground arith))))
      ])
  where
    later :
        (leb (pr_pageaddr (k.pagerefs p)) a && ltb a (pr_pageaddr (k.pagerefs p) + 4096)) ≡ false
        → (r : Option (Option ℕ)) → FindOwner k a ps r
        → FindOwner k a (p ∷ ps) r
    later away r (nowhere all) = nowhere (λ q m. elim (Bool-cases (q == p)) [
      | inl this ↦ rw (==→eq q p this) (off_page (pr_pageaddr (k.pagerefs p)) a away)
      | inr other ↦ all q (ground arith)
    ])
    later away r (owned q m low high) = owned q (ground arith) low high
