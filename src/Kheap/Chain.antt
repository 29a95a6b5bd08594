-- ===== src/Kheap/Chain.antt =====
-- The list of the free blocks of a page, linked through their first words.
use mathlib.Core.Path.{subst}
use harvard_os161_operating.Prelude.{
  ℕ, zero, suc, ◌+◌, ◌-◌, ◌*◌, ◌/◌, ◌^◌, ◌≤◌, ◌<◌, ◌≡◌, refl, ap, ◌∙◌, ◌≢◌, ◌⊎◌, inl, inr, true,
  false, some, List, [], ◌∷◌, arith, ◌==◌, ne→==, ==→ne, Bool-cases, length,
}
use harvard_os161_operating.Kheap.{size_of, invalid_offset, add32, store_at, link_blocks}
use harvard_os161_operating.Kheap.Sizes.{size_bounds, block_end, block_apart}
use harvard_os161_operating.Kheap.Lists.{
  store_at_self, store_at_ne, has, Distinct, AllBelow, below_of_has,
}

-- From the pointer `a` the links lead through the blocks with these numbers to NULL.
abbrev pub Links : (ℕ → ℕ) → ℕ → ℕ → List ℕ → ℕ → Type 0
Links mem page size [] a = a ≡ 0
Links mem page size (j ∷ js) a =
    (a ≡ page + j * size) × Links mem page size js (mem (page + j * size))

-- The same from what `freelist_offset` holds.
abbrev pub FreeList : (ℕ → ℕ) → ℕ → ℕ → List ℕ → ℕ → Type 0
FreeList mem page size [] offset = offset ≡ invalid_offset
FreeList mem page size (j ∷ js) offset =
    (offset ≡ j * size) × Links mem page size js (mem (page + j * size))

-- A change that spares the first words of the free blocks keeps the list.
pub Links-frame :
    (mem mem' : ℕ → ℕ) (page size : ℕ) (js : List ℕ) (a : ℕ)
    → ((j : ℕ) → has j js ≡ true → mem' (page + j * size) ≡ mem (page + j * size))
    → Links mem page size js a
    → Links mem' page size js a
Links-frame mem mem' page size [] a spared links = links
Links-frame mem mem' page size (j ∷ js) a spared (here, links) = (
  here,
  rw (spared j (ground arith))
      (Links-frame mem mem' page size js _ (λ i m. spared i (ground arith)) links),
)

pub FreeList-frame :
    (mem mem' : ℕ → ℕ) (page size : ℕ) (js : List ℕ) (offset : ℕ)
    → ((j : ℕ) → has j js ≡ true → mem' (page + j * size) ≡ mem (page + j * size))
    → FreeList mem page size js offset
    → FreeList mem' page size js offset
FreeList-frame mem mem' page size [] a spared links = links
FreeList-frame mem mem' page size (j ∷ js) a spared (here, links) = (
  here,
  rw (spared j (ground arith))
      (Links-frame mem mem' page size js _ (λ i m. spared i (ground arith)) links),
)

-- A page whose blocks from `n - 1` down to 0 are free.
abbrev pub count_down : ℕ → List ℕ
count_down zero = []
count_down (suc n) = n ∷ count_down n

pub length-count_down : (n : ℕ) → length (count_down n) ≡ n
length-count_down zero = refl
length-count_down (suc n) = ap suc (length-count_down n)

pub has-count_down : (n j : ℕ) → n ≤ j → has j (count_down n) ≡ false
has-count_down zero j h = refl
has-count_down (suc n) j h = ground (arith, has-count_down n j)

pub count_down-has : (n j : ℕ) → j < n → has j (count_down n) ≡ true
count_down-has zero j h = elim h [ ]
count_down-has (suc n) j h = elim (Bool-cases (j == n)) [
  | inl last ↦ rw last refl
  | inr before ↦ ground (arith, count_down-has n j, ==→ne j n before)
]

pub count_down-Distinct : (n : ℕ) → Distinct (count_down n)
count_down-Distinct zero = tt
count_down-Distinct (suc n) = (has-count_down n n (omega arith), count_down-Distinct n)

AllBelow-weaken : (n m : ℕ) (xs : List ℕ) → n ≤ m → AllBelow n xs → AllBelow m xs
AllBelow-weaken n m [] h all = tt
AllBelow-weaken n m (x ∷ xs) h (p, all) = (omega arith, AllBelow-weaken n m xs h all)

pub count_down-AllBelow : (n : ℕ) → AllBelow n (count_down n)
count_down-AllBelow zero = tt
count_down-AllBelow (suc n) =
    (omega arith, AllBelow-weaken n (suc n) (count_down n) (omega arith) (count_down-AllBelow n))

-- A list that starts at the last block, from its offset.
pub FreeList-count_down :
    (mem : ℕ → ℕ) (page size n fl : ℕ)
    → 0 < n
    → Links mem page size (count_down n) fl
    → FreeList mem page size (count_down n) ((n - 1) * size)
FreeList-count_down mem page size zero fl h links = absurd (omega arith)
FreeList-count_down mem page size (suc n) fl h links = (ap (λ m. m * size) (omega arith), links.1)

-- What the loop that links a new page has done when the blocks up to `i` are linked.
pub record Linked (t page i fl : ℕ) (mem mem' : ℕ → ℕ) : Type 0 where
  pub end : fl ≡ page + i * size_of t
  pub links : Links mem' page (size_of t) (count_down (suc i)) fl
  -- Outside of the page nothing is written.
  pub outside : (a : ℕ) → (a < page) ⊎ (page + 4096 ≤ a) → mem' a ≡ mem a

linked_round :
    (n page size i fl : ℕ) (mem : ℕ → ℕ) {block prev : ℕ}
    → add32 page (suc i * size) ≡ block
    → add32 page ((suc i - 1) * size) ≡ prev
    → block ≢ prev
    → link_blocks (suc n) page size (suc i) fl mem
      ≡ link_blocks n page size (suc (suc i)) block (store_at mem block prev)
unfolding link_blocks
linked_round n page size i fl mem {block} {prev} at before ne =
    rw (at, before, store_at_self mem block prev, ne→== block prev ne)
      (ap (λ m. link_blocks n page size m block (store_at mem block prev)) (omega arith))

module _ (t page : ℕ) (typed : t < 8) (low : 4096 ≤ page) (high : page + 4096 < 2 ^ 32) where
  pub place : (j : ℕ) → j < 4096 / size_of t → add32 page (j * size_of t) ≡ page + j * size_of t
  place j h = omega (arith, block_end t typed j h, size_bounds t typed)

  other_block : (i j : ℕ) → i ≢ j → page + i * size_of t ≢ page + j * size_of t
  other_block i j ne e =
      ne (block_apart t typed i j 0 (omega (arith, size_bounds t typed)) (omega arith))

  first : (mem : ℕ → ℕ) → Linked t page 0 page mem (store_at mem page 0)
  first mem = record {
    end = omega arith;
    links = (omega arith, ap (store_at mem page 0) (omega arith) ∙ store_at_self mem page 0);
    outside = λ a out. store_at_ne mem page a 0 (ground arith);
  }

  round :
      (i fl : ℕ) (mem mem' : ℕ → ℕ)
      → suc i < 4096 / size_of t
      → Linked t page i fl mem mem'
      → Linked t page
          (suc i)
          (page + suc i * size_of t)
          mem
          (store_at mem' (page + suc i * size_of t) (page + i * size_of t))
  round i fl mem mem' h l =
      let block : ℕ = page + suc i * size_of t in
      record {
        end = refl;
        links = (
          refl,
          rw (store_at_self mem' block (page + i * size_of t)) (
              Links-frame mem' (store_at mem' block (page + i * size_of t)) page (size_of t)
                (count_down (suc i)) _
                (λ j m. store_at_ne mem' block (page + j * size_of t) _ (
                  other_block j (suc i) (
                    omega (
                      arith,
                      below_of_has (suc i) (count_down (suc i)) j (count_down-AllBelow (suc i)) m,
                    ))))
                (subst (Links mem' page (size_of t) (count_down (suc i))) l.end l.links)),
        );
        outside = λ a out.
            store_at_ne mem' block a _ (ground (arith, block_end t typed (suc i) h))
            ∙ l.outside a out;
      }

  pub link_blocks_lem :
      (n i fl : ℕ) (mem mem' : ℕ → ℕ)
      → i + n < 4096 / size_of t
      → Linked t page i fl mem mem'
      → (fl' : ℕ) × (mem'' : ℕ → ℕ) × (link_blocks n page (size_of t) (suc i) fl mem'
          ≡ some (fl', mem''))
        × Linked t page (i + n) fl' mem mem''
  unfolding link_blocks
  link_blocks_lem zero i fl mem mem' h l =
      (fl, mem', refl, subst (λ m. Linked t page m fl mem mem') (omega arith) l)
  link_blocks_lem (suc n) i fl mem mem' h l =
      let (fl', mem'', runs, linked) =
        link_blocks_lem n (suc i) (page + suc i * size_of t) mem
          (store_at mem' (page + suc i * size_of t) (page + i * size_of t)) (omega arith)
          (round i fl mem mem' (omega arith) l) in
      (
        fl',
        mem'',
        linked_round n page (size_of t) i fl mem' (place (suc i) (omega arith))
              (ap (λ m. add32 page (m * size_of t)) (omega arith) ∙ place i (omega arith))
              (other_block (suc i) i (omega arith))
            ∙ runs,
        subst (λ m. Linked t page m fl' mem mem'') (omega arith) linked,
      )

  -- A page of blocks is linked from the last one down.
  pub link_page :
      (mem : ℕ → ℕ)
      → (fl : ℕ) × (mem' : ℕ → ℕ) × (link_blocks
            (4096 / size_of t - 1)
            page
            (size_of t)
            1
            page
            (store_at mem page 0)
          ≡ some (fl, mem'))
        × Linked t page (4096 / size_of t - 1) fl mem mem'
  link_page mem =
      let (fl, mem', runs, linked) =
        link_blocks_lem (4096 / size_of t - 1) 0 page mem (store_at mem page 0)
          (omega (arith, size_bounds t typed)) (first mem) in
      (fl, mem', runs, subst (λ m. Linked t page m fl mem mem') (omega arith) linked)
