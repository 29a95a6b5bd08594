-- ===== src/Kheap.antt =====
-- ece344/os161/kern/lib/kheap.c: `kmalloc` and `kfree`.
-- A page is cut into blocks of one size, and its free blocks are linked through their first words.
-- Interrupts are off throughout; `splhigh` and `splx` are left out, and so are the checks that are
-- compiled out and the printing. A list that is linked through `next_samesize` or `next_all` is a list
-- of indices of `pagerefs`, which is also what a `struct pageref *` is here.
pub mod Sizes
pub mod Lists
pub mod Chain
pub mod Valid
pub mod Take
pub mod Pagerefs
pub mod Fresh
pub mod NewPage
pub mod PageSearch
pub mod Alloc
pub mod Give
pub mod Free
pub mod Return
pub mod Outcomes
pub mod Freed
pub mod Clients
pub mod Serve
pub mod Release
pub mod Writes
pub mod Sessions
pub mod Pointers
pub mod RoundTrip
mod Tests
use harvard_os161_operating.Prelude.{
  ◌>>=◌, ◌>>◌, guard, u32_mod, ℕ, zero, suc, ◌+◌, ◌-◌, ◌*◌, ◌/◌, ◌%◌, Bool, true, false, ◌&&◌, not,
  Option, none, some, List, [], ◌∷◌, ltb, leb, ◌==◌, if◌then◌else◌, get_elem?,
}

abbrev pub page_size : ℕ
page_size = 4096

-- `NSIZES`
abbrev pub n_sizes : ℕ
n_sizes = 8

abbrev pub sizes : List ℕ
sizes = 16 ∷ 32 ∷ 64 ∷ 128 ∷ 256 ∷ 512 ∷ 1024 ∷ 2048 ∷ []

-- `sizes[blktype]`; there is nothing behind the eight sizes.
pub size_of : ℕ → ℕ
size_of blktype = elim (get_elem? sizes blktype) [ some size ↦ size | none ↦ 0 ]

abbrev pub largest_subpage_size : ℕ
largest_subpage_size = 2048

abbrev pub invalid_offset : ℕ
invalid_offset = 0xffff

-- Sums and differences of addresses wrap.
abbrev pub add32 : ℕ → ℕ → ℕ
add32 a b = (a + b) % u32_mod

abbrev pub sub32 : ℕ → ℕ → ℕ
sub32 a b = (a + u32_mod - b) % u32_mod

-- What a field of type `u_int16_t` keeps of a number.
abbrev pub to_u16 : ℕ → ℕ
to_u16 n = n % 65536

-- `struct pageref`, without its links.
pub record Pageref : Type 0 where
  pub pageaddr_and_blocktype : ℕ
  pub freelist_offset : ℕ
  pub nfree : ℕ

-- `PR_PAGEADDR`, `PR_BLOCKTYPE` and `MKPAB`
pub pr_pageaddr : Pageref → ℕ
pr_pageaddr pr = pr.pageaddr_and_blocktype / page_size * page_size

pub pr_blocktype : Pageref → ℕ
pr_blocktype pr = pr.pageaddr_and_blocktype % page_size

pub mkpab : ℕ → ℕ → ℕ
mkpab pa blk = pa / page_size * page_size + blk % page_size

-- A value of a function at one argument.
pub store_at {ℓ} : {A : Type ℓ} → (ℕ → A) → ℕ → A → ℕ → A
store_at f i a j = if j == i then a else f j

-- The globals, and memory: `mem a` is the word at the address `a`. Bit `j` of `pagerefs_inuse[i]` is
-- at `i * 32 + j`.
pub record Kheap : Type 0 where
  pub mem : ℕ → ℕ
  pub pagerefs : ℕ → Pageref
  pub pagerefs_inuse : ℕ → Bool
  pub sizebases : ℕ → List ℕ
  pub allbase : List ℕ

-- `for (i=0; i<len/sizeof(u_int32_t); i++) ptr[i] = 0xdeadbeef;`, with `n` rounds left.
pub fill_deadbeef : ℕ → ℕ → (ℕ → ℕ) → ℕ → ℕ
fill_deadbeef zero ptr mem = mem
fill_deadbeef (suc n) ptr mem = fill_deadbeef n (add32 ptr 4) (store_at mem ptr 0xdeadbeef)

-- `pagerefs_inuse[i]==0xffffffff`, from the bits below `n`.
pub is_full : (ℕ → Bool) → ℕ → ℕ → Bool
is_full inuse i zero = true
is_full inuse i (suc n) = inuse (i * 32 + n) && is_full inuse i n

-- `for (k=1,j=0; k!=0; k<<=1,j++)`, with `n` rounds left; `none` is the `assert(0)`.
pub find_bit : (ℕ → Bool) → ℕ → ℕ → ℕ → Option ℕ
find_bit inuse i zero j = none
find_bit inuse i (suc n) j =
    let rest = find_bit inuse i n (j + 1) in if inuse (i * 32 + j) then rest else some (i * 32 + j)

-- `for (i=0; i<INUSE_WORDS; i++)`, with `n` rounds left; the inner `none` is NULL.
pub find_word : (ℕ → Bool) → ℕ → ℕ → Option (Option ℕ)
find_word inuse zero i = some none
find_word inuse (suc n) i =
    let rest = find_word inuse n (i + 1) in
    if is_full inuse i 32 then rest else (find_bit inuse i 32 0 >>= λ p. some (some p))

-- What `allocpageref` returns, with the heap in which the bit is set.
pub allocpageref : Kheap → Option (Option ℕ × Kheap)
allocpageref k = find_word k.pagerefs_inuse 8 0 >>= λ found. elim found [
  | none ↦ some (none, k)
  | some p ↦ some (some p, record k { pagerefs_inuse = store_at k.pagerefs_inuse p true })
]

pub freepageref : ℕ → Kheap → Option Kheap
freepageref p k =
    guard (ltb p 256 && k.pagerefs_inuse (p / 32 * 32 + p % 32))
    >> some (record k { pagerefs_inuse = store_at k.pagerefs_inuse (p / 32 * 32 + p % 32) false })

-- `for (guy = &base; *guy; guy = &(*guy)->next) if (*guy == pr) { *guy = pr->next; break; }`
pub unlink : ℕ → List ℕ → List ℕ
unlink pr [] = []
unlink pr (p ∷ ps) = if p == pr then ps else p ∷ unlink pr ps

pub remove_lists : ℕ → ℕ → Kheap → Option Kheap
remove_lists pr blktype k =
    guard (ltb blktype n_sizes)
    >> some (record k {
      sizebases = store_at k.sizebases blktype (unlink pr (k.sizebases blktype));
      allbase = unlink pr k.allbase;
    })

-- `blocktype` from index `i`, with the sizes from there on; `none` is the panic.
pub blocktype_from : ℕ → List ℕ → ℕ → Option ℕ
blocktype_from sz [] i = none
blocktype_from sz (size ∷ rest) i = if leb sz size then some i else blocktype_from sz rest (i + 1)

pub blocktype : ℕ → Option ℕ
blocktype sz = blocktype_from sz sizes 0

-- `subpage_kmalloc` from `doalloc`: the first free block of the page of `p` is handed out.
pub take_block : ℕ → Kheap → Option (ℕ × Kheap)
take_block p k =
    let pr = k.pagerefs p in
    let prpage = pr_pageaddr pr in
    let retptr = add32 prpage pr.freelist_offset in
    let next = k.mem retptr in
    let nfree = to_u16 (pr.nfree + 65535) in
    let end = record pr { freelist_offset = invalid_offset; nfree = nfree } in
    let more = record pr { freelist_offset = to_u16 (sub32 next prpage); nfree = nfree } in
    guard (ltb pr.freelist_offset page_size)
    >> (if next == 0
        then guard (nfree == 0) >> some (retptr, record k { pagerefs = store_at k.pagerefs p end })
        else guard (ltb 0 nfree && ltb (sub32 next prpage) page_size)
          >> some (retptr, record k { pagerefs = store_at k.pagerefs p more }))

-- `for (pr = sizebases[blktype]; pr != NULL; pr = pr->next_samesize)`: the first page with a free
-- block; the inner `none` is the end of the list.
pub find_page : Kheap → ℕ → List ℕ → Option (Option ℕ)
find_page k blktype [] = some none
find_page k blktype (p ∷ ps) =
    let rest = find_page k blktype ps in
    guard (pr_blocktype (k.pagerefs p) == blktype)
    >> (if ltb 0 (k.pagerefs p).nfree then some (some p) else rest)

-- `for (i=1; i<pr->nfree; i++)`, with `n` rounds left: the last block and memory.
pub link_blocks : ℕ → ℕ → ℕ → ℕ → ℕ → (ℕ → ℕ) → Option (ℕ × (ℕ → ℕ))
link_blocks zero fla size i fl mem = some (fl, mem)
link_blocks (suc n) fla size i fl mem =
    let block = add32 fla (i * size) in
    let mem' = store_at mem block (add32 fla ((i - 1) * size)) in
    guard (not (block == mem' block)) >> link_blocks n fla size (i + 1) block mem'

-- What `subpage_kmalloc` does with the page at `prpage` and the pageref `p` before `doalloc`.
pub new_page : ℕ → ℕ → ℕ → Kheap → Option Kheap
new_page p prpage blktype k =
    let size = size_of blktype in
    let nfree = to_u16 (page_size / size) in
    link_blocks (nfree - 1) prpage size 1 prpage (store_at k.mem prpage 0) >>= λ r.
    let offset = to_u16 (sub32 (r.0) prpage) in
    let pr : Pageref = record {
      pageaddr_and_blocktype = mkpab prpage blktype;
      freelist_offset = offset;
      nfree = nfree;
    } in
    guard (offset == (nfree - 1) * size)
    >> some (record k {
      mem = r.1;
      pagerefs = store_at k.pagerefs p pr;
      sizebases = store_at k.sizebases blktype (p ∷ k.sizebases blktype);
      allbase = p ∷ k.allbase;
    })

-- `subpage_kmalloc` where no page has a free block.
pub extend : ℕ → ℕ → Kheap → Option (ℕ × Kheap)
extend page blktype k = allocpageref k >>= λ r. elim r.0 [
  | none ↦ some (0, r.1)
  | some p ↦
      if page == 0
      then (freepageref p (r.1) >>= λ k'. some (0, k'))
      else (new_page p page blktype (r.1) >>= take_block p)
]

-- `subpage_kmalloc`; `page` is what `alloc_kpages(1)` returns, and NULL is 0.
pub subpage_kmalloc : ℕ → ℕ → Kheap → Option (ℕ × Kheap)
subpage_kmalloc page sz k = blocktype sz >>= λ blktype.
    find_page k blktype (k.sizebases blktype) >>= λ found. elim found [
      | some p ↦ take_block p k
      | none ↦ extend page blktype k
    ]

-- `for (pr = allbase; pr; pr = pr->next_all)`: the pageref of the page on which `ptraddr` lies.
pub find_owner : Kheap → ℕ → List ℕ → Option (Option ℕ)
find_owner k ptraddr [] = some none
find_owner k ptraddr (p ∷ ps) =
    let rest = find_owner k ptraddr ps in
    let prpage = pr_pageaddr (k.pagerefs p) in
    guard (ltb (pr_blocktype (k.pagerefs p)) n_sizes)
    >> (if leb prpage ptraddr && ltb ptraddr (add32 prpage page_size) then some (some p) else rest)

-- What `subpage_kfree` returns: -1, or 0 and the page that it gave to `free_kpages`, if it did.
pub data Kfree : Type 0 where
  elsewhere : Kfree
  kept : Kfree
  gave_back : ℕ → Kfree

-- `subpage_kfree` where the page is wholly free.
pub give_back : ℕ → ℕ → ℕ → Kheap → Option (Kfree × Kheap)
give_back p prpage blktype k =
    remove_lists p blktype k >>= λ k'. freepageref p k' >>= λ k''. some (gave_back prpage, k'')

-- `subpage_kfree` of a block on the page of `p`.
pub free_block : ℕ → ℕ → Kheap → Option (Kfree × Kheap)
free_block p ptraddr k =
    let pr = k.pagerefs p in
    let prpage = pr_pageaddr pr in
    let blktype = pr_blocktype pr in
    let offset = sub32 ptraddr prpage in
    let size = size_of blktype in
    let filled = fill_deadbeef (size / 4) ptraddr k.mem in
    let next =
      if pr.freelist_offset == invalid_offset then 0 else add32 prpage pr.freelist_offset in
    let nfree = to_u16 (pr.nfree + 1) in
    let k' : Kheap = record k {
      mem = store_at filled (add32 prpage offset) next;
      pagerefs =
          store_at k.pagerefs p (record pr { freelist_offset = to_u16 offset; nfree = nfree });
    } in
    guard (ltb offset page_size && (offset % size == 0))
    >> (guard (leb nfree (page_size / size))
        >> (if nfree == page_size / size then give_back p prpage blktype k' else some (kept, k')))

pub subpage_kfree : ℕ → Kheap → Option (Kfree × Kheap)
subpage_kfree ptr k = find_owner k ptr k.allbase >>= λ found. elim found [
  | none ↦ some (elsewhere, k)
  | some p ↦ free_block p ptr k
]

-- `kmalloc`; `alloc_kpages n` is what that returns for `n` pages.
pub kmalloc : (ℕ → ℕ) → ℕ → Kheap → Option (ℕ × Kheap)
kmalloc alloc_kpages sz k =
    if leb largest_subpage_size sz
    then some (alloc_kpages ((sz + page_size - 1) % u32_mod / page_size), k)
    else subpage_kmalloc (alloc_kpages 1) sz k

-- `kfree`; the list is what it gives to `free_kpages`.
pub kfree : ℕ → Kheap → Option (List ℕ × Kheap)
kfree ptr k =
    if ptr == 0
    then some ([], k)
    else (subpage_kfree ptr k >>= λ r. elim r.0 [
      | elsewhere ↦ guard (ptr % page_size == 0) >> some (ptr ∷ [], r.1)
      | kept ↦ some ([], r.1)
      | gave_back page ↦ some (page ∷ [], r.1)
    ])
