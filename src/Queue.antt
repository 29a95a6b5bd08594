-- ===== src/Queue.antt =====
-- ece344/os161/kern/lib/queue.c: a circular queue of void pointers that grows when it is full.
-- A pointer is a number; a cell that was never written is `none`. One cell always stays unused.
-- `mem` says of the one `kmalloc` that an operation may call whether it returns a block.
-- `q_addtail` and `q_grow` call one another: `addtail` counts how deep that goes, and
-- Queue/Write shows that one level is enough.
pub mod Holds
pub mod Write
pub mod Grow
pub mod Fifo
mod Tests
use harvard_os161_operating.Prelude.{
  Status, success, enomem, ◌>>=◌, ◌>>◌, guard, store, int_limit, fresh_cells, is_success, ℕ, zero,
  suc, ◌+◌, ◌*◌, ◌%◌, Bool, true, false, ◌&&◌, not, Option, none, some, List, ltb, ◌==◌,
  if◌then◌else◌, get_elem?,
}

-- `struct queue`; its block is never NULL once `q_create` has returned it.
pub record Queue : Type 0 where
  pub size : ℕ
  pub nextwrite : ℕ
  pub nextread : ℕ
  pub cells : List (Option ℕ)

-- `q_create`, with the results of its two calls of `kmalloc`.
pub create : Bool → Bool → ℕ → Option Queue
create mem mem' size =
    if mem && mem'
    then some (record { size = size; nextwrite = 0; nextread = 0; cells = fresh_cells size })
    else none

pub is_empty : Queue → Bool
is_empty q = q.nextwrite == q.nextread

-- `while (nsize < targetsize) { nsize *= 2; assert(nsize > 0); }`. The first product that is no
-- `int` is 2 ^ 31, which is negative, so the assertion stops the run.
pub double_size : ℕ → ℕ → ℕ → Option ℕ
double_size zero targetsize nsize = if ltb nsize targetsize then none else some nsize
double_size (suc fuel) targetsize nsize =
    let rest = double_size fuel targetsize (nsize * 2) in
    if ltb nsize targetsize
    then if ltb 0 nsize && ltb (nsize * 2) int_limit then rest else none
    else some nsize

-- `i = (i+1)%osize`
abbrev pub step : ℕ → ℕ → ℕ
step size i = (i + 1) % size

-- What `q_addtail` is to the loop of `q_grow`.
abbrev pub AddTail : Type 0
AddTail = Queue → Option ℕ → Option (Status × Queue)

-- The loop of `q_grow`: `i` runs from the old read index to the old write index.
pub refill : AddTail → ℕ → List (Option ℕ) → ℕ → ℕ → ℕ → Queue → Option Queue
refill put zero olddata osize onw i q = if i == onw then some q else none
refill put (suc fuel) olddata osize onw i q = elim (i == onw) [
  | true ↦ some q
  | false ↦ get_elem? olddata i >>= λ ptr. put q ptr >>= λ r.
      guard (is_success r.0) >> refill put fuel olddata osize onw (step osize i) (r.1)
]

-- `q_grow`; the loop makes fewer rounds than the old block has cells.
pub grow : AddTail → Bool → Queue → ℕ → Option (Status × Queue)
grow put mem q targetsize = do
  nsize ← double_size targetsize targetsize q.size
  if mem
      then refill put q.size q.cells q.size q.nextwrite q.nextread
          (record { size = nsize; nextwrite = 0; nextread = 0; cells = fresh_cells nsize })
        >>= (λ q'. some (success, q'))
      else some (enomem, q)

-- `q->data[q->nextwrite] = ptr; q->nextwrite = nextnext;`
pub write_tail : Queue → Option ℕ → Option (Status × Queue)
write_tail q ptr = do
  cells' ← store q.cells q.nextwrite ptr
  some (success, record q { cells = cells'; nextwrite = step q.size q.nextwrite })

-- What `q_addtail` does after `q_grow` returned.
pub after_grow : Option ℕ → Status × Queue → Option (Status × Queue)
after_grow ptr r = if is_success r.0 then write_tail (r.1) ptr else some r

-- `q_addtail` of a pointer, or of a cell of the old block. With no level left a full queue stops.
pub addtail_cell : ℕ → Bool → Queue → Option ℕ → Option (Status × Queue)
addtail_cell zero mem q ptr =
    guard (ltb 0 q.size)
    >> (if step q.size q.nextwrite == q.nextread then none else write_tail q ptr)
addtail_cell (suc depth) mem q ptr =
    guard (ltb 0 q.size)
    >> (if step q.size q.nextwrite == q.nextread
        then grow (addtail_cell depth mem) mem q (q.size + 1) >>= after_grow ptr
        else write_tail q ptr)

pub addtail : Bool → Queue → ℕ → Option (Status × Queue)
addtail mem q ptr = addtail_cell 1 mem q (some ptr)

pub preallocate : Bool → Queue → ℕ → Option (Status × Queue)
preallocate mem q size =
    guard (ltb 0 q.size)
    >> (if ltb q.size size then grow (addtail_cell 1 mem) mem q size else some (success, q))

-- The pointer and the queue without it.
pub remhead : Queue → Option (Option ℕ × Queue)
remhead q = do
  guard (ltb 0 q.size)
  guard (not (is_empty q))
  ret ← get_elem? q.cells q.nextread
  some (ret, record q { nextread = step q.size q.nextread })

-- `q_destroy` only asserts that nothing is left.
pub destroy : Queue → Option (Unit {0})
destroy q = guard (is_empty q)

pub getstart : Queue → ℕ
getstart q = q.nextread

pub getend : Queue → ℕ
getend q = q.nextwrite

pub getsize : Queue → ℕ
getsize q = q.size

pub getguy : Queue → ℕ → Option (Option ℕ)
getguy q index = do guard (ltb index q.size); get_elem? q.cells index
