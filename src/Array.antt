-- ===== src/Array.antt =====
-- ece344/os161/kern/lib/array.c: resizable arrays of void pointers.
-- A pointer is a number. The cells of the block that `v` points to are a list; a cell that was
-- never written is `none`. Every `int` argument is non-negative here. `mem` says of the one
-- `kmalloc` that an operation may call whether it returns a block.
pub mod Valid
pub mod Items
pub mod Access
mod Tests
use harvard_os161_operating.Prelude.{
  Status, success, enomem, ◌>>=◌, ◌>>◌, guard, store, int_limit, fresh_cells, is_success, ℕ, zero,
  suc, ◌+◌, ◌-◌, ◌*◌, Bool, true, false, ◌&&◌, Option, none, some, List, [], ◌++◌, ltb, leb, ◌==◌,
  if◌then◌else◌, get_elem?, take, drop,
}

abbrev pub Cells : Type 0
Cells = List (Option ℕ)

-- `struct array`; `v` is `none` for NULL.
pub record Array : Type 0 where
  pub num : ℕ
  pub max : ℕ
  pub v : Option Cells

-- The cells behind `v`; behind NULL there is none.
abbrev pub cells : Option Cells → Cells
cells none = []
cells (some l) = l

-- NULL if `kmalloc` fails.
pub create : Bool → Option Array
create mem = if mem then some (record { num = 0; max = 0; v = none }) else none

unfoldable pub getnum : Array → ℕ
getnum a = a.num

pub getguy : Array → ℕ → Option (Option ℕ)
getguy a index = do guard (leb a.num a.max); guard (ltb index a.num); get_elem? (cells a.v) index

-- `while (nguys > newmax) newmax = (newmax+1)*2;`
pub grow_max : ℕ → ℕ → ℕ → Option ℕ
grow_max zero nguys newmax = if ltb newmax nguys then none else some newmax
grow_max (suc fuel) nguys newmax =
    let rest = grow_max fuel nguys ((newmax + 1) * 2) in
    if ltb newmax nguys
    then if ltb ((newmax + 1) * 2) int_limit then rest else none
    else some newmax

-- `for (i=0; i<a->num; i++) newv[i] = a->v[i];`, with `n` rounds left.
pub copy_cells : ℕ → ℕ → Cells → Cells → Option Cells
copy_cells zero i old newv = some newv
copy_cells (suc n) i old newv = do
  c ← get_elem? old i
  newv' ← store newv i c
  copy_cells n (i + 1) old newv'

pub preallocate : Bool → Array → ℕ → Option (Status × Array)
preallocate mem a nguys = do
  guard (leb a.num a.max)
  newmax ← grow_max nguys nguys a.max
  if mem
      then copy_cells a.num 0 (cells a.v) (fresh_cells newmax)
        >>= (λ newv. some (success, record { num = a.num; max = newmax; v = some newv }))
      else some (enomem, a)

abbrev pub is_null : Option Cells → Bool
is_null none = true
is_null (some _) = false

-- The two branches of `array_setsize` that change the block.
pub resize : Bool → Array → ℕ → Option (Status × Array)
resize mem a nguys =
    if ltb a.max nguys
    then preallocate mem a nguys
    else if nguys == 0 && ltb 16 a.max
    then if is_null a.v then none else some (success, record a { v = none; max = 0 })
    else some (success, a)

pub setsize : Bool → Array → ℕ → Option (Status × Array)
setsize mem a nguys =
    guard (leb a.num a.max)
    >> (resize mem a nguys >>= λ r.
        some (if is_success r.0 then (success, record (r.1) { num = nguys }) else r))

pub setguy : Array → ℕ → ℕ → Option Array
setguy a index ptr = do
  guard (leb a.num a.max)
  guard (ltb index a.num)
  v' ← store (cells a.v) index (some ptr)
  some (record a { v = some v' })

-- `a->v[ix] = guy;`, which `array_add` reaches only if `array_setsize` succeeded.
pub store_last : Status × Array → ℕ → ℕ → Option (Status × Array)
store_last (success, a) ix guy =
    store (cells a.v) ix (some guy) >>= λ v'. some (success, record a { v = some v' })
store_last (e, a) ix guy = some (e, a)

pub add : Bool → Array → ℕ → Option (Status × Array)
add mem a guy = setsize mem a (a.num + 1) >>= λ r. store_last r a.num guy

-- `memmove(a->v+index, a->v+index+1, nmove*sizeof(void *))` on the cells of the block.
pub move_down : ℕ → ℕ → Cells → Cells
move_down index nmove v =
    take index v ++ (take nmove (drop (index + 1) v) ++ drop (index + nmove) v)

pub remove : Array → ℕ → Option Array
remove a index = do
  guard (leb a.num a.max)
  guard (ltb index a.num)
  v ← a.v
  let nmove = a.num - (index + 1)
  some (record { num = a.num - 1; max = a.max; v = some (move_down index nmove v) })
