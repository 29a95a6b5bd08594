-- ===== src/Array/Items.antt =====
-- kern/lib/array.c as a list of pointers: what each operation does to the first `num` cells.
use native.Mathlib.Numerals.{add-one}
use Prim.Native.Nat.{zero-le}
use mathlib.Core.Path.{subst}
use harvard_os161_operating.Prelude.{
  success, enomem, fresh_cells, length-fresh_cells, ℕ, ◌+◌, ◌^◌, ◌≤◌, ◌<◌, ◌≡◌, refl, sym, ap, ◌∙◌,
  ◌⊎◌, inl, inr, Bool, true, false, Option, none, some, [], ◌∷◌, ◌++◌, arith, dec_lt, lt→ltb,
  le→ltb, le→leb, length, set, take, length-set, length-take, take-set,
}
use harvard_os161_operating.Array.{
  Array, Cells, cells, getnum, preallocate, is_null, resize, setsize, store_last, add,
}
use harvard_os161_operating.Array.Valid.{IsValid, grow_max_lem, copy_cells_lem}

-- The pointers that the array holds, in order.
abbrev pub items : Array → Cells
items a = take a.num (cells a.v)

pub length-items : {a : Array} → IsValid a → length (items a) ≡ a.num
length-items {a} v = omega (arith, length-take a.num (cells a.v))

pub getnum-eq-length : {a : Array} → IsValid a → getnum a ≡ length (items a)
unfolding getnum
getnum-eq-length v = sym (length-items v)

-- `array_preallocate` with memory: room for `nguys`, and the same items.
pub preallocate_lem :
    {a : Array} (nguys : ℕ)
    → IsValid a
    → nguys < 2 ^ 29
    → (a' : Array) × (preallocate true a nguys ≡ some (success, a'))
      × IsValid a'
      × (items a' ≡ items a)
      × (a'.num ≡ a.num)
      × (nguys ≤ a'.max)
      × (a.max ≤ a'.max)
unfolding preallocate
preallocate_lem {a} nguys v b =
    let (m, grown, room, more, small) = grow_max_lem nguys nguys a.max (omega arith) b in
    let m-small : m < 2 ^ 30 = small v.small in
    let (r, copied, len, same) =
      copy_cells_lem a.num 0 a.num (cells a.v) (fresh_cells m) (omega arith) (omega arith)
        (omega (arith, length-fresh_cells m m-small)) refl in
    let a' : Array = record { num = a.num; max = m; v = some r } in
    let ok : IsValid a' = omega (arith, len, length-fresh_cells m m-small) in
    (a', rw (le→leb a.num a.max v.within, grown, copied) refl, ok, same, refl, room, more)

-- Without memory it returns ENOMEM and changes nothing.
pub preallocate_enomem :
    {a : Array} (nguys : ℕ)
    → IsValid a
    → nguys < 2 ^ 29
    → preallocate false a nguys ≡ some (enomem, a)
unfolding preallocate
preallocate_enomem {a} nguys v b =
    let (m, grown, _, _, _) = grow_max_lem nguys nguys a.max (omega arith) b in
    rw (le→leb a.num a.max v.within, grown) refl

-- The array after `a->num = n + 1; a->v[n] = guy;`.
abbrev appended : Array → ℕ → Array
appended a x = record { num = a.num + 1; max = a.max; v = some (set (cells a.v) a.num (some x)) }

appended_lem :
    {a : Array} (x : ℕ)
    → IsValid a
    → a.num < a.max
    → IsValid (appended a x) × (items (appended a x) ≡ items a ++ (some x ∷ []))
appended_lem {a} x v h = (
  omega (arith, length-set (cells a.v) a.num (some x)),
  rw (add-one a.num, take-set (cells a.v) a.num (some x) (omega arith)) refl,
)

add_room :
    {a : Array} (mem : Bool) (x : ℕ)
    → IsValid a
    → a.num < a.max
    → add mem a x ≡ some (success, appended a x)
unfolding add setsize resize store_last
add_room {a} mem x v h = ground arith

setsize_grow :
    {a a' : Array} (n : ℕ)
    → IsValid a
    → a.max < n
    → preallocate true a n ≡ some (success, a')
    → setsize true a n ≡ some (success, record a' { num = n })
unfolding setsize resize
setsize_grow {a} n v h e = rw (le→leb a.num a.max v.within, lt→ltb a.max n h, e) refl

-- What a successful `array_add` of `x` leaves.
pub record Added (mem : Bool) (a : Array) (x : ℕ) : Type 0 where
  pub after : Array
  pub runs : add mem a x ≡ some (success, after)
  pub valid : IsValid after
  pub appends : items after ≡ items a ++ (some x ∷ [])
  pub counts : after.num ≡ a.num + 1
  pub keeps : a.max ≤ after.max

pub add-Added_room : {a : Array} (mem : Bool) (x : ℕ) → IsValid a → a.num < a.max → Added mem a x
add-Added_room {a} mem x v h = record {
  after = appended a x;
  runs = add_room mem x v h;
  valid = (appended_lem x v h).0;
  appends = (appended_lem x v h).1;
  counts = refl;
  keeps = omega arith;
}

add-Added_grow :
    {a : Array} (x : ℕ) → IsValid a → a.num + 1 < 2 ^ 29 → a.max ≤ a.num → Added true a x
unfolding add store_last
add-Added_grow {a} x v b full =
    let (a', runs, v', same, n, room, more) = preallocate_lem (a.num + 1) v b in
    let big : a'.num < a'.max = omega arith in
    let grown : setsize true a (a.num + 1) ≡ some (success, record a' { num = a.num + 1 }) =
      setsize_grow (a.num + 1) v (omega arith) runs in
    record {
      after = appended a' x;
      runs = rw (grown, lt→ltb a.num (length (cells a'.v)) (omega arith), n) refl;
      valid = (appended_lem x v' big).0;
      appends = (appended_lem x v' big).1 ∙ ap (λ l. l ++ (some x ∷ [])) same;
      counts = ap (λ k. k + 1) n;
      keeps = more;
    }

-- `array_add` on a well-formed array of fewer than 2 ^ 29 - 1 items, with room or with memory,
-- appends one item and leaves the array well-formed.
pub add-Added :
    {a : Array} (mem : Bool) (x : ℕ)
    → IsValid a
    → a.num + 1 < 2 ^ 29
    → (a.num < a.max) ⊎ (mem ≡ true)
    → Added mem a x
add-Added mem x v b (inl room) = add-Added_room mem x v room
add-Added {a} mem x v b (inr got) = elim (dec_lt a.num a.max) [
  | yes room ↦ add-Added_room mem x v room
  | no full ↦ subst (λ m. Added m a x) (sym got) (add-Added_grow x v b (omega arith))
]

-- A full array without memory: ENOMEM, and nothing has changed.
pub add_enomem :
    {a : Array} (x : ℕ)
    → IsValid a
    → a.num + 1 < 2 ^ 29
    → a.max ≤ a.num
    → add false a x ≡ some (enomem, a)
unfolding add setsize resize store_last
add_enomem {a} x v b full =
    rw
      (
        le→leb a.num a.max v.within,
        lt→ltb a.max (a.num + 1) (omega arith),
        preallocate_enomem (a.num + 1) v b,
      )
      refl

-- The array that `array_setsize(a, 0)` leaves when it gives its block back.
abbrev pub emptied : Array
emptied = record { num = 0; max = 0; v = none }

-- `array_setsize(a, 0)` gives a block of more than 16 cells back, so the reserve is gone.
pub setsize_zero :
    {a : Array} (mem : Bool) → IsValid a → 16 < a.max → setsize mem a 0 ≡ some (success, emptied)
unfolding setsize resize
setsize_zero {a} mem v big =
    rw
      (
        le→leb a.num a.max v.within,
        le→ltb a.max 0 zero-le,
        lt→ltb 16 a.max big,
        present a.v (omega arith),
      )
      refl
  where
    present : (v : Option Cells) → 0 < length (cells v) → is_null v ≡ false
    present none h = absurd (omega arith)
    present (some l) h = refl

pub emptied-IsValid : IsValid emptied
emptied-IsValid = omega arith
