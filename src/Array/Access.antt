-- ===== src/Array/Access.antt =====
-- Reading, writing and removing one item of an array of kern/lib/array.c.
use mathlib.Core.List.{append-nil}
use harvard_os161_operating.Prelude.{
  ℕ, ◌+◌, ◌-◌, ◌≤◌, ◌<◌, ◌≡◌, refl, Option, none, some, ◌++◌, arith, dec_lt, lt→ltb, le→ltb, le→leb,
  length, get_elem?, set, take, drop, length-append, length-set, length-take, length-drop,
  get_elem?-none, get_elem?-take, take-append, take-take, drop-take, take-set_lt,
}
use harvard_os161_operating.Array.{Array, Cells, cells, getguy, setguy, move_down, remove}
use harvard_os161_operating.Array.Valid.{IsValid}
use harvard_os161_operating.Array.Items.{items, length-items}

-- `array_getguy` reads the items, and stops at any other index.
pub getguy_lem : {a : Array} (index : ℕ) → IsValid a → getguy a index ≡ get_elem? (items a) index
unfolding getguy
getguy_lem {a} index v = elim (dec_lt index a.num) [
  | yes h ↦
      rw
        (
          le→leb a.num a.max v.within,
          lt→ltb index a.num h,
          get_elem?-take a.num (cells a.v) index h,
        )
        refl
  | no h ↦
      rw
        (
          le→leb a.num a.max v.within,
          le→ltb index a.num (omega arith),
          get_elem?-none (items a) index (omega (arith, length-items v)),
        )
        refl
]

-- `array_setguy` overwrites that one item.
pub setguy_lem :
    {a : Array} (index x : ℕ)
    → IsValid a
    → index < a.num
    → (a' : Array) × (setguy a index x ≡ some a')
      × IsValid a'
      × (items a' ≡ set (items a) index (some x))
unfolding setguy
setguy_lem {a} index x v h = (
  record a { v = some (set (cells a.v) index (some x)) },
  rw
      (
        le→leb a.num a.max v.within,
        lt→ltb index a.num h,
        lt→ltb index (length (cells a.v)) (omega arith),
      )
      refl,
  omega (arith, length-set (cells a.v) index (some x)),
  take-set_lt a.num (cells a.v) index (some x),
)

move_down_lem :
    (index n : ℕ) (l : Cells)
    → index < n
    → n ≤ length l
    → (length (move_down index (n - (index + 1)) l) ≡ length l)
      × (take (n - 1) (move_down index (n - (index + 1)) l)
          ≡ take index (take n l) ++ drop (index + 1) (take n l))
unfolding move_down
move_down_lem index n l h k = (sizes, contents)
  where
    nmove : ℕ
    nmove = n - (index + 1)

    front : Cells
    front = take index l

    moved : Cells
    moved = take nmove (drop (index + 1) l)

    rest : Cells
    rest = drop (index + nmove) l

    sizes : length (front ++ (moved ++ rest)) ≡ length l
    sizes = omega (
      arith,
      length-append front (moved ++ rest),
      length-append moved rest,
      length-take index l,
      length-take nmove (drop (index + 1) l),
      length-drop (index + 1) l,
      length-drop (index + nmove) l,
    )

    length-moved : length moved ≡ nmove
    length-moved = omega (arith, length-take nmove (drop (index + 1) l), length-drop (index + 1) l)

    contents :
        take (n - 1) (front ++ (moved ++ rest))
        ≡ take index (take n l) ++ drop (index + 1) (take n l)
    contents =
        let split : n - 1 ≡ index + (nmove + 0) = omega arith in
        rw
          (
            split,
            take-append index (nmove + 0) front (moved ++ rest)
                (omega (arith, length-take index l)),
            take-append nmove 0 moved rest length-moved,
            append-nil,
            take-take index n l (omega arith),
            drop-take (index + 1) n l,
          )
          refl

block_present : (v : Option Cells) → 0 < length (cells v) → v ≡ some (cells v)
block_present none h = absurd (omega arith)
block_present (some l) h = refl

-- On a well-formed array, `array_remove` of an index below `num` takes out that one item, closes
-- the gap, and leaves the array well-formed with its block.
pub remove_lem :
    {a : Array} (index : ℕ)
    → IsValid a
    → index < a.num
    → (a' : Array) × (remove a index ≡ some a')
      × IsValid a'
      × (items a' ≡ take index (items a) ++ drop (index + 1) (items a))
      × (a'.num ≡ a.num - 1)
      × (a'.max ≡ a.max)
unfolding remove
remove_lem {a} index v h =
    let (length-moved, contents) = move_down_lem index a.num (cells a.v) h (omega arith) in
    (
      record {
        num = a.num - 1;
        max = a.max;
        v = some (move_down index (a.num - (index + 1)) (cells a.v));
      },
      rw (le→leb a.num a.max v.within, lt→ltb index a.num h, block_present a.v (omega arith)) refl,
      omega arith,
      contents,
      refl,
      refl,
    )
