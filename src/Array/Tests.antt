-- ===== src/Array/Tests.antt =====
-- Runs of kern/lib/array.c on small arrays.
use harvard_os161_operating.Prelude.{success, ◌≡◌, refl, inr, true, none, some, [], ◌∷◌, arith}
use harvard_os161_operating.Array.{
  Array, getguy, grow_max, copy_cells, preallocate, resize, setsize, store_last, add, move_down,
  remove,
}
use harvard_os161_operating.Array.Valid.{IsValid}
use harvard_os161_operating.Array.Items.{Added, items, add-Added}
use harvard_os161_operating.Array.Access.{getguy_lem, remove_lem}

-- Two pointers in a block of two cells.
abbrev full_pair : Array
full_pair = record { num = 2; max = 2; v = some (some 5 ∷ some 6 ∷ []) }

-- The third pointer moves the items to a block of six cells.
add_grows :
    add true full_pair 7
    ≡ some (
      success,
      record { num = 3; max = 6; v = some (some 5 ∷ some 6 ∷ some 7 ∷ none ∷ none ∷ none ∷ []) },
    )
unfolding add setsize resize preallocate grow_max copy_cells store_last
add_grows = refl

remove_closes :
    remove full_pair 0 ≡ some (record { num = 1; max = 2; v = some (some 6 ∷ some 6 ∷ []) })
unfolding remove move_down
remove_closes = refl

full_pair-IsValid : IsValid full_pair
full_pair-IsValid = omega arith

add-Added_example : Added true full_pair 7
add-Added_example = add-Added true 7 full_pair-IsValid (omega arith) (inr refl)

remove_lem_example :
    (a' : Array) × (remove full_pair 0 ≡ some a')
    × IsValid a'
    × (items a' ≡ some 6 ∷ [])
    × (a'.num ≡ 1)
    × (a'.max ≡ 2)
remove_lem_example = remove_lem 0 full_pair-IsValid (omega arith)

getguy_lem_example : getguy full_pair 1 ≡ some (some 6)
getguy_lem_example = getguy_lem 1 full_pair-IsValid
