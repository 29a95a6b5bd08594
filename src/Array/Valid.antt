-- ===== src/Array/Valid.antt =====
-- kern/lib/array.c keeps its block as large as `max` says.
use native.Mathlib.Numerals.{add-one}
use harvard_os161_operating.Prelude.{
  ℕ, zero, suc, ◌+◌, ◌*◌, ◌^◌, ◌≤◌, ◌<◌, ◌≡◌, refl, ◌∙◌, inl, inr, true, some, arith, ltb, ltb→lt,
  lt→ltb, Bool-cases, length, set, take, length-set, get_elem?-some, take-set, take-suc,
}
use harvard_os161_operating.Array.{Array, Cells, cells, grow_max, copy_cells}

pub record IsValid (a : Array) : Type 0 where
  pub within : a.num ≤ a.max
  pub block : length (cells a.v) ≡ a.max
  pub small : a.max < 2 ^ 30

-- The doubling loop ends, with room for `nguys` and at most twice as much as was asked for.
pub grow_max_lem :
    (fuel nguys newmax : ℕ)
    → nguys ≤ newmax + fuel
    → nguys < 2 ^ 29
    → (m : ℕ) × (grow_max fuel nguys newmax ≡ some m)
      × (nguys ≤ m)
      × (newmax ≤ m)
      × (newmax < 2 ^ 30 → m < 2 ^ 30)
unfolding grow_max
grow_max_lem zero nguys newmax h b = (newmax, ground arith, omega arith, omega arith, λ p. p)
grow_max_lem (suc fuel) nguys newmax h b = elim (Bool-cases (ltb newmax nguys)) [
  | inl more ↦ ends more (grow_max_lem fuel nguys ((newmax + 1) * 2) (ground arith) b)
  | inr enough ↦ (newmax, ground arith, ground arith, omega arith, λ p. p)
]
  where
    ends :
        ltb newmax nguys ≡ true
        → (m : ℕ) × (grow_max fuel nguys ((newmax + 1) * 2) ≡ some m)
          × (nguys ≤ m)
          × ((newmax + 1) * 2 ≤ m)
          × ((newmax + 1) * 2 < 2 ^ 30 → m < 2 ^ 30)
        → (m : ℕ) × (grow_max (suc fuel) nguys newmax ≡ some m)
          × (nguys ≤ m)
          × (newmax ≤ m)
          × (newmax < 2 ^ 30 → m < 2 ^ 30)
    ends more (m, e, p, q, r) =
        (m, ground arith, p, omega arith, λ _. r (omega (arith, ltb→lt newmax nguys more)))

-- The copy loop ends inside both blocks, and takes the first `i + n` cells over.
pub copy_cells_lem :
    (n i j : ℕ) (old newv : Cells)
    → i + n ≡ j
    → j ≤ length old
    → j ≤ length newv
    → take i newv ≡ take i old
    → (r : Cells) × (copy_cells n i old newv ≡ some r)
      × (length r ≡ length newv)
      × (take j r ≡ take j old)
unfolding copy_cells
copy_cells_lem zero i j old newv e h h' same =
    let ij : i ≡ j = omega arith in (newv, refl, refl, rw (← ij) same)
copy_cells_lem (suc n) i j old newv e h h' same =
    let (c, at_i) = get_elem?-some old i (omega arith) in
    let kept : take (i + 1) (set newv i c) ≡ take (i + 1) old =
      rw (add-one i, take-set newv i c (omega arith), take-suc old i at_i, same) in
    let (r, run, len, eq) =
      copy_cells_lem n (i + 1) j old (set newv i c) (omega arith) h
        (omega (arith, length-set newv i c)) kept in
    (r, rw (at_i, lt→ltb i (length newv) (omega arith)) run, len ∙ length-set newv i c, eq)
