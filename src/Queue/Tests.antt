-- ===== src/Queue/Tests.antt =====
-- Runs of kern/lib/queue.c on a small queue.
use harvard_os161_operating.Prelude.{
  success, ℕ, zero, suc, ◌+◌, ◌%◌, ◌<◌, ◌≡◌, refl, true, none, some, List, [], ◌∷◌, arith,
  get_elem?,
}
use harvard_os161_operating.Queue.{
  Queue, double_size, refill, grow, write_tail, after_grow, addtail_cell, addtail,
}
use harvard_os161_operating.Queue.Holds.{Holds}
use harvard_os161_operating.Queue.Fifo.{Op, put, take_head, ask_empty, run, run_list, run_refines}

-- 8, then 9, round the end of a block of three cells: no room for another.
abbrev wrapped : Queue
wrapped = record { size = 3; nextwrite = 1; nextread = 2; cells = some 9 ∷ none ∷ some 8 ∷ [] }

-- The third pointer moves them to a block of six cells.
addtail_grows :
    addtail true wrapped 7
    ≡ some (
      success,
      record {
        size = 6;
        nextwrite = 3;
        nextread = 0;
        cells = some 8 ∷ some 9 ∷ some 7 ∷ none ∷ none ∷ none ∷ [];
      },
    )
unfolding addtail addtail_cell grow double_size refill write_tail after_grow
addtail_grows = refl

wrapped_at :
    (k : ℕ) → k < 2 → get_elem? wrapped.cells ((2 + k) % 3) ≡ get_elem? (some 8 ∷ some 9 ∷ []) k
wrapped_at zero h = refl
wrapped_at (suc zero) h = refl
wrapped_at (suc (suc k)) h = absurd (omega arith)

wrapped-Holds : Holds wrapped (some 8 ∷ some 9 ∷ [])
wrapped-Holds = record {
  room = omega arith;
  small = omega arith;
  block = refl;
  reads = omega arith;
  writes = refl;
  at = wrapped_at;
}

abbrev script : List Op
script = put 1 ∷ ask_empty ∷ take_head ∷ put 2 ∷ take_head ∷ []

run_refines_example : run wrapped script ≡ run_list (some 8 ∷ some 9 ∷ []) script
run_refines_example = run_refines script (some 8 ∷ some 9 ∷ []) wrapped-Holds (omega arith)
