-- ===== src/Thread/Fork.antt =====
-- `thread_fork` of kern/thread/thread.c.
use harvard_os161_operating.Prelude.{
  success, enomem, ℕ, ◌+◌, ◌^◌, ◌≤◌, ◌<◌, ◌≡◌, refl, ◌∙◌, inr, true, false, none, some, List, [],
  ◌∷◌, ◌++◌, arith,
}
use harvard_os161_operating.Array.Valid as ArrayValid
use harvard_os161_operating.Array.Items.{preallocate_lem}
use harvard_os161_operating.Queue.Fifo.{
  Enqueued, addtail-Enqueued, preallocate_lem as queue_preallocate_lem,
}
use harvard_os161_operating.Thread.{
  System, ForkMem, make_runnable, reserve_sleepers, reserve_zombies, reserve_runqueue, update,
  thread_create, thread_fork,
}
use harvard_os161_operating.Thread.View.{Sees, ptrs, length-ptrs, ptrs-append, IsSmall}
use harvard_os161_operating.Queue.Fifo.{Enqueued}

abbrev pub plenty : ForkMem
plenty = record {
  created = true;
  stack = true;
  sleepers = true;
  zombies = true;
  runqueue = true;
  runnable = true;
}

-- With memory `thread_fork` makes the new thread runnable behind all ready threads, counts it, and
-- leaves lists of sleepers and zombies with a cell for each counted thread. Fewer than 2 ^ 29 - 2
-- threads are counted and ready, and the structures are well-formed.
pub thread_fork_lem :
    {s : System} {sleeping waiting : List ℕ} (newguy : ℕ)
    → Sees s sleeping waiting
    → ArrayValid.IsValid s.zombies
    → s.numthreads + 1 < 2 ^ 29
    → IsSmall waiting 1
    → (s' : System) × (thread_fork plenty s newguy ≡ some (success, s'))
      × Sees s' sleeping (waiting ++ (newguy ∷ []))
      × (s'.numthreads ≡ s.numthreads + 1)
      × (s'.numthreads ≤ s'.sleepers.max)
      × (s'.numthreads ≤ s'.zombies.max)
      × (s'.curthread ≡ s.curthread)
unfolding thread_fork thread_create reserve_sleepers reserve_zombies reserve_runqueue make_runnable
thread_fork_lem {s} {sleeping} {waiting} newguy v z few small =
    let (sl, sl_runs, sl_valid, sl_same, _, sl_room, _) =
      preallocate_lem (s.numthreads + 1) v.array few in
    let (zs, z_runs, z_valid, _, _, z_room, _) = preallocate_lem (s.numthreads + 1) z few in
    let (q, q_runs, q_holds, _, _) = queue_preallocate_lem (s.numthreads + 1) v.runs few in
    let a : Enqueued true q (ptrs waiting) newguy =
      addtail-Enqueued true newguy q_holds (omega (arith, length-ptrs waiting)) (inr refl) in
    (
      record s {
        sleepers = sl;
        zombies = zs;
        runqueue = a.after;
        numthreads = s.numthreads + 1;
        sleepaddr = update s.sleepaddr newguy 0;
      },
      rw (sl_runs, z_runs, q_runs, a.runs) refl,
      record {
        array = sl_valid;
        sleeps = sl_same ∙ v.sleeps;
        runs = rw (ptrs-append waiting (newguy ∷ [])) a.holds;
      },
      refl,
      sl_room,
      z_room,
      refl,
    )

-- Without memory for the stack `thread_fork` returns ENOMEM, and the lists are as they were.
pub thread_fork_no_stack :
    (m : ForkMem) (s : System) (newguy : ℕ)
    → m.created ≡ true
    → m.stack ≡ false
    → thread_fork m s newguy ≡ some (enomem, thread_create s newguy)
unfolding thread_fork
thread_fork_no_stack m s newguy created no_stack = rw (created, no_stack) refl

-- Without memory for the thread itself `thread_fork` stores the parent's pid through NULL.
pub thread_fork_null :
    (m : ForkMem) (s : System) (newguy : ℕ) → m.created ≡ false → thread_fork m s newguy ≡ none
unfolding thread_fork
thread_fork_null m s newguy none_made = rw none_made refl
