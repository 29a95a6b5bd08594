-- ===== src/Thread/Tests.antt =====
-- A small system of kern/thread: thread 1 runs, 2 is ready, 3 and 4 sleep on address 70, 5 on 80.
use harvard_os161_operating.Prelude.{
  success, enomem, ℕ, zero, suc, ◌+◌, ◌%◌, ◌≤◌, ◌<◌, ◌≡◌, refl, inl, inr, true, false, none, some,
  [], ◌∷◌, arith, leb, ◌==◌, if◌then◌else◌, get_elem?, replicate,
}
use harvard_os161_operating.Array.{Array}
use harvard_os161_operating.Queue.{Queue}
use harvard_os161_operating.Thread.View.{Sees}
use harvard_os161_operating.Thread.Wakeup.{thread_wakeup_lem}
use harvard_os161_operating.Thread.Reserve.{reserve_short}
use harvard_os161_operating.Thread.RoundRobin.{thread_yield_lem, thread_sleep_lem}
use harvard_os161_operating.Thread.Fork.{plenty, thread_fork_lem}
use harvard_os161_operating.Thread.{
  System, switched, make_runnable, schedule, thread_yield, thread_sleep, thread_wakeup,
  reserve_runqueue, thread_fork,
}

abbrev three_asleep : Array
three_asleep = record { num = 3; max = 3; v = some (some 3 ∷ some 4 ∷ some 5 ∷ []) }

abbrev one_ready : Queue
one_ready = record {
  size = 4;
  nextwrite = 1;
  nextread = 0;
  cells = some 2 ∷ none ∷ none ∷ none ∷ [];
}

abbrev busy : System
busy = record {
  curthread = some 1;
  sleepers = three_asleep;
  zombies = record { num = 0; max = 0; v = none };
  runqueue = one_ready;
  numthreads = 5;
  sleepaddr = λ t. if leb 3 t then if leb t 4 then 70 else 80 else 0;
}

ready_at : (k : ℕ) → k < 1 → get_elem? one_ready.cells ((0 + k) % 4) ≡ get_elem? (some 2 ∷ []) k
ready_at zero h = refl
ready_at (suc k) h = absurd (omega arith)

busy-Sees : Sees busy (3 ∷ 4 ∷ 5 ∷ []) (2 ∷ [])
busy-Sees = record {
  array = omega arith;
  sleeps = refl;
  runs = record {
    room = omega arith;
    small = omega arith;
    block = refl;
    reads = omega arith;
    writes = refl;
    at = ready_at;
  };
}

thread_wakeup_lem_example :
    (s' : System) × (thread_wakeup false 70 busy ≡ some s')
    × Sees s' (5 ∷ []) (2 ∷ 3 ∷ 4 ∷ [])
    × (s'.curthread ≡ some 1)
    × (s'.numthreads ≡ 5)
    × (s'.sleepaddr ≡ busy.sleepaddr)
thread_wakeup_lem_example = thread_wakeup_lem false 70 busy-Sees (inl (omega arith)) (omega arith)

thread_yield_lem_example :
    (s' : System) × (thread_yield false busy ≡ some (switched 2 s'))
    × Sees s' (3 ∷ 4 ∷ 5 ∷ []) (1 ∷ [])
    × (s'.curthread ≡ some 2)
    × (s'.sleepaddr ≡ busy.sleepaddr)
    × (s'.numthreads ≡ 5)
thread_yield_lem_example =
    thread_yield_lem false 1 2 (1 ∷ []) busy-Sees refl refl (inl (omega arith)) (omega arith)

-- One cell of the run queue's two is in use: none is left for the thread that yields.
abbrev crowded : System
crowded = record busy {
  runqueue = record { size = 2; nextwrite = 1; nextread = 0; cells = some 2 ∷ none ∷ [] };
}

crowded_at :
    (k : ℕ) → k < 1 → get_elem? crowded.runqueue.cells ((0 + k) % 2) ≡ get_elem? (some 2 ∷ []) k
crowded_at zero h = refl
crowded_at (suc k) h = absurd (omega arith)

crowded-Sees : Sees crowded (3 ∷ 4 ∷ 5 ∷ []) (2 ∷ [])
crowded-Sees = record {
  array = omega arith;
  sleeps = refl;
  runs = record {
    room = omega arith;
    small = omega arith;
    block = refl;
    reads = omega arith;
    writes = refl;
    at = crowded_at;
  };
}

reserve_short_example :
    (reserve_runqueue false crowded 2 ≡ some (success, crowded))
    × (make_runnable false crowded 1 ≡ some (enomem, crowded))
    × (thread_yield false crowded ≡ none)
reserve_short_example = reserve_short 1 crowded-Sees refl (omega arith) refl

-- Seventeen cells for zombies, none in use.
abbrev roomy : System
roomy = record busy { zombies = record { num = 0; max = 17; v = some (replicate 17 none) } }

thread_fork_lem_example :
    (s' : System) × (thread_fork plenty busy 6 ≡ some (success, s'))
    × Sees s' (3 ∷ 4 ∷ 5 ∷ []) (2 ∷ 6 ∷ [])
    × (s'.numthreads ≡ 6)
    × (s'.numthreads ≤ s'.sleepers.max)
    × (s'.numthreads ≤ s'.zombies.max)
    × (s'.curthread ≡ some 1)
thread_fork_lem_example = thread_fork_lem 6 busy-Sees (omega arith) (omega arith) (omega arith)

thread_sleep_lem_example :
    (s' : System) × (thread_sleep true busy 90 ≡ schedule s')
    × Sees s' (3 ∷ 4 ∷ 5 ∷ 1 ∷ []) (2 ∷ [])
    × ((t : ℕ) → s'.sleepaddr t ≡ (if 1 == t then 90 else busy.sleepaddr t))
    × (s'.curthread ≡ none)
    × (s'.numthreads ≡ 5)
thread_sleep_lem_example = thread_sleep_lem true 90 1 busy-Sees refl (inr refl) (omega arith)
