-- ===== src/Synch/Tests.antt =====
-- Thread 1 runs, 2 is ready, 3 and 4 sleep on the semaphore or lock at address 70.
use harvard_os161_operating.Prelude.{
  ℕ, zero, suc, ◌+◌, ◌%◌, ◌<◌, ◌≡◌, refl, inl, inr, true, false, none, some, [], ◌∷◌, arith, leb,
  ◌==◌, if◌then◌else◌, get_elem?,
}
use harvard_os161_operating.Thread.{System, switched, thread_wakeup}
use harvard_os161_operating.Thread.View.{Sees}
use harvard_os161_operating.Thread.Wakeup.{thread_wakeup_lem}
use harvard_os161_operating.Synch.{
  Semaphore, Lock, returns, waits, p_round, v, acquire_round, lock_release,
}
use harvard_os161_operating.Synch.Quiet.{Quiet}
use harvard_os161_operating.Synch.Semaphores.{Steps, takes, gives, stay, then_step, Steps-Quiet}
use harvard_os161_operating.Synch.Locks.{excludes, release-acquire}

abbrev office : System
office = record {
  curthread = some 1;
  sleepers = record { num = 2; max = 2; v = some (some 3 ∷ some 4 ∷ []) };
  zombies = record { num = 0; max = 0; v = none };
  runqueue = record {
    size = 4;
    nextwrite = 1;
    nextread = 0;
    cells = some 2 ∷ none ∷ none ∷ none ∷ [];
  };
  numthreads = 4;
  sleepaddr = λ t. if leb 3 t then 70 else 0;
}

ready_at :
    (k : ℕ) → k < 1 → get_elem? office.runqueue.cells ((0 + k) % 4) ≡ get_elem? (some 2 ∷ []) k
ready_at zero h = refl
ready_at (suc k) h = absurd (omega arith)

office-Sees : Sees office (3 ∷ 4 ∷ []) (2 ∷ [])
office-Sees = record {
  array = omega arith;
  sleeps = refl;
  runs = record {
    room = omega arith;
    small = omega arith;
    block = refl;
    reads = omega arith;
    writes = refl;
    at = ready_at;
  };
}

abbrev used_up : Semaphore
used_up = record { addr = 70; count = 0 }

abbrev one_left : Semaphore
one_left = record { addr = 70; count = 1 }

-- What waking address 70 leaves of `office`.
woken :
    (s' : System) × (thread_wakeup true 70 office ≡ some s')
    × Sees s' [] (2 ∷ 3 ∷ 4 ∷ [])
    × (s'.curthread ≡ some 1)
    × (s'.numthreads ≡ 4)
    × (s'.sleepaddr ≡ office.sleepaddr)
woken = thread_wakeup_lem true 70 office-Sees (inr refl) (omega arith)

v_wakes : v true used_up office ≡ some (one_left, woken.0)
unfolding v
v_wakes = let (s1, runs, _, _, _, _) = woken in rw runs refl

p_takes : p_round true one_left woken.0 ≡ some (returns used_up)
unfolding p_round
p_takes = refl

office-Quiet : Quiet 4 used_up office
office-Quiet = record {
  sleeping = 3 ∷ 4 ∷ [];
  waiting = 2 ∷ [];
  sees = office-Sees;
  threads = omega arith;
  none_lost = inl refl;
}

-- `V` by thread 1, then `P` by the same thread.
v_then_p : Steps used_up office used_up woken.0
v_then_p = then_step (then_step stay (gives v_wakes)) (takes p_takes)

Steps-Quiet_example : Quiet 4 used_up woken.0
Steps-Quiet_example = Steps-Quiet (omega arith) office-Quiet v_then_p

-- Thread 2 holds the lock that thread 1 asks for.
excludes_example :
    (s' : System) × (acquire_round true (record { addr = 70; thread_addr = some 2 }) office
      ≡ some (waits (switched 2 s')))
    × Sees s' (3 ∷ 4 ∷ 1 ∷ []) []
    × ((t : ℕ) → s'.sleepaddr t ≡ (if 1 == t then 70 else office.sleepaddr t))
    × (s'.curthread ≡ some 2)
    × (lock_release true (record { addr = 70; thread_addr = some 2 }) office
        ≡ some (record { addr = 70; thread_addr = some 2 }, office))
excludes_example =
    excludes true (record { addr = 70; thread_addr = some 2 }) refl refl (omega arith) office-Sees
      (inr refl) (omega arith)

-- Room for two on the run queue is enough without memory.
release-acquire_example :
    (l : Lock) × (s' : System) × (acquire_round false
        (record { addr = 70; thread_addr = none })
        office
      ≡ some (returns l))
    × (l.thread_addr ≡ some 1)
    × (lock_release false l office ≡ some (record { addr = 70; thread_addr = none }, s'))
    × Sees s' [] (2 ∷ 3 ∷ 4 ∷ [])
release-acquire_example =
    release-acquire false (record { addr = 70; thread_addr = none }) refl refl office-Sees
      (inl (omega arith)) (omega arith)
