-- ===== src/Process/Tests.antt =====
-- Process 2 runs in thread 1, thread 2 is ready, thread 3 waits for process 2, and thread 4 sleeps on
-- the lock at address 70.
use harvard_os161_operating.Prelude.{
  einval, ℕ, zero, suc, ◌+◌, ◌%◌, ◌<◌, ◌≡◌, refl, inr, true, none, some, [], ◌∷◌, arith, ◌==◌,
  if◌then◌else◌, get_elem?,
}
use harvard_os161_operating.Thread.{System, switched}
use harvard_os161_operating.Thread.View.{Sees}
use harvard_os161_operating.Synch.{Lock}
use harvard_os161_operating.Process.{
  Kernel, refuses, returns_pid, forks, pidlist_create, find, create_lock, waitpid_round,
  sys_waitpid, sys_exit,
}
use harvard_os161_operating.Process.Steps.{Steps, fork, wait, stop, step, HasPids, Steps-HasPids}
use harvard_os161_operating.Array.Items.{items}
use harvard_os161_operating.Process.Pids.{marked}
use harvard_os161_operating.Process.Exit.{sys_waitpid-exit, sys_exit_lem}
use harvard_os161_operating.Process.Children.{Forked, ample, sys_fork_lem}
use harvard_os161_operating.Process.Sbrk.{Heap, sys_sbrk}
use harvard_os161_operating.Process.Sbrk.Bounds.{IsHeap, sys_sbrk-IsHeap}

abbrev threads : System
threads = record {
  curthread = some 1;
  sleepers = record { num = 2; max = 2; v = some (some 3 ∷ some 4 ∷ []) };
  zombies = record { num = 0; max = 0; v = none };
  runqueue = record {
    size = 4;
    nextwrite = 1;
    nextread = 0;
    cells = some 2 ∷ none ∷ none ∷ none ∷ [];
  };
  numthreads = 4;
  sleepaddr = λ t. if t == 3 then 2 else if t == 4 then 70 else 0;
}

ready_at :
    (k : ℕ) → k < 1 → get_elem? threads.runqueue.cells ((0 + k) % 4) ≡ get_elem? (some 2 ∷ []) k
ready_at zero h = refl
ready_at (suc k) h = absurd (omega arith)

threads-Sees : Sees threads (3 ∷ 4 ∷ []) (2 ∷ [])
threads-Sees = record {
  array = omega arith;
  sleeps = refl;
  runs = record {
    room = omega arith;
    small = omega arith;
    block = refl;
    reads = omega arith;
    writes = refl;
    at = ready_at;
  };
}

abbrev free_lock : Lock
free_lock = record { addr = 70; thread_addr = none }

abbrev desk : Kernel
desk = record {
  system = threads;
  pidlist = pidlist_create 1 ∷ pidlist_create 2 ∷ [];
  global_pid = 2;
  pid_lock = some free_lock;
  pid = λ t. if t == 1 then 2 else if t == 3 then 1 else 0;
}

-- Process 2 exits with code 7; thread 3 is ready then, behind thread 2, which runs.
exited :
    (k' : Kernel) × (sys_exit true 7 desk ≡ some (switched 2 k'.system, k'))
    × Sees k'.system (4 ∷ []) (3 ∷ [])
    × (k'.system.curthread ≡ some 2)
    × (items k'.system.zombies ≡ some 1 ∷ [])
    × (k'.system.numthreads ≡ 3)
    × ((pid : ℕ)
        → find pid k'.pidlist
          ≡ (if 2 == pid then marked 7 (find pid desk.pidlist) else find pid desk.pidlist))
exited =
    sys_exit_lem desk true 7 1 threads-Sees refl (omega arith) (omega arith) (inr refl)
      (omega arith) (inr refl) (omega arith)

-- A call of `sys_waitpid` with an option comes between.
refused_between : Steps (λ pid. pid == 1) (exited.0) (exited.0)
unfolding sys_waitpid
refused_between = step stop (wait none true 2 true 1 none (refuses einval) refl)

sys_waitpid-exit_example :
    waitpid_round none true 2 (exited.0)
    ≡ some (returns_pid 2 (some 7), create_lock none (exited.0))
unfolding find
sys_waitpid-exit_example =
    sys_waitpid-exit {may_exit = λ pid. pid == 1} true 7 1 desk (exited.0) (exited.0) _
      (pidlist_create 2) none true refl refl (exited.1) refl refused_between

desk-HasPids : HasPids desk
unfolding HasPids
desk-HasPids = (omega arith, (omega arith, omega arith))

forked : Forked desk 6 (2 ∷ []) free_lock
forked =
    sys_fork_lem desk 6 1 (pidlist_create 1) (pidlist_create 2 ∷ []) free_lock threads-Sees
      (omega arith) refl (omega arith) (omega arith) desk-HasPids refl (omega arith) refl refl

sys_fork_lem_example : Forked desk 6 (2 ∷ []) free_lock
sys_fork_lem_example =
    sys_fork_lem desk 6 1 (pidlist_create 1) (pidlist_create 2 ∷ []) free_lock threads-Sees
      (omega arith) refl (omega arith) (omega arith) desk-HasPids refl (omega arith) refl refl

forked_once : Steps (λ pid. true) desk forked.after
forked_once = step stop (fork ample 6 (forks 3) forked.runs)

Steps-HasPids_example : HasPids forked.after
Steps-HasPids_example = Steps-HasPids forked_once desk-HasPids

abbrev small_heap : Heap
small_heap = record { heaptop = 4100; heapbottom = 4096; as_stackvbase = 8192 }

small_heap-IsHeap : IsHeap small_heap
small_heap-IsHeap = record { above = omega arith; below = omega arith; user = omega arith }

sys_sbrk-IsHeap_example : IsHeap (sys_sbrk 101 small_heap).1
sys_sbrk-IsHeap_example = sys_sbrk-IsHeap 101 small_heap (omega arith) small_heap-IsHeap
