-- ===== src/Process/Children.antt =====
-- `sys_fork` of kern/userprog/fork.c.
use mathlib.Core.List.{append_assoc}
use harvard_os161_operating.Prelude.{
  success, int_limit, ℕ, ◌+◌, ◌^◌, ◌<◌, ◌≡◌, refl, sym, ◌∙◌, inr, ◌≢◌, true, false, Option, none,
  some, List, [], ◌∷◌, ◌++◌, arith, ◌==◌, if◌then◌else◌, lt→ltb, eq→==, ne→==, length,
  length-append,
}
use harvard_os161_operating.Array.Valid as ArrayValid
use harvard_os161_operating.Thread.{System, update, thread_fork}
use harvard_os161_operating.Thread.View.{Sees, on_addr, off_addr}
use harvard_os161_operating.Thread.Fork.{plenty, thread_fork_lem}
use harvard_os161_operating.Synch.{Lock, returns, acquire_round, lock_release}
use harvard_os161_operating.Synch.Locks.{release-acquire}
use harvard_os161_operating.Process.{
  Process, Kernel, ForkSupply, forks, pidlist_create, get_newpid, find, release_pid_lock,
  append_process, fork_locked, fork_link, sys_fork,
}
use harvard_os161_operating.Process.Pids.{find-new}
use harvard_os161_operating.Process.Change.{bind_some}
use harvard_os161_operating.Process.Steps.{append-Ascends, append-find, HasPids}

abbrev pub ample : ForkSupply
ample = record { trapframe = true; addrspace = true; thread = plenty; node = true; wakeup = true }

-- What a successful `sys_fork` of the thread `temp` leaves.
pub record Forked (k : Kernel) (temp : ℕ) (waiting : List ℕ) (lock : Lock) : Type 0 where
  pub after : Kernel
  pub runs : sys_fork ample temp k ≡ some (forks (k.global_pid + 1), after)
  pub pids : HasPids after
  pub own : after.pid temp ≡ k.global_pid + 1
  pub listed : find (k.global_pid + 1) after.pidlist ≡ some (pidlist_create (k.global_pid + 1))
  pub was_new : find (k.global_pid + 1) k.pidlist ≡ none
  pub others : (pid : ℕ) → k.global_pid + 1 ≢ pid → find pid after.pidlist ≡ find pid k.pidlist
  -- The new thread is ready behind all that were; those who waited for the lock follow it.
  pub sleeping : List ℕ
  pub woken : List ℕ
  pub sees : Sees after.system sleeping (waiting ++ (temp ∷ woken))
  pub free : after.pid_lock ≡ some (record lock { thread_addr = none })

fork_runs :
    (k : Kernel) (temp : ℕ) (p : Process) (ps : List Process) (lock l : Lock) (s1 s2 : System)
    → thread_fork plenty k.system temp ≡ some (success, s1)
    → k.pid_lock ≡ some lock
    → acquire_round true lock s1 ≡ some (returns l)
    → k.global_pid + 1 < int_limit
    → k.pidlist ≡ p ∷ ps
    → lock_release true l s1 ≡ some (record lock { thread_addr = none }, s2)
    → sys_fork ample temp k
      ≡ some (
        forks (k.global_pid + 1),
        record k {
          system = s2;
          pidlist = p ∷ (ps ++ (pidlist_create (k.global_pid + 1) ∷ []));
          global_pid = k.global_pid + 1;
          pid_lock = some (record lock { thread_addr = none });
          pid = update (update k.pid temp 0) temp (k.global_pid + 1);
        },
      )
unfolding sys_fork fork_link fork_locked get_newpid append_process release_pid_lock
fork_runs k temp p ps lock l s1 s2 forked has_lock taken more list freed =
    bind_some _ forked
    ∙ (bind_some _ has_lock
        ∙ (bind_some _ taken
            ∙ rw (lt→ltb (k.global_pid + 1) int_limit more, list)
                (bind_some _ (bind_some _ freed))))

not_appended :
    (o : Option Process) (q : Process) (pid : ℕ)
    → (pid == q.pid) ≡ false
    → elim o [ some p ↦ some p | none ↦ if pid == q.pid then some q else none ] ≡ o
not_appended (some p) q pid ne = refl
not_appended none q pid ne = rw ne refl

-- With memory, a free lock and a pid left, `sys_fork` returns the next pid, which was not on the list:
-- the new thread has it and is ready behind all that were, the list has it as a process that runs,
-- every other process keeps its record, and the lock is free again. The lists agree with the
-- structures and hold fewer than 2 ^ 29 - 2 threads.
pub sys_fork_lem :
    (k : Kernel) {sleeping waiting : List ℕ} (temp cur : ℕ) (p : Process) (ps : List Process)
    (lock : Lock)
    → Sees k.system sleeping waiting
    → ArrayValid.IsValid k.system.zombies
    → k.system.curthread ≡ some cur
    → k.system.numthreads + 1 < 2 ^ 29
    → length sleeping + length waiting + 2 < 2 ^ 29
    → HasPids k
    → k.pidlist ≡ p ∷ ps
    → k.global_pid + 1 < int_limit
    → k.pid_lock ≡ some lock
    → lock.thread_addr ≡ none
    → Forked k temp waiting lock
unfolding HasPids append_process
sys_fork_lem k {sleeping} {waiting} temp cur p ps lock view z now few small valid list more has_lock
      free =
    let new : ℕ = k.global_pid + 1 in
    let (s1, forked, view1, _, _, _, now1) =
      thread_fork_lem temp view z few (omega (arith, small)) in
    let (l, s2, taken, _, freed, view2) =
      release-acquire true lock {s = s1} free (now1 ∙ now) view1 (inr refl)
        (omega (arith, small, length-append waiting (temp ∷ []))) in
    let none_yet : find new k.pidlist ≡ none =
      find-new 0 k.pidlist k.global_pid new valid (omega arith) in
    let appended : append_process k.pidlist (pidlist_create new)
        ≡ some (p ∷ (ps ++ (pidlist_create new ∷ []))) =
      rw list refl in
    record {
      after = record k {
        system = s2;
        pidlist = p ∷ (ps ++ (pidlist_create new ∷ []));
        global_pid = new;
        pid_lock = some (record lock { thread_addr = none });
        pid = update (update k.pid temp 0) temp new;
      };
      runs = fork_runs k temp p ps lock l s1 s2 forked has_lock taken more list freed;
      pids = append-Ascends 0 k.pidlist _ k.global_pid appended valid;
      own = rw (eq→== temp temp refl) refl;
      listed =
          append-find k.pidlist _ (pidlist_create new) new appended
          ∙ rw (none_yet, eq→== new new refl) refl;
      was_new = none_yet;
      others = λ pid other.
          append-find k.pidlist _ (pidlist_create new) pid appended
          ∙ not_appended (find pid k.pidlist) (pidlist_create new) pid
              (ne→== pid new (λ e. other (sym e)));
      sleeping = off_addr s1.sleepaddr lock.addr sleeping;
      woken = on_addr s1.sleepaddr lock.addr sleeping;
      sees =
          rw (append_assoc waiting (temp ∷ []) (on_addr s1.sleepaddr lock.addr sleeping)) at view2;
      free = refl;
    }
