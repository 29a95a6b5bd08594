-- ===== src/Process/Steps.antt =====
-- The calls of kern/userprog/fork.c, wait.c and exit.c one after another, with anything else that the
-- kernel does between them.
use mathlib.Core.Path.{subst}
use mathlib.Core.Option.{some-injective}
use harvard_os161_operating.Prelude.{
  guard, ℕ, ◌+◌, ◌≡◌, refl, ap, Bool, true, Option, none, some, List, [], ◌∷◌, arith, ◌==◌,
  if◌then◌else◌,
}
use harvard_os161_operating.Thread.{Switch, thread_exit, thread_wakeup}
use harvard_os161_operating.Synch.{Lock}
use harvard_os161_operating.Process.{
  Process, Kernel, Waitpid, ForkSupply, Fork, pidlist_create, init_pid, find, pidlist_exit,
  waitpid_round, sys_waitpid, sys_exit, append_process, fork_link, sys_fork,
}
use harvard_os161_operating.Process.Pids.{
  Ascends, Ascends-append, Ascends-more, exit-Ascends, find-append,
}
use harvard_os161_operating.Process.Change.{
  Change, same, lost, added, OnSome, on_bind, on_some, IsSame, fork_link-Change, sys_fork-Change,
  waitpid_round-IsSame, sys_waitpid-IsSame,
}

-- One call that goes on, where processes exit only if `may_exit` of their pid.
pub data Step (may_exit : ℕ → Bool) (k k' : Kernel) : Type 0 where
  fork :
      (m : ForkSupply) (temp : ℕ) (r : Fork) → sys_fork m temp k ≡ some (r, k') → Step may_exit k k'
  fork_again :
      (m : ForkSupply) (temp : ℕ) (r : Fork)
      → fork_link m temp k ≡ some (r, k')
      → Step may_exit k k'
  wait :
      (made : Option Lock) (mem : Bool) (pid : ℕ) (status : Bool) (options : ℕ)
      (at_status : Option ℕ) (r : Waitpid)
      → sys_waitpid made mem pid status options at_status k ≡ some (r, k')
      → Step may_exit k k'
  wait_again :
      (made : Option Lock) (mem : Bool) (pid : ℕ) (r : Waitpid)
      → waitpid_round made mem pid k ≡ some (r, k')
      → Step may_exit k k'
  exit :
      (mem : Bool) (exitcode cur : ℕ) (w : Switch)
      → k.system.curthread ≡ some cur
      → may_exit (k.pid cur) ≡ true
      → sys_exit mem exitcode k ≡ some (w, k')
      → Step may_exit k k'
  -- Whatever leaves the list of processes alone.
  work : k'.pidlist ≡ k.pidlist → k'.global_pid ≡ k.global_pid → Step may_exit k k'

pub data Steps (may_exit : ℕ → Bool) (k : Kernel) : Kernel → Type 0 where
  stop : Steps may_exit k k
  step : {k' k'' : Kernel} → Steps may_exit k k' → Step may_exit k' k'' → Steps may_exit k k''

-- What `sys_exit` does to the list.
pub exit-list :
    (mem : Bool) (exitcode cur : ℕ) (k : Kernel)
    → k.system.curthread ≡ some cur
    → OnSome
        (λ (x : Switch × Kernel).
          (x.1.pidlist ≡ pidlist_exit (k.pid cur) exitcode k.pidlist)
          × (x.1.global_pid ≡ k.global_pid))
        (sys_exit mem exitcode k)
unfolding sys_exit
exit-list mem exitcode cur k now = on_bind _ k.system.curthread _ (λ c e.
    let own : c ≡ cur = cc (e, now) in
    let list = ap (λ t. pidlist_exit (k.pid t) exitcode k.pidlist) own in
    on_bind _ (thread_wakeup mem (k.pid c) k.system) _
      (λ s _. on_bind _ (thread_exit mem s) _ (λ w _. (list, refl))))

-- How a step changes the list.
pub data Moves (may_exit : ℕ → Bool) (k k' : Kernel) : Type 0 where
  changes : Change k k' → Moves may_exit k k'
  exits :
      (exitcode pid : ℕ)
      → may_exit pid ≡ true
      → k'.pidlist ≡ pidlist_exit pid exitcode k.pidlist
      → k'.global_pid ≡ k.global_pid
      → Moves may_exit k k'

pub Step-Moves : {may_exit : ℕ → Bool} {k k' : Kernel} → Step may_exit k k' → Moves may_exit k k'
Step-Moves {k = k} {k' = k'} (fork m temp r e) =
    changes (on_some (λ (x : Fork × Kernel). Change k (x.1)) (r, k') e (sys_fork-Change m temp k))
Step-Moves {k = k} {k' = k'} (fork_again m temp r e) = changes (
    on_some (λ (x : Fork × Kernel). Change k (x.1)) (r, k') e
      (fork_link-Change m temp k k.system k.pid))
Step-Moves {k = k} {k' = k'} (wait made mem pid status options at_status r e) =
    let (l, g) =
      on_some (λ (x : Waitpid × Kernel). IsSame k (x.1)) (r, k') e
        (sys_waitpid-IsSame made mem pid status options at_status k) in
    changes (same l g)
Step-Moves {k = k} {k' = k'} (wait_again made mem pid r e) =
    let (l, g) =
      on_some (λ (x : Waitpid × Kernel). IsSame k (x.1)) (r, k') e
        (waitpid_round-IsSame made mem pid k) in
    changes (same l g)
Step-Moves {k = k} {k' = k'} (exit mem exitcode cur w now may e) =
    let (l, g) = on_some _ (w, k') e (exit-list mem exitcode cur k now) in
    exits exitcode (k.pid cur) may l g
Step-Moves (work l g) = changes (same l g)

pub append-Ascends :
    (low : ℕ) (ps ps' : List Process) (high : ℕ)
    → append_process ps (pidlist_create (high + 1)) ≡ some ps'
    → Ascends low ps high
    → Ascends low ps' (high + 1)
unfolding append_process
append-Ascends low [] ps' high e a = cc e
append-Ascends low (p ∷ ps) ps' high e a =
    subst (λ l. Ascends low l (high + 1)) (some-injective _ _ e)
      (Ascends-append low (p ∷ ps) high a)

pub append-find :
    (ps ps' : List Process) (q : Process) (pid : ℕ)
    → append_process ps q ≡ some ps'
    → find pid ps'
      ≡ elim (find pid ps) [ some p ↦ some p | none ↦ if pid == q.pid then some q else none ]
unfolding append_process
append-find [] ps' q pid e = cc e
append-find (r ∷ rs) ps' q pid e =
    subst
      (λ l. find pid l ≡ elim (find pid (r ∷ rs)) [
        | some p ↦ some p
        | none ↦ if pid == q.pid then some q else none
      ])
      (some-injective _ _ e) (find-append (r ∷ rs) q pid)

-- The pids on the list are distinct, and none is above the last one given out.
unfoldable pub HasPids : Kernel → Type 0
HasPids k = Ascends 0 k.pidlist k.global_pid

Moves-HasPids : {may_exit : ℕ → Bool} {k k' : Kernel} → Moves may_exit k k' → HasPids k → HasPids k'
unfolding HasPids
Moves-HasPids (changes (same l g)) a = rw (l, g) a
Moves-HasPids {k = k} (changes (lost l g)) a = rw (l, g) (Ascends-more 0 k.pidlist k.global_pid a)
Moves-HasPids {k = k} {k' = k'} (changes (added e g)) a =
    rw g (append-Ascends 0 k.pidlist k'.pidlist k.global_pid e a)
Moves-HasPids {k = k} (exits exitcode pid may l g) a =
    rw (l, g) (exit-Ascends 0 k.pidlist k.global_pid pid exitcode a)

-- However calls of `sys_fork`, `sys_waitpid` and `sys_exit` follow one another, cut where threads
-- sleep, with memory or without, the pids on the list stay in rising order, so no two processes have
-- the same, and none is above the last one given out.
pub Steps-HasPids :
    {may_exit : ℕ → Bool} {k k' : Kernel} → Steps may_exit k k' → HasPids k → HasPids k'
Steps-HasPids stop a = a
Steps-HasPids (step steps s) a = Moves-HasPids (Step-Moves s) (Steps-HasPids steps a)

-- `init_pid` starts with such a list.
pub init_pid-HasPids :
    (mem : Bool) (k : Kernel) → OnSome (λ (k' : Kernel). HasPids k') (init_pid mem k)
unfolding init_pid HasPids
init_pid-HasPids mem k =
    on_bind _ k.system.curthread _
      (λ cur _. on_bind _ (guard mem) _ (λ _ _. (omega arith, omega arith)))
