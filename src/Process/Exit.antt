-- ===== src/Process/Exit.antt =====
-- `sys_exit` and `sys_waitpid` of kern/userprog: who waits for a process is woken when it exits, and
-- gets its exit code.
use mathlib.Core.List.{head?, tail}
use harvard_os161_operating.Prelude.{
  ℕ, ◌+◌, ◌-◌, ◌^◌, ◌<◌, ◌≡◌, refl, ap, ◌∙◌, ◌⊎◌, Bool, true, false, Option, some, List, [], ◌∷◌,
  ◌++◌, ◌==◌, if◌then◌else◌, eq→==, ne→==, length,
}
use harvard_os161_operating.Array.Valid as ArrayValid
use harvard_os161_operating.Array.Items.{items}
use harvard_os161_operating.Thread.{System, Switch, thread_exit, thread_wakeup}
use harvard_os161_operating.Thread.View.{Sees, on_addr, off_addr, HasRoom, IsSmall}
use harvard_os161_operating.Thread.Wakeup.{wakeup_loop-Woken, wakeup_loop-runs}
use harvard_os161_operating.Thread.RoundRobin.{goes_to, schedule-goes_to, thread_exit_lem}
use harvard_os161_operating.Synch.{Lock}
use harvard_os161_operating.Synch.Quiet.{lands}
use harvard_os161_operating.Process.{
  Process, Kernel, returns_pid, find, create_lock, pidlist_search, pidlist_exit, waitpid_round,
  sys_exit,
}
use harvard_os161_operating.Process.Pids.{marked, find-exit, find-exit_any}
use harvard_os161_operating.Process.Change.{same, lost, added, on_some, bind_some}
use harvard_os161_operating.Process.Steps.{
  Steps, Moves, stop, step, changes, exits, exit-list, Step-Moves, append-find,
}

-- The list says that the process has exited, and its code.
pub HasCode : ℕ → ℕ → Kernel → Type 0
HasCode own exitcode k =
    (n : ℕ) × (find own k.pidlist
      ≡ some (record { pid = n; has_exited = true; exitcode = some exitcode }))

Moves-HasCode :
    {may_exit : ℕ → Bool} {k k' : Kernel} (own exitcode : ℕ)
    → may_exit own ≡ false
    → Moves may_exit k k'
    → HasCode own exitcode k
    → HasCode own exitcode k'
unfolding HasCode
Moves-HasCode own exitcode gone (changes (same l g)) (n, f) = (n, rw l f)
Moves-HasCode own exitcode gone (changes (lost l g)) (n, f) = (n, rw l f)
Moves-HasCode {k = k} {k' = k'} own exitcode gone (changes (added e g)) (n, f) =
    (n, append-find k.pidlist k'.pidlist _ own e ∙ rw f refl)
Moves-HasCode {may_exit} {k} own exitcode gone (exits code pid may l g) (n, f) =
    let other : (pid == own) ≡ false = ne→== pid own (λ e. cc (may, gone, ap may_exit e)) in
    (n, rw l (find-exit k.pidlist pid code own _ f ∙ rw other refl))

Steps-HasCode :
    {may_exit : ℕ → Bool} {k k' : Kernel} (own exitcode : ℕ)
    → may_exit own ≡ false
    → Steps may_exit k k'
    → HasCode own exitcode k
    → HasCode own exitcode k'
Steps-HasCode own exitcode gone stop c = c
Steps-HasCode own exitcode gone (step steps s) c =
    Moves-HasCode own exitcode gone (Step-Moves s) (Steps-HasCode own exitcode gone steps c)

exit-HasCode :
    (mem : Bool) (exitcode cur : ℕ) (k k1 : Kernel) (w : Switch) (p : Process)
    → k.system.curthread ≡ some cur
    → find (k.pid cur) k.pidlist ≡ some p
    → sys_exit mem exitcode k ≡ some (w, k1)
    → HasCode (k.pid cur) exitcode k1
unfolding HasCode
exit-HasCode mem exitcode cur k k1 w p now listed runs =
    let (l, _) = on_some _ (w, k1) runs (exit-list mem exitcode cur k now) in
    (
      p.pid,
      rw l (
          find-exit k.pidlist (k.pid cur) exitcode (k.pid cur) p listed
          ∙ rw (eq→== (k.pid cur) (k.pid cur) refl) refl),
    )

-- Once a process on the list has called `sys_exit`, every round of `sys_waitpid` that asks for it
-- returns its pid and stores the code that it gave, whatever calls of other processes came between.
pub sys_waitpid-exit :
    {may_exit : ℕ → Bool} (mem : Bool) (exitcode cur : ℕ) (k k1 k2 : Kernel) (w : Switch)
    (p : Process) (made : Option Lock) (mem' : Bool)
    → k.system.curthread ≡ some cur
    → find (k.pid cur) k.pidlist ≡ some p
    → sys_exit mem exitcode k ≡ some (w, k1)
    → may_exit (k.pid cur) ≡ false
    → Steps may_exit k1 k2
    → waitpid_round made mem' (k.pid cur) k2
      ≡ some (returns_pid (k.pid cur) (some exitcode), create_lock made k2)
unfolding waitpid_round pidlist_search HasCode
sys_waitpid-exit mem exitcode cur k k1 k2 w p made mem' now listed runs gone steps =
    let (n, f) =
      Steps-HasCode (k.pid cur) exitcode gone steps
        (exit-HasCode mem exitcode cur k k1 w p now listed runs) in
    rw (waitpid_round, pidlist_search, f) refl

lands-goes_to : (ready : List ℕ) (s : System) → lands (goes_to ready s) ≡ s
lands-goes_to [] s = refl
lands-goes_to (next ∷ rest) s = refl

exit_runs :
    (mem : Bool) (exitcode cur : ℕ) (k : Kernel) (s : System) (w : Switch) (landed : System)
    → k.system.curthread ≡ some cur
    → thread_wakeup mem (k.pid cur) k.system ≡ some s
    → thread_exit mem s ≡ some w
    → lands w ≡ landed
    → sys_exit mem exitcode k
      ≡ some
          (w, record k { system = landed; pidlist = pidlist_exit (k.pid cur) exitcode k.pidlist })
unfolding sys_exit
exit_runs mem exitcode cur k s w landed now woken gone at =
    bind_some _ now
    ∙ (bind_some _ woken
        ∙ (bind_some _ gone
            ∙ ap
                (λ s'. some (
                  w,
                  record k { system = s'; pidlist = pidlist_exit (k.pid cur) exitcode k.pidlist },
                ))
                at))

pub sys_exit_lem :
    (k : Kernel) {sleeping waiting : List ℕ} (mem : Bool) (exitcode cur : ℕ)
    → Sees k.system sleeping waiting
    → k.system.curthread ≡ some cur
    → 0 < k.system.numthreads
    → ArrayValid.IsValid k.system.zombies
    → (k.system.zombies.num < k.system.zombies.max) ⊎ (mem ≡ true)
    → k.system.zombies.num + 1 < 2 ^ 29
    → HasRoom mem k.system waiting (length (on_addr k.system.sleepaddr (k.pid cur) sleeping))
    → IsSmall waiting (length sleeping)
    → (k' : Kernel) × (sys_exit mem exitcode k
        ≡ some (goes_to (waiting ++ on_addr k.system.sleepaddr (k.pid cur) sleeping) k'.system, k'))
      × Sees k'.system
          (off_addr k.system.sleepaddr (k.pid cur) sleeping)
          (tail (waiting ++ on_addr k.system.sleepaddr (k.pid cur) sleeping))
      × (k'.system.curthread ≡ head? (waiting ++ on_addr k.system.sleepaddr (k.pid cur) sleeping))
      × (items k'.system.zombies ≡ items k.system.zombies ++ (some cur ∷ []))
      × (k'.system.numthreads ≡ k.system.numthreads - 1)
      × ((pid : ℕ)
          → find pid k'.pidlist ≡ (
              if k.pid cur == pid
              then marked exitcode (find pid k.pidlist)
              else find pid k.pidlist))
sys_exit_lem k {sleeping} {waiting} mem exitcode cur view now counted z room few wroom small =
    let ready : List ℕ = waiting ++ on_addr k.system.sleepaddr (k.pid cur) sleeping in
    let wk = wakeup_loop-Woken {s = k.system} mem (k.pid cur) view wroom small in
    let zs = wk.same_zombies in
    let (s1, exits_to, v1, dead, _, count1, off) =
      thread_exit_lem {s = wk.after} mem cur wk.sees (wk.same_current ∙ now)
        (rw wk.same_count counted) (rw zs z) (rw zs room) (rw zs few) in
    let (s2, goes, v2, runs, _, count2, zombies2) = schedule-goes_to {s = s1} ready v1 off in
    (
      record k { system = s2; pidlist = pidlist_exit (k.pid cur) exitcode k.pidlist },
      exit_runs mem exitcode cur k wk.after (goes_to ready s2) s2 now (wakeup_loop-runs wk)
          (exits_to ∙ goes) (lands-goes_to ready s2),
      v2,
      runs,
      ap items zombies2 ∙ dead ∙ ap (λ a. items a ++ (some cur ∷ [])) zs,
      count2 ∙ count1 ∙ ap (λ n. n - 1) wk.same_count,
      λ pid. find-exit_any k.pidlist (k.pid cur) exitcode pid,
    )
