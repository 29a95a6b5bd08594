-- ===== src/Process.antt =====
-- ece344/os161/kern/userprog: fork.c, wait.c, exit.c, get_pid.c and sbrk.c.
-- `pid_lock`, `pidlist` and `global_pid` are those of fork.c: fork.h declares them `static`, so each
-- file that includes it has its own, and only those of fork.c are used by the code modelled here.
-- An `int` that is handed on is a word of 32 bits; a negative pid, which `sys_waitpid` hands back at
-- once, is left out. Interrupts are off where the code turns them off; `splx` is left out. Trap
-- frames and address spaces are not modelled: whether a copy was made is an argument.
pub mod Sbrk
pub mod Pids
pub mod Change
pub mod Steps
pub mod Exit
pub mod Children
mod Tests
use harvard_os161_operating.Prelude.{
  Status, einval, efault, ◌>>=◌, ◌>>◌, guard, int_limit, is_success, ℕ, ◌+◌, Bool, true, false,
  ◌&&◌, not, Option, none, some, List, [], ◌∷◌, ◌++◌, ltb, leb, ◌==◌, if◌then◌else◌,
}
use harvard_os161_operating.Thread.{
  System, Switch, ForkMem, update, thread_sleep, thread_exit, thread_wakeup, thread_fork,
}
use harvard_os161_operating.Synch.{Lock, returns, waits, acquire_round, lock_release}
use harvard_os161_operating.Synch.Quiet.{lands}

-- `struct pid_list`; nothing is known of `exitcode` before the process has exited.
pub record Process : Type 0 where
  pub pid : ℕ
  pub has_exited : Bool
  pub exitcode : Option ℕ

-- The globals of fork.c, the threads, and `pid` of each thread.
pub record Kernel : Type 0 where
  pub system : System
  pub pidlist : List Process
  pub global_pid : ℕ
  pub pid_lock : Option Lock
  pub pid : ℕ → ℕ

-- `pidlist_create`, where there is memory.
abbrev pub pidlist_create : ℕ → Process
pidlist_create pid = record { pid = pid; has_exited = false; exitcode = none }

-- `init_pid`, which the menu calls first; the result of `kmalloc` is not looked at.
pub init_pid : Bool → Kernel → Option Kernel
init_pid mem k = do
  cur ← k.system.curthread
  guard mem
  some (record k { global_pid = 1; pid = update k.pid cur 1; pidlist = pidlist_create 1 ∷ [] })

-- `get_newpid`
pub get_newpid : Kernel → Option (ℕ × Kernel)
get_newpid k =
    guard (ltb (k.global_pid + 1) int_limit)
    >> some (k.global_pid + 1, record k { global_pid = k.global_pid + 1 })

-- `sys_get_pid`
pub sys_get_pid : Kernel → Option ℕ
sys_get_pid k = k.system.curthread >>= λ cur. some (k.pid cur)

-- `while ((current != NULL) && (pid != current->pid)) current = current->next;`
pub find : ℕ → List Process → Option Process
find pid [] = none
find pid (p ∷ ps) = if pid == p.pid then some p else find pid ps

-- What `pidlist_search` returns, and what it stores through `exitcode`.
pub data Search : Type 0 where
  missing : Search
  found : Bool → Option ℕ → Search

-- `if (pid_lock == NULL) pid_lock = lock_create("pid");`
pub create_lock : Option Lock → Kernel → Kernel
create_lock made k = elim k.pid_lock [ none ↦ record k { pid_lock = made } | some l ↦ k ]

-- `lock_release(pid_lock);`
pub release_pid_lock : Bool → Kernel → Option Kernel
release_pid_lock mem k = do
  l ← k.pid_lock
  (l', s) ← lock_release mem l k.system
  some (record k { pid_lock = some l'; system = s })

-- `pidlist_search`; `made` is what `lock_create` returns.
pub pidlist_search : Option Lock → Bool → ℕ → Kernel → Option (Search × Kernel)
pidlist_search made mem pid k = elim (find pid k.pidlist) [
  | some p ↦ some (found p.has_exited p.exitcode, create_lock made k)
  | none ↦ release_pid_lock mem (create_lock made k) >>= λ k'. some (missing, k')
]

-- `pidlist_exit`
pub pidlist_exit : ℕ → ℕ → List Process → List Process
pidlist_exit pid exitcode [] = []
pidlist_exit pid exitcode (p ∷ ps) =
    if pid == p.pid
    then record p { has_exited = true; exitcode = some exitcode } ∷ ps
    else p ∷ pidlist_exit pid exitcode ps

-- How `sys_waitpid`, or a round of it, ends: with an error code, with a pid and what `*status` is
-- then, or asleep.
pub data Waitpid : Type 0 where
  refuses : Status → Waitpid
  returns_pid : ℕ → Option ℕ → Waitpid
  sleeps : Switch → Waitpid

-- A round of the loop of `sys_waitpid`. What is stored in `*status` before the process has exited is
-- overwritten by a later round.
pub waitpid_round : Option Lock → Bool → ℕ → Kernel → Option (Waitpid × Kernel)
waitpid_round made mem pid k = pidlist_search made mem pid k >>= λ r. elim r.0 [
  | found true status ↦ some (returns_pid pid status, r.1)
  | _ ↦ thread_sleep mem r.1.system pid >>= λ w. some (sleeps w, record (r.1) { system = lands w })
]

-- `sys_waitpid`, up to where it returns or sleeps; `status` tells whether that pointer is not NULL.
pub sys_waitpid : Option Lock → Bool → ℕ → Bool → ℕ → Option ℕ → Kernel → Option (Waitpid × Kernel)
sys_waitpid made mem pid status options at_status k =
    if not (options == 0)
    then some (refuses einval, k)
    else if not status
    then some (refuses efault, k)
    else if ltb k.global_pid pid
    then some (returns_pid pid at_status, k)
    else (sys_get_pid k >>= λ own.
        if leb pid own then some (returns_pid pid at_status, k) else waitpid_round made mem pid k)

-- `sys_exit`
pub sys_exit : Bool → ℕ → Kernel → Option (Switch × Kernel)
sys_exit mem exitcode k = do
  cur ← k.system.curthread
  s ← thread_wakeup mem (k.pid cur) k.system
  w ← thread_exit mem s
  some (w, record k { system = lands w; pidlist = pidlist_exit (k.pid cur) exitcode k.pidlist })

-- What `sys_fork` depends on: memory for the copy of the trap frame, the copy of the address space,
-- `thread_fork`, memory for the list of pids, and for waking those who wait for the lock.
pub record ForkSupply : Type 0 where
  pub trapframe : Bool
  pub addrspace : Bool
  pub thread : ForkMem
  pub node : Bool
  pub wakeup : Bool

-- How `sys_fork` ends: with -1, with a pid, or asleep on the lock.
pub data Fork : Type 0 where
  fails : Fork
  forks : ℕ → Fork
  blocks : Switch → Fork

-- `while (current->next != NULL) current = current->next; current->next = new_pid;`
pub append_process : List Process → Process → Option (List Process)
append_process [] p = none
append_process (q ∷ qs) p = some (q ∷ (qs ++ (p ∷ [])))

-- `sys_fork` from where it holds the lock.
pub fork_locked : ForkSupply → ℕ → Kernel → Option (Fork × Kernel)
fork_locked m temp k = get_newpid k >>= λ r.
    if m.node
    then (append_process k.pidlist (pidlist_create (r.0)) >>= λ ps.
        release_pid_lock m.wakeup (record (r.1) { pid = update k.pid temp (r.0); pidlist = ps })
        >>= λ k'. some (forks (r.0), k'))
    else some (fails, record (r.1) { pid = update k.pid temp (r.0) })

-- `sys_fork` from `lock_acquire`; a thread that slept starts here again.
pub fork_link : ForkSupply → ℕ → Kernel → Option (Fork × Kernel)
fork_link m temp k = k.pid_lock >>= λ lock. acquire_round m.wakeup lock k.system >>= λ r. elim r [
  | waits w ↦ some (blocks w, record k { system = lands w })
  | returns lock' ↦ fork_locked m temp (record k { pid_lock = some lock' })
]

-- `sys_fork`, which makes the thread `temp`; `thread_create` sets its pid to 0.
pub sys_fork : ForkSupply → ℕ → Kernel → Option (Fork × Kernel)
sys_fork m temp k =
    if not (m.trapframe && m.addrspace)
    then some (fails, k)
    else (thread_fork m.thread k.system temp >>= λ r.
        if is_success r.0
        then fork_link m temp (record k { system = r.1; pid = update k.pid temp 0 })
        else some (fails, record k { system = r.1; pid = update k.pid temp 0 }))
