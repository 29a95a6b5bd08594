-- ===== src/Thread.antt =====
-- ece344/os161/kern/thread/thread.c and kern/thread/scheduler.c: which thread runs, which are
-- ready, which sleep and on what, which are dead.
-- A thread is named by the address of its structure, a number. Interrupts are off throughout, as
-- the code asserts. Left out: the stacks and their magic numbers, the machine's context switch,
-- address spaces, names, working directories, and the memory that `kfree` gives back.
-- A call of `kmalloc` is a `Bool`, true for a block.
pub mod View
pub mod Run
pub mod Rounds
pub mod Wakeup
pub mod Reserve
pub mod RoundRobin
pub mod Fork
mod Tests
use harvard_os161_operating.Array
use harvard_os161_operating.Queue
use harvard_os161_operating.Array.{Array}
use harvard_os161_operating.Queue.{Queue}
use harvard_os161_operating.Prelude.{
  Status, success, enomem, ◌>>=◌, ◌>>◌, guard, is_success, ℕ, zero, suc, ◌+◌, ◌-◌, Bool, true,
  false, ◌&&◌, not, Option, none, some, ltb, ◌==◌, if◌then◌else◌,
}

-- The globals of both files, and `t_sleepaddr` of each thread (0 for NULL).
pub record System : Type 0 where
  pub curthread : Option ℕ
  pub sleepers : Array
  pub zombies : Array
  pub runqueue : Queue
  pub numthreads : ℕ
  pub sleepaddr : ℕ → ℕ

-- `threadstate_t`; `mi_switch` is never called with `S_RUN`.
pub data NextState : Type 0 where
  ready sleep zombie : NextState

-- `make_runnable`
pub make_runnable : Bool → System → ℕ → Option (Status × System)
make_runnable mem s t =
    Queue.addtail mem s.runqueue t >>= λ r. some (r.0, record s { runqueue = r.1 })

-- `result = make_runnable(t); assert(result==0);`
pub must_run : Bool → System → ℕ → Option System
must_run mem s t = make_runnable mem s t >>= λ r. guard (is_success r.0) >> some (r.1)

-- Where `mi_switch` goes: to the next ready thread, or into the idle loop of `scheduler`, which
-- ends when an interrupt handler makes a thread runnable.
pub data Switch : Type 0 where
  switched : ℕ → System → Switch
  idles : System → Switch

-- `scheduler`, and `curthread = next`. A cell that holds no thread cannot be switched to.
pub schedule : System → Option Switch
schedule s =
    if Queue.is_empty s.runqueue
    then some (idles s)
    else (Queue.remhead s.runqueue >>= λ r.
        r.0 >>= λ next. some (switched next (record s { curthread = some next; runqueue = r.1 })))

-- The current thread goes on the list for its next state; the assertion wants that to succeed.
pub stash : Bool → NextState → ℕ → System → Option System
stash mem ready cur s = must_run mem s cur
stash mem sleep cur s = do
  (r, a) ← Array.add mem s.sleepers cur
  guard (is_success r)
  some (record s { sleepers = a })
stash mem zombie cur s = do
  (r, a) ← Array.add mem s.zombies cur
  guard (is_success r)
  some (record s { zombies = a })

-- `mi_switch` up to the context switch. With no current thread it returns at once.
pub mi_switch : Bool → NextState → System → Option Switch
mi_switch mem nextstate s = elim s.curthread [
  | none ↦ some (idles s)
  | some cur ↦ stash mem nextstate cur (record s { curthread = none }) >>= schedule
]

pub thread_yield : Bool → System → Option Switch
thread_yield mem s = mi_switch mem ready s

abbrev pub update : (ℕ → ℕ) → ℕ → ℕ → ℕ → ℕ
update f t a u = if t == u then a else f u

-- `thread_sleep` up to the context switch.
pub thread_sleep : Bool → System → ℕ → Option Switch
thread_sleep mem s addr = do
  cur ← s.curthread
  mi_switch mem sleep (record s { sleepaddr = update s.sleepaddr cur addr })

-- `curthread->t_sleepaddr = NULL;`, when the thread that slept runs again.
pub wake_here : System → Option System
wake_here s = s.curthread >>= λ cur. some (record s { sleepaddr = update s.sleepaddr cur 0 })

-- `numthreads--; mi_switch(S_ZOMB);` of `thread_exit`.
pub thread_exit : Bool → System → Option Switch
thread_exit mem s =
    guard (ltb 0 s.numthreads) >> mi_switch mem zombie (record s { numthreads = s.numthreads - 1 })

-- The loop of `thread_wakeup` over `sleepers[]`. A round goes on to the next index or takes a
-- thread out, so there are as many rounds as sleepers.
pub wakeup_from : ℕ → Bool → ℕ → ℕ → System → Option System
wakeup_from zero mem addr i s = if ltb i (Array.getnum s.sleepers) then none else some s
wakeup_from (suc fuel) mem addr i s = elim (ltb i (Array.getnum s.sleepers)) [
  | false ↦ some s
  | true ↦ (Array.getguy s.sleepers i >>= λ c. c) >>= λ t. elim (s.sleepaddr t == addr) [
    | false ↦ wakeup_from fuel mem addr (i + 1) s
    | true ↦ Array.remove s.sleepers i >>= λ a.
        must_run mem (record s { sleepers = a }) t >>= λ s'. wakeup_from fuel mem addr i s'
  ]
]

pub thread_wakeup : Bool → ℕ → System → Option System
thread_wakeup mem addr s = wakeup_from (Array.getnum s.sleepers) mem addr 0 s

-- The loop of `thread_wakeup_head`: it wakes `head` alone, if that thread sleeps on `addr`.
pub wakeup_head_from : ℕ → Bool → ℕ → ℕ → ℕ → System → Option System
wakeup_head_from zero mem addr head i s = some s
wakeup_head_from (suc n) mem addr head i s = (Array.getguy s.sleepers i >>= λ c. c) >>= λ t.
    elim (s.sleepaddr t == addr && head == t) [
      | false ↦ wakeup_head_from n mem addr head (i + 1) s
      | true ↦ Array.remove s.sleepers i >>= λ a. must_run mem (record s { sleepers = a }) t
    ]

-- `thread_wakeup_head` takes the head off the queue that it is given.
pub thread_wakeup_head : Bool → ℕ → Queue → System → Option (Queue × System)
thread_wakeup_head mem addr cv_queue s = do
  (c, cv_queue') ← Queue.remhead cv_queue
  head ← c
  s' ← wakeup_head_from (Array.getnum s.sleepers) mem addr head 0 s
  some (cv_queue', s')

-- `for (i=0; i<array_getnum(sleepers); i++)` of `thread_hassleepers`, with `n` rounds left.
pub hassleepers_from : ℕ → ℕ → ℕ → System → Option Bool
hassleepers_from zero addr i s = some false
hassleepers_from (suc n) addr i s = (Array.getguy s.sleepers i >>= λ c. c) >>= λ t.
    elim (s.sleepaddr t == addr) [ true ↦ some true | false ↦ hassleepers_from n addr (i + 1) s ]

pub thread_hassleepers : ℕ → System → Option Bool
thread_hassleepers addr s = hassleepers_from (Array.getnum s.sleepers) addr 0 s

-- `z == curthread`
abbrev pub is_thread : Option ℕ → ℕ → Bool
is_thread none z = false
is_thread (some cur) z = z == cur

-- `exorcise`: no zombie is the current thread, and the list is emptied.
pub no_current : ℕ → ℕ → System → Option (Unit {0})
no_current zero i s = some tt
no_current (suc n) i s = do
  c ← Array.getguy s.zombies i
  z ← c
  guard (not (is_thread s.curthread z))
  no_current n (i + 1) s

pub exorcise : System → Option System
exorcise s = do
  no_current (Array.getnum s.zombies) 0 s
  (r, a) ← Array.setsize false s.zombies 0
  guard (is_success r)
  some (record s { zombies = a })

-- The results of `kmalloc` that `thread_fork` depends on: for the new structure and its name, for
-- its stack, for the three lists, and in `make_runnable`.
pub record ForkMem : Type 0 where
  pub created : Bool
  pub stack : Bool
  pub sleepers : Bool
  pub zombies : Bool
  pub runqueue : Bool
  pub runnable : Bool

-- `goto fail` where a call did not succeed.
abbrev pub or_fail :
    Option (Status × System) → (System → Option (Status × System)) → Option (Status × System)
or_fail none k = none
or_fail (some (r, s)) k = if is_success r then k s else some (r, s)

pub reserve_sleepers : Bool → System → ℕ → Option (Status × System)
reserve_sleepers mem s n =
    Array.preallocate mem s.sleepers n >>= λ r. some (r.0, record s { sleepers = r.1 })

pub reserve_zombies : Bool → System → ℕ → Option (Status × System)
reserve_zombies mem s n =
    Array.preallocate mem s.zombies n >>= λ r. some (r.0, record s { zombies = r.1 })

-- `scheduler_preallocate`
pub reserve_runqueue : Bool → System → ℕ → Option (Status × System)
reserve_runqueue mem s n =
    Queue.preallocate mem s.runqueue n >>= λ r. some (r.0, record s { runqueue = r.1 })

-- What `thread_create` stores in the new structure and is kept here: `t_sleepaddr = NULL`.
pub thread_create : System → ℕ → System
thread_create s thread = record s { sleepaddr = update s.sleepaddr thread 0 }

-- `thread_fork` of the thread `newguy`. The parent's pid is stored through the pointer that
-- `thread_create` returned before that is tested for NULL.
pub thread_fork : ForkMem → System → ℕ → Option (Status × System)
thread_fork m s newguy =
    if not m.created
    then none
    else if not m.stack
    then some (enomem, thread_create s newguy)
    else or_fail (reserve_sleepers m.sleepers (thread_create s newguy) (s.numthreads + 1)) (λ s1.
      or_fail (reserve_zombies m.zombies s1 (s1.numthreads + 1)) (λ s2.
        or_fail (reserve_runqueue m.runqueue s2 (s2.numthreads + 1)) (λ s3.
          or_fail (make_runnable m.runnable s3 newguy)
            (λ s4. some (success, record s4 { numthreads = s4.numthreads + 1 })))))
