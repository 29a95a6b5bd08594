-- ===== src/Synch.antt =====
-- ece344/os161/kern/thread/synch.c: semaphores, locks and condition variables.
-- A function that may sleep is cut where it sleeps: a round runs from its start, or from where its
-- thread runs again, to where it returns or goes to sleep. Left out: names, `kmalloc` of the
-- structures, and `splx`; interrupts are off from `splhigh` on.
pub mod Sleepers
pub mod Quiet
pub mod Semaphores
pub mod Locks
mod Tests
use harvard_os161_operating.Prelude.{
  ◌>>=◌, ◌>>◌, guard, int_limit, ℕ, ◌+◌, ◌-◌, Bool, true, false, ◌&&◌, not, Option, none, some, ltb,
  ◌==◌, if◌then◌else◌,
}
use harvard_os161_operating.Queue
use harvard_os161_operating.Thread.{
  System, Switch, thread_sleep, thread_wakeup, thread_wakeup_head, thread_hassleepers, is_thread,
}

-- `struct semaphore`; `addr` is where it stands, which is what threads sleep on.
pub record Semaphore : Type 0 where
  pub addr : ℕ
  pub count : ℕ

-- How a round of `P` or `lock_acquire` ends: it returns, or its thread sleeps and another one runs.
pub data Round (A : Type 0) : Type 0 where
  returns : A → Round A
  waits : Switch → Round A

-- A round of `while (sem->count==0) thread_sleep(sem); sem->count--;`
pub p_round : Bool → Semaphore → System → Option (Round Semaphore)
p_round mem sem s =
    if sem.count == 0
    then (thread_sleep mem s sem.addr >>= λ w. some (waits w))
    else some (returns (record sem { count = sem.count - 1 }))

-- `V`; the assertion stops a count that wraps around.
pub v : Bool → Semaphore → System → Option (Semaphore × System)
v mem sem s =
    guard (ltb (sem.count + 1) int_limit)
    >> (thread_wakeup mem sem.addr s >>= λ s'. some (record sem { count = sem.count + 1 }, s'))

-- `sem_destroy` asserts that no thread sleeps on the semaphore.
pub sem_destroy : Semaphore → System → Option (Unit {0})
sem_destroy sem s = thread_hassleepers sem.addr s >>= λ b. guard (not b)

-- `struct lock`; `thread_addr` is the thread that holds it, or NULL.
pub record Lock : Type 0 where
  pub addr : ℕ
  pub thread_addr : Option ℕ

-- `lock_do_i_hold`
pub do_i_hold : Lock → System → Bool
do_i_hold lock s = elim s.curthread [
  | none ↦ is_free lock.thread_addr
  | some cur ↦ is_thread lock.thread_addr cur
]
  where
    is_free : Option ℕ → Bool
    is_free none = true
    is_free (some t) = false

-- `lock->thread_addr != NULL`
pub is_held : Lock → Bool
is_held lock = elim lock.thread_addr [ none ↦ false | some t ↦ true ]

-- A round of `lock_acquire`. The thread that runs takes the lock, also when it holds it already.
pub acquire_round : Bool → Lock → System → Option (Round Lock)
acquire_round mem lock s =
    if is_held lock && not (do_i_hold lock s)
    then (thread_sleep mem s lock.addr >>= λ w. some (waits w))
    else some (returns (record lock { thread_addr = s.curthread }))

-- `lock_release`; without the lock it does nothing.
pub lock_release : Bool → Lock → System → Option (Lock × System)
lock_release mem lock s =
    if do_i_hold lock s
    then (thread_wakeup mem lock.addr s >>= λ s'. some (record lock { thread_addr = none }, s'))
    else some (lock, s)

-- `struct cv`: the threads that wait, in order.
pub record Cv : Type 0 where
  pub addr : ℕ
  pub cv_queue : Queue.Queue

-- `cv_wait` up to where the thread sleeps: it queues, releases the lock, and sleeps. What
-- `q_addtail` returns is not looked at. The two `Bool`s are for the queue and for the lists.
pub cv_wait : Bool → Bool → Cv → Lock → System → Option (Cv × Lock × Switch)
cv_wait mem mem' cv lock s = do
  cur ← s.curthread
  (r, q) ← Queue.addtail mem cv.cv_queue cur
  (lock', s') ← lock_release mem' lock s
  w ← thread_sleep mem' s' cv.addr
  some (record cv { cv_queue = q }, lock', w)

-- `cv_signal` wakes the thread at the head of the queue.
pub cv_signal : Bool → Cv → System → Option (Cv × System)
cv_signal mem cv s =
    if Queue.is_empty cv.cv_queue
    then some (cv, s)
    else (thread_wakeup_head mem cv.addr cv.cv_queue s >>= λ r.
        some (record cv { cv_queue = r.0 }, r.1))

-- `cv_broadcast` wakes all threads that sleep on the variable; the queue stays as it is.
pub cv_broadcast : Bool → Cv → System → Option (Cv × System)
cv_broadcast mem cv s = thread_wakeup mem cv.addr s >>= λ s'. some (cv, s')
