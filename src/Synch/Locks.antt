-- ===== src/Synch/Locks.antt =====
-- Locks of kern/thread/synch.c.
use mathlib.Core.List.{head?, tail}
use harvard_os161_operating.Prelude.{
  ℕ, ◌+◌, ◌^◌, ◌<◌, ◌≡◌, refl, ◌∙◌, ◌≢◌, ◌⊎◌, Bool, true, none, some, List, [], ◌∷◌, ◌++◌, ◌==◌,
  if◌then◌else◌, eq→==, ne→==, length,
}
use harvard_os161_operating.Thread.{System, Switch, thread_sleep, thread_wakeup}
use harvard_os161_operating.Thread.RoundRobin.{goes_to, schedule-goes_to, thread_sleep_lem}
use harvard_os161_operating.Thread.View.{Sees, on_addr, off_addr, HasRoom, IsSmall}
use harvard_os161_operating.Thread.Wakeup.{thread_wakeup_lem}
use harvard_os161_operating.Synch.{
  Lock, returns, waits, do_i_hold, is_held, acquire_round, lock_release,
}

asks_held :
    (mem : Bool) (lock : Lock) (s : System) {holder other : ℕ} {w : Switch}
    → lock.thread_addr ≡ some holder
    → s.curthread ≡ some other
    → other ≢ holder
    → thread_sleep mem s lock.addr ≡ some w
    → acquire_round mem lock s ≡ some (waits w)
unfolding acquire_round is_held do_i_hold
asks_held mem lock s {holder} {other} held now ne sleeps =
    rw sleeps (rw (held, now, ne→== other holder ne) refl)

-- While one thread holds the lock, another that asks for it, with space on `sleepers[]` or memory,
-- goes to sleep: it is at the end of `sleepers[]` with the address of the lock, no other thread's
-- address changes, and the first ready thread runs, or the processor idles. If it releases the lock
-- instead, nothing changes. The lists agree with the structures, and fewer than 2 ^ 29 - 1 threads
-- sleep.
pub excludes :
    (mem : Bool) (lock : Lock) {s : System} {sleeping waiting : List ℕ} {holder other : ℕ}
    → lock.thread_addr ≡ some holder
    → s.curthread ≡ some other
    → other ≢ holder
    → Sees s sleeping waiting
    → (s.sleepers.num < s.sleepers.max) ⊎ (mem ≡ true)
    → s.sleepers.num + 1 < 2 ^ 29
    → (s' : System) × (acquire_round mem lock s ≡ some (waits (goes_to waiting s')))
      × Sees s' (sleeping ++ (other ∷ [])) (tail waiting)
      × ((t : ℕ) → s'.sleepaddr t ≡ (if other == t then lock.addr else s.sleepaddr t))
      × (s'.curthread ≡ head? waiting)
      × (lock_release mem lock s ≡ some (lock, s))
unfolding lock_release do_i_hold
excludes mem lock {s} {waiting = waiting} {holder} {other} held now ne view room small =
    let (s1, sleeps, view1, addr1, off, _) =
      thread_sleep_lem mem lock.addr other view now room small in
    let (s2, goes, view2, next, same, _, _) = schedule-goes_to waiting view1 off in
    (
      s2,
      asks_held mem lock s held now ne (sleeps ∙ goes),
      view2,
      λ t. rw same (addr1 t),
      next,
      rw (now, held, ne→== other holder ne) refl,
    )

do_i_hold-own :
    (lock : Lock) (s : System) {cur : ℕ}
    → lock.thread_addr ≡ some cur
    → s.curthread ≡ some cur
    → do_i_hold lock s ≡ true
unfolding do_i_hold
do_i_hold-own lock s {cur} own now = rw (now, own) (eq→== cur cur refl)

release_own :
    (mem : Bool) (lock : Lock) (s : System) {s' : System}
    → do_i_hold lock s ≡ true
    → thread_wakeup mem lock.addr s ≡ some s'
    → lock_release mem lock s ≡ some (record lock { thread_addr = none }, s')
unfolding lock_release
release_own mem lock s own woken = rw (own, woken) refl

-- A free lock goes to the thread that asks for it. When that thread releases it, it is free again,
-- and all threads that sleep on it are ready, behind those that were, in the order in which they
-- slept, if the run queue has room for them or there is memory. The lists agree with the structures
-- and hold fewer than 2 ^ 29 - 1 threads.
pub release-acquire :
    (mem : Bool) (lock : Lock) {s : System} {sleeping waiting : List ℕ} {cur : ℕ}
    → lock.thread_addr ≡ none
    → s.curthread ≡ some cur
    → Sees s sleeping waiting
    → HasRoom mem s waiting (length (on_addr s.sleepaddr lock.addr sleeping))
    → IsSmall waiting (length sleeping)
    → (l : Lock) × (s' : System) × (acquire_round mem lock s ≡ some (returns l))
      × (l.thread_addr ≡ some cur)
      × (lock_release mem l s ≡ some (record lock { thread_addr = none }, s'))
      × Sees s'
          (off_addr s.sleepaddr lock.addr sleeping)
          (waiting ++ on_addr s.sleepaddr lock.addr sleeping)
unfolding acquire_round is_held
release-acquire mem lock {s} {sleeping} {waiting} {cur} free now view room small =
    let held : Lock = record lock { thread_addr = s.curthread } in
    let (s', woken, sees, _, _, _) = thread_wakeup_lem mem lock.addr view room small in
    let own = do_i_hold-own held s now now in
    (held, s', rw free refl, now, release_own mem held s own woken, sees)
