-- ===== src/Process/Change.antt =====
-- What the calls of kern/userprog/fork.c and wait.c do to the list of processes.
use harvard_os161_operating.Prelude.{
  ◌>>=◌, int_limit, is_success, ℕ, ◌+◌, ◌≡◌, refl, sym, ap, ◌∙◌, inl, inr, Bool, true, false, ◌&&◌,
  Option, none, some, ltb, leb, ◌==◌, Bool-cases,
}
use harvard_os161_operating.Thread.{System, update, thread_sleep, thread_fork}
use harvard_os161_operating.Synch.Quiet.{lands}
use harvard_os161_operating.Synch.{Round, Lock, returns, waits, acquire_round, lock_release}
use harvard_os161_operating.Process.{
  Process, Kernel, Search, Waitpid, ForkSupply, Fork, missing, found, returns_pid, sleeps, blocks,
  pidlist_create, get_newpid, sys_get_pid, find, create_lock, release_pid_lock, pidlist_search,
  waitpid_round, sys_waitpid, append_process, fork_locked, fork_link, sys_fork,
}

-- What holds of the result of a run that goes on.
abbrev pub OnSome {ℓ} : {A : Type ℓ} → (A → Type 0) → Option A → Type 0
OnSome P none = Unit {0}
OnSome P (some a) = P a

pub on_bind {ℓ κ} :
    {A : Type ℓ} {B : Type κ} (P : B → Type 0) (o : Option A) (f : A → Option B)
    → ((a : A) → o ≡ some a → OnSome P (f a))
    → OnSome P (o >>= f)
on_bind P none f h = tt
on_bind P (some a) f h = h a refl

pub on_some {ℓ} :
    {A : Type ℓ} (P : A → Type 0) {o : Option A} (a : A) → o ≡ some a → OnSome P o → P a
on_some P a e h = rw e at h

pub bind_some {ℓ κ} :
    {A : Type ℓ} {B : Type κ} {o : Option A} {a : A} (f : A → Option B)
    → o ≡ some a
    → (o >>= f) ≡ f a
bind_some f e = ap (λ x. x >>= f) e

-- The list and the last pid are as they were; or a pid was used up, and put at the end of the list
-- or lost.
pub data Change (k k' : Kernel) : Type 0 where
  same : k'.pidlist ≡ k.pidlist → k'.global_pid ≡ k.global_pid → Change k k'
  lost : k'.pidlist ≡ k.pidlist → k'.global_pid ≡ k.global_pid + 1 → Change k k'
  added :
      append_process k.pidlist (pidlist_create (k.global_pid + 1)) ≡ some k'.pidlist
      → k'.global_pid ≡ k.global_pid + 1
      → Change k k'

-- The locks are no part of the list.
abbrev pub IsSame : Kernel → Kernel → Type 0
IsSame k k' = (k'.pidlist ≡ k.pidlist) × (k'.global_pid ≡ k.global_pid)

release-IsSame : (mem : Bool) (k : Kernel) → OnSome (IsSame k) (release_pid_lock mem k)
unfolding release_pid_lock
release-IsSame mem k =
    on_bind (IsSame k) k.pid_lock _
      (λ l _. on_bind (IsSame k) (lock_release mem l k.system) _ (λ r _. (refl, refl)))

fork_locked-Change :
    (m : ForkSupply) (temp : ℕ) (k : Kernel) (s : System) (f : ℕ → ℕ) (l : Option Lock)
    → OnSome
        (λ (x : Fork × Kernel). Change k (x.1))
        (fork_locked m temp (record k { system = s; pid_lock = l; pid = f }))
unfolding fork_locked get_newpid
fork_locked-Change m temp k s f l = elim (Bool-cases (ltb (k.global_pid + 1) int_limit)) [
  | inr full ↦ rw full tt
  | inl more ↦ rw more (elim (Bool-cases m.node) [
    | inr no_node ↦ rw no_node (lost refl refl)
    | inl node ↦ rw node (
        on_bind _ (append_process k.pidlist (pidlist_create (k.global_pid + 1))) _ (λ ps e.
          let k1 : Kernel = record k {
            system = s;
            pidlist = ps;
            global_pid = k.global_pid + 1;
            pid_lock = l;
            pid = update f temp (k.global_pid + 1);
          } in
          on_bind _ (release_pid_lock m.wakeup k1) _ (λ k' e'.
            let (l, g) = on_some (IsSame k1) k' e' (release-IsSame m.wakeup k1) in
            added (e ∙ ap some (sym l)) g)))
  ])
]

-- What `fork_link` does with how `lock_acquire` ended.
acquired : ForkSupply → ℕ → Kernel → Round Lock → Option (Fork × Kernel)
acquired m temp k (waits w) = some (blocks w, record k { system = lands w })
acquired m temp k (returns l) = fork_locked m temp (record k { pid_lock = some l })

pub fork_link-Change :
    (m : ForkSupply) (temp : ℕ) (k : Kernel) (s : System) (f : ℕ → ℕ)
    → OnSome
        (λ (x : Fork × Kernel). Change k (x.1))
        (fork_link m temp (record k { system = s; pid = f }))
unfolding fork_link acquired
fork_link-Change m temp k s f = on_bind _ k.pid_lock _ (λ lock _.
    on_bind (λ (x : Fork × Kernel). Change k (x.1)) (acquire_round m.wakeup lock s)
      (acquired m temp (record k { system = s; pid = f })) (λ r _. go r))
  where
    go :
        (r : Round Lock)
        → OnSome
            (λ (x : Fork × Kernel). Change k (x.1))
            (acquired m temp (record k { system = s; pid = f }) r)
    go (waits w) = same refl refl
    go (returns l) = fork_locked-Change m temp k s f (some l)

pub sys_fork-Change :
    (m : ForkSupply) (temp : ℕ) (k : Kernel)
    → OnSome (λ (x : Fork × Kernel). Change k (x.1)) (sys_fork m temp k)
unfolding sys_fork
sys_fork-Change m temp k = elim (Bool-cases (m.trapframe && m.addrspace)) [
  | inr no_copy ↦ rw no_copy (same refl refl)
  | inl copied ↦ rw copied (
      on_bind _ (thread_fork m.thread k.system temp) _ (λ r _. elim (Bool-cases (is_success r.0)) [
        | inl ok ↦ rw ok (fork_link-Change m temp k (r.1) (update k.pid temp 0))
        | inr failed ↦ rw failed (same refl refl)
      ]))
]

create_lock-IsSame : (made : Option Lock) (k : Kernel) → IsSame k (create_lock made k)
unfolding create_lock
create_lock-IsSame made k = go k.pid_lock refl
  where
    go : (l : Option Lock) → k.pid_lock ≡ l → IsSame k (create_lock made k)
    go none e = rw e (refl, refl)
    go (some l) e = rw e (refl, refl)

-- What `pidlist_search` does with what it found, and `waitpid_round` with that.
searched : Option Lock → Bool → Kernel → Option Process → Option (Search × Kernel)
searched made mem k (some p) = some (found p.has_exited p.exitcode, create_lock made k)
searched made mem k none = release_pid_lock mem (create_lock made k) >>= λ k'. some (missing, k')

waited : Bool → ℕ → Search × Kernel → Option (Waitpid × Kernel)
waited mem pid r = elim r.0 [
  | found true status ↦ some (returns_pid pid status, r.1)
  | _ ↦ thread_sleep mem r.1.system pid >>= λ w. some (sleeps w, record (r.1) { system = lands w })
]

searched-IsSame :
    (made : Option Lock) (mem : Bool) (k : Kernel) (o : Option Process)
    → OnSome (λ (x : Search × Kernel). IsSame k (x.1)) (searched made mem k o)
unfolding searched
searched-IsSame made mem k (some p) = create_lock-IsSame made k
searched-IsSame made mem k none = on_bind _ (release_pid_lock mem (create_lock made k)) _ (λ k' e'.
    let (l, g) =
      on_some (IsSame (create_lock made k)) k' e' (release-IsSame mem (create_lock made k)) in
    let (l', g') = create_lock-IsSame made k in (l ∙ l', g ∙ g'))

waited-IsSame :
    (mem : Bool) (pid : ℕ) (k : Kernel) (r : Search × Kernel)
    → IsSame k (r.1)
    → OnSome (λ (x : Waitpid × Kernel). IsSame k (x.1)) (waited mem pid r)
unfolding waited
waited-IsSame mem pid k (found true status, k') kept = kept
waited-IsSame mem pid k (found false status, k') kept =
    on_bind _ (thread_sleep mem k'.system pid) _ (λ w _. kept)
waited-IsSame mem pid k (missing, k') kept =
    on_bind _ (thread_sleep mem k'.system pid) _ (λ w _. kept)

pub waitpid_round-IsSame :
    (made : Option Lock) (mem : Bool) (pid : ℕ) (k : Kernel)
    → OnSome (λ (x : Waitpid × Kernel). IsSame k (x.1)) (waitpid_round made mem pid k)
unfolding waitpid_round pidlist_search searched waited
waitpid_round-IsSame made mem pid k =
    on_bind (λ (x : Waitpid × Kernel). IsSame k (x.1)) (searched made mem k (find pid k.pidlist))
      (waited mem pid)
      (λ r e. waited-IsSame mem pid k r (
        on_some (λ (x : Search × Kernel). IsSame k (x.1)) r e
          (searched-IsSame made mem k (find pid k.pidlist))))

pub sys_waitpid-IsSame :
    (made : Option Lock) (mem : Bool) (pid : ℕ) (status : Bool) (options : ℕ) (at_status : Option ℕ)
    (k : Kernel)
    → OnSome
        (λ (x : Waitpid × Kernel). IsSame k (x.1))
        (sys_waitpid made mem pid status options at_status k)
unfolding sys_waitpid
sys_waitpid-IsSame made mem pid status options at_status k = elim (Bool-cases (options == 0)) [
  | inr options ↦ rw options (refl, refl)
  | inl plain ↦ elim (Bool-cases status) [
    | inr null ↦ rw (plain, null) (refl, refl)
    | inl given ↦ elim (Bool-cases (ltb k.global_pid pid)) [
      | inl far ↦ rw (plain, given, far) (refl, refl)
      | inr near ↦
          rw (plain, given, near)
            (on_bind _ (sys_get_pid k) _ (λ own _. elim (Bool-cases (leb pid own)) [
              | inl older ↦ rw older (refl, refl)
              | inr younger ↦ rw younger (waitpid_round-IsSame made mem pid k)
            ]))
    ]
  ]
]
