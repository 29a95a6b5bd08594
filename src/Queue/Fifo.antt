-- ===== src/Queue/Fifo.antt =====
-- kern/lib/queue.c is a first-in first-out queue without a bound, as long as there is memory.
use mathlib.Core.Path.{subst}
use harvard_os161_operating.Queue.Write.{
  appended, write_tail-runs, appended-Holds, full, empty-nil, not_empty, remhead-Holds,
  remhead_empty,
}
use harvard_os161_operating.Queue.Grow.{addtail_cell-PutsTail, double_size_lem, grow-Holds}
use harvard_os161_operating.Prelude.{
  success, enomem, ◌>>=◌, ◌>>◌, guard, is_success, ℕ, ◌+◌, ◌^◌, ◌≤◌, ◌<◌, ◌≡◌, refl, sym, ◌⊎◌, inl,
  inr, Bool, true, false, Option, none, some, List, [], ◌∷◌, ◌++◌, arith, dec_lt, lt→ltb, le→ltb,
  length, length-append,
}
use harvard_os161_operating.Queue.{
  Queue, is_empty, grow, after_grow, addtail_cell, addtail, preallocate, remhead,
}
use harvard_os161_operating.Queue.Holds.{Holds}

-- What a successful `q_addtail` of `x` leaves.
pub record Enqueued (mem : Bool) (q : Queue) (xs : List (Option ℕ)) (x : ℕ) : Type 0 where
  pub after : Queue
  pub runs : addtail mem q x ≡ some (success, after)
  pub holds : Holds after (xs ++ (some x ∷ []))
  pub keeps : q.size ≤ after.size

pub addtail-Enqueued_room :
    {q : Queue} {xs : List (Option ℕ)} (mem : Bool) (x : ℕ)
    → Holds q xs
    → length xs + 1 < q.size
    → Enqueued mem q xs x
unfolding addtail
addtail-Enqueued_room {q} {xs} mem x h more = record {
  after = appended q (some x);
  runs = addtail_cell-PutsTail 1 mem q xs (some x) h more;
  holds = appended-Holds h (some x) more;
  keeps = omega arith;
}

addtail-Enqueued_grow :
    {q : Queue} {xs : List (Option ℕ)} (x : ℕ)
    → Holds q xs
    → q.size ≤ length xs + 1
    → length xs + 2 < 2 ^ 29
    → Enqueued true q xs x
unfolding addtail addtail_cell after_grow
addtail-Enqueued_grow {q} {xs} x h most b =
    let (q', grown, h', le) =
      grow-Holds (addtail_cell 0 true) (q.size + 1) (addtail_cell-PutsTail 0 true) h (omega arith)
        (omega (arith, h.room)) in
    let more : length xs + 1 < q'.size = omega (arith, h.room) in
    record {
      after = appended q' (some x);
      runs =
          rw (lt→ltb 0 q.size (omega (arith, h.room)), full h most, grown)
            (write_tail-runs h' (some x));
      holds = appended-Holds h' (some x) more;
      keeps = omega arith;
    }

-- `q_addtail` puts the pointer behind all others; where the block is full it needs memory.
pub addtail-Enqueued :
    {q : Queue} {xs : List (Option ℕ)} (mem : Bool) (x : ℕ)
    → Holds q xs
    → length xs + 2 < 2 ^ 29
    → (length xs + 1 < q.size) ⊎ (mem ≡ true)
    → Enqueued mem q xs x
addtail-Enqueued mem x h b (inl more) = addtail-Enqueued_room mem x h more
addtail-Enqueued {q} {xs} mem x h b (inr got) = elim (dec_lt (length xs + 1) q.size) [
  | yes more ↦ addtail-Enqueued_room mem x h more
  | no most ↦ subst (λ m. Enqueued m q xs x) (sym got) (addtail-Enqueued_grow x h (omega arith) b)
]

-- A full queue of fewer than 2 ^ 29 - 2 pointers, without memory: `q_addtail` returns ENOMEM, and
-- nothing has changed.
pub addtail_enomem :
    {q : Queue} {xs : List (Option ℕ)} (x : ℕ)
    → Holds q xs
    → q.size ≤ length xs + 1
    → length xs + 2 < 2 ^ 29
    → addtail false q x ≡ some (enomem, q)
unfolding addtail addtail_cell grow after_grow
addtail_enomem {q} {xs} x h most b =
    let (m, doubled, le, small) =
      double_size_lem (q.size + 1) (q.size + 1) q.size (omega (arith, h.room)) (omega arith)
        (omega (arith, h.room)) in
    rw (lt→ltb 0 q.size (omega (arith, h.room)), full h most, doubled) refl

-- With memory, and for a size below 2 ^ 29, `q_preallocate` keeps what the queue holds, and
-- leaves `size` cells at least, and no fewer than there were.
pub preallocate_lem :
    {q : Queue} {xs : List (Option ℕ)} (size : ℕ)
    → Holds q xs
    → size < 2 ^ 29
    → (q' : Queue) × (preallocate true q size ≡ some (success, q'))
      × Holds q' xs
      × (size ≤ q'.size)
      × (q.size ≤ q'.size)
unfolding preallocate
preallocate_lem {q} {xs} size h b = elim (dec_lt q.size size) [
  | yes less ↦
      let (q', grown, h', le) =
        grow-Holds (addtail_cell 1 true) size (addtail_cell-PutsTail 1 true) h less b in
      (
        q',
        rw (lt→ltb 0 q.size (omega (arith, h.room)), lt→ltb q.size size less) grown,
        h',
        le,
        omega arith,
      )
  | no fits ↦ (
    q,
    rw (lt→ltb 0 q.size (omega (arith, h.room)), le→ltb q.size size (omega arith)) refl,
    h,
    omega arith,
    omega arith,
  )
]

-- Where there are as many cells as asked for already, `q_preallocate` does nothing.
pub preallocate_same :
    {q : Queue} {xs : List (Option ℕ)} (mem : Bool)
    → Holds q xs
    → preallocate mem q q.size ≡ some (success, q)
unfolding preallocate
preallocate_same {q} mem h =
    rw (lt→ltb 0 q.size (omega (arith, h.room)), le→ltb q.size q.size (omega arith)) refl

-- What a client asks of a queue: to put a pointer in, to take one out, to test for emptiness.
pub data Op : Type 0 where
  put : ℕ → Op
  take_head ask_empty : Op

pub data Reply : Type 0 where
  done : Reply
  got : Option ℕ → Reply
  answer : Bool → Reply

-- The calls in order on the structure, with memory; `none` if the kernel stops.
pub run : Queue → List Op → Option (List Reply)
run q [] = some []
run q (put x ∷ ops) = do
  (s, q') ← addtail true q x
  guard (is_success s)
  rs ← run q' ops
  some (done ∷ rs)
run q (take_head ∷ ops) = do (x, q') ← remhead q; rs ← run q' ops; some (got x ∷ rs)
run q (ask_empty ∷ ops) = do rs ← run q ops; some (answer (is_empty q) ∷ rs)

-- The same calls on a plain list.
pub run_list : List (Option ℕ) → List Op → Option (List Reply)
run_list xs [] = some []
run_list xs (put x ∷ ops) = run_list (xs ++ (some x ∷ [])) ops >>= λ rs. some (done ∷ rs)
run_list [] (take_head ∷ ops) = none
run_list (x ∷ xs) (take_head ∷ ops) = run_list xs ops >>= λ rs. some (got x ∷ rs)
run_list [] (ask_empty ∷ ops) = run_list [] ops >>= λ rs. some (answer true ∷ rs)
run_list (x ∷ xs) (ask_empty ∷ ops) = run_list (x ∷ xs) ops >>= λ rs. some (answer false ∷ rs)

-- No sequence of calls tells the circular structure, which moves to a bigger block as needed, from
-- a list: the replies are the same, and the kernel stops in the same cases. Every `kmalloc`
-- succeeds, and the pointers held and the calls together are fewer than 2 ^ 29 - 2.
pub run_refines :
    (ops : List Op) {q : Queue} (xs : List (Option ℕ))
    → Holds q xs
    → length xs + length ops + 2 < 2 ^ 29
    → run q ops ≡ run_list xs ops
unfolding run run_list
run_refines [] xs h b = refl
run_refines (put x ∷ ops) xs h b =
    let a : Enqueued true _ xs x = addtail-Enqueued true x h (omega arith) (inr refl) in
    rw
      (
        a.runs,
        run_refines ops (xs ++ (some x ∷ [])) a.holds
            (omega (arith, length-append xs (Option.some x ∷ []))),
      )
      refl
run_refines (take_head ∷ ops) [] h b = rw (remhead_empty h) refl
run_refines (take_head ∷ ops) (x ∷ xs) h b =
    let (runs, rest) = remhead-Holds h in rw (runs, run_refines ops xs rest (omega arith)) refl
run_refines (ask_empty ∷ ops) [] h b =
    rw (empty-nil h refl, run_refines ops [] h (omega arith)) refl
run_refines (ask_empty ∷ ops) (x ∷ xs) h b =
    rw (not_empty h (omega arith), run_refines ops (x ∷ xs) h (omega arith)) refl
