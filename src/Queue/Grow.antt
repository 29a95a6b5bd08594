-- ===== src/Queue/Grow.antt =====
-- `q_grow` of kern/lib/queue.c: the bigger block holds the same pointers in the same order.
use Prim.Native.Nat.{zero-le}
use harvard_os161_operating.Prelude.{
  success, int_limit, fresh_cells, length-fresh_cells, ℕ, zero, suc, ◌+◌, ◌*◌, ◌%◌, ◌^◌, ◌≤◌, ◌<◌,
  ◌≡◌, refl, sym, ◌∙◌, Bool, true, false, Option, some, List, [], arith, dec_lt, ◌==◌, lt→ltb,
  le→ltb, eq→==, ne→==, length, get_elem?, take, length-take, get_elem?-some, take-suc, take-all,
}
use harvard_os161_operating.Queue.{Queue, double_size, step, AddTail, refill, grow, addtail_cell}
use harvard_os161_operating.Queue.Holds.{Holds, position_cases, position_ne, step_position}
use harvard_os161_operating.Queue.Write.{appended, write_tail-runs, appended-Holds, not_full}

-- `put` writes at the tail of a queue that is not full.
abbrev pub PutsTail : AddTail → Type 0
PutsTail put =
    (q : Queue) (ys : List (Option ℕ)) (c : Option ℕ)
    → Holds q ys
    → length ys + 1 < q.size
    → put q c ≡ some (success, appended q c)

pub addtail_cell-PutsTail : (depth : ℕ) (mem : Bool) → PutsTail (addtail_cell depth mem)
unfolding addtail_cell
addtail_cell-PutsTail zero mem q ys c h more =
    rw (lt→ltb 0 q.size (omega arith), not_full h more) (write_tail-runs h c)
addtail_cell-PutsTail (suc depth) mem q ys c h more =
    rw (lt→ltb 0 q.size (omega arith), not_full h more) (write_tail-runs h c)

-- The test `i!=onw` of the copy loop after `k` rounds.
at_end :
    {q : Queue} {xs : List (Option ℕ)} (k : ℕ)
    → Holds q xs
    → length xs ≤ k
    → k ≤ length xs
    → ((q.nextread + k) % q.size == q.nextwrite) ≡ true
at_end {q} {xs} k h lo hi =
    let last : k ≡ length xs = omega arith in eq→== _ _ (rw last (sym h.writes))

not_at_end :
    {q : Queue} {xs : List (Option ℕ)} (k : ℕ)
    → Holds q xs
    → k < length xs
    → ((q.nextread + k) % q.size == q.nextwrite) ≡ false
not_at_end {q} {xs} k h lt =
    ne→== _ _ (λ e. position_ne q.size q.nextread k (length xs) h.reads lt h.room (e ∙ h.writes))

-- The copy loop after `k` rounds, with `fuel` rounds left at least.
pub refill-Holds :
    (put : AddTail) (fuel k : ℕ) (q r : Queue) (xs : List (Option ℕ))
    → PutsTail put
    → Holds q xs
    → Holds r (take k xs)
    → length xs < r.size
    → k ≤ length xs
    → length xs ≤ k + fuel
    → (r' : Queue) × (refill put fuel q.cells q.size q.nextwrite ((q.nextread + k) % q.size) r
        ≡ some r')
      × Holds r' xs
      × (r'.size ≡ r.size)
unfolding refill
refill-Holds put zero k q r xs puts h hr room le enough =
    (r, rw (at_end k h (omega arith) le) refl, rw (take-all xs k (omega arith)) at hr, refl)
refill-Holds put (suc fuel) k q r xs puts h hr room le enough = elim (dec_lt k (length xs)) [
  | yes more ↦
      let (c, here) = get_elem?-some xs k more in
      let read : get_elem? q.cells ((q.nextread + k) % q.size) ≡ some c = h.at k more ∙ here in
      let len : length (take k xs) ≡ k = omega (arith, length-take k xs) in
      let next : (q.nextread + suc k) % q.size ≡ step q.size ((q.nextread + k) % q.size) =
        sym (step_position q.size q.nextread k (omega arith)) in
      let put_c : put r c ≡ some (success, appended r c) = puts r (take k xs) c hr (omega arith) in
      let hr' : Holds (appended r c) (take (suc k) xs) =
        rw (take-suc xs k here) (appended-Holds hr c (omega arith)) in
      let (r', runs, holds, same) =
        refill-Holds put fuel (suc k) q (appended r c) xs puts h hr' room more (omega arith) in
      (r', rw (not_at_end k h more, refill, read, put_c) (rw next at runs), holds, same)
  | no done ↦ (
    r,
    rw (at_end k h (omega arith) le, refill) refl,
    rw (take-all xs k (omega arith)) at hr,
    refl,
  )
]

-- The doubling loop ends at a size that is large enough and at most twice the target.
pub double_size_lem :
    (fuel targetsize nsize : ℕ)
    → 0 < nsize
    → targetsize ≤ nsize + fuel
    → targetsize < 2 ^ 29
    → (m : ℕ) × (double_size fuel targetsize nsize ≡ some m)
      × (targetsize ≤ m)
      × (nsize < 2 ^ 30 → m < 2 ^ 30)
unfolding double_size
double_size_lem zero targetsize nsize pos enough b = (nsize, ground arith, omega arith, λ p. p)
double_size_lem (suc fuel) targetsize nsize pos enough b = elim (dec_lt nsize targetsize) [
  | yes more ↦
      let (m, runs, le, small) =
        double_size_lem fuel targetsize (nsize * 2) (omega arith) (omega arith) b in
      (
        m,
        rw
            (
              lt→ltb nsize targetsize more,
              lt→ltb 0 nsize pos,
              lt→ltb (nsize * 2) int_limit (omega arith),
            )
            runs,
        le,
        λ _. small (omega arith),
      )
  | no done ↦ (nsize, rw (le→ltb nsize targetsize (omega arith)) refl, omega arith, λ p. p)
]

-- `q_grow` with memory: the queue holds what it held, in a block of at least `targetsize` cells.
pub grow-Holds :
    {q : Queue} {xs : List (Option ℕ)} (put : AddTail) (targetsize : ℕ)
    → PutsTail put
    → Holds q xs
    → q.size < targetsize
    → targetsize < 2 ^ 29
    → (q' : Queue) × (grow put true q targetsize ≡ some (success, q'))
      × Holds q' xs
      × (targetsize ≤ q'.size)
unfolding grow
grow-Holds {q} {xs} put targetsize puts h more b =
    let (m, doubled, le, small) =
      double_size_lem targetsize targetsize q.size (omega (arith, h.room)) (omega arith) b in
    let m-small : m < 2 ^ 30 = small h.small in
    let fresh : Queue = record { size = m; nextwrite = 0; nextread = 0; cells = fresh_cells m } in
    let starts : Holds fresh [] = record {
      room = omega arith;
      small = m-small;
      block = length-fresh_cells m m-small;
      reads = omega arith;
      writes = omega arith;
      at = λ k lt. absurd (omega arith);
    } in
    let (q', runs, holds, same) =
      refill-Holds put q.size 0 q fresh xs puts h starts (omega (arith, h.room)) zero-le
        (omega (arith, h.room)) in
    let at_start : (q.nextread + 0) % q.size ≡ q.nextread =
      omega (arith, h.reads, position_cases q.size q.nextread 0 h.reads zero-le) in
    (q', rw (doubled, rw at_start at runs) refl, holds, omega arith)
