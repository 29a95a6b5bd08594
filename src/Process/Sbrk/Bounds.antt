-- ===== src/Process/Sbrk/Bounds.antt =====
-- The heap stays below the stack: `sys_sbrk` of kern/userprog/sbrk.c.
use harvard_os161_operating.Prelude.{
  enomem, einval, int_limit, u32_mod, ℕ, ◌+◌, ◌-◌, ◌%◌, ◌^◌, ◌≤◌, ◌<◌, ◌≡◌, refl, sym, ap, ◌∙◌, inl,
  inr, false, arith, dec_lt, ltb, ◌==◌, if◌then◌else◌, lt→ltb, le→ltb, ne→==, Bool-cases,
}
use harvard_os161_operating.Process.Sbrk.{Heap, refused, gives, int_rem, aligned, sys_sbrk}

-- The heap ends between its bottom and the stack, in user memory.
pub record IsHeap (h : Heap) : Type 0 where
  pub above : h.heapbottom ≤ h.heaptop
  pub below : h.heaptop ≤ h.as_stackvbase
  pub user : h.as_stackvbase + 4 < int_limit

aligned-low : (w : ℕ) → w < 2 ^ 31 → aligned w ≡ w + w % 4
unfolding aligned int_rem
aligned-low w h = ground arith

aligned-high : (w : ℕ) → 2 ^ 31 ≤ w → w < 2 ^ 32 → 2 ^ 31 ≤ aligned w + 3
unfolding aligned int_rem
aligned-high w lo hi = ground arith

-- Whatever the change, the heap stays between its bottom and the stack, if it was there and the stack
-- is below 2 ^ 31 - 4; sums of `int`s wrap around.
pub sys_sbrk-IsHeap :
    (change : ℕ) (h : Heap) → change < 2 ^ 32 → IsHeap h → IsHeap (sys_sbrk change h).1
unfolding sys_sbrk
sys_sbrk-IsHeap change h small v =
    let end : ℕ = (h.heaptop + change) % u32_mod in
    elim (Bool-cases (ltb end h.heapbottom)) [
      | inl under ↦ rw under v
      | inr above ↦ elim (Bool-cases (change == 0)) [
        | inl nothing ↦ rw (above, nothing) v
        | inr some_change ↦ elim (Bool-cases (ltb h.as_stackvbase (aligned end))) [
          | inl over ↦ rw (above, some_change, over) v
          | inr fits ↦
              rw (above, some_change, fits)
                (record {
                  above =
                      stays_above end (omega arith) (ground (arith, above)) (ground (arith, fits));
                  below = ground (arith, fits);
                  user = v.user;
                })
        ]
      ]
    ]
  where
    stays_above :
        (end : ℕ)
        → end < 2 ^ 32
        → h.heapbottom ≤ end
        → aligned end ≤ h.as_stackvbase
        → h.heapbottom ≤ aligned end
    stays_above end word above fits = elim (dec_lt end (2 ^ 31)) [
      | yes low ↦ omega (arith, aligned-low end low)
      | no high ↦ absurd (omega (arith, aligned-high end (omega arith) word, v.user))
    ]

grown_high :
    (h : Heap) (end : ℕ)
    → IsHeap h
    → end < 2 ^ 32
    → ltb h.as_stackvbase (aligned end) ≡ ltb h.as_stackvbase (end + end % 4)
grown_high h end v word = elim (dec_lt end (2 ^ 31)) [
  | yes low ↦ ap (ltb h.as_stackvbase) (aligned-low end low)
  | no high ↦
      lt→ltb h.as_stackvbase (aligned end)
        (omega (arith, aligned-high end (omega arith) word, v.user))
      ∙ sym (lt→ltb h.as_stackvbase (end + end % 4) (omega (arith, v.user)))
]

-- A heap that is to grow grows by the change and the remainder of its new end by four, if that is
-- below the stack, and the old end is returned; else it stays, and -1 is returned with ENOMEM.
pub sys_sbrk-grow :
    (by : ℕ) (h : Heap)
    → IsHeap h
    → 0 < by
    → by < 2 ^ 31
    → sys_sbrk by h ≡ (
        if ltb h.as_stackvbase (h.heaptop + by + (h.heaptop + by) % 4)
        then (refused enomem, h)
        else (gives h.heaptop, record h { heaptop = h.heaptop + by + (h.heaptop + by) % 4 }))
unfolding sys_sbrk
sys_sbrk-grow by h v pos small =
    let word : h.heaptop + by < 2 ^ 32 = omega (arith, v.below, v.user) in
    let end : (h.heaptop + by) % u32_mod ≡ h.heaptop + by = omega arith in
    let far = grown_high h (h.heaptop + by) v word in
    let up = le→ltb (h.heaptop + by) h.heapbottom (omega (arith, v.above)) in
    elim (Bool-cases (ltb h.as_stackvbase (h.heaptop + by + (h.heaptop + by) % 4))) [
      | inl over ↦ rw (end, up, ne→== by 0 (omega arith), far, over) refl
      | inr fits ↦
          let low : h.heaptop + by < 2 ^ 31 = ground (arith, fits, v.user) in
          rw (end, up, ne→== by 0 (omega arith), far, fits, aligned-low (h.heaptop + by) low) refl
    ]

-- A heap that is to shrink, by no more than its end, shrinks by the change and grows by the remainder
-- of its new end by four, and the old end is returned; below its bottom it stays, and -1 is returned
-- with EINVAL, and with ENOMEM where that remainder would put it over the stack.
pub sys_sbrk-shrink :
    (by : ℕ) (h : Heap)
    → IsHeap h
    → 0 < by
    → by ≤ h.heaptop
    → sys_sbrk (2 ^ 32 - by) h ≡ (
        if ltb (h.heaptop - by) h.heapbottom
        then (refused einval, h)
        else if ltb h.as_stackvbase (h.heaptop - by + (h.heaptop - by) % 4)
        then (refused enomem, h)
        else (gives h.heaptop, record h { heaptop = h.heaptop - by + (h.heaptop - by) % 4 }))
unfolding sys_sbrk
sys_sbrk-shrink by h v pos inside =
    let end : (h.heaptop + (2 ^ 32 - by)) % u32_mod ≡ h.heaptop - by =
      omega (arith, v.below, v.user) in
    let al = aligned-low (h.heaptop - by) (omega (arith, v.below, v.user)) in
    let some_change : (2 ^ 32 - by == 0) ≡ false = ground (arith, v.below, v.user) in
    rw (end, al, some_change) refl
