-- ===== src/Process/Sbrk.antt =====
-- `sys_sbrk` of ece344/os161/kern/userprog/sbrk.c. Addresses are words of 32 bits, and an `int` is the
-- word that stands for it. The sum `new_hpos + new_hpos % 4` of two `int`s may overflow, for a new end
-- within three of the largest or the smallest `int`; C leaves that open, and here it wraps around, as
-- the addition of the machine does.
pub mod Bounds
use harvard_os161_operating.Prelude.{
  Status, enomem, einval, int_limit, u32_mod, ℕ, ◌+◌, ◌-◌, ◌%◌, ltb, ◌==◌, if◌then◌else◌,
}

-- The heap and the stack in `struct addrspace`.
pub record Heap : Type 0 where
  pub heaptop : ℕ
  pub heapbottom : ℕ
  pub as_stackvbase : ℕ

-- `new_hpos % 4` of an `int`, as a word: the remainder has the sign of the dividend.
pub int_rem : ℕ → ℕ
int_rem w = if ltb w int_limit then w % 4 else (u32_mod - (u32_mod - w) % 4) % u32_mod

-- What `sys_sbrk` returns: -1 with a code, or an address.
pub data Sbrk : Type 0 where
  refused : Status → Sbrk
  gives : ℕ → Sbrk

-- `new_hpos + new_hpos % 4`, which wraps around, compared with and stored in unsigned words.
pub aligned : ℕ → ℕ
aligned new_hpos = (new_hpos + int_rem new_hpos) % u32_mod

-- `sys_sbrk`
pub sys_sbrk : ℕ → Heap → Sbrk × Heap
sys_sbrk change h =
    if ltb ((h.heaptop + change) % u32_mod) h.heapbottom
    then (refused einval, h)
    else if change == 0
    then (gives h.heapbottom, h)
    else if ltb h.as_stackvbase (aligned ((h.heaptop + change) % u32_mod))
    then (refused enomem, h)
    else (gives h.heaptop, record h { heaptop = aligned ((h.heaptop + change) % u32_mod) })
