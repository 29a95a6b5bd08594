-- ===== src/Copyinout/Check.antt =====
-- `copycheck` of kern/lib/copyinout.c.
use harvard_os161_operating.Prelude.{
  ℕ, ◌+◌, ◌-◌, ◌^◌, ◌<◌, ◌≡◌, false, ◌&&◌, none, some, arith, ltb, leb, if◌then◌else◌,
}
use harvard_os161_operating.Copyinout.{user_top, copycheck, whole_block}

-- A region that is not empty is taken whole if it ends in user memory, cut at `USERTOP` if it
-- begins there and ends in kernel memory, and refused if it begins in kernel memory or wraps
-- around.
pub copycheck_lem :
    (userptr len : ℕ)
    → userptr < 2 ^ 32
    → len < 2 ^ 32
    → 0 < len
    → copycheck userptr len ≡ (
        if leb (userptr + len) user_top
        then some len
        else if ltb userptr user_top && leb (userptr + len) (2 ^ 32)
        then some (user_top - userptr)
        else none)
unfolding copycheck
copycheck_lem userptr len a b pos = ground arith

-- An empty region is never taken whole: it is refused, or at address 0 reported to be longer.
pub copycheck_empty : (userptr : ℕ) → userptr < 2 ^ 32 → whole_block (copycheck userptr 0) 0 ≡ false
unfolding copycheck whole_block
copycheck_empty userptr a = ground arith
