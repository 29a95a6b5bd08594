-- ===== src/Copyinout.antt =====
-- ece344/os161/kern/lib/copyinout.c: copying between user and kernel memory.
-- User memory is that below `USERTOP` (kern/arch/mips/include/vm.h). An access that faults
-- ends in `longjmp`: `fault` is `none` if no access of the copy faults, and else the memory at the
-- time of the fault. `pcb_badfaultfunc`, which brings this about, is left out.
pub mod Check
pub mod Blocks
pub mod Text
mod Tests
use harvard_os161_operating.Prelude.{
  Status, success, efault, enametoolong, u32_mod, ℕ, zero, suc, ◌+◌, ◌-◌, ◌%◌, Bool, false, ◌&&◌,
  Option, none, some, ltb, leb, ◌==◌, if◌then◌else◌,
}
use harvard_os161_operating.Memory.{Memory, memcpy, put}

abbrev pub user_top : ℕ
user_top = 0x80000000

-- `copycheck`: `stoplen`, or `none` for EFAULT. Addresses wrap.
pub copycheck : ℕ → ℕ → Option ℕ
copycheck userptr len =
    let top = (userptr + len + (u32_mod - 1)) % u32_mod in
    if ltb top userptr
    then none
    else if leb user_top userptr
    then none
    else some (if leb user_top top then user_top - userptr else len)

-- `memcpy` under the recovery from faults.
pub guarded : Option Memory → Memory → Status × Memory
guarded none after = (success, after)
guarded (some m') after = (efault, m')

-- `if (stoplen != len) return EFAULT;`, which a failed `copycheck` does not reach.
pub whole_block : Option ℕ → ℕ → Bool
whole_block none len = false
whole_block (some stoplen) len = stoplen == len

pub copyin : Option Memory → Memory → ℕ → ℕ → ℕ → Status × Memory
copyin fault m usersrc dest len =
    if whole_block (copycheck usersrc len) len
    then guarded fault (memcpy m dest usersrc len)
    else (efault, m)

pub copyout : Option Memory → Memory → ℕ → ℕ → ℕ → Status × Memory
copyout fault m src userdest len =
    if whole_block (copycheck userdest len) len
    then guarded fault (memcpy m userdest src len)
    else (efault, m)

-- What `copystr` returns, what it stores through `gotlen`, and the memory it leaves.
abbrev pub Copied : Type 0
Copied = Status × Option ℕ × Memory

-- The loop of `copystr` and what follows it, from index `i` with `n` rounds left at most.
pub copystr_from : ℕ → ℕ → Memory → ℕ → ℕ → ℕ → ℕ → Copied
copystr_from zero i m dest src maxlen stoplen =
    (if ltb stoplen maxlen then efault else enametoolong, none, m)
copystr_from (suc n) i m dest src maxlen stoplen =
    let m' = put 1 m (dest + i) (m (src + i)) in
    let rest = copystr_from n (i + 1) m' dest src maxlen stoplen in
    if ltb i maxlen && ltb i stoplen
    then if m' (src + i) == 0 then (success, some (i + 1), m') else rest
    else (if ltb stoplen maxlen then efault else enametoolong, none, m)

pub copystr : Memory → ℕ → ℕ → ℕ → ℕ → Copied
copystr m dest src maxlen stoplen = copystr_from maxlen 0 m dest src maxlen stoplen

-- `copystr` under the recovery from faults, after `copycheck`.
pub guarded_str : Option ℕ → Option Memory → Memory → ℕ → ℕ → ℕ → Copied
guarded_str none fault m dest src len = (efault, none, m)
guarded_str (some stoplen) (some m') m dest src len = (efault, none, m')
guarded_str (some stoplen) none m dest src len = copystr m dest src len stoplen

pub copyinstr : Option Memory → Memory → ℕ → ℕ → ℕ → Copied
copyinstr fault m usersrc dest len = guarded_str (copycheck usersrc len) fault m dest usersrc len

pub copyoutstr : Option Memory → Memory → ℕ → ℕ → ℕ → Copied
copyoutstr fault m src userdest len = guarded_str (copycheck userdest len) fault m userdest src len
