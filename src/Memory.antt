-- ===== src/Memory.antt =====
-- ece344/os161/lib/libc/memcpy.c, memmove.c, memset.c, bzero.c, memcmp.c: blocks of memory.
-- Memory is a function from addresses to bytes. An address that wraps around the top of memory
-- does not occur, as a comment in memmove.c says. A `long` is four bytes.

pub mod Move
pub mod Fill
pub mod Compare
mod Tests
use harvard_os161_operating.Prelude.{
  ℕ, zero, suc, ◌+◌, ◌-◌, ◌*◌, ◌/◌, ◌%◌, Bool, ◌&&◌, ltb, leb, ◌==◌, if◌then◌else◌,
}

abbrev pub Memory : Type 0
Memory = ℕ → ℕ

-- The address is one of the `len` at `start`.
abbrev pub within : ℕ → ℕ → ℕ → Bool
within start len a = leb start a && ltb a (start + len)

-- `*d = *s` for objects of `w` bytes: all are read, then all are written.
abbrev pub assign : ℕ → Memory → ℕ → ℕ → Memory
assign w m d s a = if within d w a then m (s + (a - d)) else m a

-- `for (i=0; i<n; i++) d[i] = s[i];` for objects of `w` bytes, from index `i` with `n` rounds left.
pub copy_up : ℕ → ℕ → ℕ → ℕ → ℕ → Memory → Memory
copy_up w zero i d s m = m
copy_up w (suc n) i d s m = copy_up w n (i + 1) d s (assign w m (d + i * w) (s + i * w))

-- `for (i=n; i>0; i--) d[i-1] = s[i-1];`
pub copy_down : ℕ → ℕ → ℕ → ℕ → Memory → Memory
copy_down w zero d s m = m
copy_down w (suc i) d s m = copy_down w i d s (assign w m (d + i * w) (s + i * w))

-- `x % sizeof(long) == 0`
abbrev pub is_aligned : ℕ → Bool
is_aligned x = x % 4 == 0

pub memcpy : Memory → ℕ → ℕ → ℕ → Memory
memcpy m dst src len =
    if is_aligned dst && is_aligned src && is_aligned len
    then copy_up 4 (len / 4) 0 dst src m
    else copy_up 1 len 0 dst src m

pub memmove : Memory → ℕ → ℕ → ℕ → Memory
memmove m dst src len =
    if ltb dst src
    then memcpy m dst src len
    else if is_aligned dst && is_aligned src && is_aligned len
    then copy_down 4 (len / 4) dst src m
    else copy_down 1 len dst src m

-- `p[i] = v` for objects of `w` bytes, all equal to `v`.
abbrev pub put : ℕ → Memory → ℕ → ℕ → Memory
put w m p v a = if within p w a then v else m a

-- `for (i=0; i<n; i++) p[i] = v;`, from index `i` with `n` rounds left.
pub fill_up : ℕ → ℕ → ℕ → ℕ → ℕ → Memory → Memory
fill_up w zero i p v m = m
fill_up w (suc n) i p v m = fill_up w n (i + 1) p v (put w m (p + i * w) v)

-- `memset` stores the character that `ch` is cut to.
pub memset : Memory → ℕ → ℕ → ℕ → Memory
memset m ptr ch len = fill_up 1 len 0 ptr (ch % 256) m

pub bzero : Memory → ℕ → ℕ → Memory
bzero m block len =
    if is_aligned block && is_aligned len
    then fill_up 4 (len / 4) 0 block 0 m
    else fill_up 1 len 0 block 0 m

-- The `int` that `memcmp` returns: 0, or the difference of the first two bytes that differ.
pub data Difference : Type 0 where
  equal : Difference
  differ : ℕ → ℕ → Difference

-- `for (i=0; i<len; i++)` of `memcmp`, with `n` rounds left.
pub compare_from : ℕ → ℕ → Memory → ℕ → ℕ → Difference
compare_from zero i m a b = equal
compare_from (suc n) i m a b =
    let rest = compare_from n (i + 1) m a b in
    if m (a + i) == m (b + i) then rest else differ (m (a + i)) (m (b + i))

pub memcmp : Memory → ℕ → ℕ → ℕ → Difference
memcmp m a b len = compare_from len 0 m a b
