-- ===== src/Lib.antt =====
-- OS/161, the kernel of ece344/os161 (paths below are relative to that directory).
--
-- The kernel runs many threads on one processor. Threads are kept on three lists: the run queue of
-- kern/thread/scheduler.c, a circular queue of kern/lib/queue.c, and the sleepers and the zombies of
-- kern/thread/thread.c, resizable arrays of kern/lib/array.c. A thread that waits is put on the
-- sleepers with an address, and whoever wakes that address puts it on the run queue again; semaphores,
-- locks and condition variables of kern/thread/synch.c sleep and wake on their own addresses. Bitmaps of
-- kern/lib/bitmap.c record which disk blocks and which numbers are in use.
--
-- Which file models which part:
--   Prelude   what the parts share: tests, lists over the native numbers, status codes, and `Option`
--             as a run that may stop the kernel (a failed assertion, a panic, an access outside of a
--             block, a signed overflow).
--   Array     kern/lib/array.c. The record is `struct array`; `create`, `getguy`, `preallocate`,
--             `setsize`, `setguy`, `add`, `remove` are array_create, array_getguy and so on.
--   Queue     kern/lib/queue.c. `addtail`, `grow`, `preallocate`, `remhead` are q_addtail, q_grow,
--             q_preallocate, q_remhead.
--   Bitmap    kern/lib/bitmap.c. `alloc`, `mark`, `unmark`, `isset`, `create` are bitmap_alloc and so
--             on; a block is a list of bytes.
--   Thread    kern/thread/thread.c and kern/thread/scheduler.c. `System` holds the globals; functions
--             have the names of the source.
--   Synch     kern/thread/synch.c: `v` is V, `p_round` and `acquire_round` are what P and lock_acquire
--             do until they return or sleep, `cv_wait` what that does until it sleeps.
--   Memory    lib/libc: memcpy.c, memmove.c, memset.c, bzero.c, memcmp.c. Memory is a function from
--             addresses to bytes; a `long` has four.
--   Strings   lib/libc: strlen.c, strcpy.c, strcat.c, strchr.c, strrchr.c, strcmp.c, on that memory.
--   Tokens    lib/libc/strtok_r.c over Strings.
--   Number    lib/libc/atoi.c on that memory.
--   Copyinout kern/lib/copyinout.c on that memory, with the names of the source; whether an access
--             faults is an argument.
--   Uio       kern/userprog/uio.c over those two: `uiomove`, `uiomovezeros`, `mk_kuio`.
--   Vnode     kern/fs/vfs/vnode.c: the reference and open counts.
--   Sfs       kern/fs/sfs/sfs_io.c, and of sfs_vnode.c the blocks of a file: `rwblock`, `balloc`,
--             `bfree`, `bmap` are sfs_rwblock and so on; `Truncate` is sfs_truncate. A disk is a
--             function from block numbers to blocks, and these are memory; what the device returns
--             is a list of results.
--   Process   kern/userprog: fork.c, wait.c, exit.c, get_pid.c over Thread and Synch, with the names
--             of the source; `Process.Sbrk` is sbrk.c.
--   Vfslist   kern/fs/vfs/vfslist.c, with the names of the source. The table is a list of entries, a
--             string the list of its characters; what file systems answer is an argument.
--   Kheap     kern/lib/kheap.c, with the names of the source. Memory is a function from addresses to
--             words; the lists of pages are lists of indices of `pagerefs`; what alloc_kpages returns
--             is an argument, and what is given to free_kpages a result.
-- The child modules of each hold its proofs; `Tests` holds runs at concrete inputs.
--
-- State is passed on explicitly. A pointer is a number, a block of pointers a list of cells, and a
-- cell that was never written holds nothing. Outside of Kheap, whether a call of `kmalloc` returns
-- a block is an argument of each operation that allocates, and both cases are covered. In an
-- operation that allocates at several places one argument may stand for all of them.
--
-- Bounds. An `int` stops the run when it would reach 2 ^ 31, but for the two `int`s that sys_sbrk adds,
-- whose sum wraps around; `size_t` products wrap at 2 ^ 32, and so do the unsigned value of atoi and
-- `uio_offset`, to which the code adds a `size_t`. The theorems on lists ask for fewer than 2 ^ 29 items,
-- below which no count or product does either. Where the code computes no bound from it, the address of
-- a byte is a number of any size; blocks on the machine end by 2 ^ 32. Loops are structural in the
-- rounds left: a loop that counts up to a bound has as many rounds as the bound; growing loops get the
-- requested size as fuel, enough since each round adds one at least; the loop of thread_wakeup gets
-- the number of sleepers, since each round moves on or takes one out. Where fuel ends before the loop
-- does, the run counts as stopped, and the theorems show that it never does. Loops over a string take
-- any fuel; the theorems show that one round more than the string has characters is enough. A round of
-- uiomove takes a byte at least, so it gets the number of bytes. A block request is tried again ten
-- times; an inode has 15 direct blocks and one indirect block of 128. A page of the kernel heap has 4096
-- bytes, in blocks of one of eight sizes, and there are 256 pagerefs, in eight words of bits.
--
-- A function that may sleep is cut into rounds that end where it sleeps, and a step relation says how
-- rounds of several threads follow one another.
--
-- Not modelled: stacks, the machine's context switch, address spaces and names of threads, and
-- interrupts, which are off where the lists of threads are used, as the assertions there require, and
-- are taken not to come in the midst of other code; memory that is given back, but for Kheap; panic shutdown. Drivers, traps, the menu, user programs and tests are input, output or
-- machine code. The bytes, inodes and directories of the file system, the
-- rest of the virtual file system, virtual memory, program loading and the rest of the
-- C library are not part of this library.
pub mod Prelude
pub mod Array
pub mod Queue
pub mod Bitmap
pub mod Thread
pub mod Memory
pub mod Strings
pub mod Tokens
pub mod Synch
pub mod Copyinout
pub mod Uio
pub mod Vnode
pub mod Number
pub mod Sfs
pub mod Process
pub mod Kheap
pub mod Vfslist
