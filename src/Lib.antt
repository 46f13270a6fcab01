-- ===== src/Lib.antt =====
-- A model of the core of the hltos kernel (src/kernel), an x86-64 kernel in C++, with the theorems
-- that make its parts correct.
--
-- The parts and how they interact. The physical memory manager hands out page frames; the virtual memory
-- manager maps them, and the slab allocator cuts pages of its heap into the chunks of `kmalloc`. The scheduler
-- mechanism owns the processes: it keeps the ready ones in the queue of a policy, the sleeping ones in
-- a heap ordered by the time at which they wake, and switches the CPU between them when the timer
-- ticks, and when a process blocks, sleeps, waits for a child or ends. The mutex blocks and wakes its
-- threads through it. The text helpers split paths and command lines. The virtual file system resolves
-- paths over the inodes of the mounted file systems, of which tmpfs keeps files in memory. The terminal
-- edits the line that is typed, and the console shows text on the screen.
--
-- The files.
--   * Base: shared names, lists over the native numbers, counting, bits, 64-bit words, and `Run`, the
--     ways in which kernel code ends (a value, `kpanic`, an access outside an array).
--   * Algo: `split`, `tokenize` and both overloads of `join` of src/kernel/lib/algo/algo.cpp and
--     src/kernel/include/algo/algo.hpp. A `kstring` is a list of character codes.
--   * MinHeap: src/kernel/include/containers/kmin_heap.hpp, over the list of its nodes. The fuel of
--     `min_heapify` is the number of nodes, which bounds the depth.
--   * Pmm: src/kernel/lib/memory/pmm.cpp. The record `Pmm` is its static variables. Counters wrap at
--     2 ^ 64; a read or write outside the bitmap is a `fault`.
--   * Vmm: src/kernel/arch/x64/memory/vmm.cpp and vmm.hpp. The memory is a function from frames to tables
--     and one from frames to words; Vmm.Kheap is the heap cursor and Vmm.Spaces the address spaces. Vmm.Walk,
--     Vmm.Growth, Vmm.Mapping, Vmm.Paths, Vmm.Translate, Vmm.Pages, Vmm.Ranges, Vmm.MapPages, Vmm.Unmap,
--     Vmm.Cursor and Vmm.Fresh reason about them.
--   * Kstring: src/kernel/include/containers/kstring.hpp, with its buffer, in which an access outside or
--     after a release is a fault. `ensure_capacity` has fuel 64, since a word doubles at most 64 times.
--     Kstring.Memory, Kstring.Growth, Kstring.Edits, Kstring.Appends, Kstring.Insert, Kstring.Moves,
--     Kstring.Middle, Kstring.Refinement, Kstring.Faults and Kstring.Trim reason about it.
--   * Process: the scheduling state of src/kernel/include/process/process.hpp and the methods of
--     src/kernel/lib/process/process.cpp that change it.
--   * Scheduler: src/kernel/lib/scheduler. Scheduler.Policy is the abstract class
--     `SchedulerPolicy`, with the laws its comments promise; Scheduler.RoundRobin implements it;
--     Scheduler.Kernel holds the state of the mechanism, Scheduler.Waking, Scheduler.Switching and
--     Scheduler.Yielding its functions, for any policy; Scheduler.Invariant, Scheduler.Steps,
--     Scheduler.Sleepers, Scheduler.Children and Scheduler.Lost reason about them.
--   * Vfs: path resolution, `getcwd` and mounting of src/kernel/lib/fs/fs.cpp, over a memory of inodes
--     and mount points; Vfs.Tree reasons about the tree. The fuel of `getcwd` bounds the steps up.
--   * Tmpfs: the files and directories of src/kernel/lib/fs/tmpfs/tmpfs.cpp.
--   * Tty: the line editor of src/kernel/lib/fs/devfs/dev_tty.cpp; the keys are a list, and the line is a text with the
--     capacity of its `kstring`, in which an `insert` may write behind the buffer. An `int` is a signed number.
--   * SysFd: the table of file descriptors of src/kernel/lib/syscall/sys_fd.cpp.
--   * Fmt: the numbers of src/kernel/include/fmt/fmt.hpp, printed and parsed. The fuel 64 of the loop over the
--     digits is the most that a 64-bit number has.
--   * Console: the lines, the cursor and the viewport of src/kernel/lib/console/console.cpp and, in
--     Console/Ansi, the escape sequences of src/kernel/lib/console/ansi.cpp. Console/Screen and Console/Drawing say what
--     the lines show, Console/Puts and Console/Sequences compare it with a page that is typed on;
--     Console/Arguments says how a sequence is read.
--     `set_cursor` and `newline` call each other: a depth of 2 calls is enough for every place on the
--     screen. The loop of `put` over a text is watched for a number of rounds: one for each character
--     and one more are enough when no escape sequence is in the text.
--   * Slab: the slab allocator of src/kernel/lib/memory/slab.cpp over the pages of Vmm, with `kmalloc` and
--     `kfree` of src/kernel/lib/memory/memory.cpp. The headers of the pages and the words of the chunks
--     are two functions of the address. The search for a slab with a free chunk takes at most as many
--     rounds as the class counts slabs. Slab/Chunks is about new slabs, Slab/Turns about the calls.
--   * Mutex: src/kernel/lib/exclusive/kmutex.cpp with the threads that call it, in any order of their steps.
--     A thread that waits takes no step; the rest of the scheduler is left to Scheduler.
--
-- Conventions. A pointer is an address, a number, with `none` for `nullptr` where the code tests for
-- it; the memory that holds the processes is a function of the address. Each read of the clock is an
-- argument. A failed assertion is `panic`. A loop is a recursion on its list, or on fuel: the number
-- of sleepers for `wake_sleepers`, each round of which takes one out of the heap.
--
-- Not modelled. Spinlocks and interrupts appear only as the order of steps: a call under
-- `g_processes_lock` is one step. The saved stack pointers of a context switch, ELF
-- loading, `fork`, the other file systems, drivers and
-- boot code have no model.
pub mod Algo
pub mod Base
pub mod Console
pub mod Fmt
pub mod Kstring
pub mod MinHeap
pub mod Mutex
pub mod Pmm
pub mod Process
pub mod Scheduler
pub mod Slab
pub mod SysFd
pub mod Tmpfs
pub mod Tty
pub mod Vfs
pub mod Vmm
