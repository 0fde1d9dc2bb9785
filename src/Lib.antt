-- ===== src/Lib.antt =====
-- Toyix, a teaching operating system for 32-bit x86, written in C and assembly. This library models
-- parts of its kernel as functions on explicit states, and proves what each part promises.
--
-- The kernel takes the physical memory that the boot loader reports (kernel/pmm.c) and maps pages of it
-- into its address space (arch/x86/vmm.c, called through kernel/vmem.c). The keyboard's interrupt
-- handler (drivers/input/keyboard.c) puts characters into a ring buffer, from which the terminal
-- (kernel/terminal.c) reads edited lines. Two loaders (kernel/elf_loader.c, kernel/toyexe.c) check an
-- image and put it into a process. A small file system (kernel/vfs.c) serves files of the kernel image. The
-- kernel's own objects come from a heap (kernel/heap.c). The table of processes (kernel/process.c) says
-- which processes there are, who is the parent of whom and which files are open; the bytes that a process
-- passes to the kernel are checked and copied by kernel/usercopy.c.
--
-- How the code is modelled:
-- - A C structure, or the static variables of a file, is a record. An operation is a function from the
--   state to the new state, with its result beside it. Where an operation only makes sense with
--   interrupts disabled, the code disables them, and the operation is one step.
-- - An unsigned 32-bit number is a number of the native type; where the code can wrap, the wrap is written
--   out as a remainder by 2 ^ 32. Bit operations are the native ones; Bits.antt has their laws.
-- - An array and the physical memory are functions of an index or an address. Out-of-range accesses are
--   ruled out by the theorems' hypotheses.
-- - kernel_panic is the result `panic`. A loop whose length depends on data runs on fuel: its end
--   without an answer is the result `endless`, and a theorem says that the fuel is enough.
-- - What is printed on the console is left out, but for the echo of the terminal.
--
-- The files:
-- - Prelude.antt and below: shared names, tests, lists, stores and results.
-- - Bits.antt and below: masks, fields and the bits of a byte.
-- - PageTable.antt: the walk of two-level page tables, the specification of the mapper.
-- - Pmm.antt: kernel/pmm.c. Below it Bitmap and Accounting have the effect of marking one frame and the
--   invariant; Alloc, Run and Free the allocations; Range, Region, Map and Init the start-up. The fuel of
--   the walk over the memory map is the length of the map in bytes, as an entry takes at least four.
-- - Vmm.antt: arch/x86/vmm.c; Vmm/Vmem.antt: kernel/vmem.c. Below it Spec has the invariant, Table the
--   page tables, Map, Unmap and Translate the operations.
-- - Heap.antt: the block list of kernel/heap.c. Below it Layout says how the blocks lie, Splice how a change
--   leaves the others; Find, Cut and HandOut are on allocating, Merge, Free and Release on freeing. The
--   search runs for `rounds` rounds; more than there are blocks are enough. Heap/Alloc.antt: kmalloc and the
--   regions that the heap grows by; below it Append and Grow are on a new region, Placed and Kmalloc on what
--   is handed out, Start on the start. Heap/Stats.antt counts the blocks.
-- - Process.antt: kernel/process.c. Below it Chain, Valid and Search are on the table, Descriptors on the
--   open files, Ending on exit, waiting and destruction, and Arguments on the
--   stack that a program starts with. The loops over the table run for `rounds`
--   rounds; more than there are processes are enough.
-- - Usercopy.antt: kernel/usercopy.c. Below it Range and Copy. The loop over the pages of a range runs for
--   `rounds` rounds; one for each page and one more are enough.
-- - Keyboard.antt: drivers/input/keyboard.c. Below it Keys, Ring and Handler.
-- - Terminal.antt: kernel/terminal.c. Below it Edit.
-- - Bytes.antt: the memory functions of kernel/lib/mem.c. Below it Move.
-- - Strings.antt: the string functions of kernel/lib/mem.c. Below it Compare and Copy.
-- - Vfs.antt: kernel/vfs.c. Below it Read, Seek and Find. Where the linker places the files' bytes, and
--   whether kmalloc has memory, are arguments.
-- - WaitQueue.antt: the linked queue of kernel/wait_queue.c. Below it Order and Frame.
-- - Sync.antt: kernel/sync.c and the waiting and waking of kernel/wait_queue.c, as steps of many threads.
--   A mutex (Sync/Mutex.antt) and a semaphore (Sync/Semaphore.antt) are resources of the same loop, which
--   Valid and Laws say what is asked of. Below it also Pending, Waiting, Steps and Wakeup on the waking of
--   threads, Untouched, Exclusion and Counting. The scheduler is seen through which threads are blocked.
-- - Thread.antt: the scheduler of kernel/thread.c. Below it Valid has the invariant; Ready, Insert, Sleep,
--   Schedule and Life the operations; Tick, Alarm, Wake and Nap the timer tick and sleeping; Fair the turns
--   of the ready queue; Events all that can happen. The loops over the sleepers and the zombies run for
--   `rounds` rounds; more rounds than there are threads in the queue are enough. Create is on new threads and
--   the start, with Frame on the first stack frame and Start on both; Waiters is kernel/wait_queue.c over the
--   scheduler, and below it Broadcast is on waiting once and on waking all.
-- - Loader.antt: the loaders of programs. Loader/Elf.antt: kernel/elf_loader.c; Loader/Toyexe.antt:
--   kernel/toyexe.c; below them Checks on the accepted images, Load on what the calls keep, and Sequence
--   (with Elf/Segments) on which calls are made. The loaders are over the operations of a process
--   (kernel/process.c), whose answers are not restricted: Loader/Calls.antt is the log of the calls that
--   they make, and Loader/Contract.antt the rules by which such a log is checked.
-- - Syscall.antt: kernel/syscall.c. Below it Path has the string arguments, Calls writing and closing, Files the
--   file that a path names, Wait, Kill and Report the calls on children. Waiting is two definitions,
--   before and after other processes run.
-- Most parts have a module Tests with runs on concrete inputs and an instance of each of their results
-- below that has conditions.
--
-- Not modelled: mapping the pages of a heap region, address spaces and the memory of a process, the calls
-- that read, open, seek or start a program and the dispatch of calls, the registry of programs, the
-- monitor and the user programs; assembly, device registers and the self-tests that run at boot.
pub mod Bits
pub mod Bytes
pub mod Heap
pub mod Keyboard
pub mod Loader
pub mod PageTable
pub mod Pmm
pub mod Prelude
pub mod Process
pub mod Strings
pub mod Sync
pub mod Syscall
pub mod Terminal
pub mod Thread
pub mod Usercopy
pub mod Vfs
pub mod Vmm
pub mod WaitQueue
