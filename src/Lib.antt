-- ===== src/Lib.antt =====
-- NeptuneOS is a small x86_64 kernel: page allocation, a heap, threads, system calls on file
-- descriptors, pipes, a virtual file system over RAM and FAT16 files, and block devices behind a
-- cache.
--
-- Pmm models kernel/mem.c: regions of pages with their bitmaps in physical memory, the allocation of
-- one page or of a run behind a cursor, and the release of a page. A call of `panic` is a result of
-- the operations. A user of pages (the heap, page tables, the loader) sees addresses only.
--
-- Pipe models kernel/pipe.c: the ring of 4096 bytes. A function runs from one acquisition of the
-- lock to its release, so an interleaving of readers and writers is a sequence of sections
-- (Pipe.Steps).
--
-- Handles models the handle table of kernel/syscall.c with the descriptor tables of kernel/sched.c:
-- SYSCALL_OPEN, SYSCALL_CLOSE, SYSCALL_DUP2 and SYSCALL_PIPE, the descriptors that SYSCALL_SPAWN and
-- sched_create_user give a new thread, and their release in sched_exit. Handles.Reach has the calls
-- as the steps of a relation, which keeps the references that a failed creation or the map of
-- SYSCALL_SPAWN leaves without a holder. Handles.Count counts the holders of a handle in all
-- descriptor tables. Closing a file is recorded in a list; what it does belongs to kernel/vfs.c.
--
-- Block models kernel/block.c: the cache of 16 sectors over any devices (Block), with what it needs
-- of a device (`Laws` in Block.Coherent), and the RAM disk (Block.Ramdisk), which fills these laws.
--
-- Heap models kernel/heap.c: the list of large free blocks, which is sorted by address and joins
-- blocks that touch (Heap), the slabs, kalloc and kfree (Heap.Alloc). A list of blocks is the list
-- of their addresses in the order of the links; the first words of a block in use or in a slab's
-- list are kept apart, so that the link which kfree writes over the class of a block is there.
-- Heap.Joins, Heap.Free and Heap.Reuse speak of the bytes that a list holds. The loop that maps
-- pages has as many rounds as there are pages up to the target.
--
-- Ramfs models kernel/ramfs.c: the table of 32 paths and the growing storage of a file. The heap is
-- an argument: whether an allocation succeeds.
--
-- Paths models the two functions normalize_path of kernel/syscall.c and kernel/vfs.c, over the
-- segments of a path; Paths.Stack gives the meaning of a path as a stack of names.
--
-- Sched models the choice of the next thread in kernel/sched.c (Sched.Fair: how long a thread waits)
-- and its wait queues (Sched.Wait), with the list of threads as a list. The loop around the list has
-- as many rounds as there are threads. A wait queue is the links from its first thread on
-- (Sched.Chain). Sched.Sleepers has the sleeps, wake-ups and switches as the steps of a relation, in
-- which a sleeper finds another thread that can run; Sched.Blocked says which threads are blocked.
-- The loop that wakes all is on fuel, and as much as the queue has threads is enough.
--
-- Fat models kernel/fat.c over a disk, which is a record of a read and a write of one sector: the
-- table of clusters (Fat), short names (Fat.Names), the search of a directory (Fat.Dir), paths
-- (Fat.Walk), reads and writes of a file (Fat.Read, Fat.Write), new directories (Fat.Mkdir) and
-- listings (Fat.Listing). Fat.Chain says from the bytes of the table what a chain of clusters is and
-- where it stops, Fat.Entries what an entry of a directory holds. Fat.Layer makes the disk from the
-- block devices. A chain of clusters in a directory may be a cycle, on which the code does not end:
-- its loop has fuel for as many rounds as there are cluster numbers, and running out is a result of
-- its own. The other loops have as much fuel as bytes to go. Only what the functions return through
-- their arguments is modelled, not null pointers.
--
-- UserStack models kernel/user.c: writing to the stack page by page, the strings and the words that
-- user_stack_setup pushes, and in UserStack.Space the new address space and the mapping of its
-- stack, over the page tables of Mmu. UserStack.Bytes has the writes byte by byte, UserStack.Words
-- how the program reads its stack, and UserStack.Found where it finds the bytes. The loop over pages
-- is on fuel, one for each byte.
--
-- Printf models kernel/printf.c: a format with its arguments gives the list of the characters that
-- go out, and Printf.Digits reads numbers back.
--
-- Elf models kernel/elf.c: the tests of the header and of the segments, and the loop that gives each
-- page of a segment its bytes (Elf.Copy, Elf.Pages, Elf.Segments, Elf.Program). What the loader
-- needs of the page allocator is `EnvLaws` in Elf.Pages. An allocated page is a range of physical
-- memory.
--
-- Mmu models kernel/arch/x86_64/mmu.c over a function from physical addresses to 64-bit words, and
-- Mmu.User the tests of kernel/syscall.c on pointers of user programs. The page allocator is an
-- argument; what the tables rely on is `Alloc` in Mmu.Grow, which speaks of the calls that find a
-- page, since a call that finds none panics. Mmu.Tree says what it is for the tables of an address
-- space to be a tree, and what the processor finds for an address; Mmu.Grow and Mmu.Ensure add a
-- table, Mmu.Find follows the three levels, Mmu.Maps has the mapping, Mmu.Ranges the pointers and
-- Mmu.Root the new address space.
--
-- Irq models kernel/irq.c: the rings of bytes between the keyboard or the serial port, whose
-- interrupts fill them, and the readers of the terminal. What a port reads is an argument.
--
-- Common holds lists, tests and machine words. Words are native numbers with the wrap-around of
-- their width written out. Loops are structural recursion over what is left to do; the growth of a
-- storage in Ramfs is on fuel, which is enough up to 64 bytes below 2^64; where the loop does not
-- end with it, the result says so.
--
-- Not modelled: the list of threads, ticks and preemption in kernel/sched.c, the rest of
-- kernel/vfs.c and of the system calls, reading a line in kernel/tty.c, the timer, the start and end
-- of user programs, the protection of the kernel's sections, devices and output, the generated user
-- images, assembly, and the user programs. Locks are taken to make a section one step.
pub mod Block
pub mod Common
pub mod Elf
pub mod Fat
pub mod Handles
pub mod Heap
pub mod Irq
pub mod Mmu
pub mod Paths
pub mod Pipe
pub mod Pmm
pub mod Printf
pub mod Ramfs
pub mod Sched
pub mod UserStack
