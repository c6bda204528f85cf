-- ===== src/Lib.antt =====
-- A model of the kernel of OS-Implement, a small 32-bit x86 operating system in C (src/), and the
-- theorems about it.
--
-- The parts, the file that models each, and how they work together:
-- Prelude: lists indexed by numbers, Boolean tests, bit masks; shared by all files.
-- Frames: the physical frame allocator of src/page.c. `frames` is the bitmap; set_frame,
--   clear_frame, isIn_frame and first_frame work on it, alloc_frame and free_frame on it and on a
--   page entry. Frames/Owner runs sequences of calls over many entries.
-- Paging: the page tables of src/page.c: get_page, clone_dir for fork, free_all_page. Paging/Mapping,
--   Written and Empty say what is mapped at the number of a page, through a directory. A pointer to a
--   table is its number among the tables made so far; the physical addresses that _malloc_ap gives are
--   a parameter. alloc_frame and free_frame are those of Frames.
-- SortedArray: src/sorted_array.c, the index of the heap's holes.
-- Heap: the kernel heap of src/kheap.c. Headers and footers are bytes of a memory (Heap/Bytes), the
--   index is a SortedArray, expand and contract work on the page tables of Paging.
-- Malloc: src/kernel_malloc.c, which takes memory behind the kernel before there is a heap, and from
--   Heap afterwards.
-- Lock: the spin lock of src/lock.c, alone and between threads (Lock/Race). No other part uses it.
-- Task: the processes of src/task.c. The linked list from head_task is a list of tasks, each with
--   its address. task_switch is called by the timer's interrupt; the registers that the assembly
--   reads are arguments, and the jump at its end is a value. fork takes the directory of clone_dir
--   and the memory of _malloc_s as arguments; task_exit calls free_all_page of Paging and kfree of Malloc. Task/Stack has move_stack and init_multitask, which take
--   the running stack to pages of its own: the pages are those of Paging, the bytes those of Heap.
-- Startup: init_paging of src/page.c, which puts Frames, Paging, Malloc, Heap and Interrupts together,
--   with the three loops that make and map the pages; and main of src/main.c up to its call of fork
--   (Startup/Main), which goes on with Task, Keyboard and Fs. Its children go along the code: Step, Identity, HeapPages and Mapped
--   for the loops, FirstHeap, Switch and Paged for the rest of init_paging, Multitask, Stages and Booted for main.
-- Interrupts: src/isr.c and src/timer.c: the table of handlers that the keyboard and the timer
--   register in, and the dispatch that the stubs of Descriptors lead to.
-- Descriptors: src/descriptor_tables.c: the GDT, the IDT, and the interrupt controllers.
-- Keyboard: src/keyboard.c: the keymaps, the handler for a scancode, and the ring of characters.
-- Shell: src/shell.c, and scanf of src/keyboard.c. A line goes from what keyboard_getchar returns to
--   the calls of Fs and Task, with the memory that _malloc_s gives for a name as an argument; what is
--   printed is a list of events.
-- Monitor: src/monitor.c: the text screen and its cursor.
-- Text: the string functions of src/common.c, which the file system calls; memset and memcpy on memory
--   (Text/Copy), for the stack.
-- Fs: the ramdisk of src/initrd.c with the structures of src/fs.h, and the calls of src/fs.c that
--   reach it through the function pointers of a node. The file headers are read from memory when the ramdisk
--   is mounted (Fs/Headers), and are a list from then on.
-- Each function keeps its name in C (isIn_frame is is_in_frame, _malloc is malloc), takes the global variables that it
-- uses as a record, and returns the new ones. The tests of each part are in its module Tests.
--
-- Numbers: an unsigned integer is a natural number below 2^8, 2^16, 2^20 or 2^32, and each operation
-- that can leave its range says so by `%`. An access outside of an array, or through NULL, is `none`.
-- Loops count down the rounds that they have left, or go through the elements of a list. Fuel is used
-- where the number of rounds is not known at the start: in spinlock_lock, where two rounds are enough for a
-- thread alone; in
-- the loops of expand and contract, and in that of init_paging over the kernel, whose bound moves while
-- it runs, which have 2^20 + 1 rounds, one more than there are pages; in the two loops of move_stack,
-- which have two rounds more than there are pages, or words, in the new stack; and in alloc, whose fuel is
-- the number of times that it calls itself after the heap grew, where the theorems need one.
--
-- The memory is that behind the addresses of the processor: a read or a write does not look at the page
-- tables. Interrupts between two statements are not interleaved; a timer interrupt before there is a task
-- returns at once.
--
-- Not modelled: page_fault of src/page.c, which prints an address and halts; where the memory of a page
-- table comes from when get_page makes one once there is a heap, also inside expand, where _malloc_ap
-- would call alloc in the middle of alloc, and in clone_dir and move_stack: its physical address is an
-- argument; the growth of the heap for what _malloc_s returns in main behind init_paging; the fork of main
-- with the clone_dir in it, as one step; the address of a pcb_t from _malloc_s; src/printf.c and src/stdarg.h, which are FreeBSD's, and
-- so are an argument of main; the functions that only print; strcat of src/common.c, which nothing calls
-- and which C gives no meaning; and the assembly files.
pub mod Prelude
pub mod Frames
pub mod Descriptors
pub mod Interrupts
pub mod Task
pub mod Text
pub mod Fs
pub mod Monitor
pub mod Keyboard
pub mod Paging
pub mod SortedArray
pub mod Lock
pub mod Heap
pub mod Malloc
pub mod Shell
pub mod Startup
