-- ===== src/Lib.antt =====
-- ZeOS, a small teaching kernel for x86 (round-robin processes, threads, semaphores, a keyboard
-- buffer, paged memory), modelled from its C sources.
--
-- The parts and how they interact. The host tool (build.c) joins a boot sector, the kernel and the
-- user program into an image; main (system.c) fills the processor's tables (mm.c, interrupt.c,
-- hardware.c), makes the page tables and lists, and starts the first process. From then on the
-- kernel is entered by interrupts and system calls. It keeps its tasks in circular doubly linked
-- lists (list.c): the free ones, the ready ones, those that wait for the keyboard, and one list for
-- each semaphore. The policy (sched.c) moves tasks between these lists at clock ticks; fork, clone,
-- exit, the semaphore calls and read (sys.c, devices.c) make, end, block and release tasks through
-- it. Keys go through a ring buffer (cirBuffer.c), and physical frames are given out from a byte
-- map (mm.c).
--
-- LinkedList models list.c and include/list.h over the two fields of every list head in memory:
-- LinkedList/Seg has stretches of a list, LinkedList/Queue one list, LinkedList/Family and
-- LinkedList/Front several, LinkedList/Double an entry that is added twice, and LinkedList/Looped
-- what the other functions do to a list with such an entry. CirBuffer models cirBuffer.c, and its
-- children Window, Lenght, Fifo and Stuck say what it holds, measures, delivers and loses. Frames
-- models init_frames, alloc_frame and free_frame of mm.c; Frames/Alloc is about one call,
-- Frames/Trace about sequences. Task has the structs of include/sched.h, include/stats.h and
-- include/semaphores.h. Kernel has the globals that the kernel's functions share. Sched models the
-- policy of sched.c: Sched/Shape says what well-formed lists and states are, Sched/Place,
-- Sched/Next, Sched/Wake, Sched/Rotate, Sched/Turn, Sched/Links and Sched/Sems what the functions
-- do to them and what they leave alone. Semaphores models the sys_sem_ calls of sys.c, with Search,
-- Init, Wait, Signal and Destroy as children. Common has shared names and lemmas, and Tests runs
-- the model on concrete inputs.
--
-- Utils models the copies and access_ok of utils.c, with Utils/Copy and Utils/Access; Paging the
-- page tables of mm.c, with Paging/Boot for what the start of the system maps; Libc perror, itoa
-- and strlen of libc.c, with Libc/Itoa; Console the screen of io.c and sys_write_console of
-- devices.c, with Console/Cursor; Write check_fd and sys_write of sys.c, with Write/Chunks;
-- Processes allocate_DIR of sched.c and the calls of sys.c that only report, with
-- Processes/Directory and Processes/Report; Interrupts the keyboard and clock routines and the
-- gates of interrupt.c, with Interrupts/Keyboard, Interrupts/Gates, and Interrupts/Turn and
-- Interrupts/Arrive for sequences of ticks and of keys.
--
-- Space has get_PT of sched.c, set_cr3 and init_dir_pages of mm.c and the copy of a task_union,
-- with the processor's walk through the tables, Space/Unmap for pages that are unmapped and
-- Space/Mapped for copy_data of utils.c between pages that the tables map. Fork models sys_fork and
-- sys_clone of sys.c: Fork/Birth has the new task, Fork/Pages what the loops leave alone,
-- Fork/Outcome how the calls end, Fork/Memory the copies of pages, Fork/Loops and Fork/Filled the
-- tables and Fork/Inherit what the child gets. Exit models sys_exit, with Exit/Pages for the
-- address space, Exit/Release for the lists and Exit/Outcome for the whole call; Sbrk models
-- sys_sbrk, with Sbrk/Grow and Sbrk/Shrink; Read models sys_read and sys_read_keyboard of
-- devices.c, with Read/Keys for a read that finds its keys, which faults, and Read/Wait for one
-- that waits. Boot models the start of the system in mm.c, sched.c and system.c as far as memory
-- goes, with Boot/Lists, Boot/Start, and Boot/Sight for the memory that the first process sees;
-- Hardware models hardware.c, setGdt and setTSS of mm.c, setIdt of interrupt.c, the writes of
-- init_task1 (sched.c) to the TSS, and main of system.c as far as the processor and its tables go,
-- with Hardware/Tables. Steps has the kernel as a transition system, with Steps/Front, Steps/Calls,
-- Steps/Owners, Steps/Tasks, Steps/Heap and Steps/Keys for single entries and Steps/Always for all
-- of them; sys_exit is no step, since it leaves freequeue ill formed. Isolation is about the memory
-- that the tasks share in the states of that system: Isolation/Sched, Isolation/Calls,
-- Isolation/Sems and Isolation/Reads have the entries that leave memory alone, Isolation/Moves
-- those that take frames and directories, with Isolation/Clone, Isolation/Fill and Isolation/Used
-- for the loops of sys_fork, Isolation/Fork and its children, and Isolation/Heap; Isolation/Start
-- and its children are about the first two tasks, Isolation/Exit about what sys_exit leaves to the
-- others, and Isolation/Always about all runs. Image models build.c, with Image/Output and
-- Image/Layout for what it writes and Image/Loaded for what main of system.c makes of it.
--
-- How C is read. A function that changes globals takes the state and returns the new one. List
-- heads are numbered, and `struct task_struct` keeps its `list` field in the memory of list heads;
-- a task is its index in `task`. An `int` that may be negative is an integer, other numbers are
-- naturals; the tick counters wrap at 2^32 as `unsigned long` does, and so do the sums of the
-- program break. Each call of get_ticks takes the next value of a sequence, since the processor's
-- counter is not the kernel's. So does each call of getEbp, since the frame pointer depends on how
-- the compiler lays out the calls that lead there. task_switch is assembly: the model lets
-- `current()` be the new task from there on, and a call that goes on when its task runs again has a
-- function for its rest (sem_wait_resume, read_pass). A page directory is named by its row, and its
-- entry 0 holds the row of its page table. A read or write of sys_fork through a page goes to the
-- frame that the page table holds at that point. Where main moves the user program, and where a key
-- is copied, an address goes through the tables that CR3 leads to, and a page that is not present
-- is a page fault: its handler is not among the sources, so the model has the state in which the
-- fault comes.
--
-- Fuel. list_for_each takes any fuel, and more than the number of entries is enough. alloc_frame
-- looks at 384 frames and has 385 rounds. sys_sem_destroy has 16 rounds, one more than there are
-- tasks, which is enough since no list holds a task twice. The digit loop of itoa has as many
-- rounds as the number it is given, which has no more digits. strlen takes any fuel. The loop that
-- copies a file has one round more than the file has bytes. The other loops count up or down to a
-- bound that is known before they start, and recurse on the number of rounds.
--
-- The screen's cursor, video memory and port, the memory that the copies and read work on, but for
-- the move of the user program, and the processor with its tables are states of their own, not
-- parts of Kernel.
--
-- Not modelled: the assembly of entry.S, wrappers.S, sys_call_table.S and bootsect.S; the test
-- program user.c; set_handlers, zeos_show_clock and zeos_init_auxjp, which are not in the sources
-- (set_handlers is a parameter of Hardware); cpu_idle, get_eflags, set_ldt_reg and delay; what main
-- prints; the translation cache of the processor, which sys_fork does not flush between two uses of
-- a page; and what build.c prints to stderr. The words of a task's kernel stack are kept apart from
-- its task_struct, which lies at the stack's lower end. The kernel's data are apart from the bytes
-- of memory too, so that the image that main finds at the move is a hypothesis on these bytes.
pub mod Common
pub mod LinkedList
pub mod CirBuffer
pub mod Frames
pub mod Task
pub mod Utils
pub mod Kernel
pub mod Sched
pub mod Semaphores
pub mod Paging
pub mod Libc
pub mod Console
pub mod Write
pub mod Space
pub mod Fork
pub mod Boot
pub mod Exit
pub mod Sbrk
pub mod Read
pub mod Processes
pub mod Interrupts
pub mod Steps
pub mod Isolation
pub mod Image
pub mod Hardware
mod Tests
