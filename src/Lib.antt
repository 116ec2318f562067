-- ===== src/Lib.antt =====
-- A model of MiniCore-OS, a 32-bit x86 kernel in C, and of the properties that make its parts
-- correct.
--
-- Mm, with the modules below it, models mm.c. `Mm` holds the core of the allocator: the headers
-- `mem_block_t` of the heap's blocks stand at addresses (`Headers`), and `find_free_block`,
-- `split_block`, `merge_free_blocks`, `kmalloc` and `kfree` have the names of the C functions.
-- `Mm.Ops` holds `mm_init`, `memset`, `memcpy`, `memcmp`, `kcalloc`, `krealloc`, `kmalloc_aligned`,
-- `mm_get_stats`, `mm_validate_pointer` and `mm_check_heap_integrity`. The memory of the heap is
-- seen through two typed views, the headers and the payload bytes. Headers and payloads of a valid
-- heap do not overlap, so a write through one view is not seen by the other, but for the header
-- that a split writes into the end of a payload. The heap is taken to be apart from all variables of
-- the kernel, whose addresses the linker chooses: a build that puts variables behind 2 MB, where the
-- heap begins, is not what the model describes. `Layout` states what it means that the linked
-- headers spell a list of blocks that fill the heap without a gap; `Live` reads the live
-- allocations off such a list. Pointers and `size_t` are numbers with the wrap at 2 ^ 32 written
-- out. Loops over blocks run on 65537 rounds of fuel: the heap of 2 ^ 20 bytes has room for 65536
-- headers of 16 bytes.
--
-- Scheduler models scheduler.c: the task table, the ready queue that is linked through it, the
-- current task and the clock, with one function for each C function and helpers for parts of them.
-- A pointer to a task is the index of its entry. `Queue` says what it means that the links spell a
-- list of tasks, `Invariant` that this list holds exactly the ready tasks and that exactly the
-- current task runs; `Lifecycle`, `Switching` and `Tick` follow a task from `task_create` to
-- `task_exit` and the timer interrupt, with `States` for the task states that the queue operations
-- leave, and `Moves` and `Diagram` for the moves between them; `Start` is about `scheduler_init`,
-- `Times`, `Turns` and `Fairness` about the turns of the tasks, and `Demo` models the demo tasks.
--
-- Fs models fs.c: the file table with its data area, `fs_add_file`, `fs_find_file`, `fs_read`,
-- `fs_init` and the demo files (`Demo`). A write behind the end of a name is the result `none`.
-- `Text` is about the string functions, `Find` about the search and the copy of a content, `View`
-- says what a valid file system is and what it holds under a name, `Contract` is about the file
-- system as a map from names to contents, and `Init` about its validity and the error codes.
--
-- Terminal models the terminal of kernel.c: the cursor, the color and the cells of the screen
-- memory, with scrolling, and the printing of numbers. `Cells` is about the cells that are written,
-- `Cursor` about the place of the cursor, `Number` about the digits. The loop of
-- `terminal_write_dec` runs on the 10 rounds that its buffer has room for.
--
-- Idt models idt.c: the descriptor table, `idt_set_gate` and `idt_init` with the commands to the
-- interrupt controllers as a log of port writes. The addresses of the table and of the entry points
-- of interrupt.asm are parameters. `Gates` is about where the gates lead.
--
-- `Mm.Report`, `Fs.Report` and `Terminal.Output` model what mm.c and fs.c print: a report is a
-- sequence of calls of the terminal (`Output`), run by `print`. `Mm.Live` and `Mm.Moved` follow
-- single allocations through the list of the live ones. `Mm.Paging` models the page directory and
-- tables of `paging_init`, and `Mm.Paging.Translation` what the processor would read from them.
--
-- Isr models the state of isr.c: the table of handlers, and the commands to the interrupt
-- controllers as a log of port writes. What a port reads after a log is a parameter; `Masks` names
-- what is asked of it.
--
-- Shell models the state of shell.c, its keyboard tables, its line editor, its parser and its
-- command table: `Edit` and `Typing` are about the line that is typed, `Words`, `Rounds` and
-- `Parse` about the arguments, `Find` about the table, `Sizes` about the length of the buffer;
-- `Strings` holds the string functions that nothing calls.
--
-- Kernel puts the parts together: the record `Kernel` holds the variables of all files,
-- `Kernel.Commands` models the commands of shell.c, `Kernel.Keyboard` the keys up to
-- `shell_execute_command`, `Kernel.Interrupt` `isr_handler` and `irq_handler` of isr.c,
-- `Kernel.Boot` `kernel_main` of kernel.c and `Kernel.Console` its `process_command`. A step ends
-- in `next`, behind it, or in `halted`, in a loop of `hlt`; a write or read out of range is the
-- outcome `fault`. `Invariant` says what a valid kernel is, `Holding` which pointers the code may
-- free; the modules named Keeps, `Memtest` and `Ready` follow both through the steps.
-- `Kernel.Events` is the machine as a relation: the start, then any sequence of polls, interrupts
-- and exceptions. What the linker and the hardware decide (the addresses of stacks, tasks and
-- tables, and what the ports read) is the parameter `Machine` or an argument of the event.
--
-- `Kernel.Keyboard.Keys` and `Lines` follow a line from its scan codes to the command that runs. The
-- modules named Unchanged show that nothing behind `fs_init` writes to the files, and `Kernel.Files`
-- and `Kernel.Typed` what `cat` prints.
--
-- Cpu models interrupt.asm and task_switch.asm: code is a list of instructions, which `run` and
-- `execute_all` run on a record of registers, the stack pointer and a memory of bytes. The
-- instructions are those of the processor's manual for 32-bit code at one privilege level; `flags`
-- stands for the arithmetic flags that `add` leaves, and the flags are pushed and popped as a whole.
-- `Stack` shows once, for all instructions, that the words in the memory follow a list; `Stubs` holds
-- the entry points, whose C function is the parameter `handler`, and `Stubs.Frame` what it finds on
-- its stack; `Switch` holds `task_switch`, and `Switch.Context` what it saves and resumes. The
-- registers are apart from the record `Kernel`, whose interrupts are calls of C functions: what links
-- them is the number `int_no`, which the C code reads through an argument that is no pointer to the
-- frame. So `Kernel.Events` lets it be any number. `Stubs.Vectors` sorts the vectors by what is pushed
-- in the place of the error code, and `Stubs.Pushed` lists the words that are pushed.
--
-- The calls go down only: the shell and the interrupts call the allocator, the file system and the
-- scheduler, and all print on the terminal. In `Kernel.Events` an event runs to its end before the
-- next: an interrupt in the middle of a poll, which `enableints` makes possible, is not modelled.
-- `Base` holds what the parts share: the 32-bit arithmetic, lists, tests and C's integers.
--
-- Not modelled: boot.asm, the multiboot header and the four instructions in front of `kernel_main`.
-- The stacks of C functions and the code of the compiler are not modelled either, so nothing is said
-- of an overflow of a stack.
pub mod Base
pub mod Cpu
pub mod Mm
pub mod Scheduler
pub mod Fs
pub mod Terminal
pub mod Idt
pub mod Isr
pub mod Shell
pub mod Kernel
