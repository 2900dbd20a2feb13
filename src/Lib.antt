-- ===== src/Lib.antt =====
-- ApollOS: a model of the kernel in student-distrib/, and what it does.
--
-- The program. The kernel is a set of C files over global variables. lib.c has the string functions
-- and the text screen; rofs.c reads a file system that stands in memory; i8259.c, rtc.c, paging.c
-- and keyboard.c drive the devices and the page tables; terminal.c keeps three terminals with a
-- screen, a key buffer and processes of their own; syscalls.c has the process table, the open files
-- of each process, and the system calls. An interrupt of the keyboard edits the line of the current
-- terminal and shows it; `read` on the terminal waits for enter and hands the line over; `execute`
-- finds a program in the file system, gives it a pid, a control block and a page of 4 MB, and
-- enters it; `halt` goes back to the parent. idt.c makes the interrupt table and the handlers of
-- exceptions, which halt the program. kernel.c starts all of it. The programs under syscalls/ call
-- the kernel.
--
-- The files.
--   Prelude: shared names; words of 8, 16 and 32 bits; lists as arrays; `store` and `>>=`.
--   CString: strlen, strncmp, strcpy, strncpy, memcpy, memset, strrev and itoa of lib.c.
--     CString/Compare, CString/Copy, CString/Reverse and CString/Digits hold the theorems, and
--     CString/Numerals reads numerals with a decoder of its own.
--   Memory: the memory functions of lib.c, instruction by instruction. Memory/Copy and Memory/Fill
--     say what a copy and a fill are; Memory/Memcpy, Memory/Memmove and Memory/Memset are about the
--     functions.
--   Screen: the video page and the cursor of lib.c; Screen/Cells is about scrolling, Screen/Bounds
--     about staying on the page, Screen/Backspace about erasing.
--   Printf: printf and clear of lib.c. Printf/Pieces says what a format shows, as a sequence of
--     characters and conversions, and Printf/Formats compares printf with it, with
--     Printf/Conversions for the numbers.
--   FileOps: file_t, fileops_t and the operation tables of syscalls.h and syscalls.c.
--   Rofs: rofs.c. Rofs/Contents has a file as one sequence of bytes, the specification that
--     Rofs/ReadData and Rofs/FileRead compare the code with; Rofs/Names is about lookups and
--     Rofs/Listing about reading the directory.
--   Pic and Pic/Lines: i8259.c. Paging: paging.c, with the processor's TLB; Paging/Translate is the
--     processor's address translation, Paging/Start says what it is after init_paging, and
--     Paging/Programs what remap changes in it. Rtc and Rtc/Rate: rtc.c.
--   Kernel: the global variables as one record. Process: the process table of syscalls.c;
--     Process/Stacks and Process/Pids are about the running process and about pids, Process/Blocks
--     about the control block of a new process.
--   Keyboard: line editing of keyboard.c, with Keyboard/Editing and Keyboard/Typing; Interrupts:
--     its keyboard_handler, with Interrupts/Modifiers. Interrupts/Waiting is the loop of
--     terminal_read that waits for enter, with the interrupts that come, and what a person has
--     typed; Interrupts/Serving and Interrupts/Pressing are about one key, Interrupts/Reading about
--     the line that is read.
--   Tty: terminal_open, _close, _read and _write of terminal.c, with Tty/ReadLine; Terminal: the
--     rest of terminal.c, with Terminal/Switching.
--   Syscalls: the calls on files, getargs and vidmap of syscalls.c; Execute: execute and halt.
--     Syscalls/Opening and Syscalls/Descriptors are about descriptors, Syscalls/Closing about what
--     close does to one. Execute/Refusal is about commands that name no file, and Execute/Halting
--     about the way back to the parent. Execute/Command and Execute/Arguments are about the words
--     of a command, Execute/Started, Execute/Loading and Execute/Starting about the process that it
--     starts, Execute/Apart about the memory of two processes, Execute/Return about the way back.
--     Syscalls/OpenFile and Syscalls/Files follow open, read and write down to the file and the
--     screen, with Tty/Writing for the latter.
--   Idt: idt.c. Idt/Gates and Idt/Targets say where the gates lead, Idt/Exceptions which status the
--     parent of a halted program sees.
--   Boot: entry of kernel.c and init_keyboard, with Gdt for the segment descriptors of x86_desc.h
--     and Multiboot for the structures of multiboot.h. Boot/Report says what there is to tell of
--     the boot loader's information, Boot/Memory what that is in memory. Boot/Messages, Boot/Loops
--     and Boot/Information are about what is shown, Boot/Entry about the kernel that is started,
--     Gdt/Descriptors about the fields.
--   User: the programs of syscalls/ over the record `Calls` of system calls. User/Support is
--     ece391support.c; User/Programs, User/Grep and User/Syserr have the programs, User/Interface
--     the contract of the calls on files that User/Cat relies on. User/OnKernel is about that
--     contract and the modelled kernel; User/CatOnKernel puts cat on the kernel, and
--     User/FromCommand starts it with a command; User/SyserrOnKernel does it with the tests of
--     syserr, with lemmas on their lines in User/Text.
--   Tests: runs on small states.
--
-- How the code is read. The global variables are a record that each function takes and returns; a
-- function that fills a buffer returns it. `none` is an access outside an array or the video
-- page, or a null pointer that is read. An int32_t is its bit pattern below 2 ^ 32: `minus_one`
-- is -1, `slt` the signed order and `neg32` the sign. Writes to ports are a list, the last first;
-- what a port answers is an argument. The TLB is a list of cached translations, which may be
-- stale; a load of cr3 empties it. memset and memcpy in CString work on one buffer, as the
-- kernel's calls use them, those in Memory on all of memory. `waits` is a loop that waits for an
-- interrupt. Leaving the kernel is a result: `entered` is a jump into a program, `resumed` the
-- return into the parent.
--
-- Fuel. A loop over an array or to a bound recurses on the rounds that are left, which is the
-- source's own bound. The loop of itoa divides a 32-bit number, with fuel for 32 digits and the
-- end; that of strrev has the length of the string; that of rtc_write halves a 32-bit number, with
-- fuel 32. That these are enough is part of the theorems on them. That over the memory map has fuel
-- for regions of 4 bytes, the least that it goes on by. The loops of cat, ls, grep and the shell
-- have fuel as an argument, since what ends them is up to the system calls.
--
-- Not modelled: the assembly before entry and around the handlers, and the debug macros, which have
-- little logic or only set up hardware; of the programs under syscalls/ sigtest, which relies on
-- signals, and pingpong, which never ends, and the layer that emulates the calls on Linux; and
-- fish/, an animation from the course's package. The linker's addresses of the tables and of the
-- handlers are parameters (`Layout`, `Linker`, `address`), and so is what the boot loader leaves in
-- memory. A program that reads where the kernel would have to wait has no result in User/OnKernel.
pub mod Prelude
pub mod Gdt
pub mod Multiboot
pub mod Boot
pub mod CString
pub mod Memory
pub mod FileOps
pub mod Rofs
pub mod Screen
pub mod Printf
pub mod Pic
pub mod Paging
pub mod Rtc
pub mod Kernel
pub mod Process
pub mod Keyboard
pub mod Tty
pub mod Syscalls
pub mod Execute
pub mod Terminal
pub mod Interrupts
pub mod Idt
pub mod User
mod Tests
