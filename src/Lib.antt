-- ===== src/Lib.antt =====
-- SBUOS, a small x86-64 kernel with a shell: a model of its core, and what is proved of it.
--
-- The kernel keeps physical pages in two chained lists, processes in a circular queue, the typed
-- characters in a circular buffer, the screen in the memory of the text display, and its files in a
-- tar archive that the boot loader leaves in memory. A timer tick may preempt the active process and
-- wakes sleepers; a byte from the keyboard goes through a driver to the typed input and the screen and
-- wakes the readers; a system call works on the active process and may switch to another one.
--
-- Files, and the code that they model:
--   Base       shared names: tests on numbers, lists, total arrays, circular windows; Base/Bits: `&` and
--              `|` of flags and addresses
--   Pages      sys/memory_helpers.c: the lists of free and used pages and how they are built
--   Paging     sys/memory_helpers.c: zero_out, k_map_v and k_mem_map_v, which write page tables before
--              the switch of cr3
--   Virtual    sys/memory_helpers.c: map_page, which reaches the tables through the root's own slot,
--              get_new_page_v, kmalloc, get_new_page_table; Virtual/Cow: marking a process at a fork and
--              the copy of a page at the first write
--   Creation   sys/process_helpers.c and sys/systemcall.c: _get_new_pcb, get_forked_pcb, do_fork, init,
--              process_run, process_exec, on Process and Virtual; Creation/Program: do_execve and
--              prepare_user_memory
--   Process    sys/process_helpers.c: the queue, the wake-up loops, kill_pid, get_next_context,
--              schedule, preempt; Process/Info: _get_process_info
--   Stdin      sys/stdin.c: _add_char, buffer_is_ready, copy_input
--   Keyboard   sys/keyboard_helpers.c and the rest of sys/stdin.c: both drivers, buffer_add_char
--   Console    sys/unix_helpers.c: write_k with its scrolling, and the printing of numbers
--   Format     sys/unix_helpers.c and libc/printf.c: both printf functions
--   Status     sys/unix_helpers.c: the status line, put_pressed_key and put_time_since_boot
--   Text       sys/sysutil.c: the kernel's strings
--   Paths      sys/sysutil.c: cleanup_path and path_merge
--   Tar        sys/tarfs.c: the look-ups, opening and reading of files; Tar/Dents: fill_dents
--   Exec       sys/exec.c, sys/vma.c, and the users of the loader in sys/tarfs.c
--   Timer      sys/timer_helpers.c
--   Syscall    sys/systemcall.c: brk, write, wait4, alarm, exit, close, kill, yield;
--              Syscall/Files: getcwd, read, chdir, open, getdents, getps;
--              Syscall/Dispatch: do_system_call
--   Interrupts include/sys/idt.h: the table of handlers and the service routines, which join the parts;
--              Interrupts/Pic: include/sys/pic_helpers.h
--   Gdt        sys/gdt.c: segment descriptors
--   Boot       sys/main.c and setup_paging of sys/memory_helpers.c: from the boot loader's data to init
--   Library    libc/stdlib.c and include/syscall.h: the wrappers of the system calls
--   Directory  libc/stdlib.c: opendir, readdir and closedir
--   Heap       libc/stdlib.c: sbrk and malloc over the system call brk
--   Shell      bin/sbush/strutil.c: the shell's strings
--   Environment  bin/sbush/envutil.c: the shell's variables; Environment/Arguments: process_argv
--   Prompt     bin/sbush/sbushell.c: get_formatted_prompt and process_command
--   Command    bin/sbush/sbushell.c and bin/sbush/ioutil.c: do_command, make_prompt and the loop
--   Programs   bin/kill, bin/sleep, bin/cat, bin/ps, bin/echo and bin/ls, and
--              crt/crt1.c
--
-- How the state corresponds: a pointer is a number, and the memory behind it a function of the
-- address (bytes, process blocks or page entries); each group of globals is a record, and a function
-- that changes them returns the new record. Unsigned arithmetic is written with its modulus, and an
-- `int` is its bit pattern below 2 ^ 32. A `char` is its byte, and is widened with its sign where the
-- source widens it. An array is total, so that an index out of range stays visible in the result.
--
-- Fuel: a loop over the process queue takes at most 100 rounds, the size of its array, which is
-- enough for every queue inside its bounds. get_next_context calls itself at most once for each
-- queued process and for the active one. A loop over a string or over the archive takes its bound
-- from the caller: one round more than the string has characters, or the archive entries, is enough.
-- `none` means that the fuel is used up, or that a table is read behind its end.
--
-- The processor's part of an access through the page tables is written out as the hardware documents
-- it: `walk` follows the tables from the root by the slots of the address, and `translate` also refuses
-- an entry whose present bit is clear. A flush of the translation buffer has no counterpart: every
-- access reads the tables anew.
--
-- Above the C library the kernel is an argument, `int80`: a program takes a `Host`, which gives it the
-- system calls, its memory and the state of printf. Programs/Sent puts the kernel's do_kill behind it.
--
-- A switch of processes is modelled up to the exchange of the stack pointers: schedule returns the
-- pointer of the process that runs next. Not modelled: the assembly, which saves registers, loads the
-- tables of the processor, switches the stack in boot and enters ring 3; what the ports do with the
-- bytes that are written to them; bin/hello, which prints one line; the functions that print for
-- debugging; and newfs/newfs.c, a tool of the host that marks a disk image.
pub mod Base
pub mod Boot
pub mod Command
pub mod Console
pub mod Creation
pub mod Directory
pub mod Environment
pub mod Exec
pub mod Format
pub mod Gdt
pub mod Heap
pub mod Interrupts
pub mod Keyboard
pub mod Library
pub mod Pages
pub mod Paging
pub mod Paths
pub mod Process
pub mod Programs
pub mod Prompt
pub mod Shell
pub mod Status
pub mod Stdin
pub mod Syscall
pub mod Tar
pub mod Text
pub mod Timer
pub mod Virtual
