-- ===== src/Lib.antt =====
-- AcharyaOS: a verification library for the logic of the kernel.
--
-- The kernel is one C program without an operating system below it. `kernel/kmain.c` initialises
-- the parts one after another; afterwards the shell calls them, and the timer interrupt drives the
-- scheduler. Each part keeps its state in static variables. Here such a state is a record, and an
-- operation is a function from the state before, and the arguments, to the result and the state
-- after.
--
-- The parts and their files:
--
--   Base        what all parts share: tests, arrays as lists, tables of slots (`find_index` is the
--               loop that returns the first slot that passes a test, `collect` the one that copies
--               those that pass), the unsigned types as remainders, and the bit operations.
--   Kstring     kernel/lib/kstring.c, and the bounded copy loop of the registries.
--   Scheduler   scheduler/scheduler.c: `on_timer_tick` is scheduler_on_timer_tick, and so on.
--   Process     process/process.c: `create_kernel` is process_create_kernel. It registers a task
--               with the scheduler, so its state holds the scheduler's. `Process.Reach` is the
--               relation of what the kernel does to both after boot.
--   Kheap       memory/kheap.c. The address where the kernel ends comes from the linker and is an
--               argument of `init`. Memory is a function from addresses to bytes.
--   Vmm         memory/vmm.c: the page tables. Where they lie is decided by the linker and is a
--               parameter; the register cr3 is part of the state. `Vmm.Walk` is the look-up of an
--               address by the processor, against which the tables are judged.
--   Log         kernel/debug/log.c: the ring of entries. What log_write prints is a list of lines.
--               `Log.Format` has the format strings of log_writef; its variadic arguments are a list.
--   User        kernel/user/user.c: accounts, the active user, passwords and the login.
--   Service     kernel/service/service.c: the startup services. Their hooks write to the logger, so
--               the state holds the log.
--   Net         kernel/net: one module for each of eth.c, arp.c, ipv4.c, icmp.c and udp.c. ARP's
--               state holds Ethernet's, IPv4's holds ARP's; ICMP and UDP take IPv4's and give it
--               back.
--   Keyboard    drivers/keyboard/keyboard.c: the ring of typed characters. An interrupt takes the byte
--               from the port as an argument.
--   Mouse       drivers/mouse/mouse.c: the bytes of the mouse, put together to packets. As with the
--               keyboard, an interrupt takes its byte as an argument.
--   Ata         drivers/disk/ata.c, down to its accesses to the ports. The ports, with the drive
--               behind them, are a parameter. `Ata.Lawful` says how an ATA drive that works answers
--               to its registers and commands, for one sector at a time, and what the driver makes
--               of it; nothing is assumed of transfers of several sectors. `Ata.Memory` is such a
--               drive. A wait gives up after 100000 rounds; a drive that works needs fewer.
--   Fs          fs/fs.c, over the disk driver. The table of files is a list of records, `Fs.Table`
--               has its bytes. The state of the drive is passed through and given back. A read that
--               goes past the end of the buffer is a result of its own.
--   Config      kernel/config/config.c: the settings, over the file system. `Config.Table` has the
--               table, the rest the text that is saved and loaded.
--   Calc        kernel/calc/calc.c: the recursive descent over the text. `Calc.Grammar` has the
--               expressions as trees, with their text; `Calc.Value` is what they are worth as a
--               calculation with integers.
--   Window      gui/window.c: the registry of windows. Rendering gives the calls it makes of the
--               framebuffer, as a list; whether the framebuffer is ready is an argument.
--
-- Conventions. A result of -1, a null pointer and a missing socket are `none` or `fail`; an input
-- pointer that the code tests for null is an option, and one that it does not test is valid. A char
-- array is the list of its bytes, and reads as NUL behind its end, as a string literal does. A
-- result through an out pointer is returned. `timer_get_ticks` is an argument, `now`; no interrupt
-- falls within an operation, so the two calls that some operations make read the same tick.
-- Unsigned arithmetic is cut to its width by `u8` to `u64`.
--
-- Loops over a table are recursion on the list, or on the number of rounds left. The carry loop of
-- the checksum has three rounds: from a 32-bit sum it ends after two. The port search of
-- udp_auto_bind has as many rounds as there are ports left up to 65535, where the code leaves it. Each
-- call of the calculator costs a unit of fuel; four for each character and three more suffice.
-- The lines of the settings are read with one unit for each character.
--
-- Not modelled: the boot assembly, descriptor tables, port input and output, the console and
-- drawing, which only move bytes to devices; the shell, which dispatches and prints; and so far the
-- rest of the window system and the packages.
pub mod Base
pub mod Kstring
pub mod Scheduler
pub mod Process
pub mod Kheap
pub mod Log
pub mod User
pub mod Service
pub mod Net
pub mod Window
pub mod Keyboard
pub mod Ata
pub mod Fs
pub mod Calc
pub mod Config
pub mod Vmm
pub mod Mouse
