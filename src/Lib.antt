-- ===== src/Lib.antt =====
-- A verification library for os-from-zero, a small kernel in C with libraries in Rust.
--
-- The kernel boots into a shell. A line that is typed is split into a command and its argument, and
-- the command is looked up in a registry. The commands write and read a file system in memory, and
-- create processes: the file of a program is loaded by the ELF loader into a block of program
-- memory, a table entry is filled for it, and its execution is simulated. A mouse driver follows the
-- packets of a PS/2 mouse, which read_key passes on while it waits for a key. Texts are drawn on the
-- terminal; the logger prints there too, and appends to a file of the file system. The PCI buses
-- are scanned for devices. A system monitor counts memory, and widgets that show it are kept in a
-- registry.
--
-- The files, with the code that they model:
-- Strings models kernel/src/string.c (strlen, strcmp, strncmp, strcpy, strncpy, strcat).
-- Decimal models the loop that prints a number, which kernel/src/process.c and
-- kernel/src/commands/execution.c repeat, and int_to_string of kernel/src/string.c.
-- Elf models kernel/src/elf_loader.c and elf_loader.h, with memset and memcpy of kernel/src/main.c.
-- Elf/Memory has the allocator and Elf/Load the loader; Elf/Image has the two programs that
-- kernel/src/commands/execution.c writes.
-- Process models kernel/src/process.c and process.h. Process/Execute has process_execute and
-- Process/Syscall the system calls.
-- Filesystem models kernel/fs_rust/src/lib.rs; Filesystem/Init has fs_init. Filesystem/Spec is the map
-- that the file system promises to be, and Filesystem/Refine shows that it is.
-- Execution models the commands of kernel/src/commands/execution.c, over Process and Filesystem;
-- Execution/Programs takes a program through compile and exec.
-- FileCommands models the commands of kernel/src/commands/filesystem.c, over Filesystem, with
-- list_files of kernel/fs_rust/src/lib.rs.
-- Keyboard models read_key of kernel/src/keyboard.c, over Mouse.
-- TicTacToe models the game of that name in kernel/src/commands/game.c, Guess the guessing of a
-- number there, and RockPaperScissors the third game.
-- Mouse models kernel/src/mouse.c and mouse.h.
-- Shell models kernel/src/shell.c and the registry's type in kernel/src/commands/system.h.
-- SystemCommands models kernel/src/commands/system.c, and shell_init of kernel/src/shell.c with the
-- functions of kernel/src/commands that register commands in SystemCommands/Start.
-- Logger models kernel/src/logger.c and logger.h, over Filesystem. Logger has the numbers and the
-- first pass over the format, Logger/Lines the line of the log file and logger_log.
-- RustLog models kernel/src/logger_rust.c, over Logger; RustLog/Format is the text that a format
-- stands for.
-- Terminal models kernel/src/terminal.c and terminal.h, with the table of kernel/src/font.c in Font.
-- Pci models kernel/src/pci.c and pci.h.
-- Memory models memmove and memcmp of kernel/src/main.c.
-- SystemMonitor models kernel/src/system_monitor.c and system_monitor.h, but for the processor;
-- SystemMonitor/Format has its sizes as text.
-- Widgets models the registry of kernel/src/widgets/system_widgets.c and system_widgets.h, and
-- Widgets/Pools the widgets themselves and cmd_widget_close of kernel/src/commands/widgets.c;
-- Widgets/Commands has the commands there that create and list widgets.
-- Base has what these files share.
--
-- How the code corresponds. The static variables of a file are a record, and an operation takes
-- the state and returns the new one with its result. A buffer is a list of bytes of its size. A
-- write outside of it, a read outside of what the caller owns, a panic in Rust and the overflow of
-- an int are the fault `none`; only the sum of the mouse position and a movement wraps round. A pointer into a table is an index, and NULL is `none`. Unsigned
-- numbers are natural numbers with their wrap-around written out, and an int is an integer. What
-- the code prints is a list of outputs. Bytes that the controller or the keyboard delivers, what
-- the PCI port answers, the memory map, the windows that are opened, and the addresses that the
-- linker chooses, are arguments.
--
-- Every loop of the code is structural recursion: over a list, over the number of rounds of a
-- `for`, or over the bytes left in a buffer. The only bound that the code itself has in place of
-- an end is the timeout of the mouse driver, which is kept.
--
-- Not modelled: sound and the set-up of the serial port, which are port writes; what terminal_print
-- does for the mouse between two characters; what uses floating-point numbers; the window manager,
-- the display server and the graphics driver, and the drawing of widgets through them; the boot
-- sequence; pci_write_config; the commands that show samples of the system monitor, and the commands
-- on sound and on windows.
pub mod Base
pub mod Decimal
pub mod Elf
pub mod Execution
pub mod FileCommands
pub mod Filesystem
pub mod Font
pub mod Guess
pub mod Keyboard
pub mod Logger
pub mod Memory
pub mod Mouse
pub mod Pci
pub mod Process
pub mod RockPaperScissors
pub mod RustLog
pub mod Shell
pub mod Strings
pub mod SystemCommands
pub mod SystemMonitor
pub mod Terminal
pub mod TicTacToe
pub mod Widgets
