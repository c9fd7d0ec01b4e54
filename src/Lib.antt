-- ===== src/Lib.antt =====
-- ValeciumOS: the parts of its kernel that keep the state of memory, processes and terminals,
-- its open files, its strings and its messages.
--
-- kernel/mem/pmm.c hands out pages of 4096 bytes, which kernel/mem and kernel/cpu build on.
-- kernel/mem/heap.c is the kernel's heap and uses the routines of kernel/mem/memory.c.
-- kernel/drivers/keyboard/keyboard.c turns scancodes into characters for the active terminal.
-- kernel/drivers/tty/tty.c takes these, edits a line, and serves readers; it wakes them through
-- kernel/cpu/core.c, whose run queue is kernel/cpu/scheduler.c.
-- kernel/fs/fd/fd.c keeps the open files of a process and opens them through kernel/fs/vfs/vfs.c,
-- which finds the mounted file system that a path belongs to; kernel/fs/fat/fat.c and
-- kernel/fs/devfs/devfs.c are such file systems. kernel/sys/cmdline.c reads the options of the start.
-- kernel/sys/elf.c puts programs into memory.
-- kernel/crypto has the hashes MD5 and SHA-1.
--
-- Which file models which part, with the folder of the same name for what is proved about it:
-- - Mem/Pmm: kernel/mem/pmm.c. `Pmm` holds the static variables, `initialize`, `allocate_page`,
--   `free_page`, `is_page_free`, `free_pages` are the functions PMM_Initialize to PMM_FreePages.
-- - Mem/Memory: memmove of kernel/mem/memory.c, and memcpy and memset of
--   kernel/arch/i686/mem/memory_asm.S. Memory is a function from addresses to bytes.
-- - Mem/Heap: kernel/mem/heap.c without the heap of user processes.
-- - Tty/Buffer, Tty/Device, Tty/Line, Tty/Input, Tty/Read, Tty/Table: kernel/drivers/tty/tty.c and
--   tty.h. The ring is TTY_Buffer, the device TTY_Device; the display and the wait queue are the
--   interface `Backend`. Tty/Spec describes the terminal on lists, Tty/Refine proves that the code does so.
-- - Cpu/Process, Cpu/Scheduler, Cpu/Wait: kernel/cpu/process.h (the fields that are used),
--   kernel/cpu/scheduler.c and parts of kernel/cpu/core.c. A pointer to a process is a number.
-- - Std/Strings: kernel/std/string.c, on the memory of Mem/Memory.
-- - Std/Stdio: kernel/std/stdio.c. `printf_vimpl` gives the characters that are printed; Std/Stdio/Log
--   has logfmt and print_buffer, Std/Stdio/Snprintf vsnprintf. Std/Stdio/Pieces and
--   Std/Stdio/Snprintf/Items say what a format means.
-- - Fs/Fd: kernel/fs/fd/fd.c, the open files of a process. The functions of kernel/fs/vfs/vfs.c that
--   it calls, the terminal and the allocator are the interface `Vfs`.
-- - Fs/Vfs: kernel/fs/vfs/vfs.c. `Mounts` is the table of mounts, Fs/Vfs/Mount has FS_Mount and
--   FS_Umount, Fs/Vfs/Calls the calls VFS_Open to VFS_GetSize. The operations of the file systems
--   and the allocator are the interfaces `Operations` and `Services`.
-- - Fs/Fat: the file allocation table of kernel/fs/fat/fat.c. `write_fat_entry` and `next_cluster` are
--   FAT_WriteFatEntry and FAT_NextCluster; the sectors of a partition are the interface `Sectors`,
--   and what a disk promises are the hypotheses `Lawful` in Fs/Fat/Disk. Fs/Fat/Files has the open
--   files, Fs/Fat/Read and Fs/Fat/Seek are FAT_Read and FAT_Seek; Fs/Fat/Read/Chain says what the
--   bytes of a file are.
-- - Keyboard: kernel/drivers/keyboard/keyboard.c, on the terminal of Tty.
-- - Fs/Devfs: kernel/fs/devfs/devfs.c, the table of device nodes and their files. A node is its index.
-- - Sys/Cmdline: kernel/sys/cmdline.c, the parser of the kernel's command line.
-- - Sys/Elf: kernel/sys/elf.c. `load` is ELF_Load, on the interface `File`; Sys/Elf/Stack has
--   setup_initial_user_stack.
-- - Crypto: kernel/crypto/md5.c and sha1.c. Crypto/Blocks is what their update and final functions
--   share; the modules called Reference define the digest of a whole message.
-- Prelude holds the shared names and lemmas. The modules called Tests run the code.
--
-- Numbers: uint32_t, size_t and uintptr_t are natural numbers, reduced modulo 2^32 where the code
-- can wrap around, likewise uint8_t modulo 2^8. Static state is a record that is passed on.
--
-- Loops are recursions on the rounds that are left, which are the bounds of the code's loops: the
-- number of pages, of processes, of bytes or of characters. The loop of line_kill runs as many
-- rounds as the line has characters. The wait of TTY_Read is a recursion on the characters that
-- arrive. The functions on strings run to the terminating 0 and have fuel; more fuel than there are
-- characters is enough, also for the parser of the command line. heap_check_integrity takes a bound
-- on the blocks as its fuel; `none` means that it did not suffice.
-- FAT_Read has fuel, and more than the number of bytes wanted is enough, since each round takes one
-- at least; print_buffer has fuel for one round more than bytes, and
-- ELF_Load needs more fuel than each segment has bytes of data.
--
-- Not modelled: log messages; what the processor does on a change of process; the cursor of the
-- terminals and the other ioctl calls; Process_Wait and the destruction of processes; ELF_LoadProcess,
-- which maps the pages of a new process; writing to files and directories of the FAT driver and its
-- file of metadata; the partitions and other file systems below the mounts; virtual memory, system
-- calls, modules, drivers of disks and the boot loader; hardware access and assembly apart from the
-- memory routines; the mathematics library, which is floating point.
pub mod Prelude
pub mod Mem
pub mod Tty
pub mod Cpu
pub mod Std
pub mod Fs
pub mod Crypto
pub mod Keyboard
pub mod Sys
