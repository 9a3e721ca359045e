-- ===== src/Lib.antt =====
-- CPU6502: the emulated computer of machine/machine.c and the kernel of kernel/*.c that runs on it.
--
-- The computer is a board of devices behind a bus, and a CPU that drives the bus. Machine.Map holds
-- the constants of machine/machine.h and Machine.State the device structs. Machine.Bus is
-- MMU_translate, Machine_read and Machine_write; Machine.Devices is Disk_step, Uart_step,
-- Timer_step and the PLIC; Machine.Mmu is MMU_pre_exec and MMU_post_exec with the table of
-- Machine.Opcodes; Machine.Step is CPU_step and Machine_step. The CPU is the third-party library
-- machine/MCS6502.c, which is not modelled: Machine.Core is a record of its entry points,
-- polymorphic in the state behind the two bus callbacks, and Machine.Mmu.Stacking states what its
-- interrupt entries do (they return at once, masked or latched, or push three bytes on page 1 and
-- read the vector) and Machine.Step.Access
-- that it reaches the board through the callbacks alone. Machine.Step.Isolated is on user programs,
-- Machine.Step.Images and Machine.Step.Survival on the ROM and the disk image, the files named
-- Ranges on the ranges of the C types, which they use. Machine.Create is Machine_create with the
-- constructors and destructors, and the loop of main.
--
-- The kernel is a record of the global variables of kernel/*.c with the board (Kernel.State), and
-- its functions are commands on it (Kernel.Command), where `none` is a panic. Registers and windows
-- are reached through the bus of the board, so that a theorem on kernel code speaks of the emulated
-- hardware. Kernel.Mmu is kernel/mmu.c, Kernel.Pcb the PCB accessors of kernel/proc.c,
-- Kernel.Wakeup its wakeup, Kernel.Scheduler a pass of its scheduler, Kernel.Sleep its sleep and
-- yield, Kernel.Copy its copies between kernel and user, Kernel.Process its proc_init, proc_alloc,
-- proc_free and run_init_process, Kernel.Fork, Kernel.Exit and Kernel.Delay its sys_fork, sys_wait,
-- sys_exit and sys_sleep, Kernel.Signals its sys_getpid and sys_kill, and Kernel.Heap its sys_sbrk.
-- Kernel.Kalloc is kernel/kalloc.c, Kernel.Uart kernel/uart.c, Kernel.Timer kernel/timer.c,
-- Kernel.Trap kernel/trap.c, Kernel.Console console_read and console_write of kernel/console.c, and
-- Kernel.File sys_read and sys_write of kernel/file.c; Kernel.Syscall is the table of
-- kernel/syscall.c. Kernel.Disk is kernel/disk.c; Kernel.Buffer is the cache of kernel/buffer.c and
-- Kernel.Bitmap its block_alloc and block_free; Kernel.Fs is fs_init of kernel/fs.c,
-- Kernel.Drivers the tables of driver functions with kernel/pipe.c and kernel/debugger.c, and
-- Kernel.Boot main of kernel/main.c. Kernel.Strings is kernel/string.c over a flat memory, and
-- Kernel.Memory the same moves by the kernel's addresses. Kernel.Printk is kernel/printk.c: the
-- characters that it prints are a list. Mkfs is mkfs/mkfs.c, whose image the emulated disk holds.
--
-- Kernel.Uart.Display runs the busy wait of the UART's driver on the emulated display,
-- Kernel.Disk.Transfer and Kernel.Disk.Storing the disk's driver on the emulated disk, and
-- Kernel.Console.Editor is the line editor that the keys of the console are compared with.
-- Kernel.Trap.Frames and Kernel.Trap.Calls follow a system call from the trap to the return.
--
-- A process that sleeps or yields hands over to assembly of kernel/trampoline.s and is entered
-- again later. What happens in between is the parameter `run` (Kernel.Sleep), a command that may do
-- anything; make_kernel_stack of kernel/trampoline.s is a parameter of Kernel.Process, and the
-- driver behind an open file one of Kernel.File.
--
-- What the host's calloc and fopen give to Machine_create is the record Host of Machine.Create, and the
-- key and the result of fwrite of a step the record Event of Machine.Step.
--
-- Conventions: a byte is a number, an array a function from the index, and unsigned arithmetic
-- wraps where it is written. An int of the kernel has 16 bits, as the cc65 compiler has it. A
-- `Proc*` is an index into proc_table; where its address is used as a number, it comes from the
-- record Layout, which stands for the linker. Between two bus accesses of the kernel the devices do
-- not move. Loops are recursions on the rounds that are left. The functions of kernel/string.c that
-- run to a terminator take fuel; more than the length of the text is enough. The copies between
-- kernel and user and console_write take the bytes that are left, of which each round moves one.
-- Loops that wait for another process or for a device (buffer_get, sys_wait, sys_sleep,
-- console_read, the UART's busy waits) take fuel for their rounds and stop without a result when it
-- runs out; no number is enough whatever `run` does. The interrupt flag of the CPU is left out.
--
-- Not modelled: the assembly files, the terminal, the core dump and the messages of
-- machine/machine.c, and the CPU's library machine/MCS6502.c.
pub mod Kernel
pub mod Machine
pub mod Mkfs
pub mod Prelude
pub mod Tests
