-- ===== src/Kernel.antt =====
-- The kernel of kernel/*.c, running on the emulated computer of machine/machine.c.
pub mod State
pub mod Command
pub mod Mmu
pub mod Pcb
pub mod Wakeup
pub mod Memory
pub mod Kalloc
pub mod Uart
pub mod Timer
pub mod Strings
pub mod Scheduler
pub mod Signals
pub mod Heap
pub mod Copy
pub mod Printk
pub mod Sleep
pub mod Disk
pub mod Buffer
pub mod Bitmap
pub mod Process
pub mod Exit
pub mod Delay
pub mod Fork
pub mod Trap
pub mod Console
pub mod File
pub mod Fs
pub mod Syscall
pub mod Drivers
pub mod Boot
