-- ===== src/Kernel/Syscall.antt =====
-- The table that syscall_init of kernel/syscall.c fills; every other entry is NULL. `run` is as in
-- Kernel.Sleep, make_kernel_stack as in Kernel.Process, `file_at` as in Kernel.File, and `fuel` is for the
-- sleeps of sys_wait and sys_sleep.
use cpu.Prelude.{ℕ, ◌==◌, if◌then◌else◌, Option, none, some}
use cpu.Kernel.State.{Layout}
use cpu.Kernel.Command.{Command, panic}
use cpu.Kernel.Scheduler.{Switch}
use cpu.Kernel.Signals.{sys_getpid, sys_kill}
use cpu.Kernel.Heap.{sys_sbrk}
use cpu.Kernel.Exit.{sys_wait, sys_exit}
use cpu.Kernel.Delay.{sys_sleep}
use cpu.Kernel.Fork.{sys_fork}
use cpu.Kernel.File.{File, sys_read, sys_write}

-- sys_close, sys_open and sys_ioctl of kernel/file.c
abbrev pub sys_close : Command ℕ
sys_close = panic

abbrev pub sys_open : Command ℕ
sys_open = panic

abbrev pub sys_ioctl : Command ℕ
sys_ioctl = panic

module _ (run : Switch → Command (Unit {0})) (l : Layout)
    (make_kernel_stack : ℕ → Command (Unit {0})) (file_at : ℕ → Option File) (fuel : ℕ) where
  unfoldable pub syscalls_table : ℕ → Option (Command ℕ)
  syscalls_table number =
      if number == 0x46
      then some (sys_fork run l make_kernel_stack)
      else if number == 0x45
      then some (sys_exit run l)
      else if number == 0x57
      then some (sys_wait run l fuel)
      else if number == 0x4b
      then some sys_kill
      else if number == 0x42
      then some sys_sbrk
      else if number == 0x53
      then some (sys_sleep run l fuel)
      else if number == 0x47
      then some sys_getpid
      else if number == 0x63
      then some sys_close
      else if number == 0x6f
      then some sys_open
      else if number == 0x77
      then some (sys_write file_at)
      else if number == 0x72
      then some (sys_read file_at)
      else if number == 0x69
      then some sys_ioctl
      else none
