-- ===== src/Kernel/Boot.antt =====
-- main of kernel/main.c, inode_init of kernel/inode.c, and the console's file of console_init in
-- kernel/console.c. The messages of main are left out, and so are syscall_init, file_init and pipe_init,
-- which fill tables or do nothing, and the frame that inode_init stores, which nothing reads.
use cpu.Prelude.{ℕ, ◌==◌, true, some}
use cpu.Kernel.State.{Layout, frame_unused}
use cpu.Kernel.Command.{Command, pure, panic, choose, ◌>>=◌, ◌>>◌}
use cpu.Kernel.Mmu.{mmu_init}
use cpu.Kernel.Timer.{timer_init}
use cpu.Kernel.Uart.{uart_init}
use cpu.Kernel.Disk.{disk_init}
use cpu.Kernel.Kalloc.{kalloc, kalloc_init}
use cpu.Kernel.Buffer.{buffer_init}
use cpu.Kernel.Process.{InitCode, proc_init, run_init_process}
use cpu.Kernel.Scheduler.{Switch, scheduler}
use cpu.Kernel.Drivers.{console_ops, file_of}
use cpu.Kernel.File.{File}

unfoldable pub inode_init : Command (Unit {0})
inode_init = do frame ← kalloc; choose (frame == frame_unused) panic (pure tt)

-- `global_file_table[0]` after console_init
unfoldable pub console_file :
    (Switch → Command (Unit {0})) → Layout → Command (Unit {0}) → ℕ → ℕ → File
console_file run l wait rounds fuel = file_of true true (console_ops run l wait rounds fuel)

-- `nmi` and `irq` are as in mmu_init, make_kernel_stack and the linker's symbols as in Kernel.Process.
unfoldable pub main :
    (Switch → Command (Unit {0})) → (ℕ → Command (Unit {0})) → InitCode → ℕ → ℕ → Command (Unit {0})
main run make_kernel_stack code nmi irq = do
  mmu_init nmi irq
  timer_init
  λ k. some (tt, record k { ring = uart_init k.ring })
  disk_init
  λ k. some (tt, record k { free = kalloc_init k.free })
  proc_init
  buffer_init
  inode_init
  run_init_process make_kernel_stack code
  switch ← scheduler
  run switch
  panic
