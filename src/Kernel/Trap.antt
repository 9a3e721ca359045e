-- ===== src/Kernel/Trap.antt =====
-- kernel/trap.c: the entry points of interrupts, exceptions and system calls. `run` is as in Kernel.Sleep.
-- `attempts` is the fuel of fs_init for the locks of buffers.
pub mod Quantum
pub mod Frames
pub mod Calls
use cpu.Prelude.{
  ℕ, ◌+◌, ◌*◌, ◌%◌, ◌==◌, ◌!=◌, if◌then◌else◌, update, has, Bool, true, false, not, ◌&&◌, Option,
  none, some,
}
use cpu.Machine.Map.{
  plic_interrupt_lines, plic_pin_timer, plic_pin_uart_rx, plic_pin_disk, mmu_cause_register,
  mmu_watchdog_register, mmu_va_register_low, mmu_va_register_high, mmu_cause_v,
  mmu_cause_invalid_opcode, mmu_cause_privilege,
}
use cpu.Kernel.State.{Kernel, TrapFrame, Layout, page_table_size}
use cpu.Kernel.Command.{
  Command, pure, panic, when, choose, current_process, ◌>>=◌, ◌>>◌, load, store,
}
use cpu.Kernel.Pcb.{
  proc_get_8, proc_set_8, proc_get_16, proc_set_16, proc_read_bytes, proc_write_bytes, a_offset,
  y_offset, pid_offset, killed_offset, ticks_offset, ctx_offset, page_table_offset,
}
use cpu.Kernel.Scheduler.{Switch}
use cpu.Kernel.Sleep.{yield}
use cpu.Kernel.Timer.{timer_interrupt}
use cpu.Kernel.Uart.{uart_rx_interrupt}
use cpu.Kernel.Disk.{disk_interrupt}
use cpu.Kernel.Exit.{sys_exit}
use cpu.Kernel.Fs.{fs_init}
use cpu.Kernel.Syscall.{syscalls_table}
use cpu.Kernel.File.{File}

abbrev pub root_drive : ℕ
root_drive = 1

unfoldable pub device_interrupt : Layout → Command ℕ
device_interrupt l = do
  which_device ← load plic_interrupt_lines
  when (has which_device plic_pin_timer) (timer_interrupt l)
  when (has which_device plic_pin_uart_rx) (uart_rx_interrupt l)
  when (has which_device plic_pin_disk) (disk_interrupt l)
  pure which_device

-- sizeof(Context)
abbrev pub context_size : ℕ
context_size = 8

-- `memcpy(dst, src, 3)` on tables of frames
abbrev pub low_three : (ℕ → ℕ) → (ℕ → ℕ) → ℕ → ℕ
low_three dst src = update (update (update dst 0 (src 0)) 1 (src 1)) 2 (src 2)

-- `memcpy(current_process->kernel_low_memory, kernel_page_table, 3)`
unfoldable pub save_low_memory : ℕ → Command (Unit {0})
save_low_memory me k =
    let p = k.proc_table me in
    let low = low_three p.kernel_low_memory k.kernel_page_table in
    some
      (tt, record k { proc_table = update k.proc_table me (record p { kernel_low_memory = low }) })

-- `memcpy(kernel_page_table, current_process->kernel_low_memory, 3)`
unfoldable pub restore_low_memory : ℕ → Command (Unit {0})
restore_low_memory me k =
    let low = low_three k.kernel_page_table (k.proc_table me).kernel_low_memory in
    some (tt, record k { kernel_page_table = low })

abbrev pub set_trap_frame : TrapFrame → Command (Unit {0})
set_trap_frame t k = some (tt, record k { trap_frame = t })

-- `proc_get_killed(current_process) != 0 && proc_get_pid(current_process) != 1`
unfoldable pub is_killed : ℕ → Command Bool
is_killed me = do
  killed ← proc_get_16 me killed_offset
  choose (killed == 0) (pure false) (do pid ← proc_get_16 me pid_offset; pure (pid != 1))

-- MMU_CAUSE_X, MMU_CAUSE_R and MMU_CAUSE_W
abbrev pub cause_other : ℕ
cause_other = 0x0e

-- SEI, PLP or RTI
abbrev pub has_mnemonic : ℕ → Bool
has_mnemonic watchdog =
    if watchdog == 0x78 then true else if watchdog == 0x28 then true else watchdog == 0x40

-- The causes of an NMI for which the process is ended; at any other the kernel panics.
unfoldable pub is_fault : ℕ → ℕ → Bool
is_fault cause watchdog =
    if has cause mmu_cause_v
    then true
    else if has cause cause_other
    then false
    else if has cause mmu_cause_privilege
    then has_mnemonic watchdog
    else has cause mmu_cause_invalid_opcode

module _ (run : Switch → Command (Unit {0})) where
  -- The bottom half of kernel_irq at a tick of the timer. The ticks that are left are in a local variable
  -- across the yield.
  unfoldable pub use_quantum : Command (Unit {0})
  use_quantum = do
    me ← current_process
    left ← proc_get_8 me ticks_offset
    let ticks = (left + 255) % 256
    when (ticks == 0) (yield run)
    me' ← current_process
    proc_set_8 me' ticks_offset ticks

module _ (run : Switch → Command (Unit {0})) (l : Layout) (attempts : ℕ) where
  -- A process that has been killed exits with code 1.
  unfoldable pub exit_if_killed : ℕ → Command (Unit {0})
  exit_if_killed me = do
    killed ← is_killed me
    when killed (do proc_set_8 me a_offset 1; ignored ← sys_exit run l; pure tt)

  -- `if(first){ first = false; fs_init(ROOT_DRIVE); }`
  unfoldable pub mount_once : Command (Unit {0})
  mount_once k =
      when k.trap_frame.first
        (do
          set_trap_frame (record (k.trap_frame) { first = false })
          fs_init run l attempts root_drive)
        k

  unfoldable pub kernel_prologue : Command (Unit {0})
  kernel_prologue = do
    me ← current_process
    exit_if_killed me
    λ k. proc_write_bytes me ctx_offset context_size k.trap_frame.user_context k
    λ k. proc_write_bytes me page_table_offset page_table_size k.trap_frame.user_page_table k
    save_low_memory me
    mount_once

  unfoldable pub kernel_epilogue : Command (Unit {0})
  kernel_epilogue = do
    me ← current_process
    exit_if_killed me
    ctx ← proc_read_bytes me ctx_offset context_size
    λ k. set_trap_frame (record (k.trap_frame) { user_context = ctx }) k
    table ← proc_read_bytes me page_table_offset page_table_size
    λ k. set_trap_frame (record (k.trap_frame) { user_page_table = table }) k
    restore_low_memory me

  unfoldable pub kernel_irq : Command (Unit {0})
  kernel_irq = do
    me ← current_process
    kernel_prologue
    which_device ← device_interrupt l
    when (has which_device plic_pin_timer) (use_quantum run)
    kernel_epilogue

  -- A call of the table; NULL is `none`.
  unfoldable pub dispatch : Option (Command ℕ) → Command ℕ
  dispatch none = do
    me ← current_process
    proc_set_16 me a_offset 1
    ignored ← sys_exit run l
    pure 0xffff
  dispatch (some syscall) = syscall

  -- What follows the branches on the cause of an NMI.
  unfoldable pub kernel_nmi : Command (Unit {0})
  kernel_nmi = do
    kernel_prologue
    cause ← load mmu_cause_register
    watchdog ← load mmu_watchdog_register
    low ← load mmu_va_register_low
    high ← load mmu_va_register_high
    store mmu_cause_register 0
    choose (is_fault cause watchdog) (pure tt) panic
    me ← current_process
    proc_set_16 me a_offset cause
    ignored ← sys_exit run l
    pure tt

module _ (run : Switch → Command (Unit {0})) (l : Layout) (attempts : ℕ)
    (make_kernel_stack : ℕ → Command (Unit {0})) (file_at : ℕ → Option File) (fuel : ℕ) where
  unfoldable pub kernel_brk : Command (Unit {0})
  kernel_brk = do
    kernel_prologue run l attempts
    me ← current_process
    sys_number ← proc_get_8 me y_offset
    return_value ←
        dispatch run l attempts (syscalls_table run l make_kernel_stack file_at fuel sys_number)
    me' ← current_process
    proc_set_16 me' a_offset return_value
    kernel_epilogue run l attempts
