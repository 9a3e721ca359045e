-- ===== src/Kernel/Sleep.antt =====
-- sleep and yield of kernel/proc.c. The parameter `run` stands for what the computer does from the end of
-- a scheduler's pass until the process is entered again: the context switch of kernel/trampoline.s, the
-- other processes and interrupts, and the idle wait with the passes after it.
use cpu.Prelude.{ℕ}
use cpu.Kernel.State.{sleeping, ready}
use cpu.Kernel.Command.{Command, current_process, ◌>>=◌, ◌>>◌}
use cpu.Kernel.Pcb.{proc_set_16, channel_offset}
use cpu.Kernel.Wakeup.{set_state}
use cpu.Kernel.Scheduler.{Switch, scheduler}

module _ (run : Switch → Command (Unit {0})) where
  unfoldable pub sleep : ℕ → Command (Unit {0})
  sleep channel = do
    me ← current_process
    proc_set_16 me channel_offset channel
    set_state me sleeping
    switch ← scheduler
    run switch
    me' ← current_process
    proc_set_16 me' channel_offset 0

  unfoldable pub yield : Command (Unit {0})
  yield = do me ← current_process; set_state me ready; switch ← scheduler; run switch
