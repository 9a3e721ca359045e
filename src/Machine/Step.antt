-- ===== src/Machine/Step.antt =====
-- CPU_step and Machine_step of machine/machine.c.
pub mod Access
pub mod Images
pub mod Survival
pub mod Isolated
pub mod Ranges
use cpu.Prelude.{ℕ, zero, suc, if◌then◌else◌, Bool, true, false, Option}
use cpu.Machine.Map.{cpu_per_step}
use cpu.Machine.State.{Board}
use cpu.Machine.Core.{Core, Machine, ExecResult, running, halting, invalid_operation}
use cpu.Machine.Bus.{read, write}
use cpu.Machine.Devices.{uart_step, disk_step, timer_step}
use cpu.Machine.Mmu.{pre_exec, post_exec}

-- What the world outside does in one step: a key from the terminal, and what fwrite returns.
pub record Event : Type 0 where
  pub key : Option ℕ
  pub written : ℕ

-- `result == MCS6502ExecResultInvalidOperation`, negated
abbrev pub is_valid : ExecResult → Bool
is_valid running = true
is_valid halting = true
is_valid invalid_operation = false

module _ (core : Core) where
  -- One instruction: whether it was a valid one, and the machine after it.
  unfoldable pub cycle : Machine core → Bool × Machine core
  cycle m =
      let prepared = pre_exec core m in
      let (result, cpu, b) = core.exec_next Board read write prepared.cpu prepared.board in
      let m' : Machine core = record { cpu = cpu; board = post_exec b } in (is_valid result, m')

  -- The loop of CPU_step over the instructions that are left.
  unfoldable pub cycles_left : ℕ → Machine core → Bool × Machine core
  cycles_left zero m = (true, m)
  cycles_left (suc n) m =
      let (valid, m') = cycle m in
      let rest = cycles_left n m' in if valid then rest else (false, m')

  unfoldable pub cpu_step : Machine core → Bool × Machine core
  cpu_step m = cycles_left cpu_per_step m

  -- Machine_step: whether to go on, what was shown, and the machine after it.
  unfoldable pub machine_step : Event → Machine core → Bool × Option ℕ × Machine core
  machine_step e m =
      let (on, shown, b) = uart_step e.key m.board in
      let (_, b') = disk_step e.written b in
      let (valid, m') = cpu_step (record m { board = timer_step b' }) in
      if on then (valid, shown, m') else (false, shown, record m { board = b })
