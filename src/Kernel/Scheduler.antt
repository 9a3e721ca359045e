-- ===== src/Kernel/Scheduler.antt =====
-- scheduler of kernel/proc.c: one pass of its loop over proc_table, up to the assembly code of
-- kernel/trampoline.s that it hands over to. The interrupt flag and the idle wait between two passes
-- are not modelled.
pub mod Turns
use cpu.Prelude.{ℕ, zero, suc, ◌+◌, leb, if◌then◌else◌, ◌||◌, Bool, true, false, Option, none, some}
use cpu.Kernel.State.{Kernel, Proc, is, ready, new, runing, max_proc_count}
use cpu.Kernel.Command.{Command, pure, ◌>>=◌, ◌>>◌}
use cpu.Kernel.Pcb.{proc_set_8, ticks_offset}
use cpu.Kernel.Wakeup.{set_state}

abbrev pub quantum : ℕ
quantum = 10

-- How a pass ends: nothing is ready, or one of the three ways to enter a process, with the process
-- that is left before the one that is entered.
pub data Switch : Type 0 where
  idle : Switch
  return_from_trap : ℕ → Switch
  first_context_switch context_switch : ℕ → ℕ → Switch

abbrev pub hand_over : Option ℕ → Bool → ℕ → Switch
hand_over none is_new p = return_from_trap p
hand_over (some old) true p = first_context_switch old p
hand_over (some old) false p = context_switch old p

-- `p->state == PROC_STATE_READY || p->state == PROC_STATE_NEW`
abbrev pub runnable : Proc → Bool
runnable p = is p.state ready || is p.state new

-- `current_process = p`
unfoldable pub set_current : ℕ → Command (Unit {0})
set_current p k = some (tt, record k { current = some p })

unfoldable pub dispatch : Option ℕ → ℕ → Command Switch
dispatch old p k =
    let is_new = is (k.proc_table p).state new in
    (do
      set_state p runing
      set_current p
      proc_set_8 p ticks_offset quantum
      pure (hand_over old is_new p))
      k

-- `round_robin_index++`, and back to 0 at the end of the table
abbrev pub advance : ℕ → ℕ
advance i = if leb max_proc_count (i + 1) then 0 else i + 1

unfoldable pub scan : ℕ → Option ℕ → Command Switch
scan zero old k = some (idle, k)
scan (suc n) old k =
    let p = k.round_robin_index in
    let k' = record k { round_robin_index = advance p } in
    let rest = scan n old k' in if runnable (k.proc_table p) then dispatch old p k' else rest

unfoldable pub scheduler : Command Switch
scheduler k = scan max_proc_count k.current k
