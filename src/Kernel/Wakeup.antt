-- ===== src/Kernel/Wakeup.antt =====
-- wakeup of kernel/proc.c, the other half of sleep: it is called by the drivers' interrupt handlers.
pub mod Woken
use cpu.Prelude.{ℕ, zero, suc, ◌+◌, ◌==◌, if◌then◌else◌, update, Bool, true, false, some}
use cpu.Kernel.State.{Kernel, Proc, ProcState, is, ready, sleeping, max_proc_count}
use cpu.Kernel.Command.{Command, pure, when, ◌>>=◌, ◌>>◌}
use cpu.Kernel.Pcb.{proc_get_16, channel_offset}

abbrev pub with_state : Proc → ProcState → Proc
with_state p s = record p { state = s }

-- `proc_table[p].state = s`
unfoldable pub set_state : ℕ → ProcState → Command (Unit {0})
set_state p s k =
    some (tt, record k { proc_table = update k.proc_table p (with_state (k.proc_table p) s) })

-- `proc_table[p].state == PROC_STATE_SLEEPING && proc_get_channel(&proc_table[p]) == channel`
unfoldable pub sleeps_on : ℕ → ℕ → Command Bool
sleeps_on p channel k =
    if is (k.proc_table p).state sleeping
    then (do c ← proc_get_16 p channel_offset; pure (c == channel)) k
    else some (false, k)

-- The loop of wakeup over the entries of proc_table that are left.
unfoldable pub wakeup_from : ℕ → ℕ → ℕ → Command (Unit {0})
wakeup_from zero p channel k = some (tt, k)
wakeup_from (suc n) p channel k =
    (do hit ← sleeps_on p channel; when hit (set_state p ready); wakeup_from n (p + 1) channel) k

unfoldable pub wakeup : ℕ → Command (Unit {0})
wakeup channel = wakeup_from max_proc_count 0 channel
