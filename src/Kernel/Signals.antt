-- ===== src/Kernel/Signals.antt =====
-- sys_getpid and sys_kill of kernel/proc.c. A result of -1 is the bit pattern 0xffff. INTER_OFF and
-- INTER_ON are left out: no interrupt comes between two steps of the model.
pub mod Kills
use cpu.Prelude.{
  ℕ, zero, suc, ◌+◌, ◌==◌, leb, if◌then◌else◌, ◌||◌, Bool, true, false, Option, none, some,
}
use cpu.Kernel.State.{Kernel, Proc, is, unused, zombie, sleeping, ready, max_proc_count}
use cpu.Kernel.Command.{Command, pure, when, choose, current_process, failure, ◌>>=◌, ◌>>◌}
use cpu.Kernel.Pcb.{
  proc_get_8, proc_get_16, proc_set_16, a_offset, pid_offset, uid_offset, killed_offset,
}
use cpu.Kernel.Wakeup.{set_state}

unfoldable pub sys_getpid : Command ℕ
sys_getpid = do me ← current_process; proc_get_16 me pid_offset

-- Neither unused nor a zombie.
abbrev pub active : Proc → Bool
active p = if is p.state unused || is p.state zombie then false else true

-- The test of sys_kill.
unfoldable pub is_victim : ℕ → ℕ → ℕ → Command Bool
is_victim me pid p k =
    if active (k.proc_table p)
    then (do
      its ← proc_get_16 p pid_offset
      its_user ← proc_get_8 p uid_offset
      my_user ← proc_get_8 me uid_offset
      pure (if its == pid then its_user == my_user else false))
        k
    else some (false, k)

-- `if(p->state == PROC_STATE_SLEEPING) p->state = PROC_STATE_READY;`
unfoldable pub rouse : ℕ → Command (Unit {0})
unfolding set_state
rouse p k = when (is (k.proc_table p).state sleeping) (set_state p ready) k

unfoldable pub kill : ℕ → ℕ → Command ℕ
kill me p = do mine ← proc_get_16 me pid_offset; proc_set_16 p killed_offset mine; rouse p; pure 0

-- The loop over the entries of proc_table that are left.
unfoldable pub kill_from : ℕ → ℕ → ℕ → ℕ → Command ℕ
kill_from zero p me pid k = some (failure, k)
kill_from (suc n) p me pid k =
    (do hit ← is_victim me pid p; choose hit (kill me p) (kill_from n (p + 1) me pid)) k

unfoldable pub sys_kill : Command ℕ
sys_kill = do
  me ← current_process
  pid ← proc_get_16 me a_offset
  choose (leb pid 1) (pure failure) (kill_from max_proc_count 0 me pid)
