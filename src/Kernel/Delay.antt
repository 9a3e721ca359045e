-- ===== src/Kernel/Delay.antt =====
-- sys_sleep of kernel/proc.c and syscall_populate_argument of kernel/syscall.c. The model takes fuel for
-- the number of times that the process is woken, and stops without.
use cpu.Prelude.{
  ℕ, zero, suc, ◌+◌, ◌*◌, ◌%◌, ◌^◌, ◌==◌, ltb, leb, if◌then◌else◌, Option, none, some,
}
use cpu.Kernel.State.{Layout}
use cpu.Kernel.Command.{Command, pure, when, choose, current_process, failure, ◌>>=◌, ◌>>◌}
use cpu.Kernel.Pcb.{proc_get_16, a_offset}
use cpu.Kernel.Scheduler.{Switch}
use cpu.Kernel.Sleep.{sleep}
use cpu.Kernel.Copy.{copy_from_user, error}
use cpu.Kernel.Timer.{set_wakeup_call}

-- sizeof(Syscall_Argument)
abbrev pub argument_size : ℕ
argument_size = 6

abbrev pub to_option : ℕ × (ℕ → ℕ) → Option (ℕ → ℕ)
to_option (r, arg) = if r == error then none else some arg

-- The bytes of the argument union, if they could be copied.
unfoldable pub syscall_populate_argument : Command (Option (ℕ → ℕ))
syscall_populate_argument = do
  me ← current_process
  ax ← proc_get_16 me a_offset
  copied ← copy_from_user (λ i. 0) ax argument_size me
  pure (to_option copied)

-- A uint32_t of the argument.
abbrev pub long_at : (ℕ → ℕ) → ℕ → ℕ
long_at arg i = arg i + 0x100 * arg (i + 1) + 0x10000 * arg (i + 2) + 0x1000000 * arg (i + 3)

-- `ticks + systicks`, cut to the largest number at an overflow.
unfoldable pub deadline : ℕ → ℕ → ℕ
deadline ticks systicks =
    let total = (ticks + systicks) % 2 ^ 32 in if ltb total systicks then 0xffff_ffff else total

-- `if(total < next_wakeup_call) next_wakeup_call = total;`
unfoldable pub call_at : ℕ → Command (Unit {0})
call_at total k = when (ltb total k.clock.next_wakeup_call) (set_wakeup_call total) k

module _ (run : Switch → Command (Unit {0})) (l : Layout) where
  unfoldable pub sleep_until : ℕ → ℕ → Command (Unit {0})
  sleep_until zero total k = none
  sleep_until (suc fuel) total k =
      choose (leb total k.clock.systicks) (pure tt)
        (do call_at total; sleep run l.systicks_address; sleep_until fuel total) k

  -- sys_sleep behind the copy of its argument.
  unfoldable pub sleep_for : ℕ → Option (ℕ → ℕ) → Command ℕ
  sleep_for fuel none = pure failure
  sleep_for fuel (some arg) = do
    λ k. sleep_until fuel (deadline (long_at arg 0) k.clock.systicks) k
    pure 0

  unfoldable pub sys_sleep : ℕ → Command ℕ
  sys_sleep fuel = do arg ← syscall_populate_argument; sleep_for fuel arg
