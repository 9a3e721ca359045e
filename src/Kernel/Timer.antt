-- ===== src/Kernel/Timer.antt =====
-- kernel/timer.c: the system clock and the wake-up call of the processes that sleep for a time.
pub mod Clock
use cpu.Prelude.{ℕ, ◌+◌, ◌%◌, ◌^◌, ◌==◌, leb, if◌then◌else◌, some, none}
use cpu.Machine.Map.{
  plic_interrupt_lines, plic_pin_timer, timer_latch_low, timer_ctrl, timer_enable_true,
  timer_enable_false,
}
use cpu.Kernel.State.{Kernel, Layout}
use cpu.Kernel.Command.{Command, pure, ◌>>=◌, ◌>>◌, store, clear_register}
use cpu.Kernel.Mmu.{store16}
use cpu.Kernel.Wakeup.{wakeup}

-- CYCLES of kernel/common.h
abbrev pub cycles : ℕ
cycles = 100

-- The largest uint32_t, at which no process waits for the clock.
abbrev pub never : ℕ
never = 0xffff_ffff

unfoldable pub timer_init : Command (Unit {0})
timer_init = do store16 timer_latch_low cycles; store timer_ctrl timer_enable_true

unfoldable pub timer_resume : Command (Unit {0})
timer_resume = store timer_ctrl timer_enable_true

unfoldable pub timer_pause : Command (Unit {0})
timer_pause = store timer_ctrl timer_enable_false

-- `next_wakeup_call = v`
abbrev pub set_wakeup_call : ℕ → Command (Unit {0})
set_wakeup_call v k = some (tt, record k { clock = record (k.clock) { next_wakeup_call = v } })

-- timer_interrupt behind the acknowledgement: a panic when the clock wraps to 0.
unfoldable pub tick : Layout → Command (Unit {0})
tick l k =
    let systicks = (k.clock.systicks + 1) % 2 ^ 32 in
    let k' = record k { clock = record (k.clock) { systicks = systicks } } in
    if systicks == 0
    then none
    else if leb k.clock.next_wakeup_call systicks
    then (do wakeup l.systicks_address; set_wakeup_call never) k'
    else some (tt, k')

unfoldable pub timer_interrupt : Layout → Command (Unit {0})
timer_interrupt l = do clear_register plic_interrupt_lines plic_pin_timer; tick l
