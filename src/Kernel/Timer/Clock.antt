-- ===== src/Kernel/Timer/Clock.antt =====
-- kernel/timer.c: what one tick of the clock does.
use cpu.Prelude.{
  ◌+◌, ◌%◌, ◌^◌, ◌<◌, ◌==◌, leb, if◌then◌else◌, Bool-cases, false, inl, inr, none, some, ◌≡◌, arith,
}
use cpu.Kernel.State.{Kernel, Layout, max_proc_count}
use cpu.Kernel.Wakeup.Woken.{HasStacks, woken, wakeup_lem}
use cpu.Kernel.Timer.{tick, never}

abbrev pub ticked : Kernel → Kernel
ticked k = record k { clock = record (k.clock) { systicks = k.clock.systicks + 1 } }

-- The kernel after a tick at which somebody waits for the clock, and the time has come.
abbrev pub called : Layout → Kernel → Kernel
called l k = record (ticked k) {
  proc_table = woken (ticked k) l.systicks_address 0 max_proc_count;
  clock = record { systicks = k.clock.systicks + 1; next_wakeup_call = never };
}

ticked-HasStacks : (k : Kernel) → HasStacks k → HasStacks (ticked k)
ticked-HasStacks k h = record {
  synced = record {
    registers = h.synced.registers;
    window_one = h.synced.window_one;
    window_two = h.synced.window_two;
    tracked_one = h.synced.tracked_one;
    tracked_two = h.synced.tracked_two;
  };
  frame = h.frame;
}

-- Before the clock is full a tick adds one to it. If the wake-up call has come, the processes that
-- sleep on the clock, and no others, become ready, and no call is left; if it has not, nothing else
-- changes. At the last tick of the clock the kernel panics.
pub tick_lem :
    (l : Layout) (k : Kernel)
    → HasStacks k
    → k.clock.systicks < 2 ^ 32
    → tick l k ≡ (
        if k.clock.systicks == 0xffff_ffff
        then none
        else if leb k.clock.next_wakeup_call (k.clock.systicks + 1)
        then some (tt, called l k)
        else some (tt, ticked k))
unfolding tick
tick_lem l k h small = elim (Bool-cases (k.clock.systicks == 0xffff_ffff)) [
  | inl full ↦ ground arith
  | inr more ↦
      let next : (k.clock.systicks + 1) % 2 ^ 32 ≡ k.clock.systicks + 1 = ground arith in
      let running : (k.clock.systicks + 1 == 0) ≡ false = ground arith in
      rw (more, next, running)
        (elim (Bool-cases (leb k.clock.next_wakeup_call (k.clock.systicks + 1))) [
          | inl due ↦ rw due (rw (wakeup_lem l.systicks_address (ticked k) (ticked-HasStacks k h)))
          | inr early ↦ rw early
        ])
]
