-- ===== src/Machine/Devices/Countdown.antt =====
-- Timer_step and Disk_step of machine/machine.c over many steps: the timer's period and the disk's
-- latency.
use cpu.Prelude.{
  ℕ, zero, suc, ◌+◌, ◌-◌, ◌/◌, ◌%◌, ◌^◌, ◌≤◌, ◌<◌, ◌==◌, if◌then◌else◌, ◌≡◌, ◌≢◌, refl, ap, ◌∙◌,
  arith,
}
use cpu.Machine.Map.{plic_pin_timer, disk_status_busy}
use cpu.Machine.State.{Board, Timer}
use cpu.Machine.Devices.{timer_step, plic_raise, counter_of, disk_step, disk_finish}

pub timer_steps : ℕ → Board → Board
timer_steps zero b = b
timer_steps (suc n) b = timer_step (timer_steps n b)

abbrev pub set_counter : Timer → ℕ → Timer
set_counter t c = record t { counter_high = c / 256; counter_low = c % 256 }

-- How many steps a counter takes to run down: 0 stands for 65536.
abbrev pub period : ℕ → ℕ
period c = if c == 0 then 65536 else c

pub record IsRunning (t : Timer) : Type 0 where
  pub on : t.ctrl ≢ 0
  pub high : t.counter_high < 256
  pub low : t.counter_low < 256

timer_step-counts :
    (b : Board) (c : ℕ)
    → b.timer.ctrl ≢ 0
    → 1 < period c
    → c < 65536
    → timer_step (record b { timer = set_counter b.timer c })
      ≡ record b { timer = set_counter b.timer ((c + 65535) % 65536) }
unfolding timer_step
timer_step-counts b c on more small = ground arith

timer_step-fires :
    (b : Board)
    → b.timer.ctrl ≢ 0
    → timer_step (record b { timer = set_counter b.timer 1 }) ≡ record b {
      timer = record (b.timer) {
        counter_high = b.timer.latch_high;
        counter_low = b.timer.latch_low;
      };
      plic = plic_raise b.plic plic_pin_timer;
    }
unfolding timer_step
timer_step-fires b on = ground arith

timer_counting :
    (b : Board) (k : ℕ)
    → IsRunning b.timer
    → k < period (counter_of b.timer)
    → timer_steps k b
      ≡ record b { timer = set_counter b.timer ((period (counter_of b.timer) - k) % 65536) }
unfolding timer_steps
timer_counting b zero run h = ground arith
timer_counting b (suc k) run h =
    let c = period (counter_of b.timer) in
    rw (timer_counting b k run (omega arith)) (
      timer_step-counts b ((c - k) % 65536) run.on (ground arith) (omega arith)
      ∙ ap (λ x. record b { timer = set_counter b.timer x }) (ground arith))

-- What the board is when the timer has fired.
abbrev pub fired : Board → Board
fired b = record b {
  timer = record (b.timer) { counter_high = b.timer.latch_high; counter_low = b.timer.latch_low };
  plic = plic_raise b.plic plic_pin_timer;
}

timer_firing :
    (b : Board) (n : ℕ)
    → IsRunning b.timer
    → n ≡ period (counter_of b.timer)
    → timer_steps n b ≡ fired b
unfolding timer_steps
timer_firing b zero run e = absurd (ground arith)
timer_firing b (suc m) run e =
    let last : (period (counter_of b.timer) - m) % 65536 ≡ 1 = ground arith in
    rw (timer_counting b m run (omega arith)) (
      ap (λ c. timer_step (record b { timer = set_counter b.timer c })) last
      ∙ timer_step-fires b run.on)

-- A running timer whose counter stands at `c` fires at step `c` (at step 65536 for 0) and not before:
-- the steps before only count down and raise nothing, and that step raises the timer's pin and
-- reloads the counter from the latch. Nothing else on the board changes.
pub timer_period :
    (b : Board)
    → IsRunning b.timer
    → ((k : ℕ)
        → k < period (counter_of b.timer)
        → timer_steps k b
          ≡ record b { timer = set_counter b.timer ((period (counter_of b.timer) - k) % 65536) })
      × (timer_steps (period (counter_of b.timer)) b ≡ fired b)
timer_period b run =
    (λ k h. timer_counting b k run h, timer_firing b (period (counter_of b.timer)) run refl)

pub disk_steps : ℕ → ℕ → Board → Board
disk_steps written zero b = b
disk_steps written (suc n) b = (disk_step written (disk_steps written n b)).1

abbrev pub set_delay : Board → ℕ → Board
set_delay b delay = record b { disk = record (b.disk) { delay = delay } }

disk_step-waits :
    (written delay : ℕ) (b : Board)
    → b.disk.status ≡ disk_status_busy
    → 1 < delay
    → delay < 2 ^ 32
    → (disk_step written (set_delay b delay)).1 ≡ set_delay b (delay - 1)
unfolding disk_step
disk_step-waits written delay b busy more small = ground arith

disk_step-finishes :
    (written : ℕ) (b : Board)
    → b.disk.status ≡ disk_status_busy
    → disk_step written (set_delay b 1) ≡ disk_finish written (set_delay b 0)
unfolding disk_step
disk_step-finishes written b busy = ground arith

disk_waiting :
    (written k delay : ℕ) (b : Board)
    → b.disk.status ≡ disk_status_busy
    → k < delay
    → delay < 2 ^ 32
    → disk_steps written k (set_delay b delay) ≡ set_delay b (delay - k)
unfolding disk_steps
disk_waiting written zero delay b busy more small = ap (set_delay b) (omega arith)
disk_waiting written (suc k) delay b busy more small =
    ap (λ s. (disk_step written s).1) (disk_waiting written k delay b busy (omega arith) small)
    ∙ disk_step-waits written (delay - k) b busy (omega arith) (omega arith)
    ∙ ap (set_delay b) (omega arith)

-- A disk that is busy with the delay `n + 1` only counts down for `n` steps, and makes its transfer
-- in the step after them.
pub disk_latency_lem :
    (written n : ℕ) (b : Board)
    → b.disk.status ≡ disk_status_busy
    → suc n < 2 ^ 32
    → ((k : ℕ) → k ≤ n → disk_steps written k (set_delay b (suc n)) ≡ set_delay b (suc n - k))
      × (disk_steps written (suc n) (set_delay b (suc n)) ≡ (disk_finish written (set_delay b 0)).1)
unfolding disk_steps
disk_latency_lem written n b busy small =
    let last : suc n - n ≡ 1 = omega arith in
    (
      λ k h. disk_waiting written k (suc n) b busy (omega arith) small,
      ap (λ s. (disk_step written s).1) (disk_waiting written n (suc n) b busy (omega arith) small)
          ∙ ap (λ d. (disk_step written (set_delay b d)).1) last
          ∙ ap (λ r. r.1) (disk_step-finishes written b busy),
    )
