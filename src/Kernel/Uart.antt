-- ===== src/Kernel/Uart.antt =====
-- kernel/uart.c: the ring buffer between the UART's interrupt and the readers of the console.
pub mod Ring
pub mod Display
use cpu.Prelude.{zero, suc, ℕ, ◌+◌, ◌%◌, ◌==◌, ◌!=◌, if◌then◌else◌, update, has, Option, none, some}
use cpu.Machine.Map.{
  plic_interrupt_lines, plic_pin_uart_rx, uart_stat, uart_rx, uart_tx, uart_status_rx_ready,
  uart_status_tx_ready,
}
use cpu.Kernel.State.{Kernel, RingBuffer, Layout}
use cpu.Kernel.Command.{Command, pure, when, ◌>>=◌, ◌>>◌, load, store, choose, clear_register}
use cpu.Kernel.Wakeup.{wakeup}
use cpu.Kernel.Scheduler.{Switch}
use cpu.Kernel.Sleep.{yield}

unfoldable pub uart_init : RingBuffer → RingBuffer
uart_init r = record r { head = 0; tail = 0 }

-- `ring_buffer.buffer[ring_buffer.head] = data; ring_buffer.head++;`
abbrev pub put : ℕ → RingBuffer → RingBuffer
put c r = record r { buffer = update r.buffer r.head c; head = (r.head + 1) % 256 }

-- The test for a full buffer compares ints, so `head + 1` does not wrap.
unfoldable pub push : ℕ → RingBuffer → RingBuffer
push c r = if r.head + 1 != r.tail then put c r else r

-- uart_getc; `none` is -1.
unfoldable pub pop : RingBuffer → Option ℕ × RingBuffer
pop r =
    if r.head == r.tail
    then (none, r)
    else (some (r.buffer r.tail), record r { tail = (r.tail + 1) % 256 })

unfoldable pub uart_getc : Command (Option ℕ)
uart_getc k = let (c, r) = pop k.ring in some (c, record k { ring = r })

-- CTRL('D')
abbrev pub ctrl_d : ℕ
ctrl_d = 4

-- What uart_rx_interrupt does with a character that was received.
unfoldable pub receive : Layout → ℕ → Command (Unit {0})
receive l c k =
    if k.ring.head + 1 != k.ring.tail
    then wakeup l.ring_address (record k { ring = push c k.ring })
    else some (tt, k)

-- At CTRL('D') the process table is printed, which changes no variable of the kernel.
unfoldable pub uart_rx_interrupt : Layout → Command (Unit {0})
uart_rx_interrupt l = do
  clear_register plic_interrupt_lines plic_pin_uart_rx
  status ← load uart_stat
  when (has status uart_status_rx_ready)
      (do c ← load uart_rx; if c == ctrl_d then pure tt else receive l c)

-- `while(!(MMIO8(UART_STAT) & ...))` with fuel for the rounds; `wait` is what happens in a round, such as
-- steps of the devices, or a yield. Without fuel the model stops.
unfoldable pub wait_for : Command (Unit {0}) → ℕ → ℕ → Command (Unit {0})
wait_for wait zero mask k = none
wait_for wait (suc fuel) mask k =
    (do
      status ← load uart_stat
      choose (has status mask) (pure tt) (do wait; wait_for wait fuel mask))
      k

module _ (wait : Command (Unit {0})) (fuel : ℕ) where
  -- uart_putc_sync, and uart_putc where a round of waiting is a yield.
  unfoldable pub uart_putc_sync : ℕ → Command (Unit {0})
  uart_putc_sync c = do wait_for wait fuel uart_status_tx_ready; store uart_tx c

  unfoldable pub uart_getc_sync : Command ℕ
  uart_getc_sync = do wait_for wait fuel uart_status_rx_ready; load uart_rx

unfoldable pub uart_putc : (Switch → Command (Unit {0})) → ℕ → ℕ → Command (Unit {0})
uart_putc run fuel c = do wait_for (yield run) fuel uart_status_tx_ready; store uart_tx c
