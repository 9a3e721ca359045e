-- ===== src/Kernel/Uart/Display.antt =====
-- uart_putc_sync of kernel/uart.c on the emulated UART, whose display takes a character in each round of
-- the busy wait.
use cpu.Prelude.{
  ℕ, suc, ◌<◌, if◌then◌else◌, has, set_bits, clear_bits, has-set_bits, bit_and-lt, bit_or-lt, false,
  some, ◌≡◌, refl, arith, inl, inr, Bool-cases,
}
use cpu.Machine.State.{Uart}
use cpu.Machine.Map.{uart_stat, uart_tx, uart_status_tx_ready}
use cpu.Machine.Bus.{read, write, translate, read_physical, write_physical}
use cpu.Machine.Devices.{uart_transmit}
use cpu.Kernel.State.{Kernel}
use cpu.Kernel.Command.{Command, load, store}
use cpu.Kernel.Uart.{wait_for, uart_putc_sync}

-- A round of waiting: the display shows what was written.
unfoldable pub display : Command (Unit {0})
display k = some (tt, record k { board = (uart_transmit k.board).1 })

abbrev pub with_uart : Kernel → Uart → Kernel
with_uart k u = record k { board = record (k.board) { uart = u } }

-- The UART when the display has shown what was written, and when the next character is written.
abbrev pub shown : Uart → Uart
shown u =
    if has u.status uart_status_tx_ready
    then u
    else record u { status = set_bits u.status uart_status_tx_ready }

abbrev pub sent : ℕ → Uart → Uart
sent c u = record (shown u) { tx = c; status = clear_bits (shown u).status uart_status_tx_ready }

load-uart_stat :
    (k : Kernel) → k.board.mmu.page_table 15 ≡ 15 → load uart_stat k ≡ some (k.board.uart.status, k)
unfolding load read translate read_physical
load-uart_stat k h = ground (arith, h)

store-uart_tx :
    (k : Kernel) (c : ℕ)
    → k.board.mmu.page_table 15 ≡ 15
    → store uart_tx c k
      ≡ some (
        tt,
        with_uart k (record (k.board.uart) {
          tx = c;
          status = clear_bits k.board.uart.status uart_status_tx_ready;
        }),
      )
unfolding store write translate write_physical
store-uart_tx k c h = ground (arith, h)

display-unready :
    (k : Kernel)
    → has k.board.uart.status uart_status_tx_ready ≡ false
    → display k
      ≡ some (
        tt,
        with_uart k
            (record (k.board.uart) { status = set_bits k.board.uart.status uart_status_tx_ready }),
      )
unfolding display uart_transmit
display-unready k e = rw e refl

module _ (k : Kernel) (h : k.board.mmu.page_table 15 ≡ 15) where
  -- Two rounds are enough: the display makes the register ready in the first.
  waited :
      (fuel : ℕ)
      → k.board.uart.status < 256
      → wait_for display (suc (suc fuel)) uart_status_tx_ready k
        ≡ some (tt, with_uart k (shown k.board.uart))
  unfolding wait_for
  waited fuel byte = elim (Bool-cases (has k.board.uart.status uart_status_tx_ready)) [
    | inl e ↦ rw (load-uart_stat k h, e) refl
    | inr e ↦
        let u = record (k.board.uart) {
          status = set_bits k.board.uart.status uart_status_tx_ready;
        } in
        rw (load-uart_stat k h, e, display-unready k e)
          (rw
            (
              load-uart_stat (with_uart k u) h,
              has-set_bits k.board.uart.status uart_status_tx_ready byte (omega arith)
                  (omega arith),
            )
            refl)
  ]

  pub uart_putc_sync_lem :
      (fuel c : ℕ)
      → k.board.uart.status < 256
      → uart_putc_sync display (suc (suc fuel)) c k ≡ some (tt, with_uart k (sent c k.board.uart))
  unfolding uart_putc_sync
  uart_putc_sync_lem fuel c byte =
      rw (waited fuel byte) (store-uart_tx (with_uart k (shown k.board.uart)) c h)

pub sent-lt : (c : ℕ) (u : Uart) → u.status < 256 → (sent c u).status < 256
sent-lt c u byte = elim (Bool-cases (has u.status uart_status_tx_ready)) [
  | inl e ↦ rw e (bit_and-lt u.status 253 byte (omega arith))
  | inr e ↦
      rw e (
        bit_and-lt (set_bits u.status 2) 253 (bit_or-lt u.status 2 byte (omega arith))
          (omega arith))
]
