-- ===== src/Machine/Devices/Ranges.antt =====
-- The device steps of machine/machine.c keep every register in the range of its C type.
use cpu.Prelude.{
  ℕ, ◌-◌, ◌+◌, ◌*◌, ◌<◌, ◌==◌, has, bit_or-lt, set_bits, Option, none, some, ◌≡◌, refl, sym, arith,
  inl, inr, Bool-cases,
}
use mathlib.Core.Path.{subst}
use cpu.Machine.Map.{
  plic_pin_timer, plic_pin_disk, plic_pin_uart_rx, uart_status_rx_ready, uart_status_tx_ready,
  disk_status_busy,
}
use cpu.Machine.State.{Board, Disk, Timer, Plic, Uart}
use cpu.Machine.Bus.Ranges.{InRange, DiskInRange, UartInRange, TimerInRange}
use cpu.Machine.Devices.{
  plic_raise, disk_read, disk_write, disk_transfer, disk_finish, disk_step, uart_receive,
  uart_transmit, uart_step, timer_step, lba_of, decrement, is_escape,
}

raised :
    (p : Plic) (pin : ℕ)
    → pin < 256
    → p.interrupts_lines < 256
    → (plic_raise p pin).interrupts_lines < 256
unfolding plic_raise
raised p pin small h = bit_or-lt p.interrupts_lines pin h small

-- A step of a device changes the device, and the lines of the PLIC.
timer_plic :
    (b : Board) (timer : Timer) (plic : Plic)
    → InRange b
    → TimerInRange timer
    → plic.interrupts_lines < 256
    → InRange (record b { timer = timer; plic = plic })
timer_plic b timer plic h t lines = record {
  ram = h.ram;
  rom = h.rom;
  uart = h.uart;
  disk = h.disk;
  mmu = h.mmu;
  timer = t;
  lines = lines;
}

timer_step-others :
    (b : Board)
    → timer_step b ≡ record b { timer = (timer_step b).timer; plic = (timer_step b).plic }
unfolding timer_step
timer_step-others b = ground arith

timer_step-timer : (b : Board) → TimerInRange b.timer → TimerInRange (timer_step b).timer
unfolding timer_step
timer_step-timer b h = record {
  ctrl = ground (arith, h.ctrl);
  latch_low = ground (arith, h.latch_low);
  latch_high = ground (arith, h.latch_high);
  counter_low = ground (arith, h.counter_low, h.latch_low);
  counter_high = ground (arith, h.counter_high, h.latch_high);
}

timer_step-lines :
    (b : Board) → b.plic.interrupts_lines < 256 → (timer_step b).plic.interrupts_lines < 256
unfolding timer_step
timer_step-lines b h = ground (arith, h, raised b.plic plic_pin_timer (omega arith) h)

pub timer_step-InRange : (b : Board) → InRange b → InRange (timer_step b)
timer_step-InRange b h = subst InRange (sym (timer_step-others b)) (
    timer_plic b (timer_step b).timer (timer_step b).plic h (timer_step-timer b h.timer)
      (timer_step-lines b h.lines))

-- A key that is a byte.
abbrev pub IsKey : Option ℕ → Type 0
IsKey key = (c : ℕ) → key ≡ some c → c < 256

uart_plic :
    (b : Board) (uart : Uart) (plic : Plic)
    → InRange b
    → UartInRange uart
    → plic.interrupts_lines < 256
    → InRange (record b { uart = uart; plic = plic })
uart_plic b uart plic h u lines = record {
  ram = h.ram;
  rom = h.rom;
  uart = u;
  disk = h.disk;
  mmu = h.mmu;
  timer = h.timer;
  lines = lines;
}

uart_receive-InRange :
    (key : Option ℕ) (b : Board) → IsKey key → InRange b → InRange (uart_receive key b)
unfolding uart_receive
uart_receive-InRange none b k h = h
uart_receive-InRange (some c) b k h =
    uart_plic b (record (b.uart) { rx = c; status = set_bits b.uart.status uart_status_rx_ready })
      (plic_raise b.plic plic_pin_uart_rx) h
      (record {
        tx = h.uart.tx;
        rx = k c refl;
        status = bit_or-lt b.uart.status uart_status_rx_ready h.uart.status (omega arith);
      })
      (raised b.plic plic_pin_uart_rx (omega arith) h.lines)

uart_transmit-InRange : (b : Board) → InRange b → InRange (uart_transmit b).1
unfolding uart_transmit
uart_transmit-InRange b h = elim (Bool-cases (has b.uart.status uart_status_tx_ready)) [
  | inl e ↦ rw e h
  | inr e ↦ rw e (
      uart_plic b (record (b.uart) { status = set_bits b.uart.status uart_status_tx_ready }) b.plic
        h
        (record {
          tx = h.uart.tx;
          rx = h.uart.rx;
          status = bit_or-lt b.uart.status uart_status_tx_ready h.uart.status (omega arith);
        })
        h.lines)
]

pub uart_step-InRange :
    (key : Option ℕ) (b : Board) → IsKey key → InRange b → InRange (uart_step key b).2
unfolding uart_step
uart_step-InRange key b k h = elim (Bool-cases (is_escape key)) [
  | inl e ↦ rw e h
  | inr e ↦ rw e (uart_transmit-InRange (uart_receive key b) (uart_receive-InRange key b k h))
]

disk_plic :
    (b : Board) (disk : Disk) (plic : Plic)
    → InRange b
    → DiskInRange disk
    → plic.interrupts_lines < 256
    → InRange (record b { disk = disk; plic = plic })
disk_plic b disk plic h d lines = record {
  ram = h.ram;
  rom = h.rom;
  uart = h.uart;
  disk = d;
  mmu = h.mmu;
  timer = h.timer;
  lines = lines;
}

disk_transfer-InRange :
    (written : ℕ) (d : Disk) → DiskInRange d → DiskInRange (disk_transfer written d).1
unfolding disk_transfer disk_read disk_write
disk_transfer-InRange written d h = record {
  file = λ j. ground (arith, h.file j, h.buffer (j - lba_of d * 512));
  buffer = λ i. ground (arith, h.buffer i, h.file (lba_of d * 512 + i));
  cmd = ground (arith, h.cmd);
  status = ground (arith, h.status);
  lba_low = ground (arith, h.lba_low);
  lba_high = ground (arith, h.lba_high);
  delay = ground (arith, h.delay);
}

disk_finish-InRange : (written : ℕ) (b : Board) → InRange b → InRange (disk_finish written b).1
unfolding disk_finish
disk_finish-InRange written b h =
    let (done, d) = disk_transfer written b.disk in
    let ranges = disk_transfer-InRange written b.disk h.disk in
    elim (Bool-cases done) [
      | inl e ↦ rw e (
          disk_plic b d (plic_raise b.plic plic_pin_disk) h ranges
            (raised b.plic plic_pin_disk (omega arith) h.lines))
      | inr e ↦ rw e (disk_plic b d b.plic h ranges h.lines)
    ]

counted :
    (b : Board)
    → InRange b
    → InRange (record b { disk = record (b.disk) { delay = decrement b.disk.delay } })
counted b h =
    disk_plic b (record (b.disk) { delay = decrement b.disk.delay }) b.plic h
      (record {
        file = h.disk.file;
        buffer = h.disk.buffer;
        cmd = h.disk.cmd;
        status = h.disk.status;
        lba_low = h.disk.lba_low;
        lba_high = h.disk.lba_high;
        delay = omega arith;
      })
      h.lines

pub disk_step-InRange : (written : ℕ) (b : Board) → InRange b → InRange (disk_step written b).1
unfolding disk_step
disk_step-InRange written b h =
    let b' = record b { disk = record (b.disk) { delay = decrement b.disk.delay } } in
    elim (Bool-cases (b.disk.status == disk_status_busy)) [
      | inl e ↦ elim (Bool-cases (b'.disk.delay == 0)) [
        | inl z ↦ rw (e, z) (disk_finish-InRange written b' (counted b h))
        | inr z ↦ rw (e, z) (counted b h)
      ]
      | inr e ↦ rw e h
    ]
