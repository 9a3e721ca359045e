-- ===== src/Machine/Devices.antt =====
-- PLIC_raise, PLIC_lower, Disk_step, Uart_step and Timer_step of machine/machine.c. What a step
-- reads from or writes to the terminal is an argument and a result.
pub mod Countdown
pub mod Sectors
pub mod Ranges
use cpu.Prelude.{
  ℕ, ◌+◌, ◌-◌, ◌*◌, ◌/◌, ◌%◌, ◌^◌, ◌==◌, ltb, if◌then◌else◌, min, has, set_bits, Bool, true, false,
  Option, none, some, not,
}
use cpu.Machine.Map.{
  disk_sector_size, disk_cmd_read, disk_cmd_write, disk_status_busy, disk_status_ready,
  disk_status_error, uart_status_rx_ready, uart_status_tx_ready, timer_enable_false, plic_pin_timer,
  plic_pin_uart_rx, plic_pin_disk,
}
use cpu.Machine.State.{Board, Disk, DiskFile, Timer, Plic}

unfoldable pub plic_raise : Plic → ℕ → Plic
plic_raise plic pin = record plic {
  pending_irq = true;
  interrupts_lines = set_bits plic.interrupts_lines pin;
}

unfoldable pub plic_lower : Plic → Plic
plic_lower plic = record plic { pending_irq = false }

-- `(lba_high << 8) | lba_low` for two bytes.
abbrev pub lba_of : Disk → ℕ
lba_of d = d.lba_high * 256 + d.lba_low

-- fread of a sector at `offset`: as many bytes as the file still has, into the front of the buffer.
abbrev pub file_count : DiskFile → ℕ → ℕ
file_count f offset = min disk_sector_size (f.size - offset)

abbrev pub file_read : DiskFile → ℕ → (ℕ → ℕ) → ℕ → ℕ
file_read f offset buffer i = if ltb i (file_count f offset) then f.byte (offset + i) else buffer i

-- fwrite of a sector at `offset`, of which the host takes `count` bytes: the file grows where they
-- end behind it, and a gap reads 0.
abbrev pub file_write : DiskFile → ℕ → ℕ → (ℕ → ℕ) → DiskFile
file_write f offset count buffer = record {
  size = if ltb f.size (offset + count) then offset + count else f.size;
  byte = λ j.
      if ltb j offset
      then if ltb j f.size then f.byte j else 0
      else if ltb j (offset + count)
      then buffer (j - offset)
      else f.byte j;
}

-- `--delay` on the bit pattern of an int.
abbrev pub decrement : ℕ → ℕ
decrement delay = (delay + (2 ^ 32 - 1)) % 2 ^ 32

-- The two transfers that Disk_step makes. The Bool is false for the early return after a sector
-- that is read or written short. `written` is what fwrite returns.
unfoldable pub disk_read : Disk → Bool × Disk
disk_read d =
    let offset = lba_of d * disk_sector_size in
    let d' = record d { buffer = file_read d.file offset d.buffer } in
    if file_count d.file offset == disk_sector_size
    then (true, record d' { status = disk_status_ready })
    else (false, record d' { status = disk_status_error })

unfoldable pub disk_write : ℕ → Disk → Bool × Disk
disk_write written d =
    let offset = lba_of d * disk_sector_size in
    let d' = record d { file = file_write d.file offset written d.buffer } in
    if written == disk_sector_size
    then (true, record d' { status = disk_status_ready })
    else (false, record d' { status = disk_status_error })

-- What is done when the delay has run down.
unfoldable pub disk_transfer : ℕ → Disk → Bool × Disk
unfolding disk_read disk_write
disk_transfer written d =
    if d.cmd == disk_cmd_read
    then disk_read d
    else if d.cmd == disk_cmd_write
    then disk_write written d
    else (true, record d { status = disk_status_error })

-- The interrupt is raised unless the transfer returned early.
unfoldable pub disk_finish : ℕ → Board → Bool × Board
unfolding disk_transfer plic_raise
disk_finish written b =
    let (done, d) = disk_transfer written b.disk in
    if done
    then (true, record b { disk = d; plic = plic_raise b.plic plic_pin_disk })
    else (false, record b { disk = d })

unfoldable pub disk_step : ℕ → Board → Bool × Board
unfolding disk_finish
disk_step written b =
    let b' = record b { disk = record (b.disk) { delay = decrement b.disk.delay } } in
    if b.disk.status == disk_status_busy
    then if b'.disk.delay == 0 then disk_finish written b' else (true, b')
    else (true, b)

-- A key that was typed, unless it is ESC: into the receive register, with an interrupt.
unfoldable pub uart_receive : Option ℕ → Board → Board
unfolding plic_raise
uart_receive none b = b
uart_receive (some c) b = record b {
  uart = record (b.uart) { rx = c; status = set_bits b.uart.status uart_status_rx_ready };
  plic = plic_raise b.plic plic_pin_uart_rx;
}

-- The display: what is shown, if the program has written the transmit register.
unfoldable pub uart_transmit : Board → Option ℕ × Board
uart_transmit b =
    if not (has b.uart.status uart_status_tx_ready)
    then (
      some b.uart.tx,
      record b { uart = record (b.uart) { status = set_bits b.uart.status uart_status_tx_ready } },
    )
    else (none, b)

-- ESC switches the computer off before anything else is done.
abbrev pub is_escape : Option ℕ → Bool
is_escape none = false
is_escape (some c) = c == 0x1b

-- The Bool is false for power-off.
unfoldable pub uart_step : Option ℕ → Board → Bool × Option ℕ × Board
unfolding uart_receive uart_transmit
uart_step key b =
    if is_escape key
    then (false, none, b)
    else (let (shown, b') = uart_transmit (uart_receive key b) in (true, shown, b'))

abbrev pub counter_of : Timer → ℕ
counter_of t = t.counter_high * 256 + t.counter_low

unfoldable pub timer_step : Board → Board
unfolding plic_raise
timer_step b =
    let counter = (counter_of b.timer + 65535) % 65536 in
    if b.timer.ctrl == timer_enable_false
    then b
    else if counter == 0
    then record b {
      timer = record (b.timer) {
        counter_high = b.timer.latch_high;
        counter_low = b.timer.latch_low;
      };
      plic = plic_raise b.plic plic_pin_timer;
    }
    else record b {
      timer = record (b.timer) { counter_high = counter / 256; counter_low = counter % 256 };
    }
