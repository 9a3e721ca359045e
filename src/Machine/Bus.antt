-- ===== src/Machine/Bus.antt =====
-- MMU_translate, Machine_read and Machine_write of machine/machine.c: the bus that the CPU drives.
pub mod Ram
pub mod Isolation
pub mod Ranges
use cpu.Prelude.{
  ℕ, ◌+◌, ◌-◌, ◌*◌, ◌/◌, ◌%◌, ◌==◌, ◌!=◌, ltb, within, if◌then◌else◌, update, clear_bits, ◌&&◌,
  true,
}
use cpu.Machine.Map.{
  ram_size, disk_buf, disk_stat, disk_cmd, disk_lba, uart_tx, uart_rx, uart_stat, mmu_page_table,
  mmu_prev_register, mmu_watchdog_register, mmu_cause_register, mmu_va_register_low,
  mmu_va_register_high, timer_latch_low, timer_latch_high, timer_counter_low, timer_counter_high,
  timer_ctrl, plic_interrupt_lines, rom_enable_register, rom_base, rom_size, disk_sector_size,
  disk_latency, mmu_page_table_size, mmu_frame_invalid, uart_status_rx_ready, uart_status_tx_ready,
  disk_cmd_read, disk_cmd_write, timer_enable_true, disk_status_busy, unmapped,
}
use cpu.Machine.State.{Mmu, Board, Disk, Timer}

-- MMU_translate: the physical address, and the MMU that has latched a violation. The frame and the
-- offset share no bit, so `(frame << 12) | offset` is their sum.
unfoldable pub translate : Mmu → ℕ → ℕ × Mmu
translate mmu va =
    let frame = mmu.page_table (va / 4096) in
    if frame == mmu_frame_invalid
    then (unmapped, record mmu { va = va; pending_nmi = true })
    else (frame * 4096 + va % 4096, mmu)

-- What Machine_read does at a physical address.
unfoldable pub read_physical : ℕ → Board → ℕ × Board
read_physical a b =
    if a == plic_interrupt_lines
    then (b.plic.interrupts_lines, b)
    else if a == timer_ctrl
    then (b.timer.ctrl, b)
    else if a == timer_latch_high
    then (b.timer.latch_high, b)
    else if a == timer_latch_low
    then (b.timer.latch_low, b)
    else if a == timer_counter_high
    then (b.timer.counter_high, b)
    else if a == timer_counter_low
    then (b.timer.counter_low, b)
    else if within mmu_page_table (mmu_page_table + mmu_page_table_size) a
    then (b.mmu.page_table (a - mmu_page_table), b)
    else if a == mmu_prev_register
    then (b.mmu.prev, b)
    else if a == mmu_watchdog_register
    then (b.mmu.watchdog, b)
    else if a == mmu_cause_register
    then (b.mmu.cause, b)
    else if a == mmu_va_register_low
    then (b.mmu.va % 256, b)
    else if a == mmu_va_register_high
    then (b.mmu.va / 256, b)
    else if a == rom_enable_register
    then (b.rom.rom_enable, b)
    else if within rom_base (rom_base + rom_size) a && (b.rom.rom_enable != 0)
    then (b.rom.contents (a - rom_base), b)
    else if within disk_buf (disk_buf + disk_sector_size) a
    then (b.disk.buffer (a - disk_buf), b)
    else if a == disk_cmd
    then (b.disk.cmd, b)
    else if a == disk_stat
    then (b.disk.status, b)
    else if a == disk_lba
    then (b.disk.lba_low, b)
    else if a == disk_lba + 1
    then (b.disk.lba_high, b)
    else if a == uart_rx
    then (
      b.uart.rx,
      record b {
        uart = record (b.uart) { status = clear_bits b.uart.status uart_status_rx_ready };
      },
    )
    else if a == uart_tx
    then (b.uart.tx, b)
    else if a == uart_stat
    then (b.uart.status, b)
    else if ltb a ram_size
    then (b.ram a, b)
    else (0xff, b)

-- Machine_read with a context: through the MMU, then by physical address.
unfoldable pub read : ℕ → Board → ℕ × Board
read addr b = let (a, mmu) = translate b.mmu addr in read_physical a (record b { mmu = mmu })

-- The write to the disk's command register: a read or a write starts the delay.
unfoldable pub write_disk_cmd : Disk → ℕ → Disk
write_disk_cmd d byte =
    if byte == disk_cmd_read
    then record d { cmd = byte; status = disk_status_busy; delay = disk_latency }
    else if byte == disk_cmd_write
    then record d { cmd = byte; status = disk_status_busy; delay = disk_latency }
    else record d { cmd = byte }

-- The write to the timer's control register: enabling it reloads the counter.
unfoldable pub write_timer_ctrl : Timer → ℕ → Timer
write_timer_ctrl t byte =
    if byte == timer_enable_true
    then record t { ctrl = byte; counter_high = t.latch_high; counter_low = t.latch_low }
    else record t { ctrl = byte }

-- What Machine_write does at a physical address.
unfoldable pub write_physical : ℕ → ℕ → Board → Board
unfolding write_disk_cmd write_timer_ctrl
write_physical a byte b =
    if a == plic_interrupt_lines
    then record b { plic = record (b.plic) { interrupts_lines = byte } }
    else if a == timer_ctrl
    then record b { timer = write_timer_ctrl b.timer byte }
    else if a == timer_latch_high
    then record b { timer = record (b.timer) { latch_high = byte } }
    else if a == timer_latch_low
    then record b { timer = record (b.timer) { latch_low = byte } }
    else if a == timer_counter_high
    then record b { timer = record (b.timer) { counter_high = byte } }
    else if a == timer_counter_low
    then record b { timer = record (b.timer) { counter_low = byte } }
    else if within mmu_page_table (mmu_page_table + mmu_page_table_size) a
    then record b {
      mmu = record (b.mmu) { page_table = update b.mmu.page_table (a - mmu_page_table) byte };
    }
    else if a == mmu_prev_register
    then record b { mmu = record (b.mmu) { prev = byte } }
    else if a == mmu_cause_register
    then record b { mmu = record (b.mmu) { cause = byte } }
    else if a == rom_enable_register
    then record b { rom = record (b.rom) { rom_enable = byte } }
    else if within disk_buf (disk_buf + disk_sector_size) a
    then record b { disk = record (b.disk) { buffer = update b.disk.buffer (a - disk_buf) byte } }
    else if a == disk_cmd
    then record b { disk = write_disk_cmd b.disk byte }
    else if a == disk_lba
    then record b { disk = record (b.disk) { lba_low = byte } }
    else if a == disk_lba + 1
    then record b { disk = record (b.disk) { lba_high = byte } }
    else if a == uart_tx
    then record b {
      uart = record (b.uart) { tx = byte; status = clear_bits b.uart.status uart_status_tx_ready };
    }
    else if ltb a ram_size
    then record b { ram = update b.ram a byte }
    else b

-- Machine_write with a context.
unfoldable pub write : ℕ → ℕ → Board → Board
write addr byte b =
    let (a, mmu) = translate b.mmu addr in write_physical a byte (record b { mmu = mmu })
