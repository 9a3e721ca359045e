-- ===== src/Machine/Bus/Ranges.antt =====
-- The bus of machine/machine.c keeps every register, byte and latch in the range of its C type.
use cpu.Prelude.{ℕ, ◌-◌, ◌^◌, ◌<◌, bit_and-lt, ◌≡◌, sym, arith}
use mathlib.Core.Path.{subst}
use cpu.Machine.Map.{
  rom_base, disk_buf, mmu_page_table, mmu_page_table_size, uart_status_rx_ready,
  uart_status_tx_ready,
}
use cpu.Machine.State.{Board, Rom, Uart, Disk, Mmu, Timer}
use cpu.Machine.Bus.{translate, read_physical, write_physical, read, write}

pub record RomInRange (r : Rom) : Type 0 where
  pub rom_enable : r.rom_enable < 256
  pub contents : (i : ℕ) → r.contents i < 256

pub record UartInRange (u : Uart) : Type 0 where
  pub tx : u.tx < 256
  pub rx : u.rx < 256
  pub status : u.status < 256

pub record DiskInRange (d : Disk) : Type 0 where
  pub file : (j : ℕ) → d.file.byte j < 256
  pub buffer : (i : ℕ) → d.buffer i < 256
  pub cmd : d.cmd < 256
  pub status : d.status < 256
  pub lba_low : d.lba_low < 256
  pub lba_high : d.lba_high < 256
  pub delay : d.delay < 2 ^ 32

pub record MmuInRange (m : Mmu) : Type 0 where
  pub page_table : (i : ℕ) → i < mmu_page_table_size → m.page_table i < 256
  pub prev : m.prev < 256
  pub watchdog : m.watchdog < 256
  pub cause : m.cause < 256
  pub va : m.va < 0x10000
  pub opcode : m.opcode < 256

pub record TimerInRange (t : Timer) : Type 0 where
  pub ctrl : t.ctrl < 256
  pub latch_low : t.latch_low < 256
  pub latch_high : t.latch_high < 256
  pub counter_low : t.counter_low < 256
  pub counter_high : t.counter_high < 256

-- The ranges of the C types.
pub record InRange (b : Board) : Type 0 where
  pub ram : (a : ℕ) → b.ram a < 256
  pub rom : RomInRange b.rom
  pub uart : UartInRange b.uart
  pub disk : DiskInRange b.disk
  pub mmu : MmuInRange b.mmu
  pub timer : TimerInRange b.timer
  pub lines : b.plic.interrupts_lines < 256

-- A change of the MMU alone.
pub mmu-InRange :
    (b : Board) (mmu : Mmu) → InRange b → MmuInRange mmu → InRange (record b { mmu = mmu })
mmu-InRange b mmu h m = record {
  ram = h.ram;
  rom = h.rom;
  uart = h.uart;
  disk = h.disk;
  mmu = m;
  timer = h.timer;
  lines = h.lines;
}

-- The write by physical address, device by device.
module _ (a v : ℕ) (b : Board) (byte : v < 256) where
  written-ram : ((j : ℕ) → b.ram j < 256) → (j : ℕ) → (write_physical a v b).ram j < 256
  unfolding write_physical cpu.Machine.Bus.write_disk_cmd cpu.Machine.Bus.write_timer_ctrl
  written-ram h j = ground (arith, h j, byte)

  written-rom : RomInRange b.rom → RomInRange (write_physical a v b).rom
  unfolding write_physical cpu.Machine.Bus.write_disk_cmd cpu.Machine.Bus.write_timer_ctrl
  written-rom h = record {
    rom_enable = ground (arith, h.rom_enable, byte);
    contents = λ j. ground (arith, h.contents j);
  }

  written-uart : UartInRange b.uart → UartInRange (write_physical a v b).uart
  unfolding write_physical cpu.Machine.Bus.write_disk_cmd cpu.Machine.Bus.write_timer_ctrl
  written-uart h = record {
    tx = ground (arith, h.tx, byte);
    rx = ground (arith, h.rx);
    status = ground (
      arith,
      h.status,
      bit_and-lt b.uart.status (255 - uart_status_tx_ready) h.status (omega arith),
    );
  }

  written-disk : DiskInRange b.disk → DiskInRange (write_physical a v b).disk
  unfolding write_physical cpu.Machine.Bus.write_disk_cmd cpu.Machine.Bus.write_timer_ctrl
  written-disk h = record {
    file = λ j. ground (arith, h.file j);
    buffer = λ j. ground (arith, h.buffer j, byte);
    cmd = ground (arith, h.cmd, byte);
    status = ground (arith, h.status);
    lba_low = ground (arith, h.lba_low, byte);
    lba_high = ground (arith, h.lba_high, byte);
    delay = ground (arith, h.delay);
  }

  written-mmu : MmuInRange b.mmu → MmuInRange (write_physical a v b).mmu
  unfolding write_physical cpu.Machine.Bus.write_disk_cmd cpu.Machine.Bus.write_timer_ctrl
  written-mmu h = record {
    page_table = λ j small. ground (arith, h.page_table j small, byte);
    prev = ground (arith, h.prev, byte);
    watchdog = ground (arith, h.watchdog);
    cause = ground (arith, h.cause, byte);
    va = ground (arith, h.va);
    opcode = ground (arith, h.opcode);
  }

  written-timer : TimerInRange b.timer → TimerInRange (write_physical a v b).timer
  unfolding write_physical cpu.Machine.Bus.write_disk_cmd cpu.Machine.Bus.write_timer_ctrl
  written-timer h = record {
    ctrl = ground (arith, h.ctrl, byte);
    latch_low = ground (arith, h.latch_low, byte);
    latch_high = ground (arith, h.latch_high, byte);
    counter_low = ground (arith, h.counter_low, h.latch_low, byte);
    counter_high = ground (arith, h.counter_high, h.latch_high, byte);
  }

  written-lines : b.plic.interrupts_lines < 256 → (write_physical a v b).plic.interrupts_lines < 256
  unfolding write_physical cpu.Machine.Bus.write_disk_cmd cpu.Machine.Bus.write_timer_ctrl
  written-lines h = ground (arith, h, byte)

  write_physical-InRange : InRange b → InRange (write_physical a v b)
  write_physical-InRange h = record {
    ram = written-ram h.ram;
    rom = written-rom h.rom;
    uart = written-uart h.uart;
    disk = written-disk h.disk;
    mmu = written-mmu h.mmu;
    timer = written-timer h.timer;
    lines = written-lines h.lines;
  }

translate-InRange : (a : ℕ) (m : Mmu) → a < 0x10000 → MmuInRange m → MmuInRange (translate m a).1
unfolding translate
translate-InRange a m small h = record {
  page_table = λ i inside. ground (arith, h.page_table i inside);
  prev = ground (arith, h.prev);
  watchdog = ground (arith, h.watchdog);
  cause = ground (arith, h.cause);
  va = ground (arith, h.va, small);
  opcode = ground (arith, h.opcode);
}

-- A read changes nothing but the status of the UART.
read_physical-others :
    (a : ℕ) (b : Board) → (read_physical a b).1 ≡ record b { uart = (read_physical a b).1.uart }
unfolding read_physical
read_physical-others a b = ground arith

read_physical-uart :
    (a : ℕ) (b : Board) → UartInRange b.uart → UartInRange (read_physical a b).1.uart
unfolding read_physical
read_physical-uart a b h = record {
  tx = ground (arith, h.tx);
  rx = ground (arith, h.rx);
  status = ground (
    arith,
    h.status,
    bit_and-lt b.uart.status (255 - uart_status_rx_ready) h.status (omega arith),
  );
}

read_physical-InRange : (a : ℕ) (b : Board) → InRange b → InRange (read_physical a b).1
read_physical-InRange a b h = subst InRange (sym (read_physical-others a b)) (record {
  ram = h.ram;
  rom = h.rom;
  uart = read_physical-uart a b h.uart;
  disk = h.disk;
  mmu = h.mmu;
  timer = h.timer;
  lines = h.lines;
})

read_physical-lt : (a : ℕ) (b : Board) → InRange b → (read_physical a b).0 < 256
unfolding read_physical
read_physical-lt a b h = ground (
  arith,
  h.ram a,
  h.rom.contents (a - rom_base),
  h.disk.buffer (a - disk_buf),
  h.mmu.page_table (a - mmu_page_table),
  h.uart,
  h.rom.rom_enable,
  h.disk,
  h.mmu,
  h.timer,
  h.lines,
)

module _ (a : ℕ) (b : Board) (small : a < 0x10000) (h : InRange b) where
  translated : InRange (record b { mmu = (translate b.mmu a).1 })
  translated = mmu-InRange b (translate b.mmu a).1 h (translate-InRange a b.mmu small h.mmu)

  pub read-InRange : InRange (read a b).1
  unfolding read
  read-InRange =
      read_physical-InRange (translate b.mmu a).0 (record b { mmu = (translate b.mmu a).1 })
        translated

  pub read-lt : (read a b).0 < 256
  unfolding read
  read-lt =
      read_physical-lt (translate b.mmu a).0 (record b { mmu = (translate b.mmu a).1 }) translated

  pub write-InRange : (v : ℕ) → v < 256 → InRange (write a v b)
  unfolding write
  write-InRange v byte =
      write_physical-InRange (translate b.mmu a).0 v (record b { mmu = (translate b.mmu a).1 }) byte
        translated
