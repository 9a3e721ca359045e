-- ===== src/Machine/Create.antt =====
-- The constructors and destructors of machine/machine.c, and the loop of its main. A calloc or an fopen that
-- may fail is a field of Host. A null pointer that is followed ends the model's run.
pub mod Started
pub mod Runs
pub mod Missing
pub mod Whole
use cpu.Prelude.{
  ℕ, ◌+◌, ◌==◌, ◌!=◌, ltb, within, min, if◌then◌else◌, Bool, true, false, not, ◌&&◌, ◌||◌, Option,
  none, some, List, [], ◌∷◌,
}
use mathlib.Core.Option.{get_or}
use cpu.Machine.Map.{
  mmu_page_table, mmu_page_table_size, mmu_prev_register, mmu_watchdog_register, mmu_cause_register,
  mmu_va_register_low, mmu_va_register_high, ram_size, rom_base, rom_size, rom_enable_register,
  disk_buf, disk_cmd, disk_stat, disk_lba, disk_sector_size, uart_rx, uart_tx, uart_stat,
  plic_interrupt_lines, timer_ctrl, timer_latch_high, timer_latch_low, timer_counter_high,
  timer_counter_low, timer_enable_false,
}
use cpu.Machine.State.{Board, Rom, Uart, DiskFile, Disk, Mmu, Timer, Plic}
use cpu.Machine.Core.{Core, Machine}
use cpu.Machine.Bus.{translate, read, write}
use cpu.Machine.Step.{Event, machine_step}

-- Which calls of calloc give memory, and what fopen and fread give of the two files.
pub record Host : Type 0 where
  pub machine : Bool
  pub ram : Bool
  pub ram_data : Bool
  pub rom : Bool
  pub rom_data : Bool
  pub rom_image : Option DiskFile
  pub uart : Bool
  pub disk : Bool
  pub disk_image : Option DiskFile
  pub timer : Bool
  pub mmu : Bool
  pub plic : Bool
  pub cpu : Bool

-- The pointers of `struct Machine` but the CPU's; NULL is `none`.
pub record Parts : Type 0 where
  pub ram : Option (ℕ → ℕ)
  pub rom : Option Rom
  pub uart : Option Uart
  pub disk : Option Disk
  pub timer : Option Timer
  pub mmu : Option Mmu
  pub plic : Option Plic

abbrev pub exists {ℓ} : {A : Type ℓ} → Option A → Bool
exists none = false
exists (some x) = true

unfoldable pub ram_create : Host → Option (ℕ → ℕ)
ram_create h = if h.ram && h.ram_data then some (λ a. 0) else none

-- ROM_ENABLE_TRUE
abbrev pub rom_enable_true : ℕ
rom_enable_true = 1

-- fread takes at most ROM_SIZE bytes; what the image lacks stays 0.
abbrev pub rom_of : DiskFile → Rom
rom_of image = record {
  rom_enable = rom_enable_true;
  contents = λ i. if ltb i (min image.size rom_size) then image.byte i else 0;
}

abbrev pub opened {ℓ} : {A : Type ℓ} → Option DiskFile → (DiskFile → A) → Option A
opened none f = none
opened (some image) f = some (f image)

unfoldable pub rom_create : Host → Option Rom
rom_create h = if h.rom && h.rom_data then opened h.rom_image rom_of else none

abbrev pub new_uart : Uart
new_uart = record { tx = 0; rx = 0; status = 0 }

unfoldable pub uart_create : Host → Option Uart
uart_create h = if h.uart then some new_uart else none

-- `~DISK_STATUS_NONE` as a uint8_t
abbrev pub disk_status_all : ℕ
disk_status_all = 0xff

abbrev pub new_disk : DiskFile → Disk
new_disk image = record {
  file = image;
  buffer = λ i. 0;
  cmd = 0;
  status = disk_status_all;
  lba_low = 0;
  lba_high = 0;
  delay = 0;
}

unfoldable pub disk_create : Host → Option Disk
disk_create h = if h.disk then opened h.disk_image new_disk else none

abbrev pub new_mmu : Mmu
new_mmu = record {
  page_table = λ i. i;
  prev = 0;
  watchdog = 0;
  cause = 0;
  va = 0;
  opcode = 0;
  in_user = false;
  pending_nmi = false;
}

unfoldable pub mmu_create : Host → Option Mmu
mmu_create h = if h.mmu then some new_mmu else none

abbrev pub new_timer : Timer
new_timer = record {
  ctrl = timer_enable_false;
  latch_low = 0;
  latch_high = 0;
  counter_low = 0;
  counter_high = 0;
}

unfoldable pub timer_create : Host → Option Timer
timer_create h = if h.timer then some new_timer else none

abbrev pub new_plic : Plic
new_plic = record { interrupts_lines = 0; pending_irq = false }

unfoldable pub plic_create : Host → Option Plic
plic_create h = if h.plic then some new_plic else none

unfoldable pub create_parts : Host → Parts
unfolding ram_create rom_create uart_create disk_create timer_create mmu_create plic_create
create_parts h = record {
  ram = ram_create h;
  rom = rom_create h;
  uart = uart_create h;
  disk = disk_create h;
  timer = timer_create h;
  mmu = mmu_create h;
  plic = plic_create h;
}

-- The test for NULL after the constructors.
abbrev pub all_exist : Parts → Bool
all_exist p =
    exists p.ram
    && (exists p.rom
        && (exists p.uart
            && (exists p.disk && (exists p.timer && (exists p.mmu && exists p.plic)))))

-- The parts as a board. What stands for a part that is missing is not used: an access to it follows NULL.
abbrev pub board_of : Parts → Board
board_of p = record {
  ram = get_or p.ram (λ a. 0);
  rom = get_or p.rom (record { rom_enable = 0; contents = λ i. 0 });
  uart = get_or p.uart new_uart;
  disk = get_or p.disk (new_disk (record { size = 0; byte = λ i. 0 }));
  mmu = get_or p.mmu new_mmu;
  timer = get_or p.timer new_timer;
  plic = get_or p.plic new_plic;
}

abbrev pub in_timer : ℕ → Bool
in_timer a =
    (a == timer_ctrl)
    || ((a == timer_latch_high)
        || ((a == timer_latch_low) || ((a == timer_counter_high) || (a == timer_counter_low))))

-- Whether the pointers that Machine_read follows at a physical address are not NULL.
unfoldable pub can_read : Parts → Board → ℕ → Bool
can_read p b a =
    if a == plic_interrupt_lines
    then exists p.plic
    else if in_timer a
    then exists p.timer
    else if within mmu_page_table (mmu_page_table + mmu_page_table_size) a
        || ((a == mmu_prev_register)
            || ((a == mmu_watchdog_register)
                || ((a == mmu_cause_register)
                    || ((a == mmu_va_register_low) || (a == mmu_va_register_high)))))
    then exists p.mmu
    else if a == rom_enable_register
    then exists p.rom
    else if within rom_base (rom_base + rom_size) a
    then exists p.rom && ((b.rom.rom_enable != 0) || exists p.ram)
    else if within disk_buf (disk_buf + disk_sector_size) a
        || ((a == disk_cmd) || ((a == disk_stat) || ((a == disk_lba) || (a == disk_lba + 1))))
    then exists p.disk
    else if (a == uart_rx) || ((a == uart_tx) || (a == uart_stat))
    then exists p.uart
    else if ltb a ram_size
    then exists p.ram
    else true

-- The same of Machine_write.
unfoldable pub can_write : Parts → ℕ → Bool
can_write p a =
    if a == plic_interrupt_lines
    then exists p.plic
    else if in_timer a
    then exists p.timer
    else if within mmu_page_table (mmu_page_table + mmu_page_table_size) a
        || ((a == mmu_prev_register) || (a == mmu_cause_register))
    then exists p.mmu
    else if a == rom_enable_register
    then exists p.rom
    else if within disk_buf (disk_buf + disk_sector_size) a
        || ((a == disk_cmd) || ((a == disk_lba) || (a == disk_lba + 1)))
    then exists p.disk
    else if a == uart_tx
    then exists p.uart
    else if ltb a ram_size
    then exists p.ram
    else true

-- The callbacks while parts may be missing. The Bool says that no null pointer has been followed.
unfoldable pub read_part : Parts → ℕ → Bool × Board → ℕ × (Bool × Board)
unfolding can_read
read_part p addr (valid, b) =
    let (value, b') = read addr b in
    (value, (valid && (exists p.mmu && can_read p b (translate b.mmu addr).0), b'))

unfoldable pub write_part : Parts → ℕ → ℕ → Bool × Board → Bool × Board
unfolding can_write
write_part p addr byte (valid, b) =
    (valid && (exists p.mmu && can_write p (translate b.mmu addr).0), write addr byte b)

-- Whether the destructors that look into their argument, `rom->data`, `ram->data` and `disk->file`, get one
-- that is not NULL. The others only free it.
abbrev pub rom_destroy : Option Rom → Bool
rom_destroy rom = exists rom

abbrev pub ram_destroy : Option (ℕ → ℕ) → Bool
ram_destroy ram = exists ram

abbrev pub disk_destroy : Option Disk → Bool
disk_destroy disk = exists disk

-- Machine_destroy
abbrev pub can_destroy : Parts → Bool
can_destroy p = rom_destroy p.rom && (ram_destroy p.ram && disk_destroy p.disk)

module _ (core : Core) where
  -- What Machine_create ends with; NULL is `refused`.
  pub data Created : Type 0 where
    created : Machine core → Created
    refused : Created
    null_access : Created

  -- CPU_create: without memory for the CPU it is not reset.
  unfoldable pub cpu_create : Host → Parts → core.Context × (Bool × Board)
  unfolding read_part write_part
  cpu_create h p =
      if h.cpu
      then core.reset (Bool × Board) (read_part p) (write_part p) core.initial (true, board_of p)
      else (core.initial, (true, board_of p))

  unfoldable pub machine_create : Host → Created
  unfolding create_parts cpu_create
  machine_create h =
      let p = create_parts h in
      let (cpu, (valid, b)) = cpu_create h p in
      if not h.machine
      then refused
      else if not valid
      then null_access
      else if all_exist p && h.cpu
      then created (record { cpu = cpu; board = b })
      else if can_destroy p
      then refused
      else null_access

  -- `while(Machine_step(m));` over what the world does in each step, as far as it is given.
  unfoldable pub run : List Event → Machine core → Machine core
  run [] m = m
  run (e ∷ es) m =
      let (on, shown, m') = machine_step core e m in let rest = run es m' in if on then rest else m'
