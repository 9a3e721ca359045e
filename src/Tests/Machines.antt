-- ===== src/Tests/Machines.antt =====
-- The theorems on machine/machine.c at concrete boards, with a CPU that only stacks.
use cpu.Prelude.{
  ℕ, ◌+◌, ◌/◌, ◌%◌, ◌<◌, ◌≤◌, ◌-◌, ◌==◌, if◌then◌else◌, Bool, true, false, ◌≡◌, refl, arith, ◌⊎◌,
}
use cpu.Machine.Map.{
  disk_status_ready, disk_sector_size, disk_cmd_write, disk_cmd_read, disk_status_error,
}
use cpu.Machine.State.{Board}
use cpu.Machine.Core.{Core, Reads, Writes, running}
use cpu.Machine.Bus.{read, write, translate, read_physical}
use cpu.Machine.Bus.Ram.{read-write}
use cpu.Machine.Bus.Isolation.{Avoids, SameDevices, write-isolated}
use cpu.Machine.Devices.Countdown.{timer_period, timer_steps, set_counter, fired}
use cpu.Machine.Devices.Sectors.{run_command, read-write_sector, read_command_short}
use cpu.Machine.Opcodes.{valid_opcode}
use cpu.Machine.Mmu.{pre_exec, fetch}
use cpu.Machine.Mmu.Stacking.{Pushes, enter, Entry, returned, entered, HasEntries}
use cpu.Machine.Mmu.Interrupts.{pre_exec-double_trap}

-- The pages of a user program: frames 16 to 31, and SEI at address 0.
abbrev pub board : Board
board = record {
  ram = λ a. if a == 0x10000 then 0x78 else 0xea;
  rom = record { rom_enable = 0; contents = λ i. 0 };
  uart = record { tx = 0; rx = 0; status = 2 };
  disk = record {
    file = record { size = 0x10000; byte = λ i. 0 };
    buffer = λ i. 7;
    cmd = 0;
    status = 2;
    lba_low = 3;
    lba_high = 0;
    delay = 0;
  };
  mmu = record {
    page_table = λ i. i + 16;
    prev = 0;
    watchdog = 0;
    cause = 0;
    va = 0;
    opcode = 0;
    in_user = false;
    pending_nmi = false;
  };
  timer = record { ctrl = 1; latch_low = 100; latch_high = 0; counter_low = 2; counter_high = 0 };
  plic = record { interrupts_lines = 0; pending_irq = false };
}

abbrev pub pushes : Pushes
pushes = record {
  sp₁ = 0xfd;
  sp₂ = 0xfc;
  sp₃ = 0xfb;
  byte₁ = 0;
  byte₂ = 0;
  byte₃ = 0;
  sp₁_lt = omega arith;
  sp₂_lt = omega arith;
  sp₃_lt = omega arith;
}

-- The context is the program counter, and whether time is pending, when an NMI is only latched; interrupts
-- are enabled.
abbrev stacking : Core
stacking = record {
  Context = ℕ × Bool;
  pc = λ c. c.0;
  p = λ c. 0;
  initial = (0, false);
  reset = λ S r w c s. (c, s);
  exec_next = λ S r w c s. (running, (c.0 + 1, false), s);
  irq = λ S r w c s. ((c.0, true), enter S r w pushes 0xfffe s);
  nmi = λ S r w c s. (c, if c.1 then s else enter S r w pushes 0xfffa s);
}

nmi_Entry :
    (S : Type 0) (r : Reads S) (w : Writes S) (latched : Bool) (s : S)
    → Entry S r w 0xfffa s (if latched then s else enter S r w pushes 0xfffa s)
nmi_Entry S r w true s = returned
nmi_Entry S r w false s = entered pushes

stacking-HasEntries : HasEntries stacking
stacking-HasEntries = record {
  irq_entry = λ S r w c s. entered pushes;
  nmi_entry = λ S r w c s. nmi_Entry S r w c.1 s;
}

read-write_example : (read 0x1234 (write 0x1234 9 board)).0 ≡ 9
read-write_example = read-write board 0x1234 0x1234 9 (omega arith) (omega arith)

write-isolated_example :
    SameDevices board (write 0xfe20 1 board)
    × ((a : ℕ) → Avoids board.mmu (a / 4096) → (write 0xfe20 1 board).ram a ≡ board.ram a)
write-isolated_example = write-isolated board 0xfe20 1 (omega arith) (λ i h. omega arith)

timer_period_example :
    ((k : ℕ)
      → k < 2
      → timer_steps k board ≡ record board { timer = set_counter board.timer ((2 - k) % 65536) })
    × (timer_steps 2 board ≡ fired board)
timer_period_example = timer_period board (omega arith)

read_command_short_example :
    let b = record board { disk = record (board.disk) { lba_high = 1 } } in
    let b' = run_command disk_cmd_read 512 b in
    (b'.disk.status ≡ disk_status_error) × (b'.plic ≡ b.plic)
read_command_short_example =
    read_command_short 512 (record board { disk = record (board.disk) { lba_high = 1 } })
      (omega arith)

read-write_sector_example :
    let b₁ = run_command disk_cmd_write disk_sector_size board in
    let b₂ =
      run_command disk_cmd_read disk_sector_size
        (record b₁ { disk = record (b₁.disk) { buffer = λ i. 1 } }) in
    (b₁.disk.status ≡ disk_status_ready)
    × (b₂.disk.status ≡ disk_status_ready)
    × ((i : ℕ) → i < disk_sector_size → b₂.disk.buffer i ≡ 7)
    × ((j : ℕ) → j < 0x10000 → (j < 1536) ⊎ (1536 + disk_sector_size ≤ j) → b₂.disk.file.byte j ≡ 0)
read-write_sector_example = read-write_sector board (λ i. 1)

abbrev interrupted : Board
interrupted = record board { plic = record { interrupts_lines = 1; pending_irq = true } }

pre_exec-double_trap_example :
    (pre_exec stacking (record { cpu = (0, false); board = interrupted })).board.mmu.prev ≡ 15
unfolding fetch read read_physical translate valid_opcode
pre_exec-double_trap_example =
    pre_exec-double_trap stacking stacking-HasEntries
      (record { cpu = (0, false); board = interrupted }) (omega arith) refl refl refl
