-- ===== src/Machine/State.antt =====
-- The device structs of machine/machine.c. A `Machine* m` that a device keeps is the board that the
-- device stands on, so it is no field here; `Machine` joins the board with the CPU's context.
-- An array is a function from the index, a byte a number below 256, a bool a Bool.
use cpu.Prelude.{ℕ, Bool}

pub record Rom : Type 0 where
  pub rom_enable : ℕ
  pub contents : ℕ → ℕ

pub record Uart : Type 0 where
  pub tx : ℕ
  pub rx : ℕ
  pub status : ℕ

-- The open disk image: its length and its bytes.
pub record DiskFile : Type 0 where
  pub size : ℕ
  pub byte : ℕ → ℕ

-- `delay` is the bit pattern of an int.
pub record Disk : Type 0 where
  pub file : DiskFile
  pub buffer : ℕ → ℕ
  pub cmd : ℕ
  pub status : ℕ
  pub lba_low : ℕ
  pub lba_high : ℕ
  pub delay : ℕ

pub record Mmu : Type 0 where
  pub page_table : ℕ → ℕ
  pub prev : ℕ
  pub watchdog : ℕ
  pub cause : ℕ
  pub va : ℕ
  pub opcode : ℕ
  pub in_user : Bool
  pub pending_nmi : Bool

pub record Timer : Type 0 where
  pub ctrl : ℕ
  pub latch_low : ℕ
  pub latch_high : ℕ
  pub counter_low : ℕ
  pub counter_high : ℕ

pub record Plic : Type 0 where
  pub interrupts_lines : ℕ
  pub pending_irq : Bool

-- All of `struct Machine` but the CPU.
pub record Board : Type 0 where
  pub ram : ℕ → ℕ
  pub rom : Rom
  pub uart : Uart
  pub disk : Disk
  pub mmu : Mmu
  pub timer : Timer
  pub plic : Plic
