-- ===== src/Machine/Step/Access.antt =====
-- The CPU emulator reaches what is behind its callbacks only by calling them, with 16-bit addresses and
-- bytes (MCS6502DataReadByteFunction and MCS6502DataWriteByteFunction of machine/MCS6502.h).
use cpu.Prelude.{ℕ, ◌<◌}
use cpu.Machine.Core.{Core, Reads, Writes}

-- A property of the state that the callbacks keep.
pub record Keeps (S : Type 0) (r : Reads S) (w : Writes S) (P : S → Type 0) : Type 0 where
  pub read_keeps : (a : ℕ) (s : S) → a < 0x10000 → P s → P (r a s).1
  pub write_keeps : (a v : ℕ) (s : S) → a < 0x10000 → v < 256 → P s → P (w a v s)

-- The entry points keep what the callbacks keep, and `pc` is a 16-bit register.
pub record HasAccess (core : Core) : Type 1 where
  pub pc_lt : (c : core.Context) → core.pc c < 0x10000
  pub exec_next_keeps :
      (S : Type 0) (r : Reads S) (w : Writes S) (P : S → Type 0) (c : core.Context) (s : S)
      → Keeps S r w P
      → P s
      → P (core.exec_next S r w c s).2
  pub irq_keeps :
      (S : Type 0) (r : Reads S) (w : Writes S) (P : S → Type 0) (c : core.Context) (s : S)
      → Keeps S r w P
      → P s
      → P (core.irq S r w c s).1
  pub nmi_keeps :
      (S : Type 0) (r : Reads S) (w : Writes S) (P : S → Type 0) (c : core.Context) (s : S)
      → Keeps S r w P
      → P s
      → P (core.nmi S r w c s).1
  pub reset_keeps :
      (S : Type 0) (r : Reads S) (w : Writes S) (P : S → Type 0) (c : core.Context) (s : S)
      → Keeps S r w P
      → P s
      → P (core.reset S r w c s).1
