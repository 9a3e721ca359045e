-- ===== src/Machine/Core.antt =====
-- The CPU emulator MCS6502 that machine/machine.c calls (machine/MCS6502.c, a third-party library).
-- It reaches the board only through the two callbacks that MCS6502Init stores in its context.
use cpu.Prelude.{ℕ}
use cpu.Machine.State.{Board}

-- MCS6502ExecResult
pub data ExecResult : Type 0 where
  running halting invalid_operation : ExecResult

-- The callbacks, over the state `S` behind them.
abbrev pub Reads : Type 0 → Type 0
Reads S = ℕ → S → ℕ × S

abbrev pub Writes : Type 0 → Type 0
Writes S = ℕ → ℕ → S → S

pub record Core : Type 1 where
  pub Context : Type 0
  pub pc : Context → ℕ
  pub p : Context → ℕ
  pub initial : Context
  pub reset : (S : Type 0) → Reads S → Writes S → Context → S → Context × S
  pub exec_next : (S : Type 0) → Reads S → Writes S → Context → S → ExecResult × Context × S
  pub irq : (S : Type 0) → Reads S → Writes S → Context → S → Context × S
  pub nmi : (S : Type 0) → Reads S → Writes S → Context → S → Context × S

-- struct Machine: the CPU's context, and the board that its callbacks act on.
pub record Machine (core : Core) : Type 0 where
  pub cpu : core.Context
  pub board : Board
