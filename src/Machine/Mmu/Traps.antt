-- ===== src/Machine/Mmu/Traps.antt =====
-- MMU_pre_exec of machine/machine.c as a trap: from user space into the kernel's map, with the user's
-- last frame kept in `prev` for the return.
use cpu.Prelude.{
  ℕ, ◌!=◌, if◌then◌else◌, ◌≡◌, ◌≢◌, arith, true, false, ◌∙◌, ap, ◌⊎◌, has, not, ◌||◌, ◌&&◌,
}
use cpu.Machine.Map.{status_i, mmu_cause_invalid_opcode, mmu_cause_privilege}
use cpu.Machine.State.{Board, Mmu}
use cpu.Machine.Core.{Core, Machine}
use cpu.Machine.Bus.{translate, read_physical, read, write}
use cpu.Machine.Opcodes.{valid_opcode}
use cpu.Machine.Mmu.{enter_kernel, fetch, privileged, intercept, watchdog, access_watchdog}
use cpu.Machine.Mmu.Stacking.{HasEntries, SameMmu, Entry-SameMmu}

mmu-read_physical : (a : ℕ) (b : Board) → (read_physical a b).1.mmu ≡ b.mmu
unfolding read_physical
mmu-read_physical a b = ground arith

table-translate : (mmu : Mmu) (a : ℕ) → (translate mmu a).1.page_table ≡ mmu.page_table
unfolding translate
table-translate mmu a = ground arith

pub table-fetch : (pc : ℕ) (b : Board) → (fetch pc b).mmu.page_table ≡ b.mmu.page_table
unfolding fetch read
table-fetch pc b = ap (λ m. m.page_table) (mmu-read_physical _ _) ∙ table-translate b.mmu pc

pub in_user-fetch : (pc : ℕ) (b : Board) → (fetch pc b).mmu.in_user ≡ (b.mmu.page_table 15 != 15)
unfolding fetch
in_user-fetch pc b = ap (λ t. t 15 != 15) (table-fetch pc b)

-- BRK is a valid opcode, and may be executed in user space.
pub brk_allowed : (op : ℕ) → (privileged op || not (valid_opcode op)) ≡ true → op ≢ 0
unfolding valid_opcode
brk_allowed op bad e = let h : (privileged 0 || not (valid_opcode 0)) ≡ true = rw e at bad in cc h

-- The opcode may not be executed in user space.
abbrev pub IsForbidden : ℕ → Type 0
IsForbidden op = (privileged op || not (valid_opcode op)) ≡ true

abbrev pub cause_of : ℕ → ℕ
cause_of op = if valid_opcode op then mmu_cause_privilege else mmu_cause_invalid_opcode

-- The board that the watchdog hands to the CPU's exception entry.
abbrev pub caught : Board → Board
caught b = record b {
  mmu = enter_kernel (record (b.mmu) { watchdog = b.mmu.opcode; cause = cause_of b.mmu.opcode });
}

-- The machine after the opcode fetch of MMU_pre_exec.
abbrev pub fetched : (core : Core) → Machine core → Machine core
fetched core m = record m { board = fetch (core.pc m.cpu) m.board }

module _ (core : Core) where
  pub intercept-none :
      (m : Machine core)
      → (m.board.plic.pending_irq ≡ false) ⊎ (has (core.p m.cpu) status_i ≡ true)
      → m.board.mmu.opcode ≢ 0
      → intercept core m ≡ m
  unfolding intercept
  intercept-none m masked op = ground arith

  pub access_watchdog-none :
      (m : Machine core) → m.board.mmu.pending_nmi ≡ false → access_watchdog core m ≡ m
  unfolding access_watchdog
  access_watchdog-none m none = ground arith

module _ (core : Core) (laws : HasEntries core) where
  pub watchdog-SameMmu :
      (m : Machine core)
      → m.board.mmu.in_user ≡ true
      → IsForbidden m.board.mmu.opcode
      → SameMmu (caught m.board) (watchdog core m).board
  unfolding watchdog
  watchdog-SameMmu m user bad =
      let forbidden : (m.board.mmu.in_user
            && (privileged m.board.mmu.opcode || not (valid_opcode m.board.mmu.opcode)))
          ≡ true =
        rw user bad in
      rw forbidden (
        Entry-SameMmu (omega arith) (omega arith)
          (laws.nmi_entry Board read write m.cpu (caught m.board)))
