-- ===== src/Machine/Mmu/Interrupts.antt =====
-- MMU_pre_exec of machine/machine.c when an interrupt is pending, and when nothing is to be trapped.
use cpu.Prelude.{
  ◌≡◌, ◌≢◌, arith, Bool-cases, true, false, inl, inr, ◌∙◌, ap, ◌⊎◌, has, not, ◌||◌, ◌&&◌,
}
use cpu.Machine.Map.{status_i, mmu_cause_v}
use cpu.Machine.State.{Board}
use cpu.Machine.Core.{Core, Machine}
use cpu.Machine.Bus.{read, write}
use cpu.Machine.Opcodes.{valid_opcode}
use cpu.Machine.Devices.{plic_lower}
use cpu.Machine.Mmu.{
  enter_kernel, fetch, privileged, intercept, watchdog, access_watchdog, pre_exec,
}
use cpu.Machine.Mmu.Stacking.{HasEntries, SameMmu, Entry-SameMmu}
use cpu.Machine.Mmu.Traps.{
  IsForbidden, fetched, in_user-fetch, watchdog-SameMmu, access_watchdog-none, intercept-none,
}

-- The board that the intercept hands to the CPU's interrupt entry.
abbrev pub trapped : Board → Board
trapped b = record b { mmu = enter_kernel b.mmu; plic = plic_lower b.plic }

-- The board that the access watchdog hands to the CPU's exception entry.
abbrev pub violated : Board → Board
violated b = record b {
  mmu = enter_kernel (record (b.mmu) { cause = mmu_cause_v; pending_nmi = false });
}

module _ (core : Core) (laws : HasEntries core) where
  intercept-SameMmu :
      (m : Machine core)
      → m.board.plic.pending_irq ≡ true
      → has (core.p m.cpu) status_i ≡ false
      → SameMmu (trapped m.board) (intercept core m).board
  unfolding intercept
  intercept-SameMmu m pending enabled =
      let taken : (m.board.plic.pending_irq && not (has (core.p m.cpu) status_i)) ≡ true =
        rw pending (ap not enabled) in
      rw taken (
        Entry-SameMmu (omega arith) (omega arith)
          (laws.irq_entry Board read write m.cpu (trapped m.board)))

  -- A trap for a violation, or none, leaves the kernel's segment in `prev` if it is installed.
  access_watchdog-prev :
      (m : Machine core)
      → m.board.mmu.page_table 15 ≡ 15
      → m.board.mmu.prev ≡ 15
      → (access_watchdog core m).board.mmu.prev ≡ 15
  unfolding access_watchdog
  access_watchdog-prev m seg kept = elim (Bool-cases m.board.mmu.pending_nmi) [
    | inl fault ↦
        let b = violated m.board in
        let same =
          Entry-SameMmu (omega arith) (omega arith) (laws.nmi_entry Board read write m.cpu b) in
        rw fault (same.prev ∙ seg)
    | inr calm ↦ rw calm kept
  ]

  -- When an interrupt is taken at an instruction of user space whose opcode is forbidden there, `prev`
  -- holds the kernel's frame 15 after MMU_pre_exec, and not the user's last frame. Each call of the CPU emulator's IRQ and NMI
  -- entries returns at once, masked or latched, or pushes three bytes on page 1 and reads the vector.
  pub pre_exec-double_trap :
      (m : Machine core)
      → m.board.mmu.page_table 15 ≢ 15
      → let b = fetch (core.pc m.cpu) m.board in
        b.plic.pending_irq ≡ true
        → has (core.p m.cpu) status_i ≡ false
        → IsForbidden b.mmu.opcode
        → (pre_exec core m).board.mmu.prev ≡ 15
  unfolding pre_exec
  pre_exec-double_trap m user pending enabled bad =
      let first = intercept-SameMmu (fetched core m) pending enabled in
      let second =
        watchdog-SameMmu core laws (intercept core (fetched core m))
          (first.in_user ∙ in_user-fetch (core.pc m.cpu) m.board ∙ ground arith)
          (rw first.opcode bad) in
      let seg : (intercept core (fetched core m)).board.mmu.page_table 15 ≡ 15 =
        ap (λ t. t 15) first.page_table in
      access_watchdog-prev (watchdog core (intercept core (fetched core m)))
        (ap (λ t. t 15) second.page_table) (second.prev ∙ seg)

module _ (core : Core) where
  -- An instruction that is neither BRK nor, in user space, forbidden is left alone: if no interrupt is
  -- taken and no violation is pending, the only effect is the fetch.
  pub pre_exec-allowed :
      (m : Machine core)
      → let b = fetch (core.pc m.cpu) m.board in
        (b.plic.pending_irq ≡ false) ⊎ (has (core.p m.cpu) status_i ≡ true)
        → b.mmu.opcode ≢ 0
        → (b.mmu.in_user && (privileged b.mmu.opcode || not (valid_opcode b.mmu.opcode))) ≡ false
        → b.mmu.pending_nmi ≡ false
        → pre_exec core m ≡ record m { board = b }
  unfolding pre_exec watchdog
  pre_exec-allowed m masked op fine calm =
      rw (intercept-none core (fetched core m) masked op)
        (rw fine (access_watchdog-none core (fetched core m) calm))
