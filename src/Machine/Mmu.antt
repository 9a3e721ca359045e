-- ===== src/Machine/Mmu.antt =====
-- MMU_pre_exec and MMU_post_exec of machine/machine.c: traps into the kernel's map and back.
pub mod Stacking
pub mod Traps
pub mod Interrupts
use cpu.Prelude.{ℕ, ◌==◌, ◌!=◌, if◌then◌else◌, update, has, Bool, false, ◌&&◌, ◌||◌, not}
use cpu.Machine.Map.{
  mmu_last_segment, mmu_cause_v, mmu_cause_invalid_opcode, mmu_cause_privilege, status_i,
}
use cpu.Machine.State.{Board, Mmu}
use cpu.Machine.Core.{Core, Machine}
use cpu.Machine.Bus.{read, write}
use cpu.Machine.Devices.{plic_lower}
use cpu.Machine.Opcodes.{valid_opcode}

-- The last segment is kept in `prev`, and becomes the kernel's.
abbrev pub enter_kernel : Mmu → Mmu
enter_kernel mmu = record mmu {
  prev = mmu.page_table mmu_last_segment;
  page_table = update mmu.page_table mmu_last_segment mmu_last_segment;
}

-- The opcode fetch that begins MMU_pre_exec, and the test for user space.
unfoldable pub fetch : ℕ → Board → Board
fetch pc b =
    let (opcode, b') = read pc b in
    record b' {
      mmu = record (b'.mmu) {
        opcode = opcode;
        in_user = b'.mmu.page_table mmu_last_segment != mmu_last_segment;
      };
    }

-- SEI, PLP and RTI in user space.
abbrev pub privileged : ℕ → Bool
privileged opcode = opcode == 0x78 || (opcode == 0x28 || opcode == 0x40)

module _ (core : Core) where
  open core use {irq, nmi}

  -- The interrupt and BRK intercept.
  unfoldable pub intercept : Machine core → Machine core
  unfolding plic_lower
  intercept m =
      let b = m.board in
      let trapped = record b { mmu = enter_kernel b.mmu } in
      let (cpu, b') = irq Board read write m.cpu (record trapped { plic = plic_lower b.plic }) in
      if b.plic.pending_irq && not (has (core.p m.cpu) status_i)
      then record { cpu = cpu; board = b' }
      else if b.mmu.opcode == 0
      then record m { board = trapped }
      else m

  -- The watchdog for privileged and invalid opcodes.
  unfoldable pub watchdog : Machine core → Machine core
  watchdog m =
      let b = m.board in
      let opcode = b.mmu.opcode in
      let caught = record (b.mmu) {
        watchdog = opcode;
        cause = if valid_opcode opcode then mmu_cause_privilege else mmu_cause_invalid_opcode;
      } in
      let (cpu, b') = nmi Board read write m.cpu (record b { mmu = enter_kernel caught }) in
      if b.mmu.in_user && (privileged opcode || not (valid_opcode opcode))
      then record { cpu = cpu; board = b' }
      else m

  -- The watchdog for memory access violations.
  unfoldable pub access_watchdog : Machine core → Machine core
  access_watchdog m =
      let b = m.board in
      let caught = record (b.mmu) { cause = mmu_cause_v; pending_nmi = false } in
      let (cpu, b') = nmi Board read write m.cpu (record b { mmu = enter_kernel caught }) in
      if b.mmu.pending_nmi then record { cpu = cpu; board = b' } else m

  -- MMU_pre_exec
  unfoldable pub pre_exec : Machine core → Machine core
  unfolding intercept watchdog access_watchdog
  pre_exec m =
      access_watchdog (watchdog (intercept (record m { board = fetch (core.pc m.cpu) m.board })))

-- MMU_post_exec
unfoldable pub post_exec : Board → Board
post_exec b =
    if b.mmu.opcode == 0x40 && not b.mmu.in_user
    then record b {
      mmu = record (b.mmu) { page_table = update b.mmu.page_table mmu_last_segment b.mmu.prev };
    }
    else b
