-- ===== src/Machine/Step/Images.antt =====
-- What CPU_step and Machine_step of machine/machine.c do to the contents of the ROM and to the disk image.
use cpu.Prelude.{
  ℕ, zero, suc, ◌==◌, ◌≡◌, refl, ◌&&◌, ◌||◌, not, has, arith, inl, inr, Bool-cases, ◌∙◌,
}
use cpu.Machine.Map.{cpu_per_step, status_i}
use cpu.Machine.State.{Board, DiskFile}
use cpu.Machine.Core.{Core, Machine}
use cpu.Machine.Bus.{translate, read, read_physical, write, write_physical}
use cpu.Machine.Opcodes.{valid_opcode}
use cpu.Machine.Devices.{uart_step, disk_step, timer_step}
use cpu.Machine.Mmu.{fetch, privileged, intercept, watchdog, access_watchdog, pre_exec, post_exec}
use cpu.Machine.Step.{cycle, cycles_left, cpu_step}
use cpu.Machine.Step.Access.{Keeps, HasAccess}

pub record Holds (contents : ℕ → ℕ) (file : DiskFile) (b : Board) : Type 0 where
  pub rom : b.rom.contents ≡ contents
  pub disk : b.disk.file ≡ file

write_physical-rom : (a v : ℕ) (b : Board) → (write_physical a v b).rom.contents ≡ b.rom.contents
unfolding write_physical cpu.Machine.Bus.write_disk_cmd cpu.Machine.Bus.write_timer_ctrl
write_physical-rom a v b = ground arith

write_physical-disk : (a v : ℕ) (b : Board) → (write_physical a v b).disk.file ≡ b.disk.file
unfolding write_physical cpu.Machine.Bus.write_disk_cmd cpu.Machine.Bus.write_timer_ctrl
write_physical-disk a v b = ground arith

read_physical-rom : (a : ℕ) (b : Board) → (read_physical a b).1.rom.contents ≡ b.rom.contents
unfolding read_physical
read_physical-rom a b = ground arith

read_physical-disk : (a : ℕ) (b : Board) → (read_physical a b).1.disk.file ≡ b.disk.file
unfolding read_physical
read_physical-disk a b = ground arith

module _ (contents : ℕ → ℕ) (file : DiskFile) where
  pub read-Holds : (a : ℕ) (b : Board) → Holds contents file b → Holds contents file (read a b).1
  unfolding read
  read-Holds a b h =
      let b' = record b { mmu = (translate b.mmu a).1 } in
      record {
        rom = read_physical-rom (translate b.mmu a).0 b' ∙ h.rom;
        disk = read_physical-disk (translate b.mmu a).0 b' ∙ h.disk;
      }

  pub write-Holds :
      (a v : ℕ) (b : Board) → Holds contents file b → Holds contents file (write a v b)
  unfolding write
  write-Holds a v b h =
      let b' = record b { mmu = (translate b.mmu a).1 } in
      record {
        rom = write_physical-rom (translate b.mmu a).0 v b' ∙ h.rom;
        disk = write_physical-disk (translate b.mmu a).0 v b' ∙ h.disk;
      }

  keeps : Keeps Board read write (Holds contents file)
  keeps = record {
    read_keeps = λ a b small h. read-Holds a b h;
    write_keeps = λ a v b small byte h. write-Holds a v b h;
  }

  fetch-Holds : (pc : ℕ) (b : Board) → Holds contents file b → Holds contents file (fetch pc b)
  unfolding fetch
  fetch-Holds pc b h = let h' = read-Holds pc b h in record { rom = h'.rom; disk = h'.disk }

  post_exec-Holds : (b : Board) → Holds contents file b → Holds contents file (post_exec b)
  unfolding post_exec
  post_exec-Holds b h = elim (Bool-cases (b.mmu.opcode == 0x40 && not b.mmu.in_user)) [
    | inl e ↦ rw e (record { rom = h.rom; disk = h.disk })
    | inr e ↦ rw e h
  ]

  module _ (core : Core) (access : HasAccess core) where
    intercept-Holds :
        (m : Machine core)
        → Holds contents file m.board
        → Holds contents file (intercept core m).board
    unfolding intercept cpu.Machine.Devices.plic_lower
    intercept-Holds m h =
        let b = m.board in
        elim (Bool-cases (b.plic.pending_irq && not (has (core.p m.cpu) status_i))) [
          | inl e ↦ rw e (
              access.irq_keeps Board read write (Holds contents file) m.cpu _ keeps
                (record { rom = h.rom; disk = h.disk }))
          | inr e ↦ elim (Bool-cases (b.mmu.opcode == 0)) [
            | inl z ↦ rw (e, z) (record { rom = h.rom; disk = h.disk })
            | inr z ↦ rw (e, z) h
          ]
        ]

    watchdog-Holds :
        (m : Machine core)
        → Holds contents file m.board
        → Holds contents file (watchdog core m).board
    unfolding watchdog
    watchdog-Holds m h =
        let mmu = m.board.mmu in
        elim (Bool-cases
          (mmu.in_user && (privileged mmu.opcode || not (valid_opcode mmu.opcode)))) [
            | inl e ↦ rw e (
                access.nmi_keeps Board read write (Holds contents file) m.cpu _ keeps
                  (record { rom = h.rom; disk = h.disk }))
            | inr e ↦ rw e h
          ]

    access_watchdog-Holds :
        (m : Machine core)
        → Holds contents file m.board
        → Holds contents file (access_watchdog core m).board
    unfolding access_watchdog
    access_watchdog-Holds m h = elim (Bool-cases m.board.mmu.pending_nmi) [
      | inl e ↦ rw e (
          access.nmi_keeps Board read write (Holds contents file) m.cpu _ keeps
            (record { rom = h.rom; disk = h.disk }))
      | inr e ↦ simp e h
    ]

    cycle-Holds :
        (m : Machine core)
        → Holds contents file m.board
        → Holds contents file (cycle core m).1.board
    unfolding cycle pre_exec
    cycle-Holds m h =
        let fetched : Machine core = record m { board = fetch (core.pc m.cpu) m.board } in
        let taken = intercept core fetched in
        let prepared = pre_exec core m in
        post_exec-Holds (core.exec_next Board read write prepared.cpu prepared.board).2 (
          access.exec_next_keeps Board read write (Holds contents file) prepared.cpu prepared.board
            keeps
            (access_watchdog-Holds (watchdog core taken) (
              watchdog-Holds taken
                (intercept-Holds fetched (fetch-Holds (core.pc m.cpu) m.board h)))))

    cycles_left-Holds :
        (n : ℕ) (m : Machine core)
        → Holds contents file m.board
        → Holds contents file (cycles_left core n m).1.board
    unfolding cycles_left
    cycles_left-Holds zero m h = h
    cycles_left-Holds (suc n) m h = elim (Bool-cases (cycle core m).0) [
      | inl e ↦ rw e (cycles_left-Holds n (cycle core m).1 (cycle-Holds m h))
      | inr e ↦ rw e (cycle-Holds m h)
    ]

module _ (core : Core) (access : HasAccess core) where
  -- The instructions of a step change neither the contents of the ROM nor the disk image.
  pub cpu_step-images :
      (m : Machine core) → Holds m.board.rom.contents m.board.disk.file (cpu_step core m).1.board
  unfolding cpu_step
  cpu_step-images m =
      cycles_left-Holds m.board.rom.contents m.board.disk.file core access cpu_per_step m
        (record { rom = refl; disk = refl })
