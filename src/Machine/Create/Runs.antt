-- ===== src/Machine/Create/Runs.antt =====
-- The ROM and the disk image over whole runs of main of machine/machine.c.
use cpu.Prelude.{
  ℕ, ◌≤◌, ◌≡◌, refl, true, ◌&&◌, some, List, [], ◌∷◌, arith, inl, inr, Bool-cases, sym, ◌∙◌,
}
use mathlib.Core.Path.{subst}
use cpu.Machine.Map.{disk_sector_size}
use cpu.Machine.State.{DiskFile}
use cpu.Machine.Core.{Core, Machine}
use cpu.Machine.Bus.Ranges.{InRange}
use cpu.Machine.Devices.Ranges.{IsKey}
use cpu.Machine.Step.{Event, machine_step}
use cpu.Machine.Step.Access.{HasAccess}
use cpu.Machine.Step.Ranges.{machine_step-InRange}
use cpu.Machine.Step.Survival.{Overwritten, same, Survives, machine_step-Survives}
use cpu.Machine.Create.{
  Host, created, rom_of, all_exist, board_of, create_parts, machine_create, run, rom_create,
  disk_create,
}
use cpu.Machine.Create.Started.{HasBytes, machine_create-Starts}

-- The keys that are typed are bytes, and fwrite never returns more than a sector.
abbrev pub AreEvents : List Event → Type 0
AreEvents [] = Unit
AreEvents (e ∷ es) = IsKey e.key × (e.written ≤ disk_sector_size) × AreEvents es

-- Where no part is missing, the ROM and the disk are made from the images.
board-rom :
    (h : Host) (rom : DiskFile)
    → h.rom_image ≡ some rom
    → all_exist (create_parts h) ≡ true
    → (board_of (create_parts h)).rom.contents ≡ (rom_of rom).contents
unfolding create_parts rom_create
board-rom h rom found whole = elim (Bool-cases (h.rom && h.rom_data)) [
  | inl y ↦ rw (y, found) refl
  | inr n ↦ ground (arith, whole, n)
]

board-disk :
    (h : Host) (disk : DiskFile)
    → h.disk_image ≡ some disk
    → all_exist (create_parts h) ≡ true
    → (board_of (create_parts h)).disk.file ≡ disk
unfolding create_parts disk_create
board-disk h disk found whole = elim (Bool-cases h.disk) [
  | inl y ↦ rw (y, found) refl
  | inr n ↦ ground (arith, whole, n)
]

module _ (core : Core) (access : HasAccess core) where
  run-steps :
      (es : List Event) (m : Machine core) (contents : ℕ → ℕ) (file : DiskFile)
      → AreEvents es
      → InRange m.board
      → Survives contents file m.board
      → Survives contents file (run core es m).board
  unfolding run
  run-steps [] m contents file events h s = s
  run-steps (e ∷ es) m contents file events h s =
      let m' = (machine_step core e m).2 in
      let ranges = machine_step-InRange core access e m events.0 h in
      let after = machine_step-Survives core access e m contents file events.0 events.1 h s in
      elim (Bool-cases (machine_step core e m).0) [
        | inl y ↦ rw y (run-steps es m' contents file events.2 ranges after)
        | inr n ↦ rw n after
      ]

  -- Whatever program runs after Machine_create, for any sequence of events or up to the step that ended the
  -- loop of main, the ROM has the contents that were loaded from its image, and the disk image arises from
  -- the one that was opened by writes of bytes, whole sectors or the front of one, each at a sector with a
  -- 16-bit number. The images and the keys are bytes, fwrite never returns more than a sector, and the CPU
  -- emulator reaches the computer only through its callbacks, with 16-bit addresses and bytes.
  pub run-Survives :
      (h : Host) (m : Machine core) (es : List Event) (rom disk : DiskFile)
      → HasBytes h
      → AreEvents es
      → h.rom_image ≡ some rom
      → h.disk_image ≡ some disk
      → machine_create core h ≡ created m
      → Survives (rom_of rom).contents disk (run core es m).board
  run-Survives h m es rom disk bytes events rom_open disk_open made =
      let starts = machine_create-Starts core access h m bytes made in
      run-steps es m (rom_of rom).contents disk events starts.ranges (record {
        rom = starts.images.rom ∙ board-rom h rom rom_open starts.whole;
        disk =
            subst (Overwritten disk)
              (sym (starts.images.disk ∙ board-disk h disk disk_open starts.whole)) same;
      })
