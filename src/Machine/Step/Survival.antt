-- ===== src/Machine/Step/Survival.antt =====
-- What Machine_step of machine/machine.c leaves of the ROM and of the disk image.
use cpu.Prelude.{ℕ, ◌*◌, ◌<◌, ◌≤◌, ◌==◌, ◌≡◌, arith, inl, inr, Bool-cases, ap, sym, ◌∙◌}
use mathlib.Core.Path.{subst}
use cpu.Machine.Map.{disk_sector_size, disk_cmd_read, disk_cmd_write, disk_status_busy}
use cpu.Machine.State.{Board, Disk, DiskFile}
use cpu.Machine.Core.{Core, Machine}
use cpu.Machine.Bus.Ranges.{InRange, DiskInRange}
use cpu.Machine.Devices.{
  uart_step, disk_step, timer_step, disk_read, disk_write, disk_transfer, disk_finish, decrement,
  lba_of, file_count, file_write,
}
use cpu.Machine.Devices.Ranges.{IsKey, uart_step-InRange}
use cpu.Machine.Step.{Event, machine_step}
use cpu.Machine.Step.Access.{HasAccess}
use cpu.Machine.Step.Images.{cpu_step-images}

-- A disk image that arises from another by writes of bytes, whole sectors or the front of one, each at a
-- sector with a 16-bit number.
pub data Overwritten (f : DiskFile) : DiskFile → Type 0 where
  same : Overwritten f f
  sector :
      {g : DiskFile} (number count : ℕ) (buffer : ℕ → ℕ)
      → number < 0x10000
      → count ≤ disk_sector_size
      → ((i : ℕ) → buffer i < 256)
      → Overwritten f g
      → Overwritten f (file_write g (number * disk_sector_size) count buffer)

-- The ROM has the given contents, and the disk image arises from the given one.
pub record Survives (contents : ℕ → ℕ) (file : DiskFile) (b : Board) : Type 0 where
  pub rom : b.rom.contents ≡ contents
  pub disk : Overwritten file b.disk.file

module _ (f : DiskFile) (written : ℕ) (count : written ≤ disk_sector_size) where
  disk_read-Overwritten : (d : Disk) → Overwritten f d.file → Overwritten f (disk_read d).1.file
  unfolding disk_read
  disk_read-Overwritten d o =
      elim (Bool-cases (file_count d.file (lba_of d * disk_sector_size) == disk_sector_size)) [
        | inl y ↦ rw y o
        | inr n ↦ rw n o
      ]

  disk_write-Overwritten :
      (d : Disk)
      → DiskInRange d
      → Overwritten f d.file
      → Overwritten f (disk_write written d).1.file
  unfolding disk_write
  disk_write-Overwritten d h o =
      let low = h.lba_low in
      let high = h.lba_high in
      let after = sector (lba_of d) written d.buffer (omega arith) count h.buffer o in
      elim (Bool-cases (written == disk_sector_size)) [ inl y ↦ rw y after | inr n ↦ rw n after ]

  disk_transfer-Overwritten :
      (d : Disk)
      → DiskInRange d
      → Overwritten f d.file
      → Overwritten f (disk_transfer written d).1.file
  unfolding disk_transfer
  disk_transfer-Overwritten d h o = elim (Bool-cases (d.cmd == disk_cmd_read)) [
    | inl y ↦ rw y (disk_read-Overwritten d o)
    | inr n ↦ elim (Bool-cases (d.cmd == disk_cmd_write)) [
      | inl y ↦ rw (n, y) (disk_write-Overwritten d h o)
      | inr m ↦ rw (n, m) o
    ]
  ]

  disk_finish-Overwritten :
      (b : Board)
      → DiskInRange b.disk
      → Overwritten f b.disk.file
      → Overwritten f (disk_finish written b).1.disk.file
  unfolding disk_finish
  disk_finish-Overwritten b h o =
      let after = disk_transfer-Overwritten b.disk h o in
      elim (Bool-cases (disk_transfer written b.disk).0) [ inl y ↦ rw y after | inr n ↦ rw n after ]

  disk_step-Overwritten :
      (b : Board)
      → DiskInRange b.disk
      → Overwritten f b.disk.file
      → Overwritten f (disk_step written b).1.disk.file
  unfolding disk_step
  disk_step-Overwritten b h o =
      let b' = record b { disk = record (b.disk) { delay = decrement b.disk.delay } } in
      let h' : DiskInRange b'.disk = record {
        file = h.file;
        buffer = h.buffer;
        cmd = h.cmd;
        status = h.status;
        lba_low = h.lba_low;
        lba_high = h.lba_high;
        delay = omega arith;
      } in
      elim (Bool-cases (b.disk.status == disk_status_busy)) [
        | inr n ↦ rw n o
        | inl y ↦ elim (Bool-cases (decrement b.disk.delay == 0)) [
          | inl z ↦ rw (y, z) (disk_finish-Overwritten b' h' o)
          | inr z ↦ rw (y, z) o
        ]
      ]

disk_step-rom : (written : ℕ) (b : Board) → (disk_step written b).1.rom.contents ≡ b.rom.contents
unfolding disk_step disk_finish
disk_step-rom written b = ground arith

uart_step-rom : (key : _) (b : Board) → (uart_step key b).2.rom.contents ≡ b.rom.contents
unfolding uart_step cpu.Machine.Devices.uart_receive cpu.Machine.Devices.uart_transmit
uart_step-rom key b = ground arith

uart_step-disk : (key : _) (b : Board) → (uart_step key b).2.disk ≡ b.disk
unfolding uart_step cpu.Machine.Devices.uart_receive cpu.Machine.Devices.uart_transmit
uart_step-disk key b = ground arith

timer_step-rom : (b : Board) → (timer_step b).rom.contents ≡ b.rom.contents
unfolding timer_step
timer_step-rom b = ground arith

timer_step-disk : (b : Board) → (timer_step b).disk ≡ b.disk
unfolding timer_step
timer_step-disk b = ground arith

module _ (core : Core) (access : HasAccess core) where
  -- A step of the machine leaves the ROM, and changes the disk image by a write of a sector at most.
  pub machine_step-Survives :
      (e : Event) (m : Machine core) (contents : ℕ → ℕ) (file : DiskFile)
      → IsKey e.key
      → e.written ≤ disk_sector_size
      → InRange m.board
      → Survives contents file m.board
      → Survives contents file (machine_step core e m).2.board
  unfolding machine_step
  machine_step-Survives e m contents file key count h s =
      let b = (uart_step e.key m.board).2 in
      let kept : b.disk ≡ m.board.disk = uart_step-disk e.key m.board in
      let rom : b.rom.contents ≡ contents = uart_step-rom e.key m.board ∙ s.rom in
      let before : Overwritten file b.disk.file =
        subst (λ d. Overwritten file d.file) (sym kept) s.disk in
      let b' = (disk_step e.written b).1 in
      let after =
        disk_step-Overwritten file e.written count b (uart_step-InRange e.key m.board key h).disk
          before in
      let ended = cpu_step-images core access (record m { board = timer_step b' }) in
      elim (Bool-cases (uart_step e.key m.board).0) [
        | inr n ↦ rw n (record { rom = rom; disk = before })
        | inl y ↦ rw y (record {
          rom = ended.rom ∙ timer_step-rom b' ∙ disk_step-rom e.written b ∙ rom;
          disk =
              subst (Overwritten file) (sym (ended.disk ∙ ap (λ d. d.file) (timer_step-disk b')))
                after;
        })
      ]
