-- ===== src/Machine/Create/Started.antt =====
-- The board with which Machine_create of machine/machine.c ends.
use cpu.Prelude.{
  ℕ, ◌<◌, if◌then◌else◌, Bool, true, ◌&&◌, Option, none, some, ◌≡◌, refl, arith, inl, inr,
  Bool-cases,
}
use mathlib.Core.Option.{get_or}
use mathlib.Core.Path.{subst}
use cpu.Machine.State.{Board, DiskFile, Rom}
use cpu.Machine.Core.{Core, Machine}
use cpu.Machine.Bus.Ranges.{
  InRange, RomInRange, DiskInRange, MmuInRange, read-InRange, write-InRange,
}
use cpu.Machine.Step.Images.{Holds, read-Holds, write-Holds}
use cpu.Machine.Step.Access.{Keeps, HasAccess}
use cpu.Machine.Create.{
  Host, Parts, Created, created, refused, null_access, rom_of, new_disk, new_mmu, new_uart,
  new_timer, new_plic, opened, all_exist, can_destroy, board_of, create_parts, read_part,
  write_part, cpu_create, machine_create, ram_create, rom_create, disk_create, uart_create,
  mmu_create, timer_create, plic_create,
}

-- The bytes of the two images are bytes.
pub record HasBytes (h : Host) : Type 0 where
  pub rom : (image : DiskFile) (i : ℕ) → h.rom_image ≡ some image → image.byte i < 256
  pub disk : (image : DiskFile) (i : ℕ) → h.disk_image ≡ some image → image.byte i < 256

abbrev no_rom : Rom
no_rom = record { rom_enable = 0; contents = λ i. 0 }

no_rom-InRange : RomInRange no_rom
no_rom-InRange = record { rom_enable = omega arith; contents = λ i. omega arith }

opened-rom :
    (file : Option DiskFile)
    → ((image : DiskFile) (i : ℕ) → file ≡ some image → image.byte i < 256)
    → RomInRange (get_or (opened file rom_of) no_rom)
opened-rom none b = no_rom-InRange
opened-rom (some image) b = record {
  rom_enable = omega arith;
  contents = λ i. ground (arith, b image i refl);
}

rom-InRange : (h : Host) → HasBytes h → RomInRange (get_or (rom_create h) no_rom)
unfolding rom_create
rom-InRange h bytes = elim (Bool-cases (h.rom && h.rom_data)) [
  | inl y ↦ rw y (opened-rom h.rom_image bytes.rom)
  | inr y ↦ rw y no_rom-InRange
]

new_disk-InRange :
    (image : DiskFile) → ((i : ℕ) → image.byte i < 256) → DiskInRange (new_disk image)
new_disk-InRange image h = record {
  file = h;
  buffer = λ i. omega arith;
  cmd = omega arith;
  status = omega arith;
  lba_low = omega arith;
  lba_high = omega arith;
  delay = omega arith;
}

abbrev no_file : DiskFile
no_file = record { size = 0; byte = λ i. 0 }

opened-disk :
    (file : Option DiskFile)
    → ((image : DiskFile) (i : ℕ) → file ≡ some image → image.byte i < 256)
    → DiskInRange (get_or (opened file new_disk) (new_disk no_file))
opened-disk none b = new_disk-InRange no_file (λ i. omega arith)
opened-disk (some image) b = new_disk-InRange image (λ i. b image i refl)

disk-InRange : (h : Host) → HasBytes h → DiskInRange (get_or (disk_create h) (new_disk no_file))
unfolding disk_create
disk-InRange h bytes = elim (Bool-cases h.disk) [
  | inl y ↦ rw y (opened-disk h.disk_image bytes.disk)
  | inr y ↦ rw y (new_disk-InRange no_file (λ i. omega arith))
]

-- Every other part is the new one, whether or not there is memory for it.
get_or-same {ℓ} : {A : Type ℓ} (b : Bool) (x : A) → get_or (if b then some x else none) x ≡ x
get_or-same b x = ground arith

new_mmu-InRange : MmuInRange new_mmu
new_mmu-InRange = record {
  page_table = λ i small. omega (arith, small);
  prev = omega arith;
  watchdog = omega arith;
  cause = omega arith;
  va = omega arith;
  opcode = omega arith;
}

board-InRange : (h : Host) → HasBytes h → InRange (board_of (create_parts h))
unfolding create_parts ram_create uart_create timer_create mmu_create plic_create
board-InRange h bytes = record {
  ram = λ a. rw (get_or-same {A = ℕ → ℕ} (h.ram && h.ram_data) (λ i. 0)) (omega arith);
  rom = rom-InRange h bytes;
  uart =
      rw (get_or-same h.uart new_uart)
        (record { tx = omega arith; rx = omega arith; status = omega arith });
  disk = disk-InRange h bytes;
  mmu = rw (get_or-same h.mmu new_mmu) new_mmu-InRange;
  timer = rw (get_or-same h.timer new_timer) (record {
    ctrl = omega arith;
    latch_low = omega arith;
    latch_high = omega arith;
    counter_low = omega arith;
    counter_high = omega arith;
  });
  lines = rw (get_or-same h.plic new_plic) (omega arith);
}

part-keeps : (p : Parts) → Keeps (Bool × Board) (read_part p) (write_part p) (λ s. InRange s.1)
unfolding read_part write_part
part-keeps p = record {
  read_keeps = λ a s small h. read-InRange a s.1 small h;
  write_keeps = λ a v s small byte h. write-InRange a s.1 small h v byte;
}

part-Holds :
    (p : Parts) (contents : ℕ → ℕ) (file : DiskFile)
    → Keeps (Bool × Board) (read_part p) (write_part p) (λ s. Holds contents file s.1)
unfolding read_part write_part
part-Holds p contents file = record {
  read_keeps = λ a s small h. read-Holds contents file a s.1 h;
  write_keeps = λ a v s small byte h. write-Holds contents file a v s.1 h;
}

-- A board that a computer starts with: it is in range, has the ROM and the disk image of the constructors,
-- and no part is missing.
pub record Starts (h : Host) (b : Board) : Type 0 where
  pub ranges : InRange b
  pub images :
      Holds (board_of (create_parts h)).rom.contents (board_of (create_parts h)).disk.file b
  pub whole : all_exist (create_parts h) ≡ true

abbrev IsStarted : (core : Core) → Host → Created core → Type 0
IsStarted core h (created m) = Starts h m.board
IsStarted core h refused = Unit
IsStarted core h null_access = Unit

module _ (core : Core) (access : HasAccess core) where
  cpu_create-InRange : (h : Host) → HasBytes h → InRange (cpu_create core h (create_parts h)).1.1
  unfolding cpu_create create_parts
  cpu_create-InRange h bytes =
      let p = create_parts h in
      elim (Bool-cases h.cpu) [
        | inl y ↦ rw y (
            access.reset_keeps (Bool × Board) (read_part p) (write_part p) (λ s. InRange s.1)
              core.initial (true, board_of p) (part-keeps p) (board-InRange h bytes))
        | inr y ↦ rw y (board-InRange h bytes)
      ]

  cpu_create-Holds :
      (h : Host)
      → let p = create_parts h in
        Holds (board_of p).rom.contents (board_of p).disk.file (cpu_create core h p).1.1
  unfolding cpu_create create_parts
  cpu_create-Holds h =
      let p = create_parts h in
      let contents = (board_of p).rom.contents in
      let file = (board_of p).disk.file in
      let start : Holds contents file (board_of p) = record { rom = refl; disk = refl } in
      elim (Bool-cases h.cpu) [
        | inl y ↦ rw y (
            access.reset_keeps (Bool × Board) (read_part p) (write_part p)
              (λ s. Holds contents file s.1) core.initial (true, board_of p)
              (part-Holds p contents file) start)
        | inr y ↦ rw y start
      ]

  machine_create-IsStarted : (h : Host) → HasBytes h → IsStarted core h (machine_create core h)
  unfolding machine_create
  machine_create-IsStarted h bytes =
      let p = create_parts h in
      elim (Bool-cases h.machine) [
        | inr n ↦ rw n tt
        | inl y ↦ elim (Bool-cases (cpu_create core h p).1.0) [
          | inr n ↦ rw (y, n) tt
          | inl v ↦ elim (Bool-cases (all_exist p && h.cpu)) [
            | inl whole ↦
                rw (y, v, whole)
                  (record {
                    ranges = cpu_create-InRange h bytes;
                    images = cpu_create-Holds h;
                    whole = ground (arith, whole);
                  })
            | inr n ↦ elim (Bool-cases (can_destroy p)) [
              | inl freed ↦ rw (y, v, n, freed) tt
              | inr kept ↦ rw (y, v, n, kept) tt
            ]
          ]
        ]
      ]

  -- A machine that Machine_create has made starts with the images of the host.
  pub machine_create-Starts :
      (h : Host) (m : Machine core)
      → HasBytes h
      → machine_create core h ≡ created m
      → Starts h m.board
  machine_create-Starts h m bytes made =
      subst (IsStarted core h) made (machine_create-IsStarted h bytes)
