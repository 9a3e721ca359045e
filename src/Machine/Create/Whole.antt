-- ===== src/Machine/Create/Whole.antt =====
-- Machine_create of machine/machine.c where nothing is missing.
use cpu.Prelude.{ℕ, if◌then◌else◌, Bool, true, not, ◌&&◌, Option, none, some, ◌≡◌, refl, arith}
use cpu.Machine.State.{Board, DiskFile}
use cpu.Machine.Core.{Core, Machine}
use cpu.Machine.Bus.{translate}
use cpu.Machine.Step.Access.{Keeps, HasAccess}
use cpu.Machine.Create.{
  Host, Parts, created, refused, null_access, rom_of, new_disk, opened, exists, all_exist,
  can_destroy, board_of, create_parts, can_read, can_write, read_part, write_part, cpu_create,
  machine_create, ram_create, rom_create, disk_create, uart_create, mmu_create, timer_create,
  plic_create,
}

-- Every call of calloc gives memory, and both files are there.
pub record IsWhole (h : Host) : Type 0 where
  pub machine : h.machine ≡ true
  pub ram : h.ram ≡ true
  pub ram_data : h.ram_data ≡ true
  pub rom : h.rom ≡ true
  pub rom_data : h.rom_data ≡ true
  pub rom_image : exists h.rom_image ≡ true
  pub uart : h.uart ≡ true
  pub disk : h.disk ≡ true
  pub disk_image : exists h.disk_image ≡ true
  pub timer : h.timer ≡ true
  pub mmu : h.mmu ≡ true
  pub plic : h.plic ≡ true
  pub cpu : h.cpu ≡ true

-- Where no part is missing, no null pointer is followed.
can_read-whole : (p : Parts) (b : Board) (a : ℕ) → all_exist p ≡ true → can_read p b a ≡ true
unfolding can_read
can_read-whole p b a h = ground (arith, h)

can_write-whole : (p : Parts) (a : ℕ) → all_exist p ≡ true → can_write p a ≡ true
unfolding can_write
can_write-whole p a h = ground (arith, h)

part-valid :
    (p : Parts)
    → all_exist p ≡ true
    → Keeps (Bool × Board) (read_part p) (write_part p) (λ s. s.0 ≡ true)
unfolding read_part write_part
part-valid p h = record {
  read_keeps = λ a s small v. ground (arith, v, h, can_read-whole p s.1 (translate s.1.mmu a).0 h);
  write_keeps =
      λ a v' s small byte v. ground (arith, v, h, can_write-whole p (translate s.1.mmu a).0 h);
}

exists-opened {ℓ} :
    {A : Type ℓ} (file : Option DiskFile) (f : DiskFile → A) → exists (opened file f) ≡ exists file
exists-opened none f = refl
exists-opened (some image) f = refl

whole-exists : (h : Host) → IsWhole h → all_exist (create_parts h) ≡ true
unfolding create_parts ram_create rom_create uart_create disk_create timer_create mmu_create
    plic_create
whole-exists h w =
    rw
      (
        w.ram,
        w.ram_data,
        w.rom,
        w.rom_data,
        w.uart,
        w.disk,
        w.timer,
        w.mmu,
        w.plic,
        exists-opened h.rom_image rom_of,
        exists-opened h.disk_image new_disk,
        w.rom_image,
        w.disk_image,
      )
      refl

-- The branches of Machine_create after the constructors, where nothing is missing.
settled :
    (core : Core) (there valid whole free : Bool) (m : Machine core)
    → there ≡ true
    → valid ≡ true
    → whole ≡ true
    → (if not there
        then refused
        else if not valid
        then null_access
        else if whole
        then created m
        else if free
        then refused
        else null_access)
      ≡ created m
settled core there valid whole free m a b c = rw (a, b, c) refl

both : (a b : Bool) → a ≡ true → b ≡ true → (a && b) ≡ true
both a b h g = ground (arith, h, g)

module _ (core : Core) (access : HasAccess core) where
  cpu_create-valid : (h : Host) → IsWhole h → (cpu_create core h (create_parts h)).1.0 ≡ true
  unfolding cpu_create create_parts
  cpu_create-valid h w =
      let p = create_parts h in
      rw w.cpu (
        access.reset_keeps (Bool × Board) (read_part p) (write_part p) (λ s. s.0 ≡ true)
          core.initial (true, board_of p) (part-valid p (whole-exists h w)) refl)

  -- When every call of calloc gives memory and the ROM and disk images are there, Machine_create ends with a
  -- machine and has followed no null pointer. The reset of the CPU emulator reaches the computer only
  -- through its callbacks.
  pub machine_create-created :
      (h : Host) → IsWhole h → (m : Machine core) × (machine_create core h ≡ created m)
  unfolding machine_create
  machine_create-created h w =
      let p = create_parts h in
      let (cpu, (valid, b)) = cpu_create core h p in
      (
        record { cpu = cpu; board = b },
        settled core h.machine valid (all_exist p && h.cpu) (can_destroy p)
            (record { cpu = cpu; board = b }) w.machine (cpu_create-valid h w)
            (both (all_exist p) h.cpu (whole-exists h w) w.cpu),
      )
