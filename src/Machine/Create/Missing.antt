-- ===== src/Machine/Create/Missing.antt =====
-- Machine_create of machine/machine.c where an image is missing.
use cpu.Prelude.{Bool, true, false, ◌&&◌, none, ◌≡◌, ◌⊎◌, refl, arith, inl, inr, Bool-cases}
use cpu.Machine.Core.{Core}
use cpu.Machine.Create.{
  Host, Parts, null_access, exists, all_exist, can_destroy, create_parts, cpu_create,
  machine_create, rom_create, disk_create,
}

rom-missing : (h : Host) → h.rom_image ≡ none → exists (rom_create h) ≡ false
unfolding rom_create
rom-missing h e = elim (Bool-cases (h.rom && h.rom_data)) [
  | inl y ↦ rw (y, e) refl
  | inr y ↦ rw y refl
]

disk-missing : (h : Host) → h.disk_image ≡ none → exists (disk_create h) ≡ false
unfolding disk_create
disk-missing h e = elim (Bool-cases h.disk) [ inl y ↦ rw (y, e) refl | inr y ↦ rw y refl ]

-- A file that is missing leaves its part NULL.
some_missing :
    (h : Host)
    → (h.rom_image ≡ none) ⊎ (h.disk_image ≡ none)
    → (exists (create_parts h).rom ≡ false) ⊎ (exists (create_parts h).disk ≡ false)
unfolding create_parts
some_missing h (inl e) = inl (rom-missing h e)
some_missing h (inr e) = inr (disk-missing h e)

not_destroyed :
    (p : Parts) → (exists p.rom ≡ false) ⊎ (exists p.disk ≡ false) → can_destroy p ≡ false
not_destroyed p h = ground (arith, h)

not_whole :
    (p : Parts) (cpu : Bool)
    → (exists p.rom ≡ false) ⊎ (exists p.disk ≡ false)
    → (all_exist p && cpu) ≡ false
not_whole p cpu h = ground (arith, h)

-- Where there is memory for the machine, and the ROM or the disk image is missing, Machine_create follows a
-- null pointer and does not return NULL, whatever else fails.
pub machine_create-missing :
    (core : Core) (h : Host)
    → h.machine ≡ true
    → (h.rom_image ≡ none) ⊎ (h.disk_image ≡ none)
    → machine_create core h ≡ null_access
unfolding machine_create
machine_create-missing core h there missing =
    let p = create_parts h in
    let gone = some_missing h missing in
    rw (there, not_whole p h.cpu gone, not_destroyed p gone)
      (elim (Bool-cases (cpu_create core h p).1.0) [ inl e ↦ rw e refl | inr e ↦ rw e refl ])
