-- ===== src/Tests/Starts.antt =====
-- The start of concrete machines.
use cpu.Prelude.{◌%◌, true, some, none, [], ◌∷◌, ◌≡◌, refl, arith, inr}
use cpu.Machine.State.{DiskFile}
use cpu.Machine.Core.{Machine}
use cpu.Machine.Create.{Host, created, null_access, machine_create, rom_of, run}
use cpu.Machine.Create.Started.{HasBytes}
use cpu.Machine.Create.Runs.{run-Survives}
use cpu.Machine.Create.Missing.{machine_create-missing}
use cpu.Machine.Create.Whole.{IsWhole, machine_create-created}
use cpu.Machine.Step.Survival.{Survives}
use cpu.Tests.Steps.{storing, storing-HasAccess}

abbrev image : DiskFile
image = record { size = 256; byte = λ i. i % 256 }

abbrev host : Host
host = record {
  machine = true;
  ram = true;
  ram_data = true;
  rom = true;
  rom_data = true;
  rom_image = some image;
  uart = true;
  disk = true;
  disk_image = some image;
  timer = true;
  mmu = true;
  plic = true;
  cpu = true;
}

host-IsWhole : IsWhole host
host-IsWhole = record {
  machine = refl;
  ram = refl;
  ram_data = refl;
  rom = refl;
  rom_data = refl;
  rom_image = refl;
  uart = refl;
  disk = refl;
  disk_image = refl;
  timer = refl;
  mmu = refl;
  plic = refl;
  cpu = refl;
}

host-HasBytes : HasBytes host
host-HasBytes = record { rom = λ file i e. ground (arith, e); disk = λ file i e. ground (arith, e) }

machine_create-missing_example :
    machine_create storing (record host { disk_image = none }) ≡ null_access
machine_create-missing_example =
    machine_create-missing storing (record host { disk_image = none }) refl (inr refl)

machine_create-created_example : (m : Machine storing) × (machine_create storing host ≡ created m)
machine_create-created_example = machine_create-created storing storing-HasAccess host host-IsWhole

abbrev started : (m : Machine storing) × (machine_create storing host ≡ created m)
started = machine_create-created storing storing-HasAccess host host-IsWhole

run-Survives_example :
    Survives
      (rom_of image).contents
      image
      (run storing
        (record { key = some 0x41; written = 0 } ∷ record { key = none; written = 512 } ∷ [])
        started.0).board
run-Survives_example =
    run-Survives storing storing-HasAccess host started.0
      (record { key = some 0x41; written = 0 } ∷ record { key = none; written = 512 } ∷ []) image
      image host-HasBytes
      ((λ c e. ground (arith, e)), omega arith, ((λ c e. ground (arith, e)), omega arith, tt)) refl
      refl started.1
