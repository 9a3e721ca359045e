-- ===== src/Tests/Sectors.antt =====
-- A sector that a concrete kernel reads, and one that it writes.
use cpu.Prelude.{some, refl, arith}
use cpu.Kernel.State.{Kernel}
use cpu.Kernel.Mmu.Windows.{IsSynced}
use cpu.Kernel.Disk.Transfer.{IsTransferred, sector_read}
use cpu.Kernel.Disk.Storing.{IsStored, sector_written}
use cpu.Tests.Kernels.{kernel, buffer}

-- Buffer 3 gets sector 2 of block 5.
abbrev reading : Kernel
reading = record kernel {
  buffers = λ b. record (buffer b) { block_number = 5 };
  disk_queue = record { head = some 3; tail = some 3; sector_offset = 2 };
}

reading-IsSynced : IsSynced reading
reading-IsSynced = record {
  registers = refl;
  window_one = refl;
  window_two = refl;
  tracked_one = λ p c. ground arith;
  tracked_two = λ p c. ground arith;
}

sector_read_example : IsTransferred reading 3 512
sector_read_example =
    sector_read reading 3 512 reading-IsSynced (omega arith) (omega arith) refl (omega arith)

abbrev writing : Kernel
writing = record reading { buffers = λ b. record (buffer b) { block_number = 5; flags = 5 } }

writing-IsSynced : IsSynced writing
writing-IsSynced = record {
  registers = refl;
  window_one = refl;
  window_two = refl;
  tracked_one = λ p c. ground arith;
  tracked_two = λ p c. ground arith;
}

sector_written_example : IsStored writing 3
sector_written_example = sector_written writing 3 writing-IsSynced (omega arith) (omega arith) refl
