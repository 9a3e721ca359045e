-- ===== src/Machine/Devices/Sectors.antt =====
-- The disk's commands on machine/machine.c from the register write to the interrupt: what a sector
-- holds after it is written, and what a read brings.
use cpu.Prelude.{ℕ, ◌+◌, ◌*◌, ◌≤◌, ◌<◌, ◌≡◌, refl, ◌∙◌, arith, true, ◌⊎◌}
use cpu.Machine.Map.{
  plic_pin_disk, disk_status_busy, disk_cmd, disk_cmd_read, disk_cmd_write, disk_latency,
  disk_status_ready, disk_status_error, disk_sector_size,
}
use cpu.Machine.State.{Board, Disk}
use cpu.Machine.Bus.{write_physical, write_disk_cmd}
use cpu.Machine.Devices.{
  plic_raise, disk_finish, disk_read, disk_write, disk_transfer, file_read, file_write, lba_of,
}
use cpu.Machine.Devices.Countdown.{disk_steps, set_delay, disk_latency_lem}

-- A command to the disk, and the steps until it is done.
unfoldable pub run_command : ℕ → ℕ → Board → Board
run_command command written b = disk_steps written disk_latency (write_physical disk_cmd command b)

abbrev pub offset_of : Disk → ℕ
offset_of d = lba_of d * disk_sector_size

disk_read-whole :
    (d : Disk)
    → offset_of d + disk_sector_size ≤ d.file.size
    → disk_read d ≡ (
      true,
      record d { buffer = file_read d.file (offset_of d) d.buffer; status = disk_status_ready },
    )
unfolding disk_read
disk_read-whole d h = ground arith

abbrev pub commanded : ℕ → Board → Board
commanded command b = record b {
  disk = record (b.disk) { cmd = command; status = disk_status_busy };
}

command_starts :
    (command : ℕ) (b : Board)
    → (command ≡ disk_cmd_read) ⊎ (command ≡ disk_cmd_write)
    → write_physical disk_cmd command b ≡ set_delay (commanded command b) disk_latency
unfolding write_physical write_disk_cmd
command_starts command b h = ground arith

run_command-finish :
    (command written : ℕ) (b : Board)
    → (command ≡ disk_cmd_read) ⊎ (command ≡ disk_cmd_write)
    → run_command command written b ≡ (disk_finish written (set_delay (commanded command b) 0)).1
unfolding run_command
run_command-finish command written b h =
    rw (command_starts command b h)
      (disk_latency_lem written 199 (commanded command b) refl (omega arith)).1

-- The WRITE command, when the host takes the whole sector: after the latency the sector of the file
-- holds the buffer, the status is READY and the disk's pin is raised.
pub write_command :
    (b : Board)
    → run_command disk_cmd_write disk_sector_size b ≡ record b {
      disk = record (b.disk) {
        cmd = disk_cmd_write;
        status = disk_status_ready;
        delay = 0;
        file = file_write b.disk.file (offset_of b.disk) disk_sector_size b.disk.buffer;
      };
      plic = plic_raise b.plic plic_pin_disk;
    }
unfolding disk_finish disk_write disk_transfer
write_command b = run_command-finish disk_cmd_write disk_sector_size b (omega arith)

-- The READ command at a sector that the file holds: after the latency the buffer is the sector, the
-- status is READY and the disk's pin is raised.
pub read_command :
    (written : ℕ) (b : Board)
    → offset_of b.disk + disk_sector_size ≤ b.disk.file.size
    → run_command disk_cmd_read written b ≡ record b {
      disk = record (b.disk) {
        cmd = disk_cmd_read;
        status = disk_status_ready;
        delay = 0;
        buffer = file_read b.disk.file (offset_of b.disk) b.disk.buffer;
      };
      plic = plic_raise b.plic plic_pin_disk;
    }
unfolding disk_finish disk_transfer
read_command written b h =
    run_command-finish disk_cmd_read written b (omega arith)
    ∙ rw (disk_read-whole (set_delay (commanded disk_cmd_read b) 0).disk h)

-- A READ behind the end of the file: the status is ERROR, and no interrupt is raised.
pub read_command_short :
    (written : ℕ) (b : Board)
    → b.disk.file.size < offset_of b.disk + disk_sector_size
    → let b' = run_command disk_cmd_read written b in
      (b'.disk.status ≡ disk_status_error) × (b'.plic ≡ b.plic)
unfolding disk_finish disk_transfer disk_read
read_command_short written b h =
    rw (run_command-finish disk_cmd_read written b (omega arith)) (ground arith)

-- The sector that a WRITE command wrote is what a READ command at the same address brings back,
-- whatever the buffer was overwritten with in between; both end with READY, and the bytes of the
-- other sectors of the file stay.
pub read-write_sector :
    (b : Board) (other : ℕ → ℕ)
    → let b₁ = run_command disk_cmd_write disk_sector_size b in
      let b₂ =
        run_command disk_cmd_read disk_sector_size
          (record b₁ { disk = record (b₁.disk) { buffer = other } }) in
      (b₁.disk.status ≡ disk_status_ready)
      × (b₂.disk.status ≡ disk_status_ready)
      × ((i : ℕ) → i < disk_sector_size → b₂.disk.buffer i ≡ b.disk.buffer i)
      × ((j : ℕ)
          → j < b.disk.file.size
          → (j < offset_of b.disk) ⊎ (offset_of b.disk + disk_sector_size ≤ j)
          → b₂.disk.file.byte j ≡ b.disk.file.byte j)
read-write_sector b other = rw (write_command b) (
    rw
      (read_command disk_sector_size
        (record (written b) { disk = record ((written b).disk) { buffer = other } }) (ground arith))
      (refl, refl, λ i h. ground arith, λ j h out. ground arith))
  where
    written : Board → Board
    written b = record b {
      disk = record (b.disk) {
        cmd = disk_cmd_write;
        status = disk_status_ready;
        delay = 0;
        file = file_write b.disk.file (offset_of b.disk) disk_sector_size b.disk.buffer;
      };
      plic = plic_raise b.plic plic_pin_disk;
    }
