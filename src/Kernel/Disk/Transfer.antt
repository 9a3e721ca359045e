-- ===== src/Kernel/Disk/Transfer.antt =====
-- A sector of a block that kernel/disk.c reads, from the command to the emulated disk to the buffer's frame.
use cpu.Prelude.{
  ℕ, zero, suc, ◌+◌, ◌-◌, ◌*◌, ◌/◌, ◌%◌, ◌<◌, ◌≤◌, ltb, has, update, true, false, some, ◌≡◌, refl,
  sym, ap, ◌∙◌, fun_ext, arith, inr, ◌⊎◌,
}
use mathlib.Core.Path.{subst}
use cpu.Machine.Map.{
  disk_buf, disk_cmd, disk_lba, disk_cmd_read, disk_sector_size, disk_latency, disk_status_ready,
  plic_pin_disk,
}
use cpu.Machine.State.{Board, DiskFile}
use cpu.Machine.Bus.{read, write, translate, read_physical, write_physical}
use cpu.Machine.Devices.{file_read, plic_raise}
use cpu.Machine.Devices.Countdown.{disk_steps}
use cpu.Machine.Devices.Sectors.{run_command, read_command, offset_of}
use cpu.Kernel.State.{Kernel}
use cpu.Kernel.Command.{load, store}
use cpu.Kernel.Memory.{copy_up, memcpy}
use cpu.Kernel.Memory.Moved.{
  scattered, scattered-step, scattered-zero, scattered-inside, scattered-outside,
}
use cpu.Kernel.Mmu.Windows.{IsSynced, installed, with_ram, mmu_map_window_lem}
use cpu.Kernel.Pcb.Access.{IsFrame, Shows, store_lem, unmap-mapped}
use cpu.Kernel.Disk.{flag_dirty, sector_address, lba_of, start, receive_sector}

load-buffer :
    (k : Kernel) (i : ℕ)
    → k.board.mmu.page_table 15 ≡ 15
    → i < disk_sector_size
    → load (disk_buf + i) k ≡ some (k.board.disk.buffer i, k)
unfolding load read translate read_physical
load-buffer k i h small =
    let index : disk_buf + i - disk_buf ≡ i = omega arith in ground (arith, h, small, index)

-- The copy loop from the disk's buffer to one page.
copy_up-sector :
    (n va i f : ℕ) (k : Kernel)
    → k.board.mmu.page_table 15 ≡ 15
    → Shows k va f
    → va % 4096 + n ≤ 4096
    → i + n ≤ disk_sector_size
    → copy_up n va (disk_buf + i) k
      ≡ some (tt, with_ram k (scattered k.board.ram (f * 4096 + va % 4096) n i k.board.disk.buffer))
unfolding copy_up
copy_up-sector zero va i f k m s h inside =
    ap (λ r. some (tt, with_ram k r))
      (scattered-zero k.board.ram (f * 4096 + va % 4096) i k.board.disk.buffer)
copy_up-sector (suc zero) va i f k m s h inside = rw (load-buffer k i m (omega arith)) (
    rw (store_lem k va f (k.board.disk.buffer i) s)
      (ap (λ r. some (tt, with_ram k r)) (fun_ext λ a. ground arith)))
copy_up-sector (suc (suc n)) va i f k m s h inside =
    let base = f * 4096 + va % 4096 in
    let src = k.board.disk.buffer in
    let k' = with_ram k (update k.board.ram base (src i)) in
    let next : f * 4096 + (va + 1) % 4096 ≡ base + 1 = omega arith in
    let page : (va + 1) / 4096 ≡ va / 4096 = omega arith in
    let s' : Shows k' (va + 1) f = record {
      page = ap k.board.mmu.page_table page ∙ s.page;
      frame = s.frame;
    } in
    let after : disk_buf + i + 1 ≡ disk_buf + (i + 1) = omega arith in
    rw (load-buffer k i m (omega arith)) (
      rw (store_lem k va f (src i) s) (
        ap (λ a. copy_up (suc n) (va + 1) a k') after
        ∙ copy_up-sector (suc n) (va + 1) (i + 1) f k' m s' (omega arith) (omega arith)
        ∙ ap (λ b. some (tt, with_ram k (scattered k'.board.ram b (suc n) (i + 1) src))) next
        ∙ ap (λ r. some (tt, with_ram k r)) (scattered-step k.board.ram base (suc n) i src)))

-- Where a sector of the buffer is in memory.
abbrev pub sector_base : Kernel → ℕ → ℕ
sector_base k b = (k.buffers b).frame * 4096 + k.disk_queue.sector_offset * disk_sector_size

module _ (k : Kernel) (b : ℕ) (sync : IsSynced k) (frame : IsFrame (k.buffers b).frame)
    (inside : k.disk_queue.sector_offset < 8)
    (clean : has (k.buffers b).flags flag_dirty ≡ false) where
  memcpy-sector :
      memcpy (sector_address k) disk_buf disk_sector_size (installed 2 (k.buffers b).frame k)
      ≡ some (
        tt,
        with_ram
            (installed 2 (k.buffers b).frame k)
            (scattered k.board.ram (sector_base k b) disk_sector_size 0 k.board.disk.buffer),
      )
  unfolding memcpy
  memcpy-sector =
      let shown = installed 2 (k.buffers b).frame k in
      let lower : ltb (sector_address k) disk_buf ≡ true = ground arith in
      let base : (k.buffers b).frame * 4096 + sector_address k % 4096 ≡ sector_base k b =
        omega arith in
      let page : sector_address k / 4096 ≡ 2 = omega arith in
      rw lower (
        copy_up-sector disk_sector_size (sector_address k) 0 (k.buffers b).frame shown
          (sync.registers) (record { page = ap shown.board.mmu.page_table page; frame = frame })
          (omega arith) (omega arith)
        ∙ ap
            (λ a.
              some (
                tt,
                with_ram shown (scattered k.board.ram a disk_sector_size 0 k.board.disk.buffer),
              ))
            base)

  receive_sector-stored :
      receive_sector b k
      ≡ some (
        tt,
        with_ram k (scattered k.board.ram (sector_base k b) disk_sector_size 0 k.board.disk.buffer),
      )
  unfolding receive_sector
  receive_sector-stored = rw clean (
      rw (mmu_map_window_lem 2 (k.buffers b).frame k sync (inr refl), memcpy-sector)
        (unmap-mapped 2 (k.buffers b).frame k
          (scattered k.board.ram (sector_base k b) disk_sector_size 0 k.board.disk.buffer) sync
          (inr refl)))

-- The board when the kernel has given the sector's number.
abbrev pub with_lba : Board → ℕ → Board
with_lba b lba = record b { disk = record (b.disk) { lba_low = lba % 256; lba_high = lba / 256 } }

pub write-lba_low :
    (b : Board) (v : ℕ)
    → b.mmu.page_table 15 ≡ 15
    → write disk_lba v b ≡ record b { disk = record (b.disk) { lba_low = v } }
unfolding write translate write_physical
write-lba_low b v m = ground (arith, m)

pub write-lba_high :
    (b : Board) (v : ℕ)
    → b.mmu.page_table 15 ≡ 15
    → write (disk_lba + 1) v b ≡ record b { disk = record (b.disk) { lba_high = v } }
unfolding write translate write_physical
write-lba_high b v m = ground (arith, m)

pub write-cmd :
    (b : Board) (v : ℕ)
    → b.mmu.page_table 15 ≡ 15
    → write disk_cmd v b ≡ write_physical disk_cmd v b
unfolding write translate
write-cmd b v m = rw m refl

start-read :
    (k : Kernel) (b : ℕ)
    → k.board.mmu.page_table 15 ≡ 15
    → has (k.buffers b).flags flag_dirty ≡ false
    → start b k
      ≡ some (
        tt,
        record k { board = write_physical disk_cmd disk_cmd_read (with_lba k.board (lba_of k b)) },
      )
unfolding start store
start-read k b m clean =
    let lba = lba_of k b in
    rw clean (
      rw (write-lba_low k.board (lba % 256) m) (
        rw
          (write-lba_high
            (record (k.board) { disk = record (k.board.disk) { lba_low = lba % 256 } }) (lba / 256)
            m)
          (ap (λ x. some (tt, record k { board = x }))
            (write-cmd (with_lba k.board lba) disk_cmd_read m))))

-- A sector that has been read: the disk's command was started, and when the disk is done and the kernel has
-- copied its buffer, memory holds the sector of the file in the frame of the buffer.
pub record IsTransferred (k : Kernel) (b written : ℕ) : Type 0 where
  pub started : Kernel
  pub ram : ℕ → ℕ
  pub starts : start b k ≡ some (tt, started)
  pub ready : (disk_steps written disk_latency started.board).disk.status ≡ disk_status_ready
  pub raised :
      (disk_steps written disk_latency started.board).plic ≡ plic_raise k.board.plic plic_pin_disk
  pub receives :
      let done = record started { board = disk_steps written disk_latency started.board } in
      receive_sector b done ≡ some (tt, with_ram done ram)
  pub sector :
      (i : ℕ)
      → i < disk_sector_size
      → ram (sector_base k b + i) ≡ k.board.disk.file.byte (lba_of k b * disk_sector_size + i)
  pub others :
      (a : ℕ)
      → (a < sector_base k b) ⊎ (sector_base k b + disk_sector_size ≤ a)
      → ram a ≡ k.board.ram a

file_read-whole :
    (f : DiskFile) (offset : ℕ) (buffer : ℕ → ℕ) (i : ℕ)
    → i < disk_sector_size
    → offset + disk_sector_size ≤ f.size
    → file_read f offset buffer i ≡ f.byte (offset + i)
file_read-whole f offset buffer i small h = ground (arith, small, h)

-- When the kernel starts a READ for a buffer, the emulated disk makes its steps and disk_interrupt copies
-- the sector, memory holds the sector of the disk image whose number is the block's number times eight plus
-- the sector offset, modulo 2 ^ 16, in the buffer's frame at that offset, and nothing else of memory
-- changes; the disk is READY and has raised its pin. The kernel's map is installed, the buffer is not dirty, its frame is one of kalloc,
-- the sector offset is below eight, and the sector is within the image.
pub sector_read :
    (k : Kernel) (b written : ℕ)
    → IsSynced k
    → IsFrame (k.buffers b).frame
    → k.disk_queue.sector_offset < 8
    → has (k.buffers b).flags flag_dirty ≡ false
    → lba_of k b * disk_sector_size + disk_sector_size ≤ k.board.disk.file.size
    → IsTransferred k b written
unfolding run_command
sector_read k b written sync frame inside clean fits =
    let board = with_lba k.board (lba_of k b) in
    let same : offset_of board.disk ≡ lba_of k b * disk_sector_size = omega arith in
    let done = read_command written board (omega (arith, fits, same)) in
    let read = file_read board.disk.file (offset_of board.disk) board.disk.buffer in
    let k' = record k {
      board = record board {
        disk = record (board.disk) {
          cmd = disk_cmd_read;
          status = disk_status_ready;
          delay = 0;
          buffer = read;
        };
        plic = plic_raise board.plic plic_pin_disk;
      };
    } in
    let sync' : IsSynced k' = record {
      registers = sync.registers;
      window_one = sync.window_one;
      window_two = sync.window_two;
      tracked_one = sync.tracked_one;
      tracked_two = sync.tracked_two;
    } in
    record {
      started = record k { board = write_physical disk_cmd disk_cmd_read board };
      ram = scattered k.board.ram (sector_base k b) disk_sector_size 0 read;
      starts = start-read k b sync.registers clean;
      ready = ap (λ x. x.disk.status) done;
      raised = ap (λ x. x.plic) done;
      receives =
          subst
            (λ x.
              receive_sector b (record k { board = x })
              ≡ some (
                tt,
                with_ram (record k { board = x })
                    (scattered k.board.ram (sector_base k b) disk_sector_size 0 read),
              ))
            (sym done) (receive_sector-stored k' b sync' frame inside clean);
      sector = λ i small.
          scattered-inside k.board.ram (sector_base k b) disk_sector_size read i small
          ∙ file_read-whole board.disk.file (offset_of board.disk) board.disk.buffer i small
              (omega (arith, fits, same))
          ∙ ap (λ o. k.board.disk.file.byte (o + i)) same;
      others = λ a out. scattered-outside k.board.ram (sector_base k b) disk_sector_size read a out;
    }
