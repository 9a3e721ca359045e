-- ===== src/Kernel/Disk/Storing.antt =====
-- A sector of a block that kernel/disk.c writes, from the buffer's frame to the image of the emulated disk.
use cpu.Prelude.{
  ℕ, zero, suc, ◌+◌, ◌-◌, ◌*◌, ◌/◌, ◌%◌, ◌<◌, ◌≤◌, ltb, has, update, true, false, some, ◌≡◌, refl,
  sym, ap, ◌∙◌, fun_ext, arith, inr, ◌⊎◌,
}
use mathlib.Core.Path.{subst}
use cpu.Machine.Map.{
  disk_buf, disk_cmd, disk_cmd_write, disk_sector_size, disk_latency, disk_status_ready,
  plic_pin_disk,
}
use cpu.Machine.State.{Board, DiskFile}
use cpu.Machine.Bus.{write, translate, write_physical}
use cpu.Machine.Devices.{file_write, plic_raise}
use cpu.Machine.Devices.Countdown.{disk_steps}
use cpu.Machine.Devices.Sectors.{run_command, write_command, offset_of}
use cpu.Kernel.State.{Kernel}
use cpu.Kernel.Command.{store}
use cpu.Kernel.Memory.{copy_down, memcpy}
use cpu.Kernel.Memory.Moved.{gathered, gathered-inside}
use cpu.Kernel.Mmu.Windows.{IsSynced, installed, mmu_map_window_lem}
use cpu.Kernel.Pcb.Access.{IsFrame, Shows, load_lem, unmap-mapped}
use cpu.Kernel.Disk.{flag_dirty, sector_address, lba_of, start}
use cpu.Kernel.Disk.Transfer.{sector_base, with_lba, write-lba_low, write-lba_high, write-cmd}

abbrev with_buffer : Kernel → (ℕ → ℕ) → Kernel
with_buffer k buffer = record k {
  board = record (k.board) { disk = record (k.board.disk) { buffer = buffer } };
}

store-buffer :
    (k : Kernel) (i v : ℕ)
    → k.board.mmu.page_table 15 ≡ 15
    → i < disk_sector_size
    → store (disk_buf + i) v k ≡ some (tt, with_buffer k (update k.board.disk.buffer i v))
unfolding store write translate write_physical
store-buffer k i v h small =
    let index : disk_buf + i - disk_buf ≡ i = omega arith in ground (arith, h, small, index)

gathered-down :
    (ram : ℕ → ℕ) (base n : ℕ) (dst : ℕ → ℕ)
    → gathered ram base n 0 (update dst n (ram (base + n))) ≡ gathered ram base (suc n) 0 dst
gathered-down ram base n dst = fun_ext λ j. ground arith

-- The copy loop from one page to the disk's buffer.
copy_down-sector :
    (n va f : ℕ) (k : Kernel)
    → k.board.mmu.page_table 15 ≡ 15
    → ((i : ℕ) → i < n → Shows k (va + i) f)
    → va % 4096 + n ≤ 4096
    → n ≤ disk_sector_size
    → copy_down n disk_buf va k
      ≡ some
          (tt, with_buffer k (gathered k.board.ram (f * 4096 + va % 4096) n 0 k.board.disk.buffer))
unfolding copy_down
copy_down-sector zero va f k m s h inside =
    ap (λ d. some (tt, with_buffer k d)) (fun_ext λ j. ground arith)
copy_down-sector (suc n) va f k m s h inside =
    let base = f * 4096 + va % 4096 in
    let here : f * 4096 + (va + n) % 4096 ≡ base + n = omega arith in
    let k' = with_buffer k (update k.board.disk.buffer n (k.board.ram (base + n))) in
    rw (load_lem k (va + n) f (s n (omega arith)), here)
      (rw (store-buffer k n (k.board.ram (base + n)) m (omega arith)) (
        copy_down-sector n va f k' m
          (λ i small. (let t = s i (omega arith) in record { page = t.page; frame = t.frame }))
          (omega arith) (omega arith)
        ∙ ap (λ d. some (tt, with_buffer k d))
            (gathered-down k.board.ram base n k.board.disk.buffer)))

-- What the disk's buffer holds when the kernel has copied the sector.
abbrev pub sector_of : Kernel → ℕ → ℕ → ℕ
sector_of k b = gathered k.board.ram (sector_base k b) disk_sector_size 0 k.board.disk.buffer

module _ (k : Kernel) (b : ℕ) (sync : IsSynced k) (frame : IsFrame (k.buffers b).frame)
    (inside : k.disk_queue.sector_offset < 8)
    (dirty : has (k.buffers b).flags flag_dirty ≡ true) where
  memcpy-sector :
      memcpy disk_buf (sector_address k) disk_sector_size (installed 2 (k.buffers b).frame k)
      ≡ some (tt, with_buffer (installed 2 (k.buffers b).frame k) (sector_of k b))
  unfolding memcpy
  memcpy-sector =
      let shown = installed 2 (k.buffers b).frame k in
      let higher : ltb disk_buf (sector_address k) ≡ false = ground arith in
      let base : (k.buffers b).frame * 4096 + sector_address k % 4096 ≡ sector_base k b =
        omega arith in
      let page : (i : ℕ) → i < disk_sector_size → (sector_address k + i) / 4096 ≡ 2 =
        λ i small. omega (arith, small, inside) in
      rw higher (
        copy_down-sector disk_sector_size (sector_address k) (k.buffers b).frame shown
          sync.registers
          (λ i small. record { page = ap shown.board.mmu.page_table (page i small); frame = frame })
          (omega arith) (omega arith)
        ∙ ap
            (λ a. some (
              tt,
              with_buffer shown (gathered k.board.ram a disk_sector_size 0 k.board.disk.buffer),
            ))
            base)

  -- The board when the kernel has given the sector and its number.
  abbrev given : Board
  given = with_lba (with_buffer k (sector_of k b)).board (lba_of k b)

  with_buffer-IsSynced : IsSynced (with_buffer k (sector_of k b))
  with_buffer-IsSynced = record {
    registers = sync.registers;
    window_one = sync.window_one;
    window_two = sync.window_two;
    tracked_one = sync.tracked_one;
    tracked_two = sync.tracked_two;
  }

  start-write :
      start b k ≡ some (tt, record k { board = write_physical disk_cmd disk_cmd_write given })
  unfolding start store
  start-write =
      let lba = lba_of k b in
      let k' = with_buffer k (sector_of k b) in
      rw dirty (
        rw (mmu_map_window_lem 2 (k.buffers b).frame k sync (inr refl), memcpy-sector)
          (rw (unmap-mapped 2 (k.buffers b).frame k' k.board.ram with_buffer-IsSynced (inr refl)) (
            rw (write-lba_low k'.board (lba % 256) sync.registers) (
              rw
                (write-lba_high
                  (record (k'.board) { disk = record (k'.board.disk) { lba_low = lba % 256 } })
                  (lba / 256) sync.registers)
                (ap (λ x. some (tt, record k { board = x }))
                  (write-cmd given disk_cmd_write sync.registers))))))

-- A sector that has been written: the disk's command was started, and when the disk is done the image holds
-- the sector of the buffer's frame.
pub record IsStored (k : Kernel) (b : ℕ) : Type 0 where
  pub started : Kernel
  pub starts : start b k ≡ some (tt, started)
  pub ready :
      (disk_steps disk_sector_size disk_latency started.board).disk.status ≡ disk_status_ready
  pub raised :
      (disk_steps disk_sector_size disk_latency started.board).plic
      ≡ plic_raise k.board.plic plic_pin_disk
  pub sector :
      (i : ℕ)
      → i < disk_sector_size
      → (disk_steps disk_sector_size disk_latency started.board).disk.file.byte
          (lba_of k b * disk_sector_size + i)
        ≡ k.board.ram (sector_base k b + i)
  pub others :
      (j : ℕ)
      → j < k.board.disk.file.size
      → (j < lba_of k b * disk_sector_size) ⊎ (lba_of k b * disk_sector_size + disk_sector_size ≤ j)
      → (disk_steps disk_sector_size disk_latency started.board).disk.file.byte j
        ≡ k.board.disk.file.byte j

file_write-sector :
    (f : DiskFile) (offset : ℕ) (buffer : ℕ → ℕ) (i : ℕ)
    → i < disk_sector_size
    → (file_write f offset disk_sector_size buffer).byte (offset + i) ≡ buffer i
file_write-sector f offset buffer i small =
    let index : offset + i - offset ≡ i = omega arith in ground (arith, small, index)

file_write-others :
    (f : DiskFile) (offset : ℕ) (buffer : ℕ → ℕ) (j : ℕ)
    → j < f.size
    → (j < offset) ⊎ (offset + disk_sector_size ≤ j)
    → (file_write f offset disk_sector_size buffer).byte j ≡ f.byte j
file_write-others f offset buffer j inside out = ground (arith, inside, out)

-- When the kernel starts a WRITE for a buffer, the emulated disk makes its steps and the host takes the whole
-- sector, the disk image holds the sector of the buffer's frame at the sector offset as the sector whose number
-- is the block's number times eight plus the sector offset, modulo 2 ^ 16, and its other bytes stay; the disk is READY and has raised its pin.
-- The kernel's map is installed, the buffer is dirty, its frame is one of kalloc, and the sector offset is
-- below eight.
pub sector_written :
    (k : Kernel) (b : ℕ)
    → IsSynced k
    → IsFrame (k.buffers b).frame
    → k.disk_queue.sector_offset < 8
    → has (k.buffers b).flags flag_dirty ≡ true
    → IsStored k b
unfolding run_command
sector_written k b sync frame inside dirty =
    let board = given k b sync frame inside dirty in
    let same : offset_of board.disk ≡ lba_of k b * disk_sector_size = omega arith in
    let done = write_command board in
    record {
      started = record k { board = write_physical disk_cmd disk_cmd_write board };
      starts = start-write k b sync frame inside dirty;
      ready = ap (λ x. x.disk.status) done;
      raised = ap (λ x. x.plic) done;
      sector = λ i small.
          ap (λ x. x.disk.file.byte (lba_of k b * disk_sector_size + i)) done
          ∙ ap
              (λ o.
                (file_write board.disk.file (offset_of board.disk) disk_sector_size
                    (sector_of k b)).byte
                  (o + i))
              (sym same)
          ∙ file_write-sector board.disk.file (offset_of board.disk) (sector_of k b) i small
          ∙ gathered-inside k.board.ram (sector_base k b) disk_sector_size k.board.disk.buffer i
              small;
      others = λ j size out.
          ap (λ x. x.disk.file.byte j) done
          ∙ file_write-others board.disk.file (offset_of board.disk) (sector_of k b) j size
              (subst (λ o. (j < o) ⊎ (o + disk_sector_size ≤ j)) (sym same) out);
    }
