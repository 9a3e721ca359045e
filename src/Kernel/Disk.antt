-- ===== src/Kernel/Disk.antt =====
-- kernel/disk.c: the queue of buffers that wait for the disk, and the transfer of a block by its sectors.
pub mod Queue
pub mod Transfer
pub mod Storing
use cpu.Prelude.{
  ℕ, ◌+◌, ◌*◌, ◌%◌, ◌==◌, leb, if◌then◌else◌, update, has, set_bits, clear_bits, Bool, true, false,
  not, Option, none, some,
}
use cpu.Machine.Map.{
  disk_buf, disk_stat, disk_cmd, disk_lba, disk_cmd_read, disk_cmd_write, disk_sector_size,
  disk_status_ready, plic_interrupt_lines, plic_pin_disk,
}
use cpu.Kernel.State.{Kernel, BlockBuffer, DiskQueue, Layout, window_two}
use cpu.Kernel.Command.{
  Command, pure, panic, when, choose, ◌>>=◌, ◌>>◌, load, store, clear_register,
}
use cpu.Kernel.Memory.{memcpy}
use cpu.Kernel.Mmu.{mmu_map_window, mmu_unmap_window, store16}
use cpu.Kernel.Wakeup.{wakeup}
use cpu.Kernel.Scheduler.{Switch}
use cpu.Kernel.Sleep.{sleep}

abbrev pub flag_busy : ℕ
flag_busy = 1

abbrev pub flag_valid : ℕ
flag_valid = 2

abbrev pub flag_dirty : ℕ
flag_dirty = 4

-- BLOCK_SIZE / DISK_SECTOR_SIZE
abbrev pub sectors_per_block : ℕ
sectors_per_block = 8

unfoldable pub disk_init : Command (Unit {0})
disk_init k =
    some (tt, record k { disk_queue = record (k.disk_queue) { head = none; tail = none } })

-- Assignments to fields of `*b` and of the static `disk`.
abbrev pub set_buffer : ℕ → BlockBuffer → Command (Unit {0})
set_buffer b v k = some (tt, record k { buffers = update k.buffers b v })

abbrev pub set_flags : ℕ → ℕ → Command (Unit {0})
set_flags b f k = set_buffer b (record (k.buffers b) { flags = f }) k

abbrev pub set_queue : ℕ → Option ℕ → Command (Unit {0})
set_queue b q k = set_buffer b (record (k.buffers b) { queue = q }) k

abbrev pub set_disk : DiskQueue → Command (Unit {0})
set_disk d k = some (tt, record k { disk_queue = d })

abbrev pub set_offset : ℕ → Command (Unit {0})
set_offset o k = set_disk (record (k.disk_queue) { sector_offset = o }) k

-- `WINDOW2 + disk.sector_offset * DISK_SECTOR_SIZE`
abbrev pub sector_address : Kernel → ℕ
sector_address k = window_two + k.disk_queue.sector_offset * disk_sector_size

-- The frame of the buffer in window 2 around a copy.
abbrev pub with_frame : ℕ → Command (Unit {0}) → Command (Unit {0})
with_frame b m k =
    (do (window, old_frame) ← mmu_map_window 2 (k.buffers b).frame; m; mmu_unmap_window 2 old_frame)
      k

abbrev pub lba_of : Kernel → ℕ → ℕ
lba_of k b = ((k.buffers b).block_number * sectors_per_block + k.disk_queue.sector_offset) % 0x10000

-- The branches of disk_start_operation for a buffer.
unfoldable pub start : ℕ → Command (Unit {0})
start b k =
    choose (has (k.buffers b).flags flag_dirty)
      (do
        with_frame b (memcpy disk_buf (sector_address k) disk_sector_size)
        store16 disk_lba (lba_of k b)
        store disk_cmd disk_cmd_write)
      (do store16 disk_lba (lba_of k b); store disk_cmd disk_cmd_read) k

-- `f` at the head of the queue, if there is one.
abbrev pub at_head : Option ℕ → (ℕ → Command (Unit {0})) → Command (Unit {0})
at_head none f = pure tt
at_head (some b) f = f b

unfoldable pub disk_start_operation : Command (Unit {0})
unfolding start
disk_start_operation k = at_head k.disk_queue.head start k

-- `disk.tail->queue = b`; behind NULL the model stops.
abbrev pub link : Option ℕ → ℕ → Command (Unit {0})
link none b = panic
link (some t) b = set_queue t (some b)

abbrev pub is_head : Option ℕ → ℕ → Bool
is_head none b = false
is_head (some h) b = h == b

abbrev pub set_head : Option ℕ → Command (Unit {0})
set_head h k = set_disk (record (k.disk_queue) { head = h }) k

abbrev pub set_tail : Option ℕ → Command (Unit {0})
set_tail t k = set_disk (record (k.disk_queue) { tail = t }) k

-- `if(disk.head == NULL) disk.head = b; else disk.tail->queue = b;`
abbrev pub insert : Option ℕ → ℕ → Command (Unit {0})
insert none b k = set_head (some b) k
insert (some h) b k = link k.disk_queue.tail b k

-- The part of disk_submit that appends to the queue.
unfoldable pub append : ℕ → Command (Unit {0})
append b = do set_queue b none; (λ k. insert k.disk_queue.head b k); set_tail (some b)

-- The part that starts the disk for the first in line.
unfoldable pub start_first : ℕ → Command (Unit {0})
start_first b k = when (is_head k.disk_queue.head b) (do set_offset 0; disk_start_operation) k

-- disk_interrupt for a buffer whose last sector is done.
unfoldable pub finish_block : ℕ → Command (Unit {0})
finish_block b k =
    (do
      set_flags b (clear_bits (set_bits (k.buffers b).flags flag_valid) flag_dirty)
      set_head (k.buffers b).queue)
      k

-- `if(disk.head != NULL){ disk.sector_offset = 0; disk_start_operation(); }`
unfoldable pub start_next : Command (Unit {0})
start_next k = at_head k.disk_queue.head (λ b. do set_offset 0; disk_start_operation) k

-- The copy of a sector that was read.
unfoldable pub receive_sector : ℕ → Command (Unit {0})
receive_sector b k =
    when (not (has (k.buffers b).flags flag_dirty))
      (with_frame b (memcpy (sector_address k) disk_buf disk_sector_size)) k

-- `disk.sector_offset++`
abbrev pub next_sector : Command (Unit {0})
next_sector k = set_offset ((k.disk_queue.sector_offset + 1) % 256) k

unfoldable pub sector_done : Layout → ℕ → Command (Unit {0})
sector_done l b = do
  receive_sector b
  next_sector
  λ k.
      choose (leb sectors_per_block k.disk_queue.sector_offset)
        (do finish_block b; wakeup (l.buffer_address b); start_next) disk_start_operation k

unfoldable pub disk_interrupt : Layout → Command (Unit {0})
disk_interrupt l = do
  clear_register plic_interrupt_lines plic_pin_disk
  status ← load disk_stat
  when (has status disk_status_ready) (λ k. at_head k.disk_queue.head (sector_done l) k)

module _ (run : Switch → Command (Unit {0})) (l : Layout) where
  unfoldable pub disk_submit : ℕ → Command (Unit {0})
  disk_submit b = do append b; start_first b; sleep run (l.buffer_address b)

  unfoldable pub disk_block_read : ℕ → Command (Unit {0})
  disk_block_read b = do
    λ k. set_flags b (clear_bits (k.buffers b).flags flag_dirty) k
    disk_submit b

  unfoldable pub disk_block_write : ℕ → Command (Unit {0})
  disk_block_write b = do
    λ k. set_flags b (set_bits (k.buffers b).flags flag_dirty) k
    disk_submit b
