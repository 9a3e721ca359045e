-- ===== src/Tests/Storage.antt =====
-- The theorems on the user copies, the disk queue, the bitmap and the quantum at concrete kernels.
use cpu.Prelude.{
  false, ◌-◌, ℕ, ◌+◌, ◌*◌, ◌==◌, leb, if◌then◌else◌, update, within, first, some, [], ◌∷◌, ◌≡◌,
  refl, arith,
}
use cpu.Kernel.State.{Kernel, BlockBuffer}
use cpu.Kernel.Command.{Command, ◌>>◌}
use cpu.Kernel.Mmu.Windows.{IsSynced, with_ram}
use cpu.Kernel.Pcb.{top_offset}
use cpu.Kernel.Pcb.Access.{HasPcb, Shows, cell16, with_ram-IsSynced}
use cpu.Kernel.Copy.{error, copy_to_user, copy_from_user}
use cpu.Kernel.Copy.Outward.{store_user, stored, IsTable, page_table, copy_to_user_lem}
use cpu.Kernel.Copy.Inward.{load_user, copy_from_user_lem}
use cpu.Kernel.Disk.Queue.{IsQueue, Appended, Finished, append_lem, finish_block_lem}
use cpu.Kernel.Fork.{clone_pages}
use cpu.Kernel.Fork.Leak.{abandoned, clone_pages-leaks}
use cpu.Kernel.Bitmap.{find_byte}
use cpu.Kernel.Bitmap.Free.{marked, is_free, find_byte-free}
use cpu.Kernel.State.{ready}
use cpu.Kernel.Wakeup.{with_state}
use cpu.Kernel.Sleep.{yield}
use cpu.Kernel.Scheduler.{Switch}
use cpu.Kernel.Scheduler.Turns.{CanSwitch, scheduler_lem, entered}
use cpu.Kernel.Trap.{use_quantum}
use cpu.Kernel.Trap.Quantum.{with_ticks, use_quantum-twice}
use cpu.Kernel.Buffer.{cache_size, buffer_init, buffer_get}
use cpu.Kernel.Buffer.Ring.{IsRing}
use cpu.Kernel.Buffer.Search.{cached, victim, acquired, buffer_get_lem}
use cpu.Kernel.Buffer.Start.{Ringed, in_front, buffer_init-Ringed}
use cpu.Tests.Kernels.{layout, kernel, kernel-IsSynced, buffer}

-- Process 0 has every page but the third in frame 30 and the top 0x2100.
abbrev pub user : Kernel
user = with_ram kernel (λ a.
    if a == 20 * 4096 + 514
    then 255
    else if within (20 * 4096 + 512) (20 * 4096 + 528) a
    then 30
    else if a == 20 * 4096 + 537
    then 0x21
    else 0)

pub user-HasPcb : HasPcb user 0
user-HasPcb = record {
  synced = with_ram-IsSynced kernel user.board.ram kernel-IsSynced;
  frame = omega arith;
}

pub user-IsTable : IsTable (page_table user 0)
user-IsTable =
    λ s small mapped. record { above = ground (arith, mapped); below = ground (arith, mapped) }

abbrev bytes : ℕ → ℕ
bytes i = i + 1

copy_to_user_example : copy_to_user bytes 0x1ffe 3 0 user ≡ (
    if leb (cell16 user 0 top_offset) 0x1ffe
    then some (error, user)
    else some (stored user (store_user 3 bytes 0 0x1ffe (page_table user 0) user.board.ram)))
copy_to_user_example = copy_to_user_lem bytes 0x1ffe 3 0 user user-HasPcb user-IsTable (omega arith)

copy_from_user_example : copy_from_user bytes 0x1ffe 3 0 user ≡ (
    if leb (cell16 user 0 top_offset) 0x1ffe
    then some ((error, bytes), user)
    else some (load_user 3 bytes 0 0x1ffe (page_table user 0) user.board.ram, user))
copy_from_user_example =
    copy_from_user_lem bytes 0x1ffe 3 0 user user-HasPcb user-IsTable (omega arith)

-- Buffer 3 is read, and buffer 5 waits.
abbrev waiting_buffers : ℕ → BlockBuffer
waiting_buffers b =
    if b == 3
    then record (buffer b) { queue = some 5; flags = 5 }
    else record (buffer b) { flags = 5 }

abbrev busy_disk : Kernel
busy_disk = record kernel {
  buffers = waiting_buffers;
  disk_queue = record { head = some 3; tail = some 5; sector_offset = 0 };
}

busy_disk-IsQueue : IsQueue busy_disk (3 ∷ 5 ∷ [])
busy_disk-IsQueue = record {
  chain = (refl, (refl, refl));
  ends = refl;
  distinct = ((λ e. omega arith, tt), (tt, tt));
}

append_example : Appended busy_disk 7 (3 ∷ 5 ∷ [])
append_example =
    append_lem busy_disk 7 (3 ∷ 5 ∷ []) busy_disk-IsQueue (λ e. omega arith, (λ e. omega arith, tt))

finish_block_example : Finished busy_disk 3 (5 ∷ [])
finish_block_example = finish_block_lem busy_disk 3 (5 ∷ []) busy_disk-IsQueue (omega arith)

-- Window 2 shows frame 50, whose first byte has block 0 and block 1 in use.
abbrev mapped : Kernel
mapped = record kernel {
  board = record (kernel.board) {
    ram = λ a. if a == 50 * 4096 then 3 else 0;
    mmu = record (kernel.board.mmu) { page_table = λ i. if i == 2 then 50 else i };
  };
}

mapped-Shows : Shows mapped 0x2000 50
mapped-Shows = record { page = refl; frame = record { above = omega arith; below = omega arith } }

find_byte-free_example :
    find_byte 4096 0 0 8192 mapped
    ≡ some (marked mapped 50 0 (first (4096 * 8) (0 * 8) (is_free mapped.board.ram 50 0 8192)))
find_byte-free_example =
    find_byte-free 50 0 8192 mapped mapped-Shows 4096 0 (omega arith) (omega arith)

-- The process that the scheduler picks goes on at once.
abbrev at_once : Switch → Command (Unit {0})
at_once s k = some (tt, k)

-- The quantum of process 0 ends.
abbrev tired : Kernel
tired = with_ticks kernel 0 1

tired-IsSynced : IsSynced tired
tired-IsSynced = with_ram-IsSynced kernel tired.board.ram kernel-IsSynced

abbrev rested : Kernel
rested = record tired {
  proc_table = update tired.proc_table 0 (with_state (tired.proc_table 0) ready);
}

rested-CanSwitch : CanSwitch rested
rested-CanSwitch = record {
  synced = record {
    registers = refl;
    window_one = refl;
    window_two = refl;
    tracked_one = λ p c. ground arith;
    tracked_two = λ p c. ground arith;
  };
  frame = λ p r. ground (arith, r);
  same_one = λ p r. ground (arith, r);
  same_two = λ p r. ground (arith, r);
}

-- The scheduler enters process 0 again.
abbrev again : Kernel
again = entered rested 0

yield-again : yield at_once tired ≡ some (tt, again)
unfolding yield first cpu.Kernel.Wakeup.set_state
yield-again = rw (scheduler_lem rested rested-CanSwitch (omega arith)) refl

use_quantum-twice_example :
    (use_quantum at_once >> use_quantum at_once) tired
    ≡ some (tt, with_ticks (with_ticks again 0 0) 0 255)
use_quantum-twice_example =
    use_quantum-twice at_once 0 tired again
      (record { synced = tired-IsSynced; frame = omega arith }) refl refl yield-again
      (record {
        synced = record {
          registers = refl;
          window_one = refl;
          window_two = refl;
          tracked_one = λ p c. ground arith;
          tracked_two = λ p c. ground arith;
        };
        frame = omega arith;
      })
      refl

-- The ring of the entries 1 and 0; 0 is locked and holds block 9.
abbrev ring : ℕ → BlockBuffer
ring b = record (buffer b) {
  flags = if b == 0 then 1 else 0;
  refcount = if b == 0 then 1 else 0;
  block_number = if b == 0 then 9 else 0;
  next = if b == 16 then 1 else if b == 1 then 0 else 16;
  prev = if b == 16 then 0 else if b == 1 then 16 else 1;
}

abbrev cache : Kernel
cache = record kernel { buffers = λ b. ring b }

cache-IsRing : IsRing cache.buffers (1 ∷ 0 ∷ [])
cache-IsRing = record {
  links = ((refl, refl), ((refl, refl), (refl, refl)));
  distinct = ((λ e. omega arith, (λ e. omega arith, tt)), ((λ e. omega arith, tt), (tt, tt)));
}

buffer_get_example :
    buffer_get at_once layout 1 0 7 cache
    ≡ acquired cache 0 7 (cached cache (1 ∷ 0 ∷ []) 0 7) (victim cache (1 ∷ 0 ∷ []) 0 7)
buffer_get_example =
    buffer_get_lem at_once layout cache (1 ∷ 0 ∷ []) 0 0 7 cache-IsRing (omega arith)
      (λ b e. ground (arith, e))

-- The pool that kalloc_init fills.
abbrev fresh : Kernel
fresh = record kernel { free = record { free_frames = λ i. 255 - i; free_top = 240 } }

buffer_init_example : Ringed buffer_init fresh (in_front cache_size 0 [])
buffer_init_example =
    buffer_init-Ringed fresh
      (record { enough = omega arith; used = λ j h g e. omega (arith, h, g, e) })

-- A process without pages, and an empty pool.
abbrev starved : Kernel
starved = with_ram kernel (λ a. 255)

clone_pages-leaks_example :
    clone_pages at_once 15 1 1 (λ s. 30) starved ≡ some (false, abandoned starved 1)
clone_pages-leaks_example =
    clone_pages-leaks at_once 14 1 (λ s. 30) starved
      (record { synced = with_ram-IsSynced kernel (λ a. 255) kernel-IsSynced; frame = omega arith })
      (λ e. omega (arith, e)) refl refl
