-- ===== src/Kernel/Buffer.antt =====
-- kernel/buffer.c: the cache of disk blocks. A buffer is locked by its busy flag. Where the code calls
-- itself again after a sleep, the model takes fuel for the number of attempts, and stops without.
pub mod Links
pub mod Ring
pub mod Kept
pub mod Start
pub mod Search
pub mod Release
use cpu.Prelude.{
  ℕ, zero, suc, ◌+◌, ◌%◌, ◌==◌, if◌then◌else◌, has, set_bits, clear_bits, ◌&&◌, Bool, not, Option,
  none, some,
}
use cpu.Kernel.State.{Kernel, BlockBuffer, Layout, frame_unused, window_two}
use cpu.Kernel.Command.{Command, pure, panic, when, choose, ◌>>=◌, ◌>>◌}
use cpu.Kernel.Memory.{fill}
use cpu.Kernel.Kalloc.{kalloc}
use cpu.Kernel.Wakeup.{wakeup}
use cpu.Kernel.Scheduler.{Switch}
use cpu.Kernel.Sleep.{sleep}
use cpu.Kernel.Disk.{
  flag_busy, flag_valid, set_buffer, set_flags, with_frame, disk_block_read, disk_block_write,
}

abbrev pub cache_size : ℕ
cache_size = 16

-- `&buffer_cache.head`
abbrev pub head : ℕ
head = cache_size

abbrev pub busy : BlockBuffer → Bool
busy b = has b.flags flag_busy

-- `b->block_number == block_number && b->drive == drive`
abbrev pub holds : ℕ → ℕ → BlockBuffer → Bool
holds drive block_number b = (b.block_number == block_number) && (b.drive == drive)

-- `b->refcount == 0 && (b->flags & BUFFER_FLAGS_BUSY) == 0`
abbrev pub unused : BlockBuffer → Bool
unused b = (b.refcount == 0) && not (busy b)

-- A loop over the list from `b` on by `step`, to the first buffer with the property, or to the head.
-- CACHE_SIZE rounds go through the whole list.
unfoldable pub find : (ℕ → ℕ) → (ℕ → Bool) → ℕ → ℕ → Option ℕ
find step test zero b = none
find step test (suc n) b =
    let rest = find step test n (step b) in
    if b == head then none else if test b then some b else rest

-- The two searches of buffer_get.
abbrev pub find_block : Kernel → ℕ → ℕ → Option ℕ
find_block k drive block_number =
    find (λ b. (k.buffers b).next) (λ b. holds drive block_number (k.buffers b)) (cache_size + 1)
      (k.buffers head).next

abbrev pub find_unused : Kernel → Option ℕ
find_unused k =
    find (λ b. (k.buffers b).prev) (λ b. unused (k.buffers b)) (cache_size + 1)
      (k.buffers head).prev

-- `b->flags |= BUFFER_FLAGS_BUSY; b->refcount++;`
unfoldable pub lock : ℕ → Command ℕ
lock b k =
    (do
      set_buffer b (record (k.buffers b) {
        flags = set_bits (k.buffers b).flags flag_busy;
        refcount = ((k.buffers b).refcount + 1) % 256;
      })
      pure b)
      k

-- An unused buffer for the block, or a panic.
unfoldable pub recycle : Option ℕ → ℕ → ℕ → Command ℕ
recycle none drive block_number k = none
recycle (some b) drive block_number k =
    (do
      set_buffer b (record (k.buffers b) {
        drive = drive;
        block_number = block_number;
        refcount = 1;
        flags = flag_busy;
      })
      pure b)
      k

-- Assignments to fields of `*b`.
abbrev pub set_next : ℕ → ℕ → Command (Unit {0})
set_next b n k = set_buffer b (record (k.buffers b) { next = n }) k

abbrev pub set_prev : ℕ → ℕ → Command (Unit {0})
set_prev b p k = set_buffer b (record (k.buffers b) { prev = p }) k

abbrev pub set_frame : ℕ → ℕ → Command (Unit {0})
set_frame b f k = set_buffer b (record (k.buffers b) { frame = f }) k

-- The loop of buffer_init over the `n` buffers from `b` on.
unfoldable pub link_buffers : ℕ → ℕ → Command (Unit {0})
link_buffers zero b k = some (tt, k)
link_buffers (suc n) b k =
    (do
      set_next b (k.buffers head).next
      set_prev b head
      set_prev (k.buffers head).next b
      set_next head b
      frame ← kalloc
      set_frame b frame
      choose (frame == frame_unused) panic (link_buffers n (b + 1)))
      k

unfoldable pub buffer_init : Command (Unit {0})
buffer_init = do set_prev head head; set_next head head; link_buffers cache_size 0

-- `b->next->prev = b->prev; b->prev->next = b->next;`
unfoldable pub unlink : ℕ → Command (Unit {0})
unlink b k =
    (do
      set_prev (k.buffers b).next (k.buffers b).prev
      λ k'. set_next (k'.buffers b).prev (k'.buffers b).next k')
      k

-- Behind the head of the list.
unfoldable pub insert_front : ℕ → Command (Unit {0})
insert_front b = do
  λ k. set_next b (k.buffers head).next k
  set_prev b head
  λ k. set_prev (k.buffers head).next b k
  set_next head b

unfoldable pub buffer_release : Layout → ℕ → Command (Unit {0})
buffer_release l b k =
    choose (busy (k.buffers b))
      (do
        wakeup (l.buffer_address b)
        λ k. set_flags b (clear_bits (k.buffers b).flags flag_busy) k
        λ k.
            set_buffer b (record (k.buffers b) { refcount = ((k.buffers b).refcount + 255) % 256 })
              k
        λ k. when ((k.buffers b).refcount == 0) (do unlink b; insert_front b) k)
      panic k

module _ (run : Switch → Command (Unit {0})) (l : Layout) where
  -- What buffer_get does with the buffer that its first search finds; `again` is the call of itself.
  unfoldable pub claim : Option ℕ → ℕ → ℕ → Command ℕ → Command ℕ
  claim none drive block_number again k = recycle (find_unused k) drive block_number k
  claim (some b) drive block_number again k =
      choose (busy (k.buffers b)) (do sleep run (l.buffer_address b); again) (lock b) k

  unfoldable pub buffer_get : ℕ → ℕ → ℕ → Command ℕ
  buffer_get zero drive block_number k = none
  buffer_get (suc fuel) drive block_number k =
      claim (find_block k drive block_number) drive block_number
        (buffer_get fuel drive block_number) k

  unfoldable pub buffer_read : ℕ → ℕ → ℕ → Command ℕ
  buffer_read fuel drive block_number = do
    b ← buffer_get fuel drive block_number
    λ k.
        when (not (has (k.buffers b).flags flag_valid))
          (do
            disk_block_read run l b
            λ k'. set_flags b (set_bits (k'.buffers b).flags flag_valid) k')
          k
    pure b

  unfoldable pub buffer_write : ℕ → Command (Unit {0})
  buffer_write b k = choose (busy (k.buffers b)) (disk_block_write run l b) panic k

  unfoldable pub block_zero : ℕ → ℕ → ℕ → Command (Unit {0})
  block_zero fuel drive block = do
    b ← buffer_read fuel drive block
    with_frame b (fill 4096 window_two 0)
    buffer_write b
    buffer_release l b
