-- ===== src/Kernel/Kalloc.antt =====
-- kernel/kalloc.c: the stack of free physical frames.
pub mod Frames
use cpu.Prelude.{ℕ, zero, suc, ◌+◌, ◌-◌, ◌==◌, ltb, if◌then◌else◌, update, ◌||◌, some}
use cpu.Kernel.State.{Kernel, FreeList, frame_unused, page_table_size}
use cpu.Kernel.Command.{Command, pure, ◌>>=◌, ◌>>◌}
use cpu.Kernel.Mmu.{mmu_map_window, mmu_unmap_window}
use cpu.Kernel.Memory.{fill}

-- `free_frames[free_top] = frame; free_top++;`
unfoldable pub push : ℕ → FreeList → FreeList
push frame l = record {
  free_frames = update l.free_frames l.free_top frame;
  free_top = l.free_top + 1;
}

-- The loop of kalloc_init from the frame `i` down, over the `n` frames that are left.
unfoldable pub push_frames : ℕ → ℕ → FreeList → FreeList
push_frames zero i l = l
push_frames (suc n) i l = push_frames n (i - 1) (push i l)

unfoldable pub kalloc_init : FreeList → FreeList
kalloc_init l = push_frames (256 - page_table_size) 255 (record l { free_top = 0 })

-- kalloc on the free list: the frame, and the list without it.
unfoldable pub pop : FreeList → ℕ × FreeList
pop l =
    if l.free_top == 0
    then (frame_unused, l)
    else (l.free_frames (l.free_top - 1), record l { free_top = l.free_top - 1 })

unfoldable pub kalloc : Command ℕ
unfolding pop
kalloc k = let (frame, l) = pop k.free in some (frame, record k { free = l })

-- The byte 'F' that marks a freed frame.
abbrev pub junk : ℕ
junk = 0x46

unfoldable pub kfree : ℕ → Command (Unit {0})
kfree frame k =
    if (frame == frame_unused) || ltb frame page_table_size
    then some (tt, k)
    else (do
      (buffer, old_frame) ← mmu_map_window 1 frame
      fill 4096 buffer junk
      mmu_unmap_window 1 old_frame)
        (record k { free = push frame k.free })
