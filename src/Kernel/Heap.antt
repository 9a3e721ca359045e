-- ===== src/Kernel/Heap.antt =====
-- sys_sbrk of kernel/proc.c. The kernel is compiled by cc65, whose int has 16 bits, so the sum of
-- old_top and increment is a 16-bit one before it is stored in 32 bits; a negative int16_t is its bit
-- pattern. The page table is a local copy, which is written back at the end.
pub mod Growth
pub mod Breaks
use cpu.Prelude.{
  ℕ, zero, suc, ◌+◌, ◌-◌, ◌/◌, ◌%◌, ◌==◌, ◌!=◌, ltb, leb, if◌then◌else◌, ◌&&◌, ◌||◌, Option, none,
  some, update,
}
use cpu.Kernel.State.{frame_unused, page_table_size}
use cpu.Kernel.Command.{Command, pure, choose, current_process, failure, ◌>>=◌, ◌>>◌}
use cpu.Kernel.Kalloc.{kalloc, kfree}
use cpu.Kernel.Pcb.{
  PageTable, proc_get_16, proc_set_16, proc_read_bytes, proc_write_bytes, a_offset, top_offset,
  page_table_offset,
}

-- `(top == 0) ? 0 : (top - 1) >> 12`
abbrev pub segment_of : ℕ → ℕ
segment_of top = if top == 0 then 0 else (top - 1) / 4096

-- The loops that free the `n` segments from `segment` down.
unfoldable pub free_down : ℕ → ℕ → PageTable → Command PageTable
free_down zero segment table k = some (table, k)
free_down (suc n) segment table k =
    choose (table segment != frame_unused)
      (do kfree (table segment); free_down n (segment - 1) (update table segment frame_unused))
      (free_down n (segment - 1) table) k

-- The loop that allocates the missing frames of the `n` segments from `segment` on. Without a frame
-- it frees the segments above `old_segment`, and there is no table.
unfoldable pub grow : ℕ → ℕ → ℕ → PageTable → Command (Option PageTable)
grow zero segment old_segment table k = some (some table, k)
grow (suc n) segment old_segment table k =
    choose (table segment == frame_unused)
      (do
        frame ← kalloc
        choose (frame == frame_unused)
            (do free_down (segment - old_segment) segment table; pure none)
            (grow n (segment + 1) old_segment (update table segment frame)))
      (grow n (segment + 1) old_segment table) k

-- The branches on the sign of the increment.
unfoldable pub resize : ℕ → ℕ → ℕ → PageTable → Command (Option PageTable)
resize increment old_segment new_segment table =
    choose (ltb 0 increment && ltb increment 0x8000)
      (grow (new_segment + 1 - old_segment) old_segment old_segment table)
      (choose (leb 0x8000 increment)
        (do table' ← free_down (old_segment - new_segment) old_segment table; pure (some table'))
        (pure (some table)))

-- The memory map and the top are written back, unless the frames ran out.
unfoldable pub commit : ℕ → ℕ → ℕ → Option PageTable → Command ℕ
commit me old_top new_top none = pure failure
commit me old_top new_top (some table) = do
  proc_write_bytes me page_table_offset page_table_size table
  proc_set_16 me top_offset new_top
  pure old_top

unfoldable pub sys_sbrk : Command ℕ
sys_sbrk = do
  me ← current_process
  increment ← proc_get_16 me a_offset
  old_top ← proc_get_16 me top_offset
  table ← proc_read_bytes me page_table_offset page_table_size
  let overflow_check = (old_top + increment) % 0x10000
  choose (leb 0x10000 overflow_check || ltb overflow_check 0) (pure failure) (do
    result ← resize increment (segment_of old_top) (segment_of overflow_check) table
    commit me old_top overflow_check result)
