-- ===== src/Kernel/Fork.antt =====
-- sys_fork of kernel/proc.c. `run` is as in Kernel.Sleep. A `uint8_t` segment wraps around at 0.
pub mod Leak
use cpu.Prelude.{ℕ, zero, suc, ◌+◌, ◌%◌, ◌==◌, ◌!=◌, Bool, Option, none, some}
use cpu.Kernel.State.{Kernel, Layout, frame_unused, page_table_size, window_one, window_two, new}
use cpu.Kernel.Command.{
  Command, pure, when, choose, current_process, failure, ◌>>=◌, ◌>>◌, load, store,
}
use cpu.Kernel.Memory.{fill, read_bytes, memcpy}
use cpu.Kernel.Mmu.{mmu_map_window, mmu_unmap_window, store16}
use cpu.Kernel.Kalloc.{kalloc, kfree}
use cpu.Kernel.Pcb.{
  stack_frame, pcb_offset, proc_get_16, a_offset, x_offset, pid_offset, parent_offset,
  page_table_offset,
}
use cpu.Kernel.Wakeup.{set_state}
use cpu.Kernel.Scheduler.{Switch}
use cpu.Kernel.Sleep.{yield}
use cpu.Kernel.Process.{proc_alloc, proc_free}

-- The two stack frames in the windows, and the frames that the windows showed.
abbrev pub map_both : (Kernel → ℕ) → (Kernel → ℕ) → Command (ℕ × ℕ)
map_both parent child k =
    (do
      (w, old_one) ← mmu_map_window 1 (parent k)
      (v, old_two) ← (λ k'. mmu_map_window 2 (child k') k')
      pure (old_one, old_two))
      k

abbrev pub unmap_both : ℕ × ℕ → Command (Unit {0})
unmap_both (old_one, old_two) = do mmu_unmap_window 1 old_one; mmu_unmap_window 2 old_two

-- The child's kernel stack and PCB; the parent's page table is returned.
unfoldable pub clone_stack : Layout → ℕ → ℕ → ℕ → Command (ℕ → ℕ)
clone_stack l me child child_pid = do
  old ← map_both (λ k. stack_frame k me) (λ k. stack_frame k child)
  memcpy window_two window_one 4096
  store16 (window_two + pcb_offset + pid_offset) child_pid
  store16 (window_two + pcb_offset + parent_offset) (l.proc_address me)
  store (window_two + pcb_offset + a_offset) 0
  store (window_two + pcb_offset + x_offset) 0
  table ← read_bytes page_table_size (window_two + pcb_offset + page_table_offset) 0 (λ i. 0)
  fill page_table_size (window_two + pcb_offset + page_table_offset) frame_unused
  unmap_both old
  pure table

-- `child_pcb->page_table[segment]` under a map of window 2.
abbrev pub in_child : ℕ → Command (Unit {0}) → Command (Unit {0})
in_child child m k =
    (do (w, old_two) ← mmu_map_window 2 (stack_frame k child); m; mmu_unmap_window 2 old_two) k

abbrev pub entry_address : ℕ → ℕ
entry_address segment = window_two + pcb_offset + page_table_offset + segment

-- A round of the loop that rolls back.
unfoldable pub release_page : ℕ → ℕ → Command (Unit {0})
release_page child segment =
    in_child child
      (do frame ← load (entry_address segment); when (frame != frame_unused) (kfree frame))

-- `do { ... segment--; } while(segment);` from `segment` on. It runs at most 256 rounds.
unfoldable pub roll_back : ℕ → ℕ → ℕ → Command (Unit {0})
roll_back zero child segment k = some (tt, k)
roll_back (suc n) child segment k =
    (do
      release_page child segment
      choose ((segment + 255) % 256 == 0) (pure tt) (roll_back n child ((segment + 255) % 256)))
      k

-- A page of the parent gets a frame of the child.
unfoldable pub clone_page : ℕ → ℕ → ℕ → ℕ → Command (Unit {0})
clone_page child segment parent_frame child_frame = do
  in_child child (store (entry_address segment) child_frame)
  old ← map_both (λ k. parent_frame) (λ k. child_frame)
  memcpy window_two window_one 4096
  unmap_both old

module _ (run : Switch → Command (Unit {0})) where
  -- The loop over the `n` segments from `segment` on; it tells whether the frames were enough.
  unfoldable pub clone_pages : ℕ → ℕ → ℕ → (ℕ → ℕ) → Command Bool
  clone_pages zero child segment table k = some (Bool.true, k)
  clone_pages (suc n) child segment table k =
      choose (table segment == frame_unused) (clone_pages n child (segment + 1) table)
        (do
          child_frame ← kalloc
          choose (child_frame == frame_unused)
              (do roll_back 256 child segment; proc_free child; pure Bool.false)
              (do
                clone_page child segment (table segment) child_frame
                yield run
                clone_pages n child (segment + 1) table))
        k

module _ (run : Switch → Command (Unit {0})) (l : Layout)
    (make_kernel_stack : ℕ → Command (Unit {0})) where
  -- sys_fork behind proc_alloc.
  unfoldable pub fork_into : ℕ → Option ℕ → Command ℕ
  fork_into me none = pure failure
  fork_into me (some child) = do
    child_pid ← proc_get_16 child pid_offset
    table ← clone_stack l me child child_pid
    yield run
    done ← clone_pages run page_table_size child 0 table
    choose done (do set_state child new; pure child_pid) (pure failure)

  unfoldable pub sys_fork : Command ℕ
  sys_fork = do child ← proc_alloc make_kernel_stack; me ← current_process; fork_into me child
