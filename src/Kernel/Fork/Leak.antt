-- ===== src/Kernel/Fork/Leak.antt =====
-- What sys_fork of kernel/proc.c gives back when the frames run out.
use cpu.Prelude.{
  ℕ, suc, ◌+◌, ◌*◌, ◌/◌, ◌%◌, ◌<◌, ◌==◌, ◌-◌, if◌then◌else◌, update, false, some, ◌≡◌, ◌≢◌, refl,
  ap, ◌∙◌, arith, inr, ne→==,
}
use cpu.Kernel.State.{FreeList, Kernel, frame_unused, unused}
use cpu.Kernel.Command.{Command}
use cpu.Kernel.Kalloc.{kalloc, pop, push, junk}
use cpu.Kernel.Kalloc.Frames.{kfree_lem}
use cpu.Kernel.Memory.Filled.{filled}
use cpu.Kernel.Mmu.Windows.{with_ram, installed, mmu_map_window_lem}
use cpu.Kernel.Pcb.{stack_frame, page_table_offset}
use cpu.Kernel.Pcb.Access.{HasPcb, cell, load_lem, unmap-mapped}
use cpu.Kernel.Scheduler.{Switch}
use cpu.Kernel.Wakeup.{with_state}
use cpu.Kernel.Fork.{release_page, roll_back, clone_pages, entry_address}

-- Where the page table has no frame, a round of the roll back changes nothing.
release_page-unused :
    (k : Kernel) (child segment : ℕ)
    → HasPcb k child
    → segment < 16
    → k.board.ram (cell k child (page_table_offset + segment)) ≡ frame_unused
    → release_page child segment k ≡ some (tt, k)
unfolding release_page
release_page-unused k child segment h small empty =
    let f = stack_frame k child in
    let place : f * 4096 + entry_address segment % 4096
        ≡ cell k child (page_table_offset + segment) =
      omega arith in
    let page : entry_address segment / 4096 ≡ 2 = omega arith in
    rw (mmu_map_window_lem 2 f k h.synced (inr refl)) (
      rw
        (load_lem (installed 2 f k) (entry_address segment) f
          (record { page = ap (installed 2 f k).board.mmu.page_table page; frame = h.frame }))
        (rw (ap k.board.ram place ∙ empty) (unmap-mapped 2 f k k.board.ram h.synced (inr refl))))

roll_back-one :
    (k : Kernel) (child : ℕ)
    → HasPcb k child
    → k.board.ram (cell k child (page_table_offset + 1)) ≡ frame_unused
    → roll_back 256 child 1 k ≡ some (tt, k)
unfolding roll_back
roll_back-one k child h empty = rw (release_page-unused k child 1 h (omega arith) empty)

pop-empty : (l : FreeList) → l.free_top ≡ 0 → pop l ≡ (frame_unused, l)
unfolding pop
pop-empty l out =
    ap
      (λ t.
        if t == 0
        then (frame_unused, l)
        else (l.free_frames (l.free_top - 1), record l { free_top = l.free_top - 1 }))
      out

kalloc-empty : (k : Kernel) → k.free.free_top ≡ 0 → kalloc k ≡ some (frame_unused, k)
unfolding kalloc
kalloc-empty k out = ap (λ r. some (r.0, record k { free = r.1 })) (pop-empty k.free out)

-- The kernel with the child's entry unused and its stack back in the pool.
abbrev pub abandoned : Kernel → ℕ → Kernel
abandoned k child =
    let k' =
      with_ram (record k { free = push (stack_frame k child) k.free })
        (filled k.board.ram (stack_frame k child * 4096) 4096 junk) in
    record k' { proc_table = update k.proc_table child (with_state (k.proc_table child) unused) }

-- When the frames run out at the second page of the parent, sys_fork frees the child's entry and its
-- stack, and nothing else goes back to the pool: not the frame that the child has for the first page. The
-- child has no frame for the second page yet, the kernel's map is installed, and the child's stack is a
-- frame of kalloc.
pub clone_pages-leaks :
    (run : Switch → Command (Unit {0})) (n child : ℕ) (table : ℕ → ℕ) (k : Kernel)
    → HasPcb k child
    → table 1 ≢ frame_unused
    → k.free.free_top ≡ 0
    → k.board.ram (cell k child (page_table_offset + 1)) ≡ frame_unused
    → clone_pages run (suc n) child 1 table k ≡ some (false, abandoned k child)
unfolding clone_pages cpu.Kernel.Process.proc_free cpu.Kernel.Wakeup.set_state
clone_pages-leaks run n child table k h used out empty = rw (ne→== (table 1) frame_unused used) (
    rw (kalloc-empty k out) (
      rw (roll_back-one k child h empty)
        (rw (kfree_lem (stack_frame k child) k h.synced h.frame) refl)))
