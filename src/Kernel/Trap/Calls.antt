-- ===== src/Kernel/Trap/Calls.antt =====
-- A system call of kernel/trap.c from the trap to the return: kernel_brk with the table of kernel/syscall.c.
use cpu.Prelude.{
  ℕ, ◌+◌, ◌/◌, ◌%◌, ◌<◌, ◌≤◌, update, update_ne, update_self, Option, false, some, ◌≡◌, ◌≢◌, refl,
  sym, ap, ◌∙◌, arith,
}
use cpu.Kernel.State.{Kernel, Layout, page_table_size}
use cpu.Kernel.Command.{Command, current_process_lem}
use cpu.Kernel.Mmu.Windows.{with_ram}
use cpu.Kernel.Memory.Moved.{scattered, scattered-inside, scattered-outside, gathered-inside}
use cpu.Kernel.Pcb.{
  stack_frame, a_offset, y_offset, killed_offset, pid_offset, ctx_offset, page_table_offset,
}
use cpu.Kernel.Pcb.Access.{cell, cell16, proc_get_8_lem, proc_get_16_lem, proc_set_16_lem}
use cpu.Kernel.Scheduler.{Switch}
use cpu.Kernel.Signals.{sys_getpid}
use cpu.Kernel.File.{File}
use cpu.Kernel.Syscall.{syscalls_table}
use cpu.Kernel.Trap.{context_size, dispatch, kernel_brk}
use cpu.Kernel.Trap.Frames.{
  IsInside, saved, restored, saved-IsInside, with_ram-IsInside, prologue_lem, epilogue_lem,
}

-- The trap returns to the program: with the result in A and X, and every other register and the page
-- table as they were at the trap.
pub record IsReturned (k : Kernel) (v : ℕ) (o : Option (Unit {0} × Kernel)) : Type 0 where
  pub after : Kernel
  pub ends : o ≡ some (tt, after)
  pub a : after.trap_frame.user_context 4 ≡ v % 256
  pub x : after.trap_frame.user_context 5 ≡ v / 256
  pub registers :
      (i : ℕ)
      → i < context_size
      → i ≢ 4
      → i ≢ 5
      → after.trap_frame.user_context i ≡ k.trap_frame.user_context i
  pub table :
      (i : ℕ)
      → i < page_table_size
      → after.trap_frame.user_page_table i ≡ k.trap_frame.user_page_table i

-- What a system call leaves alone: the process is inside the kernel on the same stack, with the same
-- context and page table in its PCB.
pub record IsKept (me : ℕ) (k k' : Kernel) : Type 0 where
  pub inside : IsInside k' me
  pub stack : stack_frame k' me ≡ stack_frame k me
  pub frame :
      (offset : ℕ)
      → offset < ctx_offset + context_size
      → k'.board.ram (cell k me offset) ≡ k.board.ram (cell k me offset)

module _ (run : Switch → Command (Unit {0})) (l : Layout) (attempts : ℕ)
    (make_kernel_stack : ℕ → Command (Unit {0})) (file_at : ℕ → Option File) (fuel : ℕ)
    (me : ℕ) where
  abbrev start : Kernel → Kernel
  start k = saved run l attempts me k

  saved-context :
      (k : Kernel) (i : ℕ)
      → i < context_size
      → (start k).board.ram (cell k me (ctx_offset + i)) ≡ k.trap_frame.user_context i
  saved-context k i small =
      let base : cell k me ctx_offset + i ≡ cell k me (ctx_offset + i) = omega arith in
      let context =
        scattered k.board.ram (cell k me ctx_offset) context_size 0 k.trap_frame.user_context in
      scattered-outside context (cell k me page_table_offset) page_table_size
        k.trap_frame.user_page_table (cell k me (ctx_offset + i)) (omega arith)
      ∙ ap context (sym base)
      ∙ scattered-inside k.board.ram (cell k me ctx_offset) context_size k.trap_frame.user_context i
          small

  saved-table :
      (k : Kernel) (i : ℕ)
      → i < page_table_size
      → (start k).board.ram (cell k me (page_table_offset + i)) ≡ k.trap_frame.user_page_table i
  saved-table k i small =
      let base : cell k me page_table_offset + i ≡ cell k me (page_table_offset + i) =
        omega arith in
      let context =
        scattered k.board.ram (cell k me ctx_offset) context_size 0 k.trap_frame.user_context in
      ap (start k).board.ram (sym base)
      ∙ scattered-inside context (cell k me page_table_offset) page_table_size
          k.trap_frame.user_page_table i small

  -- The kernel when the result is in the PCB.
  abbrev answered : Kernel → ℕ → Kernel
  answered k v = with_ram k (
      update (update k.board.ram (cell k me a_offset) (v % 256)) (cell k me (a_offset + 1))
        (v / 256))

  answered-other :
      (k : Kernel) (v offset : ℕ)
      → offset ≢ a_offset
      → offset ≢ a_offset + 1
      → (answered k v).board.ram (cell k me offset) ≡ k.board.ram (cell k me offset)
  answered-other k v offset low high =
      update_ne (update k.board.ram (cell k me a_offset) (v % 256)) (cell k me (a_offset + 1))
        (cell k me offset) (v / 256) (omega (arith, high))
      ∙ update_ne k.board.ram (cell k me a_offset) (cell k me offset) (v % 256) (omega (arith, low))

  answered-IsInside : (k : Kernel) (v : ℕ) → IsInside k me → IsInside (answered k v) me
  answered-IsInside k v h = with_ram-IsInside run l attempts me k (answered k v).board.ram h (
      rw
        (
          answered-other k v (killed_offset + 1) (omega arith) (omega arith),
          answered-other k v killed_offset (omega arith) (omega arith),
        )
        h.alive)

  brk_lem :
      (k k' : Kernel) (v : ℕ) (call : Command ℕ)
      → IsInside k me
      → k.trap_frame.first ≡ false
      → syscalls_table run l make_kernel_stack file_at fuel (k.trap_frame.user_context 6)
        ≡ some call
      → call (start k) ≡ some (v, k')
      → IsKept me (start k) k'
      → kernel_brk run l attempts make_kernel_stack file_at fuel k
        ≡ some (tt, restored run l attempts me (answered k' v))
  unfolding kernel_brk dispatch
  brk_lem k k' v call h mounted known called kept =
      rw
        (
          prologue_lem run l attempts me k h mounted,
          current_process_lem (start k) me h.current,
          proc_get_8_lem (start k) me (saved-IsInside run l attempts me k h).pcb y_offset
              (omega arith),
          saved-context k 6 (omega arith),
          known,
          called,
        )
        (rw
          (
            current_process_lem k' me kept.inside.current,
            proc_set_16_lem k' me kept.inside.pcb a_offset v (omega arith),
          )
          (epilogue_lem run l attempts me (answered k' v) (answered-IsInside k' v kept.inside)))

  -- What the trap's frame gets from the PCB.
  restored-context :
      (k : Kernel) (i : ℕ)
      → i < context_size
      → (restored run l attempts me k).trap_frame.user_context i
        ≡ k.board.ram (cell k me (ctx_offset + i))
  restored-context k i small =
      let base : cell k me ctx_offset + i ≡ cell k me (ctx_offset + i) = omega arith in
      gathered-inside k.board.ram (cell k me ctx_offset) context_size (λ j. 0) i small
      ∙ ap k.board.ram base

  restored-table :
      (k : Kernel) (i : ℕ)
      → i < page_table_size
      → (restored run l attempts me k).trap_frame.user_page_table i
        ≡ k.board.ram (cell k me (page_table_offset + i))
  restored-table k i small =
      let base : cell k me page_table_offset + i ≡ cell k me (page_table_offset + i) =
        omega arith in
      gathered-inside k.board.ram (cell k me page_table_offset) page_table_size (λ j. 0) i small
      ∙ ap k.board.ram base

  -- When the trap's Y holds the number of a system call, and the call ends with a result and leaves the
  -- process inside the kernel on its stack, with its page table and context in the PCB, kernel_brk returns
  -- to the program with the result in A and X, low byte first, and with every other register and the page
  -- table as they were at the trap. The file system has been mounted, and the process has not been killed,
  -- before and after; the kernel's map is installed, and the process's stack is a frame of kalloc.
  pub kernel_brk-returns :
      (k k' : Kernel) (v : ℕ) (call : Command ℕ)
      → IsInside k me
      → k.trap_frame.first ≡ false
      → syscalls_table run l make_kernel_stack file_at fuel (k.trap_frame.user_context 6)
        ≡ some call
      → call (start k) ≡ some (v, k')
      → IsKept me (start k) k'
      → IsReturned k v (kernel_brk run l attempts make_kernel_stack file_at fuel k)
  kernel_brk-returns k k' v call h mounted known called kept =
      let same : (offset : ℕ) → cell k' me offset ≡ cell k me offset =
        λ offset. omega (arith, kept.stack) in
      let k'' = answered k' v in
      record {
        after = restored run l attempts me k'';
        ends = brk_lem k k' v call h mounted known called kept;
        a =
            restored-context k'' 4 (omega arith)
            ∙ update_ne (update k'.board.ram (cell k' me a_offset) (v % 256))
                (cell k' me (a_offset + 1)) (cell k' me a_offset) (v / 256) (omega arith)
            ∙ update_self k'.board.ram (cell k' me a_offset) (v % 256);
        x =
            restored-context k'' 5 (omega arith)
            ∙ update_self (update k'.board.ram (cell k' me a_offset) (v % 256))
                (cell k' me (a_offset + 1)) (v / 256);
        registers = λ i small low high.
            restored-context k'' i small
            ∙ answered-other k' v (ctx_offset + i) (omega (arith, low)) (omega (arith, high))
            ∙ ap k'.board.ram (same (ctx_offset + i))
            ∙ kept.frame (ctx_offset + i) (omega arith)
            ∙ saved-context k i small;
        table = λ i small.
            restored-table k'' i small
            ∙ answered-other k' v (page_table_offset + i) (omega arith) (omega arith)
            ∙ ap k'.board.ram (same (page_table_offset + i))
            ∙ kept.frame (page_table_offset + i) (omega arith)
            ∙ saved-table k i small;
      }

  saved-behind :
      (k : Kernel) (offset : ℕ)
      → ctx_offset + context_size ≤ offset
      → (start k).board.ram (cell k me offset) ≡ k.board.ram (cell k me offset)
  saved-behind k offset h =
      scattered-outside
        (scattered k.board.ram (cell k me ctx_offset) context_size 0 k.trap_frame.user_context)
        (cell k me page_table_offset) page_table_size k.trap_frame.user_page_table
        (cell k me offset) (omega arith)
      ∙ scattered-outside k.board.ram (cell k me ctx_offset) context_size k.trap_frame.user_context
          (cell k me offset) (omega arith)

  pub getpid_lem :
      (k : Kernel) → IsInside k me → sys_getpid (start k) ≡ some (cell16 k me pid_offset, start k)
  unfolding sys_getpid
  getpid_lem k h =
      rw
        (
          current_process_lem (start k) me h.current,
          proc_get_16_lem (start k) me (saved-IsInside run l attempts me k h).pcb pid_offset
              (omega arith),
          saved-behind k (pid_offset + 1) (omega arith),
          saved-behind k pid_offset (omega arith),
        )
        refl

  -- The trap of sys_getpid returns to the program with the 16-bit pid of the PCB in A and X, and with every
  -- other register and the page table as they were. The file system has been mounted, the process has not
  -- been killed, the kernel's map is installed, and the process's stack is a frame of kalloc.
  pub kernel_brk-getpid :
      (k : Kernel)
      → IsInside k me
      → k.trap_frame.first ≡ false
      → k.trap_frame.user_context 6 ≡ 0x47
      → IsReturned k
          (cell16 k me pid_offset)
          (kernel_brk run l attempts make_kernel_stack file_at fuel k)
  unfolding syscalls_table
  kernel_brk-getpid k h mounted number =
      kernel_brk-returns k (start k) (cell16 k me pid_offset) sys_getpid h mounted (rw number refl)
        (getpid_lem k h)
        (record {
          inside = saved-IsInside run l attempts me k h;
          stack = refl;
          frame = λ offset small. refl;
        })
