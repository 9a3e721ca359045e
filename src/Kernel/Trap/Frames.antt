-- ===== src/Kernel/Trap/Frames.antt =====
-- The frame of a trap of kernel/trap.c: kernel_prologue saves the user's context and page table in the
-- PCB, and kernel_epilogue brings them back, through a system call.
use cpu.Prelude.{
  ℕ, ◌+◌, ◌<◌, ◌≤◌, ◌==◌, update, false, some, ◌≡◌, refl, sym, ap, ◌∙◌, fun_ext, arith, inl, inr,
  Bool-cases, ==→eq,
}
use cpu.Kernel.State.{Kernel, TrapFrame, Layout, page_table_size}
use cpu.Kernel.Command.{Command, current_process_lem}
use cpu.Kernel.Mmu.Windows.{with_ram}
use cpu.Kernel.Memory.Moved.{gathered, scattered, scattered-outside}
use cpu.Kernel.Pcb.{stack_frame, killed_offset, ctx_offset, page_table_offset}
use cpu.Kernel.Pcb.Access.{HasPcb, cell, cell16, with_ram-IsSynced, proc_get_16_lem}
use cpu.Kernel.Pcb.Bytes.{proc_read_bytes_lem, proc_write_bytes_lem}
use cpu.Kernel.Scheduler.{Switch}
use cpu.Kernel.Trap.{
  context_size, low_three, is_killed, exit_if_killed, save_low_memory, restore_low_memory,
  mount_once, kernel_prologue, kernel_epilogue,
}

-- A process that is in the kernel: it has not been killed, and its stack is in segment 0.
pub record IsInside (k : Kernel) (me : ℕ) : Type 0 where
  pub current : k.current ≡ some me
  pub pcb : HasPcb k me
  pub stack : k.kernel_page_table 0 ≡ stack_frame k me
  pub alive : cell16 k me killed_offset ≡ 0

low-same :
    (k : Kernel) (me : ℕ)
    → IsInside k me
    → (i : ℕ) → i < 3
    → (k.proc_table me).kernel_low_memory i ≡ k.kernel_page_table i
low-same k me h i small =
    ground
      (arith, h.stack, h.pcb.synced.tracked_one me h.current, h.pcb.synced.tracked_two me h.current)

three-same : (t u : ℕ → ℕ) → ((i : ℕ) → i < 3 → t i ≡ u i) → low_three t u ≡ t
three-same t u h = fun_ext λ i. ground (arith, h 0, h 1, h 2)

update-same {ℓ} : {A : Type ℓ} (t : ℕ → A) (i : ℕ) (v : A) → v ≡ t i → update t i v ≡ t
update-same t i v e = fun_ext λ j. elim (Bool-cases (j == i)) [
  | inl same ↦ rw same (e ∙ ap t (sym (==→eq j i same)))
  | inr other ↦ rw other refl
]

save_lem : (k : Kernel) (me : ℕ) → IsInside k me → save_low_memory me k ≡ some (tt, k)
unfolding save_low_memory
save_lem k me h =
    let low =
      three-same (k.proc_table me).kernel_low_memory k.kernel_page_table (low-same k me h) in
    ap (λ t. some (tt, record k { proc_table = t }))
      (update-same k.proc_table me
        (record (k.proc_table me) {
          kernel_low_memory = low_three (k.proc_table me).kernel_low_memory k.kernel_page_table;
        })
        (ap (λ m. record (k.proc_table me) { kernel_low_memory = m }) low))

restore_lem : (k : Kernel) (me : ℕ) → IsInside k me → restore_low_memory me k ≡ some (tt, k)
unfolding restore_low_memory
restore_lem k me h =
    ap (λ t. some (tt, record k { kernel_page_table = t }))
      (three-same k.kernel_page_table (k.proc_table me).kernel_low_memory
        (λ i small. sym (low-same k me h i small)))

alive-behind :
    (k : Kernel) (me offset n : ℕ) (src : ℕ → ℕ)
    → offset + n ≤ killed_offset
    → cell16 k me killed_offset ≡ 0
    → cell16 (with_ram k (scattered k.board.ram (cell k me offset) n 0 src)) me killed_offset ≡ 0
alive-behind k me offset n src small alive =
    rw
      (
        scattered-outside k.board.ram (cell k me offset) n src (cell k me (killed_offset + 1))
            (omega arith),
        scattered-outside k.board.ram (cell k me offset) n src (cell k me killed_offset)
            (omega arith),
      )
      alive

module _ (run : Switch → Command (Unit {0})) (l : Layout) (attempts : ℕ) (me : ℕ) where
  exit_lem : (k : Kernel) → IsInside k me → exit_if_killed run l attempts me k ≡ some (tt, k)
  unfolding exit_if_killed is_killed
  exit_lem k h = rw (proc_get_16_lem k me h.pcb killed_offset (omega arith), h.alive) refl

  -- The kernel with the trap's frame in the PCB.
  abbrev pub saved : Kernel → Kernel
  saved k = with_ram k (
      scattered
        (scattered k.board.ram (cell k me ctx_offset) context_size 0 k.trap_frame.user_context)
        (cell k me page_table_offset) page_table_size 0 k.trap_frame.user_page_table)

  -- The kernel with the PCB's context and page table in the trap's frame.
  abbrev pub restored : Kernel → Kernel
  restored k = record k {
    trap_frame = record (k.trap_frame) {
      user_context = gathered k.board.ram (cell k me ctx_offset) context_size 0 (λ i. 0);
      user_page_table =
          gathered k.board.ram (cell k me page_table_offset) page_table_size 0 (λ i. 0);
    };
  }

  pub with_ram-IsInside :
      (k : Kernel) (ram : ℕ → ℕ)
      → IsInside k me
      → cell16 (with_ram k ram) me killed_offset ≡ 0
      → IsInside (with_ram k ram) me
  with_ram-IsInside k ram h alive = record {
    current = h.current;
    pcb = record { synced = with_ram-IsSynced k ram h.pcb.synced; frame = h.pcb.frame };
    stack = h.stack;
    alive = alive;
  }

  abbrev with_context : Kernel → Kernel
  with_context k =
      with_ram k
        (scattered k.board.ram (cell k me ctx_offset) context_size 0 k.trap_frame.user_context)

  context-IsInside : (k : Kernel) → IsInside k me → IsInside (with_context k) me
  context-IsInside k h =
      with_ram-IsInside k (with_context k).board.ram h
        (alive-behind k me ctx_offset context_size k.trap_frame.user_context (omega arith) h.alive)

  pub saved-IsInside : (k : Kernel) → IsInside k me → IsInside (saved k) me
  saved-IsInside k h = with_ram-IsInside k (saved k).board.ram h (
      alive-behind (with_context k) me page_table_offset page_table_size
        k.trap_frame.user_page_table (omega arith) (context-IsInside k h).alive)

  with_frame :
      (k : Kernel) (t : TrapFrame) → IsInside k me → IsInside (record k { trap_frame = t }) me
  with_frame k t h = record {
    current = h.current;
    pcb = record {
      synced = record {
        registers = h.pcb.synced.registers;
        window_one = h.pcb.synced.window_one;
        window_two = h.pcb.synced.window_two;
        tracked_one = h.pcb.synced.tracked_one;
        tracked_two = h.pcb.synced.tracked_two;
      };
      frame = h.pcb.frame;
    };
    stack = h.stack;
    alive = h.alive;
  }

  pub prologue_lem :
      (k : Kernel)
      → IsInside k me
      → k.trap_frame.first ≡ false
      → kernel_prologue run l attempts k ≡ some (tt, saved k)
  unfolding kernel_prologue mount_once
  prologue_lem k h mounted =
      let inside = context-IsInside k h in
      rw
        (
          current_process_lem k me h.current,
          exit_lem k h,
          proc_write_bytes_lem k me h.pcb ctx_offset context_size k.trap_frame.user_context
              (omega arith),
        )
        (rw
          (
            proc_write_bytes_lem (with_context k) me inside.pcb page_table_offset page_table_size
                k.trap_frame.user_page_table (omega arith),
            save_lem (saved k) me (saved-IsInside k h),
            mounted,
          )
          refl)

  pub epilogue_lem :
      (k : Kernel) → IsInside k me → kernel_epilogue run l attempts k ≡ some (tt, restored k)
  unfolding kernel_epilogue
  epilogue_lem k h =
      let framed = record k {
        trap_frame = record (k.trap_frame) {
          user_context = gathered k.board.ram (cell k me ctx_offset) context_size 0 (λ i. 0);
        };
      } in
      rw
        (
          current_process_lem k me h.current,
          exit_lem k h,
          proc_read_bytes_lem k me h.pcb ctx_offset context_size (omega arith),
        )
        (rw
          (
            proc_read_bytes_lem framed me (with_frame k framed.trap_frame h).pcb page_table_offset
                page_table_size (omega arith),
            restore_lem (restored k) me (with_frame k (restored k).trap_frame h),
          )
          refl)
