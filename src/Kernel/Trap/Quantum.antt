-- ===== src/Kernel/Trap/Quantum.antt =====
-- The bottom half of kernel_irq of kernel/trap.c and the quantum that the scheduler gives.
use cpu.Prelude.{ℕ, ◌+◌, ◌%◌, ◌==◌, update, update_self, some, false, ◌≡◌, refl, ap, ◌∙◌, arith}
use cpu.Kernel.State.{Kernel}
use cpu.Kernel.Command.{Command, current_process_lem, ◌>>◌}
use cpu.Kernel.Pcb.{ticks_offset}
use cpu.Kernel.Pcb.Access.{HasPcb, cell, proc_get_8_lem, proc_set_8_lem, with_ram-IsSynced}
use cpu.Kernel.Mmu.Windows.{with_ram}
use cpu.Kernel.Scheduler.{Switch}
use cpu.Kernel.Sleep.{yield}
use cpu.Kernel.Trap.{use_quantum}

-- The kernel with a number of ticks in the PCB.
abbrev pub with_ticks : Kernel → ℕ → ℕ → Kernel
with_ticks k p v = with_ram k (update k.board.ram (cell k p ticks_offset) v)

abbrev pub ticks_of : Kernel → ℕ → ℕ
ticks_of k p = k.board.ram (cell k p ticks_offset)

with_ticks-HasPcb : (k : Kernel) (p v : ℕ) → HasPcb k p → HasPcb (with_ticks k p v) p
with_ticks-HasPcb k p v h = record {
  synced = with_ram-IsSynced k (update k.board.ram (cell k p ticks_offset) v) h.synced;
  frame = h.frame;
}

module _ (run : Switch → Command (Unit {0})) (me : ℕ) where
  -- Ticks that do not end the quantum are counted down, and 0 becomes 255.
  use_quantum-goes_on :
      (k : Kernel)
      → HasPcb k me
      → k.current ≡ some me
      → ((ticks_of k me + 255) % 256 == 0) ≡ false
      → use_quantum run k ≡ some (tt, with_ticks k me ((ticks_of k me + 255) % 256))
  unfolding use_quantum
  use_quantum-goes_on k h c more = rw (current_process_lem k me c) (
      rw (proc_get_8_lem k me h ticks_offset (omega arith)) (
        rw more (
          rw (current_process_lem k me c)
            (proc_set_8_lem k me h ticks_offset ((ticks_of k me + 255) % 256) (omega arith)))))

  -- At the last tick the process yields; entered again, it stores 0.
  use_quantum-ends :
      (k k' : Kernel)
      → HasPcb k me
      → k.current ≡ some me
      → ticks_of k me ≡ 1
      → yield run k ≡ some (tt, k')
      → HasPcb k' me
      → k'.current ≡ some me
      → use_quantum run k ≡ some (tt, with_ticks k' me 0)
  unfolding use_quantum
  use_quantum-ends k k' h c last back h' c' = rw (current_process_lem k me c) (
      rw (proc_get_8_lem k me h ticks_offset (omega arith)) (
        rw last (
          rw back (
            rw (current_process_lem k' me c')
              (proc_set_8_lem k' me h' ticks_offset 0 (omega arith))))))

  -- A process whose quantum ends yields. When it is entered again, with whatever quantum the scheduler
  -- has given it, its ticks are set to 0, and the next tick of the timer sets them to 255 and does not
  -- yield. The kernel's map is installed, and the process's stack is a frame of kalloc.
  pub use_quantum-twice :
      (k k' : Kernel)
      → HasPcb k me
      → k.current ≡ some me
      → ticks_of k me ≡ 1
      → yield run k ≡ some (tt, k')
      → HasPcb k' me
      → k'.current ≡ some me
      → (use_quantum run >> use_quantum run) k ≡ some (tt, with_ticks (with_ticks k' me 0) me 255)
  use_quantum-twice k k' h c last back h' c' =
      let zero : ticks_of (with_ticks k' me 0) me ≡ 0 =
        update_self k'.board.ram (cell k' me ticks_offset) 0 in
      let more : ((ticks_of (with_ticks k' me 0) me + 255) % 256 == 0) ≡ false = rw zero refl in
      rw (use_quantum-ends k k' h c last back h' c') (
        use_quantum-goes_on (with_ticks k' me 0) (with_ticks-HasPcb k' me 0 h') c' more
        ∙ ap (λ t. some (tt, with_ticks (with_ticks k' me 0) me ((t + 255) % 256))) zero)
