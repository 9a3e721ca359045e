-- ===== src/Kernel/Scheduler/Turns.antt =====
-- scheduler of kernel/proc.c takes the runnable processes in turns.
use cpu.Prelude.{
  Bool, ℕ, zero, suc, ◌+◌, ◌*◌, ◌%◌, ◌<◌, update, update_self, true, Option, none, some, ◌≡◌, sym,
  ap, ◌∙◌, arith, inl, inr, Bool-cases, first,
}
use mathlib.Core.Path.{subst}
use cpu.Kernel.State.{Kernel, is, new, runing, max_proc_count}
use cpu.Kernel.Pcb.{pcb_offset, ticks_offset, stack_frame}
use cpu.Kernel.Pcb.Access.{IsFrame, HasPcb, cell, proc_set_8_lem}
use cpu.Kernel.Mmu.Windows.{IsSynced, with_ram}
use cpu.Kernel.Wakeup.{with_state, set_state}
use cpu.Kernel.Scheduler.{
  Switch, idle, hand_over, runnable, set_current, dispatch, advance, scan, scheduler, quantum,
}

-- What a switch needs: the kernel's map is installed, the stacks of the processes that can run are
-- frames of kalloc, and their windows are the ones that are installed.
pub record CanSwitch (k : Kernel) : Type 0 where
  pub synced : IsSynced k
  pub frame : (p : ℕ) → runnable (k.proc_table p) ≡ true → IsFrame (stack_frame k p)
  pub same_one :
      (p : ℕ)
      → runnable (k.proc_table p) ≡ true
      → (k.proc_table p).kernel_low_memory 1 ≡ k.kernel_page_table 1
  pub same_two :
      (p : ℕ)
      → runnable (k.proc_table p) ≡ true
      → (k.proc_table p).kernel_low_memory 2 ≡ k.kernel_page_table 2

-- The process whose turn comes after `d` others.
abbrev pub turn : Kernel → ℕ → ℕ
turn k d = (k.round_robin_index + d) % max_proc_count

abbrev pub ready_at : Kernel → ℕ → Bool
ready_at k d = runnable (k.proc_table (turn k d))

-- The kernel in which the process runs, with a fresh quantum.
abbrev pub entered : Kernel → ℕ → Kernel
entered k p =
    with_ram
      (record k {
        proc_table = update k.proc_table p (with_state (k.proc_table p) runing);
        current = some p;
        round_robin_index = advance p;
      })
      (update k.board.ram (cell k p ticks_offset) quantum)

-- The result of a pass that finds the process `d` turns ahead, or none.
abbrev pub outcome : Kernel → ℕ → Option ℕ → Switch × Kernel
outcome k n none = (idle, record k { round_robin_index = turn k n })
outcome k n (some d) =
    let p = turn k d in (hand_over k.current (is (k.proc_table p).state new) p, entered k p)

abbrev started : Kernel → ℕ → Kernel
started k p = record k {
  proc_table = update k.proc_table p (with_state (k.proc_table p) runing);
  current = some p;
  round_robin_index = advance p;
}

started-low_memory :
    (k : Kernel) (p : ℕ)
    → ((started k p).proc_table p).kernel_low_memory ≡ (k.proc_table p).kernel_low_memory
started-low_memory k p =
    ap (λ q. q.kernel_low_memory) (update_self k.proc_table p (with_state (k.proc_table p) runing))

-- The windows of the process that has become the running one.
started-tracked :
    (k : Kernel) (p w : ℕ)
    → (k.proc_table p).kernel_low_memory w ≡ k.kernel_page_table w
    → (q : ℕ) → some p ≡ some q
    → ((started k p).proc_table q).kernel_low_memory w ≡ k.kernel_page_table w
started-tracked k p w e q c =
    let same : p ≡ q = ground (arith, c) in
    rw (sym same) (ap (λ m. m w) (started-low_memory k p) ∙ e)

started-HasPcb :
    (k : Kernel) (p : ℕ) → CanSwitch k → runnable (k.proc_table p) ≡ true → HasPcb (started k p) p
started-HasPcb k p h r = record {
  synced = record {
    registers = h.synced.registers;
    window_one = h.synced.window_one;
    window_two = h.synced.window_two;
    tracked_one = started-tracked k p 1 (h.same_one p r);
    tracked_two = started-tracked k p 2 (h.same_two p r);
  };
  frame = subst (λ m. IsFrame (m 0)) (sym (started-low_memory k p)) (h.frame p r);
}

dispatch_lem :
    (k : Kernel) (old : Option ℕ) (p : ℕ)
    → CanSwitch k
    → runnable (k.proc_table p) ≡ true
    → dispatch old p (record k { round_robin_index = advance p })
      ≡ some (hand_over old (is (k.proc_table p).state new) p, entered k p)
unfolding dispatch set_state set_current
dispatch_lem k old p h r =
    rw (proc_set_8_lem (started k p) p (started-HasPcb k p h r) ticks_offset quantum (omega arith))
      (ap
        (λ m. some (
          hand_over old (is (k.proc_table p).state new) p,
          with_ram (started k p)
              (update k.board.ram (m 0 * 4096 + (pcb_offset + ticks_offset)) quantum),
        ))
        (started-low_memory k p))

turn-advance : (k : Kernel) (i : ℕ) → advance (turn k i) ≡ turn k (i + 1)
turn-advance k i = ground arith

scan_lem :
    (n i : ℕ) (k : Kernel)
    → CanSwitch k
    → scan n k.current (record k { round_robin_index = turn k i })
      ≡ some (outcome k (i + n) (first n i (ready_at k)))
unfolding scan first
scan_lem zero i k h = ap (λ j. some (idle, record k { round_robin_index = turn k j })) (omega arith)
scan_lem (suc n) i k h =
    let next : advance (turn k i) ≡ turn k (i + 1) = turn-advance k i in
    let shift : i + 1 + n ≡ i + suc n = omega arith in
    elim (Bool-cases (runnable (k.proc_table (turn k i)))) [
      | inl found ↦ rw found (dispatch_lem k k.current (turn k i) h found)
      | inr other ↦
          rw (other, next)
            (scan_lem n (i + 1) k h
              ∙ ap (λ j. some (outcome k j (first n (i + 1) (ready_at k)))) shift)
    ]

-- A pass of the scheduler enters the first process, in the cyclic order of proc_table from
-- round_robin_index on, that is ready or new: it marks it as running, makes it the current one, gives
-- it a fresh quantum, lets the next pass begin behind it, and hands over by the routine for its state.
-- With none ready or new, the pass changes nothing. The kernel's map is installed, the index is in
-- range, and the processes that can run have stacks of kalloc and the installed windows.
pub scheduler_lem :
    (k : Kernel)
    → CanSwitch k
    → k.round_robin_index < max_proc_count
    → scheduler k ≡ some (outcome k max_proc_count (first max_proc_count 0 (ready_at k)))
unfolding scheduler
scheduler_lem k h small =
    let here : k.round_robin_index ≡ turn k 0 = omega arith in
    ap (λ i. scan max_proc_count k.current (record k { round_robin_index = i })) here
    ∙ scan_lem max_proc_count 0 k h
