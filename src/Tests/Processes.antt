-- ===== src/Tests/Processes.antt =====
-- The theorems on kernel/proc.c, kernel/string.c and kernel/printk.c at concrete kernels and texts.
use cpu.Prelude.{
  true, false, ℕ, ◌+◌, ◌*◌, ◌==◌, leb, if◌then◌else◌, within, first, ◌≡◌, refl, arith, some, none,
  List, [], ◌∷◌, ◌↔◌,
}
use cpu.Kernel.State.{Kernel, Proc, ready, runing, unused, max_proc_count}
use cpu.Kernel.Mmu.Windows.{IsSynced, with_ram}
use cpu.Kernel.Pcb.Access.{HasPcb}
use cpu.Kernel.Scheduler.{scheduler}
use cpu.Kernel.Scheduler.Turns
use cpu.Kernel.Scheduler.Turns.{CanSwitch, scheduler_lem, ready_at}
use cpu.Kernel.Signals.{sys_kill}
use cpu.Kernel.Signals.Kills
use cpu.Kernel.Signals.Kills.{HasProcs, sys_kill_lem, victim}
use cpu.Kernel.Heap.{sys_sbrk}
use cpu.Kernel.Heap.Breaks.{committed, page_table, sys_sbrk-wraps}
use cpu.Kernel.Strings.{Memory, memmove, strcmp}
use cpu.Kernel.Strings.Moves.{moved, memmove-moved}
use cpu.Kernel.Strings.Texts.{IsText, strcmp_lem}
use cpu.Kernel.Printk.{print_int, digits_from}
use cpu.Kernel.Printk.Format.{word, text, extend, prepend, vprintk}
use cpu.Kernel.Printk.Format.Literals.{IsDecimal, vprintk-int}
use cpu.Kernel.Printk.Digits.{IsPrinted, print_int-read, print_int-unsigned}
use cpu.Tests.Kernels.{kernel, proc}

-- Process 0 runs, and process 1 is ready.
abbrev two : ℕ → Proc
two p = if p == 0 then proc runing p else if p == 1 then proc ready p else proc unused p

abbrev waiting : Kernel
waiting = record kernel { proc_table = two }

waiting-IsSynced : IsSynced waiting
waiting-IsSynced = record {
  registers = refl;
  window_one = refl;
  window_two = refl;
  tracked_one = λ p c. ground arith;
  tracked_two = λ p c. ground arith;
}

waiting-CanSwitch : CanSwitch waiting
waiting-CanSwitch = record {
  synced = waiting-IsSynced;
  frame = λ p r. ground arith;
  same_one = λ p r. ground arith;
  same_two = λ p r. ground arith;
}

scheduler_example :
    scheduler waiting
    ≡ some (Turns.outcome waiting max_proc_count (first max_proc_count 0 (ready_at waiting)))
scheduler_example = scheduler_lem waiting waiting-CanSwitch (omega arith)

-- The PCB of process 0: a 16-bit field at 20 of 7, the caller's argument, and the pids 1 and 7.
abbrev killing : Kernel
killing = with_ram waiting (λ a.
    if a == 20 * 4096 + 532
    then 7
    else if a == 20 * 4096 + 538
    then 3
    else if a == 21 * 4096 + 538
    then 7
    else 0)

killing-HasProcs : HasProcs killing 0
killing-HasProcs = record {
  synced = record {
    registers = refl;
    window_one = refl;
    window_two = refl;
    tracked_one = λ p c. ground arith;
    tracked_two = λ p c. ground arith;
  };
  current = refl;
  mine = omega arith;
  frame = λ p a. ground arith;
}

sys_kill_example :
    sys_kill killing
    ≡ some (
        Kills.outcome killing 0
          (if leb 7 1 then none else first max_proc_count 0 (victim killing 0 7)))
sys_kill_example = sys_kill_lem killing 0 killing-HasProcs

-- A process with nothing mapped, its argument 0x2000 and this high byte of its top, and three frames
-- in the pool.
abbrev heap : ℕ → Kernel
heap top =
    record (with_ram waiting (λ a.
      if within (20 * 4096 + 512) (20 * 4096 + 528) a
      then 255
      else if a == 20 * 4096 + 533
      then 0x20
      else if a == 20 * 4096 + 537
      then top
      else 0)) { free = record { free_frames = λ i. i + 40; free_top = 3 } }

heap-HasPcb : (top : ℕ) → HasPcb (heap top) 0
heap-HasPcb top = record {
  synced = record {
    registers = refl;
    window_one = refl;
    window_two = refl;
    tracked_one = λ p c. ground arith;
    tracked_two = λ p c. ground arith;
  };
  frame = omega arith;
}

sys_sbrk-wraps_example :
    sys_sbrk (heap 0xf0)
    ≡ some (0xf000, committed 0 (heap 0xf0) (page_table (heap 0xf0) 0 (heap-HasPcb 0xf0)) 0x1000)
sys_sbrk-wraps_example =
    sys_sbrk-wraps (heap 0xf0) 0 (heap-HasPcb 0xf0) refl (omega arith) (omega arith) (omega arith)
      (omega arith)

-- The texts "ab" at 10 and "ac" at 20.
abbrev texts : Memory
texts a =
    if a == 10
    then 97
    else if a == 11
    then 98
    else if a == 20
    then 97
    else if a == 21
    then 99
    else 0

abbrev ab : List ℕ
ab = 97 ∷ 98 ∷ []

abbrev ac : List ℕ
ac = 97 ∷ 99 ∷ []

ab-IsText : IsText texts 10 ab
ab-IsText = (refl, omega arith, omega arith, (refl, omega arith, omega arith, refl))

ac-IsText : IsText texts 20 ac
ac-IsText = (refl, omega arith, omega arith, (refl, omega arith, omega arith, refl))

memmove-moved_example : memmove 11 10 6 texts ≡ moved 11 10 6 texts
memmove-moved_example = memmove-moved 11 10 6 texts (omega arith)

strcmp_example : (v : ℕ) × (strcmp 3 10 20 texts ≡ some v) × ((v ≡ 0) ↔ (ab ≡ ac))
strcmp_example = strcmp_lem 3 10 20 ab ac texts ab-IsText ac-IsText (omega arith)

print_int-read_example : IsPrinted 255 16 (print_int 255 16 false)
print_int-read_example = print_int-read 255 16 false (omega arith) (omega arith) (omega arith)

-- 2 ^ 20 has 21 digits in base 2.
large_binary : print_int 0x100000 2 false ≡ none
unfolding print_int digits_from
large_binary = refl

print_int-unsigned_example : print_int 0xffffffff 10 false ≡ none
print_int-unsigned_example = print_int-unsigned 1 10 (omega arith) (omega arith) (omega arith)

minus_twelve : print_int (extend 0xfff4) 10 true ≡ some (45 ∷ 49 ∷ 50 ∷ [])
unfolding print_int digits_from
minus_twelve = refl

-- "n=%d!" with -12
vprintk-int_example :
    (ds : List ℕ) × IsDecimal 0xfff4 ds
    × (vprintk text (110 ∷ 61 ∷ 37 ∷ 100 ∷ 33 ∷ []) (word 0xfff4 ∷ [])
        ≡ prepend (110 ∷ 61 ∷ []) (prepend ds (vprintk text (33 ∷ []) [])))
vprintk-int_example =
    vprintk-int (110 ∷ 61 ∷ []) (33 ∷ []) 0xfff4 [] (omega arith, (omega arith, tt)) (omega arith)
