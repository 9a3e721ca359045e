-- ===== src/Kernel/Wakeup/Woken.antt =====
-- wakeup of kernel/proc.c makes ready exactly the processes that sleep on the channel.
use cpu.Prelude.{
  ℕ, zero, suc, ◌+◌, ◌*◌, ◌<◌, ◌==◌, if◌then◌else◌, update, within, ◌&&◌, Bool, true, false, some,
  ◌≡◌, ap, ◌∙◌, fun_ext, arith, inl, inr, sym, ==→eq, Bool-cases,
}
use mathlib.Core.Path.{subst}
use cpu.Kernel.State.{Kernel, Proc, is, ready, sleeping, max_proc_count}
use cpu.Kernel.Pcb.{channel_offset, pcb_offset, stack_frame}
use cpu.Kernel.Pcb.Access.{IsFrame, cell16, proc_get_16_lem}
use cpu.Kernel.Mmu.Windows.{IsSynced}
use cpu.Kernel.Wakeup.{with_state, set_state, sleeps_on, wakeup_from, wakeup}

-- The process sleeps on the channel.
abbrev pub waits : Kernel → ℕ → ℕ → Bool
waits k channel p = is (k.proc_table p).state sleeping && (cell16 k p channel_offset == channel)

-- The process table in which the waiting processes from `lo` up to `hi` are ready.
abbrev pub woken : Kernel → ℕ → ℕ → ℕ → ℕ → Proc
woken k channel lo hi p =
    if within lo hi p && waits k channel p
    then with_state (k.proc_table p) ready
    else k.proc_table p

-- The kernel stacks of the sleeping processes are frames of kalloc.
pub record HasStacks (k : Kernel) : Type 0 where
  pub synced : IsSynced k
  pub frame : (p : ℕ) → is (k.proc_table p).state sleeping ≡ true → IsFrame (stack_frame k p)

sleeps_on_lem :
    (k : Kernel) (p channel : ℕ) → HasStacks k → sleeps_on p channel k ≡ some (waits k channel p, k)
unfolding sleeps_on
sleeps_on_lem k p channel h = elim (Bool-cases (is (k.proc_table p).state sleeping)) [
  | inl asleep ↦ rw asleep (
      rw (
        proc_get_16_lem k p (record { synced = h.synced; frame = h.frame p asleep }) channel_offset
          (omega arith)))
  | inr awake ↦ rw awake
]

abbrev roused : Kernel → ℕ → Kernel
roused k p = record k { proc_table = update k.proc_table p (with_state (k.proc_table p) ready) }

low_memory :
    (k : Kernel) (p q : ℕ)
    → ((roused k p).proc_table q).kernel_low_memory ≡ (k.proc_table q).kernel_low_memory
low_memory k p q = elim (Bool-cases (q == p)) [
  | inl same ↦ rw same (ap (λ j. (k.proc_table j).kernel_low_memory) (sym (==→eq q p same)))
  | inr other ↦ rw other
]

still_asleep :
    (k : Kernel) (p q : ℕ)
    → is ((roused k p).proc_table q).state sleeping ≡ true
    → is (k.proc_table q).state sleeping ≡ true
still_asleep k p q asleep = ground arith

roused-HasStacks : (k : Kernel) (p : ℕ) → HasStacks k → HasStacks (roused k p)
roused-HasStacks k p h = record {
  synced = record {
    registers = h.synced.registers;
    window_one = h.synced.window_one;
    window_two = h.synced.window_two;
    tracked_one = λ q c. ap (λ m. m 1) (low_memory k p q) ∙ h.synced.tracked_one q c;
    tracked_two = λ q c. ap (λ m. m 2) (low_memory k p q) ∙ h.synced.tracked_two q c;
  };
  frame = λ q asleep.
      subst (λ m. IsFrame (m 0)) (sym (low_memory k p q)) (h.frame q (still_asleep k p q asleep));
}

channel_of :
    (k : Kernel) (p q : ℕ) → cell16 (roused k p) q channel_offset ≡ cell16 k q channel_offset
channel_of k p q =
    ap
      (λ m.
        k.board.ram (m 0 * 4096 + (pcb_offset + (channel_offset + 1))) * 256
        + k.board.ram (m 0 * 4096 + (pcb_offset + channel_offset)))
      (low_memory k p q)

-- Waking the rest after the first is waking them all.
woken-step :
    (k : Kernel) (channel p hi : ℕ)
    → waits k channel p ≡ true
    → p < hi
    → woken (roused k p) channel (p + 1) hi ≡ woken k channel p hi
woken-step k channel p hi hit small = fun_ext λ q. elim (Bool-cases (q == p)) [
  | inl same ↦ let e = ==→eq q p same in rw e (ground arith)
  | inr other ↦ rw (channel_of k p q, other) (ground arith)
]

woken-skip :
    (k : Kernel) (channel p hi : ℕ)
    → waits k channel p ≡ false
    → woken k channel (p + 1) hi ≡ woken k channel p hi
woken-skip k channel p hi miss = fun_ext λ q. elim (Bool-cases (q == p)) [
  | inl same ↦ let e = ==→eq q p same in rw (e, miss) (ground arith)
  | inr other ↦
      ap (λ w. if w && waits k channel q then with_state (k.proc_table q) ready else k.proc_table q)
        (ground arith)
]

wakeup_from_lem :
    (n p channel : ℕ) (k : Kernel)
    → HasStacks k
    → wakeup_from n p channel k ≡ some (tt, record k { proc_table = woken k channel p (p + n) })
unfolding wakeup_from set_state
wakeup_from_lem zero p channel k h =
    ap (λ t. some (tt, record k { proc_table = t })) (fun_ext λ q. ground arith)
wakeup_from_lem (suc n) p channel k h =
    let shift : p + 1 + n ≡ p + suc n = omega arith in
    rw (sleeps_on_lem k p channel h) (elim (Bool-cases (waits k channel p)) [
      | inl hit ↦ rw hit (
          wakeup_from_lem n (p + 1) channel (roused k p) (roused-HasStacks k p h)
          ∙ rw shift (
              ap (λ t. some (tt, record k { proc_table = t }))
                (woken-step k channel p (p + suc n) hit (omega arith))))
      | inr miss ↦ rw miss (
          wakeup_from_lem n (p + 1) channel k h
          ∙ rw shift (
              ap (λ t. some (tt, record k { proc_table = t }))
                (woken-skip k channel p (p + suc n) miss)))
    ])

-- wakeup makes ready exactly the entries of proc_table that sleep on the channel, and changes nothing
-- else. The kernel's map is installed, and the stacks of the sleeping processes are frames of kalloc.
pub wakeup_lem :
    (channel : ℕ) (k : Kernel)
    → HasStacks k
    → wakeup channel k ≡ some (tt, record k { proc_table = woken k channel 0 max_proc_count })
unfolding wakeup
wakeup_lem channel k h = wakeup_from_lem 512 0 channel k h
