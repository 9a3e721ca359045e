-- ===== src/Kernel/Signals/Kills.antt =====
-- sys_kill of kernel/proc.c marks the first process that the caller may kill.
use cpu.Prelude.{
  ℕ, zero, suc, ◌+◌, ◌/◌, ◌%◌, ◌==◌, leb, if◌then◌else◌, Bool, update, true, false, Option, none,
  some, ◌≡◌, refl, arith, inl, inr, Bool-cases, first,
}
use cpu.Kernel.State.{Kernel, Proc, is, sleeping, ready, max_proc_count}
use cpu.Kernel.Pcb.{a_offset, pid_offset, uid_offset, killed_offset, stack_frame}
use cpu.Kernel.Pcb.Access.{
  IsFrame, HasPcb, cell, cell16, proc_get_8_lem, proc_get_16_lem, proc_set_16_lem,
}
use cpu.Kernel.Mmu.Windows.{IsSynced, with_ram}
use cpu.Kernel.Wakeup.{with_state, set_state}
use cpu.Kernel.Command.{failure, current_process_lem}
use cpu.Kernel.Signals.{active, is_victim, rouse, kill, kill_from, sys_kill}

-- The kernel's map is installed, and the stacks of the running process and of the active ones are
-- frames of kalloc.
pub record HasProcs (k : Kernel) (me : ℕ) : Type 0 where
  pub synced : IsSynced k
  pub current : k.current ≡ some me
  pub mine : IsFrame (stack_frame k me)
  pub frame : (p : ℕ) → active (k.proc_table p) ≡ true → IsFrame (stack_frame k p)

-- The process has the pid and the caller's user, and is neither unused nor a zombie.
abbrev pub victim : Kernel → ℕ → ℕ → ℕ → Bool
victim k me pid p =
    if active (k.proc_table p)
    then if cell16 k p pid_offset == pid
      then k.board.ram (cell k p uid_offset) == k.board.ram (cell k me uid_offset)
      else false
    else false

abbrev pub roused : (ℕ → Proc) → ℕ → ℕ → Proc
roused procs p =
    if is (procs p).state sleeping then update procs p (with_state (procs p) ready) else procs

-- The kernel in which the process has been killed: its killed field holds the caller's pid, and it
-- does not sleep.
abbrev pub killed : Kernel → ℕ → ℕ → Kernel
killed k me p =
    let low = update k.board.ram (cell k p killed_offset) (cell16 k me pid_offset % 256) in
    let ram = update low (cell k p (killed_offset + 1)) (cell16 k me pid_offset / 256) in
    record (with_ram k ram) { proc_table = roused k.proc_table p }

abbrev pub outcome : Kernel → ℕ → Option ℕ → ℕ × Kernel
outcome k me none = (failure, k)
outcome k me (some p) = (0, killed k me p)

if-true : (a b : Bool) → (if a then b else false) ≡ true → a ≡ true
if-true true b e = refl
if-true false b e = e

module _ (k : Kernel) (me : ℕ) (h : HasProcs k me) where
  pcb : (p : ℕ) → active (k.proc_table p) ≡ true → HasPcb k p
  pcb p a = record { synced = h.synced; frame = h.frame p a }

  my_pcb : HasPcb k me
  my_pcb = record { synced = h.synced; frame = h.mine }

  is_victim_lem : (pid p : ℕ) → is_victim me pid p k ≡ some (victim k me pid p, k)
  unfolding is_victim
  is_victim_lem pid p = elim (Bool-cases (active (k.proc_table p))) [
    | inl a ↦ rw a (
        rw (
          proc_get_16_lem k p (pcb p a) pid_offset (omega arith),
          proc_get_8_lem k p (pcb p a) uid_offset (omega arith),
          proc_get_8_lem k me my_pcb uid_offset (omega arith),
        ))
    | inr gone ↦ rw gone
  ]

  kill_lem : (p : ℕ) → active (k.proc_table p) ≡ true → kill me p k ≡ some (0, killed k me p)
  unfolding kill rouse set_state
  kill_lem p a =
      rw
        (
          proc_get_16_lem k me my_pcb pid_offset (omega arith),
          proc_set_16_lem k p (pcb p a) killed_offset (cell16 k me pid_offset) (omega arith),
        )
        (elim (Bool-cases (is (k.proc_table p).state sleeping)) [
          | inl asleep ↦ rw asleep
          | inr awake ↦ rw awake
        ])

  victim-active : (pid p : ℕ) → victim k me pid p ≡ true → active (k.proc_table p) ≡ true
  victim-active pid p v = if-true (active (k.proc_table p)) _ v

  kill_from_lem :
      (n p pid : ℕ) → kill_from n p me pid k ≡ some (outcome k me (first n p (victim k me pid)))
  unfolding kill_from first
  kill_from_lem zero p pid = refl
  kill_from_lem (suc n) p pid = rw (is_victim_lem pid p) (elim (Bool-cases (victim k me pid p)) [
    | inl hit ↦ rw hit (kill_lem p (victim-active pid p hit))
    | inr miss ↦ rw miss (kill_from_lem n (p + 1) pid)
  ])

  -- sys_kill returns -1 and changes nothing when the pid is 0 or 1 or when no active process has both
  -- the pid and the caller's user; otherwise it returns 0, stores the caller's pid in the killed
  -- field of the first such process, makes it ready if it slept, and changes nothing else. The
  -- kernel's map is installed, a process runs, and its stack and those of the active processes are
  -- frames of kalloc.
  pub sys_kill_lem :
      let pid = cell16 k me a_offset in
      sys_kill k
      ≡ some (outcome k me (if leb pid 1 then none else first max_proc_count 0 (victim k me pid)))
  unfolding sys_kill
  sys_kill_lem = rw (current_process_lem k me h.current) (
      rw (proc_get_16_lem k me my_pcb a_offset (omega arith))
        (elim (Bool-cases (leb (cell16 k me a_offset) 1)) [
          | inl low ↦ rw low
          | inr high ↦ rw high (kill_from_lem max_proc_count 0 (cell16 k me a_offset))
        ]))
