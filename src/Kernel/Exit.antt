-- ===== src/Kernel/Exit.antt =====
-- sys_wait and sys_exit of kernel/proc.c. `run` is as in Kernel.Sleep. A wait that is woken without a child
-- that has ended starts over; the model takes fuel for the number of attempts, and stops without.
use cpu.Prelude.{ℕ, zero, suc, ◌+◌, ◌*◌, ◌%◌, ◌==◌, Bool, true, false, Option, none, some}
use cpu.Kernel.State.{is, unused, zombie, frame_unused, page_table_size, max_proc_count, Layout}
use cpu.Kernel.Command.{
  Command, pure, panic, when, choose, current_process, failure, ◌>>=◌, ◌>>◌, load, store,
}
use cpu.Kernel.Kalloc.{kfree}
use cpu.Kernel.Pcb.{
  map_pcb, unmap_pcb, proc_get_8, proc_get_16, proc_set_16, a_offset, pid_offset, exit_code_offset,
  parent_offset, page_table_offset,
}
use cpu.Kernel.Wakeup.{set_state, wakeup}
use cpu.Kernel.Scheduler.{Switch, scheduler}
use cpu.Kernel.Sleep.{sleep}
use cpu.Kernel.Copy.{copy_to_user, error}
use cpu.Kernel.Process.{proc_free}

-- A `Proc*` as a number.
abbrev pub address_of : Layout → Option ℕ → ℕ
address_of l none = 0
address_of l (some p) = l.proc_address p

-- `proc_table[i].state != PROC_STATE_UNUSED && proc_get_parent(&proc_table[i]) == parent`
unfoldable pub is_child : ℕ → ℕ → Command Bool
is_child parent i k =
    choose (is (k.proc_table i).state unused) (pure false)
      (do p ← proc_get_16 i parent_offset; pure (p == parent)) k

-- How a pass over proc_table ends: with a result, or with whether there are children.
pub data Pass : Type 0 where
  result : ℕ → Pass
  searched : Bool → Pass

-- A child that has ended: its exit code is copied, and its entry is freed. The pid is cut to 8 bits.
unfoldable pub reap : ℕ → ℕ → ℕ → Command Pass
reap me user_exit_code i = do
  copied ← (λ k.
      choose (user_exit_code == 0) (pure 0)
        (do code ← proc_get_8 i exit_code_offset; copy_to_user (λ j. code) user_exit_code 1 me) k)
  choose (copied == error) (pure (result failure))
      (do pid ← proc_get_16 i pid_offset; proc_free i; pure (result (pid % 256)))

unfoldable pub wait_pass : Layout → ℕ → ℕ → Bool → ℕ → ℕ → Command Pass
wait_pass l zero i has_children me user_exit_code k = some (searched has_children, k)
wait_pass l (suc n) i has_children me user_exit_code k =
    (do
      mine ← is_child (l.proc_address me) i
      choose mine
          (λ k'.
            choose (is (k'.proc_table i).state zombie) (reap me user_exit_code i)
              (wait_pass l n (i + 1) true me user_exit_code) k')
          (wait_pass l n (i + 1) has_children me user_exit_code))
      k

-- The frames of the `n` segments from `i` on of the PCB at `pcb` are freed.
unfoldable pub free_pages : ℕ → ℕ → ℕ → Command (Unit {0})
free_pages zero i pcb k = some (tt, k)
free_pages (suc n) i pcb k =
    (do
      frame ← load (pcb + page_table_offset + i)
      choose (frame == frame_unused) (pure tt)
          (do kfree frame; store (pcb + page_table_offset + i) frame_unused)
      free_pages n (i + 1) pcb)
      k

-- A child that has ended makes init wake up.
unfoldable pub adopt : ℕ → ℕ → Command (Unit {0})
adopt init i = do
  proc_set_16 i parent_offset init
  λ k. when (is (k.proc_table i).state zombie) (wakeup init) k

-- The children of the process get init as their parent.
unfoldable pub reparent : Layout → ℕ → ℕ → ℕ → Command (Unit {0})
reparent l zero i me k = some (tt, k)
reparent l (suc n) i me k =
    (do
      mine ← is_child (l.proc_address me) i
      when mine (adopt (address_of l k.init_process) i)
      reparent l n (i + 1) me)
      k

abbrev pub is_init : Option ℕ → ℕ → Bool
is_init none me = false
is_init (some p) me = me == p

module _ (run : Switch → Command (Unit {0})) (l : Layout) where
  -- What follows a pass that ended without a result.
  unfoldable pub after_pass : Pass → ℕ → Command ℕ → Command ℕ
  after_pass (result v) me again = pure v
  after_pass (searched false) me again = pure failure
  after_pass (searched true) me again = do sleep run (l.proc_address me); again

  -- has_children is not reset between two passes.
  unfoldable pub wait_from : ℕ → Bool → ℕ → ℕ → Command ℕ
  wait_from zero has_children me user_exit_code k = none
  wait_from (suc fuel) has_children me user_exit_code k =
      (do
        pass ← wait_pass l max_proc_count 0 has_children me user_exit_code
        after_pass pass me (wait_from fuel true me user_exit_code))
        k

  unfoldable pub sys_wait : ℕ → Command ℕ
  sys_wait fuel = do
    me ← current_process
    user_exit_code ← proc_get_16 me a_offset
    wait_from fuel false me user_exit_code

  -- It does not return: the scheduler hands over, and a process that is entered again panics.
  unfoldable pub sys_exit : Command ℕ
  sys_exit = do
    me ← current_process
    λ k. choose (is_init k.init_process me) panic (pure tt) k
    (pcb, old_frame) ← map_pcb me
    free_pages page_table_size 0 pcb
    a ← load (pcb + a_offset)
    store (pcb + exit_code_offset) a
    low ← load (pcb + parent_offset)
    high ← load (pcb + parent_offset + 1)
    unmap_pcb old_frame
    wakeup (high * 256 + low)
    set_state me zombie
    reparent l max_proc_count 0 me
    switch ← scheduler
    run switch
    panic
