-- ===== src/Kernel/Process.antt =====
-- proc_init, pid_alloc, proc_alloc, proc_free and run_init_process of kernel/proc.c. make_kernel_stack is
-- assembly of kernel/trampoline.s and a parameter.
use cpu.Prelude.{ℕ, zero, suc, ◌+◌, ◌%◌, ◌==◌, update, first, if◌then◌else◌, Option, none, some}
use cpu.Kernel.State.{
  Kernel, is, unused, building, new, frame_unused, page_table_size, max_proc_count,
}
use cpu.Kernel.Command.{Command, pure, panic, choose, ◌>>=◌, ◌>>◌, store}
use cpu.Kernel.Mmu.{set_low_memory, store16}
use cpu.Kernel.Memory.{fill, write_bytes}
use cpu.Kernel.Kalloc.{kalloc, kfree}
use cpu.Kernel.Pcb.{
  map_pcb, unmap_pcb, page_table_offset, ctx_offset, top_offset, pid_offset, open_files_offset,
  name_offset,
}
use cpu.Kernel.Wakeup.{set_state}
use cpu.Kernel.Copy.{copy_to_user, error}

unfoldable pub pid_alloc : Command ℕ
pid_alloc k =
    if k.next_pid == 0
    then none
    else some (k.next_pid, record k { next_pid = (k.next_pid + 1) % 0x10000 })

-- The entries of proc_table are made unused from `p` on.
unfoldable pub clear_table : ℕ → ℕ → Command (Unit {0})
clear_table zero p k = some (tt, k)
clear_table (suc n) p k = (do set_state p unused; clear_table n (p + 1)) k

unfoldable pub proc_init : Command (Unit {0})
proc_init = do
  clear_table max_proc_count 0
  λ k. some (tt, record k { init_process = none; current = none })

-- `p->kernel_low_memory[i] = v`
abbrev pub set_low : ℕ → ℕ → ℕ → Command (Unit {0})
set_low p i v k =
    some (tt, record k { proc_table = update k.proc_table p (set_low_memory (k.proc_table p) i v) })

-- `p->ksp = v`
abbrev pub set_ksp : ℕ → ℕ → Command (Unit {0})
set_ksp p v k =
    some (tt, record k { proc_table = update k.proc_table p (record (k.proc_table p) { ksp = v }) })

-- The first unused entry.
abbrev pub free_entry : Kernel → Option ℕ
free_entry k = first max_proc_count 0 (λ p. is (k.proc_table p).state unused)

-- `pcb->ctx.sp` and `pcb->ctx.ksp`
abbrev pub sp_offset : ℕ
sp_offset = 16

abbrev pub ksp_offset : ℕ
ksp_offset = 23

module _ (make_kernel_stack : ℕ → Command (Unit {0})) where
  -- proc_alloc behind the search for an entry.
  unfoldable pub set_up : Option ℕ → Command (Option ℕ)
  set_up none = pure none
  set_up (some p) = do
    stack_frame ← kalloc
    set_low p 0 stack_frame
    choose (stack_frame == frame_unused) (pure none) (do
      make_kernel_stack stack_frame
      set_low p 1 1
      set_low p 2 2
      set_state p building
      set_ksp p 0xff
      (pcb, old_frame) ← map_pcb p
      pid ← pid_alloc
      store16 (pcb + pid_offset) pid
      store (pcb + sp_offset) 0xff
      store (pcb + ksp_offset) 0xff
      fill page_table_size (pcb + page_table_offset) frame_unused
      unmap_pcb old_frame
      pure (some p))

  unfoldable pub proc_alloc : Command (Option ℕ)
  proc_alloc k = set_up (free_entry k) k

-- `if(!p) panic("proc_free")` is left out, since an entry is no NULL.
unfoldable pub proc_free : ℕ → Command (Unit {0})
proc_free p k = (do kfree ((k.proc_table p).kernel_low_memory 0); set_state p unused) k

-- The addresses and the bytes that run_init_process takes from the linker and from kernel/initcode.s.
pub record InitCode : Type 0 where
  pub load_address : ℕ → ℕ
  pub address : ℕ
  pub size : ℕ
  pub console_file : ℕ

-- The name "init"
abbrev pub init_name : ℕ → ℕ
init_name i = if i == 0 then 105 else if i == 1 then 110 else if i == 2 then 105 else 116

abbrev pub set_init : Option ℕ → Command (Unit {0})
set_init p k = some (tt, record k { init_process = p })

module _ (make_kernel_stack : ℕ → Command (Unit {0})) (code : InitCode) where
  -- run_init_process behind proc_alloc.
  unfoldable pub load_init : Option ℕ → Command (Unit {0})
  load_init none = panic
  load_init (some p) = do
    (pcb, old_frame) ← map_pcb p
    frame ← kalloc
    store (pcb + page_table_offset) frame
    choose (frame == frame_unused) panic (pure tt)
    store16 (pcb + open_files_offset) code.console_file
    store16 (pcb + open_files_offset + 2) code.console_file
    store16 (pcb + open_files_offset + 4) code.console_file
    store16 (pcb + ctx_offset + 2) code.address
    store16 (pcb + top_offset) ((code.address + code.size) % 0x10000)
    write_bytes 4 (pcb + name_offset) 0 init_name
    unmap_pcb old_frame
    result ← copy_to_user code.load_address code.address code.size p
    choose (result == error) panic (set_state p new)

  unfoldable pub run_init_process : Command (Unit {0})
  run_init_process = do p ← proc_alloc make_kernel_stack; set_init p; load_init p
