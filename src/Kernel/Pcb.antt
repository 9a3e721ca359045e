-- ===== src/Kernel/Pcb.antt =====
-- The PCB accessors of kernel/proc.c. A PCB lies in the kernel stack frame of its process, and is
-- reached through window 2. Offsets are those of the PCB struct of kernel/common.h, which the cc65
-- compiler lays out without padding.
pub mod Access
pub mod Bytes
use cpu.Prelude.{
  ℕ, zero, suc, ◌+◌, ◌-◌, ◌*◌, ◌/◌, ◌%◌, ◌==◌, ◌!=◌, ltb, if◌then◌else◌, update, ◌&&◌, Bool, true,
  false, Option, none, some,
}
use cpu.Kernel.State.{Kernel, Proc}
use cpu.Kernel.Command.{Command, pure, panic, ◌>>=◌, ◌>>◌, load, store}
use cpu.Kernel.Memory.{read_bytes, write_bytes}
use cpu.Kernel.Mmu.{mmu_map_window, mmu_unmap_window}

abbrev pub pcb_offset : ℕ
pcb_offset = 0x200

-- The frames of the 16 pages of a process.
abbrev pub PageTable : Type 0
PageTable = ℕ → ℕ

abbrev pub page_table_offset : ℕ
page_table_offset = 0

abbrev pub ctx_offset : ℕ
ctx_offset = 16

abbrev pub a_offset : ℕ
a_offset = 20

abbrev pub x_offset : ℕ
x_offset = 21

abbrev pub y_offset : ℕ
y_offset = 22

abbrev pub top_offset : ℕ
top_offset = 24

abbrev pub pid_offset : ℕ
pid_offset = 26

abbrev pub uid_offset : ℕ
uid_offset = 28

abbrev pub exit_code_offset : ℕ
exit_code_offset = 30

abbrev pub ticks_offset : ℕ
ticks_offset = 32

abbrev pub parent_offset : ℕ
parent_offset = 33

abbrev pub killed_offset : ℕ
killed_offset = 35

abbrev pub channel_offset : ℕ
channel_offset = 37

abbrev pub open_files_offset : ℕ
open_files_offset = 41

abbrev pub name_offset : ℕ
name_offset = 73

-- `p->kernel_low_memory[0]`
abbrev pub stack_frame : Kernel → ℕ → ℕ
stack_frame k p = (k.proc_table p).kernel_low_memory 0

-- MAP_PCB: the address of the PCB in window 2, and the frame to restore.
abbrev pub map_pcb : ℕ → Command (ℕ × ℕ)
map_pcb p k =
    (do
      (window, old_frame) ← mmu_map_window 2 (stack_frame k p)
      pure (window + pcb_offset, old_frame))
      k

-- UNMAP_PCB
abbrev pub unmap_pcb : ℕ → Command (Unit {0})
unmap_pcb old_frame = mmu_unmap_window 2 old_frame

unfoldable pub proc_get_8 : ℕ → ℕ → Command ℕ
proc_get_8 p offset = do
  (pcb, old_frame) ← map_pcb p
  value ← load (pcb + offset)
  unmap_pcb old_frame
  pure value

unfoldable pub proc_set_8 : ℕ → ℕ → ℕ → Command (Unit {0})
proc_set_8 p offset value = do
  (pcb, old_frame) ← map_pcb p
  store (pcb + offset) value
  unmap_pcb old_frame

unfoldable pub proc_get_16 : ℕ → ℕ → Command ℕ
proc_get_16 p offset = do
  (pcb, old_frame) ← map_pcb p
  low ← load (pcb + offset)
  high ← load (pcb + offset + 1)
  unmap_pcb old_frame
  pure (high * 256 + low)

unfoldable pub proc_set_16 : ℕ → ℕ → ℕ → Command (Unit {0})
proc_set_16 p offset value = do
  (pcb, old_frame) ← map_pcb p
  store (pcb + offset) (value % 256)
  store (pcb + offset + 1) (value / 256)
  unmap_pcb old_frame

-- The destination is a local array, which the model returns.
unfoldable pub proc_read_bytes : ℕ → ℕ → ℕ → Command (ℕ → ℕ)
proc_read_bytes p offset size = do
  (pcb, old_frame) ← map_pcb p
  bytes ← read_bytes size (pcb + offset) 0 (λ i. 0)
  unmap_pcb old_frame
  pure bytes

unfoldable pub proc_write_bytes : ℕ → ℕ → ℕ → (ℕ → ℕ) → Command (Unit {0})
proc_write_bytes p offset size src = do
  (pcb, old_frame) ← map_pcb p
  write_bytes size (pcb + offset) 0 src
  unmap_pcb old_frame
