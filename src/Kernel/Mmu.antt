-- ===== src/Kernel/Mmu.antt =====
-- kernel/mmu.c: the kernel's page table, and the two windows through which it reaches any frame.
pub mod Windows
use cpu.Prelude.{
  ℕ, zero, suc, ◌+◌, ◌-◌, ◌*◌, ◌/◌, ◌%◌, ◌==◌, ◌!=◌, if◌then◌else◌, update, ◌&&◌, Bool, true, false,
  Option, none, some,
}
use cpu.Machine.Map.{mmu_page_table, rom_enable_register}
use cpu.Kernel.State.{Kernel, Proc, page_table_size, window_one, window_two}
use cpu.Kernel.Command.{Command, pure, panic, ◌>>=◌, ◌>>◌, load, store}

-- `kernel_page_table[i] = v`
abbrev pub set_shadow : ℕ → ℕ → Command (Unit {0})
set_shadow i v k = some (tt, record k { kernel_page_table = update k.kernel_page_table i v })

abbrev pub set_low_memory : Proc → ℕ → ℕ → Proc
set_low_memory p i v = record p { kernel_low_memory = update p.kernel_low_memory i v }

-- `if(current_process != NULL) current_process->kernel_low_memory[window] = frame;`
unfoldable pub track : ℕ → ℕ → Command (Unit {0})
track window frame k = elim k.current [
  | none ↦ some (tt, k)
  | some p ↦ some (
    tt,
    record k { proc_table = update k.proc_table p (set_low_memory (k.proc_table p) window frame) },
  )
]

-- Hardware, shadow table and the running process get the frame.
unfoldable pub install : ℕ → ℕ → Command (Unit {0})
install window frame = do
  store (mmu_page_table + window) frame
  set_shadow window frame
  track window frame

-- The address of the window, and the frame that it showed before.
unfoldable pub mmu_map_window : ℕ → ℕ → Command (ℕ × ℕ)
mmu_map_window window frame k =
    if (window != 1) && (window != 2)
    then none
    else (do
      install window frame
      pure (if window == 1 then window_one else window_two, k.kernel_page_table window))
        k

unfoldable pub mmu_unmap_window : ℕ → ℕ → Command (Unit {0})
mmu_unmap_window window old_frame k =
    if (window != 1) && (window != 2) then none else install window old_frame k

-- The loop of mmu_init, over the segments that are left.
unfoldable pub identity_from : ℕ → ℕ → Command (Unit {0})
identity_from zero i = pure tt
identity_from (suc n) i = do store (mmu_page_table + i) i; set_shadow i i; identity_from n (i + 1)

-- A 16-bit register or vector, low byte first.
abbrev pub store16 : ℕ → ℕ → Command (Unit {0})
store16 a v = do store a (v % 256); store (a + 1) (v / 256)

-- `nmi` and `irq` are the addresses of nmi_handler and kernel_vector in kernel/trampoline.s.
unfoldable pub mmu_init : ℕ → ℕ → Command (Unit {0})
unfolding identity_from
mmu_init nmi irq = do
  store rom_enable_register 0
  store16 0xfffa nmi
  store16 0xfffe irq
  store (mmu_page_table + 1) 1
  store (mmu_page_table + 2) 2
  identity_from page_table_size 0
