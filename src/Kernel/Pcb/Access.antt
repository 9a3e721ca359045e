-- ===== src/Kernel/Pcb/Access.antt =====
-- The PCB accessors of kernel/proc.c as reads and writes of the memory of the process's stack frame:
-- the windows are left as they were.
use cpu.Prelude.{ℕ, ◌+◌, ◌*◌, ◌/◌, ◌%◌, ◌<◌, ◌≤◌, update, some, ◌≡◌, refl, ap, ◌∙◌, arith, inr}
use cpu.Machine.Bus.Ram.{IsMapped, read-mapped, write-mapped}
use cpu.Kernel.State.{Kernel}
use cpu.Kernel.Command.{load, store}
use cpu.Kernel.Mmu.{mmu_unmap_window}
use cpu.Kernel.Mmu.Windows.{
  IsSynced, IsWindow, installed, with_ram, mmu_map_window_lem, mmu_unmap_window_lem,
  installed-IsSynced, restored,
}
use cpu.Kernel.Pcb.{
  pcb_offset, stack_frame, map_pcb, unmap_pcb, proc_get_8, proc_set_8, proc_get_16, proc_set_16,
}

-- A frame that kalloc hands out.
pub record IsFrame (f : ℕ) : Type 0 where
  pub above : 16 ≤ f
  pub below : f < 255

-- A virtual address whose page shows such a frame.
pub record Shows (k : Kernel) (va f : ℕ) : Type 0 where
  pub page : k.board.mmu.page_table (va / 4096) ≡ f
  pub frame : IsFrame f

Shows-IsMapped : (k : Kernel) (va f : ℕ) → Shows k va f → IsMapped k.board.mmu va
Shows-IsMapped k va f s = record {
  valid = omega arith;
  memory = record { inside = omega arith; outside = omega arith };
}

pub load_lem :
    (k : Kernel) (va f : ℕ)
    → Shows k va f
    → load va k ≡ some (k.board.ram (f * 4096 + va % 4096), k)
unfolding load
load_lem k va f s =
    rw (read-mapped k.board va (Shows-IsMapped k va f s))
      (ap (λ g. some (k.board.ram (g * 4096 + va % 4096), k)) s.page)

pub store_lem :
    (k : Kernel) (va f v : ℕ)
    → Shows k va f
    → store va v k ≡ some (tt, with_ram k (update k.board.ram (f * 4096 + va % 4096) v))
unfolding store
store_lem k va f v s =
    rw (write-mapped k.board va v (Shows-IsMapped k va f s))
      (ap (λ g. some (tt, with_ram k (update k.board.ram (g * 4096 + va % 4096) v))) s.page)

pub with_ram-IsSynced : (k : Kernel) (ram : ℕ → ℕ) → IsSynced k → IsSynced (with_ram k ram)
with_ram-IsSynced k ram s = record {
  registers = s.registers;
  window_one = s.window_one;
  window_two = s.window_two;
  tracked_one = s.tracked_one;
  tracked_two = s.tracked_two;
}

-- A window that is mapped and put back leaves nothing but what was written in memory.
pub unmap-mapped :
    (w f : ℕ) (k : Kernel) (ram : ℕ → ℕ)
    → IsSynced k
    → IsWindow w
    → mmu_unmap_window w (k.kernel_page_table w) (with_ram (installed w f k) ram)
      ≡ some (tt, with_ram k ram)
unmap-mapped w f k ram s h =
    mmu_unmap_window_lem w (k.kernel_page_table w) (with_ram (installed w f k) ram)
      (with_ram-IsSynced (installed w f k) ram (installed-IsSynced w f k s h)) h
    ∙ ap (λ k'. some (tt, k')) (restored w f k ram s h)

-- The physical address of a byte of the PCB.
abbrev pub cell : Kernel → ℕ → ℕ → ℕ
cell k p offset = stack_frame k p * 4096 + (pcb_offset + offset)

-- A 16-bit field of the PCB.
abbrev pub cell16 : Kernel → ℕ → ℕ → ℕ
cell16 k p offset = k.board.ram (cell k p (offset + 1)) * 256 + k.board.ram (cell k p offset)

-- What an access to the PCB of a process needs.
pub record HasPcb (k : Kernel) (p : ℕ) : Type 0 where
  pub synced : IsSynced k
  pub frame : IsFrame (stack_frame k p)

module _ (k : Kernel) (p : ℕ) (h : HasPcb k p) where
  abbrev pub mapped : Kernel
  mapped = installed 2 (stack_frame k p) k

  pub map_pcb_lem : map_pcb p k ≡ some ((0x2200, k.kernel_page_table 2), mapped)
  map_pcb_lem = rw (mmu_map_window_lem 2 (stack_frame k p) k h.synced (inr refl))

  pub unmap_pcb_lem :
      (ram : ℕ → ℕ)
      → unmap_pcb (k.kernel_page_table 2) (with_ram mapped ram) ≡ some (tt, with_ram k ram)
  unmap_pcb_lem ram = unmap-mapped 2 (stack_frame k p) k ram h.synced (inr refl)

  shows :
      (offset : ℕ) (ram : ℕ → ℕ)
      → offset < 256
      → Shows (with_ram mapped ram) (0x2200 + offset) (stack_frame k p)
  shows offset ram small = record { page = ground arith; frame = h.frame }

  pub load-cell :
      (offset : ℕ) (ram : ℕ → ℕ)
      → offset < 256
      → load (0x2200 + offset) (with_ram mapped ram)
        ≡ some (ram (cell k p offset), with_ram mapped ram)
  load-cell offset ram small =
      load_lem (with_ram mapped ram) (0x2200 + offset) (stack_frame k p) (shows offset ram small)
      ∙ ap (λ a. some (ram a, with_ram mapped ram)) (omega arith)

  pub store-cell :
      (offset v : ℕ) (ram : ℕ → ℕ)
      → offset < 256
      → store (0x2200 + offset) v (with_ram mapped ram)
        ≡ some (tt, with_ram mapped (update ram (cell k p offset) v))
  store-cell offset v ram small =
      store_lem (with_ram mapped ram) (0x2200 + offset) (stack_frame k p) v (shows offset ram small)
      ∙ ap (λ a. some (tt, with_ram mapped (update ram a v))) (omega arith)

  -- proc_get_8 returns the byte of the PCB, and leaves the kernel as it was.
  pub proc_get_8_lem :
      (offset : ℕ) → offset < 256 → proc_get_8 p offset k ≡ some (k.board.ram (cell k p offset), k)
  unfolding proc_get_8
  proc_get_8_lem offset small =
      rw (map_pcb_lem, load-cell offset k.board.ram small, unmap_pcb_lem k.board.ram)

  -- proc_set_8 writes the byte of the PCB, and nothing else.
  pub proc_set_8_lem :
      (offset v : ℕ)
      → offset < 256
      → proc_set_8 p offset v k ≡ some (tt, with_ram k (update k.board.ram (cell k p offset) v))
  unfolding proc_set_8
  proc_set_8_lem offset v small =
      rw (map_pcb_lem, store-cell offset v k.board.ram small)
        (unmap_pcb_lem (update k.board.ram (cell k p offset) v))

  load-cell_next :
      (offset : ℕ) (ram : ℕ → ℕ)
      → offset < 255
      → load (0x2200 + offset + 1) (with_ram mapped ram)
        ≡ some (ram (cell k p (offset + 1)), with_ram mapped ram)
  load-cell_next offset ram small =
      ap (λ a. load a (with_ram mapped ram)) (omega arith)
      ∙ load-cell (offset + 1) ram (omega arith)

  store-cell_next :
      (offset v : ℕ) (ram : ℕ → ℕ)
      → offset < 255
      → store (0x2200 + offset + 1) v (with_ram mapped ram)
        ≡ some (tt, with_ram mapped (update ram (cell k p (offset + 1)) v))
  store-cell_next offset v ram small =
      ap (λ a. store a v (with_ram mapped ram)) (omega arith)
      ∙ store-cell (offset + 1) v ram (omega arith)

  -- proc_get_16 returns the two bytes of the PCB, low byte first, and leaves the kernel as it was.
  pub proc_get_16_lem :
      (offset : ℕ) → offset < 255 → proc_get_16 p offset k ≡ some (cell16 k p offset, k)
  unfolding proc_get_16
  proc_get_16_lem offset small = rw (
    map_pcb_lem,
    load-cell offset k.board.ram (omega arith),
    load-cell_next offset k.board.ram small,
    unmap_pcb_lem k.board.ram,
  )

  -- proc_set_16 writes the two bytes of the PCB, low byte first, and nothing else.
  pub proc_set_16_lem :
      (offset v : ℕ)
      → offset < 255
      → proc_set_16 p offset v k
        ≡ some (
          tt,
          with_ram k (
              update
                (update k.board.ram (cell k p offset) (v % 256))
                (cell k p (offset + 1))
                (v / 256)),
        )
  unfolding proc_set_16
  proc_set_16_lem offset v small =
      let low = update k.board.ram (cell k p offset) (v % 256) in
      rw
        (
          map_pcb_lem,
          store-cell offset (v % 256) k.board.ram (omega arith),
          store-cell_next offset (v / 256) low small,
        )
        (unmap_pcb_lem (update low (cell k p (offset + 1)) (v / 256)))
