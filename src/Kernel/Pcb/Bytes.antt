-- ===== src/Kernel/Pcb/Bytes.antt =====
-- proc_read_bytes and proc_write_bytes of kernel/proc.c as reads and writes of the process's stack frame.
use cpu.Prelude.{◌*◌, ◌%◌, ℕ, ◌+◌, ◌≤◌, some, ◌≡◌, ap, ◌∙◌, arith}
use cpu.Kernel.State.{Kernel}
use cpu.Kernel.Memory.{read_bytes, write_bytes}
use cpu.Kernel.Memory.Moved.{gathered, scattered, read_bytes_lem, write_bytes_lem}
use cpu.Kernel.Mmu.Windows.{with_ram}
use cpu.Kernel.Pcb.{stack_frame, proc_read_bytes, proc_write_bytes}
use cpu.Kernel.Pcb.Access.{HasPcb, cell, mapped, map_pcb_lem, unmap_pcb_lem, Shows}

module _ (k : Kernel) (p : ℕ) (h : HasPcb k p) where
  base :
      (offset : ℕ)
      → offset ≤ 256
      → stack_frame k p * 4096 + (0x2200 + offset) % 4096 ≡ cell k p offset
  base offset small = omega arith

  page : (offset : ℕ) → offset ≤ 256 → Shows (mapped k p h) (0x2200 + offset) (stack_frame k p)
  page offset small = record { page = ground arith; frame = h.frame }

  read_bytes-gathered :
      (n offset : ℕ) (dst : ℕ → ℕ)
      → offset + n ≤ 256
      → read_bytes n (0x2200 + offset) 0 dst (mapped k p h)
        ≡ some (gathered k.board.ram (cell k p offset) n 0 dst, mapped k p h)
  read_bytes-gathered n offset dst small =
      read_bytes_lem n (0x2200 + offset) 0 (stack_frame k p) dst (mapped k p h)
        (page offset (omega arith)) (omega arith)
      ∙ ap (λ b. some (gathered k.board.ram b n 0 dst, mapped k p h)) (base offset (omega arith))

  write_bytes-scattered :
      (n offset : ℕ) (src : ℕ → ℕ)
      → offset + n ≤ 256
      → write_bytes n (0x2200 + offset) 0 src (mapped k p h)
        ≡ some (tt, with_ram (mapped k p h) (scattered k.board.ram (cell k p offset) n 0 src))
  write_bytes-scattered n offset src small =
      write_bytes_lem n (0x2200 + offset) 0 (stack_frame k p) src (mapped k p h)
        (page offset (omega arith)) (omega arith)
      ∙ ap (λ b. some (tt, with_ram (mapped k p h) (scattered k.board.ram b n 0 src)))
          (base offset (omega arith))

  -- proc_read_bytes returns the bytes of the PCB, and leaves the kernel as it was.
  pub proc_read_bytes_lem :
      (offset size : ℕ)
      → offset + size ≤ 256
      → proc_read_bytes p offset size k
        ≡ some (gathered k.board.ram (cell k p offset) size 0 (λ i. 0), k)
  unfolding proc_read_bytes
  proc_read_bytes_lem offset size small = rw (
    map_pcb_lem k p h,
    read_bytes-gathered size offset (λ i. 0) small,
    unmap_pcb_lem k p h k.board.ram,
  )

  -- proc_write_bytes writes the bytes of the PCB, and nothing else.
  pub proc_write_bytes_lem :
      (offset size : ℕ) (src : ℕ → ℕ)
      → offset + size ≤ 256
      → proc_write_bytes p offset size src k
        ≡ some (tt, with_ram k (scattered k.board.ram (cell k p offset) size 0 src))
  unfolding proc_write_bytes
  proc_write_bytes_lem offset size src small =
      rw (map_pcb_lem k p h, write_bytes-scattered size offset src small)
        (unmap_pcb_lem k p h (scattered k.board.ram (cell k p offset) size 0 src))
