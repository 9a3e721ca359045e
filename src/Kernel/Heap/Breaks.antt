-- ===== src/Kernel/Heap/Breaks.antt =====
-- What sys_sbrk of kernel/proc.c leaves behind when the heap grows.
use cpu.Prelude.{
  ℕ, ◌+◌, ◌-◌, ◌/◌, ◌%◌, ◌<◌, ◌≤◌, ltb, leb, ◌&&◌, ◌||◌, some, update, ◌≡◌, ap, arith, true, false,
}
use cpu.Kernel.State.{Kernel, page_table_size}
use cpu.Kernel.Command.{current_process_lem}
use cpu.Kernel.Pcb.{a_offset, top_offset, page_table_offset}
use cpu.Kernel.Pcb.Access.{
  HasPcb, with_ram-IsSynced, cell, cell16, proc_get_16_lem, proc_set_16_lem,
}
use cpu.Kernel.Memory.Moved.{gathered, scattered}
use cpu.Kernel.Pcb.Bytes.{proc_read_bytes_lem, proc_write_bytes_lem}
use cpu.Kernel.Mmu.Windows.{with_ram}
use cpu.Kernel.Pcb.{PageTable}
use cpu.Kernel.Heap.{grow, resize, commit, sys_sbrk, segment_of}

-- The test for an overflow never holds of a sum of 16 bits.
in_range : (v : ℕ) → (leb 0x10000 (v % 0x10000) || ltb (v % 0x10000) 0) ≡ false
in_range v = ground arith

resize-wraps :
    (increment top : ℕ) (table : PageTable) (k : Kernel)
    → top < 0x10000
    → 0 < increment
    → increment < 0x8000
    → 0x10000 ≤ top + increment
    → resize increment (segment_of top) (segment_of (top + increment - 0x10000)) table k
      ≡ some (some table, k)
unfolding resize grow
resize-wraps increment top table k small positive int past =
    let up : (ltb 0 increment && ltb increment 0x8000) ≡ true = ground arith in
    let empty : segment_of (top + increment - 0x10000) + 1 - segment_of top ≡ 0 = ground arith in
    rw up (ap (λ n. grow n (segment_of top) (segment_of top) table k) empty)

-- The kernel in which the process has this page table and this top.
abbrev pub committed : ℕ → Kernel → PageTable → ℕ → Kernel
committed me k table top =
    let ram = scattered k.board.ram (cell k me page_table_offset) page_table_size 0 table in
    with_ram k (
      update (update ram (cell k me top_offset) (top % 256)) (cell k me (top_offset + 1))
        (top / 256))

commit_lem :
    (k : Kernel) (me : ℕ) (h : HasPcb k me) (top new_top : ℕ) (table : PageTable)
    → commit me top new_top (some table) k ≡ some (top, committed me k table new_top)
unfolding commit
commit_lem k me h top new_top table =
    let ram = scattered k.board.ram (cell k me page_table_offset) page_table_size 0 table in
    rw (proc_write_bytes_lem k me h page_table_offset page_table_size table (omega arith)) (
      rw (
        proc_set_16_lem (with_ram k ram) me
          (record { synced = with_ram-IsSynced k ram h.synced; frame = h.frame }) top_offset new_top
          (omega arith)))

module _ (k : Kernel) (me : ℕ) (h : HasPcb k me) where
  -- The page table of the PCB, as sys_sbrk reads it.
  abbrev pub page_table : PageTable
  page_table = gathered k.board.ram (cell k me page_table_offset) page_table_size 0 (λ i. 0)

  -- An increment that leads past the end of the address space is not refused: the top wraps around
  -- to the start, the memory map stays, and the old top is returned.
  pub sys_sbrk-wraps :
      let top = cell16 k me top_offset in
      let increment = cell16 k me a_offset in
      k.current ≡ some me
      → top < 0x10000
      → 0 < increment
      → increment < 0x8000
      → 0x10000 ≤ top + increment
      → sys_sbrk k ≡ some (top, committed me k page_table (top + increment - 0x10000))
  unfolding sys_sbrk
  sys_sbrk-wraps c small positive int past =
      let top = cell16 k me top_offset in
      let increment = cell16 k me a_offset in
      let sum : (top + increment) % 0x10000 ≡ top + increment - 0x10000 = omega arith in
      rw (current_process_lem k me c) (
        rw
          (
            proc_get_16_lem k me h a_offset (omega arith),
            proc_get_16_lem k me h top_offset (omega arith),
            proc_read_bytes_lem k me h page_table_offset page_table_size (omega arith),
            in_range (top + increment),
            sum,
            resize-wraps increment top page_table k small positive int past,
          )
          (commit_lem k me h top (top + increment - 0x10000) page_table))
