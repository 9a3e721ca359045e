-- ===== src/Kernel/Copy/Inward.antt =====
-- copy_from_user moves the bytes as a loop over single bytes would, each through the page table of the
-- process.
use cpu.Prelude.{
  ℕ, zero, suc, ◌+◌, ◌-◌, ◌*◌, ◌/◌, ◌%◌, ◌<◌, ◌≤◌, ◌==◌, leb, if◌then◌else◌, update, true, false,
  some, ◌≡◌, ◌≢◌, ap, ◌∙◌, sym, refl, fun_ext, arith, inl, inr, Bool-cases, ==→ne, ne→==,
}
use cpu.Kernel.State.{Kernel, frame_unused, page_table_size}
use cpu.Kernel.Memory.Moved.{gathered, gathered-step, gathered-zero, read_bytes_lem}
use cpu.Kernel.Mmu.Windows.{IsSynced, installed, mmu_map_window_lem}
use cpu.Kernel.Pcb.{PageTable, top_offset, page_table_offset}
use cpu.Kernel.Pcb.Access.{HasPcb, cell16, proc_get_16_lem, unmap-mapped}
use cpu.Kernel.Pcb.Bytes.{proc_read_bytes_lem}
use cpu.Kernel.Copy.{error, chunk_of, copy_in, copy_from_user}
use cpu.Kernel.Copy.Outward.{physical, IsTable, page_table}

-- Byte by byte: the result, and the array.
unfoldable pub load_user : ℕ → (ℕ → ℕ) → ℕ → ℕ → PageTable → (ℕ → ℕ) → ℕ × (ℕ → ℕ)
load_user zero dst i va table ram = (0, dst)
load_user (suc n) dst i va table ram =
    let rest =
      load_user n (update dst i (ram (physical table va))) (i + 1) ((va + 1) % 0x10000) table ram in
    if table (va / 4096) == frame_unused then (error, dst) else rest

-- A chunk within one page is a block of bytes.
load_user-chunk :
    (c m : ℕ) (dst : ℕ → ℕ) (i va : ℕ) (table : PageTable) (ram : ℕ → ℕ)
    → table (va / 4096) ≢ frame_unused
    → va % 4096 + c ≤ 4096
    → va < 0x10000
    → load_user (c + m) dst i va table ram
      ≡ load_user m
          (gathered ram (physical table va) c i dst)
          (i + c)
          ((va + c) % 0x10000)
          table
          ram
unfolding load_user
load_user-chunk zero m dst i va table ram mapped page small =
    let count : 0 + m ≡ m = omega arith in
    let index : i ≡ i + 0 = omega arith in
    let address : va ≡ (va + 0) % 0x10000 = omega arith in
    let same = gathered-zero ram (physical table va) i dst in
    λ j. load_user (count j) (same j) (index j) (address j) table ram
load_user-chunk (suc zero) m dst i va table ram mapped page small =
    let count : suc zero + m ≡ suc m = omega arith in
    rw count (
      rw (ne→== (table (va / 4096)) frame_unused mapped) (
        ap (λ d. load_user m d (i + 1) ((va + 1) % 0x10000) table ram) (fun_ext λ a. ground arith)))
load_user-chunk (suc (suc c)) m dst i va table ram mapped page small =
    let count : suc (suc c) + m ≡ suc (suc c + m) = omega arith in
    let index : i + 1 + suc c ≡ i + suc (suc c) = omega arith in
    let va' = (va + 1) % 0x10000 in
    let address : (va' + suc c) % 0x10000 ≡ (va + suc (suc c)) % 0x10000 = omega arith in
    let dst' = update dst i (ram (physical table va)) in
    let same : va' / 4096 ≡ va / 4096 = omega arith in
    let next : physical table va' ≡ physical table va + 1 = rw same (omega arith) in
    let block =
      ap (λ b. gathered ram b (suc c) (i + 1) dst') next
      ∙ gathered-step ram (physical table va) (suc c) i dst in
    rw count (
      rw (ne→== (table (va / 4096)) frame_unused mapped) (
        load_user-chunk (suc c) m dst' (i + 1) va' table ram (rw same mapped) (omega arith)
          (omega arith)
        ∙ (λ j. load_user m (block j) (index j) (address j) table ram)))

load_user-zero :
    (dst : ℕ → ℕ) (i va : ℕ) (table : PageTable) (ram : ℕ → ℕ)
    → load_user 0 dst i va table ram ≡ (0, dst)
unfolding load_user
load_user-zero dst i va table ram = refl

load_user-hole :
    (n : ℕ) (dst : ℕ → ℕ) (i va : ℕ) (table : PageTable) (ram : ℕ → ℕ)
    → (table (va / 4096) == frame_unused) ≡ true
    → load_user (suc n) dst i va table ram ≡ (error, dst)
unfolding load_user
load_user-hole n dst i va table ram hole = rw hole

copy_in_lem :
    (fuel n : ℕ) (dst : ℕ → ℕ) (i va : ℕ) (table : PageTable) (k : Kernel)
    → IsSynced k
    → IsTable table
    → va < 0x10000
    → n ≤ fuel
    → copy_in fuel dst i va n table k ≡ some (load_user n dst i va table k.board.ram, k)
unfolding copy_in
copy_in_lem zero zero dst i va table k sync valid small enough =
    ap (λ r. some (r, k)) (sym (load_user-zero dst i va table k.board.ram))
copy_in_lem zero (suc n) dst i va table k sync valid small enough = absurd (omega arith)
copy_in_lem (suc fuel) zero dst i va table k sync valid small enough =
    ap (λ r. some (r, k)) (sym (load_user-zero dst i va table k.board.ram))
copy_in_lem (suc fuel) (suc n) dst i va table k sync valid small enough =
    let more : (suc n == 0) ≡ false = ne→== (suc n) 0 (omega arith) in
    let f = table (va / 4096) in
    elim (Bool-cases (f == frame_unused)) [
      | inl hole ↦
          rw (more, hole)
            (ap (λ r. some (r, k)) (sym (load_user-hole n dst i va table k.board.ram hole)))
      | inr mapped ↦
          let here = ==→ne f frame_unused mapped in
          let c = chunk_of va (suc n) in
          let fits : c ≤ 4096 - va % 4096 = omega arith in
          let positive : 1 ≤ c = omega arith in
          let base : f * 4096 + (4096 + va % 4096) % 4096 ≡ physical table va = omega arith in
          let dst' = gathered k.board.ram (f * 4096 + (4096 + va % 4096) % 4096) c i dst in
          let whole : c + (suc n - c) ≡ suc n = omega arith in
          let page : 1 ≡ (4096 + va % 4096) / 4096 = omega arith in
          let read =
            read_bytes_lem c (4096 + va % 4096) i f dst (installed 1 f k)
              (record {
                page = ap (installed 1 f k).board.mmu.page_table (sym page);
                frame = valid (va / 4096) (omega arith) here;
              })
              (omega (arith, fits)) in
          rw (more, mapped)
            (rw (mmu_map_window_lem 1 f k sync (inl refl)) (
              rw read (
                rw (unmap-mapped 1 f k k.board.ram sync (inl refl)) (
                  copy_in_lem fuel (suc n - c) dst' (i + c) ((va + c) % 0x10000) table k sync valid
                    (omega arith) (omega (arith, positive, enough))
                  ∙ ap
                      (λ b. some (
                        load_user (suc n - c) (gathered k.board.ram b c i dst) (i + c)
                            ((va + c) % 0x10000) table k.board.ram,
                        k,
                      ))
                      base
                  ∙ ap (λ r. some (r, k))
                      (sym (
                        load_user-chunk c (suc n - c) dst i va table k.board.ram here
                          (omega (arith, fits)) small))
                  ∙ ap (λ m. some (load_user m dst i va table k.board.ram, k)) whole))))
    ]

-- copy_from_user fails when the address is not below the top. Otherwise it ends, with the result and the
-- array of a loop that loads byte after byte through the page table of the PCB and fails at the first
-- page that is not mapped; it changes nothing else. The kernel's map is installed, and the process's
-- stack and its pages are frames of kalloc.
pub copy_from_user_lem :
    (dst : ℕ → ℕ) (va n p : ℕ) (k : Kernel)
    → HasPcb k p
    → IsTable (page_table k p)
    → va < 0x10000
    → copy_from_user dst va n p k ≡ (
        if leb (cell16 k p top_offset) va
        then some ((error, dst), k)
        else some (load_user n dst 0 va (page_table k p) k.board.ram, k))
unfolding copy_from_user
copy_from_user_lem dst va n p k h valid small =
    rw (proc_get_16_lem k p h top_offset (omega arith))
      (elim (Bool-cases (leb (cell16 k p top_offset) va)) [
        | inl past ↦ rw past
        | inr below ↦ rw below (
            rw (proc_read_bytes_lem k p h page_table_offset page_table_size (omega arith))
              (copy_in_lem n n dst 0 va (page_table k p) k h.synced valid small (omega arith)))
      ])
