-- ===== src/Kernel/Copy/Outward.antt =====
-- copy_to_user moves the bytes as a loop over single bytes would, each through the page table of the
-- process.
use cpu.Prelude.{
  ℕ, zero, suc, ◌+◌, ◌-◌, ◌*◌, ◌/◌, ◌%◌, ◌<◌, ◌≤◌, ◌==◌, leb, if◌then◌else◌, update, true, false,
  some, ◌≡◌, ◌≢◌, ap, ◌∙◌, sym, refl, fun_ext, arith, inl, inr, Bool-cases, ==→ne, ne→==,
}
use cpu.Kernel.State.{Kernel, frame_unused, page_table_size}
use cpu.Kernel.Memory.Moved.{gathered, scattered, scattered-step, scattered-zero, write_bytes_lem}
use cpu.Kernel.Mmu.Windows.{IsSynced, installed, with_ram, mmu_map_window_lem}
use cpu.Kernel.Pcb.{PageTable, top_offset, page_table_offset}
use cpu.Kernel.Pcb.Access.{
  IsFrame, HasPcb, cell, cell16, with_ram-IsSynced, proc_get_16_lem, unmap-mapped,
}
use cpu.Kernel.Pcb.Bytes.{proc_read_bytes_lem}
use cpu.Kernel.Copy.{error, chunk_of, copy_out, copy_to_user}

-- The physical address of a user address.
abbrev pub physical : PageTable → ℕ → ℕ
physical table va = table (va / 4096) * 4096 + va % 4096

-- Byte by byte: the result, and the memory.
unfoldable pub store_user : ℕ → (ℕ → ℕ) → ℕ → ℕ → PageTable → (ℕ → ℕ) → ℕ × (ℕ → ℕ)
store_user zero src i va table ram = (0, ram)
store_user (suc n) src i va table ram =
    let rest =
      store_user n src (i + 1) ((va + 1) % 0x10000) table
        (update ram (physical table va) (src i)) in
    if table (va / 4096) == frame_unused then (error, ram) else rest

-- A chunk within one page is a block of bytes.
store_user-chunk :
    (c m : ℕ) (src : ℕ → ℕ) (i va : ℕ) (table : PageTable) (ram : ℕ → ℕ)
    → table (va / 4096) ≢ frame_unused
    → va % 4096 + c ≤ 4096
    → va < 0x10000
    → store_user (c + m) src i va table ram
      ≡ store_user m src
          (i + c)
          ((va + c) % 0x10000)
          table
          (scattered ram (physical table va) c i src)
unfolding store_user
store_user-chunk zero m src i va table ram mapped page small =
    let count : 0 + m ≡ m = omega arith in
    let index : i ≡ i + 0 = omega arith in
    let address : va ≡ (va + 0) % 0x10000 = omega arith in
    let same = scattered-zero ram (physical table va) i src in
    λ j. store_user (count j) src (index j) (address j) table (same j)
store_user-chunk (suc zero) m src i va table ram mapped page small =
    let count : suc zero + m ≡ suc m = omega arith in
    rw count (
      rw (ne→== (table (va / 4096)) frame_unused mapped)
        (ap (store_user m src (i + 1) ((va + 1) % 0x10000) table) (fun_ext λ a. ground arith)))
store_user-chunk (suc (suc c)) m src i va table ram mapped page small =
    let count : suc (suc c) + m ≡ suc (suc c + m) = omega arith in
    let index : i + 1 + suc c ≡ i + suc (suc c) = omega arith in
    let va' = (va + 1) % 0x10000 in
    let address : (va' + suc c) % 0x10000 ≡ (va + suc (suc c)) % 0x10000 = omega arith in
    let ram' = update ram (physical table va) (src i) in
    let same : va' / 4096 ≡ va / 4096 = omega arith in
    let next : physical table va' ≡ physical table va + 1 = rw same (omega arith) in
    let block =
      ap (λ b. scattered ram' b (suc c) (i + 1) src) next
      ∙ scattered-step ram (physical table va) (suc c) i src in
    rw count (
      rw (ne→== (table (va / 4096)) frame_unused mapped) (
        store_user-chunk (suc c) m src (i + 1) va' table ram' (rw same mapped) (omega arith)
          (omega arith)
        ∙ (λ j. store_user m src (index j) (address j) table (block j))))

-- The frames of a page table are frames of kalloc.
abbrev pub IsTable : PageTable → Type 0
IsTable table = (s : ℕ) → s < page_table_size → table s ≢ frame_unused → IsFrame (table s)

abbrev pub stored : Kernel → ℕ × (ℕ → ℕ) → ℕ × Kernel
stored k r = (r.0, with_ram k r.1)

store_user-zero :
    (src : ℕ → ℕ) (i va : ℕ) (table : PageTable) (ram : ℕ → ℕ)
    → store_user 0 src i va table ram ≡ (0, ram)
unfolding store_user
store_user-zero src i va table ram = refl

store_user-hole :
    (n : ℕ) (src : ℕ → ℕ) (i va : ℕ) (table : PageTable) (ram : ℕ → ℕ)
    → (table (va / 4096) == frame_unused) ≡ true
    → store_user (suc n) src i va table ram ≡ (error, ram)
unfolding store_user
store_user-hole n src i va table ram hole = rw hole

copy_out_lem :
    (fuel n : ℕ) (src : ℕ → ℕ) (i va : ℕ) (table : PageTable) (k : Kernel)
    → IsSynced k
    → IsTable table
    → va < 0x10000
    → n ≤ fuel
    → copy_out fuel src i va n table k ≡ some (stored k (store_user n src i va table k.board.ram))
unfolding copy_out
copy_out_lem zero zero src i va table k sync valid small enough =
    ap (λ r. some (stored k r)) (sym (store_user-zero src i va table k.board.ram))
copy_out_lem zero (suc n) src i va table k sync valid small enough = absurd (omega arith)
copy_out_lem (suc fuel) zero src i va table k sync valid small enough =
    ap (λ r. some (stored k r)) (sym (store_user-zero src i va table k.board.ram))
copy_out_lem (suc fuel) (suc n) src i va table k sync valid small enough =
    let more : (suc n == 0) ≡ false = ne→== (suc n) 0 (omega arith) in
    let f = table (va / 4096) in
    elim (Bool-cases (f == frame_unused)) [
      | inl hole ↦
          rw (more, hole)
            (ap (λ r. some (stored k r)) (sym (store_user-hole n src i va table k.board.ram hole)))
      | inr mapped ↦
          let here = ==→ne f frame_unused mapped in
          let c = chunk_of va (suc n) in
          let fits : c ≤ 4096 - va % 4096 = omega arith in
          let at_most : c ≤ suc n = omega arith in
          let positive : 1 ≤ c = omega arith in
          let base : f * 4096 + (4096 + va % 4096) % 4096 ≡ physical table va = omega arith in
          let ram = scattered k.board.ram (f * 4096 + (4096 + va % 4096) % 4096) c i src in
          let whole : c + (suc n - c) ≡ suc n = omega arith in
          let page : 1 ≡ (4096 + va % 4096) / 4096 = omega arith in
          let write =
            write_bytes_lem c (4096 + va % 4096) i f src (installed 1 f k)
              (record {
                page = ap (installed 1 f k).board.mmu.page_table (sym page);
                frame = valid (va / 4096) (omega arith) here;
              })
              (omega (arith, fits)) in
          rw (more, mapped)
            (rw (mmu_map_window_lem 1 f k sync (inl refl)) (
              rw write (
                rw (unmap-mapped 1 f k ram sync (inl refl)) (
                  copy_out_lem fuel (suc n - c) src (i + c) ((va + c) % 0x10000) table
                    (with_ram k ram) (with_ram-IsSynced k ram sync) valid (omega arith)
                    (omega (arith, positive, enough))
                  ∙ ap
                      (λ b. some (
                        stored k (
                          store_user (suc n - c) src (i + c) ((va + c) % 0x10000) table
                            (scattered k.board.ram b c i src))))
                      base
                  ∙ ap (λ r. some (stored k r))
                      (sym (
                        store_user-chunk c (suc n - c) src i va table k.board.ram here
                          (omega (arith, fits)) small))
                  ∙ ap (λ m. some (stored k (store_user m src i va table k.board.ram))) whole))))
    ]

-- The page table of the PCB.
abbrev pub page_table : Kernel → ℕ → PageTable
page_table k p = gathered k.board.ram (cell k p page_table_offset) page_table_size 0 (λ i. 0)

-- copy_to_user fails and changes nothing when the address is not below the top. Otherwise it ends, with
-- the result and the memory of a loop that stores byte after byte through the page table of the PCB and
-- fails at the first page that is not mapped, and changes nothing else. The kernel's map is installed,
-- and the process's stack and its pages are frames of kalloc.
pub copy_to_user_lem :
    (src : ℕ → ℕ) (va n p : ℕ) (k : Kernel)
    → HasPcb k p
    → IsTable (page_table k p)
    → va < 0x10000
    → copy_to_user src va n p k ≡ (
        if leb (cell16 k p top_offset) va
        then some (error, k)
        else some (stored k (store_user n src 0 va (page_table k p) k.board.ram)))
unfolding copy_to_user
copy_to_user_lem src va n p k h valid small =
    rw (proc_get_16_lem k p h top_offset (omega arith))
      (elim (Bool-cases (leb (cell16 k p top_offset) va)) [
        | inl past ↦ rw past
        | inr below ↦ rw below (
            rw (proc_read_bytes_lem k p h page_table_offset page_table_size (omega arith))
              (copy_out_lem n n src 0 va (page_table k p) k h.synced valid small (omega arith)))
      ])
