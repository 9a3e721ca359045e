-- ===== src/Machine/Bus/Ram.antt =====
-- The bus as a memory: what a read returns after a write, through any page table.
use cpu.Prelude.{
  ℕ, ◌+◌, ◌*◌, ◌/◌, ◌%◌, ◌≤◌, ◌<◌, ◌==◌, if◌then◌else◌, update, ◌≡◌, ◌≢◌, ◌⊎◌, ap, arith, true,
}
use cpu.Machine.Map.{ram_size, mmu_frame_invalid, unmapped}
use cpu.Machine.State.{Board, Mmu}
use cpu.Machine.Bus.{translate, read_physical, write_physical, read, write}

-- The physical address of a mapped virtual address.
abbrev pub physical : Mmu → ℕ → ℕ
physical mmu va = mmu.page_table (va / 4096) * 4096 + va % 4096

-- Outside the page of registers and inside the memory.
pub record IsRam (a : ℕ) : Type 0 where
  pub inside : a < ram_size
  pub outside : (a < 0xfc00) ⊎ (0xffff < a)

-- A virtual address that is mapped to memory.
pub record IsMapped (mmu : Mmu) (va : ℕ) : Type 0 where
  pub valid : mmu.page_table (va / 4096) ≢ mmu_frame_invalid
  pub memory : IsRam (physical mmu va)

pub read_physical-ram : (a : ℕ) (b : Board) → IsRam a → read_physical a b ≡ (b.ram a, b)
unfolding read_physical
read_physical-ram a b h = ground arith

pub write_physical-ram :
    (a v : ℕ) (b : Board) → IsRam a → write_physical a v b ≡ record b { ram = update b.ram a v }
unfolding write_physical
write_physical-ram a v b h = ground arith

pub write_physical-out : (a v : ℕ) (b : Board) → ram_size ≤ a → write_physical a v b ≡ b
unfolding write_physical
write_physical-out a v b h = ground arith

pub translate-mapped :
    (mmu : Mmu) (va : ℕ) → IsMapped mmu va → translate mmu va ≡ (physical mmu va, mmu)
unfolding translate
translate-mapped mmu va h = ground arith

pub read-mapped :
    (b : Board) (va : ℕ) → IsMapped b.mmu va → read va b ≡ (b.ram (physical b.mmu va), b)
unfolding read
read-mapped b va h = rw (translate-mapped b.mmu va h) (read_physical-ram _ b h.memory)

pub write-mapped :
    (b : Board) (va v : ℕ)
    → IsMapped b.mmu va
    → write va v b ≡ record b { ram = update b.ram (physical b.mmu va) v }
unfolding write
write-mapped b va v h = rw (translate-mapped b.mmu va h) (write_physical-ram _ v b h.memory)

-- After a write of `v` through the virtual address `va`, a read through `va'` returns `v` if the two
-- are mapped to one physical address, by whatever pages, and what memory held there before if they
-- are not. Both addresses are mapped to memory.
pub read-write :
    (b : Board) (va va' v : ℕ)
    → IsMapped b.mmu va
    → IsMapped b.mmu va'
    → (read va' (write va v b)).0
      ≡ (if physical b.mmu va' == physical b.mmu va then v else (read va' b).0)
read-write b va va' v h h' =
    rw (write-mapped b va v h, read-mapped b va' h')
      (ap (λ r. r.0) (read-mapped (record b { ram = update b.ram (physical b.mmu va) v }) va' h'))

translate-unmapped :
    (mmu : Mmu) (va : ℕ)
    → mmu.page_table (va / 4096) ≡ mmu_frame_invalid
    → translate mmu va ≡ (unmapped, record mmu { va = va; pending_nmi = true })
unfolding translate
translate-unmapped mmu va h = ground arith

read_physical-out : (a : ℕ) (b : Board) → ram_size ≤ a → read_physical a b ≡ (0xff, b)
unfolding read_physical
read_physical-out a b h = ground arith

-- A read or a write through a page that is not mapped returns 0xff or writes nothing: it latches the
-- address and the pending exception in the MMU, and changes nothing else.
pub access_unmapped :
    (b : Board) (va v : ℕ)
    → b.mmu.page_table (va / 4096) ≡ mmu_frame_invalid
    → let faulted = record b { mmu = record (b.mmu) { va = va; pending_nmi = true } } in
      (read va b ≡ (0xff, faulted)) × (write va v b ≡ faulted)
unfolding read write
access_unmapped b va v h =
    let faulted = record b { mmu = record (b.mmu) { va = va; pending_nmi = true } } in
    rw (translate-unmapped b.mmu va h) (
      read_physical-out unmapped faulted (omega arith),
      write_physical-out unmapped v faulted (omega arith),
    )
