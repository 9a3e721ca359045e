-- ===== src/Machine/Bus/Isolation.antt =====
-- Protection by the page table: what a program whose pages avoid the registers can change.
use cpu.Prelude.{
  ℕ, ◌/◌, ◌<◌, ◌==◌, update, ◌≡◌, ◌≢◌, ◌⊎◌, refl, arith, true, inl, inr, Bool-cases, ==→eq,
  update_ne, sym,
}
use native.Mathlib.Decide.{dec_lt}
use cpu.Machine.Bus.Ram.{physical, write_physical-ram, write_physical-out}
use cpu.Machine.Map.{ram_size, mmu_frame_invalid, unmapped, mmu_page_table_size, uart_rx}
use cpu.Machine.State.{Board, Mmu}
use cpu.Machine.Bus.{translate, read_physical, write}

-- The pages of the table avoid the frame `f`.
abbrev pub Avoids : Mmu → ℕ → Type 0
Avoids mmu f = (i : ℕ) → i < mmu_page_table_size → mmu.page_table i ≢ f

-- Nothing but memory and the MMU's fault latches differ.
pub record SameDevices (b b' : Board) : Type 0 where
  pub rom : b'.rom ≡ b.rom
  pub uart : b'.uart ≡ b.uart
  pub disk : b'.disk ≡ b.disk
  pub timer : b'.timer ≡ b.timer
  pub plic : b'.plic ≡ b.plic
  pub page_table : b'.mmu.page_table ≡ b.mmu.page_table
  pub prev : b'.mmu.prev ≡ b.mmu.prev
  pub cause : b'.mmu.cause ≡ b.mmu.cause

-- Off the page of registers.
abbrev pub IsClear : ℕ → Type 0
IsClear a = (a < 0xfc00) ⊎ (0xffff < a)

-- What a write does off the registers: fault, reach memory, or fall behind its end.
pub data Outcome (b : Board) (va v : ℕ) : Board → Type 0 where
  faulted :
      b.mmu.page_table (va / 4096) ≡ mmu_frame_invalid
      → Outcome b va v (record b { mmu = record (b.mmu) { va = va; pending_nmi = true } })
  stored : Outcome b va v (record b { ram = update b.ram (physical b.mmu va) v })
  dropped : Outcome b va v b

pub write-Outcome :
    (b : Board) (va v : ℕ) → IsClear (physical b.mmu va) → Outcome b va v (write va v b)
unfolding write translate
write-Outcome b va v clear = elim (Bool-cases (b.mmu.page_table (va / 4096) == 0xff)) [
  | inl e ↦ rw e (
      rw
        (write_physical-out unmapped v
          (record b { mmu = record (b.mmu) { va = va; pending_nmi = true } }) (omega arith))
        (faulted (==→eq _ _ e)))
  | inr e ↦ rw e (elim (dec_lt (physical b.mmu va) ram_size) [
    | yes small ↦
        rw (write_physical-ram (physical b.mmu va) v b (record { inside = small; outside = clear }))
          stored
    | no big ↦ rw (write_physical-out (physical b.mmu va) v b (omega arith)) dropped
  ])
]

pub read_physical-clear : (a : ℕ) (b : Board) → a ≢ uart_rx → (read_physical a b).1 ≡ b
unfolding read_physical
read_physical-clear a b h = ground arith

Outcome-SameDevices : {b : Board} {va v : ℕ} {b' : Board} → Outcome b va v b' → SameDevices b b'
Outcome-SameDevices (faulted _) = record {
  rom = refl;
  uart = refl;
  disk = refl;
  timer = refl;
  plic = refl;
  page_table = refl;
  prev = refl;
  cause = refl;
}
Outcome-SameDevices stored = record {
  rom = refl;
  uart = refl;
  disk = refl;
  timer = refl;
  plic = refl;
  page_table = refl;
  prev = refl;
  cause = refl;
}
Outcome-SameDevices dropped = record {
  rom = refl;
  uart = refl;
  disk = refl;
  timer = refl;
  plic = refl;
  page_table = refl;
  prev = refl;
  cause = refl;
}

Outcome-ram :
    {b : Board} {va v : ℕ} {b' : Board} (a : ℕ)
    → Outcome b va v b'
    → a / 4096 ≢ b.mmu.page_table (va / 4096)
    → b'.ram a ≡ b.ram a
Outcome-ram a (faulted _) ne = refl
Outcome-ram {b} {va} {v} a stored ne = update_ne b.ram (physical b.mmu va) a v (omega arith)
Outcome-ram a dropped ne = refl

pub avoids-IsClear :
    (mmu : Mmu) (va : ℕ) → mmu.page_table (va / 4096) ≢ 15 → IsClear (physical mmu va)
avoids-IsClear mmu va avoids = elim (dec_lt 0xffff (physical mmu va)) [
  | yes h ↦ inr h
  | no h ↦ inl (omega arith)
]

-- A program none of whose sixteen pages is frame 15 reaches no device register and no other frame: a
-- write through any address leaves the ROM switch, the UART, the disk, the timer, the PLIC, the page
-- table, `prev` and `cause` as they are, and every byte of memory whose frame is in no page.
pub write-isolated :
    (b : Board) (va v : ℕ)
    → va < 0x10000
    → Avoids b.mmu 15
    → SameDevices b (write va v b)
      × ((a : ℕ) → Avoids b.mmu (a / 4096) → (write va v b).ram a ≡ b.ram a)
write-isolated b va v h avoids =
    let done = write-Outcome b va v (avoids-IsClear b.mmu va (avoids (va / 4096) (omega arith))) in
    (
      Outcome-SameDevices done,
      λ a free. Outcome-ram a done (λ e. free (va / 4096) (omega arith) (sym e)),
    )
