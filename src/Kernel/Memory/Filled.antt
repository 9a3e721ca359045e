-- ===== src/Kernel/Memory/Filled.antt =====
-- What a loop over a window leaves in memory.
use cpu.Prelude.{
  ℕ, zero, suc, ◌+◌, ◌*◌, ◌/◌, ◌%◌, ◌≤◌, if◌then◌else◌, update, within, some, ◌≡◌, ap, ◌∙◌, fun_ext,
  arith,
}
use cpu.Kernel.State.{Kernel}
use cpu.Kernel.Memory.{fill}
use cpu.Kernel.Mmu.Windows.{with_ram}
use cpu.Kernel.Pcb.Access.{Shows, store_lem}

-- Memory with `n` bytes from `base` on set to `v`.
abbrev pub filled : (ℕ → ℕ) → ℕ → ℕ → ℕ → ℕ → ℕ
filled ram base n v a = if within base (base + n) a then v else ram a

filled-step :
    (ram : ℕ → ℕ) (base n v : ℕ)
    → filled (update ram base v) (base + 1) n v ≡ filled ram base (suc n) v
filled-step ram base n v = fun_ext λ a. ground arith

filled-zero : (ram : ℕ → ℕ) (base v : ℕ) → ram ≡ filled ram base 0 v
filled-zero ram base v = fun_ext λ a. ground arith

-- A memset inside one page fills the bytes of its frame, and writes nothing else.
pub fill_lem :
    (n va v f : ℕ) (k : Kernel)
    → Shows k va f
    → va % 4096 + n ≤ 4096
    → fill n va v k ≡ some (tt, with_ram k (filled k.board.ram (f * 4096 + va % 4096) n v))
unfolding fill
fill_lem zero va v f k s h =
    ap (λ r. some (tt, with_ram k r)) (filled-zero k.board.ram (f * 4096 + va % 4096) v)
fill_lem (suc zero) va v f k s h =
    rw (store_lem k va f v s) (ap (λ r. some (tt, with_ram k r)) (fun_ext λ a. ground arith))
fill_lem (suc (suc n)) va v f k s h =
    let base = f * 4096 + va % 4096 in
    let k' = with_ram k (update k.board.ram base v) in
    let page : (va + 1) / 4096 ≡ va / 4096 = omega arith in
    let next : f * 4096 + (va + 1) % 4096 ≡ base + 1 = omega arith in
    rw (store_lem k va f v s) (
      fill_lem (suc n) (va + 1) v f k'
        (record { page = ap k.board.mmu.page_table page ∙ s.page; frame = s.frame }) (omega arith)
      ∙ ap (λ b. some (tt, with_ram k (filled k'.board.ram b (suc n) v))) next
      ∙ ap (λ r. some (tt, with_ram k r)) (filled-step k.board.ram base (suc n) v))
