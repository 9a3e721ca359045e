-- ===== src/Kernel/Memory/Moved.antt =====
-- What the copying loops between an array and a page of a window read and write.
use cpu.Prelude.{
  ℕ, zero, suc, ◌+◌, ◌-◌, ◌*◌, ◌/◌, ◌%◌, ◌<◌, ◌≤◌, ◌⊎◌, true, if◌then◌else◌, update, within, some,
  ◌≡◌, ap, ◌∙◌, fun_ext, arith,
}
use cpu.Kernel.State.{Kernel}
use cpu.Kernel.Memory.{read_bytes, write_bytes}
use cpu.Kernel.Mmu.Windows.{with_ram}
use cpu.Kernel.Pcb.Access.{Shows, load_lem, store_lem}

-- The array `dst` with `n` bytes of memory from `base` on at the index `i`.
abbrev pub gathered : (ℕ → ℕ) → ℕ → ℕ → ℕ → (ℕ → ℕ) → ℕ → ℕ
gathered ram base n i dst j = if within i (i + n) j then ram (base + (j - i)) else dst j

-- Memory with `n` elements of the array, from the index `i` on, at `base`.
abbrev pub scattered : (ℕ → ℕ) → ℕ → ℕ → ℕ → (ℕ → ℕ) → ℕ → ℕ
scattered ram base n i src a = if within base (base + n) a then src (i + (a - base)) else ram a

pub gathered-step :
    (ram : ℕ → ℕ) (base n i : ℕ) (dst : ℕ → ℕ)
    → gathered ram (base + 1) n (i + 1) (update dst i (ram base)) ≡ gathered ram base (suc n) i dst
gathered-step ram base n i dst = fun_ext λ j. ground arith

pub scattered-step :
    (ram : ℕ → ℕ) (base n i : ℕ) (src : ℕ → ℕ)
    → scattered (update ram base (src i)) (base + 1) n (i + 1) src
      ≡ scattered ram base (suc n) i src
scattered-step ram base n i src = fun_ext λ a. ground arith

pub gathered-zero : (ram : ℕ → ℕ) (base i : ℕ) (dst : ℕ → ℕ) → dst ≡ gathered ram base 0 i dst
gathered-zero ram base i dst = fun_ext λ j. ground arith

pub scattered-zero : (ram : ℕ → ℕ) (base i : ℕ) (src : ℕ → ℕ) → ram ≡ scattered ram base 0 i src
scattered-zero ram base i src = fun_ext λ a. ground arith

-- What the block of memory holds, and what the rest does.
module _ (ram : ℕ → ℕ) (base n : ℕ) (src : ℕ → ℕ) where
  pub scattered-inside : (i : ℕ) → i < n → scattered ram base n 0 src (base + i) ≡ src i
  scattered-inside i h =
      let there : within base (base + n) (base + i) ≡ true = ground (arith, h) in
      let index : 0 + (base + i - base) ≡ i = omega arith in rw there (ap src index)

  pub scattered-outside :
      (a : ℕ) → (a < base) ⊎ (base + n ≤ a) → scattered ram base n 0 src a ≡ ram a
  scattered-outside a h = ground (arith, h)

  pub gathered-inside : (i : ℕ) → i < n → gathered ram base n 0 src i ≡ ram (base + i)
  gathered-inside i h = ground (arith, h)

-- The next byte of the page, as long as there is one.
Shows-next : (k : Kernel) (va f : ℕ) → Shows k va f → va % 4096 + 2 ≤ 4096 → Shows k (va + 1) f
Shows-next k va f s h =
    let page : (va + 1) / 4096 ≡ va / 4096 = omega arith in
    record { page = ap k.board.mmu.page_table page ∙ s.page; frame = s.frame }

-- A copy from one page reads the bytes of its frame.
pub read_bytes_lem :
    (n va i f : ℕ) (dst : ℕ → ℕ) (k : Kernel)
    → Shows k va f
    → va % 4096 + n ≤ 4096
    → read_bytes n va i dst k ≡ some (gathered k.board.ram (f * 4096 + va % 4096) n i dst, k)
unfolding read_bytes
read_bytes_lem zero va i f dst k s h =
    ap (λ d. some (d, k)) (gathered-zero k.board.ram (f * 4096 + va % 4096) i dst)
read_bytes_lem (suc zero) va i f dst k s h =
    rw (load_lem k va f s) (ap (λ d. some (d, k)) (fun_ext λ j. ground arith))
read_bytes_lem (suc (suc n)) va i f dst k s h =
    let base = f * 4096 + va % 4096 in
    let next : f * 4096 + (va + 1) % 4096 ≡ base + 1 = omega arith in
    let dst' = update dst i (k.board.ram base) in
    rw (load_lem k va f s) (
      read_bytes_lem (suc n) (va + 1) (i + 1) f dst' k (Shows-next k va f s (omega arith))
        (omega arith)
      ∙ ap (λ b. some (gathered k.board.ram b (suc n) (i + 1) dst', k)) next
      ∙ ap (λ d. some (d, k)) (gathered-step k.board.ram base (suc n) i dst))

-- A copy to one page writes the bytes of its frame, and nothing else.
pub write_bytes_lem :
    (n va i f : ℕ) (src : ℕ → ℕ) (k : Kernel)
    → Shows k va f
    → va % 4096 + n ≤ 4096
    → write_bytes n va i src k
      ≡ some (tt, with_ram k (scattered k.board.ram (f * 4096 + va % 4096) n i src))
unfolding write_bytes
write_bytes_lem zero va i f src k s h =
    ap (λ r. some (tt, with_ram k r)) (scattered-zero k.board.ram (f * 4096 + va % 4096) i src)
write_bytes_lem (suc zero) va i f src k s h =
    rw (store_lem k va f (src i) s) (ap (λ r. some (tt, with_ram k r)) (fun_ext λ a. ground arith))
write_bytes_lem (suc (suc n)) va i f src k s h =
    let base = f * 4096 + va % 4096 in
    let k' = with_ram k (update k.board.ram base (src i)) in
    let next : f * 4096 + (va + 1) % 4096 ≡ base + 1 = omega arith in
    let s' : Shows k' (va + 1) f =
      (let t = Shows-next k va f s (omega arith) in record { page = t.page; frame = t.frame }) in
    rw (store_lem k va f (src i) s) (
      write_bytes_lem (suc n) (va + 1) (i + 1) f src k' s' (omega arith)
      ∙ ap (λ b. some (tt, with_ram k (scattered k'.board.ram b (suc n) (i + 1) src))) next
      ∙ ap (λ r. some (tt, with_ram k r)) (scattered-step k.board.ram base (suc n) i src))
