-- ===== src/Kernel/Strings/Moves.antt =====
-- memmove of kernel/string.c copies as if through a buffer of its own, however the ranges overlap.
use cpu.Prelude.{
  ℕ, zero, suc, ◌+◌, ◌-◌, ◌<◌, ◌≤◌, ltb, within, if◌then◌else◌, update, ◌≡◌, ◌∙◌, arith, fun_ext,
  Bool-cases, inl, inr, lt→ltb, ltb→lt, ltb→le,
}
use cpu.Kernel.Strings.{Memory, forward, backward, memmove}

-- Memory with the `n` bytes from `src` on, as they were in `m`, at `dst`.
abbrev pub moved : ℕ → ℕ → ℕ → Memory → Memory
moved dst src n m a = if within dst (dst + n) a then m (src + (a - dst)) else m a

forward-step :
    (dst src n : ℕ) (m : Memory)
    → dst < src
    → moved (dst + 1) (src + 1) n (update m dst (m src)) ≡ moved dst src (suc n) m
forward-step dst src n m h = fun_ext λ a. ground arith

forward-moved : (n dst src : ℕ) (m : Memory) → dst < src → forward n dst src m ≡ moved dst src n m
unfolding forward
forward-moved zero dst src m h = fun_ext λ a. ground arith
forward-moved (suc n) dst src m h =
    forward-moved n (dst + 1) (src + 1) (update m dst (m src)) (omega arith)
    ∙ forward-step dst src n m h

backward-step :
    (dst src n : ℕ) (m : Memory)
    → src ≤ dst
    → moved dst src n (update m (dst + n) (m (src + n))) ≡ moved dst src (suc n) m
backward-step dst src n m h = fun_ext λ a. ground arith

backward-moved :
    (n dst src : ℕ) (m : Memory) → src ≤ dst → backward n (dst + n) (src + n) m ≡ moved dst src n m
unfolding backward
backward-moved zero dst src m h = fun_ext λ a. ground arith
backward-moved (suc n) dst src m h =
    let d : dst + suc n - 1 ≡ dst + n = omega arith in
    let s : src + suc n - 1 ≡ src + n = omega arith in
    rw (d, s)
      (backward-moved n dst src (update m (dst + n) (m (src + n))) h ∙ backward-step dst src n m h)

-- memmove of a positive int `n` leaves at `dst` the `n` bytes that were at `src`, and every other byte
-- as it was, whether the ranges overlap or not.
pub memmove-moved :
    (dst src n : ℕ) (m : Memory) → n < 0x8000 → memmove dst src n m ≡ moved dst src n m
unfolding memmove
memmove-moved dst src n m h = rw (lt→ltb n 0x8000 h) (elim (Bool-cases (ltb dst src)) [
  | inl up ↦ rw up (forward-moved n dst src m (ltb→lt dst src up))
  | inr down ↦ rw down (backward-moved n dst src m (ltb→le dst src down))
])
