-- ===== src/Kernel/Uart/Ring.antt =====
-- The ring buffer of kernel/uart.c as a queue of characters.
use cpu.Prelude.{
  ℕ, zero, suc, ◌+◌, ◌-◌, ◌%◌, ◌<◌, ◌==◌, ◌!=◌, update, update_ne, update_self, Option, true, false,
  none, some, ◌≡◌, ◌≢◌, ap, ◌∙◌, arith, inl, inr, sym, Bool-cases, List, [], ◌∷◌, ◌++◌, ==→ne,
  ==→eq, ◌⊎◌,
}
use mathlib.Core.Path.{ap₂}
use cpu.Kernel.State.{RingBuffer}
use cpu.Kernel.Uart.{push, pop, put}

-- The indices are bytes.
pub record IsValid (r : RingBuffer) : Type 0 where
  pub head : r.head < 256
  pub tail : r.tail < 256

-- How many characters the buffer holds.
abbrev pub held : RingBuffer → ℕ
held r = (r.head + 256 - r.tail) % 256

abbrev pub window : (ℕ → ℕ) → ℕ → ℕ → List ℕ
window buffer i zero = []
window buffer i (suc n) = buffer i ∷ window buffer ((i + 1) % 256) n

-- The characters that the buffer holds, the oldest first.
abbrev pub contents : RingBuffer → List ℕ
contents r = window r.buffer r.tail (held r)

-- Writing behind a window that is not full appends to it.
window-update :
    (buffer : ℕ → ℕ) (n i head c : ℕ)
    → i < 256
    → head ≡ (i + n) % 256
    → n < 256
    → window (update buffer head c) i (suc n) ≡ window buffer i n ++ c ∷ []
window-update buffer zero i head c h e small =
    let here : i ≡ head = omega arith in
    ap (λ v. v ∷ []) (ap (update buffer head c) here ∙ update_self buffer head c)
window-update buffer (suc n) i head c h e small =
    ap₂ ◌∷◌ (update_ne buffer head i c (omega arith))
      (window-update buffer n ((i + 1) % 256) head c (omega arith) (omega arith) (omega arith))

-- While fewer than 255 characters are held, one that is received is appended behind them.
pub push-contents :
    (c : ℕ) (r : RingBuffer)
    → IsValid r
    → held r < 255
    → IsValid (push c r) × (contents (push c r) ≡ contents r ++ c ∷ [])
unfolding push
push-contents c r v room =
    let open_slot : (r.head + 1 != r.tail) ≡ true = ground arith in
    let more : held (put c r) ≡ suc (held r) = omega arith in
    rw open_slot (
      record { head = omega arith; tail = v.tail },
      ap (window (update r.buffer r.head c) r.tail) more
          ∙ window-update r.buffer (held r) r.tail r.head c v.tail (omega arith) (omega arith),
    )

-- uart_getc takes the oldest character, and returns -1 and changes nothing if there is none.
abbrev pub taken : List ℕ → Option ℕ × List ℕ
taken [] = (none, [])
taken (c ∷ cs) = (some c, cs)

pub pop-contents :
    (r : RingBuffer)
    → IsValid r
    → let (c, r') = pop r in IsValid r' × ((c, contents r') ≡ taken (contents r))
unfolding pop
pop-contents r v = elim (Bool-cases (r.head == r.tail)) [
  | inl empty ↦ let none_held : held r ≡ 0 = ground arith in rw empty (v, rw none_held)
  | inr filled ↦
      let rest = record r { tail = (r.tail + 1) % 256 } in
      let less : held r ≡ suc (held rest) = ground arith in
      rw filled (
        record { head = v.head; tail = omega arith },
        ap (λ n. taken (window r.buffer r.tail n)) (sym less),
      )
]

-- A buffer that holds 255 characters drops the next one, unless it is full at the end of the array:
-- with `head` 255 and `tail` 0 the character is stored, and all 256 are lost.
pub push-full :
    (c : ℕ) (r : RingBuffer)
    → IsValid r
    → held r ≡ 255
    → ((r.head ≢ 255) × (push c r ≡ r)) ⊎ ((r.head ≡ 255) × (contents (push c r) ≡ []))
unfolding push
push-full c r v full = elim (Bool-cases (r.head == 255)) [
  | inl last ↦
      let at_end : (r.head + 1 != r.tail) ≡ true = ground arith in
      let lost : held (put c r) ≡ 0 = ground arith in
      inr (==→eq r.head 255 last, rw at_end (ap (window (update r.buffer r.head c) r.tail) lost))
  | inr inner ↦
      let closed : (r.head + 1 != r.tail) ≡ false = ground arith in
      inl (==→ne r.head 255 inner, rw closed)
]
