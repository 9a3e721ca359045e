-- ===== src/Kernel/Console/Editing.antt =====
-- The loop of console_read of kernel/console.c as a line editor on the keys that are typed, with the
-- emulated display behind the UART.
use cpu.Prelude.{
  ℕ, zero, suc, ◌<◌, ◌==◌, leb, if◌then◌else◌, length, List, [], ◌∷◌, Bool, true, false, Option,
  some, ◌≡◌, refl, sym, ◌∙◌, ap, arith, inl, inr, Bool-cases,
}
use mathlib.Core.Option.{some-injective, none-ne-some}
use mathlib.Core.Path.{subst}
use cpu.Machine.State.{Uart}
use cpu.Kernel.State.{Kernel, RingBuffer}
use cpu.Kernel.Command.{Command, pure, choose}
use cpu.Kernel.Uart.{uart_getc, uart_putc_sync, pop}
use cpu.Kernel.Uart.Ring.{IsValid, contents, taken, pop-contents}
use cpu.Kernel.Uart.Display.{display, with_uart, sent, uart_putc_sync_lem, sent-lt}
use cpu.Kernel.Console.{Line, is_erase, is_end, key, echo, typed, read_line}
use cpu.Kernel.Console.Editor.{
  stack, edit, length-stack, text, text-key, finishes, edited, edit-full, edit-empty, edit-finishes,
  edit-goes,
}

-- What a key prints.
abbrev echoed : ℕ → ℕ → Uart → Uart
echoed c n u =
    if is_erase c
    then if n == 0 then u else sent 8 (sent 32 (sent 8 u))
    else if is_end c
    then sent 10 (sent 13 u)
    else sent c u

-- The kernel's map is installed, and the UART's status is a byte.
pub record IsReady (k : Kernel) : Type 0 where
  pub registers : k.board.mmu.page_table 15 ≡ 15
  pub byte : k.board.uart.status < 256
  pub ring : IsValid k.ring

module _ (rounds : ℕ) where
  abbrev put : ℕ → Command (Unit {0})
  put = uart_putc_sync display (suc (suc rounds))

  echo_lem :
      (c : ℕ) (s : Line) (k : Kernel)
      → IsReady k
      → echo put c s k ≡ some (tt, with_uart k (echoed c s.bytes_read k.board.uart))
  unfolding echo
  echo_lem c s k h =
      let u = k.board.uart in
      let one = λ (c' : ℕ). uart_putc_sync_lem k h.registers rounds c' h.byte in
      let two = λ (c' : ℕ) (c'' : ℕ).
        uart_putc_sync_lem (with_uart k (sent c' u)) h.registers rounds c'' (sent-lt c' u h.byte) in
      elim (Bool-cases (is_erase c)) [
        | inl e ↦ elim (Bool-cases (s.bytes_read == 0)) [
          | inl z ↦ rw (e, z) refl
          | inr z ↦
              rw (e, z, one 8, two 8 32)
                (uart_putc_sync_lem (with_uart k (sent 32 (sent 8 u))) h.registers rounds 8
                  (sent-lt 32 (sent 8 u) (sent-lt 8 u h.byte)))
        ]
        | inr e ↦ elim (Bool-cases (is_end c)) [
          | inl z ↦ rw (e, z, one 13) (two 13 10)
          | inr z ↦ rw (e, z) (one c)
        ]
      ]

-- The next key that was received.
uart_getc-cons :
    (k : Kernel) (c : ℕ) (cs : List ℕ)
    → IsValid k.ring
    → contents k.ring ≡ c ∷ cs
    → (ring : RingBuffer) × IsValid ring
      × (contents ring ≡ cs)
      × (uart_getc k ≡ some (some c, record k { ring = ring }))
unfolding uart_getc
uart_getc-cons k c cs v held =
    let popped = pop-contents k.ring v in
    let same = popped.1 ∙ ap taken held in
    (
      (pop k.ring).1,
      popped.0,
      ap (λ t. t.1) same,
      ap (λ o. some (o, record k { ring = (pop k.ring).1 })) (ap (λ t. t.0) same),
    )

-- How the loop ends: with the line and the keys that are left. The kernel is changed in its ring buffer
-- and in the UART alone.
pub record IsEdited (k : Kernel) (line rest : List ℕ) (o : Option (Line × Kernel)) : Type 0 where
  pub local : Line
  pub ring : RingBuffer
  pub uart : Uart
  pub ends : o ≡ some (local, record (with_uart k uart) { ring = ring })
  pub text : stack local.bytes_read local.buffer ≡ line
  pub left : contents ring ≡ rest
  pub valid : IsValid ring

-- A line that is full, or ended.
stopped :
    (s : Line) (k : Kernel) (line rest : List ℕ)
    → IsReady k
    → ◌≡◌ {A = List ℕ × List ℕ} (text s, contents k.ring) (line, rest)
    → IsEdited k line rest (some (s, k))
stopped s k line rest h same = record {
  local = s;
  ring = k.ring;
  uart = k.board.uart;
  ends = refl;
  text = ap (λ t. t.0) same;
  left = ap (λ t. t.1) same;
  valid = h.ring;
}

-- What came before changed the ring buffer and the UART.
went_on :
    (k : Kernel) (ring : RingBuffer) (uart : Uart) (line rest : List ℕ) (o : Option (Line × Kernel))
    → IsEdited (record (with_uart k uart) { ring = ring }) line rest o
    → IsEdited k line rest o
went_on k ring uart line rest o r = record {
  local = r.local;
  ring = r.ring;
  uart = r.uart;
  ends = r.ends;
  text = r.text;
  left = r.left;
  valid = r.valid;
}

echoed-lt : (c n : ℕ) (u : Uart) → u.status < 256 → (echoed c n u).status < 256
echoed-lt c n u h = ground (
  arith,
  h,
  sent-lt c u h,
  sent-lt 10 (sent 13 u) (sent-lt 13 u h),
  sent-lt 8 (sent 32 (sent 8 u)) (sent-lt 32 (sent 8 u) (sent-lt 8 u h)),
)

module _ (rounds size : ℕ) (wait : Command (Unit {0})) where
  filled : (s : Line) (b : Bool) → leb size s.bytes_read ≡ b → leb size (length (text s)) ≡ b
  filled s b e = ap (leb size) (length-stack s.bytes_read s.buffer) ∙ e

  at_end :
      (s : Line) (k : Kernel) (line rest keys : List ℕ)
      → contents k.ring ≡ keys
      → leb size (length (text s)) ≡ true
      → edit size keys (text s) ≡ some (line, rest)
      → ◌≡◌ {A = List ℕ × List ℕ} (text s, contents k.ring) (line, rest)
  at_end s k line rest keys held e ends =
      let same : ◌≡◌ {A = List ℕ × List ℕ} (text s, contents k.ring) (text s, keys) =
        ap (λ r. (text s, r)) held in
      same
      ∙ some-injective (text s, keys) (line, rest) (sym (edit-full size keys (text s) e) ∙ ends)

  typed_lem :
      (c : ℕ) (s : Line) (k : Kernel) (again : Line → Command Line)
      → IsReady k
      → typed (put rounds) wait (some c) s again k ≡ (
          choose
            (finishes c)
            (pure (key c s))
            (again (key c s))
            (with_uart k (echoed c s.bytes_read k.board.uart)))
  unfolding typed
  typed_lem c s k again h = rw (echo_lem rounds c s k h) refl

  ended :
      (c : ℕ) (cs : List ℕ) (s : Line) (ring : RingBuffer) (line rest : List ℕ)
      → contents ring ≡ cs
      → ◌≡◌ {A = Option (List ℕ × List ℕ)} (some (edited c (text s), cs)) (some (line, rest))
      → ◌≡◌ {A = List ℕ × List ℕ} (text (key c s), contents ring) (line, rest)
  ended c cs s ring line rest left same =
      let pair : ◌≡◌ {A = List ℕ × List ℕ} (text (key c s), contents ring) (edited c (text s), cs) =
        λ i. (text-key c s i, left i) in
      pair ∙ some-injective (edited c (text s), cs) (line, rest) same

  -- A round uses up a key; the last one finds the line full, or ends it.
  pub read_line-edit :
      (keys line rest : List ℕ) (fuel : ℕ) (s : Line) (k : Kernel)
      → IsReady k
      → contents k.ring ≡ keys
      → length keys < fuel
      → edit size keys (stack s.bytes_read s.buffer) ≡ some (line, rest)
      → IsEdited k line rest (read_line (put rounds) wait fuel size s k)
  unfolding read_line
  read_line-edit keys line rest zero s k h held enough ends = absurd (omega arith)
  read_line-edit [] line rest (suc fuel) s k h held enough ends =
      elim (Bool-cases (leb size s.bytes_read)) [
        | inl e ↦
            rw e (stopped s k line rest h (at_end s k line rest [] held (filled s true e) ends))
        | inr e ↦
            absurd
              (none-ne-some (line, rest) (sym (edit-empty size (text s) (filled s false e)) ∙ ends))
      ]
  read_line-edit (c ∷ cs) line rest (suc fuel) s k h held enough ends =
      elim (Bool-cases (leb size s.bytes_read)) [
        | inl e ↦
            rw e
              (stopped s k line rest h (at_end s k line rest (c ∷ cs) held (filled s true e) ends))
        | inr e ↦
            let (ring, valid, left, got) = uart_getc-cons k c cs h.ring held in
            let k' = record k { ring = ring } in
            let h' : IsReady k' = record { registers = h.registers; byte = h.byte; ring = valid } in
            let u = echoed c s.bytes_read k.board.uart in
            let h'' : IsReady (with_uart k' u) = record {
              registers = h.registers;
              byte = echoed-lt c s.bytes_read k.board.uart h.byte;
              ring = valid;
            } in
            rw (e, got)
              (subst (IsEdited k line rest)
                (sym (typed_lem c s k' (read_line (put rounds) wait fuel size) h'))
                (went_on k ring u line rest
                  (choose (finishes c) (pure (key c s))
                    (read_line (put rounds) wait fuel size (key c s)) (with_uart k' u))
                  (elim (Bool-cases (finishes c)) [
                    | inl y ↦ rw y (
                        stopped (key c s) (with_uart k' u) line rest h'' (
                          ended c cs s ring line rest left
                            (sym (edit-finishes size c cs (text s) (filled s false e) y) ∙ ends)))
                    | inr y ↦ rw y (
                        read_line-edit cs line rest fuel (key c s) (with_uart k' u) h'' left
                          (omega arith)
                          (ap (edit size cs) (text-key c s)
                            ∙ sym (edit-goes size c cs (text s) (filled s false e) y)
                            ∙ ends))
                  ])))
      ]
