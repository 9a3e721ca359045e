-- ===== src/Kernel/Console/Reading.antt =====
-- console_read of kernel/console.c from the keys in the ring buffer to the memory of the process.
use cpu.Prelude.{
  ℕ, suc, ◌<◌, ◌==◌, leb, min, if◌then◌else◌, length, List, [], Option, some, ◌≡◌, refl, ◌∙◌, sym,
  ap, inl, inr, Bool-cases,
}
use cpu.Machine.State.{Uart}
use cpu.Kernel.State.{Kernel, RingBuffer, Layout}
use cpu.Kernel.Command.{Command, failure, current_process_lem}
use cpu.Kernel.Scheduler.{Switch}
use cpu.Kernel.Sleep.{sleep}
use cpu.Kernel.Pcb.{top_offset}
use cpu.Kernel.Pcb.Access.{HasPcb, cell16}
use cpu.Kernel.Mmu.Windows.{with_ram}
use cpu.Kernel.Copy.{error}
use cpu.Kernel.Copy.Outward.{IsTable, page_table, store_user, copy_to_user_lem}
use cpu.Kernel.Uart.Ring.{IsValid, contents}
use cpu.Kernel.Uart.Display.{display, with_uart}
use cpu.Kernel.Console.{line_size, console_read}
use cpu.Kernel.Console.Editor.{stack, edit, length-stack}
use cpu.Kernel.Console.Editing.{read_line-edit}

-- What console_read has done when the line is ready: the bytes of the line are stored through the page
-- table of the process.
pub record IsRead (k : Kernel) (me va : ℕ) (line rest : List ℕ) (o : Option (ℕ × Kernel))
    : Type 0 where
  pub buffer : ℕ → ℕ
  pub ring : RingBuffer
  pub uart : Uart
  pub text : stack (length line) buffer ≡ line
  pub left : contents ring ≡ rest
  pub ends :
      let k' = record (with_uart k uart) { ring = ring } in
      let (result, ram) = store_user (length line) buffer 0 va (page_table k me) k.board.ram in
      o ≡ (
        if leb (cell16 k me top_offset) va
        then some (failure, k')
        else some (if result == error then failure else length line, with_ram k' ram))

changed-HasPcb :
    (k : Kernel) (me : ℕ) (ring : RingBuffer) (uart : Uart)
    → HasPcb k me
    → HasPcb (record (with_uart k uart) { ring = ring }) me
changed-HasPcb k me ring uart h = record {
  synced = record {
    registers = h.synced.registers;
    window_one = h.synced.window_one;
    window_two = h.synced.window_two;
    tracked_one = h.synced.tracked_one;
    tracked_two = h.synced.tracked_two;
  };
  frame = h.frame;
}

module _ (run : Switch → Command (Unit {0})) (l : Layout) (rounds fuel me va n : ℕ) where
  -- When the keys in the ring buffer are enough for the line editor, with the smaller of n and 128 as its
  -- size, console_read ends. It takes from the ring buffer the keys that the editor takes, and stores the
  -- line through the page table of the running process; it returns the length of the line, or -1 if the
  -- address is not below the top or a page is not mapped. Nothing else changes but the UART, and the memory
  -- before such a page. The kernel's map is installed, the process's stack and pages are frames of kalloc,
  -- the UART's status is a byte, the indices of the ring buffer are bytes, the fuel is more than the keys,
  -- and the display takes a character in each round of the busy wait.
  pub console_read-edit :
      (k : Kernel) (line rest : List ℕ)
      → k.current ≡ some me
      → HasPcb k me
      → IsTable (page_table k me)
      → va < 0x10000
      → k.board.uart.status < 256
      → IsValid k.ring
      → length (contents k.ring) < fuel
      → edit (min n line_size) (contents k.ring) [] ≡ some (line, rest)
      → IsRead k me va line rest (console_read run l display (suc (suc rounds)) fuel va n k)
  unfolding console_read
  console_read-edit k line rest current pcb table small byte valid enough ready =
      let read =
        read_line-edit rounds (min n line_size) (sleep run l.ring_address) (contents k.ring) line
          rest fuel (record { buffer = λ i. 0; bytes_read = 0 }) k
          (record { registers = pcb.synced.registers; byte = byte; ring = valid }) refl enough
          ready in
      let count : read.local.bytes_read ≡ length line =
        sym (length-stack read.local.bytes_read read.local.buffer) ∙ ap length read.text in
      let k' = record (with_uart k read.uart) { ring = read.ring } in
      record {
        buffer = read.local.buffer;
        ring = read.ring;
        uart = read.uart;
        text = ap (λ m. stack m read.local.buffer) (sym count) ∙ read.text;
        left = read.left;
        ends =
            rw
              (
                read.ends,
                current_process_lem k' me current,
                count,
                copy_to_user_lem read.local.buffer va (length line) me k'
                    (changed-HasPcb k me read.ring read.uart pcb) table small,
              )
              (elim (Bool-cases (leb (cell16 k me top_offset) va)) [
                | inl e ↦ rw e refl
                | inr e ↦ rw e refl
              ]);
      }
