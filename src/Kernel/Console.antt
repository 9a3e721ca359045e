-- ===== src/Kernel/Console.antt =====
-- console_read and console_write of kernel/console.c. `run` is as in Kernel.Sleep, and `wait` what the
-- devices do in a round of the UART's busy wait, for which `rounds` is the fuel. console_read takes fuel
-- for its keys and sleeps, and stops without.
pub mod Editor
pub mod Editing
pub mod Reading
use cpu.Prelude.{
  ℕ, zero, suc, ◌+◌, ◌-◌, ◌%◌, ◌==◌, leb, min, update, if◌then◌else◌, ◌||◌, Bool, false, Option,
  none, some,
}
use cpu.Kernel.State.{Layout}
use cpu.Kernel.Command.{Command, pure, when, choose, current_process, failure, ◌>>=◌, ◌>>◌}
use cpu.Kernel.Scheduler.{Switch}
use cpu.Kernel.Sleep.{sleep}
use cpu.Kernel.Uart.{uart_getc, uart_putc_sync, uart_putc}
use cpu.Kernel.Copy.{copy_to_user, copy_from_user, error}

-- sizeof(buffer)
abbrev pub line_size : ℕ
line_size = 128

-- The local variables of console_read.
pub record Line : Type 0 where
  pub buffer : ℕ → ℕ
  pub bytes_read : ℕ

abbrev pub is_erase : ℕ → Bool
is_erase c = c == 8 || (c == 0x7f)

abbrev pub is_end : ℕ → Bool
is_end c = c == 13 || (c == 10)

abbrev pub add : ℕ → Line → Line
add c s = record { buffer = update s.buffer s.bytes_read c; bytes_read = s.bytes_read + 1 }

-- What a key does to the line.
unfoldable pub key : ℕ → Line → Line
key c s =
    if is_erase c
    then if s.bytes_read == 0 then s else record s { bytes_read = s.bytes_read - 1 }
    else if is_end c
    then add 10 s
    else add c s

-- What a key prints.
unfoldable pub echo : (ℕ → Command (Unit {0})) → ℕ → Line → Command (Unit {0})
echo put c s =
    choose (is_erase c) (choose (s.bytes_read == 0) (pure tt) (do put 8; put 32; put 8))
      (choose (is_end c) (do put 13; put 10) (put c))

-- A key, or the sleep until there is one; `again` is the rest of the loop.
unfoldable pub typed :
    (ℕ → Command (Unit {0}))
    → Command (Unit {0})
    → Option ℕ
    → Line
    → (Line → Command Line)
    → Command Line
typed put wait none s again = do wait; again s
typed put wait (some c) s again = do
  echo put c s
  choose (if is_erase c then false else is_end c) (pure (key c s)) (again (key c s))

unfoldable pub read_line :
    (ℕ → Command (Unit {0})) → Command (Unit {0}) → ℕ → ℕ → Line → Command Line
read_line put wait zero max_read s k = none
read_line put wait (suc fuel) max_read s k =
    choose (leb max_read s.bytes_read) (pure s)
      (do c ← uart_getc; typed put wait c s (read_line put wait fuel max_read)) k

module _ (run : Switch → Command (Unit {0})) (l : Layout) where
  unfoldable pub console_read : Command (Unit {0}) → ℕ → ℕ → ℕ → ℕ → Command ℕ
  console_read wait rounds fuel user_dst n = do
    line ←
        read_line (uart_putc_sync wait rounds) (sleep run l.ring_address) fuel (min n line_size)
          (record { buffer = λ i. 0; bytes_read = 0 })
    me ← current_process
    copied ← copy_to_user line.buffer user_dst line.bytes_read me
    pure (if copied == error then failure else line.bytes_read)

-- The loop over the characters of a chunk, from `i` on.
unfoldable pub put_chunk : (ℕ → Command (Unit {0})) → ℕ → ℕ → (ℕ → ℕ) → Command (Unit {0})
put_chunk out zero i buffer k = some (tt, k)
put_chunk out (suc n) i buffer k =
    (do when (buffer i == 10) (out 13); out (buffer i); put_chunk out n (i + 1) buffer) k

abbrev pub chunk_size : ℕ → ℕ → ℕ
chunk_size n total_written = min (n - total_written) line_size

-- The loop of console_write; each round writes at least one byte, so `n` is enough fuel.
unfoldable pub write_chunks : (ℕ → Command (Unit {0})) → ℕ → ℕ → ℕ → ℕ → Command ℕ
write_chunks out zero n total_written user_ptr k = some (total_written, k)
write_chunks out (suc fuel) n total_written user_ptr k =
    choose (leb n total_written) (pure total_written)
      (do
        me ← current_process
        (copied, buffer) ← copy_from_user (λ i. 0) user_ptr (chunk_size n total_written) me
        choose (copied == error) (pure (if total_written == 0 then failure else total_written)) (do
          put_chunk out (chunk_size n total_written) 0 buffer
          write_chunks out fuel n (total_written + chunk_size n total_written)
              ((user_ptr + chunk_size n total_written) % 0x10000)))
      k

unfoldable pub console_write : (Switch → Command (Unit {0})) → ℕ → ℕ → ℕ → Command ℕ
console_write run rounds user_src n = write_chunks (uart_putc run rounds) n n 0 user_src
