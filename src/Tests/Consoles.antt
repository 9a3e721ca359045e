-- ===== src/Tests/Consoles.antt =====
-- A line that is typed at the console of a concrete kernel.
use cpu.Prelude.{ℕ, ◌==◌, if◌then◌else◌, [], ◌∷◌, some, ◌≡◌, refl, arith}
use cpu.Kernel.State.{Kernel}
use cpu.Kernel.Pcb.Access.{HasPcb}
use cpu.Kernel.Uart.Display.{display}
use cpu.Kernel.Console.{console_read}
use cpu.Kernel.Console.Editor.{edit}
use cpu.Kernel.Console.Reading.{IsRead, console_read-edit}
use cpu.Tests.Kernels.{layout}
use cpu.Tests.Storage.{user, user-HasPcb, user-IsTable}

-- a, b, DEL, c, RETURN, d
abbrev keys : ℕ → ℕ
keys i =
    if i == 0
    then 97
    else if i == 1
    then 98
    else if i == 2
    then 0x7f
    else if i == 3
    then 99
    else if i == 4
    then 13
    else 100

abbrev at_console : Kernel
at_console = record user { ring = record { buffer = keys; head = 6; tail = 0 } }

ac : edit 128 (97 ∷ 98 ∷ 0x7f ∷ 99 ∷ 13 ∷ 100 ∷ []) [] ≡ some (10 ∷ 99 ∷ 97 ∷ [], 100 ∷ [])
unfolding edit
ac = refl

at_console-HasPcb : HasPcb at_console 0
at_console-HasPcb = record {
  synced = record {
    registers = user-HasPcb.synced.registers;
    window_one = user-HasPcb.synced.window_one;
    window_two = user-HasPcb.synced.window_two;
    tracked_one = user-HasPcb.synced.tracked_one;
    tracked_two = user-HasPcb.synced.tracked_two;
  };
  frame = omega arith;
}

console_read-edit_example :
    IsRead at_console 0 0x1ffe
      (10 ∷ 99 ∷ 97 ∷ [])
      (100 ∷ [])
      (console_read (λ s k. some (tt, k)) layout display 2 7 0x1ffe 200 at_console)
unfolding edit
console_read-edit_example =
    console_read-edit (λ s k. some (tt, k)) layout 0 7 0 0x1ffe 200 at_console (10 ∷ 99 ∷ 97 ∷ [])
      (100 ∷ []) refl at_console-HasPcb user-IsTable (omega arith) (omega arith)
      (record { head = omega arith; tail = omega arith }) (omega arith) refl
