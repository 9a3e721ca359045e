-- ===== src/Kernel/Command.antt =====
-- Kernel code as functions from a state to a result and the next state. `none` is a panic: the
-- kernel prints a message and halts for ever.
use cpu.Prelude.{ℕ, ◌≡◌, ap, Option, none, some, Bool, true, false, clear_bits}
use cpu.Machine.Bus.{read, write}
use cpu.Kernel.State.{Kernel}

abbrev pub Command : Type 0 → Type 0
Command A = Kernel → Option (A × Kernel)

abbrev pub pure : {A : Type 0} → A → Command A
pure a k = some (a, k)

abbrev pub panic : {A : Type 0} → Command A
panic k = none

module _ {A B : Type 0} where
  abbrev pub and_then : Option (A × Kernel) → (A → Command B) → Option (B × Kernel)
  and_then none f = none
  and_then (some (a, k)) f = f a k

  infixl 5 ◌>>=◌ ◌>>◌
  abbrev pub ◌>>=◌ : Command A → (A → Command B) → Command B
  m >>= f = λ k. and_then (m k) f

  abbrev pub ◌>>◌ : Command A → Command B → Command B
  m >> n = m >>= λ _. n

-- `if(c) m`
abbrev pub when : Bool → Command (Unit {0}) → Command (Unit {0})
when true m = m
when false m = pure tt

-- A byte at an address, through the bus: MMIO8, or an access through a window.
unfoldable pub load : ℕ → Command ℕ
load a k = let (v, b) = read a k.board in some (v, record k { board = b })

unfoldable pub store : ℕ → ℕ → Command (Unit {0})
store a v k = some (tt, record k { board = write a v k.board })

-- `MMIO8(a) &= ~mask`
unfoldable pub clear_register : ℕ → ℕ → Command (Unit {0})
clear_register a mask = do v ← load a; store a (clear_bits v mask)

-- `if(c) m else n`
abbrev pub choose : {A : Type 0} → Bool → Command A → Command A → Command A
choose true m n = m
choose false m n = n

-- A result of -1 as an int.
abbrev pub failure : ℕ
failure = 0xffff

abbrev pub from : Option ℕ → Command ℕ
from none = panic
from (some p) = pure p

-- The entry that current_process points to; without one the code follows NULL, and the model stops.
abbrev pub current_process : Command ℕ
current_process k = from k.current k

-- The running process of the kernel.
pub current_process_lem :
    (k : Kernel) (me : ℕ) → k.current ≡ some me → current_process k ≡ some (me, k)
current_process_lem k me c = ap (λ p. from p k) c
