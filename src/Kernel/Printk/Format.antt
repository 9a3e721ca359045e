-- ===== src/Kernel/Printk/Format.antt =====
-- vprintk of kernel/printk.c. The variable arguments are a list, and an argument of another kind than
-- the directive asks for, or a missing one, is `none`. A character is given with the next one, or 0.
pub mod Literals
use cpu.Prelude.{
  ℕ, ◌+◌, ◌%◌, ◌==◌, leb, if◌then◌else◌, Bool, true, false, ◌&&◌, Option, none, some, List, [], ◌∷◌,
  ◌++◌,
}
use cpu.Kernel.Printk.{print_int, print_ptr}

-- int and uint16_t have 16 bits, long and uint32_t 32; a NULL string is an empty option.
pub data Argument : Type 0 where
  word long : ℕ → Argument
  string : Option (List ℕ) → Argument

-- The local `state`, and the step over the second character of %ld, %lu and %lx.
pub data State : Type 0 where
  text directive skip : State

-- An int as a long.
abbrev pub extend : ℕ → ℕ
extend v = if leb 0x8000 v then v + 0xffff0000 else v

abbrev pub Printed : Type 0
Printed = Option (List ℕ × List Argument)

abbrev pub print_with : Option (List ℕ) → List Argument → Printed
print_with none args = none
print_with (some cs) args = some (cs, args)

-- `va_arg` of 16 bits
abbrev pub take_word : (ℕ → Option (List ℕ)) → List Argument → Printed
take_word f (word v ∷ args) = print_with (f v) args
take_word f _ = none

abbrev pub take_long : (ℕ → Option (List ℕ)) → List Argument → Printed
take_long f (long v ∷ args) = print_with (f v) args
take_long f _ = none

-- print_str of va_arg of a string
abbrev pub take_string : List Argument → Printed
take_string (string none ∷ args) = some (40 ∷ 110 ∷ 117 ∷ 108 ∷ 108 ∷ 41 ∷ [], args)
take_string (string (some cs) ∷ args) = some (cs, args)
take_string _ = none

-- The branches on `c0` and `c1` after a '%'. uart_putc_sync takes a char.
unfoldable pub convert : ℕ → ℕ → List Argument → Printed
convert c0 c1 args =
    if c0 == 100
    then take_word (λ v. print_int (extend v) 10 true) args
    else if c0 == 108 && (c1 == 100)
    then take_long (λ v. print_int v 10 true) args
    else if c0 == 117
    then take_word (λ v. print_int v 10 false) args
    else if c0 == 108 && (c1 == 117)
    then take_long (λ v. print_int v 10 false) args
    else if c0 == 120
    then take_word (λ v. print_int v 16 false) args
    else if c0 == 108 && (c1 == 120)
    then take_long (λ v. print_int v 16 false) args
    else if c0 == 112
    then take_word (λ v. some (print_ptr v)) args
    else if c0 == 99
    then take_word (λ v. some (v % 256 ∷ [])) args
    else if c0 == 115
    then take_string args
    else if c0 == 37
    then some (37 ∷ [], args)
    else some (37 ∷ c0 ∷ [], args)

-- `i += 1` in the branches of the two-character directives.
abbrev pub after : ℕ → ℕ → State
after c0 c1 =
    if c0 == 108 && (if c1 == 100 then true else if c1 == 117 then true else c1 == 120)
    then skip
    else text

-- One round of the loop: what is printed, and the state and arguments that are left.
unfoldable pub round : State → ℕ → ℕ → List Argument → Printed × State
round text c c1 args = if c == 37 then (some ([], args), directive) else (some (c ∷ [], args), text)
round directive c c1 args = (convert c c1 args, after c c1)
round skip c c1 args = (some ([], args), text)

abbrev pub head : List ℕ → ℕ
head [] = 0
head (c ∷ cs) = c

abbrev pub prepend : List ℕ → Option (List ℕ) → Option (List ℕ)
prepend cs none = none
prepend cs (some ds) = some (cs ++ ds)

abbrev pub then_format : Printed → (List Argument → Option (List ℕ)) → Option (List ℕ)
then_format none f = none
then_format (some (cs, args)) f = prepend cs (f args)

unfoldable pub vprintk : State → List ℕ → List Argument → Option (List ℕ)
vprintk state [] args = some []
vprintk state (c ∷ fmt) args =
    let (out, state') = round state c (head fmt) args in then_format out (vprintk state' fmt)
