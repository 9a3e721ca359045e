-- ===== src/Kernel/Printk.antt =====
-- print_int and print_ptr of kernel/printk.c: the characters that go to uart_putc_sync, in order. A
-- long is the bit pattern of its 32 bits, and `none` is a read of `digits` or a write to `buffer` out of its
-- bounds.
pub mod Loop
pub mod Digits
pub mod Format
use cpu.Prelude.{
  ℕ, zero, suc, ◌+◌, ◌-◌, ◌*◌, ◌/◌, ◌%◌, ◌==◌, ◌!=◌, ltb, leb, if◌then◌else◌, Bool, true, false,
  ◌&&◌, Option, none, some, List, [], ◌∷◌, length,
}

-- `digits[d]` of the string "0123456789abcdef"
abbrev pub digits : ℕ → ℕ
digits d = if ltb d 10 then 48 + d else 87 + d

-- `digits[number % base]`: the remainder has the sign of the number.
abbrev pub last_digit : Bool → ℕ → ℕ → Option ℕ
last_digit below_zero magnitude base =
    if below_zero && (magnitude % base != 0) then none else some (digits (magnitude % base))

abbrev pub then_prepend : Option ℕ → (ℕ → Option (List ℕ)) → Option (List ℕ)
then_prepend none f = none
then_prepend (some c) f = f c

-- The loop over the digits, for the elements of the buffer that are free. It is printed from its end, so a
-- digit goes before the ones that are there. The number is given by its sign and its magnitude.
unfoldable pub digits_from : ℕ → Bool → ℕ → ℕ → List ℕ → Option (List ℕ)
digits_from zero below_zero magnitude base buffer = none
digits_from (suc room) below_zero magnitude base buffer =
    then_prepend (last_digit below_zero magnitude base) (λ c.
      let rest = digits_from room below_zero (magnitude / base) base (c ∷ buffer) in
      if magnitude / base != 0 then rest else some (c ∷ buffer))

abbrev pub sign_bit : ℕ
sign_bit = 0x80000000

abbrev pub magnitude_of : ℕ → ℕ
magnitude_of number = if leb sign_bit number then 0x100000000 - number else number

-- char buffer[20]
abbrev pub buffer_size : ℕ
buffer_size = 20

-- `if(negative) buffer[i++] = '-';`
abbrev pub minus : Bool → Option (List ℕ) → Option (List ℕ)
minus negative none = none
minus negative (some cs) =
    if negative then if ltb (length cs) buffer_size then some (45 ∷ cs) else none else some cs

unfoldable pub print_int : ℕ → ℕ → Bool → Option (List ℕ)
print_int number base sign =
    let negative = sign && leb sign_bit number in
    let number' = if negative then (0x100000000 - number) % 0x100000000 else number in
    minus negative (digits_from buffer_size (leb sign_bit number') (magnitude_of number') base [])

-- The `n` rounds that are left of the loop of print_ptr.
unfoldable pub nibbles : ℕ → ℕ → List ℕ
nibbles zero ptr = []
nibbles (suc n) ptr = digits (ptr / 4096) ∷ nibbles n (ptr * 16 % 0x10000)

unfoldable pub print_ptr : ℕ → List ℕ
print_ptr ptr = 48 ∷ 120 ∷ nibbles 4 ptr
