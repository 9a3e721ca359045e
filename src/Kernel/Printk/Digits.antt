-- ===== src/Kernel/Printk/Digits.antt =====
-- What print_int of kernel/printk.c prints, and when it runs out of its buffer.
use cpu.Prelude.{
  and-false, ℕ, ◌-◌, ◌%◌, ◌^◌, ◌<◌, ◌≤◌, ◌!=◌, ltb, leb, Bool, true, false, ◌&&◌, Option, none,
  some, List, [], ◌∷◌, length, ◌≡◌, ◌≢◌, refl, ap, ◌∙◌, arith, inl, inr, Bool-cases, ne→!=,
}
use cpu.Kernel.Printk.{digits_from, print_int, sign_bit, buffer_size, minus}
use cpu.Kernel.Printk.Loop.{read_number, AreDigits, digits_from-read, digits_from-overruns}

-- The digits of a number below the 20th power of the base fit into the buffer.
pub print_int-fits :
    (number base : ℕ) (sign : Bool)
    → number < sign_bit
    → 2 ≤ base
    → base ≤ 16
    → number < base ^ buffer_size
    → (cs : List ℕ) × (print_int number base sign ≡ some cs)
      × AreDigits base cs
      × (read_number base cs ≡ number)
unfolding print_int
print_int-fits number base sign small two hex fits =
    let low : leb sign_bit number ≡ false = ground arith in
    let plus : (sign && leb sign_bit number) ≡ false = and-false sign (leb sign_bit number) low in
    let (cs, run, value, short, all) =
      digits_from-read buffer_size 19 number base [] two hex fits (omega arith) tt in
    (cs, rw plus (rw low (rw run refl)), all, value)

print_int-unfit :
    (number base : ℕ) (sign : Bool)
    → number < sign_bit
    → 0 < base
    → base ^ buffer_size ≤ number
    → print_int number base sign ≡ none
unfolding print_int
print_int-unfit number base sign small positive large =
    let low : leb sign_bit number ≡ false = ground arith in
    let plus : (sign && leb sign_bit number) ≡ false = and-false sign (leb sign_bit number) low in
    rw plus (rw low (rw (digits_from-overruns buffer_size number base [] positive large) refl))

-- What the digits of a number become: they fit into the buffer and read back as the number, or they do not
-- fit and the loop writes behind the buffer.
pub data IsPrinted (number base : ℕ) : Option (List ℕ) → Type 0 where
  holds :
      {cs : List ℕ}
      → number < base ^ buffer_size
      → AreDigits base cs
      → read_number base cs ≡ number
      → IsPrinted number base (some cs)
  overruns : base ^ buffer_size ≤ number → IsPrinted number base none

-- print_int of a number below 2^31, in a base from 2 to 16, prints digits of the base that read back as the
-- number if it is below the 20th power of the base, and from there on writes behind its buffer of 20
-- characters.
pub print_int-read :
    (number base : ℕ) (sign : Bool)
    → number < sign_bit
    → 2 ≤ base
    → base ≤ 16
    → IsPrinted number base (print_int number base sign)
print_int-read number base sign small two hex =
    elim (Bool-cases (ltb number (base ^ buffer_size))) [
      | inl y ↦
          let below : number < base ^ buffer_size = ground (arith, y) in
          let (cs, run, all, value) = print_int-fits number base sign small two hex below in
          rw run (holds below all value)
      | inr n ↦
          let above : base ^ buffer_size ≤ number = ground (arith, n) in
          rw (print_int-unfit number base sign small (omega arith) above) (overruns above)
    ]

print_int-minus :
    (magnitude base : ℕ)
    → 0 < magnitude
    → magnitude < sign_bit
    → print_int (0x100000000 - magnitude) base true
      ≡ minus true (digits_from buffer_size false magnitude base [])
unfolding print_int
print_int-minus magnitude base positive small =
    let high : leb sign_bit (0x100000000 - magnitude) ≡ true = ground arith in
    let back : (0x100000000 - (0x100000000 - magnitude)) % 0x100000000 ≡ magnitude = omega arith in
    let low : leb sign_bit magnitude ≡ false = ground arith in rw high (rw back (rw low refl))

-- print_int of a negative number in two's complement, for %d, prints a minus sign and digits which stand for
-- the magnitude, if that is below the 19th power of the base.
pub print_int-negative :
    (magnitude base : ℕ)
    → 0 < magnitude
    → magnitude < sign_bit
    → 2 ≤ base
    → base ≤ 16
    → magnitude < base ^ 19
    → (cs : List ℕ) × (print_int (0x100000000 - magnitude) base true ≡ some (45 ∷ cs))
      × AreDigits base cs
      × (read_number base cs ≡ magnitude)
print_int-negative magnitude base positive small two hex fits =
    let (cs, run, value, short, all) =
      digits_from-read buffer_size 18 magnitude base [] two hex fits (omega arith) tt in
    let room : ltb (length cs) buffer_size ≡ true = ground (arith, short) in
    (
      cs,
      print_int-minus magnitude base positive small ∙ ap (minus true) run ∙ rw room refl,
      all,
      value,
    )

-- print_int without a sign of a number from 2 ^ 31 on, whose last digit in the base is not 0, reads
-- `digits` at a negative index.
pub print_int-unsigned :
    (magnitude base : ℕ)
    → 0 < magnitude
    → magnitude ≤ sign_bit
    → magnitude % base ≢ 0
    → print_int (0x100000000 - magnitude) base false ≡ none
unfolding print_int digits_from
print_int-unsigned magnitude base positive small rest =
    let high : leb sign_bit (0x100000000 - magnitude) ≡ true = ground arith in
    let back : 0x100000000 - (0x100000000 - magnitude) ≡ magnitude = omega arith in
    let digit : (magnitude % base != 0) ≡ true = ne→!= (magnitude % base) 0 rest in
    rw high (rw back (rw digit))
