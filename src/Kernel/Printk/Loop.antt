-- ===== src/Kernel/Printk/Loop.antt =====
-- The loop of print_int of kernel/printk.c over the digits, and what a text of digits stands for.
use cpu.Prelude.{
  ℕ, zero, suc, ◌+◌, ◌-◌, ◌*◌, ◌/◌, ◌%◌, ◌^◌, ◌<◌, ◌≤◌, ◌==◌, ◌!=◌, ltb, if◌then◌else◌, true, false,
  none, some, List, [], ◌∷◌, length, ◌≡◌, refl, ap, ◌∙◌, sym, arith, inl, inr, Bool-cases, ==→eq,
  ==→ne, ne→!=,
}
use native.Mathlib.Nat.{
  div-lt_iff_lt-mul, le-div_iff_mul-le, mod-lt, div-add-mod', div-eq_of_lt, pow-zero, pow-suc,
  mul-le-mul_right,
}
use cpu.Kernel.Printk.{digits, digits_from}

-- The value of a digit character.
abbrev pub digit_value : ℕ → ℕ
digit_value c = if ltb c 58 then c - 48 else c - 87

-- The number that a text of digits stands for, after the digits that came before it.
abbrev pub read_from : ℕ → ℕ → List ℕ → ℕ
read_from base before [] = before
read_from base before (c ∷ cs) = read_from base (before * base + digit_value c) cs

abbrev pub read_number : ℕ → List ℕ → ℕ
read_number base cs = read_from base 0 cs

-- A digit of the base.
abbrev pub IsDigit : ℕ → ℕ → Type 0
IsDigit base c = (digit_value c < base) × (digits (digit_value c) ≡ c)

abbrev pub AreDigits : ℕ → List ℕ → Type 0
AreDigits base [] = Unit
AreDigits base (c ∷ cs) = IsDigit base c × AreDigits base cs

digit_value-digits : (d : ℕ) → d < 16 → digit_value (digits d) ≡ d
digit_value-digits d h = ground arith

digits-IsDigit :
    (magnitude base : ℕ) → 2 ≤ base → base ≤ 16 → IsDigit base (digits (magnitude % base))
digits-IsDigit magnitude base two hex =
    let small : magnitude % base < base = mod-lt magnitude (omega arith) in
    let same = digit_value-digits (magnitude % base) (omega arith) in
    (omega (arith, same, small), ap digits same)

last-read :
    (magnitude base : ℕ) (buffer : List ℕ)
    → 2 ≤ base
    → base ≤ 16
    → read_from base (magnitude / base) (digits (magnitude % base) ∷ buffer)
      ≡ read_from base magnitude buffer
last-read magnitude base buffer two hex =
    let small : magnitude % base < base = mod-lt magnitude (omega arith) in
    let same = digit_value-digits (magnitude % base) (omega arith) in
    ap (λ v. read_from base (magnitude / base * base + v) buffer) same
    ∙ ap (λ v. read_from base v buffer) (div-add-mod' magnitude base)

pow-one : (base : ℕ) → base ^ 1 ≡ base
pow-one base = pow-suc base 0 ∙ ap (λ v. v * base) (pow-zero base) ∙ omega arith

pow-pos : (base n : ℕ) → 0 < base → 0 < base ^ n
pow-pos base zero positive = omega (arith, pow-zero base)
pow-pos base (suc n) positive =
    let step : base ^ suc n ≡ base ^ n * base = pow-suc base n in
    let more : 1 * base ≤ base ^ n * base = mul-le-mul_right base (pow-pos base n positive) in
    omega (arith, step, more)

div-small :
    (room magnitude base : ℕ)
    → 0 < base
    → magnitude < base ^ suc room
    → magnitude / base < base ^ room
div-small room magnitude base positive fits =
    let step : base ^ suc room ≡ base ^ room * base = pow-suc base room in
    (div-lt_iff_lt-mul positive).1 (omega (arith, fits, step))

div-large :
    (room magnitude base : ℕ)
    → 0 < base
    → base ^ suc room ≤ magnitude
    → base ^ room ≤ magnitude / base
div-large room magnitude base positive large =
    let step : base ^ suc room ≡ base ^ room * base = pow-suc base room in
    (le-div_iff_mul-le positive).1 (omega (arith, large, step))

-- The round that stores the first digit, which leaves the loop.
last_round :
    (room magnitude base : ℕ) (buffer : List ℕ)
    → 2 ≤ base
    → base ≤ 16
    → magnitude / base ≡ 0
    → AreDigits base buffer
    → (cs : List ℕ) × (digits_from (suc room) false magnitude base buffer ≡ some cs)
      × (read_from base 0 cs ≡ read_from base magnitude buffer)
      × (length cs ≤ 1 + length buffer)
      × AreDigits base cs
unfolding digits_from
last_round room magnitude base buffer two hex done before =
    let c = digits (magnitude % base) in
    let stop : (magnitude / base != 0) ≡ false = ground (arith, done) in
    (
      c ∷ buffer,
      rw stop refl,
      ap (λ v. read_from base (v * base + digit_value c) buffer) (sym done)
          ∙ last-read magnitude base buffer two hex,
      omega arith,
      (digits-IsDigit magnitude base two hex, before),
    )

-- The digits go before the buffer: what they stand for, followed by the buffer. A number below the (n + 1)-th power
-- of the base has at most n + 1 of them.
pub digits_from-read :
    (room n magnitude base : ℕ) (buffer : List ℕ)
    → 2 ≤ base
    → base ≤ 16
    → magnitude < base ^ suc n
    → n < room
    → AreDigits base buffer
    → (cs : List ℕ) × (digits_from room false magnitude base buffer ≡ some cs)
      × (read_from base 0 cs ≡ read_from base magnitude buffer)
      × (length cs ≤ suc n + length buffer)
      × AreDigits base cs
unfolding digits_from
digits_from-read zero n magnitude base buffer two hex fits enough before = absurd (omega arith)
digits_from-read (suc room) zero magnitude base buffer two hex fits enough before =
    let one : base ^ 1 ≡ base = pow-one base in
    let done : magnitude / base ≡ 0 = div-eq_of_lt (omega (arith, fits, one)) in
    last_round room magnitude base buffer two hex done before
digits_from-read (suc room) (suc n) magnitude base buffer two hex fits enough before =
    let q = magnitude / base in
    let c = digits (magnitude % base) in
    elim (Bool-cases (q == 0)) [
      | inl done ↦
          let (cs, run, value, short, all) =
            last_round room magnitude base buffer two hex (==→eq q 0 done) before in
          (cs, run, value, omega (arith, short), all)
      | inr more ↦
          let go : (q != 0) ≡ true = ne→!= q 0 (==→ne q 0 more) in
          let (cs, run, value, short, all) =
            digits_from-read room n q base (c ∷ buffer) two hex
              (div-small (suc n) magnitude base (omega arith) fits) (omega arith)
              (digits-IsDigit magnitude base two hex, before) in
          (
            cs,
            rw go run,
            value ∙ last-read magnitude base buffer two hex,
            omega (arith, short),
            all,
          )
    ]

-- The digits of a number from the power of the base on do not fit.
pub digits_from-overruns :
    (room magnitude base : ℕ) (buffer : List ℕ)
    → 0 < base
    → base ^ room ≤ magnitude
    → digits_from room false magnitude base buffer ≡ none
unfolding digits_from
digits_from-overruns zero magnitude base buffer positive large = refl
digits_from-overruns (suc room) magnitude base buffer positive large =
    let rest = div-large room magnitude base positive large in
    let power : 0 < base ^ room = pow-pos base room positive in
    let go : (magnitude / base != 0) ≡ true =
      ne→!= (magnitude / base) 0 (omega (arith, rest, power)) in
    rw go (
      digits_from-overruns room (magnitude / base) base (digits (magnitude % base) ∷ buffer)
        positive rest)
