-- ===== src/Kernel/Printk/Format/Literals.antt =====
-- vprintk of kernel/printk.c prints the text around its directives as it is.
use cpu.Prelude.{
  ℕ, ◌+◌, ◌-◌, ◌<◌, ◌≤◌, ◌==◌, leb, inl, inr, Bool-cases, arith, true, false, Option, none, some,
  List, [], ◌∷◌, ◌++◌, ◌≡◌, ◌≢◌, refl, ap, ◌∙◌, sym, ne→==,
}
use cpu.Kernel.Printk.{print_int}
use cpu.Kernel.Printk.Loop.{AreDigits, read_number}
use cpu.Kernel.Printk.Digits.{print_int-fits, print_int-negative}
use cpu.Kernel.Printk.Format.{
  Argument, word, text, convert, round, print_with, then_format, prepend, vprintk, extend,
}

-- None of the characters is a '%'.
abbrev pub IsPlain : List ℕ → Type 0
IsPlain [] = Unit
IsPlain (c ∷ cs) = (c ≢ 37) × IsPlain cs

prepend-none : (r : Option (List ℕ)) → r ≡ prepend [] r
prepend-none none = refl
prepend-none (some ds) = refl

prepend-cons :
    (c : ℕ) (cs : List ℕ) (r : Option (List ℕ))
    → prepend (c ∷ []) (prepend cs r) ≡ prepend (c ∷ cs) r
prepend-cons c cs none = refl
prepend-cons c cs (some ds) = refl

vprintk-plain :
    (cs fmt : List ℕ) (args : List Argument)
    → IsPlain cs
    → vprintk text (cs ++ fmt) args ≡ prepend cs (vprintk text fmt args)
unfolding vprintk round
vprintk-plain [] fmt args plain = prepend-none (vprintk text fmt args)
vprintk-plain (c ∷ cs) fmt args plain =
    let other : (c == 37) ≡ false = ne→== c 37 plain.0 in
    rw other (
      ap (prepend (c ∷ [])) (vprintk-plain cs fmt args plain.1)
      ∙ prepend-cons c cs (vprintk text fmt args))

-- The text of a 16-bit int: digits that read back as it, or a minus sign and digits that read back as its
-- magnitude.
pub data IsDecimal (v : ℕ) : List ℕ → Type 0 where
  natural : {ds : List ℕ} → v < 0x8000 → AreDigits 10 ds → read_number 10 ds ≡ v → IsDecimal v ds
  negative :
      {ds : List ℕ}
      → 0x8000 ≤ v
      → AreDigits 10 ds
      → read_number 10 ds + v ≡ 0x10000
      → IsDecimal v (45 ∷ ds)

-- What print_int gives for an int that is passed as a long.
int-IsDecimal :
    (v : ℕ)
    → v < 0x10000
    → (ds : List ℕ) × (print_int (extend v) 10 true ≡ some ds) × IsDecimal v ds
int-IsDecimal v small = elim (Bool-cases (leb 0x8000 v)) [
  | inr below ↦
      let low : v < 0x8000 = ground (arith, below) in
      let (ds, run, all, value) =
        print_int-fits v 10 true (omega arith) (omega arith) (omega arith) (omega arith) in
      (ds, rw below run, natural low all value)
  | inl above ↦
      let high : 0x8000 ≤ v = ground (arith, above) in
      let (ds, run, all, value) =
        print_int-negative (0x10000 - v) 10 (omega arith) (omega arith) (omega arith) (omega arith)
          (omega arith) in
      let whole : v + 0xffff0000 ≡ 0x100000000 - (0x10000 - v) = omega arith in
      (
        45 ∷ ds,
        rw above (ap (λ n. print_int n 10 true) whole ∙ run),
        negative high all (omega (arith, value)),
      )
]

-- vprintk of a text without a percent sign, a %d with a 16-bit int, and any rest prints the text as it is,
-- the decimal digits of the int, after a minus sign if its highest bit is set, and what the rest prints for
-- the other arguments.
pub vprintk-int :
    (cs fmt : List ℕ) (v : ℕ) (args : List Argument)
    → IsPlain cs
    → v < 0x10000
    → (ds : List ℕ) × IsDecimal v ds
      × (vprintk text (cs ++ 37 ∷ 100 ∷ fmt) (word v ∷ args)
          ≡ prepend cs (prepend ds (vprintk text fmt args)))
unfolding vprintk round convert
vprintk-int cs fmt v args plain small =
    let (ds, printed, decimal) = int-IsDecimal v small in
    (
      ds,
      decimal,
      vprintk-plain cs (37 ∷ 100 ∷ fmt) (word v ∷ args) plain
          ∙ ap (prepend cs) (
              sym (
                prepend-none
                  (then_format (print_with (print_int (extend v) 10 true) args) (vprintk text fmt)))
              ∙ ap (λ r. then_format (print_with r args) (vprintk text fmt)) printed),
    )
