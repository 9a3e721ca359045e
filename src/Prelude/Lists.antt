-- ===== src/Prelude/Lists.antt =====
-- Lists of numbers without repetition.
use Prim.Native.Nat.{zero, suc, ℕ}
use mathlib.Core.Path.{◌≡◌, refl, sym}
use mathlib.Core.Logic.{◌≢◌}
use mathlib.Core.List.{List, [], ◌∷◌, ◌++◌}
use mathlib.Core.Bool.{Bool}
use mathlib.Core.Option.{Option, none, some}
use native.Mathlib.Omega.{arith}
use cpu.Prelude.Tests.{if◌then◌else◌}
use cpu.Prelude.Arrays.{length, length-append}

-- None of the elements is `b`.
abbrev pub Lacks : ℕ → List ℕ → Type 0
Lacks b [] = Unit
Lacks b (x ∷ xs) = (x ≢ b) × Lacks b xs

abbrev pub Distinct : List ℕ → Type 0
Distinct [] = Unit
Distinct (b ∷ xs) = Lacks b xs × Distinct xs

-- The last element of `x ∷ xs`
abbrev pub last : ℕ → List ℕ → ℕ
last x [] = x
last x (y ∷ ys) = last y ys

pub Lacks-last : (b x : ℕ) (xs : List ℕ) → Lacks b (x ∷ xs) → last x xs ≢ b
Lacks-last b x [] lacks = lacks.0
Lacks-last b x (y ∷ ys) lacks = Lacks-last b y ys lacks.1

pub Lacks-append : (b : ℕ) (xs : List ℕ) (c : ℕ) → Lacks b xs → c ≢ b → Lacks b (xs ++ c ∷ [])
Lacks-append b [] c lacks other = (other, tt)
Lacks-append b (x ∷ xs) c lacks other = (lacks.0, Lacks-append b xs c lacks.1 other)

pub last-append : (x : ℕ) (xs : List ℕ) (b : ℕ) → last x (xs ++ b ∷ []) ≡ b
last-append x [] b = refl
last-append x (y ∷ ys) b = last-append y ys b

pub Distinct-append : (xs : List ℕ) (b : ℕ) → Distinct xs → Lacks b xs → Distinct (xs ++ b ∷ [])
Distinct-append [] b distinct lacks = (tt, tt)
Distinct-append (x ∷ xs) b distinct lacks =
    (Lacks-append x xs b distinct.0 (λ e. lacks.0 (sym e)), Distinct-append xs b distinct.1 lacks.1)

-- No element of the one list is in the other.
abbrev pub Apart : List ℕ → List ℕ → Type 0
Apart [] ws = Unit
Apart (x ∷ xs) ws = Lacks x ws × Apart xs ws

module _ (b : ℕ) where
  pub Lacks-split : (xs ys : List ℕ) → Lacks b (xs ++ ys) → Lacks b xs × Lacks b ys
  Lacks-split [] ys lacks = (tt, lacks)
  Lacks-split (x ∷ xs) ys lacks =
      let rest = Lacks-split xs ys lacks.1 in ((lacks.0, rest.0), rest.1)

  pub Lacks-join : (xs ys : List ℕ) → Lacks b xs → Lacks b ys → Lacks b (xs ++ ys)
  Lacks-join [] ys left right = right
  Lacks-join (x ∷ xs) ys left right = (left.0, Lacks-join xs ys left.1 right)

  pub Apart-Lacks : (xs ys : List ℕ) → Apart xs (b ∷ ys) → Lacks b xs
  Apart-Lacks [] ys apart = tt
  Apart-Lacks (x ∷ xs) ys apart = (λ e. apart.0.0 (sym e), Apart-Lacks xs ys apart.1)

  pub Apart-tail : (xs ys : List ℕ) → Apart xs (b ∷ ys) → Apart xs ys
  Apart-tail [] ys apart = tt
  Apart-tail (x ∷ xs) ys apart = (apart.0.1, Apart-tail xs ys apart.1)

  pub Apart-cons : (xs ys : List ℕ) → Lacks b xs → Apart xs ys → Apart xs (b ∷ ys)
  Apart-cons [] ys lacks apart = tt
  Apart-cons (x ∷ xs) ys lacks apart =
      ((λ e. lacks.0 (sym e), apart.0), Apart-cons xs ys lacks.1 apart.1)

pub Distinct-split :
    (xs ys : List ℕ) → Distinct (xs ++ ys) → Distinct xs × (Apart xs ys × Distinct ys)
Distinct-split [] ys distinct = (tt, (tt, distinct))
Distinct-split (x ∷ xs) ys distinct =
    let lacks = Lacks-split x xs ys distinct.0 in
    let rest = Distinct-split xs ys distinct.1 in
    ((lacks.0, rest.0), ((lacks.1, rest.1.0), rest.1.1))

pub Distinct-join : (xs ys : List ℕ) → Distinct xs → Apart xs ys → Distinct ys → Distinct (xs ++ ys)
Distinct-join [] ys left apart right = right
Distinct-join (x ∷ xs) ys left apart right =
    (Lacks-join x xs ys left.0 apart.0, Distinct-join xs ys left.1 apart.1 right)

abbrev pub reverse : List ℕ → List ℕ
reverse [] = []
reverse (x ∷ xs) = reverse xs ++ x ∷ []

pub Lacks-reverse : (b : ℕ) (xs : List ℕ) → Lacks b xs → Lacks b (reverse xs)
Lacks-reverse b [] lacks = tt
Lacks-reverse b (x ∷ xs) lacks = Lacks-append b (reverse xs) x (Lacks-reverse b xs lacks.1) lacks.0

pub length-reverse : (xs : List ℕ) → length (reverse xs) ≡ length xs
length-reverse [] = refl
length-reverse (x ∷ xs) = omega (arith, length-append (reverse xs) (x ∷ []), length-reverse xs)

-- The first element that passes a test.
abbrev pub find_first : (ℕ → Bool) → List ℕ → Option ℕ
find_first test [] = none
find_first test (x ∷ xs) = if test x then some x else find_first test xs

-- The elements as an array that zeros follow.
abbrev pub array : List ℕ → ℕ → ℕ
array [] i = 0
array (x ∷ xs) zero = x
array (x ∷ xs) (suc i) = array xs i
