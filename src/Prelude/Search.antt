-- ===== src/Prelude/Search.antt =====
-- The first number of a range that passes a test: what a loop with an early exit looks for.
use Prim.Native.Nat.{ℕ, zero, suc, ◌+◌, ◌≤◌, ◌<◌}
use mathlib.Core.Path.{◌≡◌, refl, ap, ◌∙◌}
use mathlib.Core.Logic.{inl, inr}
use mathlib.Core.Option.{Option, none, some}
use mathlib.Core.Bool.{Bool, false}
use native.Mathlib.Omega.{arith}
use cpu.Prelude.Tests.{if◌then◌else◌, Bool-cases}

-- The first of `i`, `i + 1`, … up to `i + n`, exclusive.
unfoldable pub first : ℕ → ℕ → (ℕ → Bool) → Option ℕ
first zero i test = none
first (suc n) i test = if test i then some i else first n (i + 1) test

abbrev pub or_else {ℓ} : {A : Type ℓ} → Option A → Option A → Option A
or_else none r = r
or_else (some a) r = some a

abbrev pub shifted : ℕ → Option ℕ → Option ℕ
shifted d none = none
shifted d (some i) = some (d + i)

-- A search of `m + n` numbers is one of `m` and, without a result, one of the next `n`.
pub first-add :
    (m n i : ℕ) (test : ℕ → Bool)
    → first (m + n) i test ≡ or_else (first m i test) (first n (i + m) test)
unfolding first
first-add zero n i test =
    let none_left : 0 + n ≡ n = omega arith in
    let same : i ≡ i + 0 = omega arith in λ j. first (none_left j) (same j) test
first-add (suc m) n i test =
    let one_more : suc m + n ≡ suc (m + n) = omega arith in
    let next : i + 1 + m ≡ i + suc m = omega arith in
    rw one_more (elim (Bool-cases (test i)) [
      | inl found ↦ rw found
      | inr other ↦ rw other (
          first-add m n (i + 1) test
          ∙ ap (λ j. or_else (first m (i + 1) test) (first n j test)) next)
    ])

-- A search from `d + i` on for `test` is one from `i` on for its translate, which agrees with it below
-- the end `e`.
pub first-shift :
    (n i d e : ℕ) (test translate : ℕ → Bool)
    → i + n ≤ e
    → ((j : ℕ) → j < e → translate j ≡ test (d + j))
    → first n (d + i) test ≡ shifted d (first n i translate)
unfolding first
first-shift zero i d e test translate small same = refl
first-shift (suc n) i d e test translate small same =
    let next : d + i + 1 ≡ d + (i + 1) = omega arith in
    rw (same i (omega arith)) (elim (Bool-cases (test (d + i))) [
      | inl found ↦ rw found
      | inr other ↦ rw other (
          ap (λ j. first n j test) next
          ∙ first-shift n (i + 1) d e test translate (omega arith) same)
    ])

pub first-none :
    (n i : ℕ) (test : ℕ → Bool) → ((j : ℕ) → i ≤ j → test j ≡ false) → first n i test ≡ none
unfolding first
first-none zero i test never = refl
first-none (suc n) i test never =
    rw (never i (omega arith)) (first-none n (i + 1) test (λ j h. never j (omega arith)))

pub first-lt : (n i : ℕ) (test : ℕ → Bool) (j : ℕ) → first n i test ≡ some j → j < i + n
unfolding first
first-lt zero i test j e = absurd (ground (arith, e))
first-lt (suc n) i test j e = elim (Bool-cases (test i)) [
  | inl found ↦ ground (arith, found, e)
  | inr other ↦
      let rest : first n (i + 1) test ≡ some j = ground (arith, other, e) in
      omega (arith, first-lt n (i + 1) test j rest)
]
