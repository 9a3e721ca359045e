-- ===== src/Prelude/Arrays.antt =====
-- Byte arrays of C as functions from the index. The bound of an array is stated where it is used.
use Prim.Native.Nat.{ℕ, suc, ◌+◌}
use mathlib.Core.Path.{◌≡◌, refl, sym, ap, fun_ext}
use mathlib.Core.Logic.{◌≢◌, inl, inr}
use mathlib.Core.List.{List, [], ◌∷◌, ◌++◌}
use native.Mathlib.Omega.{arith}
use cpu.Prelude.Tests.{◌==◌, if◌then◌else◌, Bool-cases, ==→eq}

module _ {ℓ} {A : Type ℓ} where
  -- `f[i] = v`
  abbrev pub update : (ℕ → A) → ℕ → A → ℕ → A
  update f i v j = if j == i then v else f j

  pub update_self : (f : ℕ → A) (i : ℕ) (v : A) → update f i v i ≡ v
  update_self f i v = ground arith

  pub update_ne : (f : ℕ → A) (i j : ℕ) (v : A) → j ≢ i → update f i v j ≡ f j
  update_ne f i j v h = ground arith

module _ {ℓ} {A : Type ℓ} where
  -- An element that is stored where it is.
  pub update_same : (f : ℕ → A) (i : ℕ) → update f i (f i) ≡ f
  update_same f i = fun_ext λ j. elim (Bool-cases (j == i)) [
    | inl same ↦ rw same (ap f (sym (==→eq j i same)))
    | inr other ↦ rw other refl
  ]

  pub update_twice : (f : ℕ → A) (i : ℕ) (v w : A) → update (update f i v) i w ≡ update f i w
  update_twice f i v w =
      fun_ext
        λ j. elim (Bool-cases (j == i)) [ inl same ↦ rw same refl | inr other ↦ rw other refl ]

module _ {ℓ ℓ'} {A : Type ℓ} {B : Type ℓ'} where
  pub map-update :
      (g : A → B) (f : ℕ → A) (i : ℕ) (v : A)
      → (λ j. g (update f i v j)) ≡ update (λ j. g (f j)) i (g v)
  map-update g f i v =
      fun_ext
        λ j. elim (Bool-cases (j == i)) [ inl same ↦ rw same refl | inr other ↦ rw other refl ]

module _ {ℓ} {A : Type ℓ} where
  abbrev pub length : List A → ℕ
  length [] = 0
  length (x ∷ xs) = suc (length xs)

  pub length-append : (xs ys : List A) → length (xs ++ ys) ≡ length xs + length ys
  length-append [] ys = omega arith
  length-append (x ∷ xs) ys = omega (arith, length-append xs ys)
