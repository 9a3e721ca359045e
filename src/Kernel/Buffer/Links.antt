-- ===== src/Kernel/Buffer/Links.antt =====
-- Doubly linked lists by two functions, as the entries of kernel/buffer.c are linked by `next` and `prev`.
use mathlib.Core.Path.{subst}
use cpu.Prelude.{
  ℕ, update, update_ne, update_self, List, [], ◌∷◌, ◌++◌, ◌≡◌, ◌≢◌, sym, ◌∙◌, Lacks, Distinct, last,
  Lacks-last, Apart, reverse,
}

-- From `a` through `xs` to `z`, forwards by `next` and backwards by `prev`.
abbrev pub Linked : (ℕ → ℕ) → (ℕ → ℕ) → ℕ → List ℕ → ℕ → Type 0
Linked next prev a [] z = (next a ≡ z) × (prev z ≡ a)
Linked next prev a (x ∷ xs) z = ((next a ≡ x) × (prev x ≡ a)) × Linked next prev x xs z

pub Linked-equal :
    (next next' prev prev' : ℕ → ℕ) (a : ℕ) (xs : List ℕ) (z : ℕ)
    → next' ≡ next
    → prev' ≡ prev
    → Linked next prev a xs z
    → Linked next' prev' a xs z
Linked-equal next next' prev prev' a xs z e d links =
    subst (λ f. Linked f prev' a xs z) (sym e) (subst (λ g. Linked next g a xs z) (sym d) links)

abbrev pub leading : List ℕ → ℕ → ℕ
leading [] z = z
leading (x ∷ xs) z = x

pub Lacks-leading : (x z : ℕ) (ys : List ℕ) → Lacks x (z ∷ ys) → leading ys z ≢ x
Lacks-leading x z [] lacks = lacks.0
Lacks-leading x z (y ∷ ys) lacks = lacks.1.0

module _ (next prev : ℕ → ℕ) where
  pub Linked-snoc :
      (a : ℕ) (xs : List ℕ) (x z : ℕ)
      → Linked next prev a xs x
      → next x ≡ z
      → prev z ≡ x
      → Linked next prev a (xs ++ x ∷ []) z
  Linked-snoc a [] x z links e d = (links, (e, d))
  Linked-snoc a (y ∷ ys) x z links e d = (links.0, Linked-snoc y ys x z links.1 e d)

  pub Linked-next : (a : ℕ) (xs : List ℕ) (z : ℕ) → Linked next prev a xs z → next a ≡ leading xs z
  Linked-next a [] z links = links.0
  Linked-next a (x ∷ xs) z links = links.0.0

  pub Linked-prev : (a : ℕ) (xs : List ℕ) (z : ℕ) → Linked next prev a xs z → prev z ≡ last a xs
  Linked-prev a [] z links = links.1
  Linked-prev a (x ∷ xs) z links = Linked-prev x xs z links.1

  -- A list that goes through `b` is one to `b` and one from it.
  pub Linked-split :
      (a : ℕ) (xs : List ℕ) (b : ℕ) (ys : List ℕ) (z : ℕ)
      → Linked next prev a (xs ++ b ∷ ys) z
      → Linked next prev a xs b × Linked next prev b ys z
  Linked-split a [] b ys z links = links
  Linked-split a (x ∷ xs) b ys z links =
      let rest = Linked-split x xs b ys z links.1 in ((links.0, rest.0), rest.1)

  -- A change of `next` outside the list, and one of `prev` behind its first element.
  pub Linked-next_other :
      (p v a : ℕ) (xs : List ℕ) (z : ℕ)
      → Lacks p (a ∷ xs)
      → Linked next prev a xs z
      → Linked (update next p v) prev a xs z
  Linked-next_other p v a [] z lacks links = (update_ne next p a v lacks.0 ∙ links.0, links.1)
  Linked-next_other p v a (x ∷ xs) z lacks links = (
    (update_ne next p a v lacks.0 ∙ links.0.0, links.0.1),
    Linked-next_other p v x xs z lacks.1 links.1,
  )

  pub Linked-prev_other :
      (p v a : ℕ) (xs : List ℕ) (z : ℕ)
      → Lacks p (z ∷ xs)
      → Linked next prev a xs z
      → Linked next (update prev p v) a xs z
  Linked-prev_other p v a [] z lacks links = (links.0, update_ne prev p z v lacks.0 ∙ links.1)
  Linked-prev_other p v a (x ∷ xs) z lacks links = (
    (links.0.0, update_ne prev p x v lacks.1.0 ∙ links.0.1),
    Linked-prev_other p v x xs z (lacks.0, lacks.1.1) links.1,
  )

module _ (next prev : ℕ → ℕ) where
  -- What precedes an element and what follows it are linked past it.
  pub splice-first :
      (a : ℕ) (b : ℕ) (ys : List ℕ) (z : ℕ)
      → Linked next prev b ys z
      → Lacks a ys
      → Distinct (z ∷ ys)
      → Linked (update next a (leading ys z)) (update prev (leading ys z) a) a ys z
  splice-first a b [] z links lacks distinct = (update_self next a z, update_self prev z a)
  splice-first a b (y ∷ ys) z links lacks distinct = (
    (update_self next a y, update_self prev y a),
    Linked-next_other next (update prev y a) a y y ys z lacks
        (Linked-prev_other next prev y a y ys z (λ e. distinct.0.0 (sym e), distinct.1.0) links.1),
  )

  pub splice :
      (a : ℕ) (xs : List ℕ) (b : ℕ) (ys : List ℕ) (z : ℕ)
      → Linked next prev a xs b
      → Linked next prev b ys z
      → Distinct (a ∷ xs)
      → Lacks a ys
      → Apart xs (z ∷ ys)
      → Distinct (z ∷ ys)
      → Linked
          (update next (last a xs) (leading ys z))
          (update prev (leading ys z) (last a xs))
          a
          (xs ++ ys)
          z
  splice a [] b ys z before behind distinct lacks apart distinct' =
      splice-first a b ys z behind lacks distinct'
  splice a (x ∷ xs) b ys z before behind distinct lacks apart distinct' =
      let p = last x xs in
      let n = leading ys z in
      (
        (
          update_ne next p a n (λ e. Lacks-last a x xs distinct.0 (sym e)) ∙ before.0.0,
          update_ne prev n x p (λ e. Lacks-leading x z ys apart.0 (sym e)) ∙ before.0.1,
        ),
        splice x xs b ys z before.1 behind distinct.1 apart.0.1 apart.1 distinct',
      )

  behind_b :
      (b : ℕ) (zs : List ℕ) (z : ℕ)
      → Linked next prev z zs z
      → Lacks b (z ∷ zs)
      → Distinct (z ∷ zs)
      → Linked
          (update (update next b (leading zs z)) z b)
          (update (update prev b z) (leading zs z) b)
          b
          zs
          z
  behind_b b [] z links lacks distinct = (
    update_ne (update next b z) z b b (λ e. lacks.0 (sym e)) ∙ update_self next b z,
    update_self (update prev b z) z b,
  )
  behind_b b (w ∷ ws) z links lacks distinct =
      let next' = update (update next b w) z b in
      (
        (
          update_ne (update next b w) z b b (λ e. lacks.0 (sym e)) ∙ update_self next b w,
          update_self (update prev b z) w b,
        ),
        Linked-prev_other next' (update prev b z) w b w ws z
            (λ e. distinct.0.0 (sym e), distinct.1.0)
            (Linked-prev_other next' prev b z w ws z (lacks.0, lacks.1.1)
              (Linked-next_other (update next b w) prev z b w ws z distinct.0
                (Linked-next_other next prev b w w ws z lacks.1 links.1))),
      )

  -- An element is put behind `z` into a ring.
  pub insert-Linked :
      (b : ℕ) (zs : List ℕ) (z : ℕ)
      → Linked next prev z zs z
      → Lacks b (z ∷ zs)
      → Distinct (z ∷ zs)
      → Linked
          (update (update next b (leading zs z)) z b)
          (update (update prev b z) (leading zs z) b)
          z
          (b ∷ zs)
          z
  insert-Linked b zs z links lacks distinct =
      let n = leading zs z in
      let other : b ≢ n = λ e. Lacks-leading b z zs lacks (sym e) in
      let apart : b ≢ z = λ e. lacks.0 (sym e) in
      (
        (
          update_self (update next b n) z b,
          update_ne (update prev b z) n b b other ∙ update_self prev b z,
        ),
        behind_b b zs z links lacks distinct,
      )

pub Linked-reverse :
    (next prev : ℕ → ℕ) (a : ℕ) (xs : List ℕ) (z : ℕ)
    → Linked next prev a xs z
    → Linked prev next z (reverse xs) a
Linked-reverse next prev a [] z links = (links.1, links.0)
Linked-reverse next prev a (x ∷ xs) z links =
    Linked-snoc prev next z (reverse xs) x a (Linked-reverse next prev x xs z links.1) links.0.1
      links.0.0
