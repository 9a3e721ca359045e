-- ===== src/Kernel/Strings/Texts.antt =====
-- The functions of kernel/string.c on texts that end with a zero byte.
use cpu.Prelude.{
  ne→!=, ◌!=◌, ℕ, zero, suc, ◌+◌, ◌<◌, ◌≤◌, ◌==◌, if◌then◌else◌, ◌≡◌, ◌≢◌, ◌↔◌, refl, ap, ◌∙◌,
  arith, Bool-cases, inl, inr, true, false, List, [], ◌∷◌, length, some, eq→==, ==→eq, ==→ne, sym,
}
use mathlib.Core.Path.{subst, ap₂}
use cpu.Kernel.Strings.{Memory, difference, strlen_from, strlen, strcmp}

-- At `p` stand the bytes of the text, none of them zero, and a zero byte behind them.
abbrev pub IsText : Memory → ℕ → List ℕ → Type 0
IsText m p [] = m p ≡ 0
IsText m p (c ∷ cs) = (m p ≡ c) × (c ≢ 0) × (c < 256) × IsText m (p + 1) cs

strlen_from-length :
    (k s n : ℕ) (cs : List ℕ) (m : Memory)
    → IsText m (s + n) cs
    → length cs ≤ k
    → strlen_from k s n m ≡ n + length cs
unfolding strlen_from
strlen_from-length zero s n [] m t h = omega arith
strlen_from-length zero s n (c ∷ cs) m t h = absurd (omega arith)
strlen_from-length (suc k) s n [] m t h = rw t (omega arith)
strlen_from-length (suc k) s n (c ∷ cs) m t h =
    let next : s + n + 1 ≡ s + (n + 1) = omega arith in
    let more : (m (s + n) == 0) ≡ false = ground arith in
    rw more (
      strlen_from-length k s (n + 1) cs m (subst (λ p. IsText m p cs) next t.3) (omega arith)
      ∙ omega arith)

-- strlen of a text of at most 65535 bytes is its length.
pub strlen-length :
    (s : ℕ) (cs : List ℕ) (m : Memory) → IsText m s cs → length cs ≤ 65535 → strlen s m ≡ length cs
unfolding strlen
strlen-length s cs m t h =
    strlen_from-length 65535 s 0 cs m (subst (λ p. IsText m p cs) (omega arith) t) h ∙ omega arith

-- What strcmp returns for two texts: the difference at the first place where they differ.
abbrev pub order : List ℕ → List ℕ → ℕ
order [] [] = 0
order [] (d ∷ ds) = difference 0 d
order (c ∷ cs) [] = difference c 0
order (c ∷ cs) (d ∷ ds) = if c == d then order cs ds else difference c d

strcmp-order :
    (fuel p q : ℕ) (cs ds : List ℕ) (m : Memory)
    → IsText m p cs
    → IsText m q ds
    → length cs < fuel
    → strcmp fuel p q m ≡ some (order cs ds)
unfolding strcmp
strcmp-order zero p q cs ds m s t h = absurd (omega arith)
strcmp-order (suc fuel) p q [] [] m s t h = rw (s, t)
strcmp-order (suc fuel) p q [] (d ∷ ds) m s t h = rw (s, t.0)
strcmp-order (suc fuel) p q (c ∷ cs) [] m s t h =
    let c≢0 : c ≢ 0 = s.1 in rw (s.0, t) (ground arith)
strcmp-order (suc fuel) p q (c ∷ cs) (d ∷ ds) m s t h =
    let more : (m p != 0) ≡ true = rw s.0 (ne→!= c 0 s.1) in
    let same : (m p == m q) ≡ (c == d) = rw (s.0, t.0) refl in
    rw (more, same)
      (elim (Bool-cases (c == d)) [
        | inl eq ↦ rw eq (strcmp-order fuel (p + 1) (q + 1) cs ds m s.3 t.3 (omega arith))
        | inr ne ↦ rw ne (rw (s.0, t.0) refl)
      ])

order-tail : (c d : ℕ) (cs ds : List ℕ) → (c == d) ≡ true → order (c ∷ cs) (d ∷ ds) ≡ order cs ds
order-tail c d cs ds eq = rw eq refl

order-head :
    (c d : ℕ) (cs ds : List ℕ) → (c == d) ≡ false → order (c ∷ cs) (d ∷ ds) ≡ difference c d
order-head c d cs ds ne = rw ne refl

order-eq :
    (m : Memory) (p q : ℕ) (cs ds : List ℕ)
    → IsText m p cs
    → IsText m q ds
    → order cs ds ≡ 0
    → cs ≡ ds
order-eq m p q [] [] s t e = refl
order-eq m p q [] (d ∷ ds) s t e = absurd (omega arith)
order-eq m p q (c ∷ cs) [] s t e = absurd (omega arith)
order-eq m p q (c ∷ cs) (d ∷ ds) s t e = elim (Bool-cases (c == d)) [
  | inl eq ↦
      let rest : order cs ds ≡ 0 = sym (order-tail c d cs ds eq) ∙ e in
      ap₂ ◌∷◌ (==→eq c d eq) (order-eq m (p + 1) (q + 1) cs ds s.3 t.3 rest)
  | inr ne ↦
      let zero : difference c d ≡ 0 = sym (order-head c d cs ds ne) ∙ e in
      let small : c < 256 = s.2 in
      let small' : d < 256 = t.2 in let other : c ≢ d = ==→ne c d ne in absurd (omega arith)
]

order_self : (cs : List ℕ) → order cs cs ≡ 0
order_self [] = refl
order_self (c ∷ cs) = rw (eq→== c) (order_self cs)

-- strcmp of two texts comes to an end when the fuel exceeds the length of the first, and returns 0
-- exactly when the texts are equal.
pub strcmp_lem :
    (fuel p q : ℕ) (cs ds : List ℕ) (m : Memory)
    → IsText m p cs
    → IsText m q ds
    → length cs < fuel
    → (v : ℕ) × (strcmp fuel p q m ≡ some v) × ((v ≡ 0) ↔ (cs ≡ ds))
strcmp_lem fuel p q cs ds m s t h = (
  order cs ds,
  strcmp-order fuel p q cs ds m s t h,
  (order-eq m p q cs ds s t, λ e. ap (order cs) (sym e) ∙ order_self cs),
)
