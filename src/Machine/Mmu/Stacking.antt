-- ===== src/Machine/Mmu/Stacking.antt =====
-- What the interrupt entries of the CPU emulator do to the board (MCS6502IRQ and MCS6502NMI of
-- machine/MCS6502.c): they return at once, when interrupts are masked or the request is only latched, or
-- three bytes are pushed on page 1 and the vector is read.
use cpu.Prelude.{
  ℕ, ◌+◌, ◌/◌, ◌≤◌, ◌<◌, ◌==◌, ◌≡◌, ◌≢◌, refl, arith, Bool-cases, true, inl, inr, ◌∙◌, ==→eq, ap,
  sym, ◌⊎◌,
}
use native.Mathlib.Decide.{dec_lt}
use cpu.Machine.Map.{unmapped}
use cpu.Machine.State.{Board, Mmu}
use cpu.Machine.Core.{Core, Reads, Writes}
use cpu.Machine.Bus.{translate, read, write}
use cpu.Machine.Bus.Ram.{physical}
use cpu.Machine.Bus.Isolation.{
  IsClear, Outcome, faulted, stored, dropped, write-Outcome, read_physical-clear,
}

-- The three pushes: stack pointers and bytes.
pub record Pushes : Type 0 where
  pub sp₁ : ℕ
  pub sp₂ : ℕ
  pub sp₃ : ℕ
  pub byte₁ : ℕ
  pub byte₂ : ℕ
  pub byte₃ : ℕ
  pub sp₁_lt : sp₁ < 256
  pub sp₂_lt : sp₂ < 256
  pub sp₃_lt : sp₃ < 256

abbrev pub enter : (S : Type 0) → Reads S → Writes S → Pushes → ℕ → S → S
enter S r w p vector s =
    (r (vector + 1)
      (r vector
        (w (0x100 + p.sp₃) p.byte₃ (w (0x100 + p.sp₂) p.byte₂ (w (0x100 + p.sp₁) p.byte₁ s)))).1).1

-- The two ways in which an entry ends, by the state behind the callbacks after it.
pub data Entry (S : Type 0) (r : Reads S) (w : Writes S) (vector : ℕ) (s : S) : S → Type 0 where
  returned : Entry S r w vector s s
  entered : (p : Pushes) → Entry S r w vector s (enter S r w p vector s)

-- Every call of the two entries ends in one of them, whatever the context is.
pub record HasEntries (core : Core) : Type 1 where
  pub irq_entry :
      (S : Type 0) (r : Reads S) (w : Writes S) (c : core.Context) (s : S)
      → Entry S r w 0xfffe s (core.irq S r w c s).1
  pub nmi_entry :
      (S : Type 0) (r : Reads S) (w : Writes S) (c : core.Context) (s : S)
      → Entry S r w 0xfffa s (core.nmi S r w c s).1

-- The MMU is as it was, but for a latched violation where the page was not mapped.
pub record SameMmu (b b' : Board) : Type 0 where
  pub page_table : b'.mmu.page_table ≡ b.mmu.page_table
  pub prev : b'.mmu.prev ≡ b.mmu.prev
  pub watchdog : b'.mmu.watchdog ≡ b.mmu.watchdog
  pub cause : b'.mmu.cause ≡ b.mmu.cause
  pub opcode : b'.mmu.opcode ≡ b.mmu.opcode
  pub in_user : b'.mmu.in_user ≡ b.mmu.in_user
  pub pending_nmi :
      b.mmu.page_table 0 ≢ 0xff
      → b.mmu.page_table 15 ≢ 0xff
      → b'.mmu.pending_nmi ≡ b.mmu.pending_nmi

trans : {a b c : Board} → SameMmu a b → SameMmu b c → SameMmu a c
trans {a} {b} {c} p q = record {
  page_table = q.page_table ∙ p.page_table;
  prev = q.prev ∙ p.prev;
  watchdog = q.watchdog ∙ p.watchdog;
  cause = q.cause ∙ p.cause;
  opcode = q.opcode ∙ p.opcode;
  in_user = q.in_user ∙ p.in_user;
  pending_nmi = λ h k.
      q.pending_nmi (λ e. h (ap (λ t. t 0) (sym p.page_table) ∙ e))
        (λ e. k (ap (λ t. t 15) (sym p.page_table) ∙ e))
      ∙ p.pending_nmi h k;
}

same_mmu : (b b' : Board) → b'.mmu ≡ b.mmu → SameMmu b b'
same_mmu b b' e = record {
  page_table = ap (λ m. m.page_table) e;
  prev = ap (λ m. m.prev) e;
  watchdog = ap (λ m. m.watchdog) e;
  cause = ap (λ m. m.cause) e;
  opcode = ap (λ m. m.opcode) e;
  in_user = ap (λ m. m.in_user) e;
  pending_nmi = λ h k. ap (λ m. m.pending_nmi) e;
}

latched :
    (b : Board) (va : ℕ)
    → (b.mmu.page_table 0 ≡ 0xff) ⊎ (b.mmu.page_table 15 ≡ 0xff)
    → SameMmu b (record b { mmu = record (b.mmu) { va = va; pending_nmi = true } })
latched b va e = record {
  page_table = refl;
  prev = refl;
  watchdog = refl;
  cause = refl;
  opcode = refl;
  in_user = refl;
  pending_nmi = λ h k. elim e [ inl p ↦ absurd (h p) | inr p ↦ absurd (k p) ];
}

push-Outcome : {b : Board} {va v : ℕ} {b' : Board} → va < 4096 → Outcome b va v b' → SameMmu b b'
push-Outcome {b} {va} small (faulted e) = latched b va (inl (ap b.mmu.page_table (omega arith) ∙ e))
push-Outcome {b} {b'} small stored = same_mmu b b' refl
push-Outcome {b} small dropped = same_mmu b b refl

page_one : (mmu : Mmu) (sp : ℕ) → sp < 256 → IsClear (physical mmu (0x100 + sp))
page_one mmu sp h = elim (dec_lt 0xffff (physical mmu (0x100 + sp))) [
  | yes far ↦ inr far
  | no near ↦ inl (omega arith)
]

push-SameMmu : (b : Board) (sp v : ℕ) → sp < 256 → SameMmu b (write (0x100 + sp) v b)
push-SameMmu b sp v h =
    push-Outcome (omega arith) (write-Outcome b (0x100 + sp) v (page_one b.mmu sp h))

vector-SameMmu : (b : Board) (a : ℕ) → 0xfff0 ≤ a → a < 0x10000 → SameMmu b (read a b).1
unfolding read translate
vector-SameMmu b a h k = elim (Bool-cases (b.mmu.page_table (a / 4096) == 0xff)) [
  | inl e ↦
      rw
        (
          e,
          read_physical-clear unmapped
              (record b { mmu = record (b.mmu) { va = a; pending_nmi = true } }) (omega arith),
        )
        (latched b a (inr (ap b.mmu.page_table (omega arith) ∙ ==→eq _ _ e)))
  | inr e ↦ rw (e, read_physical-clear (physical b.mmu a) b (omega arith)) (same_mmu b b refl)
]

-- An interrupt entry leaves the MMU as it is, but for a violation if page 0 or page 15 is not mapped.
enter-SameMmu :
    (p : Pushes) (vector : ℕ) (b : Board)
    → 0xfff0 ≤ vector
    → vector < 0xffff
    → SameMmu b (enter Board read write p vector b)
enter-SameMmu p vector b h k = trans (push-SameMmu b p.sp₁ p.byte₁ p.sp₁_lt) (
    trans (push-SameMmu _ p.sp₂ p.byte₂ p.sp₂_lt) (
      trans (push-SameMmu _ p.sp₃ p.byte₃ p.sp₃_lt) (
        trans (vector-SameMmu _ vector h (omega arith))
          (vector-SameMmu _ (vector + 1) (omega arith) (omega arith)))))

pub Entry-SameMmu :
    {vector : ℕ} {b b' : Board}
    → 0xfff0 ≤ vector
    → vector < 0xffff
    → Entry Board read write vector b b'
    → SameMmu b b'
Entry-SameMmu {b} h k returned = same_mmu b b refl
Entry-SameMmu {vector} {b} h k (entered p) = enter-SameMmu p vector b h k
