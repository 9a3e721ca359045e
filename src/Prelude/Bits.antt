-- ===== src/Prelude/Bits.antt =====
-- Bits of a byte. `bit_and` and `bit_or` compute at numerals; a law for every byte is checked by
-- evaluation at all 256 values.
use Prim.Native.Nat.{ℕ, zero, suc, ◌-◌, ◌<◌, bit_and, bit_or}
use mathlib.Core.Path.{◌≡◌, refl}
use mathlib.Core.Logic.{◌≢◌}
use mathlib.Core.Bool.{Bool, true, ◌&&◌, ◌||◌}
use native.Mathlib.Omega.{arith}
use cpu.Prelude.Tests.{◌!=◌, ◌==◌, ltb}

-- `x & mask` as a condition
abbrev pub has : ℕ → ℕ → Bool
has x mask = bit_and x mask != 0

-- `x |= mask`
abbrev pub set_bits : ℕ → ℕ → ℕ
set_bits x mask = bit_or x mask

-- `x &= ~mask` on a uint8_t
abbrev pub clear_bits : ℕ → ℕ → ℕ
clear_bits x mask = bit_and x (255 - mask)

-- `p` holds at every number below the bound.
unfoldable pub holds_below : (ℕ → Bool) → ℕ → Bool
holds_below p zero = true
holds_below p (suc bound) = holds_below p bound && p bound

pub holds_below-at :
    (p : ℕ → Bool) (bound x : ℕ) → x < bound → holds_below p bound ≡ true → p x ≡ true
unfolding holds_below
holds_below-at p zero x small checked = absurd (omega arith)
holds_below-at p (suc bound) x small checked = ground (arith, holds_below-at p bound x)

-- Masking keeps a byte a byte.
abbrev masks : ℕ → ℕ → Bool
masks m x = ltb (bit_and x m) 256 && ltb (bit_or x m) 256

masks_table : holds_below (λ m. holds_below (masks m) 256) 256 ≡ true
unfolding holds_below
masks_table = refl

masked : (x m : ℕ) → x < 256 → m < 256 → (bit_and x m < 256) × (bit_or x m < 256)
masked x m hx hm =
    let row = holds_below-at (λ m. holds_below (masks m) 256) 256 m hm masks_table in
    ground (arith, holds_below-at (masks m) 256 x hx row)

pub bit_and-lt : (x m : ℕ) → x < 256 → m < 256 → bit_and x m < 256
bit_and-lt x m hx hm = (masked x m hx hm).0

pub bit_or-lt : (x m : ℕ) → x < 256 → m < 256 → bit_or x m < 256
bit_or-lt x m hx hm = (masked x m hx hm).1

-- A bit that is set is seen.
abbrev sets : ℕ → ℕ → Bool
sets m x = m == 0 || has (set_bits x m) m

sets_table : holds_below (λ m. holds_below (sets m) 256) 256 ≡ true
unfolding holds_below
sets_table = refl

pub has-set_bits : (x m : ℕ) → x < 256 → m < 256 → m ≢ 0 → has (set_bits x m) m ≡ true
has-set_bits x m hx hm some_bit =
    let row = holds_below-at (λ m. holds_below (sets m) 256) 256 m hm sets_table in
    ground (arith, holds_below-at (sets m) 256 x hx row)
