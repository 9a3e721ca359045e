-- ===== src/Mkfs/Bits.antt =====
-- The bitmap that write_bitmap of mkfs/mkfs.c makes, bit by bit.
use cpu.Prelude.{
  ℕ, zero, suc, ◌+◌, ◌-◌, ◌*◌, ◌/◌, ◌%◌, ◌^◌, ◌<◌, ◌≤◌, ◌==◌, leb, ltb, within, has, set_bits,
  holds_below, holds_below-at, ◌&&◌, ◌||◌, not, Bool, true, false, Bool-cases, ==→eq, ◌≡◌, refl,
  sym, ap, ◌∙◌, arith, inl, inr,
}
use cpu.Kernel.State.{SuperBlock}
use cpu.Mkfs.{set_bit, set_range, bitmap_of}

abbrev same : Bool → Bool → Bool
same true b = b
same false b = not b

-- Setting a bit of a byte sets it and no other.
abbrev sets : ℕ → ℕ → ℕ → Bool
sets i j x =
    same (has (set_bits x (2 ^ i)) (2 ^ j)) (j == i || has x (2 ^ j))
    && ltb (set_bits x (2 ^ i)) 256

sets_table : holds_below (λ i. holds_below (λ j. holds_below (sets i j) 256) 8) 8 ≡ true
unfolding holds_below
sets_table = refl

sets_at : (i j x : ℕ) → i < 8 → j < 8 → x < 256 → sets i j x ≡ true
sets_at i j x hi hj hx = holds_below-at (sets i j) 256 x hx (
    holds_below-at (λ j'. holds_below (sets i j') 256) 8 j hj
      (holds_below-at (λ i'. holds_below (λ j'. holds_below (sets i' j') 256) 8) 8 i hi sets_table))

same→eq : (a b : Bool) → same a b ≡ true → a ≡ b
same→eq true b h = sym h
same→eq false b h = ground (arith, h)

unset : (b : Bool) → not b ≡ true → b ≡ false
unset b h = ground (arith, h)

both : (a b : Bool) → (a && b) ≡ true → (a ≡ true) × (b ≡ true)
both a b h = ground (arith, h)

same_place : (j b : ℕ) → j / 8 ≡ b / 8 → (j % 8 == b % 8) ≡ (j == b)
same_place j b row = elim (Bool-cases (j == b)) [
  | inl equal ↦ ap (λ c. c % 8 == b % 8) (==→eq j b equal) ∙ ground (arith, equal)
  | inr other ↦ rw other (ground (arith, row, other))
]

-- The bit of a block.
abbrev pub bit_of : (ℕ → ℕ) → ℕ → Bool
bit_of bitmap b = has (bitmap (b / 8)) (2 ^ (b % 8))

abbrev IsBytes : (ℕ → ℕ) → Type 0
IsBytes bitmap = (a : ℕ) → bitmap a < 256

module _ (bitmap : ℕ → ℕ) (bytes : IsBytes bitmap) (b : ℕ) where
  set_bit-IsBytes : IsBytes (set_bit b bitmap)
  set_bit-IsBytes a =
      let row =
        both
          (same (has (set_bits (bitmap (b / 8)) (2 ^ (b % 8))) (2 ^ (b % 8)))
            (b % 8 == b % 8 || has (bitmap (b / 8)) (2 ^ (b % 8))))
          (ltb (set_bits (bitmap (b / 8)) (2 ^ (b % 8))) 256)
          (sets_at (b % 8) (b % 8) (bitmap (b / 8)) (omega arith) (omega arith) (bytes (b / 8))) in
      ground (arith, row.1, bytes a)

  set_bit-bit : (j : ℕ) → bit_of (set_bit b bitmap) j ≡ (j == b || bit_of bitmap j)
  set_bit-bit j = elim (Bool-cases (j / 8 == b / 8)) [
    | inl here ↦
        let row : b / 8 ≡ j / 8 = sym (==→eq (j / 8) (b / 8) here) in
        let x = bitmap (b / 8) in
        let fact =
          both
            (same (has (set_bits x (2 ^ (b % 8))) (2 ^ (j % 8)))
              (j % 8 == b % 8 || has x (2 ^ (j % 8))))
            (ltb (set_bits x (2 ^ (b % 8))) 256)
            (sets_at (b % 8) (j % 8) x (omega arith) (omega arith) (bytes (b / 8))) in
        rw here (
          same→eq (has (set_bits x (2 ^ (b % 8))) (2 ^ (j % 8)))
            (j % 8 == b % 8 || has x (2 ^ (j % 8))) fact.0
          ∙ ap (λ c. c || has x (2 ^ (j % 8))) (same_place j b (sym row))
          ∙ ap (λ r. j == b || has (bitmap r) (2 ^ (j % 8))) row)
    | inr there ↦ let other : (j == b) ≡ false = ground (arith, there) in rw (there, other) refl
  ]

-- A range of bits.
no_range : (b j : ℕ) (c : Bool) → c ≡ (within b (b + 0) j || c)
no_range b j c = ground arith

in_range :
    (b n j : ℕ) (c : Bool)
    → (within (b + 1) (b + 1 + n) j || (j == b || c)) ≡ (within b (b + suc n) j || c)
in_range b n j c = ground arith

set_range-bit :
    (n b : ℕ) (bitmap : ℕ → ℕ) (j : ℕ)
    → IsBytes bitmap
    → bit_of (set_range n b bitmap) j ≡ (within b (b + n) j || bit_of bitmap j)
unfolding set_range
set_range-bit zero b bitmap j bytes = no_range b j (bit_of bitmap j)
set_range-bit (suc n) b bitmap j bytes =
    set_range-bit n (b + 1) (set_bit b bitmap) j (set_bit-IsBytes bitmap bytes b)
    ∙ ap (λ c. within (b + 1) (b + 1 + n) j || c) (set_bit-bit bitmap bytes b j)
    ∙ in_range b n j (bit_of bitmap j)

set_range-IsBytes : (n b : ℕ) (bitmap : ℕ → ℕ) → IsBytes bitmap → IsBytes (set_range n b bitmap)
unfolding set_range
set_range-IsBytes zero b bitmap bytes = bytes
set_range-IsBytes (suc n) b bitmap bytes =
    set_range-IsBytes n (b + 1) (set_bit b bitmap) (set_bit-IsBytes bitmap bytes b)

zeros_table : holds_below (λ i. not (has 0 (2 ^ i))) 8 ≡ true
unfolding holds_below
zeros_table = refl

zero-bit : (j : ℕ) → bit_of (λ a. 0) j ≡ false
zero-bit j =
    unset (bit_of (λ a. 0) j)
      (holds_below-at (λ i. not (has 0 (2 ^ i))) 8 (j % 8) (omega arith) zeros_table)

outside :
    (root size bits j : ℕ) (c : Bool)
    → size ≤ bits
    → j < bits
    → c ≡ false
    → (within size (size + (bits - size)) j || (within 0 (0 + (root + 1)) j || c))
      ≡ (leb j root || leb size j)
outside root size bits j c small inside clear = rw clear (ground (arith, small, inside))

-- A block is used in the bitmap of mkfs if it is not behind the root directory's, or not on the disk.
pub bitmap_of-bit :
    (sb : SuperBlock) (root blocks j : ℕ)
    → sb.size ≤ blocks * 4096 * 8
    → j < blocks * 4096 * 8
    → bit_of (bitmap_of sb root blocks) j ≡ (leb j root || leb sb.size j)
unfolding bitmap_of
bitmap_of-bit sb root blocks j small inside =
    let lower = set_range (root + 1) 0 (λ a. 0) in
    set_range-bit (blocks * 4096 * 8 - sb.size) sb.size lower j
      (set_range-IsBytes (root + 1) 0 (λ a. 0) (λ a. omega arith))
    ∙ ap (λ c. within sb.size (sb.size + (blocks * 4096 * 8 - sb.size)) j || c)
        (set_range-bit (root + 1) 0 (λ a. 0) j (λ a. omega arith))
    ∙ outside root sb.size (blocks * 4096 * 8) j (bit_of (λ a. 0) j) small inside (zero-bit j)
