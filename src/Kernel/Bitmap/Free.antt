-- ===== src/Kernel/Bitmap/Free.antt =====
-- The search of block_alloc of kernel/buffer.c in a block of the bitmap finds the first free block.
use cpu.Prelude.{
  ℕ, zero, suc, ◌+◌, ◌*◌, ◌/◌, ◌%◌, ◌^◌, ◌<◌, ◌≤◌, ◌==◌, leb, ltb, has, set_bits, update, ◌&&◌, not,
  Bool, true, false, Option, none, some, ◌≡◌, refl, sym, ap, ◌∙◌, arith, inl, inr, Bool-cases,
  ==→eq, first, or_else, shifted, first-add, first-shift, first-none, first-lt, and-false, le→ltb,
  ltb→le,
}
use cpu.Kernel.State.{Kernel, window_two}
use cpu.Kernel.Command.{Command, choose}
use cpu.Kernel.Mmu.Windows.{with_ram}
use cpu.Kernel.Pcb.Access.{Shows, load_lem, store_lem}
use cpu.Kernel.Bitmap.{find_bit, find_byte, mark}

-- The bit of a byte is clear, and its block is on the disk.
abbrev clear_at : ℕ → ℕ → ℕ → ℕ → Bool
clear_at bits start size i = not (has bits (2 ^ i)) && ltb (start + i) size

find_bit-first :
    (n bit bits start size : ℕ)
    → start + bit + n ≤ 0x10000
    → find_bit n bit bits start size ≡ first n bit (clear_at bits start size)
unfolding find_bit first
find_bit-first zero bit bits start size small = refl
find_bit-first (suc n) bit bits start size small = elim (Bool-cases (has bits (2 ^ bit))) [
  | inl set ↦ rw set (find_bit-first n (bit + 1) bits start size (omega arith))
  | inr clear ↦
      let number : (start + bit) % 0x10000 ≡ start + bit = omega arith in
      elim (Bool-cases (ltb (start + bit) size)) [
        | inl inside ↦
            let within : leb size (start + bit) ≡ false = ground arith in
            rw (clear, number, within, inside)
        | inr outside ↦
            let past : leb size (start + bit) ≡ true = ground arith in
            rw (clear, number, past, outside)
              (sym (
                first-none n (bit + 1) (clear_at bits start size) (λ j later.
                  and-false (not (has bits (2 ^ j))) (ltb (start + j) size)
                    (le→ltb (start + j) size (omega (arith, ltb→le (start + bit) size outside))))))
      ]
]

-- The block of the bit `b` of the frame `f` is free and on the disk.
abbrev pub is_free : (ℕ → ℕ) → ℕ → ℕ → ℕ → ℕ → Bool
is_free ram f block size b =
    not (has (ram (f * 4096 + b / 8)) (2 ^ (b % 8))) && ltb (block + b) size

-- What the search leaves when it finds a bit, or none.
abbrev pub marked : Kernel → ℕ → ℕ → Option ℕ → Option ℕ × Kernel
marked k f block none = (none, k)
marked k f block (some b) =
    let a = f * 4096 + b / 8 in
    (some (block + b), with_ram k (update k.board.ram a (set_bits (k.board.ram a) (2 ^ (b % 8)))))

full_byte : (start size : ℕ) → first 8 0 (clear_at 255 start size) ≡ none
unfolding first
full_byte start size = refl

-- The eight bits of a byte in the block of the bitmap.
first-byte :
    (ram : ℕ → ℕ) (f block size byte : ℕ)
    → first 8 (byte * 8) (is_free ram f block size)
      ≡ shifted (byte * 8) (first 8 0 (clear_at (ram (f * 4096 + byte)) (block + byte * 8) size))
first-byte ram f block size byte =
    let start : byte * 8 ≡ byte * 8 + 0 = omega arith in
    ap (λ i. first 8 i (is_free ram f block size)) start
    ∙ first-shift 8 0 (byte * 8) 8 (is_free ram f block size)
        (clear_at (ram (f * 4096 + byte)) (block + byte * 8) size) (omega arith)
        (λ j small.
          let row : byte ≡ (byte * 8 + j) / 8 = omega arith in
          let column : j ≡ (byte * 8 + j) % 8 = omega arith in
          let number : block + byte * 8 + j ≡ block + (byte * 8 + j) = omega arith in
          λ t. not (has (ram (f * 4096 + row t)) (2 ^ column t)) && ltb (number t) size)

module _ (f block size : ℕ) (k : Kernel) (s : Shows k window_two f) where
  abbrev bits_at : ℕ → ℕ
  bits_at byte = k.board.ram (f * 4096 + byte)

  at_byte : (byte : ℕ) → byte < 4096 → Shows k (window_two + byte) f
  at_byte byte small =
      let page : (window_two + byte) / 4096 ≡ 2 = omega arith in
      record { page = ap k.board.mmu.page_table page ∙ s.page; frame = s.frame }

  -- A free bit of the byte is marked, and without one the search goes on.
  mark-byte :
      (byte : ℕ) (o : Option ℕ) (rest : Kernel → Option (Option ℕ × Kernel)) (r : Option ℕ)
      → byte < 4096
      → block + 0x8000 ≤ 0x10000
      → first 8 0 (clear_at (bits_at byte) (block + byte * 8) size) ≡ o
      → rest k ≡ some (marked k f block r)
      → mark o (bits_at byte) byte (block + byte * 8) rest k
        ≡ some (marked k f block (or_else (shifted (byte * 8) o) r))
  mark-byte byte none rest r small fits e after = after
  mark-byte byte (some i) rest r small fits e after =
      let inside : i < 8 = first-lt 8 0 (clear_at (bits_at byte) (block + byte * 8) size) i e in
      let row : byte ≡ (byte * 8 + i) / 8 = omega arith in
      let column : i ≡ (byte * 8 + i) % 8 = omega arith in
      let place : f * 4096 + (window_two + byte) % 4096 ≡ f * 4096 + byte = omega arith in
      let number : (block + byte * 8 + i) % 0x10000 ≡ block + (byte * 8 + i) = omega arith in
      rw (store_lem k (window_two + byte) f (set_bits (bits_at byte) (2 ^ i)) (at_byte byte small))
        (λ t. some (
          some (number t),
          with_ram k (
              update k.board.ram ((place ∙ ap (λ c. f * 4096 + c) row) t)
                (set_bits (k.board.ram (f * 4096 + row t)) (2 ^ column t))),
        ))

  -- A byte without a clear bit is passed over, and the others are searched bit by bit.
  choose-byte :
      (byte : ℕ) (rest : Command (Option ℕ)) (r : Option ℕ)
      → byte < 4096
      → block + 0x8000 ≤ 0x10000
      → rest k ≡ some (marked k f block r)
      → choose
          (bits_at byte == 0xff)
          rest
          (mark
            (find_bit 8 0 (bits_at byte) (block + byte * 8) size)
            (bits_at byte)
            byte
            (block + byte * 8)
            rest)
          k
        ≡ some (
            marked k f block (
              or_else
                (shifted (byte * 8) (first 8 0 (clear_at (bits_at byte) (block + byte * 8) size)))
                r))
  choose-byte byte rest r small fits after =
      let start = block + byte * 8 in
      elim (Bool-cases (bits_at byte == 0xff)) [
        | inl full ↦
            let none_free : first 8 0 (clear_at (bits_at byte) start size) ≡ none =
              ap (λ b. first 8 0 (clear_at b start size)) (==→eq (bits_at byte) 0xff full)
              ∙ full_byte start size in
            rw (full, none_free) after
        | inr other ↦ rw other (
            rw (find_bit-first 8 0 (bits_at byte) start size (omega arith)) (
              mark-byte byte (first 8 0 (clear_at (bits_at byte) start size)) rest r small fits refl
                after))
      ]

  next_bytes :
      (n byte : ℕ)
      → first (suc n * 8) (byte * 8) (is_free k.board.ram f block size)
        ≡ or_else
            (shifted (byte * 8) (first 8 0 (clear_at (bits_at byte) (block + byte * 8) size)))
            (first (n * 8) ((byte + 1) * 8) (is_free k.board.ram f block size))
  next_bytes n byte =
      let test = is_free k.board.ram f block size in
      let count : suc n * 8 ≡ 8 + n * 8 = omega arith in
      let next : byte * 8 + 8 ≡ (byte + 1) * 8 = omega arith in
      ap (λ c. first c (byte * 8) test) count
      ∙ first-add 8 (n * 8) (byte * 8) test
      ∙ ap (λ o. or_else o (first (n * 8) (byte * 8 + 8) test))
          (first-byte k.board.ram f block size byte)
      ∙ ap
          (λ i.
            or_else
              (shifted (byte * 8) (first 8 0 (clear_at (bits_at byte) (block + byte * 8) size)))
              (first (n * 8) i test))
          next

  -- From `byte` on, the search of `n` bytes finds the first block whose bit is clear and whose number is
  -- below the disk's size, and sets its bit; without one, nothing changes. The bitmap block is in
  -- window 2, the bytes are in it, and its block numbers fit in 16 bits.
  pub find_byte-free :
      (n byte : ℕ)
      → byte + n ≤ 4096
      → block + 0x8000 ≤ 0x10000
      → find_byte n byte block size k
        ≡ some (marked k f block (first (n * 8) (byte * 8) (is_free k.board.ram f block size)))
  unfolding find_byte first
  find_byte-free zero byte inside fits = refl
  find_byte-free (suc n) byte inside fits =
      let place : f * 4096 + (window_two + byte) % 4096 ≡ f * 4096 + byte = omega arith in
      let rest = find_byte-free n (byte + 1) (omega arith) fits in
      rw (load_lem k (window_two + byte) f (at_byte byte (omega arith))) (
        rw place (
          choose-byte byte (find_byte n (byte + 1) block size)
            (first (n * 8) ((byte + 1) * 8) (is_free k.board.ram f block size)) (omega arith) fits
            rest)
        ∙ ap (λ r. some (marked k f block r)) (sym (next_bytes n byte)))
