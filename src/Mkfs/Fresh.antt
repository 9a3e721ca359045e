-- ===== src/Mkfs/Fresh.antt =====
-- On a disk that mkfs/mkfs.c made, the kernel's block_alloc finds the block behind the root directory.
use cpu.Prelude.{
  ℕ, zero, suc, ◌+◌, ◌-◌, ◌*◌, ◌/◌, ◌%◌, ◌^◌, ◌<◌, ◌≤◌, ◌==◌, leb, ltb, within, has, ◌&&◌, ◌||◌,
  not, Bool, true, false, Bool-cases, ==→eq, ==→ne, first, some, ◌≡◌, refl, ap, ◌∙◌, arith, inl,
  inr,
}
use cpu.Kernel.State.{Kernel, SuperBlock, window_two}
use cpu.Kernel.Pcb.Access.{Shows}
use cpu.Kernel.Bitmap.{find_byte}
use cpu.Kernel.Bitmap.Free.{marked, is_free, find_byte-free}
use cpu.Mkfs.Bits.{bitmap_of-bit}
use cpu.Mkfs.{
  Image, set_bit, set_range, bitmap_of, make_disk, new_super_block, root_data_block, write_at,
  root_entries_bytes, root_inode_bytes, super_block_bytes,
}

-- The first number that passes a test.
first-at :
    (n i d : ℕ) (test : ℕ → Bool)
    → i ≤ d
    → d < i + n
    → ((j : ℕ) → j < d → test j ≡ false)
    → test d ≡ true
    → first n i test ≡ some d
unfolding first
first-at zero i d test low high before hit = absurd (omega arith)
first-at (suc n) i d test low high before hit = elim (Bool-cases (i == d)) [
  | inl here ↦ let e = ==→eq i d here in rw (ap test e ∙ hit) (ap some e)
  | inr later ↦
      let other = ==→ne i d later in
      let below : i < d = omega (arith, other) in
      rw (before i below)
        (first-at n (i + 1) d test (omega (arith, below)) (omega arith) before hit)
]

-- A block of the bitmap that mkfs wrote, as the kernel's search reads it.
free-bit :
    (ram : ℕ → ℕ) (f : ℕ) (sb : SuperBlock) (root j : ℕ)
    → ((i : ℕ) → i < 4096 → ram (f * 4096 + i) ≡ bitmap_of sb root 1 i)
    → sb.size ≤ 0x8000
    → j < 0x8000
    → is_free ram f 0 sb.size j ≡ not (leb j root || leb sb.size j)
free-bit ram f sb root j shown small inside =
    ap (λ x. not (has x (2 ^ (j % 8))) && ltb (0 + j) sb.size) (shown (j / 8) (omega arith))
    ∙ ap (λ c. not c && ltb (0 + j) sb.size) (bitmap_of-bit sb root 1 j (omega arith) (omega arith))
    ∙ ground arith

first-free :
    (ram : ℕ → ℕ) (f : ℕ) (sb : SuperBlock) (root : ℕ)
    → ((i : ℕ) → i < 4096 → ram (f * 4096 + i) ≡ bitmap_of sb root 1 i)
    → sb.size ≤ 0x8000
    → root + 1 < sb.size
    → first 0x8000 0 (is_free ram f 0 sb.size) ≡ some (root + 1)
first-free ram f sb root shown small fits =
    first-at 0x8000 0 (root + 1) (is_free ram f 0 sb.size) (omega arith) (omega arith)
      (λ j below.
        let used : (not (leb j root || leb sb.size j)) ≡ false = ground arith in
        free-bit ram f sb root j shown small (omega arith) ∙ used)
      (let free : (not (leb (root + 1) root || leb sb.size (root + 1))) ≡ true = ground arith in
        free-bit ram f sb root (root + 1) shown small (omega arith) ∙ free)

-- The size in the super block, and a byte of the first bitmap block, where the kernel finds them.
abbrev pub size_on : Image → ℕ
size_on disk = disk (16 * 4096 + 4) + 256 * disk (16 * 4096 + 5)

abbrev pub bitmap_on : Image → ℕ → ℕ
bitmap_on disk i = disk ((disk (16 * 4096 + 12) + 256 * disk (16 * 4096 + 13)) * 4096 + i)

write_at-inside :
    (offset n : ℕ) (bytes dst : Image) (i : ℕ)
    → i < n
    → write_at offset n bytes dst (offset + i) ≡ bytes i
write_at-inside offset n bytes dst i small =
    let inside : within offset (offset + n) (offset + i) ≡ true = ground arith in
    let index : offset + i - offset ≡ i = omega arith in rw inside (ap bytes index)

size_on-make_disk : (kernel : Image) → size_on (make_disk kernel) ≡ new_super_block.size
unfolding make_disk new_super_block cpu.Mkfs.write_bitmap
size_on-make_disk kernel = refl

bitmap_on-make_disk :
    (kernel : Image) (i : ℕ)
    → i < 4096
    → bitmap_on (make_disk kernel) i ≡ bitmap_of new_super_block root_data_block 1 i
unfolding make_disk new_super_block cpu.Mkfs.write_bitmap
bitmap_on-make_disk kernel i small =
    write_at-inside (33 * 4096) 4096 (bitmap_of new_super_block root_data_block 1)
      (write_at (34 * 4096) 64 root_entries_bytes (
        write_at (17 * 4096 + 64) 64 root_inode_bytes (
          write_at (16 * 4096) 16 (super_block_bytes new_super_block) (
            write_at 0x3000 (0xfc00 - 0x3000) (λ j. kernel (0x3000 + j))
              (write_at 0 0x200 (λ j. kernel (0x200 + j)) (λ a. 0))))))
      i small

size-small : new_super_block.size ≤ 0x8000
unfolding new_super_block
size-small = omega arith

size-fits : root_data_block + 1 < new_super_block.size
unfolding new_super_block
size-fits = omega arith

-- When window 2 shows the bitmap block of a disk that mkfs made, as its super block locates it, the search
-- of block_alloc, with the size of the super block, finds the block behind the root directory's and marks
-- it. The frame in the window is one of kalloc.
pub find_byte-fresh :
    (kernel : Image) (k : Kernel) (f : ℕ)
    → Shows k window_two f
    → ((i : ℕ) → i < 4096 → k.board.ram (f * 4096 + i) ≡ bitmap_on (make_disk kernel) i)
    → find_byte 4096 0 0 (size_on (make_disk kernel)) k
      ≡ some (marked k f 0 (some (root_data_block + 1)))
find_byte-fresh kernel k f shows shown =
    find_byte-free f 0 (size_on (make_disk kernel)) k shows 4096 0 (omega arith) (omega arith)
    ∙ ap (λ size. some (marked k f 0 (first 0x8000 0 (is_free k.board.ram f 0 size))))
        (size_on-make_disk kernel)
    ∙ ap (λ o. some (marked k f 0 o))
        (first-free k.board.ram f new_super_block root_data_block
          (λ i small. shown i small ∙ bitmap_on-make_disk kernel i small) size-small size-fits)
