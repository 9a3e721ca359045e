-- ===== src/Kernel/Bitmap.antt =====
-- block_alloc and block_free of kernel/buffer.c: the bitmap of the disk's blocks, through window 2.
pub mod Free
use cpu.Prelude.{
  ℕ, zero, suc, ◌+◌, ◌-◌, ◌*◌, ◌/◌, ◌%◌, ◌^◌, ◌==◌, ◌!=◌, leb, ltb, if◌then◌else◌, has, set_bits,
  clear_bits, Bool, true, false, not, Option, none, some,
}
use cpu.Kernel.State.{Kernel, SuperBlock, Layout, window_two}
use cpu.Kernel.Command.{Command, pure, panic, when, choose, ◌>>=◌, ◌>>◌, load, store}
use cpu.Kernel.Mmu.{mmu_map_window, mmu_unmap_window}
use cpu.Kernel.Scheduler.{Switch}
use cpu.Kernel.Buffer.{buffer_read, buffer_write, buffer_release, block_zero}

abbrev pub block_size : ℕ
block_size = 4096

abbrev pub bits_per_block : ℕ
bits_per_block = block_size * 8

-- BIT_B_BLOCK
abbrev pub bit_block : ℕ → SuperBlock → ℕ
bit_block b sb = b / bits_per_block + sb.bitmap_start

-- The loop over the `n` bits of a byte from `bit` on: the first that is clear, if its block is below the
-- size of the disk.
unfoldable pub find_bit : ℕ → ℕ → ℕ → ℕ → ℕ → Option ℕ
find_bit zero bit bits first size = none
find_bit (suc n) bit bits first size =
    let rest = find_bit n (bit + 1) bits first size in
    if has bits (2 ^ bit)
    then rest
    else if leb size ((first + bit) % 0x10000)
    then none
    else some bit

-- The bit is set, and its block returned; without one, the rest of the search.
abbrev pub mark : Option ℕ → ℕ → ℕ → ℕ → Command (Option ℕ) → Command (Option ℕ)
mark none bits byte first rest = rest
mark (some bit) bits byte first rest = do
  store (window_two + byte) (set_bits bits (2 ^ bit))
  pure (some ((first + bit) % 0x10000))

-- The loop over the `n` bytes of the bitmap block from `byte` on: a free block is marked.
unfoldable pub find_byte : ℕ → ℕ → ℕ → ℕ → Command (Option ℕ)
find_byte zero byte block size k = some (none, k)
find_byte (suc n) byte block size k =
    (do
      bits ← load (window_two + byte)
      choose (bits == 0xff) (find_byte n (byte + 1) block size) (
          mark (find_bit 8 0 bits (block + byte * 8) size) bits byte (block + byte * 8)
            (find_byte n (byte + 1) block size)))
      k

-- `if((bitmap[byte] & mask) == 0) panic(...); bitmap[byte] &= ~mask;`
unfoldable pub clear_bit : ℕ → ℕ → Command (Unit {0})
clear_bit byte mask = do
  bits ← load (window_two + byte)
  choose (has bits mask) (store (window_two + byte) (clear_bits bits mask)) panic

module _ (run : Switch → Command (Unit {0})) (l : Layout) where
  -- What block_alloc does after the search of a bitmap block.
  unfoldable pub conclude : Option ℕ → ℕ → ℕ → ℕ → Command ℕ → Command ℕ
  conclude none attempts drive buffer rest = do buffer_release l buffer; rest
  conclude (some found) attempts drive buffer rest = do
    buffer_write run l buffer
    buffer_release l buffer
    block_zero run l attempts drive found
    pure found

  -- The loop over the bitmap blocks from `block` on. On a disk of more than 0x8000 blocks that is full,
  -- `block` wraps to 0 and the loop does not end; the model stops when the rounds run out.
  unfoldable pub alloc_from : ℕ → ℕ → ℕ → ℕ → Command ℕ
  alloc_from zero attempts drive block k = none
  alloc_from (suc n) attempts drive block k =
      choose (ltb block k.super_block.size)
        (do
          buffer ← buffer_read run l attempts drive (bit_block block k.super_block)
          (window, old_frame) ← (λ k'. mmu_map_window 2 (k'.buffers buffer).frame k')
          found ← find_byte block_size 0 block k.super_block.size
          mmu_unmap_window 2 old_frame
          conclude found attempts drive buffer
              (alloc_from n attempts drive ((block + bits_per_block) % 0x10000)))
        (pure 0) k

  unfoldable pub block_alloc : ℕ → ℕ → Command ℕ
  block_alloc attempts drive = alloc_from 3 attempts drive 0

  unfoldable pub block_free : ℕ → ℕ → ℕ → Command (Unit {0})
  block_free attempts drive block k =
      (do
        buffer ← buffer_read run l attempts drive (bit_block block k.super_block)
        (window, old_frame) ← (λ k'. mmu_map_window 2 (k'.buffers buffer).frame k')
        clear_bit (block % bits_per_block / 8) (2 ^ (block % bits_per_block % 8))
        mmu_unmap_window 2 old_frame
        buffer_write run l buffer
        buffer_release l buffer)
        k
