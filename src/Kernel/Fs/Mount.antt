-- ===== src/Kernel/Fs/Mount.antt =====
-- The kernel reads the super block as mkfs/mkfs.c writes it.
use cpu.Prelude.{ℕ, ◌+◌, ◌*◌, ◌/◌, ◌%◌, ◌<◌, ◌≤◌, ◌^◌, ◌-◌, within, true, some, ◌≡◌, ap, ◌∙◌, arith}
use cpu.Kernel.State.{Kernel, SuperBlock, window_two}
use cpu.Kernel.Memory.Moved.{gathered, read_bytes_lem}
use cpu.Kernel.Pcb.Access.{Shows}
use cpu.Kernel.Fs.{super_block_size, super_block_of, load_super_block}
use cpu.Mkfs.{super_block_bytes}

-- The numbers fit in their fields.
pub record Fits (sb : SuperBlock) : Type 0 where
  pub magic : sb.magic < 2 ^ 32
  pub size : sb.size < 0x10000
  pub block_count : sb.block_count < 0x10000
  pub inode_count : sb.inode_count < 0x10000
  pub inode_start : sb.inode_start < 0x10000
  pub bitmap_start : sb.bitmap_start < 0x10000

word : (v : ℕ) → v < 0x10000 → v % 256 + 256 * (v / 256 % 256) ≡ v
word v small = omega arith

long :
    (v : ℕ)
    → v < 2 ^ 32
    → v % 0x10000 % 256
        + 256 * (v % 0x10000 / 256 % 256)
        + 0x10000 * (v / 0x10000 % 256 + 256 * (v / 0x10000 / 256 % 256))
      ≡ v
long v small = omega arith

super_block_of-bytes : (sb : SuperBlock) → Fits sb → super_block_of (super_block_bytes sb) ≡ sb
super_block_of-bytes sb fits = λ i. record {
  magic = long sb.magic fits.magic i;
  size = word sb.size fits.size i;
  block_count = word sb.block_count fits.block_count i;
  inode_count = word sb.inode_count fits.inode_count i;
  inode_start = word sb.inode_start fits.inode_start i;
  bitmap_start = word sb.bitmap_start fits.bitmap_start i;
}

super_block_of-equal :
    (a b : ℕ → ℕ)
    → ((j : ℕ) → j < super_block_size → a j ≡ b j)
    → super_block_of a ≡ super_block_of b
super_block_of-equal a b h =
    let at : (j : ℕ) → j + 2 ≤ super_block_size → a j + 256 * a (j + 1) ≡ b j + 256 * b (j + 1) =
      λ j small. omega (arith, h j (omega arith), h (j + 1) (omega arith)) in
    λ t. record {
      magic = at 0 (omega arith) t + 0x10000 * at 2 (omega arith) t;
      size = at 4 (omega arith) t;
      block_count = at 6 (omega arith) t;
      inode_count = at 8 (omega arith) t;
      inode_start = at 10 (omega arith) t;
      bitmap_start = at 12 (omega arith) t;
    }

-- When window 2 shows a block that starts with the bytes of a super block whose numbers fit in their
-- fields, as mkfs writes it, fs_init reads that super block. The frame in the window is one of kalloc.
pub load_super_block-bytes :
    (k : Kernel) (f : ℕ) (sb : SuperBlock)
    → Shows k window_two f
    → Fits sb
    → ((i : ℕ) → i < super_block_size → k.board.ram (f * 4096 + i) ≡ super_block_bytes sb i)
    → load_super_block k ≡ some (tt, record k { super_block = sb })
unfolding load_super_block
load_super_block-bytes k f sb shows fits shown =
    rw (read_bytes_lem super_block_size window_two 0 f (λ i. 0) k shows (omega arith)) (
      ap (λ sb'. some (tt, record k { super_block = sb' }))
        (super_block_of-equal
            (gathered k.board.ram (f * 4096 + window_two % 4096) super_block_size 0 (λ i. 0))
            (super_block_bytes sb)
            (λ j small.
              let inside : within 0 (0 + super_block_size) j ≡ true = ground arith in
              let place : f * 4096 + window_two % 4096 + (j - 0) ≡ f * 4096 + j = omega arith in
              rw inside (ap k.board.ram place ∙ shown j small))
          ∙ super_block_of-bytes sb fits))
