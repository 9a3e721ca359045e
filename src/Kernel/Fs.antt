-- ===== src/Kernel/Fs.antt =====
-- fs_init of kernel/fs.c: the super block is read, and two blocks are allocated and written. The entry of
-- devsw_table is left out. `run` is as in Kernel.Sleep.
pub mod Mount
use cpu.Prelude.{ℕ, ◌+◌, ◌*◌, ◌==◌, Option, none, some, List, [], ◌∷◌, length, array}
use cpu.Kernel.State.{Kernel, SuperBlock, Layout, window_two}
use cpu.Kernel.Command.{Command, pure, panic, choose, ◌>>=◌, ◌>>◌}
use cpu.Kernel.Memory.{read_bytes, write_bytes}
use cpu.Kernel.Mmu.{mmu_map_window, mmu_unmap_window}
use cpu.Kernel.Scheduler.{Switch}
use cpu.Kernel.Disk.{with_frame}
use cpu.Kernel.Buffer.{buffer_read, buffer_write, buffer_release}
use cpu.Kernel.Bitmap.{block_alloc}

-- sizeof(Super_Block)
abbrev pub super_block_size : ℕ
super_block_size = 14

abbrev pub fs_magic : ℕ
fs_magic = 0x3230_3536

abbrev pub word_of : (ℕ → ℕ) → ℕ → ℕ
word_of bytes i = bytes i + 256 * bytes (i + 1)

abbrev pub super_block_of : (ℕ → ℕ) → SuperBlock
super_block_of bytes = record {
  magic = word_of bytes 0 + 0x10000 * word_of bytes 2;
  size = word_of bytes 4;
  block_count = word_of bytes 6;
  inode_count = word_of bytes 8;
  inode_start = word_of bytes 10;
  bitmap_start = word_of bytes 12;
}

-- `memcpy(&sb, (void*)WINDOW2, sizeof(sb))`
unfoldable pub load_super_block : Command (Unit {0})
load_super_block = do
  bytes ← read_bytes super_block_size window_two 0 (λ i. 0)
  λ k. some (tt, record k { super_block = super_block_of bytes })

-- The texts `msg` and `msg2`
abbrev pub msg : List ℕ
msg =
    72 ∷ 101 ∷ 108 ∷ 108 ∷ 111 ∷ 32 ∷ 102 ∷ 114 ∷ 111 ∷ 109 ∷ 32 ∷ 116 ∷ 104 ∷ 101 ∷ 32 ∷ 107 ∷ 101
    ∷ 114 ∷ 110 ∷ 101 ∷ 108 ∷ 32 ∷ 116 ∷ 111 ∷ 32 ∷ 100 ∷ 105 ∷ 115 ∷ 107 ∷ 33 ∷ 10 ∷ []

abbrev pub msg2 : List ℕ
msg2 =
    97 ∷ 110 ∷ 100 ∷ 32 ∷ 105 ∷ 32 ∷ 119 ∷ 114 ∷ 111 ∷ 116 ∷ 101 ∷ 32 ∷ 116 ∷ 104 ∷ 105 ∷ 115 ∷ 32
    ∷ 116 ∷ 111 ∷ 32 ∷ 100 ∷ 105 ∷ 115 ∷ 107 ∷ 32 ∷ 116 ∷ 111 ∷ 33 ∷ 33 ∷ 33 ∷ 10 ∷ []

module _ (run : Switch → Command (Unit {0})) (l : Layout) where
  -- A new block with a text at its start.
  unfoldable pub write_text : ℕ → ℕ → List ℕ → Command (Unit {0})
  write_text attempts drive text = do
    block ← block_alloc run l attempts drive
    buffer ← buffer_read run l attempts drive block
    with_frame buffer (write_bytes (length text) window_two 0 (array text))
    buffer_write run l buffer
    buffer_release l buffer

  unfoldable pub fs_init : ℕ → ℕ → Command (Unit {0})
  fs_init attempts drive = do
    buffer ← buffer_read run l attempts drive 16
    with_frame buffer load_super_block
    buffer_release l buffer
    λ k. choose (k.super_block.magic == fs_magic) (pure tt) panic k
    write_text attempts drive msg
    write_text attempts drive msg2
