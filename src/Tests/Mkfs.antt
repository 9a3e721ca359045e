-- ===== src/Tests/Mkfs.antt =====
-- The theorems on the disk that mkfs/mkfs.c makes, at a kernel's file of zeros and a super block.
use cpu.Prelude.{
  ℕ, ◌+◌, ◌-◌, ◌*◌, ◌<◌, ◌==◌, leb, within, if◌then◌else◌, true, some, ◌≡◌, refl, ap, arith,
}
use cpu.Kernel.State.{Kernel, SuperBlock, window_two}
use cpu.Kernel.Fs.{super_block_size, load_super_block}
use cpu.Kernel.Fs.Mount.{load_super_block-bytes}
use cpu.Kernel.Pcb.Access.{Shows}
use cpu.Kernel.Bitmap.{find_byte}
use cpu.Kernel.Bitmap.Free.{marked}
use cpu.Mkfs.{Image, make_disk, super_block_bytes, root_data_block}
use cpu.Mkfs.Fresh.{size_on, bitmap_on, find_byte-fresh}
use cpu.Tests.Kernels.{kernel}

abbrev zeros : Image
zeros i = 0

-- Frame 50 holds the bitmap block of the disk, and window 2 shows it.
abbrev loaded : ℕ → ℕ
loaded a =
    if within (50 * 4096) (51 * 4096) a then bitmap_on (make_disk zeros) (a - 50 * 4096) else 0

abbrev mounted : Kernel
mounted = record kernel {
  board = record (kernel.board) {
    ram = loaded;
    mmu = record (kernel.board.mmu) { page_table = λ i. if i == 2 then 50 else i };
  };
}

mounted-Shows : Shows mounted window_two 50
mounted-Shows = record { page = refl; frame = record { above = omega arith; below = omega arith } }

loaded-bitmap : (i : ℕ) → i < 4096 → loaded (50 * 4096 + i) ≡ bitmap_on (make_disk zeros) i
loaded-bitmap i small =
    let inside : within (50 * 4096) (51 * 4096) (50 * 4096 + i) ≡ true = ground arith in
    let index : 50 * 4096 + i - 50 * 4096 ≡ i = omega arith in
    rw inside (ap (bitmap_on (make_disk zeros)) index)

find_byte-fresh_example :
    find_byte 4096 0 0 (size_on (make_disk zeros)) mounted
    ≡ some (marked mounted 50 0 (some (root_data_block + 1)))
find_byte-fresh_example = find_byte-fresh zeros mounted 50 mounted-Shows loaded-bitmap

abbrev small_disk : SuperBlock
small_disk = record {
  magic = 0x3230_3536;
  size = 600;
  block_count = 500;
  inode_count = 64;
  inode_start = 17;
  bitmap_start = 18;
}

-- Frame 50 starts with its super block.
abbrev described : Kernel
described = record mounted {
  board = record (mounted.board) {
    ram = λ a. if leb (50 * 4096) a then super_block_bytes small_disk (a - 50 * 4096) else 0;
  };
}

described-bytes :
    (i : ℕ)
    → i < super_block_size
    → described.board.ram (50 * 4096 + i) ≡ super_block_bytes small_disk i
described-bytes i small =
    let behind : leb (50 * 4096) (50 * 4096 + i) ≡ true = ground arith in
    let index : 50 * 4096 + i - 50 * 4096 ≡ i = omega arith in
    rw behind (ap (super_block_bytes small_disk) index)

load_super_block-bytes_example :
    load_super_block described ≡ some (tt, record described { super_block = small_disk })
load_super_block-bytes_example =
    load_super_block-bytes described 50 small_disk
      (record { page = refl; frame = record { above = omega arith; below = omega arith } })
      (record {
        magic = omega arith;
        size = omega arith;
        block_count = omega arith;
        inode_count = omega arith;
        inode_start = omega arith;
        bitmap_start = omega arith;
      })
      described-bytes
