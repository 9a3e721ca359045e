-- ===== src/Mkfs.antt =====
-- mkfs/mkfs.c: the disk image with the kernel, the super block, the root directory and the bitmap. The
-- image and the kernel's file are functions from the offset; that files open, that memory is allocated,
-- and that the kernel's file is not short, is taken for granted.
pub mod Bits
pub mod Fresh
use cpu.Prelude.{
  array, ℕ, zero, suc, ◌+◌, ◌-◌, ◌*◌, ◌/◌, ◌%◌, ◌^◌, if◌then◌else◌, within, update, set_bits, List,
  [], ◌∷◌, ◌++◌,
}
use cpu.Kernel.State.{SuperBlock}
use cpu.Kernel.Bitmap.{block_size}

abbrev pub Image : Type 0
Image = ℕ → ℕ

-- `fseek(dst, offset, SEEK_SET); fwrite(bytes, 1, n, dst)`
abbrev pub write_at : ℕ → ℕ → (ℕ → ℕ) → Image → Image
write_at offset n bytes dst a = if within offset (offset + n) a then bytes (a - offset) else dst a

-- `SET_BIT(bitmap, b)`
abbrev pub set_bit : ℕ → (ℕ → ℕ) → ℕ → ℕ
set_bit b bitmap = update bitmap (b / 8) (set_bits (bitmap (b / 8)) (2 ^ (b % 8)))

-- A loop of write_bitmap over `n` bits from `b` on.
unfoldable pub set_range : ℕ → ℕ → (ℕ → ℕ) → ℕ → ℕ
set_range zero b bitmap = bitmap
set_range (suc n) b bitmap = set_range n (b + 1) (set_bit b bitmap)

-- The constants of kernel/common.h and machine/machine.h
abbrev pub disk_size : ℕ
disk_size = 0x200_0000

abbrev pub super_block_block : ℕ
super_block_block = 16

abbrev pub root_inode : ℕ
root_inode = 1

-- sizeof(Dinode)
abbrev pub inode_size : ℕ
inode_size = 64

-- The bitmap of write_bitmap: the blocks up to the root directory's and those behind the disk are used.
unfoldable pub bitmap_of : SuperBlock → ℕ → ℕ → ℕ → ℕ
bitmap_of sb root_data_block bitmap_blocks =
    set_range (bitmap_blocks * block_size * 8 - sb.size) sb.size
      (set_range (root_data_block + 1) 0 (λ a. 0))

unfoldable pub write_bitmap : SuperBlock → ℕ → ℕ → Image → Image
write_bitmap sb root_data_block bitmap_blocks =
    write_at (sb.bitmap_start * block_size) (bitmap_blocks * block_size)
      (bitmap_of sb root_data_block bitmap_blocks)

abbrev pub total_blocks : ℕ
total_blocks = disk_size / block_size % 0x10000

abbrev pub inode_count : ℕ
inode_count = 1024

abbrev pub inode_blocks : ℕ
inode_blocks = inode_count / (block_size / inode_size)

abbrev pub bitmap_blocks : ℕ
bitmap_blocks = (total_blocks + block_size * 8 - 1) / (block_size * 8)

-- The super block that main fills.
unfoldable pub new_super_block : SuperBlock
new_super_block =
    let bitmap_start = super_block_block + 1 + inode_blocks in
    record {
      magic = 0x3230_3536;
      size = total_blocks;
      inode_count = inode_count;
      inode_start = super_block_block + 1;
      bitmap_start = bitmap_start;
      block_count = total_blocks - (bitmap_start + bitmap_blocks);
    }

-- Little-endian numbers
abbrev pub le16 : ℕ → List ℕ
le16 v = v % 256 ∷ v / 256 % 256 ∷ []

abbrev pub le32 : ℕ → List ℕ
le32 v = le16 (v % 0x10000) ++ le16 (v / 0x10000)

-- `Super_Block sb`, with the two bytes of padding that the host's compiler adds
abbrev pub super_block_bytes : SuperBlock → ℕ → ℕ
super_block_bytes sb = array (
    le32 sb.magic
    ++ le16 sb.size
    ++ le16 sb.block_count
    ++ le16 sb.inode_count
    ++ le16 sb.inode_start
    ++ le16 sb.bitmap_start)

abbrev pub root_data_block : ℕ
root_data_block = super_block_block + 1 + inode_blocks + bitmap_blocks

-- `Dinode root_inode`: type, mode, uid, gid, major, minor, nlink, size and data[0]
abbrev pub root_inode_bytes : ℕ → ℕ
root_inode_bytes = array (2 ∷ le16 0x01ff ++ 0 ∷ 0 ∷ 0 ∷ 0 ∷ 1 ∷ le32 64 ++ le16 root_data_block)

-- `Dir_Entry root_entries[2]`: a name of 30 bytes and the inode's number, for "." and ".."
abbrev pub root_entries_bytes : ℕ → ℕ
root_entries_bytes i =
    if within 0 1 i
    then 46
    else if within 32 34 i
    then 46
    else if within 30 31 i
    then root_inode
    else if within 62 63 i
    then root_inode
    else 0

-- main: the disk image for a kernel's file.
unfoldable pub make_disk : Image → Image
make_disk kernel = write_bitmap new_super_block root_data_block bitmap_blocks (
    write_at (root_data_block * block_size) 64 root_entries_bytes (
      write_at ((super_block_block + 1) * block_size + root_inode * inode_size) inode_size
        root_inode_bytes
        (write_at (super_block_block * block_size) 16 (super_block_bytes new_super_block) (
          write_at 0x3000 (0xfc00 - 0x3000) (λ i. kernel (0x3000 + i))
            (write_at 0 0x200 (λ i. kernel (0x200 + i)) (λ a. 0))))))
