-- ===== src/Kernel/Copy.antt =====
-- copy_to_user and copy_from_user of kernel/proc.c. The kernel's buffer is an array, and -1 as an int8_t
-- is 0xff. Each round of the loops moves at least one byte, so the bytes that are left are enough fuel.
pub mod Outward
pub mod Inward
use cpu.Prelude.{some, ℕ, zero, suc, ◌+◌, ◌-◌, ◌/◌, ◌%◌, ◌==◌, leb, min}
use cpu.Kernel.State.{frame_unused, page_table_size}
use cpu.Kernel.Command.{Command, pure, choose, ◌>>=◌, ◌>>◌}
use cpu.Kernel.Memory.{read_bytes, write_bytes}
use cpu.Kernel.Mmu.{mmu_map_window, mmu_unmap_window}
use cpu.Kernel.Pcb.{PageTable, proc_get_16, proc_read_bytes, top_offset, page_table_offset}

abbrev pub error : ℕ
error = 0xff

-- `(n < bytes_in_frame) ? n : bytes_in_frame`
abbrev pub chunk_of : ℕ → ℕ → ℕ
chunk_of va n = min n (4096 - va % 4096)

-- The loop of copy_to_user from the element `i` of the source on.
unfoldable pub copy_out : ℕ → (ℕ → ℕ) → ℕ → ℕ → ℕ → PageTable → Command ℕ
copy_out zero src i user_dest n table k = some (0, k)
copy_out (suc fuel) src i user_dest n table k =
    choose (n == 0) (pure 0)
      (choose (table (user_dest / 4096) == frame_unused) (pure error) (do
        (window, old_frame) ← mmu_map_window 1 (table (user_dest / 4096))
        write_bytes (chunk_of user_dest n) (window + user_dest % 4096) i src
        mmu_unmap_window 1 old_frame
        copy_out fuel src (i + chunk_of user_dest n) ((user_dest + chunk_of user_dest n) % 0x10000)
            (n - chunk_of user_dest n) table))
      k

-- The loop of copy_from_user, with the array that it fills.
unfoldable pub copy_in : ℕ → (ℕ → ℕ) → ℕ → ℕ → ℕ → PageTable → Command (ℕ × (ℕ → ℕ))
copy_in zero dst i user_src n table k = some ((0, dst), k)
copy_in (suc fuel) dst i user_src n table k =
    choose (n == 0) (pure (0, dst))
      (choose (table (user_src / 4096) == frame_unused) (pure (error, dst)) (do
        (window, old_frame) ← mmu_map_window 1 (table (user_src / 4096))
        dst' ← read_bytes (chunk_of user_src n) (window + user_src % 4096) i dst
        mmu_unmap_window 1 old_frame
        copy_in fuel dst' (i + chunk_of user_src n) ((user_src + chunk_of user_src n) % 0x10000)
            (n - chunk_of user_src n) table))
      k

unfoldable pub copy_to_user : (ℕ → ℕ) → ℕ → ℕ → ℕ → Command ℕ
copy_to_user src user_dest n p = do
  top ← proc_get_16 p top_offset
  choose (leb top user_dest) (pure error) (do
    table ← proc_read_bytes p page_table_offset page_table_size
    copy_out n src 0 user_dest n table)

unfoldable pub copy_from_user : (ℕ → ℕ) → ℕ → ℕ → ℕ → Command (ℕ × (ℕ → ℕ))
copy_from_user dst user_src n p = do
  top ← proc_get_16 p top_offset
  choose (leb top user_src) (pure (error, dst)) (do
    table ← proc_read_bytes p page_table_offset page_table_size
    copy_in n dst 0 user_src n table)
