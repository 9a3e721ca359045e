-- ===== src/Kernel/File.antt =====
-- sys_read and sys_write of kernel/file.c. A `File*` of the PCB is its address, and `file_at` the open file
-- that lies there, with the functions of its driver; NULL is no file.
use cpu.Prelude.{ℕ, ◌+◌, ◌*◌, ◌==◌, leb, if◌then◌else◌, Bool, Option, none, some}
use cpu.Kernel.Command.{Command, pure, choose, current_process, failure, ◌>>=◌}
use cpu.Kernel.Pcb.{proc_get_16, open_files_offset}
use cpu.Kernel.Delay.{syscall_populate_argument}

abbrev pub max_files_per_proc : ℕ
max_files_per_proc = 16

-- File of kernel/common.h, with what `fops->read` and `fops->write` do with a buffer and a length.
pub record File : Type 0 where
  pub readable : Bool
  pub writable : Bool
  pub read : ℕ → ℕ → Command ℕ
  pub write : ℕ → ℕ → Command ℕ

-- A uint16_t of the argument.
abbrev pub word_at : (ℕ → ℕ) → ℕ → ℕ
word_at arg i = arg i + 0x100 * arg (i + 1)

module _ (file_at : ℕ → Option File) where
  -- The transfer, if the file may be used for it.
  unfoldable pub transfer : (File → Bool) → (File → Command ℕ) → Option File → Command ℕ
  transfer allowed operation none = pure failure
  transfer allowed operation (some file) = choose (allowed file) (operation file) (pure failure)

  -- The checks of the two calls. A negative fd is at least 0x8000.
  unfoldable pub with_file : (File → Bool) → (File → ℕ → ℕ → Command ℕ) → Option (ℕ → ℕ) → Command ℕ
  with_file allowed operation none = pure failure
  with_file allowed operation (some arg) =
      choose (leb max_files_per_proc (word_at arg 0)) (pure failure) (do
        me ← current_process
        address ← proc_get_16 me (open_files_offset + word_at arg 0 * 2)
        transfer allowed (λ f. operation f (word_at arg 2) (word_at arg 4))
            (if address == 0 then none else file_at address))

  unfoldable pub sys_read : Command ℕ
  sys_read = do arg ← syscall_populate_argument; with_file (λ f. f.readable) (λ f. f.read) arg

  unfoldable pub sys_write : Command ℕ
  sys_write = do arg ← syscall_populate_argument; with_file (λ f. f.writable) (λ f. f.write) arg
