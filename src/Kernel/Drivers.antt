-- ===== src/Kernel/Drivers.antt =====
-- The drivers behind open files: console_ops of kernel/console.c, pipe_ops of kernel/pipe.c and fs_ops of
-- kernel/fs.c, the table that console_init, pipe_init and fs_init fill, the calls of kernel/file.c that no
-- driver serves, and kernel/debugger.c. A driver ignores its `File*`, so it is no argument here.
use cpu.Prelude.{ℕ, ◌==◌, if◌then◌else◌, Bool, Option, none, some}
use cpu.Kernel.State.{Layout}
use cpu.Kernel.Command.{Command, panic}
use cpu.Kernel.Scheduler.{Switch}
use cpu.Kernel.Console.{console_read, console_write}
use cpu.Kernel.File.{File}

-- File_Operations of kernel/common.h. An `arg` is an address.
pub record FileOperations : Type 0 where
  pub open_file : Command ℕ
  pub close_file : Command ℕ
  pub read : ℕ → ℕ → Command ℕ
  pub write : ℕ → ℕ → Command ℕ
  pub ioctl : ℕ → ℕ → Command ℕ

abbrev pub device_major_console : ℕ
device_major_console = 1

abbrev pub device_major_disk : ℕ
device_major_disk = 2

abbrev pub device_major_pipe : ℕ
device_major_pipe = 3

abbrev pub console_open : Command ℕ
console_open = panic

abbrev pub console_close : Command ℕ
console_close = panic

abbrev pub console_ioctl : ℕ → ℕ → Command ℕ
console_ioctl request arg = panic

abbrev pub pipe_open : Command ℕ
pipe_open = panic

abbrev pub pipe_close : Command ℕ
pipe_close = panic

abbrev pub pipe_read : ℕ → ℕ → Command ℕ
pipe_read buffer length = panic

abbrev pub pipe_write : ℕ → ℕ → Command ℕ
pipe_write buffer length = panic

abbrev pub pipe_ioctl : ℕ → ℕ → Command ℕ
pipe_ioctl request arg = panic

abbrev pub pipe_ops : FileOperations
pipe_ops = record {
  open_file = pipe_open;
  close_file = pipe_close;
  read = pipe_read;
  write = pipe_write;
  ioctl = pipe_ioctl;
}

abbrev pub fs_open : Command ℕ
fs_open = panic

abbrev pub fs_close : Command ℕ
fs_close = panic

abbrev pub fs_read : ℕ → ℕ → Command ℕ
fs_read buffer length = panic

abbrev pub fs_write : ℕ → ℕ → Command ℕ
fs_write buffer length = panic

abbrev pub fs_ioctl : ℕ → ℕ → Command ℕ
fs_ioctl request arg = panic

abbrev pub fs_ops : FileOperations
fs_ops = record {
  open_file = fs_open;
  close_file = fs_close;
  read = fs_read;
  write = fs_write;
  ioctl = fs_ioctl;
}

module _ (run : Switch → Command (Unit {0})) (l : Layout) (wait : Command (Unit {0}))
    (rounds fuel : ℕ) where
  abbrev pub console_ops : FileOperations
  console_ops = record {
    open_file = console_open;
    close_file = console_close;
    read = console_read run l wait rounds fuel;
    write = console_write run rounds;
    ioctl = console_ioctl;
  }

  -- After console_init, pipe_init and fs_init; every other entry is NULL.
  unfoldable pub devsw_table : ℕ → Option FileOperations
  devsw_table major =
      if major == device_major_console
      then some console_ops
      else if major == device_major_disk
      then some fs_ops
      else if major == device_major_pipe
      then some pipe_ops
      else none

-- An open file with the functions of a driver.
abbrev pub file_of : Bool → Bool → FileOperations → File
file_of readable writable fops = record {
  readable = readable;
  writable = writable;
  read = fops.read;
  write = fops.write;
}

abbrev pub sys_fstat : Command ℕ
sys_fstat = panic

abbrev pub sys_fseek : Command ℕ
sys_fseek = panic

-- BRK in kernel space
abbrev pub kernel_debugger : Command (Unit {0})
kernel_debugger = panic
