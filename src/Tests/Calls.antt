-- ===== src/Tests/Calls.antt =====
-- A system call of a concrete process.
use cpu.Prelude.{◌+◌, ◌*◌, ◌==◌, if◌then◌else◌, false, none, some, refl, arith}
use cpu.Kernel.State.{Kernel}
use cpu.Kernel.Pcb.{pid_offset}
use cpu.Kernel.Pcb.Access.{cell16}
use cpu.Kernel.Signals.{sys_getpid}
use cpu.Kernel.Syscall.{syscalls_table}
use cpu.Kernel.Trap.{kernel_brk}
use cpu.Kernel.Trap.Frames.{IsInside, saved, saved-IsInside}
use cpu.Kernel.Trap.Calls.{IsReturned, kernel_brk-returns, kernel_brk-getpid, getpid_lem}
use cpu.Tests.Kernels.{kernel, layout}

-- Process 0 on its stack, with the pid 0x0102 and the number of sys_getpid in Y.
abbrev calling : Kernel
calling = record kernel {
  kernel_page_table = λ i. if i == 0 then 20 else i;
  board = record (kernel.board) {
    ram = λ a. if a == 20 * 4096 + 538 then 2 else if a == 20 * 4096 + 539 then 1 else 0;
  };
  trap_frame = record {
    user_context = λ i. if i == 6 then 0x47 else i + 1;
    user_page_table = λ i. i + 16;
    first = false;
  };
}

calling-IsInside : IsInside calling 0
calling-IsInside = record {
  current = refl;
  pcb = record {
    synced = record {
      registers = refl;
      window_one = refl;
      window_two = refl;
      tracked_one = λ p c. ground arith;
      tracked_two = λ p c. ground arith;
    };
    frame = omega arith;
  };
  stack = refl;
  alive = refl;
}

kernel_brk-returns_example :
    IsReturned calling 0x0102
      (kernel_brk (λ s k. some (tt, k)) layout 3 (λ p k. some (tt, k)) (λ i. none) 3 calling)
unfolding syscalls_table
kernel_brk-returns_example =
    let start = saved (λ s k. some (tt, k)) layout 3 0 calling in
    kernel_brk-returns (λ s k. some (tt, k)) layout 3 (λ p k. some (tt, k)) (λ i. none) 3 0 calling
      start 0x0102 sys_getpid calling-IsInside refl refl
      (getpid_lem (λ s k. some (tt, k)) layout 3 (λ p k. some (tt, k)) (λ i. none) 3 0 calling
        calling-IsInside)
      (record {
        inside = saved-IsInside (λ s k. some (tt, k)) layout 3 0 calling calling-IsInside;
        stack = refl;
        frame = λ offset small. refl;
      })

kernel_brk-getpid_example :
    IsReturned calling
      (cell16 calling 0 pid_offset)
      (kernel_brk (λ s k. some (tt, k)) layout 3 (λ p k. some (tt, k)) (λ i. none) 3 calling)
kernel_brk-getpid_example =
    kernel_brk-getpid (λ s k. some (tt, k)) layout 3 (λ p k. some (tt, k)) (λ i. none) 3 0 calling
      calling-IsInside refl refl
