-- ===== src/Tests/Kernels.antt =====
-- The theorems on kernel/*.c at a concrete kernel: three processes, of which two sleep on the clock.
use cpu.Prelude.{
  ℕ, ◌+◌, ◌*◌, ◌==◌, if◌then◌else◌, false, ◌≡◌, ◌≢◌, refl, arith, ◌⊎◌, some, none, ◌-◌, [],
}
use cpu.Machine.State.{Board}
use cpu.Kernel.State.{
  Kernel, BlockBuffer, Proc, ProcState, unused, sleeping, runing, RingBuffer, FreeList, Layout,
  max_proc_count,
}
use cpu.Kernel.Mmu.Windows.{IsSynced}
use cpu.Kernel.Wakeup.{wakeup}
use cpu.Kernel.Wakeup.Woken.{HasStacks, woken, wakeup_lem}
use cpu.Kernel.Uart
use cpu.Kernel.Uart.Ring
use cpu.Kernel.Uart.Ring.{contents, held, taken}
use cpu.Kernel.Timer.{tick}
use cpu.Kernel.Timer.Clock.{tick_lem, called}

abbrev pub board : Board
board = record {
  ram = λ a. 0;
  rom = record { rom_enable = 0; contents = λ i. 0 };
  uart = record { tx = 0; rx = 0; status = 2 };
  disk = record {
    file = record { size = 0x10000; byte = λ i. 0 };
    buffer = λ i. 7;
    cmd = 0;
    status = 2;
    lba_low = 3;
    lba_high = 0;
    delay = 0;
  };
  mmu = record {
    page_table = λ i. i;
    prev = 0;
    watchdog = 0;
    cause = 0;
    va = 0;
    opcode = 0;
    in_user = false;
    pending_nmi = false;
  };
  timer = record { ctrl = 1; latch_low = 100; latch_high = 0; counter_low = 2; counter_high = 0 };
  plic = record { interrupts_lines = 0; pending_irq = false };
}

-- The stack of process `p` is frame `p + 20`.
abbrev pub proc : ProcState → ℕ → Proc
proc s p = record { ksp = 0xff; kernel_low_memory = λ i. if i == 0 then p + 20 else i; state = s }

abbrev procs : ℕ → Proc
procs p = if p == 0 then proc runing p else if p == 1 then proc sleeping p else proc unused p

-- The cache with its entries in the order that buffer_init gives them, all free.
abbrev pub buffer : ℕ → BlockBuffer
buffer b = record {
  flags = 0;
  drive = 0;
  refcount = 0;
  block_number = 0;
  next = if b == 0 then 16 else b - 1;
  prev = if b == 16 then 0 else b + 1;
  queue = none;
  frame = 60 + b;
}

abbrev pub kernel : Kernel
kernel = record {
  board = board;
  kernel_page_table = λ i. i;
  free = record { free_frames = λ i. 0; free_top = 0 };
  proc_table = procs;
  current = some 0;
  init_process = some 0;
  next_pid = 4;
  round_robin_index = 0;
  clock = record { systicks = 6; next_wakeup_call = 7 };
  ring = record { buffer = λ i. 0; head = 0; tail = 0 };
  buffers = λ b. buffer b;
  disk_queue = record { head = none; tail = none; sector_offset = 0 };
  super_block = record {
    magic = 0;
    size = 8192;
    block_count = 0;
    inode_count = 1024;
    inode_start = 17;
    bitmap_start = 33;
  };
  trap_frame = record { user_context = λ i. 0; user_page_table = λ i. 255; first = false };
}

abbrev pub layout : Layout
layout = record {
  proc_address = λ p. 0x4000 + 5 * p;
  ring_address = 0x3100;
  systicks_address = 0;
  buffer_address = λ b. 0x5000 + 13 * b;
}

pub kernel-IsSynced : IsSynced kernel
kernel-IsSynced = record {
  registers = refl;
  window_one = refl;
  window_two = refl;
  tracked_one = λ p c. ground arith;
  tracked_two = λ p c. ground arith;
}

kernel-HasStacks : HasStacks kernel
kernel-HasStacks = record { synced = kernel-IsSynced; frame = λ p asleep. ground arith }

wakeup_example :
    wakeup 0 kernel ≡ some (tt, record kernel { proc_table = woken kernel 0 0 max_proc_count })
wakeup_example = wakeup_lem 0 kernel kernel-HasStacks

tick_example : tick layout kernel ≡ some (tt, called layout kernel)
tick_example = tick_lem layout kernel kernel-HasStacks (omega arith)

abbrev ring : RingBuffer
ring = record { buffer = λ i. 9; head = 1; tail = 255 }

abbrev full : RingBuffer
full = record { buffer = λ i. 9; head = 255; tail = 0 }

ring-IsValid : Ring.IsValid ring
ring-IsValid = omega arith

push-full_example :
    ((full.head ≢ 255) × (Uart.push 5 full ≡ full))
    ⊎ ((full.head ≡ 255) × (contents (Uart.push 5 full) ≡ []))
push-full_example = Ring.push-full 5 full (omega arith) (omega arith)

abbrev pool : FreeList
pool = record { free_frames = λ i. i + 40; free_top = 2 }
