-- ===== src/Kernel/State.antt =====
-- The global variables of kernel/*.c as one record, with the board that the kernel runs on. A
-- `Proc*` is the index of its entry in proc_table, and NULL is `none`. What lies in the kernel stack
-- frame of a process (its PCB) is in the board's memory.
use cpu.Prelude.{ℕ, Bool, Option, ◌==◌}
use cpu.Machine.State.{Board}

-- Proc_State of kernel/common.h
pub data ProcState : Type 0 where
  unused building new ready runing sleeping zombie : ProcState

abbrev pub code : ProcState → ℕ
code unused = 0
code building = 1
code new = 2
code ready = 3
code runing = 4
code sleeping = 5
code zombie = 6

-- `p->state == s`
abbrev pub is : ProcState → ProcState → Bool
is s t = code s == code t

-- Proc of kernel/common.h
pub record Proc : Type 0 where
  pub ksp : ℕ
  pub kernel_low_memory : ℕ → ℕ
  pub state : ProcState

-- Ring_Buffer of kernel/uart.c
pub record RingBuffer : Type 0 where
  pub buffer : ℕ → ℕ
  pub head : ℕ
  pub tail : ℕ

-- The static free list of kernel/kalloc.c
pub record FreeList : Type 0 where
  pub free_frames : ℕ → ℕ
  pub free_top : ℕ

-- The counters of kernel/timer.c
pub record Clock : Type 0 where
  pub systicks : ℕ
  pub next_wakeup_call : ℕ

-- Block_Buffer of kernel/common.h. A `Block_Buffer*` is the index of the entry in buffer_cache.buffers,
-- and CACHE_SIZE stands for buffer_cache.head; NULL is `none` in the queue of the disk.
pub record BlockBuffer : Type 0 where
  pub flags : ℕ
  pub drive : ℕ
  pub refcount : ℕ
  pub block_number : ℕ
  pub next : ℕ
  pub prev : ℕ
  pub queue : Option ℕ
  pub frame : ℕ

-- The static Disk of kernel/disk.c
pub record DiskQueue : Type 0 where
  pub head : Option ℕ
  pub tail : Option ℕ
  pub sector_offset : ℕ

-- Super_Block of kernel/common.h
pub record SuperBlock : Type 0 where
  pub magic : ℕ
  pub size : ℕ
  pub block_count : ℕ
  pub inode_count : ℕ
  pub inode_start : ℕ
  pub bitmap_start : ℕ

-- The trap frame of kernel/trampoline.s, and the static `first` of kernel/trap.c
pub record TrapFrame : Type 0 where
  pub user_context : ℕ → ℕ
  pub user_page_table : ℕ → ℕ
  pub first : Bool

pub record Kernel : Type 0 where
  pub board : Board
  pub kernel_page_table : ℕ → ℕ
  pub free : FreeList
  pub proc_table : ℕ → Proc
  pub current : Option ℕ
  pub init_process : Option ℕ
  pub next_pid : ℕ
  pub round_robin_index : ℕ
  pub clock : Clock
  pub ring : RingBuffer
  pub buffers : ℕ → BlockBuffer
  pub disk_queue : DiskQueue
  pub super_block : SuperBlock
  pub trap_frame : TrapFrame

abbrev pub max_proc_count : ℕ
max_proc_count = 512

abbrev pub page_table_size : ℕ
page_table_size = 16

abbrev pub frame_unused : ℕ
frame_unused = 0xff

abbrev pub window_one : ℕ
window_one = 0x1000

abbrev pub window_two : ℕ
window_two = 0x2000

-- The addresses that the linker gives to variables of the kernel whose address the code uses.
pub record Layout : Type 0 where
  pub proc_address : ℕ → ℕ
  pub ring_address : ℕ
  pub systicks_address : ℕ
  pub buffer_address : ℕ → ℕ
