-- ===== src/Machine/Map.antt =====
-- The constants of machine/machine.h: physical addresses, sizes, commands, status and pin values.
-- `status_i` is MCS6502_STATUS_I of machine/MCS6502.h, `unmapped` the -1 of MMU_translate as uint32_t.
use Prim.Native.Nat.{ℕ}

abbrev pub ram_size : ℕ
ram_size = 0x100000

abbrev pub disk_buf : ℕ
disk_buf = 0xfc00

abbrev pub disk_stat : ℕ
disk_stat = 0xfe00

abbrev pub disk_cmd : ℕ
disk_cmd = 0xfe01

abbrev pub disk_lba : ℕ
disk_lba = 0xfe02

abbrev pub uart_tx : ℕ
uart_tx = 0xfe10

abbrev pub uart_rx : ℕ
uart_rx = 0xfe11

abbrev pub uart_stat : ℕ
uart_stat = 0xfe12

abbrev pub mmu_page_table : ℕ
mmu_page_table = 0xfe20

abbrev pub mmu_prev_register : ℕ
mmu_prev_register = 0xfe40

abbrev pub mmu_watchdog_register : ℕ
mmu_watchdog_register = 0xfe41

abbrev pub mmu_cause_register : ℕ
mmu_cause_register = 0xfe42

abbrev pub mmu_va_register_low : ℕ
mmu_va_register_low = 0xfe43

abbrev pub mmu_va_register_high : ℕ
mmu_va_register_high = 0xfe44

abbrev pub timer_latch_low : ℕ
timer_latch_low = 0xfe52

abbrev pub timer_latch_high : ℕ
timer_latch_high = 0xfe53

abbrev pub timer_counter_low : ℕ
timer_counter_low = 0xfe54

abbrev pub timer_counter_high : ℕ
timer_counter_high = 0xfe55

abbrev pub timer_ctrl : ℕ
timer_ctrl = 0xfe56

abbrev pub plic_interrupt_lines : ℕ
plic_interrupt_lines = 0xfe60

abbrev pub rom_enable_register : ℕ
rom_enable_register = 0xfef0

abbrev pub rom_base : ℕ
rom_base = 0xff00

abbrev pub rom_size : ℕ
rom_size = 0x100

abbrev pub disk_sector_size : ℕ
disk_sector_size = 512

abbrev pub disk_latency : ℕ
disk_latency = 200

abbrev pub cpu_per_step : ℕ
cpu_per_step = 100

abbrev pub mmu_page_table_size : ℕ
mmu_page_table_size = 16

abbrev pub mmu_last_segment : ℕ
mmu_last_segment = 15

abbrev pub mmu_frame_invalid : ℕ
mmu_frame_invalid = 0xff

abbrev pub uart_status_rx_ready : ℕ
uart_status_rx_ready = 1

abbrev pub uart_status_tx_ready : ℕ
uart_status_tx_ready = 2

abbrev pub disk_cmd_read : ℕ
disk_cmd_read = 1

abbrev pub disk_cmd_write : ℕ
disk_cmd_write = 2

abbrev pub timer_enable_false : ℕ
timer_enable_false = 0

abbrev pub timer_enable_true : ℕ
timer_enable_true = 1

abbrev pub disk_status_busy : ℕ
disk_status_busy = 1

abbrev pub disk_status_ready : ℕ
disk_status_ready = 2

abbrev pub disk_status_error : ℕ
disk_status_error = 3

abbrev pub plic_pin_timer : ℕ
plic_pin_timer = 1

abbrev pub plic_pin_uart_rx : ℕ
plic_pin_uart_rx = 2

abbrev pub plic_pin_disk : ℕ
plic_pin_disk = 8

abbrev pub mmu_cause_v : ℕ
mmu_cause_v = 1

abbrev pub mmu_cause_invalid_opcode : ℕ
mmu_cause_invalid_opcode = 0x10

abbrev pub mmu_cause_privilege : ℕ
mmu_cause_privilege = 0x20

abbrev pub status_i : ℕ
status_i = 4

abbrev pub unmapped : ℕ
unmapped = 0xffffffff
