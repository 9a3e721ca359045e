-- ===== src/Machine/Step/Ranges.antt =====
-- Machine_step of machine/machine.c keeps every register, byte and latch in the range of its C type.
use cpu.Prelude.{
  ℕ, zero, suc, ◌<◌, ◌==◌, ◌!=◌, Bool, false, ◌&&◌, ◌||◌, not, has, update, if◌then◌else◌, arith,
  inl, inr, Bool-cases,
}
use cpu.Machine.Map.{
  cpu_per_step, status_i, mmu_cause_v, mmu_cause_invalid_opcode, mmu_cause_privilege,
}
use cpu.Machine.State.{Board, Mmu}
use cpu.Machine.Core.{Core, Machine}
use cpu.Machine.Bus.{read, write}
use cpu.Machine.Bus.Ranges.{InRange, MmuInRange, mmu-InRange, read-InRange, read-lt, write-InRange}
use cpu.Machine.Opcodes.{valid_opcode}
use cpu.Machine.Devices.{uart_step, disk_step, timer_step, plic_lower}
use cpu.Machine.Devices.Ranges.{IsKey, uart_step-InRange, disk_step-InRange, timer_step-InRange}
use cpu.Machine.Mmu.{
  fetch, enter_kernel, privileged, intercept, watchdog, access_watchdog, pre_exec, post_exec,
}
use cpu.Machine.Step.{Event, cycle, cycles_left, cpu_step, machine_step}
use cpu.Machine.Step.Access.{Keeps, HasAccess}

keeps : Keeps Board read write InRange
keeps = record {
  read_keeps = λ a b small h. read-InRange a b small h;
  write_keeps = λ a v b small byte h. write-InRange a b small h v byte;
}

fetch-InRange : (pc : ℕ) (b : Board) → pc < 0x10000 → InRange b → InRange (fetch pc b)
unfolding fetch
fetch-InRange pc b small h =
    let h' = read-InRange pc b small h in
    mmu-InRange (read pc b).1
      (record ((read pc b).1.mmu) {
        opcode = (read pc b).0;
        in_user = (read pc b).1.mmu.page_table 15 != 15;
      })
      h'
      (record {
        page_table = h'.mmu.page_table;
        prev = h'.mmu.prev;
        watchdog = h'.mmu.watchdog;
        cause = h'.mmu.cause;
        va = h'.mmu.va;
        opcode = read-lt pc b small h;
      })

enter_kernel-InRange : (m : Mmu) → MmuInRange m → MmuInRange (enter_kernel m)
enter_kernel-InRange m h = record {
  page_table = λ i small. ground (arith, h.page_table i small);
  prev = h.page_table 15 (omega arith);
  watchdog = h.watchdog;
  cause = h.cause;
  va = h.va;
  opcode = h.opcode;
}

-- What the watchdogs latch before they enter the kernel.
caught-InRange :
    (m : Mmu) (opcode cause : ℕ) (pending : Bool)
    → opcode < 256
    → cause < 256
    → MmuInRange m
    → MmuInRange (record m { watchdog = opcode; cause = cause; pending_nmi = pending })
caught-InRange m opcode cause pending byte small h = record {
  page_table = h.page_table;
  prev = h.prev;
  watchdog = byte;
  cause = small;
  va = h.va;
  opcode = h.opcode;
}

post_exec-InRange : (b : Board) → InRange b → InRange (post_exec b)
unfolding post_exec
post_exec-InRange b h = elim (Bool-cases (b.mmu.opcode == 0x40 && not b.mmu.in_user)) [
  | inl e ↦ rw e (
      mmu-InRange b (record (b.mmu) { page_table = update b.mmu.page_table 15 b.mmu.prev }) h
        (record {
          page_table = λ i small. ground (arith, h.mmu.page_table i small, h.mmu.prev);
          prev = h.mmu.prev;
          watchdog = h.mmu.watchdog;
          cause = h.mmu.cause;
          va = h.mmu.va;
          opcode = h.mmu.opcode;
        }))
  | inr e ↦ rw e h
]

module _ (core : Core) (access : HasAccess core) where
  intercept-InRange : (m : Machine core) → InRange m.board → InRange (intercept core m).board
  unfolding intercept plic_lower
  intercept-InRange m h =
      let b = m.board in
      let entered = mmu-InRange b (enter_kernel b.mmu) h (enter_kernel-InRange b.mmu h.mmu) in
      let trapped = record b { mmu = enter_kernel b.mmu; plic = plic_lower b.plic } in
      let lowered : InRange trapped = record {
        ram = h.ram;
        rom = h.rom;
        uart = h.uart;
        disk = h.disk;
        mmu = entered.mmu;
        timer = h.timer;
        lines = h.lines;
      } in
      elim (Bool-cases (b.plic.pending_irq && not (has (core.p m.cpu) status_i))) [
        | inl e ↦ rw e (access.irq_keeps Board read write InRange m.cpu trapped keeps lowered)
        | inr e ↦ elim (Bool-cases (b.mmu.opcode == 0)) [
          | inl z ↦ rw (e, z) entered
          | inr z ↦ rw (e, z) h
        ]
      ]

  nmi-InRange :
      (m : Machine core) (mmu : Mmu)
      → InRange m.board
      → MmuInRange mmu
      → InRange (core.nmi Board read write m.cpu (record (m.board) { mmu = enter_kernel mmu })).1
  nmi-InRange m mmu h caught =
      access.nmi_keeps Board read write InRange m.cpu (record (m.board) { mmu = enter_kernel mmu })
        keeps (mmu-InRange m.board (enter_kernel mmu) h (enter_kernel-InRange mmu caught))

  watchdog-InRange : (m : Machine core) → InRange m.board → InRange (watchdog core m).board
  unfolding watchdog
  watchdog-InRange m h =
      let mmu = m.board.mmu in
      let cause =
        if valid_opcode mmu.opcode then mmu_cause_privilege else mmu_cause_invalid_opcode in
      elim (Bool-cases (mmu.in_user && (privileged mmu.opcode || not (valid_opcode mmu.opcode)))) [
        | inl e ↦ rw e (
            nmi-InRange m (record mmu { watchdog = mmu.opcode; cause = cause }) h
              (caught-InRange mmu mmu.opcode cause mmu.pending_nmi h.mmu.opcode (ground arith)
                h.mmu))
        | inr e ↦ rw e h
      ]

  access_watchdog-InRange :
      (m : Machine core) → InRange m.board → InRange (access_watchdog core m).board
  unfolding access_watchdog
  access_watchdog-InRange m h =
      let mmu = m.board.mmu in
      elim (Bool-cases mmu.pending_nmi) [
        | inl e ↦ rw e (
            nmi-InRange m (record mmu { cause = mmu_cause_v; pending_nmi = false }) h
              (caught-InRange mmu mmu.watchdog mmu_cause_v false h.mmu.watchdog (omega arith)
                h.mmu))
        | inr e ↦ simp e h
      ]

  pre_exec-InRange : (m : Machine core) → InRange m.board → InRange (pre_exec core m).board
  unfolding pre_exec
  pre_exec-InRange m h =
      let fetched : Machine core = record m { board = fetch (core.pc m.cpu) m.board } in
      let taken = intercept core fetched in
      access_watchdog-InRange (watchdog core taken) (
        watchdog-InRange taken (
          intercept-InRange fetched (fetch-InRange (core.pc m.cpu) m.board (access.pc_lt m.cpu) h)))

  cycle-InRange : (m : Machine core) → InRange m.board → InRange (cycle core m).1.board
  unfolding cycle
  cycle-InRange m h =
      let prepared = pre_exec core m in
      post_exec-InRange (core.exec_next Board read write prepared.cpu prepared.board).2 (
        access.exec_next_keeps Board read write InRange prepared.cpu prepared.board keeps
          (pre_exec-InRange m h))

  cycles_left-InRange :
      (n : ℕ) (m : Machine core) → InRange m.board → InRange (cycles_left core n m).1.board
  unfolding cycles_left
  cycles_left-InRange zero m h = h
  cycles_left-InRange (suc n) m h = elim (Bool-cases (cycle core m).0) [
    | inl e ↦ rw e (cycles_left-InRange n (cycle core m).1 (cycle-InRange m h))
    | inr e ↦ rw e (cycle-InRange m h)
  ]

  cpu_step-InRange : (m : Machine core) → InRange m.board → InRange (cpu_step core m).1.board
  unfolding cpu_step
  cpu_step-InRange m h = cycles_left-InRange cpu_per_step m h

  -- Where every byte of RAM, ROM, disk image and sector buffer and every 8-bit register is below 256, the
  -- latched virtual address below 0x10000 and the disk's delay below 2 ^ 32, and a key, if one was typed,
  -- is a byte, all of this holds after a step of the machine too, whether it goes on, meets an invalid
  -- opcode or switches the computer off. The CPU emulator reaches the computer only through its callbacks,
  -- with 16-bit addresses and bytes.
  pub machine_step-InRange :
      (e : Event) (m : Machine core)
      → IsKey e.key
      → InRange m.board
      → InRange (machine_step core e m).2.board
  unfolding machine_step
  machine_step-InRange e m key h =
      let (on, shown, b) = uart_step e.key m.board in
      let after_uart : InRange b = uart_step-InRange e.key m.board key h in
      let (_, b') = disk_step e.written b in
      let after_devices = timer_step-InRange b' (disk_step-InRange e.written b after_uart) in
      elim (Bool-cases on) [
        | inl y ↦ rw y (cpu_step-InRange (record m { board = timer_step b' }) after_devices)
        | inr y ↦ rw y after_uart
      ]
