-- ===== src/Tests/Steps.antt =====
-- The theorems on whole steps of machine/machine.c, with a CPU that stores and loads.
use cpu.Prelude.{ℕ, ◌+◌, ◌/◌, ◌%◌, ◌<◌, ◌≡◌, refl, arith, inl}
use cpu.Machine.Core.{Core, Machine, Reads, Writes, running}
use cpu.Machine.Bus.{read, translate, read_physical}
use cpu.Machine.Bus.Isolation.{Avoids, SameDevices}
use cpu.Machine.Mmu.{fetch}
use cpu.Machine.Mmu.Stacking.{enter}
use cpu.Machine.Opcodes.{valid_opcode}
use cpu.Machine.Step.{cycle}
use cpu.Machine.Step.Access.{Keeps, HasAccess}
use cpu.Machine.Step.Isolated.{stop, go, IsQuiet, cycles-isolated}
use cpu.Tests.Machines.{board, pushes}

-- The context is the program counter. An instruction stores 5 at 0x2000, and goes on.
abbrev pub storing : Core
storing = record {
  Context = ℕ;
  pc = λ c. c % 0x10000;
  p = λ c. 0;
  initial = 0;
  reset = λ S r w c s. (c, (r 0xfffc s).1);
  exec_next = λ S r w c s. (running, c + 1, w 0x2000 5 s);
  irq = λ S r w c s. (c, enter S r w pushes 0xfffe s);
  nmi = λ S r w c s. (c, enter S r w pushes 0xfffa s);
}

enter_keeps :
    (S : Type 0) (r : Reads S) (w : Writes S) (P : S → Type 0) (v : ℕ) (s : S)
    → v + 1 < 0x10000
    → Keeps S r w P
    → P s
    → P (enter S r w pushes v s)
enter_keeps S r w P v s small k h =
    let pushed = w 0x1fb 0 (w 0x1fc 0 (w 0x1fd 0 s)) in
    k.read_keeps (v + 1) (r v pushed).1 small (
      k.read_keeps v pushed (omega arith) (
        k.write_keeps 0x1fb 0 (w 0x1fc 0 (w 0x1fd 0 s)) (omega arith) (omega arith) (
          k.write_keeps 0x1fc 0 (w 0x1fd 0 s) (omega arith) (omega arith)
            (k.write_keeps 0x1fd 0 s (omega arith) (omega arith) h))))

pub storing-HasAccess : HasAccess storing
storing-HasAccess = record {
  pc_lt = λ c. omega arith;
  exec_next_keeps = λ S r w P c s k h. k.write_keeps 0x2000 5 s (omega arith) (omega arith) h;
  reset_keeps = λ S r w P c s k h. k.read_keeps 0xfffc s (omega arith) h;
  irq_keeps = λ S r w P c s k h. enter_keeps S r w P 0xfffe s (omega arith) k h;
  nmi_keeps = λ S r w P c s k h. enter_keeps S r w P 0xfffa s (omega arith) k h;
}

abbrev user : Machine storing
user = record { cpu = 5; board = board }

quiet : IsQuiet storing user
unfolding fetch read read_physical translate valid_opcode
quiet = record { masked = inl refl; no_brk = λ e. omega (arith, e); allowed = refl; calm = refl }

cycles-isolated_example :
    let b = (cycle storing user).1.board in
    SameDevices board b × ((a : ℕ) → Avoids board.mmu (a / 4096) → b.ram a ≡ board.ram a)
cycles-isolated_example =
    cycles-isolated storing storing-HasAccess user (cycle storing user).1
      (λ i small e. omega (arith, e)) (go quiet stop)
