-- ===== src/Machine/Step/Isolated.antt =====
-- An instruction of a user program, from MMU_pre_exec to MMU_post_exec, reaches no device and no memory
-- of others.
use cpu.Prelude.{
  ℕ, ◌/◌, ◌<◌, ◌==◌, ◌!=◌, has, not, Bool, ◌&&◌, ◌||◌, true, false, ◌≡◌, ◌≢◌, ◌⊎◌, refl, sym, ap,
  ◌∙◌, arith, inl, inr, Bool-cases,
}
use mathlib.Core.Path.{subst}
use cpu.Machine.Map.{status_i, unmapped}
use cpu.Machine.State.{Board}
use cpu.Machine.Core.{Core, Machine}
use cpu.Machine.Bus.{translate, read, write}
use cpu.Machine.Bus.Ram.{physical}
use cpu.Machine.Bus.Isolation.{
  Avoids, SameDevices, Outcome, faulted as fault, stored, dropped, write-Outcome, avoids-IsClear,
  write-isolated, read_physical-clear,
}
use cpu.Machine.Opcodes.{valid_opcode}
use cpu.Machine.Mmu.{fetch, privileged, post_exec}
use cpu.Machine.Mmu.Traps.{in_user-fetch}
use cpu.Machine.Mmu.Interrupts.{pre_exec-allowed}
use cpu.Machine.Step.{cycle}
use cpu.Machine.Step.Access.{Keeps, HasAccess}

-- Devices, page table and the memory of others are those of `b`.
pub record Untouched (b b' : Board) : Type 0 where
  pub devices : SameDevices b b'
  pub memory : (a : ℕ) → Avoids b.mmu (a / 4096) → b'.ram a ≡ b.ram a

same_devices : (b : Board) → SameDevices b b
same_devices b = record {
  rom = refl;
  uart = refl;
  disk = refl;
  timer = refl;
  plic = refl;
  page_table = refl;
  prev = refl;
  cause = refl;
}

trans-SameDevices : {a b c : Board} → SameDevices a b → SameDevices b c → SameDevices a c
trans-SameDevices p q = record {
  rom = q.rom ∙ p.rom;
  uart = q.uart ∙ p.uart;
  disk = q.disk ∙ p.disk;
  timer = q.timer ∙ p.timer;
  plic = q.plic ∙ p.plic;
  page_table = q.page_table ∙ p.page_table;
  prev = q.prev ∙ p.prev;
  cause = q.cause ∙ p.cause;
}

avoids : {b b' : Board} (f : ℕ) → SameDevices b b' → Avoids b.mmu f → Avoids b'.mmu f
avoids f same h i small e = h i small (ap (λ t. t i) (sym same.page_table) ∙ e)

trans-Untouched : {a b c : Board} → Untouched a b → Untouched b c → Untouched a c
trans-Untouched p q = record {
  devices = trans-SameDevices p.devices q.devices;
  memory = λ a free. q.memory a (avoids (a / 4096) p.devices free) ∙ p.memory a free;
}

abbrev faulted : Board → ℕ → Board
faulted b a = record b { mmu = record (b.mmu) { va = a; pending_nmi = true } }

-- A read off the registers changes nothing but the fault latches.
read-cases :
    (b : Board) (a : ℕ)
    → a < 0x10000
    → Avoids b.mmu 15
    → ((read a b).1 ≡ b) ⊎ ((read a b).1 ≡ faulted b a)
unfolding read translate
read-cases b a small h = elim (Bool-cases (b.mmu.page_table (a / 4096) == 0xff)) [
  | inl e ↦ inr (rw (e, read_physical-clear unmapped (faulted b a) (omega arith)) refl)
  | inr e ↦ inl (
      rw
        (
          e,
          read_physical-clear (physical b.mmu a) b
              (λ q. h (a / 4096) (omega arith) (omega (arith, q))),
        )
        refl)
]

-- What a user program keeps: others' memory, the devices, and that it is one.
pub record InUser (b b' : Board) : Type 0 where
  pub untouched : Untouched b b'
  pub in_user : b'.mmu.in_user ≡ b.mmu.in_user
  pub opcode : b'.mmu.opcode ≡ b.mmu.opcode

unmoved : (b : Board) → Untouched b b
unmoved b = record { devices = same_devices b; memory = λ a free. refl }

stay : (b : Board) → InUser b b
stay b = record { untouched = unmoved b; in_user = refl; opcode = refl }

trans : {a b c : Board} → InUser a b → InUser b c → InUser a c
trans p q = record {
  untouched = trans-Untouched p.untouched q.untouched;
  in_user = q.in_user ∙ p.in_user;
  opcode = q.opcode ∙ p.opcode;
}

fault-InUser : (b : Board) (a : ℕ) → InUser b (faulted b a)
fault-InUser b a = record {
  untouched = record {
    devices = record {
      rom = refl;
      uart = refl;
      disk = refl;
      timer = refl;
      plic = refl;
      page_table = refl;
      prev = refl;
      cause = refl;
    };
    memory = λ j free. refl;
  };
  in_user = refl;
  opcode = refl;
}

read-InUser : (b : Board) (a : ℕ) → a < 0x10000 → Avoids b.mmu 15 → InUser b (read a b).1
read-InUser b a small h = elim (read-cases b a small h) [
  | inl e ↦ subst (InUser b) (sym e) (stay b)
  | inr e ↦ subst (InUser b) (sym e) (fault-InUser b a)
]

Outcome-latches :
    {b : Board} {va v : ℕ} {b' : Board}
    → Outcome b va v b'
    → (b'.mmu.in_user ≡ b.mmu.in_user) × (b'.mmu.opcode ≡ b.mmu.opcode)
Outcome-latches (fault _) = (refl, refl)
Outcome-latches stored = (refl, refl)
Outcome-latches dropped = (refl, refl)

write-InUser : (b : Board) (a v : ℕ) → a < 0x10000 → Avoids b.mmu 15 → InUser b (write a v b)
write-InUser b a v small h =
    let isolated = write-isolated b a v small h in
    let latches =
      Outcome-latches (write-Outcome b a v (avoids-IsClear b.mmu a (h (a / 4096) (omega arith)))) in
    record {
      untouched = record { devices = isolated.0; memory = isolated.1 };
      in_user = latches.0;
      opcode = latches.1;
    }

-- The callbacks keep it.
keeps : (b : Board) → Avoids b.mmu 15 → Keeps Board read write (InUser b)
keeps b h = record {
  read_keeps = λ a s small p. trans p (read-InUser s a small (avoids 15 p.untouched.devices h));
  write_keeps =
      λ a v s small byte p. trans p (write-InUser s a v small (avoids 15 p.untouched.devices h));
}

post_exec-user : (b : Board) → b.mmu.in_user ≡ true → post_exec b ≡ b
unfolding post_exec
post_exec-user b user = ground (arith, user)

fetch-Untouched : (b : Board) (pc : ℕ) → pc < 0x10000 → Avoids b.mmu 15 → Untouched b (fetch pc b)
unfolding fetch
fetch-Untouched b pc small h =
    let fetched = (read-InUser b pc small h).untouched in
    record {
      devices = record {
        rom = fetched.devices.rom;
        uart = fetched.devices.uart;
        disk = fetched.devices.disk;
        timer = fetched.devices.timer;
        plic = fetched.devices.plic;
        page_table = fetched.devices.page_table;
        prev = fetched.devices.prev;
        cause = fetched.devices.cause;
      };
      memory = fetched.memory;
    }

no_trap : (a c : Bool) → c ≡ false → (a && c) ≡ false
no_trap a c h = ground (arith, h)

-- No trap at the next instruction: no interrupt is taken, the opcode is neither BRK nor forbidden in user
-- space, and no violation is pending.
pub record IsQuiet (core : Core) (m : Machine core) : Type 0 where
  pub masked :
      ((fetch (core.pc m.cpu) m.board).plic.pending_irq ≡ false)
      ⊎ (has (core.p m.cpu) status_i ≡ true)
  pub no_brk : (fetch (core.pc m.cpu) m.board).mmu.opcode ≢ 0
  pub allowed :
      let op = (fetch (core.pc m.cpu) m.board).mmu.opcode in
      (privileged op || not (valid_opcode op)) ≡ false
  pub calm : (fetch (core.pc m.cpu) m.board).mmu.pending_nmi ≡ false

-- The instructions up to the next trap.
pub data Runs (core : Core) : Machine core → Machine core → Type 0 where
  stop : {m : Machine core} → Runs core m m
  go : {m m' : Machine core} → IsQuiet core m → Runs core (cycle core m).1 m' → Runs core m m'

module _ (core : Core) (access : HasAccess core) where
  cycle-Untouched :
      (m : Machine core)
      → Avoids m.board.mmu 15
      → IsQuiet core m
      → Untouched m.board (cycle core m).1.board
  unfolding cycle
  cycle-Untouched m h quiet =
      let b = fetch (core.pc m.cpu) m.board in
      let begun = fetch-Untouched m.board (core.pc m.cpu) (access.pc_lt m.cpu) h in
      let prepared =
        pre_exec-allowed core m quiet.masked quiet.no_brk
          (no_trap b.mmu.in_user (privileged b.mmu.opcode || not (valid_opcode b.mmu.opcode))
            quiet.allowed)
          quiet.calm in
      let run =
        access.exec_next_keeps Board read write (InUser b) m.cpu b
          (keeps b (avoids 15 begun.devices h)) (stay b) in
      let user : (m.board.mmu.page_table 15 != 15) ≡ true = ground (arith, h 15 (omega arith)) in
      rw prepared (
        rw
          (post_exec-user (core.exec_next Board read write m.cpu b).2
            (run.in_user ∙ in_user-fetch (core.pc m.cpu) m.board ∙ user))
          (trans-Untouched begun run.untouched))

  cycles-Untouched :
      (m m' : Machine core) → Avoids m.board.mmu 15 → Runs core m m' → Untouched m.board m'.board
  cycles-Untouched m m' h stop = unmoved m.board
  cycles-Untouched m m' h (go quiet rest) =
      let one = cycle-Untouched m h quiet in
      trans-Untouched one (cycles-Untouched (cycle core m).1 m' (avoids 15 one.devices h) rest)

  -- A user program none of whose sixteen pages is frame 15 changes, by any number of instructions up to
  -- the next trap, neither a device register, the page table, `prev` or `cause` nor a byte of memory whose
  -- frame is in none of its pages. At each instruction no interrupt is taken, the opcode is neither BRK nor
  -- forbidden in user space, and no violation is pending. The CPU emulator reaches the computer only
  -- through its callbacks, with 16-bit addresses and bytes.
  pub cycles-isolated :
      (m m' : Machine core)
      → Avoids m.board.mmu 15
      → Runs core m m'
      → SameDevices m.board m'.board
        × ((a : ℕ) → Avoids m.board.mmu (a / 4096) → m'.board.ram a ≡ m.board.ram a)
  cycles-isolated m m' h run = let u = cycles-Untouched m m' h run in (u.devices, u.memory)
