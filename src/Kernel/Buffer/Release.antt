-- ===== src/Kernel/Buffer/Release.antt =====
-- buffer_release of kernel/buffer.c: the waiting processes are woken, and an entry without users moves
-- to the front of the ring.
use cpu.Prelude.{
  ℕ, ◌+◌, ◌%◌, ◌==◌, clear_bits, if◌then◌else◌, update, List, ◌∷◌, ◌++◌, false, some, ◌≡◌,
}
use cpu.Kernel.State.{Kernel, BlockBuffer, Layout, max_proc_count}
use cpu.Kernel.Disk.{flag_busy}
use cpu.Kernel.Wakeup.Woken.{woken}
use cpu.Kernel.Buffer.{busy, buffer_release}
use cpu.Kernel.Buffer.Ring.{Buffers, IsRing, moved}

-- The entry without its lock and with one user less.
abbrev pub unlocked : BlockBuffer → BlockBuffer
unlocked v = record v { flags = clear_bits v.flags flag_busy; refcount = (v.refcount + 255) % 256 }

-- The entries with the one unlocked.
abbrev pub with_unlocked : Buffers → ℕ → Buffers
with_unlocked bs b = update bs b (unlocked (bs b))

-- The ring after the release.
abbrev pub order : BlockBuffer → List ℕ → ℕ → List ℕ → List ℕ
order v xs b ys = if (unlocked v).refcount == 0 then b ∷ xs ++ ys else xs ++ b ∷ ys

abbrev pub released : Kernel → Layout → ℕ → Kernel
released k l b =
    let bs = with_unlocked k.buffers b in
    record k {
      proc_table = woken k (l.buffer_address b) 0 max_proc_count;
      buffers = if (unlocked (k.buffers b)).refcount == 0 then moved bs b else bs;
    }

abbrev pub Released : Kernel → Layout → List ℕ → ℕ → List ℕ → Type 0
Released k l xs b ys =
    (buffer_release l b k ≡ some (tt, released k l b))
    × IsRing (released k l b).buffers (order (k.buffers b) xs b ys)
    × (busy ((released k l b).buffers b) ≡ false)
