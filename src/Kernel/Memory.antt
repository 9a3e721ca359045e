-- ===== src/Kernel/Memory.antt =====
-- Loops over bytes that are reached through the bus: memset, and the loops of kernel/proc.c that copy
-- through a window.
pub mod Filled
pub mod Moved
use cpu.Prelude.{ℕ, zero, suc, ◌+◌, ltb, some, update}
use cpu.Kernel.State.{Kernel}
use cpu.Kernel.Command.{Command, choose, load, ◌>>=◌, ◌>>◌, store}

-- memset of `n` bytes from the address `a` on.
unfoldable pub fill : ℕ → ℕ → ℕ → Command (Unit {0})
fill zero a v k = some (tt, k)
fill (suc n) a v k = (do store a v; fill n (a + 1) v) k

-- memcpy of `n` bytes from the address `a` on to an array, from the index `i` on.
unfoldable pub read_bytes : ℕ → ℕ → ℕ → (ℕ → ℕ) → Command (ℕ → ℕ)
read_bytes zero a i dst k = some (dst, k)
read_bytes (suc n) a i dst k = (do v ← load a; read_bytes n (a + 1) (i + 1) (update dst i v)) k

-- memcpy of `n` bytes of an array, from the index `i` on, to the address `a`.
unfoldable pub write_bytes : ℕ → ℕ → ℕ → (ℕ → ℕ) → Command (Unit {0})
write_bytes zero a i src k = some (tt, k)
write_bytes (suc n) a i src k = (do store a (src i); write_bytes n (a + 1) (i + 1) src) k

-- The two loops of memmove over addresses.
unfoldable pub copy_up : ℕ → ℕ → ℕ → Command (Unit {0})
copy_up zero dst src k = some (tt, k)
copy_up (suc n) dst src k = (do v ← load src; store dst v; copy_up n (dst + 1) (src + 1)) k

unfoldable pub copy_down : ℕ → ℕ → ℕ → Command (Unit {0})
copy_down zero dst src k = some (tt, k)
copy_down (suc n) dst src k = (do v ← load (src + n); store (dst + n) v; copy_down n dst src) k

-- memcpy between two addresses, of fewer than 0x8000 bytes.
unfoldable pub memcpy : ℕ → ℕ → ℕ → Command (Unit {0})
memcpy dst src n = choose (ltb dst src) (copy_up n dst src) (copy_down n dst src)
