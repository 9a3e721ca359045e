-- ===== src/Kernel/Buffer/Search.antt =====
-- buffer_get of kernel/buffer.c finds the block's entry, or the least recently used entry that is free.
use cpu.Prelude.{
  ℕ, zero, suc, ◌+◌, ◌%◌, ◌<◌, ◌≤◌, set_bits, if◌then◌else◌, update, length, Lacks, Lacks-reverse,
  length-reverse, reverse, find_first, ne→==, List, [], ◌∷◌, Bool, false, Option, none, some, ◌≡◌,
  refl, ap, arith,
}
use cpu.Kernel.State.{Kernel, BlockBuffer, Layout}
use cpu.Kernel.Command.{Command}
use cpu.Kernel.Disk.{flag_busy}
use cpu.Kernel.Scheduler.{Switch}
use cpu.Kernel.Buffer.{
  head, cache_size, busy, unused, holds, find, find_block, find_unused, lock, recycle, claim,
  buffer_get,
}
use cpu.Kernel.Buffer.Links.{Linked, Linked-reverse}
use cpu.Kernel.Buffer.Ring.{next_of, prev_of, IsRing}

-- A walk from the successor of `a` to the head.
find_lem :
    (step back : ℕ → ℕ) (test : ℕ → Bool) (n a : ℕ) (xs : List ℕ)
    → Linked step back a xs head
    → Lacks head xs
    → length xs < n
    → find step test n (step a) ≡ find_first test xs
unfolding find
find_lem step back test zero a xs links lacks enough = absurd (omega arith)
find_lem step back test (suc n) a [] links lacks enough = rw links.0
find_lem step back test (suc n) a (x ∷ xs) links lacks enough = rw links.0.0 (
    rw (ne→== x head lacks.0) (
      ap (λ r. if test x then some x else r)
        (find_lem step back test n x xs links.1 lacks.1 (omega arith))))

module _ (k : Kernel) (xs : List ℕ) (drive block_number : ℕ) where
  -- The entry of the block.
  abbrev pub cached : Option ℕ
  cached = find_first (λ b. holds drive block_number (k.buffers b)) xs

  -- The free entry that was used least recently.
  abbrev pub victim : Option ℕ
  victim = find_first (λ b. unused (k.buffers b)) (reverse xs)

  module _ (ring : IsRing k.buffers xs) (small : length xs ≤ cache_size) where
    find_block-cached : find_block k drive block_number ≡ cached
    find_block-cached =
        find_lem (next_of k.buffers) (prev_of k.buffers)
          (λ b. holds drive block_number (k.buffers b)) (cache_size + 1) head xs ring.links
          ring.distinct.0 (omega arith)

    find_unused-victim : find_unused k ≡ victim
    find_unused-victim =
        find_lem (prev_of k.buffers) (next_of k.buffers) (λ b. unused (k.buffers b))
          (cache_size + 1) head (reverse xs)
          (Linked-reverse (next_of k.buffers) (prev_of k.buffers) head xs head ring.links)
          (Lacks-reverse head xs ring.distinct.0) (omega (arith, length-reverse xs))

-- The entry that buffer_get returns, with what it writes to it.
abbrev with_entry : Kernel → ℕ → BlockBuffer → Option (ℕ × Kernel)
with_entry k b v = some (b, record k { buffers = update k.buffers b v })

abbrev pub acquired : Kernel → ℕ → ℕ → Option ℕ → Option ℕ → Option (ℕ × Kernel)
acquired k drive block_number (some b) free = with_entry k b (record (k.buffers b) {
  flags = set_bits (k.buffers b).flags flag_busy;
  refcount = ((k.buffers b).refcount + 1) % 256;
})
acquired k drive block_number none (some b) = with_entry k b (record (k.buffers b) {
  drive = drive;
  block_number = block_number;
  refcount = 1;
  flags = flag_busy;
})
acquired k drive block_number none none = none

module _ (run : Switch → Command (Unit {0})) (l : Layout) where
  claim_lem :
      (k : Kernel) (o r : Option ℕ) (drive block_number : ℕ) (again : Command ℕ)
      → find_unused k ≡ r
      → ((b : ℕ) → o ≡ some b → busy (k.buffers b) ≡ false)
      → claim run l o drive block_number again k ≡ acquired k drive block_number o r
  unfolding claim recycle lock
  claim_lem k none none drive block_number again e ready = rw e
  claim_lem k none (some b) drive block_number again e ready = rw e
  claim_lem k (some b) r drive block_number again e ready = rw (ready b refl)

  -- With the entries `xs` in the ring, of which there are at most CACHE_SIZE, buffer_get ends with the
  -- first entry that holds the block, locked and with one user more; if no entry holds it, with the free
  -- entry nearest to the end, locked and given to the block; and with a panic if there is neither. An
  -- entry that holds the block is not locked.
  pub buffer_get_lem :
      (k : Kernel) (xs : List ℕ) (fuel drive block_number : ℕ)
      → IsRing k.buffers xs
      → length xs ≤ cache_size
      → ((b : ℕ) → cached k xs drive block_number ≡ some b → busy (k.buffers b) ≡ false)
      → buffer_get run l (suc fuel) drive block_number k
        ≡ acquired k drive block_number
            (cached k xs drive block_number)
            (victim k xs drive block_number)
  unfolding buffer_get
  buffer_get_lem k xs fuel drive block_number ring small ready =
      rw (find_block-cached k xs drive block_number ring small) (
        claim_lem k (cached k xs drive block_number) (victim k xs drive block_number) drive
          block_number (buffer_get run l fuel drive block_number)
          (find_unused-victim k xs drive block_number ring small) ready)
