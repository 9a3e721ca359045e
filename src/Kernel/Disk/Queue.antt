-- ===== src/Kernel/Disk/Queue.antt =====
-- The queue of kernel/disk.c is first in, first out.
use cpu.Prelude.{
  Lacks, Distinct, last, Lacks-last, last-append, Distinct-append, holds_below, holds_below-at, ◌<◌,
  ◌&&◌, not, ℕ, has, set_bits, clear_bits, update, update_ne, update_self, Bool, true, false,
  Option, none, some, List, [], ◌∷◌, ◌++◌, ◌≡◌, ◌≢◌, refl, sym, ap, ◌∙◌, arith,
}
use cpu.Kernel.State.{Kernel, BlockBuffer}
use cpu.Kernel.Command.{and_then}
use cpu.Kernel.Disk.{set_tail, append, finish_block, insert, link, flag_valid, flag_dirty}

-- The buffers that follow a pointer by their queue links.
abbrev pub Chain : (ℕ → BlockBuffer) → Option ℕ → List ℕ → Type 0
Chain bs h [] = h ≡ none
Chain bs h (b ∷ xs) = (h ≡ some b) × Chain bs (bs b).queue xs

-- The tail points to the last buffer, if there is one.
abbrev pub Ends : Option ℕ → List ℕ → Type 0
Ends t [] = Unit
Ends t (x ∷ xs) = t ≡ some (last x xs)

-- The kernel's queue holds these buffers, the next one first.
pub record IsQueue (k : Kernel) (xs : List ℕ) : Type 0 where
  pub chain : Chain k.buffers k.disk_queue.head xs
  pub ends : Ends k.disk_queue.tail xs
  pub distinct : Distinct xs

-- A change of a buffer outside a chain leaves the chain.
Chain-update :
    (bs : ℕ → BlockBuffer) (b : ℕ) (v : BlockBuffer) (h : Option ℕ) (xs : List ℕ)
    → Lacks b xs
    → Chain bs h xs
    → Chain (update bs b v) h xs
Chain-update bs b v h [] lacks chain = chain
Chain-update bs b v h (x ∷ xs) lacks chain =
    (chain.0, rw (update_ne bs b x v lacks.0) (Chain-update bs b v (bs x).queue xs lacks.1 chain.1))

abbrev cleared : BlockBuffer → BlockBuffer
cleared v = record v { queue = none }

-- The buffers after `b` has been linked behind `t`.
abbrev linked : (ℕ → BlockBuffer) → ℕ → ℕ → ℕ → BlockBuffer
linked bs b t =
    let bs' = update bs b (cleared (bs b)) in update bs' t (record (bs' t) { queue = some b })

linked-end :
    (bs : ℕ → BlockBuffer) (b t : ℕ)
    → t ≢ b
    → Chain (linked bs b t) (linked bs b t t).queue (b ∷ [])
linked-end bs b t other =
    let bs' = update bs b (cleared (bs b)) in
    let v : BlockBuffer = record (bs' t) { queue = some b } in
    (
      ap (λ w. w.queue) (update_self bs' t v),
      ap (λ w. w.queue)
          (update_ne bs' t b v (λ e. other (sym e)) ∙ update_self bs b (cleared (bs b))),
    )

linked-other : (bs : ℕ → BlockBuffer) (b t x : ℕ) → x ≢ t → x ≢ b → linked bs b t x ≡ bs x
linked-other bs b t x not_t not_b =
    let bs' = update bs b (cleared (bs b)) in
    update_ne bs' t x (record (bs' t) { queue = some b }) not_t
    ∙ update_ne bs b x (cleared (bs b)) not_b

Chain-linked :
    (bs : ℕ → BlockBuffer) (b : ℕ) (h : Option ℕ) (x : ℕ) (xs : List ℕ)
    → Chain bs h (x ∷ xs)
    → Distinct (x ∷ xs)
    → Lacks b (x ∷ xs)
    → Chain (linked bs b (last x xs)) h (x ∷ xs ++ b ∷ [])
Chain-linked bs b h x [] chain distinct lacks = (chain.0, linked-end bs b x lacks.0)
Chain-linked bs b h x (y ∷ ys) chain distinct lacks =
    let same : linked bs b (last y ys) x ≡ bs x =
      linked-other bs b (last y ys) x (λ e. Lacks-last x y ys distinct.0 (sym e)) lacks.0 in
    (chain.0, rw same (Chain-linked bs b (bs x).queue y ys chain.1 distinct.1 lacks.1))

abbrev with_cleared : Kernel → ℕ → Kernel
with_cleared k b = record k { buffers = update k.buffers b (cleared (k.buffers b)) }

abbrev pub Appended : Kernel → ℕ → List ℕ → Type 0
Appended k b xs = (k' : Kernel) × (append b k ≡ some (tt, k')) × IsQueue k' (xs ++ b ∷ [])

-- A buffer that is not in the queue is put at its end, and the others stay in their order.
pub append_lem : (k : Kernel) (b : ℕ) (xs : List ℕ) → IsQueue k xs → Lacks b xs → Appended k b xs
unfolding append
append_lem k b [] q lacks = (
  record k {
    buffers = update k.buffers b (cleared (k.buffers b));
    disk_queue = record (k.disk_queue) { head = some b; tail = some b };
  },
  ap (λ h. and_then (insert h b (with_cleared k b)) (λ _. set_tail (some b))) q.chain,
  record {
    chain = (refl, ap (λ w. w.queue) (update_self k.buffers b (cleared (k.buffers b))));
    ends = refl;
    distinct = (tt, tt);
  },
)
append_lem k b (x ∷ xs) q lacks = (
  record k {
    buffers = linked k.buffers b (last x xs);
    disk_queue = record (k.disk_queue) { tail = some b };
  },
  ap (λ h. and_then (insert h b (with_cleared k b)) (λ _. set_tail (some b))) q.chain.0
      ∙ ap (λ t. and_then (link t b (with_cleared k b)) (λ _. set_tail (some b))) q.ends,
  record {
    chain = Chain-linked k.buffers b k.disk_queue.head x xs q.chain q.distinct lacks;
    ends = ap some (sym (last-append x xs b));
    distinct = Distinct-append (x ∷ xs) b q.distinct lacks;
  },
)

-- What finish_block leaves: the rest of the queue, and a buffer that is valid and not dirty.
abbrev pub Finished : Kernel → ℕ → List ℕ → Type 0
Finished k b xs =
    (k' : Kernel) × (finish_block b k ≡ some (tt, k'))
    × IsQueue k' xs
    × (has (k'.buffers b).flags flag_valid ≡ true)
    × (has (k'.buffers b).flags flag_dirty ≡ false)

abbrev finished_flags : ℕ → ℕ
finished_flags f = clear_bits (set_bits f flag_valid) flag_dirty

flags_table :
    holds_below
      (λ f. has (finished_flags f) flag_valid && not (has (finished_flags f) flag_dirty))
      256
    ≡ true
unfolding holds_below
flags_table = refl

both : (a b : Bool) → (a && not b) ≡ true → (a ≡ true) × (b ≡ false)
both a b h = ground (arith, h)

flags_at :
    (f : ℕ)
    → f < 256
    → (has (finished_flags f) flag_valid ≡ true) × (has (finished_flags f) flag_dirty ≡ false)
flags_at f byte = both (has (finished_flags f) flag_valid) (has (finished_flags f) flag_dirty) (
    holds_below-at
      (λ f. has (finished_flags f) flag_valid && not (has (finished_flags f) flag_dirty)) 256 f byte
      flags_table)

Ends-tail : (t : Option ℕ) (b : ℕ) (xs : List ℕ) → Ends t (b ∷ xs) → Ends t xs
Ends-tail t b [] ends = tt
Ends-tail t b (y ∷ ys) ends = ends

-- When the first buffer of the queue is done, it is valid and not dirty, and the queue holds the others in
-- their order. Its flags are a byte.
pub finish_block_lem :
    (k : Kernel) (b : ℕ) (xs : List ℕ)
    → IsQueue k (b ∷ xs)
    → (k.buffers b).flags < 256
    → Finished k b xs
unfolding finish_block
finish_block_lem k b xs q byte =
    let f = finished_flags (k.buffers b).flags in
    let v : BlockBuffer = record (k.buffers b) { flags = f } in
    let flags = flags_at (k.buffers b).flags byte in
    let here = ap (λ w. w.flags) (update_self k.buffers b v) in
    (
      record k {
        buffers = update k.buffers b v;
        disk_queue = record (k.disk_queue) { head = (k.buffers b).queue };
      },
      refl,
      record {
        chain = Chain-update k.buffers b v (k.buffers b).queue xs q.distinct.0 q.chain.1;
        ends = Ends-tail k.disk_queue.tail b xs q.ends;
        distinct = q.distinct.1;
      },
      rw here flags.0,
      rw here flags.1,
    )
