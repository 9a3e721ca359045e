-- ===== src/Kernel/Buffer/Start.antt =====
-- buffer_init of kernel/buffer.c links all the entries in a ring.
use cpu.Prelude.{
  ℕ, zero, suc, ◌+◌, ◌-◌, ◌<◌, ◌≤◌, update, update_self, Lacks, List, [], ◌∷◌, Option, some, ◌≡◌,
  ◌≢◌, refl, ap, ◌∙◌, arith, ne→==,
}
use cpu.Kernel.State.{Kernel, frame_unused}
use cpu.Kernel.Buffer.{head, cache_size, link_buffers, buffer_init}
use cpu.Kernel.Buffer.Ring.{IsRing, update-IsRing, inserted, inserted-IsRing}

-- All the entries are below `b`.
abbrev Under : ℕ → List ℕ → Type 0
Under b [] = Unit
Under b (x ∷ xs) = (x < b) × Under b xs

Under-suc : (b : ℕ) (xs : List ℕ) → Under b xs → Under (b + 1) xs
Under-suc b [] under = tt
Under-suc b (x ∷ xs) under = (omega (arith, under.0), Under-suc b xs under.1)

Under-Lacks : (b : ℕ) (xs : List ℕ) → Under b xs → Lacks b xs
Under-Lacks b [] under = tt
Under-Lacks b (x ∷ xs) under = (λ e. omega (arith, under.0, e), Under-Lacks b xs under.1)

-- `b`, `b + 1`, … put in front one after the other.
abbrev pub in_front : ℕ → ℕ → List ℕ → List ℕ
in_front zero b xs = xs
in_front (suc n) b xs = in_front n (b + 1) (b ∷ xs)

-- The pool has `n` frames, and none of the next `n` is FRAME_UNUSED.
pub record HasFrames (k : Kernel) (n : ℕ) : Type 0 where
  pub enough : n ≤ k.free.free_top
  pub used :
      (j : ℕ) → j < k.free.free_top → k.free.free_top ≤ j + n → k.free.free_frames j ≢ frame_unused

-- What a round of the loop leaves.
abbrev next_frame : Kernel → ℕ
next_frame k = k.free.free_frames (k.free.free_top - 1)

abbrev given : Kernel → ℕ → Kernel
given k b =
    let bs = inserted k.buffers b in
    record k {
      free = record (k.free) { free_top = k.free.free_top - 1 };
      buffers = update bs b (record (bs b) { frame = next_frame k });
    }

link_buffers-step :
    (n b : ℕ) (k : Kernel)
    → HasFrames k (suc n)
    → link_buffers (suc n) b k ≡ link_buffers n (b + 1) (given k b)
unfolding link_buffers cpu.Kernel.Kalloc.kalloc cpu.Kernel.Kalloc.pop
link_buffers-step n b k frames =
    rw (ne→== k.free.free_top 0 (λ e. omega (arith, e, frames.enough))) (
      rw (
        ne→== (next_frame k) frame_unused (
          frames.used (k.free.free_top - 1) (omega (arith, frames.enough))
            (omega (arith, frames.enough)))))

link_buffers-end : (b : ℕ) (k : Kernel) → link_buffers 0 b k ≡ some (tt, k)
unfolding link_buffers
link_buffers-end b k = refl

abbrev pub Ringed : (Kernel → Option (Unit {0} × Kernel)) → Kernel → List ℕ → Type 0
Ringed command k xs = (k' : Kernel) × (command k ≡ some (tt, k')) × IsRing k'.buffers xs

link_buffers-Ringed :
    (n b : ℕ) (k : Kernel) (xs : List ℕ)
    → b + n ≤ cache_size
    → HasFrames k n
    → IsRing k.buffers xs
    → Under b xs
    → Ringed (link_buffers n b) k (in_front n b xs)
link_buffers-Ringed zero b k xs small frames ring under = (k, link_buffers-end b k, ring)
link_buffers-Ringed (suc n) b k xs small frames ring under =
    let bs = inserted k.buffers b in
    let ring' =
      inserted-IsRing k.buffers xs b ring (λ e. omega (arith, e), Under-Lacks b xs under) in
    let (k', e, r) =
      link_buffers-Ringed n (b + 1) (given k b) (b ∷ xs) (omega arith)
        (record {
          enough = omega (arith, frames.enough);
          used = λ j h g. frames.used j (omega (arith, h)) (omega (arith, g));
        })
        (update-IsRing bs b (record (bs b) { frame = next_frame k }) (b ∷ xs) refl refl ring')
        (omega arith, Under-suc b xs under) in
    (k', link_buffers-step n b k frames ∙ e, r)

-- The head linked to itself.
abbrev looped : Kernel → Kernel
looped k =
    let bs = update k.buffers head (record (k.buffers head) { prev = head }) in
    record k { buffers = update bs head (record (bs head) { next = head }) }

looped-IsRing : (k : Kernel) → IsRing (looped k).buffers []
looped-IsRing k =
    let bs = update k.buffers head (record (k.buffers head) { prev = head }) in
    let here = update_self bs head (record (bs head) { next = head }) in
    record {
      links = (
        ap (λ w. w.next) here,
        ap (λ w. w.prev) here
            ∙ ap (λ w. w.prev)
                (update_self k.buffers head (record (k.buffers head) { prev = head })),
      );
      distinct = (tt, tt);
    }

-- buffer_init does not panic and links the sixteen entries in a ring, the last one first, given that the
-- pool has sixteen frames and none of the next sixteen is FRAME_UNUSED.
pub buffer_init-Ringed :
    (k : Kernel) → HasFrames k cache_size → Ringed buffer_init k (in_front cache_size 0 [])
unfolding buffer_init
buffer_init-Ringed k frames =
    link_buffers-Ringed cache_size 0 (looped k) [] (omega arith)
      (record { enough = frames.enough; used = frames.used }) (looped-IsRing k) tt
