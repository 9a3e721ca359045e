-- ===== src/Kernel/Buffer/Ring.antt =====
-- The entries of the cache of kernel/buffer.c are linked in a ring through the head.
use cpu.Prelude.{
  ℕ, update, update_ne, update_same, map-update, Lacks, Distinct, last, Lacks-split, Lacks-join,
  Apart-Lacks, Apart-tail, Apart-cons, Distinct-split, Distinct-join, List, ◌∷◌, ◌++◌, some, ◌≡◌,
  ◌≢◌, sym, ap, ◌∙◌,
}
use cpu.Kernel.State.{Kernel, BlockBuffer}
use cpu.Kernel.Command.{◌>>◌}
use cpu.Kernel.Buffer.{head, unlink, insert_front}
use cpu.Kernel.Buffer.Links.{
  Linked, Linked-equal, leading, Linked-next, Linked-prev, Linked-split, Lacks-leading, splice,
  insert-Linked,
}

abbrev pub Buffers : Type 0
Buffers = ℕ → BlockBuffer

abbrev pub next_of : Buffers → ℕ → ℕ
next_of bs b = (bs b).next

abbrev pub prev_of : Buffers → ℕ → ℕ
prev_of bs b = (bs b).prev

-- Through the head and these entries, the most recently used first.
pub record IsRing (bs : Buffers) (xs : List ℕ) : Type 0 where
  pub links : Linked (next_of bs) (prev_of bs) head xs head
  pub distinct : Distinct (head ∷ xs)

abbrev pub with_next : Buffers → ℕ → ℕ → Buffers
with_next bs b v = update bs b (record (bs b) { next = v })

abbrev pub with_prev : Buffers → ℕ → ℕ → Buffers
with_prev bs b v = update bs b (record (bs b) { prev = v })

-- A change of an entry changes each of its fields at the entry.
module _ (bs : Buffers) (b v : ℕ) where
  next_of-with_next : next_of (with_next bs b v) ≡ update (next_of bs) b v
  next_of-with_next = map-update (λ w. w.next) bs b (record (bs b) { next = v })

  next_of-with_prev : next_of (with_prev bs b v) ≡ next_of bs
  next_of-with_prev =
      map-update (λ w. w.next) bs b (record (bs b) { prev = v }) ∙ update_same (next_of bs) b

  prev_of-with_prev : prev_of (with_prev bs b v) ≡ update (prev_of bs) b v
  prev_of-with_prev = map-update (λ w. w.prev) bs b (record (bs b) { prev = v })

  prev_of-with_next : prev_of (with_next bs b v) ≡ prev_of bs
  prev_of-with_next =
      map-update (λ w. w.prev) bs b (record (bs b) { next = v }) ∙ update_same (prev_of bs) b

-- A change of other fields leaves the ring.
pub update-IsRing :
    (bs : Buffers) (b : ℕ) (v : BlockBuffer) (xs : List ℕ)
    → v.next ≡ (bs b).next
    → v.prev ≡ (bs b).prev
    → IsRing bs xs
    → IsRing (update bs b v) xs
update-IsRing bs b v xs same_next same_prev ring = record {
  links =
      Linked-equal (next_of bs) (next_of (update bs b v)) (prev_of bs) (prev_of (update bs b v))
        head xs head
        (map-update (λ w. w.next) bs b v
          ∙ ap (update (next_of bs) b) same_next
          ∙ update_same (next_of bs) b)
        (map-update (λ w. w.prev) bs b v
          ∙ ap (update (prev_of bs) b) same_prev
          ∙ update_same (prev_of bs) b)
        ring.links;
  distinct = ring.distinct;
}

-- The entries after unlink.
abbrev pub unlinked : Buffers → ℕ → Buffers
unlinked bs b = with_next (with_prev bs (bs b).next (bs b).prev) (bs b).prev (bs b).next

pub unlink_lem :
    (k : Kernel) (b : ℕ)
    → b ≢ (k.buffers b).next
    → unlink b k ≡ some (tt, record k { buffers = unlinked k.buffers b })
unfolding unlink
unlink_lem k b other =
    let bs = k.buffers in
    let bs' = with_prev bs (bs b).next (bs b).prev in
    ap (λ w. some (tt, record k { buffers = with_next bs' w.prev w.next }))
      (update_ne bs (bs b).next b (record (bs (bs b).next) { prev = (bs b).prev }) other)

unlinked-next :
    (bs : Buffers) (b : ℕ) → next_of (unlinked bs b) ≡ update (next_of bs) (bs b).prev (bs b).next
unlinked-next bs b =
    next_of-with_next (with_prev bs (bs b).next (bs b).prev) (bs b).prev (bs b).next
    ∙ ap (λ f. update f (bs b).prev (bs b).next) (next_of-with_prev bs (bs b).next (bs b).prev)

unlinked-prev :
    (bs : Buffers) (b : ℕ) → prev_of (unlinked bs b) ≡ update (prev_of bs) (bs b).next (bs b).prev
unlinked-prev bs b =
    prev_of-with_next (with_prev bs (bs b).next (bs b).prev) (bs b).prev (bs b).next
    ∙ prev_of-with_prev bs (bs b).next (bs b).prev

-- An entry is taken out of the ring.
pub unlinked-IsRing :
    (bs : Buffers) (xs : List ℕ) (b : ℕ) (ys : List ℕ)
    → IsRing bs (xs ++ b ∷ ys)
    → IsRing (unlinked bs b) (xs ++ ys)
unlinked-IsRing bs xs b ys ring =
    let parts = Linked-split (next_of bs) (prev_of bs) head xs b ys head ring.links in
    let before : (bs b).prev ≡ last head xs =
      Linked-prev (next_of bs) (prev_of bs) head xs b parts.0 in
    let behind : (bs b).next ≡ leading ys head =
      Linked-next (next_of bs) (prev_of bs) b ys head parts.1 in
    let apart = Distinct-split xs (b ∷ ys) ring.distinct.1 in
    let no_head = Lacks-split head xs (b ∷ ys) ring.distinct.0 in
    let spliced =
      splice (next_of bs) (prev_of bs) head xs b ys head parts.0 parts.1 (no_head.0, apart.0)
        no_head.1.1 (Apart-cons head xs ys no_head.0 (Apart-tail b xs ys apart.1.0))
        (no_head.1.1, apart.1.1.1) in
    record {
      links = rw (unlinked-next bs b, unlinked-prev bs b, before, behind) spliced;
      distinct = (
        Lacks-join head xs ys no_head.0 no_head.1.1,
        Distinct-join xs ys apart.0 (Apart-tail b xs ys apart.1.0) apart.1.1.1,
      );
    }

-- The entries after insert_front.
abbrev pub after_links : Buffers → ℕ → Buffers
after_links bs b = with_prev (with_next bs b (bs head).next) b head

abbrev pub inserted : Buffers → ℕ → Buffers
inserted bs b = with_next (with_prev (after_links bs b) (bs head).next b) head b

pub insert_front_lem :
    (k : Kernel) (b : ℕ)
    → head ≢ b
    → insert_front b k ≡ some (tt, record k { buffers = inserted k.buffers b })
unfolding insert_front
insert_front_lem k b other =
    let bs = k.buffers in
    let bs' = with_next bs b (bs head).next in
    ap
      (λ w.
        some (tt, record k { buffers = with_next (with_prev (after_links bs b) w.next b) head b }))
      (update_ne bs' b head (record (bs' b) { prev = head }) other
        ∙ update_ne bs b head (record (bs b) { next = (bs head).next }) other)

inserted-next :
    (bs : Buffers) (b : ℕ)
    → next_of (inserted bs b) ≡ update (update (next_of bs) b (bs head).next) head b
inserted-next bs b =
    let bs' = with_next bs b (bs head).next in
    next_of-with_next (with_prev (after_links bs b) (bs head).next b) head b
    ∙ ap (λ f. update f head b)
        (next_of-with_prev (after_links bs b) (bs head).next b
          ∙ next_of-with_prev bs' b head
          ∙ next_of-with_next bs b (bs head).next)

inserted-prev :
    (bs : Buffers) (b : ℕ)
    → prev_of (inserted bs b) ≡ update (update (prev_of bs) b head) (bs head).next b
inserted-prev bs b =
    let bs' = with_next bs b (bs head).next in
    prev_of-with_next (with_prev (after_links bs b) (bs head).next b) head b
    ∙ prev_of-with_prev (after_links bs b) (bs head).next b
    ∙ ap (λ f. update f (bs head).next b)
        (prev_of-with_prev bs' b head
          ∙ ap (λ f. update f b head) (prev_of-with_next bs b (bs head).next))

-- An entry is put in front.
pub inserted-IsRing :
    (bs : Buffers) (zs : List ℕ) (b : ℕ)
    → IsRing bs zs
    → Lacks b (head ∷ zs)
    → IsRing (inserted bs b) (b ∷ zs)
inserted-IsRing bs zs b ring lacks =
    let first : (bs head).next ≡ leading zs head =
      Linked-next (next_of bs) (prev_of bs) head zs head ring.links in
    record {
      links =
          Linked-equal (update (update (next_of bs) b (leading zs head)) head b)
            (next_of (inserted bs b)) (update (update (prev_of bs) b head) (leading zs head) b)
            (prev_of (inserted bs b)) head (b ∷ zs) head
            (inserted-next bs b ∙ ap (λ n. update (update (next_of bs) b n) head b) first)
            (inserted-prev bs b ∙ ap (λ n. update (update (prev_of bs) b head) n b) first)
            (insert-Linked (next_of bs) (prev_of bs) b zs head ring.links lacks ring.distinct);
      distinct = ((λ e. lacks.0 (sym e), ring.distinct.0), (lacks.1, ring.distinct.1));
    }

abbrev pub moved : Buffers → ℕ → Buffers
moved bs b = inserted (unlinked bs b) b

-- An entry of the ring, and the others.
module _ (bs : Buffers) (xs : List ℕ) (b : ℕ) (ys : List ℕ) (ring : IsRing bs (xs ++ b ∷ ys)) where
  others-Lacks : Lacks b (head ∷ xs ++ ys)
  others-Lacks =
      let apart = Distinct-split xs (b ∷ ys) ring.distinct.1 in
      let no_head = Lacks-split head xs (b ∷ ys) ring.distinct.0 in
      (λ e. no_head.1.0 (sym e), Lacks-join b xs ys (Apart-Lacks b xs ys apart.1.0) apart.1.1.0)

  other_next : b ≢ (bs b).next
  other_next e =
      let apart = Distinct-split xs (b ∷ ys) ring.distinct.1 in
      let no_head = Lacks-split head xs (b ∷ ys) ring.distinct.0 in
      let parts = Linked-split (next_of bs) (prev_of bs) head xs b ys head ring.links in
      Lacks-leading b head ys (λ h. no_head.1.0 (sym h), apart.1.1.0)
        (sym (e ∙ Linked-next (next_of bs) (prev_of bs) b ys head parts.1))

  -- buffer_release moves the entry to the front.
  pub moved-IsRing : IsRing (moved bs b) (b ∷ xs ++ ys)
  moved-IsRing =
      inserted-IsRing (unlinked bs b) (xs ++ ys) b (unlinked-IsRing bs xs b ys ring) others-Lacks

pub move_lem :
    (k : Kernel) (xs : List ℕ) (b : ℕ) (ys : List ℕ)
    → IsRing k.buffers (xs ++ b ∷ ys)
    → (unlink b >> insert_front b) k ≡ some (tt, record k { buffers = moved k.buffers b })
move_lem k xs b ys ring = rw (unlink_lem k b (other_next k.buffers xs b ys ring)) (
    insert_front_lem (record k { buffers = unlinked k.buffers b }) b
      (others-Lacks k.buffers xs b ys ring).0)
