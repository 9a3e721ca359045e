-- ===== src/Kernel/Buffer/Kept.antt =====
-- What the moves in the ring of kernel/buffer.c leave of an entry.
use cpu.Prelude.{ℕ, update, update_same, map-update, ◌≡◌, ap, ◌∙◌}
use cpu.Kernel.State.{BlockBuffer}
use cpu.Kernel.Buffer.{head}
use cpu.Kernel.Buffer.Ring.{Buffers, with_next, with_prev, after_links, unlinked, inserted, moved}

-- A field that is no link stays.
module _ {A : Type 0} (g : BlockBuffer → A)
    (no_next : (w : BlockBuffer) (v : ℕ) → g (record w { next = v }) ≡ g w)
    (no_prev : (w : BlockBuffer) (v : ℕ) → g (record w { prev = v }) ≡ g w) where
  fields : Buffers → ℕ → A
  fields bs j = g (bs j)

  kept-with_next : (bs : Buffers) (b v : ℕ) → fields (with_next bs b v) ≡ fields bs
  unfolding fields
  kept-with_next bs b v =
      map-update g bs b (record (bs b) { next = v })
      ∙ ap (update (λ j. g (bs j)) b) (no_next (bs b) v)
      ∙ update_same (λ j. g (bs j)) b

  kept-with_prev : (bs : Buffers) (b v : ℕ) → fields (with_prev bs b v) ≡ fields bs
  unfolding fields
  kept-with_prev bs b v =
      map-update g bs b (record (bs b) { prev = v })
      ∙ ap (update (λ j. g (bs j)) b) (no_prev (bs b) v)
      ∙ update_same (λ j. g (bs j)) b

  kept-unlinked : (bs : Buffers) (b : ℕ) → fields (unlinked bs b) ≡ fields bs
  kept-unlinked bs b =
      kept-with_next (with_prev bs (bs b).next (bs b).prev) (bs b).prev (bs b).next
      ∙ kept-with_prev bs (bs b).next (bs b).prev

  kept-inserted : (bs : Buffers) (b : ℕ) → fields (inserted bs b) ≡ fields bs
  kept-inserted bs b =
      kept-with_next (with_prev (after_links bs b) (bs head).next b) head b
      ∙ kept-with_prev (after_links bs b) (bs head).next b
      ∙ kept-with_prev (with_next bs b (bs head).next) b head
      ∙ kept-with_next bs b (bs head).next

  pub moved-kept : (bs : Buffers) (b j : ℕ) → g (moved bs b j) ≡ g (bs j)
  unfolding fields
  moved-kept bs b j = ap (λ f. f j) (kept-inserted (unlinked bs b) b ∙ kept-unlinked bs b)
