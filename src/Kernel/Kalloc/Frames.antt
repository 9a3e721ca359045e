-- ===== src/Kernel/Kalloc/Frames.antt =====
-- kernel/kalloc.c: the pool is a stack of frames that are free, each once.
use cpu.Prelude.{
  ℕ, zero, suc, ◌+◌, ◌-◌, ◌*◌, ◌%◌, ◌≤◌, ◌==◌, update, update_ne, update_self, ltb, ◌||◌, false,
  some, ◌≡◌, refl, ap, ◌∙◌, arith, inl, List, [], ◌∷◌, ne→==,
}
use mathlib.Core.Path.{ap₂}
use cpu.Kernel.State.{Kernel, FreeList, frame_unused, page_table_size}
use cpu.Kernel.Kalloc.{push, push_frames, kalloc_init, pop, kfree, junk}
use cpu.Kernel.Mmu.Windows.{IsSynced, installed, with_ram, mmu_map_window_lem}
use cpu.Kernel.Memory.Filled.{filled, fill_lem}
use cpu.Kernel.Pcb.Access.{IsFrame, unmap-mapped}

-- The frames of the pool, the next one first.
abbrev pub frames_from : (ℕ → ℕ) → ℕ → List ℕ
frames_from free_frames zero = []
frames_from free_frames (suc n) = free_frames n ∷ frames_from free_frames n

abbrev pub frames : FreeList → List ℕ
frames l = frames_from l.free_frames l.free_top

frames_from-update :
    (g : ℕ → ℕ) (n i f : ℕ) → n ≤ i → frames_from (update g i f) n ≡ frames_from g n
frames_from-update g zero i f h = refl
frames_from-update g (suc n) i f h =
    ap₂ ◌∷◌ (update_ne g i n f (omega arith)) (frames_from-update g n i f (omega arith))

-- A freed frame is the next one to be handed out.
pub frames-push : (f : ℕ) (l : FreeList) → frames (push f l) ≡ f ∷ frames l
unfolding push
frames-push f l =
    let top : l.free_top + 1 ≡ suc l.free_top = omega arith in
    ap (frames_from (update l.free_frames l.free_top f)) top
    ∙ ap₂ ◌∷◌ (update_self l.free_frames l.free_top f)
        (frames_from-update l.free_frames l.free_top l.free_top f (omega arith))

abbrev pub popped : List ℕ → ℕ × List ℕ
popped [] = (frame_unused, [])
popped (f ∷ fs) = (f, fs)

pop-frames_at :
    (g : ℕ → ℕ) (n : ℕ)
    → let l : FreeList = record { free_frames = g; free_top = n } in
      ((pop l).0, frames (pop l).1) ≡ popped (frames_from g n)
unfolding pop
pop-frames_at g zero = refl
pop-frames_at g (suc n) =
    let same : suc n - 1 ≡ n = omega arith in rw (ne→== (suc n) 0 (omega arith)) (rw same)

-- kalloc takes the next frame of the pool, and returns FRAME_UNUSED and changes nothing when the pool
-- is empty.
pub pop-frames : (l : FreeList) → let (f, l') = pop l in (f, frames l') ≡ popped (frames l)
unfolding pop
pop-frames l = pop-frames_at l.free_frames l.free_top

-- 16, 17, … up to 255.
abbrev pub count_up : ℕ → ℕ → List ℕ
count_up zero i = []
count_up (suc n) i = i ∷ count_up n (i + 1)

abbrev prepend : ℕ → ℕ → List ℕ → List ℕ
prepend zero i fs = fs
prepend (suc n) i fs = prepend n (i - 1) (i ∷ fs)

frames-push_frames : (n i : ℕ) (l : FreeList) → frames (push_frames n i l) ≡ prepend n i (frames l)
unfolding push_frames
frames-push_frames zero i l = refl
frames-push_frames (suc n) i l =
    frames-push_frames n (i - 1) (push i l) ∙ ap (prepend n (i - 1)) (frames-push i l)

-- After kalloc_init the pool holds the frames 16 to 255 in this order, whatever it held before.
pub kalloc_init-frames : (l : FreeList) → frames (kalloc_init l) ≡ count_up 240 16
unfolding kalloc_init
kalloc_init-frames l = frames-push_frames 240 255 (record l { free_top = 0 })

with_free-IsSynced : (k : Kernel) (l : FreeList) → IsSynced k → IsSynced (record k { free = l })
with_free-IsSynced k l s = record {
  registers = s.registers;
  window_one = s.window_one;
  window_two = s.window_two;
  tracked_one = s.tracked_one;
  tracked_two = s.tracked_two;
}

-- Freeing a frame of kalloc puts it on the pool, fills it with junk, and changes nothing else: the
-- window is back at what it showed.
pub kfree_lem :
    (f : ℕ) (k : Kernel)
    → IsSynced k
    → IsFrame f
    → kfree f k
      ≡ some (
        tt,
        with_ram (record k { free = push f k.free }) (filled k.board.ram (f * 4096) 4096 junk),
      )
unfolding kfree
kfree_lem f k sync h =
    let freed = record k { free = push f k.free } in
    let sync' = with_free-IsSynced k (push f k.free) sync in
    let mapped = installed 1 f freed in
    let base : f * 4096 + 4096 % 4096 ≡ f * 4096 = omega arith in
    let ram = filled k.board.ram (f * 4096 + 4096 % 4096) 4096 junk in
    let kept : ((f == frame_unused) || ltb f page_table_size) ≡ false = ground arith in
    let filling =
      fill_lem 4096 4096 junk f mapped (record { page = refl; frame = h }) (omega arith) in
    rw kept (
      rw (mmu_map_window_lem 1 f freed sync' (inl refl)) (
        rw filling (
          unmap-mapped 1 f freed ram sync' (inl refl)
          ∙ ap (λ b. some (tt, with_ram freed (filled k.board.ram b 4096 junk))) base)))
