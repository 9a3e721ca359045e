-- ===== src/Kernel/Heap/Growth.antt =====
-- The loop of sys_sbrk of kernel/proc.c that gives frames to the segments of the growing heap.
use cpu.Prelude.{
  ℕ, zero, suc, ◌+◌, ◌-◌, ◌<◌, ◌≤◌, ◌==◌, ltb, within, lt→within, ltb→lt, ==→eq, if◌then◌else◌,
  ◌&&◌, Option, some, update, update_ne, update_self, ◌≡◌, ◌≢◌, refl, sym, ne→==, ap, ◌∙◌, fun_ext,
  arith, inl, inr, true, false, Bool-cases,
}
use cpu.Kernel.State.{Kernel, frame_unused}
use cpu.Kernel.Kalloc.{kalloc, pop}
use cpu.Kernel.Pcb.{PageTable}
use cpu.Kernel.Heap.{grow}

-- How many of the `n` segments from `segment` on have no frame.
abbrev pub missing : ℕ → ℕ → PageTable → ℕ
missing zero segment table = 0
missing (suc n) segment table =
    (if table segment == frame_unused then 1 else 0) + missing n (segment + 1) table

-- The table in which each of these has a frame: the next one of the pool, from its top down.
abbrev pub grown : ℕ → ℕ → PageTable → (ℕ → ℕ) → ℕ → PageTable
grown n segment table free_frames free_top s =
    if within segment (segment + n) s && (table s == frame_unused)
    then free_frames (free_top - 1 - missing (s - segment) segment table)
    else table s

missing-update :
    (n segment i f : ℕ) (table : PageTable)
    → i < segment
    → missing n segment (update table i f) ≡ missing n segment table
missing-update zero segment i f table h = refl
missing-update (suc n) segment i f table h =
    let here : update table i f segment ≡ table segment =
      update_ne table i segment f (omega arith) in
    rw here (
      ap (λ m. (if table segment == frame_unused then 1 else 0) + m)
        (missing-update n (segment + 1) i f table (omega arith)))

missing-suc :
    (s segment : ℕ) (table : PageTable)
    → segment < s
    → missing (s - segment) segment table
      ≡ (if table segment == frame_unused then 1 else 0)
        + missing (s - (segment + 1)) (segment + 1) table
missing-suc s segment table later =
    let one_more : s - segment ≡ suc (s - (segment + 1)) = omega arith in
    ap (λ n. missing n segment table) one_more

within-suc :
    (n segment s : ℕ)
    → segment < s
    → within (segment + 1) (segment + 1 + n) s ≡ within segment (segment + suc n) s
within-suc n segment s later = ground arith

grown-before :
    (n segment s : ℕ) (table : PageTable) (free_frames : ℕ → ℕ) (free_top : ℕ)
    → s < segment
    → grown n segment table free_frames free_top s ≡ table s
grown-before n segment s table free_frames free_top before =
    rw (lt→within segment (segment + n) s before)

grown-kept :
    (n segment s : ℕ) (table : PageTable) (free_frames : ℕ → ℕ) (free_top : ℕ)
    → (table s == frame_unused) ≡ false
    → grown n segment table free_frames free_top s ≡ table s
grown-kept n segment s table free_frames free_top full =
    elim (Bool-cases (within segment (segment + n) s)) [
      | inl inside ↦ rw (inside, full)
      | inr outside ↦ rw outside
    ]

grown-here :
    (n segment : ℕ) (table : PageTable) (free_frames : ℕ → ℕ) (free_top : ℕ)
    → (table segment == frame_unused) ≡ true
    → grown (suc n) segment table free_frames free_top segment ≡ free_frames (free_top - 1)
grown-here n segment table free_frames free_top empty =
    let inside : within segment (segment + suc n) segment ≡ true = ground arith in
    let first : segment - segment ≡ 0 = omega arith in
    rw (inside, empty, first) (ap free_frames (omega arith))

abbrev entry : ℕ → ℕ → PageTable → (ℕ → ℕ) → ℕ → ℕ → ℕ
entry n segment table free_frames s i =
    if within segment (segment + suc n) s && (table s == frame_unused)
    then free_frames i
    else table s

-- With the first segment mapped already, the rest is the whole.
grown-skip :
    (n segment : ℕ) (table : PageTable) (free_frames : ℕ → ℕ) (free_top : ℕ)
    → (table segment == frame_unused) ≡ false
    → grown n (segment + 1) table free_frames free_top
      ≡ grown (suc n) segment table free_frames free_top
grown-skip n segment table free_frames free_top full = fun_ext λ s.
    elim (Bool-cases (ltb segment s)) [
      | inl after ↦
          let later = ltb→lt segment s after in
          rw (missing-suc s segment table later, within-suc n segment s later, full)
            (ap (entry n segment table free_frames s) (omega arith))
      | inr before ↦ elim (Bool-cases (s == segment)) [
        | inl same ↦ rw (==→eq s segment same) (
            grown-kept n (segment + 1) segment table free_frames free_top full
            ∙ sym (grown-kept (suc n) segment segment table free_frames free_top full))
        | inr other ↦
            let earlier : s < segment = ground arith in
            grown-before n (segment + 1) s table free_frames free_top (omega arith)
            ∙ sym (grown-before (suc n) segment s table free_frames free_top earlier)
      ]
    ]

-- With the first segment mapped to the next frame, the rest is the whole.
grown-step :
    (n segment : ℕ) (table : PageTable) (free_frames : ℕ → ℕ) (free_top : ℕ)
    → (table segment == frame_unused) ≡ true
    → grown n
        (segment + 1)
        (update table segment (free_frames (free_top - 1)))
        free_frames
        (free_top - 1)
      ≡ grown (suc n) segment table free_frames free_top
grown-step n segment table free_frames free_top empty = fun_ext λ s.
    let f = free_frames (free_top - 1) in
    let table' = update table segment f in
    elim (Bool-cases (ltb segment s)) [
      | inl after ↦
          let later = ltb→lt segment s after in
          let there : table' s ≡ table s = update_ne table segment s f (omega arith) in
          let rest =
            missing-update (s - (segment + 1)) (segment + 1) segment f table (omega arith) in
          rw (there, rest, missing-suc s segment table later, within-suc n segment s later, empty)
            (ap (entry n segment table free_frames s) (omega arith))
      | inr before ↦ elim (Bool-cases (s == segment)) [
        | inl same ↦ rw (==→eq s segment same) (
            grown-before n (segment + 1) segment table' free_frames (free_top - 1) (omega arith)
            ∙ update_self table segment f
            ∙ sym (grown-here n segment table free_frames free_top empty))
        | inr other ↦
            let earlier : s < segment = ground arith in
            grown-before n (segment + 1) s table' free_frames (free_top - 1) (omega arith)
            ∙ update_ne table segment s f (omega arith)
            ∙ sym (grown-before (suc n) segment s table free_frames free_top earlier)
      ]
    ]

-- The kernel without the `n` next frames of the pool.
abbrev pub without : Kernel → ℕ → Kernel
without k n = record k { free = record (k.free) { free_top = k.free.free_top - n } }

abbrev result : ℕ → ℕ → PageTable → Kernel → ℕ → Option (Option PageTable × Kernel)
result n segment table k top = some (
  some (grown n segment table k.free.free_frames k.free.free_top),
  record k { free = record (k.free) { free_top = top } },
)

missing-full :
    (n segment : ℕ) (table : PageTable)
    → (table segment == frame_unused) ≡ false
    → missing (suc n) segment table ≡ missing n (segment + 1) table
missing-full n segment table full = rw full (omega arith)

missing-empty :
    (n segment : ℕ) (table : PageTable)
    → (table segment == frame_unused) ≡ true
    → missing (suc n) segment table ≡ 1 + missing n (segment + 1) table
missing-empty n segment table empty = rw empty refl

-- With as many frames in the pool as segments lack one, none of them FRAME_UNUSED, each of these
-- segments gets the next frame of the pool, the mapped ones stay, and only the pool's top moves.
pub grow_lem :
    (n segment old : ℕ) (table : PageTable) (k : Kernel)
    → ((j : ℕ) → j < k.free.free_top → k.free.free_frames j ≢ frame_unused)
    → missing n segment table ≤ k.free.free_top
    → grow n segment old table k
      ≡ some (
        some (grown n segment table k.free.free_frames k.free.free_top),
        without k (missing n segment table),
      )
unfolding grow kalloc pop
grow_lem zero segment old table k good enough =
    let same : table ≡ grown 0 segment table k.free.free_frames k.free.free_top =
      fun_ext λ s. ground arith in
    let top : k.free.free_top ≡ k.free.free_top - 0 = omega arith in
    ap (λ t. some (some t, k)) same
    ∙ ap
        (λ t. some (
          some (grown 0 segment table k.free.free_frames k.free.free_top),
          record k { free = record (k.free) { free_top = t } },
        ))
        top
grow_lem (suc n) segment old table k good enough =
    elim (Bool-cases (table segment == frame_unused)) [
      | inl empty ↦
          let f = k.free.free_frames (k.free.free_top - 1) in
          let some_left = missing-empty n segment table empty in
          let same = missing-update n (segment + 1) segment f table (omega arith) in
          let left : (k.free.free_top == 0) ≡ false = ground (arith, some_left, enough) in
          let usable : (f == frame_unused) ≡ false =
            ne→== f frame_unused (good (k.free.free_top - 1) (omega arith)) in
          rw (empty, left, usable)
            (grow_lem n (segment + 1) old (update table segment f) (without k 1)
                (λ j h. good j (omega arith)) (omega (arith, some_left, enough, same))
              ∙ ap
                  (λ t. some (
                    some t,
                    without (without k 1) (missing n (segment + 1) (update table segment f)),
                  ))
                  (grown-step n segment table k.free.free_frames k.free.free_top empty)
              ∙ ap (result (suc n) segment table k) (omega (arith, same)))
      | inr full ↦
          let same = missing-full n segment table full in
          rw full (
            grow_lem n (segment + 1) old table k good (omega (arith, same, enough))
            ∙ ap (λ t. some (some t, without k (missing n (segment + 1) table)))
                (grown-skip n segment table k.free.free_frames k.free.free_top full)
            ∙ ap (result (suc n) segment table k) (omega arith))
    ]
