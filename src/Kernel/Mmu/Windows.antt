-- ===== src/Kernel/Mmu/Windows.antt =====
-- kernel/mmu.c: a window shows the frame that it is mapped to, and unmapping it restores everything.
use cpu.Prelude.{
  ℕ, ◌+◌, ◌*◌, ◌==◌, ◌!=◌, if◌then◌else◌, update, ◌&&◌, false, Option, none, some, update_self, ◌≡◌,
  refl, sym, ap, ◌∙◌, fun_ext, arith, ◌⊎◌, inl, inr, Bool-cases, ==→eq,
}
use cpu.Machine.State.{Board}
use cpu.Machine.Bus.{write, write_physical, translate}
use cpu.Machine.Map.{mmu_page_table}
use cpu.Kernel.State.{Kernel, Proc, window_one, window_two}
use cpu.Kernel.Command.{store}
use cpu.Kernel.Mmu.{set_low_memory, track, install, mmu_map_window, mmu_unmap_window}

-- The kernel's map is installed: segment 15 is its own, and the shadow table and the running process
-- know what the two windows show.
pub record IsSynced (k : Kernel) : Type 0 where
  pub registers : k.board.mmu.page_table 15 ≡ 15
  pub window_one : k.board.mmu.page_table 1 ≡ k.kernel_page_table 1
  pub window_two : k.board.mmu.page_table 2 ≡ k.kernel_page_table 2
  pub tracked_one :
      (p : ℕ) → k.current ≡ some p → (k.proc_table p).kernel_low_memory 1 ≡ k.kernel_page_table 1
  pub tracked_two :
      (p : ℕ) → k.current ≡ some p → (k.proc_table p).kernel_low_memory 2 ≡ k.kernel_page_table 2

abbrev pub IsWindow : ℕ → Type 0
IsWindow w = (w ≡ 1) ⊎ (w ≡ 2)

-- The board with a segment of the page table changed.
abbrev pub with_segment : Board → ℕ → ℕ → Board
with_segment b w f = record b { mmu = record (b.mmu) { page_table = update b.mmu.page_table w f } }

abbrev pub tracked : Option ℕ → (ℕ → Proc) → ℕ → ℕ → ℕ → Proc
tracked none procs w f = procs
tracked (some p) procs w f = update procs p (set_low_memory (procs p) w f)

abbrev pub installed : ℕ → ℕ → Kernel → Kernel
installed w f k = record k {
  board = with_segment k.board w f;
  kernel_page_table = update k.kernel_page_table w f;
  proc_table = tracked k.current k.proc_table w f;
}

write-segment :
    (b : Board) (w f : ℕ)
    → b.mmu.page_table 15 ≡ 15
    → IsWindow w
    → write (mmu_page_table + w) f b ≡ with_segment b w f
unfolding write translate write_physical
write-segment b w f e h = ground arith

track_lem :
    (w f : ℕ) (k : Kernel)
    → track w f k ≡ some (tt, record k { proc_table = tracked k.current k.proc_table w f })
unfolding track
track_lem w f k = ground arith

pub install_lem :
    (w f : ℕ) (k : Kernel) → IsSynced k → IsWindow w → install w f k ≡ some (tt, installed w f k)
unfolding install store
install_lem w f k sync h =
    let shadow = update k.kernel_page_table w f in
    ap (λ b. track w f (record k { board = b; kernel_page_table = shadow }))
      (write-segment k.board w f sync.registers h)
    ∙ track_lem w f (record k { board = with_segment k.board w f; kernel_page_table = shadow })

update-update {ℓ} :
    {A : Type ℓ} (t : ℕ → A) (w : ℕ) (u v : A) → v ≡ t w → update (update t w u) w v ≡ t
update-update t w u v e = fun_ext λ i. elim (Bool-cases (i == w)) [
  | inl same ↦ rw same (e ∙ ap t (sym (==→eq i w same)))
  | inr other ↦ rw other
]

tracked-restored :
    (c : Option ℕ) (procs : ℕ → Proc) (w f old : ℕ)
    → ((p : ℕ) → c ≡ some p → (procs p).kernel_low_memory w ≡ old)
    → tracked c (tracked c procs w f) w old ≡ procs
tracked-restored none procs w f old h = refl
tracked-restored (some p) procs w f old h =
    let mapped = set_low_memory (procs p) w f in
    update-update procs p mapped (set_low_memory (update procs p mapped p) w old) (
      ap (λ q. set_low_memory q w old) (update_self procs p mapped)
      ∙ ap (λ m. record (procs p) { kernel_low_memory = m })
          (update-update (procs p).kernel_low_memory w f old (sym (h p refl))))

hardware :
    (w : ℕ) (k : Kernel)
    → IsSynced k
    → IsWindow w
    → k.kernel_page_table w ≡ k.board.mmu.page_table w
hardware w k sync h = elim h [
  | inl e ↦ rw e (sym sync.window_one)
  | inr e ↦ rw e (sym sync.window_two)
]

tracked_both :
    (w : ℕ) (k : Kernel)
    → IsSynced k
    → IsWindow w
    → (p : ℕ) → k.current ≡ some p
    → (k.proc_table p).kernel_low_memory w ≡ k.kernel_page_table w
tracked_both w k sync h p c = elim h [
  | inl e ↦ rw e (sync.tracked_one p c)
  | inr e ↦ rw e (sync.tracked_two p c)
]

-- A kernel state whose memory is given anew.
abbrev pub with_ram : Kernel → (ℕ → ℕ) → Kernel
with_ram k ram = record k { board = record (k.board) { ram = ram } }

-- What the window showed is installed again, whatever was written in between.
pub restored :
    (w f : ℕ) (k : Kernel) (ram : ℕ → ℕ)
    → IsSynced k
    → IsWindow w
    → installed w (k.kernel_page_table w) (with_ram (installed w f k) ram) ≡ with_ram k ram
restored w f k ram sync h =
    let old = k.kernel_page_table w in
    let hard = update-update k.board.mmu.page_table w f old (hardware w k sync h) in
    let shadow = update-update k.kernel_page_table w f old refl in
    let procs = tracked-restored k.current k.proc_table w f old (tracked_both w k sync h) in
    λ i. record k {
      board = record (k.board) { ram = ram; mmu = record (k.board.mmu) { page_table = hard i } };
      kernel_page_table = shadow i;
      proc_table = procs i;
    }

window_allowed : (w : ℕ) → IsWindow w → ((w != 1) && (w != 2)) ≡ false
window_allowed w h = ground arith

window_address : (w : ℕ) → IsWindow w → (if w == 1 then window_one else window_two) ≡ w * 4096
window_address w h = ground arith

-- Mapping window 1 or 2 returns its address and the frame that it showed.
pub mmu_map_window_lem :
    (w f : ℕ) (k : Kernel)
    → IsSynced k
    → IsWindow w
    → mmu_map_window w f k ≡ some ((w * 4096, k.kernel_page_table w), installed w f k)
unfolding mmu_map_window
mmu_map_window_lem w f k sync h = rw (window_allowed w h) (
    rw (install_lem w f k sync h)
      (ap (λ a. some ((a, k.kernel_page_table w), installed w f k)) (window_address w h)))

-- Any frame may be put back through the window.
pub mmu_unmap_window_lem :
    (w f : ℕ) (k : Kernel)
    → IsSynced k
    → IsWindow w
    → mmu_unmap_window w f k ≡ some (tt, installed w f k)
unfolding mmu_unmap_window
mmu_unmap_window_lem w f k sync h = rw (window_allowed w h) (install_lem w f k sync h)

-- With a window mapped the kernel's map is still installed.
pub installed-IsSynced :
    (w f : ℕ) (k : Kernel) → IsSynced k → IsWindow w → IsSynced (installed w f k)
installed-IsSynced w f k sync h = record {
  registers = ground arith;
  window_one = ground arith;
  window_two = ground arith;
  tracked_one = λ p c. rw c (ground (arith, sync.tracked_one p c));
  tracked_two = λ p c. rw c (ground (arith, sync.tracked_two p c));
}
