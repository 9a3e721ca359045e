-- ===== src/Kernel/Console/Editor.antt =====
-- A line editor on a list of keys, and what a key does to the line of console_read of kernel/console.c.
use cpu.Prelude.{
  ℕ, zero, suc, ◌+◌, ◌-◌, ◌≤◌, ◌==◌, leb, if◌then◌else◌, update, update_self, update_ne, length,
  List, [], ◌∷◌, Bool, true, false, Option, none, some, ◌≡◌, ==→eq, refl, sym, ◌∙◌, ap, arith, inl,
  inr, Bool-cases,
}
use mathlib.Core.Path.{ap₂}
use cpu.Kernel.Console.{Line, is_erase, is_end, add, key}

-- The characters of a line, the last one first.
abbrev pub stack : ℕ → (ℕ → ℕ) → List ℕ
stack zero buffer = []
stack (suc n) buffer = buffer n ∷ stack n buffer

abbrev pub drop_one : List ℕ → List ℕ
drop_one [] = []
drop_one (c ∷ cs) = cs

-- A line editor on a list of keys: the line that is ready, and the keys that are left. Without enough keys
-- there is none.
unfoldable pub edit : ℕ → List ℕ → List ℕ → Option (List ℕ × List ℕ)
edit size [] line = if leb size (length line) then some (line, []) else none
edit size (c ∷ cs) line =
    let erased = edit size cs (drop_one line) in
    let longer = edit size cs (c ∷ line) in
    if leb size (length line)
    then some (line, c ∷ cs)
    else if is_erase c
    then erased
    else if is_end c
    then some (10 ∷ line, cs)
    else longer

pub length-stack : (n : ℕ) (buffer : ℕ → ℕ) → length (stack n buffer) ≡ n
length-stack zero buffer = refl
length-stack (suc n) buffer = ap suc (length-stack n buffer)

stack-update : (m n c : ℕ) (buffer : ℕ → ℕ) → m ≤ n → stack m (update buffer n c) ≡ stack m buffer
stack-update zero n c buffer h = refl
stack-update (suc m) n c buffer h =
    ap₂ ◌∷◌ (update_ne buffer n m c (omega arith)) (stack-update m n c buffer (omega arith))

abbrev pub text : Line → List ℕ
text s = stack s.bytes_read s.buffer

text-add : (c : ℕ) (s : Line) → text (add c s) ≡ c ∷ text s
text-add c s =
    let next : s.bytes_read + 1 ≡ suc s.bytes_read = omega arith in
    ap (λ n. stack n (update s.buffer s.bytes_read c)) next
    ∙ ap₂ ◌∷◌ (update_self s.buffer s.bytes_read c)
        (stack-update s.bytes_read s.bytes_read c s.buffer (omega arith))

stack-erase : (n : ℕ) (buffer : ℕ → ℕ) → stack (n - 1) buffer ≡ drop_one (stack n buffer)
stack-erase zero buffer = refl
stack-erase (suc n) buffer = let less : suc n - 1 ≡ n = omega arith in ap (λ m. stack m buffer) less

-- The line that a key leaves when the reading goes on.
abbrev pub edited : ℕ → List ℕ → List ℕ
edited c line = if is_erase c then drop_one line else if is_end c then 10 ∷ line else c ∷ line

-- The key ends the line.
abbrev pub finishes : ℕ → Bool
finishes c = if is_erase c then false else is_end c

pub text-key : (c : ℕ) (s : Line) → text (key c s) ≡ edited c (text s)
unfolding key
text-key c s = elim (Bool-cases (is_erase c)) [
  | inl e ↦ elim (Bool-cases (s.bytes_read == 0)) [
    | inl z ↦
        let nothing = ==→eq s.bytes_read 0 z in
        rw (e, z)
          (ap (λ n. stack n s.buffer) nothing ∙ sym (ap (λ n. drop_one (stack n s.buffer)) nothing))
    | inr z ↦ rw (e, z) (stack-erase s.bytes_read s.buffer)
  ]
  | inr e ↦ elim (Bool-cases (is_end c)) [
    | inl z ↦ rw (e, z) (text-add 10 s)
    | inr z ↦ rw (e, z) (text-add c s)
  ]
]

pub edit-full :
    (size : ℕ) (keys line : List ℕ)
    → leb size (length line) ≡ true
    → edit size keys line ≡ some (line, keys)
unfolding edit
edit-full size [] line e = rw e refl
edit-full size (c ∷ cs) line e = rw e refl

pub edit-empty :
    (size : ℕ) (line : List ℕ) → leb size (length line) ≡ false → edit size [] line ≡ none
unfolding edit
edit-empty size line e = rw e refl

edit-key :
    (size c : ℕ) (cs line : List ℕ)
    → leb size (length line) ≡ false
    → edit size (c ∷ cs) line
      ≡ (if finishes c then some (edited c line, cs) else edit size cs (edited c line))
unfolding edit
edit-key size c cs line e = elim (Bool-cases (is_erase c)) [
  | inl x ↦ rw (e, x) refl
  | inr x ↦ elim (Bool-cases (is_end c)) [ inl y ↦ rw (e, x, y) refl | inr y ↦ rw (e, x, y) refl ]
]

pub edit-finishes :
    (size c : ℕ) (cs line : List ℕ)
    → leb size (length line) ≡ false
    → finishes c ≡ true
    → edit size (c ∷ cs) line ≡ some (edited c line, cs)
edit-finishes size c cs line e y = edit-key size c cs line e ∙ rw y refl

pub edit-goes :
    (size c : ℕ) (cs line : List ℕ)
    → leb size (length line) ≡ false
    → finishes c ≡ false
    → edit size (c ∷ cs) line ≡ edit size cs (edited c line)
edit-goes size c cs line e y = edit-key size c cs line e ∙ rw y refl
