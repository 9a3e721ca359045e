-- ===== src/Kernel/Strings.antt =====
-- kernel/string.c over a flat memory of bytes. An int is the bit pattern of its 16 bits. A loop that
-- runs to a terminator takes fuel, and `none` means that it ran out.
pub mod Moves
pub mod Texts
use cpu.Prelude.{
  ℕ, zero, suc, ◌+◌, ◌-◌, ◌*◌, ◌%◌, ◌==◌, ◌!=◌, ltb, leb, if◌then◌else◌, update, ◌&&◌, not, Option,
  none, some,
}

abbrev pub Memory : Type 0
Memory = ℕ → ℕ

-- `while(n-- > 0) *dst++ = *src++;`
unfoldable pub forward : ℕ → ℕ → ℕ → Memory → Memory
forward zero dst src m = m
forward (suc n) dst src m = forward n (dst + 1) (src + 1) (update m dst (m src))

-- `while(n-- > 0) *--dst = *--src;`
unfoldable pub backward : ℕ → ℕ → ℕ → Memory → Memory
backward zero dst src m = m
backward (suc n) dst src m = backward n (dst - 1) (src - 1) (update m (dst - 1) (m (src - 1)))

-- The rounds of `while(n-- > 0)` for an int: none if it is negative.
abbrev pub rounds : ℕ → ℕ
rounds n = if ltb n 0x8000 then n else 0

unfoldable pub memmove : ℕ → ℕ → ℕ → Memory → Memory
memmove dst src n m =
    if ltb dst src
    then forward (rounds n) dst src m
    else backward (rounds n) (dst + rounds n) (src + rounds n) m

-- The uint16_t size becomes memmove's int.
unfoldable pub memcpy : ℕ → ℕ → ℕ → Memory → Memory
memcpy dst src size m = memmove dst src size m

-- The difference of two bytes as an int.
abbrev pub difference : ℕ → ℕ → ℕ
difference a b = (a + 0x10000 - b) % 0x10000

unfoldable pub memcmp : ℕ → ℕ → ℕ → Memory → ℕ
memcmp p q zero m = 0
memcmp p q (suc size) m =
    let rest = memcmp (p + 1) (q + 1) size m in if m p != m q then difference (m p) (m q) else rest

-- `for(n = 0; s[n] && n < 65535; n++)`, from `n` on with the rounds up to 65535 that are left.
unfoldable pub strlen_from : ℕ → ℕ → ℕ → Memory → ℕ
strlen_from zero s n m = n
strlen_from (suc k) s n m =
    let rest = strlen_from k s (n + 1) m in if m (s + n) == 0 then n else rest

unfoldable pub strlen : ℕ → Memory → ℕ
strlen s m = strlen_from 65535 s 0 m

unfoldable pub strcmp : ℕ → ℕ → ℕ → Memory → Option ℕ
strcmp zero p q m = none
strcmp (suc fuel) p q m =
    let rest = strcmp fuel (p + 1) (q + 1) m in
    if (m p != 0) && (m p == m q) then rest else some (difference (m p) (m q))

-- The address of the character, or 0 for NULL.
unfoldable pub strchr : ℕ → ℕ → ℕ → Memory → Option ℕ
strchr zero s c m = none
strchr (suc fuel) s c m =
    let rest = strchr fuel (s + 1) c m in
    if m s == 0 then some 0 else if m s == c then some s else rest

-- The copy, the terminator included.
unfoldable pub strcpy : ℕ → ℕ → ℕ → Memory → Option Memory
strcpy zero s t m = none
strcpy (suc fuel) s t m =
    let m' = update m s (m t) in
    let rest = strcpy fuel (s + 1) (t + 1) m' in if m t == 0 then some m' else rest

unfoldable pub atoi_from : ℕ → ℕ → ℕ → Memory → Option ℕ
atoi_from zero n s m = none
atoi_from (suc fuel) n s m =
    let rest = atoi_from fuel ((n * 10 + m s + 0x10000 - 48) % 0x10000) (s + 1) m in
    if leb 48 (m s) && leb (m s) 57 then rest else some n

unfoldable pub atoi : ℕ → ℕ → Memory → Option ℕ
atoi fuel s m = atoi_from fuel 0 s m
