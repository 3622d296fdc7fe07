-- ===== src/Strings.antt =====
-- string.c: a `char*` is a function from the offset to the byte.
pub mod Laws
use xv6_system_calls.Prelude.{
  ◌%◌, ℕ, zero, suc, ◌+◌, ◌-◌, Bool, ◌&&◌, not, ◌==◌, ltb, leb, if◌then◌else◌, update, ℤ, pos,
  negsuc,
}

-- The loop of `safestrcpy` at offset `i`, with `n` bytes still to be copied at most; then the NUL.
pub safe_copy : (ℕ → ℕ) → (ℕ → ℕ) → ℕ → ℕ → ℕ → ℕ
safe_copy s t zero i = update s i 0
safe_copy s t (suc n) i =
    let rest = safe_copy (update s i (t i)) t n (i + 1) in
    if t i == 0 then update (update s i (t i)) (i + 1) 0 else rest

-- `safestrcpy(s, t, n)`
unfoldable pub safestrcpy : (ℕ → ℕ) → (ℕ → ℕ) → ℕ → ℕ → ℕ
unfolding safe_copy
safestrcpy s t zero = s
safestrcpy s t (suc n) = safe_copy s t n 0

-- The difference of two `uchar`, as an `int`.
abbrev pub byte_diff : ℕ → ℕ → ℤ
byte_diff a b = if leb b a then pos (a - b) else negsuc (b - a - 1)

-- `memcmp`, from offset `i` on with `n` bytes left.
unfoldable pub memcmp : (ℕ → ℕ) → (ℕ → ℕ) → ℕ → ℕ → ℤ
memcmp s1 s2 zero i = pos 0
memcmp s1 s2 (suc n) i =
    let rest = memcmp s1 s2 n (i + 1) in if s1 i == s2 i then rest else byte_diff (s1 i) (s2 i)

-- `strncmp`, from offset `i` on with `n` bytes left.
unfoldable pub strncmp : (ℕ → ℕ) → (ℕ → ℕ) → ℕ → ℕ → ℤ
strncmp p q zero i = pos 0
strncmp p q (suc n) i =
    let rest = strncmp p q n (i + 1) in
    if not (p i == 0) && (p i == q i) then rest else byte_diff (p i) (q i)

-- The second loop of `strncpy`: NULs from offset `i` on.
pub pad : (ℕ → ℕ) → ℕ → ℕ → ℕ → ℕ
pad s zero i = s
pad s (suc n) i = pad (update s i 0) n (i + 1)

-- `strncpy`, from offset `i` on with `n` bytes left.
pub strncpy : (ℕ → ℕ) → (ℕ → ℕ) → ℕ → ℕ → ℕ → ℕ
unfolding pad
strncpy s t zero i = s
strncpy s t (suc n) i =
    let rest = strncpy (update s i (t i)) t n (i + 1) in
    if t i == 0 then pad (update s i (t i)) n (i + 1) else rest

-- The loops of `memmove` on one memory, from the front and from the back.
pub copy_up : (ℕ → ℕ) → ℕ → ℕ → ℕ → ℕ → ℕ
copy_up m d s zero = m
copy_up m d s (suc n) = copy_up (update m d (m s)) (d + 1) (s + 1) n

pub copy_down : (ℕ → ℕ) → ℕ → ℕ → ℕ → ℕ → ℕ
copy_down m d s zero = m
copy_down m d s (suc n) = copy_down (update m (d + n) (m (s + n))) d s n

-- `memmove(d, s, n)`, for blocks that do not wrap around the address space.
pub memmove : (ℕ → ℕ) → ℕ → ℕ → ℕ → ℕ → ℕ
unfolding copy_up copy_down
memmove m d s n = if ltb s d && ltb d (s + n) then copy_down m d s n else copy_up m d s n

abbrev pub memcpy : (ℕ → ℕ) → ℕ → ℕ → ℕ → ℕ → ℕ
memcpy m d s n = memmove m d s n

-- `memset(d, c, n)`: whether by words or by bytes, each byte gets the low byte of `c`.
pub memset : (ℕ → ℕ) → ℕ → ℕ → ℕ → ℕ → ℕ
memset m d c zero = m
memset m d c (suc n) = memset (update m d (c % 256)) (d + 1) c n
