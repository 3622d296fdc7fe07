-- ===== src/Ulib.antt =====
-- The user library: the numbers of ulib.c (`atoi`, `atoo`) and of printf.c (`printint`). A string
-- is the list of its bytes, without the NUL at its end; an `int` is its 32-bit word.
pub mod RoundTrip
use xv6_system_calls.Prelude.{
  ℕ, zero, suc, ◌+◌, ◌-◌, ◌*◌, ◌/◌, ◌%◌, ◌^◌, Bool, true, false, ◌&&◌, ◌||◌, List, [], ◌∷◌, ◌++◌,
  ◌==◌, leb, if◌then◌else◌, u32_mod,
}

-- ' ', '+', '-', '0'
abbrev pub space : ℕ
space = 32

abbrev pub plus : ℕ
plus = 43

abbrev pub minus : ℕ
minus = 45

abbrev pub digit_zero : ℕ
digit_zero = 48

-- `while (*s == ' ') s++;`
unfoldable pub skip_spaces : List ℕ → List ℕ
skip_spaces [] = []
skip_spaces (c ∷ cs) = if c == space then skip_spaces cs else c ∷ cs

-- `'0' <= c && c <= last`
abbrev pub is_digit : ℕ → ℕ → Bool
is_digit last c = leb digit_zero c && leb c last

-- `n*base + c - '0'`, on an `int`
abbrev pub add_digit : ℕ → ℕ → ℕ → ℕ
add_digit base n c = (n * base + c + u32_mod - digit_zero) % u32_mod

-- The loop over the digits, up to `last`.
unfoldable pub read_digits : ℕ → ℕ → ℕ → List ℕ → ℕ
read_digits base last n [] = n
read_digits base last n (c ∷ cs) =
    let rest = read_digits base last (add_digit base n c) cs in if is_digit last c then rest else n

-- `-n`, on an `int`
abbrev pub negate : ℕ → ℕ
negate n = (u32_mod - n) % u32_mod

unfoldable pub read_signed : ℕ → ℕ → List ℕ → ℕ
read_signed base last [] = 0
read_signed base last (c ∷ cs) =
    if c == minus
    then negate (read_digits base last 0 cs)
    else if c == plus
    then read_digits base last 0 cs
    else read_digits base last 0 (c ∷ cs)

-- `atoi`
unfoldable pub atoi : List ℕ → ℕ
unfolding read_signed
atoi s = read_signed 10 57 (skip_spaces s)

-- `atoo`
unfoldable pub atoo : List ℕ → ℕ
unfolding read_signed
atoo s = read_signed 8 55 (skip_spaces s)

-- `digits[d]`
abbrev pub digit : ℕ → ℕ
digit d = if leb 10 d then 55 + d else digit_zero + d

-- The `do` loop of `printint`, in at most `fuel` rounds: what it puts into `buf`.
unfoldable pub put_digits : ℕ → ℕ → ℕ → List ℕ
put_digits zero base x = []
put_digits (suc fuel) base x =
    let rest = put_digits fuel base (x / base) in
    digit (x % base) ∷ (if x / base == 0 then [] else rest)

-- `while(--i >= 0) putc(fd, buf[i]);`
unfoldable pub put_back : List ℕ → List ℕ
put_back [] = []
put_back (c ∷ cs) = put_back cs ++ c ∷ []

-- `printint`: the bytes that it writes. `buf` has 16 bytes.
unfoldable pub printint : ℕ → ℕ → Bool → List ℕ
unfolding put_back put_digits
printint xx base sgn =
    let neg = sgn && leb (2 ^ 31) xx in
    if neg
    then put_back (put_digits 16 base (negate xx) ++ minus ∷ [])
    else put_back (put_digits 16 base xx)
