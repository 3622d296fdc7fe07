-- ===== src/Console.antt =====
-- The input of console.c: `consoleintr` with its line editing, and `consoleread`. `r`, `w` and `e`
-- count bytes in 32 bits. What `consputc` shows is a list, the newest first.
pub mod Editing
pub mod Lines
use xv6_system_calls.Prelude.{
  ℕ, zero, suc, ◌+◌, ◌-◌, ◌%◌, Bool, true, false, not, ◌&&◌, ◌||◌, List, [], ◌∷◌, ◌++◌, ◌==◌, ltb,
  if◌then◌else◌, update, u32_mod, sub32, Progress, returned, asleep, ℤ, pos, minus_one, length,
}
use xv6_system_calls.Kernel.{Kernel, Chan}
use xv6_system_calls.Wakeup.{wakeup, fall_asleep}

abbrev pub input_buf : ℕ
input_buf = 128

-- `C('P')`, `C('D')`, `C('U')` and `C('H')`
abbrev pub control : ℕ → ℕ
control c = c - 64

abbrev pub backspace : ℕ
backspace = 0x100

-- `input`, and what `consoleintr` notes for later.
pub record Console : Type 0 where
  pub buf : ℕ → ℕ
  pub r : ℕ
  pub w : ℕ
  pub e : ℕ
  pub shown : List ℕ
  pub doprocdump : Bool
  pub shutdown : Bool

-- `input.e--; consputc(BACKSPACE);`
unfoldable pub rub_out : Console → Console
rub_out c = record c { e = sub32 c.e 1; shown = backspace ∷ c.shown }

-- The loop of `C('U')`, in at most `fuel` rounds.
unfoldable pub kill_line : ℕ → Console → Console
unfolding rub_out
kill_line zero c = c
kill_line (suc fuel) c =
    let rest = kill_line fuel (rub_out c) in
    if not (c.e == c.w) && not (c.buf (sub32 c.e 1 % input_buf) == 10) then rest else c

-- The byte that is stored for a key: a carriage return counts as a newline.
abbrev pub stored : ℕ → ℕ
stored key = if key == 13 then 10 else key

-- A key goes into the line as a `char`, and the line is given to the readers where it is
-- complete.
unfoldable pub add_byte : ℕ → Console → Bool × Console
add_byte b c =
    let added = record c {
      buf = update c.buf (c.e % input_buf) (b % 256);
      e = (c.e + 1) % u32_mod;
      shown = b ∷ c.shown;
    } in
    if b == 10 || b == control 68 || added.e == (c.r + input_buf) % u32_mod
    then (true, record added { w = added.e })
    else (false, added)

-- One key of `consoleintr`: whether it wakes the readers, and the console after it.
unfoldable pub press : ℕ → Console → Bool × Console
unfolding rub_out kill_line add_byte
press key c =
    if key == control 80
    then (false, record c { doprocdump = true })
    else if key == control 68
    then (false, record c { shutdown = true })
    else if key == control 85
    then (false, kill_line (sub32 c.e c.w) c)
    else if key == control 72 || key == 0x7f
    then (false, if c.e == c.w then c else rub_out c)
    else if not (key == 0) && ltb (sub32 c.e c.r) input_buf
    then add_byte (stored key) c
    else (false, c)

module _ {E : Type 0} where
  -- The loop of `consoleintr` over the keys that `getc` gives.
  unfoldable pub consoleintr : List ℕ → Console → Kernel E → Console × Kernel E
  consoleintr [] c k = (c, k)
  consoleintr (key ∷ keys) c k =
      let (wakes, next) = press key c in
      consoleintr keys next (if wakes then wakeup Chan.input_chan k else k)

  -- `consoleread`, of `n` bytes more after those of `got`: the bytes, or where it sleeps. It goes
  -- to sleep where no complete line is left.
  unfoldable pub consoleread :
      ℕ → ℕ → List ℕ → Console → Kernel E → Progress (ℤ × List ℕ) (ℕ × List ℕ) × Console × Kernel E
  consoleread cur zero got c k = (returned (pos (length got), got), c, k)
  consoleread cur (suc n) got c k =
      let b = c.buf (c.r % input_buf) in
      let next = record c { r = (c.r + 1) % u32_mod } in
      let rest = consoleread cur n (got ++ (b ∷ [])) next k in
      if c.r == c.w
      then if (k.procs cur).killed
        then (returned (minus_one, got), c, k)
        else (asleep (suc n, got), c, fall_asleep cur Chan.input_chan k)
      else if b == control 68
      then (returned (pos (length got), got), if length got == 0 then next else c, k)
      else if b == 10
      then (returned (pos (length got + 1), got ++ (b ∷ [])), next, k)
      else rest
