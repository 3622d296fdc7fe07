-- ===== src/Console/Lines.antt =====
-- What is typed on the console is what `consoleread` of console.c gives.
use xv6_system_calls.Prelude.{
  ℕ, zero, suc, ◌+◌, ◌%◌, ◌≤◌, ◌<◌, ◌≡◌, ◌≢◌, refl, ap, ◌∙◌, Bool, true, false, not, ◌&&◌, List, [],
  ◌∷◌, ◌++◌, ◌==◌, update, update_at, update_elsewhere, u32_mod, sub32, arith, ne→==, length,
  length-append, pos, returned, lt→ltb, ltb,
}
use mathlib.Core.List.{append_assoc}
use xv6_system_calls.Kernel.{Kernel}
use xv6_system_calls.Console.{
  Console, input_buf, add_byte, press, consoleintr, consoleread, control,
}

-- A key that is a byte and is only stored.
abbrev pub letter : ℕ → Bool
letter key =
    not (key == 0)
    && not (key == 4)
    && not (key == 8)
    && not (key == 10)
    && not (key == 13)
    && not (key == 16)
    && not (key == 21)
    && not (key == 127)
    && ltb key 256

abbrev pub AllLetters : List ℕ → Type 0
AllLetters [] = Unit {0}
AllLetters (key ∷ keys) = (letter key ≡ true) × AllLetters keys

-- The bytes from a counter on.
abbrev Holds : (ℕ → ℕ) → ℕ → List ℕ → Type 0
Holds buf at [] = Unit {0}
Holds buf at (b ∷ bs) = (buf (at % input_buf) ≡ b) × Holds buf ((at + 1) % u32_mod) bs

letter_parts : (key : ℕ) → letter key ≡ true → ((key == control 68) ≡ false) × ((key == 10) ≡ false)
letter_parts key h = ground arith

press-letter :
    (key : ℕ) (c : Console)
    → letter key ≡ true
    → sub32 c.e c.r < input_buf
    → (c.e + 1) % u32_mod ≢ (c.r + input_buf) % u32_mod
    → press key c ≡ (
      false,
      record c {
        buf = update c.buf (c.e % input_buf) key;
        e = (c.e + 1) % u32_mod;
        shown = key ∷ c.shown;
      },
    )
unfolding press add_byte
press-letter key c h room more = ground arith

press_newline :
    (c : Console)
    → sub32 c.e c.r < input_buf
    → press 10 c ≡ (
      true,
      record c {
        buf = update c.buf (c.e % input_buf) 10;
        w = (c.e + 1) % u32_mod;
        e = (c.e + 1) % u32_mod;
        shown = 10 ∷ c.shown;
      },
    )
unfolding press add_byte
press_newline c room = rw (lt→ltb (sub32 c.e c.r) input_buf room) refl

-- A byte that is stored behind others leaves them.
Holds-update :
    (buf : ℕ → ℕ) (at e b : ℕ) (bs : List ℕ)
    → at < u32_mod
    → e < u32_mod
    → length bs ≤ sub32 e at
    → sub32 e at < input_buf
    → Holds buf at bs
    → Holds (update buf (e % input_buf) b) at bs
Holds-update buf at e b [] low low' before room h = tt
Holds-update buf at e b (x ∷ bs) low low' before room h =
    let other : at % input_buf ≢ e % input_buf =
      λ same. omega (arith, same, before, room, low, low') in
    (
      update_elsewhere buf (e % input_buf) (at % input_buf) b other ∙ h.0,
      Holds-update buf ((at + 1) % u32_mod) e b bs (omega arith) low'
          (omega (arith, before, low, low')) (omega (arith, before, room, low, low')) h.1,
    )

Holds-last :
    (buf : ℕ → ℕ) (at e b : ℕ) (bs : List ℕ)
    → at < u32_mod
    → e < u32_mod
    → sub32 e at ≡ length bs
    → Holds buf at bs
    → buf (e % input_buf) ≡ b
    → Holds buf at (bs ++ (b ∷ []))
Holds-last buf at e b [] low low' here h last =
    let same : at ≡ e = omega (arith, here, low, low') in (rw same last, tt)
Holds-last buf at e b (x ∷ bs) low low' here h last = (
  h.0,
  Holds-last buf ((at + 1) % u32_mod) e b bs (omega arith) low' (omega (arith, here, low, low')) h.1
      last,
)

-- A console whose line so far is `bs`, after what was read.
pub record Line (bs : List ℕ) (c : Console) : Type 0 where
  pub small_r : c.r < u32_mod
  pub small_e : c.e < u32_mod
  pub size : sub32 c.e c.r ≡ length bs
  pub bytes : Holds c.buf c.r bs

module _ (bs : List ℕ) (c : Console) (is : Line bs c) (b : ℕ)
    (room : length bs + 1 < input_buf) where
  abbrev longer : Console
  longer = record c {
    buf = update c.buf (c.e % input_buf) b;
    e = (c.e + 1) % u32_mod;
    shown = b ∷ c.shown;
  }

  longer-Line : Line (bs ++ (b ∷ [])) longer
  longer-Line = record {
    small_r = is.small_r;
    small_e = omega arith;
    size = omega (arith, is.size, is.small_r, is.small_e, room, length-append bs (b ∷ []));
    bytes =
        Holds-last (update c.buf (c.e % input_buf) b) c.r c.e b bs is.small_r is.small_e is.size
          (Holds-update c.buf c.r c.e b bs is.small_r is.small_e (omega (arith, is.size))
            (omega (arith, is.size, room)) is.bytes)
          (update_at c.buf (c.e % input_buf) b);
  }

-- The line is complete: the bytes that readers may take.
pub record Ready (bs : List ℕ) (c : Console) : Type 0 where
  pub low_r : c.r < u32_mod
  pub low_w : c.w < u32_mod
  pub count : sub32 c.w c.r ≡ length bs
  pub held : Holds c.buf c.r bs

module _ {E : Type 0} where
  typed-Ready :
      (keys bs : List ℕ) (c : Console) (k : Kernel E)
      → Line bs c
      → AllLetters keys
      → length bs + length keys + 1 < input_buf
      → Ready (bs ++ (keys ++ (10 ∷ []))) (consoleintr (keys ++ (10 ∷ [])) c k).0
  unfolding consoleintr
  typed-Ready [] bs c k is all room =
      let more = longer-Line bs c is 10 (omega (arith, room)) in
      rw (press_newline c (omega (arith, is.size, room)))
        (record { low_r = is.small_r; low_w = omega arith; count = more.size; held = more.bytes })
  typed-Ready (key ∷ keys) bs c k is all room =
      let more = longer-Line bs c is key (omega (arith, room)) in
      let not_full : (c.e + 1) % u32_mod ≢ (c.r + input_buf) % u32_mod =
        λ full. omega (arith, full, is.size, is.small_r, is.small_e, room) in
      rw (press-letter key c all.0 (omega (arith, is.size, room)) not_full, consoleintr)
        (rw (append_assoc bs (key ∷ []) (keys ++ (10 ∷ []))) at (
          typed-Ready keys (bs ++ (key ∷ [])) (longer bs c is key (omega (arith, room))) k more
            all.1 (omega (arith, room, length-append bs (key ∷ [])))))

  consoleread-Ready :
      (cur n : ℕ) (keys got : List ℕ) (c : Console) (k : Kernel E)
      → AllLetters keys
      → Ready (keys ++ (10 ∷ [])) c
      → length keys < n
      → (consoleread cur n got c k).0
        ≡ returned (pos (length got + length keys + 1), got ++ (keys ++ (10 ∷ [])))
  unfolding consoleread
  consoleread-Ready cur zero keys got c k all is enough = absurd (omega (arith, enough))
  consoleread-Ready cur (suc n) [] got c k all is enough =
      let some_byte : (c.r == c.w) ≡ false =
        ne→== c.r c.w (λ same. omega (arith, same, is.count, is.low_r)) in
      let sum : length got + 1 ≡ length got + 0 + 1 = omega arith in
      rw (some_byte, is.held.0) (ap (λ m. returned (pos m, got ++ (10 ∷ []))) sum)
  consoleread-Ready cur (suc n) (key ∷ keys) got c k all is enough =
      let some_byte : (c.r == c.w) ≡ false =
        ne→== c.r c.w (λ same. omega (arith, same, is.count, is.low_r)) in
      let (no_end, no_newline) = letter_parts key all.0 in
      let next = record c { r = (c.r + 1) % u32_mod } in
      let rest : Ready (keys ++ (10 ∷ [])) next = record {
        low_r = omega arith;
        low_w = is.low_w;
        count = omega (arith, is.count, is.low_r, is.low_w);
        held = is.held.1;
      } in
      let sum : length (got ++ (key ∷ [])) + length keys + 1 ≡ length got + suc (length keys) + 1 =
        omega (arith, length-append got (key ∷ [])) in
      rw (some_byte, is.held.0, no_end, no_newline)
        (consoleread-Ready cur n keys (got ++ (key ∷ [])) next k all.1 rest (omega (arith, enough))
          ∙ ap (λ m. returned (pos m, (got ++ (key ∷ [])) ++ (keys ++ (10 ∷ [])))) sum
          ∙ ap (λ bytes. returned (pos (length got + suc (length keys) + 1), bytes))
              (append_assoc got (key ∷ []) (keys ++ (10 ∷ []))))

  -- On a console without input, whose counters are equal: a line of keys below 256 that are only
  -- stored, shorter than the buffer, and a newline, given to `consoleintr`, come back from one
  -- `consoleread` that asks for enough bytes, in their order and with the newline.
  pub consoleread-consoleintr :
      (keys : List ℕ) (cur n : ℕ) (c : Console) (k : Kernel E)
      → c.r < u32_mod
      → c.w ≡ c.r
      → c.e ≡ c.r
      → AllLetters keys
      → length keys + 1 < input_buf
      → length keys < n
      → (let (next, woken) = consoleintr (keys ++ (10 ∷ [])) c k in
          (consoleread cur n [] next woken).0)
        ≡ returned (pos (length keys + 1), keys ++ (10 ∷ []))
  consoleread-consoleintr keys cur n c k low written edited all room enough =
      let start : Line [] c = record {
        small_r = low;
        small_e = omega (arith, low, edited);
        size = omega (arith, edited, low);
        bytes = tt;
      } in
      let whole : 0 + length keys + 1 ≡ length keys + 1 = omega arith in
      consoleread-Ready cur n keys [] (consoleintr (keys ++ (10 ∷ [])) c k).0
        (consoleintr (keys ++ (10 ∷ [])) c k).1 all
        (typed-Ready keys [] c k start all (omega (arith, room))) enough
      ∙ ap (λ m. returned (pos m, keys ++ (10 ∷ []))) whole
