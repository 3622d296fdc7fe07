-- ===== src/Pipe/Buffer.antt =====
-- The circular buffer of pipe.c is a bounded queue of bytes, across the wrap-around of its
-- 32-bit counters.
use mathlib.Core.List.{append_assoc}
use xv6_system_calls.Prelude.{
  ℕ, zero, suc, ◌+◌, ◌-◌, ◌%◌, ◌≤◌, ◌<◌, ◌≡◌, refl, ap, ◌∙◌, ◌⊎◌, inl, inr, ◌≢◌, ne→==, eq→==, true,
  false, List, [], ◌∷◌, ◌++◌, arith, Bool-cases, update, u32_mod, length, take, drop,
}
use xv6_system_calls.Kernel.{PipeBuf}
use xv6_system_calls.Pipe.{
  pipesize, pipe_full, pipe_empty, put_byte, drop_byte, put_bytes, get_bytes,
}

-- The number of bytes in the pipe.
abbrev pub fill : PipeBuf → ℕ
fill p = (p.nwrite + u32_mod - p.nread) % u32_mod

-- The `n` bytes from the counter `r` on.
pub window : (ℕ → ℕ) → ℕ → ℕ → List ℕ
window bytes r zero = []
window bytes r (suc n) = bytes (r % pipesize) ∷ window bytes ((r + 1) % u32_mod) n

-- What has been written and not yet read, oldest first.
abbrev pub contents : PipeBuf → List ℕ
contents p = window p.bytes p.nread (fill p)

pub record IsPipe (p : PipeBuf) : Type 0 where
  pub nread_word : p.nread < u32_mod
  pub nwrite_word : p.nwrite < u32_mod
  pub bounded : fill p ≤ pipesize

length-window : (bytes : ℕ → ℕ) (r n : ℕ) → length (window bytes r n) ≡ n
unfolding window
length-window bytes r zero = refl
length-window bytes r (suc n) = omega (arith, length-window bytes ((r + 1) % u32_mod) n)

window-update :
    (bytes : ℕ → ℕ) (w b r n d : ℕ)
    → r < u32_mod
    → w < u32_mod
    → (w + u32_mod - r) % u32_mod ≡ d
    → n ≤ d
    → d < pipesize
    → window (update bytes (w % pipesize) b) r n ≡ window bytes r n
unfolding window
window-update bytes w b r zero d hr hw e le lt = refl
window-update bytes w b r (suc n) d hr hw e le lt =
    let apart : r % pipesize ≢ w % pipesize = omega arith in
    rw (
      ne→== (r % pipesize) (w % pipesize) apart,
      window-update bytes w b ((r + 1) % u32_mod) n (d - 1) (omega arith) hw (omega arith)
          (omega arith) (omega arith),
    )

window-snoc :
    (bytes : ℕ → ℕ) (w r n : ℕ)
    → r < u32_mod
    → w < u32_mod
    → (w + u32_mod - r) % u32_mod ≡ n
    → window bytes r (suc n) ≡ window bytes r n ++ bytes (w % pipesize) ∷ []
unfolding window
window-snoc bytes w r zero hr hw e = let same : r ≡ w = omega arith in rw same
window-snoc bytes w r (suc n) hr hw e =
    ap (λ rest. bytes (r % pipesize) ∷ rest)
      (window-snoc bytes w ((r + 1) % u32_mod) n (omega arith) hw (omega arith))

module _ (p : PipeBuf) (is : IsPipe p) where
  open is use {nread_word, nwrite_word, bounded}

  pub pipe_full-fill : pipe_full p ≡ false → fill p < pipesize
  pipe_full-fill h = ground arith

  fill-full : pipe_full p ≡ true → fill p ≡ pipesize
  fill-full h = ground arith

  put_byte-IsPipe : (b : ℕ) → fill p < pipesize → IsPipe (put_byte p b)
  put_byte-IsPipe b room = record {
    nread_word = nread_word;
    nwrite_word = omega arith;
    bounded = omega arith;
  }

  contents-put_byte : (b : ℕ) → fill p < pipesize → contents (put_byte p b) ≡ contents p ++ b ∷ []
  contents-put_byte b room =
      let more : (((p.nwrite + 1) % u32_mod) + u32_mod - p.nread) % u32_mod ≡ suc (fill p) =
        omega arith in
      rw more (
        window-snoc (update p.bytes (p.nwrite % pipesize) b) p.nwrite p.nread (fill p) nread_word
          nwrite_word refl
        ∙ rw (
          window-update p.bytes p.nwrite b p.nread (fill p) (fill p) nread_word nwrite_word refl
              (omega arith) room,
          eq→== (p.nwrite % pipesize) (p.nwrite % pipesize) refl,
        ))

  contents-drop_byte :
      pipe_empty p ≡ false → contents p ≡ p.bytes (p.nread % pipesize) ∷ contents (drop_byte p)
  unfolding window
  contents-drop_byte more =
      let apart : p.nread ≢ p.nwrite = ground arith in
      let less : fill p ≡ suc (fill (drop_byte p)) = omega arith in rw less

  drop_byte-IsPipe : pipe_empty p ≡ false → IsPipe (drop_byte p)
  drop_byte-IsPipe more =
      let apart : p.nread ≢ p.nwrite = ground arith in
      record { nread_word = omega arith; nwrite_word = nwrite_word; bounded = omega arith }

  contents-empty : pipe_empty p ≡ true → contents p ≡ []
  unfolding window
  contents-empty none_left =
      let same : p.nread ≡ p.nwrite = ground arith in
      let zero_fill : fill p ≡ 0 = omega arith in rw zero_fill

-- On a well-formed pipe, the copying loop of `pipewrite` appends what it takes of its bytes to the
-- pipe's contents, keeps the pipe well formed, and stops early only where the pipe is full.
pub put_bytes-queue :
    (p : PipeBuf) (src : List ℕ)
    → IsPipe p
    → IsPipe (put_bytes p src).0
      × (contents (put_bytes p src).0 ++ (put_bytes p src).1 ≡ contents p ++ src)
      × (((put_bytes p src).1 ≡ []) ⊎ (fill (put_bytes p src).0 ≡ pipesize))
unfolding put_bytes
put_bytes-queue p [] is = (is, refl, inl refl)
put_bytes-queue p (b ∷ bs) is = elim (Bool-cases (pipe_full p)) [
  | inl full ↦ rw full (is, refl, inr (fill-full p is full))
  | inr room ↦
      let lt = pipe_full-fill p is room in
      let (is', same, stop) = put_bytes-queue (put_byte p b) bs (put_byte-IsPipe p is b lt) in
      rw room (is', same ∙ rw (contents-put_byte p is b lt) (append_assoc (contents p) _ _), stop)
]

-- On a well-formed pipe, the copying loop of `piperead` hands out the oldest bytes, as many as it
-- is asked for or as there are, leaves the others, and keeps the pipe well formed.
pub get_bytes-queue :
    (p : PipeBuf) (n : ℕ)
    → IsPipe p
    → IsPipe (get_bytes p n).0
      × ((get_bytes p n).1 ≡ take n (contents p))
      × (contents (get_bytes p n).0 ≡ drop n (contents p))
unfolding get_bytes
get_bytes-queue p zero is = (is, refl, refl)
get_bytes-queue p (suc n) is = elim (Bool-cases (pipe_empty p)) [
  | inl empty ↦ rw (empty, contents-empty p is empty) (is, refl, refl)
  | inr more ↦
      let (is', got, left) = get_bytes-queue (drop_byte p) n (drop_byte-IsPipe p is more) in
      rw (more, contents-drop_byte p is more)
        (is', ap (λ t. p.bytes (p.nread % pipesize) ∷ t) got, left)
]

-- Bytes that fit are all taken.
pub put_bytes-all :
    (p : PipeBuf) (src : List ℕ)
    → IsPipe p
    → fill p + length src ≤ pipesize
    → (put_bytes p src).1 ≡ []
unfolding put_bytes
put_bytes-all p [] is fits = refl
put_bytes-all p (b ∷ bs) is fits =
    let room : pipe_full p ≡ false = ground (arith, fill-full p is) in
    let lt = pipe_full-fill p is room in
    rw room (put_bytes-all (put_byte p b) bs (put_byte-IsPipe p is b lt) (omega arith))

-- Neither loop opens or closes an end.
pub put_bytes-ends :
    (p : PipeBuf) (src : List ℕ)
    → ((put_bytes p src).0.readopen ≡ p.readopen) × ((put_bytes p src).0.writeopen ≡ p.writeopen)
unfolding put_bytes
put_bytes-ends p [] = (refl, refl)
put_bytes-ends p (b ∷ bs) = ground (arith, put_bytes-ends (put_byte p b) bs)

pub contents→more : (p : PipeBuf) → IsPipe p → contents p ≢ [] → pipe_empty p ≡ false
contents→more p is h = elim (Bool-cases (pipe_empty p)) [
  | inl e ↦ absurd (h (contents-empty p is e))
  | inr e ↦ e
]

pub full→contents : (p : PipeBuf) → fill p ≡ pipesize → contents p ≢ []
full→contents p h e = absurd (omega (arith, ap length e, length-window p.bytes p.nread (fill p)))
