-- ===== src/Console/Editing.antt =====
-- What the keys that `consoleintr` of console.c takes do to the bytes that readers may take.
use xv6_system_calls.Prelude.{
  ℕ, zero, suc, ◌+◌, ◌%◌, ◌≤◌, ◌<◌, ◌≡◌, ◌≢◌, refl, ◌∙◌, inl, inr, Bool, true, false, not, ◌&&◌,
  ◌||◌, List, [], ◌∷◌, ◌==◌, ltb, if◌then◌else◌, update, update_elsewhere, u32_mod, sub32, arith,
  Bool-cases, eq→==,
}
use xv6_system_calls.Kernel.{Kernel, Chan}
use xv6_system_calls.Wakeup.{wakeup}
use xv6_system_calls.Console.{
  Console, input_buf, rub_out, kill_line, add_byte, press, consoleintr, stored, control,
}

-- The counters: what is read, what is written, what is edited, in this order, within the buffer.
pub record IsInput (c : Console) : Type 0 where
  pub small_r : c.r < u32_mod
  pub small_w : c.w < u32_mod
  pub small_e : c.e < u32_mod
  pub written : sub32 c.w c.r ≤ sub32 c.e c.r
  pub fits : sub32 c.e c.r ≤ input_buf

-- The bytes that readers may take stay, in their order; there may be more of them.
pub record KeepsReady (c c' : Console) : Type 0 where
  pub same_r : c'.r ≡ c.r
  pub more : sub32 c.w c.r ≤ sub32 c'.w c.r
  pub ready :
      (i : ℕ) → i < sub32 c.w c.r → c'.buf ((c.r + i) % input_buf) ≡ c.buf ((c.r + i) % input_buf)

KeepsReady-refl : (c : Console) → KeepsReady c c
KeepsReady-refl c = record { same_r = refl; more = omega arith; ready = λ i lt. refl }

KeepsReady-trans : (c mid c' : Console) → KeepsReady c mid → KeepsReady mid c' → KeepsReady c c'
KeepsReady-trans c mid c' one two = record {
  same_r = two.same_r ∙ one.same_r;
  more = let le = rw one.same_r at two.more in omega (arith, le, one.more);
  ready = λ i lt.
      let later = two.ready i (rw one.same_r (omega (arith, lt, one.more))) in
      (rw one.same_r at later) ∙ one.ready i lt;
}

rub_out-IsInput :
    (c : Console)
    → IsInput c
    → (c.e == c.w) ≡ false
    → IsInput (rub_out c) × KeepsReady c (rub_out c)
unfolding rub_out
rub_out-IsInput c is ne =
    let differ : c.e ≢ c.w = λ same. cc (ne, eq→== c.e c.w same) in
    (
      record {
        small_r = is.small_r;
        small_w = is.small_w;
        small_e = omega (arith, is.small_e);
        written = omega (arith, is.small_r, is.small_w, is.small_e, is.written, is.fits, differ);
        fits = omega (arith, is.small_r, is.small_w, is.small_e, is.written, is.fits, differ);
      },
      record { same_r = refl; more = omega arith; ready = λ i lt. refl },
    )

kill_line-IsInput :
    (fuel : ℕ) (c : Console)
    → IsInput c
    → IsInput (kill_line fuel c) × KeepsReady c (kill_line fuel c)
unfolding kill_line
kill_line-IsInput zero c is = (is, KeepsReady-refl c)
kill_line-IsInput (suc fuel) c is = elim (Bool-cases (c.e == c.w)) [
  | inl same ↦ rw same (is, KeepsReady-refl c)
  | inr ne ↦ elim (Bool-cases (c.buf (sub32 c.e 1 % input_buf) == 10)) [
    | inl newline ↦ rw (ne, newline) (is, KeepsReady-refl c)
    | inr other ↦
        let (is', keeps) = rub_out-IsInput c is ne in
        let (is'', keeps') = kill_line-IsInput fuel (rub_out c) is' in
        rw (ne, other) (is'', KeepsReady-trans c (rub_out c) _ keeps keeps')
  ]
]

not_last :
    (c : Console) (i : ℕ)
    → IsInput c
    → sub32 c.e c.r < input_buf
    → i < sub32 c.w c.r
    → (c.r + i) % input_buf ≢ c.e % input_buf
not_last c i is room lt =
    let low : i < sub32 c.e c.r = omega (arith, lt, is.written) in
    λ same. omega (arith, same, low, room, is.small_r, is.small_e)

module _ (b : ℕ) (c : Console) (is : IsInput c) (room : sub32 c.e c.r < input_buf) where
  abbrev added : Console
  added = record c {
    buf = update c.buf (c.e % input_buf) (b % 256);
    e = (c.e + 1) % u32_mod;
    shown = b ∷ c.shown;
  }

  one_more : sub32 added.e c.r ≡ sub32 c.e c.r + 1
  one_more = omega (arith, is.small_r, is.small_e, room)

  ready_kept :
      (i : ℕ)
      → i < sub32 c.w c.r
      → added.buf ((c.r + i) % input_buf) ≡ c.buf ((c.r + i) % input_buf)
  ready_kept i lt =
      update_elsewhere c.buf (c.e % input_buf) ((c.r + i) % input_buf) (b % 256)
        (not_last c i is room lt)

  add_byte-IsInput : IsInput (add_byte b c).1 × KeepsReady c (add_byte b c).1
  unfolding add_byte
  add_byte-IsInput =
      elim (Bool-cases (b == 10 || b == control 68 || added.e == (c.r + input_buf) % u32_mod)) [
        | inl ends ↦ rw ends (
          record {
            small_r = is.small_r;
            small_w = omega arith;
            small_e = omega arith;
            written = omega arith;
            fits = omega (arith, one_more, room);
          },
          record { same_r = refl; more = omega (arith, one_more, is.written); ready = ready_kept },
        )
        | inr goes_on ↦ rw goes_on (
          record {
            small_r = is.small_r;
            small_w = is.small_w;
            small_e = omega arith;
            written = omega (arith, one_more, is.written);
            fits = omega (arith, one_more, room);
          },
          record { same_r = refl; more = omega arith; ready = ready_kept },
        )
      ]

noted :
    (c : Console) (dump halt : Bool)
    → IsInput c
    → IsInput (record c { doprocdump = dump; shutdown = halt })
      × KeepsReady c (record c { doprocdump = dump; shutdown = halt })
noted c dump halt is = (
  record {
    small_r = is.small_r;
    small_w = is.small_w;
    small_e = is.small_e;
    written = is.written;
    fits = is.fits;
  },
  record { same_r = refl; more = omega arith; ready = λ i lt. refl },
)

press-IsInput :
    (key : ℕ) (c : Console) → IsInput c → IsInput (press key c).1 × KeepsReady c (press key c).1
unfolding press
press-IsInput key c is = elim (Bool-cases (key == control 80)) [
  | inl listing ↦ rw listing (noted c true c.shutdown is)
  | inr n1 ↦ elim (Bool-cases (key == control 68)) [
    | inl halt ↦ rw (n1, halt) (noted c c.doprocdump true is)
    | inr n2 ↦ elim (Bool-cases (key == control 85)) [
      | inl whole ↦ rw (n1, n2, whole) (kill_line-IsInput (sub32 c.e c.w) c is)
      | inr n3 ↦ elim (Bool-cases (key == control 72 || key == 0x7f)) [
        | inl rub ↦ elim (Bool-cases (c.e == c.w)) [
          | inl empty ↦ rw (n1, n2, n3, rub, empty) (is, KeepsReady-refl c)
          | inr ne ↦ rw (n1, n2, n3, rub, ne) (rub_out-IsInput c is ne)
        ]
        | inr n4 ↦ elim (Bool-cases (not (key == 0) && ltb (sub32 c.e c.r) input_buf)) [
          | inl typed ↦
              rw (n1, n2, n3, n4, typed) (add_byte-IsInput (stored key) c is (ground arith))
          | inr lost ↦ rw (n1, n2, n3, n4, lost) (is, KeepsReady-refl c)
        ]
      ]
    ]
  ]
]

module _ {E : Type 0} where
  -- Where the read, write and edit counters are in order and within the buffer, they are so after
  -- `consoleintr` has taken any keys; the read counter stays, and the bytes of complete lines that
  -- readers have not taken yet stay as they are, whatever is typed, erased or killed, also where
  -- the counters wrap around.
  pub consoleintr-KeepsReady :
      (keys : List ℕ) (c : Console) (k : Kernel E)
      → IsInput c
      → IsInput (consoleintr keys c k).0 × KeepsReady c (consoleintr keys c k).0
  unfolding consoleintr
  consoleintr-KeepsReady [] c k is = (is, KeepsReady-refl c)
  consoleintr-KeepsReady (key ∷ keys) c k is =
      let (is', keeps) = press-IsInput key c is in
      let (is'', keeps') =
        consoleintr-KeepsReady keys (press key c).1
          (if (press key c).0 then wakeup Chan.input_chan k else k) is' in
      (is'', KeepsReady-trans c (press key c).1 _ keeps keeps')
