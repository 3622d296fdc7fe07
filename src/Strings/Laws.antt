-- ===== src/Strings/Laws.antt =====
-- The string functions of string.c, byte by byte.
use xv6_system_calls.Prelude.{
  ℕ, zero, suc, ◌+◌, ◌-◌, ◌≤◌, ◌<◌, ◌≡◌, ◌≢◌, refl, ap, ◌∙◌, ◌⊎◌, inl, inr, false, ◌&&◌, not, arith,
  ◌==◌, ltb, leb, Bool-cases, update, eq→==, ne→==, ==→eq, pos,
}
use native.Mathlib.Decide.{dec_lt}
use xv6_system_calls.Strings.{byte_diff, memcmp, strncmp, copy_up, copy_down, memmove}

update-other : (m : ℕ → ℕ) (i v j : ℕ) → j ≢ i → update m i v j ≡ m j
update-other m i v j ne = rw (ne→== j i ne) refl

update-same : (m : ℕ → ℕ) (i v j : ℕ) → j ≡ i → update m i v j ≡ v
update-same m i v j e = rw (eq→== j i e) refl

copy_up-outside : (m : ℕ → ℕ) (d s n a : ℕ) → (a < d) ⊎ (d + n ≤ a) → copy_up m d s n a ≡ m a
unfolding copy_up
copy_up-outside m d s zero a out = refl
copy_up-outside m d s (suc n) a out =
    copy_up-outside (update m d (m s)) (d + 1) (s + 1) n a (grind arith)
    ∙ update-other m d (m s) a (grind arith)

copy_up-inside :
    (m : ℕ → ℕ) (d s n a b : ℕ)
    → (d ≤ s) ⊎ (s + n ≤ d)
    → d ≤ a
    → a < d + n
    → a + s ≡ b + d
    → copy_up m d s n a ≡ m b
unfolding copy_up
copy_up-inside m d s zero a b apart lo hi e = absurd (omega arith)
copy_up-inside m d s (suc n) a b apart lo hi e = elim (dec_lt d a) [
  | yes after ↦
      copy_up-inside (update m d (m s)) (d + 1) (s + 1) n a b (grind arith) (omega arith)
        (omega arith) (omega arith)
      ∙ update-other m d (m s) b (grind arith)
  | no first_byte ↦
      let it : s ≡ b = omega arith in
      copy_up-outside (update m d (m s)) (d + 1) (s + 1) n a (inl (omega arith))
      ∙ update-same m d (m s) a (omega arith)
      ∙ ap m it
]

copy_down-outside : (m : ℕ → ℕ) (d s n a : ℕ) → (a < d) ⊎ (d + n ≤ a) → copy_down m d s n a ≡ m a
unfolding copy_down
copy_down-outside m d s zero a out = refl
copy_down-outside m d s (suc n) a out =
    copy_down-outside (update m (d + n) (m (s + n))) d s n a (grind arith)
    ∙ update-other m (d + n) (m (s + n)) a (grind arith)

copy_down-inside :
    (m : ℕ → ℕ) (d s n a b : ℕ)
    → s < d
    → d ≤ a
    → a < d + n
    → a + s ≡ b + d
    → copy_down m d s n a ≡ m b
unfolding copy_down
copy_down-inside m d s zero a b before lo hi e = absurd (omega arith)
copy_down-inside m d s (suc n) a b before lo hi e = elim (dec_lt a (d + n)) [
  | yes inner ↦
      copy_down-inside (update m (d + n) (m (s + n))) d s n a b before lo inner e
      ∙ update-other m (d + n) (m (s + n)) b (omega arith)
  | no last_byte ↦
      let it : s + n ≡ b = omega arith in
      copy_down-outside (update m (d + n) (m (s + n))) d s n a (inr (omega arith))
      ∙ update-same m (d + n) (m (s + n)) a (omega arith)
      ∙ ap m it
]

-- `memmove` copies each byte of the source as it was before the call, also where source and
-- destination overlap, and leaves every byte outside of the destination as it was.
pub memmove-bytes :
    (m : ℕ → ℕ) (d s n i a : ℕ)
    → i < n
    → (a < d) ⊎ (d + n ≤ a)
    → (memmove m d s n (d + i) ≡ m (s + i)) × (memmove m d s n a ≡ m a)
unfolding memmove
memmove-bytes m d s n i a lt out = elim (Bool-cases (ltb s d && ltb d (s + n))) [
  | inl e ↦
      let before : s < d = ground arith in
      rw e (
        copy_down-inside m d s n (d + i) (s + i) before (omega arith) (omega arith) (omega arith),
        copy_down-outside m d s n a out,
      )
  | inr e ↦ rw e (
    copy_up-inside m d s n (d + i) (s + i) (apart e) (omega arith) (omega arith) (omega arith),
    copy_up-outside m d s n a out,
  )
]
  where
    apart : (ltb s d && ltb d (s + n)) ≡ false → (d ≤ s) ⊎ (s + n ≤ d)
    apart e = elim (dec_lt s d) [ yes before ↦ inr (ground arith) | no behind ↦ inl (omega arith) ]

byte_diff-zero : (a b : ℕ) → byte_diff a b ≡ pos 0 → a ≡ b
byte_diff-zero a b h = elim (Bool-cases (leb b a)) [
  | inl e ↦
      let le : b ≤ a = ground arith in
      let none_over : a - b ≡ 0 = pos-injective (rw e at h) in omega arith
  | inr e ↦ absurd (cc (rw e at h))
]
  where
    pos-injective : {x y : ℕ} → pos x ≡ pos y → x ≡ y
    pos-injective h' = cc

-- S
pub memcmp-zero :
    (s1 s2 : ℕ → ℕ) (n i j : ℕ) → memcmp s1 s2 n i ≡ pos 0 → i ≤ j → j < i + n → s1 j ≡ s2 j
unfolding memcmp
memcmp-zero s1 s2 zero i j h lo hi = absurd (omega arith)
memcmp-zero s1 s2 (suc n) i j h lo hi = elim (Bool-cases (s1 i == s2 i)) [
  | inl e ↦ elim (dec_lt i j) [
    | yes after ↦ memcmp-zero s1 s2 n (i + 1) j (rw e at h) (omega arith) (omega arith)
    | no here ↦ let it : i ≡ j = omega arith in rw (← it) (==→eq (s1 i) (s2 i) e)
  ]
  | inr e ↦ absurd (ground (arith, byte_diff-zero (s1 i) (s2 i) (rw e at h)))
]

-- Where `strncmp` returns 0, the two strings agree at each of the bytes that it may compare up to,
-- and with, the first NUL.
strncmp-zero :
    (p q : ℕ → ℕ) (n i j : ℕ)
    → strncmp p q n i ≡ pos 0
    → i ≤ j
    → j < i + n
    → ((x : ℕ) → i ≤ x → x < j → p x ≢ 0)
    → p j ≡ q j
unfolding strncmp
strncmp-zero p q zero i j h lo hi some_left = absurd (omega arith)
strncmp-zero p q (suc n) i j h lo hi some_left =
    elim (Bool-cases (not (p i == 0) && (p i == q i))) [
      | inl e ↦
          let same : p i ≡ q i = ground arith in
          elim (dec_lt i j) [
            | yes after ↦
                strncmp-zero p q n (i + 1) j (rw e at h) (omega arith) (omega arith)
                  (λ x lo' hi'. some_left x (omega arith) hi')
            | no here ↦ let it : i ≡ j = omega arith in rw (← it) same
          ]
      | inr e ↦
          let same : p i ≡ q i = byte_diff-zero (p i) (q i) (rw e at h) in
          elim (dec_lt i j) [
            | yes after ↦ absurd (ground (arith, some_left i (omega arith) after))
            | no here ↦ let it : i ≡ j = omega arith in rw (← it) same
          ]
    ]
