-- ===== src/Shell/Tokens.antt =====
-- The tokens of sh.c take what they name: how much of a text is left after one.
use xv6_system_calls.Prelude.{
  ℕ, ◌≤◌, ◌<◌, ◌≡◌, ◌⊎◌, refl, ap, inl, inr, true, false, ◌||◌, List, [], ◌∷◌, ◌==◌, length, arith,
  Bool-cases,
}
use xv6_system_calls.Shell.{
  has, whitespace, symbols, skip, word, after_greater, token, gettoken, starts,
}
use xv6_system_calls.Shell.Sentences.{length-skip}

length-word : (s : List ℕ) → length (word s).1 ≤ length s
unfolding word
length-word [] = omega arith
length-word (c ∷ s) = elim (Bool-cases (has whitespace c || has symbols c)) [
  | inl e ↦ rw e (omega arith)
  | inr e ↦ rw e (omega (arith, length-word s))
]

length-greater : (s : List ℕ) → length (after_greater s).2 ≤ length s
unfolding after_greater
length-greater [] = omega arith
length-greater (c ∷ s) = elim (Bool-cases (c == 62)) [
  | inl e ↦ rw e (omega arith)
  | inr e ↦ rw e (omega arith)
]

greater_token : (s : List ℕ) → ((after_greater s).0 == 0) ≡ false
unfolding after_greater
greater_token [] = refl
greater_token (c ∷ s) = elim (Bool-cases (c == 62)) [ inl e ↦ rw e refl | inr e ↦ rw e refl ]

end_token : (token []).0 ≡ 0
unfolding token
end_token = refl

length-token : (s : List ℕ) → length (token s).2 ≤ length s
unfolding token
length-token [] = omega arith
length-token (c ∷ s) = elim (Bool-cases (c == 0)) [
  | inl e ↦ rw e (omega arith)
  | inr e ↦ elim (Bool-cases (c == 62)) [
    | inl e' ↦ rw (e, e') (omega (arith, length-greater s))
    | inr e' ↦ elim (Bool-cases (has symbols c)) [
      | inl e'' ↦ rw (e, e', e'') (omega arith)
      | inr e'' ↦ rw (e, e', e'') (length-word (c ∷ s))
    ]
  ]
]

-- A token that is not the end takes a byte.
token_shorter :
    (c : ℕ) (s : List ℕ)
    → has whitespace c ≡ false
    → ((token (c ∷ s)).0 == 0) ≡ false
    → length (token (c ∷ s)).2 < length (c ∷ s)
unfolding token word
token_shorter c s solid some_token = elim (Bool-cases (c == 0)) [
  | inl e ↦ absurd (cc (rw e at some_token))
  | inr e ↦ elim (Bool-cases (c == 62)) [
    | inl e' ↦ rw (e, e') (omega (arith, length-greater s))
    | inr e' ↦ elim (Bool-cases (has symbols c)) [
      | inl e'' ↦ rw (e, e', e'') (omega arith)
      | inr e'' ↦ rw (e, e', e'', solid) (omega (arith, length-word s))
    ]
  ]
]

starts-token :
    (toks : List ℕ) (c : ℕ) (s : List ℕ)
    → starts toks (c ∷ s) ≡ true
    → ((token (c ∷ s)).0 == 0) ≡ false
unfolding starts token after_greater
starts-token toks c s h = elim (Bool-cases (c == 0)) [
  | inl e ↦ absurd (cc (rw e at h))
  | inr e ↦ elim (Bool-cases (c == 62)) [
    | inl e' ↦ rw (e, e') (greater_token s)
    | inr e' ↦ elim (Bool-cases (has symbols c)) [
      | inl e'' ↦ rw (e, e', e'') e
      | inr e'' ↦ rw (e, e', e'') refl
    ]
  ]
]

skip_cases :
    (s : List ℕ)
    → (skip s ≡ []) ⊎ ((c : ℕ) × (s' : List ℕ) × (skip s ≡ c ∷ s') × (has whitespace c ≡ false))
unfolding skip
skip_cases [] = inl refl
skip_cases (c ∷ s) = elim (Bool-cases (has whitespace c)) [
  | inl e ↦ rw e (skip_cases s)
  | inr e ↦ inr (c, s, rw e refl, e)
]

pub gettoken_shorter :
    (s : List ℕ) → ((gettoken s).0 == 0) ≡ false → length (gettoken s).2 < length s
unfolding gettoken
gettoken_shorter s some_token = elim (skip_cases s) [
  | inl e ↦ absurd (cc (rw (e, end_token) at some_token))
  | inr (c, s', e, solid) ↦
      let shorter = token_shorter c s' solid (rw e at some_token) in
      rw e (omega (arith, shorter, length-skip (token (c ∷ s')).2, length-skip s, ap length e))
]

pub length-gettoken : (s : List ℕ) → length (gettoken s).2 ≤ length s
unfolding gettoken
length-gettoken s =
    omega (arith, length-skip s, length-token (skip s), length-skip (token (skip s)).2)

seen :
    (toks : List ℕ) (c : ℕ) (s : List ℕ)
    → has whitespace c ≡ false
    → starts toks (c ∷ s) ≡ true
    → ((gettoken (c ∷ s)).0 == 0) ≡ false
unfolding gettoken skip
seen toks c s solid h = rw solid (starts-token toks c s h)

-- A token that `peek` has seen takes a byte.
pub starts-gettoken :
    (toks s : List ℕ) → starts toks (skip s) ≡ true → length (gettoken (skip s)).2 < length s
unfolding starts
starts-gettoken toks s h = elim (skip_cases s) [
  | inl e ↦ absurd (cc (rw e at h))
  | inr (c, s', e, solid) ↦
      omega
        (arith, gettoken_shorter (skip s) (rw e (seen toks c s' solid (rw e at h))), length-skip s)
]
