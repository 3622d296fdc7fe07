-- ===== src/Shell/Reads.antt =====
-- The tokens of a text that the grammar gives, and the steps of the parser of sh.c over them.
use xv6_system_calls.Prelude.{
  ℕ, zero, suc, ◌<◌, ◌≡◌, ◌⊎◌, refl, ap, inl, inr, Bool, true, false, ◌||◌, List, [], ◌∷◌, ◌++◌,
  ◌==◌, if◌then◌else◌, length, arith, Bool-cases, ==→eq, ok,
}
use mathlib.Core.List.{append_assoc}
use xv6_system_calls.Shell.{
  Cmd, has, whitespace, symbols, skip, word, token, gettoken, after_greater, starts, redirect,
  parseredirs,
}
use xv6_system_calls.Shell.Grammar.{
  Redirection, plain, AllPlain, IsWord, AreRedirections, redirections_text, around,
}

-- A text that is empty or starts with one of `toks`.
abbrev pub stops : List ℕ → List ℕ → Bool
stops toks [] = true
stops toks (c ∷ s) = has toks c

-- A byte that ends a word.
abbrev pub ends_word : List ℕ → Bool
ends_word [] = true
ends_word (c ∷ s) = has whitespace c || has symbols c

pub plain_parts :
    (c : ℕ)
    → plain c ≡ true
    → (has whitespace c ≡ false) × (has symbols c ≡ false) × ((c == 0) ≡ false)
unfolding plain
plain_parts c h = ground arith

word-append : (w s : List ℕ) → AllPlain w → ends_word s ≡ true → word (w ++ s) ≡ (w, s)
unfolding word
word-append [] [] all stop = refl
word-append [] (c ∷ s) all stop = rw stop refl
word-append (c ∷ w) s all stop =
    let (space, symbol, nul) = plain_parts c all.0 in
    rw (space, symbol, word-append w s all.1 stop) refl

greater_symbol : has symbols 62 ≡ true
unfolding has
greater_symbol = refl

pub plain_other : (c : ℕ) → plain c ≡ true → (c == 62) ≡ false
plain_other c h = elim (Bool-cases (c == 62)) [
  | inl same ↦ absurd (cc (greater_symbol, ap (has symbols) (==→eq c 62 same), (plain_parts c h).1))
  | inr other ↦ other
]

token-word : (w s : List ℕ) → IsWord w → ends_word s ≡ true → token (w ++ s) ≡ (97, w, s)
unfolding token
token-word [] s (some_byte, all) stop = absurd (omega (arith, some_byte))
token-word (c ∷ w) s (some_byte, all) stop =
    let (space, symbol, nul) = plain_parts c all.0 in
    rw (nul, plain_other c all.0, symbol, word-append (c ∷ w) s all stop) refl

pub skip-word : (w s : List ℕ) → IsWord w → skip (w ++ s) ≡ w ++ s
unfolding skip
skip-word [] s (some_byte, all) = absurd (omega (arith, some_byte))
skip-word (c ∷ w) s (some_byte, all) = rw (plain_parts c all.0).0 refl

pub gettoken-word :
    (w s : List ℕ) → IsWord w → ends_word s ≡ true → gettoken (w ++ s) ≡ (97, w, skip s)
unfolding gettoken
gettoken-word w s is stop = rw (skip-word w s is, token-word w s is stop) refl

-- What may follow a simple command or a block.
abbrev pub enders : List ℕ
enders = 124 ∷ 41 ∷ 38 ∷ 59 ∷ []

pub ender_bytes : (c : ℕ) → has enders c ≡ true → (c ≡ 124) ⊎ (c ≡ 41) ⊎ (c ≡ 38) ⊎ (c ≡ 59)
unfolding has
ender_bytes c h = ground arith

pub skip-stops : (s : List ℕ) → stops enders s ≡ true → skip s ≡ s
unfolding skip has
skip-stops [] h = refl
skip-stops (c ∷ s) h = elim (ender_bytes c h) [
  | inl e ↦ rw e refl
  | inr (inl e) ↦ rw e refl
  | inr (inr (inl e)) ↦ rw e refl
  | inr (inr (inr e)) ↦ rw e refl
]

pub ends_word-stops : (s : List ℕ) → stops enders s ≡ true → ends_word s ≡ true
unfolding has
ends_word-stops [] h = refl
ends_word-stops (c ∷ s) h = elim (ender_bytes c h) [
  | inl e ↦ rw e refl
  | inr (inl e) ↦ rw e refl
  | inr (inr (inl e)) ↦ rw e refl
  | inr (inr (inr e)) ↦ rw e refl
]

starts-stops : (s : List ℕ) → stops enders s ≡ true → starts (60 ∷ 62 ∷ []) s ≡ false
unfolding has starts
starts-stops [] h = refl
starts-stops (c ∷ s) h = elim (ender_bytes c h) [
  | inl e ↦ rw e refl
  | inr (inl e) ↦ rw e refl
  | inr (inr (inl e)) ↦ rw e refl
  | inr (inr (inr e)) ↦ rw e refl
]

gettoken-sign :
    (input : Bool) (file s : List ℕ)
    → IsWord file
    → gettoken ((if input then 60 else 62) ∷ file ++ s) ≡ (if input then 60 else 62, [], file ++ s)
unfolding gettoken skip has token after_greater
gettoken-sign input [] s (some_byte, all) = absurd (omega (arith, some_byte))
gettoken-sign true (c ∷ w) s is = rw (skip-word (c ∷ w) s is) refl
gettoken-sign false (c ∷ w) s is = rw (plain_other c is.1.0) (rw (skip-word (c ∷ w) s is) refl)

sign_starts :
    (input : Bool) (s : List ℕ) → starts (60 ∷ 62 ∷ []) ((if input then 60 else 62) ∷ s) ≡ true
unfolding starts has
sign_starts true s = refl
sign_starts false s = refl

skip_sign :
    (input : Bool) (s : List ℕ)
    → skip ((if input then 60 else 62) ∷ s) ≡ (if input then 60 else 62) ∷ s
unfolding skip has
skip_sign true s = refl
skip_sign false s = refl

redirect_sign :
    (input : Bool) (file : List ℕ) (cmd : Cmd)
    → redirect (if input then 60 else 62) file cmd
      ≡ (if input then Cmd.redircmd cmd file 0 0 else Cmd.redircmd cmd file 0x201 1)
unfolding redirect
redirect_sign true file cmd = refl
redirect_sign false file cmd = refl

-- The text of redirections starts with a sign, or is empty.
module _ (rest : List ℕ) (stop : stops enders rest ≡ true) where
  pub skip-redirections :
      (rs : List Redirection) → skip (redirections_text rs ++ rest) ≡ redirections_text rs ++ rest
  unfolding skip has
  skip-redirections [] = skip-stops rest stop
  skip-redirections (r ∷ rs) = elim (Bool-cases r.input) [ inl e ↦ rw e refl | inr e ↦ rw e refl ]

  pub ends_word-redirections :
      (rs : List Redirection) → ends_word (redirections_text rs ++ rest) ≡ true
  unfolding has
  ends_word-redirections [] = ends_word-stops rest stop
  ends_word-redirections (r ∷ rs) = elim (Bool-cases r.input) [
    | inl e ↦ rw e refl
    | inr e ↦ rw e refl
  ]

  pub parseredirs-text :
      (fuel : ℕ) (rs : List Redirection) (cmd : Cmd)
      → AreRedirections rs
      → length rs < fuel
      → parseredirs fuel cmd (redirections_text rs ++ rest) ≡ ok (around rs cmd, rest)
  unfolding parseredirs
  parseredirs-text zero rs cmd are enough = absurd (omega (arith, enough))
  parseredirs-text (suc fuel) [] cmd are enough =
      rw (skip-stops rest stop, starts-stops rest stop) refl
  parseredirs-text (suc fuel) (r ∷ rs) cmd are enough =
      let file_end = ends_word-redirections rs in
      let joined : (r.file ++ redirections_text rs) ++ rest
          ≡ r.file ++ (redirections_text rs ++ rest) =
        append_assoc r.file (redirections_text rs) rest in
      rw
        (
          joined,
          skip_sign r.input (r.file ++ (redirections_text rs ++ rest)),
          gettoken-sign r.input r.file (redirections_text rs ++ rest) are.0,
          sign_starts r.input (r.file ++ (redirections_text rs ++ rest)),
          gettoken-word r.file (redirections_text rs ++ rest) are.0 file_end,
          redirect_sign r.input r.file cmd,
          skip-redirections rs,
        )
        (parseredirs-text fuel rs _ are.1 (omega (arith, enough)))
