-- ===== src/Shell/Commands.antt =====
-- The parser of sh.c reads a simple command back from its text.
use xv6_system_calls.Prelude.{
  ℕ, zero, suc, ◌+◌, ◌≤◌, ◌<◌, ◌≡◌, refl, ap, ◌∙◌, inl, inr, true, false, List, [], ◌∷◌, ◌++◌, ◌==◌,
  length, length-append, arith, Bool-cases, lt→leb, Outcome, ok,
}
use mathlib.Core.List.{append_assoc}
use xv6_system_calls.Shell.{
  Cmd, maxargs, has, skip, token, gettoken, starts, parseredirs, set_args, args_loop, parseexec,
}
use xv6_system_calls.Shell.Grammar.{
  Redirection, plain, IsWord, AreWords, AreRedirections, words_text, redirections_text, around,
}
use xv6_system_calls.Shell.Reads.{
  stops, ends_word, enders, ender_bytes, gettoken-word, skip-word, skip-stops, parseredirs-text,
  ends_word-redirections, skip-redirections,
}

set_args-around :
    (args : List (List ℕ)) (rs : List Redirection) (cmd : Cmd)
    → set_args args (around rs cmd) ≡ around rs (set_args args cmd)
unfolding set_args
set_args-around args [] cmd = refl
set_args-around args (r ∷ rs) cmd =
    set_args-around args rs _
    ∙ (elim (Bool-cases r.input) [ inl e ↦ rw e refl | inr e ↦ rw e refl ])

-- A plain byte starts no token of one sign.
symbol_tokens :
    (c : ℕ)
    → plain c ≡ true
    → (has enders c ≡ false) × (has (60 ∷ 62 ∷ []) c ≡ false) × (has (40 ∷ []) c ≡ false)
unfolding plain has
symbol_tokens c h = ground arith

pub redirections_length : (rs : List Redirection) → length rs ≤ length (redirections_text rs)
redirections_length [] = omega arith
redirections_length (r ∷ rs) =
    omega (arith, redirections_length rs, length-append r.file (redirections_text rs))

starts-enders : (c : ℕ) (s : List ℕ) → has enders c ≡ true → starts enders (c ∷ s) ≡ true
unfolding starts has
starts-enders c s h = elim (ender_bytes c h) [
  | inl e ↦ rw e refl
  | inr (inl e) ↦ rw e refl
  | inr (inr (inl e)) ↦ rw e refl
  | inr (inr (inr e)) ↦ rw e refl
]

args_loop-end :
    (rest : List ℕ) (fuel : ℕ) (args : List (List ℕ)) (ret : Cmd)
    → stops enders rest ≡ true
    → 0 < fuel
    → args_loop fuel args ret rest ≡ ok (set_args args ret, rest)
unfolding args_loop gettoken skip token starts
args_loop-end rest zero args ret stop some_fuel = absurd (omega (arith, some_fuel))
args_loop-end [] (suc fuel) args ret stop some_fuel = refl
args_loop-end (c ∷ s) (suc fuel) args ret stop some_fuel =
    rw (skip-stops (c ∷ s) stop) (rw (starts-enders c s stop) refl)

starts-word :
    (toks w s : List ℕ)
    → IsWord w
    → ((c : ℕ) → plain c ≡ true → has toks c ≡ false)
    → starts toks (w ++ s) ≡ false
unfolding starts
starts-word toks [] s (some_byte, all) none_of = absurd (omega (arith, some_byte))
starts-word toks (c ∷ w) s (some_byte, all) none_of =
    rw (none_of c all.0) (elim (Bool-cases (c == 0)) [ inl e ↦ rw e refl | inr e ↦ rw e refl ])

no_redirection :
    (fuel : ℕ) (cmd : Cmd) (w s : List ℕ)
    → IsWord w
    → 0 < fuel
    → parseredirs fuel cmd (w ++ s) ≡ ok (cmd, w ++ s)
unfolding parseredirs
no_redirection zero cmd w s is some_fuel = absurd (omega (arith, some_fuel))
no_redirection (suc fuel) cmd w s is some_fuel =
    rw (skip-word w s is, starts-word (60 ∷ 62 ∷ []) w s is (λ c h. (symbol_tokens c h).1)) refl

no_parenthesis :
    (rest : List ℕ) (rs : List Redirection)
    → stops enders rest ≡ true
    → starts (40 ∷ []) (redirections_text rs ++ rest) ≡ false
unfolding starts has
no_parenthesis [] [] stop = refl
no_parenthesis (c ∷ s) [] stop = elim (ender_bytes c stop) [
  | inl e ↦ rw e refl
  | inr (inl e) ↦ rw e refl
  | inr (inr (inl e)) ↦ rw e refl
  | inr (inr (inr e)) ↦ rw e refl
]
no_parenthesis rest (r ∷ rs) stop = elim (Bool-cases r.input) [
  | inl e ↦ rw e refl
  | inr e ↦ rw e refl
]

-- After a word comes a space, a redirection or the end.
module _ (rest : List ℕ) (stop : stops enders rest ≡ true) (rs : List Redirection)
    (are : AreRedirections rs) where
  abbrev pub tail : List (List ℕ) → List ℕ
  tail ws = words_text ws ++ (redirections_text rs ++ rest)

  ends_word-tail : (ws : List (List ℕ)) → ends_word (tail ws) ≡ true
  unfolding has
  ends_word-tail [] = ends_word-redirections rest stop rs
  ends_word-tail (w ∷ ws) = refl

  skip-tail : (w : List ℕ) (ws : List (List ℕ)) → IsWord w → skip (tail (w ∷ ws)) ≡ w ++ tail ws
  unfolding skip has
  skip-tail w ws is =
      ap skip (append_assoc w (words_text ws) (redirections_text rs ++ rest))
      ∙ skip-word w (tail ws) is

  enough_rounds : length rs < length (redirections_text rs ++ rest) + 1
  enough_rounds = omega (arith, redirections_length rs, length-append (redirections_text rs) rest)

  args_loop-text :
      (fuel : ℕ) (done : List (List ℕ)) (w : List ℕ) (ws : List (List ℕ))
      → IsWord w
      → AreWords ws
      → length done + length ws + 1 < maxargs
      → length ws + 1 < fuel
      → args_loop fuel done (Cmd.execcmd []) (w ++ tail ws)
        ≡ ok (around rs (Cmd.execcmd (done ++ (w ∷ ws))), rest)
  unfolding args_loop set_args
  args_loop-text zero done w ws is all few enough = absurd (omega (arith, enough))
  args_loop-text (suc fuel) done w [] is all few enough =
      rw
        (
          skip-word w (tail []) is,
          starts-word enders w (tail []) is (λ c h. (symbol_tokens c h).0),
          gettoken-word w (tail []) is (ends_word-tail []),
          skip-redirections rest stop rs,
          lt→leb maxargs (length done + 1) (omega (arith, few)),
          parseredirs-text rest stop (length (redirections_text rs ++ rest) + 1) rs (Cmd.execcmd [])
              are enough_rounds,
        )
        (args_loop-end rest fuel (done ++ (w ∷ [])) (around rs (Cmd.execcmd [])) stop
            (omega (arith, enough))
          ∙ ap (λ c. ok (c, rest)) (set_args-around (done ++ (w ∷ [])) rs (Cmd.execcmd [])))
  args_loop-text (suc fuel) done w (w' ∷ ws) is all few enough =
      rw
        (
          skip-word w (tail (w' ∷ ws)) is,
          starts-word enders w (tail (w' ∷ ws)) is (λ c h. (symbol_tokens c h).0),
          gettoken-word w (tail (w' ∷ ws)) is (ends_word-tail (w' ∷ ws)),
          skip-tail w' ws all.0,
          lt→leb maxargs (length done + 1) (omega (arith, few)),
          no_redirection (length (w' ++ tail ws) + 1) (Cmd.execcmd []) w' (tail ws) all.0
              (omega arith),
        )
        (args_loop-text fuel (done ++ (w ∷ [])) w' ws all.0 all.1
            (omega (arith, few, length-append done (w ∷ []))) (omega (arith, enough))
          ∙ ap (λ args. ok (around rs (Cmd.execcmd args), rest))
              (append_assoc done (w ∷ []) (w' ∷ ws)))

  words_length : (ws : List (List ℕ)) → AreWords ws → length ws ≤ length (words_text ws)
  words_length [] all = omega arith
  words_length (w ∷ ws) all = omega (arith, words_length ws all.1, length-append w (words_text ws))

  -- The text of a simple command gives it back.
  pub parseexec-simple :
      (line : List ℕ → Outcome (Cmd × List ℕ)) (args : List (List ℕ))
      → AreWords args
      → length args < maxargs
      → parseexec line (tail args) ≡ ok (around rs (Cmd.execcmd args), rest)
  unfolding parseexec set_args
  parseexec-simple line [] all few =
      rw
        (
          skip-redirections rest stop rs,
          no_parenthesis rest rs stop,
          parseredirs-text rest stop (length (redirections_text rs ++ rest) + 1) rs (Cmd.execcmd [])
              are enough_rounds,
        )
        (args_loop-end rest (length rest + 1) [] (around rs (Cmd.execcmd [])) stop (omega arith)
          ∙ ap (λ c. ok (c, rest)) (set_args-around [] rs (Cmd.execcmd [])))
  parseexec-simple line (w ∷ ws) all few =
      rw
        (
          skip-tail w ws all.0,
          starts-word (40 ∷ []) w (tail ws) all.0 (λ c h. (symbol_tokens c h).2),
          no_redirection (length (w ++ tail ws) + 1) (Cmd.execcmd []) w (tail ws) all.0
              (omega arith),
        )
        (args_loop-text (length (w ++ tail ws) + 1) [] w ws all.0 all.1 (omega (arith, few)) (
          omega (
            arith,
            length-append w (tail ws),
            length-append (words_text ws) (redirections_text rs ++ rest),
            words_length ws all.1,
            all.0.0,
          )))
