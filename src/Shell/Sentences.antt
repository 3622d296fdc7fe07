-- ===== src/Shell/Sentences.antt =====
-- The parser of sh.c reads each sentence of the grammar back as the command that it stands for.
use xv6_system_calls.Prelude.{
  ℕ, zero, suc, ◌+◌, ◌≤◌, ◌<◌, ◌≡◌, refl, sym, ap, ◌∙◌, inl, inr, true, false, List, [], ◌∷◌, ◌++◌,
  length, length-append, arith, Bool-cases, Outcome, ok,
}
use mathlib.Core.List.{append_assoc}
use xv6_system_calls.Shell.{
  Cmd, maxargs, has, whitespace, skip, token, gettoken, starts, parseexec, parseblock, end_block,
  parsepipe, back_loop, parseline,
}
use xv6_system_calls.Shell.Grammar.{
  AreWords, Redirection, Sentence, AreRedirections, words_text, redirections_text, ands, text,
  background, meaning,
}
use xv6_system_calls.Shell.Reads.{stops, enders, skip-stops, parseredirs-text, skip-redirections}
use xv6_system_calls.Shell.Commands.{parseexec-simple, tail, redirections_length}

-- What may follow a pipeline, and a line.
abbrev pub pipe_enders : List ℕ
pipe_enders = 41 ∷ 38 ∷ 59 ∷ []

abbrev pub line_enders : List ℕ
line_enders = 41 ∷ []

-- What each parser does with a sentence at its level, where `n` is the fuel of the lines in it.
-- White space before the sentence does not matter.
abbrev pub ReadsItem : Sentence → Type 0
ReadsItem t =
    (n : ℕ) (rest s : List ℕ)
    → stops enders rest ≡ true
    → skip s ≡ skip (text t ++ rest)
    → length (skip s) ≤ n
    → parseexec (parseline n) s ≡ ok (meaning t, rest)

abbrev pub ReadsPipeline : Sentence → Type 0
ReadsPipeline t =
    (n fuel : ℕ) (rest s : List ℕ)
    → stops pipe_enders rest ≡ true
    → skip s ≡ skip (text t ++ rest)
    → length (skip s) ≤ n
    → length (skip s) < fuel
    → parsepipe (parseline n) fuel s ≡ ok (meaning t, rest)

abbrev pub ReadsLine : Sentence → Type 0
ReadsLine t =
    (n : ℕ) (rest s : List ℕ)
    → stops line_enders rest ≡ true
    → skip s ≡ skip (text t ++ rest)
    → length (skip s) < n
    → parseline n s ≡ ok (meaning t, rest)

pipe_stops :
    (rest : List ℕ)
    → stops pipe_enders rest ≡ true
    → (stops enders rest ≡ true) × (starts (124 ∷ []) rest ≡ false)
unfolding has starts
pipe_stops [] h = (refl, refl)
pipe_stops (c ∷ s) h = ground arith

line_stops :
    (rest : List ℕ)
    → stops line_enders rest ≡ true
    → (stops pipe_enders rest ≡ true)
      × (starts (38 ∷ []) rest ≡ false)
      × (starts (59 ∷ []) rest ≡ false)
unfolding has starts
line_stops [] h = (refl, refl, refl)
line_stops (c ∷ s) h = ground arith

pub skip_twice : (s : List ℕ) → skip (skip s) ≡ skip s
unfolding skip
skip_twice [] = refl
skip_twice (c ∷ s) = elim (Bool-cases (has whitespace c)) [
  | inl e ↦ rw e (skip_twice s)
  | inr e ↦ rw e (rw e refl)
]

pub length-skip : (s : List ℕ) → length (skip s) ≤ length s
unfolding skip
length-skip [] = omega arith
length-skip (c ∷ s) = elim (Bool-cases (has whitespace c)) [
  | inl e ↦ rw e (omega (arith, length-skip s))
  | inr e ↦ rw e (omega arith)
]

-- Skipping stops before a byte that is no white space.
skip_past :
    (x : List ℕ) (c : ℕ) (y : List ℕ)
    → has whitespace c ≡ false
    → length y < length (skip (x ++ c ∷ y))
unfolding skip
skip_past [] c y solid = rw solid (omega arith)
skip_past (b ∷ x) c y solid = elim (Bool-cases (has whitespace b)) [
  | inl e ↦ rw e (skip_past x c y solid)
  | inr e ↦ rw e (omega (arith, length-append x (c ∷ y)))
]

skip-ands : (k : ℕ) (rest : List ℕ) → skip rest ≡ rest → skip (ands k ++ rest) ≡ ands k ++ rest
unfolding skip has
skip-ands zero rest same = same
skip-ands (suc k) rest same = refl

back_loop-ands :
    (k fuel : ℕ) (cmd : Cmd) (rest : List ℕ)
    → skip rest ≡ rest
    → starts (38 ∷ []) rest ≡ false
    → k < fuel
    → back_loop fuel cmd (ands k ++ rest) ≡ ok (background k cmd, rest)
unfolding back_loop skip has starts gettoken token
back_loop-ands k zero cmd rest same stop enough = absurd (omega (arith, enough))
back_loop-ands zero (suc fuel) cmd rest same stop enough = rw (same, stop) refl
back_loop-ands (suc k) (suc fuel) cmd rest same stop enough =
    rw (skip-ands k rest same)
      (back_loop-ands k fuel (Cmd.backcmd cmd) rest same stop (omega (arith, enough)))

ands-stops :
    (k : ℕ) (rest : List ℕ)
    → stops pipe_enders rest ≡ true
    → stops pipe_enders (ands k ++ rest) ≡ true
unfolding has
ands-stops zero rest h = h
ands-stops (suc k) rest h = refl

length-ands : (k : ℕ) (rest : List ℕ) → k ≤ length (ands k ++ rest)
length-ands zero rest = omega arith
length-ands (suc k) rest = omega (arith, length-ands k rest)

parseexec-skip :
    (line : List ℕ → Outcome (Cmd × List ℕ)) (s s' : List ℕ)
    → skip s ≡ skip s'
    → parseexec line s ≡ parseexec line s'
unfolding parseexec
parseexec-skip line s s' same = rw same refl

-- Part of a pipeline is a pipeline.
pub item-ReadsPipeline : (t : Sentence) → ReadsItem t → ReadsPipeline t
unfolding parsepipe
item-ReadsPipeline t reads n zero rest s stop same room enough = absurd (omega (arith, enough))
item-ReadsPipeline t reads n (suc fuel) rest s stop same room enough =
    let (stop', no_pipe) = pipe_stops rest stop in
    rw (reads n rest s stop' same room, skip-stops rest stop', no_pipe) refl

-- A pipeline, `&`s, and what ends the line.
module _ (t : Sentence) (reads : ReadsPipeline t) where
  pub ended-ReadsLine :
      (k n : ℕ) (rest s : List ℕ)
      → stops line_enders rest ≡ true
      → skip s ≡ skip (text t ++ (ands k ++ rest))
      → length (skip s) < n
      → parseline n s ≡ ok (background k (meaning t), rest)
  unfolding parseline
  ended-ReadsLine k zero rest s stop same room = absurd (omega (arith, room))
  ended-ReadsLine k (suc n) rest s stop same room =
      let (stop', no_and, no_semicolon) = line_stops rest stop in
      let stay = skip-stops rest (pipe_stops rest stop').0 in
      rw
        (
          reads n (length s + 1) (ands k ++ rest) s (ands-stops k rest stop') same
              (omega (arith, room)) (omega (arith, length-skip s)),
          back_loop-ands k (length (ands k ++ rest) + 1) (meaning t) rest stay no_and
              (omega (arith, length-ands k rest)),
          stay,
          no_semicolon,
        )
        refl

  pub sequel-ReadsLine :
      (u : Sentence)
      → ReadsLine u
      → (k n : ℕ) (rest s : List ℕ) → stops line_enders rest ≡ true
      → skip s ≡ skip (text t ++ (ands k ++ 59 ∷ (text u ++ rest)))
      → length (skip s) < n
      → parseline n s ≡ ok (Cmd.listcmd (background k (meaning t)) (meaning u), rest)
  unfolding parseline skip has starts gettoken token
  sequel-ReadsLine u more k zero rest s stop same room = absurd (omega (arith, room))
  sequel-ReadsLine u more k (suc n) rest s stop same room =
      let after = text u ++ rest in
      let whole : skip s ≡ skip ((text t ++ ands k) ++ 59 ∷ after) =
        same ∙ ap skip (sym (append_assoc (text t) (ands k) (59 ∷ after))) in
      let shorter : length (skip (skip after)) < n = omega (
        arith,
        room,
        skip_past (text t ++ ands k) 59 after refl,
        length-skip after,
        length-skip (skip after),
        ap length whole,
      ) in
      rw
        (
          reads n (length s + 1) (ands k ++ 59 ∷ after) s (ands-stops k (59 ∷ after) refl) same
              (omega (arith, room)) (omega (arith, length-skip s)),
          back_loop-ands k (length (ands k ++ 59 ∷ after) + 1) (meaning t) (59 ∷ after) refl refl
              (omega (arith, length-ands k (59 ∷ after))),
          more n rest (skip after) stop (skip_twice after) shorter,
        )
        refl

-- A pipeline of two parts.
module _ (l r : Sentence) (first : ReadsItem l) (others : ReadsPipeline r) where
  pub piped-ReadsPipeline : ReadsPipeline (Sentence.piped l r)
  unfolding parsepipe skip has starts gettoken token
  piped-ReadsPipeline n zero rest s stop same room enough = absurd (omega (arith, enough))
  piped-ReadsPipeline n (suc fuel) rest s stop same room enough =
      let after = text r ++ rest in
      let whole : skip s ≡ skip (text l ++ 124 ∷ after) =
        same ∙ ap skip (append_assoc (text l) (124 ∷ text r) rest) in
      let past = skip_past (text l) 124 after refl in
      rw
        (
          first n (124 ∷ after) s refl whole room,
          others n fuel rest (skip after) stop (skip_twice after)
              (omega
                (arith, room, past, length-skip after, length-skip (skip after), ap length whole))
              (omega (
                arith,
                enough,
                past,
                length-skip after,
                length-skip (skip after),
                ap length whole,
              )),
        )
        refl

-- A block.
pub block-ReadsItem :
    (t : Sentence) (rs : List Redirection)
    → ReadsLine t
    → AreRedirections rs
    → ReadsItem (Sentence.block t rs)
unfolding parseexec parseblock end_block skip has starts gettoken token
block-ReadsItem t rs reads are n rest s stop same room =
    let after = text t ++ 41 ∷ (redirections_text rs ++ rest) in
    let whole : skip s ≡ 40 ∷ after =
      same ∙ ap (λ x. 40 ∷ x) (append_assoc (text t) (41 ∷ redirections_text rs) rest) in
    rw
      (
        whole,
        reads n (41 ∷ (redirections_text rs ++ rest)) (skip after) refl (skip_twice after)
            (omega (arith, room, length-skip after, length-skip (skip after), ap length whole)),
        skip-redirections rest stop rs,
      )
      (parseredirs-text rest stop (length (redirections_text rs ++ rest) + 1) rs (meaning t) are
        (omega (arith, redirections_length rs, length-append (redirections_text rs) rest)))

pub simple-ReadsItem :
    (args : List (List ℕ)) (rs : List Redirection)
    → AreWords args
    → length args < maxargs
    → AreRedirections rs
    → ReadsItem (Sentence.simple args rs)
simple-ReadsItem args rs words few are n rest s stop same room =
    let whole : skip s ≡ skip (tail rest stop rs are args) =
      same ∙ ap skip (append_assoc (words_text args) (redirections_text rs) rest) in
    parseexec-skip (parseline n) s (tail rest stop rs are args) whole
    ∙ parseexec-simple rest stop rs are (parseline n) args words few
