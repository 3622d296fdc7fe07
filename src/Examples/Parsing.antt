-- ===== src/Examples/Parsing.antt =====
-- The line `(a b<f|c)&&;d>g` of the shell.
use xv6_system_calls.Prelude.{ℕ, ◌≡◌, refl, true, false, [], ◌∷◌, arith, ok}
use xv6_system_calls.Shell.{Cmd, parsecmd, has}
use xv6_system_calls.Shell.Grammar.{Sentence, Level, IsWord, Wellformed, text, plain}
use xv6_system_calls.Shell.Total.{Answers, parsecmd-Answers}
use xv6_system_calls.Shell.RoundTrip.{parsecmd-text}

abbrev piped : Sentence
piped =
    Sentence.piped
      (Sentence.simple ((97 ∷ []) ∷ (98 ∷ []) ∷ []) (record { input = true; file = 102 ∷ [] } ∷ []))
      (Sentence.simple ((99 ∷ []) ∷ []) [])

abbrev command_line : Sentence
command_line =
    Sentence.sequel (Sentence.block piped []) 2
      (Sentence.simple ((100 ∷ []) ∷ []) (record { input = false; file = 103 ∷ [] } ∷ []))

letter : (c : ℕ) → plain c ≡ true → IsWord (c ∷ [])
letter c h = (omega arith, (h, tt))

command_line-Wellformed : Wellformed Level.line command_line
unfolding plain has
command_line-Wellformed = (
  (
    (
      ((letter 97 refl, (letter 98 refl, tt)), omega arith, (letter 102 refl, tt)),
      ((letter 99 refl, tt), omega arith, tt),
    ),
    tt,
  ),
  ((letter 100 refl, tt), omega arith, (letter 103 refl, tt)),
)

parsecmd-text_example :
    parsecmd (text command_line)
    ≡ ok (
        Cmd.listcmd
          (Cmd.backcmd (
            Cmd.backcmd (
              Cmd.pipecmd
                (Cmd.redircmd (Cmd.execcmd ((97 ∷ []) ∷ (98 ∷ []) ∷ [])) (102 ∷ []) 0 0)
                (Cmd.execcmd ((99 ∷ []) ∷ [])))))
          (Cmd.redircmd (Cmd.execcmd ((100 ∷ []) ∷ [])) (103 ∷ []) 0x201 1))
parsecmd-text_example = parsecmd-text command_line command_line-Wellformed

parsecmd-Answers_example : Answers (parsecmd (40 ∷ 97 ∷ 60 ∷ []))
parsecmd-Answers_example = parsecmd-Answers (40 ∷ 97 ∷ 60 ∷ [])
