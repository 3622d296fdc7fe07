-- ===== src/Shell/Total.antt =====
-- The parser of sh.c ends on every text, with a command or with one of its messages.
use Prim.Native.String.{String}
use xv6_system_calls.Prelude.{
  ℕ, zero, suc, ◌+◌, ◌≤◌, ◌<◌, ◌≡◌, ◌⊎◌, refl, inl, inr, Bool, true, false, not, List, [], ◌∷◌,
  ◌++◌, ◌==◌, leb, if◌then◌else◌, length, arith, Outcome, ok, panic, ◌>>=◌,
}
use xv6_system_calls.Shell.{
  Cmd, maxargs, skip, gettoken, starts, redirect, parseredirs, args_loop, parseexec, parseblock,
  end_block, parsepipe, back_loop, parseline, at_end, parsecmd,
}
use xv6_system_calls.Shell.Sentences.{length-skip, skip_twice}
use xv6_system_calls.Shell.Tokens.{gettoken_shorter, length-gettoken, starts-gettoken}

-- The messages of the parser; "parseblock" is not one that it can give.
abbrev pub IsMessage : String → Type 0
IsMessage m =
    (m ≡ "syntax")
    ⊎ (m ≡ "too many args")
    ⊎ (m ≡ "missing file for redirection")
    ⊎ (m ≡ "syntax - missing )")

-- A result that leaves at most `b` bytes, or a message.
abbrev pub Leaves : ℕ → Outcome (Cmd × List ℕ) → Type 0
Leaves b (ok (cmd, s)) = length s ≤ b
Leaves b (panic m) = IsMessage m

Leaves-more : (b b' : ℕ) (o : Outcome (Cmd × List ℕ)) → b ≤ b' → Leaves b o → Leaves b' o
Leaves-more b b' (ok (cmd, s)) le h = omega (arith, le, h)
Leaves-more b b' (panic m) le h = h

Leaves-bind :
    (b b' : ℕ) (o : Outcome (Cmd × List ℕ)) (next : Cmd × List ℕ → Outcome (Cmd × List ℕ))
    → Leaves b o
    → ((cmd : Cmd) (s : List ℕ) → length s ≤ b → Leaves b' (next (cmd, s)))
    → Leaves b' (o >>= next)
Leaves-bind b b' (ok (cmd, s)) next h more = more cmd s h
Leaves-bind b b' (panic m) next h more = h

Leaves-if :
    (b : ℕ) (test : Bool) (o o' : Outcome (Cmd × List ℕ))
    → (test ≡ true → Leaves b o)
    → (test ≡ false → Leaves b o')
    → Leaves b (if test then o else o')
Leaves-if b true o o' holds fails = holds refl
Leaves-if b false o o' holds fails = fails refl

parseredirs-Leaves :
    (fuel : ℕ) (cmd : Cmd) (s : List ℕ)
    → length s < fuel
    → Leaves (length s) (parseredirs fuel cmd s)
unfolding parseredirs
parseredirs-Leaves zero cmd s enough = absurd (omega (arith, enough))
parseredirs-Leaves (suc fuel) cmd s enough =
    let after = (gettoken (skip s)).2 in
    let second = gettoken after in
    Leaves-if (length s) (starts (60 ∷ 62 ∷ []) (skip s)) _ _
      (λ peeked.
        let shorter = starts-gettoken (60 ∷ 62 ∷ []) s peeked in
        Leaves-if (length s) (second.0 == 97) _ _
          (λ a_word.
            Leaves-more (length second.2) (length s) _
              (omega (arith, shorter, length-gettoken after))
              (parseredirs-Leaves fuel (redirect (gettoken (skip s)).0 second.1 cmd) second.2
                (omega (arith, enough, shorter, length-gettoken after))))
          (λ no_word. inr (inr (inl refl))))
      (λ other. length-skip s)

args_loop-Leaves :
    (fuel : ℕ) (args : List (List ℕ)) (ret : Cmd) (s : List ℕ)
    → length s < fuel
    → Leaves (length s) (args_loop fuel args ret s)
unfolding args_loop
args_loop-Leaves zero args ret s enough = absurd (omega (arith, enough))
args_loop-Leaves (suc fuel) args ret s enough =
    let found = gettoken (skip s) in
    Leaves-if (length s) (starts (124 ∷ 41 ∷ 38 ∷ 59 ∷ []) (skip s)) _ _ (λ peeked. length-skip s)
      (λ other.
        Leaves-if (length s) (found.0 == 0) _ _
          (λ at_end. omega (arith, length-gettoken (skip s), length-skip s))
          (λ some_token.
            let shorter = gettoken_shorter (skip s) some_token in
            Leaves-if (length s) (not (found.0 == 97)) _ _ (λ odd. inl refl)
              (λ a_word.
                Leaves-if (length s) (leb maxargs (length args + 1)) _ _ (λ many. inr (inl refl))
                  (λ room.
                    Leaves-bind (length found.2) (length s)
                      (parseredirs (length found.2 + 1) ret found.2)
                      (λ r. args_loop fuel (args ++ (found.1 ∷ [])) r.0 r.1)
                      (parseredirs-Leaves (length found.2 + 1) ret found.2 (omega arith))
                      (λ cmd rest le.
                        Leaves-more (length rest) (length s) _
                          (omega (arith, le, shorter, length-skip s))
                          (args_loop-Leaves fuel (args ++ (found.1 ∷ [])) cmd rest
                            (omega (arith, le, shorter, enough, length-skip s))))))))

back_loop-Leaves :
    (fuel : ℕ) (cmd : Cmd) (s : List ℕ) → length s < fuel → Leaves (length s) (back_loop fuel cmd s)
unfolding back_loop
back_loop-Leaves zero cmd s enough = absurd (omega (arith, enough))
back_loop-Leaves (suc fuel) cmd s enough =
    Leaves-if (length s) (starts (38 ∷ []) (skip s)) _ _
      (λ peeked.
        let shorter = starts-gettoken (38 ∷ []) s peeked in
        Leaves-more (length (gettoken (skip s)).2) (length s) _ (omega (arith, shorter)) (
          back_loop-Leaves fuel (Cmd.backcmd cmd) (gettoken (skip s)).2
            (omega (arith, enough, shorter))))
      (λ other. length-skip s)

-- `line` is right on texts below `n` bytes.
module _ (line : List ℕ → Outcome (Cmd × List ℕ)) (n : ℕ)
    (lines : (s : List ℕ) → length s < n → Leaves (length s) (line s)) where
  end_block-Leaves : (cmd : Cmd) (s : List ℕ) → Leaves (length s) (end_block line cmd s)
  unfolding end_block
  end_block-Leaves cmd s =
      let rest = (gettoken (skip s)).2 in
      Leaves-if (length s) (starts (41 ∷ []) (skip s)) _ _
        (λ peeked.
          Leaves-more (length rest) (length s) _ (omega (arith, starts-gettoken (41 ∷ []) s peeked))
            (parseredirs-Leaves (length rest + 1) cmd rest (omega arith)))
        (λ other. inr (inr (inr refl)))

  parseblock-Leaves :
      (s : List ℕ)
      → length s ≤ n
      → starts (40 ∷ []) (skip s) ≡ true
      → Leaves (length s) (parseblock line (skip s))
  unfolding parseblock
  parseblock-Leaves s room peeked =
      let rest = (gettoken (skip s)).2 in
      let shorter = starts-gettoken (40 ∷ []) s peeked in
      rw (skip_twice s, peeked)
        (Leaves-bind (length rest) (length s) (line rest) (λ r. end_block line r.0 r.1)
          (lines rest (omega (arith, room, shorter)))
          (λ cmd s' le.
            Leaves-more (length s') (length s) _ (omega (arith, le, shorter))
              (end_block-Leaves cmd s')))

  parseexec-Leaves : (s : List ℕ) → length s ≤ n → Leaves (length s) (parseexec line s)
  unfolding parseexec
  parseexec-Leaves s room =
      Leaves-if (length s) (starts (40 ∷ []) (skip s)) _ _
        (λ peeked. parseblock-Leaves s room peeked)
        (λ other.
          Leaves-bind (length s) (length s)
            (parseredirs (length (skip s) + 1) (Cmd.execcmd []) (skip s))
            (λ r. args_loop (length r.1 + 1) [] r.0 r.1)
            (Leaves-more (length (skip s)) (length s) _ (length-skip s)
              (parseredirs-Leaves (length (skip s) + 1) (Cmd.execcmd []) (skip s) (omega arith)))
            (λ cmd s' le.
              Leaves-more (length s') (length s) _ le
                (args_loop-Leaves (length s' + 1) [] cmd s' (omega arith))))

  parsepipe-Leaves :
      (fuel : ℕ) (s : List ℕ)
      → length s < fuel
      → length s ≤ n
      → Leaves (length s) (parsepipe line fuel s)
  unfolding parsepipe
  parsepipe-Leaves zero s enough room = absurd (omega (arith, enough))
  parsepipe-Leaves (suc fuel) s enough room =
      Leaves-bind (length s) (length s) (parseexec line s) _ (parseexec-Leaves s room) (λ cmd s' le.
        let rest = (gettoken (skip s')).2 in
        Leaves-if (length s) (starts (124 ∷ []) (skip s')) _ _
          (λ peeked.
            let shorter = starts-gettoken (124 ∷ []) s' peeked in
            Leaves-bind (length rest) (length s) (parsepipe line fuel rest)
              (λ r. ok (Cmd.pipecmd cmd r.0, r.1))
              (parsepipe-Leaves fuel rest (omega (arith, enough, le, shorter))
                (omega (arith, room, le, shorter)))
              (λ right s'' le'. omega (arith, le, le', shorter)))
          (λ other. omega (arith, le, length-skip s')))

parseline-Leaves : (n : ℕ) (s : List ℕ) → length s < n → Leaves (length s) (parseline n s)
unfolding parseline
parseline-Leaves zero s enough = absurd (omega (arith, enough))
parseline-Leaves (suc n) s enough =
    Leaves-bind (length s) (length s) (parsepipe (parseline n) (length s + 1) s) _
      (parsepipe-Leaves (parseline n) n (parseline-Leaves n) (length s + 1) s (omega arith)
        (omega (arith, enough)))
      (λ cmd s1 le1.
        Leaves-bind (length s1) (length s) (back_loop (length s1 + 1) cmd s1) _
          (back_loop-Leaves (length s1 + 1) cmd s1 (omega arith))
          (λ cmd' s2 le2.
            let rest = (gettoken (skip s2)).2 in
            Leaves-if (length s) (starts (59 ∷ []) (skip s2)) _ _
              (λ peeked.
                let shorter = starts-gettoken (59 ∷ []) s2 peeked in
                Leaves-bind (length rest) (length s) (parseline n rest)
                  (λ r. ok (Cmd.listcmd cmd' r.0, r.1))
                  (parseline-Leaves n rest (omega (arith, enough, le1, le2, shorter)))
                  (λ right s3 le3. omega (arith, le1, le2, le3, shorter)))
              (λ other. omega (arith, le1, le2, length-skip s2))))

-- A command or a message.
abbrev pub Answers : Outcome Cmd → Type 0
Answers (ok cmd) = Unit {0}
Answers (panic m) = IsMessage m

at_end-Answers : (cmd : Cmd) (s : List ℕ) → Answers (at_end cmd s)
unfolding at_end
at_end-Answers cmd [] = tt
at_end-Answers cmd (c ∷ s) = inl refl

finish-Answers :
    (b : ℕ) (o : Outcome (Cmd × List ℕ)) → Leaves b o → Answers (o >>= λ r. at_end r.0 (skip r.1))
finish-Answers b (ok (cmd, s)) h = at_end-Answers cmd (skip s)
finish-Answers b (panic m) h = h

-- On every text `parsecmd` ends with the fuel that it has: with a command, or with the panic
-- "syntax", "too many args", "missing file for redirection" or "syntax - missing )"; the panic
-- "parseblock" never comes.
pub parsecmd-Answers : (s : List ℕ) → Answers (parsecmd s)
unfolding parsecmd
parsecmd-Answers s =
    finish-Answers (length s) (parseline (length s + 1) s)
      (parseline-Leaves (length s + 1) s (omega arith))
