-- ===== src/Shell.antt =====
-- The parser of sh.c. The text that is left is a list of bytes, at whose end the NUL stands. A word
-- is its bytes, from `q` to `eq`, where `nulterminate` puts a NUL. A panic ends the process.
pub mod Grammar
pub mod Reads
pub mod Commands
pub mod Sentences
pub mod RoundTrip
pub mod Tokens
pub mod Total
use xv6_system_calls.Prelude.{
  ℕ, zero, suc, ◌+◌, Bool, true, false, not, ◌||◌, ◌&&◌, List, [], ◌∷◌, ◌++◌, ◌==◌, leb,
  if◌then◌else◌, length, Outcome, ok, panic, ◌>>=◌,
}

-- `strchr(s, c) != 0`
unfoldable pub has : List ℕ → ℕ → Bool
has [] c = false
has (x ∷ xs) c = x == c || has xs c

-- " \t\r\n\v" and "<|>&;()"
abbrev pub whitespace : List ℕ
whitespace = 32 ∷ 9 ∷ 13 ∷ 10 ∷ 11 ∷ []

abbrev pub symbols : List ℕ
symbols = 60 ∷ 124 ∷ 62 ∷ 38 ∷ 59 ∷ 40 ∷ 41 ∷ []

abbrev pub maxargs : ℕ
maxargs = 10

-- The constructors of `struct cmd`; the modes of a redirection are those of `open`.
pub data Cmd : Type 0 where
  execcmd : List (List ℕ) → Cmd
  redircmd : Cmd → List ℕ → ℕ → ℕ → Cmd
  pipecmd listcmd : Cmd → Cmd → Cmd
  backcmd : Cmd → Cmd

-- `while(s < es && strchr(whitespace, *s)) s++;`
unfoldable pub skip : List ℕ → List ℕ
skip [] = []
skip (c ∷ s) = let rest = skip s in if has whitespace c then rest else c ∷ s

-- The word at the start of a text, and what follows it.
unfoldable pub word : List ℕ → List ℕ × List ℕ
word [] = ([], [])
word (c ∷ s) =
    let (w, rest) = word s in
    if has whitespace c || has symbols c then ([], c ∷ s) else (c ∷ w, rest)

unfoldable pub after_greater : List ℕ → ℕ × List ℕ × List ℕ
after_greater [] = (62, [], [])
after_greater (c ∷ s) = if c == 62 then (43, [], s) else (62, [], c ∷ s)

-- The token at the start of a text: its kind, its bytes if it is a word, and what follows.
unfoldable pub token : List ℕ → ℕ × List ℕ × List ℕ
unfolding after_greater
token [] = (0, [], [])
token (c ∷ s) =
    if c == 0
    then (0, [], c ∷ s)
    else if c == 62
    then after_greater s
    else if has symbols c
    then (c, [], s)
    else (let (w, rest) = word (c ∷ s) in (97, w, rest))

unfoldable pub gettoken : List ℕ → ℕ × List ℕ × List ℕ
gettoken s = let (tok, w, rest) = token (skip s) in (tok, w, skip rest)

-- The test of `peek`, at a text whose white space is skipped.
unfoldable pub starts : List ℕ → List ℕ → Bool
starts toks [] = false
starts toks (c ∷ s) = not (c == 0) && has toks c

-- `O_RDONLY` from descriptor 0, and `O_WRONLY|O_CREATE` to descriptor 1.
unfoldable pub redirect : ℕ → List ℕ → Cmd → Cmd
redirect tok file cmd =
    if tok == 60 then Cmd.redircmd cmd file 0 0 else Cmd.redircmd cmd file 0x201 1

-- `parseredirs`, in at most `fuel` rounds. The message of a parser that runs out of fuel is none of
-- the shell's.
unfoldable pub parseredirs : ℕ → Cmd → List ℕ → Outcome (Cmd × List ℕ)
parseredirs zero cmd s = panic "fuel"
parseredirs (suc fuel) cmd s =
    let text = skip s in
    let (tok, unread, after) = gettoken text in
    let (tok', file, rest) = gettoken after in
    let next = parseredirs fuel (redirect tok file cmd) rest in
    if starts (60 ∷ 62 ∷ []) text
    then if tok' == 97 then next else panic "missing file for redirection"
    else ok (cmd, text)

-- `cmd->argv`, of the command that the redirections are around.
unfoldable pub set_args : List (List ℕ) → Cmd → Cmd
set_args args (Cmd.execcmd _) = Cmd.execcmd args
set_args args (Cmd.redircmd cmd file mode fd) = Cmd.redircmd (set_args args cmd) file mode fd
set_args args other = other

-- The loop of `parseexec`, with the arguments so far.
unfoldable pub args_loop : ℕ → List (List ℕ) → Cmd → List ℕ → Outcome (Cmd × List ℕ)
args_loop zero args ret s = panic "fuel"
args_loop (suc fuel) args ret s =
    let text = skip s in
    let (tok, w, rest) = gettoken text in
    let next =
      parseredirs (length rest + 1) ret rest >>= λ r. args_loop fuel (args ++ (w ∷ [])) r.0 r.1 in
    if starts (124 ∷ 41 ∷ 38 ∷ 59 ∷ []) text
    then ok (set_args args ret, text)
    else if tok == 0
    then ok (set_args args ret, rest)
    else if not (tok == 97)
    then panic "syntax"
    else if leb maxargs (length args + 1)
    then panic "too many args"
    else next

-- The parser of a line, which a block uses, is `line`.
module _ (line : List ℕ → Outcome (Cmd × List ℕ)) where
  unfoldable pub end_block : Cmd → List ℕ → Outcome (Cmd × List ℕ)
  end_block cmd s =
      let text = skip s in
      let (tok, unread, rest) = gettoken text in
      if starts (41 ∷ []) text
      then parseredirs (length rest + 1) cmd rest
      else panic "syntax - missing )"

  unfoldable pub parseblock : List ℕ → Outcome (Cmd × List ℕ)
  unfolding end_block
  parseblock s =
      let text = skip s in
      let (tok, unread, rest) = gettoken text in
      if starts (40 ∷ []) text
      then (do (cmd, s) ← line rest; end_block cmd s)
      else panic "parseblock"

  unfoldable pub parseexec : List ℕ → Outcome (Cmd × List ℕ)
  parseexec s =
      let text = skip s in
      if starts (40 ∷ []) text then parseblock text else do
        (ret, s) ← parseredirs (length text + 1) (Cmd.execcmd []) text
        args_loop (length s + 1) [] ret s

  unfoldable pub parsepipe : ℕ → List ℕ → Outcome (Cmd × List ℕ)
  parsepipe zero s = panic "fuel"
  parsepipe (suc fuel) s = do
    (cmd, s) ← parseexec s
    let text = skip s
    let (tok, unread, rest) = gettoken text
    let next = parsepipe fuel rest >>= λ r. ok (Cmd.pipecmd cmd r.0, r.1)
    if starts (124 ∷ []) text then next else ok (cmd, text)

-- The loop of `parseline` over the `&`s.
unfoldable pub back_loop : ℕ → Cmd → List ℕ → Outcome (Cmd × List ℕ)
back_loop zero cmd s = panic "fuel"
back_loop (suc fuel) cmd s =
    let text = skip s in
    let (tok, unread, rest) = gettoken text in
    let next = back_loop fuel (Cmd.backcmd cmd) rest in
    if starts (38 ∷ []) text then next else ok (cmd, text)

unfoldable pub parseline : ℕ → List ℕ → Outcome (Cmd × List ℕ)
parseline zero s = panic "fuel"
parseline (suc fuel) s = do
  (cmd, s) ← parsepipe (parseline fuel) (length s + 1) s
  (cmd, s) ← back_loop (length s + 1) cmd s
  let text = skip s
  let (tok, unread, rest) = gettoken text
  let next = parseline fuel rest >>= λ r. ok (Cmd.listcmd cmd r.0, r.1)
  if starts (59 ∷ []) text then next else ok (cmd, text)

unfoldable pub at_end : Cmd → List ℕ → Outcome Cmd
at_end cmd [] = ok cmd
at_end cmd (c ∷ s) = panic "syntax"

unfoldable pub parsecmd : List ℕ → Outcome Cmd
unfolding at_end
parsecmd s = do (cmd, rest) ← parseline (length s + 1) s; at_end cmd (skip rest)
