-- ===== src/Shell/Grammar.antt =====
-- The grammar of the shell's command lines, apart from the parser: a sentence, its text and the
-- command that it stands for.
use xv6_system_calls.Prelude.{
  ℕ, zero, suc, ◌<◌, ◌≡◌, Bool, true, not, ◌&&◌, List, [], ◌∷◌, ◌++◌, ◌==◌, if◌then◌else◌, length,
}
use xv6_system_calls.Shell.{Cmd, maxargs, has, whitespace, symbols}

-- `< file` or `> file`.
pub record Redirection : Type 0 where
  pub input : Bool
  pub file : List ℕ

-- A pipeline is a simple command or a block, or one before a pipeline; a line is a pipeline before
-- a number of `&`s, which may be followed by `;` and a line.
pub data Sentence : Type 0 where
  simple : List (List ℕ) → List Redirection → Sentence
  block : Sentence → List Redirection → Sentence
  piped : Sentence → Sentence → Sentence
  ended : Sentence → ℕ → Sentence
  sequel : Sentence → ℕ → Sentence → Sentence

unfoldable pub plain : ℕ → Bool
plain c = not (has whitespace c) && not (has symbols c) && not (c == 0)

abbrev pub AllPlain : List ℕ → Type 0
AllPlain [] = Unit {0}
AllPlain (c ∷ w) = (plain c ≡ true) × AllPlain w

abbrev pub IsWord : List ℕ → Type 0
IsWord w = (0 < length w) × AllPlain w

abbrev pub AreWords : List (List ℕ) → Type 0
AreWords [] = Unit {0}
AreWords (w ∷ ws) = IsWord w × AreWords ws

abbrev pub AreRedirections : List Redirection → Type 0
AreRedirections [] = Unit {0}
AreRedirections (r ∷ rs) = IsWord r.file × AreRedirections rs

-- What a sentence may stand as: part of a pipeline, a pipeline, a line.
pub data Level : Type 0 where
  item pipeline line : Level

abbrev pub Wellformed : Level → Sentence → Type 0
Wellformed level (Sentence.simple args rs) =
    AreWords args × (length args < maxargs) × AreRedirections rs
Wellformed level (Sentence.block t rs) = Wellformed Level.line t × AreRedirections rs
Wellformed Level.item (Sentence.piped l r) = ⊥
Wellformed _ (Sentence.piped l r) = Wellformed Level.item l × Wellformed Level.pipeline r
Wellformed Level.line (Sentence.ended t n) = Wellformed Level.pipeline t
Wellformed _ (Sentence.ended t n) = ⊥
Wellformed Level.line (Sentence.sequel t n rest) =
    Wellformed Level.pipeline t × Wellformed Level.line rest
Wellformed _ (Sentence.sequel t n rest) = ⊥

-- Each word after a space, each file after its sign.
abbrev pub words_text : List (List ℕ) → List ℕ
words_text [] = []
words_text (w ∷ ws) = 32 ∷ w ++ words_text ws

abbrev pub redirections_text : List Redirection → List ℕ
redirections_text [] = []
redirections_text (r ∷ rs) = (if r.input then 60 else 62) ∷ r.file ++ redirections_text rs

abbrev pub ands : ℕ → List ℕ
ands zero = []
ands (suc n) = 38 ∷ ands n

abbrev pub text : Sentence → List ℕ
text (Sentence.simple args rs) = words_text args ++ redirections_text rs
text (Sentence.block t rs) = 40 ∷ text t ++ 41 ∷ redirections_text rs
text (Sentence.piped l r) = text l ++ 124 ∷ text r
text (Sentence.ended t n) = text t ++ ands n
text (Sentence.sequel t n rest) = text t ++ ands n ++ 59 ∷ text rest

-- The first redirection is the innermost one.
abbrev pub around : List Redirection → Cmd → Cmd
around [] cmd = cmd
around (r ∷ rs) cmd =
    around rs (if r.input then Cmd.redircmd cmd r.file 0 0 else Cmd.redircmd cmd r.file 0x201 1)

abbrev pub background : ℕ → Cmd → Cmd
background zero cmd = cmd
background (suc n) cmd = background n (Cmd.backcmd cmd)

abbrev pub meaning : Sentence → Cmd
meaning (Sentence.simple args rs) = around rs (Cmd.execcmd args)
meaning (Sentence.block t rs) = around rs (meaning t)
meaning (Sentence.piped l r) = Cmd.pipecmd (meaning l) (meaning r)
meaning (Sentence.ended t n) = background n (meaning t)
meaning (Sentence.sequel t n rest) = Cmd.listcmd (background n (meaning t)) (meaning rest)
