-- ===== src/Shell/RoundTrip.antt =====
-- `parsecmd` of sh.c on the sentences of the grammar.
use xv6_system_calls.Prelude.{◌+◌, ◌≡◌, refl, sym, ap, ◌∙◌, [], ◌∷◌, ◌++◌, length, arith, ok}
use mathlib.Core.List.{append_assoc, append-nil}
use xv6_system_calls.Shell.{skip, parsecmd}
use xv6_system_calls.Shell.Grammar.{Sentence, Level, Wellformed, ands, text, meaning}
use xv6_system_calls.Shell.Sentences.{
  ReadsItem, ReadsPipeline, ReadsLine, item-ReadsPipeline, ended-ReadsLine, sequel-ReadsLine,
  piped-ReadsPipeline, block-ReadsItem, simple-ReadsItem, length-skip,
}

abbrev ReadsAll : Sentence → Type 0
ReadsAll t =
    (Wellformed Level.item t → ReadsItem t)
    × (Wellformed Level.pipeline t → ReadsPipeline t)
    × (Wellformed Level.line t → ReadsLine t)

-- A pipeline is a line.
pipeline-ReadsLine : (t : Sentence) → ReadsPipeline t → ReadsLine t
pipeline-ReadsLine t reads n rest s stop same room =
    ended-ReadsLine t reads 0 n rest s stop same room

item-ReadsAll :
    (t : Sentence)
    → (Wellformed Level.pipeline t → Wellformed Level.item t)
    → (Wellformed Level.line t → Wellformed Level.item t)
    → (Wellformed Level.item t → ReadsItem t)
    → ReadsAll t
item-ReadsAll t as_pipeline as_line reads = (
  reads,
  (λ is. item-ReadsPipeline t (reads (as_pipeline is))),
  (λ is. pipeline-ReadsLine t (item-ReadsPipeline t (reads (as_line is)))),
)

sentence-ReadsAll : (t : Sentence) → ReadsAll t
sentence-ReadsAll (Sentence.simple args rs) =
    item-ReadsAll (Sentence.simple args rs) (λ is. is) (λ is. is)
      (λ is. simple-ReadsItem args rs is.0 is.1 is.2)
sentence-ReadsAll (Sentence.block t rs) =
    item-ReadsAll (Sentence.block t rs) (λ is. is) (λ is. is)
      (λ is. block-ReadsItem t rs ((sentence-ReadsAll t).2 is.0) is.1)
sentence-ReadsAll (Sentence.piped l r) =
    let whole : Wellformed Level.item l × Wellformed Level.pipeline r
        → ReadsPipeline (Sentence.piped l r) =
      λ is. piped-ReadsPipeline l r ((sentence-ReadsAll l).0 is.0) ((sentence-ReadsAll r).1 is.1) in
    ((λ is. absurd is), whole, (λ is. pipeline-ReadsLine (Sentence.piped l r) (whole is)))
sentence-ReadsAll (Sentence.ended t k) = (
  (λ is. absurd is),
  (λ is. absurd is),
  (λ is n rest s stop same room.
      ended-ReadsLine t ((sentence-ReadsAll t).1 is) k n rest s stop
        (same ∙ ap skip (append_assoc (text t) (ands k) rest)) room),
)
sentence-ReadsAll (Sentence.sequel t k more) = (
  (λ is. absurd is),
  (λ is. absurd is),
  (λ is n rest s stop same room.
      sequel-ReadsLine t ((sentence-ReadsAll t).1 is.0) more ((sentence-ReadsAll more).2 is.1) k n
        rest s stop
        (same
          ∙ ap skip (
              append_assoc (text t ++ ands k) (59 ∷ text more) rest
              ∙ append_assoc (text t) (ands k) (59 ∷ (text more ++ rest))))
        room),
)

-- Each command line of the grammar, with redirections, pipelines, blocks, `&` and `;`, whose words
-- are not empty and hold no white space, symbol or NUL, and with fewer than ten arguments to a
-- command, is read by `parsecmd` as the command that the grammar gives it.
pub parsecmd-text : (t : Sentence) → Wellformed Level.line t → parsecmd (text t) ≡ ok (meaning t)
unfolding parsecmd skip
parsecmd-text t is =
    let whole : text t ≡ text t ++ [] = sym (append-nil (text t)) in
    rw
      ((sentence-ReadsAll t).2 is (length (text t) + 1) [] (text t) refl (ap skip whole)
        (omega (arith, length-skip (text t))))
      refl
