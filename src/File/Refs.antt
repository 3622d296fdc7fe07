-- ===== src/File/Refs.antt =====
-- The reference counts of the file table against the descriptors of all processes.
use mathlib.Core.Path.{fun_ext}
use xv6_system_calls.Prelude.{
  ℕ, ◌+◌, ◌<◌, ◌≡◌, refl, ap, ◌∙◌, Bool, Option, arith, ◌==◌, if◌then◌else◌, update, points_to,
  count_below, sum_below, count_below-but_one, sum_below-but_one, eq→==, ne→==,
}
use xv6_system_calls.Kernel.{Kernel, nproc, nofile}

-- The number of descriptors, of all processes, that name the file `f`.
unfoldable pub refs_to : (ℕ → ℕ → Option ℕ) → ℕ → ℕ
refs_to ofiles f = sum_below (λ i. count_below (λ fd. points_to (ofiles i fd) f) nofile) nproc

abbrev pub ofiles : {E : Type 0} → Kernel E → ℕ → ℕ → Option ℕ
ofiles k i = (k.procs i).ofile

-- Each file's count is the number of descriptors that name it.
abbrev pub RefsMatch : {E : Type 0} → Kernel E → Type 0
RefsMatch k = (f : ℕ) → (k.files f).ref ≡ refs_to (ofiles k) f

pub refs_to-same :
    (s t : ℕ → ℕ → Option ℕ) (f : ℕ) → ((i : ℕ) → s i ≡ t i) → refs_to s f ≡ refs_to t f
refs_to-same s t f same = ap (λ u. refs_to u f) (fun_ext same)

abbrev pub one_if : Bool → ℕ
one_if b = if b then 1 else 0

-- The count after one descriptor changes.
pub refs_to-update :
    (s t : ℕ → ℕ → Option ℕ) (i fd f : ℕ) (v : Option ℕ)
    → i < nproc
    → fd < nofile
    → ((j : ℕ) → t j ≡ (if j == i then update (s i) fd v else s j))
    → refs_to t f + one_if (points_to (s i fd) f) ≡ refs_to s f + one_if (points_to v f)
unfolding refs_to
refs_to-update s t i fd f v hi hfd change =
    let row : (ℕ → ℕ → Option ℕ) → ℕ → ℕ = λ u j. count_below (λ d. points_to (u j d) f) nofile in
    let mine : t i ≡ update (s i) fd v = change i ∙ rw (eq→== i i refl) refl in
    let hit : t i fd ≡ v = ap (λ (u : ℕ → Option ℕ). u fd) mine ∙ rw (eq→== fd fd refl) refl in
    let outer =
      sum_below-but_one (row s) (row t) i nproc hi (λ m ne. rw (change m, ne→== m i ne) refl) in
    let inner =
      count_below-but_one (λ d. points_to (s i d) f) (λ d. points_to (t i d) f) fd nofile hfd
        (λ m ne. rw (mine, ne→== m fd ne) refl) in
    let inner' = rw hit at inner in omega arith
