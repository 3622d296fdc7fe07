-- ===== src/Syscall/Dispatch.antt =====
-- The counters of system calls that `syscall` keeps and `getcount` reads.
use mathlib.Core.Option
use xv6_system_calls.Prelude.{
  zero, if◌then◌else◌, eq→==, ne→==, lt→ltb, ℕ, suc, ◌+◌, ◌%◌, ◌<◌, ◌≡◌, ◌≢◌, refl, some, arith,
  ◌==◌, u32_mod, ok, Outcome, ℤ, word_of, ◌>>=◌,
}
use xv6_system_calls.Kernel.{Kernel, Proc, set_proc}
use xv6_system_calls.Process.Info.{word_at, set_word, bump_count, getcount}
use xv6_system_calls.Syscall.{syscall, nsyscalls, set_eax}

-- What `getcount` reads after the count of call `num` went up, at any place.
bump_count-word_at :
    (p : Proc) (num place : ℕ)
    → 0 < num
    → num < nsyscalls
    → word_at (bump_count num p) place ≡ (
        if place == num
        then Option.map (λ w. (w + 1) % u32_mod) (word_at p place)
        else word_at p place)
unfolding word_at bump_count set_word
bump_count-word_at p num zero lo hi = ground arith
bump_count-word_at p num (suc place) lo hi = ground arith

module _ {E : Type 0} (syscalls : ℕ → ℕ → Kernel E → Outcome (ℤ × Kernel E)) (cur : ℕ)
    (k : Kernel E) where
  -- A valid system call whose count lies in `struct proc` runs its handler on a kernel in which
  -- that count, as `getcount` reports it, is one higher, and every other one as it was, and then
  -- stores the handler's result in `eax`.
  pub syscall-getcount :
      (num other w : ℕ)
      → (k.procs cur).tf.eax ≡ num
      → 0 < num
      → num < nsyscalls
      → other ≢ num
      → getcount cur num k ≡ some w
      → (k1 : Kernel E) × (syscall syscalls cur k
          ≡ (do (r, k2) ← syscalls num cur k1; ok (set_eax cur (word_of r) k2)))
        × (getcount cur num k1 ≡ some ((w + 1) % u32_mod))
        × (getcount cur other k1 ≡ getcount cur other k)
  unfolding syscall getcount
  syscall-getcount num other w e lo hi ne h =
      let p = k.procs cur in
      let k1 : Kernel E = set_proc k cur (bump_count num p) in
      (
        k1,
        rw (e, lt→ltb 0 num lo, lt→ltb num nsyscalls hi) refl,
        rw (eq→== cur cur refl, bump_count-word_at p num num lo hi, eq→== num num refl, h) refl,
        rw (eq→== cur cur refl, bump_count-word_at p num other lo hi, ne→== other num ne) refl,
      )
