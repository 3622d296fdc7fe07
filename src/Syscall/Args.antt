-- ===== src/Syscall/Args.antt =====
-- The checks of syscall.c on the addresses that a process passes to the kernel, against the size of
-- its memory.
use xv6_system_calls.Prelude.{
  ℕ, ◌+◌, ◌-◌, ◌^◌, ◌≤◌, ◌<◌, ◌≡◌, ◌≢◌, refl, ◌⊎◌, inl, inr, Bool, Option, none, some, arith, ◌==◌,
  first, first-some, first_before, first-none, u32_mod,
}
use native.Mathlib.Decide.{dec_le}
use xv6_system_calls.Kernel.{Proc}
use xv6_system_calls.Kalloc.{kernbase}
use xv6_system_calls.Syscall.{Memory, load_word, fetchint, fetchstr, argint, argptr, check_ptr}

module _ (m : Memory) (p : Proc) (user : p.sz ≤ kernbase) where
  -- For a process whose size is at most KERNBASE: a pointer that `argptr` lets through is the
  -- argument, all of its block lies in the process's memory, and the block's size is not negative.
  pub argptr-within :
      (n size q : ℕ)
      → argptr m p n size ≡ some q
      → (argint m p n ≡ some q) × (q + size ≤ p.sz) × (q < p.sz) × (size < 2 ^ 31)
  unfolding argptr
  argptr-within n size q h = go (argint m p n) refl h
    where
      go :
          (r : Option ℕ)
          → argint m p n ≡ r
          → check_ptr m p size r ≡ some q
          → (argint m p n ≡ some q) × (q + size ≤ p.sz) × (q < p.sz) × (size < 2 ^ 31)
      go none e h' = absurd (ground arith)
      go (some i) e h' = ground arith

  -- For a process whose size is at most KERNBASE: `argptr` lets through each argument whose block
  -- lies in the process's memory and has a size that is not negative.
  argptr_complete :
      (n size q : ℕ)
      → argint m p n ≡ some q
      → q < p.sz
      → q + size ≤ p.sz
      → size < 2 ^ 31
      → argptr m p n size ≡ some q
  unfolding argptr
  argptr_complete n size q e lt fits small = rw e (ground arith)

  -- For a process whose size is at most KERNBASE and a 32-bit address: `fetchint` fetches the word
  -- if all four bytes are the process's, and fails otherwise.
  fetchint_iff :
      (addr : ℕ)
      → addr < u32_mod
      → (fetchint m p addr ≡ some (load_word m addr)) × (addr + 4 ≤ p.sz)
        ⊎ (fetchint m p addr ≡ none) × (p.sz < addr + 4)
  unfolding fetchint
  fetchint_iff addr small = elim (dec_le (addr + 4) p.sz) [
    | yes fits ↦ inl (ground arith, fits)
    | no over ↦ inr (ground arith, omega arith)
  ]

  -- For a process whose size is at most KERNBASE: a string that `fetchstr` accepts ends in the
  -- process's memory, at a NUL, and no byte before that is a NUL.
  fetchstr-ends :
      (addr len i : ℕ)
      → fetchstr m p addr ≡ some len
      → i < len
      → (addr + len < p.sz) × (m (addr + len) ≡ 0) × (m (addr + i) ≢ 0)
  unfolding fetchstr
  fetchstr-ends addr len i h lt =
      let is_nul : ℕ → Bool = λ j. m (addr + j) == 0 in
      let inside : addr < p.sz = ground arith in
      let found : first is_nul (p.sz - addr) ≡ some len = ground arith in
      let (lt', nul) = first-some is_nul (p.sz - addr) len found in
      let early = first_before is_nul (p.sz - addr) len i found lt in
      (omega arith, ground arith, ground arith)

  -- For a process whose size is at most KERNBASE: where `fetchstr` fails, no byte from the address
  -- to the end of the process's memory is a NUL.
  fetchstr-none : (addr i : ℕ) → fetchstr m p addr ≡ none → addr + i < p.sz → m (addr + i) ≢ 0
  unfolding fetchstr
  fetchstr-none addr i h lt =
      let is_nul : ℕ → Bool = λ j. m (addr + j) == 0 in
      let missing : first is_nul (p.sz - addr) ≡ none = ground arith in
      let other = first-none is_nul (p.sz - addr) i missing (omega arith) in ground arith
