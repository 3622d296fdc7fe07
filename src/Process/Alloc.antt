-- ===== src/Process/Alloc.antt =====
-- `allocproc` of proc.c.
use xv6_system_calls.Prelude.{
  List, [], ◌∷◌, ℕ, ◌+◌, ◌%◌, ◌<◌, ◌≡◌, refl, true, none, some, arith, first, first-some,
  Option-cases, update, u32_mod, inl, inr,
}
use xv6_system_calls.Kernel.{Kernel, Proc, ProcState, Context, nproc, default_priority, is_unused}
use xv6_system_calls.Kalloc.FreeList.{kalloc-cons, kalloc-nil}
use xv6_system_calls.Kalloc.{kalloc}
use xv6_system_calls.Process.{allocproc, give_stack, embryo, junk_frame}

-- What `allocproc` makes of the entry that it picks.
abbrev pub fresh_proc : Proc → ℕ → ℕ → Proc
fresh_proc p pid page = record p {
  state = ProcState.embryo;
  pid = pid;
  priority = default_priority;
  kstack = some page;
  tf = junk_frame;
  context = Context.at_forkret;
  sys_count = λ _. 0;
}

module _ {E : Type 0} (k k' : Kernel E) where
  pub picked :
      (i : ℕ) → allocproc k ≡ (some i, k') → first (λ j. is_unused (k.procs j).state) nproc ≡ some i
  unfolding allocproc
  picked i h = elim (Option-cases (first (λ j. is_unused (k.procs j).state) nproc)) [
    | inl full ↦ absurd (ground arith)
    | inr (j, found) ↦ go j k.free_pages refl found (rw (found, allocproc) at h)
  ]
    where
      go :
          (j : ℕ) (l : List ℕ)
          → k.free_pages ≡ l
          → first (λ j. is_unused (k.procs j).state) nproc ≡ some j
          → give_stack j (kalloc (embryo k j)) ≡ (some i, k')
          → first (λ j. is_unused (k.procs j).state) nproc ≡ some i
      go j [] e found run = absurd (ground (arith, kalloc-nil (embryo k j) e))
      go j (v ∷ rest) e found run = ground (arith, kalloc-cons v rest (embryo k j) e)

  -- Where `allocproc` succeeds, it has turned an unused entry of the table into an embryo with the
  -- next pid and a page from the free list, and changed no other entry.
  pub allocproc-some :
      (i j : ℕ)
      → allocproc k ≡ (some i, k')
      → (page : ℕ) × (i < nproc)
        × (is_unused (k.procs i).state ≡ true)
        × (k'.procs j ≡ update k.procs i (fresh_proc (k.procs i) k.next_pid page) j)
        × (k.free_pages ≡ page ∷ k'.free_pages)
        × (k'.next_pid ≡ (k.next_pid + 1) % u32_mod)
  unfolding allocproc
  allocproc-some i j h = go k.free_pages refl
    where
      found : first (λ j. is_unused (k.procs j).state) nproc ≡ some i
      found = picked i h

      go :
          (l : List ℕ)
          → k.free_pages ≡ l
          → (page : ℕ) × (i < nproc)
            × (is_unused (k.procs i).state ≡ true)
            × (k'.procs j ≡ update k.procs i (fresh_proc (k.procs i) k.next_pid page) j)
            × (k.free_pages ≡ page ∷ k'.free_pages)
            × (k'.next_pid ≡ (k.next_pid + 1) % u32_mod)
      go [] e = absurd (ground (arith, kalloc-nil (embryo k i) e))
      go (v ∷ rest) e =
          let (lt, free) = first-some (λ j. is_unused (k.procs j).state) nproc i found in
          let stack = kalloc-cons v rest (embryo k i) e in
          let got = (give_stack i (some v, record (embryo k i) { free_pages = rest })).1 in
          let same : got ≡ k' = ground arith in rw (← same) (v, lt, free, ground arith, e, refl)

  -- If it fails, every entry is in the state in which it was.
  pub allocproc-none : (i : ℕ) → allocproc k ≡ (none, k') → (k'.procs i).state ≡ (k.procs i).state
  unfolding allocproc
  allocproc-none i h = elim (Option-cases (first (λ j. is_unused (k.procs j).state) nproc)) [
    | inl full ↦ ground arith
    | inr (j, found) ↦ go j k.free_pages refl found (rw (found, allocproc) at h)
  ]
    where
      go :
          (j : ℕ) (l : List ℕ)
          → k.free_pages ≡ l
          → first (λ j. is_unused (k.procs j).state) nproc ≡ some j
          → give_stack j (kalloc (embryo k j)) ≡ (none, k')
          → (k'.procs i).state ≡ (k.procs i).state
      go j [] e found run =
          let (lt, free) = first-some (λ j. is_unused (k.procs j).state) nproc j found in
          let stack = kalloc-nil (embryo k j) e in
          let got = (give_stack j (none, embryo k j)).1 in
          let same : got ≡ k' = ground arith in rw (← same) (ground arith)
      go j (v ∷ rest) e found run = absurd (ground (arith, kalloc-cons v rest (embryo k j) e))
