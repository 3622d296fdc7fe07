-- ===== src/Process/Wait.antt =====
-- `wait`, `time` and `kill` of proc.c.
use mathlib.Core.Path.{fun_ext}
use xv6_system_calls.Prelude.{
  ℕ, ◌<◌, ◌≡◌, ◌≢◌, refl, sym, ap, ◌∙◌, true, false, Option, none, some, arith, ◌==◌, first,
  first-some, first-none, first_exists, Option-cases, ok, ◌>>=◌, eq_of_some, >>=-fuse, >>=-eq-ok,
  inl, inr, update, Progress, ℤ, pos, int_of, List, ◌∷◌, Outcome,
}
use xv6_system_calls.Kernel.{Kernel, Lower, ProcState, Chan, nproc, is_unused, set_proc}
use xv6_system_calls.Kalloc.{kfree_ptr}
use xv6_system_calls.Kalloc.FreeList.{IsPage, kfree-good}
use xv6_system_calls.Wakeup.{fall_asleep}
use xv6_system_calls.Process.{fork}
use xv6_system_calls.Process.Reap.{
  reap, time_reap, wait, time, kill, zombie_child_of, child_of, mark_killed, given_back,
}
use xv6_system_calls.Process.Fork.{fork-IsChild}

-- What a call of `time` tells of a call of `wait`.
pub forget_times : {L : Type 0} → Progress (ℤ × Option (ℕ × ℕ)) L → Progress ℤ L
forget_times (Progress.returned (pid, times)) = Progress.returned pid
forget_times (Progress.asleep left) = Progress.asleep left

-- The zombie `i` can be reaped: its stack is a page, and `freevm` frees its page table.
pub record IsReapable {E : Type 0} (lower : Lower E) (k : Kernel E) (i : ℕ) : Type 0 where
  pub page : ℕ
  pub stack : (k.procs i).kstack ≡ some page
  pub is_page : IsPage k.kernel_end page
  pub pages : List ℕ
  pub env : E
  pub frees : lower.freevm (k.procs i).pgdir (page ∷ k.free_pages) k.env ≡ ok (pages, env)

-- The entry `i` is unused, with nothing left of its process that a later one would meet, and no
-- other entry has changed.
pub record IsReaped {E : Type 0} (i : ℕ) (k k' : Kernel E) : Type 0 where
  pub unused : (k'.procs i).state ≡ ProcState.unused
  pub no_pid : (k'.procs i).pid ≡ 0
  pub no_parent : (k'.procs i).parent ≡ none
  pub no_stack : (k'.procs i).kstack ≡ none
  pub no_name : (k'.procs i).name 0 ≡ 0
  pub alive : (k'.procs i).killed ≡ false
  pub others : (j : ℕ) → j ≢ i → k'.procs j ≡ k.procs j

module _ {E : Type 0} (lower : Lower E) (cur : ℕ) (k : Kernel E) where
  reap-IsReaped :
      (i : ℕ)
      → IsReapable lower k i
      → (k' : Kernel E) × (reap lower i k ≡ ok (int_of (k.procs i).pid, k')) × IsReaped i k k'
  unfolding reap kfree_ptr
  reap-IsReaped i can =
      let k' : Kernel E =
        set_proc
          (record k { free_pages = can.pages; env = can.env; pipes = update k.pipes can.page none })
          i (given_back (k.procs i)) in
      (
        k',
        rw (can.stack, kfree-good can.page k can.is_page, can.frees) refl,
        record {
          unused = ground arith;
          no_pid = ground arith;
          no_parent = ground arith;
          no_stack = ground arith;
          no_name = ground arith;
          alive = ground arith;
          others = λ j other. ground arith;
        },
      )

  -- A parent with a zombie child does not sleep, if each of its zombie children can be freed:
  -- `wait` returns the pid of one of them, whose entry is then unused, without pid, parent, stack,
  -- name and `killed` flag, and no other entry changes.
  pub wait-IsReaped :
      (c : ℕ)
      → c < nproc
      → zombie_child_of k cur c ≡ true
      → ((i : ℕ) → zombie_child_of k cur i ≡ true → IsReapable lower k i)
      → (i : ℕ) × (k' : Kernel E) × (zombie_child_of k cur i ≡ true)
        × (wait lower cur k ≡ ok (k', Progress.returned (int_of (k.procs i).pid)))
        × IsReaped i k k'
  unfolding wait
  wait-IsReaped c lt zombie can =
      let (i, found, is) = first_exists (zombie_child_of k cur) nproc c lt zombie in
      let (k', run, reaped) = reap-IsReaped i (can i is) in
      (i, k', is, rw (found, wait, run) refl, reaped)

  -- A process goes to sleep in `wait` only if it has a child, no entry `j` of the table is a
  -- zombie child of it, and it is not killed. It then sleeps on its own entry.
  wait-asleep :
      (j : ℕ) (k' : Kernel E)
      → j < nproc
      → wait lower cur k ≡ ok (k', Progress.asleep tt)
      → ((k'.procs cur).state ≡ ProcState.sleeping)
        × ((k'.procs cur).chan ≡ Chan.proc_chan cur)
        × (zombie_child_of k cur j ≡ false)
        × ((k.procs cur).killed ≡ false)
        × ((c : ℕ) × (child_of k cur c ≡ true))
  unfolding wait fall_asleep
  wait-asleep j k' lt run = elim (Option-cases (first (zombie_child_of k cur) nproc)) [
    | inl gone ↦
        let run' = rw (gone, wait) at run in
        elim (Option-cases (first (child_of k cur) nproc)) [
          | inl childless ↦ absurd (ground arith)
          | inr (c, child) ↦
              let has = (first-some (child_of k cur) nproc c child).1 in
              (
                ground arith,
                ground arith,
                first-none (zombie_child_of k cur) nproc j gone lt,
                ground arith,
                (c, has),
              )
        ]
    | inr (i, found) ↦
        let run' = rw (found, wait) at run in
        let (r, reaping, done) = >>=-eq-ok (reap lower i k) _ run' in absurd (ground arith)
  ]

  -- `time` has its own copy of the code of `wait`, and it changes the kernel as `wait` does and
  -- returns, sleeps and panics as `wait` does: it only adds the two times to the result.
  pub time-wait : (do (k', p) ← time lower cur k; ok (k', forget_times p)) ≡ wait lower cur k
  unfolding time wait forget_times reap time_reap
  time-wait = elim (Option-cases (first (zombie_child_of k cur) nproc)) [
    | inl gone ↦ rw (gone, time, wait) (ground arith)
    | inr (i, found) ↦
        let stack = (k.procs i).kstack in
        let last : ℤ × ℕ × ℕ × Kernel E → Outcome (Kernel E × Progress ℤ (Unit {0})) =
          λ x. ok (x.3, Progress.returned x.0) in
        let freed : Kernel E → Outcome (List ℕ × E) =
          λ k1. lower.freevm (k1.procs i).pgdir k1.free_pages k1.env in
        let reset : Kernel E → Outcome (Kernel E × Progress ℤ (Unit {0})) = λ k1. freed k1 >>= (λ x.
          ok (
            set_proc (record k1 { free_pages = x.0; env = x.1 }) i (given_back (k1.procs i)),
            Progress.returned (int_of (k.procs i).pid),
          )) in
        rw (found, time, wait)
          (>>=-fuse (time_reap lower i k) _ _ last (λ x. refl)
            ∙ >>=-fuse (kfree_ptr stack k) _ last reset
                (λ k1. >>=-fuse (freed k1) _ _ _ (λ x. refl))
            ∙ sym (
                >>=-fuse (kfree_ptr stack k) _ _ reset
                  (λ k1. >>=-fuse (freed k1) _ _ _ (λ x. refl))))
  ]

module _ {E : Type 0} (lower : Lower E) where
  kill-first :
      (pid i : ℕ) (k : Kernel E)
      → first (λ j. (k.procs j).pid == pid) nproc ≡ some i
      → kill pid k ≡ (pos 0, set_proc k i (mark_killed (k.procs i)))
  unfolding kill
  kill-first pid i k e = rw (e, kill) refl

  -- The entry that `kill` marks stays unused, if it was.
  mark_killed-unused :
      (np i : ℕ) (k : Kernel E)
      → is_unused ((set_proc k np (mark_killed (k.procs np))).procs i).state
        ≡ is_unused (k.procs i).state
  mark_killed-unused np i k = ground arith

  -- Where the first unused entry is the first with pid 0, `kill(0)` returns 0 and marks it as
  -- killed, and a `fork` that succeeds after that, by a process whose entry is in use, makes it a
  -- runnable child that is killed already.
  pub fork-kill_zero :
      (cur np pid : ℕ) (k k' : Kernel E)
      → first (λ i. (k.procs i).pid == 0) nproc ≡ some np
      → first (λ i. is_unused (k.procs i).state) nproc ≡ some np
      → is_unused (k.procs cur).state ≡ false
      → fork lower cur (kill 0 k).1 ≡ ok (pos pid, k')
      → ((kill 0 k).0 ≡ pos 0)
        × ((k'.procs np).killed ≡ true)
        × ((k'.procs np).state ≡ ProcState.runnable)
  fork-kill_zero cur np pid k k' zero_pid unused running run =
      let k1 : Kernel E = set_proc k np (mark_killed (k.procs np)) in
      let killing : kill 0 k ≡ (pos 0, k1) = kill-first 0 np k zero_pid in
      let same : ((i : ℕ) → is_unused (k1.procs i).state ≡ is_unused (k.procs i).state) =
        λ i. mark_killed-unused np i k in
      let (child, (is, number)) =
        fork-IsChild lower cur k1 k' pid (same cur ∙ running) (rw killing at run) in
      let here : some child ≡ some np =
        sym is.picked ∙ ap (λ t. first t nproc) (fun_ext same) ∙ unused in
      let it : child ≡ np = eq_of_some here in
      let flag : (k1.procs np).killed ≡ true = ground arith in
      (rw killing refl, rw (← it) (is.killed ∙ rw it flag), rw (← it) is.runnable)
