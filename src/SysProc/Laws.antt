-- ===== src/SysProc/Laws.antt =====
-- `sys_sleep` and `sys_kill` of sysproc.c.
use xv6_system_calls.Prelude.{
  ℕ, ◌+◌, ◌%◌, ◌<◌, ◌≡◌, ◌≢◌, refl, true, false, some, arith, ◌==◌, if◌then◌else◌, first,
  first-some, first_exists, eq→==, ne→==, ap, ◌∙◌, ==→eq, pos, u32_mod, Progress,
}
use xv6_system_calls.Kernel.{Kernel, ProcState, Chan, nproc, is_sleeping, set_proc}
use xv6_system_calls.Wakeup.{fall_asleep, wakeup}
use xv6_system_calls.Syscall.{Memory, argint}
use xv6_system_calls.Process.Reap.{kill, mark_killed}
use xv6_system_calls.SysProc.{sleep_round, sys_kill}

awake : (s : ProcState) → (if is_sleeping s then ProcState.runnable else s) ≢ ProcState.sleeping
awake s e = ground arith

module _ {E : Type 0} (k : Kernel E) where
  -- For a 32-bit start time and number of ticks passed: a process goes to sleep in `sys_sleep`
  -- only if fewer ticks than it asked for have passed, also where the counter has wrapped around,
  -- and it is not killed; the wake-up of the next tick makes it runnable.
  sleep_round-wakeup :
      (cur n t passed : ℕ) (k' : Kernel E)
      → t < u32_mod
      → passed < u32_mod
      → sleep_round cur n t ((t + passed) % u32_mod) k ≡ (k', Progress.asleep (n, t))
      → (passed < n)
        × ((k.procs cur).killed ≡ false)
        × ((k'.procs cur).state ≡ ProcState.sleeping)
        × (((wakeup Chan.ticks_chan k').procs cur).state ≡ ProcState.runnable)
  unfolding sleep_round fall_asleep wakeup
  sleep_round-wakeup cur n t passed k' ht hp h = ground arith

  kill-some :
      (pid i : ℕ)
      → first (λ j. (k.procs j).pid == pid) nproc ≡ some i
      → kill pid k ≡ (pos 0, set_proc k i (mark_killed (k.procs i)))
  unfolding kill
  kill-some pid i e = rw (e, kill) refl

  -- Where exactly one entry of the table has the pid that `sys_kill` gets, the call returns 0,
  -- that entry is marked as killed and does not sleep, and every other entry `j` is as it was.
  sys_kill-first :
      (m : Memory) (cur pid i j : ℕ)
      → argint m (k.procs cur) 0 ≡ some pid
      → (k.procs i).pid ≡ pid
      → i < nproc
      → ((other : ℕ) → other < nproc → (k.procs other).pid ≡ pid → other ≡ i)
      → j ≢ i
      → ((sys_kill m cur k).0 ≡ pos 0)
        × (((sys_kill m cur k).1.procs i).killed ≡ true)
        × (((sys_kill m cur k).1.procs i).state ≢ ProcState.sleeping)
        × ((sys_kill m cur k).1.procs j ≡ k.procs j)
  unfolding sys_kill
  sys_kill-first m cur pid i j arg is lt only apart =
      let (it, found, hit) =
        first_exists (λ x. (k.procs x).pid == pid) nproc i lt (eq→== (k.procs i).pid pid is) in
      let (it_lt, also) = first-some (λ x. (k.procs x).pid == pid) nproc it found in
      let same : it ≡ i = only it it_lt (==→eq (k.procs it).pid pid also) in
      let found_i : first (λ x. (k.procs x).pid == pid) nproc ≡ some i =
        found ∙ ap (λ x. some x) same in
      let run : sys_kill m cur k ≡ (pos 0, set_proc k i (mark_killed (k.procs i))) =
        rw arg (kill-some pid i found_i) in
      rw run (
        refl,
        rw (eq→== i i refl) refl,
        rw (eq→== i i refl) (awake (k.procs i).state),
        rw (ne→== j i apart) refl,
      )
