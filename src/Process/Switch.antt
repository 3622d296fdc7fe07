-- ===== src/Process/Switch.antt =====
-- The scheduler of proc.c and the calls that enter it, on one processor: what each does up to its
-- switch of contexts, and after it. `swtch` itself is assembly.
use xv6_system_calls.Prelude.{
  ℕ, zero, suc, ◌+◌, ◌≡◌, refl, eq→==, ne→==, ◌≤◌, ◌<◌, Bool-cases, inl, inr, arith, true, false,
  not, Option, none, some, ◌==◌, if◌then◌else◌, Outcome, ok, panic, ◌>>=◌, Progress,
}
use native.Mathlib.Decide.{dec_lt}
use xv6_system_calls.Kernel.{Kernel, ProcState, Chan, Context, is_runnable, is_running, set_proc}
use xv6_system_calls.Wakeup.{fall_asleep, resume}
use xv6_system_calls.Locks.{Cpu, Spinlock, acquire, release, holding}

-- The kernel, `ptable.lock`, and the processor with its process.
pub record Core (E : Type 0) : Type 0 where
  pub kernel : Kernel E
  pub ptable_lock : Spinlock
  pub cpu : Cpu
  pub proc : Option ℕ

module _ {E : Type 0} (id : ℕ) where
  -- `acquire(&ptable.lock)` that finds the lock free; one that spins has not returned.
  after_acquire : Core E → Spinlock × Progress (Unit {0}) (Unit {0}) × Cpu → Option (Core E)
  after_acquire s (lk, Progress.returned r, c) = some (record s { ptable_lock = lk; cpu = c })
  after_acquire s (lk, Progress.asleep l, c) = none

  take_ptable : Core E → Outcome (Option (Core E))
  unfolding after_acquire
  take_ptable s = do got ← acquire id s.ptable_lock s.cpu; ok (after_acquire s got)

  give_ptable : Core E → Outcome (Core E)
  give_ptable s = do
    (lk, c) ← release id s.ptable_lock s.cpu
    ok (record s { ptable_lock = lk; cpu = c })

  -- `sched` up to `swtch`; `intena` is set back after it, so it belongs to the process.
  unfoldable pub sched : ℕ → Core E → Outcome (Core E)
  sched cur s = do
    (held, c) ← holding id s.ptable_lock s.cpu
    if not held
        then panic "sched ptable.lock"
        else if not (c.ncli == 1)
        then panic "sched locks"
        else if is_running (s.kernel.procs cur).state
        then panic "sched running"
        else if c.interrupts
        then panic "sched interruptible"
        else ok (record s {
          cpu = c;
          kernel =
              set_proc s.kernel cur (record (s.kernel.procs cur) { context = Context.in_sched });
        })

  yield_locked : ℕ → Option (Core E) → Outcome (Option (Core E))
  unfolding sched
  yield_locked cur none = ok none
  yield_locked cur (some s) = do
    s ← sched cur (record s {
      kernel = set_proc s.kernel cur (record (s.kernel.procs cur) { state = ProcState.runnable });
    })
    ok (some s)

  -- `yield` up to `swtch`; `none` where it still spins.
  unfoldable pub yield : ℕ → Core E → Outcome (Option (Core E))
  unfolding take_ptable yield_locked
  yield cur s = take_ptable s >>= yield_locked cur

  sleep_locked : ℕ → Chan → Option (Core E) → Outcome (Option (Core E))
  unfolding sched
  sleep_locked cur chan none = ok none
  sleep_locked cur chan (some s) = do
    s ← sched cur (record s { kernel = fall_asleep cur chan s.kernel })
    ok (some s)

  -- `sleep(chan, &ptable.lock)` up to `swtch`, and `sleep(chan, 0)`.
  unfoldable pub sleep_with_ptable : ℕ → Chan → Core E → Outcome (Option (Core E))
  unfolding sleep_locked
  sleep_with_ptable cur chan s = sleep_locked cur chan (some s)

  unfoldable pub sleep : ℕ → Chan → Core E → Outcome (Option (Core E))
  unfolding take_ptable sleep_locked
  sleep cur chan s = take_ptable s >>= sleep_locked cur chan

  -- What `yield` and `sleep(chan, 0)` do when `swtch` comes back with `ptable.lock` held.
  unfoldable pub end_yield : Core E → Outcome (Core E)
  unfolding give_ptable
  end_yield s = give_ptable s

  unfoldable pub end_sleep : ℕ → Core E → Outcome (Core E)
  unfolding give_ptable
  end_sleep cur s = give_ptable (record s { kernel = resume cur s.kernel })

  -- `scheduler`: the start of a scan, and its end.
  unfoldable pub begin_scan : Core E → Outcome (Option (Core E))
  unfolding take_ptable
  begin_scan s = take_ptable (record s { cpu = record s.cpu { interrupts = true } })

  unfoldable pub end_scan : Core E → Outcome (Core E)
  unfolding give_ptable
  end_scan s = give_ptable s

module _ {E : Type 0} where
  -- The loop of `scheduler` over `n` entries from `i` on, up to its next `swtch`: the entry that
  -- it switches to, which is then running. `none` is the end of the table.
  unfoldable pub next_process : ℕ → ℕ → Core E → Option (ℕ × Core E)
  next_process zero i s = none
  next_process (suc n) i s =
      let rest = next_process n (i + 1) s in
      if not (is_runnable (s.kernel.procs i).state)
      then rest
      else some (
        i,
        record s {
          proc = some i;
          kernel = set_proc s.kernel i (record (s.kernel.procs i) { state = ProcState.running });
        },
      )

  -- The scheduler after a process has switched back to it.
  abbrev pub process_done : Core E → Core E
  process_done s = record s { proc = none }

  -- What the scan finds from `i` on.
  next_process-found :
      (n i j : ℕ) (s s' : Core E)
      → next_process n i s ≡ some (j, s')
      → (is_runnable (s.kernel.procs j).state ≡ true)
        × (s' ≡ record s {
          proc = some j;
          kernel = set_proc s.kernel j (record (s.kernel.procs j) { state = ProcState.running });
        })
  unfolding next_process
  next_process-found zero i j s s' h = absurd (cc)
  next_process-found (suc n) i j s s' h = elim (Bool-cases (is_runnable (s.kernel.procs i).state)) [
    | inl e ↦ let h' = rw e at h in let it : i ≡ j = cc in rw (← it) (e, cc)
    | inr e ↦ next_process-found n (i + 1) j s s' (rw e at h)
  ]

  next_process-passed :
      (n i j earlier : ℕ) (s s' : Core E)
      → next_process n i s ≡ some (j, s')
      → i ≤ earlier
      → earlier < j
      → is_runnable (s.kernel.procs earlier).state ≡ false
  unfolding next_process
  next_process-passed zero i j earlier s s' h lo hi = absurd (cc)
  next_process-passed (suc n) i j earlier s s' h lo hi =
      elim (Bool-cases (is_runnable (s.kernel.procs i).state)) [
        | inl e ↦ let h' = rw e at h in let it : i ≡ j = cc in absurd (omega arith)
        | inr e ↦ elim (dec_lt i earlier) [
          | yes later ↦ next_process-passed n (i + 1) j earlier s s' (rw e at h) (omega arith) hi
          | no here ↦ let same : i ≡ earlier = omega arith in rw (← same) e
        ]
      ]

  -- The scan of `scheduler` from entry `i` on switches to the first runnable entry: what it finds
  -- was runnable and is now running, on this processor, and each entry `earlier` between was not
  -- runnable and is as it was.
  next_process-some :
      (n i j earlier : ℕ) (s s' : Core E)
      → next_process n i s ≡ some (j, s')
      → i ≤ earlier
      → earlier < j
      → (is_runnable (s.kernel.procs j).state ≡ true)
        × (is_runnable (s.kernel.procs earlier).state ≡ false)
        × ((s'.kernel.procs j).state ≡ ProcState.running)
        × (s'.kernel.procs earlier ≡ s.kernel.procs earlier)
        × (s'.proc ≡ some j)
  next_process-some n i j earlier s s' h lo hi =
      let (ready, end) = next_process-found n i j s s' h in
      rw end (
        ready,
        next_process-passed n i j earlier s s' h lo hi,
        rw (eq→== j j refl) refl,
        rw (ne→== earlier j (omega arith)) refl,
        refl,
      )
