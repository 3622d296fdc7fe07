-- ===== src/Examples/Services.antt =====
-- The theorems on sleep locks, pipes' files and strings at small inputs.
use xv6_system_calls.Prelude.{
  ℕ, ◌+◌, ◌≡◌, refl, inl, true, arith, ok, Progress, first, Option, Outcome, panic, [], ◌∷◌,
}
use xv6_system_calls.Kernel.{Kernel, ProcState, Chan, set_proc}
use xv6_system_calls.Wakeup.{resume}
use xv6_system_calls.Kalloc.{kalloc}
use xv6_system_calls.File.{filealloc}
use xv6_system_calls.Locks.{Sleeplock, Turn, acquiresleep, releasesleep}
use xv6_system_calls.Locks.Handover.{acquiresleep-releasesleep}
use xv6_system_calls.SysFile.Pipes.{
  pipealloc, IsNewPipe, pipealloc-IsNewPipe, first_file, second_file, pipe_page,
}
use xv6_system_calls.Strings.{memmove}
use xv6_system_calls.Strings.Laws.{memmove-bytes}
use xv6_system_calls.Examples.Machine.{busy, lower}

abbrev taken : Sleeplock
taken = record { locked = true; pid = 9 }

-- The first time the process runs again, another one has the lock; then that one releases it, and
-- the scheduler runs the process.
abbrev held_again : Turn (Unit {0})
held_again s = s

abbrev runs_again : Turn (Unit {0})
runs_again s = (s.0, set_proc s.1 1 (record (s.1.procs 1) { state = ProcState.running }))

acquiresleep-releasesleep_example :
    (lk1 : Sleeplock) × (k1 : Kernel (Unit {0})) × (acquiresleep 1 7 (held_again ∷ []) taken busy
      ≡ (lk1, k1, Progress.asleep tt))
    × (lk1.locked ≡ true)
    × ((k1.procs 1).state ≡ ProcState.sleeping)
    × ((k1.procs 1).chan ≡ Chan.lock_chan 7)
    × (((releasesleep 7 lk1 k1).1.procs 1).state ≡ ProcState.runnable)
    × ((k3 : Kernel (Unit {0})) × (k3 ≡ resume 1 (runs_again (releasesleep 7 lk1 k1)).1)
        × (acquiresleep 1 7
              (held_again ∷ (λ s. runs_again (releasesleep 7 s.0 s.1)) ∷ held_again ∷ [])
              taken
              busy
            ≡ (record { locked = true; pid = (k3.procs 1).pid }, k3, Progress.returned tt)))
acquiresleep-releasesleep_example =
    acquiresleep-releasesleep 1 7 runs_again (held_again ∷ []) (held_again ∷ []) taken busy refl
      ((λ s locked. locked), tt) (λ s free. free)

abbrev zeros : ℕ → ℕ
zeros i = 0

abbrev left_with : Outcome (Option (ℕ × ℕ) × Kernel (Unit {0})) → Kernel (Unit {0})
left_with (ok r) = r.1
left_with (panic s) = busy

pipealloc-IsNewPipe_example : IsNewPipe zeros busy (left_with (pipealloc lower zeros busy)) 0 1
unfolding pipealloc first_file second_file pipe_page filealloc kalloc first
pipealloc-IsNewPipe_example =
    pipealloc-IsNewPipe lower zeros busy (left_with (pipealloc lower zeros busy)) 0 1 refl

memmove-bytes_example :
    (memmove (λ a. a) 12 10 5 (12 + 4) ≡ 10 + 4) × (memmove (λ a. a) 12 10 5 11 ≡ 11)
memmove-bytes_example = memmove-bytes (λ a. a) 12 10 5 4 11 (omega arith) (inl (omega arith))
