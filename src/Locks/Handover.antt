-- ===== src/Locks/Handover.antt =====
-- `acquire` and `release` on the processor's interrupt flag, and the sleep and wake-up of
-- `acquiresleep` and `releasesleep`.
use xv6_system_calls.Prelude.{
  ℕ, ◌≡◌, ◌≢◌, refl, sym, ◌⊎◌, true, false, some, arith, List, [], ◌∷◌, ◌++◌, ◌∙◌, ap,
  if◌then◌else◌, ◌==◌, Bool-cases, eq→==, inl, inr, ok, Progress,
}
use xv6_system_calls.Kernel.{Kernel, ProcState, Chan}
use xv6_system_calls.Wakeup.{wakeup, fall_asleep, resume}
use xv6_system_calls.Locks.{
  Cpu, Spinlock, Sleeplock, Turn, initlock, pushcli, popcli, holding, try_lock, acquire, release,
  acquiresleep, releasesleep,
}

-- Interrupts are off while a `pushcli` is open.
abbrev pub IsCpu : Cpu → Type 0
IsCpu c = (c.ncli ≡ 0) ⊎ (c.interrupts ≡ false)

popcli-pushcli : (c : Cpu) → c.interrupts ≡ false → c.ncli ≢ 0 → popcli (pushcli c) ≡ ok c
unfolding popcli pushcli
popcli-pushcli c off on = ground arith

popcli-pushcli_cpu :
    (c : Cpu)
    → IsCpu c
    → (c' : Cpu) × (popcli (pushcli c) ≡ ok c')
      × (c'.interrupts ≡ c.interrupts)
      × (c'.ncli ≡ c.ncli)
unfolding popcli pushcli
popcli-pushcli_cpu c is = elim (Bool-cases (c.ncli == 0)) [
  | inl e ↦
      let none_open : c.ncli ≡ 0 = ground arith in
      (
        record { interrupts = c.interrupts; ncli = 0; intena = c.interrupts },
        rw none_open (ground arith),
        refl,
        sym none_open,
      )
  | inr e ↦ (c, popcli-pushcli c (grind arith) (ground arith), refl, refl)
]

-- On a processor whose interrupts are off while a `pushcli` is open, `acquire` of a free lock
-- returns at once, with interrupts off, and a `release` after it frees the lock and puts the
-- interrupt flag and the depth of `pushcli` back as they were.
release-acquire :
    (id : ℕ) (lk : Spinlock) (c : Cpu)
    → IsCpu c
    → lk.locked ≡ false
    → (lk1 : Spinlock) × (c1 : Cpu) × (lk2 : Spinlock) × (c2 : Cpu) × (acquire id lk c
        ≡ ok (lk1, Progress.returned tt, c1))
      × (c1.interrupts ≡ false)
      × (release id lk1 c1 ≡ ok (lk2, c2))
      × (lk2 ≡ initlock)
      × (c2.interrupts ≡ c.interrupts)
      × (c2.ncli ≡ c.ncli)
unfolding acquire release holding try_lock pushcli
release-acquire id lk c is free =
    let c1 : Cpu = pushcli c in
    let (c2, popped, same, count) = popcli-pushcli_cpu c is in
    let held = popcli-pushcli c1 refl (omega arith) in
    (
      record { locked = true; cpu = some id },
      c1,
      initlock,
      c2,
      rw (held, free) refl,
      refl,
      rw (held, eq→== id id refl, popped) refl,
      refl,
      same,
      count,
    )

-- Each of the turns leaves a lock that is taken taken.
abbrev pub AllHold : {E : Type 0} → List (Turn E) → Type 0
AllHold [] = Unit {0}
AllHold {E = E} (turn ∷ turns) =
    ((s : Sleeplock × Kernel E) → s.0.locked ≡ true → (turn s).0.locked ≡ true) × AllHold turns

module _ {E : Type 0} (cur a : ℕ) where
  acquiresleep-free :
      (turns : List (Turn E)) (lk : Sleeplock) (k : Kernel E)
      → lk.locked ≡ false
      → acquiresleep cur a turns lk k
        ≡ (record { locked = true; pid = (k.procs cur).pid }, k, Progress.returned tt)
  unfolding acquiresleep
  acquiresleep-free [] lk k free = rw free refl
  acquiresleep-free (turn ∷ turns) lk k free = rw free refl

  acquiresleep-taken :
      (lk : Sleeplock) (k : Kernel E)
      → lk.locked ≡ true
      → acquiresleep cur a [] lk k ≡ (lk, fall_asleep cur (Chan.lock_chan a) k, Progress.asleep tt)
  unfolding acquiresleep
  acquiresleep-taken lk k taken =
      ap
        (λ b.
          if b
          then (lk, fall_asleep cur (Chan.lock_chan a) k, Progress.asleep tt)
          else (record { locked = true; pid = (k.procs cur).pid }, k, Progress.returned tt))
        taken

  acquiresleep-turn :
      (turn : Turn E) (turns : List (Turn E)) (lk : Sleeplock) (k : Kernel E)
      → lk.locked ≡ true
      → (let s = turn (lk, fall_asleep cur (Chan.lock_chan a) k) in
          acquiresleep cur a (turn ∷ turns) lk k ≡ acquiresleep cur a turns s.0 (resume cur s.1))
  unfolding acquiresleep
  acquiresleep-turn turn turns lk k taken =
      let s = turn (lk, fall_asleep cur (Chan.lock_chan a) k) in
      ap
        (λ b.
          if b
          then acquiresleep cur a turns s.0 (resume cur s.1)
          else (record { locked = true; pid = (k.procs cur).pid }, k, Progress.returned tt))
        taken

  fall_asleep-sleeping :
      (c : Chan) (k : Kernel E)
      → (((fall_asleep cur c k).procs cur).state ≡ ProcState.sleeping)
        × (((fall_asleep cur c k).procs cur).chan ≡ c)
  unfolding fall_asleep
  fall_asleep-sleeping c k = (rw (eq→== cur cur refl) refl, rw (eq→== cur cur refl) refl)

  releasesleep-free : (lk : Sleeplock) (k : Kernel E) → (releasesleep a lk k).0.locked ≡ false
  unfolding releasesleep
  releasesleep-free lk k = refl

  releasesleep-runnable :
      (lk : Sleeplock) (k : Kernel E)
      → ((releasesleep a lk (fall_asleep cur (Chan.lock_chan a) k)).1.procs cur).state
        ≡ ProcState.runnable
  unfolding releasesleep wakeup fall_asleep
  releasesleep-runnable lk k = rw (eq→== cur cur refl, eq→== a a refl) refl

  -- While the lock is taken and each turn of the others leaves it taken, `acquiresleep` does not
  -- return: it sleeps on the lock. `releasesleep` then makes the process runnable, and if what the
  -- others do after it (`until`) leaves a free lock free, then `acquiresleep` returns when the
  -- process runs again, with the lock taken in the name of the process's pid.
  pub acquiresleep-releasesleep :
      (until : Turn E) (held more : List (Turn E)) (lk : Sleeplock) (k : Kernel E)
      → lk.locked ≡ true
      → AllHold held
      → ((s : Sleeplock × Kernel E) → s.0.locked ≡ false → (until s).0.locked ≡ false)
      → (lk1 : Sleeplock) × (k1 : Kernel E) × (acquiresleep cur a held lk k
          ≡ (lk1, k1, Progress.asleep tt))
        × (lk1.locked ≡ true)
        × ((k1.procs cur).state ≡ ProcState.sleeping)
        × ((k1.procs cur).chan ≡ Chan.lock_chan a)
        × (((releasesleep a lk1 k1).1.procs cur).state ≡ ProcState.runnable)
        × ((k3 : Kernel E) × (k3 ≡ resume cur (until (releasesleep a lk1 k1)).1)
            × (acquiresleep cur a (held ++ ((λ s. until (releasesleep a s.0 s.1)) ∷ more)) lk k
                ≡ (record { locked = true; pid = (k3.procs cur).pid }, k3, Progress.returned tt)))
  acquiresleep-releasesleep until [] more lk k taken holds stays =
      let k1 : Kernel E = fall_asleep cur (Chan.lock_chan a) k in
      let woken = releasesleep a lk k1 in
      let free : (until woken).0.locked ≡ false = stays woken (releasesleep-free lk k1) in
      let (state, chan) = fall_asleep-sleeping (Chan.lock_chan a) k in
      (
        lk,
        k1,
        acquiresleep-taken lk k taken,
        taken,
        state,
        chan,
        releasesleep-runnable lk k,
        (
          resume cur (until woken).1,
          refl,
          acquiresleep-turn (λ s. until (releasesleep a s.0 s.1)) more lk k taken
              ∙ acquiresleep-free more (until woken).0 (resume cur (until woken).1) free,
        ),
      )
  acquiresleep-releasesleep until (turn ∷ held) more lk k taken holds stays =
      let s = turn (lk, fall_asleep cur (Chan.lock_chan a) k) in
      let still = holds.0 (lk, fall_asleep cur (Chan.lock_chan a) k) taken in
      let (lk1, k1, asleep, locked, state, chan, runs, (k3, end, back)) =
        acquiresleep-releasesleep until held more s.0 (resume cur s.1) still holds.1 stays in
      (
        lk1,
        k1,
        acquiresleep-turn turn held lk k taken ∙ asleep,
        locked,
        state,
        chan,
        runs,
        (
          k3,
          end,
          acquiresleep-turn turn (held ++ ((λ s. until (releasesleep a s.0 s.1)) ∷ more)) lk k taken
              ∙ back,
        ),
      )
