-- ===== src/Locks.antt =====
-- spinlock.c and sleeplock.c. The name of a lock and the call stack in it are for debugging.
pub mod Handover
use xv6_system_calls.Prelude.{
  ℕ, zero, suc, ◌+◌, ◌-◌, Bool, true, false, ◌&&◌, not, Option, none, some, List, [], ◌∷◌, ◌==◌,
  if◌then◌else◌, points_to, Outcome, ok, panic, ◌>>=◌, Progress,
}
use xv6_system_calls.Kernel.{Kernel, Proc, Chan}
use xv6_system_calls.Wakeup.{wakeup, fall_asleep, resume}

-- What of a processor the locks use: the interrupt flag, `ncli` and `intena`.
pub record Cpu : Type 0 where
  pub interrupts : Bool
  pub ncli : ℕ
  pub intena : Bool

-- `struct spinlock`; a processor is its number.
pub record Spinlock : Type 0 where
  pub locked : Bool
  pub cpu : Option ℕ

abbrev pub initlock : Spinlock
initlock = record { locked = false; cpu = none }

unfoldable pub pushcli : Cpu → Cpu
pushcli c = record {
  interrupts = false;
  ncli = c.ncli + 1;
  intena = if c.ncli == 0 then c.interrupts else c.intena;
}

-- `ncli` is never negative here: the source panics on the step below 0.
unfoldable pub popcli : Cpu → Outcome Cpu
popcli c =
    if c.interrupts
    then panic "popcli - interruptible"
    else if c.ncli == 0
    then panic "popcli"
    else ok (record c { ncli = c.ncli - 1; interrupts = (c.ncli - 1 == 0) && c.intena })

unfoldable pub holding : ℕ → Spinlock → Cpu → Outcome (Bool × Cpu)
holding id lk c = do c ← popcli (pushcli c); ok (lk.locked && points_to lk.cpu id, c)

-- One `xchg` of the loop of `acquire`, and what follows the loop.
unfoldable pub try_lock : ℕ → Spinlock → Spinlock × Progress (Unit {0}) (Unit {0})
try_lock id lk =
    if lk.locked
    then (lk, Progress.asleep tt)
    else (record { locked = true; cpu = some id }, Progress.returned tt)

unfoldable pub acquire :
    ℕ → Spinlock → Cpu → Outcome (Spinlock × Progress (Unit {0}) (Unit {0}) × Cpu)
acquire id lk c = do
  (held, c) ← holding id lk (pushcli c)
  if held then panic "acquire" else ok ((try_lock id lk).0, (try_lock id lk).1, c)

unfoldable pub release : ℕ → Spinlock → Cpu → Outcome (Spinlock × Cpu)
release id lk c = do
  (held, c) ← holding id lk c
  if held then (do c ← popcli c; ok (record { locked = false; cpu = none }, c)) else panic "release"

-- `struct sleeplock`, without the spin lock that protects it.
pub record Sleeplock : Type 0 where
  pub locked : Bool
  pub pid : ℕ

abbrev pub initsleeplock : Sleeplock
initsleeplock = record { locked = false; pid = 0 }

-- What the others do with a sleep lock and the kernel while a process is off the processor.
abbrev pub Turn : Type 0 → Type 0
Turn E = Sleeplock × Kernel E → Sleeplock × Kernel E

module _ {E : Type 0} where
  -- `acquiresleep` on the lock at `a`, with the turns that the others have in its calls of `sleep`,
  -- each up to where `sched` returns. It is asleep where there are no more turns.
  unfoldable pub acquiresleep :
      ℕ
      → ℕ
      → List (Turn E)
      → Sleeplock
      → Kernel E
      → Sleeplock × Kernel E × Progress (Unit {0}) (Unit {0})
  acquiresleep cur a [] lk k =
      if lk.locked
      then (lk, fall_asleep cur (Chan.lock_chan a) k, Progress.asleep tt)
      else (record { locked = true; pid = (k.procs cur).pid }, k, Progress.returned tt)
  acquiresleep cur a (turn ∷ turns) lk k =
      let s = turn (lk, fall_asleep cur (Chan.lock_chan a) k) in
      let again = acquiresleep cur a turns s.0 (resume cur s.1) in
      if lk.locked
      then again
      else (record { locked = true; pid = (k.procs cur).pid }, k, Progress.returned tt)

  unfoldable pub releasesleep : ℕ → Sleeplock → Kernel E → Sleeplock × Kernel E
  releasesleep a lk k = (record { locked = false; pid = 0 }, wakeup (Chan.lock_chan a) k)

abbrev pub holdingsleep : Sleeplock → Bool
holdingsleep lk = lk.locked
