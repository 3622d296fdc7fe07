-- ===== src/SysProc.antt =====
-- sysproc.c: the system calls on processes, which check their arguments and call proc.c.
pub mod Laws
use xv6_system_calls.Prelude.{
  ℕ, zero, suc, ◌+◌, ◌%◌, Bool, true, false, Option, none, some, List, ltb, if◌then◌else◌, ℤ, pos,
  negsuc, minus_one, int_of, sub32, Outcome, ok, panic, ◌>>=◌, Progress,
}
use xv6_system_calls.Kernel.{Kernel, Lower, Proc, Chan}
use xv6_system_calls.Wakeup.{fall_asleep}
use xv6_system_calls.Process.{fork}
use xv6_system_calls.Process.Reap.{exit, wait, time, kill}
use xv6_system_calls.Process.Info.{Row, cps, getppid, getsz, chpr, getcount, growproc}
use xv6_system_calls.Syscall.{Memory, argint, argptr}

module _ {E : Type 0} (lower : Lower E) where
  abbrev pub sys_fork : ℕ → Kernel E → Outcome (ℤ × Kernel E)
  sys_fork cur k = fork lower cur k

  abbrev pub sys_exit : ℕ → Kernel E → Outcome (Kernel E)
  sys_exit cur k = exit lower cur k

  abbrev pub sys_wait : ℕ → Kernel E → Outcome (Kernel E × Progress ℤ (Unit {0}))
  sys_wait cur k = wait lower cur k

  -- `growproc(n) < 0`, and what `sys_sbrk` returns.
  unfoldable pub grown : ℕ → ℤ × Kernel E → ℤ × Kernel E
  grown addr (pos r, k) = (int_of addr, k)
  grown addr (negsuc r, k) = (minus_one, k)

  sbrk_arg : ℕ → Option ℕ → Kernel E → Outcome (ℤ × Kernel E)
  unfolding grown
  sbrk_arg cur none k = ok (minus_one, k)
  sbrk_arg cur (some n) k = do
    let addr = (k.procs cur).sz
    r ← growproc lower cur (int_of n) k
    ok (grown addr r)

  unfoldable pub sys_sbrk : Memory → ℕ → Kernel E → Outcome (ℤ × Kernel E)
  unfolding sbrk_arg
  sys_sbrk m cur k = sbrk_arg cur (argint m (k.procs cur) 0) k

  time_args :
      ℕ
      → Option ℕ
      → Option ℕ
      → Kernel E
      → Outcome (Kernel E × Progress (ℤ × Option (ℕ × ℕ)) (Unit {0}))
  time_args cur none burstt k = ok (k, Progress.returned (pos 12, none))
  time_args cur (some waitt) none k = ok (k, Progress.returned (pos 13, none))
  time_args cur (some waitt) (some burstt) k = time lower cur k

  -- `sys_time`; the two words are stored at its two pointers.
  unfoldable pub sys_time :
      Memory → ℕ → Kernel E → Outcome (Kernel E × Progress (ℤ × Option (ℕ × ℕ)) (Unit {0}))
  unfolding time_args
  sys_time m cur k = time_args cur (argptr m (k.procs cur) 0 4) (argptr m (k.procs cur) 1 4) k

abbrev pub sys_uptime : ℕ → ℤ
sys_uptime ticks = int_of ticks

module _ {E : Type 0} where
  kill_arg : Option ℕ → Kernel E → ℤ × Kernel E
  kill_arg none k = (minus_one, k)
  kill_arg (some pid) k = kill pid k

  unfoldable pub sys_kill : Memory → ℕ → Kernel E → ℤ × Kernel E
  unfolding kill_arg
  sys_kill m cur k = kill_arg (argint m (k.procs cur) 0) k

  abbrev pub sys_getpid : ℕ → Kernel E → ℤ
  sys_getpid cur k = int_of (k.procs cur).pid

  -- The loop of `sys_sleep`, one round: `ticks` is a `uint`, so the comparison is one of words,
  -- and takes a negative `n` for a large one. A round that sleeps goes on with `n` and `ticks0`.
  unfoldable pub sleep_round : ℕ → ℕ → ℕ → ℕ → Kernel E → Kernel E × Progress ℤ (ℕ × ℕ)
  sleep_round cur n ticks0 ticks k =
      if ltb (sub32 ticks ticks0) n
      then (if (k.procs cur).killed
          then (k, Progress.returned minus_one)
          else (fall_asleep cur Chan.ticks_chan k, Progress.asleep (n, ticks0)))
      else (k, Progress.returned (pos 0))

  sleep_arg : ℕ → ℕ → Option ℕ → Kernel E → Kernel E × Progress ℤ (ℕ × ℕ)
  unfolding sleep_round
  sleep_arg cur ticks none k = (k, Progress.returned minus_one)
  sleep_arg cur ticks (some n) k = sleep_round cur n ticks ticks k

  unfoldable pub sys_sleep : Memory → ℕ → ℕ → Kernel E → Kernel E × Progress ℤ (ℕ × ℕ)
  unfolding sleep_arg
  sys_sleep m cur ticks k = sleep_arg cur ticks (argint m (k.procs cur) 0) k

  abbrev pub sys_cps : Kernel E → List Row × ℤ
  sys_cps k = cps k

  abbrev pub sys_getppid : ℕ → Kernel E → Option ℤ
  sys_getppid cur k = getppid cur k

  abbrev pub sys_getsz : ℕ → Kernel E → ℤ
  sys_getsz cur k = getsz cur k

  chpr_args : Option ℕ → Option ℕ → Kernel E → ℤ × Kernel E
  chpr_args none priority k = (minus_one, k)
  chpr_args (some pid) none k = (minus_one, k)
  chpr_args (some pid) (some priority) k = chpr pid priority k

  unfoldable pub sys_chpr : Memory → ℕ → Kernel E → ℤ × Kernel E
  unfolding chpr_args
  sys_chpr m cur k = chpr_args (argint m (k.procs cur) 0) (argint m (k.procs cur) 1) k

  count_arg : ℕ → Option ℕ → Kernel E → Option ℤ
  count_arg cur none k = some minus_one
  count_arg cur (some procno) k = elim (getcount cur procno k) [
    | none ↦ none
    | some w ↦ some (int_of w)
  ]

  -- `sys_getcount`; `none` where `getcount` reads outside of `struct proc`.
  unfoldable pub sys_getcount : Memory → ℕ → Kernel E → Option ℤ
  unfolding count_arg
  sys_getcount m cur k = count_arg cur (argint m (k.procs cur) 0) k
