-- ===== src/Wakeup.antt =====
-- `wakeup1`, `wakeup` and the part of `sleep` before it calls `sched`, of proc.c. The table is
-- scanned under `ptable.lock`; each entry is changed by itself.
use xv6_system_calls.Prelude.{ℕ, ◌&&◌, if◌then◌else◌}
use xv6_system_calls.Kernel.{ProcState, is_sleeping, Chan, same_chan, Proc, Kernel, set_proc}

-- The body of the loop of `wakeup1`.
abbrev pub wake : Chan → Proc → Proc
wake c p =
    if is_sleeping p.state && same_chan p.chan c then record p { state = ProcState.runnable } else p

module _ {E : Type 0} where
  unfoldable pub wakeup : Chan → Kernel E → Kernel E
  wakeup c k = record k { procs = λ i. wake c (k.procs i) }

  -- `p->chan = chan; p->state = SLEEPING;`
  unfoldable pub fall_asleep : ℕ → Chan → Kernel E → Kernel E
  fall_asleep cur c k =
      set_proc k cur (record (k.procs cur) { chan = c; state = ProcState.sleeping })

  -- What `sleep` does when `sched` returns: `p->chan = 0;`
  unfoldable pub resume : ℕ → Kernel E → Kernel E
  resume cur k = set_proc k cur (record (k.procs cur) { chan = Chan.no_chan })
