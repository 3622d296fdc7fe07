-- ===== src/Process/Reap.antt =====
-- `exit`, `wait`, `time` and `kill` of proc.c.
use xv6_system_calls.Prelude.{
  ℕ, zero, suc, ◌+◌, Bool, true, false, ◌&&◌, ◌||◌, Option, none, some, ◌==◌, if◌then◌else◌, first,
  update, is_none, points_to, ℤ, pos, minus_one, int_of, Outcome, ok, panic, ◌>>=◌, Progress, sub32,
}
use xv6_system_calls.Kernel.{
  Kernel, Lower, Proc, ProcState, Chan, nproc, nofile, is_zombie, is_sleeping, set_proc,
}
use xv6_system_calls.Kalloc.{kfree_ptr}
use xv6_system_calls.Wakeup.{wakeup, fall_asleep}
use xv6_system_calls.File.{fileclose, put_inode}

-- The address of a process as a channel.
abbrev pub parent_chan : Option ℕ → Chan
parent_chan none = Chan.no_chan
parent_chan (some i) = Chan.proc_chan i

module _ {E : Type 0} where
  -- The body of the loop of `exit` that hands the children to init.
  unfoldable pub pass_child : ℕ → ℕ → Kernel E → Kernel E
  pass_child cur i k =
      let k' = set_proc k i (record (k.procs i) { parent = k.init_proc }) in
      if points_to (k.procs i).parent cur
      then (if is_zombie (k.procs i).state then wakeup (parent_chan k.init_proc) k' else k')
      else k

  -- That loop, for `n` entries from `i` on.
  unfoldable pub pass_children : ℕ → ℕ → ℕ → Kernel E → Kernel E
  pass_children cur zero i k = k
  pass_children cur (suc n) i k = pass_children cur n (i + 1) (pass_child cur i k)

  -- `exit` from `acquire(&ptable.lock)` to the call of `sched`, which does not come back.
  unfoldable pub become_zombie : ℕ → Kernel E → Kernel E
  become_zombie cur k =
      let k' = pass_children cur nproc 0 (wakeup (parent_chan (k.procs cur).parent) k) in
      set_proc k' cur (record (k'.procs cur) { state = ProcState.zombie; sz = 0 })

-- The entry of a zombie after its parent has given it back.
abbrev pub given_back : Proc → Proc
given_back p = record p {
  kstack = none;
  pid = 0;
  parent = none;
  name = update p.name 0 0;
  killed = false;
  state = ProcState.unused;
}

module _ {E : Type 0} (lower : Lower E) where
  unfoldable pub close_file : ℕ → ℕ → Option ℕ → Kernel E → Outcome (Kernel E)
  close_file cur fd none k = ok k
  close_file cur fd (some f) k = do
    k ← fileclose lower f k
    ok (set_proc k cur (record (k.procs cur) { ofile = update (k.procs cur).ofile fd none }))

  -- The loop of `exit` over the descriptors, `n` of them from `fd` on.
  unfoldable pub close_files : ℕ → ℕ → ℕ → Kernel E → Outcome (Kernel E)
  close_files cur zero fd k = ok k
  close_files cur (suc n) fd k =
      close_file cur fd ((k.procs cur).ofile fd) k >>= close_files cur n (fd + 1)

  unfoldable pub exit : ℕ → Kernel E → Outcome (Kernel E)
  exit cur k = if points_to k.init_proc cur then panic "init exiting" else do
    k ← close_files cur nofile 0 k
    k ← put_inode lower (k.procs cur).cwd k
    ok (become_zombie cur (set_proc k cur (record (k.procs cur) { cwd = none })))

  -- `wait` once it has found the zombie child `i`.
  unfoldable pub reap : ℕ → Kernel E → Outcome (ℤ × Kernel E)
  reap i k = do
    let pid = (k.procs i).pid
    k ← kfree_ptr (k.procs i).kstack k
    (pages, env) ← lower.freevm (k.procs i).pgdir k.free_pages k.env
    ok (
      int_of pid,
      set_proc (record k { free_pages = pages; env = env }) i (given_back (k.procs i)),
    )

-- What `time` stores through its first pointer, as a 32-bit word.
abbrev pub waiting_time : Proc → ℕ
waiting_time p = sub32 (sub32 (sub32 p.endt p.arrivalt) p.burstt) p.iot

-- The entry of a zombie after `time` has given it back.
abbrev pub time_reset : Proc → Proc
time_reset p = record p {
  kstack = none;
  state = ProcState.unused;
  pid = 0;
  parent = none;
  name = update p.name 0 0;
  killed = false;
}

module _ {E : Type 0} where
  abbrev pub child_of : Kernel E → ℕ → ℕ → Bool
  child_of k cur i = points_to (k.procs i).parent cur

  abbrev pub zombie_child_of : Kernel E → ℕ → ℕ → Bool
  zombie_child_of k cur i = child_of k cur i && is_zombie (k.procs i).state

  -- `!havekids || curproc->killed`, after a scan that met no zombie child.
  abbrev pub no_point_waiting : ℕ → Kernel E → Bool
  no_point_waiting cur k = is_none (first (child_of k cur) nproc) || (k.procs cur).killed

  -- The same tests in the copy of `time`.
  abbrev pub time_child_of : Kernel E → ℕ → ℕ → Bool
  time_child_of k cur i = points_to (k.procs i).parent cur

  abbrev pub time_zombie_of : Kernel E → ℕ → ℕ → Bool
  time_zombie_of k cur i = time_child_of k cur i && is_zombie (k.procs i).state

  abbrev pub time_gives_up : ℕ → Kernel E → Bool
  time_gives_up cur k = is_none (first (time_child_of k cur) nproc) || (k.procs cur).killed

module _ {E : Type 0} (lower : Lower E) where
  -- One round of the `for(;;)` of `wait`: a zombie child is reaped, or there is nothing to wait
  -- for, or the caller goes to sleep on its own entry, and starts again when it is woken.
  unfoldable pub wait : ℕ → Kernel E → Outcome (Kernel E × Progress ℤ (Unit {0}))
  wait cur k = elim (first (zombie_child_of k cur) nproc) [
    | some i ↦ (do (pid, k) ← reap lower i k; ok (k, Progress.returned pid))
    | none ↦
        if no_point_waiting cur k
        then ok (k, Progress.returned minus_one)
        else ok (fall_asleep cur (Chan.proc_chan cur) k, Progress.asleep tt)
  ]

  -- What `time` does with the zombie child `i` that its scan has found: `time` has its own copy of
  -- the code of `wait`. With the pid come the two times that it stores, read before the reset.
  unfoldable pub time_reap : ℕ → Kernel E → Outcome (ℤ × ℕ × ℕ × Kernel E)
  time_reap i k = do
    let p = k.procs i
    k ← kfree_ptr p.kstack k
    (pages, env) ← lower.freevm (k.procs i).pgdir k.free_pages k.env
    ok (
      int_of p.pid,
      waiting_time p,
      p.burstt,
      set_proc (record k { free_pages = pages; env = env }) i (time_reset (k.procs i)),
    )

  -- One round of `time`; with the pid come `*waitt` and `*burstt`, where they are stored.
  unfoldable pub time : ℕ → Kernel E → Outcome (Kernel E × Progress (ℤ × Option (ℕ × ℕ)) (Unit {0}))
  time cur k = elim (first (time_zombie_of k cur) nproc) [
    | some i ↦ (do
      (pid, waited, burst, k) ← time_reap i k
      ok (k, Progress.returned (pid, some (waited, burst))))
    | none ↦
        if time_gives_up cur k
        then ok (k, Progress.returned (minus_one, none))
        else ok (fall_asleep cur (Chan.proc_chan cur) k, Progress.asleep tt)
  ]

-- `p->killed = 1; if(p->state == SLEEPING) p->state = RUNNABLE;`
abbrev pub mark_killed : Proc → Proc
mark_killed p = record p {
  killed = true;
  state = if is_sleeping p.state then ProcState.runnable else p.state;
}

module _ {E : Type 0} where
  -- `kill(pid)`: the first entry with that pid, whatever its state.
  unfoldable pub kill : ℕ → Kernel E → ℤ × Kernel E
  kill pid k = elim (first (λ i. (k.procs i).pid == pid) nproc) [
    | none ↦ (minus_one, k)
    | some i ↦ (pos 0, set_proc k i (mark_killed (k.procs i)))
  ]
