-- ===== src/Process.antt =====
-- proc.c: the life of a process. A function is what its C namesake does between two points where
-- another process may run; `wait` and `time` go on in the same function after a sleep.
pub mod Alloc
pub mod Fork
pub mod Reap
pub mod Exit
pub mod Wait
pub mod Info
pub mod Switch
use xv6_system_calls.Prelude.{
  ℕ, zero, suc, ◌+◌, ◌-◌, ◌%◌, Bool, true, false, ◌&&◌, ◌||◌, not, Option, none, some, ◌==◌,
  if◌then◌else◌, first, update, is_none, points_to, u32_mod, ℤ, pos, minus_one, int_of, Outcome, ok,
  panic, ◌>>=◌,
}
use xv6_system_calls.Kernel.{
  Kernel, Lower, Proc, ProcState, Chan, Context, Trapframe, nproc, nofile, default_priority,
  is_unused, is_zombie, is_sleeping, set_proc,
}
use xv6_system_calls.Kalloc.{kalloc, kfree_ptr}
use xv6_system_calls.Wakeup.{wakeup, fall_asleep}
use xv6_system_calls.File.{filedup, fileclose, put_inode}
use xv6_system_calls.Strings.{safestrcpy}

-- The trap frame at the top of a page that `kfree` has filled with ones.
abbrev pub junk_frame : Trapframe
junk_frame = record {
  eax = 0x0101_0101;
  esp = 0x0101_0101;
  eip = 0x0101_0101;
  cs = 0x0101;
  ds = 0x0101;
  es = 0x0101;
  ss = 0x0101;
  eflags = 0x0101_0101;
}

module _ {E : Type 0} where
  -- `p->state = EMBRYO; p->pid = nextpid++; p->priority = DEFAULTPRIORITY;`
  abbrev pub embryo : Kernel E → ℕ → Kernel E
  embryo k i = record k {
    procs = update k.procs i (record (k.procs i) {
      state = ProcState.embryo;
      pid = k.next_pid;
      priority = default_priority;
    });
    next_pid = (k.next_pid + 1) % u32_mod;
  }

  -- The rest of `allocproc`, with what `kalloc` returned.
  give_stack : ℕ → Option ℕ × Kernel E → Option ℕ × Kernel E
  give_stack i (none, k) =
      (none, set_proc k i (record (k.procs i) { kstack = none; state = ProcState.unused }))
  give_stack i (some page, k) = (
    some i,
    set_proc k i (record (k.procs i) {
      kstack = some page;
      tf = junk_frame;
      context = Context.at_forkret;
      sys_count = λ _. 0;
    }),
  )

  unfoldable pub allocproc : Kernel E → Option ℕ × Kernel E
  unfolding give_stack
  allocproc k = elim (first (λ i. is_unused (k.procs i).state) nproc) [
    | none ↦ (none, k)
    | some i ↦ give_stack i (kalloc (embryo k i))
  ]

  -- `np->ofile[fd] = filedup(curproc->ofile[fd])`, where the parent's descriptor is open.
  dup_file : ℕ → ℕ → Option ℕ → Kernel E → Outcome (Kernel E)
  dup_file np fd none k = ok k
  dup_file np fd (some f) k = do
    k ← filedup f k
    ok (set_proc k np (record (k.procs np) { ofile = update (k.procs np).ofile fd (some f) }))

  -- The loop of `fork` over the descriptors, `n` of them from `fd` on.
  unfoldable pub dup_files : ℕ → ℕ → ℕ → ℕ → Kernel E → Outcome (Kernel E)
  unfolding dup_file
  dup_files cur np zero fd k = ok k
  dup_files cur np (suc n) fd k =
      dup_file np fd ((k.procs cur).ofile fd) k >>= dup_files cur np n (fd + 1)

module _ {E : Type 0} (lower : Lower E) where
  -- `fork` from the point where the page table is copied.
  fork_child : ℕ → ℕ → Option ℕ → Kernel E → Outcome (ℤ × Kernel E)
  fork_child cur np none k = do
    k ← kfree_ptr (k.procs np).kstack k
    ok (minus_one, set_proc k np (record (k.procs np) { kstack = none; state = ProcState.unused }))
  fork_child cur np (some pgdir) k = do
    let k = set_proc k np (record (k.procs np) {
      pgdir = some pgdir;
      sz = (k.procs cur).sz;
      parent = some cur;
      tf = record (k.procs cur).tf { eax = 0 };
    })
    k ← dup_files cur np nofile 0 k
    env ← lower.idup (k.procs cur).cwd k.env
    ok (
      int_of (k.procs np).pid,
      set_proc (record k { env = env }) np
          (record (k.procs np) {
            cwd = (k.procs cur).cwd;
            name = safestrcpy (k.procs np).name (k.procs cur).name 16;
            state = ProcState.runnable;
          }),
    )

  after_alloc : ℕ → Option ℕ × Kernel E → Outcome (ℤ × Kernel E)
  unfolding fork_child
  after_alloc cur (none, k) = ok (minus_one, k)
  after_alloc cur (some np, k) = do
    (pgdir, pages, env) ← lower.copyuvm (k.procs cur).pgdir (k.procs cur).sz k.free_pages k.env
    fork_child cur np pgdir (record k { free_pages = pages; env = env })

  unfoldable pub fork : ℕ → Kernel E → Outcome (ℤ × Kernel E)
  unfolding after_alloc
  fork cur k = after_alloc cur (allocproc k)
