-- ===== src/Process/Fork.antt =====
-- `fork` of proc.c.
use xv6_system_calls.Prelude.{
  first, ℕ, zero, suc, ◌+◌, ◌%◌, ◌^◌, ◌<◌, ◌≤◌, ◌≡◌, ◌≢◌, refl, sym, ap, ◌∙◌, true, false, Option,
  none, some, arith, ◌==◌, if◌then◌else◌, update, u32_mod, List, ℤ, pos, minus_one, int_of, ok,
  lt→ltb, ok-pair, >>=-eq-ok,
}
use native.Mathlib.Decide.{dec_lt}
use xv6_system_calls.Kernel.{
  Kernel, Lower, Proc, ProcState, Context, nproc, nofile, is_unused, set_proc,
}
use xv6_system_calls.Kalloc.{kfree_ptr}
use xv6_system_calls.Kalloc.FreeList.{kfree_ptr-procs}
use xv6_system_calls.File.{filedup}
use xv6_system_calls.File.Changes.{filedup-ref}
use xv6_system_calls.Strings.{safestrcpy}
use xv6_system_calls.Process.{allocproc, dup_file, dup_files, fork_child, after_alloc, fork}
use xv6_system_calls.Process.Alloc.{allocproc-some, allocproc-none, fresh_proc, picked}

-- A process but for its descriptors.
abbrev pub but_files : Proc → Proc
but_files p = record p { ofile = λ _. none }

-- The first of two pointers that is not null.
abbrev pub or_else : Option ℕ → Option ℕ → Option ℕ
or_else none b = b
or_else (some a) b = some a

module _ {E : Type 0} where
  -- `dup_file` changes the descriptor `fd` of the child, and nothing else of any process.
  record FileDuped (np fd : ℕ) (o : Option ℕ) (k k' : Kernel E) : Type 0 where
    frame : (j : ℕ) → j ≢ np → k'.procs j ≡ k.procs j
    rest : but_files (k'.procs np) ≡ but_files (k.procs np)
    pids : k'.next_pid ≡ k.next_pid
    files :
        (d : ℕ)
        → (k'.procs np).ofile d
          ≡ (if d == fd then or_else o ((k.procs np).ofile fd) else (k.procs np).ofile d)

  dup_file-FileDuped :
      (np fd : ℕ) (o : Option ℕ) (k k' : Kernel E)
      → dup_file np fd o k ≡ ok k'
      → FileDuped np fd o k k'
  unfolding dup_file
  dup_file-FileDuped np fd none k k' h = record {
    frame = λ j other. ground arith;
    rest = ground arith;
    pids = ground arith;
    files = λ d. ground arith;
  }
  dup_file-FileDuped np fd (some f) k k' h =
      let (k1, duped, done) =
        >>=-eq-ok (filedup f k)
          (λ k1. ok (
            set_proc k1 np
              (record (k1.procs np) { ofile = update (k1.procs np).ofile fd (some f) })))
          h in
      let (alive, more, procs, pids) = filedup-ref f 0 k k1 duped in
      let end : set_proc k1 np
            (record (k1.procs np) { ofile = update (k1.procs np).ofile fd (some f) })
          ≡ k' =
        ground arith in
      rw (← end, procs)
        (record {
          frame = λ j other. ground arith;
          rest = ground arith;
          pids = ground arith;
          files = λ d. ground arith;
        })

  -- The loop over `n` descriptors from `fd` on.
  record FilesDuped (cur np n fd : ℕ) (k k' : Kernel E) : Type 0 where
    frame : (j : ℕ) → j ≢ np → k'.procs j ≡ k.procs j
    rest : but_files (k'.procs np) ≡ but_files (k.procs np)
    pids : k'.next_pid ≡ k.next_pid
    files :
        (d : ℕ)
        → fd ≤ d
        → d < fd + n
        → (k'.procs np).ofile d ≡ or_else ((k.procs cur).ofile d) ((k.procs np).ofile d)
    below : (d : ℕ) → d < fd → (k'.procs np).ofile d ≡ (k.procs np).ofile d

  dup_files-FilesDuped :
      (cur np n fd : ℕ) (k k' : Kernel E)
      → cur ≢ np
      → dup_files cur np n fd k ≡ ok k'
      → FilesDuped cur np n fd k k'
  unfolding dup_files
  dup_files-FilesDuped cur np zero fd k k' apart h = record {
    frame = λ j other. ground arith;
    rest = ground arith;
    pids = ground arith;
    files = λ d lo hi. absurd (omega arith);
    below = λ d lt. ground arith;
  }
  dup_files-FilesDuped cur np (suc n) fd k k' apart h =
      let (k1, first_one, others) =
        >>=-eq-ok (dup_file np fd ((k.procs cur).ofile fd) k) (dup_files cur np n (fd + 1)) h in
      let one = dup_file-FileDuped np fd ((k.procs cur).ofile fd) k k1 first_one in
      let all = dup_files-FilesDuped cur np n (fd + 1) k1 k' apart others in
      record {
        frame = λ j other. all.frame j other ∙ one.frame j other;
        rest = all.rest ∙ one.rest;
        pids = all.pids ∙ one.pids;
        files = λ d lo hi. elim (dec_lt fd d) [
          | yes later ↦
              let parent = ap (λ (p : Proc). p.ofile d) (one.frame cur apart) in
              let kept : (k1.procs np).ofile d ≡ (k.procs np).ofile d =
                ground (arith, one.files d) in
              rw (← parent, ← kept) (all.files d (omega arith) (omega arith))
          | no first_one ↦
              let here : d ≡ fd = omega arith in
              rw here (all.below fd (omega arith) ∙ ground (arith, one.files fd))
        ];
        below = λ d lt. ground (arith, all.below d, one.files d);
      }

-- The child `np` of `cur` after a `fork`.
pub record IsChild {E : Type 0} (cur np : ℕ) (k k' : Kernel E) : Type 0 where
  pub was_unused : is_unused (k.procs np).state ≡ true
  pub in_table : np < nproc
  pub picked : first (λ i. is_unused (k.procs i).state) nproc ≡ some np
  pub runnable : (k'.procs np).state ≡ ProcState.runnable
  pub pid : (k'.procs np).pid ≡ k.next_pid
  pub parent : (k'.procs np).parent ≡ some cur
  pub sz : (k'.procs np).sz ≡ (k.procs cur).sz
  pub tf : (k'.procs np).tf ≡ record (k.procs cur).tf { eax = 0 }
  pub context : (k'.procs np).context ≡ Context.at_forkret
  pub cwd : (k'.procs np).cwd ≡ (k.procs cur).cwd
  pub killed : (k'.procs np).killed ≡ (k.procs np).killed
  pub ofile :
      (d : ℕ)
      → d < nofile
      → (k'.procs np).ofile d ≡ or_else ((k.procs cur).ofile d) ((k.procs np).ofile d)
  pub others : (j : ℕ) → j ≢ np → k'.procs j ≡ k.procs j
  pub next_pid : k'.next_pid ≡ (k.next_pid + 1) % u32_mod

-- The child before its descriptors are copied.
abbrev start_child : Proc → Proc → ℕ → ℕ → Proc
start_child p parent cur pgdir = record p {
  pgdir = some pgdir;
  sz = parent.sz;
  parent = some cur;
  tf = record parent.tf { eax = 0 };
}

-- The child after its descriptors are copied.
abbrev end_child : Proc → Proc → Proc
end_child p parent = record p {
  cwd = parent.cwd;
  name = safestrcpy p.name parent.name 16;
  state = ProcState.runnable;
}

module _ {E : Type 0} (cur np pgdir page : ℕ) (k k1 k2 k3 : Kernel E) (env : E) where
  IsChild-of_steps :
      cur ≢ np
      → np < nproc
      → first (λ i. is_unused (k.procs i).state) nproc ≡ some np
      → is_unused (k.procs np).state ≡ true
      → ((j : ℕ) → j ≢ np → k1.procs j ≡ k.procs j)
      → k1.procs np ≡ fresh_proc (k.procs np) k.next_pid page
      → k1.next_pid ≡ (k.next_pid + 1) % u32_mod
      → k2 ≡ set_proc k1 np (start_child (k1.procs np) (k1.procs cur) cur pgdir)
      → FilesDuped cur np nofile 0 k2 k3
      → IsChild cur np k
          (set_proc (record k3 { env = env }) np (end_child (k3.procs np) (k3.procs cur)))
        × ((k3.procs np).pid ≡ k.next_pid)
  IsChild-of_steps apart lt found free others base next start all =
      let second : k2.procs np ≡ start_child (k1.procs np) (k1.procs cur) cur pgdir =
        ground arith in
      let parent : k3.procs cur ≡ k.procs cur =
        all.frame cur apart ∙ ground (arith, others cur apart) in
      let kept : ((j : ℕ) → j ≢ np → k2.procs j ≡ k.procs j) =
        λ j other. ground (arith, others j other) in
      let grown : but_files (k3.procs np)
          ≡ but_files
              (start_child (fresh_proc (k.procs np) k.next_pid page) (k.procs cur) cur pgdir) =
        all.rest ∙ ap but_files second ∙ rw (base, others cur apart) refl in
      (
        record {
          was_unused = free;
          in_table = lt;
          picked = found;
          runnable = ground arith;
          killed = ground arith;
          pid = ground arith;
          parent = ground arith;
          sz = ground arith;
          tf = ground arith;
          context = ground arith;
          cwd = ground arith;
          ofile = λ d hi.
              let copied = all.files d (omega arith) (omega arith) in
              let old : (k2.procs np).ofile d ≡ (k.procs np).ofile d = ground arith in
              ground (arith, ap (λ (p : Proc). p.ofile d) (kept cur apart));
          others = λ j other. ground (arith, all.frame j other, kept j other);
          next_pid = ground (arith, all.pids);
        },
        ground arith,
      )

module _ {E : Type 0} (lower : Lower E) (cur : ℕ) (k k' : Kernel E) where
  fork_child-IsChild :
      (np pgdir : ℕ) (k1 : Kernel E) (r : ℤ) (pages : List ℕ) (env : E)
      → allocproc k ≡ (some np, k1)
      → cur ≢ np
      → fork_child lower cur np (some pgdir) (record k1 { free_pages = pages; env = env })
        ≡ ok (r, k')
      → IsChild cur np k k' × (r ≡ int_of k.next_pid)
  unfolding fork_child
  fork_child-IsChild np pgdir k1 r pages env alloc apart h =
      let (page, lt, free, mine, stack, next) = allocproc-some k k1 np np alloc in
      let base : k1.procs np ≡ fresh_proc (k.procs np) k.next_pid page = ground arith in
      let others : ((j : ℕ) → j ≢ np → k1.procs j ≡ k.procs j) =
        λ j other. ground (arith, (allocproc-some k k1 np j alloc).3) in
      let k1' : Kernel E = record k1 { free_pages = pages; env = env } in
      let k2 : Kernel E = set_proc k1' np (start_child (k1.procs np) (k1.procs cur) cur pgdir) in
      let (k3, duped, rest) = >>=-eq-ok (dup_files cur np nofile 0 k2) _ h in
      let (env', dup_dir, done) = >>=-eq-ok (lower.idup (k3.procs cur).cwd k3.env) _ rest in
      let all = dup_files-FilesDuped cur np nofile 0 k2 k3 apart duped in
      let (is, pid) =
        IsChild-of_steps cur np pgdir page k k1' k2 k3 env' apart lt (picked k k1 np alloc) free
          others base next refl all in
      let (number, state) = ok-pair done in (rw (← state) is, sym number ∙ ap int_of pid)

  fork_child-fails :
      (np i : ℕ) (k1 : Kernel E) (r : ℤ)
      → is_unused (k.procs np).state ≡ true
      → ((j : ℕ) → j ≢ np → k1.procs j ≡ k.procs j)
      → fork_child lower cur np none k1 ≡ ok (r, k')
      → (r ≡ minus_one) × ((k'.procs i).state ≡ (k.procs i).state)
  unfolding fork_child
  fork_child-fails np i k1 r free others h =
      let (k2, freed, done) = >>=-eq-ok (kfree_ptr (k1.procs np).kstack k1) _ h in
      let procs = kfree_ptr-procs (k1.procs np).kstack k1 k2 freed in
      let (number, end) = ok-pair done in (sym number, rw (← end, procs) (ground (arith, others i)))

  copied-IsChild :
      (pid np : ℕ) (k1 : Kernel E) (pgdir : Option ℕ) (pages : List ℕ) (env : E)
      → is_unused (k.procs cur).state ≡ false
      → allocproc k ≡ (some np, k1)
      → fork_child lower cur np pgdir (record k1 { free_pages = pages; env = env })
        ≡ ok (pos pid, k')
      → IsChild cur np k k' × (pos pid ≡ int_of k.next_pid)
  copied-IsChild pid np k1 none pages env running e run =
      let (bad, same) =
        fork_child-fails np 0 (record k1 { free_pages = pages; env = env }) (pos pid)
          (allocproc-some k k1 np 0 e).2 (λ j other. ground (arith, (allocproc-some k k1 np j e).3))
          run in
      cc
  copied-IsChild pid np k1 (some pgdir) pages env running e run =
      let free = (allocproc-some k k1 np 0 e).2 in
      let apart : cur ≢ np = λ same. cc (rw same at running) in
      fork_child-IsChild np pgdir k1 (pos pid) pages env e apart run

  after_alloc-IsChild :
      (pid : ℕ) (got : Option ℕ × Kernel E)
      → is_unused (k.procs cur).state ≡ false
      → allocproc k ≡ got
      → after_alloc lower cur got ≡ ok (pos pid, k')
      → (np : ℕ) × (IsChild cur np k k' × (pos pid ≡ int_of k.next_pid))
  unfolding after_alloc
  after_alloc-IsChild pid (none, k1) running e run = absurd (ground arith)
  after_alloc-IsChild pid (some np, k1) running e run =
      let ((pgdir, pages, env), copy, rest) =
        >>=-eq-ok (lower.copyuvm (k1.procs cur).pgdir (k1.procs cur).sz k1.free_pages k1.env) _
          run in
      (np, copied-IsChild pid np k1 pgdir pages env running e rest)

  -- Where a process whose entry is in use calls `fork` and gets a pid, an unused entry has become
  -- its child: runnable, with the next pid, the caller as its parent, the caller's size,
  -- registers, directory and open files, 0 as the value that `fork` returns to it, and the entry's
  -- old `killed` flag. Every other entry is as before.
  pub fork-IsChild :
      (pid : ℕ)
      → is_unused (k.procs cur).state ≡ false
      → fork lower cur k ≡ ok (pos pid, k')
      → (np : ℕ) × (IsChild cur np k k' × (pos pid ≡ int_of k.next_pid))
  unfolding fork
  fork-IsChild pid running h = after_alloc-IsChild pid (allocproc k) running refl h

  -- Where a process whose entry is in use calls `fork` and gets -1, with pids still below 2^31,
  -- every entry is in the state in which it was: no embryo is left behind, whether the table, the
  -- kernel stack or the page table failed.
  pub fork-minus_one :
      (i : ℕ)
      → is_unused (k.procs cur).state ≡ false
      → k.next_pid < 2 ^ 31
      → fork lower cur k ≡ ok (minus_one, k')
      → (k'.procs i).state ≡ (k.procs i).state
  unfolding fork after_alloc int_of
  fork-minus_one i running small h = go (allocproc k) refl h
    where
      copied :
          (np : ℕ) (k1 : Kernel E) (pgdir : Option ℕ) (pages : List ℕ) (env : E)
          → allocproc k ≡ (some np, k1)
          → fork_child lower cur np pgdir (record k1 { free_pages = pages; env = env })
            ≡ ok (minus_one, k')
          → (k'.procs i).state ≡ (k.procs i).state
      copied np k1 none pages env e run =
          (fork_child-fails np i (record k1 { free_pages = pages; env = env }) minus_one
            (allocproc-some k k1 np 0 e).2
            (λ j other. ground (arith, (allocproc-some k k1 np j e).3)) run).1
      copied np k1 (some pgdir) pages env e run =
          let free = (allocproc-some k k1 np 0 e).2 in
          let apart : cur ≢ np = λ same. cc (rw same at running) in
          let (is, number) = fork_child-IsChild np pgdir k1 minus_one pages env e apart run in
          absurd (ground (arith, lt→ltb k.next_pid (2 ^ 31) small))

      go :
          (got : Option ℕ × Kernel E)
          → allocproc k ≡ got
          → after_alloc lower cur got ≡ ok (minus_one, k')
          → (k'.procs i).state ≡ (k.procs i).state
      go (none, k1) e run =
          let (number, same) = ok-pair run in rw (← same) (allocproc-none k k1 i e)
      go (some np, k1) e run =
          let ((pgdir, pages, env), copy, rest) =
            >>=-eq-ok (lower.copyuvm (k1.procs cur).pgdir (k1.procs cur).sz k1.free_pages k1.env) _
              run in
          copied np k1 pgdir pages env e rest
