-- ===== src/Process/Exit.antt =====
-- `exit` of proc.c: what becomes of the caller, its children and those who wait.
use xv6_system_calls.Prelude.{
  ℕ, zero, suc, ◌+◌, ◌<◌, ◌≤◌, ◌≡◌, ◌≢◌, refl, sym, ap, ◌∙◌, true, false, Option, none, some, arith,
  ◌==◌, if◌then◌else◌, points_to, ne→==, ok, ok-injective, >>=-eq-ok, ◌⊎◌, inl, inr, Bool-cases,
}
use native.Mathlib.Decide.{dec_lt}
use xv6_system_calls.Kernel.{
  Kernel, Lower, Proc, ProcState, Chan, nproc, nofile, is_sleeping, set_proc,
}
use xv6_system_calls.Wakeup.{wakeup}
use xv6_system_calls.File.{fileclose, put_inode}
use xv6_system_calls.File.Changes.{fileclose-Calm, put_inode-SameFiles}
use xv6_system_calls.Process.Reap.{
  parent_chan, pass_child, pass_children, become_zombie, close_file, close_files, exit,
}

-- A process may only be woken, or be handed to another parent.
record Woken (p q : Proc) : Type 0 where
  still : is_sleeping p.state ≡ false → q.state ≡ p.state
  stirred : is_sleeping p.state ≡ true → (q.state ≡ p.state) ⊎ (q.state ≡ ProcState.runnable)
  files : q.ofile ≡ p.ofile

Woken-trans : (p q r : Proc) → Woken p q → Woken q r → Woken p r
Woken-trans p q r a b = record {
  still = λ awake. ground (arith, a.still awake, b.still);
  stirred = λ asleep. ground (arith, a.stirred asleep, b.still, b.stirred);
  files = b.files ∙ a.files;
}

module _ {E : Type 0} (cur : ℕ) where
  pass_child-Woken : (i j : ℕ) (k : Kernel E) → Woken (k.procs j) ((pass_child cur i k).procs j)
  unfolding pass_child wakeup
  pass_child-Woken i j k = record {
    still = λ awake. ground arith;
    stirred = λ asleep. ground arith;
    files = ground arith;
  }

  pass_child-parent :
      (i j : ℕ) (k : Kernel E)
      → ((pass_child cur i k).procs j).parent ≡ (
          if j == i
          then (if points_to (k.procs i).parent cur then k.init_proc else (k.procs i).parent)
          else (k.procs j).parent)
  unfolding pass_child wakeup
  pass_child-parent i j k = ground arith

  pass_child-init : (i : ℕ) (k : Kernel E) → (pass_child cur i k).init_proc ≡ k.init_proc
  unfolding pass_child wakeup
  pass_child-init i k = ground arith

  pass_children-Woken :
      (n i j : ℕ) (k : Kernel E) → Woken (k.procs j) ((pass_children cur n i k).procs j)
  unfolding pass_children
  pass_children-Woken zero i j k = record {
    still = λ e. refl;
    stirred = λ e. inl refl;
    files = refl;
  }
  pass_children-Woken (suc n) i j k =
      Woken-trans _ _ _ (pass_child-Woken i j k)
        (pass_children-Woken n (i + 1) j (pass_child cur i k))

  pass_children-before :
      (n i j : ℕ) (k : Kernel E)
      → j < i
      → ((pass_children cur n i k).procs j).parent ≡ (k.procs j).parent
  unfolding pass_children
  pass_children-before zero i j k lt = refl
  pass_children-before (suc n) i j k lt =
      pass_children-before n (i + 1) j (pass_child cur i k) (omega arith)
      ∙ ground (arith, pass_child-parent i j k)

  -- The loop hands each child of `cur` to init, and nobody else.
  pass_children-parent :
      (n i j : ℕ) (k : Kernel E)
      → i ≤ j
      → j < i + n
      → ((pass_children cur n i k).procs j).parent
        ≡ (if points_to (k.procs j).parent cur then k.init_proc else (k.procs j).parent)
  unfolding pass_children
  pass_children-parent zero i j k lo hi = absurd (omega arith)
  pass_children-parent (suc n) i j k lo hi = elim (dec_lt i j) [
    | yes later ↦
        let same : ((pass_child cur i k).procs j).parent ≡ (k.procs j).parent =
          ground (arith, pass_child-parent i j k) in
        ground (
          arith,
          pass_child-init i k,
          pass_children-parent n (i + 1) j (pass_child cur i k) (omega arith) (omega arith),
        )
    | no now ↦
        let here : j ≡ i = omega arith in
        rw here (
          pass_children-before n (i + 1) i (pass_child cur i k) (omega arith)
          ∙ ground (arith, pass_child-parent i i k))
  ]

module _ {E : Type 0} (cur : ℕ) where
  become_zombie-parent :
      (j : ℕ) (k : Kernel E)
      → j < nproc
      → ((become_zombie cur k).procs j).parent
        ≡ (if points_to (k.procs j).parent cur then k.init_proc else (k.procs j).parent)
  unfolding become_zombie wakeup
  become_zombie-parent j k lt =
      let k1 = wakeup (parent_chan (k.procs cur).parent) k in
      let same : (k1.procs j).parent ≡ (k.procs j).parent = ground arith in
      let passed = pass_children-parent cur nproc 0 j k1 (omega arith) (omega arith) in ground arith

  become_zombie-woken :
      (p : ℕ) (k : Kernel E)
      → p ≢ cur
      → (k.procs cur).parent ≡ some p
      → (k.procs p).state ≡ ProcState.sleeping
      → (k.procs p).chan ≡ Chan.proc_chan p
      → ((become_zombie cur k).procs p).state ≡ ProcState.runnable
  unfolding become_zombie wakeup
  become_zombie-woken p k other parent asleep on =
      let k1 = wakeup (parent_chan (k.procs cur).parent) k in
      let up : (k1.procs p).state ≡ ProcState.runnable = ground arith in
      let still = (pass_children-Woken cur nproc 0 p k1).still in ground (arith, still)

  become_zombie_self :
      (k : Kernel E)
      → (((become_zombie cur k).procs cur).state ≡ ProcState.zombie)
        × (((become_zombie cur k).procs cur).ofile ≡ (k.procs cur).ofile)
  unfolding become_zombie wakeup
  become_zombie_self k =
      let k1 = wakeup (parent_chan (k.procs cur).parent) k in
      let files = (pass_children-Woken cur nproc 0 cur k1).files in
      (ground arith, ground (arith, files))

-- The loop over the descriptors changes nothing of a waiting process but the caller, nobody's
-- parent, and closes the descriptors that it covers.
record Closed {E : Type 0} (cur n fd : ℕ) (k k' : Kernel E) : Type 0 where
  closed : (d : ℕ) → fd ≤ d → d < fd + n → (k'.procs cur).ofile d ≡ none
  below : (d : ℕ) → d < fd → (k'.procs cur).ofile d ≡ (k.procs cur).ofile d
  parent : (i : ℕ) → (k'.procs i).parent ≡ (k.procs i).parent
  waiter : (i x : ℕ) → i ≢ cur → (k.procs i).chan ≡ Chan.proc_chan x → k'.procs i ≡ k.procs i
  init_proc : k'.init_proc ≡ k.init_proc

-- One round.
record ClosedOne {E : Type 0} (cur fd : ℕ) (k k' : Kernel E) : Type 0 where
  files : (d : ℕ) → (k'.procs cur).ofile d ≡ (if d == fd then none else (k.procs cur).ofile d)
  parent : (i : ℕ) → (k'.procs i).parent ≡ (k.procs i).parent
  waiter : (i x : ℕ) → i ≢ cur → (k.procs i).chan ≡ Chan.proc_chan x → k'.procs i ≡ k.procs i
  init_proc : k'.init_proc ≡ k.init_proc

module _ {E : Type 0} (lower : Lower E) (cur : ℕ) where
  close_file-ClosedOne :
      (fd : ℕ) (o : Option ℕ) (k k' : Kernel E)
      → (k.procs cur).ofile fd ≡ o
      → close_file lower cur fd o k ≡ ok k'
      → ClosedOne cur fd k k'
  unfolding close_file
  close_file-ClosedOne fd none k k' e h = record {
    files = λ d. ground arith;
    parent = λ i. ground arith;
    waiter = λ i x other on. ground arith;
    init_proc = ground arith;
  }
  close_file-ClosedOne fd (some f) k k' e h =
      let (k1, run, done) = >>=-eq-ok (fileclose lower f k) _ h in
      let calm = fileclose-Calm lower f k k1 run in
      record {
        files = λ d. ground (arith, ap (λ (u : ℕ → Option ℕ). u d) (calm.ofile cur));
        parent = λ i. ground (arith, calm.parent i, calm.parent cur);
        waiter = λ i x other on. ground (arith, calm.waiter i x on);
        init_proc = ground (arith, calm.init_proc);
      }

  close_files-Closed :
      (n fd : ℕ) (k k' : Kernel E) → close_files lower cur n fd k ≡ ok k' → Closed cur n fd k k'
  unfolding close_files
  close_files-Closed zero fd k k' h = record {
    closed = λ d lo hi. absurd (omega arith);
    below = λ d lt. ground arith;
    parent = λ i. ground arith;
    waiter = λ i x other on. ground arith;
    init_proc = ground arith;
  }
  close_files-Closed (suc n) fd k k' h =
      let (k1, one_run, rest) =
        >>=-eq-ok (close_file lower cur fd ((k.procs cur).ofile fd) k) _ h in
      let one = close_file-ClosedOne fd ((k.procs cur).ofile fd) k k1 refl one_run in
      let all = close_files-Closed n (fd + 1) k1 k' rest in
      record {
        closed = λ d lo hi. elim (dec_lt fd d) [
          | yes later ↦ all.closed d (omega arith) (omega arith)
          | no now ↦
              let here : d ≡ fd = omega arith in
              rw here (all.below fd (omega arith) ∙ ground (arith, one.files fd))
        ];
        below = λ d lt. all.below d (omega arith) ∙ ground (arith, one.files d);
        parent = λ i. all.parent i ∙ one.parent i;
        waiter = λ i x other on.
            let same = one.waiter i x other on in
            all.waiter i x other (ap (λ (p : Proc). p.chan) same ∙ on) ∙ same;
        init_proc = all.init_proc ∙ one.init_proc;
      }

module _ {E : Type 0} (lower : Lower E) (cur : ℕ) (k k' : Kernel E)
    (run : exit lower cur k ≡ ok k') where
  -- The state before the part of `exit` that runs under `ptable.lock`.
  record Emptied (k2 : Kernel E) : Type 0 where
    closed : (d : ℕ) → d < nofile → (k2.procs cur).ofile d ≡ none
    parent : (i : ℕ) → (k2.procs i).parent ≡ (k.procs i).parent
    waiter : (i x : ℕ) → i ≢ cur → (k.procs i).chan ≡ Chan.proc_chan x → k2.procs i ≡ k.procs i
    init_proc : k2.init_proc ≡ k.init_proc
    end : k' ≡ become_zombie cur k2

  exit-Emptied : (k2 : Kernel E) × Emptied k2
  unfolding exit
  exit-Emptied = elim (Bool-cases (points_to k.init_proc cur)) [
    | inl init ↦ absurd (ground arith)
    | inr other ↦
        let run' = rw other at run in
        let (k1, closing, rest) = >>=-eq-ok (close_files lower cur nofile 0 k) _ run' in
        let (k2, putting, done) = >>=-eq-ok (put_inode lower (k1.procs cur).cwd k1) _ rest in
        let all = close_files-Closed lower cur nofile 0 k k1 closing in
        let calm = (put_inode-SameFiles lower (k1.procs cur).cwd k1 k2 putting).calm in
        let k3 : Kernel E = set_proc k2 cur (record (k2.procs cur) { cwd = none }) in
        (
          k3,
          record {
            closed = λ d lt. ground (
              arith,
              ap (λ (u : ℕ → Option ℕ). u d) (calm.ofile cur),
              all.closed d (omega arith) (omega arith),
            );
            parent =
                λ i. ground (arith, calm.parent i, calm.parent cur, all.parent i, all.parent cur);
            waiter = λ i x apart on.
                let first = all.waiter i x apart on in
                let second = calm.waiter i x (ap (λ (p : Proc). p.chan) first ∙ on) in
                rw (ne→== i cur apart) (second ∙ first);
            init_proc = calm.init_proc ∙ all.init_proc;
            end = sym (ok-injective done);
          },
        )
  ]

  -- Once `exit` has got to the scheduler, the process is a zombie, each of its descriptors is
  -- closed, init is the parent of the children that it had, and the parent of every other entry of
  -- the table is the one that it was.
  pub exit-orphans :
      (j d : ℕ)
      → j < nproc
      → d < nofile
      → ((k'.procs cur).state ≡ ProcState.zombie)
        × ((k'.procs cur).ofile d ≡ none)
        × ((k'.procs j).parent
            ≡ (if points_to (k.procs j).parent cur then k.init_proc else (k.procs j).parent))
  exit-orphans j d lt fd =
      let (k2, is) = exit-Emptied in
      let (state, files) = become_zombie_self cur k2 in
      let parent = become_zombie-parent cur j k2 lt in
      rw is.end (
        state,
        ap (λ (u : ℕ → Option ℕ). u d) files ∙ is.closed d fd,
        ground (arith, is.parent j, is.init_proc),
      )

  -- Once `exit` has got to the scheduler, the parent of the process is runnable, if it slept on
  -- its own entry, as it does in `wait`, and is another process.
  pub exit-wakes_parent :
      (p : ℕ)
      → p ≢ cur
      → (k.procs cur).parent ≡ some p
      → (k.procs p).state ≡ ProcState.sleeping
      → (k.procs p).chan ≡ Chan.proc_chan p
      → (k'.procs p).state ≡ ProcState.runnable
  exit-wakes_parent p other parent asleep on =
      let (k2, is) = exit-Emptied in
      let same = is.waiter p p other on in
      rw is.end (
        become_zombie-woken cur p k2 other (is.parent cur ∙ parent)
          (ap (λ (q : Proc). q.state) same ∙ asleep) (ap (λ (q : Proc). q.chan) same ∙ on))
