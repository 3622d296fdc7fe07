-- ===== src/SysFile/Refs.antt =====
-- The system calls on descriptors keep the reference counts of the file table right.
use xv6_system_calls.Prelude.{
  ℕ, ◌+◌, ◌<◌, ◌≡◌, refl, ap, ◌∙◌, Bool, true, false, Option, none, some, arith, ◌==◌,
  if◌then◌else◌, first, first-some, update, points_to, is_none, Option-cases, ℤ, pos, ok, >>=-eq-ok,
  inl, inr, int_of, ltb, lt→ltb,
}
use xv6_system_calls.Kernel.{Kernel, OpenFile, Lower, Proc, nproc, nofile}
use xv6_system_calls.File.{filedup, fileclose}
use xv6_system_calls.File.Changes.{fileclose-ref, fileclose-ofile, filedup-ref}
use xv6_system_calls.File.Refs.{RefsMatch, refs_to, refs_to-same, refs_to-update, ofiles, one_if}
use xv6_system_calls.Syscall.{Memory, argint}
use xv6_system_calls.SysFile.{
  ofile_of, set_ofile, argfd, check_fd, fdalloc, sys_dup, sys_close, sys_dup2, dup_to, dup_arg,
  close_arg, finish_dup2, close_new,
}

-- The descriptor `fd` of the process is open on the file `f`.
pub record IsOpen {E : Type 0} (k : Kernel E) (cur fd f : ℕ) : Type 0 where
  pub in_table : fd < nofile
  pub names : ofile_of k cur fd ≡ some f

module _ {E : Type 0} where
  check_fd-IsOpen :
      (k : Kernel E) (cur fd f : ℕ) (r : Option ℕ)
      → check_fd k cur r ≡ some (fd, f)
      → IsOpen k cur fd f
  unfolding check_fd
  check_fd-IsOpen k cur fd f none h = absurd (ground arith)
  check_fd-IsOpen k cur fd f (some d) h = ground arith

  pub argfd-IsOpen :
      (m : Memory) (cur n fd f : ℕ) (k : Kernel E)
      → argfd m cur n k ≡ some (fd, f)
      → IsOpen k cur fd f
  unfolding argfd
  argfd-IsOpen m cur n fd f k h = check_fd-IsOpen k cur fd f (argint m (k.procs cur) n) h

  -- The count of references after a descriptor is set.
  refs_to-set_ofile :
      (k : Kernel E) (cur fd g : ℕ) (v : Option ℕ)
      → cur < nproc
      → fd < nofile
      → refs_to (ofiles (set_ofile k cur fd v)) g + one_if (points_to (ofile_of k cur fd) g)
        ≡ refs_to (ofiles k) g + one_if (points_to v g)
  refs_to-set_ofile k cur fd g v hi hfd =
      refs_to-update (ofiles k) (ofiles (set_ofile k cur fd v)) cur fd g v hi hfd
        (λ j. go j (j == cur) refl)
    where
      go :
          (j : ℕ) (b : Bool)
          → (j == cur) ≡ b
          → ofiles (set_ofile k cur fd v) j
            ≡ (if j == cur then update (ofiles k cur) fd v else ofiles k j)
      go j true e = ground arith
      go j false e = ground arith

  fdalloc-free :
      (k k' : Kernel E) (cur f fd : ℕ)
      → fdalloc cur f k ≡ (some fd, k')
      → (fd < nofile) × (ofile_of k cur fd ≡ none) × (k' ≡ set_ofile k cur fd (some f))
  unfolding fdalloc
  fdalloc-free k k' cur f fd h =
      elim (Option-cases (first (λ d. is_none (ofile_of k cur d)) nofile)) [
        | inl full ↦ absurd (ground arith)
        | inr (d, found) ↦
            let (lt, free) = first-some (λ d'. is_none (ofile_of k cur d')) nofile d found in
            ground arith
      ]

module _ {E : Type 0} (lower : Lower E) where
  close_arg-RefsMatch :
      (cur fd f : ℕ) (k k' : Kernel E)
      → cur < nproc
      → IsOpen k cur fd f
      → fileclose lower f (set_ofile k cur fd none) ≡ ok k'
      → RefsMatch k
      → RefsMatch k'
  close_arg-RefsMatch cur fd f k k' hi is h match g =
      let k1 = set_ofile k cur fd none in
      let (held, count) = fileclose-ref lower f g k1 k' h in
      let same = refs_to-same (ofiles k') (ofiles k1) g (λ i. fileclose-ofile lower f i k1 k' h) in
      let moved = refs_to-set_ofile k cur fd g none hi is.in_table in
      let moved' = rw is.names at moved in ground (arith, match g, match f)

  -- If each file's reference count is the number of descriptors that name it, then so it is after
  -- a `close`, by any process of the table, that returns.
  pub sys_close-RefsMatch :
      (m : Memory) (cur : ℕ) (r : ℤ) (k k' : Kernel E)
      → cur < nproc
      → RefsMatch k
      → sys_close lower m cur k ≡ ok (r, k')
      → RefsMatch k'
  unfolding sys_close
  sys_close-RefsMatch m cur r k k' hi match h = go (argfd m cur 0 k) refl h
    where
      go :
          (arg : Option (ℕ × ℕ))
          → argfd m cur 0 k ≡ arg
          → close_arg lower cur arg k ≡ ok (r, k')
          → RefsMatch k'
      go none e run = ground arith
      go (some (fd, f)) e run =
          let k1 = set_ofile k cur fd none in
          let (k2, closed, done) = >>=-eq-ok (fileclose lower f k1) (λ k2. ok (pos 0, k2)) run in
          let k2-RefsMatch =
            close_arg-RefsMatch cur fd f k k2 hi (argfd-IsOpen m cur 0 fd f k e) closed match in
          let same : k2 ≡ k' = ground arith in rw (← same) k2-RefsMatch

  dup2-RefsMatch :
      (stray : ℕ → ℕ → Option ℕ → Kernel E → Kernel E) (cur oldfd oldfile newfd newfile : ℕ) (r : ℤ)
      (k k' : Kernel E)
      → cur < nproc
      → RefsMatch k
      → IsOpen k cur oldfd oldfile
      → IsOpen k cur newfd newfile
      → close_new lower stray cur oldfd oldfile newfd (some (newfd, newfile)) k ≡ ok (r, k')
      → RefsMatch k'
  unfolding close_new finish_dup2
  dup2-RefsMatch stray cur oldfd oldfile newfd newfile r k k' hi match old new run g =
      let (k1, closed, rest) =
        >>=-eq-ok (fileclose lower newfile k) (finish_dup2 lower stray cur oldfd oldfile newfd)
          run in
      let (k2, duped, done) =
        >>=-eq-ok (filedup oldfile k1)
          (λ k2.
            let d = ofile_of k2 cur oldfd in
            ok (
              int_of newfd,
              if ltb newfd nofile then set_ofile k2 cur newfd d else stray cur newfd d k2,
            ))
          rest in
      let (held, less) = fileclose-ref lower newfile g k k1 closed in
      let (held', less') = fileclose-ref lower newfile oldfile k k1 closed in
      let (alive, more, same_procs, pids) = filedup-ref oldfile g k1 k2 duped in
      let same_ofile : ((i : ℕ) → ofiles k2 i ≡ ofiles k i) = λ i.
        ap (λ (ps : ℕ → Proc). (ps i).ofile) same_procs
        ∙ fileclose-ofile lower newfile i k k1 closed in
      let same = refs_to-same (ofiles k2) (ofiles k) g same_ofile in
      let reads : ofile_of k2 cur oldfd ≡ some oldfile =
        ap (λ (u : ℕ → Option ℕ). u oldfd) (same_ofile cur) ∙ old.names in
      let was : ofile_of k2 cur newfd ≡ some newfile =
        ap (λ (u : ℕ → Option ℕ). u newfd) (same_ofile cur) ∙ new.names in
      let moved =
        rw (reads, was) at
          (refs_to-set_ofile k2 cur newfd g (ofile_of k2 cur oldfd) hi new.in_table) in
      let end : k' ≡ set_ofile k2 cur newfd (ofile_of k2 cur oldfd) =
        ground (arith, lt→ltb newfd nofile new.in_table) in
      rw (end, reads) (ground (arith, match g, match newfile, match oldfile))

  -- If each file's reference count is the number of descriptors that name it, then so it is after
  -- a `dup2` between two open descriptors, of any process of the table, that returns.
  pub sys_dup2-RefsMatch :
      (stray : ℕ → ℕ → Option ℕ → Kernel E → Kernel E) (m : Memory)
      (stale cur oldfd oldfile newfd newfile : ℕ) (r : ℤ) (k k' : Kernel E)
      → cur < nproc
      → RefsMatch k
      → argfd m cur 0 k ≡ some (oldfd, oldfile)
      → argfd m cur 1 k ≡ some (newfd, newfile)
      → sys_dup2 lower stray m stale cur k ≡ ok (r, k')
      → RefsMatch k'
  unfolding sys_dup2 close_new
  sys_dup2-RefsMatch stray m stale cur oldfd oldfile newfd newfile r k k' hi match old new run =
      dup2-RefsMatch stray cur oldfd oldfile newfd newfile r k k' hi match
        (argfd-IsOpen m cur 0 oldfd oldfile k old) (argfd-IsOpen m cur 1 newfd newfile k new)
        (rw (old, new) at run)

module _ {E : Type 0} where
  fdalloc-none : (k k' : Kernel E) (cur f : ℕ) → fdalloc cur f k ≡ (none, k') → k' ≡ k
  unfolding fdalloc
  fdalloc-none k k' cur f h = elim (Option-cases (first (λ d. is_none (ofile_of k cur d)) nofile)) [
    | inl full ↦ ground arith
    | inr (d, found) ↦ absurd (ground arith)
  ]

  dup_to-RefsMatch :
      (cur f fd : ℕ) (k k1 k2 : Kernel E)
      → cur < nproc
      → RefsMatch k
      → fdalloc cur f k ≡ (some fd, k1)
      → filedup f k1 ≡ ok k2
      → RefsMatch k2
  dup_to-RefsMatch cur f fd k k1 k2 hi match given duped g =
      let (lt, free, end) = fdalloc-free k k1 cur f fd given in
      let (alive, more, same_procs, pids) = filedup-ref f g k1 k2 duped in
      let same =
        refs_to-same (ofiles k2) (ofiles k1) g
          (λ i. ap (λ (ps : ℕ → Proc). (ps i).ofile) same_procs) in
      let moved = rw (free, ← end) at (refs_to-set_ofile k cur fd g (some f) hi lt) in
      let files : k1.files ≡ k.files = ground arith in
      ground (arith, match g, match f, ap (λ (t : ℕ → OpenFile). (t g).ref) files)

  -- If each file's reference count is the number of descriptors that name it, then so it is after
  -- a `dup`, by any process of the table, that returns.
  pub sys_dup-RefsMatch :
      (m : Memory) (cur : ℕ) (r : ℤ) (k k' : Kernel E)
      → cur < nproc
      → RefsMatch k
      → sys_dup m cur k ≡ ok (r, k')
      → RefsMatch k'
  unfolding sys_dup
  sys_dup-RefsMatch m cur r k k' hi match h = go (argfd m cur 0 k) h
    where
      alloc :
          (f : ℕ) (got : Option ℕ × Kernel E)
          → fdalloc cur f k ≡ got
          → dup_to f got ≡ ok (r, k')
          → RefsMatch k'
      alloc f (none, k1) e run =
          let same : k1 ≡ k = fdalloc-none k k1 cur f e in
          let end : k' ≡ k = ground arith in rw end match
      alloc f (some fd, k1) e run =
          let (k2, duped, done) = >>=-eq-ok (filedup f k1) (λ k2. ok (pos fd, k2)) run in
          let same : k2 ≡ k' = ground arith in
          rw (← same) (dup_to-RefsMatch cur f fd k k1 k2 hi match e duped)

      go : (arg : Option (ℕ × ℕ)) → dup_arg cur arg k ≡ ok (r, k') → RefsMatch k'
      go none run = ground arith
      go (some (fd, f)) run = alloc f (fdalloc cur f k) refl run
