-- ===== src/SysFile/Pipes.antt =====
-- `pipealloc` of pipe.c, and `sys_pipe` of sysfile.c.
use xv6_system_calls.Prelude.{
  ℕ, ◌<◌, ◌≡◌, ◌≢◌, refl, Bool, true, false, Option, none, some, Option-cases, inl, inr, ◌==◌,
  eq→==, ne→==, arith, if◌then◌else◌, first, first-some, ap, sym, List, [], ◌∷◌, ℤ, pos, minus_one,
  Outcome, ok, ◌>>=◌, >>=-eq-ok,
}
use xv6_system_calls.Kernel.{Kernel, Lower, OpenFile, FileType, nfile, set_file}
use xv6_system_calls.Kalloc.{kalloc}
use xv6_system_calls.Kalloc.FreeList.{kalloc-cons, kalloc-nil}
use xv6_system_calls.File.{filealloc, fileclose}
use xv6_system_calls.Pipe.{new_pipe, set_pipe}
use xv6_system_calls.Syscall.{Memory, argptr}
use xv6_system_calls.SysFile.{fdalloc, set_ofile}

-- The entry of one end of the pipe at `a`.
abbrev pub pipe_end : Bool → ℕ → OpenFile → OpenFile
pipe_end write a f = record f {
  kind = FileType.fd_pipe;
  readable = if write then false else true;
  writable = write;
  pipe = some a;
}

module _ {E : Type 0} where
  -- The two entries of a new pipe in the page `a`, whose bytes are those of the page.
  abbrev pub open_pipe : (ℕ → ℕ) → ℕ → ℕ → ℕ → Kernel E → Kernel E
  open_pipe junk f0 f1 a k =
      let k1 = set_pipe k a (new_pipe junk) in
      let k2 = set_file k1 f0 (pipe_end false a (k1.files f0)) in
      set_file k2 f1 (pipe_end true a (k2.files f1))

-- Two different entries that nobody referred to are, with one reference each, the read end and
-- the write end of the same pipe, which is new and empty.
pub record IsNewPipe {E : Type 0} (junk : ℕ → ℕ) (k k' : Kernel E) (f0 f1 : ℕ) : Type 0 where
  pub apart : f0 ≢ f1
  pub free0 : (k.files f0).ref ≡ 0
  pub free1 : (k.files f1).ref ≡ 0
  pub held0 : (k'.files f0).ref ≡ 1
  pub held1 : (k'.files f1).ref ≡ 1
  pub page : ℕ
  pub reads : k'.files f0 ≡ pipe_end false page (k'.files f0)
  pub writes : k'.files f1 ≡ pipe_end true page (k'.files f1)
  pub empty : k'.pipes page ≡ some (new_pipe junk)

kalloc-files : {E : Type 0} (k : Kernel E) → (kalloc k).1.files ≡ k.files
kalloc-files k = go k.free_pages refl
  where
    go : (l : List ℕ) → k.free_pages ≡ l → (kalloc k).1.files ≡ k.files
    go [] e = rw (kalloc-nil k e) refl
    go (v ∷ rest) e = rw (kalloc-cons v rest k e) refl

module _ {E : Type 0} (lower : Lower E) (junk : ℕ → ℕ) where
  unfoldable pub pipe_page : ℕ → ℕ → Option ℕ × Kernel E → Outcome (Option (ℕ × ℕ) × Kernel E)
  pipe_page f0 f1 (none, k) = do k ← fileclose lower f0 k; k ← fileclose lower f1 k; ok (none, k)
  pipe_page f0 f1 (some a, k) = ok (some (f0, f1), open_pipe junk f0 f1 a k)

  unfoldable pub second_file : ℕ → Option ℕ × Kernel E → Outcome (Option (ℕ × ℕ) × Kernel E)
  unfolding pipe_page
  second_file f0 (none, k) = do k ← fileclose lower f0 k; ok (none, k)
  second_file f0 (some f1, k) = pipe_page f0 f1 (kalloc k)

  unfoldable pub first_file : Option ℕ × Kernel E → Outcome (Option (ℕ × ℕ) × Kernel E)
  unfolding second_file
  first_file (none, k) = ok (none, k)
  first_file (some f0, k) = second_file f0 (filealloc k)

  -- `pipealloc`: the two files, or `none` for the return of -1.
  unfoldable pub pipealloc : Kernel E → Outcome (Option (ℕ × ℕ) × Kernel E)
  unfolding first_file
  pipealloc k = first_file (filealloc k)

  close_both : ℕ → ℕ → Kernel E → Outcome (ℤ × Option (ℕ × ℕ) × Kernel E)
  close_both rf wf k = do
    k ← fileclose lower rf k
    k ← fileclose lower wf k
    ok (minus_one, none, k)

  write_descriptor : ℕ → ℕ → ℕ → ℕ → Option ℕ × Kernel E → Outcome (ℤ × Option (ℕ × ℕ) × Kernel E)
  unfolding close_both
  write_descriptor cur rf wf fd0 (none, k) = close_both rf wf (set_ofile k cur fd0 none)
  write_descriptor cur rf wf fd0 (some fd1, k) = ok (pos 0, some (fd0, fd1), k)

  read_descriptor : ℕ → ℕ → ℕ → Option ℕ × Kernel E → Outcome (ℤ × Option (ℕ × ℕ) × Kernel E)
  unfolding write_descriptor
  read_descriptor cur rf wf (none, k) = close_both rf wf k
  read_descriptor cur rf wf (some fd0, k) = write_descriptor cur rf wf fd0 (fdalloc cur wf k)

  with_files : ℕ → Option (ℕ × ℕ) × Kernel E → Outcome (ℤ × Option (ℕ × ℕ) × Kernel E)
  unfolding read_descriptor
  with_files cur (none, k) = ok (minus_one, none, k)
  with_files cur (some (rf, wf), k) = read_descriptor cur rf wf (fdalloc cur rf k)

  pipe_arg : ℕ → Option ℕ → Kernel E → Outcome (ℤ × Option (ℕ × ℕ) × Kernel E)
  unfolding with_files
  pipe_arg cur none k = ok (minus_one, none, k)
  pipe_arg cur (some fd) k = pipealloc k >>= with_files cur

  -- `sys_pipe`, with the two descriptors that it stores at its pointer.
  unfoldable pub sys_pipe : Memory → ℕ → Kernel E → Outcome (ℤ × Option (ℕ × ℕ) × Kernel E)
  unfolding pipe_arg
  sys_pipe m cur k = pipe_arg cur (argptr m (k.procs cur) 0 8) k

  filealloc-some :
      (k k' : Kernel E) (f : ℕ)
      → filealloc k ≡ (some f, k')
      → (f < nfile) × ((k.files f).ref ≡ 0) × (k' ≡ set_file k f (record (k.files f) { ref = 1 }))
  unfolding filealloc
  filealloc-some k k' f h = elim (Option-cases (first (λ g. (k.files g).ref == 0) nfile)) [
    | inl full ↦ absurd (ground arith)
    | inr (g, found) ↦
        let (lt, free) = first-some (λ g'. (k.files g').ref == 0) nfile g found in ground arith
  ]

  pipe_page-IsNewPipe :
      (k k1 k2 k' : Kernel E) (g0 g1 f0 f1 : ℕ) (got : Option ℕ × Kernel E)
      → filealloc k ≡ (some g0, k1)
      → filealloc k1 ≡ (some g1, k2)
      → got.1.files ≡ k2.files
      → pipe_page g0 g1 got ≡ ok (some (f0, f1), k')
      → IsNewPipe junk k k' f0 f1
  unfolding pipe_page
  pipe_page-IsNewPipe k k1 k2 k' g0 g1 f0 f1 (none, k3) one two same run =
      let (k4, closed, rest) = >>=-eq-ok (fileclose lower g0 k3) _ run in
      let (k5, closed', rest') = >>=-eq-ok (fileclose lower g1 k4) _ rest in absurd (cc)
  pipe_page-IsNewPipe k k1 k2 k' g0 g1 f0 f1 (some a, k3) one two same run =
      let (lt0, free0, end0) = filealloc-some k k1 g0 one in
      let (lt1, free1, end1) = filealloc-some k1 k2 g1 two in
      let taken : (k1.files g0).ref ≡ 1 = ground arith in
      let apart : g0 ≢ g1 = λ e. absurd (ground (arith, ap (λ x. (k1.files x).ref) e)) in
      let it0 : f0 ≡ g0 = cc in
      let it1 : f1 ≡ g1 = cc in
      let end : k' ≡ open_pipe junk g0 g1 a k3 = cc in
      let files : ((x : ℕ) → k3.files x ≡ k2.files x) = λ x. ap (λ (t : ℕ → OpenFile). t x) same in
      let held0 : (k3.files g0).ref ≡ 1 = ground (arith, files g0) in
      let held1 : (k3.files g1).ref ≡ 1 = ground (arith, files g1) in
      let back : g1 ≢ g0 = λ e. apart (sym e) in
      rw (it0, it1, end)
        (record {
          apart = apart;
          free0 = free0;
          free1 = ground arith;
          held0 = ground arith;
          held1 = ground arith;
          page = a;
          reads = rw (ne→== g0 g1 apart, eq→== g0 g0 refl) refl;
          writes = rw (eq→== g1 g1 refl) refl;
          empty = rw (eq→== a a refl) refl;
        })

  -- Where `pipealloc` succeeds it has taken two different entries of the file table that nobody
  -- referred to, with one reference each: a read end and a write end of the same pipe, which is
  -- new and empty.
  pub pipealloc-IsNewPipe :
      (k k' : Kernel E) (f0 f1 : ℕ)
      → pipealloc k ≡ ok (some (f0, f1), k')
      → IsNewPipe junk k k' f0 f1
  unfolding pipealloc first_file second_file
  pipealloc-IsNewPipe k k' f0 f1 h = one (filealloc k) refl h
    where
      two :
          (g0 : ℕ) (k1 : Kernel E) (got : Option ℕ × Kernel E)
          → filealloc k ≡ (some g0, k1)
          → filealloc k1 ≡ got
          → second_file g0 got ≡ ok (some (f0, f1), k')
          → IsNewPipe junk k k' f0 f1
      two g0 k1 (none, k2) e e' run =
          let (k3, closed, rest) = >>=-eq-ok (fileclose lower g0 k2) _ run in absurd (cc)
      two g0 k1 (some g1, k2) e e' run =
          pipe_page-IsNewPipe k k1 k2 k' g0 g1 f0 f1 (kalloc k2) e e' (kalloc-files k2) run

      one :
          (got : Option ℕ × Kernel E)
          → filealloc k ≡ got
          → first_file got ≡ ok (some (f0, f1), k')
          → IsNewPipe junk k k' f0 f1
      one (none, k1) e run = absurd (cc)
      one (some g0, k1) e run = two g0 k1 (filealloc k1) e refl run
