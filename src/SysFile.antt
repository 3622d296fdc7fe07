-- ===== src/SysFile.antt =====
-- The system calls of sysfile.c on descriptors. The words of the arguments come from syscall.c.
pub mod Refs
pub mod Dup2
pub mod Pipes
use xv6_system_calls.Prelude.{
  ℕ, zero, suc, ◌+◌, Bool, ◌||◌, Option, none, some, ◌==◌, ltb, leb, if◌then◌else◌, first, update,
  is_none, ℤ, pos, minus_one, int_of, Outcome, ok, panic, ◌>>=◌,
}
use xv6_system_calls.Kernel.{Kernel, Lower, Proc, nofile, set_proc}
use xv6_system_calls.File.{filealloc, filedup, fileclose}
use xv6_system_calls.Syscall.{Memory, argint}

module _ {E : Type 0} where
  abbrev pub ofile_of : Kernel E → ℕ → ℕ → Option ℕ
  ofile_of k cur fd = (k.procs cur).ofile fd

  abbrev pub set_ofile : Kernel E → ℕ → ℕ → Option ℕ → Kernel E
  set_ofile k cur fd f =
      set_proc k cur (record (k.procs cur) { ofile = update (k.procs cur).ofile fd f })

  -- `fd < 0 || fd >= NOFILE || (f = myproc()->ofile[fd]) == 0`, for the word of an `int`: a
  -- negative one is at least 2^31.
  unfoldable pub check_fd : Kernel E → ℕ → Option ℕ → Option (ℕ × ℕ)
  check_fd k cur none = none
  check_fd k cur (some fd) =
      if leb nofile fd
      then none
      else elim (ofile_of k cur fd) [ none ↦ none | some f ↦ some (fd, f) ]

  -- The descriptor and the file.
  unfoldable pub argfd : Memory → ℕ → ℕ → Kernel E → Option (ℕ × ℕ)
  unfolding check_fd
  argfd m cur n k = check_fd k cur (argint m (k.procs cur) n)

  unfoldable pub fdalloc : ℕ → ℕ → Kernel E → Option ℕ × Kernel E
  fdalloc cur f k = elim (first (λ fd. is_none (ofile_of k cur fd)) nofile) [
    | none ↦ (none, k)
    | some fd ↦ (some fd, set_ofile k cur fd (some f))
  ]

  unfoldable pub dup_to : ℕ → Option ℕ × Kernel E → Outcome (ℤ × Kernel E)
  dup_to f (none, k) = ok (minus_one, k)
  dup_to f (some fd, k) = do k ← filedup f k; ok (pos fd, k)

  unfoldable pub dup_arg : ℕ → Option (ℕ × ℕ) → Kernel E → Outcome (ℤ × Kernel E)
  unfolding dup_to
  dup_arg cur none k = ok (minus_one, k)
  dup_arg cur (some (fd, f)) k = dup_to f (fdalloc cur f k)

  unfoldable pub sys_dup : Memory → ℕ → Kernel E → Outcome (ℤ × Kernel E)
  unfolding dup_arg
  sys_dup m cur k = dup_arg cur (argfd m cur 0 k) k

module _ {E : Type 0} (lower : Lower E) where
  unfoldable pub close_arg : ℕ → Option (ℕ × ℕ) → Kernel E → Outcome (ℤ × Kernel E)
  close_arg cur none k = ok (minus_one, k)
  close_arg cur (some (fd, f)) k = do k ← fileclose lower f (set_ofile k cur fd none); ok (pos 0, k)

  unfoldable pub sys_close : Memory → ℕ → Kernel E → Outcome (ℤ × Kernel E)
  unfolding close_arg
  sys_close m cur k = close_arg cur (argfd m cur 0 k) k

-- `stray cur newfd d k` is what a store of `d` at a place `newfd` outside of `ofile` does.
module _ {E : Type 0} (lower : Lower E) (stray : ℕ → ℕ → Option ℕ → Kernel E → Kernel E) where
  -- The last three lines of `sys_dup2`, with the value of `newfd`.
  unfoldable pub finish_dup2 : ℕ → ℕ → ℕ → ℕ → Kernel E → Outcome (ℤ × Kernel E)
  finish_dup2 cur oldfd oldfile newfd k = do
    k ← filedup oldfile k
    let d = ofile_of k cur oldfd
    ok (int_of newfd, if ltb newfd nofile then set_ofile k cur newfd d else stray cur newfd d k)

  unfoldable pub close_new : ℕ → ℕ → ℕ → ℕ → Option (ℕ × ℕ) → Kernel E → Outcome (ℤ × Kernel E)
  unfolding finish_dup2
  close_new cur oldfd oldfile stale none k = finish_dup2 cur oldfd oldfile stale k
  close_new cur oldfd oldfile stale (some (newfd, newfile)) k = do
    k ← fileclose lower newfile k
    finish_dup2 cur oldfd oldfile newfd k

  unfoldable pub dup2_args :
      ℕ → ℕ → Option (ℕ × ℕ) → Option (ℕ × ℕ) → Kernel E → Outcome (ℤ × Kernel E)
  unfolding close_new
  dup2_args cur stale none new k = ok (minus_one, k)
  dup2_args cur stale (some (oldfd, oldfile)) new k = close_new cur oldfd oldfile stale new k

  -- `sys_dup2`. `stale` is what the stack held where `newfd` lies: `argfd` stores a descriptor
  -- only if it names an open file.
  unfoldable pub sys_dup2 : Memory → ℕ → ℕ → Kernel E → Outcome (ℤ × Kernel E)
  unfolding dup2_args
  sys_dup2 m stale cur k = dup2_args cur stale (argfd m cur 0 k) (argfd m cur 1 k) k
