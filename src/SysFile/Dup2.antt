-- ===== src/SysFile/Dup2.antt =====
-- Where `sys_dup2` of sysfile.c does not do what the comment above it says.
use xv6_system_calls.Prelude.{ℕ, ◌≡◌, refl, Option, some, arith, String, Outcome, ok, panic}
use xv6_system_calls.Kernel.{Kernel, Lower}
use xv6_system_calls.File.{filedup, fileclose}
use xv6_system_calls.File.Changes.{fileclose-ref}
use xv6_system_calls.Syscall.{Memory}
use xv6_system_calls.SysFile.{argfd, sys_dup2, finish_dup2, close_new}

module _ {E : Type 0} (lower : Lower E) (stray : ℕ → ℕ → Option ℕ → Kernel E → Kernel E) where
  -- `dup2(fd, fd)`, on the only descriptor of its file, panics: the file is closed first, and then
  -- has no reference.
  pub sys_dup2_self :
      (m : Memory) (stale cur fd f : ℕ) (k : Kernel E)
      → argfd m cur 0 k ≡ some (fd, f)
      → argfd m cur 1 k ≡ some (fd, f)
      → (k.files f).ref ≡ 1
      → (s : String) × (sys_dup2 lower stray m stale cur k ≡ panic s)
  unfolding sys_dup2 close_new finish_dup2 filedup
  sys_dup2_self m stale cur fd f k old new one = rw (old, new) (go (fileclose lower f k) refl)
    where
      go :
          (r : Outcome (Kernel E))
          → fileclose lower f k ≡ r
          → (s : String) × (close_new lower stray cur fd f stale (some (fd, f)) k ≡ panic s)
      go (panic s) e = (s, rw e refl)
      go (ok k1) e =
          let (held, count) = fileclose-ref lower f f k k1 e in
          let gone : (k1.files f).ref ≡ 0 = ground arith in ("filedup", rw (e, gone) refl)
