-- ===== src/Fs/Discipline.antt =====
-- The calls that make or enter a directory give back every lock and end their operation too; and
-- what a caller sees of all these calls.
use xv6_system_calls.Prelude.{
  ℕ, ◌+◌, ◌≡◌, refl, Bool, true, false, Option, none, some, List, update, Outcome, ok, panic,
}
use xv6_system_calls.Fs.{Fs, t_dir, t_dev}
use xv6_system_calls.Fs.Calls.{begin_fs_op, end_fs_op, sys_link, sys_unlink}
use xv6_system_calls.Fs.Create.{put_created, sys_mkdir, sys_mknod, change_to, sys_chdir}
use xv6_system_calls.Fs.After.{After, After-bind, After-if, After-ok, Holding, Holding-back}
use xv6_system_calls.Fs.AfterInode.{
  iput-Holding, ilock-Holding, iunlock-Holding, iunlockput-Holding,
}
use xv6_system_calls.Fs.AfterPath.{namei-Holding}
use xv6_system_calls.Fs.Released.{
  begin_fs_op-Holding, end_fs_op-Holding, sys_link-Holding, sys_unlink-Holding,
}
use xv6_system_calls.Fs.AfterCreate.{HoldingNew, create-Holding}

module _ (n : ℕ) (held : ℕ → Bool) where
  put_created-Holding :
      (r : Option ℕ × Fs)
      → HoldingNew (n + 1) held r
      → After (λ r'. Holding n held r'.1) (put_created r)
  unfolding put_created
  put_created-Holding (none, fs) h =
      After.returns (false, end_fs_op fs) (end_fs_op-Holding n held fs h)
  put_created-Holding (some ip, fs) (free, h) =
      After-bind (iunlockput-Holding (n + 1) held ip fs free h)
        (λ fs1 h1. After.returns (true, end_fs_op fs1) (end_fs_op-Holding n held fs1 h1))

  -- A call whose arguments fail within the operation.
  no_call :
      (fs : Fs)
      → Holding n held fs
      → After (λ (r : Bool × Fs). Holding n held r.1) (ok (false, end_fs_op (begin_fs_op fs)))
  no_call fs h =
      After.returns (false, end_fs_op (begin_fs_op fs))
        (end_fs_op-Holding n held (begin_fs_op fs) (begin_fs_op-Holding n held fs h))

  sys_mkdir-Holding :
      (cwd : ℕ) (path : Option (List ℕ)) (stale : ℕ → ℕ) (fs : Fs)
      → Holding n held fs
      → After (λ r. Holding n held r.1) (sys_mkdir cwd path stale fs)
  unfolding sys_mkdir
  sys_mkdir-Holding cwd none stale fs h = no_call fs h
  sys_mkdir-Holding cwd (some path) stale fs h =
      After-bind
        (create-Holding (n + 1) held cwd path t_dir 0 0 stale (begin_fs_op fs)
          (begin_fs_op-Holding n held fs h))
        put_created-Holding

  sys_mknod-Holding :
      (cwd : ℕ) (path : Option (List ℕ)) (major minor : Option ℕ) (stale : ℕ → ℕ) (fs : Fs)
      → Holding n held fs
      → After (λ r. Holding n held r.1) (sys_mknod cwd path major minor stale fs)
  unfolding sys_mknod
  sys_mknod-Holding cwd none major minor stale fs h = no_call fs h
  sys_mknod-Holding cwd (some path) none minor stale fs h = no_call fs h
  sys_mknod-Holding cwd (some path) (some major) none stale fs h = no_call fs h
  sys_mknod-Holding cwd (some path) (some major) (some minor) stale fs h =
      After-bind
        (create-Holding (n + 1) held cwd path t_dev _ _ stale (begin_fs_op fs)
          (begin_fs_op-Holding n held fs h))
        put_created-Holding

  change_to-Holding :
      (cwd : ℕ) (r : Option ℕ × Fs)
      → Holding (n + 1) held r.1
      → After (λ r'. Holding n held r'.1) (change_to cwd r)
  unfolding change_to
  change_to-Holding cwd (none, fs) h =
      After.returns (none, end_fs_op fs) (end_fs_op-Holding n held fs h)
  change_to-Holding cwd (some ip, fs) h =
      After-bind (ilock-Holding (n + 1) held ip fs h) (λ fs1 (free, h1).
        After-if _
          (After-bind (iunlockput-Holding (n + 1) held ip fs1 free h1)
            (λ fs2 h2. After.returns (none, end_fs_op fs2) (end_fs_op-Holding n held fs2 h2)))
          (After-bind (iunlock-Holding (n + 1) (update held ip true) ip fs1 h1) (λ fs2 h2.
            After-bind
              (iput-Holding (n + 1) held cwd fs2 (Holding-back (n + 1) held ip fs2 free h2))
              (λ fs3 h3.
                After.returns (some ip, end_fs_op fs3) (end_fs_op-Holding n held fs3 h3)))))

  sys_chdir-Holding :
      (cwd : ℕ) (path : Option (List ℕ)) (stale : ℕ → ℕ) (fs : Fs)
      → Holding n held fs
      → After (λ r. Holding n held r.1) (sys_chdir cwd path stale fs)
  unfolding sys_chdir
  sys_chdir-Holding cwd none stale fs h =
      After.returns (none, end_fs_op (begin_fs_op fs))
        (end_fs_op-Holding n held (begin_fs_op fs) (begin_fs_op-Holding n held fs h))
  sys_chdir-Holding cwd (some path) stale fs h =
      After-bind
        (namei-Holding (n + 1) held cwd path stale (begin_fs_op fs)
          (begin_fs_op-Holding n held fs h))
        (λ r h1. change_to-Holding cwd r h1)

-- The calls of sysfile.c on paths, with their arguments.
pub data PathCall : Type 0 where
  link : Option (List ℕ) → Option (List ℕ) → PathCall
  unlink mkdir chdir : Option (List ℕ) → PathCall
  mknod : Option (List ℕ) → Option ℕ → Option ℕ → PathCall

-- The file system after a call that returns.
abbrev pub after : {A : Type 0} → Outcome (A × Fs) → Outcome Fs
after (ok (r, fs)) = ok fs
after (panic s) = panic s

abbrev pub path_call : ℕ → (ℕ → ℕ) → PathCall → Fs → Outcome Fs
path_call cwd stale (PathCall.link old new) fs = after (sys_link cwd old new stale fs)
path_call cwd stale (PathCall.unlink path) fs = after (sys_unlink cwd path stale fs)
path_call cwd stale (PathCall.mkdir path) fs = after (sys_mkdir cwd path stale fs)
path_call cwd stale (PathCall.chdir path) fs = after (sys_chdir cwd path stale fs)
path_call cwd stale (PathCall.mknod path major minor) fs =
    after (sys_mknod cwd path major minor stale fs)

after-Holding :
    {A : Type 0} {n : ℕ} {held : ℕ → Bool} {run : Outcome (A × Fs)}
    → After (λ r. Holding n held r.1) run
    → After (Holding n held) (after run)
after-Holding (After.returns (r, fs) h) = After.returns fs h
after-Holding (After.panics s) = After.panics s

path_call-After :
    (cwd : ℕ) (stale : ℕ → ℕ) (call : PathCall) (n : ℕ) (held : ℕ → Bool) (fs : Fs)
    → Holding n held fs
    → After (Holding n held) (path_call cwd stale call fs)
path_call-After cwd stale (PathCall.link old new) n held fs h =
    after-Holding (sys_link-Holding n held cwd old new stale fs h)
path_call-After cwd stale (PathCall.unlink path) n held fs h =
    after-Holding (sys_unlink-Holding n held cwd path stale fs h)
path_call-After cwd stale (PathCall.mkdir path) n held fs h =
    after-Holding (sys_mkdir-Holding n held cwd path stale fs h)
path_call-After cwd stale (PathCall.chdir path) n held fs h =
    after-Holding (sys_chdir-Holding n held cwd path stale fs h)
path_call-After cwd stale (PathCall.mknod path major minor) n held fs h =
    after-Holding (sys_mknod-Holding n held cwd path major minor stale fs h)

-- Where a call of `sys_link`, `sys_unlink`, `sys_mkdir`, `sys_mknod` or `sys_chdir` returns,
-- whether it succeeds or fails, it has ended the operation that it began, and each inode is locked
-- just if it was locked before.
pub path_call-Holding :
    (cwd : ℕ) (stale : ℕ → ℕ) (call : PathCall) (fs fs' : Fs)
    → path_call cwd stale call fs ≡ ok fs'
    → Holding fs.ops (λ x. (fs.inode x).locked) fs'
path_call-Holding cwd stale call fs fs' run =
    After-ok (path_call-After cwd stale call fs.ops (λ x. (fs.inode x).locked) fs (refl, λ x. refl))
      run
