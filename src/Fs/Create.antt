-- ===== src/Fs/Create.antt =====
-- `create` of sysfile.c, and the calls that make directories and devices or change to one.
use xv6_system_calls.Prelude.{
  ℕ, ◌%◌, ◌^◌, Bool, true, false, not, ◌&&◌, Option, none, some, List, ◌==◌, if◌then◌else◌, Outcome,
  ok, panic, ◌>>=◌,
}
use xv6_system_calls.Fs.{Fs, t_dir, t_file, t_dev}
use xv6_system_calls.Fs.Inode.{ialloc, ilock, iunlock, iput, iunlockput}
use xv6_system_calls.Fs.Directory.{dirlookup, dirlink}
use xv6_system_calls.Fs.Path.{namei, nameiparent}
use xv6_system_calls.Fs.Calls.{begin_fs_op, end_fs_op, add_link, change_inode, dot, dot_dot}

-- The name is there: only a file can be opened again.
unfoldable pub create_again : ℕ → ℕ → Fs → Outcome (Option ℕ × Fs)
create_again kind ip fs = do
  fs ← ilock ip fs
  if (kind == t_file) && ((fs.inode ip).copy.kind == t_file)
      then ok (some ip, fs)
      else do fs ← iunlockput ip fs; ok (none, fs)

-- `if(dirlink(i, name, inum) < 0) panic(message);`, where several links share a test.
unfoldable pub link_dots : ℕ → ℕ → Fs → Outcome Fs
link_dots dp ip fs = do
  (one, fs) ← dirlink ip dot (fs.inode ip).inum (change_inode dp add_link fs)
  (two, fs) ← (if one then dirlink ip dot_dot (fs.inode dp).inum fs else ok (false, fs))
  if two then ok fs else panic "create dots"

-- `create` from `ialloc` on.
unfoldable pub create_new : ℕ → (ℕ → ℕ) → ℕ → ℕ → ℕ → Fs → Outcome (Option ℕ × Fs)
unfolding link_dots
create_new dp name kind major minor fs = do
  (ip, fs) ← ialloc (fs.inode dp).dev kind fs
  fs ← ilock ip fs
  let fs = change_inode ip (λ d. record d { major = major; minor = minor; nlink = 1 }) fs
  fs ← (if kind == t_dir then link_dots dp ip fs else ok fs)
  (linked, fs) ← dirlink dp name (fs.inode ip).inum fs
  if linked then (do fs ← iunlockput dp fs; ok (some ip, fs)) else panic "create: dirlink"

unfoldable pub create_entry :
    ℕ → (ℕ → ℕ) → ℕ → ℕ → ℕ → Option (ℕ × ℕ) × Fs → Outcome (Option ℕ × Fs)
unfolding create_new create_again
create_entry dp name kind major minor (none, fs) = create_new dp name kind major minor fs
create_entry dp name kind major minor (some (off, ip), fs) = do
  fs ← iunlockput dp fs
  create_again kind ip fs

unfoldable pub create_in : ℕ → ℕ → ℕ → Option ℕ × (ℕ → ℕ) × Fs → Outcome (Option ℕ × Fs)
unfolding create_entry
create_in kind major minor (none, name, fs) = ok (none, fs)
create_in kind major minor (some dp, name, fs) = do
  fs ← ilock dp fs
  r ← dirlookup dp name fs
  create_entry dp name kind major minor r

-- `create`: the new inode, locked.
unfoldable pub create : ℕ → List ℕ → ℕ → ℕ → ℕ → (ℕ → ℕ) → Fs → Outcome (Option ℕ × Fs)
unfolding create_in
create cwd path kind major minor stale fs = do
  r ← nameiparent cwd path stale fs
  create_in kind major minor r

unfoldable pub put_created : Option ℕ × Fs → Outcome (Bool × Fs)
put_created (none, fs) = ok (false, end_fs_op fs)
put_created (some ip, fs) = do fs ← iunlockput ip fs; ok (true, end_fs_op fs)

-- `sys_mkdir`, with the path that `argstr` gave, or `none` for its -1.
unfoldable pub sys_mkdir : ℕ → Option (List ℕ) → (ℕ → ℕ) → Fs → Outcome (Bool × Fs)
unfolding put_created
sys_mkdir cwd none stale fs = ok (false, end_fs_op (begin_fs_op fs))
sys_mkdir cwd (some path) stale fs = do
  r ← create cwd path t_dir 0 0 stale (begin_fs_op fs)
  put_created r

-- `sys_mknod`, with its three arguments; a `short` gets the low half of an `int`.
unfoldable pub sys_mknod :
    ℕ → Option (List ℕ) → Option ℕ → Option ℕ → (ℕ → ℕ) → Fs → Outcome (Bool × Fs)
unfolding put_created
sys_mknod cwd none major minor stale fs = ok (false, end_fs_op (begin_fs_op fs))
sys_mknod cwd (some path) none minor stale fs = ok (false, end_fs_op (begin_fs_op fs))
sys_mknod cwd (some path) (some major) none stale fs = ok (false, end_fs_op (begin_fs_op fs))
sys_mknod cwd (some path) (some major) (some minor) stale fs = do
  r ← create cwd path t_dev (major % 2 ^ 16) (minor % 2 ^ 16) stale (begin_fs_op fs)
  put_created r

unfoldable pub change_to : ℕ → Option ℕ × Fs → Outcome (Option ℕ × Fs)
change_to cwd (none, fs) = ok (none, end_fs_op fs)
change_to cwd (some ip, fs) = do
  fs ← ilock ip fs
  if not ((fs.inode ip).copy.kind == t_dir)
      then (do fs ← iunlockput ip fs; ok (none, end_fs_op fs))
      else do fs ← iunlock ip fs; fs ← iput cwd fs; ok (some ip, end_fs_op fs)

-- `sys_chdir`: the new `cwd` of the process, or `none` where the call fails and keeps the old one.
unfoldable pub sys_chdir : ℕ → Option (List ℕ) → (ℕ → ℕ) → Fs → Outcome (Option ℕ × Fs)
unfolding change_to
sys_chdir cwd none stale fs = ok (none, end_fs_op (begin_fs_op fs))
sys_chdir cwd (some path) stale fs = do r ← namei cwd path stale (begin_fs_op fs); change_to cwd r
