-- ===== src/Fs/Open.antt =====
-- `sys_open` of sysfile.c: an inode, a file and a descriptor.
use xv6_system_calls.Prelude.{
  ℕ, ◌%◌, ◌/◌, Bool, not, ◌&&◌, ◌||◌, Option, none, some, List, ◌==◌, if◌then◌else◌, ℤ, pos,
  minus_one, Outcome, ok, panic, ◌>>=◌,
}
use xv6_system_calls.Kernel.{Kernel, Lower, FileType, set_file}
use xv6_system_calls.File.{filealloc, fileclose}
use xv6_system_calls.SysFile.{fdalloc}
use xv6_system_calls.Fs.{Fs, t_dir, t_file}
use xv6_system_calls.Fs.Inode.{idup, ilock, iunlock, iput, iunlockput}
use xv6_system_calls.Fs.Path.{namei}
use xv6_system_calls.Fs.Calls.{begin_fs_op, end_fs_op}
use xv6_system_calls.Fs.Create.{create}

-- `omode & O_CREATE`, `omode & O_WRONLY`, `omode & O_RDWR`
abbrev pub o_create : ℕ → Bool
o_create omode = omode / 0x200 % 2 == 1

abbrev pub o_wronly : ℕ → Bool
o_wronly omode = omode % 2 == 1

abbrev pub o_rdwr : ℕ → Bool
o_rdwr omode = omode / 2 % 2 == 1

unfoldable pub put_opened : ℕ → Fs → Outcome (Option ℕ × Fs)
put_opened ip fs = do fs ← iunlockput ip fs; ok (none, end_fs_op fs)

unfoldable pub open_created : Option ℕ × Fs → Outcome (Option ℕ × Fs)
open_created (none, fs) = ok (none, end_fs_op fs)
open_created (some ip, fs) = ok (some ip, fs)

unfoldable pub open_found : ℕ → Option ℕ × Fs → Outcome (Option ℕ × Fs)
unfolding put_opened
open_found omode (none, fs) = ok (none, end_fs_op fs)
open_found omode (some ip, fs) = do
  fs ← ilock ip fs
  if ((fs.inode ip).copy.kind == t_dir) && not (omode == 0)
      then put_opened ip fs
      else ok (some ip, fs)

-- `sys_open` up to `filealloc`: the locked inode, within the operation; or the end of it.
unfoldable pub open_inode : ℕ → List ℕ → ℕ → (ℕ → ℕ) → Fs → Outcome (Option ℕ × Fs)
unfolding open_created open_found
open_inode cwd path omode stale fs =
    let fs = begin_fs_op fs in
    if o_create omode
    then create cwd path t_file 0 0 stale fs >>= open_created
    else namei cwd path stale fs >>= open_found omode

put_null : Option ℕ → Fs → Outcome Fs
put_null none fs = panic "null inode"
put_null (some i) fs = iput i fs

dup_null : Option ℕ → Fs → Outcome Fs
dup_null none fs = panic "null inode"
dup_null (some i) fs = ok (idup i fs)

module _ {D : Type 0} where
  -- The calls of fs.c that file.c and proc.c make, in place of those of `vm`.
  unfoldable pub fs_services : Lower (Fs × D) → Lower (Fs × D)
  unfolding put_null dup_null
  fs_services vm = record vm {
    idup = λ ip env. do
      fs ← dup_null ip env.0
      ok (fs, env.1);
    iput = λ ip env. do
      fs ← put_null ip (begin_fs_op env.0)
      ok (end_fs_op fs, env.1);
  }

module _ {D : Type 0} (vm : Lower (Fs × D)) where
  no_handle : ℕ → Kernel (Fs × D) → Outcome (ℤ × Kernel (Fs × D))
  unfolding put_opened
  no_handle ip k = do
    (r, fs) ← put_opened ip k.env.0
    ok (minus_one, record k { env = (fs, k.env.1) })

  -- The end of `sys_open`, with the descriptor.
  give_handle : ℕ → ℕ → ℕ → Option ℕ × Kernel (Fs × D) → Outcome (ℤ × Kernel (Fs × D))
  unfolding no_handle
  give_handle ip omode f (none, k) = do k ← fileclose (fs_services vm) f k; no_handle ip k
  give_handle ip omode f (some fd, k) = do
    fs ← iunlock ip k.env.0
    ok (
      pos fd,
      set_file (record k { env = (end_fs_op fs, k.env.1) }) f
          (record (k.files f) {
            kind = FileType.fd_inode;
            ip = some ip;
            off = 0;
            readable = not (o_wronly omode);
            writable = o_wronly omode || o_rdwr omode;
          }),
    )

  give_file : ℕ → ℕ → ℕ → Option ℕ × Kernel (Fs × D) → Outcome (ℤ × Kernel (Fs × D))
  unfolding no_handle give_handle
  give_file cur ip omode (none, k) = no_handle ip k
  give_file cur ip omode (some f, k) = give_handle ip omode f (fdalloc cur f k)

  open_handle : ℕ → ℕ → Option ℕ × Fs → Kernel (Fs × D) → Outcome (ℤ × Kernel (Fs × D))
  unfolding give_file
  open_handle cur omode (none, fs) k = ok (minus_one, record k { env = (fs, k.env.1) })
  open_handle cur omode (some ip, fs) k =
      give_file cur ip omode (filealloc (record k { env = (fs, k.env.1) }))

  -- `sys_open` with its two arguments.
  unfoldable pub sys_open :
      ℕ → ℕ → Option (List ℕ) → Option ℕ → (ℕ → ℕ) → Kernel (Fs × D) → Outcome (ℤ × Kernel (Fs × D))
  unfolding open_handle
  sys_open cur cwd none omode stale k = ok (minus_one, k)
  sys_open cur cwd (some path) none stale k = ok (minus_one, k)
  sys_open cur cwd (some path) (some omode) stale k = do
    r ← open_inode cwd path omode stale k.env.0
    open_handle cur omode r k
