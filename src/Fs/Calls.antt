-- ===== src/Fs/Calls.antt =====
-- `sys_link` and `sys_unlink` of sysfile.c, after their arguments are read. `cwd` is the directory
-- of the process, and `stale` what an array on the stack held before.
use xv6_system_calls.Prelude.{
  ℕ, ◌+◌, ◌-◌, ◌%◌, ◌^◌, Bool, true, false, not, ◌||◌, Option, none, some, List, [], ◌∷◌, ◌==◌, leb,
  if◌then◌else◌, Outcome, ok, panic, ◌>>=◌,
}
use xv6_system_calls.Fs.{Fs, Dinode, t_dir}
use xv6_system_calls.Fs.Inode.{set_copy, iupdate, ilock, iunlock, iput, iunlockput}
use xv6_system_calls.Fs.Content.{nth, bytes_from}
use xv6_system_calls.Fs.Directory.{
  same_name, dirlookup, dirlink, isdirempty, write_entry, dirent_size,
}
use xv6_system_calls.Fs.Path.{namei, nameiparent}

abbrev pub begin_fs_op : Fs → Fs
begin_fs_op fs = record fs { ops = fs.ops + 1 }

abbrev pub end_fs_op : Fs → Fs
end_fs_op fs = record fs { ops = fs.ops - 1 }

-- `ip->nlink++` and `ip->nlink--`, on a `short`
abbrev pub add_link : Dinode → Dinode
add_link d = record d { nlink = (d.nlink + 1) % 2 ^ 16 }

abbrev pub drop_link : Dinode → Dinode
drop_link d = record d { nlink = (d.nlink + 2 ^ 16 - 1) % 2 ^ 16 }

-- The change, and `iupdate(ip)`.
abbrev pub change_inode : ℕ → (Dinode → Dinode) → Fs → Fs
change_inode i change fs = iupdate i (set_copy i (change (fs.inode i).copy) fs)

-- A call that fails, within an operation; and one that still holds the inode `i`.
abbrev pub failed : Fs → Outcome (Bool × Fs)
failed fs = ok (false, end_fs_op fs)

unfoldable pub put_failed : ℕ → Fs → Outcome (Bool × Fs)
put_failed i fs = do fs ← iunlockput i fs; failed fs

-- `bad:` of `sys_link`
unfoldable pub link_bad : ℕ → Fs → Outcome (Bool × Fs)
unfolding put_failed
link_bad ip fs = do fs ← ilock ip fs; put_failed ip (change_inode ip drop_link fs)

unfoldable pub link_name : ℕ → ℕ → (ℕ → ℕ) → Fs → Outcome (Bool × Fs)
link_name ip dp name fs =
    if not ((fs.inode dp).dev == (fs.inode ip).dev)
    then ok (false, fs)
    else dirlink dp name (fs.inode ip).inum fs

-- `sys_link` from the test of `nameiparent` on.
unfoldable pub link_parent : ℕ → Option ℕ × (ℕ → ℕ) × Fs → Outcome (Bool × Fs)
unfolding link_bad link_name
link_parent ip (none, name, fs) = link_bad ip fs
link_parent ip (some dp, name, fs) = do
  fs ← ilock dp fs
  (linked, fs) ← link_name ip dp name fs
  fs ← iunlockput dp fs
  if linked then (do fs ← iput ip fs; ok (true, end_fs_op fs)) else link_bad ip fs

unfoldable pub link_inode : ℕ → List ℕ → (ℕ → ℕ) → Option ℕ × Fs → Outcome (Bool × Fs)
unfolding link_parent put_failed
link_inode cwd new stale (none, fs) = failed fs
link_inode cwd new stale (some ip, fs) = do
  fs ← ilock ip fs
  if (fs.inode ip).copy.kind == t_dir then put_failed ip fs else do
    fs ← iunlock ip (change_inode ip add_link fs)
    r ← nameiparent cwd new stale fs
    link_parent ip r

-- `sys_link`: `true` is its 0, and `false` its -1, here and below. A path is what `argstr` gave,
-- and `none` where it failed.
unfoldable pub sys_link : ℕ → Option (List ℕ) → Option (List ℕ) → (ℕ → ℕ) → Fs → Outcome (Bool × Fs)
unfolding link_inode
sys_link cwd none new stale fs = ok (false, fs)
sys_link cwd (some old) none stale fs = ok (false, fs)
sys_link cwd (some old) (some new) stale fs = do
  r ← namei cwd old stale (begin_fs_op fs)
  link_inode cwd new stale r

-- `namecmp(name, ".") == 0 || namecmp(name, "..") == 0`
abbrev pub dot : ℕ → ℕ
dot k = nth (46 ∷ []) k

abbrev pub dot_dot : ℕ → ℕ
dot_dot k = nth (46 ∷ 46 ∷ []) k

abbrev pub is_dots : (ℕ → ℕ) → Bool
is_dots name = same_name name dot || same_name name dot_dot

abbrev pub no_entry : List ℕ
no_entry = bytes_from (λ o. 0) 0 dirent_size

-- `sys_unlink` with both inodes locked, from the `memset` on.
unfoldable pub remove_entry : ℕ → ℕ → ℕ → Fs → Outcome (Bool × Fs)
remove_entry dp ip off fs = do
  fs ← write_entry "unlink: writei" dp off no_entry fs
  let fs = if (fs.inode ip).copy.kind == t_dir then change_inode dp drop_link fs else fs
  fs ← iunlockput dp fs
  fs ← iunlockput ip (change_inode ip drop_link fs)
  ok (true, end_fs_op fs)

-- `ip->nlink < 1`, on a `short`
abbrev pub has_no_link : Dinode → Bool
has_no_link d = (d.nlink == 0) || leb (2 ^ 15) d.nlink

-- `ip->type != T_DIR || isdirempty(ip)`
unfoldable pub may_unlink : ℕ → Fs → Outcome (Bool × Fs)
may_unlink ip fs = if (fs.inode ip).copy.kind == t_dir then isdirempty ip fs else ok (true, fs)

unfoldable pub unlink_found : ℕ → Option (ℕ × ℕ) × Fs → Outcome (Bool × Fs)
unfolding put_failed remove_entry may_unlink
unlink_found dp (none, fs) = put_failed dp fs
unlink_found dp (some (off, ip), fs) = do
  fs ← ilock ip fs
  if has_no_link (fs.inode ip).copy then panic "unlink: nlink < 1" else do
    (may, fs) ← may_unlink ip fs
    if may then remove_entry dp ip off fs else do fs ← iunlockput ip fs; put_failed dp fs

unfoldable pub unlink_parent : Option ℕ × (ℕ → ℕ) × Fs → Outcome (Bool × Fs)
unfolding unlink_found put_failed
unlink_parent (none, name, fs) = failed fs
unlink_parent (some dp, name, fs) = do
  fs ← ilock dp fs
  if is_dots name then put_failed dp fs else do r ← dirlookup dp name fs; unlink_found dp r

unfoldable pub sys_unlink : ℕ → Option (List ℕ) → (ℕ → ℕ) → Fs → Outcome (Bool × Fs)
unfolding unlink_parent
sys_unlink cwd none stale fs = ok (false, fs)
sys_unlink cwd (some path) stale fs = do
  r ← nameiparent cwd path stale (begin_fs_op fs)
  unlink_parent r
