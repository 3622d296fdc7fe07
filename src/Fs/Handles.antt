-- ===== src/Fs/Handles.antt =====
-- Open files on inodes: `fileread`, `filewrite` and `filestat` of file.c, with `sys_read`,
-- `sys_write` and `sys_fstat` of sysfile.c. The kernel's `env` is the file system and
-- the state `D` of the devices.
use xv6_system_calls.Prelude.{
  ℕ, zero, suc, ◌+◌, ◌%◌, Bool, true, false, not, Option, none, some, List, ◌==◌, ltb,
  if◌then◌else◌, length, take, drop, u32_mod, ℤ, pos, minus_one, Progress, Outcome, ok, panic,
  ◌>>=◌,
}
use xv6_system_calls.Kernel.{Kernel, OpenFile, FileType, set_file}
use xv6_system_calls.Pipe.{pipewrite, piperead}
use xv6_system_calls.Syscall.{Memory, argint, argptr}
use xv6_system_calls.SysFile.{argfd}
use xv6_system_calls.Fs.{Fs}
use xv6_system_calls.Fs.Inode.{ilock, iunlock}
use xv6_system_calls.Fs.Content.{Devsw, readi, writei, Stat, stati, bytes_from, min}
use xv6_system_calls.Fs.Calls.{begin_fs_op, end_fs_op}

-- `((MAXOPBLOCKS-1-1-2) / 2) * 512`
abbrev pub chunk : ℕ
chunk = 1536

module _ {D : Type 0} (devsw : Devsw D) where
  abbrev pub Machine : Type 0
  Machine = Kernel (Fs × D)

  abbrev pub set_fs : Fs → Machine → Machine
  set_fs fs k = record k { env = (fs, k.env.1) }

  -- `f->off += r`
  abbrev pub advance : ℕ → ℕ → Machine → Machine
  advance f n k = set_file k f (record (k.files f) { off = ((k.files f).off + n) % u32_mod })

  stat_file : FileType → Option ℕ → Machine → Outcome (Option Stat × Machine)
  stat_file FileType.fd_none ip k = ok (none, k)
  stat_file FileType.fd_pipe ip k = ok (none, k)
  stat_file FileType.fd_inode none k = panic "ilock"
  stat_file FileType.fd_inode (some i) k = do
    fs ← ilock i k.env.0
    let st = stati i fs
    fs ← iunlock i fs
    ok (some st, set_fs fs k)

  -- `filestat`; `none` is its -1.
  unfoldable pub filestat : ℕ → Machine → Outcome (Option Stat × Machine)
  unfolding stat_file
  filestat f k = stat_file (k.files f).kind (k.files f).ip k

  -- `if((r = readi(...)) > 0) f->off += r;`
  abbrev pub advance_by : ℕ → Option (List ℕ) → Machine → Machine
  advance_by f none k = k
  advance_by f (some bytes) k = if ltb 0 (length bytes) then advance f (length bytes) k else k

  abbrev pub advance_to : ℕ → Option ℕ → Machine → Machine
  advance_to f none k = k
  advance_to f (some n) k = if ltb 0 n then advance f n k else k

  -- The result of `piperead`: the bytes, or the process sleeps with what it has still to read.
  abbrev pub ReadResult : Type 0
  ReadResult = Outcome (Machine × Progress (Option (List ℕ)) ℕ)

  abbrev pub read_from_inode : ℕ → ℕ → ℕ → Machine → ReadResult
  read_from_inode f i n k = do
    fs ← ilock i k.env.0
    (r, fs, d) ← readi devsw i (k.files f).off n fs k.env.1
    fs ← iunlock i fs
    ok (record (advance_by f r k) { env = (fs, d) }, Progress.returned r)

  read_object : ℕ → ℕ → OpenFile → FileType → ℕ → Machine → ReadResult
  read_object cur f file FileType.fd_none n k = panic "fileread"
  read_object cur f file FileType.fd_pipe n k = elim file.pipe [
    | none ↦ panic "null pipe"
    | some a ↦ piperead cur a n k
  ]
  read_object cur f file FileType.fd_inode n k = elim file.ip [
    | none ↦ panic "ilock"
    | some i ↦ read_from_inode f i n k
  ]

  unfoldable pub fileread : ℕ → ℕ → ℕ → Machine → ReadResult
  unfolding read_object
  fileread cur f n k =
      if not (k.files f).readable
      then ok (k, Progress.returned none)
      else read_object cur f (k.files f) (k.files f).kind n k

  -- One operation of the loop of `filewrite`, on the bytes `src`; `none` is -1 from `writei`.
  unfoldable pub write_chunk : ℕ → ℕ → List ℕ → Machine → Outcome (Option ℕ × Machine)
  write_chunk f i src k = do
    fs ← ilock i (begin_fs_op k.env.0)
    (r, fs, d) ← writei devsw i (k.files f).off src fs k.env.1
    fs ← iunlock i fs
    ok (r, record (advance_to f r k) { env = (end_fs_op fs, d) })

  -- What follows a `writei` of `m` bytes: `rest` is the rest of the loop.
  unfoldable pub after_chunk :
      (Machine → Outcome (Bool × Machine)) → ℕ → Option ℕ × Machine → Outcome (Bool × Machine)
  after_chunk rest m (none, k) = ok (false, k)
  after_chunk rest m (some n, k) = if n == m then rest k else panic "short filewrite"

  -- The loop of `filewrite` with the bytes left, in at most `fuel` rounds: whether `i == n` at its
  -- end.
  unfoldable pub write_chunks : ℕ → ℕ → ℕ → List ℕ → Machine → Outcome (Bool × Machine)
  write_chunks zero f i src k = ok (length src == 0, k)
  write_chunks (suc fuel) f i src k =
      let m = min (length src) chunk in
      let round = (do
        r ← write_chunk f i (take m src) k
        after_chunk (write_chunks fuel f i (drop m src)) m r) in
      if length src == 0 then ok (true, k) else round

  abbrev pub WriteResult : Type 0
  WriteResult = Outcome (Machine × Progress ℤ (List ℕ))

  unfoldable pub write_inode : ℕ → ℕ → List ℕ → Machine → WriteResult
  write_inode f i src k = do
    (whole, k) ← write_chunks (length src) f i src k
    ok (k, Progress.returned (if whole then pos (length src) else minus_one))

  unfoldable pub write_object : ℕ → ℕ → OpenFile → FileType → List ℕ → Machine → WriteResult
  unfolding write_inode
  write_object cur f file FileType.fd_none src k = panic "filewrite"
  write_object cur f file FileType.fd_pipe src k = elim file.pipe [
    | none ↦ panic "null pipe"
    | some a ↦ pipewrite cur a (length src) src k
  ]
  write_object cur f file FileType.fd_inode src k = elim file.ip [
    | none ↦ panic "ilock"
    | some i ↦ write_inode f i src k
  ]

  unfoldable pub filewrite : ℕ → ℕ → List ℕ → Machine → WriteResult
  unfolding write_object
  filewrite cur f src k =
      if not (k.files f).writable
      then ok (k, Progress.returned minus_one)
      else write_object cur f (k.files f) (k.files f).kind src k

  check_buffer : Memory → ℕ → Option (ℕ × ℕ) → Option ℕ → Machine → Option (ℕ × ℕ × ℕ)
  check_buffer m cur none n k = none
  check_buffer m cur (some (fd, f)) none k = none
  check_buffer m cur (some (fd, f)) (some n) k = elim (argptr m (k.procs cur) 1 n) [
    | none ↦ none
    | some p ↦ some (f, n, p)
  ]

  -- The file, the size and the buffer of `sys_read` and `sys_write`.
  unfoldable pub buffer_args : Memory → ℕ → Machine → Option (ℕ × ℕ × ℕ)
  unfolding check_buffer
  buffer_args m cur k = check_buffer m cur (argfd m cur 0 k) (argint m (k.procs cur) 2) k

  -- `sys_read`: where the bytes go, and what `fileread` gives; `none` is -1 for the arguments.
  unfoldable pub sys_read :
      Memory → ℕ → Machine → Outcome (Option ℕ × Machine × Progress (Option (List ℕ)) ℕ)
  unfolding fileread
  sys_read m cur k = elim (buffer_args m cur k) [
    | none ↦ ok (none, k, Progress.returned none)
    | some (f, n, p) ↦ (do (k, r) ← fileread cur f n k; ok (some p, k, r))
  ]

  unfoldable pub sys_write : Memory → ℕ → Machine → WriteResult
  unfolding filewrite
  sys_write m cur k = elim (buffer_args m cur k) [
    | none ↦ ok (k, Progress.returned minus_one)
    | some (f, n, p) ↦ filewrite cur f (bytes_from m p n) k
  ]

  stat_arg : Option (ℕ × ℕ) → Option ℕ → Machine → Outcome (Option (ℕ × Stat) × Machine)
  stat_arg none p k = ok (none, k)
  stat_arg (some (fd, f)) none k = ok (none, k)
  stat_arg (some (fd, f)) (some p) k = do
    (st, k) ← filestat f k
    ok (elim st [ none ↦ none | some s ↦ some (p, s) ], k)

  -- `sys_fstat`: the address, and what is stored there; a `struct stat` has 20 bytes.
  unfoldable pub sys_fstat : Memory → ℕ → Machine → Outcome (Option (ℕ × Stat) × Machine)
  unfolding stat_arg
  sys_fstat m cur k = stat_arg (argfd m cur 0 k) (argptr m (k.procs cur) 1 20) k
