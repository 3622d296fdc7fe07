-- ===== src/File.antt =====
-- file.c: the table of open files. Each function is one critical section of `ftable.lock`, with
-- what `fileclose` does after it.
pub mod Changes
pub mod Refs
use xv6_system_calls.Prelude.{
  ℕ, zero, suc, ◌+◌, ◌-◌, Bool, Option, none, some, ◌==◌, ltb, if◌then◌else◌, first, Outcome, ok,
  panic, ◌>>=◌,
}
use xv6_system_calls.Kernel.{Kernel, Lower, FileType, OpenFile, nfile, set_file}
use xv6_system_calls.Pipe.{pipeclose}

module _ {E : Type 0} where
  -- `filealloc`: the first entry that nobody refers to, with one reference.
  unfoldable pub filealloc : Kernel E → Option ℕ × Kernel E
  filealloc k = elim (first (λ f. (k.files f).ref == 0) nfile) [
    | none ↦ (none, k)
    | some f ↦ (some f, set_file k f (record (k.files f) { ref = 1 }))
  ]

  unfoldable pub filedup : ℕ → Kernel E → Outcome (Kernel E)
  filedup f k =
      if ltb (k.files f).ref 1
      then panic "filedup"
      else ok (set_file k f (record (k.files f) { ref = (k.files f).ref + 1 }))

  close_pipe : Option ℕ → Bool → Kernel E → Outcome (Kernel E)
  close_pipe none writable k = panic "null pipe"
  close_pipe (some a) writable k = pipeclose a writable k

module _ {E : Type 0} (lower : Lower E) where
  -- `begin_op(); iput(ip); end_op();`
  unfoldable pub put_inode : Option ℕ → Kernel E → Outcome (Kernel E)
  put_inode ip k = do env ← lower.iput ip k.env; ok (record k { env = env })

  -- The part of `fileclose` after the table is unlocked, with the copy `ff` of the entry.
  unfoldable pub close_object : OpenFile → FileType → Kernel E → Outcome (Kernel E)
  unfolding close_pipe put_inode
  close_object ff FileType.fd_pipe k = close_pipe ff.pipe ff.writable k
  close_object ff FileType.fd_inode k = put_inode ff.ip k
  close_object ff FileType.fd_none k = ok k

  unfoldable pub fileclose : ℕ → Kernel E → Outcome (Kernel E)
  unfolding close_object
  fileclose f k =
      let ff = k.files f in
      if ltb ff.ref 1
      then panic "fileclose"
      else if ltb 0 (ff.ref - 1)
      then ok (set_file k f (record ff { ref = ff.ref - 1 }))
      else close_object ff ff.kind (set_file k f (record ff { ref = 0; kind = FileType.fd_none }))
