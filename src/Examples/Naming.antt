-- ===== src/Examples/Naming.antt =====
-- A path, the inode cache and an open file of the disk.
use xv6_system_calls.Prelude.{
  ℕ, ◌>>=◌, ◌<◌, ◌≡◌, ◌⊎◌, refl, sym, ◌∙◌, inl, inr, Bool-cases, ==→eq, true, false, none, some,
  List, [], ◌∷◌, ◌==◌, first, ℤ, pos, Progress, Outcome, ok, panic, arith,
}
use xv6_system_calls.Kernel.{Kernel, OpenFile, FileType}
use xv6_system_calls.Fs.{Fs}
use xv6_system_calls.Fs.Inode.{
  iget, iget_empty, ilock, iunlock, acquire_inode, read_inode, bmap, map_slot, iupdate,
}
use xv6_system_calls.Fs.Content.{Devsw, writei, writei_file, write_loop, grow}
use xv6_system_calls.Fs.Path.{skipelem, namex, rootdev, rootino}
use xv6_system_calls.Fs.Elements.{elements, TakesElement, skipelem-TakesElement}
use xv6_system_calls.Fs.Walks.{walk_all, namex-walk_all}
use xv6_system_calls.Fs.Unique.{IsIcache, Holds, iget-IsIcache}
use xv6_system_calls.Fs.Stored.{Stored}
use xv6_system_calls.Fs.Chunks.{Ready, filewrite-Stored}
use xv6_system_calls.Fs.Handles.{
  filewrite, write_object, write_inode, write_chunks, write_chunk, after_chunk,
}
use xv6_system_calls.Examples.Machine.{no_proc}
use xv6_system_calls.Examples.Filing.{disk, disk-IsFile, end_of}

-- "//ab/c"
abbrev path : List ℕ
path = 47 ∷ 47 ∷ 97 ∷ 98 ∷ 47 ∷ 99 ∷ []

skipelem-TakesElement_example :
    ((skipelem path (λ k. 7) ≡ none) × (elements path ≡ []))
    ⊎ ((e : List ℕ) × (rest : List ℕ) × (name' : ℕ → ℕ) × (skipelem path (λ k. 7)
          ≡ some (rest, name'))
        × TakesElement path e rest name')
skipelem-TakesElement_example = skipelem-TakesElement path (λ k. 7)

namex-walk_all_example :
    namex 2 path false (λ k. 7) disk
    ≡ (do (i, fs) ← iget rootdev rootino disk; walk_all false (elements path) (λ k. 7) i fs)
namex-walk_all_example = namex-walk_all 2 path false (λ k. 7) disk

-- Only entry 2 is in use.
in_use : (e dev inum : ℕ) → Holds disk e dev inum → e ≡ 2
in_use e dev inum h = elim (Bool-cases (e == 2)) [
  | inl same ↦ ==→eq e 2 same
  | inr other ↦
      let none_refer : 0 < (disk.inode e).ref = h.referred in
      absurd (omega (arith, rw other at none_refer))
]

disk-IsIcache : IsIcache disk
disk-IsIcache a b dev inum ha hb = in_use a dev inum ha ∙ sym (in_use b dev inum hb)

iget-IsIcache_example : IsIcache (end_of (iget 1 9 disk)) × Holds (end_of (iget 1 9 disk)) 0 1 9
unfolding iget iget_empty first
iget-IsIcache_example = iget-IsIcache 1 9 0 disk (end_of (iget 1 9 disk)) disk-IsIcache refl

-- File 4 is open on the inode of entry 2, at offset 3.
abbrev notes : OpenFile
notes = record {
  kind = FileType.fd_inode;
  ref = 1;
  readable = true;
  writable = true;
  pipe = none;
  ip = some 2;
  off = 3;
}

abbrev no_devices : Devsw (Unit {0})
no_devices = record { read = λ major. none; write = λ major. none }

abbrev office : Kernel (Fs × Unit {0})
office = record {
  procs = λ i. no_proc;
  next_pid = 4;
  init_proc = some 0;
  files = λ f. notes;
  free_pages = [];
  kernel_end = 0x8011_0000;
  pipes = λ a. none;
  env = (disk, tt);
}

disk-Ready : Ready disk 2 3 2
disk-Ready = record {
  is_file = disk-IsFile;
  no_device = λ e. ground (arith, e);
  valid = refl;
  inside = omega arith;
  fits = omega arith;
}

abbrev line : List ℕ
line = 33 ∷ 10 ∷ []

abbrev after_write : Outcome (Kernel (Fs × Unit {0}) × Progress ℤ (List ℕ)) → Kernel (Fs × Unit {0})
after_write (ok (k, r)) = k
after_write (panic s) = office

filewrite-Stored_example :
    ◌≡◌ {A = Progress ℤ (List ℕ)} (Progress.returned (pos 2)) (Progress.returned (pos 2))
    × Stored 2 3 line disk (after_write (filewrite no_devices 0 4 line office)).env.0
    × (((after_write (filewrite no_devices 0 4 line office)).files 4).off ≡ 5)
unfolding filewrite write_object write_inode write_chunks write_chunk after_chunk ilock
    acquire_inode read_inode iunlock writei writei_file write_loop bmap map_slot grow iupdate
filewrite-Stored_example =
    filewrite-Stored no_devices 0 4 2 line (Progress.returned (pos 2)) office
      (after_write (filewrite no_devices 0 4 line office)) refl refl refl disk-Ready refl
