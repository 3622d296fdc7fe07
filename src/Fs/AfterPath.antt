-- ===== src/Fs/AfterPath.antt =====
-- Reads, writes, directories and paths leave the locks and the count of operations as they are.
use xv6_system_calls.Prelude.{
  ℕ, zero, suc, ◌+◌, ◌*◌, ◌/◌, ◌%◌, ◌≡◌, refl, inl, inr, Bool, true, false, ◌&&◌, ◌||◌, Option,
  none, some, List, ltb, if◌then◌else◌, Bool-cases, length, u32_mod, update, ok, String,
}
use xv6_system_calls.Fs.{Fs, bsize, maxfile}
use xv6_system_calls.Fs.Inode.{iget, idup}
use xv6_system_calls.Fs.Content.{read_loop, write_loop, readi_file, writei_file, grow}
use xv6_system_calls.Fs.Directory.{
  dirent_size, check_entry, read_entry, find_entry, found_entry, dirlookup, check_write,
  write_entry, link_entry, dirlink, isdirempty,
}
use xv6_system_calls.Fs.Path.{
  rootdev, rootino, is_absolute, skipelem, give_up, enter, walk_element, end_walk, walk_path, namex,
  namei, Walk,
}
use xv6_system_calls.Fs.After.{
  After, After-bind, After-if, After-option, Holding, set_inode-Holding, Holding-back,
}
use xv6_system_calls.Fs.AfterInode.{
  iupdate-Holding, bmap-Holding, iget-Holding, iput-Holding, ilock-Holding, iunlock-Holding,
  iunlockput-Holding,
}

module _ (n : ℕ) (held : ℕ → Bool) where
  read_loop-Holding :
      (fuel i off left : ℕ) (fs : Fs)
      → Holding n held fs
      → After (λ r. Holding n held r.1) (read_loop fuel i off left fs)
  unfolding read_loop
  read_loop-Holding zero i off left fs h = After.returns _ h
  read_loop-Holding (suc fuel) i off left fs h = After-if _ (After.returns _ h) (
      After-bind (bmap-Holding n held i (off / bsize) fs h)
        (λ r h'. After-bind (read_loop-Holding fuel i _ _ r.1 h') (λ r' h''. After.returns _ h'')))

  write_loop-Holding :
      (fuel i off : ℕ) (src : List ℕ) (fs : Fs)
      → Holding n held fs
      → After (Holding n held) (write_loop fuel i off src fs)
  unfolding write_loop
  write_loop-Holding zero i off src fs h = After.returns _ h
  write_loop-Holding (suc fuel) i off src fs h = After-if _ (After.returns _ h) (
      After-bind (bmap-Holding n held i (off / bsize) fs h)
        (λ r h'. write_loop-Holding fuel i _ _ _ h'))

  readi_file-Holding :
      (i off k : ℕ) (fs : Fs)
      → Holding n held fs
      → After (λ r. Holding n held r.1) (readi_file i off k fs)
  unfolding readi_file
  readi_file-Holding i off k fs h =
      After-if _ (After.returns _ h)
        (After-bind (read_loop-Holding _ i off _ fs h) (λ r h'. After.returns _ h'))

  grow-Holding : (i end k : ℕ) (fs : Fs) → Holding n held fs → Holding n held (grow i end k fs)
  unfolding grow
  grow-Holding i end k fs h = elim (Bool-cases (ltb 0 k && ltb (fs.inode i).copy.size end)) [
    | inl e ↦ rw e (iupdate-Holding n held i _ (set_inode-Holding n held i _ fs refl h))
    | inr e ↦ rw e h
  ]

  writei_file-Holding :
      (i off : ℕ) (src : List ℕ) (fs : Fs)
      → Holding n held fs
      → After (λ r. Holding n held r.1) (writei_file i off src fs)
  unfolding writei_file
  writei_file-Holding i off src fs h =
      let k : ℕ = length src in
      let end : ℕ = (off + k) % u32_mod in
      After-if (ltb (fs.inode i).copy.size off || ltb end off) (After.returns (none, fs) h) (
        After-if (ltb (maxfile * bsize) end) (After.returns (none, fs) h) (
          After-bind (write_loop-Holding k i off src fs h) (λ fs' h'.
            After.returns (some k, grow i (off + k) k fs') (grow-Holding i (off + k) k fs' h'))))

  check_entry-Holding :
      (message : String) (r : Option (List ℕ)) (fs : Fs)
      → Holding n held fs
      → After (λ r. Holding n held r.1) (check_entry message r fs)
  unfolding check_entry
  check_entry-Holding message none fs h = After.panics _
  check_entry-Holding message (some de) fs h = After-if _ (After.returns _ h) (After.panics _)

  read_entry-Holding :
      (message : String) (i off : ℕ) (fs : Fs)
      → Holding n held fs
      → After (λ r. Holding n held r.1) (read_entry message i off fs)
  unfolding read_entry
  read_entry-Holding message i off fs h =
      After-bind (readi_file-Holding i off dirent_size fs h)
        (λ r h'. check_entry-Holding message r.0 r.1 h')

  find_entry-Holding :
      (message : String) (test : List ℕ → Bool) (fuel i off : ℕ) (fs : Fs)
      → Holding n held fs
      → After (λ r. Holding n held r.2) (find_entry message test fuel i off fs)
  unfolding find_entry
  find_entry-Holding message test zero i off fs h = After.returns _ h
  find_entry-Holding message test (suc fuel) i off fs h =
      After-if _
        (After-bind (read_entry-Holding message i off fs h) (λ r h'.
          After-if _ (After.returns _ h') (find_entry-Holding message test fuel i _ r.1 h')))
        (After.returns _ h)

  found_entry-Holding :
      (i : ℕ) (r : ℕ × Option (List ℕ) × Fs)
      → Holding n held r.2
      → After (λ r'. Holding n held r'.1) (found_entry i r)
  unfolding found_entry
  found_entry-Holding i (off, none, fs) h = After.returns _ h
  found_entry-Holding i (off, some de, fs) h =
      After-bind (iget-Holding n held _ _ fs h) (λ r h'. After.returns _ h')

  pub dirlookup-Holding :
      (i : ℕ) (name : ℕ → ℕ) (fs : Fs)
      → Holding n held fs
      → After (λ r. Holding n held r.1) (dirlookup i name fs)
  unfolding dirlookup
  dirlookup-Holding i name fs h =
      After-if _
        (After-bind (find_entry-Holding _ _ _ i 0 fs h) (λ r h'. found_entry-Holding i r h'))
        (After.panics _)

  check_write-Holding :
      (message : String) (r : Option ℕ) (fs : Fs)
      → Holding n held fs
      → After (Holding n held) (check_write message r fs)
  unfolding check_write
  check_write-Holding message none fs h = After.panics _
  check_write-Holding message (some k) fs h = After-if _ (After.returns _ h) (After.panics _)

  pub write_entry-Holding :
      (message : String) (i off : ℕ) (de : List ℕ) (fs : Fs)
      → Holding n held fs
      → After (Holding n held) (write_entry message i off de fs)
  unfolding write_entry
  write_entry-Holding message i off de fs h =
      After-bind (writei_file-Holding i off de fs h)
        (λ r h'. check_write-Holding message r.0 r.1 h')

  link_entry-Holding :
      (i : ℕ) (name : ℕ → ℕ) (inum : ℕ) (r : Option (ℕ × ℕ) × Fs)
      → Holding n held r.1
      → After (λ r'. Holding n held r'.1) (link_entry i name inum r)
  unfolding link_entry
  link_entry-Holding i name inum (some (off, e), fs) h =
      After-bind (iput-Holding n held e fs h) (λ fs' h'. After.returns _ h')
  link_entry-Holding i name inum (none, fs) h =
      After-bind (find_entry-Holding _ _ _ i 0 fs h)
        (λ r h'. After-bind (write_entry-Holding _ i r.0 _ r.2 h') (λ fs' h''. After.returns _ h''))

  pub dirlink-Holding :
      (i : ℕ) (name : ℕ → ℕ) (inum : ℕ) (fs : Fs)
      → Holding n held fs
      → After (λ r. Holding n held r.1) (dirlink i name inum fs)
  unfolding dirlink
  dirlink-Holding i name inum fs h =
      After-bind (dirlookup-Holding i name fs h) (λ r h'. link_entry-Holding i name inum r h')

  pub isdirempty-Holding :
      (i : ℕ) (fs : Fs) → Holding n held fs → After (λ r. Holding n held r.1) (isdirempty i fs)
  unfolding isdirempty
  isdirempty-Holding i fs h =
      After-bind (find_entry-Holding _ _ _ i _ fs h) (λ r h'. After.returns _ h')

module _ (n : ℕ) (held : ℕ → Bool) where
  give_up-Holding :
      (i : ℕ) (name : ℕ → ℕ) (fs : Fs)
      → held i ≡ false
      → Holding n (update held i true) fs
      → After (λ r. Holding n held r.2) (give_up i name fs)
  unfolding give_up
  give_up-Holding i name fs free h =
      After-bind (iunlockput-Holding n held i fs free h) (λ fs' h'. After.returns _ h')

  enter-Holding :
      (walk : ℕ → Fs → Walk) (i : ℕ) (name : ℕ → ℕ) (r : Option (ℕ × ℕ) × Fs)
      → ((e : ℕ) (fs : Fs) → Holding n held fs → After (λ r'. Holding n held r'.2) (walk e fs))
      → held i ≡ false
      → Holding n (update held i true) r.1
      → After (λ r'. Holding n held r'.2) (enter walk i name r)
  unfolding enter
  enter-Holding walk i name (none, fs) rest free h = give_up-Holding i name fs free h
  enter-Holding walk i name (some (off, e), fs) rest free h =
      After-bind (iunlockput-Holding n held i fs free h) (λ fs' h'. rest e fs' h')

  walk_element-Holding :
      (walk : ℕ → Fs → Walk) (parent : Bool) (rest : List ℕ) (name : ℕ → ℕ) (i : ℕ) (fs : Fs)
      → ((e : ℕ) (fs' : Fs) → Holding n held fs' → After (λ r'. Holding n held r'.2) (walk e fs'))
      → Holding n held fs
      → After (λ r'. Holding n held r'.2) (walk_element walk parent rest name i fs)
  unfolding walk_element
  walk_element-Holding walk parent rest name i fs loop h =
      After-bind (ilock-Holding n held i fs h) (λ fs1 (free, h1).
        After-if _ (give_up-Holding i name fs1 free h1) (
          After-if _
            (After-bind (iunlock-Holding n (update held i true) i fs1 h1)
              (λ fs2 h2. After.returns _ (Holding-back n held i fs2 free h2)))
            (After-bind (dirlookup-Holding n (update held i true) i name fs1 h1)
              (λ r h2. enter-Holding walk i name r loop free h2))))

  end_walk-Holding :
      (parent : Bool) (name : ℕ → ℕ) (i : ℕ) (fs : Fs)
      → Holding n held fs
      → After (λ r'. Holding n held r'.2) (end_walk parent name i fs)
  unfolding end_walk
  end_walk-Holding true name i fs h =
      After-bind (iput-Holding n held i fs h) (λ fs' h'. After.returns _ h')
  end_walk-Holding false name i fs h = After.returns _ h

  walk_path-Holding :
      (fuel : ℕ) (parent : Bool) (path : List ℕ) (name : ℕ → ℕ) (i : ℕ) (fs : Fs)
      → Holding n held fs
      → After (λ r'. Holding n held r'.2) (walk_path fuel parent path name i fs)
  unfolding walk_path
  walk_path-Holding zero parent path name i fs h = After.panics _
  walk_path-Holding (suc fuel) parent path name i fs h =
      After-option (skipelem path name) (end_walk-Holding parent name i fs h) (λ r.
        walk_element-Holding _ parent r.0 r.1 i fs
          (λ e fs' h'. walk_path-Holding fuel parent r.0 r.1 e fs' h') h)

  pub namex-Holding :
      (cwd : ℕ) (path : List ℕ) (parent : Bool) (name : ℕ → ℕ) (fs : Fs)
      → Holding n held fs
      → After (λ r'. Holding n held r'.2) (namex cwd path parent name fs)
  unfolding namex idup
  namex-Holding cwd path parent name fs h =
      let start : After (λ (r : ℕ × Fs). Holding n held r.1)
          (if is_absolute path then iget rootdev rootino fs else ok (cwd, idup cwd fs)) =
        After-if (is_absolute path) (iget-Holding n held rootdev rootino fs h)
          (After.returns (cwd, idup cwd fs) (set_inode-Holding n held cwd _ fs refl h)) in
      After-bind start (λ r h'. walk_path-Holding (suc (length path)) parent path name r.0 r.1 h')

  pub namei-Holding :
      (cwd : ℕ) (path : List ℕ) (name : ℕ → ℕ) (fs : Fs)
      → Holding n held fs
      → After (λ r. Holding n held r.1) (namei cwd path name fs)
  unfolding namei
  namei-Holding cwd path name fs h =
      After-bind (namex-Holding cwd path false name fs h) (λ r h'. After.returns _ h')
