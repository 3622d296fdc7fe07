-- ===== src/Fs/AfterInode.antt =====
-- The operations on inodes: the locks that they take and give back, the count of operations that they
-- keep.
use xv6_system_calls.Prelude.{
  ℕ, zero, suc, ◌+◌, ◌-◌, ◌≡◌, refl, sym, ◌∙◌, inl, inr, Bool, true, false, ◌&&◌, Option, none,
  some, ◌==◌, if◌then◌else◌, Bool-cases, update, ok,
}
use xv6_system_calls.Fs.{Fs, CachedInode, ndirect, nindirect, balloc, bfree}
use xv6_system_calls.Fs.Inode.{
  set_inode, set_copy, iupdate, iget, iget_empty, ialloc, ilock, iunlock, acquire_inode, read_inode,
  release_inode, bmap, map_slot, map_word, free_if_set, free_slots, free_words, free_indirect,
  itrunc, free_inode, iput, iunlockput,
}
use xv6_system_calls.Fs.After.{
  After, After-bind, After-if, After-option, After-map, Holding, set_inode-Holding,
  set_lock-Holding, Holding-back,
}

module _ (n : ℕ) (held : ℕ → Bool) where
  pub iupdate-Holding : (i : ℕ) (fs : Fs) → Holding n held fs → Holding n held (iupdate i fs)
  unfolding iupdate
  iupdate-Holding i fs h = h

  pub balloc-Holding : (fs : Fs) → Holding n held fs → After (λ r. Holding n held r.1) (balloc fs)
  unfolding balloc
  balloc-Holding fs h = After-option _ (After.panics _) (λ b. After.returns _ h)

  pub bfree-Holding : (b : ℕ) (fs : Fs) → Holding n held fs → After (Holding n held) (bfree b fs)
  unfolding bfree
  bfree-Holding b fs h = After-if (fs.used b) (After.returns _ h) (After.panics _)

  map_slot-Holding :
      (i s : ℕ) (fs : Fs) → Holding n held fs → After (λ r. Holding n held r.1) (map_slot i s fs)
  unfolding map_slot
  map_slot-Holding i s fs h =
      After-if _
        (After-bind (balloc-Holding fs h)
          (λ r h'. After.returns _ (set_inode-Holding n held i _ r.1 refl h')))
        (After.returns _ h)

  map_word-Holding :
      (a j : ℕ) (fs : Fs) → Holding n held fs → After (λ r. Holding n held r.1) (map_word a j fs)
  unfolding map_word
  map_word-Holding a j fs h =
      After-if _ (After-bind (balloc-Holding fs h) (λ r h'. After.returns _ h')) (After.returns _ h)

  pub bmap-Holding :
      (i bn : ℕ) (fs : Fs) → Holding n held fs → After (λ r. Holding n held r.1) (bmap i bn fs)
  unfolding bmap
  bmap-Holding i bn fs h = After-if _ (map_slot-Holding i bn fs h) (
      After-if _
        (After-bind (map_slot-Holding i ndirect fs h)
          (λ r h'. map_word-Holding r.0 (bn - ndirect) r.1 h'))
        (After.panics _))

  free_if_set-Holding :
      (a : ℕ) (fs : Fs) → Holding n held fs → After (Holding n held) (free_if_set a fs)
  free_if_set-Holding a fs h = After-if _ (After.returns _ h) (bfree-Holding a fs h)

  free_slots-Holding :
      (i k s : ℕ) (fs : Fs) → Holding n held fs → After (Holding n held) (free_slots i k s fs)
  unfolding free_slots
  free_slots-Holding i zero s fs h = After.returns _ h
  free_slots-Holding i (suc k) s fs h =
      After-bind {P = Holding n held}
        (After-if _ (After.returns _ h) (
          After-bind (bfree-Holding _ fs h)
            (λ fs' h'. After.returns _ (set_inode-Holding n held i _ fs' refl h'))))
        (λ fs' h'. free_slots-Holding i k (s + 1) fs' h')

  free_words-Holding :
      (a k j : ℕ) (fs : Fs) → Holding n held fs → After (Holding n held) (free_words a k j fs)
  unfolding free_words
  free_words-Holding a zero j fs h = After.returns _ h
  free_words-Holding a (suc k) j fs h =
      After-bind (free_if_set-Holding _ fs h) (λ fs' h'. free_words-Holding a k (j + 1) fs' h')

  free_indirect-Holding :
      (i : ℕ) (fs : Fs) → Holding n held fs → After (Holding n held) (free_indirect i fs)
  unfolding free_indirect
  free_indirect-Holding i fs h = After-if _ (After.returns _ h) (
      After-bind (free_words-Holding _ nindirect 0 fs h) (λ fs1 h1.
        After-bind (bfree-Holding _ fs1 h1)
          (λ fs2 h2. After.returns _ (set_inode-Holding n held i _ fs2 refl h2))))

  itrunc-Holding : (i : ℕ) (fs : Fs) → Holding n held fs → After (Holding n held) (itrunc i fs)
  unfolding itrunc
  itrunc-Holding i fs h = After-bind (free_slots-Holding i ndirect 0 fs h) (λ fs1 h1.
      After-bind (free_indirect-Holding i fs1 h1) (λ fs2 h2.
        After.returns _ (iupdate-Holding i _ (set_inode-Holding n held i _ fs2 refl h2))))

  free_inode-Holding :
      (i : ℕ) (fs : Fs) → Holding n held fs → After (Holding n held) (free_inode i fs)
  unfolding free_inode
  free_inode-Holding i fs h = After-bind (itrunc-Holding i fs h) (λ fs1 h1.
      let fs2 : Fs = iupdate i (set_copy i (record (fs1.inode i).copy { kind = 0 }) fs1) in
      After.returns _ (
        set_inode-Holding n held i _ fs2 refl
          (iupdate-Holding i _ (set_inode-Holding n held i _ fs1 refl h1))))

  iget_empty-Holding :
      (dev inum : ℕ) (e : Option ℕ) (fs : Fs)
      → Holding n held fs
      → After (λ r. Holding n held r.1) (iget_empty dev inum e fs)
  unfolding iget_empty
  iget_empty-Holding dev inum none fs h = After.panics _
  iget_empty-Holding dev inum (some e) fs h =
      After.returns _ (set_inode-Holding n held e _ fs refl h)

  pub iget-Holding :
      (dev inum : ℕ) (fs : Fs)
      → Holding n held fs
      → After (λ r. Holding n held r.1) (iget dev inum fs)
  unfolding iget
  iget-Holding dev inum fs h =
      After-option _ (iget_empty-Holding dev inum _ fs h)
        (λ e. After.returns _ (set_inode-Holding n held e _ fs refl h))

  pub ialloc-Holding :
      (dev kind : ℕ) (fs : Fs)
      → Holding n held fs
      → After (λ r. Holding n held r.1) (ialloc dev kind fs)
  unfolding ialloc
  ialloc-Holding dev kind fs h = After-option _ (After.panics _) (λ inum. iget-Holding dev inum _ h)

  read_inode-Holding :
      (i : ℕ) (fs : Fs) → Holding n held fs → After (Holding n held) (read_inode i fs)
  unfolding read_inode
  read_inode-Holding i fs h =
      After-if _ (After.returns _ h)
        (After-if _ (After.panics _) (After.returns _ (set_inode-Holding n held i _ fs refl h)))

  acquire_inode-Holding :
      (i : ℕ) (fs : Fs)
      → Holding n held fs
      → After (λ fs'. (held i ≡ false) × Holding n (update held i true) fs') (acquire_inode i fs)
  unfolding acquire_inode
  acquire_inode-Holding i fs h = elim (Bool-cases (fs.inode i).locked) [
    | inl e ↦ rw e (After.panics _)
    | inr e ↦ rw e (After.returns _ (sym (h.1 i) ∙ e, set_lock-Holding n held i true fs h))
  ]

  pub iunlock-Holding :
      (i : ℕ) (fs : Fs) → Holding n held fs → After (Holding n (update held i false)) (iunlock i fs)
  unfolding iunlock
  iunlock-Holding i fs h =
      After-if _ (After.panics _) (After.returns _ (set_lock-Holding n held i false fs h))

module _ (n : ℕ) (held : ℕ → Bool) where
  -- `ilock` takes a lock that nobody holds.
  pub ilock-Holding :
      (i : ℕ) (fs : Fs)
      → Holding n held fs
      → After (λ fs'. (held i ≡ false) × Holding n (update held i true) fs') (ilock i fs)
  unfolding ilock
  ilock-Holding i fs h = After-if _ (After.panics _) (
      After-bind (acquire_inode-Holding n held i fs h) (λ fs1 (free, h1).
        After-map (read_inode-Holding n (update held i true) i fs1 h1) (λ fs2 h2. (free, h2))))

  pub iput-Holding : (i : ℕ) (fs : Fs) → Holding n held fs → After (Holding n held) (iput i fs)
  unfolding iput
  iput-Holding i fs h = After-bind (acquire_inode-Holding n held i fs h) (λ fs1 (free, h1).
      let c : CachedInode = fs1.inode i in
      let test : Bool = c.valid && (c.copy.nlink == 0) && (c.ref == 1) in
      let freed : After (Holding n (update held i true))
          (if test then free_inode i fs1 else ok fs1) =
        After-if test (free_inode-Holding n (update held i true) i fs1 h1) (After.returns fs1 h1) in
      After-bind freed (λ fs2 h2.
        let fs3 : Fs = release_inode i fs2 in
        let h3 =
          Holding-back n held i fs3 free (set_lock-Holding n (update held i true) i false fs2 h2) in
        let new : CachedInode = record (fs3.inode i) { ref = (fs3.inode i).ref - 1 } in
        After.returns (set_inode i new fs3) (set_inode-Holding n held i new fs3 refl h3)))

  -- With the lock of `i` held besides, `iunlockput` gives it back.
  pub iunlockput-Holding :
      (i : ℕ) (fs : Fs)
      → held i ≡ false
      → Holding n (update held i true) fs
      → After (Holding n held) (iunlockput i fs)
  unfolding iunlockput
  iunlockput-Holding i fs free h =
      After-bind (iunlock-Holding n (update held i true) i fs h)
        (λ fs1 h1. iput-Holding i fs1 (Holding-back n held i fs1 free h1))
