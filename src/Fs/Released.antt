-- ===== src/Fs/Released.antt =====
-- The system calls on paths give back every lock and end their operation, on every branch on which
-- they return.
use xv6_system_calls.Prelude.{
  ℕ, ◌+◌, ◌≡◌, ◌≢◌, refl, ap, ◌∙◌, inl, inr, Bool, true, false, Option, none, some, List, ◌==◌,
  if◌then◌else◌, Bool-cases, ne→==, arith, update,
}
use xv6_system_calls.Fs.{Fs, Dinode, t_dir}
use xv6_system_calls.Fs.Calls.{
  begin_fs_op, end_fs_op, add_link, drop_link, change_inode, put_failed, link_bad, link_name,
  link_parent, link_inode, sys_link, remove_entry, no_entry, may_unlink, unlink_found,
  unlink_parent, sys_unlink,
}
use xv6_system_calls.Fs.After.{
  After, After-bind, After-if, Holding, set_inode-Holding, Holding-back,
}
use xv6_system_calls.Fs.AfterInode.{
  iupdate-Holding, iput-Holding, ilock-Holding, iunlock-Holding, iunlockput-Holding,
}
use xv6_system_calls.Fs.AfterPath.{
  dirlookup-Holding, dirlink-Holding, isdirempty-Holding, write_entry-Holding, namex-Holding,
  namei-Holding,
}

module _ (n : ℕ) (held : ℕ → Bool) where
  pub change_inode-Holding :
      (i : ℕ) (change : Dinode → Dinode) (fs : Fs)
      → Holding n held fs
      → Holding n held (change_inode i change fs)
  change_inode-Holding i change fs h =
      iupdate-Holding n held i _ (set_inode-Holding n held i _ fs refl h)

  pub begin_fs_op-Holding : (fs : Fs) → Holding n held fs → Holding (n + 1) held (begin_fs_op fs)
  begin_fs_op-Holding fs (ops, locks) = (ap (λ (k : ℕ). k + 1) ops, locks)

  pub end_fs_op-Holding : (fs : Fs) → Holding (n + 1) held fs → Holding n held (end_fs_op fs)
  end_fs_op-Holding fs (ops, locks) = (rw ops (omega arith), locks)

module _ (n : ℕ) (held : ℕ → Bool) where
  put_failed-Holding :
      (i : ℕ) (fs : Fs)
      → held i ≡ false
      → Holding (n + 1) (update held i true) fs
      → After (λ r. Holding n held r.1) (put_failed i fs)
  unfolding put_failed
  put_failed-Holding i fs free h =
      After-bind (iunlockput-Holding (n + 1) held i fs free h)
        (λ fs' h'. After.returns (false, end_fs_op fs') (end_fs_op-Holding n held fs' h'))

  -- Two locks may be given back in the order in which they were taken.
  pub swapped :
      (m dp ip : ℕ) (fs : Fs)
      → Holding m (update (update held dp true) ip true) fs
      → Holding m (update (update held ip true) dp true) fs
  swapped m dp ip fs (ops, locks) = (ops, λ x. locks x ∙ same x)
    where
      same :
          (x : ℕ) → update (update held dp true) ip true x ≡ update (update held ip true) dp true x
      same x = elim (Bool-cases (x == dp)) [
        | inl e ↦ elim (Bool-cases (x == ip)) [
          | inl e' ↦ rw (e, e') refl
          | inr e' ↦ rw (e, e') refl
        ]
        | inr e ↦ rw e refl
      ]

  pub both_free :
      (dp ip : ℕ)
      → held dp ≡ false
      → update held dp true ip ≡ false
      → (held ip ≡ false) × (update held ip true dp ≡ false)
  both_free dp ip free free' = elim (Bool-cases (ip == dp)) [
    | inl e ↦ cc (rw e at free')
    | inr e ↦ let apart : dp ≢ ip = ground arith in (rw e at free', rw (ne→== dp ip apart) free)
  ]

  -- `sys_unlink`
  remove_entry-Holding :
      (dp ip off : ℕ) (fs : Fs)
      → held dp ≡ false
      → update held dp true ip ≡ false
      → Holding (n + 1) (update (update held dp true) ip true) fs
      → After (λ r. Holding n held r.1) (remove_entry dp ip off fs)
  unfolding remove_entry
  remove_entry-Holding dp ip off fs free free' h =
      let both = both_free dp ip free free' in
      After-bind
        (write_entry-Holding (n + 1) (update (update held dp true) ip true) "unlink: writei" dp off
          no_entry fs h)
        (λ fs1 h1.
          let fs2 : Fs =
            if (fs1.inode ip).copy.kind == t_dir then change_inode dp drop_link fs1 else fs1 in
          let h2 : Holding (n + 1) (update (update held dp true) ip true) fs2 =
            maybe ((fs1.inode ip).copy.kind == t_dir) fs1 h1 in
          After-bind
            (iunlockput-Holding (n + 1) (update held ip true) dp fs2 both.1
              (swapped (n + 1) dp ip fs2 h2))
            (λ fs3 h3.
              let h4 = change_inode-Holding (n + 1) (update held ip true) ip drop_link fs3 h3 in
              After-bind
                (iunlockput-Holding (n + 1) held ip (change_inode ip drop_link fs3) both.0 h4)
                (λ fs4 h5. After.returns (true, end_fs_op fs4) (end_fs_op-Holding n held fs4 h5))))
    where
      maybe :
          (b : Bool) (fs1 : Fs)
          → Holding (n + 1) (update (update held dp true) ip true) fs1
          → Holding
              (n + 1)
              (update (update held dp true) ip true)
              (if b then change_inode dp drop_link fs1 else fs1)
      maybe true fs1 h1 =
          change_inode-Holding (n + 1) (update (update held dp true) ip true) dp drop_link fs1 h1
      maybe false fs1 h1 = h1

  may_unlink-Holding :
      (ip : ℕ) (fs : Fs) → Holding n held fs → After (λ r. Holding n held r.1) (may_unlink ip fs)
  unfolding may_unlink
  may_unlink-Holding ip fs h = After-if _ (isdirempty-Holding n held ip fs h) (After.returns _ h)

module _ (n : ℕ) (held : ℕ → Bool) where
  unlink_found-Holding :
      (dp : ℕ) (r : Option (ℕ × ℕ) × Fs)
      → held dp ≡ false
      → Holding (n + 1) (update held dp true) r.1
      → After (λ r'. Holding n held r'.1) (unlink_found dp r)
  unfolding unlink_found
  unlink_found-Holding dp (none, fs) free h = put_failed-Holding n held dp fs free h
  unlink_found-Holding dp (some (off, ip), fs) free h =
      After-bind (ilock-Holding (n + 1) (update held dp true) ip fs h) (λ fs1 (free', h1).
        After-if _ (After.panics _) (
          After-bind (may_unlink-Holding (n + 1) (update (update held dp true) ip true) ip fs1 h1)
            (λ r h2. After-if _ (remove_entry-Holding n held dp ip off r.1 free free' h2) (
              After-bind (iunlockput-Holding (n + 1) (update held dp true) ip r.1 free' h2)
                (λ fs3 h3. put_failed-Holding n held dp fs3 free h3)))))

  unlink_parent-Holding :
      (r : Option ℕ × (ℕ → ℕ) × Fs)
      → Holding (n + 1) held r.2
      → After (λ r'. Holding n held r'.1) (unlink_parent r)
  unfolding unlink_parent
  unlink_parent-Holding (none, name, fs) h =
      After.returns (false, end_fs_op fs) (end_fs_op-Holding n held fs h)
  unlink_parent-Holding (some dp, name, fs) h =
      After-bind (ilock-Holding (n + 1) held dp fs h) (λ fs1 (free, h1).
        After-if _ (put_failed-Holding n held dp fs1 free h1) (
          After-bind (dirlookup-Holding (n + 1) (update held dp true) dp name fs1 h1)
            (λ r h2. unlink_found-Holding dp r free h2)))

  pub sys_unlink-Holding :
      (cwd : ℕ) (path : Option (List ℕ)) (stale : ℕ → ℕ) (fs : Fs)
      → Holding n held fs
      → After (λ r. Holding n held r.1) (sys_unlink cwd path stale fs)
  unfolding sys_unlink
  sys_unlink-Holding cwd none stale fs h = After.returns _ h
  sys_unlink-Holding cwd (some path) stale fs h =
      After-bind
        (namex-Holding (n + 1) held cwd path true stale (begin_fs_op fs)
          (begin_fs_op-Holding n held fs h))
        (λ r h1. unlink_parent-Holding r h1)

  -- `sys_link`
  link_bad-Holding :
      (ip : ℕ) (fs : Fs)
      → Holding (n + 1) held fs
      → After (λ r. Holding n held r.1) (link_bad ip fs)
  unfolding link_bad
  link_bad-Holding ip fs h = After-bind (ilock-Holding (n + 1) held ip fs h) (λ fs1 (free, h1).
      put_failed-Holding n held ip (change_inode ip drop_link fs1) free
        (change_inode-Holding (n + 1) (update held ip true) ip drop_link fs1 h1))

  link_name-Holding :
      (ip dp : ℕ) (name : ℕ → ℕ) (fs : Fs)
      → Holding n held fs
      → After (λ r. Holding n held r.1) (link_name ip dp name fs)
  unfolding link_name
  link_name-Holding ip dp name fs h =
      After-if _ (After.returns _ h) (dirlink-Holding n held dp name _ fs h)

module _ (n : ℕ) (held : ℕ → Bool) where
  link_parent-Holding :
      (ip : ℕ) (r : Option ℕ × (ℕ → ℕ) × Fs)
      → Holding (n + 1) held r.2
      → After (λ r'. Holding n held r'.1) (link_parent ip r)
  unfolding link_parent
  link_parent-Holding ip (none, name, fs) h = link_bad-Holding n held ip fs h
  link_parent-Holding ip (some dp, name, fs) h =
      After-bind (ilock-Holding (n + 1) held dp fs h) (λ fs1 (free, h1).
        After-bind (link_name-Holding (n + 1) (update held dp true) ip dp name fs1 h1) (λ r h2.
          After-bind (iunlockput-Holding (n + 1) held dp r.1 free h2) (λ fs3 h3.
            After-if r.0
              (After-bind (iput-Holding (n + 1) held ip fs3 h3)
                (λ fs4 h4. After.returns (true, end_fs_op fs4) (end_fs_op-Holding n held fs4 h4)))
              (link_bad-Holding n held ip fs3 h3))))

  link_inode-Holding :
      (cwd : ℕ) (new : List ℕ) (stale : ℕ → ℕ) (r : Option ℕ × Fs)
      → Holding (n + 1) held r.1
      → After (λ r'. Holding n held r'.1) (link_inode cwd new stale r)
  unfolding link_inode
  link_inode-Holding cwd new stale (none, fs) h =
      After.returns (false, end_fs_op fs) (end_fs_op-Holding n held fs h)
  link_inode-Holding cwd new stale (some ip, fs) h =
      After-bind (ilock-Holding (n + 1) held ip fs h) (λ fs1 (free, h1).
        After-if _ (put_failed-Holding n held ip fs1 free h1) (
          After-bind
            (iunlock-Holding (n + 1) (update held ip true) ip (change_inode ip add_link fs1)
              (change_inode-Holding (n + 1) (update held ip true) ip add_link fs1 h1))
            (λ fs2 h2.
              After-bind
                (namex-Holding (n + 1) held cwd new true stale fs2
                  (Holding-back (n + 1) held ip fs2 free h2))
                (λ r h3. link_parent-Holding ip r h3))))

  pub sys_link-Holding :
      (cwd : ℕ) (old new : Option (List ℕ)) (stale : ℕ → ℕ) (fs : Fs)
      → Holding n held fs
      → After (λ r. Holding n held r.1) (sys_link cwd old new stale fs)
  unfolding sys_link
  sys_link-Holding cwd none new stale fs h = After.returns _ h
  sys_link-Holding cwd (some old) none stale fs h = After.returns _ h
  sys_link-Holding cwd (some old) (some new) stale fs h =
      After-bind
        (namei-Holding (n + 1) held cwd old stale (begin_fs_op fs)
          (begin_fs_op-Holding n held fs h))
        (λ r h1. link_inode-Holding cwd new stale r h1)
