-- ===== src/Fs/AfterCreate.antt =====
-- `create` returns with the lock of its inode, and with no other lock that it took.
use xv6_system_calls.Prelude.{
  ℕ, ◌≡◌, Bool, true, false, Option, none, some, List, ◌==◌, if◌then◌else◌, update, ok,
}
use xv6_system_calls.Fs.{Fs, Dinode, t_dir}
use xv6_system_calls.Fs.Directory.{dirlink}
use xv6_system_calls.Fs.Calls.{add_link, change_inode, dot, dot_dot}
use xv6_system_calls.Fs.Create.{
  create_again, link_dots, create_new, create_entry, create_in, create,
}
use xv6_system_calls.Fs.After.{After, After-bind, After-if, Holding}
use xv6_system_calls.Fs.AfterInode.{ialloc-Holding, ilock-Holding, iunlockput-Holding}
use xv6_system_calls.Fs.AfterPath.{dirlookup-Holding, dirlink-Holding, namex-Holding}
use xv6_system_calls.Fs.Released.{change_inode-Holding, swapped, both_free}

-- With the inode that `create` returns locked besides, and nothing besides where it returns none.
abbrev pub HoldingNew : ℕ → (ℕ → Bool) → Option ℕ × Fs → Type 0
HoldingNew n held (none, fs) = Holding n held fs
HoldingNew n held (some ip, fs) = (held ip ≡ false) × Holding n (update held ip true) fs

module _ (n : ℕ) (held : ℕ → Bool) where
  create_again-Holding :
      (kind ip : ℕ) (fs : Fs)
      → Holding n held fs
      → After (HoldingNew n held) (create_again kind ip fs)
  unfolding create_again
  create_again-Holding kind ip fs h = After-bind (ilock-Holding n held ip fs h) (λ fs1 (free, h1).
      After-if _ (After.returns (some ip, fs1) (free, h1)) (
        After-bind (iunlockput-Holding n held ip fs1 free h1)
          (λ fs2 h2. After.returns (none, fs2) h2)))

  link_dots-Holding :
      (dp ip : ℕ) (fs : Fs) → Holding n held fs → After (Holding n held) (link_dots dp ip fs)
  unfolding link_dots
  link_dots-Holding dp ip fs h =
      After-bind (dirlink-Holding n held ip dot _ _ (change_inode-Holding n held dp add_link fs h))
        (λ r h1.
          let next : After (λ (x : Bool × Fs). Holding n held x.1)
              (if r.0 then dirlink ip dot_dot (r.1.inode dp).inum r.1 else ok (false, r.1)) =
            After-if r.0 (dirlink-Holding n held ip dot_dot _ r.1 h1)
              (After.returns (false, r.1) h1) in
          After-bind next (λ r' h2. After-if r'.0 (After.returns r'.1 h2) (After.panics _)))

  maybe_dots-Holding :
      (b : Bool) (dp ip : ℕ) (fs : Fs)
      → Holding n held fs
      → After (Holding n held) (if b then link_dots dp ip fs else ok fs)
  maybe_dots-Holding b dp ip fs h = After-if b (link_dots-Holding dp ip fs h) (After.returns fs h)

module _ (n : ℕ) (held : ℕ → Bool) where
  create_new-Holding :
      (dp : ℕ) (name : ℕ → ℕ) (kind major minor : ℕ) (fs : Fs)
      → held dp ≡ false
      → Holding n (update held dp true) fs
      → After (HoldingNew n held) (create_new dp name kind major minor fs)
  unfolding create_new
  create_new-Holding dp name kind major minor fs free h =
      let with_dp : ℕ → Bool = update held dp true in
      After-bind (ialloc-Holding n with_dp _ kind fs h) (λ r h1.
        let ip : ℕ = r.0 in
        After-bind (ilock-Holding n with_dp ip r.1 h1) (λ fs2 (free', h2).
          let both = both_free n held dp ip free free' in
          let with_both : ℕ → Bool = update with_dp ip true in
          let number : Dinode → Dinode =
            λ (d : Dinode). record d { major = major; minor = minor; nlink = 1 } in
          let fs3 : Fs = change_inode ip number fs2 in
          let h3 = change_inode-Holding n with_both ip number fs2 h2 in
          After-bind (maybe_dots-Holding n with_both (kind == t_dir) dp ip fs3 h3) (λ fs4 h4.
            After-bind (dirlink-Holding n with_both dp name (fs4.inode ip).inum fs4 h4) (λ r' h5.
              After-if r'.0
                (After-bind
                  (iunlockput-Holding n (update held ip true) dp r'.1 both.1
                    (swapped n held n dp ip r'.1 h5))
                  (λ fs6 h6. After.returns (some ip, fs6) (both.0, h6)))
                (After.panics _)))))

  create_entry-Holding :
      (dp : ℕ) (name : ℕ → ℕ) (kind major minor : ℕ) (r : Option (ℕ × ℕ) × Fs)
      → held dp ≡ false
      → Holding n (update held dp true) r.1
      → After (HoldingNew n held) (create_entry dp name kind major minor r)
  unfolding create_entry
  create_entry-Holding dp name kind major minor (none, fs) free h =
      create_new-Holding dp name kind major minor fs free h
  create_entry-Holding dp name kind major minor (some (off, ip), fs) free h =
      After-bind (iunlockput-Holding n held dp fs free h)
        (λ fs1 h1. create_again-Holding n held kind ip fs1 h1)

  create_in-Holding :
      (kind major minor : ℕ) (r : Option ℕ × (ℕ → ℕ) × Fs)
      → Holding n held r.2
      → After (HoldingNew n held) (create_in kind major minor r)
  unfolding create_in
  create_in-Holding kind major minor (none, name, fs) h = After.returns (none, fs) h
  create_in-Holding kind major minor (some dp, name, fs) h =
      After-bind (ilock-Holding n held dp fs h) (λ fs1 (free, h1).
        After-bind (dirlookup-Holding n (update held dp true) dp name fs1 h1)
          (λ r h2. create_entry-Holding dp name kind major minor r free h2))

  -- `create` returns with the lock of its inode.
  pub create-Holding :
      (cwd : ℕ) (path : List ℕ) (kind major minor : ℕ) (stale : ℕ → ℕ) (fs : Fs)
      → Holding n held fs
      → After (HoldingNew n held) (create cwd path kind major minor stale fs)
  unfolding create
  create-Holding cwd path kind major minor stale fs h =
      After-bind (namex-Holding n held cwd path true stale fs h)
        (λ r h1. create_in-Holding kind major minor r h1)
