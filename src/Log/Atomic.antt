-- ===== src/Log/Atomic.antt =====
-- The stages of the disk in a commit and in the recoveries after crashes.
use xv6_system_calls.Prelude.{
  ℕ, zero, suc, ◌+◌, ◌<◌, ◌≡◌, refl, ap, sym, ◌∙◌, ◌⊎◌, inl, inr, true, false, [], ◌∷◌, ◌++◌, arith,
  ◌==◌, ltb, if◌then◌else◌, Bool-cases, ==→eq, lt→ltb,
}
use xv6_system_calls.Log.{
  Header, Disk, Write, write, write_all, write_log, install_trans, commit, read_head,
  recover_from_log,
}
use xv6_system_calls.Log.Crash.{
  CrashAt, logged_in, logged_in-block, logged_in-same, with_transaction, crash-append,
  install_trans-home, write_log-log, crash-last, write_all-append, crash-cons, crash-nil,
  crash-write_all,
}

-- The log is empty, and the home blocks are these.
pub record IsClean {B : Type 0} (home : ℕ → B) (d : Disk B) : Type 0 where
  pub empty : d.head.n ≡ 0
  pub homes : (bn : ℕ) → d.home bn ≡ home bn

-- The header names the transaction, the log has its blocks, and the other home blocks are these.
pub record IsCommitted {B : Type 0} (cache : ℕ → B) (lh : Header) (home : ℕ → B) (d : Disk B)
    : Type 0 where
  pub named : d.head.n ≡ lh.n
  pub blocks : (i : ℕ) → i < lh.n → d.head.block i ≡ lh.block i
  pub logged : (i : ℕ) → i < lh.n → d.log i ≡ cache (lh.block i)
  pub others : (bn : ℕ) → logged_in lh lh.n 0 bn ≡ false → d.home bn ≡ home bn

-- Some crashes, each in the recovery from the one before.
pub data Restarts {B : Type 0} : Disk B → Disk B → Type 0 where
  running : {d : Disk B} → Restarts d d
  crashed :
      (lh : Header) {d d' d'' : Disk B}
      → CrashAt (recover_from_log lh d) d d'
      → Restarts d' d''
      → Restarts d d''

module _ {B : Type 0} (home : ℕ → B) where
  log-IsClean :
      (cache : ℕ → B) (lh : Header) (n tail : ℕ) (d d' : Disk B)
      → CrashAt (write_log cache lh n tail) d d'
      → IsClean home d
      → IsClean home d'
  unfolding write_log
  log-IsClean cache lh zero tail d d' CrashAt.here is = is
  log-IsClean cache lh (suc n) tail d d' CrashAt.here is = is
  log-IsClean cache lh (suc n) tail d d' (CrashAt.later c) is =
      log-IsClean cache lh n (tail + 1) (write (Write.to_log tail (cache (lh.block tail))) d) d' c
        (record { empty = is.empty; homes = is.homes })

  recover-IsClean :
      (lh : Header) (d d' : Disk B)
      → CrashAt (recover_from_log lh d) d d'
      → IsClean home d
      → IsClean home d'
  unfolding recover_from_log install_trans
  recover-IsClean lh d d' c is =
      let from : Header = read_head lh d in
      let zeroed = Write.to_head (record from { n = 0 }) in
      let nothing : install_trans d.log from d.head.n 0 ≡ [] =
        ap (λ n. install_trans d.log from n 0) is.empty in
      elim (crash-last zeroed d d' (rw nothing at c)) [
        | inl same ↦ rw same is
        | inr same ↦ rw same (record { empty = refl; homes = is.homes })
      ]

module _ {B : Type 0} (cache : ℕ → B) (lh : Header) (home : ℕ → B) where
  install-IsCommitted :
      (logged : ℕ → B) (from : Header) (n tail : ℕ) (d d' : Disk B)
      → CrashAt (install_trans logged from n tail) d d'
      → ((i : ℕ) → i < tail + n → logged_in lh lh.n 0 (from.block i) ≡ true)
      → IsCommitted cache lh home d
      → IsCommitted cache lh home d'
  unfolding install_trans
  install-IsCommitted logged from zero tail d d' CrashAt.here inside is = is
  install-IsCommitted logged from (suc n) tail d d' CrashAt.here inside is = is
  install-IsCommitted logged from (suc n) tail d d' (CrashAt.later c) inside is =
      install-IsCommitted logged from n (tail + 1)
        (write (Write.to_home (from.block tail) (logged tail)) d) d' c
        (λ i lt. inside i (omega arith))
        (record {
          named = is.named;
          blocks = is.blocks;
          logged = is.logged;
          others = λ bn out. elim (Bool-cases (bn == from.block tail)) [
            | inl e ↦
                let it : bn ≡ from.block tail = ==→eq bn (from.block tail) e in
                let is_logged : logged_in lh lh.n 0 bn ≡ true =
                  ap (logged_in lh lh.n 0) it ∙ inside tail (omega arith) in
                absurd (cc)
            | inr e ↦ rw e (is.others bn out)
          ];
        })

  -- After a whole installation, from the log of a committed disk.
  installed-homes :
      (from : Header) (d : Disk B) (bn : ℕ)
      → ((i : ℕ) → i < lh.n → from.block i ≡ lh.block i)
      → IsCommitted cache lh home d
      → (write_all (install_trans d.log from lh.n 0) d).home bn ≡ with_transaction cache lh home bn
  installed-homes from d bn same is =
      install_trans-home cache d.log from lh.n 0 d bn
        (λ i lo hi. is.logged i (omega arith) ∙ ap cache (sym (same i (omega arith))))
      ∙ rw (logged_in-same from lh lh.n 0 bn (λ i lt. same i (omega arith)))
          (elim (Bool-cases (logged_in lh lh.n 0 bn)) [
            | inl e ↦ rw e refl
            | inr e ↦ rw e (is.others bn e)
          ])

  -- Where a disk may stand, in a commit and after crashes.
  abbrev Stage : Disk B → Type 0
  Stage d =
      IsClean home d ⊎ IsCommitted cache lh home d ⊎ IsClean (with_transaction cache lh home) d

  -- Around the write that empties the log, with all blocks installed.
  emptied-Stage :
      (from : Header) (d d' : Disk B)
      → ((bn : ℕ) → d.home bn ≡ with_transaction cache lh home bn)
      → IsCommitted cache lh home d
      → CrashAt (Write.to_head (record from { n = 0 }) ∷ []) d d'
      → Stage d'
  emptied-Stage from d d' homes is c =
      elim (crash-last (Write.to_head (record from { n = 0 })) d d' c) [
        | inl same ↦ inr (inl (rw same is))
        | inr same ↦ inr (inr (rw same (record { empty = refl; homes = homes })))
      ]

  -- An installation from a header that names the transaction's blocks, and then that write.
  install-Stage :
      (from : Header) (d d' : Disk B)
      → from.n ≡ lh.n
      → ((i : ℕ) → i < lh.n → from.block i ≡ lh.block i)
      → IsCommitted cache lh home d
      → CrashAt
          (install_trans d.log from from.n 0 ++ Write.to_head (record from { n = 0 }) ∷ [])
          d
          d'
      → Stage d'
  install-Stage from d d' count same is c =
      let install = install_trans d.log from from.n 0 in
      let inside : ((i : ℕ) → i < from.n → logged_in lh lh.n 0 (from.block i) ≡ true) = λ i lt.
        ap (logged_in lh lh.n 0) (same i (omega arith))
        ∙ logged_in-block lh lh.n 0 i (omega arith) (omega arith) in
      let homes : ((bn : ℕ) → (write_all install d).home bn ≡ with_transaction cache lh home bn) =
        λ bn.
          ap (λ n. (write_all (install_trans d.log from n 0) d).home bn) count
          ∙ installed-homes from d bn same is in
      elim (crash-append install (Write.to_head (record from { n = 0 }) ∷ []) d d' c) [
        | inl early ↦ inr (
            inl (
              install-IsCommitted d.log from from.n 0 d d' early (λ i lt. inside i (omega arith))
                is))
        | inr late ↦
            emptied-Stage from (write_all install d) d' homes
              (install-IsCommitted d.log from from.n 0 d (write_all install d)
                (crash-write_all install d) (λ i lt. inside i (omega arith)) is)
              late
      ]

  recover-Stage :
      (lh0 : Header) (d d' : Disk B) → CrashAt (recover_from_log lh0 d) d d' → Stage d → Stage d'
  unfolding recover_from_log
  recover-Stage lh0 d d' c (inl clean) = inl (recover-IsClean home lh0 d d' c clean)
  recover-Stage lh0 d d' c (inr (inr clean)) =
      inr (inr (recover-IsClean (with_transaction cache lh home) lh0 d d' c clean))
  recover-Stage lh0 d d' c (inr (inl is)) =
      install-Stage (read_head lh0 d) d d' is.named
        (λ i lt. rw (lt→ltb i d.head.n (omega (arith, is.named))) (is.blocks i lt)) is c

  commit-Stage : (d d' : Disk B) → IsClean home d → CrashAt (commit cache lh d) d d' → Stage d'
  unfolding commit
  commit-Stage d d' clean c = elim (Bool-cases (ltb 0 lh.n)) [
    | inr none ↦ inl (rw (crash-nil d d' (rw none at c)) clean)
    | inl some_blocks ↦
        let logging = write_log cache lh lh.n 0 in
        let d1 : Disk B = write_all logging d in
        let (logged, homes, head) =
          write_log-log cache lh lh.n 0 d (λ i lt. absurd (omega arith)) in
        let last = install_trans d1.log lh lh.n 0 ++ Write.to_head (record lh { n = 0 }) ∷ [] in
        elim (crash-append logging (Write.to_head lh ∷ last) d d' (rw some_blocks at c)) [
          | inl early ↦ inl (log-IsClean home cache lh lh.n 0 d d' early clean)
          | inr c1 ↦ elim (crash-cons (Write.to_head lh) last d1 d' c1) [
            | inl same ↦
                inl (
                  log-IsClean home cache lh lh.n 0 d d' (rw same (crash-write_all logging d)) clean)
            | inr c2 ↦
                install-Stage lh (write (Write.to_head lh) d1) d' refl (λ i lt. refl)
                  (record {
                    named = refl;
                    blocks = λ i lt. rw (lt→ltb i lh.n lt) refl;
                    logged = λ i lt. logged i (omega arith);
                    others = λ bn out. ap (λ (u : ℕ → B). u bn) homes ∙ clean.homes bn;
                  })
                  c2
          ]
        ]
  ]

  Restarts-Stage : (d d' : Disk B) → Restarts d d' → Stage d → Stage d'
  Restarts-Stage d d' Restarts.running is = is
  Restarts-Stage d d' (Restarts.crashed lh0 {d' = e} c rest) is =
      Restarts-Stage e d' rest (recover-Stage lh0 d e c is)

  -- A whole recovery, from each stage.
  recovered-Stage :
      (lh0 : Header) (d : Disk B)
      → Stage d
      → ((bn : ℕ) → (write_all (recover_from_log lh0 d) d).home bn ≡ home bn)
        ⊎ ((bn : ℕ)
            → (write_all (recover_from_log lh0 d) d).home bn ≡ with_transaction cache lh home bn)
  unfolding recover_from_log install_trans write_all
  recovered-Stage lh0 d (inl clean) = inl (λ bn. rw clean.empty (clean.homes bn))
  recovered-Stage lh0 d (inr (inr clean)) = inr (λ bn. rw clean.empty (clean.homes bn))
  recovered-Stage lh0 d (inr (inl is)) = inr (λ bn.
      let from : Header = read_head lh0 d in
      let same : ((i : ℕ) → i < lh.n → from.block i ≡ lh.block i) =
        λ i lt. rw (lt→ltb i d.head.n (omega (arith, is.named))) (is.blocks i lt) in
      let install = install_trans d.log from d.head.n 0 in
      ap (λ (u : Disk B). u.home bn)
        (write_all-append install (Write.to_head (record from { n = 0 }) ∷ []) d)
      ∙ ap (λ n. (write_all (install_trans d.log from n 0) d).home bn) is.named
      ∙ installed-homes from d bn same is)

module _ {B : Type 0} (cache : ℕ → B) (lh : Header) where
  -- A commit on a disk with an empty log is atomic: if the machine crashes between any two of its
  -- disk writes, and then any number of times in a recovery, the next recovery leaves the home
  -- blocks as they were before the commit, or leaves them with the whole transaction.
  pub recover_from_log-commit :
      (lh0 : Header) (d d' d'' : Disk B)
      → d.head.n ≡ 0
      → CrashAt (commit cache lh d) d d'
      → Restarts d' d''
      → ((bn : ℕ) → (write_all (recover_from_log lh0 d'') d'').home bn ≡ d.home bn)
        ⊎ ((bn : ℕ)
            → (write_all (recover_from_log lh0 d'') d'').home bn
              ≡ with_transaction cache lh d.home bn)
  recover_from_log-commit lh0 d d' d'' empty c rest = recovered-Stage cache lh d.home lh0 d'' (
      Restarts-Stage cache lh d.home d' d'' rest
        (commit-Stage cache lh d.home d d' (record { empty = empty; homes = λ bn. refl }) c))

  -- A commit on a disk with an empty log that does not crash puts each block of the transaction in
  -- its home place, leaves every other home block as it was, and empties the log.
  pub write_all-commit :
      (d : Disk B) (bn : ℕ)
      → d.head.n ≡ 0
      → ((write_all (commit cache lh d) d).home bn ≡ with_transaction cache lh d.home bn)
        × ((write_all (commit cache lh d) d).head.n ≡ 0)
  unfolding commit write_all logged_in
  write_all-commit d bn empty = elim (Bool-cases (ltb 0 lh.n)) [
    | inr none ↦ let no_blocks : lh.n ≡ 0 = ground arith in rw (none, no_blocks) (refl, empty)
    | inl some_blocks ↦
        let logging = write_log cache lh lh.n 0 in
        let d1 : Disk B = write_all logging d in
        let (logged, homes, head) =
          write_log-log cache lh lh.n 0 d (λ i lt. absurd (omega arith)) in
        let zeroed : Write B = Write.to_head (record lh { n = 0 }) in
        let install = install_trans d1.log lh lh.n 0 in
        let d2 : Disk B = write (Write.to_head lh) d1 in
        let steps : write_all (logging ++ Write.to_head lh ∷ (install ++ zeroed ∷ [])) d
            ≡ write zeroed (write_all install d2) =
          write_all-append logging (Write.to_head lh ∷ (install ++ zeroed ∷ [])) d
          ∙ write_all-append install (zeroed ∷ []) d2 in
        rw (some_blocks, steps)
          (
            install_trans-home cache d1.log lh lh.n 0 d2 bn (λ i lo hi. logged i hi)
                ∙ ap (λ (u : ℕ → B). if logged_in lh lh.n 0 bn then cache bn else u bn) homes,
            refl,
          )
  ]
