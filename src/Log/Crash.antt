-- ===== src/Log/Crash.antt =====
-- A commit is atomic: a crash between any two of its disk writes, and then recovery, leaves all
-- of the transaction on the disk or nothing of it.
use xv6_system_calls.Prelude.{
  ℕ, zero, suc, ◌+◌, ◌≤◌, ◌<◌, ◌≡◌, ◌≢◌, refl, ap, sym, ◌∙◌, ◌⊎◌, inl, inr, Bool, true, false, ◌||◌,
  List, [], ◌∷◌, ◌++◌, arith, ◌==◌, if◌then◌else◌, Bool-cases, eq→==, ==→eq,
}
use xv6_system_calls.Log.{Header, Disk, Write, write, write_all, write_log, install_trans}

-- The disks that a crash may leave of a sequence of writes.
pub data CrashAt {B : Type 0} : List (Write B) → Disk B → Disk B → Type 0 where
  here : {ws : List (Write B)} {d : Disk B} → CrashAt ws d d
  later :
      {w : Write B} {ws : List (Write B)} {d d' : Disk B}
      → CrashAt ws (write w d) d'
      → CrashAt (w ∷ ws) d d'

-- The block `bn` is one of `n` in the header from `tail` on.
unfoldable pub logged_in : Header → ℕ → ℕ → ℕ → Bool
logged_in lh zero tail bn = false
logged_in lh (suc n) tail bn = (bn == lh.block tail) || logged_in lh n (tail + 1) bn

-- The home blocks with the transaction: its blocks from the cache, the others as they were.
abbrev pub with_transaction : {B : Type 0} → (ℕ → B) → Header → (ℕ → B) → ℕ → B
with_transaction cache lh home bn = if logged_in lh lh.n 0 bn then cache bn else home bn

pub logged_in-block :
    (lh : Header) (n tail i : ℕ) → tail ≤ i → i < tail + n → logged_in lh n tail (lh.block i) ≡ true
unfolding logged_in
logged_in-block lh zero tail i lo hi = absurd (omega arith)
logged_in-block lh (suc n) tail i lo hi = elim (Bool-cases (i == tail)) [
  | inl e ↦ let same = ==→eq i tail e in rw (same, eq→== (lh.block tail) (lh.block tail) refl) refl
  | inr e ↦
      let other : i ≢ tail = ground arith in
      ground (arith, logged_in-block lh n (tail + 1) i (omega arith) (omega arith))
]

pub logged_in-same :
    (lh lh' : Header) (n tail bn : ℕ)
    → ((i : ℕ) → i < tail + n → lh.block i ≡ lh'.block i)
    → logged_in lh n tail bn ≡ logged_in lh' n tail bn
unfolding logged_in
logged_in-same lh lh' zero tail bn same = refl
logged_in-same lh lh' (suc n) tail bn same =
    rw
      (
        same tail (omega arith),
        logged_in-same lh lh' n (tail + 1) bn (λ i lt. same i (omega arith)),
      )
      refl

module _ {B : Type 0} where
  pub crash-append :
      (ws rest : List (Write B)) (d d' : Disk B)
      → CrashAt (ws ++ rest) d d'
      → CrashAt ws d d' ⊎ CrashAt rest (write_all ws d) d'
  unfolding write_all
  crash-append [] rest d d' c = inr c
  crash-append (w ∷ ws) rest d d' CrashAt.here = inl CrashAt.here
  crash-append (w ∷ ws) rest d d' (CrashAt.later c) = elim (crash-append ws rest (write w d) d' c) [
    | inl before ↦ inl (CrashAt.later before)
    | inr after ↦ inr after
  ]

  -- What an installation leaves in the home blocks.
  pub install_trans-home :
      (cache logged : ℕ → B) (lh : Header) (n tail : ℕ) (d : Disk B) (bn : ℕ)
      → ((i : ℕ) → tail ≤ i → i < tail + n → logged i ≡ cache (lh.block i))
      → (write_all (install_trans logged lh n tail) d).home bn
        ≡ (if logged_in lh n tail bn then cache bn else d.home bn)
  unfolding install_trans write_all logged_in
  install_trans-home cache logged lh zero tail d bn same = refl
  install_trans-home cache logged lh (suc n) tail d bn same =
      install_trans-home cache logged lh n (tail + 1)
        (write (Write.to_home (lh.block tail) (logged tail)) d) bn
        (λ i lo hi. same i (omega arith) (omega arith))
      ∙ elim (Bool-cases (bn == lh.block tail)) [
        | inl e ↦
            let it : bn ≡ lh.block tail = ==→eq bn (lh.block tail) e in
            let data_of : logged tail ≡ cache bn =
              same tail (omega arith) (omega arith) ∙ ap cache (sym it) in
            elim (Bool-cases (logged_in lh n (tail + 1) bn)) [
              | inl m ↦ rw (m, e) refl
              | inr m ↦ rw (m, e) data_of
            ]
        | inr e ↦ rw e refl
      ]

  pub install_trans-rest :
      (logged : ℕ → B) (lh : Header) (n tail : ℕ) (d : Disk B)
      → ((write_all (install_trans logged lh n tail) d).log ≡ d.log)
        × ((write_all (install_trans logged lh n tail) d).head ≡ d.head)
  unfolding install_trans write_all
  install_trans-rest logged lh zero tail d = (refl, refl)
  install_trans-rest logged lh (suc n) tail d =
      install_trans-rest logged lh n (tail + 1)
        (write (Write.to_home (lh.block tail) (logged tail)) d)

  pub write_log-log :
      (cache : ℕ → B) (lh : Header) (n tail : ℕ) (d : Disk B)
      → ((i : ℕ) → i < tail → d.log i ≡ cache (lh.block i))
      → ((i : ℕ)
          → i < tail + n
          → (write_all (write_log cache lh n tail) d).log i ≡ cache (lh.block i))
        × ((write_all (write_log cache lh n tail) d).home ≡ d.home)
        × ((write_all (write_log cache lh n tail) d).head ≡ d.head)
  unfolding write_log write_all
  write_log-log cache lh zero tail d done = (λ i lt. done i (omega arith), refl, refl)
  write_log-log cache lh (suc n) tail d done =
      let (all, home, head) =
        write_log-log cache lh n (tail + 1) (write (Write.to_log tail (cache (lh.block tail))) d)
          (λ i lt. elim (Bool-cases (i == tail)) [
            | inl e ↦ rw (e, ==→eq i tail e) refl
            | inr e ↦ let before : i < tail = ground arith in rw e (done i before)
          ]) in
      (λ i lt. all i (omega arith), home, head)

  -- One list of writes after another.
  pub write_all-append :
      (ws rest : List (Write B)) (d : Disk B)
      → write_all (ws ++ rest) d ≡ write_all rest (write_all ws d)
  unfolding write_all
  write_all-append [] rest d = refl
  write_all-append (w ∷ ws) rest d = write_all-append ws rest (write w d)

  pub crash-last :
      (w : Write B) (d d' : Disk B) → CrashAt (w ∷ []) d d' → (d' ≡ d) ⊎ (d' ≡ write w d)
  crash-last w d d' CrashAt.here = inl refl
  crash-last w d d' (CrashAt.later CrashAt.here) = inr refl

  pub crash-cons :
      (w : Write B) (ws : List (Write B)) (d d' : Disk B)
      → CrashAt (w ∷ ws) d d'
      → (d' ≡ d) ⊎ CrashAt ws (write w d) d'
  crash-cons w ws d d' CrashAt.here = inl refl
  crash-cons w ws d d' (CrashAt.later c) = inr c

  pub crash-nil : (d d' : Disk B) → CrashAt [] d d' → d' ≡ d
  crash-nil d d' CrashAt.here = refl

  -- No crash at all.
  pub crash-write_all : (ws : List (Write B)) (d : Disk B) → CrashAt ws d (write_all ws d)
  unfolding write_all
  crash-write_all [] d = CrashAt.here
  crash-write_all (w ∷ ws) d = CrashAt.later (crash-write_all ws (write w d))
