-- ===== src/Fs/Unique.antt =====
-- The inode cache holds an inode in one entry at most, and `iget` keeps it so.
use xv6_system_calls.Prelude.{
  ℕ, ◌+◌, ◌<◌, ◌≡◌, ◌≢◌, refl, sym, ap, ◌∙◌, inl, inr, Bool, true, false, ◌&&◌, ◌==◌, ltb,
  Bool-cases, Option-cases, eq→==, ==→eq, arith, first, first-some, first-none, update, update_at,
  update_elsewhere, ok, ok-pair,
}
use xv6_system_calls.Fs.{Fs, CachedInode, ninode}
use xv6_system_calls.Fs.Inode.{set_inode, iget, iget_empty}

-- The entry holds the inode `inum` of the device `dev`.
pub record Holds (fs : Fs) (e dev inum : ℕ) : Type 0 where
  pub inside : e < ninode
  pub referred : 0 < (fs.inode e).ref
  pub of_dev : (fs.inode e).dev ≡ dev
  pub of_inum : (fs.inode e).inum ≡ inum

abbrev pub IsIcache : Fs → Type 0
IsIcache fs = (a b dev inum : ℕ) → Holds fs a dev inum → Holds fs b dev inum → a ≡ b

abbrev holds : Fs → ℕ → ℕ → ℕ → Bool
holds fs dev inum e =
    ltb 0 (fs.inode e).ref && ((fs.inode e).dev == dev) && ((fs.inode e).inum == inum)

found-Holds :
    (fs : Fs) (dev inum e : ℕ) → e < ninode → holds fs dev inum e ≡ true → Holds fs e dev inum
found-Holds fs dev inum e lt h = record {
  inside = lt;
  referred = ground arith;
  of_dev = ground arith;
  of_inum = ground arith;
}

Holds-holds : (fs : Fs) (dev inum e : ℕ) → Holds fs e dev inum → holds fs dev inum e ≡ true
Holds-holds fs dev inum e h =
    rw (h.of_dev, h.of_inum, eq→== dev dev refl, eq→== inum inum refl) (ground (arith, h.referred))

-- An entry that is put in place of another.
module _ (fs : Fs) (e : ℕ) (c : CachedInode) where
  Holds-elsewhere :
      (x dev inum : ℕ) → x ≢ e → Holds (set_inode e c fs) x dev inum → Holds fs x dev inum
  Holds-elsewhere x dev inum ne h =
      let same : update fs.inode e c x ≡ fs.inode x = update_elsewhere fs.inode e x c ne in
      record {
        inside = h.inside;
        referred = rw same at h.referred;
        of_dev = rw same at h.of_dev;
        of_inum = rw same at h.of_inum;
      }

  Holds-there :
      (dev inum : ℕ) → Holds (set_inode e c fs) e dev inum → (c.dev ≡ dev) × (c.inum ≡ inum)
  Holds-there dev inum h =
      let same : update fs.inode e c e ≡ c = update_at fs.inode e c in
      (rw same at h.of_dev, rw same at h.of_inum)

  set_inode-Holds :
      (dev inum : ℕ)
      → e < ninode
      → 0 < c.ref
      → c.dev ≡ dev
      → c.inum ≡ inum
      → Holds (set_inode e c fs) e dev inum
  set_inode-Holds dev inum lt some_ref on_dev with_inum =
      let same : update fs.inode e c e ≡ c = update_at fs.inode e c in
      record {
        inside = lt;
        referred = rw same some_ref;
        of_dev = ap (λ (d : CachedInode). d.dev) same ∙ on_dev;
        of_inum = ap (λ (d : CachedInode). d.inum) same ∙ with_inum;
      }

  set_inode-IsIcache :
      IsIcache fs
      → ((x : ℕ) → x ≢ e → Holds fs x c.dev c.inum → x ≡ e)
      → IsIcache (set_inode e c fs)
  set_inode-IsIcache is alone a b dev inum ha hb = elim (Bool-cases (a == e)) [
    | inl ea ↦ elim (Bool-cases (b == e)) [
      | inl eb ↦ ==→eq a e ea ∙ sym (==→eq b e eb)
      | inr nb ↦
          let other : b ≢ e = ground arith in
          let at : a ≡ e = ==→eq a e ea in
          let (d, n) = Holds-there dev inum (rw at at ha) in
          at ∙ sym (alone b other (rw (← d, ← n) at (Holds-elsewhere b dev inum other hb)))
    ]
    | inr na ↦
        let other : a ≢ e = ground arith in
        let old = Holds-elsewhere a dev inum other ha in
        elim (Bool-cases (b == e)) [
          | inl eb ↦
              let at : b ≡ e = ==→eq b e eb in
              let (d, n) = Holds-there dev inum (rw at at hb) in
              alone a other (rw (← d, ← n) at old) ∙ sym at
          | inr nb ↦
              let other' : b ≢ e = ground arith in
              is a b dev inum old (Holds-elsewhere b dev inum other' hb)
        ]
  ]

-- If no inode has two entries in the inode cache, then so it is after `iget`, and the entry that
-- it returns holds the inode that it was asked for.
pub iget-IsIcache :
    (dev inum e : ℕ) (fs fs' : Fs)
    → IsIcache fs
    → iget dev inum fs ≡ ok (e, fs')
    → IsIcache fs' × Holds fs' e dev inum
unfolding iget iget_empty
iget-IsIcache dev inum e fs fs' is run = elim (Option-cases (first (holds fs dev inum) ninode)) [
  | inr (x, found) ↦
      let (lt, it_holds) = first-some (holds fs dev inum) ninode x found in
      let old = found-Holds fs dev inum x lt it_holds in
      let new : CachedInode = record (fs.inode x) { ref = (fs.inode x).ref + 1 } in
      let (number, end) = ok-pair (rw (found, iget) at run) in
      let is_new = set_inode-IsIcache fs x new is (λ y ne h.
        is y x new.dev new.inum h
          (record { inside = lt; referred = old.referred; of_dev = refl; of_inum = refl })) in
      rw (← end, ← number)
        (is_new, set_inode-Holds fs x new dev inum lt (omega arith) old.of_dev old.of_inum)
  | inl gone ↦ elim (Option-cases (first (λ x. (fs.inode x).ref == 0) ninode)) [
    | inl full ↦ absurd (ground arith)
    | inr (x, free) ↦
        let (lt, unused) = first-some (λ y. (fs.inode y).ref == 0) ninode x free in
        let new : CachedInode = record (fs.inode x) {
          dev = dev;
          inum = inum;
          ref = 1;
          valid = false;
        } in
        let (number, end) = ok-pair (rw (gone, iget, free) at run) in
        let is_new = set_inode-IsIcache fs x new is (λ y ne h.
          cc
            (first-none (holds fs dev inum) ninode y gone h.inside, Holds-holds fs dev inum y h)) in
        rw (← end, ← number) (is_new, set_inode-Holds fs x new dev inum lt (omega arith) refl refl)
  ]
]
