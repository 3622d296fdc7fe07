-- ===== src/Fs/After.antt =====
-- What holds after a run of the file system that returns, composed as the runs are: for the locks
-- of the inodes and the count of operations.
use xv6_system_calls.Prelude.{
  ℕ, ◌≡◌, refl, sym, ap, ◌∙◌, inl, inr, Bool, true, false, Option, none, some, ◌==◌, if◌then◌else◌,
  Bool-cases, ==→eq, update, Outcome, ok, ok-injective, String, panic, ◌>>=◌,
}
use xv6_system_calls.Fs.{Fs, CachedInode}
use xv6_system_calls.Fs.Inode.{set_inode}

-- If the run returns, its result has the property.
pub data After {A : Type 0} (P : A → Type 0) : Outcome A → Type 0 where
  returns : (a : A) → P a → After P (ok a)
  panics : (s : String) → After P (panic s)

pub After-bind :
    {A B : Type 0} {P : A → Type 0} {Q : B → Type 0} {m : Outcome A} {next : A → Outcome B}
    → After P m
    → ((a : A) → P a → After Q (next a))
    → After Q (m >>= next)
After-bind (After.returns a p) rest = rest a p
After-bind (After.panics s) rest = After.panics s

pub After-map :
    {A : Type 0} {P Q : A → Type 0} {m : Outcome A} → After P m → ((a : A) → P a → Q a) → After Q m
After-map (After.returns a p) f = After.returns a (f a p)
After-map (After.panics s) f = After.panics s

pub After-if :
    {A : Type 0} {P : A → Type 0} {x y : Outcome A} (b : Bool)
    → After P x
    → After P y
    → After P (if b then x else y)
After-if true px py = px
After-if false px py = py

pub After-option :
    {A B : Type 0} {P : B → Type 0} {x : Outcome B} {f : A → Outcome B} (o : Option A)
    → After P x
    → ((a : A) → After P (f a))
    → After P (elim o [ none ↦ x | some a ↦ f a ])
After-option none px pf = px
After-option (some a) px pf = pf a

pub After-ok : {A : Type 0} {P : A → Type 0} {m : Outcome A} {a : A} → After P m → m ≡ ok a → P a
After-ok {A} {P} (After.returns b p) e = rw (← ok-injective e) p
After-ok (After.panics s) e = cc

-- The number of operations, and which inodes are locked.
abbrev pub Holding : ℕ → (ℕ → Bool) → Fs → Type 0
Holding n held fs = (fs.ops ≡ n) × ((x : ℕ) → (fs.inode x).locked ≡ held x)

module _ (n : ℕ) (held : ℕ → Bool) where
  pub set_inode-Holding :
      (i : ℕ) (c : CachedInode) (fs : Fs)
      → c.locked ≡ (fs.inode i).locked
      → Holding n held fs
      → Holding n held (set_inode i c fs)
  set_inode-Holding i c fs same (ops, locks) = (
    ops,
    λ x. elim (Bool-cases (x == i)) [
      | inl e ↦ rw e (same ∙ ap (λ (j : ℕ). (fs.inode j).locked) (sym (==→eq x i e)) ∙ locks x)
      | inr e ↦ rw e (locks x)
    ],
  )

  pub set_lock-Holding :
      (i : ℕ) (b : Bool) (fs : Fs)
      → Holding n held fs
      → Holding n (update held i b) (set_inode i (record (fs.inode i) { locked = b }) fs)
  set_lock-Holding i b fs (ops, locks) =
      (ops, λ x. elim (Bool-cases (x == i)) [ inl e ↦ rw e refl | inr e ↦ rw e (locks x) ])

  -- A lock that was free is given back.
  pub Holding-back :
      (i : ℕ) (fs : Fs)
      → held i ≡ false
      → Holding n (update (update held i true) i false) fs
      → Holding n held fs
  Holding-back i fs free (ops, locks) = (
    ops,
    λ x. elim (Bool-cases (x == i)) [
      | inl e ↦ rw e at (locks x) ∙ sym (ap held (==→eq x i e) ∙ free)
      | inr e ↦ rw e at (locks x)
    ],
  )
