-- ===== src/Fs/Stored.antt =====
-- What an operation on a locked inode changes: its file, and the state around it.
use mathlib.Core.Path.{subst}
use xv6_system_calls.Prelude.{
  ℕ, ◌+◌, ◌-◌, ◌*◌, ◌≤◌, ◌<◌, ◌≡◌, ◌≢◌, refl, sym, ap, ◌∙◌, inl, inr, Bool, true, false, not, ◌&&◌,
  List, ltb, leb, if◌then◌else◌, Bool-cases, arith, length, take, drop, update_at, update_elsewhere,
  ◌||◌, ok, ok-injective,
}
use xv6_system_calls.Fs.{CachedInode, Fs, Dinode, maxfile, bsize}
use xv6_system_calls.Fs.Inode.{set_inode, ilock, iunlock, acquire_inode, read_inode}
use xv6_system_calls.Fs.Blocks.{addrs_of, byte_of}
use xv6_system_calls.Fs.Bytes.{IsFile}
use xv6_system_calls.Fs.Content.{max, nth, copy_to}
use xv6_system_calls.Fs.Copy.{copy_to-empty, take_whole, length-drop, copy_to-split}
use xv6_system_calls.Fs.Contents.{Written}
use xv6_system_calls.Fs.Calls.{begin_fs_op, end_fs_op}

-- Nothing has changed but the lock of the inode `i`, and what is counted or logged.
pub record SameData (i : ℕ) (fs fs' : Fs) : Type 0 where
  pub copy : (fs'.inode i).copy ≡ (fs.inode i).copy
  pub valid : (fs'.inode i).valid ≡ (fs.inode i).valid
  pub block : fs'.block ≡ fs.block
  pub used : fs'.used ≡ fs.used
  pub sb : fs'.sb ≡ fs.sb
  pub others : (x : ℕ) → x ≢ i → fs'.inode x ≡ fs.inode x

pub SameData-IsFile : (i : ℕ) (fs fs' : Fs) → SameData i fs fs' → IsFile fs i → IsFile fs' i
SameData-IsFile i fs fs' same is =
    let addrs : addrs_of fs' i ≡ addrs_of fs i = ap (λ (d : Dinode). d.addrs) same.copy in
    let size : (fs'.inode i).copy.size ≡ (fs.inode i).copy.size =
      ap (λ (d : Dinode). d.size) same.copy in
    record {
      mapped = rw (same.sb, same.used, addrs, same.block) is.mapped;
      fits = rw size is.fits;
      no_hole = λ bn lt. rw (addrs, same.block) (is.no_hole bn (rw size at lt));
    }

pub SameData-byte_of :
    (i : ℕ) (fs fs' : Fs) → SameData i fs fs' → (p : ℕ) → byte_of fs' i p ≡ byte_of fs i p
SameData-byte_of i fs fs' same p =
    let addrs : addrs_of fs' i ≡ addrs_of fs i = ap (λ (d : Dinode). d.addrs) same.copy in
    rw (addrs, same.block) refl

-- What `filewrite` does to the inode and to the bytes of its file.
pub record Stored (i off : ℕ) (src : List ℕ) (fs fs' : Fs) : Type 0 where
  pub is_file : IsFile fs' i
  pub size : (fs'.inode i).copy.size ≡ max (fs.inode i).copy.size (off + length src)
  pub kind : (fs'.inode i).copy.kind ≡ (fs.inode i).copy.kind
  pub valid : (fs'.inode i).valid ≡ (fs.inode i).valid
  pub bytes : (p : ℕ) → p < maxfile * bsize → byte_of fs' i p ≡ copy_to (byte_of fs i) off src p
  pub others : (x : ℕ) → x ≢ i → fs'.inode x ≡ fs.inode x

pub Written-Stored :
    (i off : ℕ) (src : List ℕ) (fs fs1 fs2 fs3 : Fs)
    → SameData i fs fs1
    → Written i off src fs1 fs2
    → SameData i fs2 fs3
    → Stored i off src fs fs3
Written-Stored i off src fs fs1 fs2 fs3 one written two =
    let size = ap (λ (d : Dinode). d.size) written.copy in
    let kind = ap (λ (d : Dinode). d.kind) written.copy in
    record {
      is_file = SameData-IsFile i fs2 fs3 two written.is_file;
      size = ap (λ (d : Dinode). d.size) two.copy ∙ size ∙ rw one.copy refl;
      kind = ap (λ (d : Dinode). d.kind) two.copy ∙ kind ∙ ap (λ (d : Dinode). d.kind) one.copy;
      valid = two.valid ∙ ap (λ (c : CachedInode). c.valid) written.cached ∙ one.valid;
      bytes = λ p low.
          SameData-byte_of i fs2 fs3 two p
          ∙ written.bytes p low
          ∙ ap (λ (c : ℕ). if leb off p && ltb p (off + length src) then nth src (p - off) else c)
              (SameData-byte_of i fs fs1 one p);
      others = λ x ne. two.others x ne ∙ written.others x ne ∙ one.others x ne;
    }

pub Stored-Stored :
    (i off m : ℕ) (src : List ℕ) (fs fs1 fs2 : Fs)
    → m ≤ length src
    → Stored i off (take m src) fs fs1
    → Stored i (off + m) (drop m src) fs1 fs2
    → Stored i off src fs fs2
Stored-Stored i off m src fs fs1 fs2 le one two =
    let taken = take_whole m src le in
    let left = length-drop m src in
    record {
      is_file = two.is_file;
      size = two.size ∙ rw (one.size, taken, left) (ground arith);
      kind = two.kind ∙ one.kind;
      valid = two.valid ∙ one.valid;
      bytes = λ p low.
          two.bytes p low
          ∙ ap
              (λ (c : ℕ).
                if leb (off + m) p && ltb p (off + m + length (drop m src))
                then nth (drop m src) (p - (off + m))
                else c)
              (one.bytes p low)
          ∙ copy_to-split (byte_of fs i) off m src p le;
      others = λ x ne. two.others x ne ∙ one.others x ne;
    }

-- The lock of an inode, or what counts the operations, is set.
pub with_lock-SameData :
    (i : ℕ) (b : Bool) (fs : Fs)
    → SameData i fs (set_inode i (record (fs.inode i) { locked = b }) fs)
with_lock-SameData i b fs =
    let at = update_at fs.inode i (record (fs.inode i) { locked = b }) in
    record {
      copy = ap (λ (c : CachedInode). c.copy) at;
      valid = ap (λ (c : CachedInode). c.valid) at;
      block = refl;
      used = refl;
      sb = refl;
      others = λ x ne. update_elsewhere fs.inode i x (record (fs.inode i) { locked = b }) ne;
    }

-- Where `ilock` and `iunlock` return, and the inode has been read before.
pub ilock-SameData :
    (i : ℕ) (fs fs' : Fs) → (fs.inode i).valid ≡ true → ilock i fs ≡ ok fs' → SameData i fs fs'
unfolding ilock acquire_inode read_inode
ilock-SameData i fs fs' valid run =
    let new : Fs = set_inode i (record (fs.inode i) { locked = true }) fs in
    let still : (new.inode i).valid ≡ true = (with_lock-SameData i true fs).valid ∙ valid in
    elim (Bool-cases (ltb (fs.inode i).ref 1)) [
      | inl e ↦ cc (rw e at run)
      | inr e ↦ elim (Bool-cases (fs.inode i).locked) [
        | inl held ↦ cc (rw (e, held) at run)
        | inr free ↦
            subst (SameData i fs) (ok-injective (rw (e, free, still) at run))
              (with_lock-SameData i true fs)
      ]
    ]

pub iunlock-SameData : (i : ℕ) (fs fs' : Fs) → iunlock i fs ≡ ok fs' → SameData i fs fs'
unfolding iunlock
iunlock-SameData i fs fs' run =
    elim (Bool-cases (not (fs.inode i).locked || ltb (fs.inode i).ref 1)) [
      | inl e ↦ cc (rw e at run)
      | inr e ↦ subst (SameData i fs) (ok-injective (rw e at run)) (with_lock-SameData i false fs)
    ]

pub op-SameData : (i : ℕ) (fs fs' : Fs) → SameData i (begin_fs_op fs) fs' → SameData i fs fs'
op-SameData i fs fs' same = record {
  copy = same.copy;
  valid = same.valid;
  block = same.block;
  used = same.used;
  sb = same.sb;
  others = same.others;
}

pub end-SameData : (i : ℕ) (fs fs' : Fs) → SameData i fs fs' → SameData i fs (end_fs_op fs')
end-SameData i fs fs' same = record {
  copy = same.copy;
  valid = same.valid;
  block = same.block;
  used = same.used;
  sb = same.sb;
  others = same.others;
}

pub Stored-refl :
    (i off : ℕ) (src : List ℕ) (fs : Fs)
    → IsFile fs i
    → off ≤ (fs.inode i).copy.size
    → length src ≡ 0
    → Stored i off src fs fs
Stored-refl i off src fs is inside empty = record {
  is_file = is;
  size = ground arith;
  kind = refl;
  valid = refl;
  bytes = λ p low. sym (copy_to-empty (byte_of fs i) off src p empty);
  others = λ x ne. refl;
}
