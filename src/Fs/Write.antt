-- ===== src/Fs/Write.antt =====
-- The loop of `writei` puts its bytes in their place, and changes no other byte of the file.
use mathlib.Core.Path.{subst}
use xv6_system_calls.Prelude.{
  ℕ, zero, suc, ◌+◌, ◌-◌, ◌*◌, ◌/◌, ◌%◌, ◌≤◌, ◌<◌, ◌≡◌, ◌≢◌, refl, sym, ap, ◌∙◌, inl, inr, ◌&&◌,
  List, arith, ◌==◌, ltb, leb, if◌then◌else◌, Bool-cases, update, eq→==, ne→==, ==→eq, length, take,
  drop, ok, ok-injective, >>=-eq-ok,
}
use xv6_system_calls.Fs.{CachedInode, Fs, Dinode, ndirect, maxfile, bsize, log_block}
use xv6_system_calls.Fs.Inode.{bmap}
use xv6_system_calls.Fs.Map.{part}
use xv6_system_calls.Fs.Blocks.{addrs_of, IsMapped, block_of, byte_of, SameFile}
use xv6_system_calls.Fs.Bmap.{bmap-MapsTo}
use xv6_system_calls.Fs.Content.{min, nth, copy_to, write_loop}
use xv6_system_calls.Fs.Copy.{
  copy_to-empty, take_whole, length-drop, copy_to-split, copy_to-block, copy_to-outside,
}

-- A write into the block of a part leaves the block map as it is.
pub write_part :
    (i a bn : ℕ) (fs : Fs) (new : ℕ → ℕ)
    → IsMapped fs i
    → bn < maxfile
    → block_of fs i bn ≡ a
    → a ≢ 0
    → (bn' : ℕ) → part (addrs_of fs i) (update fs.block a new) bn' ≡ block_of fs i bn'
write_part i a bn fs new is lt at ne bn' =
    let some_block : block_of fs i bn ≢ 0 = λ z. ne (sym at ∙ z) in
    let apart : addrs_of fs i ndirect ≢ a = λ e. is.indirect_apart bn lt some_block (at ∙ sym e) in
    rw (ne→== (addrs_of fs i ndirect) a apart) refl

-- The bytes `src` stand at `off` in the file `i`, which is well formed, and nothing else has
-- changed; the parts that had a block keep it.
pub record Wrote (i off : ℕ) (src : List ℕ) (fs fs' : Fs) : Type 0 where
  pub mapped : IsMapped fs' i
  pub bytes :
      (pos : ℕ) → pos < maxfile * bsize → byte_of fs' i pos ≡ copy_to (byte_of fs i) off src pos
  pub kept : (bn : ℕ) → bn < maxfile → block_of fs i bn ≢ 0 → block_of fs' i bn ≡ block_of fs i bn
  pub filled :
      0 < length src
      → (bn : ℕ) → off / bsize ≤ bn
      → bn * bsize < off + length src
      → block_of fs' i bn ≢ 0
  pub copy : (fs'.inode i).copy ≡ record (fs.inode i).copy { addrs = addrs_of fs' i }
  pub cached : fs'.inode i ≡ record (fs.inode i) { copy = (fs'.inode i).copy }
  pub others : (x : ℕ) → x ≢ i → fs'.inode x ≡ fs.inode x
  pub sb : fs'.sb ≡ fs.sb

abbrev pub with_bytes : ℕ → (ℕ → ℕ) → Fs → Fs
with_bytes a new fs = log_block a (record fs { block = update fs.block a new })

-- A write within the block that the part `bn` has.
pub write_part-bytes :
    (i a off : ℕ) (src : List ℕ) (fs : Fs)
    → IsMapped fs i
    → off / bsize < maxfile
    → block_of fs i (off / bsize) ≡ a
    → a ≢ 0
    → off % bsize + length src ≤ bsize
    → (pos : ℕ) → pos < maxfile * bsize
    → byte_of (with_bytes a (copy_to (fs.block a) (off % bsize) src) fs) i pos
      ≡ copy_to (byte_of fs i) off src pos
write_part-bytes i a off src fs is lt at ne within pos low =
    let new : ℕ → ℕ = copy_to (fs.block a) (off % bsize) src in
    let same = write_part i a (off / bsize) fs new is lt at ne (pos / bsize) in
    rw same (elim (Bool-cases (pos / bsize == off / bsize)) [
      | inl e ↦
          let here : pos / bsize ≡ off / bsize = ==→eq (pos / bsize) (off / bsize) e in
          let at_pos : block_of fs i (pos / bsize) ≡ a = ap (block_of fs i) here ∙ at in
          let some_byte : fs.block a (pos % bsize) ≡ byte_of fs i pos =
            rw (at_pos, ne→== a 0 ne) refl in
          rw (at_pos, ne→== a 0 ne, eq→== a a refl)
            (rw (at_pos, ne→== a 0 ne) at
              (copy_to-block (byte_of fs i) (fs.block a) off pos src here some_byte))
      | inr e ↦
          let away : pos / bsize ≢ off / bsize = ground arith in
          let kept = copy_to-outside (byte_of fs i) off src pos away within in
          elim (Bool-cases (block_of fs i (pos / bsize) == 0)) [
            | inl z ↦ rw (kept, z) refl
            | inr nz ↦
                let other : block_of fs i (pos / bsize) ≢ a = λ e. away (
                  is.apart (pos / bsize) (off / bsize) (omega arith) lt (ground arith)
                    (e ∙ sym at)) in
                rw (kept, nz, ne→== (block_of fs i (pos / bsize)) a other) refl
          ]
    ])

pub write_part-Wrote :
    (i a off : ℕ) (src : List ℕ) (fs : Fs)
    → IsMapped fs i
    → off / bsize < maxfile
    → block_of fs i (off / bsize) ≡ a
    → a ≢ 0
    → off % bsize + length src ≤ bsize
    → Wrote i off src fs (with_bytes a (copy_to (fs.block a) (off % bsize) src) fs)
write_part-Wrote i a off src fs is lt at ne within =
    let new : ℕ → ℕ = copy_to (fs.block a) (off % bsize) src in
    let same = write_part i a (off / bsize) fs new is lt at ne in
    record {
      mapped = record {
        boot = is.boot;
        words = is.words;
        taken = λ bn low some_block. rw (same bn) (is.taken bn low (rw (same bn) at some_block));
        indirect_taken = is.indirect_taken;
        apart = λ bn bn' low low' some_block e.
            is.apart bn bn' low low' (rw (same bn) at some_block) (rw (same bn, same bn') at e);
        indirect_apart = λ bn low some_block e.
            is.indirect_apart bn low (rw (same bn) at some_block) (rw (same bn) at e);
      };
      bytes = write_part-bytes i a off src fs is lt at ne within;
      kept = λ bn low some_block. same bn;
      filled = λ some_byte bn low high.
          let here : bn ≡ off / bsize = omega arith in
          rw (same bn) (λ z. ne (sym at ∙ sym (ap (block_of fs i) here) ∙ z));
      copy = refl;
      cached = refl;
      others = λ x other. refl;
      sb = refl;
    }

-- A change to the block map, and then a write.
pub SameFile-Wrote :
    (i off : ℕ) (src : List ℕ) (fs fs1 fs2 : Fs)
    → SameFile i fs fs1
    → Wrote i off src fs1 fs2
    → Wrote i off src fs fs2
SameFile-Wrote i off src fs fs1 fs2 same wrote = record {
  mapped = wrote.mapped;
  bytes = λ pos low.
      wrote.bytes pos low
      ∙ ap (λ (c : ℕ). if leb off pos && ltb pos (off + length src) then nth src (pos - off) else c)
          (same.bytes pos low);
  kept =
      λ bn low ne. let one = same.kept bn low ne in wrote.kept bn low (λ z. ne (sym one ∙ z)) ∙ one;
  filled = wrote.filled;
  copy = wrote.copy ∙ ap (λ (d : Dinode). record d { addrs = addrs_of fs2 i }) same.copy;
  cached =
      wrote.cached ∙ ap (λ (c : CachedInode). record c { copy = (fs2.inode i).copy }) same.cached;
  others = λ x ne. wrote.others x ne ∙ same.others x ne;
  sb = wrote.sb ∙ same.sb;
}

-- Two writes, one after the other.
pub Wrote-Wrote :
    (i off m : ℕ) (src : List ℕ) (fs fs1 fs2 : Fs)
    → m ≤ length src
    → 0 < m
    → off + length src ≤ maxfile * bsize
    → Wrote i off (take m src) fs fs1
    → Wrote i (off + m) (drop m src) fs1 fs2
    → Wrote i off src fs fs2
Wrote-Wrote i off m src fs fs1 fs2 le some_left fits one two =
    let taken = take_whole m src le in
    let left = length-drop m src in
    record {
      mapped = two.mapped;
      bytes = λ pos low.
          two.bytes pos low
          ∙ ap
              (λ (c : ℕ).
                if leb (off + m) pos && ltb pos (off + m + length (drop m src))
                then nth (drop m src) (pos - (off + m))
                else c)
              (one.bytes pos low)
          ∙ copy_to-split (byte_of fs i) off m src pos le;
      kept = λ bn low ne.
          let kept_one = one.kept bn low ne in
          two.kept bn low (λ z. ne (sym kept_one ∙ z)) ∙ kept_one;
      filled = λ some_byte bn low high. elim (Bool-cases (ltb (bn * bsize) (off + m))) [
        | inl e ↦
            let some_block = one.filled (rw taken some_left) bn low (rw taken (ground arith)) in
            λ z. some_block (sym (two.kept bn (omega arith) some_block) ∙ z)
        | inr e ↦ two.filled (rw left (ground arith)) bn (ground arith) (rw left (ground arith))
      ];
      copy = two.copy ∙ ap (λ (d : Dinode). record d { addrs = addrs_of fs2 i }) one.copy;
      cached =
          two.cached ∙ ap (λ (c : CachedInode). record c { copy = (fs2.inode i).copy }) one.cached;
      others = λ x ne. two.others x ne ∙ one.others x ne;
      sb = two.sb ∙ one.sb;
    }

pub Wrote-refl :
    (i off : ℕ) (src : List ℕ) (fs : Fs) → IsMapped fs i → length src ≡ 0 → Wrote i off src fs fs
Wrote-refl i off src fs is none_left = record {
  mapped = is;
  bytes = λ pos low. sym (copy_to-empty (byte_of fs i) off src pos none_left);
  kept = λ bn low ne. refl;
  filled = λ some_byte bn low high. absurd (omega arith);
  copy = refl;
  cached = refl;
  others = λ x ne. refl;
  sb = refl;
}

pub write_loop-Wrote :
    (fuel i off : ℕ) (src : List ℕ) (fs fs' : Fs)
    → IsMapped fs i
    → length src ≤ fuel
    → off + length src ≤ maxfile * bsize
    → write_loop fuel i off src fs ≡ ok fs'
    → Wrote i off src fs fs'
unfolding write_loop
write_loop-Wrote zero i off src fs fs' is enough fits run =
    let same : fs ≡ fs' = ok-injective run in
    let none_left : length src ≡ 0 = omega arith in
    subst (Wrote i off src fs) same (Wrote-refl i off src fs is none_left)
write_loop-Wrote (suc fuel) i off src fs fs' is enough fits run =
    elim (Bool-cases (length src == 0)) [
      | inl e ↦
          let same : fs ≡ fs' = ok-injective (rw e at run) in
          subst (Wrote i off src fs) same (Wrote-refl i off src fs is (==→eq (length src) 0 e))
      | inr e ↦
          let more : length src ≢ 0 = ground arith in
          let m : ℕ = min (length src) (bsize - off % bsize) in
          let (le, some_left, within) : (m ≤ length src) × (0 < m) × (off % bsize + m ≤ bsize) =
            ground arith in
          let ((a, fs1), mapped, rest) =
            >>=-eq-ok (bmap i (off / bsize) fs)
              (λ r.
                write_loop fuel i (off + m) (drop m src)
                  (with_bytes r.0 (copy_to (r.1.block r.0) (off % bsize) (take m src)) r.1))
              (rw e at run) in
          let (low, to) = bmap-MapsTo i (off / bsize) a fs fs1 is mapped in
          let taken = take_whole m src le in
          let left = length-drop m src in
          let fs2 : Fs = with_bytes a (copy_to (fs1.block a) (off % bsize) (take m src)) fs1 in
          let one = SameFile-Wrote i off (take m src) fs fs1 fs2 to.same (
            write_part-Wrote i a off (take m src) fs1 to.same.mapped low to.at_block to.nonzero
              (rw taken within)) in
          Wrote-Wrote i off m src fs fs2 fs' le some_left fits one (
            write_loop-Wrote fuel i (off + m) (drop m src) fs2 fs' one.mapped
              (rw left (omega arith)) (rw left (omega arith)) rest)
    ]
