-- ===== src/Fs/Contents.antt =====
-- `writei` of a file with no holes, and `readi` after it.
use mathlib.Core.Path.{subst}
use xv6_system_calls.Prelude.{
  ℕ, ◌+◌, ◌-◌, ◌*◌, ◌%◌, ◌≤◌, ◌<◌, ◌≡◌, ◌≢◌, refl, sym, ap, ◌∙◌, inl, inr, Bool, false, ◌&&◌,
  Option, some, List, arith, ltb, Bool-cases, eq→==, ne→==, le→ltb, length, u32_mod, ok, ok-pair,
  >>=-eq-ok,
}
use xv6_system_calls.Fs.{CachedInode, Fs, Dinode, maxfile, bsize}
use xv6_system_calls.Fs.Inode.{iupdate}
use xv6_system_calls.Fs.Blocks.{addrs_of, block_of, byte_of}
use xv6_system_calls.Fs.Bytes.{IsFile, readi_file-bytes}
use xv6_system_calls.Fs.Content.{min, max, nth, copy_to, write_loop, readi_file, writei_file, grow}
use xv6_system_calls.Fs.Copy.{copy_to-inside, bytes_from-of}
use xv6_system_calls.Fs.Write.{Wrote, write_loop-Wrote}

-- After a write of a file with no holes: it has none, it has grown to hold the bytes `src` at
-- `off`, it is otherwise the same, and so are the other inodes of the cache.
pub record Written (i off : ℕ) (src : List ℕ) (fs fs' : Fs) : Type 0 where
  pub is_file : IsFile fs' i
  pub copy : (fs'.inode i).copy ≡ record (fs.inode i).copy {
    size = max (fs.inode i).copy.size (off + length src);
    addrs = addrs_of fs' i;
  }
  pub cached : fs'.inode i ≡ record (fs.inode i) { copy = (fs'.inode i).copy }
  pub bytes :
      (pos : ℕ) → pos < maxfile * bsize → byte_of fs' i pos ≡ copy_to (byte_of fs i) off src pos
  pub others : (x : ℕ) → x ≢ i → fs'.inode x ≡ fs.inode x

pub Wrote-IsFile :
    (i off : ℕ) (src : List ℕ) (fs fs' : Fs)
    → IsFile fs i
    → off ≤ (fs.inode i).copy.size
    → off + length src ≤ maxfile * bsize
    → Wrote i off src fs fs'
    → (bn : ℕ) → bn * bsize < max (fs.inode i).copy.size (off + length src)
    → block_of fs' i bn ≢ 0
Wrote-IsFile i off src fs fs' is inside fits wrote bn lt =
    elim (Bool-cases (ltb (bn * bsize) (fs.inode i).copy.size)) [
      | inl e ↦
          let before : bn * bsize < (fs.inode i).copy.size = ground arith in
          let some_block = is.no_hole bn before in
          let low : bn < maxfile = omega (arith, is.fits) in
          λ z. some_block (sym (wrote.kept bn low some_block) ∙ z)
      | inr e ↦
          let end : bn * bsize < off + length src = ground arith in
          let after : off ≤ bn * bsize = ground arith in
          wrote.filled (omega arith) bn (omega arith) end
    ]

pub Written-of :
    (i off : ℕ) (src : List ℕ) (fs fs1 fs2 : Fs)
    → IsFile fs i
    → off ≤ (fs.inode i).copy.size
    → off + length src ≤ maxfile * bsize
    → Wrote i off src fs fs1
    → (fs2.inode i).copy
      ≡ record (fs1.inode i).copy { size = max (fs.inode i).copy.size (off + length src) }
    → fs2.inode i ≡ record (fs1.inode i) { copy = (fs2.inode i).copy }
    → fs2.block ≡ fs1.block
    → fs2.used ≡ fs1.used
    → fs2.sb ≡ fs1.sb
    → ((x : ℕ) → x ≢ i → fs2.inode x ≡ fs1.inode x)
    → Written i off src fs fs2
Written-of i off src fs fs1 fs2 is inside fits wrote copy cached block used sb others =
    let size = ap (λ (d : Dinode). d.size) copy in
    let addrs : addrs_of fs2 i ≡ addrs_of fs1 i = ap (λ (d : Dinode). d.addrs) copy in
    let limit : max (fs.inode i).copy.size (off + length src) ≤ maxfile * bsize =
      ground (arith, is.fits) in
    let full = Wrote-IsFile i off src fs fs1 is inside fits wrote in
    record {
      is_file = record {
        mapped = rw (sb, used, addrs, block) wrote.mapped;
        fits = rw size limit;
        no_hole = λ bn lt. rw (addrs, block) (full bn (rw size at lt));
      };
      copy =
          copy
          ∙ ap (λ (d : Dinode). record d { size = max (fs.inode i).copy.size (off + length src) })
              wrote.copy
          ∙ ap
              (λ (ad : ℕ → ℕ). record (fs.inode i).copy {
                size = max (fs.inode i).copy.size (off + length src);
                addrs = ad;
              })
              (sym addrs);
      cached =
          cached ∙ ap (λ (c : CachedInode). record c { copy = (fs2.inode i).copy }) wrote.cached;
      bytes = λ pos low. rw (addrs, block) (wrote.bytes pos low);
      others = λ x ne. others x ne ∙ wrote.others x ne;
    }

pub grow-Written :
    (i off : ℕ) (src : List ℕ) (fs fs1 : Fs)
    → IsFile fs i
    → off ≤ (fs.inode i).copy.size
    → off + length src ≤ maxfile * bsize
    → Wrote i off src fs fs1
    → Written i off src fs (grow i (off + length src) (length src) fs1)
unfolding grow iupdate
grow-Written i off src fs fs1 is inside fits wrote =
    let old : (fs1.inode i).copy.size ≡ (fs.inode i).copy.size =
      ap (λ (d : Dinode). d.size) wrote.copy in
    let test : Bool = ltb 0 (length src) && ltb (fs1.inode i).copy.size (off + length src) in
    let with_size : ℕ → Dinode = λ (k : ℕ). record (fs1.inode i).copy { size = k } in
    elim (Bool-cases test) [
      | inl e ↦
          let new : off + length src ≡ max (fs.inode i).copy.size (off + length src) =
            ground arith in
          rw e (
            Written-of i off src fs fs1 _ is inside fits wrote
              (rw (eq→== i i refl) (ap with_size new)) (rw (eq→== i i refl) refl) refl refl refl
              (λ x ne. rw (ne→== x i ne) refl))
      | inr e ↦
          let new : (fs1.inode i).copy.size ≡ max (fs.inode i).copy.size (off + length src) =
            ground arith in
          rw e (
            Written-of i off src fs fs1 fs1 is inside fits wrote (ap with_size new) refl refl refl
              refl (λ x ne. refl))
    ]

-- Where `writei` of a file with no holes returns, at an offset that is not past its end and with
-- room up to MAXFILE blocks, it returns the number of its bytes; the bytes at the offset are then
-- those that it was given, every other byte of the file is as before, the file has grown as far as
-- it must and still has no holes, and the other inodes of the cache are as they were.
pub writei_file-Written :
    (i off : ℕ) (src : List ℕ) (r : Option ℕ) (fs fs' : Fs)
    → IsFile fs i
    → off ≤ (fs.inode i).copy.size
    → off + length src ≤ maxfile * bsize
    → writei_file i off src fs ≡ ok (r, fs')
    → (r ≡ some (length src)) × Written i off src fs fs'
unfolding writei_file
writei_file-Written i off src r fs fs' is inside fits run =
    let n : ℕ = length src in
    let no_wrap : (off + n) % u32_mod ≡ off + n = omega arith in
    let start : ltb (fs.inode i).copy.size off ≡ false = le→ltb _ off inside in
    let end : ltb (off + n) off ≡ false = le→ltb (off + n) off (omega arith) in
    let room : ltb (maxfile * bsize) (off + n) ≡ false = le→ltb _ (off + n) fits in
    let (fs1, wrote, done) =
      >>=-eq-ok (write_loop n i off src fs) (λ f. ok (some n, grow i (off + n) n f))
        (rw (no_wrap, start, end, room) at run) in
    let (number, after) = ok-pair done in
    (
      sym number,
      subst (Written i off src fs) after (
          grow-Written i off src fs fs1 is inside fits
            (write_loop-Wrote n i off src fs fs1 is.mapped (omega arith) fits wrote)),
    )

-- Where `writei` of a file with no holes returns, at an offset that is not past its end and with
-- room up to MAXFILE blocks, a `readi` of as many bytes at the same offset returns the bytes that
-- were written, and changes nothing.
pub readi_file-writei_file :
    (i off : ℕ) (src : List ℕ) (r : Option ℕ) (fs fs' : Fs)
    → IsFile fs i
    → off ≤ (fs.inode i).copy.size
    → off + length src ≤ maxfile * bsize
    → writei_file i off src fs ≡ ok (r, fs')
    → readi_file i off (length src) fs' ≡ ok (some src, fs')
readi_file-writei_file i off src r fs fs' is inside fits run =
    let (number, written) = writei_file-Written i off src r fs fs' is inside fits run in
    let end : off + length src ≤ (fs'.inode i).copy.size =
      rw (ap (λ (d : Dinode). d.size) written.copy) (ground arith) in
    let count : min (length src) ((fs'.inode i).copy.size - off) ≡ length src = ground arith in
    readi_file-bytes i off (length src) fs' written.is_file (omega arith) (omega arith)
    ∙ rw count (
        ap (λ (t : List ℕ). ok (some t, fs'))
          (bytes_from-of (byte_of fs' i) off src (λ k lt.
            written.bytes (off + k) (omega arith)
            ∙ copy_to-inside (byte_of fs i) off src (off + k) (omega arith) (omega arith)
            ∙ ap (nth src) (omega arith))))
