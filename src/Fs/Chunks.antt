-- ===== src/Fs/Chunks.antt =====
-- `filewrite` of file.c writes a file in parts, each in an operation of its own: together they
-- are one write.
use mathlib.Core.Path.{subst}
use xv6_system_calls.Prelude.{
  ℕ, zero, suc, ◌+◌, ◌*◌, ◌%◌, ◌≤◌, ◌<◌, ◌≡◌, ◌≢◌, refl, sym, ap, ◌∙◌, inl, inr, Bool, true, Option,
  none, some, List, ◌==◌, ltb, if◌then◌else◌, Bool-cases, eq→==, ne→==, ==→eq, arith, length, take,
  drop, u32_mod, update_at, ℤ, pos, minus_one, Progress, Outcome, ok, ok-pair, ◌>>=◌, >>=-eq-ok,
}
use xv6_system_calls.Kernel.{OpenFile, FileType}
use xv6_system_calls.Fs.{Fs, maxfile, bsize, t_dev}
use xv6_system_calls.Fs.Inode.{ilock, iunlock}
use xv6_system_calls.Fs.Bytes.{IsFile}
use xv6_system_calls.Fs.Content.{Devsw, min, writei_file, writei}
use xv6_system_calls.Fs.Copy.{take_whole, length-drop}
use xv6_system_calls.Fs.Contents.{writei_file-Written}
use xv6_system_calls.Fs.Calls.{begin_fs_op, end_fs_op}
use xv6_system_calls.Fs.Stored.{
  SameData, SameData-IsFile, Stored, Written-Stored, Stored-Stored, Stored-refl, op-SameData,
  end-SameData, ilock-SameData, iunlock-SameData,
}
use xv6_system_calls.Fs.Handles.{
  Machine, advance_to, chunk, write_chunk, after_chunk, write_chunks, write_object, write_inode,
  filewrite,
}

-- A file with no holes that has been read into its inode, an offset that is not past its end, and
-- room for `n` bytes from there on.
pub record Ready (fs : Fs) (i off n : ℕ) : Type 0 where
  pub is_file : IsFile fs i
  pub no_device : (fs.inode i).copy.kind ≢ t_dev
  pub valid : (fs.inode i).valid ≡ true
  pub inside : off ≤ (fs.inode i).copy.size
  pub fits : off + n ≤ maxfile * bsize

module _ {D : Type 0} (devsw : Devsw D) where
  writei-writei_file :
      (i off : ℕ) (src : List ℕ) (fs fs' : Fs) (d d' : D) (r : Option ℕ)
      → (fs.inode i).copy.kind ≢ t_dev
      → writei devsw i off src fs d ≡ ok (r, fs', d')
      → writei_file i off src fs ≡ ok (r, fs')
  unfolding writei
  writei-writei_file i off src fs fs' d d' r file run =
      let ((r1, fs1), wrote, done) =
        >>=-eq-ok (writei_file i off src fs) (λ x. ok (x.0, x.1, d))
          (rw (ne→== (fs.inode i).copy.kind t_dev file) at run) in
      rw wrote (cc done)

  -- The state after `writei` and `iunlock` in a round.
  chunk-Stored :
      (i off : ℕ) (src : List ℕ) (fs fs1 fs2 fs3 : Fs) (d d' : D) (r : Option ℕ)
      → Ready fs i off (length src)
      → ilock i (begin_fs_op fs) ≡ ok fs1
      → writei devsw i off src fs1 d ≡ ok (r, fs2, d')
      → iunlock i fs2 ≡ ok fs3
      → (r ≡ some (length src)) × Stored i off src fs (end_fs_op fs3)
  chunk-Stored i off src fs fs1 fs2 fs3 d d' r ready lock write unlock =
      let one : SameData i fs fs1 =
        op-SameData i fs fs1 (ilock-SameData i (begin_fs_op fs) fs1 ready.valid lock) in
      let file : (fs1.inode i).copy.kind ≢ t_dev = rw one.copy ready.no_device in
      let (number, written) =
        writei_file-Written i off src r fs1 fs2 (SameData-IsFile i fs fs1 one ready.is_file)
          (rw one.copy ready.inside) ready.fits
          (writei-writei_file i off src fs1 fs2 d d' r file write) in
      let two : SameData i fs2 (end_fs_op fs3) =
        end-SameData i fs2 fs3 (iunlock-SameData i fs2 fs3 unlock) in
      (number, Written-Stored i off src fs fs1 fs2 (end_fs_op fs3) one written two)

  advance_to-off :
      (f n : ℕ) (k : Machine devsw)
      → (k.files f).off + n < u32_mod
      → ((advance_to devsw f (some n) k).files f).off ≡ (k.files f).off + n
  advance_to-off f n k small = elim (Bool-cases (ltb 0 n)) [
    | inl e ↦
        let at =
          update_at k.files f (record (k.files f) { off = ((k.files f).off + n) % u32_mod }) in
        rw e (ap (λ (o : OpenFile). o.off) at ∙ omega arith)
    | inr e ↦ rw e (ground arith)
  ]

  write_chunk-Stored :
      (f i : ℕ) (src : List ℕ) (r : Option ℕ) (k k' : Machine devsw)
      → Ready k.env.0 i (k.files f).off (length src)
      → write_chunk devsw f i src k ≡ ok (r, k')
      → (r ≡ some (length src))
        × Stored i (k.files f).off src k.env.0 k'.env.0
        × ((k'.files f).off ≡ (k.files f).off + length src)
  unfolding write_chunk
  write_chunk-Stored f i src r k k' ready run =
      let off : ℕ = (k.files f).off in
      let (fs1, lock, run1) =
        >>=-eq-ok (ilock i (begin_fs_op k.env.0))
          (λ fs. writei devsw i off src fs k.env.1 >>= (λ x. iunlock i x.1 >>= (λ fs'.
            ok (x.0, record (advance_to devsw f x.0 k) { env = (end_fs_op fs', x.2) }))))
          run in
      let ((r1, fs2, d), write, run2) =
        >>=-eq-ok (writei devsw i off src fs1 k.env.1)
          (λ x.
            iunlock i x.1
            >>= (λ fs'. ok (x.0, record (advance_to devsw f x.0 k) { env = (end_fs_op fs', x.2) })))
          run1 in
      let (fs3, unlock, done) =
        >>=-eq-ok (iunlock i fs2)
          (λ fs'. ok (r1, record (advance_to devsw f r1 k) { env = (end_fs_op fs', d) })) run2 in
      let (number, stored) =
        chunk-Stored i off src k.env.0 fs1 fs2 fs3 k.env.1 d r1 ready lock write unlock in
      let (same, end) = ok-pair done in
      (
        sym same ∙ number,
        subst (λ (m : Machine devsw). Stored i off src k.env.0 m.env.0) end stored,
        ap (λ (m : Machine devsw). (m.files f).off) (sym end)
            ∙ ap (λ (x : Option ℕ). ((advance_to devsw f x k).files f).off) number
            ∙ advance_to-off f (length src) k (omega (arith, ready.fits)),
      )

  no_chunk :
      (f i : ℕ) (src : List ℕ) (whole : Bool) (k k' : Machine devsw)
      → Ready k.env.0 i (k.files f).off (length src)
      → length src ≡ 0
      → ◌≡◌ {A = Outcome (Bool × Machine devsw)} (ok (true, k)) (ok (whole, k'))
      → (whole ≡ true)
        × Stored i (k.files f).off src k.env.0 k'.env.0
        × ((k'.files f).off ≡ (k.files f).off + length src)
  no_chunk f i src whole k k' ready empty done =
      let (all, end) = ok-pair done in
      (
        sym all,
        subst (λ (m : Machine devsw). Stored i (k.files f).off src k.env.0 m.env.0) end
            (Stored-refl i (k.files f).off src k.env.0 ready.is_file ready.inside empty),
        ap (λ (m : Machine devsw). (m.files f).off) (sym end) ∙ omega arith,
      )

  -- After a round the file is ready for the next one.
  write_chunk-Ready :
      (f i m : ℕ) (src : List ℕ) (r : Option ℕ) (k k' : Machine devsw)
      → m ≤ length src
      → Ready k.env.0 i (k.files f).off (length src)
      → write_chunk devsw f i (take m src) k ≡ ok (r, k')
      → (r ≡ some m)
        × Stored i (k.files f).off (take m src) k.env.0 k'.env.0
        × ((k'.files f).off ≡ (k.files f).off + m)
        × Ready k'.env.0 i (k'.files f).off (length (drop m src))
  write_chunk-Ready f i m src r k k' le ready run =
      let taken = take_whole m src le in
      let left = length-drop m src in
      let now : Ready k.env.0 i (k.files f).off (length (take m src)) = record {
        is_file = ready.is_file;
        no_device = ready.no_device;
        valid = ready.valid;
        inside = ready.inside;
        fits = rw taken (omega (arith, ready.fits));
      } in
      let (number, stored, off) = write_chunk-Stored f i (take m src) r k k' now run in
      (
        number ∙ ap (λ (n : ℕ). some n) taken,
        stored,
        off ∙ rw taken refl,
        record {
          is_file = stored.is_file;
          no_device = rw stored.kind ready.no_device;
          valid = stored.valid ∙ ready.valid;
          inside = rw (off, stored.size) (ground arith);
          fits = rw (off, taken, left) (omega (arith, ready.fits));
        },
      )

  -- A round is followed by the rest of the loop.
  after_chunk-rest :
      (loop : Machine devsw → Outcome (Bool × Machine devsw)) (m : ℕ) (r : Option ℕ) (whole : Bool)
      (k k' : Machine devsw)
      → r ≡ some m
      → after_chunk devsw loop m (r, k) ≡ ok (whole, k')
      → loop k ≡ ok (whole, k')
  unfolding after_chunk
  after_chunk-rest loop m none whole k k' number run = cc
  after_chunk-rest loop m (some n) whole k k' number run =
      let same : n ≡ m = cc in rw (eq→== n m same) at run

  -- The loop of `filewrite` stores all its bytes.
  write_chunks-Stored :
      (fuel f i : ℕ) (src : List ℕ) (whole : Bool) (k k' : Machine devsw)
      → Ready k.env.0 i (k.files f).off (length src)
      → length src ≤ fuel
      → write_chunks devsw fuel f i src k ≡ ok (whole, k')
      → (whole ≡ true)
        × Stored i (k.files f).off src k.env.0 k'.env.0
        × ((k'.files f).off ≡ (k.files f).off + length src)
  unfolding write_chunks
  write_chunks-Stored zero f i src whole k k' ready enough run =
      let empty : length src ≡ 0 = omega arith in
      no_chunk f i src whole k k' ready empty (rw (eq→== (length src) 0 empty) at run)
  write_chunks-Stored (suc fuel) f i src whole k k' ready enough run =
      elim (Bool-cases (length src == 0)) [
        | inl e ↦ no_chunk f i src whole k k' ready (==→eq (length src) 0 e) (rw e at run)
        | inr e ↦
            let off : ℕ = (k.files f).off in
            let m : ℕ = min (length src) chunk in
            let (le, some_left) : (m ≤ length src) × (0 < m) = ground arith in
            let ((r, k1), first_part, rest) =
              >>=-eq-ok (write_chunk devsw f i (take m src) k)
                (after_chunk devsw (write_chunks devsw fuel f i (drop m src)) m) (rw e at run) in
            let (number, stored, off1, ready1) =
              write_chunk-Ready f i m src r k k1 le ready first_part in
            let left = length-drop m src in
            let (all, stored', off') =
              write_chunks-Stored fuel f i (drop m src) whole k1 k' ready1 (rw left (omega arith)) (
                after_chunk-rest (write_chunks devsw fuel f i (drop m src)) m r whole k1 k' number
                  rest) in
            (
              all,
              Stored-Stored i off m src k.env.0 k1.env.0 k'.env.0 le stored (rw off1 at stored'),
              off' ∙ rw (off1, left) (omega arith),
            )
      ]

  -- Where `filewrite` returns, on a file that is open for writing on an inode with no holes that
  -- was read before and is no device, at an offset that is not past its end and with room up to
  -- MAXFILE blocks, it returns the number of its bytes, and its writes of at most 1536 bytes, each
  -- in an operation of its own, come to one write of all the bytes; the offset of the open file
  -- moves past them.
  pub filewrite-Stored :
      (cur f i : ℕ) (src : List ℕ) (r : Progress ℤ (List ℕ)) (k k' : Machine devsw)
      → (k.files f).writable ≡ true
      → (k.files f).kind ≡ FileType.fd_inode
      → (k.files f).ip ≡ some i
      → Ready k.env.0 i (k.files f).off (length src)
      → filewrite devsw cur f src k ≡ ok (k', r)
      → (r ≡ Progress.returned (pos (length src)))
        × Stored i (k.files f).off src k.env.0 k'.env.0
        × ((k'.files f).off ≡ (k.files f).off + length src)
  unfolding filewrite write_object write_inode
  filewrite-Stored cur f i src r k k' writable kind ip ready run =
      let ((whole, k1), loop, done) =
        >>=-eq-ok (write_chunks devsw (length src) f i src k)
          (λ x. ok (x.1, Progress.returned (if x.0 then pos (length src) else minus_one)))
          (rw (writable, kind, ip) at run) in
      let (all, stored, off) =
        write_chunks-Stored (length src) f i src whole k k1 ready (omega arith) loop in
      let (end, number) = ok-pair done in
      (
        sym number ∙ rw all refl,
        subst (λ (m : Machine devsw). Stored i (k.files f).off src k.env.0 m.env.0) end stored,
        ap (λ (m : Machine devsw). (m.files f).off) (sym end) ∙ off,
      )
