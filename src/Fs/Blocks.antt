-- ===== src/Fs/Blocks.antt =====
-- A block that is put in the place of a part that has none changes no byte of the file.
use xv6_system_calls.Prelude.{
  ℕ, ◌+◌, ◌-◌, ◌*◌, ◌<◌, ◌≡◌, ◌≢◌, refl, sym, ap, ◌∙◌, false, arith, ◌==◌, if◌then◌else◌, update,
  update_at, eq→==, ne→==, lt→ltb, le→ltb,
}
use xv6_system_calls.Syscall.{load_word}
use xv6_system_calls.Fs.{
  Fs, Dinode, CachedInode, ndirect, nindirect, maxfile, bsize, store_word, take_block, log_block,
}
use xv6_system_calls.Fs.Inode.{slot_of, set_slot}
use xv6_system_calls.Fs.Map.{
  part, IsMap, byte_at, free-nonzero, free-ne-part, free-ne-indirect, part-slot, part-indirect,
  part-word, IsMap-extended, byte_at-extended, IsMap-indirect, byte_at-indirect,
}

abbrev pub addrs_of : Fs → ℕ → ℕ → ℕ
addrs_of fs i = (fs.inode i).copy.addrs

abbrev pub IsMapped : Fs → ℕ → Type 0
IsMapped fs i = IsMap fs.sb.size fs.used (addrs_of fs i) fs.block

abbrev pub block_of : Fs → ℕ → ℕ → ℕ
block_of fs i bn = part (addrs_of fs i) fs.block bn

-- The byte of the file `i` at a position.
abbrev pub byte_of : Fs → ℕ → ℕ → ℕ
byte_of fs i pos = byte_at (addrs_of fs i) fs.block pos

-- The file `i` is well formed, with the same bytes, and only its block map has changed.
pub record SameFile (i : ℕ) (fs fs' : Fs) : Type 0 where
  pub mapped : IsMapped fs' i
  pub bytes : (pos : ℕ) → pos < maxfile * bsize → byte_of fs' i pos ≡ byte_of fs i pos
  pub kept : (bn : ℕ) → bn < maxfile → block_of fs i bn ≢ 0 → block_of fs' i bn ≡ block_of fs i bn
  pub copy : (fs'.inode i).copy ≡ record (fs.inode i).copy { addrs = addrs_of fs' i }
  pub cached : fs'.inode i ≡ record (fs.inode i) { copy = (fs'.inode i).copy }
  pub others : (x : ℕ) → x ≢ i → fs'.inode x ≡ fs.inode x
  pub sb : fs'.sb ≡ fs.sb

SameFile-of :
    (i : ℕ) (fs fs' : Fs) (addrs' : ℕ → ℕ)
    → (fs'.inode i).copy ≡ record (fs.inode i).copy { addrs = addrs' }
    → fs'.inode i ≡ record (fs.inode i) { copy = (fs'.inode i).copy }
    → ((x : ℕ) → x ≢ i → fs'.inode x ≡ fs.inode x)
    → fs'.sb ≡ fs.sb
    → IsMap fs.sb.size fs'.used addrs' fs'.block
    → ((pos : ℕ) → pos < maxfile * bsize → byte_at addrs' fs'.block pos ≡ byte_of fs i pos)
    → ((bn : ℕ) → bn < maxfile → block_of fs i bn ≢ 0 → part addrs' fs'.block bn ≡ block_of fs i bn)
    → SameFile i fs fs'
SameFile-of i fs fs' addrs' copy cached others sb is bytes kept =
    let at : addrs_of fs' i ≡ addrs' = ap (λ (d : Dinode). d.addrs) copy in
    record {
      mapped = rw (sb, at) is;
      bytes = λ pos lt. rw at (bytes pos lt);
      kept = λ bn lt ne. rw at (kept bn lt ne);
      copy = copy ∙ ap (λ (ad : ℕ → ℕ). record (fs.inode i).copy { addrs = ad }) (sym at);
      cached = cached;
      others = others;
      sb = sb;
    }

pub SameFile-refl : (i : ℕ) (fs : Fs) → IsMapped fs i → SameFile i fs fs
SameFile-refl i fs is = record {
  mapped = is;
  bytes = λ pos lt. refl;
  kept = λ bn lt ne. refl;
  copy = refl;
  cached = refl;
  others = λ x ne. refl;
  sb = refl;
}

pub SameFile-trans :
    (i : ℕ) (fs fs1 fs2 : Fs) → SameFile i fs fs1 → SameFile i fs1 fs2 → SameFile i fs fs2
SameFile-trans i fs fs1 fs2 one two = record {
  mapped = two.mapped;
  bytes = λ pos lt. two.bytes pos lt ∙ one.bytes pos lt;
  kept = λ bn lt ne.
      let one_kept = one.kept bn lt ne in two.kept bn lt (λ z. ne (sym one_kept ∙ z)) ∙ one_kept;
  copy = two.copy ∙ ap (λ (d : Dinode). record d { addrs = addrs_of fs2 i }) one.copy;
  cached = two.cached ∙ ap (λ (c : CachedInode). record c { copy = (fs2.inode i).copy }) one.cached;
  others = λ x ne. two.others x ne ∙ one.others x ne;
  sb = two.sb ∙ one.sb;
}

-- Part `bn` of the file is in the block `a`, after a change to the block map.
pub record MapsTo (i bn a : ℕ) (fs fs' : Fs) : Type 0 where
  pub same : SameFile i fs fs'
  pub at_block : block_of fs' i bn ≡ a
  pub nonzero : a ≢ 0

module _ (i : ℕ) (fs : Fs) (is : IsMapped fs i) (b : ℕ) (free : fs.used b ≡ false)
    (inside : b < fs.sb.size) where
  abbrev pub with_slot : ℕ → Fs
  with_slot s = set_slot i s b (take_block b fs)

  -- The parts that had a block keep it.
  kept_but :
      {part' : ℕ → ℕ} (t : ℕ)
      → ((bn : ℕ) → part' bn ≡ (if bn == t then b else block_of fs i bn))
      → block_of fs i t ≡ 0
      → (bn : ℕ) → bn < maxfile
      → block_of fs i bn ≢ 0
      → part' bn ≡ block_of fs i bn
  kept_but t more hole bn lt ne =
      more bn ∙ rw (ne→== bn t (λ e. ne (ap (block_of fs i) e ∙ hole))) refl

  pub take_slot-MapsTo : (s : ℕ) → s < ndirect → slot_of fs i s ≡ 0 → MapsTo i s b fs (with_slot s)
  take_slot-MapsTo s lt none_yet =
      let new : Fs = with_slot s in
      let hole : block_of fs i s ≡ 0 = rw (lt→ltb s ndirect lt) none_yet in
      let addrs' : ℕ → ℕ = update (addrs_of fs i) s b in
      let more : ((bn : ℕ) → part addrs' new.block bn ≡ (if bn == s then b else block_of fs i bn)) =
        λ bn. part-slot fs.sb.size fs.used (addrs_of fs i) fs.block is b free inside s bn lt in
      let same : addrs' ndirect ≡ addrs_of fs i ndirect = rw (ne→== ndirect s (omega arith)) refl in
      record {
        same =
            SameFile-of i fs new addrs' (rw (eq→== i i refl) refl) (rw (eq→== i i refl) refl)
              (λ x ne. rw (ne→== x i ne) refl) refl
              (IsMap-extended fs.sb.size fs.used (addrs_of fs i) fs.block is b free inside addrs'
                new.block s (omega arith) hole same more)
              (λ pos lt'.
                byte_at-extended fs.sb.size fs.used (addrs_of fs i) fs.block is b free inside addrs'
                  new.block s (omega arith) hole same more pos
                  (λ bn lt'' ne.
                    rw
                      (ne→== (block_of fs i bn) b (
                        free-ne-part fs.sb.size fs.used (addrs_of fs i) fs.block is b free inside bn
                          lt'' ne))
                      refl)
                  (rw (eq→== b b refl) refl) lt')
              (kept_but s more hole);
        at_block =
            ap (λ (c : CachedInode). part c.copy.addrs new.block s) (update_at fs.inode i _)
            ∙ more s
            ∙ rw (eq→== s s refl) refl;
        nonzero = free-nonzero fs.sb.size fs.used (addrs_of fs i) fs.block is b free inside;
      }

  pub take_indirect-SameFile :
      slot_of fs i ndirect ≡ 0
      → SameFile i fs (with_slot ndirect) × (slot_of (with_slot ndirect) i ndirect ≡ b) × (b ≢ 0)
  take_indirect-SameFile none_yet = (
    SameFile-of i fs (with_slot ndirect) (update (addrs_of fs i) ndirect b)
        (rw (eq→== i i refl) refl) (rw (eq→== i i refl) refl) (λ x ne. rw (ne→== x i ne) refl) refl
        (IsMap-indirect fs.sb.size fs.used (addrs_of fs i) fs.block is b free inside none_yet)
        (byte_at-indirect fs.sb.size fs.used (addrs_of fs i) fs.block is b free inside none_yet)
        (λ bn lt ne.
          part-indirect fs.sb.size fs.used (addrs_of fs i) fs.block is b free inside bn none_yet),
    ap (λ (c : CachedInode). c.copy.addrs ndirect) (update_at fs.inode i _),
    free-nonzero fs.sb.size fs.used (addrs_of fs i) fs.block is b free inside,
  )

  -- A word of the indirect block is set to the free block.
  abbrev pub with_word : ℕ → Fs
  with_word j =
      let fs1 = take_block b fs in
      let ind = slot_of fs i ndirect in
      log_block ind (record fs1 { block = update fs1.block ind (store_word (fs1.block ind) j b) })

  pub take_word-MapsTo :
      (j : ℕ)
      → j < nindirect
      → slot_of fs i ndirect ≢ 0
      → load_word (fs.block (slot_of fs i ndirect)) (4 * j) ≡ 0
      → MapsTo i (ndirect + j) b fs (with_word j)
  take_word-MapsTo j lt some_block none_yet =
      let new : Fs = with_word j in
      let ind : ℕ = slot_of fs i ndirect in
      let apart : ind ≢ b =
        free-ne-indirect fs.sb.size fs.used (addrs_of fs i) fs.block is b free inside some_block in
      let back : b ≢ ind = λ e. apart (sym e) in
      let place : ndirect + j - ndirect ≡ j = omega arith in
      let hole : block_of fs i (ndirect + j) ≡ 0 =
        rw (le→ltb (ndirect + j) ndirect (omega arith), ne→== ind 0 some_block, place) none_yet in
      let more : ((bn : ℕ)
          → part (addrs_of fs i) new.block bn
            ≡ (if bn == ndirect + j then b else block_of fs i bn)) =
        λ bn.
          part-word fs.sb.size fs.used (addrs_of fs i) fs.block is b free inside j bn some_block in
      record {
        same =
            SameFile-of i fs new (addrs_of fs i) refl refl (λ x ne. refl) refl
              (IsMap-extended fs.sb.size fs.used (addrs_of fs i) fs.block is b free inside
                (addrs_of fs i) new.block (ndirect + j) (omega arith) hole refl more)
              (λ pos lt'.
                byte_at-extended fs.sb.size fs.used (addrs_of fs i) fs.block is b free inside
                  (addrs_of fs i) new.block (ndirect + j) (omega arith) hole refl more pos
                  (λ bn lt'' ne.
                    rw
                      (
                        ne→== (block_of fs i bn) ind (is.indirect_apart bn lt'' ne),
                        ne→== (block_of fs i bn) b (
                            free-ne-part fs.sb.size fs.used (addrs_of fs i) fs.block is b free
                              inside bn lt'' ne),
                      )
                      refl)
                  (rw (ne→== b ind back, eq→== b b refl) refl) lt')
              (kept_but (ndirect + j) more hole);
        at_block = more (ndirect + j) ∙ rw (eq→== (ndirect + j) (ndirect + j) refl) refl;
        nonzero = free-nonzero fs.sb.size fs.used (addrs_of fs i) fs.block is b free inside;
      }
