-- ===== src/Fs/Bmap.antt =====
-- `bmap` gives every part of a file its block, and changes no byte of the file.
use xv6_system_calls.Prelude.{
  ℕ, ◌+◌, ◌-◌, ◌*◌, ◌<◌, ◌≡◌, ◌≢◌, refl, sym, ap, ◌∙◌, inl, inr, arith, ◌==◌, ltb, Bool-cases,
  update, ne→==, ==→eq, lt→ltb, le→ltb, ok, ok-pair, >>=-eq-ok,
}
use xv6_system_calls.Syscall.{load_word}
use xv6_system_calls.Fs.{Fs, ndirect, nindirect, maxfile, balloc, store_word, take_block, log_block}
use xv6_system_calls.Fs.Inode.{slot_of, set_slot, bmap, map_slot, map_word}
use xv6_system_calls.Fs.Map.{balloc-free}
use xv6_system_calls.Fs.Blocks.{
  IsMapped, SameFile, SameFile-refl, SameFile-trans, MapsTo, with_word, take_slot-MapsTo,
  take_indirect-SameFile, take_word-MapsTo,
}

module _ (i : ℕ) (fs fs' : Fs) (a : ℕ) (is : IsMapped fs i) where
  slot-MapsTo :
      (s b : ℕ) (fs1 : Fs)
      → s < ndirect
      → slot_of fs i s ≡ 0
      → balloc fs ≡ ok (b, fs1)
      → b ≡ a
      → set_slot i s b fs1 ≡ fs'
      → MapsTo i s a fs fs'
  slot-MapsTo s b fs1 lt none_yet taken number end =
      let (free, inside, after) = balloc-free fs fs1 b taken in
      let it : set_slot i s b (take_block b fs) ≡ fs' = ap (set_slot i s b) (sym after) ∙ end in
      rw (← number, ← it) (take_slot-MapsTo i fs is b free inside s lt none_yet)

  map_slot-MapsTo : (s : ℕ) → s < ndirect → map_slot i s fs ≡ ok (a, fs') → MapsTo i s a fs fs'
  unfolding map_slot
  map_slot-MapsTo s lt run = elim (Bool-cases (slot_of fs i s == 0)) [
    | inr e ↦
        let (number, end) = ok-pair (rw e at run) in
        rw (← end, ← number)
          (record {
            same = SameFile-refl i fs is;
            at_block = rw (lt→ltb s ndirect lt) refl;
            nonzero = ground arith;
          })
    | inl e ↦
        let ((b, fs1), taken, done) =
          >>=-eq-ok (balloc fs) (λ r. ok (r.0, set_slot i s r.0 r.1)) (rw e at run) in
        slot-MapsTo s b fs1 lt (==→eq (slot_of fs i s) 0 e) taken (ok-pair done).0 (ok-pair done).1
  ]

  indirect-SameFile :
      (b : ℕ) (fs1 : Fs)
      → slot_of fs i ndirect ≡ 0
      → balloc fs ≡ ok (b, fs1)
      → b ≡ a
      → set_slot i ndirect b fs1 ≡ fs'
      → SameFile i fs fs' × (slot_of fs' i ndirect ≡ a) × (a ≢ 0)
  indirect-SameFile b fs1 none_yet taken number end =
      let (free, inside, after) = balloc-free fs fs1 b taken in
      let it : set_slot i ndirect b (take_block b fs) ≡ fs' =
        ap (set_slot i ndirect b) (sym after) ∙ end in
      rw (← number, ← it) (take_indirect-SameFile i fs is b free inside none_yet)

  map_slot-SameFile :
      map_slot i ndirect fs ≡ ok (a, fs')
      → SameFile i fs fs' × (slot_of fs' i ndirect ≡ a) × (a ≢ 0)
  unfolding map_slot
  map_slot-SameFile run = elim (Bool-cases (slot_of fs i ndirect == 0)) [
    | inr e ↦
        let (number, end) = ok-pair (rw e at run) in
        rw (← end, ← number) (SameFile-refl i fs is, refl, ground arith)
    | inl e ↦
        let ((b, fs1), taken, done) =
          >>=-eq-ok (balloc fs) (λ r. ok (r.0, set_slot i ndirect r.0 r.1)) (rw e at run) in
        indirect-SameFile b fs1 (==→eq (slot_of fs i ndirect) 0 e) taken (ok-pair done).0
          (ok-pair done).1
  ]

  word-MapsTo :
      (j b : ℕ) (fs1 : Fs)
      → j < nindirect
      → slot_of fs i ndirect ≢ 0
      → load_word (fs.block (slot_of fs i ndirect)) (4 * j) ≡ 0
      → balloc fs ≡ ok (b, fs1)
      → b ≡ a
      → log_block (slot_of fs i ndirect) (record fs1 {
        block =
            update fs1.block
              (slot_of fs i ndirect)
              (store_word (fs1.block (slot_of fs i ndirect)) j b);
      })
        ≡ fs'
      → MapsTo i (ndirect + j) a fs fs'
  word-MapsTo j b fs1 lt some_block none_yet taken number end =
      let (free, inside, after) = balloc-free fs fs1 b taken in
      let it : with_word i fs is b free inside j ≡ fs' =
        ap
          (λ (f : Fs). log_block (slot_of fs i ndirect) (record f {
            block =
                update f.block (slot_of fs i ndirect)
                  (store_word (f.block (slot_of fs i ndirect)) j b);
          }))
          (sym after)
        ∙ end in
      rw (← number, ← it) (take_word-MapsTo i fs is b free inside j lt some_block none_yet)

  map_word-MapsTo :
      (j : ℕ)
      → j < nindirect
      → slot_of fs i ndirect ≢ 0
      → map_word (slot_of fs i ndirect) j fs ≡ ok (a, fs')
      → MapsTo i (ndirect + j) a fs fs'
  unfolding map_word
  map_word-MapsTo j lt some_block run =
      let ind : ℕ = slot_of fs i ndirect in
      let addr : ℕ = load_word (fs.block ind) (4 * j) in
      elim (Bool-cases (addr == 0)) [
        | inr e ↦
            let (number, end) = ok-pair (rw e at run) in
            let place : ndirect + j - ndirect ≡ j = omega arith in
            rw (← end, ← number)
              (record {
                same = SameFile-refl i fs is;
                at_block =
                    rw (le→ltb (ndirect + j) ndirect (omega arith), ne→== ind 0 some_block, place)
                      refl;
                nonzero = ground arith;
              })
        | inl e ↦
            let ((b, fs1), taken, done) =
              >>=-eq-ok (balloc fs)
                (λ r. ok (
                  r.0,
                  log_block ind (record r.1 {
                    block = update r.1.block ind (store_word (r.1.block ind) j r.0);
                  }),
                ))
                (rw e at run) in
            word-MapsTo j b fs1 lt some_block (==→eq addr 0 e) taken (ok-pair done).0
              (ok-pair done).1
      ]

-- Where `bmap` returns the block of a part of a file whose block map is well formed, the part is
-- within the file's limit, the block is not block 0 and holds that part from then on, the map is
-- still well formed with no block in two places, the parts that had a block keep it, and no byte
-- of the file changes.
pub bmap-MapsTo :
    (i bn a : ℕ) (fs fs' : Fs)
    → IsMapped fs i
    → bmap i bn fs ≡ ok (a, fs')
    → (bn < maxfile) × MapsTo i bn a fs fs'
unfolding bmap
bmap-MapsTo i bn a fs fs' is run = elim (Bool-cases (ltb bn ndirect)) [
  | inl e ↦
      let low : bn < ndirect = ground arith in
      (omega arith, map_slot-MapsTo i fs fs' a is bn low (rw e at run))
  | inr e ↦ elim (Bool-cases (ltb (bn - ndirect) nindirect)) [
    | inr e' ↦ absurd (cc (rw (e, e') at run))
    | inl e' ↦
        let low : bn < maxfile = ground arith in
        let place : ndirect + (bn - ndirect) ≡ bn = ground arith in
        let ((ind, fs1), mapped, rest) =
          >>=-eq-ok (map_slot i ndirect fs) (λ r. map_word r.0 (bn - ndirect) r.1)
            (rw (e, e') at run) in
        (low, rw place at (through ind fs1 (ground arith) mapped rest))
  ]
]
  where
    through :
        (ind : ℕ) (fs1 : Fs)
        → bn - ndirect < nindirect
        → map_slot i ndirect fs ≡ ok (ind, fs1)
        → map_word ind (bn - ndirect) fs1 ≡ ok (a, fs')
        → MapsTo i (ndirect + (bn - ndirect)) a fs fs'
    through ind fs1 lt mapped rest =
        let (same, at_ind, ne) = map_slot-SameFile i fs fs1 ind is mapped in
        let some_block : slot_of fs1 i ndirect ≢ 0 = rw at_ind ne in
        let to =
          map_word-MapsTo i fs1 fs' a same.mapped (bn - ndirect) lt some_block
            (rw (← at_ind) at rest) in
        record {
          same = SameFile-trans i fs fs1 fs' same to.same;
          at_block = to.at_block;
          nonzero = to.nonzero;
        }
