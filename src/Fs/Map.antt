-- ===== src/Fs/Map.antt =====
-- The block map of an inode: which block holds its `bn`th part, and how `bmap` extends the map.
use xv6_system_calls.Prelude.{
  ℕ, ◌+◌, ◌-◌, ◌*◌, ◌/◌, ◌%◌, ◌^◌, ◌≤◌, ◌<◌, ◌≡◌, ◌≢◌, refl, sym, ap, ◌∙◌, inl, inr, Bool, true,
  false, not, arith, ◌==◌, ltb, if◌then◌else◌, Bool-cases, Option-cases, first, first-some, update,
  eq→==, ne→==, ==→eq, u32_mod, ok,
}
use xv6_system_calls.Syscall.{load_word}
use xv6_system_calls.Fs.{Fs, ndirect, maxfile, bsize, balloc, store_word, take_block}

-- The block that holds part `bn` of a file, and 0 if there is none.
abbrev pub part : (ℕ → ℕ) → (ℕ → ℕ → ℕ) → ℕ → ℕ
part addrs block bn =
    if ltb bn ndirect
    then addrs bn
    else if addrs ndirect == 0
    then 0
    else load_word (block (addrs ndirect)) (4 * (bn - ndirect))

-- The file's blocks are in use, no two parts share one, and none of them is the indirect block.
-- Block 0, the boot block, is in use.
pub record IsMap (size : ℕ) (used : ℕ → Bool) (addrs : ℕ → ℕ) (block : ℕ → ℕ → ℕ) : Type 0 where
  pub boot : used 0 ≡ true
  pub words : size ≤ u32_mod
  pub taken : (bn : ℕ) → bn < maxfile → part addrs block bn ≢ 0 → used (part addrs block bn) ≡ true
  pub indirect_taken : addrs ndirect ≢ 0 → used (addrs ndirect) ≡ true
  pub apart :
      (bn bn' : ℕ)
      → bn < maxfile
      → bn' < maxfile
      → part addrs block bn ≢ 0
      → part addrs block bn ≡ part addrs block bn'
      → bn ≡ bn'
  pub indirect_apart :
      (bn : ℕ) → bn < maxfile → part addrs block bn ≢ 0 → part addrs block bn ≢ addrs ndirect

-- The byte at a position of the file: 0 where no block holds it.
abbrev pub byte_at : (ℕ → ℕ) → (ℕ → ℕ → ℕ) → ℕ → ℕ
byte_at addrs block pos =
    let a = part addrs block (pos / bsize) in if a == 0 then 0 else block a (pos % bsize)

store_word_byte :
    (bytes : ℕ → ℕ) (j j' w o k : ℕ)
    → o ≡ 4 * j' + k
    → k < 4
    → store_word bytes j w o ≡ (if j' == j then w / 256 ^ k % 256 else bytes o)
store_word_byte bytes j j' w o k e lt =
    let word : o / 4 ≡ j' = omega arith in
    let byte : o % 4 ≡ k = omega arith in rw (word, byte) refl

pub load_word-store_word :
    (bytes : ℕ → ℕ) (j j' w : ℕ)
    → w < u32_mod
    → load_word (store_word bytes j w) (4 * j') ≡ (if j' == j then w else load_word bytes (4 * j'))
unfolding load_word
load_word-store_word bytes j j' w small =
    let b0 = store_word_byte bytes j j' w (4 * j') 0 (omega arith) (omega arith) in
    let b1 = store_word_byte bytes j j' w (4 * j' + 1) 1 (omega arith) (omega arith) in
    let b2 = store_word_byte bytes j j' w (4 * j' + 2) 2 (omega arith) (omega arith) in
    let b3 = store_word_byte bytes j j' w (4 * j' + 3) 3 (omega arith) (omega arith) in
    rw (b0, b1, b2, b3)
      (elim (Bool-cases (j' == j)) [ inl e ↦ rw e (omega arith) | inr e ↦ rw e refl ])

pub load_word-zeros : (o : ℕ) → load_word (λ o. 0) o ≡ 0
unfolding load_word
load_word-zeros o = refl

pub balloc-free :
    (fs fs' : Fs) (b : ℕ)
    → balloc fs ≡ ok (b, fs')
    → (fs.used b ≡ false) × (b < fs.sb.size) × (fs' ≡ take_block b fs)
unfolding balloc
balloc-free fs fs' b h = elim (Option-cases (first (λ x. not (fs.used x)) fs.sb.size)) [
  | inl full ↦ absurd (ground arith)
  | inr (x, found) ↦
      let (lt, free) = first-some (λ y. not (fs.used y)) fs.sb.size x found in ground arith
]

module _ (size : ℕ) (used : ℕ → Bool) (addrs : ℕ → ℕ) (block : ℕ → ℕ → ℕ)
    (is : IsMap size used addrs block) (b : ℕ) (free : used b ≡ false) (inside : b < size) where
  abbrev pub zeroed : ℕ → ℕ → ℕ
  zeroed = update block b (λ o. 0)

  pub free-nonzero : b ≢ 0
  free-nonzero e = cc (is.boot, free, ap used e)

  pub free-ne-part : (bn : ℕ) → bn < maxfile → part addrs block bn ≢ 0 → part addrs block bn ≢ b
  free-ne-part bn lt ne e = cc (is.taken bn lt ne, free, ap used e)

  pub free-ne-indirect : addrs ndirect ≢ 0 → addrs ndirect ≢ b
  free-ne-indirect ne e = cc (is.indirect_taken ne, free, ap used e)

  -- The map after a free block is put in the place of a part that had none.
  pub part-slot :
      (s bn : ℕ)
      → s < ndirect
      → part (update addrs s b) zeroed bn ≡ (if bn == s then b else part addrs block bn)
  part-slot s bn lt = elim (Bool-cases (ltb bn ndirect)) [
    | inl e ↦ rw e refl
    | inr e ↦
        let other : bn ≢ s = ground arith in
        rw (e, ne→== bn s other, ne→== ndirect s (omega arith))
          (elim (Bool-cases (addrs ndirect == 0)) [
            | inl none_yet ↦ rw none_yet refl
            | inr some_block ↦
                rw (some_block, ne→== (addrs ndirect) b (free-ne-indirect (ground arith))) refl
          ])
  ]

  pub part-indirect :
      (bn : ℕ) → addrs ndirect ≡ 0 → part (update addrs ndirect b) zeroed bn ≡ part addrs block bn
  part-indirect bn none_yet = elim (Bool-cases (ltb bn ndirect)) [
    | inl e ↦ let other : bn ≢ ndirect = ground arith in rw (e, ne→== bn ndirect other) refl
    | inr e ↦
        rw (e, none_yet, ne→== b 0 free-nonzero, eq→== b b refl)
          (load_word-zeros (4 * (bn - ndirect)))
  ]

  pub part-word :
      (j bn : ℕ)
      → addrs ndirect ≢ 0
      → part addrs (update zeroed (addrs ndirect) (store_word (zeroed (addrs ndirect)) j b)) bn
        ≡ (if bn == ndirect + j then b else part addrs block bn)
  part-word j bn ne = elim (Bool-cases (ltb bn ndirect)) [
    | inl e ↦
        let other : bn ≢ ndirect + j = ground arith in rw (e, ne→== bn (ndirect + j) other) refl
    | inr e ↦
        let keeps = free-ne-indirect ne in
        let stored =
          load_word-store_word (block (addrs ndirect)) j (bn - ndirect) b
            (omega (arith, is.words)) in
        let same_place : (bn - ndirect == j) ≡ (bn == ndirect + j) = ground arith in
        rw
          (
            e,
            ne→== (addrs ndirect) 0 ne,
            eq→== (addrs ndirect) (addrs ndirect) refl,
            ne→== (addrs ndirect) b keeps,
          )
          (stored ∙ rw same_place refl)
  ]

  module _ (addrs' : ℕ → ℕ) (block' : ℕ → ℕ → ℕ) (t : ℕ) (low : t < maxfile)
      (hole : part addrs block t ≡ 0) (same : addrs' ndirect ≡ addrs ndirect)
      (more : (bn : ℕ) → part addrs' block' bn ≡ (if bn == t then b else part addrs block bn)) where
    -- A part that had no block gets the free one.
    pub IsMap-extended : IsMap size (update used b true) addrs' block'
    IsMap-extended = record {
      boot = rw (ne→== 0 b (λ e. free-nonzero (sym e))) is.boot;
      words = is.words;
      taken = λ bn lt ne. rw (more bn) (elim (Bool-cases (bn == t)) [
        | inl e ↦ rw (e, eq→== b b refl) refl
        | inr e ↦
            let some_block = rw (more bn, e) at ne in
            rw (e, ne→== (part addrs block bn) b (free-ne-part bn lt some_block))
              (is.taken bn lt some_block)
      ]);
      indirect_taken = λ ne.
          let some_block = rw same at ne in
          rw (same, ne→== (addrs ndirect) b (free-ne-indirect some_block))
            (is.indirect_taken some_block);
      apart = λ bn bn' lt lt' ne e. elim (Bool-cases (bn == t)) [
        | inl h ↦ elim (Bool-cases (bn' == t)) [
          | inl h' ↦ ==→eq bn t h ∙ sym (==→eq bn' t h')
          | inr h' ↦
              let hit : b ≡ part addrs block bn' = rw (more bn, more bn', h, h') at e in
              absurd (free-ne-part bn' lt' (λ z. free-nonzero (hit ∙ z)) (sym hit))
        ]
        | inr h ↦
            let some_block = rw (more bn, h) at ne in
            elim (Bool-cases (bn' == t)) [
              | inl h' ↦
                  let hit : part addrs block bn ≡ b = rw (more bn, more bn', h, h') at e in
                  absurd (free-ne-part bn lt some_block hit)
              | inr h' ↦ is.apart bn bn' lt lt' some_block (rw (more bn, more bn', h, h') at e)
            ]
      ];
      indirect_apart = λ bn lt ne e. elim (Bool-cases (bn == t)) [
        | inl h ↦
            let hit : b ≡ addrs ndirect = rw (more bn, h, same) at e in
            absurd (free-ne-indirect (λ z. free-nonzero (hit ∙ z)) (sym hit))
        | inr h ↦ is.indirect_apart bn lt (rw (more bn, h) at ne) (rw (more bn, h, same) at e)
      ];
    }

    -- The file's bytes are the same, since the free block is zeroed.
    pub byte_at-extended :
        (pos : ℕ)
        → ((bn : ℕ)
            → bn < maxfile
            → part addrs block bn ≢ 0
            → block' (part addrs block bn) ≡ block (part addrs block bn))
        → block' b ≡ (λ o. 0)
        → pos < maxfile * bsize
        → byte_at addrs' block' pos ≡ byte_at addrs block pos
    byte_at-extended pos kept zeros lt =
        rw (more (pos / bsize)) (elim (Bool-cases (pos / bsize == t)) [
          | inl e ↦
              let none_yet : part addrs block (pos / bsize) ≡ 0 =
                ap (part addrs block) (==→eq (pos / bsize) t e) ∙ hole in
              rw (e, ne→== b 0 free-nonzero, none_yet, zeros) refl
          | inr e ↦ rw e (elim (Bool-cases (part addrs block (pos / bsize) == 0)) [
            | inl z ↦ rw z refl
            | inr nz ↦ rw (nz, kept (pos / bsize) (omega arith) (ground arith)) refl
          ])
        ])

  module _ (none_yet : addrs ndirect ≡ 0) where
    abbrev pub with_indirect : ℕ → ℕ
    with_indirect = update addrs ndirect b

    -- The indirect block is the free one, with no words yet.
    pub IsMap-indirect : IsMap size (update used b true) with_indirect zeroed
    IsMap-indirect = record {
      boot = rw (ne→== 0 b (λ e. free-nonzero (sym e))) is.boot;
      words = is.words;
      taken = λ bn lt ne.
          let some_block = rw (part-indirect bn none_yet) at ne in
          rw
            (
              part-indirect bn none_yet,
              ne→== (part addrs block bn) b (free-ne-part bn lt some_block),
            )
            (is.taken bn lt some_block);
      indirect_taken = λ ne. rw (eq→== b b refl) refl;
      apart = λ bn bn' lt lt' ne e.
          is.apart bn bn' lt lt' (rw (part-indirect bn none_yet) at ne)
            (rw (part-indirect bn none_yet, part-indirect bn' none_yet) at e);
      indirect_apart = λ bn lt ne e.
          free-ne-part bn lt (rw (part-indirect bn none_yet) at ne)
            (rw (part-indirect bn none_yet) at e);
    }

    pub byte_at-indirect :
        (pos : ℕ)
        → pos < maxfile * bsize
        → byte_at with_indirect zeroed pos ≡ byte_at addrs block pos
    byte_at-indirect pos lt =
        rw (part-indirect (pos / bsize) none_yet)
          (elim (Bool-cases (part addrs block (pos / bsize) == 0)) [
            | inl z ↦ rw z refl
            | inr nz ↦
                rw
                  (
                    nz,
                    ne→== (part addrs block (pos / bsize)) b
                        (free-ne-part (pos / bsize) (omega arith) (ground arith)),
                  )
                  refl
          ])
