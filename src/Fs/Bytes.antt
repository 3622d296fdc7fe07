-- ===== src/Fs/Bytes.antt =====
-- A file is a sequence of bytes: `readi` returns those that are there, and `writei` changes those
-- that it is given and no others.
use xv6_system_calls.Prelude.{
  ℕ, zero, suc, ◌+◌, ◌-◌, ◌*◌, ◌/◌, ◌%◌, ◌≤◌, ◌<◌, ◌≡◌, ◌≢◌, refl, sym, ap, ◌∙◌, inl, inr, false,
  some, List, ◌∷◌, ◌++◌, arith, ◌==◌, ltb, if◌then◌else◌, Bool-cases, ne→==, ==→eq, lt→ltb, le→ltb,
  u32_mod, ok,
}
use xv6_system_calls.Fs.{Fs, ndirect, nindirect, maxfile, bsize}
use xv6_system_calls.Fs.Inode.{slot_of, bmap, map_slot, map_word}
use xv6_system_calls.Fs.Blocks.{IsMapped, block_of, byte_of}
use xv6_system_calls.Fs.Content.{min, bytes_from, read_loop, readi_file}

bytes_from-split :
    (f : ℕ → ℕ) (o m k : ℕ) → bytes_from f o (m + k) ≡ bytes_from f o m ++ bytes_from f (o + m) k
unfolding bytes_from
bytes_from-split f o zero k =
    let all : 0 + k ≡ k = omega arith in let start : o + 0 ≡ o = omega arith in rw (all, start) refl
bytes_from-split f o (suc m) k =
    let all : suc m + k ≡ suc (m + k) = omega arith in
    let start : o + suc m ≡ o + 1 + m = omega arith in
    rw (all, start) (ap (λ t. f o ∷ t) (bytes_from-split f (o + 1) m k))

pub bytes_from-same :
    (f g : ℕ → ℕ) (o p n : ℕ)
    → ((k : ℕ) → k < n → f (o + k) ≡ g (p + k))
    → bytes_from f o n ≡ bytes_from g p n
unfolding bytes_from
bytes_from-same f g o p zero same = refl
bytes_from-same f g o p (suc n) same =
    let head : f o ≡ g p = ap f (omega arith) ∙ same 0 (omega arith) ∙ ap g (omega arith) in
    let tail =
      bytes_from-same f g (o + 1) (p + 1) n
        (λ k lt. ap f (omega arith) ∙ same (k + 1) (omega arith) ∙ ap g (omega arith)) in
    rw (head, tail) refl

-- `bmap` of a part that has a block returns it, and changes nothing.
bmap-block_of :
    (i bn : ℕ) (fs : Fs)
    → bn < maxfile
    → block_of fs i bn ≢ 0
    → bmap i bn fs ≡ ok (block_of fs i bn, fs)
unfolding bmap map_slot map_word
bmap-block_of i bn fs lt ne = elim (Bool-cases (ltb bn ndirect)) [
  | inl e ↦
      let some_block : slot_of fs i bn ≢ 0 = rw e at ne in
      rw (e, ne→== (slot_of fs i bn) 0 some_block) refl
  | inr e ↦
      let low : bn - ndirect < nindirect = ground arith in
      elim (Bool-cases (slot_of fs i ndirect == 0)) [
        | inl z ↦ absurd ((rw (e, z) at ne) refl)
        | inr nz ↦
            let some_word = rw (e, nz) at ne in
            rw (e, nz, lt→ltb (bn - ndirect) nindirect low, ne→== _ 0 some_word) refl
      ]
]

-- A file with no holes, small enough for its block map.
pub record IsFile (fs : Fs) (i : ℕ) : Type 0 where
  pub mapped : IsMapped fs i
  pub fits : (fs.inode i).copy.size ≤ maxfile * bsize
  pub no_hole : (bn : ℕ) → bn * bsize < (fs.inode i).copy.size → block_of fs i bn ≢ 0

-- Within a block the bytes of the file are those of the block.
byte_of-within :
    (fs : Fs) (i off k : ℕ)
    → off % bsize + k < bsize
    → block_of fs i (off / bsize) ≢ 0
    → byte_of fs i (off + k) ≡ fs.block (block_of fs i (off / bsize)) (off % bsize + k)
byte_of-within fs i off k within some_block =
    let same_block : (off + k) / bsize ≡ off / bsize = omega arith in
    let place : (off + k) % bsize ≡ off % bsize + k = omega arith in
    rw (same_block, place, ne→== (block_of fs i (off / bsize)) 0 some_block) refl

read_loop-join :
    (fs : Fs) (i off m left : ℕ)
    → m ≤ left
    → off % bsize + m ≤ bsize
    → block_of fs i (off / bsize) ≢ 0
    → bytes_from (fs.block (block_of fs i (off / bsize))) (off % bsize) m
        ++ bytes_from (byte_of fs i) (off + m) (left - m)
      ≡ bytes_from (byte_of fs i) off left
read_loop-join fs i off m left le within some_block =
    let all : m + (left - m) ≡ left = omega arith in
    let here =
      bytes_from-same (fs.block (block_of fs i (off / bsize))) (byte_of fs i) (off % bsize) off m
        (λ k lt. sym (byte_of-within fs i off k (omega arith) some_block)) in
    ap (λ (t : List ℕ). t ++ bytes_from (byte_of fs i) (off + m) (left - m)) here
    ∙ sym (bytes_from-split (byte_of fs i) off m (left - m))
    ∙ ap (bytes_from (byte_of fs i) off) all

read_loop_lem :
    (fuel i off left : ℕ) (fs : Fs)
    → left ≤ fuel
    → off + left ≤ maxfile * bsize
    → ((bn : ℕ) → bn * bsize < off + left → block_of fs i bn ≢ 0)
    → read_loop fuel i off left fs ≡ ok (bytes_from (byte_of fs i) off left, fs)
unfolding read_loop bytes_from
read_loop_lem zero i off left fs enough fits full =
    let none_left : left ≡ 0 = omega arith in rw none_left refl
read_loop_lem (suc fuel) i off left fs enough fits full = elim (Bool-cases (left == 0)) [
  | inl e ↦ let none_left : left ≡ 0 = ==→eq left 0 e in rw none_left refl
  | inr e ↦
      let more : left ≢ 0 = ground arith in
      let m : ℕ = min left (bsize - off % bsize) in
      let (le, some_left, within) : (m ≤ left) × (0 < m) × (off % bsize + m ≤ bsize) =
        ground arith in
      let some_block = full (off / bsize) (omega arith) in
      let rest =
        read_loop_lem fuel i (off + m) (left - m) fs (omega arith) (omega arith)
          (λ bn lt. full bn (omega arith)) in
      rw (e, bmap-block_of i (off / bsize) fs (omega arith) some_block, rest)
        (ap (λ (t : List ℕ). ok (t, fs)) (read_loop-join fs i off m left le within some_block))
]

-- `readi` of a file with no holes, from an offset that is not past its end, where the offset plus
-- the count is below 2^32, returns the bytes of the file from there on, as many as it is asked for
-- or as there are, and changes nothing.
pub readi_file-bytes :
    (i off n : ℕ) (fs : Fs)
    → IsFile fs i
    → off ≤ (fs.inode i).copy.size
    → off + n < u32_mod
    → readi_file i off n fs
      ≡ ok (some (bytes_from (byte_of fs i) off (min n ((fs.inode i).copy.size - off))), fs)
unfolding readi_file
readi_file-bytes i off n fs is inside small =
    let size : ℕ = (fs.inode i).copy.size in
    let count : ℕ = if ltb size (off + n) then size - off else n in
    let no_wrap : (off + n) % u32_mod ≡ off + n = omega arith in
    let start : ltb size off ≡ false = le→ltb size off inside in
    let end : ltb (off + n) off ≡ false = le→ltb (off + n) off (omega arith) in
    let number : count ≡ min n (size - off) = ground arith in
    let bound : off + count ≤ size = ground arith in
    let loop =
      read_loop_lem count i off count fs (omega arith) (omega (arith, is.fits))
        (λ bn lt. is.no_hole bn (omega arith)) in
    rw (no_wrap, start, end, loop)
      (ap (λ (c : ℕ). ok (some (bytes_from (byte_of fs i) off c), fs)) number)
