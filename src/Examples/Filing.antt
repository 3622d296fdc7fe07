-- ===== src/Examples/Filing.antt =====
-- A disk with one file of three bytes, and the operations on it.
use xv6_system_calls.Prelude.{
  ℕ, ◌<◌, ◌≡◌, ◌≢◌, refl, ◌∙◌, sym, inl, inr, true, false, Option, some, List, [], ◌∷◌, ◌==◌, ltb,
  if◌then◌else◌, Bool-cases, ==→eq, update, Outcome, ok, panic, first, arith,
}
use xv6_system_calls.Syscall.{load_word}
use xv6_system_calls.Fs.{Fs, Superblock, Dinode, ndirect, maxfile, balloc, t_file}
use xv6_system_calls.Fs.Inode.{bmap, map_slot, map_word, iupdate}
use xv6_system_calls.Fs.Blocks.{MapsTo, IsMapped, block_of, byte_of}
use xv6_system_calls.Fs.Bmap.{bmap-MapsTo}
use xv6_system_calls.Fs.Bytes.{IsFile, readi_file-bytes}
use xv6_system_calls.Fs.Content.{min, bytes_from, write_loop, readi_file, writei_file, grow}
use xv6_system_calls.Fs.Contents.{Written, writei_file-Written, readi_file-writei_file}

abbrev pub superblock : Superblock
superblock = record { size = 100; ninodes = 200; inodestart = 32; bmapstart = 58 }

abbrev pub no_file : Dinode
no_file = record { kind = 0; major = 0; minor = 0; nlink = 0; size = 0; addrs = λ s. 0 }

-- A file whose bytes are in block 60.
abbrev pub three_bytes : Dinode
three_bytes = record no_file { kind = t_file; nlink = 1; size = 3; addrs = update (λ s. 0) 0 60 }

abbrev pub text : ℕ → ℕ
text o = if o == 0 then 104 else if o == 1 then 101 else if o == 2 then 121 else 0

abbrev pub disk : Fs
disk = record {
  sb = superblock;
  used = λ b. ltb b 61;
  dinode = update (λ i. no_file) 5 three_bytes;
  block = update (λ b o. 0) 60 text;
  inode =
      update
        (λ e. record { dev = 0; inum = 0; ref = 0; locked = false; valid = false; copy = no_file })
        2 (record { dev = 1; inum = 5; ref = 1; locked = false; valid = true; copy = three_bytes });
  logged = [];
  ops = 1;
}

-- Only part 0 has a block.
disk-part : (bn : ℕ) → block_of disk 2 bn ≡ (if bn == 0 then 60 else 0)
disk-part bn = elim (Bool-cases (ltb bn ndirect)) [
  | inl e ↦ rw e refl
  | inr e ↦ let other : (bn == 0) ≡ false = ground arith in rw (e, other) refl
]

disk-first : (bn : ℕ) → block_of disk 2 bn ≢ 0 → bn ≡ 0
disk-first bn ne = elim (Bool-cases (bn == 0)) [
  | inl e ↦ ==→eq bn 0 e
  | inr e ↦ absurd (ne (disk-part bn ∙ rw e refl))
]

disk-IsMapped : IsMapped disk 2
disk-IsMapped = record {
  boot = refl;
  words = omega arith;
  taken = λ bn lt ne. rw (disk-first bn ne) refl;
  indirect_taken = λ ne. absurd (ne refl);
  apart = λ bn bn' lt lt' ne e. disk-first bn ne ∙ sym (disk-first bn' (λ z. ne (e ∙ z)));
  indirect_apart = λ bn lt ne e. ne e;
}

pub disk-IsFile : IsFile disk 2
disk-IsFile = record {
  mapped = disk-IsMapped;
  fits = omega arith;
  no_hole = λ bn lt. let start : bn ≡ 0 = omega arith in rw start (λ z. ground (arith, z));
}

abbrev pub end_of {ℓ} : {A : Type ℓ} → Outcome (A × Fs) → Fs
end_of (ok (r, fs)) = fs
end_of (panic s) = disk

-- Part 20 is behind the indirect block, and has no block yet.
bmap-MapsTo_example : (20 < maxfile) × MapsTo 2 20 62 disk (end_of (bmap 2 20 disk))
unfolding bmap map_slot map_word balloc first load_word
bmap-MapsTo_example = bmap-MapsTo 2 20 62 disk (end_of (bmap 2 20 disk)) disk-IsMapped refl

readi_file-bytes_example :
    readi_file 2 1 10 disk ≡ ok (some (bytes_from (byte_of disk 2) 1 (min 10 2)), disk)
readi_file-bytes_example = readi_file-bytes 2 1 10 disk disk-IsFile (omega arith) (omega arith)

-- Three bytes from offset 2 on.
abbrev digits : List ℕ
digits = 49 ∷ 50 ∷ 51 ∷ []

writei_file-Written_example :
    ◌≡◌ {A = Option ℕ} (some 3) (some 3)
    × Written 2 2 digits disk (end_of (writei_file 2 2 digits disk))
unfolding writei_file write_loop bmap map_slot grow iupdate
writei_file-Written_example =
    writei_file-Written 2 2 digits (some 3) disk (end_of (writei_file 2 2 digits disk)) disk-IsFile
      (omega arith) (omega arith) refl

readi_file-writei_file_example :
    readi_file 2 2 3 (end_of (writei_file 2 2 digits disk))
    ≡ ok (some digits, end_of (writei_file 2 2 digits disk))
unfolding writei_file write_loop bmap map_slot grow iupdate
readi_file-writei_file_example =
    readi_file-writei_file 2 2 digits (some 3) disk (end_of (writei_file 2 2 digits disk))
      disk-IsFile (omega arith) (omega arith) refl
