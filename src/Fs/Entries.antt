-- ===== src/Fs/Entries.antt =====
-- The loop over the entries of a directory: `find_entry` is the scan of `dirlookup`, `dirlink` and
-- `isdirempty`.
use xv6_system_calls.Prelude.{
  ℕ, zero, suc, ◌+◌, ◌-◌, ◌*◌, ◌≤◌, ◌<◌, ◌≡◌, refl, inl, inr, Bool, true, String, Option, none,
  some, List, ltb, Bool-cases, ne→==, lt→ltb, le→ltb, arith, ◌≢◌, ℤ, pos, negsuc, ◌==◌, false, ◌∙◌,
  ap, Option-cases, first-some, first_before, first_exists, Outcome, ◌>>=◌, scan, first, length,
  u32_mod, ok,
}
use xv6_system_calls.Strings.{strncmp}
use xv6_system_calls.Fs.Inode.{iget}
use xv6_system_calls.Fs.{Fs, t_dir}
use xv6_system_calls.Fs.Blocks.{byte_of}
use xv6_system_calls.Fs.Bytes.{IsFile, readi_file-bytes}
use xv6_system_calls.Fs.Content.{min, bytes_from, nth}
use xv6_system_calls.Fs.Directory.{
  dirent_size, check_entry, read_entry, find_entry, is_named, same_name, found_entry, dirlookup,
}

-- The entry number `j` of a directory.
abbrev pub entry_at : Fs → ℕ → ℕ → List ℕ
entry_at fs i j = bytes_from (byte_of fs i) (j * dirent_size) dirent_size

length-bytes_from : (f : ℕ → ℕ) (o n : ℕ) → length (bytes_from f o n) ≡ n
unfolding bytes_from
length-bytes_from f o zero = refl
length-bytes_from f o (suc n) = let rest = length-bytes_from f (o + 1) n in ground arith

read_entry-entry_at :
    (message : String) (i j count : ℕ) (fs : Fs)
    → IsFile fs i
    → (fs.inode i).copy.size ≡ count * dirent_size
    → j < count
    → read_entry message i (j * dirent_size) fs ≡ ok (entry_at fs i j, fs)
unfolding read_entry check_entry
read_entry-entry_at message i j count fs is whole lt =
    let size : ℕ = (fs.inode i).copy.size in
    let inside : j * dirent_size ≤ size = rw whole (omega arith) in
    let full : min dirent_size (size - j * dirent_size) ≡ dirent_size = rw whole (ground arith) in
    let small : j * dirent_size + dirent_size < u32_mod = omega (arith, is.fits, whole) in
    let got = readi_file-bytes i (j * dirent_size) dirent_size fs is inside small in
    let number = length-bytes_from (byte_of fs i) (j * dirent_size) dirent_size in
    rw (got, full) (rw number refl)

-- Where the loop ends, and with which entry.
abbrev pub loop_end : Fs → ℕ → ℕ → Option ℕ → ℕ × Option (List ℕ) × Fs
loop_end fs i count none = (count * dirent_size, none, fs)
loop_end fs i count (some j) = (j * dirent_size, some (entry_at fs i j), fs)

pub find_entry-scan :
    (message : String) (test : List ℕ → Bool) (fuel i j count : ℕ) (fs : Fs)
    → IsFile fs i
    → (fs.inode i).copy.size ≡ count * dirent_size
    → j ≤ count
    → count ≤ j + fuel
    → find_entry message test fuel i (j * dirent_size) fs
      ≡ ok (loop_end fs i count (scan (λ k. test (entry_at fs i k)) (count - j) j))
unfolding find_entry scan
find_entry-scan message test zero i j count fs is whole le enough =
    let there : j ≡ count = omega arith in
    let none_left : count - j ≡ 0 = omega arith in rw (none_left, there) refl
find_entry-scan message test (suc fuel) i j count fs is whole le enough =
    elim (Bool-cases (ltb j count)) [
      | inr e ↦
          let there : j ≡ count = ground arith in
          let none_left : count - j ≡ 0 = omega arith in
          rw
            (
              none_left,
              there,
              whole,
              le→ltb (count * dirent_size) (count * dirent_size) (omega arith),
            )
            refl
      | inl e ↦
          let lt : j < count = ground arith in
          let inside : ltb (j * dirent_size) (count * dirent_size) ≡ true =
            lt→ltb _ (count * dirent_size) (omega arith) in
          let left : count - j ≡ suc (count - (j + 1)) = omega arith in
          let got = read_entry-entry_at message i j count fs is whole lt in
          let next : j * dirent_size + dirent_size ≡ (j + 1) * dirent_size = omega arith in
          let rest =
            find_entry-scan message test fuel i (j + 1) count fs is whole (omega arith)
              (omega arith) in
          rw (whole, inside, got, left)
            (elim (Bool-cases (test (entry_at fs i j))) [
              | inl hit ↦ rw hit refl
              | inr miss ↦ rw (miss, next) rest
            ])
    ]

-- What `dirlookup` does after its loop.
dirlookup-loop :
    (i count : ℕ) (name : ℕ → ℕ) (fs : Fs)
    → IsFile fs i
    → (fs.inode i).copy.kind ≡ t_dir
    → (fs.inode i).copy.size ≡ count * dirent_size
    → dirlookup i name fs
      ≡ found_entry i (loop_end fs i count (first (λ j. is_named name (entry_at fs i j)) count))
unfolding dirlookup first
dirlookup-loop i count name fs is kind whole =
    let all : count - 0 ≡ count = omega arith in
    let start : 0 * dirent_size ≡ 0 = refl in
    let loop =
      find_entry-scan "dirlookup read" (is_named name) (fs.inode i).copy.size i 0 count fs is whole
        (omega arith) (omega arith) in
    let found = rw all at loop in rw (kind, found) refl

-- The number and the name in the 16 bytes of an entry.
abbrev pub inum_of : List ℕ → ℕ
inum_of de = nth de 0 + 256 * nth de 1

-- The entry is in use and has the name, up to 14 bytes.
abbrev pub IsNamed : (ℕ → ℕ) → List ℕ → Type 0
IsNamed name de = (inum_of de ≢ 0) × (strncmp name (λ k. nth de (k + 2)) 14 0 ≡ pos 0)

-- The first of `count` entries that is in use and has the name, if there is one.
abbrev pub FirstNamed : Fs → ℕ → ℕ → (ℕ → ℕ) → Option ℕ → Type 0
FirstNamed fs i count name none = (j : ℕ) → j < count → ¬ (IsNamed name (entry_at fs i j))
FirstNamed fs i count name (some j) =
    (j < count)
    × IsNamed name (entry_at fs i j)
    × ((m : ℕ) → m < j → ¬ (IsNamed name (entry_at fs i m)))

-- Nothing, or the offset of entry `j` and the inode of its number on the directory's device.
abbrev pub looked_up : ℕ → Option ℕ → Fs → Outcome (Option (ℕ × ℕ) × Fs)
looked_up i none fs = ok (none, fs)
looked_up i (some j) fs = do
  (e, fs') ← iget (fs.inode i).dev (inum_of (entry_at fs i j)) fs
  ok (some (16 * j, e), fs')

zero_only :
    (z : ℤ) → (elim z as (λ x. Bool) [ pos n ↦ n == 0 | negsuc n ↦ false ]) ≡ true → z ≡ pos 0
zero_only (pos n) h = let zero_n : n ≡ 0 = ground arith in ap pos zero_n
zero_only (negsuc n) h = absurd (ground arith)

is_named-IsNamed : (name : ℕ → ℕ) (de : List ℕ) → is_named name de ≡ true → IsNamed name de
unfolding same_name
is_named-IsNamed name de h =
    let used : inum_of de ≢ 0 = λ zero_inum. absurd (ground (arith, zero_inum)) in
    (used, zero_only (strncmp name (λ k. nth de (k + 2)) 14 0) (ground arith))

IsNamed-is_named : (name : ℕ → ℕ) (de : List ℕ) → IsNamed name de → is_named name de ≡ true
unfolding same_name
IsNamed-is_named name de (used, equal) = rw (ne→== (inum_of de) 0 used, equal, same_name) refl

first-FirstNamed :
    (fs : Fs) (i count : ℕ) (name : ℕ → ℕ) (r : Option ℕ)
    → FirstNamed fs i count name r
    → first (λ j. is_named name (entry_at fs i j)) count ≡ r
first-FirstNamed fs i count name none no_entry =
    let test : ℕ → Bool = λ j. is_named name (entry_at fs i j) in
    elim (Option-cases (first test count)) [
      | inl gone ↦ gone
      | inr (j, found) ↦
          let (lt, hit) = first-some test count j found in
          absurd (no_entry j lt (is_named-IsNamed name (entry_at fs i j) hit))
    ]
first-FirstNamed fs i count name (some j) (lt, named, before) =
    let test : ℕ → Bool = λ m. is_named name (entry_at fs i m) in
    let hit : test j ≡ true = IsNamed-is_named name (entry_at fs i j) named in
    let (m, found, hit') = first_exists test count j lt hit in
    elim (Bool-cases (ltb m j)) [
      | inl e ↦
          let less : m < j = ground arith in
          absurd (before m less (is_named-IsNamed name (entry_at fs i m) hit'))
      | inr e ↦ elim (Bool-cases (ltb j m)) [
        | inl e' ↦
            let less : j < m = ground arith in
            let miss = first_before test count m j found less in absurd (cc (hit, miss))
        | inr e' ↦ let same : m ≡ j = ground arith in rw same at found
      ]
    ]

found_entry-looked_up :
    (i count : ℕ) (r : Option ℕ) (fs : Fs)
    → found_entry i (loop_end fs i count r) ≡ looked_up i r fs
unfolding found_entry
found_entry-looked_up i count none fs = refl
found_entry-looked_up i count (some j) fs =
    let place : j * dirent_size ≡ 16 * j = omega arith in rw place refl

-- In a directory with no holes whose size is a whole number of entries, let `r` be the first entry
-- that is in use (its number is not 0) and has the name, up to 14 bytes, or nothing if there is no
-- such entry. Then `dirlookup` finds nothing and changes nothing, or gives the offset of entry `r`
-- and what `iget` gives for the number in it on the directory's device.
pub dirlookup-first :
    (i count : ℕ) (name : ℕ → ℕ) (r : Option ℕ) (fs : Fs)
    → IsFile fs i
    → (fs.inode i).copy.kind ≡ t_dir
    → (fs.inode i).copy.size ≡ count * dirent_size
    → FirstNamed fs i count name r
    → dirlookup i name fs ≡ looked_up i r fs
dirlookup-first i count name r fs is kind whole found =
    let hit = first-FirstNamed fs i count name r found in
    let all = dirlookup-loop i count name fs is kind whole in
    (rw hit at all) ∙ found_entry-looked_up i count r fs
