-- ===== src/Fs/Directory.antt =====
-- The directories of fs.c: `namecmp`, `dirlookup`, `dirlink`. A directory entry is its 16 bytes: a
-- number and a name. These functions come after a test for `T_DIR`, so `readi` and `writei` take
-- their path for files.
use xv6_system_calls.Prelude.{
  ℕ, zero, suc, ◌+◌, ◌*◌, ◌/◌, ◌%◌, Bool, true, false, not, ◌&&◌, String, Option, none, some, List,
  ◌∷◌, ◌==◌, ltb, if◌then◌else◌, length, pos, negsuc, Outcome, ok, panic, ◌>>=◌,
}
use xv6_system_calls.Strings.{strncmp, strncpy}
use xv6_system_calls.Fs.{Fs, t_dir}
use xv6_system_calls.Fs.Inode.{iget, iput}
use xv6_system_calls.Fs.Content.{bytes_from, nth, readi_file, writei_file}

abbrev pub dirsiz : ℕ
dirsiz = 14

abbrev pub dirent_size : ℕ
dirent_size = 16

-- `de.inum` and `de.name`
abbrev pub entry_inum : List ℕ → ℕ
entry_inum de = nth de 0 + 256 * nth de 1

abbrev pub entry_name : List ℕ → ℕ → ℕ
entry_name de k = nth de (k + 2)

-- `namecmp(s, t) == 0`
unfoldable pub same_name : (ℕ → ℕ) → (ℕ → ℕ) → Bool
same_name s t = elim (strncmp s t dirsiz 0) [ pos n ↦ n == 0 | negsuc n ↦ false ]

unfoldable pub check_entry : String → Option (List ℕ) → Fs → Outcome (List ℕ × Fs)
check_entry message none fs = panic message
check_entry message (some de) fs = if length de == dirent_size then ok (de, fs) else panic message

-- `if(readi(dp, (char*)&de, off, sizeof(de)) != sizeof(de)) panic(message);`
unfoldable pub read_entry : String → ℕ → ℕ → Fs → Outcome (List ℕ × Fs)
unfolding check_entry
read_entry message i off fs = do (r, fs) ← readi_file i off dirent_size fs; check_entry message r fs

-- The loop over the entries from `off` on, up to one that passes the test: where it ended, and
-- the entry.
unfoldable pub find_entry :
    String → (List ℕ → Bool) → ℕ → ℕ → ℕ → Fs → Outcome (ℕ × Option (List ℕ) × Fs)
find_entry message test zero i off fs = ok (off, none, fs)
find_entry message test (suc fuel) i off fs =
    let round = (do
      (de, fs) ← read_entry message i off fs
      if test de
          then ok (off, some de, fs)
          else find_entry message test fuel i (off + dirent_size) fs) in
    if ltb off (fs.inode i).copy.size then round else ok (off, none, fs)

abbrev pub is_named : (ℕ → ℕ) → List ℕ → Bool
is_named name de = not (entry_inum de == 0) && same_name name (entry_name de)

unfoldable pub found_entry : ℕ → ℕ × Option (List ℕ) × Fs → Outcome (Option (ℕ × ℕ) × Fs)
found_entry i (off, none, fs) = ok (none, fs)
found_entry i (off, some de, fs) = do
  (e, fs) ← iget (fs.inode i).dev (entry_inum de) fs
  ok (some (off, e), fs)

-- `dirlookup`: the offset of the entry and the inode.
unfoldable pub dirlookup : ℕ → (ℕ → ℕ) → Fs → Outcome (Option (ℕ × ℕ) × Fs)
unfolding found_entry
dirlookup i name fs =
    let size = (fs.inode i).copy.size in
    if (fs.inode i).copy.kind == t_dir
    then (do r ← find_entry "dirlookup read" (is_named name) size i 0 fs; found_entry i r)
    else panic "dirlookup not DIR"

-- The bytes of an entry, whose name `strncpy` fills up with NULs.
abbrev pub entry : (ℕ → ℕ) → ℕ → List ℕ
entry name inum =
    inum % 256 ∷ inum / 256 % 256 ∷ bytes_from (strncpy (λ k. 0) name dirsiz 0) 0 dirsiz

abbrev pub is_free : List ℕ → Bool
is_free de = entry_inum de == 0

-- `if(writei(dp, (char*)&de, off, sizeof(de)) != sizeof(de)) panic(message);`
unfoldable pub check_write : String → Option ℕ → Fs → Outcome Fs
check_write message none fs = panic message
check_write message (some n) fs = if n == dirent_size then ok fs else panic message

unfoldable pub write_entry : String → ℕ → ℕ → List ℕ → Fs → Outcome Fs
unfolding check_write
write_entry message i off de fs = do (r, fs) ← writei_file i off de fs; check_write message r fs

unfoldable pub link_entry : ℕ → (ℕ → ℕ) → ℕ → Option (ℕ × ℕ) × Fs → Outcome (Bool × Fs)
link_entry i name inum (some (off, e), fs) = do fs ← iput e fs; ok (false, fs)
link_entry i name inum (none, fs) = do
  (off, r, fs) ← find_entry "dirlink read" is_free (fs.inode i).copy.size i 0 fs
  fs ← write_entry "dirlink" i off (entry name inum) fs
  ok (true, fs)

-- `dirlink`: `false` is its -1, for a name that is present.
unfoldable pub dirlink : ℕ → (ℕ → ℕ) → ℕ → Fs → Outcome (Bool × Fs)
unfolding link_entry
dirlink i name inum fs = do r ← dirlookup i name fs; link_entry i name inum r

-- `isdirempty`: the loop starts after "." and "..".
unfoldable pub isdirempty : ℕ → Fs → Outcome (Bool × Fs)
isdirempty i fs = do
  (off, r, fs) ←
      find_entry "isdirempty: readi" (λ de. not (is_free de)) (fs.inode i).copy.size i
        (2 * dirent_size) fs
  ok (elim r [ none ↦ true | some de ↦ false ], fs)
