-- ===== src/Fs/Path.antt =====
-- The path names of fs.c: `skipelem`, `namex`, `namei`, `nameiparent`. A path is the list of its
-- bytes, without the NUL at its end.
use xv6_system_calls.Prelude.{
  ℕ, zero, suc, Bool, true, false, not, ◌&&◌, Option, none, some, List, [], ◌∷◌, ◌==◌, leb,
  if◌then◌else◌, update, length, take, Outcome, ok, panic, ◌>>=◌,
}
use xv6_system_calls.Fs.{Fs, t_dir}
use xv6_system_calls.Fs.Inode.{iget, idup, ilock, iunlock, iput, iunlockput}
use xv6_system_calls.Fs.Content.{copy_to}
use xv6_system_calls.Fs.Directory.{dirsiz, dirlookup}

-- '/'
abbrev pub slash : ℕ
slash = 47

abbrev pub rootdev : ℕ
rootdev = 1

abbrev pub rootino : ℕ
rootino = 1

-- `while(*path == '/') path++;`
unfoldable pub skip_slashes : List ℕ → List ℕ
skip_slashes [] = []
skip_slashes (c ∷ cs) = if c == slash then skip_slashes cs else c ∷ cs

-- `while(*path != '/' && *path != 0) path++;`: the bytes that it passes, and what is left.
unfoldable pub element : List ℕ → List ℕ
element [] = []
element (c ∷ cs) = let rest = element cs in if c == slash then [] else c ∷ rest

unfoldable pub after_element : List ℕ → List ℕ
after_element [] = []
after_element (c ∷ cs) = if c == slash then c ∷ cs else after_element cs

-- What `name` gets of the element `s`.
unfoldable pub set_name : List ℕ → (ℕ → ℕ) → ℕ → ℕ
set_name s name =
    if leb dirsiz (length s)
    then copy_to name 0 (take dirsiz s)
    else update (copy_to name 0 s) (length s) 0

unfoldable pub skip_name : List ℕ → (ℕ → ℕ) → Option (List ℕ × (ℕ → ℕ))
skip_name [] name = none
skip_name (c ∷ cs) name =
    some (skip_slashes (after_element (c ∷ cs)), set_name (element (c ∷ cs)) name)

-- `skipelem`: the rest of the path and the new `name`.
unfoldable pub skipelem : List ℕ → (ℕ → ℕ) → Option (List ℕ × (ℕ → ℕ))
unfolding skip_name
skipelem path name = skip_name (skip_slashes path) name

abbrev pub is_nil : List ℕ → Bool
is_nil [] = true
is_nil (c ∷ cs) = false

-- What `namex` gives: the inode, if any, and `name`.
abbrev pub Walk : Type 0
Walk = Outcome (Option ℕ × (ℕ → ℕ) × Fs)

unfoldable pub give_up : ℕ → (ℕ → ℕ) → Fs → Walk
give_up i name fs = do fs ← iunlockput i fs; ok (none, name, fs)

-- The round of the loop after `dirlookup`; `walk` is the rest of the loop.
unfoldable pub enter : (ℕ → Fs → Walk) → ℕ → (ℕ → ℕ) → Option (ℕ × ℕ) × Fs → Walk
unfolding give_up
enter walk i name (none, fs) = give_up i name fs
enter walk i name (some (off, e), fs) = do fs ← iunlockput i fs; walk e fs

-- A round of the loop, with the inode `i`, the path after the element and the element in `name`.
unfoldable pub walk_element : (ℕ → Fs → Walk) → Bool → List ℕ → (ℕ → ℕ) → ℕ → Fs → Walk
unfolding give_up enter
walk_element walk parent rest name i fs = do
  fs ← ilock i fs
  let is_dir = (fs.inode i).copy.kind == t_dir
  if not is_dir
      then give_up i name fs
      else if parent && is_nil rest
      then (do fs ← iunlock i fs; ok (some i, name, fs))
      else do r ← dirlookup i name fs; enter walk i name r

-- The end of `namex`, when no element is left.
unfoldable pub end_walk : Bool → (ℕ → ℕ) → ℕ → Fs → Walk
end_walk true name i fs = do fs ← iput i fs; ok (none, name, fs)
end_walk false name i fs = ok (some i, name, fs)

-- The loop of `namex`, in at most `fuel` rounds.
unfoldable pub walk_path : ℕ → Bool → List ℕ → (ℕ → ℕ) → ℕ → Fs → Walk
unfolding end_walk
walk_path zero parent path name i fs = panic "no fuel"
walk_path (suc fuel) parent path name i fs = elim (skipelem path name) [
  | none ↦ end_walk parent name i fs
  | some (rest, name') ↦
      walk_element (λ e fs. walk_path fuel parent rest name' e fs) parent rest name' i fs
]

-- `*path == '/'`
abbrev pub is_absolute : List ℕ → Bool
is_absolute [] = false
is_absolute (c ∷ cs) = c == slash

-- `namex`, for a process whose directory is `cwd`. `name` is what the array held before.
unfoldable pub namex : ℕ → List ℕ → Bool → (ℕ → ℕ) → Fs → Walk
namex cwd path parent name fs = do
  (i, fs) ← (if is_absolute path then iget rootdev rootino fs else ok (cwd, idup cwd fs))
  walk_path (suc (length path)) parent path name i fs

unfoldable pub namei : ℕ → List ℕ → (ℕ → ℕ) → Fs → Outcome (Option ℕ × Fs)
namei cwd path name fs = do (r, name, fs) ← namex cwd path false name fs; ok (r, fs)

abbrev pub nameiparent : ℕ → List ℕ → (ℕ → ℕ) → Fs → Walk
nameiparent cwd path name fs = namex cwd path true name fs
