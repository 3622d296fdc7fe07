-- ===== src/Fs/Walks.antt =====
-- `namex` of fs.c walks along the elements of a path: `walk_all` is that walk, by recursion on the
-- elements.
use mathlib.Core.Path.{fun_ext}
use xv6_system_calls.Prelude.{
  ℕ, zero, suc, ok, ◌>>=◌, not, ◌&&◌, ◌<◌, ◌≡◌, refl, ap, inl, inr, Bool, some, List, [], ◌∷◌, ◌==◌,
  if◌then◌else◌, arith, length,
}
use xv6_system_calls.Fs.{Fs, t_dir}
use xv6_system_calls.Fs.Inode.{iget, idup, ilock, iunlock}
use xv6_system_calls.Fs.Directory.{dirlookup}
use xv6_system_calls.Fs.Path.{
  set_name, Walk, walk_path, walk_element, give_up, enter, end_walk, namex, is_absolute, rootdev,
  rootino,
}
use xv6_system_calls.Fs.Elements.{elements, none_left, skipelem-element}

-- The walk along the elements of a path, without a bound: what `namex` is for.
unfoldable pub walk_all : Bool → List (List ℕ) → (ℕ → ℕ) → ℕ → Fs → Walk
walk_all parent [] name i fs = end_walk parent name i fs
walk_all parent (e ∷ es) name i fs = do
  fs ← ilock i fs
  let is_dir = (fs.inode i).copy.kind == t_dir
  if not is_dir
      then give_up i (set_name e name) fs
      else if parent && none_left es
      then (do fs ← iunlock i fs; ok (some i, set_name e name, fs))
      else (do
        r ← dirlookup i (set_name e name) fs
        enter (walk_all parent es (set_name e name)) i (set_name e name) r)

-- A round of the walk at the element `e`, whose rest is `walk`.
abbrev walk_round : (ℕ → Fs → Walk) → Bool → List ℕ → Bool → (ℕ → ℕ) → ℕ → Fs → Walk
walk_round walk parent e last name i fs = do
  fs ← ilock i fs
  let is_dir = (fs.inode i).copy.kind == t_dir
  if not is_dir
      then give_up i (set_name e name) fs
      else if parent && last
      then (do fs ← iunlock i fs; ok (some i, set_name e name, fs))
      else (do r ← dirlookup i (set_name e name) fs; enter walk i (set_name e name) r)

walk_path-walk_all :
    (fuel : ℕ) (parent : Bool) (path : List ℕ) (name : ℕ → ℕ) (i : ℕ) (fs : Fs)
    → length path < fuel
    → walk_path fuel parent path name i fs ≡ walk_all parent (elements path) name i fs
unfolding walk_path walk_element walk_all
walk_path-walk_all zero parent path name i fs enough = absurd (omega arith)
walk_path-walk_all (suc fuel) parent path name i fs enough = elim (skipelem-element path name) [
  | inl (gone, empty) ↦ rw (gone, empty, walk_path, walk_all) refl
  | inr (e, rest, taken, takes) ↦
      let same : (e' : ℕ) (fs' : Fs)
          → walk_path fuel parent rest (set_name e name) e' fs'
            ≡ walk_all parent (elements rest) (set_name e name) e' fs' =
        λ e' fs'.
          walk_path-walk_all fuel parent rest (set_name e name) e' fs'
            (omega (arith, takes.shorter, enough)) in
      rw (taken, takes.parts, takes.last, walk_path, walk_all)
        (ap
          (λ (walk : ℕ → Fs → Walk). walk_round walk parent e (none_left (elements rest)) name i fs)
          (fun_ext (λ e'. fun_ext (λ fs'. same e' fs'))))
]

-- `namex` has enough rounds for its loop: it does what the walk along the elements of the path
-- does, one after the other, from the root for a path that starts with a slash and from the
-- process's directory otherwise, whatever the path. In particular it never ends because its rounds
-- ran out.
pub namex-walk_all :
    (cwd : ℕ) (path : List ℕ) (parent : Bool) (name : ℕ → ℕ) (fs : Fs)
    → namex cwd path parent name fs ≡ (do
      (i, fs) ← (if is_absolute path then iget rootdev rootino fs else ok (cwd, idup cwd fs))
      walk_all parent (elements path) name i fs)
unfolding namex
namex-walk_all cwd path parent name fs =
    ap
      (λ (walk : ℕ → Fs → Walk).
        (if is_absolute path then iget rootdev rootino fs else ok (cwd, idup cwd fs))
        >>= (λ start. walk start.0 start.1))
      (fun_ext (λ i.
        fun_ext
          (λ fs'. walk_path-walk_all (suc (length path)) parent path name i fs' (omega arith))))
