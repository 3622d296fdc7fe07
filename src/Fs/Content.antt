-- ===== src/Fs/Content.antt =====
-- The contents of a file: `readi`, `writei` and `stati` of fs.c.
use xv6_system_calls.Prelude.{
  ℕ, zero, suc, ◌+◌, ◌-◌, ◌*◌, ◌/◌, ◌%◌, ◌&&◌, ◌||◌, Option, none, some, List, [], ◌∷◌, ◌++◌, ◌==◌,
  ltb, leb, if◌then◌else◌, update, length, take, drop, u32_mod, Outcome, ok, ◌>>=◌,
}
use xv6_system_calls.Fs.{Fs, bsize, maxfile, t_dev, log_block}
use xv6_system_calls.Fs.Inode.{bmap, set_copy, iupdate}

abbrev pub ndev : ℕ
ndev = 10

-- `devsw`, over the state `D` of the devices: the bytes that a device gives, or the number that
-- it takes, and `none` for its return of -1. `none` in the table is a null pointer.
pub record Devsw (D : Type 0) : Type 0 where
  pub read : ℕ → Option (ℕ → D → Option (List ℕ) × D)
  pub write : ℕ → Option (List ℕ → D → Option ℕ × D)

abbrev pub min : ℕ → ℕ → ℕ
min a b = if ltb a b then a else b

abbrev pub max : ℕ → ℕ → ℕ
max a b = if ltb a b then b else a

-- The `n` bytes from `o` on.
unfoldable pub bytes_from : (ℕ → ℕ) → ℕ → ℕ → List ℕ
bytes_from f o zero = []
bytes_from f o (suc n) = f o ∷ bytes_from f (o + 1) n

abbrev pub nth : List ℕ → ℕ → ℕ
nth [] i = 0
nth (x ∷ xs) zero = x
nth (x ∷ xs) (suc i) = nth xs i

-- `memmove` of bytes to the offset `o`.
abbrev pub copy_to : (ℕ → ℕ) → ℕ → List ℕ → ℕ → ℕ
copy_to f o src p = if leb o p && ltb p (o + length src) then nth src (p - o) else f p

-- The loop of `readi`, with the bytes left, in at most `fuel` rounds.
unfoldable pub read_loop : ℕ → ℕ → ℕ → ℕ → Fs → Outcome (List ℕ × Fs)
read_loop zero i off left fs = ok ([], fs)
read_loop (suc fuel) i off left fs =
    let m = min left (bsize - off % bsize) in
    let round = (do
      (a, fs) ← bmap i (off / bsize) fs
      (rest, fs') ← read_loop fuel i (off + m) (left - m) fs
      ok (bytes_from (fs.block a) (off % bsize) m ++ rest, fs')) in
    if left == 0 then ok ([], fs) else round

-- The loop of `writei`, with the bytes left.
unfoldable pub write_loop : ℕ → ℕ → ℕ → List ℕ → Fs → Outcome Fs
write_loop zero i off src fs = ok fs
write_loop (suc fuel) i off src fs =
    let m = min (length src) (bsize - off % bsize) in
    let round = (do
      (a, fs) ← bmap i (off / bsize) fs
      write_loop fuel i (off + m) (drop m src) (
          log_block a (record fs {
            block = update fs.block a (copy_to (fs.block a) (off % bsize) (take m src));
          }))) in
    if length src == 0 then ok fs else round

-- The guards of `readi` and its loop: `n` bytes from `off` on, or what there is of them.
unfoldable pub readi_file : ℕ → ℕ → ℕ → Fs → Outcome (Option (List ℕ) × Fs)
readi_file i off n fs =
    let size = (fs.inode i).copy.size in
    let count = if ltb size ((off + n) % u32_mod) then size - off else n in
    if ltb size off || ltb ((off + n) % u32_mod) off
    then ok (none, fs)
    else do (bytes, fs) ← read_loop count i off count fs; ok (some bytes, fs)

-- The end of `writei`: the file grows to `end`.
unfoldable pub grow : ℕ → ℕ → ℕ → Fs → Fs
grow i end n fs =
    if ltb 0 n && ltb (fs.inode i).copy.size end
    then iupdate i (set_copy i (record (fs.inode i).copy { size = end }) fs)
    else fs

unfoldable pub writei_file : ℕ → ℕ → List ℕ → Fs → Outcome (Option ℕ × Fs)
unfolding grow
writei_file i off src fs =
    let n = length src in
    if ltb (fs.inode i).copy.size off || ltb ((off + n) % u32_mod) off
    then ok (none, fs)
    else if ltb (maxfile * bsize) ((off + n) % u32_mod)
    then ok (none, fs)
    else do fs ← write_loop n i off src fs; ok (some n, grow i (off + n) n fs)

module _ {D : Type 0} (devsw : Devsw D) where
  dev_read : Option (ℕ → D → Option (List ℕ) × D) → ℕ → D → Option (List ℕ) × D
  dev_read none n d = (none, d)
  dev_read (some f) n d = f n d

  dev_write : Option (List ℕ → D → Option ℕ × D) → List ℕ → D → Option ℕ × D
  dev_write none src d = (none, d)
  dev_write (some f) src d = f src d

  -- `readi`: the bytes that it copies to `dst`, whose number it returns; `none` is its -1.
  unfoldable pub readi : ℕ → ℕ → ℕ → Fs → D → Outcome (Option (List ℕ) × Fs × D)
  unfolding dev_read readi_file
  readi i off n fs d =
      let ip = (fs.inode i).copy in
      if ip.kind == t_dev
      then (let r = dev_read (if leb ndev ip.major then none else devsw.read ip.major) n d in
          ok (r.0, fs, r.1))
      else do (r, fs) ← readi_file i off n fs; ok (r, fs, d)

  -- `writei`, of the bytes `src`.
  unfoldable pub writei : ℕ → ℕ → List ℕ → Fs → D → Outcome (Option ℕ × Fs × D)
  unfolding dev_write writei_file
  writei i off src fs d =
      let ip = (fs.inode i).copy in
      if ip.kind == t_dev
      then (let r = dev_write (if leb ndev ip.major then none else devsw.write ip.major) src d in
          ok (r.0, fs, r.1))
      else do (r, fs) ← writei_file i off src fs; ok (r, fs, d)

-- `struct stat`, as `stati` fills it in.
pub record Stat : Type 0 where
  pub dev : ℕ
  pub ino : ℕ
  pub kind : ℕ
  pub nlink : ℕ
  pub size : ℕ

abbrev pub stati : ℕ → Fs → Stat
stati i fs = record {
  dev = (fs.inode i).dev;
  ino = (fs.inode i).inum;
  kind = (fs.inode i).copy.kind;
  nlink = (fs.inode i).copy.nlink;
  size = (fs.inode i).copy.size;
}
