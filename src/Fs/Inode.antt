-- ===== src/Fs/Inode.antt =====
-- The inodes of fs.c: `ialloc`, `iupdate`, `iget`, `idup`, `ilock`, `iunlock`, `bmap`, `itrunc`,
-- `iput`. A cached inode is its place in the cache. Where a process finds an inode's lock held it
-- sleeps, which is no run of this model: it ends there, with the message of `asleep`.
use xv6_system_calls.Prelude.{
  ℕ, zero, suc, ◌+◌, ◌-◌, ◌*◌, true, false, ◌&&◌, ◌||◌, not, String, Option, none, some, ◌==◌, ltb,
  if◌then◌else◌, first, scan, update, Outcome, ok, panic, ◌>>=◌,
}
use xv6_system_calls.Syscall.{load_word}
use xv6_system_calls.Fs.{
  Fs, Dinode, CachedInode, ndirect, nindirect, ninode, log_block, inode_block, balloc, bfree,
  store_word,
}

abbrev pub asleep : String
asleep = "asleep on the lock of an inode"

abbrev pub set_inode : ℕ → CachedInode → Fs → Fs
set_inode i c fs = record fs { inode = update fs.inode i c }

abbrev pub set_copy : ℕ → Dinode → Fs → Fs
set_copy i d fs = set_inode i (record (fs.inode i) { copy = d }) fs

-- `ip->addrs[slot]`
abbrev pub slot_of : Fs → ℕ → ℕ → ℕ
slot_of fs i slot = (fs.inode i).copy.addrs slot

abbrev pub set_slot : ℕ → ℕ → ℕ → Fs → Fs
set_slot i slot a fs =
    set_copy i (record (fs.inode i).copy { addrs = update (fs.inode i).copy.addrs slot a }) fs

unfoldable pub iupdate : ℕ → Fs → Fs
iupdate i fs =
    let inum = (fs.inode i).inum in
    log_block (inode_block inum fs) (record fs { dinode = update fs.dinode inum (fs.inode i).copy })

unfoldable pub iget_empty : ℕ → ℕ → Option ℕ → Fs → Outcome (ℕ × Fs)
iget_empty dev inum none fs = panic "iget: no inodes"
iget_empty dev inum (some e) fs =
    ok (e, set_inode e (record (fs.inode e) { dev = dev; inum = inum; ref = 1; valid = false }) fs)

-- `iget`: the entry that holds the inode, or the first that nobody refers to.
unfoldable pub iget : ℕ → ℕ → Fs → Outcome (ℕ × Fs)
unfolding iget_empty
iget dev inum fs =
    elim (first
      (λ e. ltb 0 (fs.inode e).ref && ((fs.inode e).dev == dev) && ((fs.inode e).inum == inum))
      ninode) [
        | some e ↦ ok (e, set_inode e (record (fs.inode e) { ref = (fs.inode e).ref + 1 }) fs)
        | none ↦ iget_empty dev inum (first (λ e. (fs.inode e).ref == 0) ninode) fs
      ]

abbrev pub no_dinode : ℕ → Dinode
no_dinode kind = record { kind = kind; major = 0; minor = 0; nlink = 0; size = 0; addrs = λ s. 0 }

-- `ialloc`, the search from inode 1 on.
unfoldable pub ialloc : ℕ → ℕ → Fs → Outcome (ℕ × Fs)
ialloc dev kind fs = elim (scan (λ inum. (fs.dinode inum).kind == 0) (fs.sb.ninodes - 1) 1) [
  | none ↦ panic "ialloc: no inodes"
  | some inum ↦ iget dev inum (
      log_block (inode_block inum fs)
        (record fs { dinode = update fs.dinode inum (no_dinode kind) }))
]

unfoldable pub idup : ℕ → Fs → Fs
idup i fs = set_inode i (record (fs.inode i) { ref = (fs.inode i).ref + 1 }) fs

-- The part of `ilock` with the lock held.
unfoldable pub read_inode : ℕ → Fs → Outcome Fs
read_inode i fs =
    let d = fs.dinode (fs.inode i).inum in
    if (fs.inode i).valid
    then ok fs
    else if d.kind == 0
    then panic "ilock: no type"
    else ok (set_inode i (record (fs.inode i) { copy = d; valid = true }) fs)

unfoldable pub acquire_inode : ℕ → Fs → Outcome Fs
acquire_inode i fs =
    if (fs.inode i).locked
    then panic asleep
    else ok (set_inode i (record (fs.inode i) { locked = true }) fs)

abbrev pub release_inode : ℕ → Fs → Fs
release_inode i fs = set_inode i (record (fs.inode i) { locked = false }) fs

unfoldable pub ilock : ℕ → Fs → Outcome Fs
unfolding acquire_inode read_inode
ilock i fs =
    if ltb (fs.inode i).ref 1 then panic "ilock" else do fs ← acquire_inode i fs; read_inode i fs

unfoldable pub iunlock : ℕ → Fs → Outcome Fs
iunlock i fs =
    if not (fs.inode i).locked || ltb (fs.inode i).ref 1
    then panic "iunlock"
    else ok (release_inode i fs)

-- `if((addr = ip->addrs[slot]) == 0) ip->addrs[slot] = addr = balloc(ip->dev);`
unfoldable pub map_slot : ℕ → ℕ → Fs → Outcome (ℕ × Fs)
map_slot i slot fs =
    if slot_of fs i slot == 0
    then (do (a, fs) ← balloc fs; ok (a, set_slot i slot a fs))
    else ok (slot_of fs i slot, fs)

-- The same for the word `j` of the indirect block.
unfoldable pub map_word : ℕ → ℕ → Fs → Outcome (ℕ × Fs)
map_word indirect j fs =
    let addr = load_word (fs.block indirect) (4 * j) in
    if addr == 0
    then (do
      (a, fs) ← balloc fs
      ok (
        a,
        log_block indirect
            (record fs { block = update fs.block indirect (store_word (fs.block indirect) j a) }),
      ))
    else ok (addr, fs)

unfoldable pub bmap : ℕ → ℕ → Fs → Outcome (ℕ × Fs)
bmap i bn fs =
    if ltb bn ndirect
    then map_slot i bn fs
    else if ltb (bn - ndirect) nindirect
    then (do (indirect, fs) ← map_slot i ndirect fs; map_word indirect (bn - ndirect) fs)
    else panic "bmap: out of range"

abbrev pub free_if_set : ℕ → Fs → Outcome Fs
free_if_set a fs = if a == 0 then ok fs else bfree a fs

-- The loops of `itrunc`, `n` rounds from `s` on, and from the word `j` on.
unfoldable pub free_slots : ℕ → ℕ → ℕ → Fs → Outcome Fs
free_slots i zero s fs = ok fs
free_slots i (suc n) s fs = do
  fs ←
      (if slot_of fs i s == 0
        then ok fs
        else (do fs ← bfree (slot_of fs i s) fs; ok (set_slot i s 0 fs)))
  free_slots i n (s + 1) fs

unfoldable pub free_words : ℕ → ℕ → ℕ → Fs → Outcome Fs
free_words indirect zero j fs = ok fs
free_words indirect (suc n) j fs = do
  fs ← free_if_set (load_word (fs.block indirect) (4 * j)) fs
  free_words indirect n (j + 1) fs

unfoldable pub free_indirect : ℕ → Fs → Outcome Fs
free_indirect i fs =
    let indirect = slot_of fs i ndirect in
    if indirect == 0 then ok fs else do
      fs ← free_words indirect nindirect 0 fs
      fs ← bfree indirect fs
      ok (set_slot i ndirect 0 fs)

unfoldable pub itrunc : ℕ → Fs → Outcome Fs
itrunc i fs = do
  fs ← free_slots i ndirect 0 fs
  fs ← free_indirect i fs
  ok (iupdate i (set_copy i (record (fs.inode i).copy { size = 0 }) fs))

-- What `iput` does to an inode with no links that nobody else refers to.
unfoldable pub free_inode : ℕ → Fs → Outcome Fs
free_inode i fs = do
  fs ← itrunc i fs
  let fs = iupdate i (set_copy i (record (fs.inode i).copy { kind = 0 }) fs)
  ok (set_inode i (record (fs.inode i) { valid = false }) fs)

unfoldable pub iput : ℕ → Fs → Outcome Fs
iput i fs = do
  fs ← acquire_inode i fs
  let c = fs.inode i
  fs ← (if c.valid && (c.copy.nlink == 0) && (c.ref == 1) then free_inode i fs else ok fs)
  let fs = release_inode i fs
  ok (set_inode i (record (fs.inode i) { ref = (fs.inode i).ref - 1 }) fs)

unfoldable pub iunlockput : ℕ → Fs → Outcome Fs
iunlockput i fs = do fs ← iunlock i fs; iput i fs
