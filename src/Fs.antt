-- ===== src/Fs.antt =====
-- fs.c: the state of the file system, and its free blocks. The disk is kept by its regions: the
-- bits of the free map, the inodes, and the bytes of the data blocks. `logged` are the numbers of
-- the blocks that went to `log_write`, the last one first; `ops` counts the operations between
-- their `begin_op` and `end_op`.
pub mod Inode
pub mod Map
pub mod Content
pub mod Blocks
pub mod Bytes
pub mod Bmap
pub mod Copy
pub mod Write
pub mod Contents
pub mod Directory
pub mod Path
pub mod Handles
pub mod Calls
pub mod Create
pub mod Open
pub mod Names
pub mod Elements
pub mod Walks
pub mod Unique
pub mod Stored
pub mod Entries
pub mod After
pub mod AfterInode
pub mod AfterPath
pub mod Released
pub mod AfterCreate
pub mod Discipline
pub mod Chunks
use xv6_system_calls.Prelude.{
  ℕ, zero, suc, ◌+◌, ◌*◌, ◌/◌, ◌%◌, ◌^◌, Bool, true, false, not, Option, none, some, List, [], ◌∷◌,
  ◌==◌, if◌then◌else◌, first, update, Outcome, ok, panic, ◌>>=◌,
}

abbrev pub bsize : ℕ
bsize = 512

abbrev pub ndirect : ℕ
ndirect = 12

abbrev pub nindirect : ℕ
nindirect = 128

abbrev pub maxfile : ℕ
maxfile = 140

abbrev pub ninode : ℕ
ninode = 50

-- Inodes of a block, and bits of a block.
abbrev pub ipb : ℕ
ipb = 8

abbrev pub bpb : ℕ
bpb = 4096

-- The types of stat.h.
abbrev pub t_dir : ℕ
t_dir = 1

abbrev pub t_file : ℕ
t_file = 2

abbrev pub t_dev : ℕ
t_dev = 3

-- `struct superblock`, the fields that fs.c uses.
pub record Superblock : Type 0 where
  pub size : ℕ
  pub ninodes : ℕ
  pub inodestart : ℕ
  pub bmapstart : ℕ

-- `struct dinode`; the type is `kind`.
pub record Dinode : Type 0 where
  pub kind : ℕ
  pub major : ℕ
  pub minor : ℕ
  pub nlink : ℕ
  pub size : ℕ
  pub addrs : ℕ → ℕ

-- `struct inode`; `locked` says whether its sleep lock is held.
pub record CachedInode : Type 0 where
  pub dev : ℕ
  pub inum : ℕ
  pub ref : ℕ
  pub locked : Bool
  pub valid : Bool
  pub copy : Dinode

pub record Fs : Type 0 where
  pub sb : Superblock
  pub used : ℕ → Bool
  pub dinode : ℕ → Dinode
  pub block : ℕ → ℕ → ℕ
  pub inode : ℕ → CachedInode
  pub logged : List ℕ
  pub ops : ℕ

abbrev pub log_block : ℕ → Fs → Fs
log_block b fs = record fs { logged = b ∷ fs.logged }

-- `BBLOCK` and `IBLOCK`
abbrev pub bitmap_block : ℕ → Fs → ℕ
bitmap_block b fs = b / bpb + fs.sb.bmapstart

abbrev pub inode_block : ℕ → Fs → ℕ
inode_block i fs = i / ipb + fs.sb.inodestart

abbrev pub bzero : ℕ → Fs → Fs
bzero b fs = log_block b (record fs { block = update fs.block b (λ o. 0) })

-- A free block is taken and zeroed.
abbrev pub take_block : ℕ → Fs → Fs
take_block b fs =
    bzero b (log_block (bitmap_block b fs) (record fs { used = update fs.used b true }))

-- `balloc`: its two loops visit the blocks from 0 up.
unfoldable pub balloc : Fs → Outcome (ℕ × Fs)
balloc fs = elim (first (λ b. not (fs.used b)) fs.sb.size) [
  | none ↦ panic "balloc: out of blocks"
  | some b ↦ ok (b, take_block b fs)
]

unfoldable pub bfree : ℕ → Fs → Outcome Fs
bfree b fs =
    if fs.used b
    then ok (log_block (bitmap_block b fs) (record fs { used = update fs.used b false }))
    else panic "freeing free block"

-- `a[j] = w` in a block read as words, the low byte first.
abbrev pub store_word : (ℕ → ℕ) → ℕ → ℕ → ℕ → ℕ
store_word bytes j w o = if o / 4 == j then w / 256 ^ (o % 4) % 256 else bytes o
