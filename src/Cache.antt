-- ===== src/Cache.antt =====
-- bio.c: the buffer cache. A buffer is its place in the array; the list through `prev` and `next`
-- is the list of the places, the most recently used first. `disk` is what `iderw` reads.
pub mod Unique
use xv6_system_calls.Prelude.{
  ℕ, zero, suc, ◌+◌, ◌-◌, ◌*◌, Bool, true, false, ◌&&◌, not, Option, none, some, List, [], ◌∷◌,
  ◌==◌, if◌then◌else◌, update, is_none, ◌%◌, u32_mod, sub32, Outcome, ok, panic, ◌>>=◌,
}
use xv6_system_calls.Locks.{Sleeplock, initsleeplock, holdingsleep}

abbrev pub nbuf : ℕ
nbuf = 30

-- `struct buf`; the two flags are B_VALID and B_DIRTY.
pub record Buf (B : Type 0) : Type 0 where
  pub valid : Bool
  pub dirty : Bool
  pub dev : ℕ
  pub blockno : ℕ
  pub lock : Sleeplock
  pub refcnt : ℕ
  pub bytes : B

pub record Cache (B : Type 0) : Type 0 where
  pub buf : ℕ → Buf B
  pub order : List ℕ

-- The first in the list that passes the test, and the last.
unfoldable pub find : (ℕ → Bool) → List ℕ → Option ℕ
find test [] = none
find test (b ∷ bs) = let rest = find test bs in if test b then some b else rest

unfoldable pub find_last : (ℕ → Bool) → List ℕ → Option ℕ
find_last test [] = none
find_last test (b ∷ bs) =
    let rest = find_last test bs in if is_none rest then (if test b then some b else none) else rest

pub without : ℕ → List ℕ → List ℕ
without b [] = []
without b (x ∷ xs) = let rest = without b xs in if x == b then rest else x ∷ rest

-- The loop of `binit`, for `n` buffers from the first on.
pub link_all : ℕ → List ℕ
link_all zero = []
link_all (suc n) = n ∷ link_all n

module _ {B : Type 0} where
  abbrev pub set_buf : Cache B → ℕ → Buf B → Cache B
  set_buf c b v = record c { buf = update c.buf b v }

  abbrev pub binit : (ℕ → Buf B) → Cache B
  unfolding link_all
  binit buf = record { buf = λ b. record (buf b) { lock = initsleeplock }; order = link_all nbuf }

  abbrev pub caches : Cache B → ℕ → ℕ → ℕ → Bool
  caches c dev blockno b = ((c.buf b).dev == dev) && ((c.buf b).blockno == blockno)

  abbrev pub unused : Cache B → ℕ → Bool
  unused c b = ((c.buf b).refcnt == 0) && not (c.buf b).dirty

  unfoldable pub recycle : ℕ → ℕ → Option ℕ → Cache B → Outcome (ℕ × Cache B)
  recycle dev blockno none c = panic "bget: no buffers"
  recycle dev blockno (some b) c = ok (
    b,
    set_buf c b (record (c.buf b) {
      dev = dev;
      blockno = blockno;
      valid = false;
      dirty = false;
      refcnt = 1;
    }),
  )

  unfoldable pub get_cached : ℕ → ℕ → Option ℕ → Cache B → Outcome (ℕ × Cache B)
  unfolding recycle
  get_cached dev blockno none c = recycle dev blockno (find_last (unused c) c.order) c
  get_cached dev blockno (some b) c =
      ok (b, set_buf c b (record (c.buf b) { refcnt = ((c.buf b).refcnt + 1) % u32_mod }))

  -- `bget`, up to the call of `acquiresleep` on the buffer that it returns.
  unfoldable pub bget : ℕ → ℕ → Cache B → Outcome (ℕ × Cache B)
  unfolding get_cached
  bget dev blockno c = get_cached dev blockno (find (caches c dev blockno) c.order) c

  -- `bread` from the return of `bget` on.
  unfoldable pub bread : (ℕ → ℕ → B) → ℕ → Cache B → Cache B
  bread disk b c =
      if (c.buf b).valid
      then c
      else set_buf c b (record (c.buf b) {
        bytes = disk (c.buf b).dev (c.buf b).blockno;
        valid = true;
        dirty = false;
      })

  -- `bwrite`: the block that goes to the disk, and the cache after `iderw`.
  unfoldable pub bwrite : ℕ → Cache B → Outcome (ℕ × ℕ × B × Cache B)
  bwrite b c =
      if not (holdingsleep (c.buf b).lock)
      then panic "bwrite"
      else ok (
        (c.buf b).dev,
        (c.buf b).blockno,
        (c.buf b).bytes,
        set_buf c b (record (c.buf b) { valid = true; dirty = false }),
      )

  -- `brelse`. The processes that `releasesleep` wakes are not part of the cache.
  unfoldable pub brelse : ℕ → Cache B → Outcome (Cache B)
  brelse b c =
      if not (holdingsleep (c.buf b).lock)
      then panic "brelse"
      else (let count = sub32 (c.buf b).refcnt 1 in
          let c1 = set_buf c b (record (c.buf b) { lock = initsleeplock; refcnt = count }) in
          if count == 0 then ok (record c1 { order = b ∷ without b c1.order }) else ok c1)
