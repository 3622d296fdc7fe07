-- ===== src/Log.antt =====
-- log.c: the write-ahead log. The disk has three regions: the home blocks, the blocks of the log
-- and the block of its header. `cache` is what `bread` returns for a home block; the blocks that
-- a transaction has changed differ there from the disk.
pub mod Crash
pub mod Atomic
pub mod Space
use xv6_system_calls.Prelude.{
  ℕ, zero, suc, ◌+◌, ◌-◌, ◌*◌, Bool, true, false, ◌||◌, Option, none, some, List, [], ◌∷◌, ◌++◌,
  ◌==◌, ltb, leb, if◌then◌else◌, first, update, Outcome, ok, panic, ◌>>=◌, Progress,
}
use xv6_system_calls.Kernel.{Kernel, Chan}
use xv6_system_calls.Wakeup.{wakeup, fall_asleep}

abbrev pub maxopblocks : ℕ
maxopblocks = 10

abbrev pub logsize : ℕ
logsize = maxopblocks * 3

-- `struct logheader`
pub record Header : Type 0 where
  pub n : ℕ
  pub block : ℕ → ℕ

-- `struct log`, without the place of the log on the disk.
pub record Log : Type 0 where
  pub size : ℕ
  pub outstanding : ℕ
  pub committing : Bool
  pub lh : Header

pub record Disk (B : Type 0) : Type 0 where
  pub home : ℕ → B
  pub log : ℕ → B
  pub head : Header

-- One block that is written.
pub data Write (B : Type 0) : Type 0 where
  to_home to_log : ℕ → B → Write B
  to_head : Header → Write B

-- The loop of `write_head`, into the buffer of the block that is on the disk.
abbrev pub copy_head : Header → Header → Header
copy_head lh hb = record { n = lh.n; block = λ i. if ltb i lh.n then lh.block i else hb.block i }

module _ {B : Type 0} where
  abbrev pub write : Write B → Disk B → Disk B
  write (Write.to_home bn b) d = record d { home = update d.home bn b }
  write (Write.to_log tail b) d = record d { log = update d.log tail b }
  write (Write.to_head lh) d = record d { head = copy_head lh d.head }

  unfoldable pub write_all : List (Write B) → Disk B → Disk B
  write_all [] d = d
  write_all (w ∷ ws) d = write_all ws (write w d)

  -- `write_log`: `n` rounds of its loop, from `tail` on.
  unfoldable pub write_log : (ℕ → B) → Header → ℕ → ℕ → List (Write B)
  write_log cache lh zero tail = []
  write_log cache lh (suc n) tail =
      Write.to_log tail (cache (lh.block tail)) ∷ write_log cache lh n (tail + 1)

  -- `install_trans`: `n` rounds of its loop, from `tail` on. `logged` are the log's blocks.
  unfoldable pub install_trans : (ℕ → B) → Header → ℕ → ℕ → List (Write B)
  install_trans logged lh zero tail = []
  install_trans logged lh (suc n) tail =
      Write.to_home (lh.block tail) (logged tail) ∷ install_trans logged lh n (tail + 1)

  -- The writes of `commit`, in their order, on the disk `d`.
  unfoldable pub commit : (ℕ → B) → Header → Disk B → List (Write B)
  commit cache lh d =
      let logging = write_log cache lh lh.n 0 in
      let logged = (write_all logging d).log in
      if ltb 0 lh.n
      then logging
        ++ Write.to_head lh
          ∷ (install_trans logged lh lh.n 0 ++ Write.to_head (record lh { n = 0 }) ∷ [])
      else []

  -- `read_head`; the blocks behind the first `n` are those of the header in memory.
  abbrev pub read_head : Header → Disk B → Header
  read_head lh d = copy_head d.head lh

  -- The writes of `recover_from_log`, in their order, on the disk `d`.
  unfoldable pub recover_from_log : Header → Disk B → List (Write B)
  recover_from_log lh d =
      let read = read_head lh d in
      install_trans d.log read read.n 0 ++ Write.to_head (record read { n = 0 }) ∷ []

-- `begin_op`: one round of its loop.
unfoldable pub begin_op :
    {E : Type 0} → ℕ → Log → Kernel E → Log × Kernel E × Progress (Unit {0}) (Unit {0})
begin_op cur log k =
    if log.committing
    then (log, fall_asleep cur Chan.log_chan k, Progress.asleep tt)
    else if ltb logsize (log.lh.n + (log.outstanding + 1) * maxopblocks)
    then (log, fall_asleep cur Chan.log_chan k, Progress.asleep tt)
    else (record log { outstanding = log.outstanding + 1 }, k, Progress.returned tt)

-- The first critical section of `end_op`, with `do_commit`. The counter is at least 1 there: the
-- caller has begun its operation.
unfoldable pub end_op : {E : Type 0} → Log → Kernel E → Outcome (Bool × Log × Kernel E)
end_op log k =
    let log1 = record log { outstanding = log.outstanding - 1 } in
    if log1.committing
    then panic "log.committing"
    else if log1.outstanding == 0
    then ok (true, record log1 { committing = true }, k)
    else ok (false, log1, wakeup Chan.log_chan k)

-- The header in memory after `commit`, and the second critical section of `end_op`.
unfoldable pub committed : {E : Type 0} → Log → Kernel E → Log × Kernel E
committed log k =
    (record log { lh = record log.lh { n = 0 }; committing = false }, wakeup Chan.log_chan k)

-- `log_write`: the search for the block, or for the place behind the last.
unfoldable pub log_write : ℕ → Log → Outcome Log
log_write blockno log =
    let lh = log.lh in
    if leb logsize lh.n || leb (log.size - 1) lh.n
    then panic "too big a transaction"
    else if ltb log.outstanding 1
    then panic "log_write outside of trans"
    else elim (first (λ i. lh.block i == blockno) lh.n) [
      | some i ↦ ok (record log { lh = record lh { block = update lh.block i blockno } })
      | none ↦
          ok (record log { lh = record { n = lh.n + 1; block = update lh.block lh.n blockno } })
    ]
