-- ===== src/Log/Space.antt =====
-- The space in the log, and which operations may run at once.
use xv6_system_calls.Prelude.{
  ℕ, zero, suc, ◌+◌, ◌*◌, ◌≤◌, ◌<◌, ◌≡◌, refl, ap, sym, ◌∙◌, inl, inr, Bool, true, false, ◌||◌,
  arith, ◌==◌, Bool-cases, Option-cases, update, ne→==, ==→eq, first, first-some, first-none, ok,
  Progress,
}
use xv6_system_calls.Kernel.{Kernel, Chan}
use xv6_system_calls.Wakeup.{fall_asleep}
use xv6_system_calls.Log.{Log, Header, begin_op, end_op, log_write, logsize, maxopblocks}
use xv6_system_calls.Log.Crash.{logged_in, logged_in-block, logged_in-same}

-- No block stands twice in the header, and all fit in it.
pub record IsLog (log : Log) : Type 0 where
  pub fits : log.lh.n ≤ logsize
  pub distinct : (i j : ℕ) → i < log.lh.n → j < log.lh.n → log.lh.block i ≡ log.lh.block j → i ≡ j

logged_in-snoc :
    (lh : Header) (n tail bn : ℕ)
    → logged_in lh (n + 1) tail bn ≡ (logged_in lh n tail bn || (bn == lh.block (tail + n)))
unfolding logged_in
logged_in-snoc lh zero tail bn = ground arith
logged_in-snoc lh (suc n) tail bn =
    let rest = logged_in-snoc lh n (tail + 1) bn in
    let place : tail + 1 + n ≡ tail + suc n = omega arith in ground (arith, rest, place)

-- Where `begin_op` lets an operation in, the log is not being committed, and has room for the most
-- blocks that each operation in progress may write, this one among them.
begin_op-fits :
    {E : Type 0} (cur : ℕ) (log log' : Log) (k k' : Kernel E)
    → begin_op cur log k ≡ (log', k', Progress.returned tt)
    → (log'.lh.n + log'.outstanding * maxopblocks ≤ logsize)
      × (log'.outstanding ≡ log.outstanding + 1)
      × (log.committing ≡ false)
unfolding begin_op
begin_op-fits cur log log' k k' h = ground arith

-- `end_op` starts a commit only where no other operation is in progress, and while the commit runs
-- no operation begins: `begin_op` goes to sleep.
begin_op-end_op :
    {E : Type 0} (cur : ℕ) (log log' : Log) (k k' k2 : Kernel E)
    → end_op log k ≡ ok (true, log', k')
    → (log.outstanding ≤ 1)
      × (log'.outstanding ≡ 0)
      × ((k'' : Kernel E) × (begin_op cur log' k2 ≡ (log', k'', Progress.asleep tt)))
unfolding end_op begin_op
begin_op-end_op cur log log' k k' k2 h =
    let begun : log.outstanding ≤ 1 = ground arith in
    let idle : log'.outstanding ≡ 0 = ground arith in
    let busy : log'.committing ≡ true = ground arith in
    (begun, idle, (fall_asleep cur Chan.log_chan k2, rw busy refl))

or_comm : (a b : Bool) → (a || b) ≡ (b || a)
or_comm a b = ground arith

log_write-found :
    (bn i : ℕ) (lh : Header) (j : ℕ) → lh.block i ≡ bn → update lh.block i bn j ≡ lh.block j
log_write-found bn i lh j e = elim (Bool-cases (j == i)) [
  | inl same ↦ rw (same, ==→eq j i same) (sym e)
  | inr other ↦ rw other refl
]

log_write-added :
    (bn other : ℕ) (lh : Header)
    → logged_in (record { n = lh.n + 1; block = update lh.block lh.n bn }) (lh.n + 1) 0 other
      ≡ ((other == bn) || logged_in lh lh.n 0 other)
log_write-added bn other lh =
    let lh' : Header = record { n = lh.n + 1; block = update lh.block lh.n bn } in
    let snoc = logged_in-snoc lh' lh.n 0 other in
    let last : lh'.block (0 + lh.n) ≡ bn = ground arith in
    let before : logged_in lh' lh.n 0 other ≡ logged_in lh lh.n 0 other =
      logged_in-same lh' lh lh.n 0 other (λ j l. rw (ne→== j lh.n (omega arith)) refl) in
    snoc ∙ rw (before, last) (or_comm (logged_in lh lh.n 0 other) (other == bn))

-- Where `log_write` returns, it keeps the header well formed, and the header names the block that
-- is written and the blocks that it named before, each of them once.
log_write-IsLog :
    (bn other : ℕ) (log log' : Log)
    → IsLog log
    → log_write bn log ≡ ok log'
    → IsLog log'
      × (logged_in log'.lh log'.lh.n 0 other ≡ ((other == bn) || logged_in log.lh log.lh.n 0 other))
unfolding log_write
log_write-IsLog bn other log log' is h =
    let lh : Header = log.lh in
    elim (Option-cases (first (λ i. lh.block i == bn) lh.n)) [
      | inr (i, found) ↦
          let (lt, hit) = first-some (λ i. lh.block i == bn) lh.n i found in
          let it : lh.block i ≡ bn = ==→eq (lh.block i) bn hit in
          let lh' : Header = record lh { block = update lh.block i bn } in
          let end : log' ≡ record log { lh = lh' } = ground arith in
          let same : ((j : ℕ) → lh'.block j ≡ lh.block j) = λ j. log_write-found bn i lh j it in
          rw end (
            record {
              fits = is.fits;
              distinct = λ x y hx hy e. is.distinct x y hx hy (sym (same x) ∙ e ∙ same y);
            },
            logged_in-same lh' lh lh.n 0 other (λ j l. same j) ∙ elim (Bool-cases (other == bn)) [
              | inl e ↦ rw e (
                  ap (logged_in lh lh.n 0) (==→eq other bn e ∙ sym it)
                  ∙ logged_in-block lh lh.n 0 i (omega arith) (omega arith))
              | inr e ↦ rw e refl
            ],
          )
      | inl missing ↦
          let none_is : ((j : ℕ) → j < lh.n → (lh.block j == bn) ≡ false) =
            λ j l. first-none (λ i. lh.block i == bn) lh.n j missing l in
          let lh' : Header = record { n = lh.n + 1; block = update lh.block lh.n bn } in
          let end : log' ≡ record log { lh = lh' } = ground arith in
          let room : lh.n < logsize = ground arith in
          rw end (
            record {
              fits = omega arith;
              distinct = λ x y hx hy e. ground (arith, none_is x, none_is y, is.distinct x y);
            },
            log_write-added bn other lh,
          )
    ]
