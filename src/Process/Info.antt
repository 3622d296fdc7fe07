-- ===== src/Process/Info.antt =====
-- The calls of proc.c that report on a process or change its priority: `cps`, `getppid`, `getsz`,
-- `chpr`, `getcount`, and `growproc`.
use xv6_system_calls.Prelude.{
  ℕ, zero, suc, ◌+◌, ◌-◌, Option, none, some, List, [], ◌∷◌, ◌==◌, ltb, if◌then◌else◌, first,
  update, ℤ, pos, negsuc, minus_one, int_of, Outcome, ok, ◌>>=◌, u32_mod, ◌%◌,
}
use xv6_system_calls.Kernel.{Kernel, Lower, Proc, ProcState, nproc, sys_cn, set_proc}

-- A row that `cps` prints: name, pid, priority and state, for the three states that it shows.
pub record Row : Type 0 where
  pub name : ℕ → ℕ
  pub pid : ℤ
  pub priority : ℤ
  pub state : ProcState

abbrev pub row : Proc → Row
row p = record { name = p.name; pid = int_of p.pid; priority = int_of p.priority; state = p.state }

cps_row : Proc → ProcState → List Row → List Row
cps_row p ProcState.sleeping rows = row p ∷ rows
cps_row p ProcState.runnable rows = row p ∷ rows
cps_row p ProcState.running rows = row p ∷ rows
cps_row p _ rows = rows

-- The loop of `cps` over `n` entries from `i` on.
pub cps_rows : (ℕ → Proc) → ℕ → ℕ → List Row
unfolding cps_row
cps_rows procs zero i = []
cps_rows procs (suc n) i = cps_row (procs i) (procs i).state (cps_rows procs n (i + 1))

-- The words of `struct proc` from `sys_count - 1` on, by their place: `priority`, `sys_count`,
-- and the four times behind it. A place that is none of these is outside of the structure.
unfoldable pub word_at : Proc → ℕ → Option ℕ
word_at p zero = some p.priority
word_at p (suc i) =
    if ltb i sys_cn
    then some (p.sys_count i)
    else if i == sys_cn
    then some p.arrivalt
    else if i == sys_cn + 1
    then some p.endt
    else if i == sys_cn + 2
    then some p.burstt
    else if i == sys_cn + 3
    then some p.iot
    else none

-- The word at a place of the structure changes; a place outside of it is left alone.
unfoldable pub set_word : Proc → ℕ → ℕ → Proc
set_word p zero w = record p { priority = w }
set_word p (suc i) w =
    if ltb i sys_cn
    then record p { sys_count = update p.sys_count i w }
    else if i == sys_cn
    then record p { arrivalt = w }
    else if i == sys_cn + 1
    then record p { endt = w }
    else if i == sys_cn + 2
    then record p { burstt = w }
    else if i == sys_cn + 3
    then record p { iot = w }
    else p

-- `(p->sys_count[num - 1])++`: like `getcount`, it does not test the array's bound, and reaches
-- the word that lies at that place of the structure.
unfoldable pub bump_count : ℕ → Proc → Proc
bump_count num p = elim (word_at p num) [ none ↦ p | some w ↦ set_word p num ((w + 1) % u32_mod) ]

module _ {E : Type 0} where
  -- `cps`: what it prints, and the 22 that it returns.
  unfoldable pub cps : Kernel E → List Row × ℤ
  unfolding cps_rows
  cps k = (cps_rows k.procs nproc 0, pos 22)

  -- `myproc()->parent->pid`; `none` is the read through a null parent.
  unfoldable pub getppid : ℕ → Kernel E → Option ℤ
  getppid cur k = elim (k.procs cur).parent [ none ↦ none | some i ↦ some (int_of (k.procs i).pid) ]

  unfoldable pub getsz : ℕ → Kernel E → ℤ
  getsz cur k = int_of (k.procs cur).sz

  unfoldable pub chpr : ℕ → ℕ → Kernel E → ℤ × Kernel E
  chpr pid priority k = elim (first (λ i. (k.procs i).pid == pid) nproc) [
    | none ↦ (int_of pid, k)
    | some i ↦ (int_of pid, set_proc k i (record (k.procs i) { priority = priority }))
  ]

  -- `myproc()->sys_count[procno - 1]`; `none` where that is no word of `struct proc` that is
  -- modelled. A negative `procno`, as a word, is such a place.
  unfoldable pub getcount : ℕ → ℕ → Kernel E → Option ℕ
  unfolding word_at
  getcount cur procno k = word_at (k.procs cur) procno

module _ {E : Type 0} (lower : Lower E) where
  resize : ℕ → ℕ × List ℕ × E → Kernel E → ℤ × Kernel E
  resize cur (zero, pages, env) k = (minus_one, record k { free_pages = pages; env = env })
  resize cur (suc sz, pages, env) k = (
    pos 0,
    set_proc (record k { free_pages = pages; env = env }) cur
        (record (k.procs cur) { sz = suc sz }),
  )

  -- `growproc(n)`, `n` as an `int`; the sum `sz + n` is taken in 32 bits.
  unfoldable pub growproc : ℕ → ℤ → Kernel E → Outcome (ℤ × Kernel E)
  unfolding resize
  growproc cur (pos zero) k = ok (pos 0, k)
  growproc cur (pos (suc n)) k = do
    let p = k.procs cur
    r ← lower.allocuvm p.pgdir p.sz ((p.sz + suc n) % u32_mod) k.free_pages k.env
    ok (resize cur r k)
  growproc cur (negsuc n) k = do
    let p = k.procs cur
    r ← lower.deallocuvm p.pgdir p.sz ((p.sz + u32_mod - suc n) % u32_mod) k.free_pages k.env
    ok (resize cur r k)
