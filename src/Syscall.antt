-- ===== src/Syscall.antt =====
-- syscall.c: the arguments of a system call, and the dispatcher. The memory of a process is a
-- function from the address to the byte.
pub mod Args
pub mod Dispatch
use xv6_system_calls.Prelude.{
  ℕ, zero, suc, ◌+◌, ◌-◌, ◌*◌, ◌%◌, ◌^◌, Bool, ◌&&◌, ◌||◌, Option, none, some, List, ◌==◌, ltb, leb,
  if◌then◌else◌, first, u32_mod, ℤ, pos, minus_one, word_of, Outcome, ok, panic, ◌>>=◌,
}
use xv6_system_calls.Kernel.{Kernel, Proc, set_proc}
use xv6_system_calls.Process.Info.{bump_count}

abbrev pub Memory : Type 0
Memory = ℕ → ℕ

-- `*(int*)addr`, as a word.
unfoldable pub load_word : Memory → ℕ → ℕ
load_word m a = m a + 0x100 * m (a + 1) + 0x1_0000 * m (a + 2) + 0x100_0000 * m (a + 3)

module _ (m : Memory) (p : Proc) where
  -- The word that `*ip` gets; `none` is the return of -1.
  unfoldable pub fetchint : ℕ → Option ℕ
  fetchint addr =
      if leb p.sz addr || ltb p.sz ((addr + 4) % u32_mod) then none else some (load_word m addr)

  -- The length that is returned; the string is `addr` itself.
  unfoldable pub fetchstr : ℕ → Option ℕ
  fetchstr addr = if leb p.sz addr then none else first (λ i. m (addr + i) == 0) (p.sz - addr)

  unfoldable pub argint : ℕ → Option ℕ
  unfolding fetchint
  argint n = fetchint ((p.tf.esp + 4 + 4 * n) % u32_mod)

  -- The pointer that `*pp` gets. `size` is an `int`: from 2^31 on it is negative.
  unfoldable pub check_ptr : ℕ → Option ℕ → Option ℕ
  check_ptr size none = none
  check_ptr size (some i) =
      if leb (2 ^ 31) size || (leb p.sz i || ltb p.sz ((i + size) % u32_mod)) then none else some i

  unfoldable pub argptr : ℕ → ℕ → Option ℕ
  unfolding check_ptr argint
  argptr n size = check_ptr size (argint n)

  check_str : Option ℕ → Option (ℕ × ℕ)
  unfolding fetchstr
  check_str none = none
  check_str (some addr) = elim (fetchstr addr) [ none ↦ none | some len ↦ some (addr, len) ]

  -- The address and the length of a string argument.
  unfoldable pub argstr : ℕ → Option (ℕ × ℕ)
  unfolding check_str argint
  argstr n = check_str (argint n)

-- The size of `syscalls`, 1 + SYS_dup2. Each number from 1 on has its entry.
abbrev pub nsyscalls : ℕ
nsyscalls = 31

abbrev pub set_eax : {E : Type 0} → ℕ → ℕ → Kernel E → Kernel E
set_eax cur v k = set_proc k cur (record (k.procs cur) { tf = record (k.procs cur).tf { eax = v } })

module _ {E : Type 0} (syscalls : ℕ → ℕ → Kernel E → Outcome (ℤ × Kernel E)) where
  -- `syscall`, over the table of handlers.
  unfoldable pub syscall : ℕ → Kernel E → Outcome (Kernel E)
  syscall cur k =
      let num = (k.procs cur).tf.eax in
      if ltb 0 num && ltb num nsyscalls
      then (do
        (r, k) ← syscalls num cur (set_proc k cur (bump_count num (k.procs cur)))
        ok (set_eax cur (word_of r) k))
      else ok (set_eax cur (word_of minus_one) k)
