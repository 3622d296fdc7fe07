-- ===== src/Examples/Calls.antt =====
-- The theorems on the arguments of system calls and on their counters at a small machine. The
-- word at the first argument's place is the address 0x200 of the string "hi".
use xv6_system_calls.Prelude.{
  ℕ, ◌+◌, ◌%◌, ◌^◌, ◌≤◌, ◌<◌, ◌≡◌, refl, some, arith, ok, ◌>>=◌, word_of, pos, u32_mod,
  if◌then◌else◌, ◌==◌, Outcome, ℤ,
}
use xv6_system_calls.Kernel.{Kernel}
use xv6_system_calls.Syscall.{
  Memory, load_word, fetchint, argint, argptr, check_ptr, syscall, set_eax,
}
use xv6_system_calls.Syscall.Args.{argptr-within}
use xv6_system_calls.Process.Info.{getcount, word_at}
use xv6_system_calls.Syscall.Dispatch.{syscall-getcount}
use xv6_system_calls.Examples.Machine.{shell, init, command, machine, table, frame}

abbrev memory : Memory
memory a = if a == 0x105 then 2 else if a == 0x200 then 0x68 else if a == 0x201 then 0x69 else 0

argptr-within_example :
    (argint memory shell 0 ≡ some 0x200)
    × (0x200 + 16 ≤ shell.sz)
    × (0x200 < shell.sz)
    × (16 < 2 ^ 31)
unfolding argptr argint fetchint check_ptr load_word
argptr-within_example = argptr-within memory shell (omega arith) 0 16 0x200 refl

-- A handler that only reports the number of the call.
abbrev handlers : ℕ → ℕ → Kernel (Unit {0}) → Outcome (ℤ × Kernel (Unit {0}))
handlers num cur k = ok (pos num, k)

abbrev calling : ℕ → Kernel (Unit {0})
calling num = machine (table init (record shell { tf = frame num }) command)

-- The call of number 30 is `dup2`.
syscall-getcount_example :
    (k1 : Kernel (Unit {0})) × (syscall handlers 1 (calling 30)
      ≡ (do (r, k2) ← handlers 30 1 k1; ok (set_eax 1 (word_of r) k2)))
    × (getcount 1 30 k1 ≡ some ((0 + 1) % u32_mod))
    × (getcount 1 5 k1 ≡ getcount 1 5 (calling 30))
unfolding getcount word_at
syscall-getcount_example =
    syscall-getcount handlers 1 (calling 30) 30 5 0 refl (omega arith) (omega arith)
      (λ e. absurd (omega arith)) refl
