-- ===== src/Examples/Descriptors.antt =====
-- The theorems on descriptors at a small machine. The shell's descriptors 0 and 1 are open on the
-- inode files 0 and 1; the first argument of its call is descriptor 0.
use xv6_system_calls.Prelude.{
  ℕ, zero, suc, ◌≡◌, refl, some, none, true, Option, arith, ok, panic, String, if◌then◌else◌, ◌==◌,
  first, ne→==, sum_below, count_below, ℤ, pos, Outcome,
}
use xv6_system_calls.Kernel.{Kernel, OpenFile, FileType}
use xv6_system_calls.File.{fileclose, filedup, close_object, put_inode}
use xv6_system_calls.File.Refs.{RefsMatch, refs_to}
use xv6_system_calls.Syscall.{Memory, argint, fetchint, load_word}
use xv6_system_calls.SysFile.{
  sys_dup, sys_close, sys_dup2, argfd, check_fd, dup_arg, dup_to, fdalloc, close_arg, dup2_args,
  close_new, finish_dup2,
}
use xv6_system_calls.SysFile.Refs.{sys_dup-RefsMatch, sys_close-RefsMatch, sys_dup2-RefsMatch}
use xv6_system_calls.SysFile.Dup2.{sys_dup2_self}
use xv6_system_calls.Examples.Machine.{machine, table, init, shell, command, no_file, lower}

-- The result and the state of a run.
abbrev ended : Kernel (Unit {0}) → Outcome (ℤ × Kernel (Unit {0})) → ℤ × Kernel (Unit {0})
ended default (ok r) = r
ended default (panic s) = (pos 0, default)

abbrev two_open : ℕ → Option ℕ
two_open zero = some 0
two_open (suc zero) = some 1
two_open _ = none

abbrev disk_file : OpenFile
disk_file = record no_file { kind = FileType.fd_inode; ref = 1; readable = true; ip = some 5 }

abbrev two_files : ℕ → OpenFile
two_files zero = disk_file
two_files (suc zero) = disk_file
two_files _ = no_file

abbrev opened : Kernel (Unit {0})
opened = record (machine (table init (record shell { ofile = two_open }) command)) {
  files = two_files;
}

-- The arguments 0 and `second`.
abbrev args : ℕ → Memory
args second a = if a == 0x108 then second else 0

opened-RefsMatch : RefsMatch opened
unfolding refs_to sum_below count_below
opened-RefsMatch zero = refl
opened-RefsMatch (suc zero) = refl
opened-RefsMatch (suc (suc f)) =
    rw (ne→== 1 (suc (suc f)) (omega arith), ne→== 0 (suc (suc f)) (omega arith)) (omega arith)

sys_close-RefsMatch_example : RefsMatch (ended opened (sys_close lower (args 1) 1 opened)).1
unfolding sys_close argfd check_fd argint fetchint load_word close_arg fileclose close_object
    put_inode
sys_close-RefsMatch_example =
    sys_close-RefsMatch lower (args 1) 1 (ended opened (sys_close lower (args 1) 1 opened)).0 opened
      (ended opened (sys_close lower (args 1) 1 opened)).1 (omega arith) opened-RefsMatch refl

sys_dup-RefsMatch_example : RefsMatch (ended opened (sys_dup (args 1) 1 opened)).1
unfolding sys_dup argfd check_fd argint fetchint load_word dup_arg dup_to fdalloc filedup first
sys_dup-RefsMatch_example =
    sys_dup-RefsMatch (args 1) 1 (ended opened (sys_dup (args 1) 1 opened)).0 opened
      (ended opened (sys_dup (args 1) 1 opened)).1 (omega arith) opened-RefsMatch refl

-- A store outside of `ofile` that changes nothing the model has.
abbrev lost : ℕ → ℕ → Option ℕ → Kernel (Unit {0}) → Kernel (Unit {0})
lost cur newfd d k = k

sys_dup2-RefsMatch_example : RefsMatch (ended opened (sys_dup2 lower lost (args 1) 9 1 opened)).1
unfolding sys_dup2 argfd check_fd argint fetchint load_word dup2_args close_new finish_dup2 filedup
    fileclose close_object put_inode
sys_dup2-RefsMatch_example =
    sys_dup2-RefsMatch lower lost (args 1) 9 1 0 0 1 1
      (ended opened (sys_dup2 lower lost (args 1) 9 1 opened)).0 opened
      (ended opened (sys_dup2 lower lost (args 1) 9 1 opened)).1 (omega arith) opened-RefsMatch refl
      refl refl

sys_dup2_self_example : (s : String) × (sys_dup2 lower lost (args 0) 9 1 opened ≡ panic s)
unfolding argfd check_fd argint fetchint load_word
sys_dup2_self_example = sys_dup2_self lower lost (args 0) 9 1 0 0 opened refl refl refl
