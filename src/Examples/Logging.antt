-- ===== src/Examples/Logging.antt =====
-- The theorems on the log at a transaction of the blocks 5 and 9.
use xv6_system_calls.Prelude.{ltb, ℕ, zero, ◌+◌, ◌≡◌, refl, ◌⊎◌, ◌==◌, if◌then◌else◌}
use xv6_system_calls.Log.{
  Header, Disk, write_all, write_log, install_trans, commit, recover_from_log,
}
use xv6_system_calls.Log.Crash.{CrashAt, with_transaction}
use xv6_system_calls.Log.Atomic.{Restarts, recover_from_log-commit, write_all-commit}

abbrev no_header : Header
no_header = record { n = 0; block = λ i. 0 }

abbrev two_blocks : ℕ → ℕ
two_blocks zero = 5
two_blocks _ = 9

abbrev transaction : Header
transaction = record { n = 2; block = two_blocks }

abbrev changed : ℕ → ℕ
changed bn = bn + 100

abbrev disk : Disk ℕ
disk = record { home = λ bn. bn; log = λ i. 0; head = no_header }

-- The disk after the two blocks of the log and the header.
abbrev after_three : Disk ℕ
after_three = record {
  home = λ bn. bn;
  log = λ i. if i == 1 then 109 else if i == 0 then 105 else 0;
  head = record { n = 2; block = λ i. if ltb i 2 then two_blocks i else 0 };
}

three_writes : CrashAt (commit changed transaction disk) disk after_three
unfolding commit write_log install_trans
three_writes = CrashAt.later (CrashAt.later (CrashAt.later CrashAt.here))

recover_from_log-commit_example :
    ((bn : ℕ)
      → (write_all (recover_from_log no_header after_three) after_three).home bn ≡ disk.home bn)
    ⊎ ((bn : ℕ)
        → (write_all (recover_from_log no_header after_three) after_three).home bn
          ≡ with_transaction changed transaction disk.home bn)
recover_from_log-commit_example =
    recover_from_log-commit changed transaction no_header disk after_three after_three refl
      three_writes Restarts.running

write_all-commit_example :
    ((write_all (commit changed transaction disk) disk).home 9
      ≡ with_transaction changed transaction disk.home 9)
    × ((write_all (commit changed transaction disk) disk).head.n ≡ 0)
write_all-commit_example = write_all-commit changed transaction disk 9 refl
