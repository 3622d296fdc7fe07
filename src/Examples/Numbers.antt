-- ===== src/Examples/Numbers.antt =====
-- The user library's numbers: -4095, as a word.
use xv6_system_calls.Prelude.{◌≡◌, true, arith}
use xv6_system_calls.Ulib.{atoi, printint}
use xv6_system_calls.Ulib.RoundTrip.{atoi-printint}

atoi-printint_example : atoi (printint 0xFFFF_F001 10 true) ≡ 0xFFFF_F001
atoi-printint_example = atoi-printint 0xFFFF_F001 (omega arith) (omega arith)
