-- ===== src/Examples/Typing.antt =====
-- A console whose reader has taken four bytes, with three that it has not taken, and one key after
-- the other.
use xv6_system_calls.Prelude.{ℕ, ◌≡◌, refl, false, List, [], ◌∷◌, arith, pos, returned, ◌+◌}
use xv6_system_calls.Console.{Console, consoleintr, consoleread}
use xv6_system_calls.Console.Editing.{IsInput, KeepsReady, consoleintr-KeepsReady}
use xv6_system_calls.Console.Lines.{consoleread-consoleintr}
use xv6_system_calls.Examples.Machine.{busy}

abbrev console : Console
console = record {
  buf = λ i. 97 + i;
  r = 4;
  w = 7;
  e = 8;
  shown = [];
  doprocdump = false;
  shutdown = false;
}

console-IsInput : IsInput console
console-IsInput = record {
  small_r = omega arith;
  small_w = omega arith;
  small_e = omega arith;
  written = omega arith;
  fits = omega arith;
}

-- `h`, `i`, a backspace, a newline, `x`, and `C('U')`.
abbrev keys : List ℕ
keys = 104 ∷ 105 ∷ 8 ∷ 10 ∷ 120 ∷ 21 ∷ []

consoleintr-KeepsReady_example :
    IsInput (consoleintr keys console busy).0 × KeepsReady console (consoleintr keys console busy).0
consoleintr-KeepsReady_example = consoleintr-KeepsReady keys console busy console-IsInput

abbrev at_rest : Console
at_rest = record console { w = 4; e = 4 }

consoleread-consoleintr_example :
    (let (next, woken) = consoleintr (104 ∷ 105 ∷ 10 ∷ []) at_rest busy in
      (consoleread 1 100 [] next woken).0)
    ≡ returned (pos 3, 104 ∷ 105 ∷ 10 ∷ [])
consoleread-consoleintr_example =
    consoleread-consoleintr (104 ∷ 105 ∷ []) 1 100 at_rest busy (omega arith) refl refl
      (refl, (refl, tt)) (omega arith) (omega arith)
