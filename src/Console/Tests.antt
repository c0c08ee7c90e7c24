-- ===== src/Console/Tests.antt =====
-- A line that is typed with a correction and read, and the theorems of the console there.
use os_project.Prelude.{ℕ, ◌-◌, ◌^◌, ◌≡◌, refl, Bool, false, List, [], ◌∷◌, arith}
use os_project.Console.{Console, consoleintr, kill_line, rub_one, store, asleep, consoleread}
use os_project.Console.Editing.{IsValid, Edited, consoleintr-Edited}
use os_project.Console.Lines.{Got, consoleread-Got}

-- Empty, before the counters wrap.
abbrev late : Console
late = record { buf = λ j. 0; r = 2 ^ 32 - 2; w = 2 ^ 32 - 2; e = 2 ^ 32 - 2 }

late-IsValid : IsValid late
late-IsValid = record {
  r_word = omega arith;
  w_word = omega arith;
  e_word = omega arith;
  in_order = omega arith;
  fits = omega arith;
}

abbrev type_in : List ℕ → Console → Console
type_in [] c = c
type_in (ch ∷ l) c = type_in l (consoleintr ch c).cons

-- a, b, delete, c, return
abbrev typed : Console
typed = type_in (97 ∷ 98 ∷ 127 ∷ 99 ∷ 13 ∷ []) late

abbrev never : ℕ → Bool
never n = false

line_test : (consoleread never false 100 100 typed).1 ≡ 97 ∷ 99 ∷ 10 ∷ []
unfolding consoleread consoleintr rub_one store
line_test = refl

waits : (consoleread never false 100 100 (type_in (97 ∷ 98 ∷ []) late)).0 ≡ asleep 100
unfolding consoleread consoleintr rub_one store
waits = refl

killed_line : (type_in (97 ∷ 98 ∷ 21 ∷ []) late).e ≡ 2 ^ 32 - 2
unfolding consoleintr rub_one store kill_line
killed_line = refl

consoleintr-Edited_example : Edited late (consoleintr 97 late).cons
consoleintr-Edited_example = consoleintr-Edited 97 late late-IsValid

type_in-IsValid : (l : List ℕ) (c : Console) → IsValid c → IsValid (type_in l c)
type_in-IsValid [] c v = v
type_in-IsValid (ch ∷ l) c v =
    type_in-IsValid l (consoleintr ch c).cons (consoleintr-Edited ch c v).valid

consoleread-Got_example :
    Got typed (consoleread never false 5 5 typed).1 (consoleread never false 5 5 typed).2
consoleread-Got_example =
    consoleread-Got never false 5 5 typed
      (type_in-IsValid (97 ∷ 98 ∷ 127 ∷ 99 ∷ 13 ∷ []) late late-IsValid)
