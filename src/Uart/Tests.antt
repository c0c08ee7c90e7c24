-- ===== src/Uart/Tests.antt =====
-- A device that takes two bytes and is busy then, and the theorem of the serial line there.
use os_project.Prelude.{
  ℕ, ◌+◌, ◌<◌, ◌≡◌, ◌⊎◌, refl, Bool, Option, none, some, List, [], ◌∷◌, ◌++◌, ltb, arith,
}
use os_project.Uart.{Uart, tx_size, uartstart, uartputc}
use os_project.Uart.Sending.{IsValid, waiting, pending, Sent, uartputc-Sent}

-- Three bytes are waiting.
abbrev three : Uart
three = record { buf = λ j. j + 65; w = 3; r = 0 }

three-IsValid : IsValid three
three-IsValid = record { w_word = omega arith; r_word = omega arith; fits = omega arith }

abbrev takes_two : ℕ → Bool
takes_two k = ltb k 2

abbrev sent_of : Option (List ℕ × Uart) → List ℕ
sent_of none = []
sent_of (some r) = r.0

two_test : sent_of (uartputc takes_two 90 three) ≡ 65 ∷ 66 ∷ []
unfolding uartputc uartstart
two_test = refl

uartputc-Sent_example :
    (waiting three ≡ tx_size) × (uartputc takes_two 90 three ≡ none)
    ⊎ (waiting three < tx_size)
      × ((l : List ℕ) × (d : Uart) × (uartputc takes_two 90 three ≡ some (l, d))
          × Sent l d (pending three ++ (90 ∷ [])))
uartputc-Sent_example = uartputc-Sent takes_two 90 three three-IsValid
