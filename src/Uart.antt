-- ===== src/Uart.antt =====
-- Xv6/kernel/uart.c: the buffer of bytes to send, which uartputc fills and uartstart empties as long as
-- the device takes bytes. The registers of the device are parameters.
use os_project.Prelude.{
  ℕ, zero, suc, ◌+◌, ◌-◌, ◌%◌, ◌^◌, Bool, true, false, not, Option, none, some, List, [], ◌∷◌, ◌==◌,
  if◌then◌else◌,
}
use os_project.Console.{Console, Outcome, consoleintr}
pub mod Sending
mod Tests

-- UART_TX_BUF_SIZE
abbrev pub tx_size : ℕ
tx_size = 32

-- `uart_tx_buf`, `uart_tx_w` and `uart_tx_r`; the counters are uint64s.
pub record Uart : Type 0 where
  pub buf : ℕ → ℕ
  pub w : ℕ
  pub r : ℕ

abbrev pub word : ℕ
word = 2 ^ 64

abbrev pub next : ℕ → ℕ
next x = (x + 1) % word

-- The loop of `uartstart` for at most so many rounds: the bytes that it sends. `is_idle` is what
-- LSR_TX_IDLE says at its reads, by the bytes sent before.
unfoldable pub uartstart : (is_idle : ℕ → Bool) (rounds sent : ℕ) → Uart → List ℕ × Uart
uartstart is_idle zero sent u = ([], u)
uartstart is_idle (suc n) sent u =
    let ch = u.buf (u.r % tx_size) in
    let rest = uartstart is_idle n (sent + 1) (record u { r = next u.r }) in
    if u.w == u.r then ([], u) else if not (is_idle sent) then ([], u) else (ch ∷ rest.0, rest.1)

abbrev pub stored : ℕ → Uart → Uart
stored ch u = record u { buf = λ j. if j == u.w % tx_size then ch else u.buf j; w = next u.w }

-- `uartputc` where no panic has stopped the output; `none` is that it sleeps, as the buffer is full.
unfoldable pub uartputc : (is_idle : ℕ → Bool) → ℕ → Uart → Option (List ℕ × Uart)
uartputc is_idle ch u =
    if u.w == (u.r + tx_size) % word
    then none
    else some (uartstart is_idle (tx_size + 1) 0 (stored ch u))

-- The loop of `uartintr` over the characters that `uartgetc` returns before its -1.
unfoldable pub receive : List ℕ → Console → Console
receive [] c = c
receive (ch ∷ l) c = receive l (consoleintr ch c).cons

unfoldable pub uartintr :
    (received : List ℕ) (is_idle : ℕ → Bool) → Console → Uart → Console × List ℕ × Uart
uartintr received is_idle c u =
    let r = uartstart is_idle (tx_size + 1) 0 u in (receive received c, r.0, r.1)
