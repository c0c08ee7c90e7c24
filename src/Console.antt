-- ===== src/Console.antt =====
-- Xv6/kernel/console.c: the input buffer with its three counters, which consoleintr fills and edits and
-- consoleread empties, and the bytes that go to the serial line. Each function holds `cons.lock` but
-- where consoleread sleeps.
use os_project.Prelude.{
  ℕ, zero, suc, ◌+◌, ◌-◌, ◌%◌, ◌^◌, Bool, true, false, ◌&&◌, ◌||◌, not, Option, none, some, List,
  [], ◌∷◌, ◌++◌, ◌==◌, ltb, if◌then◌else◌,
}
pub mod Editing
pub mod Lines
mod Tests

-- INPUT_BUF_SIZE
abbrev pub input_buf_size : ℕ
input_buf_size = 128

-- The counters are uints.
pub record Console : Type 0 where
  pub buf : ℕ → ℕ
  pub r : ℕ
  pub w : ℕ
  pub e : ℕ

abbrev pub incr : ℕ → ℕ
incr x = (x + 1) % 2 ^ 32

abbrev pub decr : ℕ → ℕ
decr x = (x + (2 ^ 32 - 1)) % 2 ^ 32

-- b - a
abbrev pub distance : ℕ → ℕ → ℕ
distance a b = (b + (2 ^ 32 - a)) % 2 ^ 32

-- The characters that these functions look at.
abbrev pub ctrl_d : ℕ
ctrl_d = 4

abbrev pub backspace : ℕ
backspace = 8

abbrev pub newline : ℕ
newline = 10

abbrev pub carriage_return : ℕ
carriage_return = 13

abbrev pub ctrl_p : ℕ
ctrl_p = 16

abbrev pub ctrl_u : ℕ
ctrl_u = 21

abbrev pub delete : ℕ
delete = 127

-- `consputc(BACKSPACE)`; `consputc` of a character sends just that.
abbrev pub rub_out : List ℕ
rub_out = 8 ∷ 32 ∷ 8 ∷ []

-- What `consoleintr` changes, whether it wakes readers up, and what it echoes.
pub record Outcome : Type 0 where
  pub cons : Console
  pub wakes : Bool
  pub echo : List ℕ

-- The loop of control-U.
unfoldable pub kill_line : ℕ → Console → List ℕ → Outcome
kill_line zero c echo = record { cons = c; wakes = false; echo = echo }
kill_line (suc n) c echo =
    let rest = kill_line n (record c { e = decr c.e }) (echo ++ rub_out) in
    if not (c.e == c.w) && not (c.buf (decr c.e % input_buf_size) == newline)
    then rest
    else record { cons = c; wakes = false; echo = echo }

unfoldable pub rub_one : Console → Outcome
rub_one c =
    if not (c.e == c.w)
    then record { cons = record c { e = decr c.e }; wakes = false; echo = rub_out }
    else record { cons = c; wakes = false; echo = [] }

-- The default of the switch for a character that is stored.
unfoldable pub store : ℕ → Console → Outcome
store ch c =
    let new = if ch == carriage_return then newline else ch in
    let d = record c {
      buf = λ j. if j == c.e % input_buf_size then new else c.buf j;
      e = incr c.e;
    } in
    if new == newline || new == ctrl_d || distance d.r d.e == input_buf_size
    then record { cons = record d { w = d.e }; wakes = true; echo = new ∷ [] }
    else record { cons = d; wakes = false; echo = new ∷ [] }

unfoldable pub consoleintr : ℕ → Console → Outcome
consoleintr ch c =
    let same : Outcome = record { cons = c; wakes = false; echo = [] } in
    if ch == ctrl_p
    then same
    else if ch == ctrl_u
    then kill_line input_buf_size c []
    else if ch == backspace || ch == delete
    then rub_one c
    else if not (ch == 0) && ltb (distance c.r c.e) input_buf_size
    then store ch c
    else same

-- How a stretch of `consoleread` ends: it returns a count or -1, or sleeps with so many bytes to go.
pub data Reading : Type 0 where
  returned : ℕ → Reading
  failed : Reading
  asleep : ℕ → Reading

-- `n` bytes of `target` are wanted still; `faults` says whether the copy of a byte fails with so many
-- left. The list is what was copied out.
unfoldable pub consoleread :
    (faults : ℕ → Bool) (killed : Bool) (n target : ℕ) → Console → Reading × List ℕ × Console
consoleread faults killed zero target c = (returned target, [], c)
consoleread faults killed (suc m) target c =
    let ch = c.buf (c.r % input_buf_size) in
    let d = record c { r = incr c.r } in
    let rest = consoleread faults killed m target d in
    if c.r == c.w
    then (if killed then (failed, [], c) else (asleep (suc m), [], c))
    else if ch == ctrl_d
    then (
      returned (target - suc m),
      [],
      if ltb (suc m) target then record d { r = decr d.r } else d,
    )
    else if faults (suc m)
    then (returned (target - suc m), [], d)
    else if ch == newline
    then (returned (target - m), ch ∷ [], d)
    else (rest.0, ch ∷ rest.1, rest.2)

-- `consolewrite`: the count that it returns, and the bytes that it sends. `fetch` is what
-- `either_copyin` brings.
unfoldable pub consolewrite : (fetch : ℕ → Option ℕ) (n i : ℕ) → ℕ × List ℕ
consolewrite fetch zero i = (i, [])
consolewrite fetch (suc n) i =
    let rest = consolewrite fetch n (i + 1) in
    elim (fetch i) [ none ↦ (i, []) | some ch ↦ (rest.0, ch ∷ rest.1) ]
