-- ===== src/Pipe.antt =====
-- Xv6/kernel/pipe.c. A call runs under `pi->lock` from its start, or from where it woke up, to its
-- return or its next sleep; each such stretch is one function here. A writer that has slept goes on
-- with the index it had, from the head of its loop, and a reader from its start.
pub mod Queue
pub mod Stream
mod Tests
use os_project.Prelude.{
  ℕ, zero, suc, ◌+◌, ◌%◌, ◌^◌, Bool, true, false, ◌&&◌, ◌||◌, not, Option, none, some, List, [],
  ◌∷◌, ◌==◌, if◌then◌else◌,
}

abbrev pub pipe_size : ℕ
pipe_size = 512

-- `nread` and `nwrite` are uints that count all bytes ever read and written, and wrap.
pub record Pipe : Type 0 where
  pub buf : ℕ → ℕ
  pub nread : ℕ
  pub nwrite : ℕ
  pub readopen : Bool
  pub writeopen : Bool

abbrev pub uint : ℕ → ℕ
uint n = n % 2 ^ 32

-- What a process may sleep on: `&pi->nread` or `&pi->nwrite`.
pub data Channel : Type 0 where
  on_read on_write : Channel

-- How a stretch ends: the call returns a number, or -1, or sleeps with `i` bytes done.
pub data Outcome : Type 0 where
  returned : ℕ → Outcome
  failed : Outcome
  asleep : ℕ → Channel → Outcome

abbrev pub is_full : Pipe → Bool
is_full p = p.nwrite == uint (p.nread + pipe_size)

abbrev pub is_empty : Pipe → Bool
is_empty p = p.nread == p.nwrite

abbrev pub store : (ℕ → ℕ) → ℕ → ℕ → ℕ → ℕ
store buf i v j = if i == j then v else buf j

-- `pi->data[pi->nwrite++ % PIPESIZE] = ch`
unfoldable pub put : Pipe → ℕ → Pipe
put p ch = record p { buf = store p.buf (p.nwrite % pipe_size) ch; nwrite = uint (p.nwrite + 1) }

-- The loop of `pipewrite` with `left` rounds to go at index `i`. `copyin i` is the user's byte at
-- `addr + i`, or the fault of `copyin`; `killed i` is what `killed(pr)` says in that round. The second
-- result lists the channels that are woken up.
unfoldable pub write_loop :
    (copyin : ℕ → Option ℕ) (killed : ℕ → Bool) (left i : ℕ) → Pipe → Outcome × List Channel × Pipe
unfolding put
write_loop copyin killed zero i p = (returned i, on_read ∷ [], p)
write_loop copyin killed (suc left) i p =
    let stored : Outcome × List Channel × Pipe = elim (copyin i) [
      | none ↦ (returned i, on_read ∷ [], p)
      | some ch ↦ write_loop copyin killed left (i + 1) (put p ch)
    ] in
    if not p.readopen || killed i
    then (failed, [], p)
    else if is_full p
    then (asleep i on_write, on_read ∷ [], p)
    else stored

unfoldable pub pipewrite :
    (copyin : ℕ → Option ℕ) (killed : ℕ → Bool) (n : ℕ) → Pipe → Outcome × List Channel × Pipe
unfolding write_loop
pipewrite copyin killed n p = write_loop copyin killed n 0 p

-- `pi->nread++`
abbrev pub advance : Pipe → Pipe
advance p = record p { nread = uint (p.nread + 1) }

-- The `for` of `piperead`. `copyout i` says whether byte `i` could be stored at `addr + i`; the list
-- is what was stored there.
unfoldable pub read_loop : (copyout : ℕ → Bool) (left i : ℕ) → Pipe → ℕ × List ℕ × Pipe
read_loop copyout zero i p = (i, [], p)
read_loop copyout (suc left) i p =
    let ch = p.buf (p.nread % pipe_size) in
    let (j, rest, p') = read_loop copyout left (i + 1) (advance p) in
    if is_empty p then (i, [], p) else if copyout i then (j, ch ∷ rest, p') else (i, [], advance p)

unfoldable pub piperead :
    (copyout : ℕ → Bool) (killed : Bool) (n : ℕ) → Pipe → Outcome × List ℕ × List Channel × Pipe
unfolding read_loop
piperead copyout killed n p =
    let (i, got, p') = read_loop copyout n 0 p in
    if is_empty p && p.writeopen
    then (if killed then (failed, [], [], p) else (asleep 0 on_read, [], [], p))
    else (returned i, got, on_write ∷ [], p')

-- The last result says whether the pipe's page is freed.
unfoldable pub pipeclose : Pipe → Bool → List Channel × Pipe × Bool
pipeclose p writable =
    let p' = if writable then record p { writeopen = false } else record p { readopen = false } in
    ((if writable then on_read else on_write) ∷ [], p', not p'.readopen && not p'.writeopen)

-- What `pipealloc` puts into a fresh page; the data there is whatever the page held.
abbrev pub fresh : (ℕ → ℕ) → Pipe
fresh junk = record { buf = junk; nread = 0; nwrite = 0; readopen = true; writeopen = true }
