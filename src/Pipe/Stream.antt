-- ===== src/Pipe/Stream.antt =====
-- `piperead` of Xv6/kernel/pipe.c, and any sequence of stretches of its readers and writers.
use os_project.Prelude.{
  ℕ, zero, suc, ◌+◌, ◌-◌, ◌%◌, ◌^◌, ◌≡◌, ◌⊎◌, ap, sym, ◌∙◌, refl, Bool, true, false, ◌&&◌,
  Bool-cases, inl, inr, Option, none, some, List, [], ◌∷◌, ◌++◌, arith, if◌then◌else◌, length,
  length-append,
}
use mathlib.Core.Path.{subst}
use mathlib.Core.List.{append-nil, append_assoc}
use os_project.Pipe.{
  pipe_size, Pipe, uint, Channel, on_read, on_write, Outcome, returned, failed, asleep, is_empty,
  write_loop, advance, read_loop, piperead, pipeclose,
}
use os_project.Pipe.Queue.{window, held, contents, IsValid, advance_lem, Fetched, write_loop-Wrote}

-- What the copying loop of `piperead` does from index `i` up to `n`. A byte that the user's memory
-- refuses has left the pipe, and is lost.
pub record Read (copyout : ℕ → Bool) (i n : ℕ) (p : Pipe) (out : ℕ × List ℕ × Pipe) : Type 0 where
  pub lost : List ℕ
  pub valid : IsValid out.2
  pub taken : contents p ≡ out.1 ++ (lost ++ contents out.2)
  pub counted : out.0 ≡ i + length out.1
  pub ends :
      (lost ≡ []) × ((out.0 ≡ n) ⊎ (contents out.2 ≡ []))
      ⊎ (length lost ≡ 1) × (copyout out.0 ≡ false)

Read-cons :
    {copyout : ℕ → Bool} {i n ch j : ℕ} {p q p' : Pipe} {got : List ℕ}
    → contents p ≡ ch ∷ contents q
    → Read copyout (i + 1) n q (j, got, p')
    → Read copyout i n p (j, ch ∷ got, p')
Read-cons {ch} first r = record {
  lost = r.lost;
  valid = r.valid;
  taken = first ∙ ap (λ l. ch ∷ l) r.taken;
  counted = omega (arith, r.counted);
  ends = r.ends;
}

nothing_held : (p : Pipe) → IsValid p → is_empty p ≡ true → contents p ≡ []
nothing_held p v e = let none_held : held p ≡ 0 = ground arith in rw none_held

pub read_loop-Read :
    (copyout : ℕ → Bool) (left i n : ℕ) (p : Pipe)
    → IsValid p
    → i + left ≡ n
    → Read copyout i n p (read_loop copyout left i p)
unfolding read_loop
read_loop-Read copyout zero i n p v e = record {
  lost = [];
  valid = v;
  taken = refl;
  counted = omega arith;
  ends = inl (refl, inl (omega arith));
}
read_loop-Read copyout (suc left) i n p v e = elim (Bool-cases (is_empty p)) [
  | inl empty ↦ rw empty (record {
    lost = [];
    valid = v;
    taken = refl;
    counted = omega arith;
    ends = inl (refl, inr (nothing_held p v empty));
  })
  | inr some_byte ↦
      let (v', first) = advance_lem p v some_byte in
      rw some_byte (elim (Bool-cases (copyout i)) [
        | inl fits ↦
            rw fits
              (Read-cons first (read_loop-Read copyout left (i + 1) n (advance p) v' (omega arith)))
        | inr fault ↦ rw fault (record {
          lost = p.buf (p.nread % pipe_size) ∷ [];
          valid = v';
          taken = first;
          counted = omega arith;
          ends = inr (refl, fault);
        })
      ])
]

-- `piperead` on a valid pipe sleeps or fails only while the pipe is empty and a writer is left, and
-- then leaves it as it is; else it returns the number of bytes that it has delivered, which are the
-- oldest of the queue in order: as many as were asked for, or all there are, or those before a fault,
-- whose one byte is lost.
pub piperead-Read :
    (copyout : ℕ → Bool) (killed : Bool) (n : ℕ) (p : Pipe)
    → IsValid p
    → (piperead copyout killed n p ≡ ((if killed then failed else asleep 0 on_read), [], [], p))
        × (contents p ≡ [])
        × (p.writeopen ≡ true)
      ⊎ ((out : ℕ × List ℕ × Pipe) × (piperead copyout killed n p
            ≡ (returned out.0, out.1, on_write ∷ [], out.2))
          × Read copyout 0 n p out)
unfolding piperead
piperead-Read copyout killed n p v = elim (Bool-cases (is_empty p && p.writeopen)) [
  | inl waits ↦ inl (rw waits (ground arith), nothing_held p v (ground arith), ground arith)
  | inr goes ↦
      inr (read_loop copyout n 0 p, rw goes, read_loop-Read copyout n 0 n p v (omega arith))
]

-- What the users of a pipe do to it: a stretch of a writer at index `i` with `left` bytes to go, a
-- call of a reader whose memory takes every byte, a close.
pub data Event : Type 0 where
  send : (copyin : ℕ → Option ℕ) (killed : ℕ → Bool) (left i : ℕ) → Event
  receive : (killed : Bool) (n : ℕ) → Event
  close : (writable : Bool) → Event

-- `k` bytes from index `i` on, as far as they can be fetched.
unfoldable pub fetch : (ℕ → Option ℕ) → ℕ → ℕ → List ℕ
fetch copyin i zero = []
fetch copyin i (suc k) = elim (copyin i) [ none ↦ [] | some x ↦ x ∷ fetch copyin (i + 1) k ]

unfoldable pub step : Event → Pipe → Pipe
step (send copyin killed left i) p = (write_loop copyin killed left i p).2
step (receive killed n) p = (piperead (λ _. true) killed n p).3
step (close writable) p = (pipeclose p writable).1

-- The bytes that a stretch of a writer has counted into `nwrite`.
unfoldable pub sent : Event → Pipe → List ℕ
unfolding step
sent (send copyin killed left i) p =
    fetch copyin i (uint ((step (send copyin killed left i) p).nwrite + 2 ^ 32 - p.nwrite))
sent (receive killed n) p = []
sent (close writable) p = []

-- The bytes that a reader has been given.
unfoldable pub received : Event → Pipe → List ℕ
received (send copyin killed left i) p = []
received (receive killed n) p = (piperead (λ _. true) killed n p).1
received (close writable) p = []

-- The pipe at the end, all bytes sent and all bytes received.
unfoldable pub run : List Event → Pipe → List ℕ × List ℕ × Pipe
unfolding sent received
run [] p = ([], [], p)
run (e ∷ es) p =
    let (ins, outs, q) = run es (step e p) in (sent e p ++ ins, received e p ++ outs, q)

fetch-length :
    (copyin : ℕ → Option ℕ) (i : ℕ) (xs : List ℕ)
    → Fetched copyin i xs
    → fetch copyin i (length xs) ≡ xs
unfolding fetch
fetch-length copyin i [] h = refl
fetch-length copyin i (x ∷ xs) h = rw h.0 (ap (λ l. x ∷ l) (fetch-length copyin (i + 1) xs h.1))

length-window : (buf : ℕ → ℕ) (r n : ℕ) → length (window buf r n) ≡ n
length-window buf r zero = refl
length-window buf r (suc n) = ap suc (length-window buf (uint (r + 1)) n)

-- What is in `p` and goes in comes out or is in `q`, in order.
abbrev pub Balanced : Pipe → List ℕ → List ℕ → Pipe → Type 0
Balanced p ins outs q = IsValid q × (contents p ++ ins ≡ outs ++ contents q)

abbrev Moves : Event → Pipe → Type 0
Moves e p = Balanced p (sent e p) (received e p) (step e p)

send-Moves :
    (copyin : ℕ → Option ℕ) (killed : ℕ → Bool) (left i : ℕ) (p : Pipe)
    → IsValid p
    → Moves (send copyin killed left i) p
unfolding step sent received
send-Moves copyin killed left i p v =
    let w = write_loop-Wrote copyin killed left i (i + left) p v refl in
    let q = (write_loop copyin killed left i p).2 in
    let lengths : held q ≡ held p + length w.bytes =
      sym (length-window q.buf q.nread (held q))
      ∙ ap length w.stored
      ∙ length-append (contents p) w.bytes
      ∙ ap (λ n. n + length w.bytes) (length-window p.buf p.nread (held p)) in
    let counted : uint (q.nwrite + 2 ^ 32 - p.nwrite) ≡ length w.bytes =
      omega (arith, w.counted, w.valid, v) in
    (w.valid, rw (counted, fetch-length copyin i w.bytes w.fetched) (sym w.stored))

receive-Moves : (killed : Bool) (n : ℕ) (p : Pipe) → IsValid p → Moves (receive killed n) p
unfolding step sent received
receive-Moves killed n p v = elim (piperead-Read (λ _. true) killed n p v) [
  | inl (waits, none_there, _) ↦ subst balanced (sym waits) (v, append-nil _)
  | inr (out, returns, r) ↦ subst balanced (sym returns) (
    r.valid,
    append-nil _ ∙ r.taken ∙ ap (λ l. out.1 ++ (l ++ contents out.2)) (none_lost r.ends),
  )
]
  where
    balanced : Outcome × List ℕ × List Channel × Pipe → Type 0
    balanced o = Balanced p [] o.1 o.3

    none_lost : {lost : List ℕ} {P Q : Type 0} → (lost ≡ []) × P ⊎ Q × (true ≡ false) → lost ≡ []
    none_lost (inl h) = h.0
    none_lost (inr h) = cc

close-Moves : (writable : Bool) (p : Pipe) → IsValid p → Moves (close writable) p
unfolding step sent received pipeclose
close-Moves true p v = (
  record { read_fits = v.read_fits; write_fits = v.write_fits; bounded = v.bounded },
  append-nil _,
)
close-Moves false p v = (
  record { read_fits = v.read_fits; write_fits = v.write_fits; bounded = v.bounded },
  append-nil _,
)

step-Moves : (e : Event) (p : Pipe) → IsValid p → Moves e p
step-Moves (send copyin killed left i) = send-Moves copyin killed left i
step-Moves (receive killed n) = receive-Moves killed n
step-Moves (close writable) = close-Moves writable

regroup :
    (a b c d f g h : List ℕ) → a ++ b ≡ c ++ d → d ++ f ≡ g ++ h → a ++ (b ++ f) ≡ (c ++ g) ++ h
regroup a b c d f g h x y =
    sym (append_assoc a b f)
    ∙ ap (λ l. l ++ f) x
    ∙ append_assoc c d f
    ∙ ap (λ l. c ++ l) y
    ∙ sym (append_assoc c g h)

-- A pipe is a FIFO: whatever stretches of writers, readers that take what they are given, and closes
-- follow one another, and wherever the counters wrap, the bytes in the pipe and all bytes stored
-- since are the bytes delivered and those still there, in order, and at most PIPESIZE stay.
pub run-Balanced :
    (es : List Event) (p : Pipe)
    → IsValid p
    → let (ins, outs, q) = run es p in IsValid q × (contents p ++ ins ≡ outs ++ contents q)
unfolding run
run-Balanced [] p v = (v, append-nil _)
run-Balanced (e ∷ es) p v =
    let (v₁, one) = step-Moves e p v in
    let (v₂, rest) = run-Balanced es (step e p) v₁ in
    let (ins, outs, q) = run es (step e p) in
    (v₂, regroup (contents p) _ _ _ ins outs (contents q) one rest)
