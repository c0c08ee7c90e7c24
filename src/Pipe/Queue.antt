-- ===== src/Pipe/Queue.antt =====
-- A pipe of Xv6/kernel/pipe.c as a queue of at most PIPESIZE bytes, oldest first.
use os_project.Prelude.{
  ℕ, zero, suc, ◌+◌, ◌-◌, ◌%◌, ◌^◌, ◌≤◌, ◌<◌, ◌≡◌, ◌⊎◌, ◌∙◌, refl, Bool, true, false, ◌||◌, not,
  Bool-cases, inl, inr, Option, none, some, Option-cases, List, [], ◌∷◌, ◌++◌, arith, length,
}
use mathlib.Core.Path.{subst}
use mathlib.Core.List.{append-nil, append_assoc}
use os_project.Pipe.{
  pipe_size, Pipe, uint, Channel, on_read, on_write, Outcome, returned, failed, asleep, is_full,
  is_empty, store, put, write_loop, pipewrite, advance,
}

-- The `n` bytes from counter `r` on.
abbrev pub window : (ℕ → ℕ) → ℕ → ℕ → List ℕ
window buf r zero = []
window buf r (suc n) = buf (r % pipe_size) ∷ window buf (uint (r + 1)) n

-- The number of bytes in the pipe.
abbrev pub held : Pipe → ℕ
held p = uint (p.nwrite + 2 ^ 32 - p.nread)

abbrev pub contents : Pipe → List ℕ
contents p = window p.buf p.nread (held p)

pub record IsValid (p : Pipe) : Type 0 where
  pub read_fits : p.nread < 2 ^ 32
  pub write_fits : p.nwrite < 2 ^ 32
  pub bounded : held p ≤ pipe_size

window-store :
    (buf : ℕ → ℕ) (ch n r i : ℕ)
    → r < 2 ^ 32
    → n < pipe_size
    → i ≡ (r + n) % pipe_size
    → window (store buf i ch) r (suc n) ≡ window buf r n ++ (ch ∷ [])
window-store buf ch zero r i fits lt e = ground arith
window-store buf ch (suc n) r i fits lt e = ground (arith, window-store buf ch n (uint (r + 1)) i)

-- A byte that is put in while there is room goes to the end of the queue.
pub put_lem :
    (p : Pipe) (ch : ℕ)
    → IsValid p
    → is_full p ≡ false
    → IsValid (put p ch) × (contents (put p ch) ≡ contents p ++ (ch ∷ []))
unfolding put
put_lem p ch v room =
    let more : held (put p ch) ≡ suc (held p) = ground arith in
    (
      record { read_fits = v.read_fits; write_fits = ground arith; bounded = ground arith },
      rw more (
          window-store p.buf ch (held p) p.nread (p.nwrite % pipe_size) v.read_fits (ground arith)
            (ground arith)),
    )

-- The byte at the read counter is the oldest one, and what is left is the rest of the queue.
pub advance_lem :
    (p : Pipe)
    → IsValid p
    → is_empty p ≡ false
    → IsValid (advance p) × (contents p ≡ p.buf (p.nread % pipe_size) ∷ contents (advance p))
advance_lem p v some_byte =
    let less : held p ≡ suc (held (advance p)) = ground arith in
    (
      record { read_fits = ground arith; write_fits = v.write_fits; bounded = ground arith },
      rw less,
    )

-- The bytes `xs` are those that `copyin` fetches from index `i` on.
abbrev pub Fetched : (ℕ → Option ℕ) → ℕ → List ℕ → Type 0
Fetched copyin i [] = Unit {0}
Fetched copyin i (x ∷ xs) = (copyin i ≡ some x) × Fetched copyin (i + 1) xs

-- How a stretch of `pipewrite` ends that has stored `j` bytes of `n`.
abbrev pub WriteEnds : (ℕ → Option ℕ) → (ℕ → Bool) → ℕ → ℕ → Pipe → Outcome × List Channel → Type 0
WriteEnds copyin killed n j p (returned k, woken) =
    (k ≡ j) × (woken ≡ on_read ∷ []) × ((j ≡ n) ⊎ (copyin j ≡ none))
WriteEnds copyin killed n j p (failed, woken) =
    (woken ≡ []) × ((p.readopen ≡ false) ⊎ (killed j ≡ true))
WriteEnds copyin killed n j p (asleep k c, woken) =
    (k ≡ j) × (c ≡ on_write) × (woken ≡ on_read ∷ []) × (held p ≡ pipe_size) × (j < n)

-- What a stretch of `pipewrite` does: the bytes `xs` that it has fetched.
pub record Wrote (copyin : ℕ → Option ℕ) (killed : ℕ → Bool) (i n : ℕ) (p : Pipe)
    (out : Outcome × List Channel × Pipe) : Type 0 where
  pub bytes : List ℕ
  pub fetched : Fetched copyin i bytes
  pub fits : i + length bytes ≤ n
  pub valid : IsValid out.2
  pub counted : out.2.nwrite ≡ uint (p.nwrite + length bytes)
  pub stored : contents out.2 ≡ contents p ++ bytes
  pub ends : WriteEnds copyin killed n (i + length bytes) out.2 (out.0, out.1)

-- One more byte in front of a stretch.
Wrote-cons :
    {copyin : ℕ → Option ℕ} {killed : ℕ → Bool} {i n : ℕ} {p q : Pipe} {ch : ℕ}
    {out : Outcome × List Channel × Pipe}
    → copyin i ≡ some ch
    → contents q ≡ contents p ++ (ch ∷ [])
    → q.nwrite ≡ uint (p.nwrite + 1)
    → Wrote copyin killed (i + 1) n q out
    → Wrote copyin killed i n p out
Wrote-cons {copyin} {killed} {i} {n} {p} {ch} {out} got more next w =
    let at : i + 1 + length w.bytes ≡ i + suc (length w.bytes) = omega arith in
    record {
      bytes = ch ∷ w.bytes;
      fetched = (got, w.fetched);
      fits = omega (arith, w.fits);
      valid = w.valid;
      counted = omega (arith, w.counted);
      stored = w.stored ∙ rw (more, append_assoc);
      ends = subst (λ j. WriteEnds copyin killed n j out.2 (out.0, out.1)) at w.ends;
    }

-- A stretch that ends before it has stored anything.
stopped :
    {copyin : ℕ → Option ℕ} {killed : ℕ → Bool} {i n : ℕ} {p : Pipe} {o : Outcome}
    {woken : List Channel}
    → IsValid p
    → i ≤ n
    → WriteEnds copyin killed n i p (o, woken)
    → Wrote copyin killed i n p (o, woken, p)
stopped {copyin} {killed} {i} {n} {p} {o} {woken} v le ends = record {
  bytes = [];
  fetched = tt;
  fits = omega arith;
  valid = v;
  counted = omega (arith, v.write_fits);
  stored = rw append-nil;
  ends =
      let at : i ≡ i + 0 = omega arith in
      subst (λ j. WriteEnds copyin killed n j p (o, woken)) at ends;
}

pub write_loop-Wrote :
    (copyin : ℕ → Option ℕ) (killed : ℕ → Bool) (left i n : ℕ) (p : Pipe)
    → IsValid p
    → i + left ≡ n
    → Wrote copyin killed i n p (write_loop copyin killed left i p)
unfolding write_loop put
write_loop-Wrote copyin killed zero i n p v e = stopped v (omega arith) (refl, refl, ground arith)
write_loop-Wrote copyin killed (suc left) i n p v e =
    elim (Bool-cases (not p.readopen || killed i)) [
      | inl dead ↦ rw dead (stopped v (omega arith) (refl, ground arith))
      | inr alive ↦ rw alive (elim (Bool-cases (is_full p)) [
        | inl full ↦ rw full (stopped v (omega arith) (refl, refl, refl, ground arith, omega arith))
        | inr room ↦ rw room (elim (Option-cases (copyin i)) [
          | inl fault ↦ rw fault (stopped v (omega arith) (refl, refl, inr fault))
          | inr (ch, got) ↦
              let (v', more) = put_lem p ch v room in
              let rest =
                write_loop-Wrote copyin killed left (i + 1) n (put p ch) v' (omega arith) in
              rw got (Wrote-cons got more refl rest)
        ])
      ])
    ]

-- A stretch of `pipewrite` on a valid pipe appends to the queue, in order, bytes that it has fetched
-- from the user, and keeps the pipe valid. It returns their number if all are stored or the next
-- cannot be fetched, returns -1 if the reader is gone or the writer killed, and sleeps only on a full
-- pipe with bytes left to store.
pub pipewrite-Wrote :
    (copyin : ℕ → Option ℕ) (killed : ℕ → Bool) (n : ℕ) (p : Pipe)
    → IsValid p
    → Wrote copyin killed 0 n p (pipewrite copyin killed n p)
unfolding pipewrite
pipewrite-Wrote copyin killed n p v = write_loop-Wrote copyin killed n 0 n p v (omega arith)
