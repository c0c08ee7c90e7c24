-- ===== src/Log/Overflow.antt =====
-- A log of LOGSIZE blocks, as mkfs makes it (`nlog = LOGSIZE`, Xv6/mkfs/mkfs.c), has room for one
-- entry less than `begin_op` of Xv6/kernel/log.c hands out: the header takes a block.
use os_project.Prelude.{
  ℕ, zero, suc, ◌+◌, ◌<◌, ◌≡◌, refl, inl, inr, false, ◌&&◌, Bool-cases, Option, Option-cases, none,
  some, List, [], ◌∷◌, ◌++◌, set, get_or, replicate, ltb, if◌then◌else◌, length, arith,
}
use mathlib.Core.Path.{subst}
use os_project.Log.{log_size, max_op_blocks, Log, Machine, absorb, begin_op, log_write}
use os_project.Log.Space.{State, begins, writes, Reach, booted, next}

abbrev blank : Machine
blank = record { disk = λ x i. 0; cache = λ x i. 0; pins = λ x. 0; power = 0 }

-- The operations at the indices log one block each, in turn, from block `b` on.
play : List ℕ → ℕ → State → Option State
play [] b s = some s
play (i ∷ is) b s =
    let rest : Option State = elim (log_write b s.log blank) [
      | none ↦ none
      | some (l, m) ↦ play is (b + 1) (record { log = l; ops = set s.ops i (get_or s.ops i 0 + 1) })
    ] in
    if ltb i (length s.ops) && ltb (get_or s.ops i 0) max_op_blocks then rest else none

play-Reach :
    {start size : ℕ} (is : List ℕ) (b : ℕ) (s t : State)
    → Reach start size s
    → play is b s ≡ some t
    → Reach start size t
unfolding play
play-Reach {start} {size} [] b s t r e = subst (Reach start size) (ground arith) r
play-Reach {start} {size} (i ∷ is) b s t r e =
    elim (Bool-cases (ltb i (length s.ops) && ltb (get_or s.ops i 0) max_op_blocks)) [
      | inr stop ↦ absurd (ground arith)
      | inl go ↦ elim (Option-cases (log_write b s.log blank)) [
        | inl panics ↦ absurd (ground arith)
        | inr ((l, m), got) ↦
            play-Reach is (b + 1) _ t
              (next r (writes i b blank m l (ground arith) (ground arith) got)) (ground arith)
      ]
    ]

-- Three operations have begun.
abbrev begun : ℕ → ℕ → Log
begun start n = record {
  start = start;
  size = log_size;
  outstanding = n;
  committing = false;
  lh = [];
}

begun-Reach :
    (start : ℕ) → Reach start log_size (record { log = begun start 3; ops = 0 ∷ 0 ∷ 0 ∷ [] })
unfolding begin_op
begun-Reach start =
    next (next (next booted (begins (begun start 1) refl)) (begins (begun start 2) refl))
      (begins (begun start 3) refl)

-- Two log ten blocks each, and the third logs nine.
abbrev turns : List ℕ
turns = replicate 10 0 ++ (replicate 10 1 ++ replicate 9 2)

-- Blocks 100 to 128 are logged.
abbrev numbers : ℕ → ℕ → List ℕ
numbers zero b = []
numbers (suc n) b = b ∷ numbers n (b + 1)

abbrev crowded : ℕ → State
crowded start = record {
  log = record (begun start 3) { lh = numbers 29 100 };
  ops = 10 ∷ 10 ∷ 9 ∷ [];
}

crowded-Reach : (start : ℕ) → Reach start log_size (crowded start)
unfolding play log_write absorb
crowded-Reach start = play-Reach turns 100 _ (crowded start) (begun-Reach start) refl

-- With LOGSIZE blocks for the log, wherever it starts, some state is reachable in which an operation
-- that has made fewer than MAXOPBLOCKS calls of `log_write` panics at its next one, whatever the
-- block.
pub log_write_may_panic :
    (start : ℕ)
    → (s : State) × (i : ℕ) × Reach start log_size s
      × (i < length s.ops)
      × (get_or s.ops i 0 < max_op_blocks)
      × ((b : ℕ) (m : Machine) → log_write b s.log m ≡ none)
unfolding log_write
log_write_may_panic start =
    (crowded start, 2, crowded-Reach start, omega arith, omega arith, λ b m. refl)
