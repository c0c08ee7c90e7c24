-- ===== src/Log/Space.antt =====
-- The log space that `begin_op` of Xv6/kernel/log.c reserves for the operations under way.
use os_project.Prelude.{
  ℕ, zero, suc, ◌+◌, ◌*◌, ◌-◌, ◌≤◌, ◌<◌, ◌≡◌, ap, sym, ◌∙◌, refl, inl, inr, true, false, Bool-cases,
  Option-cases, some, List, [], ◌∷◌, ◌==◌, set, get_or, ltb, if◌then◌else◌, length, length-set,
  arith,
}
use os_project.Log.{
  log_size, max_op_blocks, Log, Machine, begin_op, end_op_enter, end_op, log_write, commit,
}
use os_project.Log.Caching.{length-absorb, log_write-Logs}

-- The log, and for each operation under way how many times it has called `log_write`.
pub record State : Type 0 where
  pub log : Log
  pub ops : List ℕ

abbrev pub remove : List ℕ → ℕ → List ℕ
remove [] i = []
remove (x ∷ xs) zero = xs
remove (x ∷ xs) (suc i) = x ∷ remove xs i

pub data Step (s : State) : State → Type 0 where
  -- An operation begins, where `begin_op` does not make it wait.
  begins : (l : Log) → begin_op s.log ≡ some l → Step s (record { log = l; ops = 0 ∷ s.ops })
  -- One that has made fewer than `max_op_blocks` calls of `log_write` makes another.
  writes :
      (i b : ℕ) (m m' : Machine) (l : Log)
      → i < length s.ops
      → get_or s.ops i 0 < max_op_blocks
      → log_write b s.log m ≡ some (l, m')
      → Step s (record { log = l; ops = set s.ops i (get_or s.ops i 0 + 1) })
  -- One ends, and commits if it is the last.
  ends :
      (i : ℕ) (m m' : Machine) (l : Log)
      → i < length s.ops
      → end_op s.log m ≡ some (l, m')
      → Step s (record { log = l; ops = remove s.ops i })

-- `initlog` leaves an empty log.
pub data Reach (start size : ℕ) : State → Type 0 where
  booted : Reach start size (record {
    log = record { start = start; size = size; outstanding = 0; committing = false; lh = [] };
    ops = [];
  })
  next : {s t : State} → Reach start size s → Step s t → Reach start size t

-- The blocks that the operations under way may still log.
abbrev pub reserved : List ℕ → ℕ
reserved [] = 0
reserved (u ∷ us) = max_op_blocks - u + reserved us

pub record Inv (size : ℕ) (s : State) : Type 0 where
  pub counted : s.log.outstanding ≡ length s.ops
  pub fits : length s.log.lh + reserved s.ops ≤ log_size
  pub idle : s.log.committing ≡ false
  pub same_size : s.log.size ≡ size
  pub quiet : s.ops ≡ [] → s.log.lh ≡ []

reserved-le : (us : List ℕ) → reserved us ≤ length us * max_op_blocks
reserved-le [] = omega arith
reserved-le (u ∷ us) = omega (arith, reserved-le us)

reserved-set :
    (us : List ℕ) (i : ℕ)
    → i < length us
    → get_or us i 0 < max_op_blocks
    → reserved (set us i (get_or us i 0 + 1)) + 1 ≡ reserved us
reserved-set [] i lt small = absurd (omega arith)
reserved-set (u ∷ us) zero lt small = omega arith
reserved-set (u ∷ us) (suc i) lt small = omega (arith, reserved-set us i)

reserved-remove : (us : List ℕ) (i : ℕ) → reserved (remove us i) ≤ reserved us
reserved-remove [] i = omega arith
reserved-remove (u ∷ us) zero = omega arith
reserved-remove (u ∷ us) (suc i) = omega (arith, reserved-remove us i)

length-remove : (us : List ℕ) (i : ℕ) → i < length us → length (remove us i) + 1 ≡ length us
length-remove [] i lt = absurd (omega arith)
length-remove (u ∷ us) zero lt = omega arith
length-remove (u ∷ us) (suc i) lt = omega (arith, length-remove us i)

empty_of_length : (us : List ℕ) → length us ≡ 0 → us ≡ []
empty_of_length [] e = refl
empty_of_length (u ∷ us) e = absurd (omega arith)

commit-lh : (l : Log) (m : Machine) → (commit l m).0 ≡ record l { lh = [] }
unfolding commit
commit-lh l m = elim (Bool-cases (ltb 0 (length l.lh))) [
  | inl some_block ↦ rw some_block
  | inr nothing ↦ rw nothing (ap (λ xs. record l { lh = xs }) (empty_of_length l.lh (ground arith)))
]

-- What an `end_op` that returns has done to the log.
record Ends (l l' : Log) : Type 0 where
  outstanding : l'.outstanding ≡ l.outstanding - 1
  idle : l'.committing ≡ false
  size : l'.size ≡ l.size
  lh : l'.lh ≡ (if l.outstanding - 1 == 0 then [] else l.lh)

end_op-Ends :
    (l : Log) (m : Machine) {l' : Log} {m' : Machine} → end_op l m ≡ some (l', m') → Ends l l'
unfolding end_op end_op_enter
end_op-Ends l m e =
    let closing = record l { outstanding = l.outstanding - 1; committing = true } in
    let emptied = commit-lh closing m in
    record {
      outstanding = ground arith;
      idle = ground arith;
      size = ground arith;
      lh = ground arith;
    }

-- Reserved space is never overbooked.
pub Step-Inv : {size : ℕ} {s t : State} → Inv size s → Step s t → Inv size t
unfolding begin_op
Step-Inv {s} inv (begins l e) = record {
  counted = ground (arith, inv.counted);
  fits = ground (arith, inv.counted, reserved-le s.ops);
  idle = ground (arith, inv.idle);
  same_size = ground (arith, inv.same_size);
  quiet = λ none_left. cc;
}
Step-Inv {s} inv (writes i b m m' l lt small e) =
    let w = log_write-Logs b s.log m e in
    let us = set s.ops i (get_or s.ops i 0 + 1) in
    let sizes = length-set s.ops i (get_or s.ops i 0 + 1) in
    record {
      counted = ap Log.outstanding w.log ∙ inv.counted ∙ sym sizes;
      fits = ground (arith, w.log, length-absorb b s.log.lh, reserved-set s.ops i, inv.fits);
      idle = ap Log.committing w.log ∙ inv.idle;
      same_size = ap Log.size w.log ∙ inv.same_size;
      quiet = λ gone. absurd (omega (arith, sizes, ap length gone));
    }
Step-Inv {s} inv (ends i m m' l lt e) =
    let d = end_op-Ends s.log m e in
    let fewer = length-remove s.ops i lt in
    record {
      counted = omega (arith, d.outstanding, inv.counted, fewer);
      fits = ground (arith, d.lh, reserved-remove s.ops i, inv.fits);
      idle = d.idle;
      same_size = d.size ∙ inv.same_size;
      quiet = λ gone. ground (arith, d.lh, ap length gone, inv.counted);
    }

pub Reach-Inv : {start size : ℕ} {s : State} → Reach start size s → Inv size s
Reach-Inv booted = record {
  counted = refl;
  fits = omega arith;
  idle = refl;
  same_size = refl;
  quiet = λ e. refl;
}
Reach-Inv (next r st) = Step-Inv (Reach-Inv r) st

end_op_returns :
    (l : Log) (m : Machine)
    → l.committing ≡ false
    → (l' : Log) × (m' : Machine) × (end_op l m ≡ some (l', m'))
unfolding end_op end_op_enter
end_op_returns l m idle = elim (Option-cases (end_op l m)) [
  | inl panics ↦ absurd (ground arith)
  | inr ((l', m'), e) ↦ (l', m', e)
]

-- An `end_op` in a reachable state with an operation under way does not panic, and behind the last one
-- the log is empty.
pub end_op_empties :
    {start size : ℕ} {s : State}
    → Reach start size s
    → (m : Machine) → 0 < length s.ops
    → (l : Log) × (m' : Machine) × (end_op s.log m ≡ some (l, m')) × (length s.ops ≡ 1 → l.lh ≡ [])
end_op_empties {s} r m some_op =
    let inv = Reach-Inv r in
    let (l, m', e) = end_op_returns s.log m inv.idle in
    (l, m', e, λ one. ground (arith, (end_op-Ends s.log m e).lh, inv.counted))
