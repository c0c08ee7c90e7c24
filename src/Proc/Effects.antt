-- ===== src/Proc/Effects.antt =====
-- What `wakeup` and `reparent` of Xv6/kernel/proc.c keep of each entry.
use os_project.Prelude.{
  ℕ, ◌<◌, ◌≡◌, ◌≢◌, ◌⊎◌, inl, inr, refl, ap, sym, ◌∙◌, ap₂, Bool, true, false, ◌&&◌, not, ◌==◌, ltb,
  if◌then◌else◌, arith,
}
use mathlib.Core.Path.{subst}
use os_project.Proc.Table.{
  Proc, Table, ProcState, unused, used, running, zombie, sleeping, runnable, Chan, entry, chan_eq,
  nproc, is_unused, is_zombie, is_sleeping, wakeup,
}
use os_project.Proc.Loops.{wakeup_lem}

-- The entry may have been woken, and may have another parent; else it is as it was.
pub record Kept (p q : Proc) : Type 0 where
  pub pid : q.pid ≡ p.pid
  pub killed : q.killed ≡ p.killed
  pub chan : q.chan ≡ p.chan
  pub state : (q.state ≡ p.state) ⊎ (p.state ≡ sleeping) × (q.state ≡ runnable)

pub Kept-refl : (p : Proc) → Kept p p
Kept-refl p = record { pid = refl; killed = refl; chan = refl; state = inl refl }

pub Kept-trans : {p q r : Proc} → Kept p q → Kept q r → Kept p r
Kept-trans h k = record {
  pid = k.pid ∙ h.pid;
  killed = k.killed ∙ h.killed;
  chan = k.chan ∙ h.chan;
  state = ground (arith, h.state, k.state);
}

-- The process sleeps on its own entry, as in `wait`.
abbrev pub is_waiting : ℕ → Proc → Bool
is_waiting i p = is_sleeping p.state && chan_eq p.chan (entry i)

pub is_waiting-Kept :
    {p q : Proc} (i : ℕ) → Kept p q → is_waiting i q ≡ true → is_waiting i p ≡ true
is_waiting-Kept {p} {q} i k h = elim k.state [
  | inl e ↦ ap₂ (λ s c. is_sleeping s && chan_eq c (entry i)) (sym e) (sym k.chan) ∙ h
  | inr (s, r) ↦ let awake = ap is_sleeping r in absurd (ground arith)
]

pub is_unused-Kept : {p q : Proc} → Kept p q → is_unused q.state ≡ is_unused p.state
is_unused-Kept h = elim h.state [
  | inl same ↦ ap is_unused same
  | inr (s, r) ↦ ap is_unused r ∙ sym (ap is_unused s)
]

pub is_zombie-Kept : {p q : Proc} → Kept p q → is_zombie p.state ≡ false → is_zombie q.state ≡ false
is_zombie-Kept h alive = elim h.state [
  | inl same ↦ ap is_zombie same ∙ alive
  | inr (s, r) ↦ ap is_zombie r
]

wake-Kept :
    (b : Bool) (p q : Proc)
    → (b ≡ true → p.state ≡ sleeping)
    → q ≡ (if b then record p { state = runnable } else p)
    → Kept p q × (q.parent ≡ p.parent)
wake-Kept true p q s e =
    subst (λ q. Kept p q × (q.parent ≡ p.parent)) (sym e)
      (record { pid = refl; killed = refl; chan = refl; state = inr (s refl, refl) }, refl)
wake-Kept false p q s e = subst (λ q. Kept p q × (q.parent ≡ p.parent)) (sym e) (Kept-refl p, refl)

is_sleeping_lem : (s : ProcState) → is_sleeping s ≡ true → s ≡ sleeping
is_sleeping_lem sleeping e = refl
is_sleeping_lem unused e = absurd (ground arith)
is_sleeping_lem used e = absurd (ground arith)
is_sleeping_lem runnable e = absurd (ground arith)
is_sleeping_lem running e = absurd (ground arith)
is_sleeping_lem zombie e = absurd (ground arith)

third_of_four : (a b c d : Bool) → (a && b && c && d) ≡ true → c ≡ true
third_of_four a b c d e = ground arith

pub wakeup-Kept :
    (cur : ℕ) (c : Chan) (t : Table) (j : ℕ)
    → Kept (t.procs j) ((wakeup cur c t).procs j)
      × (((wakeup cur c t).procs j).parent ≡ (t.procs j).parent)
wakeup-Kept cur c t j =
    wake-Kept
      (ltb j nproc && not (j == cur) && is_sleeping (t.procs j).state && chan_eq (t.procs j).chan c)
      (t.procs j) ((wakeup cur c t).procs j)
      (λ e. is_sleeping_lem (t.procs j).state (third_of_four (ltb j nproc) (not (j == cur)) _ _ e))
      ((wakeup_lem cur c t).1 j)

woken_not_waiting :
    (b : Bool) (i : ℕ) (p q : Proc)
    → b ≡ is_waiting i p
    → q ≡ (if b then record p { state = runnable } else p)
    → is_waiting i q ≡ false
woken_not_waiting true i p q h e = ap (is_waiting i) e
woken_not_waiting false i p q h e = ap (is_waiting i) e ∙ sym h

two_true : (a b c d : Bool) → a ≡ true → b ≡ false → (a && not b && c && d) ≡ (c && d)
two_true a b c d e f = ground arith

-- A process that waits for a child is not left waiting by a wakeup on its entry.
pub wakeup_not_waiting :
    (cur i : ℕ) (t : Table)
    → i < nproc
    → i ≢ cur
    → is_waiting i ((wakeup cur (entry i) t).procs i) ≡ false
wakeup_not_waiting cur i t lt ne =
    woken_not_waiting _ i (t.procs i) ((wakeup cur (entry i) t).procs i)
      (two_true (ltb i nproc) (i == cur) _ _ (ground arith) (ground arith))
      ((wakeup_lem cur (entry i) t).1 i)
