-- ===== src/Spinlock/Mutex.antt =====
-- Mutual exclusion of the spin locks of Xv6/kernel/spinlock.c.
use os_project.Prelude.{
  ℕ, ◌≡◌, inl, inr, refl, ap, fun_ext, sym, ◌∙◌, true, false, not, Bool-cases, Option, none, some,
  ◌==◌, if_true, if_false, arith,
}
use mathlib.Core.Path.{subst}
use os_project.Spinlock.{
  Cpu, Lock, initlock, holding, is_cpu, swap, acquire_exit, release_enter, release_exit,
}
use os_project.Spinlock.Exclusion.{
  Phase, idle, spinning, marking, freeing, State, at, Step, Steps, stay, more, enters, gets, misses,
  marks, leaves, frees, is_phase, owns, Inv, at_cases, Fair, moved, moved-Inv,
}

at_self : {A : Type 0} (f : ℕ → A) (i : ℕ) → at f i (f i) ≡ f
at_self f i = fun_ext (λ j. at_cases (λ k x. x ≡ f k) f i (f i) j refl (λ ne. refl))

owns_by_phase :
    (s : State) (i a : ℕ) (p : Phase) → s.phase i ≡ p → is_phase p a ≡ true → owns s i a ≡ true
owns_by_phase s i a p e own = (let here = ap (λ q. is_phase q a) e ∙ own in ground arith)

owns_by_cpu : (s : State) (i a : ℕ) → is_cpu i (s.locks a).cpu ≡ true → owns s i a ≡ true
owns_by_cpu s i a own = ground arith

enters-Fair : (s : State) (i a : ℕ) → Inv s → Fair s i (spinning a) a (s.locks a)
enters-Fair s i a v = record {
  others = λ j ne o. o;
  elsewhere = λ b ne o. owns_by_cpu s i b o;
  itself = λ o. inl (owns_by_cpu s i a o);
  locked = (λ o. v.locked i a (owns_by_cpu s i a o), λ j ne o. v.locked j a o);
  freed = λ j ne e. v.freed j a e;
  frees_own = λ b e. absurd (let wrong = ap (λ p. is_phase p b) e in ground arith);
}

gets-Fair :
    (s : State) (i a : ℕ)
    → (s.locks a).locked ≡ false
    → Inv s
    → Fair s i (marking a) a (record (s.locks a) { locked = true })
gets-Fair s i a free v = record {
  others = λ j ne o. o;
  elsewhere = λ b ne o. owns_by_cpu s i b (ground arith);
  itself = λ o. inr free;
  locked = (λ o. refl, λ j ne o. refl);
  freed = λ j ne e. v.freed j a e;
  frees_own = λ b e. absurd (ground arith);
}

misses-Fair :
    (s : State) (i a : ℕ)
    → s.phase i ≡ spinning a
    → Inv s
    → Fair s i (s.phase i) a (record (s.locks a) { locked = true })
misses-Fair s i a e v = record {
  others = λ j ne o. o;
  elsewhere = λ b ne o. o;
  itself = λ o. inl o;
  locked = (λ o. refl, λ j ne o. refl);
  freed = λ j ne f. v.freed j a f;
  frees_own = λ b f. absurd (let wrong = sym e ∙ f in ground arith);
}

marks-Fair :
    (s : State) (i a : ℕ)
    → s.phase i ≡ marking a
    → Inv s
    → Fair s i idle a (record (s.locks a) { cpu = some i })
marks-Fair s i a e v =
    let own = owns_by_phase s i a (marking a) e (ground arith) in
    record {
      others = λ j ne o. (let other : (i == j) ≡ false = ground arith in ground arith);
      elsewhere = λ b ne o. owns_by_cpu s i b o;
      itself = λ o. inl own;
      locked = (λ o. v.locked i a own, λ j ne o. v.locked i a own);
      freed = λ j ne f.
          absurd (ne (v.unique j i a (owns_by_phase s j a (freeing a) f (ground arith)) own));
      frees_own = λ b f. absurd (ground arith);
    }

leaves-Fair :
    (s : State) (i a : ℕ)
    → holding i (s.locks a) ≡ true
    → Inv s
    → Fair s i (freeing a) a (record (s.locks a) { cpu = none })
unfolding holding
leaves-Fair s i a held v = record {
  others = λ j ne o. ground arith;
  elsewhere = λ b ne o. owns_by_cpu s i b (ground arith);
  itself = λ o. inl (owns_by_cpu s i a (ground arith));
  locked = (λ o. ground arith, λ j ne o. ground arith);
  freed = λ j ne e. refl;
  frees_own = λ b e. (ground arith, refl);
}

frees-Fair :
    (s : State) (i a : ℕ)
    → s.phase i ≡ freeing a
    → Inv s
    → Fair s i idle a (record (s.locks a) { locked = false })
frees-Fair s i a e v =
    let own = owns_by_phase s i a (freeing a) e (ground arith) in
    let empty = ap (is_cpu i) (v.freed i a e) in
    record {
      others = λ j ne o. o;
      elsewhere = λ b ne o. owns_by_cpu s i b o;
      itself = λ o. absurd (ground arith);
      locked = (λ o. absurd (ground arith), λ j ne o. absurd (ne (v.unique j i a o own)));
      freed = λ j ne f. v.freed j a f;
      frees_own = λ b f. absurd (ground arith);
    }

-- What `release_enter` leaves, and that its caller holds the lock.
release_enter_lem :
    (i : ℕ) (l k : Lock)
    → release_enter i l ≡ some k
    → (holding i l ≡ true) × (k ≡ record l { cpu = none })
unfolding release_enter
release_enter_lem i l k e = elim (Bool-cases (holding i l)) [
  | inl held ↦ (held, sym (some_inj (sym (if_false (not (holding i l)) none _ (ap not held)) ∙ e)))
  | inr free ↦
      absurd
        (let wrong = sym (if_true (not (holding i l)) none _ (ap not free)) ∙ e in ground arith)
]
  where
    some_inj : {A : Type 0} {x y : A} → some x ≡ some y → x ≡ y
    some_inj {A} {x} {y} e = ap (λ (o : Option A). elim o [ none ↦ x | some z ↦ z ]) e

Step-Inv : (s u : State) → Step s u → Inv s → Inv u
unfolding moved swap acquire_exit release_exit
Step-Inv s _ (enters i a q e f) v =
    subst
      (λ ls. Inv (record { cpus = at s.cpus i q; phase = at s.phase i (spinning a); locks = ls }))
      (at_self s.locks a)
      (moved-Inv s (at s.cpus i q) i (spinning a) a (s.locks a) v (enters-Fair s i a v))
Step-Inv s _ (gets i a e got) v =
    moved-Inv s s.cpus i (marking a) a (record (s.locks a) { locked = true }) v
      (gets-Fair s i a (ground arith) v)
Step-Inv s _ (misses i a e missed) v =
    subst
      (λ ps. Inv (record {
        cpus = s.cpus;
        phase = ps;
        locks = at s.locks a (record (s.locks a) { locked = true });
      }))
      (at_self s.phase i)
      (moved-Inv s s.cpus i (s.phase i) a (record (s.locks a) { locked = true }) v
        (misses-Fair s i a e v))
Step-Inv s _ (marks i a e) v =
    moved-Inv s s.cpus i idle a (record (s.locks a) { cpu = some i }) v (marks-Fair s i a e v)
Step-Inv s _ (leaves i a k e f) v =
    let (held, same) = release_enter_lem i (s.locks a) k f in
    subst
      (λ l.
        Inv (record { cpus = s.cpus; phase = at s.phase i (freeing a); locks = at s.locks a l }))
      (sym same)
      (moved-Inv s s.cpus i (freeing a) a (record (s.locks a) { cpu = none }) v
        (leaves-Fair s i a held v))
Step-Inv s _ (frees i a q e f) v =
    moved-Inv s (at s.cpus i q) i idle a (record (s.locks a) { locked = false }) v
      (frees-Fair s i a e v)

-- The processors before their first lock.
abbrev pub start : (ℕ → Cpu) → State
start cpus = record { cpus = cpus; phase = λ i. idle; locks = λ a. initlock }

start-Inv : (cpus : ℕ → Cpu) → Inv (start cpus)
unfolding initlock
start-Inv cpus = record {
  locked = λ i a o. absurd (ground arith);
  unique = λ i j a o o'. absurd (ground arith);
  freed = λ i a e. refl;
}

Steps-Inv : (s u : State) → Steps s u → Inv s → Inv u
Steps-Inv s _ stay v = v
Steps-Inv s u (more w _ before step) v = Step-Inv w u step (Steps-Inv s w before v)

-- However the steps of the processors follow one another, two processors never own the same lock:
-- neither holds it, is about to mark it as its own, or is about to free it while the other does. And
-- an owned lock is locked, so that no swap of another processor gets it.
pub exclusion_lem :
    (cpus : ℕ → Cpu) (s : State) (i j a : ℕ)
    → Steps (start cpus) s
    → owns s i a ≡ true
    → ((swap (s.locks a)).0 ≡ false) × (owns s j a ≡ true → i ≡ j)
exclusion_lem cpus s i j a steps own =
    let v = Steps-Inv (start cpus) s steps (start-Inv cpus) in
    (unfold swap in ap not (v.locked i a own), λ own'. v.unique i j a own own')
