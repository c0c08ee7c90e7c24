-- ===== src/Proc/Inv.antt =====
-- An invariant of the process table of Xv6/kernel/proc.c, and the changes of one entry that keep it.
use os_project.Prelude.{ℕ, ◌<◌, ◌≡◌, refl, ap, sym, ◌∙◌, true, false, none, arith}
use mathlib.Core.Path.{subst}
use os_project.Proc.Table.{Proc, Table, nproc, put, is_unused, is_child, is_zombie, set_proc}
use os_project.Proc.Loops.{put_cases, SameRest}
use os_project.Proc.Effects.{is_waiting}

-- No process of the table waits for a child and has a zombie child.
abbrev pub Quiet : Table → Type 0
Quiet t =
    (i j : ℕ)
    → i < nproc
    → j < nproc
    → is_waiting i (t.procs i) ≡ true
    → is_child (t.procs j).parent i ≡ true
    → is_zombie (t.procs j).state ≡ false

pub record Inv (t : Table) : Type 0 where
  -- The init process is in the table and has no parent, and nobody is its own parent.
  pub init : t.initproc < nproc
  pub init_parent : (t.procs t.initproc).parent ≡ none
  pub init_used : is_unused (t.procs t.initproc).state ≡ false
  pub not_self : (j : ℕ) → is_child (t.procs j).parent j ≡ false
  -- A process that waits for a child has no zombie child.
  pub no_lost_wakeup : Quiet t
  -- An entry has a pid that was given out if it is used, and else 0; no two have the same.
  pub clean : (j : ℕ) → is_unused (t.procs j).state ≡ true → (t.procs j).pid ≡ 0
  pub given_out :
      (j : ℕ)
      → is_unused (t.procs j).state ≡ false
      → (0 < (t.procs j).pid) × ((t.procs j).pid < t.nextpid)
  pub unique : (i j : ℕ) → (t.procs i).pid ≡ (t.procs j).pid → 0 < (t.procs i).pid → i ≡ j
  pub counter : 0 < t.nextpid

-- Entry `k` changes in nothing that the invariant sees, but to stop waiting or to be no zombie.
pub record Calm (k : ℕ) (p q : Proc) : Type 0 where
  pub pid : q.pid ≡ p.pid
  pub parent : q.parent ≡ p.parent
  pub used : is_unused q.state ≡ is_unused p.state
  pub waits : is_waiting k q ≡ true → is_waiting k p ≡ true
  pub zombie : is_zombie p.state ≡ false → is_zombie q.state ≡ false

pub Calm-refl : (k : ℕ) (p : Proc) → Calm k p p
Calm-refl k p = record { pid = refl; parent = refl; used = refl; waits = λ h. h; zombie = λ h. h }

-- Each entry keeps its pid and its parent, and is used if it was.
abbrev pub Alike : Proc → Proc → Type 0
Alike p q = (q.pid ≡ p.pid) × (q.parent ≡ p.parent) × (is_unused q.state ≡ is_unused p.state)

pub Alike-Inv :
    (t u : Table)
    → SameRest t u
    → ((j : ℕ) → Alike (t.procs j) (u.procs j))
    → Quiet u
    → Inv t
    → Inv u
Alike-Inv t u (next, init) c quiet v = record {
  init = subst (λ i. i < nproc) (sym init) v.init;
  init_parent =
      subst (λ i. (u.procs i).parent ≡ none) (sym init) ((c t.initproc).1 ∙ v.init_parent);
  init_used =
      subst (λ i. is_unused (u.procs i).state ≡ false) (sym init) ((c t.initproc).2 ∙ v.init_used);
  not_self = λ j. ap (λ p. is_child p j) (c j).1 ∙ v.not_self j;
  no_lost_wakeup = quiet;
  clean = λ j free. (c j).0 ∙ v.clean j (sym (c j).2 ∙ free);
  given_out = λ j taken.
      (let old = v.given_out j (sym (c j).2 ∙ taken) in
        let same = (c j).0 in (ground arith, ground arith));
  unique =
      λ i j e pos. (let same = (c i).0 in v.unique i j (sym (c i).0 ∙ e ∙ (c j).0) (ground arith));
  counter = ground arith;
}

pub Calm-Inv :
    (t u : Table) → SameRest t u → ((j : ℕ) → Calm j (t.procs j) (u.procs j)) → Inv t → Inv u
Calm-Inv t u rest c v =
    Alike-Inv t u rest (λ j. ((c j).pid, (c j).parent, (c j).used))
      (λ i j lt lt' waits mine. (c j).zombie (
        v.no_lost_wakeup i j lt lt' ((c i).waits waits)
          (ap (λ p. is_child p i) (sym (c j).parent) ∙ mine)))
      v

-- One entry changes.
pub set_proc-Inv :
    (t : Table) (k : ℕ) (p : Proc) → Calm k (t.procs k) p → Inv t → Inv (set_proc t k p)
unfolding set_proc
set_proc-Inv t k p c v =
    Calm-Inv t (record t { procs = put t.procs k p }) (refl, refl)
      (λ j. put_cases (λ i q. Calm i (t.procs i) q) t.procs k p j c (λ ne. Calm-refl j (t.procs j)))
      v
