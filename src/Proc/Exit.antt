-- ===== src/Proc/Exit.antt =====
-- What `exit` of Xv6/kernel/proc.c leaves behind.
use os_project.Prelude.{
  ℕ, ◌<◌, ◌≡◌, ◌≢◌, ◌⊎◌, inl, inr, refl, ap, sym, ◌∙◌, ap₂, Bool, true, false, ◌&&◌, Bool-cases,
  Option, none, some, ◌==◌, ltb, if◌then◌else◌, arith, ℕ_discrete, if_true, if_false,
}
use mathlib.Core.Path.{subst}
use os_project.Memory.{in_range}
use os_project.Proc.Table.{Proc, Table, zombie, nproc, put, is_child, set_proc, wakeup, chan_of}
use os_project.Proc.Life.{nofile, close_files, reparent, exit}
use os_project.Proc.Loops.{put_cases, SameRest, wakeup_lem}
use os_project.Proc.Effects.{
  Kept, Kept-refl, Kept-trans, is_waiting, is_waiting-Kept, wakeup-Kept, wakeup_not_waiting,
}
use os_project.Proc.Reparent.{Reparented, reparent_loop-Reparented}

-- The table `u` when process `cur` of table `t` has left with `status`.
pub record Exited (status cur : ℕ) (t u : Table) : Type 0 where
  pub state : (u.procs cur).state ≡ zombie
  pub xstate : (u.procs cur).xstate ≡ status
  pub pid : (u.procs cur).pid ≡ (t.procs cur).pid
  pub others : (j : ℕ) → j ≢ cur → Kept (t.procs j) (u.procs j)
  pub parents :
      (j : ℕ)
      → (u.procs j).parent ≡ (
          if ltb j nproc && is_child (t.procs j).parent cur
          then some t.initproc
          else (t.procs j).parent)
  pub parent_awake :
      (i : ℕ)
      → (t.procs cur).parent ≡ some i
      → i < nproc
      → i ≢ cur
      → is_waiting i (u.procs i) ≡ false
  pub init_awake :
      (j : ℕ)
      → j < nproc
      → is_child (t.procs j).parent cur ≡ true
      → t.initproc < nproc
      → is_waiting t.initproc (u.procs t.initproc) ≡ false
  pub rest : SameRest t u

abbrev pub closed : ℕ → Proc → Proc
closed cur p = record p { ofile = λ fd. if ltb fd nofile then none else p.ofile fd; cwd = none }

put-closed :
    (procs : ℕ → Proc) (cur j : ℕ)
    → Kept (procs j) (put procs cur (closed cur (procs cur)) j)
      × ((put procs cur (closed cur (procs cur)) j).parent ≡ (procs j).parent)
put-closed procs cur j =
    put_cases (λ k p. Kept (procs k) p × (p.parent ≡ (procs k).parent)) procs cur
      (closed cur (procs cur)) j
      (record { pid = refl; killed = refl; chan = refl; state = inl refl }, refl)
      (λ ne. (Kept-refl (procs j), refl))

close_files_lem :
    (cur : ℕ) (t : Table)
    → ((j : ℕ)
        → Kept (t.procs j) ((close_files cur t).procs j)
          × (((close_files cur t).procs j).parent ≡ (t.procs j).parent))
      × SameRest t (close_files cur t)
unfolding close_files set_proc
close_files_lem cur t = (λ j. put-closed t.procs cur j, (refl, refl))

-- The table behind `reparent`, and behind the wakeup of the parent.
abbrev pub orphaned : ℕ → Table → Table
orphaned cur t = reparent cur (close_files cur t)

abbrev pub told : ℕ → Table → Table
told cur t = wakeup cur (chan_of ((orphaned cur t).procs cur).parent) (orphaned cur t)

orphaned-Reparented :
    (cur : ℕ) (t : Table) → Reparented nproc 0 cur (close_files cur t) (orphaned cur t)
unfolding reparent
orphaned-Reparented cur t = reparent_loop-Reparented nproc 0 cur (close_files cur t)

orphaned-parent :
    (cur : ℕ) (t : Table) (j : ℕ)
    → ((orphaned cur t).procs j).parent ≡ (
        if ltb j nproc && is_child (t.procs j).parent cur
        then some t.initproc
        else (t.procs j).parent)
orphaned-parent cur t j =
    (orphaned-Reparented cur t).parents j
    ∙ ap₂ (λ p i. if in_range 0 nproc j && is_child p cur then some i else p)
        ((close_files_lem cur t).0 j).1 (close_files_lem cur t).1.1
    ∙ ap (λ b. if b && is_child (t.procs j).parent cur then some t.initproc else (t.procs j).parent)
        (range_lem j)
  where
    range_lem : (j : ℕ) → in_range 0 nproc j ≡ ltb j nproc
    range_lem j = ground arith

told-Kept :
    (cur : ℕ) (t : Table) (j : ℕ)
    → Kept (t.procs j) ((told cur t).procs j)
      × (((told cur t).procs j).parent ≡ ((orphaned cur t).procs j).parent)
told-Kept cur t j =
    let w = wakeup-Kept cur (chan_of ((orphaned cur t).procs cur).parent) (orphaned cur t) j in
    let r = orphaned-Reparented cur t in
    (Kept-trans ((close_files_lem cur t).0 j).0 (Kept-trans (r.kept j) w.0), w.1)

awake_after : {p q : Proc} (i : ℕ) → Kept p q → is_waiting i p ≡ false → is_waiting i q ≡ false
awake_after {p} {q} i k h = elim (Bool-cases (is_waiting i q)) [
  | inl waits ↦ (let before = is_waiting-Kept i k waits in absurd (ground arith))
  | inr e ↦ e
]

-- The parent of a process that is not its own parent is unchanged by `reparent`, so that it is woken.
told-parent :
    (cur i : ℕ) (t : Table)
    → (t.procs cur).parent ≡ some i
    → i < nproc
    → i ≢ cur
    → is_waiting i ((told cur t).procs i) ≡ false
told-parent cur i t e lt ne =
    let same : ((orphaned cur t).procs cur).parent ≡ some i =
      orphaned-parent cur t cur
      ∙ other_parent (ltb cur nproc) cur t.initproc i (t.procs cur).parent e ne in
    rw same (wakeup_not_waiting cur i (orphaned cur t) lt ne)
  where
    other_parent :
        (b : Bool) (cur init i : ℕ) (p : Option ℕ)
        → p ≡ some i
        → i ≢ cur
        → (if b && is_child p cur then some init else p) ≡ some i
    other_parent b cur init i p e ne =
        rw e (let test : (i == cur) ≡ false = ground arith in ground arith)

told-init :
    (cur j : ℕ) (t : Table)
    → j < nproc
    → is_child (t.procs j).parent cur ≡ true
    → t.initproc < nproc
    → t.initproc ≢ cur
    → is_waiting t.initproc ((told cur t).procs t.initproc) ≡ false
told-init cur j t lt mine in_table ne =
    let c = close_files cur t in
    let same : c.initproc ≡ t.initproc = (close_files_lem cur t).1.1 in
    let child : is_child (c.procs j).parent cur ≡ true =
      ap (λ p. is_child p cur) ((close_files_lem cur t).0 j).1 ∙ mine in
    let awake : is_waiting c.initproc ((orphaned cur t).procs c.initproc) ≡ false =
      (orphaned-Reparented cur t).woken j (ground arith) child
        (subst (λ i. i < nproc) (sym same) in_table) (subst (λ i. i ≢ cur) (sym same) ne) in
    awake_after t.initproc
      (wakeup-Kept cur (chan_of ((orphaned cur t).procs cur).parent) (orphaned cur t) t.initproc).0
      (subst (λ i. is_waiting i ((orphaned cur t).procs i) ≡ false) same awake)

told-SameRest : (cur : ℕ) (t : Table) → SameRest t (told cur t)
told-SameRest cur t =
    let w = (wakeup_lem cur (chan_of ((orphaned cur t).procs cur).parent) (orphaned cur t)).0 in
    let r = (orphaned-Reparented cur t).rest in
    let c = (close_files_lem cur t).1 in (w.0 ∙ r.0 ∙ c.0, w.1 ∙ r.1 ∙ c.1)

unfoldable pub dead : ℕ → Proc → Proc
dead status p = record p { xstate = status; state = zombie }

unfoldable pub buried : ℕ → ℕ → Table → Table
buried status cur u = set_proc u cur (dead status (u.procs cur))

-- What the last two assignments keep of the parents, and of the other entries.
buried-parent :
    (status cur : ℕ) (u : Table) (j : ℕ)
    → ((buried status cur u).procs j).parent ≡ (u.procs j).parent
unfolding buried set_proc dead
buried-parent status cur u j =
    put_cases (λ k p. p.parent ≡ (u.procs k).parent) u.procs cur
      (record (u.procs cur) { xstate = status; state = zombie }) j refl (λ ne. refl)

pub buried-other :
    (status cur : ℕ) (u : Table) (j : ℕ) → j ≢ cur → u.procs j ≡ (buried status cur u).procs j
unfolding buried set_proc dead
buried-other status cur u j ne =
    put_cases (λ k p. k ≢ cur → u.procs k ≡ p) u.procs cur
      (record (u.procs cur) { xstate = status; state = zombie }) j (λ ne. absurd (ne refl))
      (λ ne self. refl) ne

buried_self :
    (status cur : ℕ) (u : Table)
    → ((buried status cur u).procs cur).state ≡ zombie
      × (((buried status cur u).procs cur).xstate ≡ status)
      × (((buried status cur u).procs cur).pid ≡ (u.procs cur).pid)
unfolding buried set_proc dead
buried_self status cur u =
    put_cases
      (λ k p. k ≡ cur → (p.state ≡ zombie) × (p.xstate ≡ status) × (p.pid ≡ (u.procs cur).pid))
      u.procs cur (record (u.procs cur) { xstate = status; state = zombie }) cur
      (λ same. (refl, refl, refl)) (λ ne. absurd (ne refl)) refl

pub exit-unfolded :
    (status cur : ℕ) (t : Table)
    → cur ≢ t.initproc
    → exit status cur t ≡ some (buried status cur (told cur t))
unfolding exit buried dead
exit-unfolded status cur t ne =
    if_false (cur == t.initproc) none (some (buried status cur (told cur t))) (ground arith)

pub buried-Exited :
    (status cur : ℕ) (t : Table)
    → cur ≢ t.initproc
    → Exited status cur t (buried status cur (told cur t))
unfolding buried set_proc
buried-Exited status cur t ne =
    let u = told cur t in
    let self = buried_self status cur u in
    record {
      state = self.0;
      xstate = self.1;
      pid = self.2 ∙ (told-Kept cur t cur).0.pid;
      others = λ j other.
          subst (Kept (t.procs j)) (buried-other status cur u j other) (told-Kept cur t j).0;
      parents = λ j. buried-parent status cur u j ∙ (told-Kept cur t j).1 ∙ orphaned-parent cur t j;
      parent_awake = λ i e lt other.
          subst (λ p. is_waiting i p ≡ false) (buried-other status cur u i other)
            (told-parent cur i t e lt other);
      init_awake = λ j lt mine in_table.
          subst (λ p. is_waiting t.initproc p ≡ false)
            (buried-other status cur u t.initproc (λ e. ne (sym e)))
            (told-init cur j t lt mine in_table (λ e. ne (sym e)));
      rest = told-SameRest cur t;
    }

-- `exit` by what it leaves.
pub exit_cases :
    (status cur : ℕ) (t : Table)
    → (cur ≡ t.initproc) × (exit status cur t ≡ none)
      ⊎ (cur ≢ t.initproc) × ((u : Table) × (exit status cur t ≡ some u) × Exited status cur t u)
exit_cases status cur t = elim (ℕ_discrete cur t.initproc) [
  | yes same ↦ inl (same, panics same)
  | no ne ↦ inr (
    ne,
    (buried status cur (told cur t), exit-unfolded status cur t ne, buried-Exited status cur t ne),
  )
]
  where
    panics : cur ≡ t.initproc → exit status cur t ≡ none
    panics same = unfold exit in if_true (cur == t.initproc) none _ (ground arith)
