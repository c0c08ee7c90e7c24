-- ===== src/Proc/Turnover.antt =====
-- The functions of Xv6/kernel/proc.c that begin and end a process keep the invariant.
use os_project.Prelude.{
  ℕ, ◌<◌, ◌≡◌, ◌≢◌, ◌⊎◌, inl, inr, ap, sym, ◌∙◌, Bool, true, false, ◌&&◌, Bool-cases, Option, none,
  some, ltb, if◌then◌else◌, arith, ℕ_discrete, if_true, if_false,
}
use mathlib.Core.Path.{subst}
use os_project.Proc.Table.{Table, nproc, is_unused, is_child, is_zombie, is_running, is_sleeping}
use os_project.Proc.Life.{exit}
use os_project.Proc.Effects.{is_waiting, is_waiting-Kept, is_unused-Kept, is_zombie-Kept}
use os_project.Proc.Exit.{Exited, exit_cases}
use os_project.Proc.Inv.{Inv}
use os_project.Proc.Steady.{is_running_lem}

-- Whose child an entry is behind an exit: as before, or a child of init in place of `cur`.
parent_after :
    (b : Bool) (p q : Option ℕ) (cur init i : ℕ)
    → q ≡ (if b && is_child p cur then some init else p)
    → is_child q i ≡ true
    → (is_child p i ≡ true) ⊎ (i ≡ init) × (b ≡ true) × (is_child p cur ≡ true)
parent_after b p q cur init i e mine = elim (Bool-cases (b && is_child p cur)) [
  | inl taken ↦
      inr (
        given_to (e ∙ if_true (b && is_child p cur) (some init) p taken),
        ground arith,
        ground arith,
      )
  | inr left ↦
      inl (
        ap (λ r. is_child r i) (sym (e ∙ if_false (b && is_child p cur) (some init) p left)) ∙ mine)
]
  where
    given_to : q ≡ some init → i ≡ init
    given_to e = let same = ap (λ r. is_child r i) (sym e) ∙ mine in ground arith

is_child_lem : (p : Option ℕ) (i : ℕ) → is_child p i ≡ true → p ≡ some i
is_child_lem none i e = absurd (ground arith)
is_child_lem (some j) i e = ap some (ground arith)

module _ (status cur : ℕ) (t u : Table) (runs : is_running (t.procs cur).state ≡ true) (v : Inv t)
    (x : Exited status cur t u) where
  pid_same : (j : ℕ) → (u.procs j).pid ≡ (t.procs j).pid
  pid_same j = elim (ℕ_discrete j cur) [
    | yes e ↦ subst (λ k. (u.procs k).pid ≡ (t.procs k).pid) (sym e) x.pid
    | no ne ↦ (x.others j ne).pid
  ]

  used_same : (j : ℕ) → is_unused (u.procs j).state ≡ is_unused (t.procs j).state
  used_same j = elim (ℕ_discrete j cur) [
    | yes e ↦
        subst (λ k. is_unused (u.procs k).state ≡ is_unused (t.procs k).state) (sym e)
          (ap is_unused x.state ∙ sym (is_running_lem (t.procs cur).state runs))
    | no ne ↦ is_unused-Kept (x.others j ne)
  ]

  not_self_waiting : (i : ℕ) → is_waiting i (u.procs i) ≡ true → i ≢ cur
  not_self_waiting i waits e =
      let asleep =
        subst (λ k. is_sleeping (u.procs k).state ≡ false) (sym e) (ap is_sleeping x.state) in
      ground arith

  -- The child of `i` was its child before.
  same_child :
      (i j : ℕ)
      → i < nproc
      → j < nproc
      → is_waiting i (u.procs i) ≡ true
      → is_child (t.procs j).parent i ≡ true
      → is_zombie (u.procs j).state ≡ false
  same_child i j lt lt' waits mine = elim (ℕ_discrete j cur) [
    | yes e ↦
        (let parent =
            subst (λ k. (t.procs k).parent ≡ some i) e (is_child_lem (t.procs j).parent i mine) in
          let awake = x.parent_awake i parent lt (not_self_waiting i waits) in
          absurd (ground arith))
    | no ne ↦ is_zombie-Kept (x.others j ne) (
        v.no_lost_wakeup i j lt lt'
          (is_waiting-Kept i (x.others i (not_self_waiting i waits)) waits) mine)
  ]

  -- The child of `i`, which is the init process, was a child of `cur`.
  new_child :
      (i j : ℕ)
      → i ≡ t.initproc
      → j < nproc
      → is_waiting i (u.procs i) ≡ true
      → is_child (t.procs j).parent cur ≡ true
      → ⊥
  new_child i j e lt waits mine =
      let awake =
        subst (λ k. is_waiting k (u.procs k) ≡ false) (sym e) (x.init_awake j lt mine v.init) in
      ground arith

  Exited-Inv : Inv u
  Exited-Inv = record {
    init = subst (λ i. i < nproc) (sym x.rest.1) v.init;
    init_parent =
        subst (λ i. (u.procs i).parent ≡ none) (sym x.rest.1)
          (x.parents t.initproc
            ∙ if_false (ltb t.initproc nproc && is_child (t.procs t.initproc).parent cur)
                (some t.initproc) _
                (let orphan = ap (λ p. is_child p cur) v.init_parent in ground arith)
            ∙ v.init_parent);
    init_used =
        subst (λ i. is_unused (u.procs i).state ≡ false) (sym x.rest.1)
          (used_same t.initproc ∙ v.init_used);
    not_self = λ j. elim (Bool-cases (is_child (u.procs j).parent j)) [
      | inl mine ↦
          elim (parent_after (ltb j nproc) (t.procs j).parent (u.procs j).parent cur t.initproc j
            (x.parents j) mine) [
              | inl before ↦ (let never = v.not_self j in absurd (ground arith))
              | inr (e, lt, child) ↦
                  (let orphan =
                      subst (λ k. is_child (t.procs k).parent cur ≡ false) (sym e)
                        (ap (λ p. is_child p cur) v.init_parent) in
                    absurd (ground arith))
            ]
      | inr e ↦ e
    ];
    no_lost_wakeup = λ i j lt lt' waits mine.
        elim (parent_after (ltb j nproc) (t.procs j).parent (u.procs j).parent cur t.initproc i
          (x.parents j) mine) [
            | inl before ↦ same_child i j lt lt' waits before
            | inr (e, in_table, child) ↦ absurd (new_child i j e lt' waits child)
          ];
    clean = λ j free. pid_same j ∙ v.clean j (sym (used_same j) ∙ free);
    given_out = λ j taken.
        (let old = v.given_out j (sym (used_same j) ∙ taken) in
          let same = pid_same j in let next = x.rest.0 in (ground arith, ground arith));
    unique = λ i j e pos.
        (let same = pid_same i in v.unique i j (sym (pid_same i) ∙ e ∙ pid_same j) (ground arith));
    counter = (let next = x.rest.0 in let old = v.counter in ground arith);
  }

pub exit-Inv :
    (status cur : ℕ) (t u : Table)
    → is_running (t.procs cur).state ≡ true
    → exit status cur t ≡ some u
    → Inv t
    → Inv u
exit-Inv status cur t u runs e v = elim (exit_cases status cur t) [
  | inl (same, panics) ↦ (let wrong = sym panics ∙ e in absurd (ground arith))
  | inr (ne, (w, returns, x)) ↦
      subst Inv (some_inj (sym returns ∙ e)) (Exited-Inv status cur t w runs v x)
]
  where
    some_inj : {w u : Table} → some w ≡ some u → w ≡ u
    some_inj {w} {u} e = ap (λ o. elim o [ none ↦ w | some r ↦ r ]) e
