-- ===== src/Proc/Reparent.antt =====
-- What `reparent` of Xv6/kernel/proc.c does to the process table.
use os_project.Prelude.{
  ℕ, zero, suc, ◌+◌, ◌<◌, ◌≡◌, ◌≢◌, inl, inr, refl, ap, ◌∙◌, true, false, ◌&&◌, Bool-cases, Option,
  some, ◌==◌, if◌then◌else◌, arith, ℕ_discrete,
}
use mathlib.Core.Path.{subst}
use os_project.Memory.{in_range}
use os_project.Proc.Table.{Proc, Table, entry, nproc, put, is_child, set_proc, wakeup}
use os_project.Proc.Life.{reparent_loop}
use os_project.Proc.Loops.{put_cases, SameRest, wakeup_lem}
use os_project.Proc.Effects.{
  Kept, Kept-refl, Kept-trans, is_waiting, is_waiting-Kept, wakeup-Kept, wakeup_not_waiting,
}

-- The children of `cur` among the `n` entries from `i` on have gone to the init process.
pub record Reparented (n i cur : ℕ) (t u : Table) : Type 0 where
  pub parents :
      (j : ℕ)
      → (u.procs j).parent ≡ (
          if in_range i n j && is_child (t.procs j).parent cur
          then some t.initproc
          else (t.procs j).parent)
  pub kept : (j : ℕ) → Kept (t.procs j) (u.procs j)
  pub rest : SameRest t u
  pub woken :
      (j : ℕ)
      → in_range i n j ≡ true
      → is_child (t.procs j).parent cur ≡ true
      → t.initproc < nproc
      → t.initproc ≢ cur
      → is_waiting t.initproc (u.procs t.initproc) ≡ false

-- The step at one entry.
abbrev pub give : ℕ → ℕ → Table → Table
give i cur t =
    wakeup cur (entry t.initproc) (set_proc t i (record (t.procs i) { parent = some t.initproc }))

parent-put :
    (procs : ℕ → Proc) (i j : ℕ) (q : Option ℕ)
    → (put procs i (record (procs i) { parent = q }) j).parent
      ≡ (if j == i then q else (procs j).parent)
parent-put procs i j q =
    put_cases (λ k p. p.parent ≡ (if k == i then q else (procs k).parent)) procs i
      (record (procs i) { parent = q }) j (ground arith) (λ ne. ground arith)

put-Kept :
    (procs : ℕ → Proc) (i j : ℕ) (q : Option ℕ)
    → Kept (procs j) (put procs i (record (procs i) { parent = q }) j)
put-Kept procs i j q =
    put_cases (λ k. Kept (procs k)) procs i (record (procs i) { parent = q }) j
      (record { pid = refl; killed = refl; chan = refl; state = inl refl })
      (λ ne. Kept-refl (procs j))

give-parent :
    (i cur : ℕ) (t : Table) (j : ℕ)
    → ((give i cur t).procs j).parent ≡ (if j == i then some t.initproc else (t.procs j).parent)
unfolding set_proc
give-parent i cur t j =
    (wakeup-Kept cur (entry t.initproc)
      (set_proc t i (record (t.procs i) { parent = some t.initproc })) j).1
    ∙ parent-put t.procs i j (some t.initproc)

give-Kept : (i cur : ℕ) (t : Table) (j : ℕ) → Kept (t.procs j) ((give i cur t).procs j)
unfolding set_proc
give-Kept i cur t j =
    Kept-trans (put-Kept t.procs i j (some t.initproc))
      (wakeup-Kept cur (entry t.initproc)
        (set_proc t i (record (t.procs i) { parent = some t.initproc })) j).0

give-SameRest : (i cur : ℕ) (t : Table) → SameRest t (give i cur t)
unfolding set_proc
give-SameRest i cur t =
    (wakeup_lem cur (entry t.initproc)
      (set_proc t i (record (t.procs i) { parent = some t.initproc }))).0

Reparented-skip :
    (n i cur : ℕ) (t u : Table)
    → is_child (t.procs i).parent cur ≡ false
    → Reparented n (i + 1) cur t u
    → Reparented (suc n) i cur t u
Reparented-skip n i cur t u not_mine r = record {
  parents = λ j.
      r.parents j
      ∙ elim (ℕ_discrete j i) [ yes same ↦ rw same (ground arith) | no ne ↦ ground arith ];
  kept = r.kept;
  rest = r.rest;
  woken = λ j inside mine lt ne. elim (ℕ_discrete j i) [
    | yes same ↦ absurd (ground (arith, ap (λ k. is_child (t.procs k).parent cur) same))
    | no other ↦ r.woken j (ground arith) mine lt ne
  ];
}

parents_step :
    (init n i j cur : ℕ) (before given after : Option ℕ)
    → given ≡ (if j == i then some init else before)
    → after ≡ (if in_range (i + 1) n j && is_child given cur then some init else given)
    → (j ≡ i → is_child before cur ≡ true)
    → after ≡ (if in_range i (suc n) j && is_child before cur then some init else before)
parents_step init n i j cur before given after e f mine = elim (ℕ_discrete j i) [
  | yes same ↦ (let child = mine same in ground arith)
  | no ne ↦ (let same : given ≡ before = ground arith in f ∙ rw same (ground arith))
]

-- The step itself wakes the init process up, and the rest of the loop makes nobody sleep.
init_awake :
    (i cur : ℕ) (t : Table) (q : Proc)
    → t.initproc < nproc
    → t.initproc ≢ cur
    → Kept ((give i cur t).procs t.initproc) q
    → is_waiting t.initproc q ≡ false
unfolding set_proc
init_awake i cur t q lt ne k =
    let awake =
      wakeup_not_waiting cur t.initproc
        (set_proc t i (record (t.procs i) { parent = some t.initproc })) lt ne in
    elim (Bool-cases (is_waiting t.initproc q)) [
      | inl waits ↦ (let before = is_waiting-Kept t.initproc k waits in absurd (ground arith))
      | inr e ↦ e
    ]

Reparented-give :
    (n i cur : ℕ) (t u : Table)
    → is_child (t.procs i).parent cur ≡ true
    → Reparented n (i + 1) cur (give i cur t) u
    → Reparented (suc n) i cur t u
Reparented-give n i cur t u mine r = record {
  parents = λ j.
      parents_step t.initproc n i j cur (t.procs j).parent ((give i cur t).procs j).parent
        (u.procs j).parent (give-parent i cur t j)
        (subst
          (λ init. (u.procs j).parent ≡ (
            if in_range (i + 1) n j && is_child ((give i cur t).procs j).parent cur
            then some init
            else ((give i cur t).procs j).parent))
          (give-SameRest i cur t).1 (r.parents j))
        (λ same. ap (λ k. is_child (t.procs k).parent cur) same ∙ mine);
  kept = λ j. Kept-trans (give-Kept i cur t j) (r.kept j);
  rest = (r.rest.0 ∙ (give-SameRest i cur t).0, r.rest.1 ∙ (give-SameRest i cur t).1);
  woken = λ j inside mine lt ne. init_awake i cur t (u.procs t.initproc) lt ne (r.kept t.initproc);
}

pub reparent_loop-Reparented :
    (n i cur : ℕ) (t : Table) → Reparented n i cur t (reparent_loop n i cur t)
unfolding reparent_loop
reparent_loop-Reparented zero i cur t = record {
  parents = λ j. ground arith;
  kept = λ j. Kept-refl (t.procs j);
  rest = (refl, refl);
  woken = λ j inside mine lt ne. absurd (ground arith);
}
reparent_loop-Reparented (suc n) i cur t = elim (Bool-cases (is_child (t.procs i).parent cur)) [
  | inl mine ↦
      rw mine
        (Reparented-give n i cur t _ mine (reparent_loop-Reparented n (i + 1) cur (give i cur t)))
  | inr not_mine ↦
      rw not_mine (Reparented-skip n i cur t _ not_mine (reparent_loop-Reparented n (i + 1) cur t))
]
