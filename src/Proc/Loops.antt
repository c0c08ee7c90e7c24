-- ===== src/Proc/Loops.antt =====
-- The loops of Xv6/kernel/proc.c over the process table, entry by entry.
use os_project.Prelude.{
  ℕ, zero, suc, ◌+◌, ◌≡◌, ◌≢◌, refl, sym, ◌∙◌, Bool, true, false, ◌&&◌, not, ◌==◌, ltb,
  if◌then◌else◌, arith, ℕ_discrete,
}
use mathlib.Core.Path.{subst}
use os_project.Memory.{in_range}
use os_project.Proc.Table.{
  Proc, put, Table, Chan, nproc, is_sleeping, chan_eq, runnable, set_proc, wake, wakeup_loop,
  wakeup,
}

-- A loop that applies `f` to the entries from `i` on, but for those to skip: the rest of the loop
-- behind the step at `i`.
step_if :
    {A : Type 0} (f : A → A) (x y : A) (n i j : ℕ) (skip : Bool)
    → y ≡ (if (j == i) && not skip then f x else x)
    → (if in_range (i + 1) n j && not skip then f y else y)
      ≡ (if in_range i (suc n) j && not skip then f x else x)
step_if f x y n i j skip e = ground arith

-- An entry that the loop replaces by `f` of itself, unless it skips it.
step_one :
    {A : Type 0} (f : A → A) (procs : ℕ → A) (i cur j : ℕ)
    → (if i == cur then procs j else if j == i then f (procs i) else procs j)
      ≡ (if (j == i) && not (j == cur) then f (procs j) else procs j)
step_one f procs i cur j = ground arith

-- What holds of the new entry, and of the others as they are, holds of each.
pub put_cases :
    (P : ℕ → Proc → Type 0) (procs : ℕ → Proc) (i : ℕ) (p : Proc) (j : ℕ)
    → P i p
    → (j ≢ i → P j (procs j))
    → P j (put procs i p j)
put_cases P procs i p j here there = elim (ℕ_discrete j i) [
  | yes same ↦ subst (P j) (sym (same_entry same)) (subst (λ k. P k p) (sym same) here)
  | no ne ↦ subst (P j) (sym (other_entry ne)) (there ne)
]
  where
    same_entry : j ≡ i → put procs i p j ≡ p
    same_entry e = let test : (j == i) ≡ true = ground arith in rw test refl

    other_entry : j ≢ i → put procs i p j ≡ procs j
    other_entry e = let test : (j == i) ≡ false = ground arith in rw test refl

procs-if :
    (b : Bool) (t u : Table) (j : ℕ)
    → (if b then t else u).procs j ≡ (if b then t.procs j else u.procs j)
procs-if true t u j = refl
procs-if false t u j = refl

nothing_in_range :
    {A : Type 0} (x y : A) (i j : ℕ) (b : Bool) → y ≡ (if in_range i 0 j && b then x else y)
nothing_in_range x y i j b = ground arith

wakeup_loop_procs :
    (n i cur : ℕ) (c : Chan) (t : Table) (j : ℕ)
    → (wakeup_loop n i cur c t).procs j
      ≡ (if in_range i n j && not (j == cur) then wake c (t.procs j) else t.procs j)
unfolding wakeup_loop
wakeup_loop_procs zero i cur c t j =
    nothing_in_range (wake c (t.procs j)) (t.procs j) i j (not (j == cur))
wakeup_loop_procs (suc n) i cur c t j =
    let one = if i == cur then t else set_proc t i (wake c (t.procs i)) in
    let e : one.procs j ≡ (if (j == i) && not (j == cur) then wake c (t.procs j) else t.procs j) =
      procs-if (i == cur) t (set_proc t i (wake c (t.procs i))) j ∙ woken in
    wakeup_loop_procs n (i + 1) cur c one j
    ∙ step_if (wake c) (t.procs j) (one.procs j) n i j (j == cur) e
  where
    woken :
        (if i == cur then t.procs j else (set_proc t i (wake c (t.procs i))).procs j)
        ≡ (if (j == i) && not (j == cur) then wake c (t.procs j) else t.procs j)
    woken = unfold set_proc in step_one (wake c) t.procs i cur j

-- What a loop leaves alone.
abbrev pub SameRest : Table → Table → Type 0
SameRest t u = (u.nextpid ≡ t.nextpid) × (u.initproc ≡ t.initproc)

if-SameRest :
    (b : Bool) (t u v : Table) → SameRest t u → SameRest t v → SameRest t (if b then u else v)
if-SameRest true t u v h k = h
if-SameRest false t u v h k = k

wakeup_loop-SameRest : (n i cur : ℕ) (c : Chan) (t : Table) → SameRest t (wakeup_loop n i cur c t)
unfolding wakeup_loop set_proc
wakeup_loop-SameRest zero i cur c t = (refl, refl)
wakeup_loop-SameRest (suc n) i cur c t =
    let woken = set_proc t i (wake c (t.procs i)) in
    let one = if i == cur then t else woken in
    let first = if-SameRest (i == cur) t t woken (refl, refl) (refl, refl) in
    let rest = wakeup_loop-SameRest n (i + 1) cur c one in (rest.0 ∙ first.0, rest.1 ∙ first.1)

nested_if :
    {A : Type 0} (x y : A) (j cur : ℕ) (b c : Bool)
    → (if in_range 0 nproc j && not (j == cur) then if b && c then x else y else y)
      ≡ (if ltb j nproc && not (j == cur) && b && c then x else y)
nested_if x y j cur b c = ground arith

-- `wakeup` makes exactly those entries runnable, the caller's own left out, that sleep on the channel;
-- each other entry, and the rest of the table, stays as it is.
pub wakeup_lem :
    (cur : ℕ) (c : Chan) (t : Table)
    → SameRest t (wakeup cur c t)
      × ((j : ℕ)
          → (wakeup cur c t).procs j ≡ (
              if ltb j nproc
                && not (j == cur)
                && is_sleeping (t.procs j).state
                && chan_eq (t.procs j).chan c
              then record (t.procs j) { state = runnable }
              else t.procs j))
unfolding wakeup
wakeup_lem cur c t =
    (wakeup_loop-SameRest nproc 0 cur c t, λ j. wakeup_loop_procs nproc 0 cur c t j ∙ all_tests j)
  where
    all_tests :
        (j : ℕ)
        → (if in_range 0 nproc j && not (j == cur) then wake c (t.procs j) else t.procs j) ≡ (
            if ltb j nproc
              && not (j == cur)
              && is_sleeping (t.procs j).state
              && chan_eq (t.procs j).chan c
            then record (t.procs j) { state = runnable }
            else t.procs j)
    all_tests j =
        unfold wake in
        nested_if (record (t.procs j) { state = runnable }) (t.procs j) j cur
          (is_sleeping (t.procs j).state) (chan_eq (t.procs j).chan c)
