-- ===== src/Proc/Placing.antt =====
-- The functions of Xv6/kernel/proc.c that fill or empty an entry, `fork` and `wait`, keep the invariant.
use os_project.Prelude.{
  ℕ, ◌+◌, ◌≤◌, ◌<◌, ◌≡◌, ◌≢◌, ◌⊎◌, inl, inr, refl, ap, sym, ◌∙◌, Bool, true, false, ◌&&◌, ◌||◌, not,
  Bool-cases, Option, none, ◌==◌, if◌then◌else◌, arith, ℕ_discrete, if_false,
}
use mathlib.Core.Path.{subst}
use os_project.Proc.Table.{
  Proc, Table, sleeping, entry, nproc, put, is_unused, is_child, is_zombie, is_running, set_proc,
  sleep_enter, killed,
}
use os_project.Proc.Life.{freeproc, fork, wait, Waited}
use os_project.Proc.Loops.{put_cases}
use os_project.Proc.Effects.{is_waiting}
use os_project.Proc.Begin.{fork_cases, fork_entry, put_here, claimed, child, released}
use os_project.Proc.Wait.{wait_cases, NoZombie}
use os_project.Proc.Inv.{Inv, Alike, Alike-Inv}
use os_project.Proc.Steady.{is_running_lem}

-- An entry that is free, or that holds a new process.
abbrev Filled : ℕ → ℕ → Proc → Type 0
Filled old new q =
    ((is_unused q.state ≡ true) × (q.pid ≡ 0))
    ⊎ ((is_unused q.state ≡ false) × (q.pid ≡ old) × (old < new))

module _ (t u : Table) (k : ℕ) (q : Proc) (here : u.procs k ≡ q)
    (others : (j : ℕ) → j ≢ k → u.procs j ≡ t.procs j) (nextpid : t.nextpid ≤ u.nextpid)
    (initproc : u.initproc ≡ t.initproc) (not_init : k ≢ t.initproc)
    (awake : is_waiting k q ≡ false) (alive : is_zombie q.state ≡ false)
    (not_self : is_child q.parent k ≡ false) (filled : Filled t.nextpid u.nextpid q)
    (v : Inv t) where
  old_pid : (j : ℕ) → (t.procs j).pid < t.nextpid
  old_pid j = elim (Bool-cases (is_unused (t.procs j).state)) [
    | inl free ↦ (let e = v.clean j free in let c = v.counter in ground arith)
    | inr taken ↦ (v.given_out j taken).1
  ]

  at_each :
      (P : ℕ → Proc → Type 0)
      → P k q
      → ((j : ℕ) → j ≢ k → P j (t.procs j))
      → (j : ℕ) → P j (u.procs j)
  at_each P new old j = elim (ℕ_discrete j k) [
    | yes e ↦ subst (λ i. P i (u.procs i)) (sym e) (subst (P k) (sym here) new)
    | no ne ↦ subst (P j) (sym (others j ne)) (old j ne)
  ]

  -- A used entry with the pid of the new one is the new one.
  new_pid : (j : ℕ) → j ≢ k → 0 < q.pid → q.pid ≢ (t.procs j).pid
  new_pid j ne pos e = elim filled [
    | inl (free, none_yet) ↦ ground arith
    | inr (taken, given, more) ↦ (let lt = old_pid j in ground arith)
  ]

  placed_unique : (i j : ℕ) → (u.procs i).pid ≡ (u.procs j).pid → 0 < (u.procs i).pid → i ≡ j
  placed_unique i j =
      at_each (λ i p. p.pid ≡ (u.procs j).pid → 0 < p.pid → i ≡ j)
        (at_each (λ j r. q.pid ≡ r.pid → 0 < q.pid → k ≡ j) (λ e pos. refl)
          (λ j ne e pos. absurd (new_pid j ne pos e)) j)
        (λ i ne.
          at_each (λ j r. (t.procs i).pid ≡ r.pid → 0 < (t.procs i).pid → i ≡ j)
            (λ e pos. absurd (new_pid i ne (subst (λ n. 0 < n) e pos) (sym e)))
            (λ j ne' e pos. v.unique i j e pos) j)
        i

  placed_quiet :
      (i j : ℕ)
      → i < nproc
      → j < nproc
      → is_waiting i (u.procs i) ≡ true
      → is_child (u.procs j).parent i ≡ true
      → is_zombie (u.procs j).state ≡ false
  placed_quiet i j lt lt' =
      at_each
        (λ i p.
          i < nproc
          → is_waiting i p ≡ true
          → is_child (u.procs j).parent i ≡ true
          → is_zombie (u.procs j).state ≡ false)
        (λ lt waits mine. absurd (ground arith))
        (λ i ne lt waits.
          at_each (λ j p. j < nproc → is_child p.parent i ≡ true → is_zombie p.state ≡ false)
            (λ lt' mine. alive) (λ j ne' lt' mine. v.no_lost_wakeup i j lt lt' waits mine) j lt')
        i lt

  placed-Inv : Inv u
  placed-Inv = record {
    init = subst (λ i. i < nproc) (sym initproc) v.init;
    init_parent =
        subst (λ i. (u.procs i).parent ≡ none) (sym initproc)
          (ap (λ (p : Proc). p.parent) (others t.initproc (λ e. not_init (sym e))) ∙ v.init_parent);
    init_used =
        subst (λ i. is_unused (u.procs i).state ≡ false) (sym initproc)
          (ap (λ (p : Proc). is_unused p.state) (others t.initproc (λ e. not_init (sym e)))
            ∙ v.init_used);
    not_self = at_each (λ j p. is_child p.parent j ≡ false) not_self (λ j ne. v.not_self j);
    no_lost_wakeup = placed_quiet;
    clean =
        at_each (λ j p. is_unused p.state ≡ true → p.pid ≡ 0)
          (λ free. elim filled [
            | inl (free', e) ↦ e
            | inr (taken, given, more) ↦ absurd (ground arith)
          ])
          (λ j ne. v.clean j);
    given_out =
        at_each (λ j p. is_unused p.state ≡ false → (0 < p.pid) × (p.pid < u.nextpid))
          (λ taken. elim filled [
            | inl (free, e) ↦ absurd (ground arith)
            | inr (taken', given, more) ↦ (let c = v.counter in (ground arith, ground arith))
          ])
          (λ j ne taken. (let old = v.given_out j taken in (ground arith, ground arith)));
    unique = placed_unique;
    counter = (let c = v.counter in ground arith);
  }

either_branch :
    {A : Type 0} (P : A → Type 0) (b c : Bool) (x y z : A)
    → P x
    → P y
    → P z
    → P (if b then x else if not c then y else z)
either_branch P true c x y z p q r = p
either_branch P false true x y z p q r = r
either_branch P false false x y z p q r = q

free_not_running :
    (t : Table) (i cur : ℕ)
    → is_unused (t.procs i).state ≡ true
    → is_running (t.procs cur).state ≡ true
    → cur ≢ i
free_not_running t i cur free runs e =
    let taken =
      subst (λ k. is_unused (t.procs k).state ≡ false) e
        (is_running_lem (t.procs cur).state runs) in
    ground arith

pub fork-Inv :
    (page : ℕ) (junk : ℕ → ℕ) (pagetable : ℕ) (copied : Bool) (cur : ℕ) (t : Table)
    → is_running (t.procs cur).state ≡ true
    → Inv t
    → Inv (fork page junk pagetable copied cur t).1
unfolding freeproc
fork-Inv page junk pagetable copied cur t runs v =
    elim (fork_cases page junk pagetable copied cur t) [
      | inl (e, full) ↦ subst (λ (r : Option ℕ × Table). Inv r.1) (sym e) v
      | inr (i, lt, free, pid, placed) ↦
          (let b = page == 0 || pagetable == 0 in
            let p = claimed page junk pagetable t (t.procs i) in
            let none_of =
              either_branch
                (λ (q : Proc).
                  (is_waiting i q ≡ false)
                  × (is_zombie q.state ≡ false)
                  × (is_child q.parent i ≡ false)
                  × Filled t.nextpid (t.nextpid + 1) q)
                b copied (released junk (t.procs i)) (freeproc p) (child cur (t.procs cur) p)
                (refl, refl, refl, inl (refl, refl)) (refl, refl, refl, inl (refl, refl))
                (
                  refl,
                  refl,
                  apart cur i (free_not_running t i cur free runs),
                  inr (refl, refl, ground arith),
                ) in
            let next = placed.nextpid in
            placed-Inv t (fork page junk pagetable copied cur t).1 i
              (fork_entry page junk pagetable copied cur t (t.procs i)) placed.here placed.others
              (ground arith) placed.initproc
              (λ e.
                (let taken = subst (λ k. is_unused (t.procs k).state ≡ false) (sym e) v.init_used in
                  ground arith))
              none_of.0 none_of.1 none_of.2
              (subst
                (λ n. Filled t.nextpid n (fork_entry page junk pagetable copied cur t (t.procs i)))
                (sym next) none_of.3)
              v)
    ]
  where
    apart : (cur i : ℕ) → cur ≢ i → (cur == i) ≡ false
    apart cur i ne = ground arith

reap-Inv :
    (k cur : ℕ) (t : Table)
    → is_child (t.procs k).parent cur ≡ true
    → Inv t
    → Inv (set_proc t k (freeproc (t.procs k)))
unfolding freeproc set_proc
reap-Inv k cur t mine v =
    placed-Inv t (record t { procs = put t.procs k (freeproc (t.procs k)) }) k
      (freeproc (t.procs k)) (put_here t.procs k (freeproc (t.procs k)))
      (λ j ne. if_false (j == k) (freeproc (t.procs k)) (t.procs j) (ground arith)) (omega arith)
      refl
      (λ e.
        (let orphan = ap (λ p. is_child p cur) (ap (λ i. (t.procs i).parent) e ∙ v.init_parent) in
          ground arith))
      refl refl refl (inl (refl, refl)) v

-- The caller goes to sleep on its own entry, where no child is a zombie.
sleep-Inv :
    (cur : ℕ) (t : Table)
    → NoZombie cur t
    → is_running (t.procs cur).state ≡ true
    → Inv t
    → Inv (sleep_enter cur (entry cur) t)
sleep-Inv cur t alive runs v =
    let asleep = record (t.procs cur) { chan = entry cur; state = sleeping } in
    let u = sleep_enter cur (entry cur) t in
    let each : (j : ℕ)
        → Alike (t.procs j) (u.procs j)
          × (is_zombie (t.procs j).state ≡ false → is_zombie (u.procs j).state ≡ false)
          × (j ≢ cur → is_waiting j (u.procs j) ≡ is_waiting j (t.procs j)) =
      λ j.
        unfold sleep_enter set_proc in
        put_cases
          (λ i q.
            Alike (t.procs i) q
            × (is_zombie (t.procs i).state ≡ false → is_zombie q.state ≡ false)
            × (i ≢ cur → is_waiting i q ≡ is_waiting i (t.procs i)))
          t.procs cur asleep j
          (
            (refl, refl, sym (is_running_lem (t.procs cur).state runs)),
            λ h. refl,
            λ ne. absurd (ne refl),
          )
          (λ ne. ((refl, refl, refl), λ h. h, λ ne. refl)) in
    Alike-Inv t u (unfold sleep_enter set_proc in (refl, refl)) (λ j. (each j).0)
      (λ i j lt lt' waits mine.
        (let mine_before = ap (λ p. is_child p i) (sym (each j).0.1) ∙ mine in
          (each j).1 (elim (ℕ_discrete i cur) [
            | yes e ↦ alive j lt' (subst (λ k. is_child (t.procs j).parent k ≡ true) e mine_before)
            | no ne ↦ v.no_lost_wakeup i j lt lt' (sym ((each i).2 ne) ∙ waits) mine_before
          ])))
      v

pub wait-Inv :
    (wants stored : Bool) (cur : ℕ) (t : Table)
    → is_running (t.procs cur).state ≡ true
    → Inv t
    → Inv (wait wants stored cur t).1
wait-Inv wants stored cur t runs v = elim (wait_cases wants stored cur t) [
  | inl (k, lt, mine, dead, e) ↦
      subst (λ (r : Waited × Table). Inv r.1) (sym e)
        (either_of (λ (r : Waited × Table). Inv r.1) (wants && not stored) _ _ v
          (reap-Inv k cur t mine v))
  | inr (alive, inl (childless, e)) ↦ subst (λ (r : Waited × Table). Inv r.1) (sym e) v
  | inr (alive, inr (has_child, e)) ↦
      subst (λ (r : Waited × Table). Inv r.1) (sym e)
        (either_of (λ (r : Waited × Table). Inv r.1) (killed cur t) _ _ v
          (sleep-Inv cur t alive runs v))
]
  where
    either_of :
        {A : Type 0} (P : A → Type 0) (b : Bool) (x y : A) → P x → P y → P (if b then x else y)
    either_of P true x y p q = p
    either_of P false x y p q = q
