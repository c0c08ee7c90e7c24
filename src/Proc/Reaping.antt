-- ===== src/Proc/Reaping.antt =====
-- What a round of `wait` of Xv6/kernel/proc.c does to the table, field by field.
use os_project.Prelude.{
  ℕ, ◌<◌, ◌≡◌, ◌≢◌, ◌⊎◌, inl, inr, refl, sym, ap, ◌∙◌, Bool, true, false, ◌&&◌, not, Option, some,
  none, Bool-cases, ◌==◌, if_true, if_false, arith,
}
use mathlib.Core.Path.{subst}
use os_project.Proc.Table.{
  Proc, Table, ProcState, unused, used, sleeping, runnable, running, zombie, entry, nproc, is_child,
  is_zombie, set_proc, sleep_enter, killed,
}
use os_project.Proc.Life.{freeproc, reaped, failed, asleep, wait}
use os_project.Proc.Forking.{Released, freeproc-Released}
use os_project.Proc.Wait.{Reaping, Waiting, wait_cases}

-- The tables differ in entry `k` only.
pub record OnlyEntry (k : ℕ) (t u : Table) : Type 0 where
  pub others : (j : ℕ) → j ≢ k → u.procs j ≡ t.procs j
  pub nextpid : u.nextpid ≡ t.nextpid
  pub initproc : u.initproc ≡ t.initproc

set_proc-OnlyEntry :
    (k : ℕ) (p : Proc) (t : Table) → OnlyEntry k t (set_proc t k p) × ((set_proc t k p).procs k ≡ p)
unfolding set_proc
set_proc-OnlyEntry k p t = (
  record {
    others = λ j ne. if_false (j == k) p (t.procs j) (ground arith);
    nextpid = refl;
    initproc = refl;
  },
  if_true (k == k) p (t.procs k) (ground arith),
)

-- A zombie child, whose status the caller wants and cannot store, or which is released.
abbrev pub Dead : Bool → Bool → ℕ → Table → Type 0
Dead wants stored cur t =
    (k : ℕ) × (k < nproc)
    × ((t.procs k).parent ≡ some cur)
    × ((t.procs k).state ≡ zombie)
    × ((wants ≡ true) × (stored ≡ false) × (wait wants stored cur t ≡ (failed, t))
        ⊎ ((wants ≡ false) ⊎ (stored ≡ true))
          × (u : Table) × (wait wants stored cur t ≡ (reaped (t.procs k).pid, u))
          × OnlyEntry k t u
          × Released (t.procs k) (u.procs k))

abbrev pub NoDead : ℕ → Table → Type 0
NoDead cur t = (j : ℕ) → j < nproc → (t.procs j).parent ≡ some cur → (t.procs j).state ≢ zombie

-- No child, or one that is alive.
abbrev pub Alive : Bool → Bool → ℕ → Table → Type 0
Alive wants stored cur t =
    ((j : ℕ) → j < nproc → (t.procs j).parent ≢ some cur) × (wait wants stored cur t ≡ (failed, t))
    ⊎ ((j : ℕ) × (j < nproc) × ((t.procs j).parent ≡ some cur))
      × (((t.procs cur).killed ≡ true) × (wait wants stored cur t ≡ (failed, t))
          ⊎ ((t.procs cur).killed ≡ false)
            × (u : Table) × (wait wants stored cur t ≡ (asleep, u))
            × OnlyEntry cur t u
            × (u.procs cur ≡ record (t.procs cur) { chan = entry cur; state = sleeping }))

pub child_of : (p : Option ℕ) (cur : ℕ) → is_child p cur ≡ true → p ≡ some cur
child_of none cur e = absurd (ground arith)
child_of (some i) cur e = ap some (ground arith)

pub not_child_of : (p : Option ℕ) (cur : ℕ) → is_child p cur ≡ false → p ≢ some cur
not_child_of p cur e h = absurd (ground (arith, ap (λ o. is_child o cur) h))

pub child_test : (p : Option ℕ) (cur : ℕ) → p ≡ some cur → is_child p cur ≡ true
child_test p cur h = ap (λ o. is_child o cur) h ∙ ground arith

is_zombie_lem : (s : ProcState) → is_zombie s ≡ true → s ≡ zombie
is_zombie_lem zombie e = refl
is_zombie_lem unused e = absurd (ground arith)
is_zombie_lem used e = absurd (ground arith)
is_zombie_lem sleeping e = absurd (ground arith)
is_zombie_lem runnable e = absurd (ground arith)
is_zombie_lem running e = absurd (ground arith)

module _ (wants stored : Bool) (cur : ℕ) (t : Table) where
  Reaping-Dead : Reaping wants stored cur t → Dead wants stored cur t
  Reaping-Dead (k, lt, mine, dead, e) =
      let free = freeproc (t.procs k) in
      let (only, here) = set_proc-OnlyEntry k free t in
      (
        k,
        lt,
        child_of (t.procs k).parent cur mine,
        is_zombie_lem (t.procs k).state dead,
        elim (Bool-cases (wants && not stored)) [
          | inl b ↦ inl (ground arith, ground arith, e ∙ if_true (wants && not stored) _ _ b)
          | inr b ↦ inr (
            either b,
            set_proc t k free,
            e ∙ if_false (wants && not stored) _ _ b,
            only,
            subst (Released (t.procs k)) (sym here)
                (freeproc-Released (t.procs k) (t.procs k) refl refl),
          )
        ],
      )
    where
      either : (wants && not stored) ≡ false → (wants ≡ false) ⊎ (stored ≡ true)
      either b = elim (Bool-cases stored) [ inl x ↦ inr x | inr x ↦ inl (ground arith) ]

  Waiting-Alive : Waiting wants stored cur t → Alive wants stored cur t
  unfolding killed sleep_enter
  Waiting-Alive (inl (childless, e)) =
      inl (λ j lt. not_child_of (t.procs j).parent cur (childless j lt), e)
  Waiting-Alive (inr ((j, lt, mine), e)) = inr (
    (j, lt, child_of (t.procs j).parent cur mine),
    elim (Bool-cases (t.procs cur).killed) [
      | inl b ↦ inl (b, e ∙ if_true (t.procs cur).killed _ _ b)
      | inr b ↦
          let (only, here) =
            set_proc-OnlyEntry cur (record (t.procs cur) { chan = entry cur; state = sleeping })
              t in
          inr
            (b, sleep_enter cur (entry cur) t, e ∙ if_false (t.procs cur).killed _ _ b, only, here)
    ],
  )

  -- If a child of the caller is a zombie, `wait` fails without a change if the status is wanted and
  -- cannot be stored; else it returns the pid of such a child, and its entry is unused, with every field
  -- cleared but its files and its directory. If no child is a zombie, `wait` fails without a change if
  -- there is no child or the caller is killed; else the caller sleeps on its own entry. No other entry
  -- changes.
  pub wait_lem : Dead wants stored cur t ⊎ NoDead cur t × Alive wants stored cur t
  wait_lem = elim (wait_cases wants stored cur t) [
    | inl r ↦ inl (Reaping-Dead r)
    | inr (none_dead, w) ↦ inr (
      λ j lt mine z.
          absurd (
            ground
              (arith, none_dead j lt (child_test (t.procs j).parent cur mine), ap is_zombie z)),
      Waiting-Alive w,
    )
  ]
