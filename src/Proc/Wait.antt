-- ===== src/Proc/Wait.antt =====
-- What `wait` of Xv6/kernel/proc.c returns.
use os_project.Prelude.{
  ℕ, ◌<◌, ◌≡◌, ◌⊎◌, inl, inr, refl, Bool, true, false, ◌&&◌, ◌||◌, not, if◌then◌else◌, arith,
}
use os_project.Proc.Table.{Table, entry, nproc, is_child, is_zombie, set_proc, sleep_enter, killed}
use os_project.Proc.Life.{
  freeproc, Scan, found, no_zombie, wait_scan, Waited, reaped, failed, asleep, wait,
}
use os_project.Proc.Scans.{Scanned, wait_scan-Scanned}

-- What `wait` finds and returns: a zombie child, or none.
abbrev pub Reaping : Bool → Bool → ℕ → Table → Type 0
Reaping wants stored cur t =
    (k : ℕ) × (k < nproc)
    × (is_child (t.procs k).parent cur ≡ true)
    × (is_zombie (t.procs k).state ≡ true)
    × (wait wants stored cur t ≡ (
        if wants && not stored
        then (failed, t)
        else (reaped (t.procs k).pid, set_proc t k (freeproc (t.procs k)))))

abbrev pub NoZombie : ℕ → Table → Type 0
NoZombie cur t =
    (j : ℕ)
    → j < nproc
    → is_child (t.procs j).parent cur ≡ true
    → is_zombie (t.procs j).state ≡ false

abbrev pub Childless : ℕ → Table → Type 0
Childless cur t = (j : ℕ) → j < nproc → is_child (t.procs j).parent cur ≡ false

abbrev pub HasChild : ℕ → Table → Type 0
HasChild cur t = (j : ℕ) × (j < nproc) × (is_child (t.procs j).parent cur ≡ true)

abbrev pub Waiting : Bool → Bool → ℕ → Table → Type 0
Waiting wants stored cur t =
    (Childless cur t × (wait wants stored cur t ≡ (failed, t)))
    ⊎ (HasChild cur t
        × (wait wants stored cur t
            ≡ (if killed cur t then (failed, t) else (asleep, sleep_enter cur (entry cur) t))))

-- `wait` by what the scan finds.
waited : Bool → Bool → ℕ → Table → Scan → Waited × Table
waited wants stored cur t (found i) =
    if wants && not stored
    then (failed, t)
    else (reaped (t.procs i).pid, set_proc t i (freeproc (t.procs i)))
waited wants stored cur t (no_zombie havekids) =
    if not havekids || killed cur t then (failed, t) else (asleep, sleep_enter cur (entry cur) t)

wait-waited :
    (wants stored : Bool) (cur : ℕ) (t : Table)
    → wait wants stored cur t ≡ waited wants stored cur t (wait_scan nproc 0 false cur t)
unfolding wait waited
wait-waited wants stored cur t = refl

waited_lem :
    (wants stored : Bool) (cur : ℕ) (t : Table) (r : Scan)
    → Scanned nproc 0 false cur t r
    → wait wants stored cur t ≡ waited wants stored cur t r
    → Reaping wants stored cur t ⊎ NoZombie cur t × Waiting wants stored cur t
unfolding waited
waited_lem wants stored cur t (found k) (inside, mine, dead) e =
    inl (k, ground arith, mine, dead, e)
waited_lem wants stored cur t (no_zombie true) (alive, some_kid, no_kid) e = inr (
  λ j lt. alive j (ground arith),
  elim (some_kid refl) [
    | inl wrong ↦ absurd (ground arith)
    | inr (j, inside, mine) ↦ inr ((j, ground arith, mine), e)
  ],
)
waited_lem wants stored cur t (no_zombie false) (alive, some_kid, no_kid) e =
    inr (λ j lt. alive j (ground arith), inl (λ j lt. (no_kid refl).1 j (ground arith), e))

-- `wait` by what it finds.
pub wait_cases :
    (wants stored : Bool) (cur : ℕ) (t : Table)
    → Reaping wants stored cur t ⊎ NoZombie cur t × Waiting wants stored cur t
wait_cases wants stored cur t =
    waited_lem wants stored cur t (wait_scan nproc 0 false cur t)
      (wait_scan-Scanned nproc 0 false cur t) (wait-waited wants stored cur t)
