-- ===== src/Proc/System.antt =====
-- The process table of Xv6/kernel/proc.c as a system of steps, each of them a function of that file
-- up to where it gives up its locks or the processor.
use os_project.Prelude.{
  ℕ, ◌<◌, ◌≡◌, ◌≢◌, inl, inr, refl, ap, sym, ◌∙◌, Bool, true, false, Option, none, some, ◌==◌,
  if◌then◌else◌, arith,
}
use mathlib.Core.Path.{subst}
use os_project.Memory.{page_size}
use os_project.Proc.Begin.{allocated, allocproc-allocated, next, claimed}
use os_project.Proc.Table.{
  Proc, Table, other, runnable, nproc, put, is_unused, is_child, is_running, set_proc, wakeup, kill,
  mark_killed, setkilled, yield, dispatch, sleep_enter, sleep_leave,
}
use os_project.Proc.Life.{
  exit, fork, wait, userinit, blank_table, blank_proc, allocproc, find_unused, first_frame,
  initcode_name,
}
use os_project.Proc.Loops.{put_cases}
use os_project.Proc.Scans.{kill_lem}
use os_project.Proc.Effects.{is_waiting}
use os_project.Proc.Inv.{Inv}
use os_project.Proc.Steady.{
  wakeup-Inv, kill-Inv, setkilled-Inv, yield-Inv, dispatch-Inv, sleep_enter-Inv, sleep_leave-Inv,
}
use os_project.Proc.Turnover.{exit-Inv}
use os_project.Proc.Placing.{fork-Inv, wait-Inv}

-- A running process `cur` forks, exits, waits, sleeps, leaves its sleep or yields; the scheduler
-- starts a process; somebody wakes the processes on an address up, or kills one.
pub data Step (t : Table) : Table → Type 0 where
  forks :
      (page : ℕ) (junk : ℕ → ℕ) (pagetable : ℕ) (copied : Bool) (cur : ℕ)
      → is_running (t.procs cur).state ≡ true
      → Step t (fork page junk pagetable copied cur t).1
  exits :
      (status cur : ℕ) (u : Table)
      → is_running (t.procs cur).state ≡ true
      → exit status cur t ≡ some u
      → Step t u
  waits :
      (wants stored : Bool) (cur : ℕ)
      → is_running (t.procs cur).state ≡ true
      → Step t (wait wants stored cur t).1
  sleeps :
      (cur a : ℕ) → is_running (t.procs cur).state ≡ true → Step t (sleep_enter cur (other a) t)
  resumes : (cur : ℕ) → is_running (t.procs cur).state ≡ true → Step t (sleep_leave cur t)
  yields : (cur : ℕ) → is_running (t.procs cur).state ≡ true → Step t (yield cur t)
  runs : (i : ℕ) → Step t (dispatch i t).1
  wakes : (cur a : ℕ) → Step t (wakeup cur (other a) t)
  kills : (pid : ℕ) → Step t (kill pid t).1
  marks : (i : ℕ) → Step t (setkilled i t)

pub data Steps (t : Table) : Table → Type 0 where
  stay : Steps t t
  more : (u w : Table) → Steps t u → Step u w → Steps t w

Step-Inv : (t u : Table) → Step t u → Inv t → Inv u
Step-Inv t _ (forks page junk pagetable copied cur r) v =
    fork-Inv page junk pagetable copied cur t r v
Step-Inv t u (exits status cur _ r e) v = exit-Inv status cur t u r e v
Step-Inv t _ (waits wants stored cur r) v = wait-Inv wants stored cur t r v
Step-Inv t _ (sleeps cur a r) v = sleep_enter-Inv cur a t r v
Step-Inv t _ (resumes cur r) v = sleep_leave-Inv cur t r v
Step-Inv t _ (yields cur r) v = yield-Inv cur t r v
Step-Inv t _ (runs i) v = dispatch-Inv i t v
Step-Inv t _ (wakes cur a) v = wakeup-Inv cur (other a) t v
Step-Inv t _ (kills pid) v = kill-Inv pid t v
Step-Inv t _ (marks i) v = setkilled-Inv i t v

Steps-Inv : (t u : Table) → Steps t u → Inv t → Inv u
Steps-Inv t _ stay v = v
Steps-Inv t u (more w _ before step) v = Step-Inv w u step (Steps-Inv t w before v)

-- `userinit` by what `allocproc` returns.
booted : ℕ → Option ℕ × Table → Option Table
booted root r = elim r.0 [
  | none ↦ none
  | some i ↦ some (
      set_proc (record r.1 { initproc = i }) i
        (record (r.1.procs i) {
          sz = page_size;
          frame = first_frame (r.1.procs i).frame;
          name = initcode_name;
          cwd = some root;
          state = runnable;
        }))
]

userinit-booted :
    (page : ℕ) (junk : ℕ → ℕ) (pagetable root : ℕ) (t : Table)
    → userinit page junk pagetable root t ≡ booted root (allocproc page junk pagetable t)
unfolding userinit booted
userinit-booted page junk pagetable root t = refl

some_inj : {u t : Table} → some u ≡ some t → u ≡ t
some_inj {u} {t} e = ap (λ o. elim o [ none ↦ u | some r ↦ r ]) e

boot_cases :
    (b c : Bool) (root : ℕ) (r s w t : Table)
    → booted root (if b then (none, r) else if c then (none, s) else (some 0, w)) ≡ some t
    → booted root (some 0, w) ≡ some t
unfolding booted
boot_cases true c root r s w t e = absurd (ground arith)
boot_cases false true root r s w t e = absurd (ground arith)
boot_cases false false root r s w t e = e

first_entry :
    (P : ℕ → Proc → Type 0) (p q : Proc)
    → P 0 q
    → ((j : ℕ) → j ≢ 0 → P j blank_proc)
    → (j : ℕ) → P j (put (put blank_table.procs 0 p) 0 q j)
first_entry P p q here there j = put_cases P (put blank_table.procs 0 p) 0 q j here (λ ne.
    put_cases (λ k r. k ≢ 0 → P k r) blank_table.procs 0 p j (λ ne'. absurd (ne' refl))
      (λ ne'. there j) ne)

booted-Inv :
    (page : ℕ) (junk : ℕ → ℕ) (pagetable root : ℕ) (t : Table)
    → booted root (some 0, next 0 (claimed page junk pagetable blank_table blank_proc) blank_table)
      ≡ some t
    → Inv t
unfolding booted set_proc
booted-Inv page junk pagetable root t e =
    let p = claimed page junk pagetable blank_table blank_proc in
    let q = record p {
      sz = page_size;
      frame = first_frame junk;
      name = initcode_name;
      cwd = some root;
      state = runnable;
    } in
    subst Inv (some_inj e) (record {
      init = omega arith;
      init_parent = refl;
      init_used = refl;
      not_self = first_entry (λ j r. is_child r.parent j ≡ false) p q refl (λ j ne. refl);
      no_lost_wakeup = λ i j lt lt' waits mine. absurd (
          first_entry (λ j r. is_waiting j r ≡ true → ⊥) p q (λ h. ground arith)
            (λ j ne h. ground arith) i waits);
      clean =
          first_entry (λ j r. is_unused r.state ≡ true → r.pid ≡ 0) p q (λ h. absurd (ground arith))
            (λ j ne h. refl);
      given_out =
          first_entry (λ j r. is_unused r.state ≡ false → (0 < r.pid) × (r.pid < 2)) p q
            (λ h. (omega arith, omega arith)) (λ j ne h. absurd (ground arith));
      unique = λ i j.
          first_entry
            (λ i r. r.pid ≡ (put (put blank_table.procs 0 p) 0 q j).pid → 0 < r.pid → i ≡ j) p q
            (λ same pos.
              first_entry (λ j r. 1 ≡ r.pid → 0 ≡ j) p q (λ h. refl)
                (λ j ne h. absurd (ground arith)) j same)
            (λ i ne same pos. absurd (ground arith)) i;
      counter = omega arith;
    })

boot-Inv :
    (page : ℕ) (junk : ℕ → ℕ) (pagetable root : ℕ) (t : Table)
    → userinit page junk pagetable root blank_table ≡ some t
    → Inv t
boot-Inv page junk pagetable root t e =
    let first =
      sym (
        userinit-booted page junk pagetable root blank_table
        ∙ ap (booted root) (allocproc-allocated page junk pagetable blank_table))
      ∙ e in
    booted-Inv page junk pagetable root t (found_first first)
  where
    found_first :
        booted root (allocated page junk pagetable blank_table (find_unused nproc 0 blank_table))
          ≡ some t
        → booted root
            (some 0, next 0 (claimed page junk pagetable blank_table blank_proc) blank_table)
          ≡ some t
    found_first h =
        unfold allocated find_unused in boot_cases (page == 0) (pagetable == 0) root _ _ _ t h

-- Whatever happens after the boot, each used process has a pid of its own that was given out, and no
-- process that waits for a child has a zombie child that it was not woken up for.
pub reachable-Inv :
    (page : ℕ) (junk : ℕ → ℕ) (pagetable root : ℕ) (t u : Table)
    → userinit page junk pagetable root blank_table ≡ some t
    → Steps t u
    → Inv u
reachable-Inv page junk pagetable root t u e steps =
    Steps-Inv t u steps (boot-Inv page junk pagetable root t e)

-- In a table with the invariant, `kill` with a positive pid that a process of the table has marks just
-- that process.
pub kill_unique :
    (pid k : ℕ) (t : Table)
    → Inv t
    → 0 < pid
    → k < nproc
    → (t.procs k).pid ≡ pid
    → kill pid t ≡ (true, set_proc t k (mark_killed (t.procs k)))
kill_unique pid k t v pos lt e = elim (kill_lem pid t) [
  | inl (f, nowhere) ↦ absurd (nowhere k lt e)
  | inr (i, lt', at, f) ↦
      subst (λ j. kill pid t ≡ (true, set_proc t j (mark_killed (t.procs j))))
        (v.unique i k (at ∙ sym e) (ground arith)) f
]
