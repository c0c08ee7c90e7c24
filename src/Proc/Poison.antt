-- ===== src/Proc/Poison.antt =====
-- What `kill` of Xv6/kernel/proc.c with the pid 0 does to the process that is started next.
use os_project.Prelude.{
  ℕ, ◌<◌, ◌≡◌, inl, inr, refl, ap, sym, ◌∙◌, true, false, ◌||◌, none, some, ◌==◌, if◌then◌else◌,
  arith, if_false,
}
use mathlib.Core.Path.{subst}
use os_project.Proc.Table.{
  Proc, Table, unused, sleeping, running, zombie, is_sleeping, used, runnable, nproc, is_unused,
  set_proc, kill, mark_killed,
}
use os_project.Proc.Life.{fork}
use os_project.Proc.Loops.{put_cases}
use os_project.Proc.Scans.{kill_lem}
use os_project.Proc.Begin.{fork_cases, put_here}

mark_killed-is_unused : (p : Proc) → is_unused (mark_killed p).state ≡ is_unused p.state
unfolding mark_killed
mark_killed-is_unused p =
    elim p.state as (λ s. is_unused (if is_sleeping s then runnable else s) ≡ is_unused s) [
      | unused ↦ refl
      | used ↦ refl
      | sleeping ↦ refl
      | runnable ↦ refl
      | running ↦ refl
      | zombie ↦ refl
    ]

marked :
    (t : Table) (k j : ℕ)
    → is_unused ((set_proc t k (mark_killed (t.procs k))).procs j).state
      ≡ is_unused (t.procs j).state
unfolding set_proc
marked t k j =
    put_cases (λ i p. is_unused p.state ≡ is_unused (t.procs i).state) t.procs k
      (mark_killed (t.procs k)) j (mark_killed-is_unused (t.procs k)) (λ ne. refl)

fork-marked :
    (page : ℕ) (junk : ℕ → ℕ) (pagetable cur k : ℕ) (t u : Table)
    → (page == 0 || pagetable == 0) ≡ false
    → k < nproc
    → is_unused (u.procs k).state ≡ true
    → ((j : ℕ) → j < nproc → is_unused (u.procs j).state ≡ true → j ≡ k)
    → (u.procs k).killed ≡ true
    → ((fork page junk pagetable true cur u).0 ≡ some u.nextpid)
      × (((fork page junk pagetable true cur u).1.procs k).killed ≡ true)
fork-marked page junk pagetable cur k t u memory in_table free one_free dead =
    elim (fork_cases page junk pagetable true cur u) [
      | inl (e, none_free) ↦ (let taken = none_free k in_table in absurd (ground arith))
      | inr (i, lt, free, pid, placed) ↦ (
        pid
            ∙ if_false ((page == 0 || pagetable == 0) || false) none (some u.nextpid)
                (ground arith),
        ap (λ j. ((fork page junk pagetable true cur u).1.procs j).killed)
              (sym (one_free i lt free))
            ∙ ap (λ (p : Proc). p.killed) placed.here
            ∙ ap (λ (p : Proc). p.killed) (if_false (page == 0 || pagetable == 0) _ _ memory)
            ∙ ap (λ j. (u.procs j).killed) (one_free i lt free)
            ∙ dead,
      )
    ]

-- `kill` with the pid 0 succeeds in a table whose unused entries are those with the pid 0, and just
-- one of them, `k`, is left. The process that `fork` then makes in that entry is killed from the start.
pub fork-kill_zero :
    (page : ℕ) (junk : ℕ → ℕ) (pagetable cur k : ℕ) (t : Table)
    → (page == 0 || pagetable == 0) ≡ false
    → k < nproc
    → is_unused (t.procs k).state ≡ true
    → (t.procs k).pid ≡ 0
    → ((j : ℕ) → j < nproc → is_unused (t.procs j).state ≡ true → j ≡ k)
    → ((j : ℕ) → j < nproc → (t.procs j).pid ≡ 0 → is_unused (t.procs j).state ≡ true)
    → ((kill 0 t).0 ≡ true)
      × ((fork page junk pagetable true cur (kill 0 t).1).0 ≡ some (kill 0 t).1.nextpid)
      × (((fork page junk pagetable true cur (kill 0 t).1).1.procs k).killed ≡ true)
fork-kill_zero page junk pagetable cur k t memory in_table free zero_pid one_free zero_free =
    elim (kill_lem 0 t) [
      | inl (e, nowhere) ↦ absurd (nowhere k in_table zero_pid)
      | inr (i, lt, at, e) ↦
          (let u = set_proc t i (mark_killed (t.procs i)) in
            let forked =
              fork-marked page junk pagetable cur k t u memory in_table (marked t i k ∙ free)
                (λ j lt free. one_free j lt (sym (marked t i j) ∙ free))
                (subst (λ j. (u.procs j).killed ≡ true) (one_free i lt (zero_free i lt at))
                  (killed_here t i)) in
            subst
              (λ r.
                (r.0 ≡ true)
                × ((fork page junk pagetable true cur r.1).0 ≡ some r.1.nextpid)
                × (((fork page junk pagetable true cur r.1).1.procs k).killed ≡ true))
              (sym e) (refl, forked.0, forked.1))
    ]
  where
    killed_here :
        (t : Table) (i : ℕ) → ((set_proc t i (mark_killed (t.procs i))).procs i).killed ≡ true
    killed_here t i =
        unfold set_proc in
        ap (λ (p : Proc). p.killed) (put_here t.procs i (mark_killed (t.procs i)))
        ∙ unfold mark_killed in refl
