-- ===== src/Proc/Tests.antt =====
-- The process table in some small states, and its theorems there.
use os_project.Prelude.{
  ℕ, ◌+◌, ◌<◌, ◌≡◌, ◌≢◌, ◌⊎◌, refl, ap, true, none, some, ◌==◌, if◌then◌else◌, arith, ℕ_discrete,
  if_true, if_false,
}
use os_project.Proc.Table.{
  Proc, Table, ProcState, unused, sleeping, running, runnable, nproc, put, is_unused, set_proc,
  wakeup, wakeup_loop, wake, kill, dispatch, sleep_enter, killed,
}
use os_project.Proc.Life.{
  exit, fork, wait, wait_scan, userinit, blank_table, blank_proc, allocproc, find_unused, freeproc,
  a0, reparent, reparent_loop, close_files, Waited, reaped, failed, asleep,
}
use os_project.Proc.Leaving.{Left, exit_lem}
use os_project.Proc.Forking.{Forked, fork_lem}
use os_project.Proc.Reaping.{Dead, NoDead, Alive, wait_lem}
use os_project.Proc.Poison.{fork-kill_zero}
use os_project.Proc.Inv.{Inv}
use os_project.Proc.System.{Steps, reachable-Inv, stay, more, runs}

abbrev junk : ℕ → ℕ
junk x = 5

-- The table with the init process, running, in entry 0.
abbrev booted_table : Table
booted_table = record blank_table {
  procs =
      put blank_table.procs 0
        (record blank_proc { pid = 1; state = running; frame = λ x. x + 100 });
  nextpid = 2;
}

-- It has forked.
abbrev forked_table : Table
forked_table = (fork 8192 junk 12288 true 0 booted_table).1

fork_test : (fork 8192 junk 12288 true 0 booted_table).0 ≡ some 2
unfolding fork allocproc find_unused set_proc freeproc
fork_test = refl

child_test : ((forked_table.procs 1).frame a0 ≡ 0) × ((forked_table.procs 1).frame 15 ≡ 115)
unfolding fork allocproc find_unused set_proc freeproc
child_test = (refl, refl)

-- The init process sleeps in `wait`, and the child runs.
abbrev waiting_table : Table
waiting_table = (dispatch 1 (wait true true 0 forked_table).1).1

wait_test : (wait true true 0 forked_table).0 ≡ asleep
unfolding fork allocproc find_unused set_proc freeproc wait wait_scan sleep_enter killed
wait_test = refl

-- The child leaves: the init process is woken up, and reaps it.
abbrev after_exit : Waited × ProcState
after_exit = elim (exit 7 1 waiting_table) [
  | none ↦ (failed, runnable)
  | some t ↦ ((wait true true 0 t).0, (t.procs 0).state)
]

exit_test : (after_exit.0 ≡ reaped 2) × (after_exit.1 ≡ runnable)
unfolding fork allocproc find_unused set_proc freeproc wait wait_scan sleep_enter killed dispatch
    exit reparent reparent_loop close_files wakeup wakeup_loop wake
exit_test = (refl, refl)

exit_lem_example :
    (1 ≡ waiting_table.initproc) × (exit 7 1 waiting_table ≡ none)
    ⊎ (1 ≢ waiting_table.initproc)
      × (u : Table) × (exit 7 1 waiting_table ≡ some u)
      × Left 7 1 waiting_table u
exit_lem_example = exit_lem 7 1 waiting_table

fork_lem_example :
    (fork 8192 junk 12288 true 0 booted_table ≡ (none, booted_table))
      × ((j : ℕ) → j < nproc → (booted_table.procs j).state ≢ unused)
    ⊎ (i : ℕ) × (i < nproc)
      × ((booted_table.procs i).state ≡ unused)
      × ((j : ℕ)
          → j ≢ i
          → (fork 8192 junk 12288 true 0 booted_table).1.procs j ≡ booted_table.procs j)
      × ((fork 8192 junk 12288 true 0 booted_table).1.nextpid ≡ booted_table.nextpid + 1)
      × ((fork 8192 junk 12288 true 0 booted_table).1.initproc ≡ booted_table.initproc)
      × Forked 8192 12288 true 0 i booted_table (fork 8192 junk 12288 true 0 booted_table)
fork_lem_example = fork_lem 8192 junk 12288 true 0 booted_table

wait_lem_example :
    Dead true true 0 forked_table ⊎ NoDead 0 forked_table × Alive true true 0 forked_table
wait_lem_example = wait_lem true true 0 forked_table

-- Only entry 3 is unused.
abbrev crowded : Table
crowded = record {
  procs = λ i. if i == 3 then blank_proc else record blank_proc { pid = i + 1; state = sleeping };
  nextpid = 65;
  initproc = 0;
}

crowded_free : (j : ℕ) → is_unused (crowded.procs j).state ≡ true → j ≡ 3
crowded_free j free = elim (ℕ_discrete j 3) [
  | yes e ↦ e
  | no ne ↦
      (let taken =
          ap (λ (p : Proc). is_unused p.state)
            (if_false (j == 3) blank_proc (record blank_proc { pid = j + 1; state = sleeping })
              (ground arith)) in
        absurd (ground arith))
]

crowded_zero : (j : ℕ) → (crowded.procs j).pid ≡ 0 → is_unused (crowded.procs j).state ≡ true
crowded_zero j zero_pid = elim (ℕ_discrete j 3) [
  | yes e ↦
      ap (λ (p : Proc). is_unused p.state)
        (if_true (j == 3) blank_proc (record blank_proc { pid = j + 1; state = sleeping })
          (ground arith))
  | no ne ↦
      (let positive =
          ap (λ (p : Proc). p.pid)
            (if_false (j == 3) blank_proc (record blank_proc { pid = j + 1; state = sleeping })
              (ground arith)) in
        absurd (ground arith))
]

fork-kill_zero_example :
    ((kill 0 crowded).0 ≡ true)
    × ((fork 8192 junk 12288 true 0 (kill 0 crowded).1).0 ≡ some (kill 0 crowded).1.nextpid)
    × (((fork 8192 junk 12288 true 0 (kill 0 crowded).1).1.procs 3).killed ≡ true)
fork-kill_zero_example =
    fork-kill_zero 8192 junk 12288 0 3 crowded refl (omega arith) refl refl (λ j lt. crowded_free j)
      (λ j lt. crowded_zero j)

abbrev first_table : Table
first_table = elim (userinit 8192 junk 12288 1 blank_table) [ none ↦ blank_table | some t ↦ t ]

boots : userinit 8192 junk 12288 1 blank_table ≡ some first_table
unfolding userinit allocproc find_unused set_proc freeproc
boots = refl

first-Steps : Steps first_table (dispatch 0 first_table).1
first-Steps = more first_table (dispatch 0 first_table).1 stay (runs 0)

reachable-Inv_example : Inv (dispatch 0 first_table).1
reachable-Inv_example =
    reachable-Inv 8192 junk 12288 1 first_table (dispatch 0 first_table).1 boots first-Steps

first_pid : ((dispatch 0 first_table).1.procs 0).pid ≡ 1
unfolding userinit allocproc find_unused set_proc freeproc dispatch
first_pid = refl
