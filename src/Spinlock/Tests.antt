-- ===== src/Spinlock/Tests.antt =====
-- Two processors and a lock, and the theorems of the spin locks there.
use os_project.Prelude.{ℕ, ◌≡◌, refl, true, false, none, some, arith}
use os_project.Spinlock.{
  Cpu, push_off, pop_off, initlock, holding, acquire_enter, swap, release, release_enter,
}
use os_project.Spinlock.Nesting.{
  Paired, done, pair, run_paired, IsMasked, Restored, run_paired-Restored,
}
use os_project.Spinlock.Exclusion.{
  State, at, Steps, stay, more, enters, gets, spinning, marking, owns,
}
use os_project.Spinlock.Mutex.{start, exclusion_lem}

-- Interrupts are on, and no call is open.
abbrev fresh_cpu : Cpu
fresh_cpu = record { noff = 0; intena = false; intr = true }

fresh-IsMasked : IsMasked fresh_cpu
fresh-IsMasked pos = absurd (omega arith)

-- Two calls inside one, and another behind.
abbrev nested : Paired
nested = pair (pair done (pair done done)) (pair done done)

nested_test : run_paired nested fresh_cpu ≡ some (record { noff = 0; intena = true; intr = true })
unfolding run_paired push_off pop_off
nested_test = refl

run_paired-Restored_example :
    (d : Cpu) × (run_paired nested fresh_cpu ≡ some d) × Restored fresh_cpu d
run_paired-Restored_example = run_paired-Restored nested fresh_cpu fresh-IsMasked

-- A processor that acquires a lock twice panics, and so does one that releases a lock it does not hold.
relock : acquire_enter 0 fresh_cpu (record { locked = true; cpu = some 0 }) ≡ none
unfolding acquire_enter holding
relock = refl

foreign : release 1 (push_off fresh_cpu) (record { locked = true; cpu = some 0 }) ≡ none
unfolding release release_enter holding
foreign = refl

abbrev cpus : ℕ → Cpu
cpus i = fresh_cpu

-- Processor 0 has just got lock 3.
abbrev entered : State
entered = record (start cpus) {
  cpus = at cpus 0 (push_off fresh_cpu);
  phase = at (start cpus).phase 0 (spinning 3);
}

abbrev got : State
got = record entered {
  phase = at entered.phase 0 (marking 3);
  locks = at entered.locks 3 (swap (entered.locks 3)).1;
}

got-Steps : Steps (start cpus) got
unfolding swap initlock acquire_enter holding
got-Steps =
    more entered got (more (start cpus) entered stay (enters 0 3 (push_off fresh_cpu) refl refl))
      (gets 0 3 refl refl)

abbrev this_cpu : ℕ
this_cpu = 0

abbrev other_cpu : ℕ
other_cpu = 1

exclusion_lem_example :
    ((swap (got.locks 3)).0 ≡ false) × (owns got other_cpu 3 ≡ true → this_cpu ≡ other_cpu)
exclusion_lem_example = exclusion_lem cpus got this_cpu other_cpu 3 got-Steps refl
