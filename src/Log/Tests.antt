-- ===== src/Log/Tests.antt =====
-- log.c on a log of the blocks 2 to 31, as mkfs makes it, with one transaction of two blocks, and its theorems there.
use os_project.Prelude.{
  fun_ext, ℕ, ◌<◌, ◌≡◌, ◌⊎◌, refl, inr, true, false, ◌||◌, none, [], ◌∷◌, ◌==◌, get_or,
  if◌then◌else◌, length, arith,
}
use os_project.Log.{
  log_size, max_op_blocks, Log, Machine, bpin, install_trans, write_head, read_header, read_head,
  recover_from_log, write_log, commit, log_write, absorb,
}
use os_project.Log.Phases.{IsHome}
use os_project.Log.Recoverable.{reboot, recovered, recovered_often}
use os_project.Log.Crash.{Ready, commit_atomic, commit_durable}
use os_project.Log.Caching.{modify, Pinned, Covered, log_write-Covered}
use os_project.Log.Space.{State, Reach}
use os_project.Log.Overflow.{log_write_may_panic}

abbrev log : Log
log = record { start = 2; size = 30; outstanding = 1; committing = true; lh = 32 ∷ 60 ∷ [] }

-- Blocks 32 and 60 are changed to hold 7 and 8, and the disk holds zeros.
abbrev machine : ℕ → Machine
machine power = record {
  disk = λ x i. 0;
  cache = λ x i. if x == 32 then 7 else if x == 60 then 8 else 0;
  pins = λ x. if (x == 32) || (x == 60) then 1 else 0;
  power = power;
}

abbrev after : ℕ → ℕ → ℕ
after power x = recovered 40 log ((commit log (machine power)).1.disk) x 0

-- The third write is that of the header: without it the transaction has not happened.
cut_before_header : after 2 32 ≡ 0
unfolding recovered reboot recover_from_log commit write_log write_head install_trans read_head
cut_before_header = refl

cut_behind_header : after 3 60 ≡ 8
unfolding recovered reboot recover_from_log commit write_log write_head install_trans read_head
cut_behind_header = refl

cut_in_install : after 4 60 ≡ 8
unfolding recovered reboot recover_from_log commit write_log write_head install_trans read_head
cut_in_install = refl

unpins : (commit log (machine 9)).1.pins 32 ≡ 0
unfolding commit write_log write_head install_trans
unpins = refl

machine-Ready : (power : ℕ) → Ready log (machine power)
unfolding read_header
machine-Ready power = record {
  clean = refl;
  homes = (inr (omega arith), (inr (omega arith), tt));
  short = omega arith;
  fits = omega arith;
  agrees = λ x home out. fun_ext λ i. ground arith;
}

commit_atomic_example :
    let d = recovered 40 log (recovered_often (1 ∷ 2 ∷ []) log (commit log (machine 4)).1.disk) in
    (read_header (d 2) ≡ [])
    × (((x : ℕ) → IsHome 2 30 x → d x ≡ (machine 4).disk x)
        ⊎ ((x : ℕ) → IsHome 2 30 x → d x ≡ (machine 4).cache x))
commit_atomic_example =
    commit_atomic log (machine 4) (machine-Ready 4) (1 ∷ 2 ∷ []) 40 (omega arith)

commit_durable_example :
    let d = (commit log (machine 9)).1.disk in
    (read_header (d 2) ≡ []) × ((x : ℕ) → IsHome 2 30 x → d x ≡ (machine 9).cache x)
commit_durable_example = commit_durable log (machine 9) (machine-Ready 9) (omega arith)

machine-Pinned : (power : ℕ) → Pinned log (machine power)
machine-Pinned power x i = ground arith

-- Block 70 is logged beside the two.
abbrev three : Log
three = record log { lh = 32 ∷ 60 ∷ 70 ∷ [] }

log_write-Covered_example : Covered 70 (λ i. 3) three (bpin 70 (modify 70 (λ i. 3) (machine 9)))
log_write-Covered_example =
    log_write-Covered log (machine 9) 70 (λ i. 3) (machine-Ready 9) (machine-Pinned 9)
      (inr (omega arith)) three (bpin 70 (modify 70 (λ i. 3) (machine 9)))
      (unfold log_write absorb in refl)

-- One operation has begun.
abbrev one_op : State
one_op = record {
  log = record { start = 2; size = 31; outstanding = 1; committing = false; lh = [] };
  ops = 0 ∷ [];
}

log_write_may_panic_example :
    (s : State) × (i : ℕ) × Reach 2 log_size s
    × (i < length s.ops)
    × (get_or s.ops i 0 < max_op_blocks)
    × ((b : ℕ) (m : Machine) → log_write b s.log m ≡ none)
log_write_may_panic_example = log_write_may_panic 2
