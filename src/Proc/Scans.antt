-- ===== src/Proc/Scans.antt =====
-- The loops of Xv6/kernel/proc.c that look for an entry of the process table.
use os_project.Prelude.{
  ℕ, zero, suc, ◌+◌, ◌<◌, ◌≡◌, ◌≢◌, ◌⊎◌, inl, inr, refl, ap, Bool, true, false, ◌&&◌, ◌||◌,
  Bool-cases, none, some, ◌==◌, arith, ℕ_discrete,
}
use os_project.Memory.{in_range}
use os_project.Proc.Table.{
  Table, nproc, is_child, is_unused, is_zombie, set_proc, kill_loop, kill, mark_killed,
}
use os_project.Proc.Life.{find_unused, Scan, found, no_zombie, wait_scan}

-- The first entry whose pid is the argument.
kill_loop_lem :
    (n i pid : ℕ) (t : Table)
    → (kill_loop n i pid t ≡ (false, t)) × ((j : ℕ) → in_range i n j ≡ true → (t.procs j).pid ≢ pid)
      ⊎ ((k : ℕ) × (in_range i n k ≡ true)
          × ((t.procs k).pid ≡ pid)
          × (kill_loop n i pid t ≡ (true, set_proc t k (mark_killed (t.procs k)))))
unfolding kill_loop
kill_loop_lem zero i pid t = inl (refl, λ j inside. absurd (ground arith))
kill_loop_lem (suc n) i pid t = elim (Bool-cases ((t.procs i).pid == pid)) [
  | inl hit ↦ inr (i, ground arith, ground arith, rw hit)
  | inr miss ↦ rw miss (elim (kill_loop_lem n (i + 1) pid t) [
    | inl (e, none_there) ↦ inl (
      e,
      λ j inside. elim (ℕ_discrete j i) [
        | yes same ↦ ground arith
        | no ne ↦ none_there j (ground arith)
      ],
    )
    | inr (k, inside, at, e) ↦ inr (k, ground arith, at, e)
  ])
]

-- `kill` returns -1 and changes nothing exactly where no process has the pid; else it marks one that
-- has it as killed, makes it runnable if it sleeps, and changes nothing else.
pub kill_lem :
    (pid : ℕ) (t : Table)
    → (kill pid t ≡ (false, t)) × ((j : ℕ) → j < nproc → (t.procs j).pid ≢ pid)
      ⊎ ((k : ℕ) × (k < nproc)
          × ((t.procs k).pid ≡ pid)
          × (kill pid t ≡ (true, set_proc t k (mark_killed (t.procs k)))))
unfolding kill
kill_lem pid t = elim (kill_loop_lem nproc 0 pid t) [
  | inl (e, none_there) ↦ inl (e, λ j lt. none_there j (ground arith))
  | inr (k, inside, at, e) ↦ inr (k, ground arith, at, e)
]

pub find_unused_lem :
    (n i : ℕ) (t : Table)
    → (find_unused n i t ≡ none)
        × ((j : ℕ) → in_range i n j ≡ true → is_unused (t.procs j).state ≡ false)
      ⊎ ((k : ℕ) × (in_range i n k ≡ true)
          × (is_unused (t.procs k).state ≡ true)
          × (find_unused n i t ≡ some k))
unfolding find_unused
find_unused_lem zero i t = inl (refl, λ j inside. absurd (ground arith))
find_unused_lem (suc n) i t = elim (Bool-cases (is_unused (t.procs i).state)) [
  | inl hit ↦ inr (i, ground arith, hit, rw hit)
  | inr miss ↦ rw miss (elim (find_unused_lem n (i + 1) t) [
    | inl (e, none_there) ↦ inl (
      e,
      λ j inside. elim (ℕ_discrete j i) [
        | yes same ↦ rw same miss
        | no ne ↦ none_there j (ground arith)
      ],
    )
    | inr (k, inside, at, e) ↦ inr (k, ground arith, at, e)
  ])
]

-- What the scan of `wait` from entry `i` on says of the children of `cur`.
abbrev pub Scanned : ℕ → ℕ → Bool → ℕ → Table → Scan → Type 0
Scanned n i havekids cur t (found k) =
    (in_range i n k ≡ true)
    × (is_child (t.procs k).parent cur ≡ true)
    × (is_zombie (t.procs k).state ≡ true)
Scanned n i havekids cur t (no_zombie kids) =
    ((j : ℕ)
      → in_range i n j ≡ true
      → is_child (t.procs j).parent cur ≡ true
      → is_zombie (t.procs j).state ≡ false)
    × (kids ≡ true
        → (havekids ≡ true)
          ⊎ ((j : ℕ) × (in_range i n j ≡ true) × (is_child (t.procs j).parent cur ≡ true)))
    × (kids ≡ false
        → (havekids ≡ false)
          × ((j : ℕ) → in_range i n j ≡ true → is_child (t.procs j).parent cur ≡ false))

Scanned-cons :
    (n i : ℕ) (havekids : Bool) (cur : ℕ) (t : Table) (r : Scan)
    → (is_child (t.procs i).parent cur && is_zombie (t.procs i).state) ≡ false
    → Scanned n (i + 1) (havekids || is_child (t.procs i).parent cur) cur t r
    → Scanned (suc n) i havekids cur t r
Scanned-cons n i havekids cur t (found k) no_hit (inside, mine, dead) = (ground arith, mine, dead)
Scanned-cons n i havekids cur t (no_zombie kids) no_hit (alive, some_kid, no_kid) = (
  λ j inside mine. elim (ℕ_discrete j i) [
    | yes same ↦ rw same (ground (arith, ap (λ k. is_child (t.procs k).parent cur) same))
    | no ne ↦ alive j (ground arith) mine
  ],
  λ e. elim (Bool-cases (is_child (t.procs i).parent cur)) [
    | inl mine ↦ inr (i, ground arith, mine)
    | inr not_mine ↦ elim (some_kid e) [
      | inl before ↦ inl (ground arith)
      | inr (j, inside, mine) ↦ inr (j, ground arith, mine)
    ]
  ],
  λ e. (
    ground (arith, no_kid e),
    λ j inside. elim (ℕ_discrete j i) [
      | yes same ↦ rw same (ground (arith, no_kid e))
      | no ne ↦ (no_kid e).1 j (ground arith)
    ],
  ),
)

pub wait_scan-Scanned :
    (n i : ℕ) (havekids : Bool) (cur : ℕ) (t : Table)
    → Scanned n i havekids cur t (wait_scan n i havekids cur t)
unfolding wait_scan
wait_scan-Scanned zero i havekids cur t = (
  λ j inside mine. absurd (ground arith),
  λ e. inl e,
  λ e. (e, λ j inside. absurd (ground arith)),
)
wait_scan-Scanned (suc n) i havekids cur t =
    elim (Bool-cases (is_child (t.procs i).parent cur && is_zombie (t.procs i).state)) [
      | inl hit ↦ rw hit (ground arith, ground arith, ground arith)
      | inr miss ↦ rw miss (
          Scanned-cons n i havekids cur t _ miss
            (wait_scan-Scanned n (i + 1) (havekids || is_child (t.procs i).parent cur) cur t))
    ]
