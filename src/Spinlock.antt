-- ===== src/Spinlock.antt =====
-- Xv6/kernel/spinlock.c: the nesting of push_off and pop_off on one processor, and spin locks shared by
-- several. Each access of a lock that another processor can see is a step of its own in acquire.
use os_project.Prelude.{
  ℕ, zero, suc, ◌+◌, ◌-◌, Bool, true, false, ◌&&◌, not, Option, none, some, ◌==◌, ltb,
  if◌then◌else◌,
}
pub mod Nesting
pub mod Exclusion
pub mod Mutex
mod Tests

-- What these functions use of `struct cpu`, and `intr`, which is SIE of the register sstatus.
pub record Cpu : Type 0 where
  pub noff : ℕ
  pub intena : Bool
  pub intr : Bool

unfoldable pub push_off : Cpu → Cpu
push_off c = record {
  noff = c.noff + 1;
  intena = if c.noff == 0 then c.intr else c.intena;
  intr = false;
}

-- `none` is a panic, "pop_off - interruptible" or "pop_off".
unfoldable pub pop_off : Cpu → Option Cpu
pop_off c =
    if c.intr
    then none
    else if ltb c.noff 1
    then none
    else some (record {
      noff = c.noff - 1;
      intena = c.intena;
      intr = if (c.noff - 1 == 0) && c.intena then true else c.intr;
    })

-- `struct spinlock`, less its name; processors are named by numbers.
pub record Lock : Type 0 where
  pub locked : Bool
  pub cpu : Option ℕ

unfoldable pub initlock : Lock
initlock = record { locked = false; cpu = none }

abbrev pub is_cpu : ℕ → Option ℕ → Bool
is_cpu i none = false
is_cpu i (some j) = j == i

unfoldable pub holding : ℕ → Lock → Bool
holding i l = l.locked && is_cpu i l.cpu

-- `acquire` up to its loop; `none` is the panic "acquire".
unfoldable pub acquire_enter : ℕ → Cpu → Lock → Option Cpu
acquire_enter i c l = let q = push_off c in if holding i l then none else some q

-- One round of its loop: whether the swap got the lock.
unfoldable pub swap : Lock → Bool × Lock
swap l = (not l.locked, record l { locked = true })

-- What follows the loop.
unfoldable pub acquire_exit : ℕ → Lock → Lock
acquire_exit i l = record l { cpu = some i }

-- `release` up to where it forgets the holder; `none` is the panic "release".
unfoldable pub release_enter : ℕ → Lock → Option Lock
release_enter i l = if not (holding i l) then none else some (record l { cpu = none })

-- The store that lets another processor have the lock.
unfoldable pub release_exit : Lock → Lock
release_exit l = record l { locked = false }

-- All of `release`, with its `pop_off`.
unfoldable pub release : ℕ → Cpu → Lock → Option (Cpu × Lock)
release i c l = elim (release_enter i l) [
  | none ↦ none
  | some k ↦ (elim (pop_off c) [ none ↦ none | some q ↦ some (q, release_exit k) ])
]
