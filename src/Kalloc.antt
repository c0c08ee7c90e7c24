-- ===== src/Kalloc.antt =====
-- Xv6/kernel/kalloc.c, the allocator of physical pages. A free page holds in its first word the
-- address of the next one. Each function is one critical section of `kmem.lock`, so it is one step.
-- `kernel_end` is the linker's symbol `end`, the first address behind the kernel.
pub mod Chain
pub mod Boot
pub mod Pages
mod Tests
use os_project.Prelude.{
  ℕ, zero, suc, ◌+◌, ◌*◌, ◌%◌, ◌-◌, ◌/◌, Bool, ◌&&◌, ◌||◌, not, Option, none, some, ◌==◌, ltb, leb,
  if◌then◌else◌,
}
use os_project.Memory.{page_size, pg_round_up, phys_stop, in_range}

-- The 64-bit word at an address that 8 divides.
abbrev pub Words : Type 0
Words = ℕ → ℕ

-- `kmem`, and the physical memory that the free list runs through.
pub record Kmem : Type 0 where
  pub freelist : ℕ
  pub word : Words

-- `memset(pa, c, PGSIZE)`: every byte of the page becomes `c`.
unfoldable pub fill : Words → ℕ → ℕ → Words
fill w pa c x = if in_range pa page_size x then c * 0x0101010101010101 else w x

unfoldable pub put_word : Words → ℕ → ℕ → Words
put_word w a v x = if x == a then v else w x

-- The guard of `kfree`: an address that is no page of the allocator is a panic.
abbrev pub is_page : ℕ → ℕ → Bool
is_page kernel_end pa = not (not (pa % page_size == 0) || ltb pa kernel_end || leb phys_stop pa)

module _ (kernel_end : ℕ) where
  -- `none` is the panic "kfree".
  unfoldable pub kfree : Kmem → ℕ → Option Kmem
  kfree k pa =
      if not (is_page kernel_end pa)
      then none
      else (let junk = fill k.word pa 1 in
          some (record { freelist = pa; word = put_word junk pa k.freelist }))

  -- The loop of `freerange`; `none` is a panic, or that the fuel has run out.
  freerange_loop : ℕ → Kmem → ℕ → ℕ → Option Kmem
  unfolding kfree
  freerange_loop zero k p pa_end = none
  freerange_loop (suc f) k p pa_end =
      let rest : Option Kmem = elim (kfree k p) [
        | none ↦ none
        | some k' ↦ freerange_loop f k' (p + page_size) pa_end
      ] in
      if leb (p + page_size) pa_end then rest else some k

  -- One round for each page of the range, and one for the last test.
  unfoldable pub freerange : Kmem → ℕ → ℕ → Option Kmem
  unfolding freerange_loop
  freerange k pa_start pa_end =
      freerange_loop ((pa_end - pg_round_up pa_start) / page_size + 1) k (pg_round_up pa_start)
        pa_end

  -- `kmem` is zero at boot.
  unfoldable pub kinit : Words → Option Kmem
  unfolding freerange
  kinit memory = freerange (record { freelist = 0; word = memory }) kernel_end phys_stop

-- The page, or 0 where there is none.
unfoldable pub kalloc : Kmem → ℕ × Kmem
kalloc k =
    if k.freelist == 0
    then (0, k)
    else (let r = k.freelist in (r, record { freelist = k.word r; word = fill k.word r 5 }))
