-- ===== src/Vm/Copy.antt =====
-- copyout, copyin and copyinstr of Xv6/kernel/vm.c over the bytes of memory, in which the page tables
-- stand as little-endian words.
use os_project.Prelude.{
  ℕ, zero, suc, ◌+◌, ◌-◌, ◌*◌, ◌^◌, Bool, true, false, ◌==◌, ltb, if◌then◌else◌,
}
use os_project.Memory.{Mem, poke, page_size, pg_round_down}
use os_project.Strings.{memmove}
use os_project.Kalloc.{Words}
use os_project.Vm.{walkaddr}

-- The word at an address.
abbrev pub words : Mem → Words
words m a =
    m a
    + 2 ^ 8 * m (a + 1)
    + 2 ^ 16 * m (a + 2)
    + 2 ^ 24 * m (a + 3)
    + 2 ^ 32 * m (a + 4)
    + 2 ^ 40 * m (a + 5)
    + 2 ^ 48 * m (a + 6)
    + 2 ^ 56 * m (a + 7)

-- walkaddr writes nothing and takes no page, so any free list will do.
abbrev pub translate : Mem → ℕ → ℕ → ℕ
translate m pagetable va = walkaddr (record { freelist = 0; word = words m }) pagetable va

-- The bytes of a round: up to the end of the page, and no more than are left.
abbrev pub stretch : ℕ → ℕ → ℕ
stretch va len = let n = page_size - (va - pg_round_down va) in if ltb len n then len else n

-- true stands for the return of 0. Each round copies a byte at least, so `len` rounds are enough.
unfoldable pub copyout_loop : ℕ → Mem → ℕ → ℕ → ℕ → ℕ → Bool × Mem
unfolding memmove walkaddr
copyout_loop zero m pagetable dstva src len = (len == 0, m)
copyout_loop (suc f) m pagetable dstva src len = elim (len == 0) [
  | true ↦ (true, m)
  | false ↦
      let va0 = pg_round_down dstva in
      let pa0 = translate m pagetable va0 in
      elim (pa0 == 0) [
        | true ↦ (false, m)
        | false ↦
            let n = stretch dstva len in
            copyout_loop f (memmove m (pa0 + (dstva - va0)) src n) pagetable (va0 + page_size)
              (src + n) (len - n)
      ]
]

unfoldable pub copyout : Mem → ℕ → ℕ → ℕ → ℕ → Bool × Mem
unfolding copyout_loop
copyout m pagetable dstva src len = copyout_loop len m pagetable dstva src len

unfoldable pub copyin_loop : ℕ → Mem → ℕ → ℕ → ℕ → ℕ → Bool × Mem
unfolding memmove walkaddr
copyin_loop zero m pagetable dst srcva len = (len == 0, m)
copyin_loop (suc f) m pagetable dst srcva len = elim (len == 0) [
  | true ↦ (true, m)
  | false ↦
      let va0 = pg_round_down srcva in
      let pa0 = translate m pagetable va0 in
      elim (pa0 == 0) [
        | true ↦ (false, m)
        | false ↦
            let n = stretch srcva len in
            copyin_loop f (memmove m dst (pa0 + (srcva - va0)) n) pagetable (dst + n)
              (va0 + page_size) (len - n)
      ]
]

unfoldable pub copyin : Mem → ℕ → ℕ → ℕ → ℕ → Bool × Mem
unfolding copyin_loop
copyin m pagetable dst srcva len = copyin_loop len m pagetable dst srcva len

-- The inner loop of copyinstr over the `n` bytes from `p` on: has it met the NUL?
unfoldable pub string_loop : ℕ → Mem → ℕ → ℕ → Bool × Mem
string_loop zero m dst p = (false, m)
string_loop (suc n) m dst p = elim (m p == 0) [
  | true ↦ (true, poke m dst 0)
  | false ↦ string_loop n (poke m dst (m p)) (dst + 1) (p + 1)
]

unfoldable pub copyinstr_loop : ℕ → Mem → ℕ → ℕ → ℕ → ℕ → Bool × Mem
unfolding string_loop walkaddr
copyinstr_loop zero m pagetable dst srcva max = (false, m)
copyinstr_loop (suc f) m pagetable dst srcva max = elim (max == 0) [
  | true ↦ (false, m)
  | false ↦
      let va0 = pg_round_down srcva in
      let pa0 = translate m pagetable va0 in
      elim (pa0 == 0) [
        | true ↦ (false, m)
        | false ↦
            let n = stretch srcva max in
            let r = string_loop n m dst (pa0 + (srcva - va0)) in
            elim r.0 [
              | true ↦ r
              | false ↦ copyinstr_loop f r.1 pagetable (dst + n) (va0 + page_size) (max - n)
            ]
      ]
]

unfoldable pub copyinstr : Mem → ℕ → ℕ → ℕ → ℕ → Bool × Mem
unfolding copyinstr_loop
copyinstr m pagetable dst srcva max = copyinstr_loop (max + 1) m pagetable dst srcva max
