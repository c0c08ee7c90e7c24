-- ===== src/Vm.antt =====
-- Xv6/kernel/vm.c: page tables in the memory of the page allocator. A page-table page is 512 words; a
-- function takes the physical address of the root page and the allocator's state, whose memory
-- holds the page tables.
pub mod User
pub mod Kernel
pub mod Copy
pub mod Space
pub mod Growth
pub mod Walking
pub mod Entries
pub mod Freeing
pub mod Within
pub mod Mapping
pub mod Taking
pub mod Unmapping
pub mod Translation
pub mod CopyIn
mod Tests
use os_project.Prelude.{
  ℕ, zero, suc, ◌+◌, ◌-◌, ◌*◌, ◌/◌, ◌%◌, ◌^◌, Bool, true, false, ◌&&◌, not, Option, none, some,
  ◌==◌, ltb, leb, if◌then◌else◌,
}
use os_project.Memory.{page_size, pg_round_up, pg_round_down}
use os_project.Kalloc.{Words, Kmem, fill, put_word, kfree, kalloc}

-- MAXVA, and the nine bits of a virtual address that index a table of a level.
abbrev pub max_va : ℕ
max_va = 2 ^ 38

abbrev pub px : ℕ → ℕ → ℕ
px level va = va / 2 ^ (12 + 9 * level) % 512

-- `&pagetable[PX(level, va)]`
abbrev pub entry : ℕ → ℕ → ℕ → ℕ
entry pagetable level va = pagetable + 8 * px level va

abbrev pub pa2pte : ℕ → ℕ
pa2pte pa = pa / 2 ^ 12 * 2 ^ 10

abbrev pub pte2pa : ℕ → ℕ
pte2pa pte = pte / 2 ^ 10 * 2 ^ 12 % 2 ^ 64

abbrev pub pte_flags : ℕ → ℕ
pte_flags pte = pte % 1024

-- PTE_V and PTE_U of an entry
abbrev pub is_valid : ℕ → Bool
is_valid pte = pte % 2 == 1

abbrev pub is_user : ℕ → Bool
is_user pte = pte / 16 % 2 == 1

-- PTE_R, PTE_W and PTE_X are bits 1 to 3.
abbrev pub is_leaf : ℕ → Bool
is_leaf pte = not (pte / 2 % 8 == 0)

-- `perm | PTE_V`
abbrev pub with_valid : ℕ → ℕ
with_valid perm = if is_valid perm then perm else perm + 1

-- A write to the memory of the page tables.
abbrev pub store : Kmem → ℕ → ℕ → Kmem
store k a v = record k { word = put_word k.word a v }

-- `memset(pa, 0, PGSIZE)`
abbrev pub clear : Kmem → ℕ → Kmem
clear k pa = record k { word = fill k.word pa 0 }

-- The loop of walk, from the table of a level down to level 0: the address of the entry, or 0.
unfoldable pub descend : ℕ → Kmem → ℕ → ℕ → Bool → ℕ × Kmem
unfolding fill put_word kalloc
descend zero k pagetable va alloc = (entry pagetable 0 va, k)
descend (suc level) k pagetable va alloc =
    let pte = k.word (entry pagetable (suc level) va) in
    elim (is_valid pte) [
      | true ↦ descend level k (pte2pa pte) va alloc
      | false ↦ elim alloc [
        | false ↦ (0, k)
        | true ↦
            let r = kalloc k in
            elim (r.0 == 0) [
              | true ↦ (0, r.1)
              | false ↦
                  descend level
                    (store (clear r.1 r.0) (entry pagetable (suc level) va) (pa2pte r.0 + 1)) r.0 va
                    true
            ]
      ]
    ]

-- `none` is the panic "walk".
unfoldable pub walk : Kmem → ℕ → ℕ → Bool → Option (ℕ × Kmem)
unfolding descend
walk k pagetable va alloc = if leb max_va va then none else some (descend 2 k pagetable va alloc)

-- The physical address of a user page, or 0.
unfoldable pub walkaddr : Kmem → ℕ → ℕ → ℕ
unfolding descend
walkaddr k pagetable va =
    if leb max_va va
    then 0
    else (let pte = (descend 2 k pagetable va false).0 in
        if pte == 0
        then 0
        else if not (is_valid (k.word pte))
        then 0
        else if not (is_user (k.word pte))
        then 0
        else pte2pa (k.word pte))

-- The loop of mappages: `none` is a panic or the end of the fuel, `(false, _)` the return of -1.
unfoldable pub map_loop : ℕ → Kmem → ℕ → ℕ → ℕ → ℕ → ℕ → Option (Bool × Kmem)
unfolding walk put_word
map_loop zero k pagetable a last pa perm = none
map_loop (suc f) k pagetable a last pa perm = elim (walk k pagetable a true) [
  | none ↦ none
  | some r ↦ elim (r.0 == 0) [
    | true ↦ some (false, r.1)
    | false ↦ elim (is_valid (r.1.word r.0)) [
      | true ↦ none
      | false ↦
          let k' = store r.1 r.0 (pa2pte pa + with_valid perm) in
          elim (a == last) [
            | true ↦ some (true, k')
            | false ↦ map_loop f k' pagetable (a + page_size) last (pa + page_size) perm
          ]
    ]
  ]
]

-- An address at or above MAXVA is a panic of walk, which bounds the rounds. `|` joins an entry
-- whose low ten bits are clear to the permissions below 2^10.
unfoldable pub mappages : Kmem → ℕ → ℕ → ℕ → ℕ → ℕ → Option (Bool × Kmem)
unfolding map_loop
mappages k pagetable va size pa perm =
    if size == 0
    then none
    else (let a = pg_round_down va in
        map_loop ((max_va - a) / page_size + 1) k pagetable a
          (pg_round_down ((va + size - 1) % 2 ^ 64)) pa perm)

module _ (kernel_end : ℕ) where
  -- The loop of uvmunmap up to `end`; `none` is a panic or the end of the fuel.
  unfoldable pub unmap_loop : ℕ → Kmem → ℕ → ℕ → ℕ → Bool → Option Kmem
  unfolding walk put_word kfree
  unmap_loop zero k pagetable a end do_free = if ltb a end then none else some k
  unmap_loop (suc f) k pagetable a end do_free = elim (ltb a end) [
    | false ↦ some k
    | true ↦ elim (walk k pagetable a false) [
      | none ↦ none
      | some r ↦ elim (r.0 == 0) [
        | true ↦ none
        | false ↦
            let pte = k.word r.0 in
            elim (is_valid pte && not (pte_flags pte == 1)) [
              | false ↦ none
              | true ↦ elim (if do_free then kfree kernel_end k (pte2pa pte) else some k) [
                | none ↦ none
                | some k' ↦ unmap_loop f (store k' r.0 0) pagetable (a + page_size) end do_free
              ]
            ]
      ]
    ]
  ]

  -- No more rounds than pages, whether or not the end of the range wraps.
  unfoldable pub uvmunmap : Kmem → ℕ → ℕ → ℕ → Bool → Option Kmem
  unfolding unmap_loop
  uvmunmap k pagetable va npages do_free =
      if not (va % page_size == 0)
      then none
      else unmap_loop npages k pagetable va ((va + npages * page_size) % 2 ^ 64) do_free
