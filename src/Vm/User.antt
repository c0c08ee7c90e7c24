-- ===== src/Vm/User.antt =====
-- Xv6/kernel/vm.c: the memory of processes, from uvmcreate to uvmclear. `none` is a panic.
use os_project.Prelude.{
  ℕ, zero, suc, ◌+◌, ◌-◌, ◌*◌, ◌/◌, ◌%◌, ◌^◌, Bool, true, false, ◌&&◌, not, Option, none, some,
  ◌==◌, ltb, leb, if◌then◌else◌,
}
use os_project.Memory.{Mem, page_size, pg_round_up, in_range}
use os_project.Kalloc.{Kmem, fill, put_word, kfree, kalloc}
use os_project.Vm.Copy.{words}
use os_project.Vm.{
  walk, mappages, uvmunmap, clear, store, pte2pa, pte_flags, is_valid, is_leaf, is_user,
}

-- PTE_R|PTE_U
abbrev pub user_readable : ℕ
user_readable = 18

-- The root page, or 0.
unfoldable pub uvmcreate : Kmem → ℕ × Kmem
unfolding kalloc fill
uvmcreate k = let r = kalloc k in if r.0 == 0 then r else (r.0, clear r.1 r.0)

-- `memmove(mem, pa, PGSIZE)`, word by word, of two pages that do not overlap.
abbrev pub copy_page : Kmem → ℕ → ℕ → Kmem
copy_page k mem pa = record k {
  word = λ x. if in_range mem page_size x then k.word (pa + (x - mem)) else k.word x;
}

-- `memmove(mem, src, sz)` of bytes into a page of words.
abbrev pub copy_bytes : Kmem → ℕ → Mem → ℕ → ℕ → Kmem
copy_bytes k mem src from sz = record k {
  word = λ x.
      if in_range mem page_size x
      then words
          (λ a. if ltb a (mem + sz) then src (from + (a - mem)) else k.word x / 256 ^ (a - x) % 256)
          x
      else k.word x;
}

-- The first process starts with the `sz` bytes of its program at `from`. What kalloc and mappages
-- return is not tested; PTE_W|PTE_R|PTE_X|PTE_U is 30.
unfoldable pub uvmfirst : Kmem → ℕ → Mem → ℕ → ℕ → Option Kmem
unfolding kalloc fill mappages
uvmfirst k pagetable src from sz =
    if leb page_size sz
    then none
    else (let mem = kalloc k in
        elim (mappages (clear mem.1 mem.0) pagetable 0 page_size mem.0 30) [
          | none ↦ none
          | some r ↦ some (copy_bytes r.1 mem.0 src from sz)
        ])

-- `*pte &= ~PTE_U`
unfoldable pub uvmclear : Kmem → ℕ → ℕ → Option Kmem
unfolding walk put_word
uvmclear k pagetable va = elim (walk k pagetable va false) [
  | none ↦ none
  | some r ↦
      if r.0 == 0
      then none
      else some (store k r.0 (if is_user (k.word r.0) then k.word r.0 - 16 else k.word r.0))
]

module _ (kernel_end : ℕ) where
  unfoldable pub uvmdealloc : Kmem → ℕ → ℕ → ℕ → Option (ℕ × Kmem)
  unfolding uvmunmap
  uvmdealloc k pagetable oldsz newsz =
      if leb oldsz newsz
      then some (oldsz, k)
      else if ltb (pg_round_up newsz) (pg_round_up oldsz)
      then elim (uvmunmap kernel_end k pagetable (pg_round_up newsz)
          ((pg_round_up oldsz - pg_round_up newsz) / page_size) true) [
            | none ↦ none
            | some k' ↦ some (newsz, k')
          ]
      else some (newsz, k)

  -- The way out of uvmalloc that gives the pages from `oldsz` to `a` back and returns 0.
  unfoldable pub give_back : Kmem → ℕ → ℕ → ℕ → Option (ℕ × Kmem)
  unfolding uvmdealloc
  give_back k pagetable a oldsz = elim (uvmdealloc k pagetable a oldsz) [
    | none ↦ none
    | some r ↦ some (0, r.1)
  ]

  -- The loop of uvmalloc. PTE_R|PTE_U|xperm is a sum: `xperm` is among PTE_W and PTE_X.
  unfoldable pub alloc_loop : ℕ → Kmem → ℕ → ℕ → ℕ → ℕ → ℕ → Option (ℕ × Kmem)
  unfolding kalloc fill mappages kfree give_back
  alloc_loop zero k pagetable oldsz a newsz xperm = if ltb a newsz then none else some (newsz, k)
  alloc_loop (suc f) k pagetable oldsz a newsz xperm = elim (ltb a newsz) [
    | false ↦ some (newsz, k)
    | true ↦
        let mem = kalloc k in
        elim (mem.0 == 0) [
          | true ↦ give_back mem.1 pagetable a oldsz
          | false ↦
              elim (mappages (clear mem.1 mem.0) pagetable a page_size mem.0
                (user_readable + xperm)) [
                  | none ↦ none
                  | some r ↦ elim r.0 [
                    | true ↦ alloc_loop f r.1 pagetable oldsz (a + page_size) newsz xperm
                    | false ↦ elim (kfree kernel_end r.1 mem.0) [
                      | none ↦ none
                      | some k' ↦ give_back k' pagetable a oldsz
                    ]
                  ]
                ]
        ]
  ]

  -- One round for each page between the sizes is enough.
  unfoldable pub uvmalloc : Kmem → ℕ → ℕ → ℕ → ℕ → Option (ℕ × Kmem)
  unfolding alloc_loop
  uvmalloc k pagetable oldsz newsz xperm =
      if ltb newsz oldsz
      then some (oldsz, k)
      else alloc_loop ((newsz - oldsz) / page_size + 1) k pagetable (pg_round_up oldsz)
          (pg_round_up oldsz) newsz xperm

  -- The loop of freewalk over the entries from `i` on, with the call for the tables below as `free`.
  unfoldable pub free_loop : (Kmem → ℕ → Option Kmem) → ℕ → Kmem → ℕ → ℕ → Option Kmem
  unfolding put_word
  free_loop free zero k pagetable i = some k
  free_loop free (suc rounds) k pagetable i =
      let pte = k.word (pagetable + 8 * i) in
      elim (is_valid pte) [
        | true ↦ elim (is_leaf pte) [
          | true ↦ none
          | false ↦ elim (free k (pte2pa pte)) [
            | none ↦ none
            | some k' ↦ free_loop free rounds (store k' (pagetable + 8 * i) 0) pagetable (i + 1)
          ]
        ]
        | false ↦ free_loop free rounds k pagetable (i + 1)
      ]

  -- The fuel is the number of levels of the table.
  unfoldable pub freewalk : ℕ → Kmem → ℕ → Option Kmem
  unfolding free_loop kfree
  freewalk zero k pagetable = none
  freewalk (suc level) k pagetable = elim (free_loop (freewalk level) 512 k pagetable 0) [
    | none ↦ none
    | some k' ↦ kfree kernel_end k' pagetable
  ]

  unfoldable pub uvmfree : Kmem → ℕ → ℕ → Option Kmem
  unfolding uvmunmap freewalk
  uvmfree k pagetable sz =
      elim (if ltb 0 sz
        then uvmunmap kernel_end k pagetable 0 (pg_round_up sz / page_size) true
        else some k) [ none ↦ none | some k' ↦ freewalk 3 k' pagetable ]

  -- `err:` of uvmcopy
  unfoldable pub undo_copy : Kmem → ℕ → ℕ → Option (Bool × Kmem)
  unfolding uvmunmap
  undo_copy k new i = elim (uvmunmap kernel_end k new 0 (i / page_size) true) [
    | none ↦ none
    | some k' ↦ some (false, k')
  ]

  -- The loop of uvmcopy; the result is true for the return of 0.
  unfoldable pub copy_loop : ℕ → Kmem → ℕ → ℕ → ℕ → ℕ → Option (Bool × Kmem)
  unfolding walk kalloc mappages kfree undo_copy
  copy_loop zero k old new i sz = if ltb i sz then none else some (true, k)
  copy_loop (suc f) k old new i sz = elim (ltb i sz) [
    | false ↦ some (true, k)
    | true ↦ elim (walk k old i false) [
      | none ↦ none
      | some r ↦ elim (not (r.0 == 0) && is_valid (k.word r.0)) [
        | false ↦ none
        | true ↦
            let pte = k.word r.0 in
            let mem = kalloc k in
            elim (mem.0 == 0) [
              | true ↦ undo_copy mem.1 new i
              | false ↦
                  elim (mappages (copy_page mem.1 mem.0 (pte2pa pte)) new i page_size mem.0
                    (pte_flags pte)) [
                      | none ↦ none
                      | some m ↦ elim m.0 [
                        | true ↦ copy_loop f m.1 old new (i + page_size) sz
                        | false ↦ elim (kfree kernel_end m.1 mem.0) [
                          | none ↦ none
                          | some k' ↦ undo_copy k' new i
                        ]
                      ]
                    ]
            ]
      ]
    ]
  ]

  unfoldable pub uvmcopy : Kmem → ℕ → ℕ → ℕ → Option (Bool × Kmem)
  unfolding copy_loop
  uvmcopy k old new sz = copy_loop (sz / page_size + 1) k old new 0 sz
