-- ===== src/Vm/Mapping.antt =====
-- mappages adds its pages to one address space and changes nothing else.
use os_project.Prelude.{
  ℕ, suc, ◌+◌, ◌*◌, ◌/◌, ◌%◌, ◌<◌, ◌≤◌, Bool, true, false, ◌==◌, Option, none, some, ◌≡◌, ◌⊎◌,
}
use os_project.Memory.{page_size}
use os_project.Kalloc.{Kmem, kalloc}
use os_project.Vm.{pa2pte, is_valid, with_valid, store, max_va, descend, map_loop}
use os_project.Vm.Space.{Ghost, find, Inv}
use os_project.Vm.Within.{Within}

module _ (kernel_end : ℕ) where
  -- The pages of a table that mappages leaves, by its result, with the code's own entries.
  abbrev Filled : Kmem → Ghost → ℕ → ℕ → ℕ → ℕ → ℕ → Option (Bool × Kmem) → Type 0
  Filled k g q a n pa perm none =
      (j : ℕ) × (j ≤ n) × (is_valid (find 2 k.word q (a + j * page_size)) ≡ true)
  Filled k g q a n pa perm (some r) =
      (g' : Ghost) × Within kernel_end (a / page_size) (a / page_size + n + 1) q k g r.1 g'
      × ((r.0 ≡ false) × (kalloc r.1 ≡ (0, r.1))
          ⊎ (r.0 ≡ true)
            × ((j : ℕ)
                → j ≤ n
                → find 2 r.1.word q (a + j * page_size)
                  ≡ pa2pte (pa + j * page_size) + with_valid perm))

  -- One round of mappages, by what it finds.
  module _ (f : ℕ) (k : Kmem) (q a last pa perm : ℕ) (lt : a < max_va) where
    abbrev here : ℕ × Kmem
    here = descend 2 k q a true

    abbrev written : Kmem
    written = store here.1 here.0 (pa2pte pa + with_valid perm)

  -- What a round finds, if it goes on as `rest` says with the entry written.
  module _ (f n : ℕ) (k : Kmem) (g : Ghost) (q a last pa perm : ℕ) (pos : 0 < kernel_end)
      (inv : Inv kernel_end k g) (r : g.rank q ≡ 3) (low : a < max_va) where
    abbrev Goal : Type 0
    Goal = Filled k g q a n pa perm (map_loop (suc f) k q a last pa perm)

    abbrev found : ℕ × Kmem
    found = here f k q a last pa perm low

    abbrev after : Kmem
    after = written f k q a last pa perm low

    abbrev Rest : Type 0
    Rest =
        (found.0 == 0) ≡ false
        → is_valid (found.1.word found.0) ≡ false
        → (g1 : Ghost) → Within kernel_end (a / page_size) (a / page_size + 1) q k g after g1
        → find 2 after.word q a ≡ pa2pte pa + with_valid perm
        → Goal

  -- The same by the bits of the entries: the page number from bit 10 on, PTE_V, and the permissions.
  abbrev pub Mapped : Kmem → Ghost → ℕ → ℕ → ℕ → ℕ → ℕ → Option (Bool × Kmem) → Type 0
  Mapped k g q a n pa perm none = (j : ℕ) × (j ≤ n) × (find 2 k.word q (a + j * page_size) % 2 ≡ 1)
  Mapped k g q a n pa perm (some r) =
      (g' : Ghost) × Within kernel_end (a / page_size) (a / page_size + n + 1) q k g r.1 g'
      × ((r.0 ≡ false) × (kalloc r.1 ≡ (0, r.1))
          ⊎ (r.0 ≡ true)
            × ((j : ℕ)
                → j ≤ n
                → find 2 r.1.word q (a + j * page_size)
                  ≡ (pa / 4096 + j) * 1024 + (perm / 2 * 2 + 1)))
