-- ===== src/Kalloc/Boot.antt =====
-- `freerange` and `kinit` of Xv6/kernel/kalloc.c: what the free list holds after boot.
use os_project.Prelude.{
  ℕ, zero, suc, ◌+◌, ◌-◌, ◌/◌, ◌%◌, ◌≤◌, ◌<◌, ◌≡◌, refl, Bool, ◌&&◌, Bool-cases, inl, inr, some,
  List, [], ◌∷◌, arith, ◌==◌, leb, if◌then◌else◌,
}
use os_project.Memory.{page_size, phys_stop, pg_round_up}
use os_project.Kalloc.{Words, Kmem, is_page, freerange_loop, freerange, kinit}
use os_project.Kalloc.Chain.{count, Holds, kfree-Holds}

-- Is `q` a whole page of the range from `lo` to `hi`?
abbrev pub page_within : ℕ → ℕ → ℕ → Bool
page_within lo hi q = (q % page_size == 0) && leb lo q && leb (q + page_size) hi

-- The loop has added each whole page of its range once.
abbrev Added : ℕ → ℕ → ℕ → List ℕ → List ℕ → Type 0
Added kernel_end p pa_end xs ys =
    (q : ℕ) → count q ys ≡ count q xs + (if page_within p pa_end q then 1 else 0)

module _ (kernel_end : ℕ) (pos : 0 < kernel_end) where
  freerange_loop-Holds :
      (f : ℕ) (k : Kmem) (p pa_end : ℕ) (xs : List ℕ)
      → Holds kernel_end k xs
      → p % page_size ≡ 0
      → kernel_end ≤ p
      → pa_end ≤ phys_stop
      → ((q : ℕ) → p ≤ q → count q xs ≡ 0)
      → (pa_end - p) / page_size < f
      → (k' : Kmem) × (ys : List ℕ) × (freerange_loop kernel_end f k p pa_end ≡ some k')
        × Holds kernel_end k' ys
        × Added kernel_end p pa_end xs ys
  unfolding freerange_loop
  freerange_loop-Holds zero k p pa_end xs h al lo hi below fuel = absurd (omega arith)
  freerange_loop-Holds (suc f) k p pa_end xs h al lo hi below fuel =
      elim (Bool-cases (leb (p + page_size) pa_end)) [
        | inr last ↦ (k, xs, rw last, h, λ q. ground arith)
        | inl more ↦
            let (k₁, freed, h₁, _) =
              kfree-Holds kernel_end k p xs pos (ground arith) h (below p (omega arith)) in
            let (k₂, ys, done, h₂, added) =
              freerange_loop-Holds f k₁ (p + page_size) pa_end (p ∷ xs) h₁ (omega arith)
                (omega arith) hi (λ q le. ground (arith, below q)) (ground arith) in
            (k₂, ys, rw (more, freed) done, h₂, λ q. ground (arith, added q, below p))
      ]

  -- At boot `kinit` meets no panic and leaves a free list that holds every whole page from the end
  -- of the kernel to the end of memory exactly once, and nothing else.
  pub kinit-Holds :
      (memory : Words)
      → kernel_end ≤ phys_stop
      → (k : Kmem) × (ys : List ℕ) × (kinit kernel_end memory ≡ some k)
        × Holds kernel_end k ys
        × ((q : ℕ) → count q ys ≡ (if is_page kernel_end q then 1 else 0))
  unfolding kinit freerange
  kinit-Holds memory hi =
      let (k, ys, done, h, added) =
        freerange_loop-Holds ((phys_stop - pg_round_up kernel_end) / page_size + 1)
          (record { freelist = 0; word = memory }) (pg_round_up kernel_end) phys_stop [] refl
          (omega arith) (omega arith) (omega arith) (λ q le. refl) (omega arith) in
      (k, ys, done, h, λ q. ground (arith, added q))
