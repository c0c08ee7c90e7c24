-- ===== src/Kalloc/Chain.antt =====
-- The free list of kalloc.c as a list of pages, and what `kfree` and `kalloc` do to it.
use os_project.Prelude.{
  ℕ, ◌+◌, ◌%◌, ◌≤◌, ◌<◌, ◌≡◌, ◌≢◌, ◌⊎◌, ◌↔◌, refl, true, false, none, some, List, [], ◌∷◌, arith,
  ◌==◌, if◌then◌else◌,
}
use os_project.Memory.{page_size, phys_stop, in_range}
use os_project.Kalloc.{Words, Kmem, fill, put_word, is_page, kfree, kalloc}

-- How often a page stands in a list.
abbrev pub count : ℕ → List ℕ → ℕ
count a [] = 0
count a (x ∷ xs) = (if x == a then 1 else 0) + count a xs

module _ (kernel_end : ℕ) where
  abbrev pub IsPage : ℕ → Type 0
  IsPage p = is_page kernel_end p ≡ true

  -- From `p` the first words of pages lead through `xs` to the null pointer.
  abbrev pub FreeList : Words → ℕ → List ℕ → Type 0
  FreeList w p [] = p ≡ 0
  FreeList w p (x ∷ xs) = (p ≡ x) × (x ≢ 0) × IsPage x × FreeList w (w x) xs

  pub FreeList-frame :
      (xs : List ℕ) (w v : Words) (p : ℕ)
      → FreeList w p xs
      → ((x : ℕ) → IsPage x → 0 < count x xs → v x ≡ w x)
      → FreeList v p xs
  FreeList-frame [] w v p h same = h
  FreeList-frame (x ∷ xs) w v p h same = (
    h.0,
    h.1,
    h.2,
    rw (same x h.2 (ground arith))
        (FreeList-frame xs w v (w x) h.3 λ y q c. same y q (ground arith)),
  )

  fill-page : (w : Words) (p x c : ℕ) → IsPage p → IsPage x → x ≢ p → fill w p c x ≡ w x
  unfolding fill
  fill-page w p x c hp hx ne = ground arith

  abbrev pub Holds : Kmem → List ℕ → Type 0
  Holds k xs = FreeList k.word k.freelist xs

  -- `kfree` of a page that is not free puts it in front of the free list, and writes nowhere but in
  -- that page.
  pub kfree-Holds :
      (k : Kmem) (pa : ℕ) (xs : List ℕ)
      → 0 < kernel_end
      → IsPage pa
      → Holds k xs
      → count pa xs ≡ 0
      → (k' : Kmem) × (kfree kernel_end k pa ≡ some k')
        × Holds k' (pa ∷ xs)
        × ((x : ℕ) → in_range pa page_size x ≡ false → k'.word x ≡ k.word x)
  unfolding kfree put_word fill
  kfree-Holds k pa xs pos page h out = (
    record { freelist = pa; word = put_word (fill k.word pa 1) pa k.freelist },
    ground arith,
    (
      refl,
      ground arith,
      page,
      (let next : put_word (fill k.word pa 1) pa k.freelist pa ≡ k.freelist = ground arith in
          rw next (FreeList-frame xs k.word _ k.freelist h λ y q c. ground arith)),
    ),
    λ x far. ground arith,
  )

  -- On any other address `kfree` panics, and on no page.
  pub kfree_panics_iff :
      (k : Kmem) (pa : ℕ)
      → (kfree kernel_end k pa ≡ none)
        ↔ ((pa % page_size ≢ 0) ⊎ (pa < kernel_end) ⊎ (phys_stop ≤ pa))
  unfolding kfree
  kfree_panics_iff k pa = ground arith

  -- `kalloc` takes the first page off the free list, and writes nowhere but in that page.
  pub kalloc-cons :
      (k : Kmem) (x : ℕ) (xs : List ℕ)
      → Holds k (x ∷ xs)
      → count x xs ≡ 0
      → let (r, k') = kalloc k in
        (r ≡ x) × Holds k' xs × ((y : ℕ) → in_range x page_size y ≡ false → k'.word y ≡ k.word y)
  unfolding kalloc fill
  kalloc-cons k x xs h out =
      let some_page : (k.freelist == 0) ≡ false = ground arith in
      rw some_page (
        h.0,
        rw h.0 (FreeList-frame xs k.word (fill k.word x 5) (k.word x) h.3 λ y q c. ground arith),
        λ y far. ground arith,
      )

  -- With no page left `kalloc` returns the null pointer and changes nothing.
  pub kalloc-nil : (k : Kmem) → Holds k [] → kalloc k ≡ (0, k)
  unfolding kalloc
  kalloc-nil k h = ground arith
