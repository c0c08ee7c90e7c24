-- ===== src/Vm/Unmapping.antt =====
-- uvmunmap takes its pages out of one address space and gives them back where it is told to.
use os_project.Prelude.{
  ℕ, zero, suc, ◌+◌, ◌*◌, ◌/◌, ◌%◌, ◌^◌, ◌<◌, ◌≤◌, Bool, true, false, not, ◌==◌, ltb, if_true,
  if_false, none, some, ◌≡◌, ◌≢◌, ◌⊎◌, refl, sym, ap, ◌∙◌, inl, inr, arith, List, [], ◌∷◌, ◌++◌,
  length, length-append, if◌then◌else◌,
}
use mathlib.Core.Path.{subst}
use os_project.Memory.{page_size, in_range}
use os_project.Kalloc.{Kmem, is_page}
use os_project.Kalloc.Chain.{count}
use os_project.Vm.{pte2pa, max_va, unmap_loop, uvmunmap}
use os_project.Vm.Space.{Ghost, find, Inv}
use os_project.Vm.Freeing.{with_free}
use os_project.Vm.Taking.{page_of, is_mapped, Once, round-Once}

module _ (kernel_end : ℕ) where
  -- The `n` pages from `a` on are mapped; where they are given back, they are pages of the allocator
  -- in use, no tables, and no two are the same.
  pub record Owned (k : Kmem) (g : Ghost) (q a n : ℕ) (do_free : Bool) : Type 0 where
    pub leaf : (j : ℕ) → j < n → is_mapped (find 2 k.word q (a + j * page_size)) ≡ true
    pub page :
        do_free ≡ true
        → (j : ℕ) → j < n
        → (is_page kernel_end (page_of k q (a + j * page_size)) ≡ true)
          × (g.rank (page_of k q (a + j * page_size)) ≡ 0)
          × (count (page_of k q (a + j * page_size)) g.free ≡ 0)
    pub distinct :
        do_free ≡ true
        → (i j : ℕ) → i < j
        → j < n
        → page_of k q (a + i * page_size) ≢ page_of k q (a + j * page_size)

  -- The pages have no entries any more, and those that are given back stand in `freed`; no other
  -- entry and no other page has changed.
  pub record Unmapped (k : Kmem) (g : Ghost) (q a n : ℕ) (do_free : Bool) (k' : Kmem) : Type 0 where
    pub freed : List ℕ
    pub inv : Inv kernel_end k' (with_free g freed)
    pub cleared : (j : ℕ) → j < n → find 2 k'.word q (a + j * page_size) ≡ 0
    pub outside :
        (p va : ℕ)
        → g.rank p ≡ 3
        → va < max_va
        → (g.place p ≢ g.place q)
          ⊎ (va / page_size < a / page_size)
          ⊎ (a / page_size + n ≤ va / page_size)
        → find 2 k'.word p va ≡ find 2 k.word p va
    pub amount : length freed ≡ (if do_free then n else 0)
    pub which : do_free ≡ true → (j : ℕ) → j < n → 0 < count (page_of k q (a + j * page_size)) freed
    pub others :
        (p : ℕ)
        → is_page kernel_end p ≡ true
        → g.rank p ≡ 0
        → count p g.free ≡ 0
        → count p freed ≡ 0
        → (x : ℕ) → in_range p page_size x ≡ true
        → k'.word x ≡ k.word x

  used_still :
      (x y : ℕ) (fs free : List ℕ)
      → fs ≡ x ∷ []
      → x ≢ y
      → count y free ≡ 0
      → count y (fs ++ free) ≡ 0
  used_still x y fs free e ne c = ap (λ l. count y (l ++ free)) e ∙ ground arith

  count-append : (y : ℕ) (xs ys : List ℕ) → count y (xs ++ ys) ≡ count y xs + count y ys
  count-append y [] ys = omega arith
  count-append y (x ∷ xs) ys = omega (arith, count-append y xs ys)

  append_assoc : (xs ys zs : List ℕ) → (xs ++ ys) ++ zs ≡ xs ++ (ys ++ zs)
  append_assoc [] ys zs = refl
  append_assoc (x ∷ xs) ys zs = ap (◌∷◌ x) (append_assoc xs ys zs)

  -- A range of pages is its first page and the others.
  by_page :
      (P : ℕ → Type 0) (a n : ℕ)
      → P a
      → ((j : ℕ) → j < n → P (a + page_size + j * page_size))
      → (j : ℕ) → j < suc n
      → P (a + j * page_size)
  by_page P a n first rest zero l = subst P (omega arith) first
  by_page P a n first rest (suc j) l = subst P (omega arith) (rest j (omega arith))

  length_freed :
      (b : Bool) (x n : ℕ) (fs gs : List ℕ)
      → length fs ≡ (if b then n else 0)
      → gs ≡ (if b then x ∷ [] else [])
      → length (fs ++ gs) ≡ (if b then suc n else 0)
  length_freed true x n fs gs e f = omega (arith, length-append fs gs, e, ap length f)
  length_freed false x n fs gs e f = omega (arith, length-append fs gs, e, ap length f)

  count_single : (x y : ℕ) (fs : List ℕ) → fs ≡ x ∷ [] → x ≡ y → 0 < count y fs
  count_single x y fs e same = ground (arith, ap (count y) e)

  -- The later entries are not touched by the first round.
  later :
      {k k1 : Kmem} {g : Ghost} {q a n : ℕ} {do_free : Bool}
      → g.rank q ≡ 3
      → a % page_size ≡ 0
      → a + suc n * page_size ≤ max_va
      → Once kernel_end k g q a do_free k1
      → (j : ℕ) → j < n
      → find 2 k1.word q (a + page_size + j * page_size)
        ≡ find 2 k.word q (a + page_size + j * page_size)
  later {q} {a} r al lt o j l =
      o.outside q (a + page_size + j * page_size) r (omega arith) (inr (omega arith))

  -- The pages that are left after the first.
  Owned-next :
      {k k1 : Kmem} {g : Ghost} {q a n : ℕ} {do_free : Bool}
      → g.rank q ≡ 3
      → a % page_size ≡ 0
      → a + suc n * page_size ≤ max_va
      → Owned k g q a (suc n) do_free
      → (o : Once kernel_end k g q a do_free k1)
      → Owned k1 (with_free g o.freed) q (a + page_size) n do_free
  Owned-next {k} {k1} {g} {q} {a} {n} {do_free} r al lt own o =
      let same : (j : ℕ)
          → j < n
          → find 2 k1.word q (a + page_size + j * page_size)
            ≡ find 2 k.word q (a + suc j * page_size) =
        λ j l. later r al lt o j l ∙ ap (find 2 k.word q) (omega arith) in
      record {
        leaf = λ j l. ap is_mapped (same j l) ∙ own.leaf (suc j) (omega arith);
        page = λ f j l.
            let p = own.page f (suc j) (omega arith) in
            subst
              (λ (y : ℕ).
                (is_page kernel_end y ≡ true) × (g.rank y ≡ 0) × (count y (o.freed ++ g.free) ≡ 0))
              (sym (ap pte2pa (same j l)))
              (
                p.0,
                p.1,
                used_still (page_of k q a) _ o.freed g.free (o.which ∙ if_true do_free _ [] f)
                    (λ e.
                      own.distinct f 0 (suc j) (omega arith) (omega arith)
                        (ap (page_of k q) (omega arith) ∙ e))
                    p.2,
              );
        distinct = λ f i j l m e.
            own.distinct f (suc i) (suc j) (omega arith) (omega arith)
              (sym (ap pte2pa (same i (omega arith))) ∙ e ∙ ap pte2pa (same j m));
      }

  Unmapped-next :
      {k k1 k' : Kmem} {g : Ghost} {q a n : ℕ} {do_free : Bool}
      → g.rank q ≡ 3
      → a % page_size ≡ 0
      → a + suc n * page_size ≤ max_va
      → (o : Once kernel_end k g q a do_free k1)
      → Unmapped k1 (with_free g o.freed) q (a + page_size) n do_free k'
      → Unmapped k g q a (suc n) do_free k'
  Unmapped-next {k} {k1} {k'} {g} {q} {a} {n} {do_free} r al lt o u = record {
    freed = u.freed ++ o.freed;
    inv =
        subst
          (λ (fs : List ℕ).
            Inv kernel_end k' (record { free = fs; rank = g.rank; place = g.place }))
          (sym (append_assoc u.freed o.freed g.free)) u.inv;
    cleared =
        by_page (λ (va : ℕ). find 2 k'.word q va ≡ 0) a n
          (u.outside q a r (omega arith) (inr (inl (omega arith))) ∙ o.cleared) u.cleared;
    outside = λ p va rp low far.
        u.outside p va rp low (elim far [
          | inl ne ↦ inl ne
          | inr x ↦ inr (elim x [ inl y ↦ inl (omega arith) | inr y ↦ inr (omega arith) ])
        ])
        ∙ o.outside p va rp low (elim far [
          | inl ne ↦ inl ne
          | inr x ↦ inr (λ e. elim x [ inl y ↦ omega arith | inr y ↦ omega arith ])
        ]);
    amount = length_freed do_free (page_of k q a) n u.freed o.freed u.amount o.which;
    which = λ f.
        by_page (λ (va : ℕ). 0 < count (page_of k q va) (u.freed ++ o.freed)) a n
          (omega (
            arith,
            count-append (page_of k q a) u.freed o.freed,
            count_single (page_of k q a) (page_of k q a) o.freed (o.which ∙ if_true do_free _ [] f)
                refl,
          ))
          (λ j l.
            let same = ap pte2pa (later r al lt o j l) in
            let left = subst (λ (y : ℕ). 0 < count y u.freed) same (u.which f j l) in
            omega (
              arith,
              count-append (page_of k q (a + page_size + j * page_size)) u.freed o.freed,
              left,
            ));
    others = λ p pp rp c d x h.
        u.others p pp rp
          (omega (arith, c, d, count-append p o.freed g.free, count-append p u.freed o.freed))
          (omega (arith, d, count-append p u.freed o.freed)) x h
        ∙ o.others p pp rp (omega (arith, d, count-append p u.freed o.freed)) x h;
  }

  no_round :
      (k : Kmem) (q a : ℕ) (do_free : Bool) → unmap_loop kernel_end 0 k q a a do_free ≡ some k
  unfolding unmap_loop
  no_round k q a do_free = if_false (ltb a a) none (some k) (ground arith)

  -- One round for each page is enough.
  unmap_loop-Unmapped :
      (n : ℕ) (k : Kmem) (g : Ghost) (q a end : ℕ) (do_free : Bool)
      → 0 < kernel_end
      → Inv kernel_end k g
      → g.rank q ≡ 3
      → a % page_size ≡ 0
      → a + n * page_size ≡ end
      → end ≤ max_va
      → Owned k g q a n do_free
      → (k' : Kmem) × (unmap_loop kernel_end n k q a end do_free ≡ some k')
        × Unmapped k g q a n do_free k'
  unmap_loop-Unmapped zero k g q a end do_free pos inv r al last lt own = (
    k,
    ap (λ e. unmap_loop kernel_end 0 k q a e do_free) (omega arith) ∙ no_round k q a do_free,
    record {
      freed = [];
      inv = inv;
      cleared = λ j l. absurd (omega arith);
      outside = λ p va rp low far. refl;
      amount = ground arith;
      which = λ f j l. absurd (omega arith);
      others = λ p pp rp c d x h. refl;
    },
  )
  unmap_loop-Unmapped (suc n) k g q a end do_free pos inv r al last lt own =
      let (k1, o, step) =
        round-Once kernel_end k g q a do_free pos inv r (omega arith)
          (ap (λ va. is_mapped (find 2 k.word q va)) (omega arith) ∙ own.leaf 0 (omega arith))
          (λ f.
            subst
              (λ (va : ℕ).
                (is_page kernel_end (page_of k q va) ≡ true)
                × (g.rank (page_of k q va) ≡ 0)
                × (count (page_of k q va) g.free ≡ 0))
              (omega arith) (own.page f 0 (omega arith))) in
      let (k', ran, u) =
        unmap_loop-Unmapped n k1 (with_free g o.freed) q (a + page_size) end do_free pos o.inv r
          (omega arith) (omega arith) lt (Owned-next r al (omega arith) own o) in
      (k', step n end (omega arith) ∙ ran, Unmapped-next r al (omega arith) o u)

  -- On mapped pages below MAXVA of a well-formed address space, each a used page of its own where
  -- they are to be freed, uvmunmap meets no panic: their entries are 0, just these pages become
  -- free if they are to be, and no other entry and no other used page changes.
  pub uvmunmap-Unmapped :
      (k : Kmem) (g : Ghost) (q va npages : ℕ) (do_free : Bool)
      → 0 < kernel_end
      → Inv kernel_end k g
      → g.rank q ≡ 3
      → va % page_size ≡ 0
      → va + npages * page_size ≤ max_va
      → Owned k g q va npages do_free
      → (k' : Kmem) × (uvmunmap kernel_end k q va npages do_free ≡ some k')
        × Unmapped k g q va npages do_free k'
  unfolding uvmunmap
  uvmunmap-Unmapped k g q va npages do_free pos inv r al lt own =
      let (k', ran, u) =
        unmap_loop-Unmapped npages k g q va ((va + npages * page_size) % 2 ^ 64) do_free pos inv r
          al (omega arith) (omega arith) own in
      (k', if_false (not (va % page_size == 0)) none _ (ground arith) ∙ ran, u)
