-- ===== src/Vm/Growth.antt =====
-- A table page that walk adds to an address space.
use os_project.Prelude.{
  ℕ, zero, suc, ◌+◌, ◌-◌, ◌*◌, ◌<◌, true, false, ◌==◌, if◌then◌else◌, Bool-cases, ltb, ◌≡◌, ◌≢◌,
  ◌⊎◌, refl, sym, ap, ◌∙◌, inl, inr, List, [], ◌∷◌, arith,
}
use mathlib.Core.Path.{subst}
use os_project.Memory.{page_size, in_range}
use os_project.Kalloc.{Words, Kmem, fill, put_word, is_page, kalloc}
use os_project.Kalloc.Chain.{count, FreeList-frame, Holds, kalloc-cons, kalloc-nil}
use os_project.Vm.Space.{
  Ghost, find, Inv, Kept, IsPage, find_valid, find_invalid, find-zero, pte2pa-pa2pte, apart,
  same_entry,
}
use os_project.Vm.{px, entry, pa2pte, pte2pa, is_valid, clear, store}

-- kalloc for a missing table, and the link to it.
abbrev pub linked_new : Kmem → ℕ → Kmem
linked_new k e = let r = kalloc k in store (clear r.1 r.0) e (pa2pte r.0 + 1)

abbrev grown_ghost : Ghost → List ℕ → ℕ → ℕ → ℕ → Ghost
grown_ghost g xs x q i = record {
  free = xs;
  rank = λ y. if y == x then g.rank q - 1 else g.rank y;
  place = λ y. if y == x then g.place q * 512 + i else g.place y;
}

module _ (kernel_end : ℕ) where
  -- A new page of zeros `x` below entry `i` of the table `q`.
  record Grown (w v : Words) (x q i : ℕ) : Type 0 where
    zeros : (y : ℕ) → in_range x page_size y ≡ true → v y ≡ 0
    linked : v (q + 8 * i) ≡ pa2pte x + 1
    same : (y : ℕ) → in_range x page_size y ≡ false → y ≢ q + 8 * i → v y ≡ w y

  module _ (k : Kmem) (g : Ghost) (inv : Inv kernel_end k g) (x : ℕ) (v : Words) (q i : ℕ)
      (page : IsPage kernel_end x) (fresh : g.rank x ≡ 0) (upper : 1 < g.rank q) (index : i < 512)
      (unlinked : is_valid (k.word (q + 8 * i)) ≡ false) (grown : Grown k.word v x q i) where
    fresh_ne : (q' : ℕ) → 0 < g.rank q' → q' ≢ x
    fresh_ne q' r e = absurd (omega (arith, ap g.rank e))

    -- What a table has in an entry after the growth.
    entry_after :
        (q' j : ℕ)
        → 0 < g.rank q'
        → j < 512
        → ((q' ≡ q) × (j ≡ i)) ⊎ (v (q' + 8 * j) ≡ k.word (q' + 8 * j))
    entry_after q' j r lt = elim (Bool-cases (q' + 8 * j == q + 8 * i)) [
      | inl e ↦ inl (
          same_entry kernel_end q' q j i (inv.pages q' r).0 (inv.pages q (omega arith)).0 lt index
            (ground arith))
      | inr e ↦ inr (
          grown.same _ (apart kernel_end q' x j (inv.pages q' r).0 page (fresh_ne q' r) lt)
            (ground arith))
    ]

    -- The new page maps nothing, as the missing one did.
    find_below :
        (l q' va : ℕ)
        → q' ≡ q
        → px (suc l) va ≡ i
        → find (suc l) v q' va ≡ find (suc l) k.word q' va
    find_below l q' va e f =
        let at : q' + 8 * px (suc l) va ≡ q + 8 * i = omega arith in
        let new : v (q' + 8 * px (suc l) va) ≡ pa2pte x + 1 = ap v at ∙ grown.linked in
        find_valid kernel_end l v q' va (ground arith)
        ∙ ap (λ c. find l v (pte2pa c) va) new
        ∙ ap (λ c. find l v c va) (pte2pa-pa2pte kernel_end x page)
        ∙ find-zero kernel_end l v x va grown.zeros
        ∙ sym (find_invalid kernel_end l k.word q' va (ap (λ a. is_valid (k.word a)) at ∙ unlinked))

    find_after : (l q' va : ℕ) → g.rank q' ≡ suc l → find l v q' va ≡ find l k.word q' va
    find_after zero q' va r = elim (entry_after q' (px 0 va) (omega arith) (omega arith)) [
      | inl (e, f) ↦ absurd (omega (arith, ap g.rank e))
      | inr e ↦ e
    ]
    find_after (suc l) q' va r = elim (entry_after q' (px (suc l) va) (omega arith) (omega arith)) [
      | inl (e, f) ↦ find_below l q' va e f
      | inr e ↦ elim (Bool-cases (is_valid (k.word (entry q' (suc l) va)))) [
        | inl h ↦
            find_valid kernel_end l v q' va (ap is_valid e ∙ h)
            ∙ ap (λ c. find l v (pte2pa c) va) e
            ∙ find_after l _ va
                (omega (arith, (inv.tree q' (px (suc l) va) (omega arith) (omega arith) h).0))
            ∙ sym (find_valid kernel_end l k.word q' va h)
        | inr h ↦
            find_invalid kernel_end l v q' va (ap is_valid e ∙ h)
            ∙ sym (find_invalid kernel_end l k.word q' va h)
      ]
    ]

  page_zero :
      (w : Words) (r e c y : ℕ)
      → in_range r page_size y ≡ true
      → y ≢ e
      → put_word (fill w r 0) e c y ≡ 0
  unfolding put_word fill
  page_zero w r e c y inside ne = ground arith

  page_far :
      (w : Words) (r e c y : ℕ)
      → in_range r page_size y ≡ false
      → y ≢ e
      → put_word (fill w r 0) e c y ≡ w y
  unfolding put_word fill
  page_far w r e c y inside ne = ground arith

  put_here : (w : Words) (e c : ℕ) → put_word w e c e ≡ c
  unfolding put_word
  put_here w e c = ground arith

  -- The memory behind kalloc, memset and the new entry.
  linked_new-Grown :
      (k : Kmem) (x q i : ℕ) (xs : List ℕ)
      → Holds kernel_end k (x ∷ xs)
      → count x xs ≡ 0
      → in_range x page_size (q + 8 * i) ≡ false
      → Grown k.word (linked_new k (q + 8 * i)).word x q i
        × ((linked_new k (q + 8 * i)).freelist ≡ (kalloc k).1.freelist)
        × ((kalloc k).0 ≡ x)
        × Holds kernel_end (kalloc k).1 xs
  linked_new-Grown k x q i xs h out far =
      let (first, rest, same) = kalloc-cons kernel_end k x xs h out in
      (
        record {
          zeros = λ y e.
              page_zero (kalloc k).1.word (kalloc k).0 _ _ y
                (ap (λ r. in_range r page_size y) first ∙ e) (λ eq. ground (arith, far, e, eq));
          linked = put_here _ _ _ ∙ ap (λ r. pa2pte r + 1) first;
          same = λ y e ne.
              page_far (kalloc k).1.word (kalloc k).0 _ _ y
                (ap (λ r. in_range r page_size y) first ∙ e) ne
              ∙ same y e;
        },
        refl,
        first,
        rest,
      )

  module _ (k k' : Kmem) (g : Ghost) (inv : Inv kernel_end k g) (x q i : ℕ) (xs : List ℕ)
      (page : IsPage kernel_end x) (free : g.free ≡ x ∷ xs) (upper : 1 < g.rank q) (index : i < 512)
      (unlinked : is_valid (k.word (q + 8 * i)) ≡ false) (grown : Grown k.word k'.word x q i) where
    counted : (p : ℕ) → count p g.free ≡ (if x == p then 1 else 0) + count p xs
    counted p = ap (count p) free

    new_rank : g.rank x ≡ 0
    new_rank = elim (Bool-cases (ltb 0 (g.rank x))) [
      | inl e ↦ absurd (ground (arith, (inv.pages x (ground arith)).1, counted x))
      | inr e ↦ ground arith
    ]

    -- The new page is reached by the new entry, and reaches nothing.
    grown_tree :
        (p j : ℕ)
        → p ≢ x
        → 1 < g.rank p
        → j < 512
        → is_valid (k'.word (p + 8 * j)) ≡ true
        → let c = pte2pa (k'.word (p + 8 * j)) in
          ((c ≡ x) × (p ≡ q) × (j ≡ i))
          ⊎ ((c ≢ x) × (suc (g.rank c) ≡ g.rank p) × (g.place c ≡ g.place p * 512 + j))
    grown_tree p j ne lt jlt valid =
        elim (entry_after k g inv x k'.word q i page new_rank upper index unlinked grown p j
          (omega arith) jlt) [
            | inl (e, f) ↦
                let new : k'.word (p + 8 * j) ≡ pa2pte x + 1 =
                  ap k'.word (omega arith) ∙ grown.linked in
                inl (ap pte2pa new ∙ pte2pa-pa2pte kernel_end x page, e, f)
            | inr e ↦
                let old = inv.tree p j lt jlt (ap is_valid (sym e) ∙ valid) in
                let same = ap pte2pa e in
                inr (
                  λ h. absurd (omega (arith, old.0, new_rank, ap g.rank (sym same ∙ h))),
                  ap (λ c. suc (g.rank c)) same ∙ old.0,
                  ap g.place same ∙ old.1,
                )
          ]

    grown-Inv : Holds kernel_end k' xs → Inv kernel_end k' (grown_ghost g xs x q i)
    grown-Inv h = record {
      chain = h;
      once = λ p. omega (arith, counted p, inv.once p);
      pages = λ p lt. elim (Bool-cases (p == x)) [
        | inl e ↦ (
          subst (λ (y : ℕ). is_page kernel_end y ≡ true) (ground arith) page,
          ground (arith, counted p, inv.once p),
        )
        | inr e ↦ (
          (inv.pages p (ground arith)).0,
          ground (arith, counted p, (inv.pages p (ground arith)).1),
        )
      ];
      tree = λ p j lt jlt valid. elim (Bool-cases (p == x)) [
        | inl e ↦ absurd (ground (arith, grown.zeros (p + 8 * j) (ground arith)))
        | inr e ↦ ground (arith, grown_tree p j (ground arith) (ground arith) jlt valid)
      ];
    }

    grown-Kept : Kept kernel_end k g k' (grown_ghost g xs x q i)
    grown-Kept = record {
      tables = λ p lt. ground (arith, new_rank);
      entries = find_after k g inv x k'.word q i page new_rank upper index unlinked grown;
      links = λ p j r lt valid.
          elim (entry_after k g inv x k'.word q i page new_rank upper index unlinked grown p j
            (omega arith) lt) [
              | inl (e, f) ↦
                  let at : p + 8 * j ≡ q + 8 * i = omega arith in
                  absurd (ground (arith, ap (λ a. is_valid (k.word a)) at))
              | inr e ↦ e
            ];
      others = λ p pp r c. (
        ground (arith, counted p),
        ground (arith, counted p),
        λ y e. grown.same y (ground (arith, counted p)) (λ f. absurd (
            ground (
              arith,
              apart kernel_end q p i (inv.pages q (omega arith)).0 pp
                  (λ h. absurd (omega (arith, ap g.rank h))) index,
            ))),
      );
    }

  -- kalloc for a missing table either finds no page, or adds a table to the space.
  pub linked_new-Kept :
      (k : Kmem) (g : Ghost) (q i : ℕ)
      → Inv kernel_end k g
      → 1 < g.rank q
      → i < 512
      → is_valid (k.word (q + 8 * i)) ≡ false
      → (kalloc k ≡ (0, k))
        ⊎ ((kalloc k).0 ≢ 0)
          × (g' : Ghost) × Inv kernel_end (linked_new k (q + 8 * i)) g'
          × Kept kernel_end k g (linked_new k (q + 8 * i)) g'
          × (suc (g'.rank (kalloc k).0) ≡ g.rank q)
          × (g'.place (kalloc k).0 ≡ g.place q * 512 + i)
          × ((linked_new k (q + 8 * i)).word (q + 8 * i) ≡ pa2pte (kalloc k).0 + 1)
          × IsPage kernel_end (kalloc k).0
  unfolding put_word
  linked_new-Kept k g q i inv upper index unlinked = by_list g.free refl
    where
      by_list :
          (fs : List ℕ)
          → g.free ≡ fs
          → (kalloc k ≡ (0, k))
            ⊎ ((kalloc k).0 ≢ 0)
              × (g' : Ghost) × Inv kernel_end (linked_new k (q + 8 * i)) g'
              × Kept kernel_end k g (linked_new k (q + 8 * i)) g'
              × (suc (g'.rank (kalloc k).0) ≡ g.rank q)
              × (g'.place (kalloc k).0 ≡ g.place q * 512 + i)
              × ((linked_new k (q + 8 * i)).word (q + 8 * i) ≡ pa2pte (kalloc k).0 + 1)
              × IsPage kernel_end (kalloc k).0
      by_list [] e = inl (kalloc-nil kernel_end k (subst (Holds kernel_end k) e inv.chain))
      by_list (x ∷ xs) e =
          let h : Holds kernel_end k (x ∷ xs) = subst (Holds kernel_end k) e inv.chain in
          let far =
            apart kernel_end q x i (inv.pages q (omega arith)).0 h.2
              (λ f. ground (arith, (inv.pages q (omega arith)).1, ap (count q) e)) index in
          let (grown, _, first, rest) =
            linked_new-Grown k x q i xs h (ground (arith, inv.once x, ap (count x) e)) far in
          let h' : Holds kernel_end (linked_new k (q + 8 * i)) xs =
            FreeList-frame kernel_end xs (kalloc k).1.word (linked_new k (q + 8 * i)).word
              (kalloc k).1.freelist rest
              (λ y pg c.
                page_far (kalloc k).1.word (kalloc k).0 _ _ y
                  (ground (arith, first, h.2, ap (count y) e, inv.once y))
                  (λ f. ground (arith, (inv.pages q (omega arith)), ap (count q) e))) in
          let iv =
            grown-Inv k (linked_new k (q + 8 * i)) g inv x q i xs h.2 e upper index unlinked grown
              h' in
          inr (
            λ z. h.1 (sym first ∙ z),
            grown_ghost g xs x q i,
            iv,
            grown-Kept k (linked_new k (q + 8 * i)) g inv x q i xs h.2 e upper index unlinked grown,
            ground (arith, first),
            ground (arith, first),
            grown.linked ∙ ap (λ r. pa2pte r + 1) (sym first),
            rw first h.2,
          )
