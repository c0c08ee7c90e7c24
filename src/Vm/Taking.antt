-- ===== src/Vm/Taking.antt =====
-- One round of uvmunmap.
use os_project.Prelude.{
  ℕ, suc, ◌+◌, ◌/◌, ◌<◌, Bool, true, false, ◌&&◌, not, ◌==◌, some, ◌≡◌, ◌≢◌, ◌⊎◌, refl, sym, ap,
  ◌∙◌, inl, inr, arith, List, [], ◌∷◌, if◌then◌else◌,
}
use os_project.Memory.{page_size, in_range}
use os_project.Kalloc.{Kmem, is_page, kfree}
use os_project.Kalloc.Chain.{count, kfree-Holds}
use os_project.Vm.{pte2pa, pte_flags, is_valid, store, max_va, descend, unmap_loop}
use os_project.Vm.Space.{Ghost, find, Inv}
use os_project.Vm.Walking.{At, look_up, walk_lem}
use os_project.Vm.Freeing.{with_free, freed-Inv, freed-find, freed-At}
use os_project.Vm.Entries.{put-Inv, put_self, put_other, put_elsewhere, other_entry}

-- The page that a virtual address lies in, by its entry.
abbrev pub page_of : Kmem → ℕ → ℕ → ℕ
page_of k q va = pte2pa (find 2 k.word q va)

abbrev pub is_mapped : ℕ → Bool
is_mapped pte = is_valid pte && not (pte_flags pte == 1)

module _ (kernel_end : ℕ) where
  -- One page taken out.
  pub record Once (k : Kmem) (g : Ghost) (q a : ℕ) (do_free : Bool) (k' : Kmem) : Type 0 where
    pub freed : List ℕ
    pub inv : Inv kernel_end k' (with_free g freed)
    pub cleared : find 2 k'.word q a ≡ 0
    pub outside :
        (p va : ℕ)
        → g.rank p ≡ 3
        → va < max_va
        → (g.place p ≢ g.place q) ⊎ (va / page_size ≢ a / page_size)
        → find 2 k'.word p va ≡ find 2 k.word p va
    pub which : freed ≡ (if do_free then page_of k q a ∷ [] else [])
    pub others :
        (p : ℕ)
        → is_page kernel_end p ≡ true
        → g.rank p ≡ 0
        → count p freed ≡ 0
        → (x : ℕ) → in_range p page_size x ≡ true
        → k'.word x ≡ k.word x

  round_lem :
      (f : ℕ) (k k1 : Kmem) (q a end : ℕ) (do_free : Bool)
      → a < max_va
      → a < end
      → let e = (descend 2 k q a false).0 in
        (e == 0) ≡ false
        → is_mapped (k.word e) ≡ true
        → (if do_free then kfree kernel_end k (pte2pa (k.word e)) else some k) ≡ some k1
        → unmap_loop kernel_end (suc f) k q a end do_free
          ≡ unmap_loop kernel_end f (store k1 e 0) q (a + page_size) end do_free
  unfolding unmap_loop
  round_lem f k k1 q a end do_free lt more some_entry leaf given =
      ground (arith, walk_lem k q a false lt)

  Once-put :
      {k k1 : Kmem} {g : Ghost} {q a e : ℕ} (do_free : Bool) (fs : List ℕ)
      → g.rank q ≡ 3
      → a < max_va
      → Inv kernel_end k1 (with_free g fs)
      → At (with_free g fs) k1.word 2 q a e
      → ((p va : ℕ) → g.rank p ≡ 3 → find 2 k1.word p va ≡ find 2 k.word p va)
      → fs ≡ (if do_free then page_of k q a ∷ [] else [])
      → ((p : ℕ)
          → is_page kernel_end p ≡ true
          → count p fs ≡ 0
          → (x : ℕ) → in_range p page_size x ≡ true
          → k1.word x ≡ k.word x)
      → Once k g q a do_free (store k1 e 0)
  Once-put {k} {k1} {g} {q} {a} do_free fs r lt inv at same which rest = record {
    freed = fs;
    inv = put-Inv kernel_end inv at 0;
    cleared = put_self kernel_end inv at 0;
    outside = λ p va rp low far.
        put_other kernel_end inv at 0 2 p va rp
          (other_entry (g.place q) (g.place p) a va lt low far)
        ∙ same p va rp;
    which = which;
    others = λ p pp rp c x h. put_elsewhere kernel_end inv at 0 p x pp rp h ∙ rest p pp c x h;
  }

  pages_apart :
      (p p' x : ℕ)
      → is_page kernel_end p ≡ true
      → is_page kernel_end p' ≡ true
      → count p (p' ∷ []) ≡ 0
      → in_range p page_size x ≡ true
      → in_range p' page_size x ≡ false
  pages_apart p p' x h h' c e = ground arith

  -- A round of uvmunmap on a page that is mapped, and in use where it is given back.
  pub round-Once :
      (k : Kmem) (g : Ghost) (q a : ℕ) (do_free : Bool)
      → 0 < kernel_end
      → Inv kernel_end k g
      → g.rank q ≡ 3
      → a < max_va
      → is_mapped (find 2 k.word q a) ≡ true
      → (do_free ≡ true
          → (is_page kernel_end (page_of k q a) ≡ true)
            × (g.rank (page_of k q a) ≡ 0)
            × (count (page_of k q a) g.free ≡ 0))
      → (k' : Kmem) × Once k g q a do_free k'
        × ((f end : ℕ)
            → a < end
            → unmap_loop kernel_end (suc f) k q a end do_free
              ≡ unmap_loop kernel_end f k' q (a + page_size) end do_free)
  round-Once k g q a do_free pos inv r lt leaf in_use =
      let (_, ends) = look_up kernel_end 2 k g q a inv r in
      elim ends [
        | inl (z, f) ↦ absurd (ground (arith, leaf, f))
        | inr at ↦
            let seen : find 2 k.word q a ≡ k.word (descend 2 k q a false).0 =
              at.found k.word (λ p i rp l. refl) in
            let some_entry : ((descend 2 k q a false).0 == 0) ≡ false =
              ground (arith, (inv.pages at.table (omega (arith, at.last))).0, at.address) in
            by_flag do_free in_use at seen some_entry
      ]
    where
      by_flag :
          (b : Bool)
          → (b ≡ true
              → (is_page kernel_end (page_of k q a) ≡ true)
                × (g.rank (page_of k q a) ≡ 0)
                × (count (page_of k q a) g.free ≡ 0))
          → At g k.word 2 q a (descend 2 k q a false).0
          → find 2 k.word q a ≡ k.word (descend 2 k q a false).0
          → ((descend 2 k q a false).0 == 0) ≡ false
          → (k' : Kmem) × Once k g q a b k'
            × ((f end : ℕ)
                → a < end
                → unmap_loop kernel_end (suc f) k q a end b
                  ≡ unmap_loop kernel_end f k' q (a + page_size) end b)
      by_flag false in_use at seen some_entry = (
        store k (descend 2 k q a false).0 0,
        Once-put false [] r lt inv at (λ p va rp. refl) refl (λ p pp c x h. refl),
        λ f end more.
            round_lem f k k q a end false lt more some_entry (ap is_mapped (sym seen) ∙ leaf) refl,
      )
      by_flag true in_use at seen some_entry =
          let (page, data_page, used) = in_use refl in
          let (k1, freed, holds, same) =
            kfree-Holds kernel_end k (page_of k q a) g.free pos page inv.chain used in
          (
            store k1 (descend 2 k q a false).0 0,
            Once-put true (page_of k q a ∷ []) r lt
                (freed-Inv kernel_end inv page data_page used holds same)
                (freed-At kernel_end inv page data_page used holds same at)
                (λ p va rp. freed-find kernel_end inv page data_page used holds same 2 p va rp) refl
                (λ p pp c x h. same x (pages_apart p (page_of k q a) x pp page c h)),
            λ f end more.
                round_lem f k k1 q a end true lt more some_entry (ap is_mapped (sym seen) ∙ leaf)
                  (ap (λ p. kfree kernel_end k (pte2pa p)) (sym seen) ∙ freed),
          )
