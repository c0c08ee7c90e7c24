-- ===== src/Vm/Entries.antt =====
-- A write to the entry of one address: the other addresses keep theirs.
use os_project.Prelude.{
  ℕ, zero, suc, ◌/◌, ◌<◌, true, ◌==◌, Bool-cases, ◌≡◌, ◌≢◌, ◌⊎◌, refl, sym, ap, ◌∙◌, inl, inr,
  arith,
}
use os_project.Kalloc.{Words, Kmem, put_word}
use os_project.Memory.{page_size, in_range}
use os_project.Kalloc.Chain.{count, FreeList-frame}
use os_project.Vm.{px, entry, pte2pa, is_valid, store, max_va}
use os_project.Vm.Space.{Ghost, find, Inv, find_valid, find_invalid, same_entry, IsPage, apart}
use os_project.Vm.Walking.{path, Agrees, At}

module _ (kernel_end : ℕ) where
  -- The entry of an address is read in the last table on its way.
  pub find-frame :
      (l : ℕ) (k : Kmem) (g : Ghost) (v : Words) (q va : ℕ)
      → Inv kernel_end k g
      → g.rank q ≡ suc l
      → Agrees g k.word v
      → ((t : ℕ)
          → g.rank t ≡ 1
          → g.place t ≡ path l (g.place q) va
          → v (entry t 0 va) ≡ k.word (entry t 0 va))
      → find l v q va ≡ find l k.word q va
  find-frame zero k g v q va inv r agrees same = same q r refl
  find-frame (suc l) k g v q va inv r agrees same =
      let at = agrees q (px (suc l) va) (omega arith) (omega arith) in
      elim (Bool-cases (is_valid (k.word (entry q (suc l) va)))) [
        | inl e ↦
            let t = inv.tree q (px (suc l) va) (omega arith) (omega arith) e in
            find_valid kernel_end l v q va (ap is_valid at ∙ e)
            ∙ ap (λ c. find l v (pte2pa c) va) at
            ∙ find-frame l k g v _ va inv (omega (arith, t.0)) agrees
                (λ u ru pu. same u ru (pu ∙ ap (λ p. path l p va) t.1))
            ∙ sym (find_valid kernel_end l k.word q va e)
        | inr e ↦
            find_invalid kernel_end l v q va (ap is_valid at ∙ e)
            ∙ sym (find_invalid kernel_end l k.word q va e)
      ]

  put_ne : (w : Words) (e c y : ℕ) → y ≢ e → put_word w e c y ≡ w y
  unfolding put_word
  put_ne w e c y ne = ground arith

  put_eq : (w : Words) (e c : ℕ) → put_word w e c e ≡ c
  unfolding put_word
  put_eq w e c = ground arith

  module _ {k : Kmem} {g : Ghost} {l q va e : ℕ} (inv : Inv kernel_end k g)
      (at : At g k.word l q va e) where
    -- The entry is in no table of a higher level.
    above : (c : ℕ) → Agrees g k.word (put_word k.word e c)
    above c p i r lt = put_ne k.word e c _ λ h. absurd (
        omega (
          arith,
          at.last,
          ap g.rank
              (same_entry kernel_end p at.table i (px 0 va) (inv.pages p (omega arith)).0
                (inv.pages at.table (omega (arith, at.last))).0 lt (omega arith)
                (h ∙ at.address)).0,
        ))

    pub put-Inv : (c : ℕ) → Inv kernel_end (store k e c) g
    put-Inv c = record {
      chain =
          FreeList-frame kernel_end g.free k.word (put_word k.word e c) k.freelist inv.chain
            λ y page free. put_ne k.word e c y λ h.
              let own = inv.pages at.table (omega (arith, at.last)) in
              let same =
                (same_entry kernel_end y at.table 0 (px 0 va) page own.0 (omega arith) (omega arith)
                  (omega (arith, h, at.address))).0 in
              absurd (omega (arith, free, own.1, ap (λ p. count p g.free) same));
      once = inv.once;
      pages = inv.pages;
      tree = λ p i r lt valid.
          let s = above c p i r lt in
          let t = inv.tree p i r lt (ap is_valid (sym s) ∙ valid) in
          (ap (λ a. suc (g.rank (pte2pa a))) s ∙ t.0, ap (λ a. g.place (pte2pa a)) s ∙ t.1);
    }

    pub put_self : (c : ℕ) → find l (put_word k.word e c) q va ≡ c
    put_self c = at.found (put_word k.word e c) (above c) ∙ put_eq k.word e c

    pub put_other :
        (c m p va' : ℕ)
        → g.rank p ≡ suc m
        → (path m (g.place p) va' ≢ path l (g.place q) va) ⊎ (px 0 va' ≢ px 0 va)
        → find m (put_word k.word e c) p va' ≡ find m k.word p va'
    put_other c m p va' r ne =
        find-frame m k g (put_word k.word e c) p va' inv r (above c) λ t rt pt.
          put_ne k.word e c _ λ h.
            let eq =
              same_entry kernel_end t at.table (px 0 va') (px 0 va) (inv.pages t (omega arith)).0
                (inv.pages at.table (omega (arith, at.last))).0 (omega arith) (omega arith)
                (h ∙ at.address) in
            elim ne [ inl n ↦ n (sym pt ∙ ap g.place eq.0 ∙ at.placed) | inr n ↦ n eq.1 ]

    -- The entry is in no page that is not a table.
    pub put_elsewhere :
        (c p x : ℕ)
        → IsPage kernel_end p
        → g.rank p ≡ 0
        → in_range p page_size x ≡ true
        → put_word k.word e c x ≡ k.word x
    put_elsewhere c p x page r h = put_ne k.word e c x λ eq.
        let own = (inv.pages at.table (omega (arith, at.last))).0 in
        let far =
          apart kernel_end at.table p (px 0 va) own page
            (λ same. absurd (omega (arith, at.last, ap g.rank same))) (omega arith) in
        absurd (ground (arith, h, ap (in_range p page_size) (eq ∙ at.address), far))

-- Different address spaces, or different pages of one, have different entries.
pub other_entry :
    (p p' va va' : ℕ)
    → va < max_va
    → va' < max_va
    → (p' ≢ p) ⊎ (va' / page_size ≢ va / page_size)
    → (path 2 p' va' ≢ path 2 p va) ⊎ (px 0 va' ≢ px 0 va)
other_entry p p' va va' lt lt' ne = elim (Bool-cases (px 0 va' == px 0 va)) [
  | inl e ↦ inl λ h. elim ne [ inl n ↦ n (omega arith) | inr n ↦ n (ground arith) ]
  | inr e ↦ inr (ground arith)
]
