-- ===== src/Vm/Within.antt =====
-- Changes that stay within some pages of one address space.
use os_project.Prelude.{ℕ, ◌/◌, ◌<◌, ◌≤◌, true, ◌≡◌, ◌≢◌, ◌⊎◌, refl, sym, ◌∙◌, inl, inr, arith}
use os_project.Memory.{page_size, in_range}
use os_project.Kalloc.{Kmem, put_word, is_page}
use os_project.Kalloc.Chain.{count}
use os_project.Vm.{store, max_va}
use os_project.Vm.Space.{Ghost, find, Inv, Kept}
use os_project.Vm.Walking.{At}
use os_project.Vm.Entries.{put_elsewhere, put-Inv, put_other, other_entry}

module _ (kernel_end : ℕ) where
  -- Of the space of `q` at most the pages from `lo` to `hi` have new entries. Tables keep their
  -- places, and a page that is neither free nor a table keeps its contents.
  pub record Within (lo hi q : ℕ) (k : Kmem) (g : Ghost) (k' : Kmem) (g' : Ghost) : Type 0 where
    pub inv : Inv kernel_end k' g'
    pub tables : (p : ℕ) → 0 < g.rank p → (g'.rank p ≡ g.rank p) × (g'.place p ≡ g.place p)
    pub outside :
        (p va : ℕ)
        → g.rank p ≡ 3
        → va < max_va
        → (g.place p ≢ g.place q) ⊎ (va / page_size < lo) ⊎ (hi ≤ va / page_size)
        → find 2 k'.word p va ≡ find 2 k.word p va
    pub others :
        (p : ℕ)
        → is_page kernel_end p ≡ true
        → g.rank p ≡ 0
        → count p g.free ≡ 0
        → (g'.rank p ≡ 0)
          × (count p g'.free ≡ 0)
          × ((x : ℕ) → in_range p page_size x ≡ true → k'.word x ≡ k.word x)

  pub Within-Kept :
      {lo hi q : ℕ} {k k' : Kmem} {g g' : Ghost}
      → Inv kernel_end k' g'
      → Kept kernel_end k g k' g'
      → Within lo hi q k g k' g'
  Within-Kept inv kept = record {
    inv = inv;
    tables = kept.tables;
    outside = λ p va r lt far. kept.entries 2 p va r;
    others = kept.others;
  }

  pub Within-trans :
      {lo hi q : ℕ} {k l m : Kmem} {g h i : Ghost}
      → g.rank q ≡ 3
      → Within lo hi q k g l h
      → Within lo hi q l h m i
      → Within lo hi q k g m i
  Within-trans {q} rq a b = record {
    inv = b.inv;
    tables = λ p lt.
        let (x, y) = a.tables p lt in let (u, v) = b.tables p (omega arith) in (u ∙ x, v ∙ y);
    outside = λ p va r lt far.
        let (rank, place) = a.tables p (omega arith) in
        let root = a.tables q (omega arith) in
        b.outside p va (rank ∙ r) lt
          (elim far [ inl ne ↦ inl (λ e. ne (sym place ∙ e ∙ root.1)) | inr o ↦ inr o ])
        ∙ a.outside p va r lt far;
    others = λ p pp r c.
        let (r', c', same) = a.others p pp r c in
        let (r'', c'', same') = b.others p pp r' c' in (r'', c'', λ x h. same' x h ∙ same x h);
  }

  pub Within-widen :
      {lo hi lo' hi' q : ℕ} {k k' : Kmem} {g g' : Ghost}
      → lo ≤ lo'
      → hi' ≤ hi
      → Within lo' hi' q k g k' g'
      → Within lo hi q k g k' g'
  Within-widen low high w = record {
    inv = w.inv;
    tables = w.tables;
    outside = λ p va r lt far. w.outside p va r lt (elim far [
      | inl ne ↦ inl ne
      | inr o ↦ inr (elim o [ inl x ↦ inl (omega arith) | inr x ↦ inr (omega arith) ])
    ]);
    others = w.others;
  }

  -- A new value in the entry of `va`.
  pub Within-put :
      {lo hi q va e : ℕ} {k : Kmem} {g : Ghost} (c : ℕ)
      → Inv kernel_end k g
      → At g k.word 2 q va e
      → va < max_va
      → lo ≤ va / page_size
      → va / page_size < hi
      → Within lo hi q k g (store k e c) g
  unfolding put_word
  Within-put {q} {va} {k} {g} c inv at lt low high = record {
    inv = put-Inv kernel_end inv at c;
    tables = λ p r. (refl, refl);
    outside = λ p va' r lt' far. put_other kernel_end inv at c 2 p va' r (
        other_entry (g.place q) (g.place p) va va' lt lt' (elim far [
          | inl ne ↦ inl ne
          | inr o ↦ inr (λ e. elim o [ inl x ↦ omega arith | inr x ↦ omega arith ])
        ]));
    others = λ p pp r f. (r, f, λ x h. put_elsewhere kernel_end inv at c p x pp r h);
  }
