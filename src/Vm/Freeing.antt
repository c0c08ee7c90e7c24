-- ===== src/Vm/Freeing.antt =====
-- A page that uvmunmap gives back to the allocator: no table changes.
use os_project.Prelude.{
  ℕ, suc, ◌+◌, ◌*◌, ◌<◌, true, false, ◌≡◌, sym, ap, ◌∙◌, arith, List, [], ◌∷◌, ◌++◌,
}
use os_project.Memory.{page_size, in_range}
use os_project.Kalloc.{Kmem, is_page}
use os_project.Kalloc.Chain.{count, Holds}
use os_project.Vm.{px, pte2pa, is_valid}
use os_project.Vm.Space.{Ghost, find, Inv, apart}
use os_project.Vm.Walking.{Agrees, At}
use os_project.Vm.Entries.{find-frame}

-- The pages `fs` have become free.
abbrev pub with_free : Ghost → List ℕ → Ghost
with_free g fs = record { free = fs ++ g.free; rank = g.rank; place = g.place }

module _ (kernel_end : ℕ) {k k1 : Kmem} {g : Ghost} {pa : ℕ} (inv : Inv kernel_end k g)
    (page : is_page kernel_end pa ≡ true) (data_page : g.rank pa ≡ 0) (used : count pa g.free ≡ 0)
    (holds : Holds kernel_end k1 (pa ∷ g.free))
    (same : (x : ℕ) → in_range pa page_size x ≡ false → k1.word x ≡ k.word x) where
  -- The words of tables are outside of the page.
  kept_word : (q i : ℕ) → 0 < g.rank q → i < 512 → k1.word (q + 8 * i) ≡ k.word (q + 8 * i)
  kept_word q i r lt =
      same _ (
        apart kernel_end q pa i (inv.pages q r).0 page (λ e. absurd (omega (arith, ap g.rank e)))
          lt)

  kept_tables : Agrees g k.word k1.word
  kept_tables q i r lt = kept_word q i (omega arith) lt

  pub freed-Inv : Inv kernel_end k1 (with_free g (pa ∷ []))
  freed-Inv = record {
    chain = holds;
    once = λ q. ground (arith, inv.once q);
    pages = λ q r. ((inv.pages q r).0, ground (arith, (inv.pages q r).1));
    tree = λ q i r lt valid.
        let e = kept_word q i (omega arith) lt in
        let t = inv.tree q i r lt (ap is_valid (sym e) ∙ valid) in
        (ap (λ a. suc (g.rank (pte2pa a))) e ∙ t.0, ap (λ a. g.place (pte2pa a)) e ∙ t.1);
  }

  pub freed-find : (l q va : ℕ) → g.rank q ≡ suc l → find l k1.word q va ≡ find l k.word q va
  freed-find l q va r =
      find-frame kernel_end l k g k1.word q va inv r kept_tables
        λ t rt pt. kept_word t (px 0 va) (omega arith) (omega arith)

  pub freed-At : {l q va e : ℕ} → At g k.word l q va e → At (with_free g (pa ∷ [])) k1.word l q va e
  freed-At at = record {
    table = at.table;
    last = at.last;
    placed = at.placed;
    address = at.address;
    found = λ v agrees. at.found v (λ q i r lt. agrees q i r lt ∙ kept_tables q i r lt);
  }
