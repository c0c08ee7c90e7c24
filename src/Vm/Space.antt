-- ===== src/Vm/Space.antt =====
-- Address spaces as trees of page-table pages that share no page, and what walk does to them.
use os_project.Prelude.{
  ℕ, zero, suc, ◌+◌, ◌*◌, ◌<◌, ◌≤◌, true, false, if◌then◌else◌, if_true, if_false, ◌≡◌, ◌≢◌, refl,
  ap, ◌∙◌, List, arith,
}
use os_project.Memory.{page_size, in_range}
use os_project.Kalloc.{Words, Kmem, is_page}
use os_project.Kalloc.Chain.{count, Holds}
use os_project.Vm.{entry, pa2pte, pte2pa, is_valid}

-- The pages on the free list, the level above 0 of each page-table page (0 for any other page), and
-- a number for the place that the page has in its address space.
pub record Ghost : Type 0 where
  pub free : List ℕ
  pub rank : ℕ → ℕ
  pub place : ℕ → ℕ

-- The entry that a virtual address has in the table of a level, or 0 if a table above is missing.
abbrev pub find : ℕ → Words → ℕ → ℕ → ℕ
find zero w q va = w (entry q 0 va)
find (suc l) w q va =
    let pte = w (entry q (suc l) va) in
    let below = find l w (pte2pa pte) va in if is_valid pte then below else 0

module _ (kernel_end : ℕ) where
  -- Table pages are pages that are not free; a valid entry above the last level leads to a table of
  -- the next level, whose place says by which entry it is reached.
  pub record Inv (k : Kmem) (g : Ghost) : Type 0 where
    pub chain : Holds kernel_end k g.free
    pub once : (q : ℕ) → count q g.free ≤ 1
    pub pages : (q : ℕ) → 0 < g.rank q → (is_page kernel_end q ≡ true) × (count q g.free ≡ 0)
    pub tree :
        (q i : ℕ)
        → 1 < g.rank q
        → i < 512
        → is_valid (k.word (q + 8 * i)) ≡ true
        → (suc (g.rank (pte2pa (k.word (q + 8 * i)))) ≡ g.rank q)
          × (g.place (pte2pa (k.word (q + 8 * i))) ≡ g.place q * 512 + i)

  -- Tables keep their places and their links, and every address its entry; a page that is neither free nor a table
  -- stays so, with its contents.
  pub record Kept (k : Kmem) (g : Ghost) (k' : Kmem) (g' : Ghost) : Type 0 where
    pub tables : (q : ℕ) → 0 < g.rank q → (g'.rank q ≡ g.rank q) × (g'.place q ≡ g.place q)
    pub entries : (l q va : ℕ) → g.rank q ≡ suc l → find l k'.word q va ≡ find l k.word q va
    pub links :
        (q i : ℕ)
        → 1 < g.rank q
        → i < 512
        → is_valid (k.word (q + 8 * i)) ≡ true
        → k'.word (q + 8 * i) ≡ k.word (q + 8 * i)
    pub others :
        (q : ℕ)
        → is_page kernel_end q ≡ true
        → g.rank q ≡ 0
        → count q g.free ≡ 0
        → (g'.rank q ≡ 0)
          × (count q g'.free ≡ 0)
          × ((x : ℕ) → in_range q page_size x ≡ true → k'.word x ≡ k.word x)

  pub Kept-refl : (k : Kmem) (g : Ghost) → Kept k g k g
  Kept-refl k g = record {
    tables = λ q h. (refl, refl);
    entries = λ l q va h. refl;
    links = λ q i r lt v. refl;
    others = λ q p r c. (r, c, λ x h. refl);
  }

  pub Kept-trans : {k l m : Kmem} {g h i : Ghost} → Kept k g l h → Kept l h m i → Kept k g m i
  Kept-trans a b = record {
    tables = λ q lt.
        let (x, y) = a.tables q lt in let (u, v) = b.tables q (omega arith) in (u ∙ x, v ∙ y);
    entries = λ l q va e. b.entries l q va ((a.tables q (omega arith)).0 ∙ e) ∙ a.entries l q va e;
    links = λ q i r lt v.
        let first = a.links q i r lt v in
        b.links q i (omega (arith, (a.tables q (omega arith)).0)) lt (ap is_valid first ∙ v)
        ∙ first;
    others = λ q p r c.
        let (r', c', same) = a.others q p r c in
        let (r'', c'', same') = b.others q p r' c' in (r'', c'', λ x h. same' x h ∙ same x h);
  }

  -- A page of zeros maps nothing.
  pub find-zero :
      (l : ℕ) (w : Words) (q va : ℕ)
      → ((x : ℕ) → in_range q page_size x ≡ true → w x ≡ 0)
      → find l w q va ≡ 0
  find-zero zero w q va z = z (entry q 0 va) (ground arith)
  find-zero (suc l) w q va z =
      let e : w (entry q (suc l) va) ≡ 0 = z _ (ground arith) in
      if_false (is_valid (w (entry q (suc l) va))) _ 0 (ground arith)

  pub find_valid :
      (l : ℕ) (w : Words) (q va : ℕ)
      → is_valid (w (entry q (suc l) va)) ≡ true
      → find (suc l) w q va ≡ find l w (pte2pa (w (entry q (suc l) va))) va
  find_valid l w q va e = if_true (is_valid (w (entry q (suc l) va))) _ 0 e

  pub find_invalid :
      (l : ℕ) (w : Words) (q va : ℕ)
      → is_valid (w (entry q (suc l) va)) ≡ false
      → find (suc l) w q va ≡ 0
  find_invalid l w q va e = if_false (is_valid (w (entry q (suc l) va))) _ 0 e

  abbrev pub IsPage : ℕ → Type 0
  IsPage q = is_page kernel_end q ≡ true

  -- `pte2pa` undoes `pa2pte` on a page.
  pub pte2pa-pa2pte : (r : ℕ) → IsPage r → pte2pa (pa2pte r + 1) ≡ r
  pte2pa-pa2pte r p = ground arith

  -- Words of different pages, and of different entries, are different words.
  pub apart :
      (q x i : ℕ) → IsPage q → IsPage x → q ≢ x → i < 512 → in_range x page_size (q + 8 * i) ≡ false
  apart q x i hq hx ne lt = ground arith

  pub same_entry :
      (q q' i j : ℕ)
      → IsPage q
      → IsPage q'
      → i < 512
      → j < 512
      → q + 8 * i ≡ q' + 8 * j
      → (q ≡ q') × (i ≡ j)
  same_entry q q' i j hq hq' hi hj e = ground arith
