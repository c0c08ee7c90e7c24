-- ===== src/Vm/Walking.antt =====
-- Where walk ends: at the entry of the address, or at the missing table.
use os_project.Prelude.{
  ℕ, zero, suc, ◌+◌, ◌*◌, ◌<◌, Bool, true, false, ◌==◌, if_false, Bool-cases, leb, none, some, ◌≡◌,
  ◌⊎◌, refl, sym, ap, ◌∙◌, inl, inr, arith,
}
use mathlib.Core.Path.{subst}
use os_project.Kalloc.{Words, Kmem, kalloc}
use os_project.Vm.{px, entry, pa2pte, pte2pa, is_valid, descend, walk, max_va}
use os_project.Vm.Space.{
  Ghost, find, Inv, Kept, Kept-refl, Kept-trans, find_valid, find_invalid, pte2pa-pa2pte,
}
use os_project.Vm.Growth.{linked_new, linked_new-Kept}

-- The place of the last table on the way of an address.
abbrev pub path : ℕ → ℕ → ℕ → ℕ
path zero p va = p
path (suc l) p va = path l (p * 512 + px (suc l) va) va

-- The tables above the last level hold the same words.
abbrev pub Agrees : Ghost → Words → Words → Type 0
Agrees g w v = (q i : ℕ) → 1 < g.rank q → i < 512 → v (q + 8 * i) ≡ w (q + 8 * i)

-- `e` is the address of the entry of `va` in the last table, below a table of level `l`.
pub record At (g : Ghost) (w : Words) (l q va e : ℕ) : Type 0 where
  pub table : ℕ
  pub last : g.rank table ≡ 1
  pub placed : g.place table ≡ path l (g.place q) va
  pub address : e ≡ entry table 0 va
  pub found : (v : Words) → Agrees g w v → find l v q va ≡ v e

-- One level of walk.
descend_valid :
    (l : ℕ) (k : Kmem) (q va : ℕ) (alloc : Bool)
    → is_valid (k.word (entry q (suc l) va)) ≡ true
    → descend (suc l) k q va alloc ≡ descend l k (pte2pa (k.word (entry q (suc l) va))) va alloc
unfolding descend
descend_valid l k q va alloc e = ground arith

descend_missing :
    (l : ℕ) (k : Kmem) (q va : ℕ)
    → is_valid (k.word (entry q (suc l) va)) ≡ false
    → descend (suc l) k q va false ≡ (0, k)
unfolding descend
descend_missing l k q va e = ground arith

descend_full :
    (l : ℕ) (k : Kmem) (q va : ℕ)
    → is_valid (k.word (entry q (suc l) va)) ≡ false
    → kalloc k ≡ (0, k)
    → descend (suc l) k q va true ≡ (0, k)
unfolding descend
descend_full l k q va e f = ground arith

descend_new :
    (l : ℕ) (k : Kmem) (q va : ℕ)
    → is_valid (k.word (entry q (suc l) va)) ≡ false
    → ((kalloc k).0 == 0) ≡ false
    → descend (suc l) k q va true
      ≡ descend l (linked_new k (entry q (suc l) va)) (kalloc k).0 va true
unfolding descend
descend_new l k q va e f = ground arith

module _ (kernel_end : ℕ) where
  linked_valid : (r : ℕ) → is_valid (pa2pte r + 1) ≡ true
  linked_valid r = ground arith

  -- The way from a table goes on from the table that its entry leads to.
  At-through :
      {k k' : Kmem} {g g' : Ghost} {l q c va e : ℕ}
      → Kept kernel_end k g k' g'
      → g.rank q ≡ suc (suc l)
      → g.rank c ≡ suc l
      → is_valid (k.word (entry q (suc l) va)) ≡ true
      → pte2pa (k.word (entry q (suc l) va)) ≡ c
      → g.place c ≡ g.place q * 512 + px (suc l) va
      → At g' k'.word l c va e
      → At g' k'.word (suc l) q va e
  At-through {k} {k'} {g} {g'} {l} {q} {c} {va} kept rq rc valid to placed a = record {
    table = a.table;
    last = a.last;
    placed =
        a.placed
        ∙ ap (λ p. path l p va)
            (omega
              (arith, placed, (kept.tables q (omega arith)).1, (kept.tables c (omega arith)).1));
    address = a.address;
    found = λ v agrees.
        let same : v (entry q (suc l) va) ≡ k.word (entry q (suc l) va) =
          agrees q (px (suc l) va) (omega (arith, (kept.tables q (omega arith)).0)) (omega arith)
          ∙ kept.links q (px (suc l) va) (omega arith) (omega arith) valid in
        find_valid kernel_end l v q va (ap is_valid same ∙ valid)
        ∙ ap (λ p. find l v p va) (ap pte2pa same ∙ to)
        ∙ a.found v agrees;
  }

abbrev Looked : Kmem → Ghost → ℕ → ℕ → ℕ → ℕ × Kmem → Type 0
Looked k g l q va r = (r.1 ≡ k) × ((r.0 ≡ 0) × (find l k.word q va ≡ 0) ⊎ At g k.word l q va r.0)

module _ (kernel_end : ℕ) where
  -- Without allocation nothing changes, and there is no entry just if a table is missing.
  pub look_up :
      (l : ℕ) (k : Kmem) (g : Ghost) (q va : ℕ)
      → Inv kernel_end k g
      → g.rank q ≡ suc l
      → Looked k g l q va (descend l k q va false)
  unfolding descend
  look_up zero k g q va inv r = (
    refl,
    inr (record { table = q; last = r; placed = refl; address = refl; found = λ v same. refl }),
  )
  look_up (suc l) k g q va inv r = elim (Bool-cases (is_valid (k.word (entry q (suc l) va)))) [
    | inl e ↦
        let t = inv.tree q (px (suc l) va) (omega arith) (omega arith) e in
        let below =
          look_up l k g (pte2pa (k.word (entry q (suc l) va))) va inv (omega (arith, t.0)) in
        subst (Looked k g (suc l) q va) (sym (descend_valid l k q va false e)) (
          below.0,
          elim below.1 [
            | inl (z, f) ↦ inl (z, find_valid kernel_end l k.word q va e ∙ f)
            | inr a ↦ inr (
                At-through kernel_end (Kept-refl kernel_end k g) r (omega (arith, t.0)) e refl t.1
                  a)
          ],
        )
    | inr e ↦
        subst (Looked k g (suc l) q va) (sym (descend_missing l k q va e))
          (refl, inl (refl, find_invalid kernel_end l k.word q va e))
  ]

  -- What walk has done: the space has its tables and entries, and the new one.
  abbrev pub Walked : Kmem → Ghost → ℕ → ℕ → ℕ → ℕ × Kmem → Type 0
  Walked k g l q va r =
      (g' : Ghost) × Inv kernel_end r.1 g'
      × Kept kernel_end k g r.1 g'
      × ((r.0 ≡ 0) × (kalloc r.1 ≡ (0, r.1)) ⊎ At g' r.1.word l q va r.0)

  -- With allocation an entry is missing just if no page is left.
  pub look_up_new :
      (l : ℕ) (k : Kmem) (g : Ghost) (q va : ℕ)
      → Inv kernel_end k g
      → g.rank q ≡ suc l
      → Walked k g l q va (descend l k q va true)
  unfolding descend
  look_up_new zero k g q va inv r = (
    g,
    inv,
    Kept-refl kernel_end k g,
    inr (record { table = q; last = r; placed = refl; address = refl; found = λ v same. refl }),
  )
  look_up_new (suc l) k g q va inv r = elim (Bool-cases (is_valid (k.word (entry q (suc l) va)))) [
    | inl e ↦
        let t = inv.tree q (px (suc l) va) (omega arith) (omega arith) e in
        let below =
          look_up_new l k g (pte2pa (k.word (entry q (suc l) va))) va inv (omega (arith, t.0)) in
        subst (Walked k g (suc l) q va) (sym (descend_valid l k q va true e)) (
          below.0,
          below.1,
          below.2,
          elim below.3 [
            | inl z ↦ inl z
            | inr a ↦ inr (At-through kernel_end below.2 r (omega (arith, t.0)) e refl t.1 a)
          ],
        )
    | inr e ↦
        elim (linked_new-Kept kernel_end k g q (px (suc l) va) inv (omega arith) (omega arith) e) [
          | inl full ↦
              subst (Walked k g (suc l) q va) (sym (descend_full l k q va e full))
                (g, inv, Kept-refl kernel_end k g, inl (refl, full))
          | inr (some_page, g', inv', kept, rank, place, linked, page) ↦
              let below =
                look_up_new l (linked_new k (entry q (suc l) va)) g' (kalloc k).0 va inv'
                  (omega (arith, rank)) in
              subst (Walked k g (suc l) q va)
                (sym (descend_new l k q va e (ground (arith, some_page))))
                (
                  below.0,
                  below.1,
                  Kept-trans kernel_end kept below.2,
                  elim below.3 [
                    | inl z ↦ inl z
                    | inr a ↦ inr (
                        At-through kernel_end below.2
                          (omega (arith, (kept.tables q (omega arith)).0)) (omega (arith, rank))
                          (ap is_valid linked ∙ linked_valid kernel_end (kalloc k).0)
                          (ap pte2pa linked ∙ pte2pa-pa2pte kernel_end (kalloc k).0 page)
                          (place
                            ∙ ap (λ p. p * 512 + px (suc l) va)
                                (sym (kept.tables q (omega arith)).1))
                          a)
                  ],
                )
        ]
  ]

pub walk_lem :
    (k : Kmem) (q va : ℕ) (alloc : Bool)
    → va < max_va
    → walk k q va alloc ≡ some (descend 2 k q va alloc)
unfolding walk
walk_lem k q va alloc lt = if_false (leb max_va va) none _ (ground arith)
