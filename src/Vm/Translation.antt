-- ===== src/Vm/Translation.antt =====
-- walkaddr as a function of the entries, which only the words of the tables decide.
use os_project.Prelude.{
  ℕ, suc, ◌+◌, ◌*◌, ◌/◌, ◌%◌, ◌^◌, ◌<◌, true, false, ◌&&◌, not, ◌==◌, leb, if_true, if_false,
  Bool-cases, ◌≡◌, refl, sym, ap, ◌∙◌, inl, inr, arith, [], if◌then◌else◌,
}
use os_project.Memory.{Mem, page_size, in_range}
use os_project.Kalloc.{Words, Kmem}
use os_project.Vm.{px, pte2pa, is_valid, is_user, max_va, descend, walkaddr}
use os_project.Vm.Space.{Ghost, find, Inv}
use os_project.Vm.Walking.{look_up}
use os_project.Vm.Entries.{find-frame}
use os_project.Vm.Copy.{words, translate}

-- The physical address that an entry gives to a user.
abbrev pub user_page : ℕ → ℕ
user_page pte = if is_valid pte && is_user pte then pte2pa pte else 0

-- The tables alone, with no free page.
abbrev pub tables_of : Mem → Kmem
tables_of m = record { freelist = 0; word = words m }

abbrev pub no_free : Ghost → Ghost
no_free g = record { free = []; rank = g.rank; place = g.place }

-- The physical address that the tables give a user for a page, by the bits of the entry: PTE_V,
-- PTE_U, and the page number from bit 10 on; 0 at and above MAXVA, and for any other entry.
abbrev pub user_pa : Mem → ℕ → ℕ → ℕ
user_pa m q va =
    let pte = find 2 (words m) q va in
    if leb (2 ^ 38) va
    then 0
    else if pte % 2 == 1 && pte / 16 % 2 == 1
    then pte / 1024 * 4096 % 2 ^ 64
    else 0

module _ (kernel_end : ℕ) where
  -- walkaddr behind its call of walk.
  abbrev checked : Words → ℕ → ℕ
  checked w e =
      if e == 0
      then 0
      else if not (is_valid (w e))
      then 0
      else if not (is_user (w e))
      then 0
      else pte2pa (w e)

  walkaddr_lem :
      (k : Kmem) (q va : ℕ)
      → walkaddr k q va ≡ (if leb max_va va then 0 else checked k.word (descend 2 k q va false).0)
  unfolding walkaddr
  walkaddr_lem k q va = refl

  checked_lem : (w : Words) (e : ℕ) → (e == 0) ≡ false → checked w e ≡ user_page (w e)
  checked_lem w e h = ground arith

  walkaddr-checked :
      (k : Kmem) (q va : ℕ)
      → va < max_va
      → walkaddr k q va ≡ checked k.word (descend 2 k q va false).0
  walkaddr-checked k q va lt = walkaddr_lem k q va ∙ if_false (leb max_va va) 0 _ (ground arith)

  pub walkaddr-find :
      (k : Kmem) (g : Ghost) (q va : ℕ)
      → 0 < kernel_end
      → Inv kernel_end k g
      → g.rank q ≡ 3
      → va < max_va
      → walkaddr k q va ≡ user_page (find 2 k.word q va)
  walkaddr-find k g q va pos inv r lt =
      let (_, ends) = look_up kernel_end 2 k g q va inv r in
      elim ends [
        | inl (z, f) ↦ walkaddr-checked k q va lt ∙ ap (checked k.word) z ∙ sym (ap user_page f)
        | inr at ↦
            walkaddr-checked k q va lt
            ∙ checked_lem k.word (descend 2 k q va false).0
                (ground (arith, (inv.pages at.table (omega (arith, at.last))).0, at.address))
            ∙ ap user_page (sym (at.found k.word (λ p i rp l. refl)))
      ]

  -- No byte of a table differs.
  abbrev pub SameTables : Ghost → Mem → Mem → Type 0
  SameTables g m m' = (q x : ℕ) → 0 < g.rank q → in_range q page_size x ≡ true → m' x ≡ m x

  same_word :
      (g : Ghost) (m m' : Mem)
      → SameTables g m m'
      → (q i : ℕ) → 0 < g.rank q
      → i < 512
      → words m' (q + 8 * i) ≡ words m (q + 8 * i)
  same_word g m m' same q i r lt =
      let byte : (j : ℕ) → j < 8 → m' (q + 8 * i + j) ≡ m (q + 8 * i + j) =
        λ j l. same q _ r (ground arith) in
      let first : m' (q + 8 * i) ≡ m (q + 8 * i) = same q _ r (ground arith) in
      omega (
        arith,
        first,
        byte 1 (omega arith),
        byte 2 (omega arith),
        byte 3 (omega arith),
        byte 4 (omega arith),
        byte 5 (omega arith),
        byte 6 (omega arith),
        byte 7 (omega arith),
      )

  steady-Inv :
      (m m' : Mem) (g : Ghost)
      → Inv kernel_end (tables_of m) (no_free g)
      → SameTables g m m'
      → Inv kernel_end (tables_of m') (no_free g)
  steady-Inv m m' g inv same = record {
    chain = inv.chain;
    once = inv.once;
    pages = inv.pages;
    tree = λ q i r lt valid.
        let e = same_word g m m' same q i (omega arith) lt in
        let t = inv.tree q i r lt (ap is_valid (sym e) ∙ valid) in
        (ap (λ a. suc (g.rank (pte2pa a))) e ∙ t.0, ap (λ a. g.place (pte2pa a)) e ∙ t.1);
  }

  over : (m : Mem) (q va : ℕ) → leb max_va va ≡ true → translate m q va ≡ 0
  over m q va e = walkaddr_lem (tables_of m) q va ∙ if_true (leb max_va va) 0 _ e

  -- What walkaddr finds is decided by the bytes of the tables.
  pub translate_steady :
      (m m' : Mem) (g : Ghost) (q va : ℕ)
      → 0 < kernel_end
      → Inv kernel_end (tables_of m) (no_free g)
      → g.rank q ≡ 3
      → SameTables g m m'
      → translate m' q va ≡ translate m q va
  translate_steady m m' g q va pos inv r same = elim (Bool-cases (leb max_va va)) [
    | inl e ↦ over m' q va e ∙ sym (over m q va e)
    | inr e ↦
        let lt : va < max_va = ground arith in
        walkaddr-find (tables_of m') (no_free g) q va pos (steady-Inv m m' g inv same) r lt
        ∙ ap user_page (
            find-frame kernel_end 2 (tables_of m) (no_free g) (words m') q va inv r
              (λ p i rp l. same_word g m m' same p i (omega arith) l)
              (λ t rt pt. same_word g m m' same t (px 0 va) (omega arith) (omega arith)))
        ∙ sym (walkaddr-find (tables_of m) (no_free g) q va pos inv r lt)
  ]

  pub translate-user_pa :
      (m : Mem) (g : Ghost) (q va : ℕ)
      → 0 < kernel_end
      → Inv kernel_end (tables_of m) (no_free g)
      → g.rank q ≡ 3
      → translate m q va ≡ user_pa m q va
  translate-user_pa m g q va pos inv r = elim (Bool-cases (leb max_va va)) [
    | inl e ↦ over m q va e ∙ sym (if_true (leb max_va va) 0 _ e)
    | inr e ↦
        walkaddr-find (tables_of m) (no_free g) q va pos inv r (ground arith)
        ∙ sym (if_false (leb max_va va) 0 _ e)
  ]
