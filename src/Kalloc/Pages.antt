-- ===== src/Kalloc/Pages.antt =====
-- The allocator of Xv6/kernel/kalloc.c with its users: pages that have been handed out, and are
-- written by whoever holds them.
use os_project.Prelude.{
  ℕ, ◌+◌, ◌≤◌, ◌<◌, ◌≡◌, ◌≢◌, ◌⊎◌, ap, sym, ◌∙◌, true, inl, inr, none, some, List, [], ◌∷◌, arith,
  ◌==◌, if◌then◌else◌,
}
use mathlib.Core.Path.{subst}
use os_project.Memory.{page_size, phys_stop, in_range}
use os_project.Kalloc.{Words, Kmem, is_page, put_word, kfree, kalloc, kinit}
use os_project.Kalloc.Chain.{count, FreeList-frame, Holds, kfree-Holds, kalloc-cons, kalloc-nil}
use os_project.Kalloc.Boot.{kinit-Holds}

abbrev pub erase : ℕ → List ℕ → List ℕ
erase a [] = []
erase a (x ∷ xs) = if x == a then xs else x ∷ erase a xs

pub record State : Type 0 where
  pub kmem : Kmem
  pub held : List ℕ

module _ (kernel_end : ℕ) where
  -- A caller takes a page, gives back one that it holds, or writes to one that it holds.
  pub data Step (s : State) : State → Type 0 where
    take :
        (r : ℕ) (k : Kmem)
        → kalloc s.kmem ≡ (r, k)
        → r ≢ 0
        → Step s (record { kmem = k; held = r ∷ s.held })
    exhausted : (k : Kmem) → kalloc s.kmem ≡ (0, k) → Step s (record s { kmem = k })
    give :
        (pa : ℕ) (k : Kmem)
        → 0 < count pa s.held
        → kfree kernel_end s.kmem pa ≡ some k
        → Step s (record { kmem = k; held = erase pa s.held })
    write :
        (pa a v : ℕ)
        → 0 < count pa s.held
        → in_range pa page_size a ≡ true
        → Step s (record s { kmem = record s.kmem { word = put_word s.kmem.word a v } })

  pub data Reach : State → Type 0 where
    boot :
        (memory : Words) (k : Kmem)
        → kinit kernel_end memory ≡ some k
        → Reach (record { kmem = k; held = [] })
    next : {s t : State} → Reach s → Step s t → Reach t

  -- Every page of the machine is either on the free list or held, once in all.
  pub record Inv (s : State) : Type 0 where
    pub free : List ℕ
    pub chain : Holds kernel_end s.kmem free
    pub once : (q : ℕ) → count q free + count q s.held ≡ (if is_page kernel_end q then 1 else 0)

  take-Inv :
      (s : State) (free : List ℕ) (r : ℕ) (k : Kmem)
      → Holds kernel_end s.kmem free
      → ((q : ℕ) → count q free + count q s.held ≡ (if is_page kernel_end q then 1 else 0))
      → kalloc s.kmem ≡ (r, k)
      → r ≢ 0
      → Inv (record { kmem = k; held = r ∷ s.held })
  take-Inv s [] r k h once e ne =
      absurd (ne (ap (λ p. p.0) (sym e ∙ kalloc-nil kernel_end s.kmem h)))
  take-Inv s (x ∷ xs) r k h once e ne =
      let (first, rest, _) = kalloc-cons kernel_end s.kmem x xs h (ground (arith, once x)) in
      let same : r ≡ x = sym (ap (λ p. p.0) e) ∙ first in
      record {
        free = xs;
        chain = subst (λ (p : ℕ × Kmem). Holds kernel_end p.1 xs) e rest;
        once = λ q. ground (arith, once q);
      }

  exhausted-Inv :
      (s : State) (free : List ℕ) (k : Kmem)
      → Holds kernel_end s.kmem free
      → ((q : ℕ) → count q free + count q s.held ≡ (if is_page kernel_end q then 1 else 0))
      → kalloc s.kmem ≡ (0, k)
      → Inv (record s { kmem = k })
  exhausted-Inv s [] k h once e = record {
    free = [];
    chain =
        subst (λ (p : ℕ × Kmem). Holds kernel_end p.1 []) (sym (kalloc-nil kernel_end s.kmem h) ∙ e)
          h;
    once = once;
  }
  exhausted-Inv s (x ∷ xs) k h once e =
      let (first, _, _) = kalloc-cons kernel_end s.kmem x xs h (ground (arith, once x)) in
      absurd (h.1 (sym first ∙ ap (λ p. p.0) e))

  count-erase :
      (q a : ℕ) (xs : List ℕ)
      → 0 < count a xs
      → count q (erase a xs) + (if a == q then 1 else 0) ≡ count q xs
  count-erase q a [] h = absurd (omega arith)
  count-erase q a (x ∷ xs) h = ground (arith, count-erase q a xs)

  -- Every call and every write of a holder keeps the invariant.
  pub Step-Inv : {s t : State} → 0 < kernel_end → Inv s → Step s t → Inv t
  Step-Inv {s} pos inv (take r k e ne) = take-Inv s inv.free r k inv.chain inv.once e ne
  Step-Inv {s} pos inv (exhausted k e) = exhausted-Inv s inv.free k inv.chain inv.once e
  Step-Inv {s} pos inv (give pa k mine e) =
      let (k', freed, h, _) =
        kfree-Holds kernel_end s.kmem pa inv.free pos (ground (arith, inv.once pa)) inv.chain
          (ground (arith, inv.once pa)) in
      let same : k' ≡ k = ground arith in
      record {
        free = pa ∷ inv.free;
        chain = subst (λ r. Holds kernel_end r (pa ∷ inv.free)) same h;
        once = λ q. ground (arith, inv.once q, count-erase q pa s.held mine);
      }
  Step-Inv {s} pos inv (write pa a v mine inside) = record {
    free = inv.free;
    chain =
        FreeList-frame kernel_end inv.free s.kmem.word _ s.kmem.freelist inv.chain
          (λ y page c. unfold put_word in ground (arith, inv.once y, inv.once pa));
    once = inv.once;
  }

  pub Reach-Inv : {s : State} → 0 < kernel_end → kernel_end ≤ phys_stop → Reach s → Inv s
  Reach-Inv pos hi (boot memory k e) =
      let (k', ys, booted, h, all) = kinit-Holds kernel_end pos memory hi in
      let same : k' ≡ k = ground arith in
      record {
        free = ys;
        chain = subst (λ r. Holds kernel_end r ys) same h;
        once = λ q. ground (arith, all q);
      }
  Reach-Inv pos hi (next r st) = Step-Inv pos (Reach-Inv pos hi r) st

  -- However the allocator has been used since boot, `kalloc` either returns the null pointer, and
  -- then every page of the machine is held, or it returns a page that nobody holds.
  pub kalloc_fresh :
      {s : State}
      → 0 < kernel_end
      → kernel_end ≤ phys_stop
      → Reach s
      → ((kalloc s.kmem).0 ≡ 0) × ((q : ℕ) → is_page kernel_end q ≡ true → count q s.held ≡ 1)
        ⊎ (is_page kernel_end (kalloc s.kmem).0 ≡ true) × (count (kalloc s.kmem).0 s.held ≡ 0)
  kalloc_fresh {s} pos hi r =
      fresh s (Reach-Inv pos hi r).free (Reach-Inv pos hi r).chain (Reach-Inv pos hi r).once
    where
      fresh :
          (s : State) (free : List ℕ)
          → Holds kernel_end s.kmem free
          → ((q : ℕ) → count q free + count q s.held ≡ (if is_page kernel_end q then 1 else 0))
          → ((kalloc s.kmem).0 ≡ 0) × ((q : ℕ) → is_page kernel_end q ≡ true → count q s.held ≡ 1)
            ⊎ (is_page kernel_end (kalloc s.kmem).0 ≡ true) × (count (kalloc s.kmem).0 s.held ≡ 0)
      fresh s [] h once =
          inl (ap (λ p. p.0) (kalloc-nil kernel_end s.kmem h), λ q page. ground (arith, once q))
      fresh s (x ∷ xs) h once =
          let (first, _, _) = kalloc-cons kernel_end s.kmem x xs h (ground (arith, once x)) in
          inr (rw first h.2, rw first (ground (arith, once x)))

  -- No page is ever lost or handed out twice: each page of the machine is either held by exactly
  -- one caller or not held, and whoever holds it may give it back without a panic.
  pub held_once :
      {s : State}
      → 0 < kernel_end
      → kernel_end ≤ phys_stop
      → Reach s
      → (pa : ℕ) → 0 < count pa s.held
      → (count pa s.held ≡ 1) × (kfree kernel_end s.kmem pa ≢ none)
  held_once {s} pos hi r pa mine =
      let inv = Reach-Inv pos hi r in
      let (k', freed, _, _) =
        kfree-Holds kernel_end s.kmem pa inv.free pos (ground (arith, inv.once pa)) inv.chain
          (ground (arith, inv.once pa)) in
      (ground (arith, inv.once pa), λ panics. cc)
