-- ===== src/Bcache/Unique.antt =====
-- The buffers of Xv6/kernel/bio.c from `binit` on: no block is in two of them.
use os_project.Prelude.{
  ℕ, ◌<◌, ◌≡◌, ◌≢◌, inl, inr, refl, ap, sym, ◌∙◌, false, Option, none, some, List, ◌==◌, arith,
  ℕ_discrete, if_true, if_false,
}
use mathlib.Core.Path.{subst}
use os_project.Bcache.{nbuf, assign, Buf, Bcache, caches, set_buf, recycled, bget, incr}
use os_project.Bcache.Lookup.{Ordered, bget_cases}

-- No two buffers cache the same block of a device. The device 0 marks a buffer that was never used.
abbrev pub Unique : (ℕ → Buf) → Type 0
Unique buf =
    (i j : ℕ)
    → i < nbuf
    → j < nbuf
    → (buf i).dev ≢ 0
    → (buf i).dev ≡ (buf j).dev
    → (buf i).blockno ≡ (buf j).blockno
    → i ≡ j

pub record Inv (c : Bcache) : Type 0 where
  pub order : List ℕ
  pub ordered : Ordered order c
  pub unique : Unique c.buf

-- What holds of a new buffer, and of the others, holds of each.
pub assign_cases :
    (P : ℕ → Buf → Type 0) (buf : ℕ → Buf) (k : ℕ) (b : Buf) (j : ℕ)
    → P k b
    → (j ≢ k → P j (buf j))
    → P j (assign buf k b j)
assign_cases P buf k b j here there = elim (ℕ_discrete j k) [
  | yes e ↦
      subst (P j) (sym (if_true (j == k) b (buf j) (ground arith)))
        (subst (λ i. P i b) (sym e) here)
  | no ne ↦ subst (P j) (sym (if_false (j == k) b (buf j) (ground arith))) (there ne)
]

-- One buffer changes, but keeps its block.
pub same_block :
    (buf : ℕ → Buf) (k : ℕ) (b : Buf)
    → b.dev ≡ (buf k).dev
    → b.blockno ≡ (buf k).blockno
    → Unique buf
    → Unique (assign buf k b)
same_block buf k b e f u i j lt lt' =
    let each = λ (j : ℕ).
      assign_cases (λ j r. (r.dev ≡ (buf j).dev) × (r.blockno ≡ (buf j).blockno)) buf k b j (e, f)
        (λ ne. (refl, refl)) in
    λ used d n.
      u i j lt lt' (λ never. used ((each i).0 ∙ never)) (sym (each i).0 ∙ d ∙ (each j).0)
        (sym (each i).1 ∙ n ∙ (each j).1)

-- One buffer gets a block that none caches.
new_block :
    (buf : ℕ → Buf) (k dev blockno : ℕ) (b : Buf)
    → b.dev ≡ dev
    → b.blockno ≡ blockno
    → ((j : ℕ) → j < nbuf → caches dev blockno (buf j) ≡ false)
    → Unique buf
    → Unique (assign buf k b)
new_block buf k dev blockno b e f uncached u i j =
    assign_cases
      (λ i r.
        i < nbuf
        → j < nbuf
        → r.dev ≢ 0
        → r.dev ≡ (assign buf k b j).dev
        → r.blockno ≡ (assign buf k b j).blockno
        → i ≡ j)
      buf k b i
      (assign_cases
        (λ j r. k < nbuf → j < nbuf → b.dev ≢ 0 → b.dev ≡ r.dev → b.blockno ≡ r.blockno → k ≡ j) buf
        k b j (λ lt lt' used d n. refl)
        (λ ne lt lt' used d n. absurd (let no_hit = uncached j lt' in ground arith)))
      (λ ne.
        assign_cases
          (λ j r.
            i < nbuf
            → j < nbuf
            → (buf i).dev ≢ 0
            → (buf i).dev ≡ r.dev
            → (buf i).blockno ≡ r.blockno
            → i ≡ j)
          buf k b j (λ lt lt' used d n. absurd (let no_hit = uncached i lt in ground arith))
          (λ ne' lt lt' used d n. u i j lt lt' used d n))

-- The list does not depend on the buffers.
pub Ordered-set_buf :
    (l : List ℕ) (i : ℕ) (b : Buf) (c : Bcache) → Ordered l c → Ordered l (set_buf i b c)
Ordered-set_buf l i b c o = record {
  links = o.links;
  distinct = o.distinct;
  size = o.size;
  within = o.within;
  full = o.full;
}

pub bget-Inv : (dev blockno i : ℕ) (c d : Bcache) → bget dev blockno c ≡ some (i, d) → Inv c → Inv d
bget-Inv dev blockno i c d returns v = elim (bget_cases dev blockno v.order c v.ordered) [
  | inl (k, lt, hit, e) ↦
      subst Inv (result k (record (c.buf k) { refcnt = incr (c.buf k).refcnt }) e) (record {
        order = v.order;
        ordered = Ordered-set_buf v.order k _ c v.ordered;
        unique =
            same_block c.buf k (record (c.buf k) { refcnt = incr (c.buf k).refcnt }) refl refl
              v.unique;
      })
  | inr (uncached, inl (k, lt, last, free, e)) ↦
      subst Inv (result k (recycled dev blockno (c.buf k)) e) (record {
        order = v.order;
        ordered = Ordered-set_buf v.order k _ c v.ordered;
        unique =
            new_block c.buf k dev blockno (recycled dev blockno (c.buf k)) refl refl uncached
              v.unique;
      })
  | inr (uncached, inr (busy, e)) ↦ absurd (let wrong = sym e ∙ returns in ground arith)
]
  where
    result : (k : ℕ) (b : Buf) → bget dev blockno c ≡ some (k, set_buf k b c) → set_buf k b c ≡ d
    result k b e =
        ap (λ (r : Option (ℕ × Bcache)). elim r [ none ↦ d | some p ↦ p.1 ]) (sym e ∙ returns)
