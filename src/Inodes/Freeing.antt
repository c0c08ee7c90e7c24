-- ===== src/Inodes/Freeing.antt =====
-- What it is to free the blocks of a range of numbers, one by one.
use os_project.Prelude.{
  ℕ, ◌+◌, ◌<◌, ◌≤◌, true, false, ◌&&◌, not, ◌==◌, some, Bool-cases, ◌≡◌, ◌≢◌, refl, ap, ◌∙◌, inl,
  inr, arith,
}
use os_project.Blocks.{Superblock, Blocks, bblock, bfree}
use os_project.Blocks.Bitmap.{in_use}
use os_project.Blocks.Disk.{bfree_lem}

-- The blocks with the numbers from `lo` to `hi` are in use, and no two are the same.
pub record Busy (sb : Superblock) (a : ℕ → ℕ) (lo hi : ℕ) (d : Blocks) : Type 0 where
  pub taken : (i : ℕ) → lo ≤ i → i < hi → a i ≢ 0 → in_use sb d (a i) ≡ true
  pub distinct : (i j : ℕ) → lo ≤ i → i < hi → lo ≤ j → j < hi → a i ≢ 0 → a i ≡ a j → i ≡ j

-- Just these blocks are free in `e`.
pub record Freed (sb : Superblock) (a : ℕ → ℕ) (lo hi : ℕ) (d e : Blocks) : Type 0 where
  pub gone : (i : ℕ) → lo ≤ i → i < hi → a i ≢ 0 → in_use sb e (a i) ≡ false
  pub kept :
      (y : ℕ) → ((i : ℕ) → lo ≤ i → i < hi → a i ≢ 0 → y ≢ a i) → in_use sb e y ≡ in_use sb d y
  pub falls : (y : ℕ) → in_use sb d y ≡ false → in_use sb e y ≡ false
  pub others :
      (c k : ℕ) → ((i : ℕ) → lo ≤ i → i < hi → a i ≢ 0 → c ≢ bblock (a i) sb) → e c k ≡ d c k

-- bfree of a block in use.
pub record Dropped (sb : Superblock) (b : ℕ) (d e : Blocks) : Type 0 where
  pub returns : bfree b sb d ≡ some e
  pub marks : (y : ℕ) → in_use sb e y ≡ (not (y == b) && in_use sb d y)
  pub others : (c k : ℕ) → c ≢ bblock b sb → e c k ≡ d c k

pub bfree-Dropped :
    (sb : Superblock) (b : ℕ) (d : Blocks) → in_use sb d b ≡ true → (e : Blocks) × Dropped sb b d e
bfree-Dropped sb b d taken = elim (bfree_lem b sb d) [
  | inl (free, _) ↦ absurd (ground arith)
  | inr (_, (e, returns, marks, same)) ↦
      (e, record { returns = returns; marks = marks; others = same })
]

pub Dropped-falls :
    {sb : Superblock} {b : ℕ} {d e : Blocks}
    → Dropped sb b d e
    → (y : ℕ) → in_use sb d y ≡ false
    → in_use sb e y ≡ false
Dropped-falls h y free = ground (arith, h.marks y, free)

pub Dropped-kept :
    {sb : Superblock} {b : ℕ} {d e : Blocks}
    → Dropped sb b d e
    → (y : ℕ) → y ≢ b
    → in_use sb e y ≡ in_use sb d y
Dropped-kept h y ne = ground (arith, h.marks y)

pub Dropped-gone :
    {sb : Superblock} {b : ℕ} {d e : Blocks} → Dropped sb b d e → in_use sb e b ≡ false
Dropped-gone {b} h = ground (arith, h.marks b)

module _ (sb : Superblock) (a : ℕ → ℕ) where
  pub Freed-refl : (lo : ℕ) (d : Blocks) → Freed sb a lo lo d d
  Freed-refl lo d = record {
    gone = λ i le lt nz. absurd (omega arith);
    kept = λ y out. refl;
    falls = λ y f. f;
    others = λ c k out. refl;
  }

  -- One more number in front.
  pub Freed-skip :
      (lo hi : ℕ) (d e : Blocks) → a lo ≡ 0 → Freed sb a (lo + 1) hi d e → Freed sb a lo hi d e
  Freed-skip lo hi d e z h = record {
    gone = λ i le lt nz. h.gone i (later i le nz) lt nz;
    kept = λ y out. h.kept y (λ i le lt nz. out i (omega arith) lt nz);
    falls = h.falls;
    others = λ c k out. h.others c k (λ i le lt nz. out i (omega arith) lt nz);
  }
    where
      later : (i : ℕ) → lo ≤ i → a i ≢ 0 → lo + 1 ≤ i
      later i le nz = elim (Bool-cases (i == lo)) [
        | inl e ↦ let s : i ≡ lo = ground arith in absurd (nz (ap a s ∙ z))
        | inr e ↦ ground arith
      ]

  pub Freed-next :
      (lo hi : ℕ) (d d1 e : Blocks)
      → lo < hi
      → a lo ≢ 0
      → Dropped sb (a lo) d d1
      → Freed sb a (lo + 1) hi d1 e
      → Freed sb a lo hi d e
  Freed-next lo hi d d1 e more nz first h = record {
    gone = λ i le lt nz'. elim (Bool-cases (i == lo)) [
      | inl s' ↦
          let s : i ≡ lo = ground arith in
          h.falls (a i) (ap (in_use sb d1) (ap a s) ∙ Dropped-gone first)
      | inr s' ↦ h.gone i (ground arith) lt nz'
    ];
    kept = λ y out.
        h.kept y (λ i le lt nz'. out i (omega arith) lt nz')
        ∙ Dropped-kept first y (out lo (omega arith) more nz);
    falls = λ y f. h.falls y (Dropped-falls first y f);
    others = λ c k out.
        h.others c k (λ i le lt nz'. out i (omega arith) lt nz')
        ∙ first.others c k (out lo (omega arith) more nz);
  }

  pub Busy-next :
      (lo hi : ℕ) (d d1 : Blocks)
      → lo < hi
      → a lo ≢ 0
      → Dropped sb (a lo) d d1
      → Busy sb a lo hi d
      → Busy sb a (lo + 1) hi d1
  Busy-next lo hi d d1 more nz first h = record {
    taken = λ i le lt nz'.
        Dropped-kept first (a i)
          (λ s. omega (arith, h.distinct i lo (omega arith) lt (omega arith) more nz' s))
        ∙ h.taken i (omega arith) lt nz';
    distinct = λ i j le lt le' lt'. h.distinct i j (omega arith) lt (omega arith) lt';
  }

  pub Busy-skip : (lo hi : ℕ) (d : Blocks) → Busy sb a lo hi d → Busy sb a (lo + 1) hi d
  Busy-skip lo hi d h = record {
    taken = λ i le lt nz. h.taken i (omega arith) lt nz;
    distinct = λ i j le lt le' lt'. h.distinct i j (omega arith) lt (omega arith) lt';
  }
