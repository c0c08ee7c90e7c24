-- ===== src/Blocks/Disk.antt =====
-- `balloc` and `bfree` of Xv6/kernel/fs.c on a disk whose bitmap is marked in use itself.
use os_project.Prelude.{
  ℕ, ◌/◌, ◌%◌, ◌≡◌, ◌≢◌, ◌<◌, ◌⊎◌, refl, ap, sym, ◌∙◌, Bool, true, false, ◌&&◌, ◌||◌, not,
  Bool-cases, inl, inr, ◌==◌, ltb, if_true, if_false, arith, ℕ_discrete, none, some,
}
use mathlib.Core.Path.{subst}
use os_project.Blocks.{bpb, bsize, Superblock, Blocks, bblock, set_bit, bzero, balloc, bfree}
use os_project.Blocks.Bitmap.{
  in_use, marked, unmarked, marked-in_use, unmarked-in_use, bzero-in_use,
}
use os_project.Blocks.Alloc.{WellFormed, given, balloc_blocks-Allocated}

-- Block `x` goes from `d` to its owner in `e`.
pub record GivenOut (sb : Superblock) (d : Blocks) (x : ℕ) (e : Blocks) : Type 0 where
  pub positive : 0 < x
  pub in_disk : x < sb.size
  pub free_before : in_use sb d x ≡ false
  pub only_mark : (y : ℕ) → y < sb.size → in_use sb e y ≡ (y == x || in_use sb d y)
  pub zeros : (j : ℕ) → j < bsize → e x j ≡ 0
  pub others : (c j : ℕ) → c ≢ x → c ≢ bblock x sb → e c j ≡ d c j
  pub well_formed : WellFormed sb e

-- A free block holds no part of the bitmap.
not_bitmap :
    (sb : Superblock) (d : Blocks) (x y : ℕ)
    → WellFormed sb d
    → in_use sb d x ≡ false
    → y < sb.size
    → x ≢ bblock y sb
not_bitmap sb d x y w free lt e = let taken = ap (in_use sb d) e ∙ w.bitmap y lt in ground arith

given-in_use :
    (sb : Superblock) (d : Blocks) (x y : ℕ)
    → WellFormed sb d
    → in_use sb d x ≡ false
    → y < sb.size
    → in_use sb (given sb d x) y ≡ (y == x || in_use sb d y)
given-in_use sb d x y w free lt =
    bzero-in_use sb (marked sb d x) x y (not_bitmap sb d x y w free lt) ∙ marked-in_use sb d x y

given-GivenOut :
    (sb : Superblock) (d : Blocks) (x : ℕ)
    → WellFormed sb d
    → ((b : ℕ) → b < sb.size → bblock b sb < sb.size)
    → x < sb.size
    → in_use sb d x ≡ false
    → GivenOut sb d x (given sb d x)
given-GivenOut sb d x w inside lt free = record {
  positive = elim (ℕ_discrete x 0) [
    | yes e ↦ absurd (let taken = ap (in_use sb d) e ∙ w.boot in ground arith)
    | no ne ↦ omega arith
  ];
  in_disk = lt;
  free_before = free;
  only_mark = λ y lt'. given-in_use sb d x y w free lt';
  zeros =
      λ j lt'. unfold bzero in if_true (x == x && ltb j bsize) 0 (marked sb d x x j) (ground arith);
  others = λ c j ne ne'.
      unfold bzero in
      if_false (c == x && ltb j bsize) 0 (marked sb d x c j) (ground arith)
      ∙ if_false (c == bblock x sb && j == x % bpb / 8)
          (set_bit (d (bblock x sb) (x % bpb / 8)) (x % bpb % 8)) (d c j)
          (apart c (bblock x sb) _ ne');
  well_formed = record {
    boot = given-in_use sb d x 0 w free (omega arith) ∙ marks 0 w.boot;
    bitmap = λ b lt'.
        given-in_use sb d x (bblock b sb) w free (inside b lt')
        ∙ marks (bblock b sb) (w.bitmap b lt');
  };
}
  where
    apart : (a b : ℕ) (c : Bool) → a ≢ b → (a == b && c) ≡ false
    apart a b c ne = ground arith

    marks : (y : ℕ) → in_use sb d y ≡ true → (y == x || in_use sb d y) ≡ true
    marks y e = either (y == x) (in_use sb d y) e
      where
        either : (a b : Bool) → b ≡ true → (a || b) ≡ true
        either a b e = ground arith

-- On a well-formed disk whose bitmap lies on it, `balloc` returns 0 and changes nothing exactly if
-- every block is in use. Else it returns a block that was free: that block is marked and zeroed, no
-- other mark changes, and no block but that one and its bitmap block changes.
pub balloc_lem :
    (sb : Superblock) (d : Blocks)
    → WellFormed sb d
    → ((b : ℕ) → b < sb.size → bblock b sb < sb.size)
    → (balloc sb d ≡ (0, d)) × ((j : ℕ) → j < sb.size → in_use sb d j ≡ true)
      ⊎ ((x : ℕ) × (e : Blocks) × (balloc sb d ≡ (x, e)) × GivenOut sb d x e)
unfolding balloc
balloc_lem sb d w inside = elim (balloc_blocks-Allocated sb.size 0 sb d refl (omega arith)) [
  | inl (e, busy) ↦ inl (e, λ j lt. busy j (omega arith) lt)
  | inr (x, lt, free, e) ↦ inr (x, given sb d x, e, given-GivenOut sb d x w inside lt free)
]

-- `bfree` panics exactly on a block that is not in use. Else it takes the mark of that block away and
-- no other, and changes no block but its bitmap block.
pub bfree_lem :
    (b : ℕ) (sb : Superblock) (d : Blocks)
    → (in_use sb d b ≡ false) × (bfree b sb d ≡ none)
      ⊎ (in_use sb d b ≡ true)
        × ((e : Blocks) × (bfree b sb d ≡ some e)
            × ((y : ℕ) → in_use sb e y ≡ (not (y == b) && in_use sb d y))
            × ((c j : ℕ) → c ≢ bblock b sb → e c j ≡ d c j))
unfolding bfree
bfree_lem b sb d = elim (Bool-cases (in_use sb d b)) [
  | inr free ↦ inl (free, if_false (in_use sb d b) _ none free)
  | inl taken ↦ inr (
    taken,
    (
      unmarked sb d b,
      if_true (in_use sb d b) _ none taken,
      (λ y. unmarked-in_use sb d b y),
      λ c j ne.
          if_false (c == bblock b sb && j == b % bpb / 8) _ (d c j) (apart c (bblock b sb) _ ne),
    ),
  )
]
  where
    apart : (a b : ℕ) (c : Bool) → a ≢ b → (a == b && c) ≡ false
    apart a b c ne = ground arith

-- What `balloc` gave out, `bfree` takes back: on a well-formed disk whose bitmap lies on it, the marks
-- are then those of before.
pub bfree-balloc :
    (sb : Superblock) (d : Blocks) (x : ℕ) (e : Blocks)
    → WellFormed sb d
    → ((b : ℕ) → b < sb.size → bblock b sb < sb.size)
    → balloc sb d ≡ (x, e)
    → x ≢ 0
    → (f : Blocks) × (bfree x sb e ≡ some f)
      × ((y : ℕ) → y < sb.size → in_use sb f y ≡ in_use sb d y)
bfree-balloc sb d x e w inside got nonzero = elim (balloc_lem sb d w inside) [
  | inl (full, busy) ↦ absurd (nonzero (ap (λ (r : ℕ × Blocks). r.0) (sym got ∙ full)))
  | inr (x', e', got', g) ↦
      subst
        (λ (r : ℕ × Blocks).
          (f : Blocks) × (bfree r.0 sb r.1 ≡ some f)
          × ((y : ℕ) → y < sb.size → in_use sb f y ≡ in_use sb d y))
        (sym got' ∙ got)
        (elim (bfree_lem x' sb e') [
          | inl (free, f) ↦ absurd (let here = g.only_mark x' g.in_disk in ground arith)
          | inr (taken, (f, returns, marks, same)) ↦ (
            f,
            returns,
            λ y lt.
                marks y ∙ ap (λ b. not (y == x') && b) (g.only_mark y lt) ∙ back y x' g.free_before,
          )
        ])
]
  where
    back :
        (y x : ℕ)
        → in_use sb d x ≡ false
        → (not (y == x) && (y == x || in_use sb d y)) ≡ in_use sb d y
    back y x free = elim (ℕ_discrete y x) [
      | yes same ↦
          (let here = ap (in_use sb d) same ∙ free in
            both (y == x) (in_use sb d y) (ground arith) here)
      | no ne ↦ neither (y == x) (in_use sb d y) (ground arith)
    ]
      where
        both : (a b : Bool) → a ≡ true → b ≡ false → (not a && (a || b)) ≡ b
        both a b e f = ground arith

        neither : (a b : Bool) → a ≡ false → (not a && (a || b)) ≡ b
        neither a b e = ground arith
