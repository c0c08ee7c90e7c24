-- ===== src/Blocks/Alloc.antt =====
-- What `balloc` and `bfree` of Xv6/kernel/fs.c do to the blocks in use.
use os_project.Prelude.{
  ℕ, zero, suc, ◌+◌, ◌/◌, ◌%◌, ◌≡◌, ◌<◌, ◌≤◌, ◌⊎◌, refl, ap, sym, ◌∙◌, ap₂, true, false, Bool-cases,
  inl, inr, ltb, if_true, if_false, arith, ℕ_discrete, Option, none, some,
}
use os_project.Blocks.{
  bpb, Superblock, Blocks, bblock, test_bit, set_bit, put_byte, bzero, balloc_bits, balloc_blocks,
}
use os_project.Blocks.Bitmap.{in_use, marked}

-- Block 0 and the blocks of the bitmap itself are marked in use, as mkfs leaves them.
pub record WellFormed (sb : Superblock) (d : Blocks) : Type 0 where
  pub boot : in_use sb d 0 ≡ true
  pub bitmap : (b : ℕ) → b < sb.size → in_use sb d (bblock b sb) ≡ true

-- The blocks when `x` has been given out.
abbrev pub given : Superblock → Blocks → ℕ → Blocks
given sb d x = bzero x (marked sb d x)

-- The inner loop meets the bit of each block in turn.
bits_step :
    (b bi : ℕ) (sb : Superblock) (d : Blocks)
    → b % bpb ≡ 0
    → bi < bpb
    → (test_bit (d (bblock b sb) (bi / 8)) (bi % 8) ≡ in_use sb d (b + bi))
      × (bzero
            (b + bi)
            (put_byte d (bblock b sb) (bi / 8) (set_bit (d (bblock b sb) (bi / 8)) (bi % 8)))
          ≡ given sb d (b + bi))
bits_step b bi sb d aligned lt = (
  ap₂ (λ c i. test_bit (d (c + sb.bmapstart) (i / 8)) (i % 8)) block place,
  ap₂
      (λ c i.
        bzero (b + bi)
          (put_byte d (c + sb.bmapstart) (i / 8) (set_bit (d (c + sb.bmapstart) (i / 8)) (i % 8))))
      block place,
)
  where
    block : b / bpb ≡ (b + bi) / bpb
    block = omega arith

    place : bi ≡ (b + bi) % bpb
    place = omega arith

-- What a search of `balloc` over the blocks in a range finds.
abbrev Searched : (lo hi : ℕ) → Superblock → Blocks → Option (ℕ × Blocks) → Type 0
Searched lo hi sb d r =
    (r ≡ none) × ((j : ℕ) → lo ≤ j → j < hi → j < sb.size → in_use sb d j ≡ true)
    ⊎ ((x : ℕ) × (x < sb.size) × (in_use sb d x ≡ false) × (r ≡ some (x, given sb d x)))

balloc_bits-Searched :
    (n bi b : ℕ) (sb : Superblock) (d : Blocks)
    → b % bpb ≡ 0
    → bi + n ≡ bpb
    → Searched (b + bi) (b + bpb) sb d (balloc_bits n bi b sb d)
unfolding balloc_bits
balloc_bits-Searched zero bi b sb d aligned fits =
    inl (refl, λ j le lt in_disk. absurd (omega arith))
balloc_bits-Searched (suc n) bi b sb d aligned fits =
    let (same, result) = bits_step b bi sb d aligned (omega arith) in
    elim (Bool-cases (ltb (b + bi) sb.size)) [
      | inr past ↦
          inl
            (if_false (ltb (b + bi) sb.size) _ none past, λ j le lt in_disk. absurd (ground arith))
      | inl inside ↦ elim (Bool-cases (test_bit (d (bblock b sb) (bi / 8)) (bi % 8))) [
        | inl taken ↦
            skip
              (if_true (ltb (b + bi) sb.size) _ none inside
                ∙ if_true (test_bit (d (bblock b sb) (bi / 8)) (bi % 8)) _ _ taken)
              (sym same ∙ taken) (balloc_bits-Searched n (bi + 1) b sb d aligned (omega arith))
        | inr free ↦ inr (
          b + bi,
          ground arith,
          sym same ∙ free,
          if_true (ltb (b + bi) sb.size) _ none inside
              ∙ if_false (test_bit (d (bblock b sb) (bi / 8)) (bi % 8)) _ _ free
              ∙ ap (λ e. some (b + bi, e)) result,
        )
      ]
    ]
  where
    skip :
        {r s : Option (ℕ × Blocks)}
        → r ≡ s
        → in_use sb d (b + bi) ≡ true
        → Searched (b + (bi + 1)) (b + bpb) sb d s
        → Searched (b + bi) (b + bpb) sb d r
    skip e taken searched = elim searched [
      | inl (f, busy) ↦ inl (
        e ∙ f,
        λ j le lt in_disk. elim (ℕ_discrete j (b + bi)) [
          | yes here ↦ ap (in_use sb d) here ∙ taken
          | no ne ↦ busy j (omega arith) lt in_disk
        ],
      )
      | inr (x, in_disk, free, f) ↦ inr (x, in_disk, free, e ∙ f)
    ]

-- What `balloc` returns from block `lo` on.
abbrev pub Allocated : ℕ → Superblock → Blocks → ℕ × Blocks → Type 0
Allocated lo sb d r =
    (r ≡ (0, d)) × ((j : ℕ) → lo ≤ j → j < sb.size → in_use sb d j ≡ true)
    ⊎ ((x : ℕ) × (x < sb.size) × (in_use sb d x ≡ false) × (r ≡ (x, given sb d x)))

pub balloc_blocks-Allocated :
    (n b : ℕ) (sb : Superblock) (d : Blocks)
    → b % bpb ≡ 0
    → sb.size ≤ b + n
    → Allocated b sb d (balloc_blocks n b sb d)
unfolding balloc_blocks
balloc_blocks-Allocated zero b sb d aligned enough =
    inl (refl, λ j le in_disk. absurd (omega arith))
balloc_blocks-Allocated (suc n) b sb d aligned enough = elim (Bool-cases (ltb b sb.size)) [
  | inr past ↦ inl (if_false (ltb b sb.size) _ (0, d) past, λ j le in_disk. absurd (ground arith))
  | inl inside ↦ elim (balloc_bits-Searched bpb 0 b sb d aligned refl) [
    | inl (e, busy) ↦
        later
          (if_true (ltb b sb.size) _ (0, d) inside
            ∙ ap (λ r. elim r [ none ↦ balloc_blocks n (b + bpb) sb d | some s ↦ s ]) e)
          busy (balloc_blocks-Allocated n (b + bpb) sb d (omega arith) (omega arith))
    | inr (x, in_disk, free, e) ↦ inr (
      x,
      in_disk,
      free,
      if_true (ltb b sb.size) _ (0, d) inside
          ∙ ap (λ r. elim r [ none ↦ balloc_blocks n (b + bpb) sb d | some s ↦ s ]) e,
    )
  ]
]
  where
    later :
        {r s : ℕ × Blocks}
        → r ≡ s
        → ((j : ℕ) → b + 0 ≤ j → j < b + bpb → j < sb.size → in_use sb d j ≡ true)
        → Allocated (b + bpb) sb d s
        → Allocated b sb d r
    later e busy rest = elim rest [
      | inl (f, busy') ↦ inl (
        e ∙ f,
        λ j le in_disk. elim (Bool-cases (ltb j (b + bpb))) [
          | inl near ↦ busy j (omega arith) (ground arith) in_disk
          | inr far ↦ busy' j (ground arith) in_disk
        ],
      )
      | inr (x, in_disk, free, f) ↦ inr (x, in_disk, free, e ∙ f)
    ]
