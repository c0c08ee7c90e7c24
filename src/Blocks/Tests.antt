-- ===== src/Blocks/Tests.antt =====
-- A small disk for balloc and bfree, and their theorems there.
use os_project.Prelude.{ℕ, ◌≡◌, ◌<◌, ◌⊎◌, refl, true, ◌==◌, ltb, if◌then◌else◌, arith, some}
use mathlib.Core.Path.{subst}
use os_project.Blocks.{
  Superblock, Blocks, bblock, test_bit, set_bit, bzero, balloc_bits, balloc_blocks, balloc, bfree,
}
use os_project.Blocks.Bitmap.{in_use}
use os_project.Blocks.Alloc.{WellFormed}
use os_project.Blocks.Disk.{GivenOut, balloc_lem, bfree-balloc}

-- A hundred blocks, of which 50 is the bitmap, and the first 61 are in use.
abbrev small : Superblock
small = record { size = 100; ninodes = 200; inodestart = 32; bmapstart = 50 }

abbrev image : Blocks
image c j = if c == 50 then if ltb j 7 then 255 else if j == 7 then 31 else 0 else 9

image-WellFormed : WellFormed small image
image-WellFormed = record {
  boot = unfold test_bit in refl;
  bitmap = λ b lt. subst (λ c. in_use small image c ≡ true) (middle b lt) (unfold test_bit in refl);
}
  where
    middle : (b : ℕ) → b < 100 → 50 ≡ bblock b small
    middle b lt = omega arith

image_inside : (b : ℕ) → b < small.size → bblock b small < small.size
image_inside b lt = omega arith

abbrev after : Blocks
after = (balloc small image).1

gives : balloc small image ≡ (61, after)
unfolding balloc balloc_blocks balloc_bits test_bit
gives = refl

zeroed_test : (after 61 5 ≡ 0) × (after 60 5 ≡ 9) × (after 50 7 ≡ 63)
unfolding balloc balloc_blocks balloc_bits test_bit set_bit bzero
zeroed_test = (refl, refl, refl)

balloc_lem_example :
    (balloc small image ≡ (0, image)) × ((j : ℕ) → j < 100 → in_use small image j ≡ true)
    ⊎ ((x : ℕ) × (e : Blocks) × (balloc small image ≡ (x, e)) × GivenOut small image x e)
balloc_lem_example = balloc_lem small image image-WellFormed image_inside

bfree-balloc_example :
    (f : Blocks) × (bfree 61 small after ≡ some f)
    × ((y : ℕ) → y < small.size → in_use small f y ≡ in_use small image y)
bfree-balloc_example =
    bfree-balloc small image 61 after image-WellFormed image_inside gives (omega arith)
