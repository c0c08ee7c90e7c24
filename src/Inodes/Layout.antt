-- ===== src/Inodes/Layout.antt =====
-- The blocks of an inode: that no two of its numbers are the same block, and none is a block of the
-- bitmap or of the inode itself.
use os_project.Prelude.{
  ℕ, ◌-◌, ◌^◌, ◌<◌, ◌≤◌, Bool, true, ◌||◌, ◌==◌, ltb, if◌then◌else◌, if_true, if_false, Bool-cases,
  ◌≡◌, ◌≢◌, ◌⊎◌, sym, ap, ◌∙◌, inl, inr, arith,
}
use mathlib.Core.Path.{subst}
use os_project.Blocks.{Superblock, Blocks, bblock}
use os_project.Blocks.Bitmap.{in_use}
use os_project.Blocks.Alloc.{WellFormed}
use os_project.Blocks.Disk.{GivenOut}
use os_project.Inodes.{Inode, ndirect, max_file, uint_at, iblock}

-- The number of block `i` of a file, 0 if there is none; the last one is the indirect block.
abbrev pub block_no : Inode → Blocks → ℕ → ℕ
block_no ip d i =
    if i == max_file
    then ip.addrs ndirect
    else if ltb i ndirect
    then ip.addrs i
    else if ip.addrs ndirect == 0
    then 0
    else uint_at d (ip.addrs ndirect) (i - ndirect)

-- Block `b` is on the disk, marked in use, and neither in the bitmap nor where the inode is.
abbrev pub Data : Superblock → Inode → Blocks → ℕ → Type 0
Data sb ip d b =
    (in_use sb d b ≡ true)
    × (b < sb.size)
    × ((y : ℕ) → y < sb.size → b ≢ bblock y sb)
    × (b ≢ iblock ip.inum sb)

pub record Layout (sb : Superblock) (ip : Inode) (d : Blocks) : Type 0 where
  pub marks : WellFormed sb d
  pub bitmap_inside : (b : ℕ) → b < sb.size → bblock b sb < sb.size
  pub small : sb.size ≤ 2 ^ 32
  pub home : in_use sb d (iblock ip.inum sb) ≡ true
  pub home_inside : iblock ip.inum sb < sb.size
  pub home_apart : (y : ℕ) → y < sb.size → iblock ip.inum sb ≢ bblock y sb
  pub used : (i : ℕ) → i ≤ max_file → block_no ip d i ≢ 0 → Data sb ip d (block_no ip d i)
  pub distinct :
      (i j : ℕ)
      → i ≤ max_file
      → j ≤ max_file
      → block_no ip d i ≢ 0
      → block_no ip d i ≡ block_no ip d j
      → i ≡ j

-- A block given out, as number `i` of the file: `d'` has the marks of `e`.
module _ (sb : Superblock) (ip ip' : Inode) (d e d' : Blocks) (a i : ℕ) (lay : Layout sb ip d)
    (out : GivenOut sb d a e) (same_inum : ip'.inum ≡ ip.inum)
    (same_marks : (y : ℕ) → y < sb.size → in_use sb d' y ≡ in_use sb e y)
    (numbers : (j : ℕ)
      → j ≤ max_file
      → block_no ip' d' j ≡ (if j == i then a else block_no ip d j)) where
  pub marked_now : (y : ℕ) → y < sb.size → in_use sb d y ≡ true → in_use sb d' y ≡ true
  marked_now y lt h = same_marks y lt ∙ out.only_mark y lt ∙ either (y == a) _ h
    where
      either : (b c : Bool) → c ≡ true → (b || c) ≡ true
      either b c h = ground arith

  new-Data : Data sb ip d' a
  new-Data = (
    same_marks a out.in_disk ∙ out.only_mark a out.in_disk ∙ ground arith,
    out.in_disk,
    (λ y lt h. absurd (ground (arith, out.free_before, ap (in_use sb d) h, lay.marks.bitmap y lt))),
    λ h. absurd (ground (arith, out.free_before, ap (in_use sb d) h, lay.home)),
  )

  old-Data : (b : ℕ) → Data sb ip d b → Data sb ip d' b
  old-Data b (use_mark, lt, off_bitmap, off_home) =
      (marked_now b lt use_mark, lt, off_bitmap, off_home)

  moved : (b : ℕ) → Data sb ip d' b → Data sb ip' d' b
  moved b (use_mark, lt, off_bitmap, off_home) =
      (use_mark, lt, off_bitmap, λ h. off_home (h ∙ ap (λ n. iblock n sb) same_inum))

  -- No number of the file is the new block.
  pub new_block : (j : ℕ) → j ≤ max_file → block_no ip d j ≢ a
  new_block j le h = absurd (
      ground (
        arith,
        out.free_before,
        ap (in_use sb d) h,
        (lay.used j le (λ z. omega (arith, out.positive, h, z))).0,
      ))

  pub number_cases :
      (j : ℕ)
      → j ≤ max_file
      → ((j ≡ i) × (block_no ip' d' j ≡ a)) ⊎ ((j ≢ i) × (block_no ip' d' j ≡ block_no ip d j))
  number_cases j le = elim (Bool-cases (j == i)) [
    | inl e' ↦ inl (ground arith, numbers j le ∙ if_true (j == i) a _ e')
    | inr e' ↦ inr (ground arith, numbers j le ∙ if_false (j == i) a _ e')
  ]

  pub given-Layout : Layout sb ip' d'
  given-Layout = record {
    marks = record {
      boot = marked_now 0 (omega (arith, out.in_disk)) lay.marks.boot;
      bitmap = λ b lt. marked_now (bblock b sb) (lay.bitmap_inside b lt) (lay.marks.bitmap b lt);
    };
    bitmap_inside = lay.bitmap_inside;
    small = lay.small;
    home =
        subst (λ (n : ℕ). in_use sb d' (iblock n sb) ≡ true) (sym same_inum)
          (marked_now (iblock ip.inum sb) lay.home_inside lay.home);
    home_inside = subst (λ (n : ℕ). iblock n sb < sb.size) (sym same_inum) lay.home_inside;
    home_apart =
        subst (λ (n : ℕ). (y : ℕ) → y < sb.size → iblock n sb ≢ bblock y sb) (sym same_inum)
          lay.home_apart;
    used = λ j le nz. elim (number_cases j le) [
      | inl (_, f) ↦ subst (Data sb ip' d') (sym f) (moved a new-Data)
      | inr (_, f) ↦
          subst (Data sb ip' d') (sym f) (moved _ (old-Data _ (lay.used j le (λ z. nz (f ∙ z)))))
    ];
    distinct = λ j k le le' nz same. elim (number_cases j le) [
      | inl (x, f) ↦ elim (number_cases k le') [
        | inl (y, h) ↦ x ∙ sym y
        | inr (_, h) ↦ absurd (new_block k le' (sym h ∙ sym same ∙ f))
      ]
      | inr (_, f) ↦ elim (number_cases k le') [
        | inl (y, h) ↦ absurd (new_block j le (sym f ∙ same ∙ h))
        | inr (_, h) ↦ lay.distinct j k le le' (λ z. nz (f ∙ z)) (sym f ∙ same ∙ h)
      ]
    ];
  }
