-- ===== src/Inodes/Tests.antt =====
-- A file of two blocks on a small disk, and the theorems of the inodes there.
use os_project.Prelude.{
  ℕ, ◌+◌, ◌*◌, ◌-◌, ◌<◌, ◌≤◌, ◌≡◌, ◌≢◌, ◌⊎◌, refl, sym, ap, ◌∙◌, inl, inr, true, false, ◌==◌, ltb,
  min, Bool-cases, Option, some, none, List, [], ◌∷◌, if◌then◌else◌, arith,
}
use mathlib.Core.Path.{subst}
use os_project.Blocks.{bsize, Superblock, Blocks, bblock, test_bit, balloc_bits, balloc_blocks}
use os_project.Blocks.Bitmap.{in_use}
use os_project.Inodes.{Inode, Found, max_file, bmap, ilock, iupdate, itrunc}
use os_project.Inodes.Content.{Written, WriteResult, refused, wrote, writei, readi}
use os_project.Inodes.Layout.{block_no, Data, Layout}
use os_project.Inodes.Growth.{byte}
use os_project.Inodes.Mapping.{Blocked, bmap_lem}
use os_project.Inodes.Writei.{Stored, writei_lem}
use os_project.Inodes.Storing.{Sized, SameFields, ilock-iupdate}
use os_project.Inodes.Itrunc.{Emptied, itrunc_lem}
use os_project.Inodes.Paths.{
  NoSlash, Elements, Walk, join, cut_names, skip_slashes, skipelem, skipelem-join,
}
use os_project.Inodes.Reading.{Whole, values, readi_lem, readi-writei}

-- A hundred blocks, of which 50 is the bitmap, and the first 61 are in use. Inode 40 is in block 34.
abbrev small : Superblock
small = record { size = 100; ninodes = 200; inodestart = 32; bmapstart = 50 }

abbrev image : Blocks
image c j =
    if c == 50 then if ltb j 7 then 255 else if j == 7 then 31 else 0 else if c == 55 then 7 else 9

abbrev file : Inode
file = record {
  dev = 1;
  inum = 40;
  ref = 1;
  valid = true;
  type = 2;
  major = 0;
  minor = 0;
  nlink = 1;
  size = 1500;
  addrs = λ i. if i == 0 then 55 else if i == 1 then 60 else 0;
}

number_cases :
    (i : ℕ)
    → ((i ≡ 0) × (block_no file image i ≡ 55))
      ⊎ ((i ≡ 1) × (block_no file image i ≡ 60))
      ⊎ (block_no file image i ≡ 0)
number_cases i = elim (Bool-cases (i == 0)) [
  | inl e ↦ let z : i ≡ 0 = ground arith in inl (z, ap (block_no file image) z)
  | inr e ↦ elim (Bool-cases (i == 1)) [
    | inl h ↦ let o : i ≡ 1 = ground arith in inr (inl (o, ap (block_no file image) o))
    | inr h ↦ inr (inr (ground arith))
  ]
]

file_data : (b : ℕ) → (b ≡ 55) ⊎ (b ≡ 60) → Data small file image b
file_data b (inl e) =
    subst (Data small file image) (sym e)
      (unfold test_bit in refl, omega arith, (λ y lt h. omega arith), λ h. omega arith)
file_data b (inr e) =
    subst (Data small file image) (sym e)
      (unfold test_bit in refl, omega arith, (λ y lt h. omega arith), λ h. omega arith)

file_number :
    (i : ℕ)
    → block_no file image i ≢ 0
    → (block_no file image i ≡ 55) ⊎ (block_no file image i ≡ 60)
file_number i nz = elim (number_cases i) [
  | inl (_, e) ↦ inl e
  | inr (inl (_, e)) ↦ inr e
  | inr (inr e) ↦ absurd (nz e)
]

file-Layout : Layout small file image
file-Layout = record {
  marks = record { boot = unfold test_bit in refl; bitmap = λ b lt. middle_mark b lt };
  bitmap_inside = λ b lt. omega arith;
  small = omega arith;
  home = unfold test_bit in refl;
  home_inside = omega arith;
  home_apart = λ y lt h. omega arith;
  used = λ i le nz. file_data (block_no file image i) (file_number i nz);
  distinct = λ i j le le' nz same. elim (number_cases i) [
    | inl (x, e) ↦ elim (number_cases j) [
      | inl (y, f) ↦ x ∙ sym y
      | inr (inl (y, f)) ↦ absurd (omega arith)
      | inr (inr f) ↦ absurd (omega arith)
    ]
    | inr (inl (x, e)) ↦ elim (number_cases j) [
      | inl (y, f) ↦ absurd (omega arith)
      | inr (inl (y, f)) ↦ x ∙ sym y
      | inr (inr f) ↦ absurd (omega arith)
    ]
    | inr (inr e) ↦ absurd (nz e)
  ];
}
  where
    middle_mark : (b : ℕ) → b < 100 → in_use small image (bblock b small) ≡ true
    middle_mark b lt =
        let middle : 50 ≡ bblock b small = omega arith in
        subst (λ (c : ℕ). in_use small image c ≡ true) middle (unfold test_bit in refl)

abbrev ascending : ℕ → ℕ
ascending i = i + 100

abbrev no_fault : ℕ → Option ℕ
no_fault tot = none

-- Block 61 becomes the third one of the file.
abbrev written : WriteResult → Written
written (wrote w) = w
written r = record { total = 0; inode = file; disk = image }

write_test :
    (written (writei ascending no_fault small file image 1400 700)).total ≡ 700
    × ((written (writei ascending no_fault small file image 1400 700)).inode.size ≡ 2100)
    × (block_no (written (writei ascending no_fault small file image 1400 700)).inode image 2 ≡ 61)
unfolding writei balloc_blocks balloc_bits test_bit
write_test = (refl, refl, refl)

bmap_lem_example :
    (f : Found) × (bmap small file image 100 ≡ some f) × Blocked small file image 100 f
bmap_lem_example = bmap_lem small file image 100 file-Layout (omega arith)

writei_lem_example :
    ((1500 < 1400) ⊎ (max_file * bsize < 1400 + 700))
      × (writei ascending no_fault small file image 1400 700 ≡ refused)
    ⊎ (1400 ≤ 1500)
      × (1400 + 700 ≤ max_file * bsize)
      × (w : Written) × (writei ascending no_fault small file image 1400 700 ≡ wrote w)
      × Stored ascending no_fault small file image 1400 700 w
writei_lem_example =
    writei_lem ascending no_fault small file image 1400 700 (omega arith) (omega arith) file-Layout

readi_lem_example :
    readi (λ tot. true) small file image 1400 700
    ≡ some (Whole file image (values (byte file image) 1400 (min 700 (file.size - 1400))))
readi_lem_example =
    readi_lem small file image 1400 700 (omega arith) (omega arith) (omega arith) mapped
  where
    mapped : (j : ℕ) → j * bsize < 1500 → block_no file image j ≢ 0
    mapped j lt z = elim (Bool-cases (j == 0)) [
      | inl e ↦
          let n : 0 ≡ j = ground arith in absurd (omega (arith, z, ap (block_no file image) n))
      | inr e ↦
          let n : 1 ≡ j = ground arith in absurd (omega (arith, z, ap (block_no file image) n))
    ]

readi-writei_example :
    (w : Written) × (writei ascending no_fault small file image 1400 700 ≡ wrote w)
    × (readi (λ tot. true) small w.inode w.disk 1400 w.total
        ≡ some (Whole w.inode w.disk (values ascending 0 w.total)))
readi-writei_example =
    readi-writei ascending no_fault small file image 1400 700 (omega arith) (omega arith)
      file-Layout (omega arith) (omega arith)

file-Sized : Sized file
file-Sized = record {
  type = omega arith;
  major = omega arith;
  minor = omega arith;
  nlink = omega arith;
  size = omega arith;
  addrs = λ i. elim (number i) [
    | inl e ↦ omega arith
    | inr (inl e) ↦ omega arith
    | inr (inr e) ↦ omega arith
  ];
}
  where
    number : (i : ℕ) → (file.addrs i ≡ 55) ⊎ (file.addrs i ≡ 60) ⊎ (file.addrs i ≡ 0)
    number i = ground arith

-- A copy of the inode that has not been read.
abbrev unread : Inode
unread = record file { valid = false; type = 0; size = 0; addrs = λ i. 0 }

ilock-iupdate_example :
    (r : Inode) × (ilock small unread (iupdate small file image) ≡ some r)
    × (r.valid ≡ true)
    × SameFields file r
ilock-iupdate_example =
    ilock-iupdate small file unread image file-Sized (λ h. omega arith) refl (λ h. omega arith) refl

itrunc_lem_example :
    (ip' : Inode) × (d' : Blocks) × (itrunc small file image ≡ some (ip', d'))
    × Emptied small file image ip' d'
itrunc_lem_example = itrunc_lem small file image file-Layout

-- "///a//bb" and the elements "a" and "bb" behind two more slashes and one.
path_test : skipelem (47 ∷ 47 ∷ 47 ∷ 97 ∷ 47 ∷ 47 ∷ 98 ∷ 98 ∷ []) ≡ some (97 ∷ [], 98 ∷ 98 ∷ [])
unfolding skipelem
path_test = refl

abbrev two_parts : List (ℕ × List ℕ)
two_parts = (2, 97 ∷ []) ∷ (1, 98 ∷ 98 ∷ []) ∷ []

two_parts-Elements : Elements two_parts
two_parts-Elements =
    Elements.part (NoSlash.more refl NoSlash.empty)
      (Elements.part (NoSlash.more refl (NoSlash.more refl NoSlash.empty)) Elements.no_part)

skipelem-join_example :
    Walk (join two_parts 1) (cut_names two_parts)
    × Walk (skip_slashes (join two_parts 1)) (cut_names two_parts)
skipelem-join_example = skipelem-join two_parts 1 two_parts-Elements
