-- ===== src/Inodes/Growth.antt =====
-- What a new block does to a file: it keeps every byte, and so does the rest of the disk.
use os_project.Prelude.{
  ℕ, ◌*◌, ◌/◌, ◌%◌, ◌<◌, ◌≤◌, true, false, ◌==◌, if◌then◌else◌, if_true, if_false, Bool-cases, ◌≡◌,
  ◌≢◌, ◌⊎◌, refl, sym, ap, ◌∙◌, inl, inr, arith,
}
use mathlib.Core.Path.{subst}
use os_project.Blocks.{bsize, bpb, Superblock, Blocks, bblock, test_bit}
use os_project.Blocks.Bitmap.{in_use}
use os_project.Blocks.Disk.{GivenOut}
use os_project.Inodes.{Inode, max_file}
use os_project.Inodes.Layout.{block_no, Layout, given-Layout, number_cases, new_block, marked_now}

-- The byte of a file at an offset; there are zeros where there is no block.
abbrev pub byte : Inode → Blocks → ℕ → ℕ
byte ip d o =
    if block_no ip d (o / bsize) == 0 then 0 else d (block_no ip d (o / bsize)) (o % bsize)

-- Whether a block is one of the inode's.
abbrev pub Outside : Inode → Blocks → ℕ → Type 0
Outside ip d c = (j : ℕ) → j ≤ max_file → block_no ip d j ≢ 0 → c ≢ block_no ip d j

-- The file has the blocks that it had, and the same bytes but from `lo` to `hi`; blocks in use
-- elsewhere do not change.
pub record Grown (sb : Superblock) (lo hi : ℕ) (ip : Inode) (d : Blocks) (ip' : Inode) (d' : Blocks)
    : Type 0 where
  pub layout : Layout sb ip' d'
  pub numbers : (j : ℕ) → j ≤ max_file → block_no ip d j ≢ 0 → block_no ip' d' j ≡ block_no ip d j
  pub bytes : (o : ℕ) → o < max_file * bsize → (o < lo) ⊎ (hi ≤ o) → byte ip' d' o ≡ byte ip d o
  pub others :
      (c k : ℕ)
      → in_use sb d c ≡ true
      → c < sb.size
      → ((y : ℕ) → y < sb.size → c ≢ bblock y sb)
      → Outside ip d c
      → d' c k ≡ d c k
  pub marks_kept : (y : ℕ) → y < sb.size → in_use sb d y ≡ true → in_use sb d' y ≡ true
  pub fresh :
      (j : ℕ)
      → j ≤ max_file
      → block_no ip' d' j ≢ 0
      → (block_no ip' d' j ≡ block_no ip d j) ⊎ (in_use sb d (block_no ip' d' j) ≡ false)
  pub same_size : ip'.size ≡ ip.size
  pub same_inum : ip'.inum ≡ ip.inum

pub Grown-refl :
    {sb : Superblock} {ip : Inode} {d : Blocks} {lo hi : ℕ}
    → Layout sb ip d
    → Grown sb lo hi ip d ip d
Grown-refl lay = record {
  layout = lay;
  numbers = λ j le nz. refl;
  bytes = λ o lt away. refl;
  others = λ c k u lt b o. refl;
  marks_kept = λ y lt u. u;
  fresh = λ j le nz. inl refl;
  same_size = refl;
  same_inum = refl;
}

pub Grown-trans :
    {sb : Superblock} {lo hi : ℕ} {ip ip1 ip2 : Inode} {d d1 d2 : Blocks}
    → Grown sb lo hi ip d ip1 d1
    → Grown sb lo hi ip1 d1 ip2 d2
    → Grown sb lo hi ip d ip2 d2
Grown-trans {sb} {ip} {ip1} {ip2} {d} {d1} {d2} g h = record {
  layout = h.layout;
  numbers = λ j le nz. h.numbers j le (λ z. nz (sym (g.numbers j le nz) ∙ z)) ∙ g.numbers j le nz;
  bytes = λ o lt away. h.bytes o lt away ∙ g.bytes o lt away;
  others = λ c k u lt off_bitmap out.
      h.others c k (g.marks_kept c lt u) lt off_bitmap (λ j le nz e. elim (g.fresh j le nz) [
        | inl same ↦ out j le (λ z. nz (same ∙ z)) (e ∙ same)
        | inr free ↦ ground (arith, u, free, ap (in_use sb d) e)
      ])
      ∙ g.others c k u lt off_bitmap out;
  marks_kept = λ y lt u. h.marks_kept y lt (g.marks_kept y lt u);
  fresh = λ j le nz. elim (h.fresh j le nz) [
    | inl same ↦ elim (g.fresh j le (λ z. nz (same ∙ z))) [
      | inl old ↦ inl (same ∙ old)
      | inr free ↦ inr (ap (in_use sb d) same ∙ free)
    ]
    | inr free ↦ elim (Bool-cases (in_use sb d (block_no ip2 d2 j))) [
      | inl u ↦
          absurd
            (ground (arith, free, g.marks_kept (block_no ip2 d2 j) (h.layout.used j le nz).1 u))
      | inr f ↦ inr f
    ]
  ];
  same_size = h.same_size ∙ g.same_size;
  same_inum = h.same_inum ∙ g.same_inum;
}

pub Grown-widen :
    {sb : Superblock} {lo hi : ℕ} {ip ip' : Inode} {d d' : Blocks}
    → Grown sb 0 0 ip d ip' d'
    → Grown sb lo hi ip d ip' d'
Grown-widen g = record {
  layout = g.layout;
  numbers = g.numbers;
  bytes = λ o lt away. g.bytes o lt (inr (omega arith));
  others = g.others;
  marks_kept = g.marks_kept;
  fresh = g.fresh;
  same_size = g.same_size;
  same_inum = g.same_inum;
}

pub Grown-stretch :
    {sb : Superblock} {lo hi lo' hi' : ℕ} {ip ip' : Inode} {d d' : Blocks}
    → lo ≤ lo'
    → hi' ≤ hi
    → Grown sb lo' hi' ip d ip' d'
    → Grown sb lo hi ip d ip' d'
Grown-stretch low high g = record {
  layout = g.layout;
  numbers = g.numbers;
  bytes = λ o lt away.
      g.bytes o lt (elim away [ inl x ↦ inl (omega arith) | inr x ↦ inr (omega arith) ]);
  others = g.others;
  marks_kept = g.marks_kept;
  fresh = g.fresh;
  same_size = g.same_size;
  same_inum = g.same_inum;
}

-- A block `a` given out as number `i`, which the file did not have. Behind balloc only the indirect
-- block may change.
module _ (sb : Superblock) (ip ip' : Inode) (d e d' : Blocks) (a i : ℕ) (lay : Layout sb ip d)
    (out : GivenOut sb d a e) (missing : block_no ip d i ≡ 0) (same_inum : ip'.inum ≡ ip.inum)
    (same_size : ip'.size ≡ ip.size)
    (numbers : (j : ℕ) → j ≤ max_file → block_no ip' d' j ≡ (if j == i then a else block_no ip d j))
    (same : (c k : ℕ)
      → (block_no ip d max_file ≢ 0 → c ≢ block_no ip d max_file)
      → d' c k ≡ e c k) where
  same_marks : (y : ℕ) → y < sb.size → in_use sb d' y ≡ in_use sb e y
  same_marks y lt =
      ap (λ x. test_bit x (y % bpb % 8))
        (same (bblock y sb) (y % bpb / 8)
          (λ nz h. (lay.used max_file (omega arith) nz).2 y lt (sym h)))

  cases :
      (j : ℕ)
      → j ≤ max_file
      → ((j ≡ i) × (block_no ip' d' j ≡ a)) ⊎ ((j ≢ i) × (block_no ip' d' j ≡ block_no ip d j))
  cases j le = number_cases sb ip ip' d e d' a i lay out same_inum same_marks numbers j le

  -- Blocks in use, but the indirect block, the bitmap and the new one, are as before.
  same_block :
      (c k : ℕ)
      → in_use sb d c ≡ true
      → ((y : ℕ) → y < sb.size → c ≢ bblock y sb)
      → (block_no ip d max_file ≢ 0 → c ≢ block_no ip d max_file)
      → d' c k ≡ d c k
  same_block c k u off_bitmap off_table =
      same c k off_table
      ∙ out.others c k (λ h. absurd (ground (arith, out.free_before, ap (in_use sb d) h)))
          (off_bitmap a out.in_disk)

  -- The new block has zeros, as the missing one.
  zero_byte :
      (o : ℕ) → o < max_file * bsize → block_no ip' d' (o / bsize) ≡ a → d' a (o % bsize) ≡ 0
  zero_byte o lt h =
      same a (o % bsize) (λ nz z.
        new_block sb ip ip' d e d' a i lay out same_inum same_marks numbers max_file (omega arith)
          (sym z))
      ∙ out.zeros (o % bsize) (omega arith)

  same_byte : (o : ℕ) → o < max_file * bsize → byte ip' d' o ≡ byte ip d o
  same_byte o lt = elim (cases (o / bsize) (omega arith)) [
    | inl (x, f) ↦
        ap (λ b. if b == 0 then 0 else d' b (o % bsize)) f
        ∙ if_false (a == 0) 0 _ (ground (arith, out.positive))
        ∙ zero_byte o lt f
        ∙ sym (
            if_true (block_no ip d (o / bsize) == 0) 0 _
              (ground (arith, missing, ap (block_no ip d) x)))
    | inr (x, f) ↦
        ap (λ b. if b == 0 then 0 else d' b (o % bsize)) f
        ∙ kept (Bool-cases (block_no ip d (o / bsize) == 0))
  ]
    where
      kept :
          ((block_no ip d (o / bsize) == 0) ≡ true) ⊎ ((block_no ip d (o / bsize) == 0) ≡ false)
          → (if block_no ip d (o / bsize) == 0
              then 0
              else d' (block_no ip d (o / bsize)) (o % bsize))
            ≡ byte ip d o
      kept (inl z) = if_true _ 0 _ z ∙ sym (if_true _ 0 _ z)
      kept (inr z) =
          let nz : block_no ip d (o / bsize) ≢ 0 = λ h. ground arith in
          let data_block = lay.used (o / bsize) (omega arith) nz in
          ap (λ x. if block_no ip d (o / bsize) == 0 then 0 else x)
            (same_block (block_no ip d (o / bsize)) (o % bsize) data_block.0 data_block.2 (λ tz h.
              omega (arith, lay.distinct (o / bsize) max_file (omega arith) (omega arith) nz h)))

  pub given-Grown : Grown sb 0 0 ip d ip' d'
  given-Grown = record {
    layout = given-Layout sb ip ip' d e d' a i lay out same_inum same_marks numbers;
    numbers = λ j le nz. elim (cases j le) [
      | inl (x, f) ↦ absurd (nz (ap (block_no ip d) x ∙ missing))
      | inr (x, f) ↦ f
    ];
    bytes = λ o lt away. same_byte o lt;
    others = λ c k u lt off_bitmap off_file.
        same_block c k u off_bitmap (off_file max_file (omega arith));
    marks_kept = marked_now sb ip ip' d e d' a i lay out same_inum same_marks numbers;
    fresh = λ j le nz. elim (cases j le) [
      | inl (x, f) ↦ inr (subst (λ (b : ℕ). in_use sb d b ≡ false) (sym f) out.free_before)
      | inr (x, f) ↦ inl f
    ];
    same_size = same_size;
    same_inum = same_inum;
  }
