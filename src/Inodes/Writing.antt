-- ===== src/Inodes/Writing.antt =====
-- A round of writei puts its bytes into one block of the file.
use os_project.Prelude.{
  ℕ, ◌+◌, ◌*◌, ◌-◌, ◌/◌, ◌%◌, ◌<◌, ◌≤◌, true, false, ◌&&◌, ◌==◌, leb, ltb, if◌then◌else◌, if_true,
  if_false, Bool-cases, ◌≡◌, ◌≢◌, ◌⊎◌, refl, sym, ap, ◌∙◌, inl, inr, arith,
}
use os_project.Blocks.{bsize, Superblock, Blocks, bblock}
use os_project.Inodes.{Inode, ndirect, max_file}
use os_project.Inodes.Content.{put_bytes}
use os_project.Inodes.Layout.{block_no, Layout}
use os_project.Inodes.Steady.{same_number, same_mark, same-Layout}
use os_project.Inodes.Growth.{byte, Grown}

-- Bytes put into the block `b` that is number `bn` of the file.
module _ (sb : Superblock) (ip : Inode) (d : Blocks) (src : ℕ → ℕ) (tot m off : ℕ)
    (lay : Layout sb ip d) (inside : off < max_file * bsize)
    (here : block_no ip d (off / bsize) ≢ 0) (room : off % bsize + m ≤ bsize) where
  abbrev b : ℕ
  b = block_no ip d (off / bsize)

  abbrev after : Blocks
  after = put_bytes src tot m d b (off % bsize)

  far : (c k : ℕ) → c ≢ b → after c k ≡ d c k
  far c k ne =
      if_false (c == b && leb (off % bsize) k && ltb k (off % bsize + m)) _ (d c k) (ground arith)

  table_far : ip.addrs ndirect ≢ 0 → ip.addrs ndirect ≢ b
  table_far nz h =
      absurd (
        omega (arith, lay.distinct (off / bsize) max_file (omega arith) (omega arith) here (sym h)))

  bitmap_far : (y k : ℕ) → y < sb.size → after (bblock y sb) k ≡ d (bblock y sb) k
  bitmap_far y k lt =
      far (bblock y sb) k (λ h. (lay.used (off / bsize) (omega arith) here).2 y lt (sym h))

  table_kept : ip.addrs ndirect ≢ 0 → (k : ℕ) → after (ip.addrs ndirect) k ≡ d (ip.addrs ndirect) k
  table_kept nz k = far (ip.addrs ndirect) k (table_far nz)

  pub same_block_no : (j : ℕ) → block_no ip after j ≡ block_no ip d j
  same_block_no = same_number sb ip d after lay table_kept bitmap_far

  -- The bytes of the block itself, and those of any other.
  in_block :
      (o : ℕ)
      → o / bsize ≡ off / bsize
      → after b (o % bsize)
        ≡ (if leb off o && ltb o (off + m) then src (tot + (o - off)) else d b (o % bsize))
  in_block o e =
      let test : (b == b && leb (off % bsize) (o % bsize) && ltb (o % bsize) (off % bsize + m))
          ≡ (leb off o && ltb o (off + m)) =
        ground arith in
      ap (λ t. if t then src (tot + (o % bsize - off % bsize)) else d b (o % bsize)) test
      ∙ shift (Bool-cases (leb off o && ltb o (off + m)))
    where
      shift :
          ((leb off o && ltb o (off + m)) ≡ true) ⊎ ((leb off o && ltb o (off + m)) ≡ false)
          → (if leb off o && ltb o (off + m)
              then src (tot + (o % bsize - off % bsize))
              else d b (o % bsize))
            ≡ (if leb off o && ltb o (off + m) then src (tot + (o - off)) else d b (o % bsize))
      shift (inl t) = if_true _ _ _ t ∙ ap src (ground arith) ∙ sym (if_true _ _ _ t)
      shift (inr t) = if_false _ _ _ t ∙ sym (if_false _ _ _ t)

  other_range : (o : ℕ) → o / bsize ≢ off / bsize → (leb off o && ltb o (off + m)) ≡ false
  other_range o ne = ground arith

  pub put_byte_lem :
      (o : ℕ)
      → o < max_file * bsize
      → byte ip after o
        ≡ (if leb off o && ltb o (off + m) then src (tot + (o - off)) else byte ip d o)
  put_byte_lem o lt =
      ap (λ c. if c == 0 then 0 else after c (o % bsize)) (same_block_no (o / bsize))
      ∙ elim (Bool-cases (o / bsize == off / bsize)) [
        | inl e ↦
            let same : o / bsize ≡ off / bsize = ground arith in
            ap (λ j. if block_no ip d j == 0 then 0 else after (block_no ip d j) (o % bsize)) same
            ∙ if_false (b == 0) 0 _ (ground arith)
            ∙ in_block o same
            ∙ ap (λ x. if leb off o && ltb o (off + m) then src (tot + (o - off)) else x)
                (sym (
                  ap (λ j. if block_no ip d j == 0 then 0 else d (block_no ip d j) (o % bsize)) same
                  ∙ if_false (b == 0) 0 _ (ground arith)))
        | inr e ↦
            let ne : o / bsize ≢ off / bsize = λ h. ground arith in
            elsewhere (Bool-cases (block_no ip d (o / bsize) == 0)) ne
            ∙ sym (if_false (leb off o && ltb o (off + m)) _ _ (other_range o ne))
      ]
    where
      elsewhere :
          ((block_no ip d (o / bsize) == 0) ≡ true) ⊎ ((block_no ip d (o / bsize) == 0) ≡ false)
          → o / bsize ≢ off / bsize
          → (if block_no ip d (o / bsize) == 0
              then 0
              else after (block_no ip d (o / bsize)) (o % bsize))
            ≡ byte ip d o
      elsewhere (inl z) ne = if_true _ 0 _ z ∙ sym (if_true _ 0 _ z)
      elsewhere (inr z) ne =
          ap (λ x. if block_no ip d (o / bsize) == 0 then 0 else x)
            (far (block_no ip d (o / bsize)) (o % bsize) (λ h. ne (
              sym
                (lay.distinct (off / bsize) (o / bsize) (omega arith) (omega arith) here (sym h)))))

  pub put-Grown : {lo hi : ℕ} → lo ≤ off → off + m ≤ hi → Grown sb lo hi ip d ip after
  put-Grown low high = record {
    layout = same-Layout sb ip d after lay table_kept bitmap_far;
    numbers = λ j le nz. same_block_no j;
    bytes = λ o lt away.
        put_byte_lem o lt
        ∙ if_false (leb off o && ltb o (off + m)) _ _
            (elim away [ inl x ↦ ground arith | inr x ↦ ground arith ]);
    others = λ c k u lt off_bitmap out. far c k (out (off / bsize) (omega arith) here);
    marks_kept = λ y lt u. same_mark sb ip d after lay table_kept bitmap_far y lt ∙ u;
    fresh = λ j le nz. inl (same_block_no j);
    same_size = refl;
    same_inum = refl;
  }
