-- ===== src/Inodes/Writei.antt =====
-- writei as a whole: what it refuses, what it writes, and the new size.
use os_project.Prelude.{
  ℕ, zero, suc, ◌+◌, ◌*◌, ◌/◌, ◌%◌, ◌^◌, ◌<◌, ◌≤◌, true, false, ◌||◌, ◌==◌, ltb, Option, none, some,
  if◌then◌else◌, if_true, Bool-cases, ◌≡◌, ◌≢◌, ◌⊎◌, refl, sym, ap, ◌∙◌, inl, inr, arith,
}
use os_project.Blocks.{bsize, Superblock, Blocks, bblock}
use os_project.Blocks.Bitmap.{in_use}
use os_project.Inodes.{
  Inode, max_file, ndirect, put_uint, put_short, put_shorts, put_addrs, iupdate, iblock, dinode,
}
use os_project.Inodes.Content.{Written, write_loop, finish, refused, wrote, writei}
use os_project.Inodes.Layout.{block_no, Layout}
use os_project.Inodes.Growth.{byte, Outside}
use os_project.Inodes.Steady.{same_number, same_mark, same-Layout}
use os_project.Inodes.WriteLoop.{Wrote, write_loop-Wrote}

put_uint_away : (d : Blocks) (b i v c k : ℕ) → c ≢ b → put_uint d b i v c k ≡ d c k
unfolding put_uint
put_uint_away d b i v c k ne = ground arith

put_short_away : (d : Blocks) (b i v c k : ℕ) → c ≢ b → put_short d b i v c k ≡ d c k
unfolding put_short
put_short_away d b i v c k ne = ground arith

put_addrs_away :
    (n : ℕ) (ip : Inode) (d : Blocks) (b c k : ℕ) → c ≢ b → put_addrs n ip d b c k ≡ d c k
unfolding put_addrs
put_addrs_away zero ip d b c k ne = refl
put_addrs_away (suc n) ip d b c k ne =
    put_uint_away (put_addrs n ip d b) b _ _ c k ne ∙ put_addrs_away n ip d b c k ne

put_shorts_away : (ip : Inode) (d : Blocks) (b c k : ℕ) → c ≢ b → put_shorts ip d b c k ≡ d c k
unfolding put_shorts
put_shorts_away ip d b c k ne =
    let at = dinode ip.inum in
    let one = put_short d b (2 * at) ip.type in
    let two = put_short one b (2 * at + 1) ip.major in
    let three = put_short two b (2 * at + 2) ip.minor in
    put_short_away three b (2 * at + 3) ip.nlink c k ne
    ∙ put_short_away two b (2 * at + 2) ip.minor c k ne
    ∙ put_short_away one b (2 * at + 1) ip.major c k ne
    ∙ put_short_away d b (2 * at) ip.type c k ne

-- iupdate writes to the block of the inode only.
pub iupdate_away :
    (sb : Superblock) (ip : Inode) (d : Blocks) (c k : ℕ)
    → c ≢ iblock ip.inum sb
    → iupdate sb ip d c k ≡ d c k
unfolding iupdate
iupdate_away sb ip d c k ne =
    let b = iblock ip.inum sb in
    let shorts = put_shorts ip d b in
    put_addrs_away (ndirect + 1) ip (put_uint shorts b (dinode ip.inum + 2) ip.size) b c k ne
    ∙ put_uint_away shorts b (dinode ip.inum + 2) ip.size c k ne
    ∙ put_shorts_away ip d b c k ne

-- The size says nothing about the blocks.
abbrev pub resize : Inode → ℕ → Inode
resize ip size = record ip { size = size }

resize-Layout :
    (sb : Superblock) (ip : Inode) (d : Blocks) (size : ℕ)
    → Layout sb ip d
    → Layout sb (resize ip size) d
resize-Layout sb ip d size lay = record {
  marks = lay.marks;
  bitmap_inside = lay.bitmap_inside;
  small = lay.small;
  home = lay.home;
  home_inside = lay.home_inside;
  home_apart = lay.home_apart;
  used = lay.used;
  distinct = lay.distinct;
}

-- What a call of writei that is not refused leaves.
pub record Stored (src : ℕ → ℕ) (fault : ℕ → Option ℕ) (sb : Superblock) (ip : Inode) (d : Blocks)
    (off n : ℕ) (w : Written) : Type 0 where
  pub layout : Layout sb w.inode w.disk
  pub at_most : w.total ≤ n
  pub bytes : (i : ℕ) → i < w.total → byte w.inode w.disk (off + i) ≡ src i
  pub mapped : (i : ℕ) → i < w.total → block_no w.inode w.disk ((off + i) / bsize) ≢ 0
  pub outside :
      (o : ℕ)
      → o < max_file * bsize
      → (o < off) ⊎ (off + n ≤ o)
      → byte w.inode w.disk o ≡ byte ip d o
  pub numbers :
      (j : ℕ) → j ≤ max_file → block_no ip d j ≢ 0 → block_no w.inode w.disk j ≡ block_no ip d j
  pub others :
      (c k : ℕ)
      → in_use sb d c ≡ true
      → c < sb.size
      → ((y : ℕ) → y < sb.size → c ≢ bblock y sb)
      → c ≢ iblock ip.inum sb
      → Outside ip d c
      → w.disk c k ≡ d c k
  pub new_size : w.inode.size ≡ (if ltb ip.size (off + w.total) then off + w.total else ip.size)
  pub ends :
      (w.total ≡ n) ⊎ ((y : ℕ) → y < sb.size → in_use sb w.disk y ≡ true) ⊎ (fault w.total ≢ none)

-- iupdate keeps the content of the file.
module _ (sb : Superblock) (ip : Inode) (d : Blocks) (lay : Layout sb ip d) where
  abbrev e : Blocks
  e = iupdate sb ip d

  table : ip.addrs ndirect ≢ 0 → (k : ℕ) → e (ip.addrs ndirect) k ≡ d (ip.addrs ndirect) k
  table nz k = iupdate_away sb ip d (ip.addrs ndirect) k (lay.used max_file (omega arith) nz).3

  bitmap : (y k : ℕ) → y < sb.size → e (bblock y sb) k ≡ d (bblock y sb) k
  bitmap y k lt = iupdate_away sb ip d (bblock y sb) k (λ h. lay.home_apart y lt (sym h))

  iupdate-Layout : Layout sb ip e
  iupdate-Layout = same-Layout sb ip d e lay table bitmap

  iupdate_number : (j : ℕ) → block_no ip e j ≡ block_no ip d j
  iupdate_number = same_number sb ip d e lay table bitmap

  iupdate_mark : (y : ℕ) → y < sb.size → in_use sb e y ≡ in_use sb d y
  iupdate_mark = same_mark sb ip d e lay table bitmap

  iupdate_byte : (o : ℕ) → o < max_file * bsize → byte ip e o ≡ byte ip d o
  iupdate_byte o lt =
      ap (λ b. if b == 0 then 0 else e b (o % bsize)) (iupdate_number (o / bsize))
      ∙ kept (Bool-cases (block_no ip d (o / bsize) == 0))
    where
      kept :
          ((block_no ip d (o / bsize) == 0) ≡ true) ⊎ ((block_no ip d (o / bsize) == 0) ≡ false)
          → (if block_no ip d (o / bsize) == 0
              then 0
              else e (block_no ip d (o / bsize)) (o % bsize))
            ≡ byte ip d o
      kept (inl z) = if_true _ 0 _ z ∙ sym (if_true _ 0 _ z)
      kept (inr z) =
          ap (λ x. if block_no ip d (o / bsize) == 0 then 0 else x)
            (iupdate_away sb ip d (block_no ip d (o / bsize)) (o % bsize)
              (lay.used (o / bsize) (omega arith) (λ h. ground arith)).3)

module _ (src : ℕ → ℕ) (fault : ℕ → Option ℕ) (sb : Superblock) where
  finish-Stored :
      (ip : Inode) (d : Blocks) (off n : ℕ) (w : Written)
      → off + n ≤ max_file * bsize
      → Wrote src fault sb ip d off 0 n w
      → Stored src fault sb ip d off n (finish sb off w)
  finish-Stored ip d off n w room h =
      let size = if ltb w.inode.size (off + w.total) then off + w.total else w.inode.size in
      let ip' = resize w.inode size in
      let lay : Layout sb ip' w.disk = resize-Layout sb w.inode w.disk size h.grown.layout in
      record {
        layout = iupdate-Layout sb ip' w.disk lay;
        at_most = omega (arith, h.at_most);
        bytes = λ i lt.
            iupdate_byte sb ip' w.disk lay (off + i) (omega (arith, h.at_most, lt, room))
            ∙ h.bytes i (omega (arith, lt))
            ∙ ap src (omega arith);
        mapped = λ i lt z.
            h.mapped i (omega (arith, lt))
              (sym (iupdate_number sb ip' w.disk lay ((off + i) / bsize)) ∙ z);
        outside = λ o lt out. iupdate_byte sb ip' w.disk lay o lt ∙ h.grown.bytes o lt out;
        numbers = λ j le nz. iupdate_number sb ip' w.disk lay j ∙ h.grown.numbers j le nz;
        others = λ c k u lt off_bitmap off_home out.
            iupdate_away sb ip' w.disk c k
              (λ e. off_home (e ∙ ap (λ n. iblock n sb) h.grown.same_inum))
            ∙ h.grown.others c k u lt off_bitmap out;
        new_size = ap (λ s. if ltb s (off + w.total) then off + w.total else s) h.grown.same_size;
        ends = elim h.ends [
          | inl e ↦ inl (omega (arith, e))
          | inr (inl full) ↦ inr (inl (λ y lt. iupdate_mark sb ip' w.disk lay y lt ∙ full y lt))
          | inr (inr e) ↦ inr (inr e)
        ];
      }

  module _ (ip : Inode) (d : Blocks) (off n : ℕ) (off_word : off < 2 ^ 32)
      (n_word : n < 2 ^ 32) where
    refuses :
        (ip.size < off) ⊎ (max_file * bsize < off + n) → writei src fault sb ip d off n ≡ refused
    unfolding writei
    refuses h = ground arith

    writes :
        (w : Written)
        → off ≤ ip.size
        → off + n ≤ max_file * bsize
        → write_loop n src fault sb ip d off 0 n ≡ some w
        → writei src fault sb ip d off n ≡ wrote (finish sb off w)
    unfolding writei
    writes w le room e = ground arith

  -- A call of writei, with 32-bit numbers, at an offset behind the end of the file or with a range behind the largest file is
  -- refused. Any other call, in a layout of the inode where no two numbers of the file are the same
  -- block, writes the first bytes of the range from the source into the file: it maps their blocks,
  -- changes no other byte of the file and no block in use elsewhere, keeps the layout, grows the size
  -- to the end of what is written, and stops early only if the disk is full or a copy fails.
  pub writei_lem :
      (ip : Inode) (d : Blocks) (off n : ℕ)
      → off < 2 ^ 32
      → n < 2 ^ 32
      → Layout sb ip d
      → ((ip.size < off) ⊎ (max_file * bsize < off + n))
          × (writei src fault sb ip d off n ≡ refused)
        ⊎ (off ≤ ip.size)
          × (off + n ≤ max_file * bsize)
          × (w : Written) × (writei src fault sb ip d off n ≡ wrote w)
          × Stored src fault sb ip d off n w
  writei_lem ip d off n off_word n_word lay =
      elim (Bool-cases (ltb ip.size off || ltb (max_file * bsize) (off + n))) [
        | inl t ↦
            let why : (ip.size < off) ⊎ (max_file * bsize < off + n) = or_cases t in
            inl (why, refuses ip d off n off_word n_word why)
        | inr f ↦
            let le : off ≤ ip.size = ground arith in
            let room : off + n ≤ max_file * bsize = ground arith in
            let (w, ran, h) = write_loop-Wrote src fault sb n ip d off 0 n lay room (omega arith) in
            inr (
              le,
              room,
              finish sb off w,
              writes ip d off n off_word n_word w le room ran,
              finish-Stored ip d off n w room h,
            )
      ]
    where
      or_cases :
          (ltb ip.size off || ltb (max_file * bsize) (off + n)) ≡ true
          → (ip.size < off) ⊎ (max_file * bsize < off + n)
      or_cases t = elim (Bool-cases (ltb ip.size off)) [
        | inl e ↦ inl (ground arith)
        | inr e ↦ inr (ground arith)
      ]
