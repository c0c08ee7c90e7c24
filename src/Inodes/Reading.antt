-- ===== src/Inodes/Reading.antt =====
-- readi, and what it returns behind writei.
use os_project.Prelude.{
  ℕ, zero, suc, ◌+◌, ◌*◌, ◌-◌, ◌/◌, ◌%◌, ◌^◌, ◌<◌, ◌≤◌, Bool, true, false, ◌||◌, ◌==◌, ltb, min,
  Option, some, List, [], ◌∷◌, ◌++◌, if◌then◌else◌, if_false, ◌≡◌, ◌≢◌, refl, sym, ap, ap₂, ◌∙◌,
  inl, inr, arith,
}
use os_project.Blocks.{bsize, Superblock, Blocks}
use os_project.Inodes.{Inode, max_file, own_block, indirect, bmap}
use os_project.Inodes.Content.{
  block_bytes, round_bytes, Read, read_loop, readi, Written, wrote, writei,
}
use os_project.Inodes.Layout.{block_no, Layout}
use os_project.Inodes.Growth.{byte}
use os_project.Inodes.WriteLoop.{round_lem}
use os_project.Inodes.Writei.{writei_lem}

-- The first `m` values of a sequence from `at` on.
abbrev pub values : (ℕ → ℕ) → ℕ → ℕ → List ℕ
values f at zero = []
values f at (suc m) = f at ∷ values f (at + 1) m

values_add : (f : ℕ → ℕ) (at m k : ℕ) → values f at (m + k) ≡ values f at m ++ values f (at + m) k
values_add f at zero k = ap₂ (values f) (omega arith) (omega arith)
values_add f at (suc m) k =
    let e : suc m + k ≡ suc (m + k) = omega arith in
    let a : at + 1 + m ≡ at + suc m = omega arith in
    ap (values f at) e
    ∙ ap (λ l. f at ∷ l)
        (values_add f (at + 1) m k ∙ ap (λ x. values f (at + 1) m ++ values f x k) a)

values_same :
    (f g : ℕ → ℕ) (at to m : ℕ)
    → ((i : ℕ) → i < m → f (at + i) ≡ g (to + i))
    → values f at m ≡ values g to m
values_same f g at to zero h = refl
values_same f g at to (suc m) h =
    let a : at ≡ at + 0 = omega arith in
    let b : to + 0 ≡ to = omega arith in
    ap₂ (λ x l. x ∷ l) (ap f a ∙ h 0 (omega arith) ∙ ap g b)
      (values_same f g (at + 1) (to + 1) m (λ i lt.
        let c : at + 1 + i ≡ at + (i + 1) = omega arith in
        let e : to + (i + 1) ≡ to + 1 + i = omega arith in
        ap f c ∙ h (i + 1) (omega arith) ∙ ap g e))

block_bytes_lem : (m : ℕ) (d : Blocks) (b from : ℕ) → block_bytes m d b from ≡ values (d b) from m
block_bytes_lem zero d b from = refl
block_bytes_lem (suc m) d b from = ap (λ l. d b from ∷ l) (block_bytes_lem m d b (from + 1))

-- bmap returns the block that a file has, and changes nothing.
bmap_there :
    (sb : Superblock) (ip : Inode) (d : Blocks) (bn : ℕ)
    → bn < max_file
    → block_no ip d bn ≢ 0
    → bmap sb ip d bn ≡ some (block_no ip d bn, ip, d)
unfolding bmap own_block indirect
bmap_there sb ip d bn lt nz = ground arith

-- What readi returns when it reads `m` bytes.
abbrev pub Whole : Inode → Blocks → List ℕ → Read
Whole ip d bytes = record { bytes = bytes; failed = false; inode = ip; disk = d }

module _ (sb : Superblock) (ip : Inode) (d : Blocks) where
  abbrev ok : ℕ → Bool
  ok tot = true

  read_end : (f off tot : ℕ) → read_loop f ok sb ip d off tot 0 ≡ some (Whole ip d [])
  unfolding read_loop
  read_end zero off tot = refl
  read_end (suc f) off tot = refl

  read_next :
      (f off tot left b : ℕ) (r : Read)
      → (left == 0) ≡ false
      → bmap sb ip d (off / bsize) ≡ some (b, ip, d)
      → b ≢ 0
      → read_loop f ok sb ip d
          (off + round_bytes off left)
          (tot + round_bytes off left)
          (left - round_bytes off left)
        ≡ some r
      → read_loop (suc f) ok sb ip d off tot left
        ≡ some
            (record r { bytes = block_bytes (round_bytes off left) d b (off % bsize) ++ r.bytes })
  unfolding read_loop
  read_next f off tot left b r more found nz rest = ground arith

  -- With the blocks of the range mapped, the loop reads the bytes of the file.
  read_loop_lem :
      (f off tot left : ℕ)
      → left ≤ f
      → off + left ≤ max_file * bsize
      → ((i : ℕ) → i < left → block_no ip d ((off + i) / bsize) ≢ 0)
      → read_loop f ok sb ip d off tot left ≡ some (Whole ip d (values (byte ip d) off left))
  read_loop_lem f off tot zero fuel room there = read_end f off tot
  read_loop_lem zero off tot (suc left) fuel room there = absurd (omega arith)
  read_loop_lem (suc f) off tot (suc left) fuel room there =
      let m = round_bytes off (suc left) in
      let (some_bytes, le, inside) = round_lem off (suc left) (omega arith) in
      let start : off / bsize ≡ (off + 0) / bsize = ap (λ o. o / bsize) (omega arith) in
      let here : block_no ip d (off / bsize) ≢ 0 =
        λ z. there 0 (omega arith) (sym (ap (block_no ip d) start) ∙ z) in
      let parts : m + (suc left - m) ≡ suc left = omega arith in
      read_next f off tot (suc left) (block_no ip d (off / bsize))
        (Whole ip d (values (byte ip d) (off + m) (suc left - m))) (ground arith)
        (bmap_there sb ip d (off / bsize) (omega arith) here) here
        (read_loop_lem f (off + m) (tot + m) (suc left - m) (omega arith) (omega arith) (λ i lt z.
          let at : off + (m + i) ≡ off + m + i = omega arith in
          there (m + i) (omega arith) (ap (λ o. block_no ip d (o / bsize)) at ∙ z)))
      ∙ ap (λ l. some (Whole ip d l))
          (ap (λ l. l ++ values (byte ip d) (off + m) (suc left - m))
              (block_bytes_lem m d (block_no ip d (off / bsize)) (off % bsize)
                ∙ values_same (d (block_no ip d (off / bsize))) (byte ip d) (off % bsize) off m
                    (in_place m inside here))
            ∙ sym (values_add (byte ip d) off m (suc left - m))
            ∙ ap (values (byte ip d) off) parts)
    where
      in_place :
          (m : ℕ)
          → off % bsize + m ≤ bsize
          → block_no ip d (off / bsize) ≢ 0
          → (i : ℕ) → i < m
          → d (block_no ip d (off / bsize)) (off % bsize + i) ≡ byte ip d (off + i)
      in_place m inside here i lt =
          let place : off % bsize + i ≡ (off + i) % bsize = omega arith in
          let number : off / bsize ≡ (off + i) / bsize = omega arith in
          ap (d (block_no ip d (off / bsize))) place
          ∙ sym (if_false (block_no ip d (off / bsize) == 0) 0 _ (ground arith))
          ∙ ap (λ j. if block_no ip d j == 0 then 0 else d (block_no ip d j) ((off + i) % bsize))
              number

  module _ (off n : ℕ) (le : off ≤ ip.size) (room : off + n < 2 ^ 32) where
    tests : (ltb ip.size off || ltb ((off + n) % 2 ^ 32) off) ≡ false
    tests = ground arith

    amount : (if ltb ip.size ((off + n) % 2 ^ 32) then ip.size - off else n) ≡ min n (ip.size - off)
    amount = ground arith

    readi_runs :
        readi ok sb ip d off n
        ≡ read_loop (min n (ip.size - off)) ok sb ip d off 0 (min n (ip.size - off))
    unfolding readi
    readi_runs =
        if_false (ltb ip.size off || ltb ((off + n) % 2 ^ 32) off) _ _ tests
        ∙ ap (λ k. read_loop k ok sb ip d off 0 k) amount

  -- Where the blocks of a file are mapped up to its end, and the file is no larger than the largest file,
  -- a read of `n` bytes at an offset in it, of a range that ends below 2^32 and whose copies succeed,
  -- returns the bytes of the file up to the end of the range or of the file, and changes neither the
  -- inode nor the disk.
  pub readi_lem :
      (off n : ℕ)
      → off ≤ ip.size
      → off + n < 2 ^ 32
      → ip.size ≤ max_file * bsize
      → ((j : ℕ) → j * bsize < ip.size → block_no ip d j ≢ 0)
      → readi ok sb ip d off n ≡ some (Whole ip d (values (byte ip d) off (min n (ip.size - off))))
  readi_lem off n le room small there =
      readi_runs off n le room
      ∙ read_loop_lem (min n (ip.size - off)) off 0 (min n (ip.size - off)) (omega arith)
          (omega arith) (λ i lt. there ((off + i) / bsize) (omega arith))

-- A range that writei has written is read back: in a well-formed file, where no two numbers are the same
-- block and all its blocks are in use and apart from the bitmap and from the block of the inode, behind
-- a call with 32-bit numbers that is not refused, a read of as many bytes as it has written, whose
-- copies succeed, returns the bytes of the source.
pub readi-writei :
    (src : ℕ → ℕ) (fault : ℕ → Option ℕ) (sb : Superblock) (ip : Inode) (d : Blocks) (off n : ℕ)
    → off < 2 ^ 32
    → n < 2 ^ 32
    → Layout sb ip d
    → off ≤ ip.size
    → off + n ≤ max_file * bsize
    → (w : Written) × (writei src fault sb ip d off n ≡ wrote w)
      × (readi (λ tot. true) sb w.inode w.disk off w.total
          ≡ some (Whole w.inode w.disk (values src 0 w.total)))
readi-writei src fault sb ip d off n off_word n_word lay le room =
    elim (writei_lem src fault sb ip d off n off_word n_word lay) [
      | inl (inl x, _) ↦ absurd (omega arith)
      | inl (inr x, _) ↦ absurd (omega arith)
      | inr (_, _, w, ran, h) ↦
          let total : w.total ≤ n = h.at_most in
          let grown : off + w.total ≤ w.inode.size = ground (arith, h.new_size) in
          let all : min w.total (w.inode.size - off) ≡ w.total = ground arith in
          (
            w,
            ran,
            readi_runs sb w.inode w.disk off w.total (omega arith) (omega arith)
                ∙ ap (λ k. read_loop k (λ tot. true) sb w.inode w.disk off 0 k) all
                ∙ read_loop_lem sb w.inode w.disk w.total off 0 w.total (omega arith) (omega arith)
                    h.mapped
                ∙ ap (λ l. some (Whole w.inode w.disk l))
                    (values_same (byte w.inode w.disk) src off 0 w.total
                      (λ i lt. let z : i ≡ 0 + i = omega arith in h.bytes i lt ∙ ap src z)),
          )
    ]
