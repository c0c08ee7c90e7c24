-- ===== src/Inodes/Storing.antt =====
-- What iupdate puts on the disk is what ilock reads.
use os_project.Prelude.{
  ℕ, zero, suc, ◌+◌, ◌*◌, ◌-◌, ◌^◌, ◌<◌, ◌≤◌, true, false, ◌==◌, none, some, if_false, Bool-cases,
  ◌≡◌, ◌≢◌, ◌⊎◌, refl, sym, ap, ◌∙◌, inl, inr, arith,
}
use os_project.Blocks.{Superblock, Blocks}
use os_project.Inodes.{
  Inode, ndirect, uint_at, short_at, put_uint, put_short, put_shorts, put_addrs, iupdate, iblock,
  dinode, ilock,
}

module _ (d : Blocks) (b i v : ℕ) where
  uint_at-put_uint : v < 2 ^ 32 → uint_at (put_uint d b i v) b i ≡ v
  unfolding put_uint
  uint_at-put_uint lt = ground arith

  short_at-put_short : v < 2 ^ 16 → short_at (put_short d b i v) b i ≡ v
  unfolding put_short
  short_at-put_short lt = ground arith

  other_uint : (j : ℕ) → j ≢ i → uint_at (put_uint d b i v) b j ≡ uint_at d b j
  unfolding put_uint
  other_uint j ne = ground arith

  short_aside :
      (j : ℕ) → (j < 2 * i) ⊎ (2 * i + 1 < j) → short_at (put_uint d b i v) b j ≡ short_at d b j
  unfolding put_uint
  short_aside j out = ground arith

  other_short : (j : ℕ) → j ≢ i → short_at (put_short d b i v) b j ≡ short_at d b j
  unfolding put_short
  other_short j ne = ground arith

-- The memmove of the numbers: each gets its own, and what stands in front of them does not change.
module _ (ip : Inode) (d : Blocks) (b : ℕ) where
  abbrev at : ℕ
  at = dinode ip.inum

  uint_at-put_addrs :
      (n i : ℕ)
      → n ≤ ndirect + 1
      → i ≤ ndirect
      → ndirect < i + n
      → ((i : ℕ) → ip.addrs i < 2 ^ 32)
      → uint_at (put_addrs n ip d b) b (at + 3 + i) ≡ ip.addrs i
  unfolding put_addrs
  uint_at-put_addrs zero i le in_range last small = absurd (omega arith)
  uint_at-put_addrs (suc n) i le in_range last small = elim (Bool-cases (i == ndirect - n)) [
    | inl e ↦
        let same : i ≡ ndirect - n = ground arith in
        ap (λ k. uint_at (put_addrs (suc n) ip d b) b (at + 3 + k)) same
        ∙ uint_at-put_uint (put_addrs n ip d b) b (at + 3 + (ndirect - n)) (ip.addrs (ndirect - n))
            (small (ndirect - n))
        ∙ ap ip.addrs (sym same)
    | inr e ↦
        other_uint (put_addrs n ip d b) b (at + 3 + (ndirect - n)) (ip.addrs (ndirect - n))
          (at + 3 + i) (λ h. ground arith)
        ∙ uint_at-put_addrs n i (omega arith) in_range (ground arith) small
  ]

  size_aside : (n : ℕ) → uint_at (put_addrs n ip d b) b (at + 2) ≡ uint_at d b (at + 2)
  unfolding put_addrs
  size_aside zero = refl
  size_aside (suc n) =
      other_uint (put_addrs n ip d b) b (at + 3 + (ndirect - n)) (ip.addrs (ndirect - n)) (at + 2)
        (λ h. omega arith)
      ∙ size_aside n

  shorts_aside :
      (n j : ℕ) → j < 4 → short_at (put_addrs n ip d b) b (2 * at + j) ≡ short_at d b (2 * at + j)
  unfolding put_addrs
  shorts_aside zero j lt = refl
  shorts_aside (suc n) j lt =
      short_aside (put_addrs n ip d b) b (at + 3 + (ndirect - n)) (ip.addrs (ndirect - n))
        (2 * at + j) (inl (omega arith))
      ∙ shorts_aside n j lt

-- The fields of an inode have the widths of their types in C.
pub record Sized (ip : Inode) : Type 0 where
  pub type : ip.type < 2 ^ 16
  pub major : ip.major < 2 ^ 16
  pub minor : ip.minor < 2 ^ 16
  pub nlink : ip.nlink < 2 ^ 16
  pub size : ip.size < 2 ^ 32
  pub addrs : (i : ℕ) → ip.addrs i < 2 ^ 32

-- Two inodes have the same fields on disk.
pub record SameFields (ip ip' : Inode) : Type 0 where
  pub type : ip'.type ≡ ip.type
  pub major : ip'.major ≡ ip.major
  pub minor : ip'.minor ≡ ip.minor
  pub nlink : ip'.nlink ≡ ip.nlink
  pub size : ip'.size ≡ ip.size
  pub addrs : (i : ℕ) → i ≤ ndirect → ip'.addrs i ≡ ip.addrs i

-- The shorts of an inode behind put_shorts.
module _ (ip : Inode) (d : Blocks) (b : ℕ) (sized : Sized ip) where
  abbrev place : ℕ
  place = 2 * dinode ip.inum

  abbrev one : Blocks
  one = put_short d b place ip.type

  abbrev two : Blocks
  two = put_short one b (place + 1) ip.major

  abbrev three : Blocks
  three = put_short two b (place + 2) ip.minor

  put_type : short_at (put_shorts ip d b) b place ≡ ip.type
  unfolding put_shorts
  put_type =
      other_short three b (place + 3) ip.nlink place (λ h. omega arith)
      ∙ other_short two b (place + 2) ip.minor place (λ h. omega arith)
      ∙ other_short one b (place + 1) ip.major place (λ h. omega arith)
      ∙ short_at-put_short d b place ip.type sized.type

  put_major : short_at (put_shorts ip d b) b (place + 1) ≡ ip.major
  unfolding put_shorts
  put_major =
      other_short three b (place + 3) ip.nlink (place + 1) (λ h. omega arith)
      ∙ other_short two b (place + 2) ip.minor (place + 1) (λ h. omega arith)
      ∙ short_at-put_short one b (place + 1) ip.major sized.major

  put_minor : short_at (put_shorts ip d b) b (place + 2) ≡ ip.minor
  unfolding put_shorts
  put_minor =
      other_short three b (place + 3) ip.nlink (place + 2) (λ h. omega arith)
      ∙ short_at-put_short two b (place + 2) ip.minor sized.minor

  put_nlink : short_at (put_shorts ip d b) b (place + 3) ≡ ip.nlink
  unfolding put_shorts
  put_nlink = short_at-put_short three b (place + 3) ip.nlink sized.nlink

module _ (sb : Superblock) (ip : Inode) (d : Blocks) (sized : Sized ip) where
  abbrev home : ℕ
  home = iblock ip.inum sb

  abbrev shorts : Blocks
  shorts = put_shorts ip d home

  abbrev sizes : Blocks
  sizes = put_uint shorts home (dinode ip.inum + 2) ip.size

  stored_short :
      (j v : ℕ)
      → j < 4
      → short_at shorts home (2 * dinode ip.inum + j) ≡ v
      → short_at (iupdate sb ip d) home (2 * dinode ip.inum + j) ≡ v
  unfolding iupdate
  stored_short j v lt e =
      shorts_aside ip sizes home (ndirect + 1) j lt
      ∙ short_aside shorts home (dinode ip.inum + 2) ip.size (2 * dinode ip.inum + j)
          (inl (omega arith))
      ∙ e

  stored_size : uint_at (iupdate sb ip d) home (dinode ip.inum + 2) ≡ ip.size
  unfolding iupdate
  stored_size =
      size_aside ip sizes home (ndirect + 1)
      ∙ uint_at-put_uint shorts home (dinode ip.inum + 2) ip.size sized.size

  stored_addr :
      (i : ℕ) → i ≤ ndirect → uint_at (iupdate sb ip d) home (dinode ip.inum + 3 + i) ≡ ip.addrs i
  unfolding iupdate
  stored_addr i le =
      uint_at-put_addrs ip sizes home (ndirect + 1) i (omega arith) le (omega arith) sized.addrs

  stored_type : short_at (iupdate sb ip d) home (2 * dinode ip.inum) ≡ ip.type
  stored_type =
      let e : 2 * dinode ip.inum ≡ 2 * dinode ip.inum + 0 = omega arith in
      ap (short_at (iupdate sb ip d) home) e
      ∙ stored_short 0 ip.type (omega arith)
          (ap (short_at shorts home) (sym e) ∙ put_type ip d home sized)

-- The copy `cp` behind ilock, which reads it from `d`.
abbrev read_in : Superblock → Inode → Blocks → Inode
read_in sb cp d =
    let b = iblock cp.inum sb in
    let at = dinode cp.inum in
    record {
      dev = cp.dev;
      inum = cp.inum;
      ref = cp.ref;
      valid = true;
      type = short_at d b (2 * at);
      major = short_at d b (2 * at + 1);
      minor = short_at d b (2 * at + 2);
      nlink = short_at d b (2 * at + 3);
      size = uint_at d b (at + 2);
      addrs = λ i. uint_at d b (at + 3 + i);
    }

ilock_reads :
    (sb : Superblock) (cp : Inode) (d : Blocks)
    → cp.ref ≢ 0
    → cp.valid ≡ false
    → short_at d (iblock cp.inum sb) (2 * dinode cp.inum) ≢ 0
    → ilock sb cp d ≡ some (read_in sb cp d)
unfolding ilock
ilock_reads sb cp d has invalid typed =
    if_false (cp.ref == 0) none _ (ground arith)
    ∙ if_false cp.valid (some cp) _ invalid
    ∙ if_false (short_at d (iblock cp.inum sb) (2 * dinode cp.inum) == 0) none _
        (ground (arith, typed))

-- An inode in use whose fields have the widths of their types is written to the disk by iupdate and
-- read back: ilock on a referenced copy of it that is not valid meets no panic and makes a valid copy
-- with the same type, device numbers, links, size and block numbers.
pub ilock-iupdate :
    (sb : Superblock) (ip cp : Inode) (d : Blocks)
    → Sized ip
    → ip.type ≢ 0
    → cp.inum ≡ ip.inum
    → cp.ref ≢ 0
    → cp.valid ≡ false
    → (r : Inode) × (ilock sb cp (iupdate sb ip d) ≡ some r) × (r.valid ≡ true) × SameFields ip r
ilock-iupdate sb ip cp d sized typed same has invalid =
    let e = iupdate sb ip d in
    let back : read_in sb cp e ≡ read_in sb (record cp { inum = ip.inum }) e =
      ap (λ i. read_in sb (record cp { inum = i }) e) same in
    (
      read_in sb (record cp { inum = ip.inum }) e,
      ilock_reads sb cp e has invalid (λ z. typed (
            sym (stored_type sb ip d sized)
            ∙ ap (λ i. short_at e (iblock i sb) (2 * dinode i)) (sym same)
            ∙ z))
          ∙ ap some back,
      refl,
      record {
        type = stored_type sb ip d sized;
        major =
            stored_short sb ip d sized 1 ip.major (omega arith)
              (put_major ip d (iblock ip.inum sb) sized);
        minor =
            stored_short sb ip d sized 2 ip.minor (omega arith)
              (put_minor ip d (iblock ip.inum sb) sized);
        nlink =
            stored_short sb ip d sized 3 ip.nlink (omega arith)
              (put_nlink ip d (iblock ip.inum sb) sized);
        size = stored_size sb ip d sized;
        addrs = stored_addr sb ip d sized;
      },
    )
