-- ===== src/Inodes.antt =====
-- Xv6/kernel/fs.c, inodes and their content on one device. Blocks are read and changed as the buffer
-- cache holds them. The caller holds the lock of the inode.
pub mod Content
pub mod Layout
pub mod Growth
pub mod Numbers
pub mod Mapping
pub mod Steady
pub mod Writing
pub mod WriteLoop
pub mod Writei
pub mod Reading
pub mod Storing
pub mod Freeing
pub mod FreeLoops
pub mod Emptying
pub mod Itrunc
pub mod Paths
mod Tests
use os_project.Prelude.{
  ℕ, zero, suc, ◌+◌, ◌*◌, ◌-◌, ◌/◌, ◌%◌, ◌^◌, Bool, true, false, ◌&&◌, ◌||◌, not, Option, none,
  some, List, [], ◌∷◌, ◌++◌, ◌==◌, leb, ltb, min, if◌then◌else◌,
}
use os_project.Blocks.{bsize, Superblock, Blocks, balloc, bfree}

-- NDIRECT, NINDIRECT and MAXFILE
abbrev pub ndirect : ℕ
ndirect = 12

abbrev pub nindirect : ℕ
nindirect = bsize / 4

abbrev pub max_file : ℕ
max_file = ndirect + nindirect

-- The in-memory copy of an inode. `valid` says that it has been read from disk.
pub record Inode : Type 0 where
  pub dev : ℕ
  pub inum : ℕ
  pub ref : ℕ
  pub valid : Bool
  pub type : ℕ
  pub major : ℕ
  pub minor : ℕ
  pub nlink : ℕ
  pub size : ℕ
  pub addrs : ℕ → ℕ

abbrev pub set_addr : Inode → ℕ → ℕ → Inode
set_addr ip i b = record ip { addrs = λ j. if j == i then b else ip.addrs j }

-- The little-endian number number `i` of a block, of four bytes and of two.
abbrev pub uint_at : Blocks → ℕ → ℕ → ℕ
uint_at d b i =
    d b (4 * i) + 2 ^ 8 * d b (4 * i + 1) + 2 ^ 16 * d b (4 * i + 2) + 2 ^ 24 * d b (4 * i + 3)

abbrev pub short_at : Blocks → ℕ → ℕ → ℕ
short_at d b i = d b (2 * i) + 2 ^ 8 * d b (2 * i + 1)

unfoldable pub put_uint : Blocks → ℕ → ℕ → ℕ → Blocks
put_uint d b i v c j =
    if c == b && leb (4 * i) j && ltb j (4 * i + 4) then v / 256 ^ (j - 4 * i) % 256 else d c j

unfoldable pub put_short : Blocks → ℕ → ℕ → ℕ → Blocks
put_short d b i v c j =
    if c == b && leb (2 * i) j && ltb j (2 * i + 2) then v / 256 ^ (j - 2 * i) % 256 else d c j

-- IPB and IBLOCK, and the place of an inode in its block in steps of four bytes.
abbrev pub ipb : ℕ
ipb = bsize / 64

abbrev pub iblock : ℕ → Superblock → ℕ
iblock inum sb = inum / ipb + sb.inodestart

abbrev pub dinode : ℕ → ℕ
dinode inum = inum % ipb * 16

-- `memmove(dip->addrs, ip->addrs, sizeof(ip->addrs))`, the last `n` of the numbers.
unfoldable pub put_addrs : ℕ → Inode → Blocks → ℕ → Blocks
unfolding put_uint
put_addrs zero ip d b = d
put_addrs (suc n) ip d b =
    put_uint (put_addrs n ip d b) b (dinode ip.inum + 3 + (ndirect - n)) (ip.addrs (ndirect - n))

-- The four short fields.
unfoldable pub put_shorts : Inode → Blocks → ℕ → Blocks
unfolding put_short
put_shorts ip d b =
    let at = dinode ip.inum in
    put_short
      (put_short (put_short (put_short d b (2 * at) ip.type) b (2 * at + 1) ip.major) b (2 * at + 2)
        ip.minor)
      b (2 * at + 3) ip.nlink

unfoldable pub iupdate : Superblock → Inode → Blocks → Blocks
unfolding put_shorts put_uint put_addrs
iupdate sb ip d =
    let b = iblock ip.inum sb in
    put_addrs (ndirect + 1) ip (put_uint (put_shorts ip d b) b (dinode ip.inum + 2) ip.size) b

-- ilock behind acquiresleep: `none` is one of its panics.
unfoldable pub ilock : Superblock → Inode → Blocks → Option Inode
ilock sb ip d =
    let b = iblock ip.inum sb in
    let at = dinode ip.inum in
    if ip.ref == 0
    then none
    else if ip.valid
    then some ip
    else if short_at d b (2 * at) == 0
    then none
    else some (record {
      dev = ip.dev;
      inum = ip.inum;
      ref = ip.ref;
      valid = true;
      type = short_at d b (2 * at);
      major = short_at d b (2 * at + 1);
      minor = short_at d b (2 * at + 2);
      nlink = short_at d b (2 * at + 3);
      size = uint_at d b (at + 2);
      addrs = λ i. uint_at d b (at + 3 + i);
    })

-- A block number, the inode and the disk behind a call of bmap.
abbrev pub Found : Type 0
Found = ℕ × Inode × Blocks

-- The entry `i` of `ip->addrs`, with a new block where there is none.
unfoldable pub own_block : Superblock → Inode → Blocks → ℕ → Found
unfolding balloc
own_block sb ip d i =
    let r = balloc sb d in
    if not (ip.addrs i == 0)
    then (ip.addrs i, ip, d)
    else if r.0 == 0
    then (0, ip, r.1)
    else (r.0, set_addr ip i r.0, r.1)

-- The number `n` in the indirect block `b`, with a new block where there is none.
unfoldable pub indirect : Superblock → Inode → Blocks → ℕ → ℕ → Found
unfolding balloc put_uint
indirect sb ip d b n =
    let r = balloc sb d in
    if not (uint_at d b n == 0)
    then (uint_at d b n, ip, d)
    else if r.0 == 0
    then (0, ip, r.1)
    else (r.0, ip, put_uint r.1 b n r.0)

-- `none` is the panic "bmap: out of range"; the block 0 is "out of disk space".
unfoldable pub bmap : Superblock → Inode → Blocks → ℕ → Option Found
unfolding own_block indirect
bmap sb ip d bn =
    if ltb bn ndirect
    then some (own_block sb ip d bn)
    else if ltb (bn - ndirect) nindirect
    then (let f = own_block sb ip d ndirect in
        some (if f.0 == 0 then f else indirect sb f.1 f.2 f.0 (bn - ndirect)))
    else none

-- What itrunc does to the blocks `n` numbers on from `i`; `none` is the panic of bfree.
unfoldable pub free_direct : ℕ → ℕ → Superblock → Inode → Blocks → Option (Inode × Blocks)
unfolding bfree
free_direct zero i sb ip d = some (ip, d)
free_direct (suc n) i sb ip d = elim (ip.addrs i == 0) [
  | true ↦ free_direct n (i + 1) sb ip d
  | false ↦ elim (bfree (ip.addrs i) sb d) [
    | none ↦ none
    | some d' ↦ free_direct n (i + 1) sb (set_addr ip i 0) d'
  ]
]

-- The loop over the numbers in the indirect block `b`.
unfoldable pub free_indirect : ℕ → ℕ → Superblock → ℕ → Blocks → Option Blocks
unfolding bfree
free_indirect zero j sb b d = some d
free_indirect (suc n) j sb b d = elim (uint_at d b j == 0) [
  | true ↦ free_indirect n (j + 1) sb b d
  | false ↦ elim (bfree (uint_at d b j) sb d) [
    | none ↦ none
    | some d' ↦ free_indirect n (j + 1) sb b d'
  ]
]

-- The second half of itrunc.
unfoldable pub free_rest : Superblock → Inode → Blocks → Option (Inode × Blocks)
unfolding free_indirect bfree
free_rest sb ip d = elim (ip.addrs ndirect == 0) [
  | true ↦ some (ip, d)
  | false ↦ elim (free_indirect nindirect 0 sb (ip.addrs ndirect) d) [
    | none ↦ none
    | some freed ↦ elim (bfree (ip.addrs ndirect) sb freed) [
      | none ↦ none
      | some d' ↦ some (set_addr ip ndirect 0, d')
    ]
  ]
]

unfoldable pub itrunc : Superblock → Inode → Blocks → Option (Inode × Blocks)
unfolding free_direct free_rest iupdate
itrunc sb ip d = elim (free_direct ndirect 0 sb ip d) [
  | none ↦ none
  | some r ↦ elim (free_rest sb r.0 r.1) [
    | none ↦ none
    | some t ↦ some (record t.0 { size = 0 }, iupdate sb (record t.0 { size = 0 }) t.1)
  ]
]
