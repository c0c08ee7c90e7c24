-- ===== src/Blocks.antt =====
-- Xv6/kernel/fs.c, the allocation of disk blocks: the bitmap, bzero, balloc and bfree. A block is read
-- and changed as the buffer cache holds it; the `log_write` of each change is with the log.
use os_project.Prelude.{
  ℕ, zero, suc, ◌+◌, ◌*◌, ◌-◌, ◌/◌, ◌%◌, ◌^◌, Bool, true, false, ◌&&◌, not, Option, none, some,
  ◌==◌, ltb, if◌then◌else◌,
}
pub mod Bits
pub mod Bitmap
pub mod Alloc
pub mod Disk
mod Tests

-- BSIZE
abbrev pub bsize : ℕ
bsize = 1024

-- BPB, the bits of a block.
abbrev pub bpb : ℕ
bpb = bsize * 8

-- What the functions here and those of inodes read of `struct superblock`.
pub record Superblock : Type 0 where
  pub size : ℕ
  pub ninodes : ℕ
  pub inodestart : ℕ
  pub bmapstart : ℕ

-- The bytes of each block, by its number.
abbrev pub Blocks : Type 0
Blocks = ℕ → ℕ → ℕ

-- BBLOCK
abbrev pub bblock : ℕ → Superblock → ℕ
bblock b sb = b / bpb + sb.bmapstart

-- `(x & 1 << k) != 0`, `x | 1 << k` and `x & ~(1 << k)`.
unfoldable pub test_bit : ℕ → ℕ → Bool
test_bit x k = (x / 2 ^ k) % 2 == 1

unfoldable pub set_bit : ℕ → ℕ → ℕ
unfolding test_bit
set_bit x k = if test_bit x k then x else x + 2 ^ k

unfoldable pub clear_bit : ℕ → ℕ → ℕ
unfolding test_bit
clear_bit x k = if test_bit x k then x - 2 ^ k else x

-- One byte of one block.
abbrev pub put_byte : Blocks → ℕ → ℕ → ℕ → Blocks
put_byte d bno i x c j = if c == bno && j == i then x else d c j

unfoldable pub bzero : ℕ → Blocks → Blocks
bzero bno d c j = if c == bno && ltb j bsize then 0 else d c j

-- The inner loop of `balloc` at bit `bi` of the bitmap block of `b`; `n` is how many bits are left.
unfoldable pub balloc_bits : (n bi b : ℕ) → Superblock → Blocks → Option (ℕ × Blocks)
balloc_bits zero bi b sb d = none
balloc_bits (suc n) bi b sb d =
    let x = d (bblock b sb) (bi / 8) in
    let rest = balloc_bits n (bi + 1) b sb d in
    if ltb (b + bi) sb.size
    then (if test_bit x (bi % 8)
        then rest
        else some (b + bi, bzero (b + bi) (put_byte d (bblock b sb) (bi / 8) (set_bit x (bi % 8)))))
    else none

-- The outer loop from `b` on, for at most `n` bitmap blocks.
unfoldable pub balloc_blocks : (n b : ℕ) → Superblock → Blocks → ℕ × Blocks
balloc_blocks zero b sb d = (0, d)
balloc_blocks (suc n) b sb d =
    let rest = balloc_blocks n (b + bpb) sb d in
    if ltb b sb.size then (elim (balloc_bits bpb 0 b sb d) [ none ↦ rest | some r ↦ r ]) else (0, d)

-- 0 is "out of blocks".
unfoldable pub balloc : Superblock → Blocks → ℕ × Blocks
balloc sb d = balloc_blocks sb.size 0 sb d

-- `none` is the panic "freeing free block".
unfoldable pub bfree : ℕ → Superblock → Blocks → Option Blocks
bfree b sb d =
    let bi = b % bpb in
    let x = d (bblock b sb) (bi / 8) in
    if test_bit x (bi % 8)
    then some (put_byte d (bblock b sb) (bi / 8) (clear_bit x (bi % 8)))
    else none
