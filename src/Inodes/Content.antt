-- ===== src/Inodes/Content.antt =====
-- readi and writei of Xv6/kernel/fs.c. What copies to and from users return is a parameter.
use os_project.Prelude.{
  ℕ, zero, suc, ◌+◌, ◌*◌, ◌-◌, ◌/◌, ◌%◌, ◌^◌, Bool, true, false, ◌&&◌, ◌||◌, Option, none, some,
  List, [], ◌∷◌, ◌++◌, ◌==◌, leb, ltb, min, if◌then◌else◌,
}
use os_project.Blocks.{bsize, Superblock, Blocks}
use os_project.Inodes.{Inode, max_file, bmap, iupdate}

-- `m` bytes of block `b` from `from` on.
abbrev pub block_bytes : ℕ → Blocks → ℕ → ℕ → List ℕ
block_bytes zero d b from = []
block_bytes (suc m) d b from = d b from ∷ block_bytes m d b (from + 1)

-- `m` bytes of a source from `at` on go into block `b` from `from` on.
abbrev pub put_bytes : (ℕ → ℕ) → ℕ → ℕ → Blocks → ℕ → ℕ → Blocks
put_bytes src at m d b from c j =
    if c == b && leb from j && ltb j (from + m) then src (at + (j - from)) else d c j

-- The bytes of one round: no more than are left, and none of another block.
abbrev pub round_bytes : ℕ → ℕ → ℕ
round_bytes off left = min left (bsize - off % bsize)

-- What a read has copied out, whether a copy failed, and the inode and the disk.
pub record Read : Type 0 where
  pub bytes : List ℕ
  pub failed : Bool
  pub inode : Inode
  pub disk : Blocks

-- The loop of readi with `left` bytes to go; `ok tot` is whether the copy behind `tot` bytes succeeds.
-- `none` is a panic.
unfoldable pub read_loop :
    ℕ → (ℕ → Bool) → Superblock → Inode → Blocks → (off tot left : ℕ) → Option Read
unfolding bmap
read_loop zero ok sb ip d off tot left =
    some (record { bytes = []; failed = false; inode = ip; disk = d })
read_loop (suc f) ok sb ip d off tot left = elim (left == 0) [
  | true ↦ some (record { bytes = []; failed = false; inode = ip; disk = d })
  | false ↦ elim (bmap sb ip d (off / bsize)) [
    | none ↦ none
    | some b ↦ elim (b.0 == 0) [
      | true ↦ some (record { bytes = []; failed = false; inode = b.1; disk = b.2 })
      | false ↦
          let m = round_bytes off left in
          elim (ok tot) [
            | false ↦ some (record { bytes = []; failed = true; inode = b.1; disk = b.2 })
            | true ↦ elim (read_loop f ok sb b.1 b.2 (off + m) (tot + m) (left - m)) [
              | none ↦ none
              | some r ↦ some (record r { bytes = block_bytes m b.2 b.0 (off % bsize) ++ r.bytes })
            ]
          ]
    ]
  ]
]

-- The return value is -1 where a copy failed, else the number of the bytes. Each round copies a byte
-- at least.
unfoldable pub readi : (ℕ → Bool) → Superblock → Inode → Blocks → ℕ → ℕ → Option Read
unfolding read_loop
readi ok sb ip d off n =
    if ltb ip.size off || ltb ((off + n) % 2 ^ 32) off
    then some (record { bytes = []; failed = false; inode = ip; disk = d })
    else (let n' = if ltb ip.size ((off + n) % 2 ^ 32) then ip.size - off else n in
        read_loop n' ok sb ip d off 0 n')

-- The number of bytes written, and the inode and the disk.
pub record Written : Type 0 where
  pub total : ℕ
  pub inode : Inode
  pub disk : Blocks

-- The loop of writei. `fault tot` is `some j` if the copy behind `tot` bytes fails when `j` bytes of it
-- are in the buffer.
unfoldable pub write_loop :
    ℕ → (ℕ → ℕ) → (ℕ → Option ℕ) → Superblock → Inode → Blocks → (off tot left : ℕ) → Option Written
unfolding bmap
write_loop zero src fault sb ip d off tot left = some (record { total = tot; inode = ip; disk = d })
write_loop (suc f) src fault sb ip d off tot left = elim (left == 0) [
  | true ↦ some (record { total = tot; inode = ip; disk = d })
  | false ↦ elim (bmap sb ip d (off / bsize)) [
    | none ↦ none
    | some b ↦ elim (b.0 == 0) [
      | true ↦ some (record { total = tot; inode = b.1; disk = b.2 })
      | false ↦
          let m = round_bytes off left in
          elim (fault tot) [
            | some j ↦ some (record {
              total = tot;
              inode = b.1;
              disk = put_bytes src tot (min j m) b.2 b.0 (off % bsize);
            })
            | none ↦
                write_loop f src fault sb b.1 (put_bytes src tot m b.2 b.0 (off % bsize)) (off + m)
                  (tot + m) (left - m)
          ]
    ]
  ]
]

-- What writei does behind its loop, which has come to `off`.
abbrev pub finish : Superblock → ℕ → Written → Written
finish sb off w =
    let ip : Inode = record w.inode {
      size = if ltb w.inode.size (off + w.total) then off + w.total else w.inode.size;
    } in
    record { total = w.total; inode = ip; disk = iupdate sb ip w.disk }

-- A panic, the return of -1, or what is written.
pub data WriteResult : Type 0 where
  panicked : WriteResult
  refused : WriteResult
  wrote : Written → WriteResult

unfoldable pub writei : (ℕ → ℕ) → (ℕ → Option ℕ) → Superblock → Inode → Blocks → ℕ → ℕ → WriteResult
unfolding write_loop iupdate
writei src fault sb ip d off n =
    if ltb ip.size off || ltb ((off + n) % 2 ^ 32) off
    then refused
    else if ltb (max_file * bsize) ((off + n) % 2 ^ 32)
    then refused
    else elim (write_loop n src fault sb ip d off 0 n) [
      | none ↦ panicked
      | some w ↦ wrote (finish sb off w)
    ]
