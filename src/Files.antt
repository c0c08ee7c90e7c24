-- ===== src/Files.antt =====
-- Xv6/kernel/file.c, the table of open files, and pipealloc of Xv6/kernel/pipe.c. What a function does
-- under `ftable.lock` is one step.
use os_project.Prelude.{
  ℕ, zero, suc, ◌+◌, ◌-◌, ◌*◌, ◌/◌, Bool, true, false, ◌&&◌, ◌||◌, not, Option, none, some, List,
  [], ◌∷◌, ◌==◌, ltb, leb, min, if◌then◌else◌,
}
use os_project.Log.{max_op_blocks}
use os_project.Blocks.{bsize}
pub mod Scan
pub mod Holders
pub mod PipeEnds
pub mod Chunks
mod Tests

-- NFILE
abbrev pub nfile : ℕ
nfile = 100

pub data FileType : Type 0 where
  fd_none fd_pipe fd_inode fd_device : FileType

-- Pipes and inodes are named by numbers. `ref` is an int that is taken not to reach 2^31.
pub record File : Type 0 where
  pub file_type : FileType
  pub ref : ℕ
  pub readable : Bool
  pub writable : Bool
  pub pipe : ℕ
  pub ip : ℕ
  pub off : ℕ
  pub major : ℕ

-- `ftable.file`
abbrev pub Ftable : Type 0
Ftable = ℕ → File

abbrev pub set_file : Ftable → ℕ → File → Ftable
set_file t i f j = if j == i then f else t j

-- The loop of `filealloc` from file `i` on.
unfoldable pub find_file : ℕ → ℕ → Ftable → Option ℕ
find_file zero i t = none
find_file (suc n) i t = let rest = find_file n (i + 1) t in if (t i).ref == 0 then some i else rest

-- `none` is the null pointer.
unfoldable pub filealloc : Ftable → Option (ℕ × Ftable)
filealloc t = elim (find_file nfile 0 t) [
  | none ↦ none
  | some i ↦ some (i, set_file t i (record (t i) { ref = 1 }))
]

-- `none` is the panic "filedup".
unfoldable pub filedup : ℕ → Ftable → Option Ftable
filedup i t =
    if ltb (t i).ref 1 then none else some (set_file t i (record (t i) { ref = (t i).ref + 1 }))

-- What `fileclose` does behind its lock: nothing, or it closes that end of a pipe or releases an inode.
pub data Closing : Type 0 where
  nothing : Closing
  close_pipe : (pipe : ℕ) (writable : Bool) → Closing
  put_inode : (ip : ℕ) → Closing

abbrev pub closing : File → Closing
closing f = elim f.file_type [
  | fd_none ↦ nothing
  | fd_pipe ↦ close_pipe f.pipe f.writable
  | fd_inode ↦ put_inode f.ip
  | fd_device ↦ put_inode f.ip
]

-- `none` is the panic "fileclose".
unfoldable pub fileclose : ℕ → Ftable → Option (Closing × Ftable)
fileclose i t =
    if ltb (t i).ref 1
    then none
    else if ltb 0 ((t i).ref - 1)
    then some (nothing, set_file t i (record (t i) { ref = (t i).ref - 1 }))
    else some (closing (t i), set_file t i (record (t i) { ref = 0; file_type = fd_none }))

-- One end of a new pipe.
abbrev pub pipe_end : Bool → ℕ → File → File
pipe_end writes pi f = record f {
  file_type = fd_pipe;
  readable = not writes;
  writable = writes;
  pipe = pi;
}

-- Close a file that was just allocated; `none` is a panic. Its type is still the FD_NONE that the last
-- close left there (or zero), so that fileclose has no pipe or inode to act on.
abbrev pub close_one : ℕ → Ftable → Option Ftable
close_one i t = elim (fileclose i t) [ none ↦ none | some r ↦ some r.1 ]

-- `page` is what `kalloc` returns, 0 for none. The state of the pipe in that page is
-- `fresh` of Xv6/kernel/pipe.c. The outer `none` is a panic, the inner one is -1; else the two files.
unfoldable pub pipealloc : (page : ℕ) → Ftable → Option (Option (ℕ × ℕ) × Ftable)
pipealloc page t = elim (filealloc t) [
  | none ↦ some (none, t)
  | some r ↦
      (let (f₀, t₁) = r in
        elim (filealloc t₁) [
          | none ↦ (elim (close_one f₀ t₁) [ none ↦ none | some t₂ ↦ some (none, t₂) ])
          | some s ↦
              (let (f₁, t₂) = s in
                if page == 0
                then (elim (close_one f₀ t₂) [
                  | none ↦ none
                  | some t₃ ↦ (elim (close_one f₁ t₃) [ none ↦ none | some t₄ ↦ some (none, t₄) ])
                ])
                else (let t₃ = set_file t₂ f₀ (pipe_end false page (t₂ f₀)) in
                    some (some (f₀, f₁), set_file t₃ f₁ (pipe_end true page (t₃ f₁)))))
        ])
]

-- The most bytes that `filewrite` hands to one `writei`.
abbrev pub max_write : ℕ
max_write = (max_op_blocks - 1 - 1 - 2) / 2 * bsize

-- One call of `writei`: where in the buffer, where in the file, and how many bytes.
pub record Chunk : Type 0 where
  pub from : ℕ
  pub at : ℕ
  pub size : ℕ

-- The loop of `filewrite` on an inode, for at most `fuel` rounds: whether all `n` bytes are written, the
-- new offset, and the calls. `writei` gives what each call returns; `none` is -1.
unfoldable pub write_chunks : (writei : Chunk → Option ℕ) (fuel n i off : ℕ) → Bool × ℕ × List Chunk
write_chunks writei zero n i off = (false, off, [])
write_chunks writei (suc fuel) n i off =
    let n₁ = min (n - i) max_write in
    let c : Chunk = record { from = i; at = off; size = n₁ } in
    let rest = write_chunks writei fuel n (i + n₁) (off + n₁) in
    if ltb i n
    then (elim (writei c) [
      | none ↦ (false, off, c ∷ [])
      | some r ↦ if r == n₁ then (rest.0, rest.1, c ∷ rest.2) else (false, off + r, c ∷ [])
    ])
    else (i == n, off, [])

-- `fileread`, where `piped`, `device` and `from_inode` are what `piperead`, the function of the device
-- and `readi` return, a `none` in them being -1, and the `device` of a file is `none` if its number is
-- out of range or the device cannot be read. The outer `none` is the panic "fileread".
unfoldable pub fileread :
    (piped : Option ℕ) (device : Option (Option ℕ)) (from_inode : Option ℕ)
    → File
    → Option (Option ℕ × File)
fileread piped device from_inode f = if not f.readable then some (none, f) else elim f.file_type [
  | fd_pipe ↦ some (piped, f)
  | fd_device ↦ (elim device [ none ↦ some (none, f) | some r ↦ some (r, f) ])
  | fd_inode ↦ (elim from_inode [
    | none ↦ some (none, f)
    | some r ↦ some (some r, record f { off = f.off + r })
  ])
  | fd_none ↦ none
]

-- `filewrite` of `n` bytes, with the calls of `writei` that it makes.
unfoldable pub filewrite :
    (piped : Option ℕ) (device : Option (Option ℕ)) (writei : Chunk → Option ℕ)
    → File
    → ℕ
    → Option (Option ℕ × File × List Chunk)
filewrite piped device writei f n =
    if not f.writable then some (none, f, []) else elim f.file_type [
      | fd_pipe ↦ some (piped, f, [])
      | fd_device ↦ (elim device [ none ↦ some (none, f, []) | some r ↦ some (r, f, []) ])
      | fd_inode ↦
          (let r = write_chunks writei (n + 1) n 0 f.off in
            some ((if r.0 then some n else none), record f { off = r.1 }, r.2))
      | fd_none ↦ none
    ]
