-- ===== src/Bcache.antt =====
-- Xv6/kernel/bio.c, the buffer cache. What a function does under `bcache.lock` is one step here; the
-- sleep lock of a buffer and the disk come in as the results of their calls.
use os_project.Prelude.{
  ℕ, zero, suc, ◌+◌, ◌-◌, ◌%◌, ◌^◌, Bool, true, false, ◌&&◌, not, Option, none, some, List, [],
  ◌==◌, if◌then◌else◌,
}
pub mod Links
pub mod Search
pub mod Lookup
pub mod Release
pub mod Unique
pub mod System
mod Tests

-- NBUF, MAXOPBLOCKS * 3
abbrev pub nbuf : ℕ
nbuf = 30

-- Buffers are named by their index in `bcache.buf`, and the list's head by the next number.
abbrev pub head : ℕ
head = nbuf

pub record Buf : Type 0 where
  pub valid : Bool
  pub dev : ℕ
  pub blockno : ℕ
  pub refcnt : ℕ
  pub bytes : List ℕ

pub record Bcache : Type 0 where
  pub buf : ℕ → Buf
  pub prev : ℕ → ℕ
  pub next : ℕ → ℕ

-- One assignment.
abbrev pub assign : {A : Type 0} → (ℕ → A) → ℕ → A → ℕ → A
assign f i x j = if j == i then x else f j

-- The four assignments that put `b` behind the head, in their order.
unfoldable pub push : ℕ → Bcache → Bcache
push b c =
    let next₁ = assign c.next b (c.next head) in
    let prev₁ = assign c.prev b head in
    record c { prev = assign prev₁ (next₁ head) b; next = assign next₁ head b }

-- The two that take `b` out.
unfoldable pub unlink : ℕ → Bcache → Bcache
unlink b c =
    let prev₁ = assign c.prev (c.next b) (c.prev b) in
    record c { prev = prev₁; next = assign c.next (prev₁ b) (c.next b) }

-- The loop of `binit` from buffer `i` on.
unfoldable pub binit_loop : ℕ → ℕ → Bcache → Bcache
binit_loop zero i c = c
binit_loop (suc n) i c = binit_loop n (i + 1) (push i c)

unfoldable pub binit : Bcache → Bcache
binit c =
    binit_loop nbuf 0 (record c { prev = assign c.prev head head; next = assign c.next head head })

-- A walk along `step` until `hit`, or to the head; `n` bounds the number of buffers.
unfoldable pub walk : ℕ → (ℕ → ℕ) → (ℕ → Bool) → ℕ → Option ℕ
walk zero step hit b = none
walk (suc n) step hit b =
    let rest = walk n step hit (step b) in
    if b == head then none else if hit b then some b else rest

abbrev pub caches : ℕ → ℕ → Buf → Bool
caches dev blockno b = b.dev == dev && b.blockno == blockno

abbrev pub is_free : Buf → Bool
is_free b = b.refcnt == 0

-- `refcnt` is a uint.
abbrev pub incr : ℕ → ℕ
incr r = (r + 1) % 2 ^ 32

abbrev pub decr : ℕ → ℕ
decr r = (r + (2 ^ 32 - 1)) % 2 ^ 32

abbrev pub set_buf : ℕ → Buf → Bcache → Bcache
set_buf i b c = record c { buf = assign c.buf i b }

abbrev pub recycled : ℕ → ℕ → Buf → Buf
recycled dev blockno b = record b { dev = dev; blockno = blockno; valid = false; refcnt = 1 }

-- `bget` up to its `acquiresleep`; `none` is the panic "bget: no buffers".
unfoldable pub bget : (dev blockno : ℕ) → Bcache → Option (ℕ × Bcache)
bget dev blockno c =
    elim (walk (nbuf + 1) c.next (λ i. caches dev blockno (c.buf i)) (c.next head)) [
      | some i ↦ some (i, set_buf i (record (c.buf i) { refcnt = incr (c.buf i).refcnt }) c)
      | none ↦ (elim (walk (nbuf + 1) c.prev (λ i. is_free (c.buf i)) (c.prev head)) [
        | some i ↦ some (i, set_buf i (recycled dev blockno (c.buf i)) c)
        | none ↦ none
      ])
    ]

-- `bread` behind its `bget`, where `disk` is what `virtio_disk_rw` reads.
unfoldable pub fill : (disk : ℕ → ℕ → List ℕ) → ℕ → Bcache → Bcache
fill disk i c =
    let b = c.buf i in
    if b.valid then c else set_buf i (record b { bytes = disk b.dev b.blockno; valid = true }) c

-- `holds` is what `holdingsleep` returns; `none` is the panic "brelse".
unfoldable pub brelse : (holds : Bool) → ℕ → Bcache → Option Bcache
brelse holds i c =
    if not holds
    then none
    else (let c₁ = set_buf i (record (c.buf i) { refcnt = decr (c.buf i).refcnt }) c in
        some (if is_free (c₁.buf i) then push i (unlink i c₁) else c₁))

unfoldable pub bpin : ℕ → Bcache → Bcache
bpin i c = set_buf i (record (c.buf i) { refcnt = incr (c.buf i).refcnt }) c

unfoldable pub bunpin : ℕ → Bcache → Bcache
bunpin i c = set_buf i (record (c.buf i) { refcnt = decr (c.buf i).refcnt }) c
