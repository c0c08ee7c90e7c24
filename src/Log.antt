-- ===== src/Log.antt =====
-- Xv6/kernel/log.c, the write-ahead log of the file system. `Disk` is what survives a loss of power;
-- a write of one block reaches it whole or not at all. `cache` is what `bread` returns: bio.c keeps a
-- block in memory from its change until it is written. `power` counts the block writes that still
-- reach the disk; at zero the machine is off, and what the code then does is never seen.
pub mod Phases
pub mod Recoverable
pub mod Crash
pub mod Caching
pub mod Space
pub mod Overflow
mod Tests
use os_project.Prelude.{
  ℕ, zero, suc, ◌+◌, ◌*◌, ◌-◌, ◌<◌, Bool, true, false, ◌&&◌, ◌||◌, not, Option, none, some, List,
  [], ◌∷◌, ◌==◌, ltb, leb, if◌then◌else◌, length, get_or,
}

-- The 32-bit words of a block.
abbrev pub Block : Type 0
Block = ℕ → ℕ

abbrev pub Disk : Type 0
Disk = ℕ → Block

abbrev pub log_size : ℕ
log_size = 30

abbrev pub max_op_blocks : ℕ
max_op_blocks = 10

-- `struct log`, less its lock and device. The list is `lh.block[0 .. lh.n)`.
pub record Log : Type 0 where
  pub start : ℕ
  pub size : ℕ
  pub outstanding : ℕ
  pub committing : Bool
  pub lh : List ℕ

pub record Machine : Type 0 where
  pub disk : Disk
  pub cache : ℕ → Block
  pub pins : ℕ → ℕ
  pub power : ℕ

unfoldable pub bwrite : ℕ → Machine → Machine
bwrite b s = record s {
  disk = λ x. if not (s.power == 0) && x == b then s.cache b else s.disk x;
  power = s.power - 1;
}

-- `memmove(to->data, from->data, BSIZE)`
unfoldable pub copy_block : ℕ → ℕ → Machine → Machine
copy_block to from s = record s { cache = λ x. if x == to then s.cache from else s.cache x }

unfoldable pub bpin : ℕ → Machine → Machine
bpin b s = record s { pins = λ x. if x == b then s.pins x + 1 else s.pins x }

unfoldable pub bunpin : ℕ → Machine → Machine
bunpin b s = record s { pins = λ x. if x == b then s.pins x - 1 else s.pins x }

-- The loop of `install_trans` from index `tail` on, over the rest of the block numbers.
unfoldable pub install_loop : Bool → ℕ → ℕ → List ℕ → Machine → Machine
unfolding bwrite copy_block bunpin
install_loop recovering start tail [] s = s
install_loop recovering start tail (b ∷ bs) s =
    let written = bwrite b (copy_block b (start + tail + 1) s) in
    install_loop recovering start (tail + 1) bs (if recovering then written else bunpin b written)

unfoldable pub install_trans : Bool → Log → Machine → Machine
unfolding install_loop
install_trans recovering l s = install_loop recovering l.start 0 l.lh s

-- `hb->n = log.lh.n; hb->block[i] = log.lh.block[i]`: word 0 is `n`, and the others follow it.
unfoldable pub set_header : List ℕ → Block → Block
set_header lh block zero = length lh
set_header lh block (suc i) = if ltb i (length lh) then get_or lh i 0 else block (suc i)

unfoldable pub write_head : Log → Machine → Machine
unfolding bwrite set_header
write_head l s = bwrite l.start (record s {
  cache = λ x. if x == l.start then set_header l.lh (s.cache l.start) else s.cache x;
})

-- `k` block numbers from index `i` of the header on.
unfoldable pub read_entries : ℕ → ℕ → Block → List ℕ
read_entries zero i block = []
read_entries (suc k) i block = block (suc i) ∷ read_entries k (i + 1) block

unfoldable pub read_header : Block → List ℕ
unfolding read_entries
read_header block = read_entries (block 0) 0 block

unfoldable pub read_head : Log → Machine → Log
unfolding read_header
read_head l s = record l { lh = read_header (s.cache l.start) }

unfoldable pub recover_from_log : Log → Machine → Log × Machine
unfolding read_head install_trans write_head
recover_from_log l s =
    let found = read_head l s in
    let cleared = record found { lh = [] } in
    (cleared, write_head cleared (install_trans true found s))

-- The header has 31 words of 4 bytes, so that the panic "too big logheader" is not met.
unfoldable pub initlog : (logstart nlog : ℕ) → Log → Machine → Log × Machine
unfolding recover_from_log
initlog logstart nlog l s = recover_from_log (record l { start = logstart; size = nlog }) s

unfoldable pub write_log_loop : ℕ → ℕ → List ℕ → Machine → Machine
unfolding bwrite copy_block
write_log_loop start tail [] s = s
write_log_loop start tail (b ∷ bs) s =
    write_log_loop start (tail + 1) bs
      (bwrite (start + tail + 1) (copy_block (start + tail + 1) b s))

unfoldable pub write_log : Log → Machine → Machine
unfolding write_log_loop
write_log l s = write_log_loop l.start 0 l.lh s

unfoldable pub commit : Log → Machine → Log × Machine
unfolding write_log write_head install_trans
commit l s =
    let cleared = record l { lh = [] } in
    if ltb 0 (length l.lh)
    then (cleared, write_head cleared (install_trans false l (write_head l (write_log l s))))
    else (l, s)

-- One round of the loop of `begin_op`: `none` is that it sleeps, and tries again when it is woken.
unfoldable pub begin_op : Log → Option Log
begin_op l =
    if l.committing
    then none
    else if ltb log_size (length l.lh + (l.outstanding + 1) * max_op_blocks)
    then none
    else some (record l { outstanding = l.outstanding + 1 })

-- The first critical section of `end_op`, of an operation that has begun, so that `outstanding` is
-- positive: whether to commit, and the log. `none` is the panic "log.committing".
unfoldable pub end_op_enter : Log → Option (Bool × Log)
end_op_enter l =
    let l' = record l { outstanding = l.outstanding - 1 } in
    if l.committing
    then none
    else if l'.outstanding == 0
    then some (true, record l' { committing = true })
    else some (false, l')

unfoldable pub end_op : Log → Machine → Option (Log × Machine)
unfolding end_op_enter commit
end_op l s = elim (end_op_enter l) [
  | none ↦ none
  | some (do_commit, l') ↦
      (let (l'', s') = commit l' s in
        some (if do_commit then (record l'' { committing = false }, s') else (l', s)))
]

-- The loop of `log_write` and the write behind it: the block's entry, or a new one at the end.
unfoldable pub absorb : ℕ → List ℕ → List ℕ
absorb b [] = b ∷ []
absorb b (x ∷ xs) = if x == b then b ∷ xs else x ∷ absorb b xs

-- `none` is a panic: "too big a transaction" or "log_write outside of trans".
unfoldable pub log_write : ℕ → Log → Machine → Option (Log × Machine)
unfolding absorb bpin
log_write b l s =
    let lh' = absorb b l.lh in
    if leb log_size (length l.lh) || leb (l.size - 1) (length l.lh)
    then none
    else if ltb l.outstanding 1
    then none
    else some (record l { lh = lh' }, (if length lh' == length l.lh then s else bpin b s))
