-- ===== src/Bcache/Tests.antt =====
-- The buffer cache from the boot through some calls, and its theorems there.
use os_project.Prelude.{ℕ, ◌≡◌, ◌⊎◌, refl, true, false, Option, none, some, arith}
use os_project.Bcache.{head, Bcache, bget, walk, brelse, push, unlink, binit, binit_loop}
use os_project.Bcache.Lookup.{Hit, Uncached, Recycled, Busy, bget_lem}
use os_project.Bcache.Release.{brelse_lem, Released}
use os_project.Bcache.Unique.{Inv}
use os_project.Bcache.System.{zeroed, Steps, stay, more, gets, reachable_cache-Inv}

-- The cache with block 5 of device 1 read, in the buffer that `binit` put last.
abbrev one_read : Bcache
one_read = elim (bget 1 5 (binit zeroed)) [ none ↦ binit zeroed | some r ↦ r.1 ]

reads : bget 1 5 (binit zeroed) ≡ some (0, one_read)
unfolding bget walk binit binit_loop push
reads = refl

abbrev index_of : Option (ℕ × Bcache) → ℕ
index_of none = head
index_of (some r) = r.0

abbrev cache_of : Option (ℕ × Bcache) → Bcache
cache_of none = zeroed
cache_of (some r) = r.1

-- The block is found again; another block gets the next buffer.
again : index_of (bget 1 5 one_read) ≡ 0
unfolding bget walk binit binit_loop push
again = refl

other_block : index_of (bget 1 6 one_read) ≡ 1
unfolding bget walk binit binit_loop push
other_block = refl

-- A buffer that was released comes last in turn.
abbrev given_back : Bcache
given_back = elim (brelse true 0 one_read) [ none ↦ zeroed | some c ↦ c ]

in_front : (given_back.next head ≡ 0) × (given_back.prev head ≡ 1)
unfolding bget walk binit binit_loop push unlink brelse
in_front = (refl, refl)

read-Steps : Steps (binit zeroed) one_read
read-Steps = more (binit zeroed) one_read stay (gets 1 5 0 one_read reads)

reachable_cache-Inv_example : Inv one_read
reachable_cache-Inv_example = reachable_cache-Inv one_read read-Steps

one_read-Inv : Inv one_read
one_read-Inv = reachable_cache-Inv one_read read-Steps

bget_lem_example :
    Hit 1 5 one_read
    ⊎ Uncached 1 5 one_read × (Recycled 1 5 one_read-Inv.order one_read ⊎ Busy 1 5 one_read)
bget_lem_example = bget_lem 1 5 one_read-Inv.order one_read one_read-Inv.ordered

brelse_lem_example :
    (true ≡ false) × (brelse true 0 one_read ≡ none)
    ⊎ (true ≡ true)
      × ((d : Bcache) × (brelse true 0 one_read ≡ some d)
          × Released 0 one_read-Inv.order one_read d)
brelse_lem_example =
    brelse_lem true 0 one_read-Inv.order one_read (omega arith) one_read-Inv.ordered
