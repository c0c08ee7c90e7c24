-- ===== src/Memory.antt =====
-- Byte-addressed memory as the kernel's C code sees it: a total map from addresses to bytes. A `char`
-- is kept as its unsigned value. Pointers are not wrapped: C leaves an object that goes round the
-- end of the address space undefined.
use os_project.Prelude.{
  ℕ, ◌+◌, ◌-◌, ◌*◌, ◌/◌, ◌%◌, ◌<◌, ◌^◌, ◌==◌, if◌then◌else◌, Bool, ◌&&◌, leb, ltb,
}

abbrev pub Mem : Type 0
Mem = ℕ → ℕ

-- `*a = v`
unfoldable pub poke : Mem → ℕ → ℕ → Mem
poke m a v x = if x == a then v else m x

-- Does the address lie in the `n` bytes from `lo`?
abbrev pub in_range : ℕ → ℕ → ℕ → Bool
in_range lo n x = leb lo x && ltb x (lo + n)

-- Every byte is an unsigned char.
abbrev pub IsBytes : Mem → Type 0
IsBytes m = (a : ℕ) → m a < 2 ^ 8

-- PGSIZE, and PGROUNDUP and PGROUNDDOWN on a uint64: `& ~(PGSIZE-1)` clears the low twelve bits.
abbrev pub page_size : ℕ
page_size = 4096

abbrev pub pg_round_up : ℕ → ℕ
pg_round_up a = (a + page_size - 1) % 2 ^ 64 / page_size * page_size

abbrev pub pg_round_down : ℕ → ℕ
pg_round_down a = a / page_size * page_size

-- KERNBASE and PHYSTOP
abbrev pub kern_base : ℕ
kern_base = 0x80000000

abbrev pub phys_stop : ℕ
phys_stop = kern_base + 128 * 1024 * 1024
