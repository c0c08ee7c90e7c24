-- ===== src/Strings/Moves.antt =====
-- memset, memmove and memcpy of Xv6/kernel/string.c, address by address.
use os_project.Prelude.{ℕ, zero, suc, ◌+◌, ◌-◌, ◌%◌, ◌≤◌, ◌<◌, ◌≡◌, ◌⊎◌, arith, if◌then◌else◌}
use os_project.Memory.{Mem, poke, in_range}
use os_project.Strings.{memset_loop, memset, move_down, move_up, memmove, memcpy}

memset_loop_lem :
    (k : ℕ) (m : Mem) (dst c i x : ℕ)
    → memset_loop k m dst c i x ≡ (if in_range (dst + i) k x then c % 256 else m x)
unfolding memset_loop poke
memset_loop_lem zero m dst c i x = ground arith
memset_loop_lem (suc k) m dst c i x =
    ground (arith, memset_loop_lem k (poke m (dst + i) (c % 256)) dst c (i + 1) x)

-- `memset` sets exactly the `n` bytes from `dst` on, to the low byte of `c`.
pub memset_lem :
    (m : Mem) (dst c n x : ℕ) → memset m dst c n x ≡ (if in_range dst n x then c % 256 else m x)
unfolding memset
memset_lem m dst c n x = ground (arith, memset_loop_lem n m dst c 0 x)

move_up_lem :
    (n : ℕ) (m : Mem) (d s x : ℕ)
    → (d ≤ s) ⊎ (s + n ≤ d)
    → move_up n m d s x ≡ (if in_range d n x then m (s + (x - d)) else m x)
unfolding move_up poke
move_up_lem zero m d s x h = ground arith
move_up_lem (suc n) m d s x h = ground (arith, move_up_lem n (poke m d (m s)) (d + 1) (s + 1) x)

-- The ends of the two ranges come with equations, so that they can shrink in step.
move_down_lem :
    (n : ℕ) (m : Mem) (d s e f x : ℕ)
    → s < d
    → e ≡ d + n
    → f ≡ s + n
    → move_down n m e f x ≡ (if in_range d n x then m (s + (x - d)) else m x)
unfolding move_down poke
move_down_lem zero m d s e f x h p q = ground arith
move_down_lem (suc n) m d s e f x h p q =
    ground (arith, move_down_lem n (poke m (e - 1) (m (f - 1))) d s (e - 1) (f - 1) x)

-- `memmove` leaves in the `n` bytes from `dst` on what stood in those from `src` on before the call,
-- also where the two overlap, and changes no other byte.
pub memmove_lem :
    (m : Mem) (dst src n x : ℕ)
    → memmove m dst src n x ≡ (if in_range dst n x then m (src + (x - dst)) else m x)
unfolding memmove
memmove_lem m dst src n x =
    ground (arith, move_up_lem n m dst src x, move_down_lem n m dst src (dst + n) (src + n) x)

pub memcpy_lem :
    (m : Mem) (dst src n x : ℕ)
    → memcpy m dst src n x ≡ (if in_range dst n x then m (src + (x - dst)) else m x)
unfolding memcpy
memcpy_lem = memmove_lem
