-- ===== src/Strings.antt =====
-- Xv6/kernel/string.c over byte memory. A pointer is the address it holds; a function that writes
-- through one returns the new memory, and its own result is the `dst` that it was given.
pub mod Moves
pub mod Compare
pub mod Copies
mod Tests
use os_project.Prelude.{
  ℕ, zero, suc, ◌+◌, ◌-◌, ◌%◌, Bool, ◌&&◌, not, Option, none, some, ◌==◌, ltb, if◌then◌else◌,
}
use os_project.Prelude.Int.{ℤ, pos, sub_ℕ}
use os_project.Memory.{Mem, poke}

-- `for (i = 0; i < n; i++) cdst[i] = c`, with the rounds left and the index.
memset_loop : ℕ → Mem → ℕ → ℕ → ℕ → Mem
memset_loop zero m dst c i = m
memset_loop (suc k) m dst c i = memset_loop k (poke m (dst + i) (c % 256)) dst c (i + 1)

unfoldable pub memset : Mem → ℕ → ℕ → ℕ → Mem
unfolding memset_loop
memset m dst c n = memset_loop n m dst c 0

-- `while (n-- > 0) *--d = *--s`
move_down : ℕ → Mem → ℕ → ℕ → Mem
move_down zero m d s = m
move_down (suc n) m d s = move_down n (poke m (d - 1) (m (s - 1))) (d - 1) (s - 1)

-- `while (n-- > 0) *d++ = *s++`
move_up : ℕ → Mem → ℕ → ℕ → Mem
move_up zero m d s = m
move_up (suc n) m d s = move_up n (poke m d (m s)) (d + 1) (s + 1)

unfoldable pub memmove : Mem → ℕ → ℕ → ℕ → Mem
unfolding move_down move_up
memmove m dst src n =
    if n == 0
    then m
    else if ltb src dst && ltb dst (src + n)
    then move_down n m (dst + n) (src + n)
    else move_up n m dst src

unfoldable pub memcpy : Mem → ℕ → ℕ → ℕ → Mem
unfolding memmove
memcpy m dst src n = memmove m dst src n

-- `*s1 - *s2` on unsigned chars, as an int.
unfoldable pub memcmp : Mem → ℕ → ℕ → ℕ → ℤ
memcmp m s1 s2 zero = pos 0
memcmp m s1 s2 (suc n) =
    let rest = memcmp m (s1 + 1) (s2 + 1) n in
    if not (m s1 == m s2) then sub_ℕ (m s1) (m s2) else rest

unfoldable pub strncmp : Mem → ℕ → ℕ → ℕ → ℤ
strncmp m p q zero = pos 0
strncmp m p q (suc n) =
    let rest = strncmp m (p + 1) (q + 1) n in
    if not (m p == 0) && m p == m q then rest else sub_ℕ (m p) (m q)

-- `while (n-- > 0) *s++ = 0`
pad_zero : ℕ → Mem → ℕ → Mem
pad_zero zero m s = m
pad_zero (suc n) m s = pad_zero n (poke m s 0) (s + 1)

-- Both loops of `strncpy`: the first stops after it has copied a NUL, and the second pads.
unfoldable pub strncpy : Mem → ℕ → ℕ → ℕ → Mem
unfolding pad_zero
strncpy m s t zero = m
strncpy m s t (suc n) =
    let copied = poke m s (m t) in
    let rest = strncpy copied (s + 1) (t + 1) n in
    if m t == 0 then pad_zero n copied (s + 1) else rest

-- `while (--n > 0 && (*s++ = *t++) != 0) ; *s = 0`, with `n - 1` characters left.
safe_copy : ℕ → Mem → ℕ → ℕ → Mem
safe_copy zero m s t = poke m s 0
safe_copy (suc n) m s t =
    let copied = poke m s (m t) in
    let rest = safe_copy n copied (s + 1) (t + 1) in
    if m t == 0 then poke copied (s + 1) 0 else rest

-- The size is not negative here: `n <= 0` is `n == 0`.
unfoldable pub safestrcpy : Mem → ℕ → ℕ → ℕ → Mem
unfolding safe_copy
safestrcpy m s t zero = m
safestrcpy m s t (suc n) = safe_copy n m s t

-- `for (n = 0; s[n]; n++) ;`, on fuel: `none` says that no NUL was met in time.
strlen_loop : ℕ → Mem → ℕ → ℕ → Option ℕ
strlen_loop zero m s n = none
strlen_loop (suc f) m s n =
    let rest = strlen_loop f m s (n + 1) in if m (s + n) == 0 then some n else rest

unfoldable pub strlen : ℕ → Mem → ℕ → Option ℕ
unfolding strlen_loop
strlen fuel m s = strlen_loop fuel m s 0
