-- ===== src/Strings/Compare.antt =====
-- memcmp, strncmp and strlen of Xv6/kernel/string.c.
use os_project.Prelude.{ℕ, zero, suc, ◌+◌, ◌≤◌, ◌<◌, ◌≡◌, ◌≢◌, ◌↔◌, ◌⊎◌, refl, some, arith}
use os_project.Prelude.Int.{pos}
use os_project.Memory.{Mem}
use os_project.Strings.{memcmp, strncmp, strlen_loop, strlen}

-- The `n` bytes from `p` on are those from `q` on.
abbrev pub Same : Mem → ℕ → ℕ → ℕ → Type 0
Same m p q zero = Unit {0}
Same m p q (suc n) = (m p ≡ m q) × Same m (p + 1) (q + 1) n

-- `memcmp` returns 0 exactly when the two ranges hold the same bytes.
pub memcmp_iff : (m : Mem) (p q n : ℕ) → (memcmp m p q n ≡ pos 0) ↔ Same m p q n
unfolding memcmp
memcmp_iff m p q zero = ((λ _. tt), (λ _. refl))
memcmp_iff m p q (suc n) = ground (arith, memcmp_iff m (p + 1) (q + 1) n)

-- The two texts agree up to the first NUL, or for `n` bytes where there is none before.
abbrev pub SameText : Mem → ℕ → ℕ → ℕ → Type 0
SameText m p q zero = Unit {0}
SameText m p q (suc n) = (m p ≡ m q) × ((m p ≡ 0) ⊎ SameText m (p + 1) (q + 1) n)

-- `strncmp` returns 0 exactly when the texts agree as far as it looks: to the first NUL or to `n`.
pub strncmp_iff : (m : Mem) (p q n : ℕ) → (strncmp m p q n ≡ pos 0) ↔ SameText m p q n
unfolding strncmp
strncmp_iff m p q zero = ((λ _. tt), (λ _. refl))
strncmp_iff m p q (suc n) = ground (arith, strncmp_iff m (p + 1) (q + 1) n)

-- A text of `len` bytes and its NUL.
pub record IsText (m : Mem) (s len : ℕ) : Type 0 where
  pub ends : m (s + len) ≡ 0
  pub inside : (i : ℕ) → i < len → m (s + i) ≢ 0

strlen_loop_lem :
    (f : ℕ) (m : Mem) (s i len : ℕ)
    → IsText m s len
    → i ≤ len
    → len < i + f
    → strlen_loop f m s i ≡ some len
unfolding strlen_loop
strlen_loop_lem zero m s i len t le lt = absurd (omega arith)
strlen_loop_lem (suc f) m s i len t le lt =
    ground (arith, t.inside i, t.ends, strlen_loop_lem f m s (i + 1) len t)

-- `strlen` returns the number of bytes before the first NUL, if there is a NUL; one round more than
-- that number is enough.
pub strlen_lem : (f : ℕ) (m : Mem) (s len : ℕ) → IsText m s len → len < f → strlen f m s ≡ some len
unfolding strlen
strlen_lem f m s len t lt = strlen_loop_lem f m s 0 len t (omega arith) (omega arith)
