-- ===== src/Strings/Copies.antt =====
-- strncpy and safestrcpy of Xv6/kernel/string.c.
use os_project.Prelude.{
  ℕ, zero, suc, ◌+◌, ◌≤◌, ◌<◌, ◌≡◌, ◌⊎◌, ◌≢◌, refl, false, arith, ◌==◌, if◌then◌else◌,
}
use os_project.Memory.{Mem, poke, in_range}
use os_project.Strings.Compare.{IsText}
use os_project.Strings.{pad_zero, strncpy, safe_copy, safestrcpy}

-- Byte `i` of the text at `t`, as a copy of it sees it: 0 from the first NUL on.
unfoldable pub text_byte : Mem → ℕ → ℕ → ℕ
text_byte m t zero = m t
text_byte m t (suc i) = let rest = text_byte m (t + 1) i in if m t == 0 then 0 else rest

-- The two ranges of `n` bytes do not meet.
abbrev pub Apart : ℕ → ℕ → ℕ → Type 0
Apart s t n = (s + n ≤ t) ⊎ (t + n ≤ s)

pad_zero_lem : (n : ℕ) (m : Mem) (s x : ℕ) → pad_zero n m s x ≡ (if in_range s n x then 0 else m x)
unfolding pad_zero poke
pad_zero_lem zero m s x = ground arith
pad_zero_lem (suc n) m s x = ground (arith, pad_zero_lem n (poke m s 0) (s + 1) x)

text_byte-poke :
    (i : ℕ) (m : Mem) (t a v : ℕ)
    → (a < t) ⊎ (t + i < a)
    → text_byte (poke m a v) t i ≡ text_byte m t i
unfolding text_byte poke
text_byte-poke zero m t a v h = ground arith
text_byte-poke (suc i) m t a v h = ground (arith, text_byte-poke i m (t + 1) a v)

-- Outside its target `strncpy` changes nothing.
pub strncpy_outside :
    (n : ℕ) (m : Mem) (s t x : ℕ) → in_range s n x ≡ false → strncpy m s t n x ≡ m x
unfolding strncpy poke
strncpy_outside zero m s t x h = refl
strncpy_outside (suc n) m s t x h = ground (
  arith,
  pad_zero_lem n (poke m s (m t)) (s + 1) x,
  strncpy_outside n (poke m s (m t)) (s + 1) (t + 1) x,
)

-- Between ranges that do not meet, `strncpy` fills all `n` bytes of its target: the text up to its
-- NUL, and zeros behind it.
pub strncpy_lem :
    (n : ℕ) (m : Mem) (s t i : ℕ) → Apart s t n → i < n → strncpy m s t n (s + i) ≡ text_byte m t i
unfolding strncpy poke text_byte
strncpy_lem zero m s t i h lt = absurd (omega arith)
strncpy_lem (suc n) m s t zero h lt = ground (
  arith,
  pad_zero_lem n (poke m s (m t)) (s + 1) s,
  strncpy_outside n (poke m s (m t)) (s + 1) (t + 1) s,
)
strncpy_lem (suc n) m s t (suc i) h lt =
    let copied = poke m s (m t) in
    ground (
      arith,
      pad_zero_lem n copied (s + 1) (s + suc i),
      strncpy_lem n copied (s + 1) (t + 1) i,
      text_byte-poke i m (t + 1) s (m t),
    )

-- The length of the text at `t`, or `n` if that is less.
unfoldable pub prefix_length : ℕ → Mem → ℕ → ℕ
prefix_length zero m t = 0
prefix_length (suc n) m t = let rest = prefix_length n m (t + 1) in if m t == 0 then 0 else suc rest

prefix_length-le : (n : ℕ) (m : Mem) (t : ℕ) → prefix_length n m t ≤ n
unfolding prefix_length
prefix_length-le zero m t = omega arith
prefix_length-le (suc n) m t = ground (arith, prefix_length-le n m (t + 1))

prefix_length-poke :
    (n : ℕ) (m : Mem) (t a v : ℕ)
    → (a < t) ⊎ (t + n ≤ a)
    → prefix_length n (poke m a v) t ≡ prefix_length n m t
unfolding prefix_length poke
prefix_length-poke zero m t a v h = refl
prefix_length-poke (suc n) m t a v h = ground (arith, prefix_length-poke n m (t + 1) a v)

safe_copy_outside :
    (n : ℕ) (m : Mem) (s t x : ℕ) → in_range s (n + 1) x ≡ false → safe_copy n m s t x ≡ m x
unfolding safe_copy poke
safe_copy_outside zero m s t x h = ground arith
safe_copy_outside (suc n) m s t x h =
    ground (arith, safe_copy_outside n (poke m s (m t)) (s + 1) (t + 1) x)

-- At an index of the copied text stands its byte, and behind the last one the NUL. The two addresses
-- come with equations, so that they can move in step.
safe_copy_byte :
    (n : ℕ) (m : Mem) (s t i x y : ℕ)
    → Apart s t (n + 1)
    → i ≤ prefix_length n m t
    → x ≡ s + i
    → y ≡ t + i
    → safe_copy n m s t x ≡ (if i == prefix_length n m t then 0 else m y)
unfolding safe_copy prefix_length poke
safe_copy_byte zero m s t i x y h le p q = ground arith
safe_copy_byte (suc n) m s t zero x y h le p q =
    ground (arith, safe_copy_outside n (poke m s (m t)) (s + 1) (t + 1) x)
safe_copy_byte (suc n) m s t (suc i) x y h le p q = ground (
  arith,
  safe_copy_byte n (poke m s (m t)) (s + 1) (t + 1) i x y,
  prefix_length-poke n m (t + 1) s (m t),
  prefix_length-le n m (t + 1),
)

inside_prefix : (n : ℕ) (m : Mem) (t i : ℕ) → i < prefix_length n m t → m (t + i) ≢ 0
unfolding prefix_length
inside_prefix zero m t i lt = absurd (omega arith)
inside_prefix (suc n) m t zero lt = ground arith
inside_prefix (suc n) m t (suc i) lt = ground (arith, inside_prefix n m (t + 1) i)

-- `safestrcpy` into `n + 1` bytes apart from the source always leaves a text there: the source's,
-- cut to `n` bytes, closed by a NUL inside the `n + 1` bytes; it changes no byte outside them.
pub safestrcpy_lem :
    (n : ℕ) (m : Mem) (s t : ℕ)
    → Apart s t (n + 1)
    → let copied = safestrcpy m s t (suc n) in
      let len = prefix_length n m t in
      (len ≤ n)
      × IsText copied s len
      × ((i : ℕ) → i < len → copied (s + i) ≡ m (t + i))
      × ((x : ℕ) → in_range s (n + 1) x ≡ false → copied x ≡ m x)
unfolding safestrcpy
safestrcpy_lem n m s t h = (
  prefix_length-le n m t,
  record {
    ends = ground (
      arith,
      safe_copy_byte n m s t (prefix_length n m t) (s + prefix_length n m t)
          (t + prefix_length n m t) h,
    );
    inside = λ i lt.
        ground (arith, safe_copy_byte n m s t i (s + i) (t + i) h, inside_prefix n m t i lt);
  },
  λ i lt. ground (arith, safe_copy_byte n m s t i (s + i) (t + i) h),
  safe_copy_outside n m s t,
)
