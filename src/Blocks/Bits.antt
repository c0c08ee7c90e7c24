-- ===== src/Blocks/Bits.antt =====
-- Single bits of a byte, for the bitmap of Xv6/kernel/fs.c.
use os_project.Prelude.{
  ℕ, zero, suc, ◌+◌, ◌*◌, ◌-◌, ◌/◌, ◌%◌, ◌^◌, ◌≡◌, ◌≤◌, ap, sym, ◌∙◌, ap₂, ℕ_discrete, Bool, true,
  false, ◌&&◌, ◌||◌, not, Bool-cases, inl, inr, ◌==◌, if_true, if_false, arith,
}
use native.Mathlib.Nat.{div-div-eq-div-mul}
use os_project.Blocks.{test_bit, set_bit, clear_bit}

test_bit-suc : (x k : ℕ) → test_bit x (suc k) ≡ test_bit (x / 2) k
unfolding test_bit
test_bit-suc x k =
    ap (λ n. n % 2 == 1) (ap (λ m. x / m) (power k) ∙ sym (div-div-eq-div-mul x 2 (2 ^ k)))
  where
    power : (k : ℕ) → 2 ^ suc k ≡ 2 * 2 ^ k
    power k = omega arith

test_bit-zero : (x : ℕ) → test_bit x 0 ≡ (x % 2 == 1)
unfolding test_bit
test_bit-zero x = ground arith

-- Adding a bit that is not there sets it, and no other.
add_bit : (x k j : ℕ) → test_bit x k ≡ false → test_bit (x + 2 ^ k) j ≡ (j == k || test_bit x j)
add_bit x zero zero no_bit =
    test_bit-zero (x + 1) ∙ (let e = sym (test_bit-zero x) ∙ no_bit in ground arith)
add_bit x zero (suc j) no_bit =
    let e = sym (test_bit-zero x) ∙ no_bit in
    let half : (x + 1) / 2 ≡ x / 2 = ground arith in
    let other : (suc j == 0) ≡ false = ground arith in
    test_bit-suc (x + 1) j
    ∙ ap (λ y. test_bit y j) half
    ∙ sym (test_bit-suc x j)
    ∙ ap (λ b. b || test_bit x (suc j)) (sym other)
add_bit x (suc k) zero no_bit =
    test_bit-zero (x + 2 ^ suc k)
    ∙ ap (λ n. n == 1) (low x k)
    ∙ sym (test_bit-zero x)
    ∙ other k (test_bit x 0)
  where
    low : (x k : ℕ) → (x + 2 ^ suc k) % 2 ≡ x % 2
    low x k = omega arith

    other : (k : ℕ) (b : Bool) → b ≡ (0 == suc k || b)
    other k b = ground arith
add_bit x (suc k) (suc j) no_bit =
    test_bit-suc (x + 2 ^ suc k) j
    ∙ ap (λ y. test_bit y j) (half x k)
    ∙ add_bit (x / 2) k j (sym (test_bit-suc x k) ∙ no_bit)
    ∙ ap₂ (λ b c. b || c) (shifted j k) (sym (test_bit-suc x j))
  where
    half : (x k : ℕ) → (x + 2 ^ suc k) / 2 ≡ x / 2 + 2 ^ k
    half x k = omega arith

    shifted : (j k : ℕ) → (j == k) ≡ (suc j == suc k)
    shifted j k = ground arith

bit_size : (x k : ℕ) → test_bit x k ≡ true → 2 ^ k ≤ x
bit_size x zero bit = (let e = sym (test_bit-zero x) ∙ bit in ground arith)
bit_size x (suc k) bit = (let le = bit_size (x / 2) k (sym (test_bit-suc x k) ∙ bit) in omega arith)

-- Taking a bit that is there away clears it, and no other.
sub_bit :
    (x k j : ℕ) → test_bit x k ≡ true → test_bit (x - 2 ^ k) j ≡ (not (j == k) && test_bit x j)
sub_bit x zero zero bit =
    test_bit-zero (x - 1) ∙ (let e = sym (test_bit-zero x) ∙ bit in ground arith)
sub_bit x zero (suc j) bit =
    let e = sym (test_bit-zero x) ∙ bit in
    let half : (x - 1) / 2 ≡ x / 2 = ground arith in
    let other : not (suc j == 0) ≡ true = ground arith in
    test_bit-suc (x - 1) j
    ∙ ap (λ y. test_bit y j) half
    ∙ sym (test_bit-suc x j)
    ∙ ap (λ b. b && test_bit x (suc j)) (sym other)
sub_bit x (suc k) zero bit =
    let le = bit_size x (suc k) bit in
    test_bit-zero (x - 2 ^ suc k)
    ∙ ap (λ n. n == 1) (low x k le)
    ∙ sym (test_bit-zero x)
    ∙ other k (test_bit x 0)
  where
    low : (x k : ℕ) → 2 ^ suc k ≤ x → (x - 2 ^ suc k) % 2 ≡ x % 2
    low x k le = omega arith

    other : (k : ℕ) (b : Bool) → b ≡ (not (0 == suc k) && b)
    other k b = ground arith
sub_bit x (suc k) (suc j) bit =
    test_bit-suc (x - 2 ^ suc k) j
    ∙ ap (λ y. test_bit y j) (half x k (bit_size x (suc k) bit))
    ∙ sub_bit (x / 2) k j (sym (test_bit-suc x k) ∙ bit)
    ∙ ap₂ (λ b c. b && c) (shifted j k) (sym (test_bit-suc x j))
  where
    half : (x k : ℕ) → 2 ^ suc k ≤ x → (x - 2 ^ suc k) / 2 ≡ x / 2 - 2 ^ k
    half x k le = omega arith

    shifted : (j k : ℕ) → not (j == k) ≡ not (suc j == suc k)
    shifted j k = ground arith

pub test_bit-set_bit : (x k j : ℕ) → test_bit (set_bit x k) j ≡ (j == k || test_bit x j)
unfolding set_bit
test_bit-set_bit x k j = elim (Bool-cases (test_bit x k)) [
  | inl bit ↦
      ap (λ y. test_bit y j) (if_true (test_bit x k) x (x + 2 ^ k) bit) ∙ (elim (ℕ_discrete j k) [
        | yes same ↦ (let here = ap (test_bit x) same ∙ bit in ground arith)
        | no ne ↦ ground arith
      ])
  | inr no_bit ↦
      ap (λ y. test_bit y j) (if_false (test_bit x k) x (x + 2 ^ k) no_bit) ∙ add_bit x k j no_bit
]

pub test_bit-clear_bit : (x k j : ℕ) → test_bit (clear_bit x k) j ≡ (not (j == k) && test_bit x j)
unfolding clear_bit
test_bit-clear_bit x k j = elim (Bool-cases (test_bit x k)) [
  | inl bit ↦ ap (λ y. test_bit y j) (if_true (test_bit x k) (x - 2 ^ k) x bit) ∙ sub_bit x k j bit
  | inr no_bit ↦
      ap (λ y. test_bit y j) (if_false (test_bit x k) (x - 2 ^ k) x no_bit)
      ∙ (elim (ℕ_discrete j k) [
        | yes same ↦ (let here = ap (test_bit x) same ∙ no_bit in ground arith)
        | no ne ↦ ground arith
      ])
]
