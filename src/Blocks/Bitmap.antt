-- ===== src/Blocks/Bitmap.antt =====
-- The bitmap of Xv6/kernel/fs.c as a set of blocks in use.
use os_project.Prelude.{
  ℕ, ◌+◌, ◌/◌, ◌%◌, ◌≡◌, ◌≢◌, ap, sym, ◌∙◌, ap₂, Bool, true, false, ◌&&◌, ◌||◌, not, Bool-cases,
  inl, inr, ◌==◌, ltb, if◌then◌else◌, if_true, if_false, arith,
}
use os_project.Blocks.{
  bpb, bsize, Superblock, Blocks, bblock, test_bit, set_bit, clear_bit, put_byte, bzero,
}
use os_project.Blocks.Bits.{test_bit-set_bit, test_bit-clear_bit}

-- Whether the bitmap says that block `b` is in use.
abbrev pub in_use : Superblock → Blocks → ℕ → Bool
in_use sb d b = test_bit (d (bblock b sb) (b % bpb / 8)) (b % bpb % 8)

-- The byte of `b` replaced by `x`.
abbrev pub with_byte : Superblock → Blocks → ℕ → ℕ → Blocks
with_byte sb d b x = put_byte d (bblock b sb) (b % bpb / 8) x

same_bit :
    (x y m : ℕ)
    → (y / bpb + m == x / bpb + m && y % bpb / 8 == x % bpb / 8) ≡ true
    → (y % bpb % 8 == x % bpb % 8) ≡ (y == x)
same_bit x y m e = ground arith

other_bit :
    (x y m : ℕ)
    → (y / bpb + m == x / bpb + m && y % bpb / 8 == x % bpb / 8) ≡ false
    → (y == x) ≡ false
other_bit x y m e = ground arith

-- A byte in which one bit becomes `v`.
with_byte-in_use :
    (sb : Superblock) (d : Blocks) (x byte : ℕ) (v : Bool) (y : ℕ)
    → ((j : ℕ)
        → test_bit byte j
          ≡ (if j == x % bpb % 8 then v else test_bit (d (bblock x sb) (x % bpb / 8)) j))
    → in_use sb (with_byte sb d x byte) y ≡ (if y == x then v else in_use sb d y)
with_byte-in_use sb d x byte v y bits =
    let hit = bblock y sb == bblock x sb && y % bpb / 8 == x % bpb / 8 in
    elim (Bool-cases hit) [
      | inl same ↦
          ap (λ z. test_bit z (y % bpb % 8)) (if_true hit byte (d (bblock y sb) (y % bpb / 8)) same)
          ∙ bits (y % bpb % 8)
          ∙ ap₂ (λ b z. if b then v else test_bit z (y % bpb % 8)) (same_bit x y sb.bmapstart same)
              (ap₂ d (equal_block same) (equal_byte same))
      | inr other ↦
          ap (λ z. test_bit z (y % bpb % 8))
            (if_false hit byte (d (bblock y sb) (y % bpb / 8)) other)
          ∙ sym (if_false (y == x) v (in_use sb d y) (other_bit x y sb.bmapstart other))
    ]
  where
    equal_block :
        (bblock y sb == bblock x sb && y % bpb / 8 == x % bpb / 8) ≡ true
        → bblock x sb ≡ bblock y sb
    equal_block e = sym_of (bblock y sb) (bblock x sb) _ e
      where
        sym_of : (a b : ℕ) (c : Bool) → (a == b && c) ≡ true → b ≡ a
        sym_of a b c e = ground arith

    equal_byte :
        (bblock y sb == bblock x sb && y % bpb / 8 == x % bpb / 8) ≡ true
        → x % bpb / 8 ≡ y % bpb / 8
    equal_byte e = sym_of (y % bpb / 8) (x % bpb / 8) _ e
      where
        sym_of : (a b : ℕ) (c : Bool) → (c && a == b) ≡ true → b ≡ a
        sym_of a b c e = ground arith

-- The bitmap with `x` marked, and with its mark taken away.
abbrev pub marked : Superblock → Blocks → ℕ → Blocks
marked sb d x = with_byte sb d x (set_bit (d (bblock x sb) (x % bpb / 8)) (x % bpb % 8))

abbrev pub unmarked : Superblock → Blocks → ℕ → Blocks
unmarked sb d x = with_byte sb d x (clear_bit (d (bblock x sb) (x % bpb / 8)) (x % bpb % 8))

pub marked-in_use :
    (sb : Superblock) (d : Blocks) (x y : ℕ)
    → in_use sb (marked sb d x) y ≡ (y == x || in_use sb d y)
marked-in_use sb d x y =
    with_byte-in_use sb d x (set_bit (d (bblock x sb) (x % bpb / 8)) (x % bpb % 8)) true y (λ j.
      test_bit-set_bit (d (bblock x sb) (x % bpb / 8)) (x % bpb % 8) j
      ∙ either (j == x % bpb % 8) _)
    ∙ sym (either (y == x) (in_use sb d y))
  where
    either : (a b : Bool) → (a || b) ≡ (if a then true else b)
    either a b = ground arith

pub unmarked-in_use :
    (sb : Superblock) (d : Blocks) (x y : ℕ)
    → in_use sb (unmarked sb d x) y ≡ (not (y == x) && in_use sb d y)
unmarked-in_use sb d x y =
    with_byte-in_use sb d x (clear_bit (d (bblock x sb) (x % bpb / 8)) (x % bpb % 8)) false y (λ j.
      test_bit-clear_bit (d (bblock x sb) (x % bpb / 8)) (x % bpb % 8) j
      ∙ both (j == x % bpb % 8) _)
    ∙ sym (both (y == x) (in_use sb d y))
  where
    both : (a b : Bool) → (not a && b) ≡ (if a then false else b)
    both a b = ground arith

-- Zeroing a block that holds no part of the bitmap.
pub bzero-in_use :
    (sb : Superblock) (d : Blocks) (x y : ℕ)
    → x ≢ bblock y sb
    → in_use sb (bzero x d) y ≡ in_use sb d y
unfolding bzero
bzero-in_use sb d x y ne =
    ap (λ z. test_bit z (y % bpb % 8))
      (if_false (bblock y sb == x && ltb (y % bpb / 8) bsize) 0 (d (bblock y sb) (y % bpb / 8))
        (apart x (bblock y sb) _ ne))
  where
    apart : (x b : ℕ) (c : Bool) → x ≢ b → (b == x && c) ≡ false
    apart x b c ne = ground arith
