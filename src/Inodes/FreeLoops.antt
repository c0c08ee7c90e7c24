-- ===== src/Inodes/FreeLoops.antt =====
-- The loops of itrunc free the blocks of a range of numbers.
use os_project.Prelude.{
  ℕ, zero, suc, ◌+◌, ◌<◌, ◌≤◌, true, false, ◌==◌, some, if_true, if_false, Bool-cases, ◌≡◌, ◌≢◌,
  ◌⊎◌, refl, sym, ap, ◌∙◌, inl, inr, arith,
}
use mathlib.Core.Path.{subst}
use os_project.Blocks.{Superblock, Blocks, bfree, bblock}
use os_project.Inodes.Numbers.{uint_same}
use os_project.Inodes.{Inode, uint_at, set_addr, free_direct, free_indirect}
use os_project.Inodes.Freeing.{
  Busy, Freed, bfree-Dropped, Freed-refl, Freed-skip, Freed-next, Busy-next, Busy-skip,
}

module _ (sb : Superblock) (a : ℕ → ℕ) where
  loop_skip :
      (b n j : ℕ) (d : Blocks)
      → (uint_at d b j == 0) ≡ true
      → free_indirect (suc n) j sb b d ≡ free_indirect n (j + 1) sb b d
  unfolding free_indirect
  loop_skip b n j d z = ground arith

  loop_next :
      (b n j : ℕ) (d e : Blocks)
      → (uint_at d b j == 0) ≡ false
      → bfree (uint_at d b j) sb d ≡ some e
      → free_indirect (suc n) j sb b d ≡ free_indirect n (j + 1) sb b e
  unfolding free_indirect
  loop_next b n j d e nz got = ground arith

  loop_done : (b j : ℕ) (d : Blocks) → free_indirect 0 j sb b d ≡ some d
  unfolding free_indirect
  loop_done b j d = refl

  -- The loop over the numbers of the indirect block `b`, which are those of `a`, and which it does not
  -- change.
  pub free_indirect-Freed :
      (b n j : ℕ) (d : Blocks)
      → ((i : ℕ) → uint_at d b i ≡ a i)
      → ((i : ℕ) → j ≤ i → i < j + n → a i ≢ 0 → b ≢ bblock (a i) sb)
      → Busy sb a j (j + n) d
      → (e : Blocks) × (free_indirect n j sb b d ≡ some e) × Freed sb a j (j + n) d e
  free_indirect-Freed b zero j d agree apart busy =
      let end : j ≡ j + 0 = omega arith in
      (d, loop_done b j d, subst (λ (h : ℕ). Freed sb a j h d d) end (Freed-refl sb a j d))
  free_indirect-Freed b (suc n) j d agree apart busy =
      let shift : j + suc n ≡ j + 1 + n = omega arith in
      let here = agree j in
      elim (Bool-cases (a j == 0)) [
        | inl z ↦
            let (e, ran, freed) =
              free_indirect-Freed b n (j + 1) d agree
                (λ i le lt. apart i (omega arith) (omega arith))
                (subst (λ (h : ℕ). Busy sb a (j + 1) h d) shift
                  (Busy-skip sb a j (j + suc n) d busy)) in
            (
              e,
              loop_skip b n j d (ap (λ x. x == 0) here ∙ z) ∙ ran,
              Freed-skip sb a j (j + suc n) d e (ground arith)
                  (subst (λ (h : ℕ). Freed sb a (j + 1) h d e) (sym shift) freed),
            )
        | inr z ↦
            let nz : a j ≢ 0 = λ h. ground arith in
            let (d1, first) =
              bfree-Dropped sb (a j) d (busy.taken j (omega arith) (omega arith) nz) in
            let (e, ran, freed) =
              free_indirect-Freed b n (j + 1) d1
                (λ i.
                  uint_same d d1 b i
                    (λ k. first.others b k (apart j (omega arith) (omega arith) nz))
                  ∙ agree i)
                (λ i le lt. apart i (omega arith) (omega arith))
                (subst (λ (h : ℕ). Busy sb a (j + 1) h d1) shift
                  (Busy-next sb a j (j + suc n) d d1 (omega arith) nz first busy)) in
            (
              e,
              loop_next b n j d d1 (ap (λ x. x == 0) here ∙ z)
                    (ap (λ x. bfree x sb d) here ∙ first.returns)
                  ∙ ran,
              Freed-next sb a j (j + suc n) d d1 e (omega arith) nz first
                  (subst (λ (h : ℕ). Freed sb a (j + 1) h d1 e) (sym shift) freed),
            )
      ]

-- An inode whose own numbers from `lo` to `hi` have become 0.
pub record Cleared (lo hi : ℕ) (ip ip' : Inode) : Type 0 where
  pub zeros : (i : ℕ) → lo ≤ i → i < hi → ip'.addrs i ≡ 0
  pub rest : (i : ℕ) → (i < lo) ⊎ (hi ≤ i) → ip'.addrs i ≡ ip.addrs i
  pub same_inum : ip'.inum ≡ ip.inum

Cleared-skip :
    (lo hi : ℕ) (ip ip' : Inode)
    → lo < hi
    → ip.addrs lo ≡ 0
    → Cleared (lo + 1) hi ip ip'
    → Cleared lo hi ip ip'
Cleared-skip lo hi ip ip' more z h = record {
  zeros = λ i le lt. elim (Bool-cases (i == lo)) [
    | inl e ↦ let s : i ≡ lo = ground arith in h.rest i (inl (omega arith)) ∙ ap ip.addrs s ∙ z
    | inr e ↦ h.zeros i (ground arith) lt
  ];
  rest = λ i out. h.rest i (elim out [ inl x ↦ inl (omega arith) | inr x ↦ inr x ]);
  same_inum = h.same_inum;
}

Cleared-next :
    (lo hi : ℕ) (ip ip' : Inode)
    → lo < hi
    → Cleared (lo + 1) hi (set_addr ip lo 0) ip'
    → Cleared lo hi ip ip'
Cleared-next lo hi ip ip' more h = record {
  zeros = λ i le lt. elim (Bool-cases (i == lo)) [
    | inl e ↦ h.rest i (inl (ground arith)) ∙ if_true (i == lo) 0 (ip.addrs i) e
    | inr e ↦ h.zeros i (ground arith) lt
  ];
  rest = λ i out.
      h.rest i (elim out [ inl x ↦ inl (omega arith) | inr x ↦ inr x ])
      ∙ if_false (i == lo) 0 (ip.addrs i)
          (elim out [ inl x ↦ ground arith | inr x ↦ ground arith ]);
  same_inum = h.same_inum;
}

module _ (sb : Superblock) (a : ℕ → ℕ) where
  direct_done : (i : ℕ) (ip : Inode) (d : Blocks) → free_direct 0 i sb ip d ≡ some (ip, d)
  unfolding free_direct
  direct_done i ip d = refl

  direct_skip :
      (n i : ℕ) (ip : Inode) (d : Blocks)
      → (ip.addrs i == 0) ≡ true
      → free_direct (suc n) i sb ip d ≡ free_direct n (i + 1) sb ip d
  unfolding free_direct
  direct_skip n i ip d z = ground arith

  direct_next :
      (n i : ℕ) (ip : Inode) (d e : Blocks)
      → (ip.addrs i == 0) ≡ false
      → bfree (ip.addrs i) sb d ≡ some e
      → free_direct (suc n) i sb ip d ≡ free_direct n (i + 1) sb (set_addr ip i 0) e
  unfolding free_direct
  direct_next n i ip d e nz got = ground arith

  -- The loop over the numbers in the inode, which are those of `a` from `i` on.
  pub free_direct-Freed :
      (n i : ℕ) (ip : Inode) (d : Blocks)
      → ((k : ℕ) → i ≤ k → ip.addrs k ≡ a k)
      → Busy sb a i (i + n) d
      → (ip' : Inode) × (e : Blocks) × (free_direct n i sb ip d ≡ some (ip', e))
        × Cleared i (i + n) ip ip'
        × Freed sb a i (i + n) d e
  free_direct-Freed zero i ip d agree busy =
      let end : i ≡ i + 0 = omega arith in
      (
        ip,
        d,
        direct_done i ip d,
        record { zeros = λ k le lt. absurd (omega arith); rest = λ k out. refl; same_inum = refl },
        subst (λ (h : ℕ). Freed sb a i h d d) end (Freed-refl sb a i d),
      )
  free_direct-Freed (suc n) i ip d agree busy =
      let shift : i + suc n ≡ i + 1 + n = omega arith in
      let here = agree i (omega arith) in
      elim (Bool-cases (ip.addrs i == 0)) [
        | inl z ↦
            let none_here : ip.addrs i ≡ 0 = ground arith in
            let (ip', e, ran, cleared, freed) =
              free_direct-Freed n (i + 1) ip d (λ k le. agree k (omega arith))
                (subst (λ (h : ℕ). Busy sb a (i + 1) h d) shift
                  (Busy-skip sb a i (i + suc n) d busy)) in
            (
              ip',
              e,
              direct_skip n i ip d z ∙ ran,
              Cleared-skip i (i + suc n) ip ip' (omega arith) none_here
                  (subst (λ (h : ℕ). Cleared (i + 1) h ip ip') (sym shift) cleared),
              Freed-skip sb a i (i + suc n) d e (sym here ∙ none_here)
                  (subst (λ (h : ℕ). Freed sb a (i + 1) h d e) (sym shift) freed),
            )
        | inr z ↦
            let nz : a i ≢ 0 = λ h. ground (arith, here) in
            let (d1, first) =
              bfree-Dropped sb (a i) d (busy.taken i (omega arith) (omega arith) nz) in
            let (ip', e, ran, cleared, freed) =
              free_direct-Freed n (i + 1) (set_addr ip i 0) d1
                (λ k le. if_false (k == i) 0 (ip.addrs k) (ground arith) ∙ agree k (omega arith))
                (subst (λ (h : ℕ). Busy sb a (i + 1) h d1) shift
                  (Busy-next sb a i (i + suc n) d d1 (omega arith) nz first busy)) in
            (
              ip',
              e,
              direct_next n i ip d d1 z (ap (λ b. bfree b sb d) here ∙ first.returns) ∙ ran,
              Cleared-next i (i + suc n) ip ip' (omega arith)
                  (subst (λ (h : ℕ). Cleared (i + 1) h (set_addr ip i 0) ip') (sym shift) cleared),
              Freed-next sb a i (i + suc n) d d1 e (omega arith) nz first
                  (subst (λ (h : ℕ). Freed sb a (i + 1) h d1 e) (sym shift) freed),
            )
      ]
