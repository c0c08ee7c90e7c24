-- ===== src/Vm/CopyIn.antt =====
-- copyin reads the bytes of a user range, page by page.
use os_project.Prelude.{
  ℕ, zero, suc, ◌+◌, ◌-◌, ◌<◌, ◌≤◌, Bool, true, false, ◌==◌, ltb, if_true, if_false, Bool-cases,
  second_branch, third_branch, ◌≡◌, ◌≢◌, ◌⊎◌, refl, sym, ap, ◌∙◌, inl, inr, arith, if◌then◌else◌,
}
use mathlib.Core.Path.{subst}
use os_project.Memory.{Mem, page_size, pg_round_down, in_range}
use os_project.Strings.{memmove}
use os_project.Strings.Moves.{memmove_lem}
use os_project.Vm.Space.{Ghost, Inv}
use os_project.Vm.Translation.{tables_of, no_free, translate_steady, user_pa, translate-user_pa}
use os_project.Vm.Copy.{translate, stretch, copyin_loop, copyin}

-- The byte of a user address by the translation of its page.
abbrev pub phys : (ℕ → ℕ) → ℕ → ℕ
phys tr va = tr (pg_round_down va) + (va - pg_round_down va)

-- One round of copyin.
copyin_end : (f : ℕ) (m : Mem) (q dst va : ℕ) → copyin_loop f m q dst va 0 ≡ (true, m)
unfolding copyin_loop
copyin_end zero m q dst va = refl
copyin_end (suc f) m q dst va = refl

copyin_fault :
    (f : ℕ) (m : Mem) (q dst va len : ℕ)
    → 0 < len
    → translate m q (pg_round_down va) ≡ 0
    → copyin_loop (suc f) m q dst va len ≡ (false, m)
unfolding copyin_loop
copyin_fault f m q dst va len some_bytes e =
    second_branch (len == 0) (translate m q (pg_round_down va) == 0) _ _ _ (ground arith)
      (ground (arith, e))

copyin_next :
    (f : ℕ) (m : Mem) (q dst va len : ℕ)
    → 0 < len
    → translate m q (pg_round_down va) ≢ 0
    → let n = stretch va len in
      copyin_loop (suc f) m q dst va len
      ≡ copyin_loop f
          (memmove m dst (translate m q (pg_round_down va) + (va - pg_round_down va)) n)
          q
          (dst + n)
          (pg_round_down va + page_size)
          (len - n)
unfolding copyin_loop
copyin_next f m q dst va len some_bytes e =
    third_branch (len == 0) (translate m q (pg_round_down va) == 0) _ _ _ (ground arith)
      (ground (arith, e))

stretch-le : (va len : ℕ) → 0 < len → (0 < stretch va len) × (stretch va len ≤ len)
stretch-le va len h = ground arith

-- Within a stretch the addresses are on one page.
stretch_page :
    (va len i : ℕ)
    → i < stretch va len
    → (pg_round_down (va + i) ≡ pg_round_down va)
      × (va + i - pg_round_down (va + i) ≡ va - pg_round_down va + i)
stretch_page va len i h = ground arith

-- Behind it the next page starts.
stretch_rest :
    (va len i : ℕ)
    → stretch va len ≤ i
    → i < len
    → pg_round_down va + page_size + (i - stretch va len) ≡ va + i
stretch_rest va len i h l = ground arith

far_apart :
    (dst len n x : ℕ)
    → n ≤ len
    → in_range dst len x ≡ false
    → (in_range dst n x ≡ false) × (in_range (dst + n) (len - n) x ≡ false)
far_apart dst len n x le far = ground arith

before : (dst n rest i : ℕ) → i < n → in_range (dst + n) rest (dst + i) ≡ false
before dst n rest i l = ground arith

stretch_next :
    (va len i : ℕ)
    → i < len - stretch va len
    → pg_round_down va + page_size + i ≡ va + (stretch va len + i)
stretch_next va len i h = ground arith

inside :
    (lo total dst n x : ℕ)
    → lo ≤ dst
    → dst + n ≤ lo + total
    → in_range lo total x ≡ false
    → in_range dst n x ≡ false
inside lo total dst n x low high far = ground arith

module _ (m0 : Mem) (tr : ℕ → ℕ) where
  same_page : (va len i : ℕ) → i < stretch va len → phys tr va + i ≡ phys tr (va + i)
  same_page va len i l =
      let (page, offset) = stretch_page va len i l in omega (arith, ap tr page, offset)

  not_mapped : (va : ℕ) → tr (pg_round_down va) ≡ 0 → tr (pg_round_down (va + 0)) ≡ 0
  not_mapped va e = subst (λ (a : ℕ). tr (pg_round_down a) ≡ 0) (omega arith) e

  -- How a copy ends: all bytes are there, or a page of the range is not mapped for users.
  pub record Copied (dst va len : ℕ) (m : Mem) (r : Bool × Mem) : Type 0 where
    pub outside : (x : ℕ) → in_range dst len x ≡ false → r.1 x ≡ m x
    pub ends :
        (r.0 ≡ true)
          × ((i : ℕ)
              → i < len
              → (tr (pg_round_down (va + i)) ≢ 0) × (r.1 (dst + i) ≡ m0 (phys tr (va + i))))
        ⊎ (r.0 ≡ false) × (i : ℕ) × (i < len) × (tr (pg_round_down (va + i)) ≡ 0)

  -- A stretch copied, and then the rest.
  Copied-next :
      (dst va len : ℕ) (m m1 : Mem) (r : Bool × Mem)
      → 0 < len
      → tr (pg_round_down va) ≢ 0
      → let n = stretch va len in
        ((x : ℕ) → m1 x ≡ (if in_range dst n x then m (phys tr va + (x - dst)) else m x))
        → ((i : ℕ) → i < n → m (phys tr va + i) ≡ m0 (phys tr va + i))
        → Copied (dst + n) (pg_round_down va + page_size) (len - n) m1 r
        → Copied dst va len m r
  Copied-next dst va len m m1 r some_bytes mapped moved source rest = record {
    outside = λ x far.
        let (first, second) =
          far_apart dst len (stretch va len) x (stretch-le va len some_bytes).1 far in
        rest.outside x second ∙ moved x ∙ if_false (in_range dst (stretch va len) x) _ _ first;
    ends = elim rest.ends [
      | inl (ok, all) ↦ inl (
        ok,
        λ i l. elim (Bool-cases (ltb i (stretch va len))) [
          | inl e ↦ here i (ground arith)
          | inr e ↦ later all i (ground arith) l
        ],
      )
      | inr (bad, i, l, e) ↦ inr (
        bad,
        stretch va len + i,
        omega arith,
        ap (λ a. tr (pg_round_down a))
              (sym (stretch_rest va len (stretch va len + i) (omega arith) (omega arith))
                ∙ ap (λ j. pg_round_down va + page_size + j) (omega arith))
            ∙ e,
      )
    ];
  }
    where
      here :
          (i : ℕ)
          → i < stretch va len
          → (tr (pg_round_down (va + i)) ≢ 0) × (r.1 (dst + i) ≡ m0 (phys tr (va + i)))
      here i l =
          let (page, offset) = stretch_page va len i l in
          (
            λ z. mapped (ap tr (sym page) ∙ z),
            rest.outside (dst + i) (before dst (stretch va len) (len - stretch va len) i l)
                ∙ moved (dst + i)
                ∙ if_true (in_range dst (stretch va len) (dst + i)) _ _ (ground arith)
                ∙ ap m (omega arith)
                ∙ source i l
                ∙ ap m0 (same_page va len i l),
          )

      later :
          ((i : ℕ)
            → i < len - stretch va len
            → (tr (pg_round_down (pg_round_down va + page_size + i)) ≢ 0)
              × (r.1 (dst + stretch va len + i) ≡ m0 (phys tr (pg_round_down va + page_size + i))))
          → (i : ℕ) → stretch va len ≤ i
          → i < len
          → (tr (pg_round_down (va + i)) ≢ 0) × (r.1 (dst + i) ≡ m0 (phys tr (va + i)))
      later all i h l =
          let (mapped_too, copied) = all (i - stretch va len) (omega arith) in
          let at = stretch_rest va len i h l in
          (
            λ z. mapped_too (ap (λ a. tr (pg_round_down a)) at ∙ z),
            ap r.1 (omega arith) ∙ copied ∙ ap (λ a. m0 (phys tr a)) at,
          )

module _ (m0 : Mem) (q : ℕ) (tr : ℕ → ℕ) (lo total : ℕ) where
  -- The memory differs from the first one in the destination only, where no table is.
  abbrev Near : Mem → Type 0
  Near m = (x : ℕ) → in_range lo total x ≡ false → m x ≡ m0 x

  -- The loop: `m` differs from the first memory in the destination only.
  module _ (steady : (m : Mem) → Near m → (va : ℕ) → translate m q va ≡ tr va) where
    copyin_loop-Copied :
        (f : ℕ) (m : Mem) (dst va len : ℕ)
        → Near m
        → lo ≤ dst
        → dst + len ≤ lo + total
        → ((i : ℕ) → i < len → in_range lo total (phys tr (va + i)) ≡ false)
        → len ≤ f
        → Copied m0 tr dst va len m (copyin_loop f m q dst va len)
    copyin_loop-Copied f m dst va zero near low high apart fuel =
        subst (Copied m0 tr dst va 0 m) (sym (copyin_end f m q dst va))
          (record { outside = λ x far. refl; ends = inl (refl, λ i l. absurd (omega arith)) })
    copyin_loop-Copied zero m dst va (suc len) near low high apart fuel = absurd (omega arith)
    copyin_loop-Copied (suc f) m dst va (suc len) near low high apart fuel =
        elim (Bool-cases (tr (pg_round_down va) == 0)) [
          | inl e ↦
              subst (Copied m0 tr dst va (suc len) m)
                (sym (
                  copyin_fault f m q dst va (suc len) (omega arith)
                    (steady m near _ ∙ ground arith)))
                (record {
                  outside = λ x far. refl;
                  ends = inr (refl, 0, omega arith, not_mapped m0 tr va (ground arith));
                })
          | inr e ↦
              let n = stretch va (suc len) in
              let here_mapped : tr (pg_round_down va) ≢ 0 = λ z. ground arith in
              let (some_bytes, le) = stretch-le va (suc len) (omega arith) in
              let m1 =
                memmove m dst (translate m q (pg_round_down va) + (va - pg_round_down va)) n in
              let moved : (x : ℕ)
                  → m1 x ≡ (if in_range dst n x then m (phys tr va + (x - dst)) else m x) =
                λ x.
                  memmove_lem m dst _ n x
                  ∙ ap
                      (λ p.
                        if in_range dst n x
                        then m (p + (va - pg_round_down va) + (x - dst))
                        else m x)
                      (steady m near (pg_round_down va)) in
              let rest =
                copyin_loop-Copied f m1 (dst + n) (pg_round_down va + page_size) (suc len - n)
                  (λ x far.
                    moved x
                    ∙ if_false (in_range dst n x) _ _
                        (inside lo total dst n x low (omega arith) far)
                    ∙ near x far)
                  (omega arith) (omega arith)
                  (λ i l.
                    ap (λ a. in_range lo total (phys tr a)) (stretch_next va (suc len) i l)
                    ∙ apart (n + i) (omega arith))
                  (omega arith) in
              subst (Copied m0 tr dst va (suc len) m)
                (sym (
                  copyin_next f m q dst va (suc len) (omega arith)
                    (λ z. here_mapped (sym (steady m near (pg_round_down va)) ∙ z))))
                (Copied-next m0 tr dst va (suc len) m m1 _ (omega arith) here_mapped moved
                  (λ i l. near (phys tr va + i) (
                    ap (in_range lo total) (same_page m0 tr va (suc len) i l)
                    ∙ apart i (omega arith)))
                  rest)
        ]

-- In a well-formed address space, with no table and no byte of the source in the destination, copyin
-- changes only the destination and returns 0 with each byte of the user range in its place, all of
-- its pages mapped for users (valid and with PTE_U, at an address that is not 0), or -1, and a page of
-- the range is not.
pub copyin-Copied :
    (kernel_end : ℕ) (m : Mem) (g : Ghost) (q dst va len : ℕ)
    → 0 < kernel_end
    → Inv kernel_end (tables_of m) (no_free g)
    → g.rank q ≡ 3
    → ((p x : ℕ) → 0 < g.rank p → in_range p page_size x ≡ true → in_range dst len x ≡ false)
    → ((i : ℕ) → i < len → in_range dst len (phys (user_pa m q) (va + i)) ≡ false)
    → Copied m (user_pa m q) dst va len m (copyin m q dst va len)
unfolding copyin
copyin-Copied kernel_end m g q dst va len pos inv r no_table no_source =
    copyin_loop-Copied m q (user_pa m q) dst len
      (λ m' near a.
        translate_steady kernel_end m m' g q a pos inv r (λ p x rp h. near x (no_table p x rp h))
        ∙ translate-user_pa kernel_end m g q a pos inv r)
      len m dst va len (λ x far. refl) (omega arith) (omega arith) no_source (omega arith)
