-- ===== src/Bcache/Links.antt =====
-- The doubly linked list of Xv6/kernel/bio.c, link by link.
use os_project.Prelude.{
  ℕ, ◌≡◌, refl, ap, ◌∙◌, Bool, true, false, ◌&&◌, ◌||◌, not, List, [], ◌∷◌, ◌++◌, ◌==◌, arith,
  ℕ_discrete, if_false,
}
use os_project.Bcache.{assign}

abbrev pub has : ℕ → List ℕ → Bool
has x [] = false
has x (y ∷ l) = x == y || has x l

abbrev pub is_distinct : List ℕ → Bool
is_distinct [] = true
is_distinct (x ∷ l) = not (has x l) && is_distinct l

-- From `a` along `next`, through just the entries of the list, to `h`; and back along `prev`.
abbrev pub Linked : (ℕ → ℕ) → (ℕ → ℕ) → ℕ → List ℕ → ℕ → Type 0
Linked next prev a [] h = (next a ≡ h) × (prev h ≡ a)
Linked next prev a (x ∷ l) h = (next a ≡ x) × (prev x ≡ a) × Linked next prev x l h

-- Links depend on the entries they join only.
pub Linked-frame :
    (next prev next' prev' : ℕ → ℕ) (a : ℕ) (l : List ℕ) (h : ℕ)
    → ((x : ℕ) → has x (a ∷ l) ≡ true → next' x ≡ next x)
    → ((x : ℕ) → has x (h ∷ l) ≡ true → prev' x ≡ prev x)
    → Linked next prev a l h
    → Linked next' prev' a l h
Linked-frame next prev next' prev' a [] h same same' (e, f) =
    (same a (ground arith) ∙ e, same' h (ground arith) ∙ f)
Linked-frame next prev next' prev' a (x ∷ l) h same same' (e, f, rest) = (
  same a (ground arith) ∙ e,
  same' x (ground arith) ∙ f,
  Linked-frame next prev next' prev' x l h (λ y in_list. same y (ground arith))
      (λ y in_list. same' y (ground arith)) rest,
)

-- The neighbours of an entry.
pub next_of :
    (next prev : ℕ → ℕ) (a : ℕ) (l : List ℕ) (b : ℕ) (r : List ℕ) (h : ℕ)
    → Linked next prev a (l ++ (b ∷ r)) h
    → has (next b) (h ∷ r) ≡ true
next_of next prev a [] b [] h (e, f, (g, k)) = ground arith
next_of next prev a [] b (c ∷ r) h (e, f, (g, k, rest)) = ground arith
next_of next prev a (x ∷ l) b r h (e, f, rest) = next_of next prev x l b r h rest

prev_of :
    (next prev : ℕ → ℕ) (a : ℕ) (l : List ℕ) (b : ℕ) (r : List ℕ) (h : ℕ)
    → Linked next prev a (l ++ (b ∷ r)) h
    → has (prev b) (a ∷ l) ≡ true
prev_of next prev a [] b r h (e, f, rest) = ground arith
prev_of next prev a (x ∷ l) b r h (e, f, rest) =
    let found = prev_of next prev x l b r h rest in ground arith

pub has-append : (x : ℕ) (l r : List ℕ) → has x (l ++ r) ≡ (has x l || has x r)
has-append x [] r = refl
has-append x (y ∷ l) r = let e = has-append x l r in ground arith

-- Taking an entry out joins its neighbours. An entry that is not in the list may be both ends.
pub unlinked :
    (next prev : ℕ → ℕ) (a : ℕ) (l : List ℕ) (b : ℕ) (r : List ℕ) (h : ℕ)
    → is_distinct (l ++ (b ∷ r)) ≡ true
    → has a (l ++ (b ∷ r)) ≡ false
    → has h (l ++ (b ∷ r)) ≡ false
    → Linked next prev a (l ++ (b ∷ r)) h
    → Linked (assign next (prev b) (next b)) (assign prev (next b) (prev b)) a (l ++ r) h
unlinked next prev a [] b [] h one no_a no_h (e, f, (g, k)) = (ground arith, ground arith)
unlinked next prev a [] b (c ∷ r) h one no_a no_h (e, f, (g, k, rest)) = (
  ground arith,
  ground arith,
  Linked-frame next prev (assign next (prev b) (next b)) (assign prev (next b) (prev b)) c r h
      (λ x in_list. if_false (x == prev b) (next b) (next x) (not_a x in_list))
      (λ x in_list. if_false (x == next b) (prev b) (prev x) (not_c x in_list)) rest,
)
  where
    not_a : (x : ℕ) → has x (c ∷ r) ≡ true → (x == prev b) ≡ false
    not_a x in_list = elim (ℕ_discrete x a) [
      | yes same ↦ absurd (let here = ap (λ y. has y (c ∷ r)) same in ground arith)
      | no ne ↦ ground arith
    ]

    not_c : (x : ℕ) → has x (h ∷ r) ≡ true → (x == next b) ≡ false
    not_c x in_list = elim (ℕ_discrete x c) [
      | yes same ↦ absurd (let here = ap (λ y. has y r) same in ground arith)
      | no ne ↦ ground arith
    ]
unlinked next prev a (x ∷ l) b r h one no_a no_h (e, f, rest) =
    let e₀ = has-append x l (b ∷ r) in
    let e₁ = has-append a l (b ∷ r) in
    let n_in = next_of next prev x l b r h rest in
    let p_in = prev_of next prev x l b r h rest in
    (
      if_false (a == prev b) (next b) (next a) (apart a (prev b) (x ∷ l) p_in (ground arith)) ∙ e,
      if_false (x == next b) (prev b) (prev x) (apart x (next b) (h ∷ r) n_in (ground arith)) ∙ f,
      unlinked next prev x l b r h (ground arith) (ground arith) (ground arith) rest,
    )
  where
    apart : (y z : ℕ) (m : List ℕ) → has z m ≡ true → has y m ≡ false → (y == z) ≡ false
    apart y z m here there = elim (ℕ_discrete y z) [
      | yes same ↦ absurd (let e = ap (λ w. has w m) same in ground arith)
      | no ne ↦ ground arith
    ]
