-- ===== src/Bcache/Search.antt =====
-- The walks of Xv6/kernel/bio.c over its list, and a buffer that moves to the front.
use os_project.Prelude.{
  ℕ, zero, suc, ◌+◌, ◌<◌, ◌≡◌, ◌≢◌, ◌⊎◌, inl, inr, refl, ap, sym, ◌∙◌, Bool, true, false,
  Bool-cases, Option, none, some, List, [], ◌∷◌, ◌++◌, length, ◌==◌, if◌then◌else◌, arith,
  ℕ_discrete, if_true, if_false,
}
use mathlib.Core.Path.{subst}
use os_project.Bcache.{head, assign, walk}
use os_project.Bcache.Links.{has, is_distinct, Linked, Linked-frame, has-append}

pub pushed :
    (next prev : ℕ → ℕ) (h : ℕ) (l : List ℕ) (b : ℕ)
    → has b l ≡ false
    → has h l ≡ false
    → is_distinct l ≡ true
    → b ≢ h
    → Linked next prev h l h
    → Linked
        (assign (assign next b (next h)) h b)
        (assign (assign prev b h) (assign next b (next h) h) b)
        h
        (b ∷ l)
        h
pushed next prev h [] b no_b no_h one ne (e, f) =
    (ground arith, ground arith, (ground arith, ground arith))
pushed next prev h (c ∷ l) b no_b no_h one ne (e, f, rest) = (
  ground arith,
  ground arith,
  (
    ground arith,
    ground arith,
    Linked-frame next prev _ _ c l h
        (λ x in_list.
          frame next x b h (next h) b (apart x h (c ∷ l) in_list (ground arith))
            (apart x b (c ∷ l) in_list no_b))
        (λ x in_list.
          frame prev x b (assign next b (next h) h) h b
            (ground (arith, apart x c (h ∷ l) in_list (ground arith)))
            (apart x b (h ∷ l) in_list (ground arith)))
        rest,
  ),
)
  where
    apart : (x y : ℕ) (m : List ℕ) → has x m ≡ true → has y m ≡ false → (x == y) ≡ false
    apart x y m here there = elim (ℕ_discrete x y) [
      | yes same ↦ absurd (let e = ap (λ w. has w m) same in ground arith)
      | no ne ↦ ground arith
    ]

    frame :
        (f : ℕ → ℕ) (x b k u v : ℕ)
        → (x == k) ≡ false
        → (x == b) ≡ false
        → assign (assign f b u) k v x ≡ f x
    frame f x b k u v e e' = ground arith

-- The same list from its other end.
pub backward : List ℕ → List ℕ
backward [] = []
backward (x ∷ l) = backward l ++ (x ∷ [])

Linked-snoc :
    (next prev : ℕ → ℕ) (h : ℕ) (l : List ℕ) (x a : ℕ)
    → Linked prev next h l x
    → prev x ≡ a
    → next a ≡ x
    → Linked prev next h (l ++ (x ∷ [])) a
Linked-snoc next prev h [] x a (e, f) g k = (e, f, (g, k))
Linked-snoc next prev h (y ∷ l) x a (e, f, rest) g k =
    (e, f, Linked-snoc next prev y l x a rest g k)

pub Linked-backward :
    (next prev : ℕ → ℕ) (a : ℕ) (l : List ℕ) (h : ℕ)
    → Linked next prev a l h
    → Linked prev next h (backward l) a
unfolding backward
Linked-backward next prev a [] h (e, f) = (f, e)
Linked-backward next prev a (x ∷ l) h (e, f, rest) =
    Linked-snoc next prev h (backward l) x a (Linked-backward next prev x l h rest) f e

pub has-backward : (x : ℕ) (l : List ℕ) → has x (backward l) ≡ has x l
unfolding backward
has-backward x [] = refl
has-backward x (y ∷ l) =
    let e = has-append x (backward l) (y ∷ []) in let f = has-backward x l in ground arith

length_snoc : (l : List ℕ) (x : ℕ) → length (l ++ (x ∷ [])) ≡ length l + 1
length_snoc [] x = refl
length_snoc (y ∷ l) x = let e = length_snoc l x in ground arith

pub length-backward : (l : List ℕ) → length (backward l) ≡ length l
unfolding backward
length-backward [] = refl
length-backward (x ∷ l) =
    let e = length_snoc (backward l) x in let f = length-backward l in ground arith

-- The first entry that the test holds for.
abbrev pub first_hit : (ℕ → Bool) → List ℕ → Option ℕ
first_hit hit [] = none
first_hit hit (x ∷ l) = if hit x then some x else first_hit hit l

pub first_hit_lem :
    (hit : ℕ → Bool) (l : List ℕ)
    → ((x : ℕ) × (has x l ≡ true) × (hit x ≡ true) × (first_hit hit l ≡ some x))
      ⊎ ((x : ℕ) → has x l ≡ true → hit x ≡ false) × (first_hit hit l ≡ none)
first_hit_lem hit [] = inr (λ x in_list. absurd (ground arith), refl)
first_hit_lem hit (y ∷ l) = elim (Bool-cases (hit y)) [
  | inl yes_hit ↦ inl (y, ground arith, yes_hit, ground arith)
  | inr no_hit ↦ elim (first_hit_lem hit l) [
    | inl (x, in_list, hits, e) ↦
        inl (x, ground arith, hits, if_false (hit y) (some y) (first_hit hit l) no_hit ∙ e)
    | inr (never, e) ↦ inr (
      λ x in_list. elim (ℕ_discrete x y) [
        | yes same ↦ ap hit same ∙ no_hit
        | no ne ↦ never x (ground arith)
      ],
      if_false (hit y) (some y) (first_hit hit l) no_hit ∙ e,
    )
  ]
]

pub walk_lem :
    (n : ℕ) (next prev : ℕ → ℕ) (hit : ℕ → Bool) (a : ℕ) (l : List ℕ)
    → length l < n
    → has head l ≡ false
    → Linked next prev a l head
    → walk n next hit (next a) ≡ first_hit hit l
unfolding walk
walk_lem zero next prev hit a l lt no_head links = absurd (ground arith)
walk_lem (suc n) next prev hit a [] lt no_head (e, f) =
    if_true (next a == head) none _ (ground arith)
walk_lem (suc n) next prev hit a (x ∷ l) lt no_head (e, f, rest) =
    subst
      (λ b.
        (if b == head then none else if hit b then some b else walk n next hit (next b))
        ≡ first_hit hit (x ∷ l))
      (sym e)
      (if_false (x == head) none _ (ground arith)
        ∙ ap (λ r. if hit x then some x else r)
            (walk_lem n next prev hit x l (ground arith) (ground arith) rest))
