-- ===== src/Grep/Matching.antt =====
-- What a pattern of grep.c means, without the order of the search, and that `match` decides it.
use os_project.Prelude.{
  ℕ, ◌==◌, if◌then◌else◌, if_true, if_false, Bool-cases, Bool, true, false, ◌||◌, List, [], ◌∷◌,
  ◌≡◌, ◌≢◌, refl, sym, ◌↔◌, ◌⊎◌, inl, inr, arith,
}
use mathlib.Core.Path.{subst}
use os_project.Grep.{Text, caret, dollar, star, dot, matchstar, matchhere, match_from, match}

-- A pattern read as a sequence of items: one byte, any number of a byte, and the end of the text.
pub data Item : Type 0 where
  one : ℕ → Item
  many : ℕ → Item
  ending : Item

abbrev pub read : Text → List Item
read [] = []
read (c ∷ []) = if c == dollar then ending ∷ [] else one c ∷ []
read (c ∷ d ∷ re) =
    let rest = read (d ∷ re) in
    let later = read re in if d == star then many c ∷ later else one c ∷ rest

-- A byte of the pattern takes a byte of the text.
abbrev pub Accepts : ℕ → ℕ → Type 0
Accepts c t = (c ≡ dot) ⊎ (c ≡ t)

-- The items match a text that starts with what they say.
pub data Matches : List Item → Text → Type 0 where
  empty : {s : Text} → Matches [] s
  byte :
      {c t : ℕ} {p : List Item} {s : Text} → Accepts c t → Matches p s → Matches (one c ∷ p) (t ∷ s)
  leave : {c : ℕ} {p : List Item} {s : Text} → Matches p s → Matches (many c ∷ p) s
  take :
      {c t : ℕ} {p : List Item} {s : Text}
      → Accepts c t
      → Matches (many c ∷ p) s
      → Matches (many c ∷ p) (t ∷ s)
  end_here : Matches (ending ∷ []) []

-- A place in the text, its end included, from which the items match.
pub data Somewhere : List Item → Text → Type 0 where
  here : {p : List Item} {s : Text} → Matches p s → Somewhere p s
  later : {t : ℕ} {p : List Item} {s : Text} → Somewhere p s → Somewhere p (t ∷ s)

-- A pattern that starts with '^' matches at the start of the text, any other pattern anywhere.
abbrev pub Finds : Text → Text → Type 0
Finds [] text = Somewhere [] text
Finds (c ∷ re) text =
    ((c ≡ caret) × Matches (read re) text) ⊎ ((c ≢ caret) × Somewhere (read (c ∷ re)) text)

byte_inv :
    {c t : ℕ} {p : List Item} {s : Text} → Matches (one c ∷ p) (t ∷ s) → Accepts c t × Matches p s
byte_inv (byte a m) = (a, m)

no_byte : {c : ℕ} {p : List Item} → ¬ Matches (one c ∷ p) []
no_byte m = elim m [ ]

leave_inv : {c : ℕ} {p : List Item} → Matches (many c ∷ p) [] → Matches p []
leave_inv (leave m) = m

many_inv :
    {c t : ℕ} {p : List Item} {s : Text}
    → Matches (many c ∷ p) (t ∷ s)
    → Matches p (t ∷ s) ⊎ (Accepts c t × Matches (many c ∷ p) s)
many_inv (leave m) = inl m
many_inv (take a m) = inr (a, m)

no_ending : {t : ℕ} {s : Text} → ¬ Matches (ending ∷ []) (t ∷ s)
no_ending m = elim m [ ]

-- The equation that selects the branch, on both sides of a statement.
both :
    {A B : Type 0} (Q : A → B → Type 0) (b : Bool) (x y : A) (z w : B)
    → (b ≡ true → Q x z)
    → (b ≡ false → Q y w)
    → Q (if b then x else y) (if b then z else w)
both Q true x y z w p q = p refl
both Q false x y z w p q = q refl

abbrev Decided : Bool → List Item → Text → Type 0
Decided b p s = (b ≡ true) ↔ Matches p s

-- One byte taken, or no way on.
takes : (c t : ℕ) → ((c == dot || c == t) ≡ true) ↔ Accepts c t
takes c t = ground arith

takes_star : (c t : ℕ) → ((t == c || c == dot) ≡ true) ↔ Accepts c t
takes_star c t = ground arith

onward :
    (b rest : Bool) {c t : ℕ} {p : List Item} {s : Text}
    → (b ≡ true) ↔ Accepts c t
    → Decided rest p s
    → Decided (if b then rest else false) (one c ∷ p) (t ∷ s)
onward true rest a r = (λ e. byte (a.0 refl) (r.0 e), λ m. r.1 (byte_inv m).1)
onward false rest a r = (λ e. ground arith, λ m. a.1 (byte_inv m).0)

round :
    (h b rest : Bool) {c t : ℕ} {p : List Item} {s : Text}
    → Decided h p (t ∷ s)
    → (b ≡ true) ↔ Accepts c t
    → Decided rest (many c ∷ p) s
    → Decided (if h then true else if b then rest else false) (many c ∷ p) (t ∷ s)
round true b rest h a r = (λ e. leave (h.0 refl), λ m. refl)
round false true rest h a r = (
  λ e. take (a.0 refl) (r.0 e),
  λ m. elim (many_inv m) [ inl x ↦ absurd (ground (arith, h.1 x)) | inr (y, n) ↦ r.1 n ],
)
round false false rest h a r =
    (λ e. absurd (ground arith), λ m. elim (many_inv m) [ inl x ↦ h.1 x | inr (x, n) ↦ a.1 x ])

Somewhere-inv :
    {p : List Item} {t : ℕ} {s : Text} → Somewhere p (t ∷ s) → Matches p (t ∷ s) ⊎ Somewhere p s
Somewhere-inv (here m) = inl m
Somewhere-inv (later w) = inr w

Somewhere-end : {p : List Item} → Somewhere p [] → Matches p []
Somewhere-end (here m) = m

matchstar_iff :
    (c : ℕ) (f : Text → Bool) (p : List Item)
    → ((s : Text) → Decided (f s) p s)
    → (s : Text) → Decided (matchstar c f s) (many c ∷ p) s
unfolding matchstar
matchstar_iff c f p h [] = (λ e. leave ((h []).0 e), λ m. (h []).1 (leave_inv m))
matchstar_iff c f p h (t ∷ ts) =
    round (f (t ∷ ts)) (t == c || c == dot) (matchstar c f ts) (h (t ∷ ts)) (takes_star c t)
      (matchstar_iff c f p h ts)

last_byte :
    (b : Bool) {c t : ℕ} {s : Text} → (b ≡ true) ↔ Accepts c t → Decided b (one c ∷ []) (t ∷ s)
last_byte b a = (λ e. byte (a.0 e) empty, λ m. a.1 (byte_inv m).0)

matchhere_iff : (re s : Text) → Decided (matchhere re s) (read re) s
unfolding matchhere
matchhere_iff [] s = (λ e. empty, λ m. refl)
matchhere_iff (c ∷ []) [] = elim (Bool-cases (c == dollar)) [
  | inl e ↦
      subst (λ (b : Bool). Decided b (if b then ending ∷ [] else one c ∷ []) []) (sym e)
        (λ x. end_here, λ m. refl)
  | inr e ↦
      subst (λ (b : Bool). Decided b (if b then ending ∷ [] else one c ∷ []) []) (sym e)
        (λ x. absurd (ground arith), λ m. absurd (no_byte m))
]
matchhere_iff (c ∷ []) (t ∷ ts) =
    both (λ (b : Bool) (p : List Item). Decided b p (t ∷ ts)) (c == dollar) _ _ _ _
      (λ e. (λ x. absurd (ground arith), λ m. absurd (no_ending m)))
      (λ e. last_byte (c == dot || c == t) (takes c t))
matchhere_iff (c ∷ d ∷ re) [] =
    both (λ (b : Bool) (p : List Item). Decided b p []) (d == star) _ _ _ _
      (λ e. matchstar_iff c (matchhere re) (read re) (matchhere_iff re) [])
      (λ e. (λ x. absurd (ground arith), λ m. absurd (no_byte m)))
matchhere_iff (c ∷ d ∷ re) (t ∷ ts) =
    both (λ (b : Bool) (p : List Item). Decided b p (t ∷ ts)) (d == star) _ _ _ _
      (λ e. matchstar_iff c (matchhere re) (read re) (matchhere_iff re) (t ∷ ts))
      (λ e.
        onward (c == dot || c == t) (matchhere (d ∷ re) ts) (takes c t) (matchhere_iff (d ∷ re) ts))

here_or_later :
    (h rest : Bool) {p : List Item} {t : ℕ} {ts : Text}
    → Decided h p (t ∷ ts)
    → (rest ≡ true) ↔ Somewhere p ts
    → ((if h then true else rest) ≡ true) ↔ Somewhere p (t ∷ ts)
here_or_later true rest d r = (λ e. here (d.0 refl), λ w. refl)
here_or_later false rest d r = (
  λ e. later (r.0 e),
  λ w. elim (Somewhere-inv w) [ inl m ↦ absurd (ground (arith, d.1 m)) | inr v ↦ r.1 v ],
)

match_from_iff : (re text : Text) → (match_from re text ≡ true) ↔ Somewhere (read re) text
unfolding match_from
match_from_iff re [] =
    (λ e. here ((matchhere_iff re []).0 e), λ w. (matchhere_iff re []).1 (Somewhere-end w))
match_from_iff re (t ∷ ts) =
    here_or_later (matchhere re (t ∷ ts)) (match_from re ts) (matchhere_iff re (t ∷ ts))
      (match_from_iff re ts)

-- match returns 1 exactly for the texts in which the pattern is found.
pub match_iff : (re text : Text) → (match re text ≡ true) ↔ Finds re text
unfolding match
match_iff [] text = match_from_iff [] text
match_iff (c ∷ re) text = elim (Bool-cases (c == caret)) [
  | inl e ↦
      subst (λ (b : Bool). (b ≡ true) ↔ Finds (c ∷ re) text)
        (sym (if_true (c == caret) (matchhere re text) _ e))
        (
          λ x. inl (ground arith, (matchhere_iff re text).0 x),
          λ f. elim f [
            | inl (x, m) ↦ (matchhere_iff re text).1 m
            | inr (x, w) ↦ absurd (ground arith)
          ],
        )
  | inr e ↦
      subst (λ (b : Bool). (b ≡ true) ↔ Finds (c ∷ re) text)
        (sym (if_false (c == caret) _ (match_from (c ∷ re) text) e))
        (
          λ x. inr (ground arith, (match_from_iff (c ∷ re) text).0 x),
          λ f. elim f [
            | inl (x, m) ↦ absurd (ground arith)
            | inr (x, w) ↦ (match_from_iff (c ∷ re) text).1 w
          ],
        )
]
