-- ===== src/Bcache/Release.antt =====
-- What `brelse` and `binit` of Xv6/kernel/bio.c do to the list.
use os_project.Prelude.{
  ℕ, ◌+◌, ◌<◌, ◌≡◌, ◌≢◌, ◌⊎◌, inl, inr, refl, ap, sym, ◌∙◌, Bool, true, false, Bool-cases, none,
  some, List, [], ◌∷◌, ◌++◌, length, ◌==◌, arith, ℕ_discrete, if_true, if_false,
}
use mathlib.Core.Path.{subst}
use os_project.Bcache.{nbuf, head, assign, Bcache, is_free, set_buf, brelse, decr, push, unlink}
use os_project.Bcache.Links.{has, is_distinct, Linked, has-append, unlinked, next_of}
use os_project.Bcache.Search.{pushed}
use os_project.Bcache.Lookup.{Ordered, no_head}

split_at :
    (b : ℕ) (l : List ℕ) → has b l ≡ true → (l₁ : List ℕ) × (l₂ : List ℕ) × (l ≡ l₁ ++ (b ∷ l₂))
split_at b [] here = absurd (ground arith)
split_at b (x ∷ l) here = elim (ℕ_discrete b x) [
  | yes same ↦ ([], l, ap (λ y. y ∷ l) (sym same))
  | no ne ↦ (let (l₁, l₂, e) = split_at b l (ground arith) in (x ∷ l₁, l₂, ap (λ m. x ∷ m) e))
]

has_middle : (x b : ℕ) (l r : List ℕ) → has x (l ++ (b ∷ r)) ≡ has x (b ∷ (l ++ r))
has_middle x b l r = let e = has-append x l (b ∷ r) in let f = has-append x l r in ground arith

length_middle : (b : ℕ) (l r : List ℕ) → length (l ++ (b ∷ r)) ≡ length (l ++ r) + 1
length_middle b [] r = ground arith
length_middle b (x ∷ l) r = let e = length_middle b l r in ground arith

distinct_middle : (b : ℕ) (l r : List ℕ) → is_distinct (l ++ (b ∷ r)) ≡ is_distinct (b ∷ (l ++ r))
distinct_middle b [] r = refl
distinct_middle b (x ∷ l) r =
    let e = distinct_middle b l r in let f = has_middle x b l r in ground arith

-- Entry `b` goes to the front.
front_links :
    (b : ℕ) (l r : List ℕ) (c : Bcache)
    → is_distinct (l ++ (b ∷ r)) ≡ true
    → has head (l ++ (b ∷ r)) ≡ false
    → Linked c.next c.prev head (l ++ (b ∷ r)) head
    → Linked (push b (unlink b c)).next (push b (unlink b c)).prev head (b ∷ (l ++ r)) head
unfolding push unlink
front_links b l r c one no_h links =
    let e = distinct_middle b l r in
    let f = has_middle head b l r in
    let n = next_of c.next c.prev head l b r head links in
    let same : assign c.prev (c.next b) (c.prev b) b ≡ c.prev b = ground arith in
    pushed (assign c.next (assign c.prev (c.next b) (c.prev b) b) (c.next b))
      (assign c.prev (c.next b) (c.prev b)) head (l ++ r) b (ground arith) (ground arith)
      (ground arith) (ground arith)
      (subst
        (λ p.
          Linked (assign c.next p (c.next b)) (assign c.prev (c.next b) (c.prev b)) head (l ++ r)
            head)
        (sym same) (unlinked c.next c.prev head l b r head one no_h no_h links))

front-Ordered :
    (b : ℕ) (l r : List ℕ) (c : Bcache)
    → Ordered (l ++ (b ∷ r)) c
    → Ordered (b ∷ (l ++ r)) (push b (unlink b c))
front-Ordered b l r c o = record {
  links = front_links b l r c o.distinct (no_head (l ++ (b ∷ r)) c o) o.links;
  distinct = sym (distinct_middle b l r) ∙ o.distinct;
  size = let e = length_middle b l r in let f = o.size in ground arith;
  within = λ i in_list. o.within i (has_middle i b l r ∙ in_list);
  full = λ i lt. sym (has_middle i b l r) ∙ o.full i lt;
}

-- The buffer loses one user.
abbrev pub left_by_one : ℕ → Bcache → Bcache
left_by_one i c = set_buf i (record (c.buf i) { refcnt = decr (c.buf i).refcnt }) c

kept_buf : (b : ℕ) (c : Bcache) → (push b (unlink b c)).buf ≡ c.buf
unfolding push unlink
kept_buf b c = refl

count_left : (i : ℕ) (c : Bcache) → is_free ((left_by_one i c).buf i) ≡ (decr (c.buf i).refcnt == 0)
count_left i c = ap is_free (
    if_true (i == i) (record (c.buf i) { refcnt = decr (c.buf i).refcnt }) (c.buf i) (ground arith))

-- The order of the list behind `brelse`.
abbrev pub Released : ℕ → List ℕ → Bcache → Bcache → Type 0
Released i l c d =
    (d.buf ≡ (left_by_one i c).buf)
    × ((decr (c.buf i).refcnt ≢ 0) × Ordered l d
        ⊎ (decr (c.buf i).refcnt ≡ 0)
          × ((l₁ : List ℕ) × (l₂ : List ℕ) × (l ≡ l₁ ++ (i ∷ l₂)) × Ordered (i ∷ (l₁ ++ l₂)) d))

-- With the list in order, `brelse` panics exactly if the caller does not hold the buffer. Else the
-- buffer has one user less, no other buffer changes, and the list is in order: as it was if there are
-- users left, else with the buffer in front and the others as they were.
pub brelse_lem :
    (holds : Bool) (i : ℕ) (l : List ℕ) (c : Bcache)
    → i < nbuf
    → Ordered l c
    → (holds ≡ false) × (brelse holds i c ≡ none)
      ⊎ (holds ≡ true) × ((d : Bcache) × (brelse holds i c ≡ some d) × Released i l c d)
unfolding brelse
brelse_lem false i l c lt o = inl (refl, refl)
brelse_lem true i l c lt o =
    let c₁ = left_by_one i c in
    let o₁ : Ordered l c₁ = record {
      links = o.links;
      distinct = o.distinct;
      size = o.size;
      within = o.within;
      full = o.full;
    } in
    let (l₁, l₂, e) = split_at i l (o.full i lt) in
    inr (
      refl,
      elim (Bool-cases (is_free (c₁.buf i))) [
        | inl idle ↦ (
          push i (unlink i c₁),
          ap some (if_true (is_free (c₁.buf i)) (push i (unlink i c₁)) c₁ idle),
          (
            kept_buf i c₁,
            inr (
              let f = sym (count_left i c) ∙ idle in ground arith,
              (l₁, l₂, e, front-Ordered i l₁ l₂ c₁ (subst (λ m. Ordered m c₁) e o₁)),
            ),
          ),
        )
        | inr used ↦ (
          c₁,
          ap some (if_false (is_free (c₁.buf i)) (push i (unlink i c₁)) c₁ used),
          (refl, inl (λ zero_left. (let f = sym (count_left i c) ∙ used in ground arith), o₁)),
        )
      ],
    )
