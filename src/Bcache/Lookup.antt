-- ===== src/Bcache/Lookup.antt =====
-- What `bget` of Xv6/kernel/bio.c returns.
use os_project.Prelude.{
  ℕ, ◌+◌, ◌%◌, ◌^◌, ◌<◌, ◌≡◌, ◌≢◌, ◌⊎◌, ◌==◌, if_true, if_false, false, inl, inr, refl, ap, sym,
  ◌∙◌, ap₂, true, false, Bool-cases, Option, none, some, List, length, arith,
}
use os_project.Bcache.{
  Buf, nbuf, head, Bcache, walk, caches, is_free, set_buf, recycled, bget, incr,
}
use os_project.Bcache.Links.{has, is_distinct, Linked}
use os_project.Bcache.Search.{
  backward, Linked-backward, has-backward, length-backward, first_hit, first_hit_lem, walk_lem,
}

-- The list holds every buffer once, the one used last in front.
pub record Ordered (l : List ℕ) (c : Bcache) : Type 0 where
  pub links : Linked c.next c.prev head l head
  pub distinct : is_distinct l ≡ true
  pub size : length l ≡ nbuf
  pub within : (i : ℕ) → has i l ≡ true → i < nbuf
  pub full : (i : ℕ) → i < nbuf → has i l ≡ true

pub no_head : (l : List ℕ) (c : Bcache) → Ordered l c → has head l ≡ false
no_head l c o = elim (Bool-cases (has head l)) [
  | inl in_list ↦ (let lt = o.within head in_list in absurd (omega arith))
  | inr e ↦ e
]

-- `bget` by the two searches.
abbrev pub got : (dev blockno : ℕ) → Bcache → Option ℕ → Option ℕ → Option (ℕ × Bcache)
got dev blockno c cached free = elim cached [
  | some i ↦ some (i, set_buf i (record (c.buf i) { refcnt = incr (c.buf i).refcnt }) c)
  | none ↦ (elim free [
    | some i ↦ some (i, set_buf i (recycled dev blockno (c.buf i)) c)
    | none ↦ none
  ])
]

bget-got :
    (dev blockno : ℕ) (c : Bcache)
    → bget dev blockno c
      ≡ got dev blockno c
          (walk (nbuf + 1) c.next (λ i. caches dev blockno (c.buf i)) (c.next head))
          (walk (nbuf + 1) c.prev (λ i. is_free (c.buf i)) (c.prev head))
unfolding bget
bget-got dev blockno c = refl

-- With the list in order, `bget` takes the buffer of the block that was used last, or else the free
-- buffer that was used the longest time ago.
bget-Ordered :
    (dev blockno : ℕ) (l : List ℕ) (c : Bcache)
    → Ordered l c
    → bget dev blockno c
      ≡ got dev blockno c
          (first_hit (λ i. caches dev blockno (c.buf i)) l)
          (first_hit (λ i. is_free (c.buf i)) (backward l))
bget-Ordered dev blockno l c o =
    bget-got dev blockno c
    ∙ ap₂ (got dev blockno c)
        (walk_lem (nbuf + 1) c.next c.prev _ head l (let e = o.size in ground arith) (no_head l c o)
          o.links)
        (walk_lem (nbuf + 1) c.prev c.next _ head (backward l)
          (let e = o.size in let f = length-backward l in ground arith)
          (has-backward head l ∙ no_head l c o) (Linked-backward c.next c.prev head l head o.links))

-- The three outcomes, with the code's own buffers.
abbrev pub HitCode : ℕ → ℕ → Bcache → Type 0
HitCode dev blockno c =
    (i : ℕ) × (i < nbuf)
    × (caches dev blockno (c.buf i) ≡ true)
    × (bget dev blockno c
        ≡ some (i, set_buf i (record (c.buf i) { refcnt = incr (c.buf i).refcnt }) c))

abbrev pub UncachedCode : ℕ → ℕ → Bcache → Type 0
UncachedCode dev blockno c = (j : ℕ) → j < nbuf → caches dev blockno (c.buf j) ≡ false

-- The buffer recycled is free, and every buffer behind it in the list is in use.
abbrev pub RecycledCode : ℕ → ℕ → List ℕ → Bcache → Type 0
RecycledCode dev blockno l c =
    (i : ℕ) × (i < nbuf)
    × (first_hit (λ j. is_free (c.buf j)) (backward l) ≡ some i)
    × (is_free (c.buf i) ≡ true)
    × (bget dev blockno c ≡ some (i, set_buf i (recycled dev blockno (c.buf i)) c))

abbrev pub BusyCode : ℕ → ℕ → Bcache → Type 0
BusyCode dev blockno c =
    ((j : ℕ) → j < nbuf → is_free (c.buf j) ≡ false) × (bget dev blockno c ≡ none)

-- `bget` by the two searches, with what they say of the buffers.
pub bget_cases :
    (dev blockno : ℕ) (l : List ℕ) (c : Bcache)
    → Ordered l c
    → HitCode dev blockno c
      ⊎ UncachedCode dev blockno c × (RecycledCode dev blockno l c ⊎ BusyCode dev blockno c)
bget_cases dev blockno l c o = elim (first_hit_lem (λ i. caches dev blockno (c.buf i)) l) [
  | inl (i, in_list, hit, e) ↦
      inl (i, o.within i in_list, hit, returns ∙ ap (λ r. got dev blockno c r free) e)
  | inr (never, e) ↦ inr (
    λ j lt. never j (o.full j lt),
    elim (first_hit_lem (λ i. is_free (c.buf i)) (backward l)) [
      | inl (i, in_list, idle, f) ↦ inl (
        i,
        o.within i (sym (has-backward i l) ∙ in_list),
        f,
        idle,
        returns ∙ ap₂ (got dev blockno c) e f,
      )
      | inr (busy, f) ↦
          inr
            (λ j lt. busy j (has-backward j l ∙ o.full j lt), returns ∙ ap₂ (got dev blockno c) e f)
    ],
  )
]
  where
    free : Option ℕ
    free = first_hit (λ i. is_free (c.buf i)) (backward l)

    returns :
        bget dev blockno c
        ≡ got dev blockno c (first_hit (λ i. caches dev blockno (c.buf i)) l) free
    returns = bget-Ordered dev blockno l c o

-- In `d` buffer `i` is `b`, and all else is as in `c`.
pub record Only (i : ℕ) (b : Buf) (c d : Bcache) : Type 0 where
  pub here : d.buf i ≡ b
  pub others : (j : ℕ) → j ≢ i → d.buf j ≡ c.buf j
  pub same_prev : d.prev ≡ c.prev
  pub same_next : d.next ≡ c.next

set_buf-Only : (i : ℕ) (b : Buf) (c : Bcache) → Only i b c (set_buf i b c)
set_buf-Only i b c = record {
  here = if_true (i == i) b (c.buf i) (ground arith);
  others = λ j ne. if_false (j == i) b (c.buf j) (ground arith);
  same_prev = refl;
  same_next = refl;
}

-- The three outcomes.
abbrev pub Hit : ℕ → ℕ → Bcache → Type 0
Hit dev blockno c =
    (i : ℕ) × (i < nbuf)
    × ((c.buf i).dev ≡ dev)
    × ((c.buf i).blockno ≡ blockno)
    × (d : Bcache) × (bget dev blockno c ≡ some (i, d))
    × Only i (record (c.buf i) { refcnt = ((c.buf i).refcnt + 1) % 2 ^ 32 }) c d

abbrev pub Uncached : ℕ → ℕ → Bcache → Type 0
Uncached dev blockno c = (j : ℕ) → j < nbuf → (c.buf j).dev ≡ dev → (c.buf j).blockno ≢ blockno

-- The buffer recycled is free, and every buffer behind it in the list is in use. Its bytes are those
-- of the block that it had, and no longer valid.
abbrev pub Recycled : ℕ → ℕ → List ℕ → Bcache → Type 0
Recycled dev blockno l c =
    (i : ℕ) × (i < nbuf)
    × (first_hit (λ j. (c.buf j).refcnt == 0) (backward l) ≡ some i)
    × ((c.buf i).refcnt ≡ 0)
    × (d : Bcache) × (bget dev blockno c ≡ some (i, d))
    × Only i (record (c.buf i) { dev = dev; blockno = blockno; valid = false; refcnt = 1 }) c d

abbrev pub Busy : ℕ → ℕ → Bcache → Type 0
Busy dev blockno c = ((j : ℕ) → j < nbuf → (c.buf j).refcnt ≢ 0) × (bget dev blockno c ≡ none)

-- With the list in order, `bget` counts one more user, modulo 2^32, of a buffer of the block. If there is
-- none, it gives the block the free buffer that was used the longest time ago, with one user and no
-- valid bytes, and panics exactly if no buffer is free. It changes no other buffer and no link.
pub bget_lem :
    (dev blockno : ℕ) (l : List ℕ) (c : Bcache)
    → Ordered l c
    → Hit dev blockno c ⊎ Uncached dev blockno c × (Recycled dev blockno l c ⊎ Busy dev blockno c)
bget_lem dev blockno l c o = elim (bget_cases dev blockno l c o) [
  | inl (i, lt, hit, e) ↦ inl (
    i,
    lt,
    ground arith,
    ground arith,
    set_buf i (record (c.buf i) { refcnt = incr (c.buf i).refcnt }) c,
    e,
    set_buf-Only i _ c,
  )
  | inr (uncached, rest) ↦ inr (
    λ j lt same other. ground (arith, uncached j lt),
    elim rest [
      | inl (i, lt, last, free, e) ↦ inl (
        i,
        lt,
        last,
        ground arith,
        set_buf i (recycled dev blockno (c.buf i)) c,
        e,
        set_buf-Only i _ c,
      )
      | inr (busy, e) ↦ inr (λ j lt z. ground (arith, busy j lt), e)
    ],
  )
]
