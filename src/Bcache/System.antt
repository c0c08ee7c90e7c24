-- ===== src/Bcache/System.antt =====
-- The buffer cache of Xv6/kernel/bio.c as a system of steps that starts at `binit`.
use os_project.Prelude.{
  ℕ, zero, suc, ◌+◌, ◌≤◌, ◌<◌, ◌≡◌, inl, inr, refl, ap, sym, ◌∙◌, Bool, true, false, ◌||◌,
  Bool-cases, Option, none, some, List, [], ◌∷◌, ◌++◌, arith, if_true, if_false,
}
use mathlib.Core.Path.{subst}
use os_project.Memory.{in_range}
use os_project.Bcache.{
  nbuf, head, assign, Buf, Bcache, set_buf, bget, fill, brelse, bpin, bunpin, incr, decr, push,
  binit, binit_loop,
}
use os_project.Bcache.Links.{has, is_distinct, Linked}
use os_project.Bcache.Search.{pushed}
use os_project.Bcache.Release.{brelse_lem}
use os_project.Bcache.Unique.{Inv, Unique, bget-Inv, same_block, Ordered-set_buf}

-- What `binit` makes of a list.
abbrev piled : ℕ → ℕ → List ℕ → List ℕ
piled zero i l = l
piled (suc n) i l = piled n (i + 1) (i ∷ l)

has-piled : (n i x : ℕ) (l : List ℕ) → has x (piled n i l) ≡ (in_range i n x || has x l)
has-piled zero i x l = ground arith
has-piled (suc n) i x l = let e = has-piled n (i + 1) x (i ∷ l) in ground arith

binit_loop-Linked :
    (n i : ℕ) (l : List ℕ) (c : Bcache)
    → ((x : ℕ) → has x l ≡ true → x < i)
    → i + n ≤ head
    → is_distinct l ≡ true
    → Linked c.next c.prev head l head
    → Linked (binit_loop n i c).next (binit_loop n i c).prev head (piled n i l) head
unfolding binit_loop
binit_loop-Linked zero i l c small fits one links = links
binit_loop-Linked (suc n) i l c small fits one links =
    binit_loop-Linked n (i + 1) (i ∷ l) (push i c)
      (λ x in_list. elim (Bool-cases (has x l)) [
        | inl old ↦ (let lt = small x old in ground arith)
        | inr new ↦ ground arith
      ])
      (ground arith) (let no_i = absent i in ground arith)
      (unfold push in
        pushed c.next c.prev head l i (absent i (omega arith)) (absent head (ground arith)) one
          (ground arith) links)
  where
    absent : (x : ℕ) → i ≤ x → has x l ≡ false
    absent x le = elim (Bool-cases (has x l)) [
      | inl old ↦ (let lt = small x old in absurd (ground arith))
      | inr e ↦ e
    ]

binit_loop_buf : (n i : ℕ) (c : Bcache) → (binit_loop n i c).buf ≡ c.buf
unfolding binit_loop
binit_loop_buf zero i c = refl
binit_loop_buf (suc n) i c = binit_loop_buf n (i + 1) (push i c) ∙ unfold push in refl

-- The memory of the cache before `binit`: zero.
abbrev pub zeroed : Bcache
zeroed = record {
  buf = λ i. record { valid = false; dev = 0; blockno = 0; refcnt = 0; bytes = [] };
  prev = λ i. 0;
  next = λ i. 0;
}

binit-Inv : Inv (binit zeroed)
unfolding binit
binit-Inv =
    let start = record zeroed {
      prev = assign zeroed.prev head head;
      next = assign zeroed.next head head;
    } in
    record {
      order = piled nbuf 0 [];
      ordered = record {
        links =
            binit_loop-Linked nbuf 0 [] start (λ x in_list. absurd (ground arith)) (omega arith)
              refl (refl, refl);
        distinct = refl;
        size = refl;
        within = λ i in_list. (let e = has-piled nbuf 0 i [] in small i (sym e ∙ in_list));
        full = λ i lt. has-piled nbuf 0 i [] ∙ large i lt;
      };
      unique =
          subst Unique (sym (binit_loop_buf nbuf 0 start))
            (λ i j lt lt' used d n. absurd (used refl));
    }
  where
    small : (i : ℕ) → (in_range 0 nbuf i || false) ≡ true → i < nbuf
    small i e = ground arith

    large : (i : ℕ) → i < nbuf → (in_range 0 nbuf i || false) ≡ true
    large i lt = ground arith

-- A block is looked up, read from the disk, changed by who holds it, released, pinned or unpinned.
pub data Step (c : Bcache) : Bcache → Type 0 where
  gets : (dev blockno i : ℕ) (d : Bcache) → bget dev blockno c ≡ some (i, d) → Step c d
  fills : (disk : ℕ → ℕ → List ℕ) (i : ℕ) → Step c (fill disk i c)
  edits : (i : ℕ) (new : List ℕ) → Step c (set_buf i (record (c.buf i) { bytes = new }) c)
  releases : (holds : Bool) (i : ℕ) (d : Bcache) → i < nbuf → brelse holds i c ≡ some d → Step c d
  pins : (i : ℕ) → Step c (bpin i c)
  unpins : (i : ℕ) → Step c (bunpin i c)

pub data Steps (c : Bcache) : Bcache → Type 0 where
  stay : Steps c c
  more : (d e : Bcache) → Steps c d → Step d e → Steps c e

-- A buffer that keeps its block.
set_buf-Inv :
    (i : ℕ) (b : Buf) (c : Bcache)
    → b.dev ≡ (c.buf i).dev
    → b.blockno ≡ (c.buf i).blockno
    → Inv c
    → Inv (set_buf i b c)
set_buf-Inv i b c e f v = record {
  order = v.order;
  ordered = Ordered-set_buf v.order i b c v.ordered;
  unique = same_block c.buf i b e f v.unique;
}

fill-Inv : (disk : ℕ → ℕ → List ℕ) (i : ℕ) (c : Bcache) → Inv c → Inv (fill disk i c)
unfolding fill
fill-Inv disk i c v = elim (Bool-cases (c.buf i).valid) [
  | inl there ↦ subst Inv (sym (if_true (c.buf i).valid c _ there)) v
  | inr missing ↦ subst Inv (sym (if_false (c.buf i).valid c _ missing)) (
      set_buf-Inv i
        (record (c.buf i) { bytes = disk (c.buf i).dev (c.buf i).blockno; valid = true }) c refl
        refl v)
]

brelse-Inv :
    (holds : Bool) (i : ℕ) (c d : Bcache) → i < nbuf → brelse holds i c ≡ some d → Inv c → Inv d
brelse-Inv holds i c d lt returns v = elim (brelse_lem holds i v.order c lt v.ordered) [
  | inl (no_hold, e) ↦ absurd (let wrong = sym e ∙ returns in ground arith)
  | inr (held, (r, e, (same, order))) ↦
      (let unique : Unique r.buf = subst Unique (sym same) (
          same_block c.buf i (record (c.buf i) { refcnt = decr (c.buf i).refcnt }) refl refl
            v.unique) in
        subst Inv (ap (λ (o : Option Bcache). elim o [ none ↦ d | some p ↦ p ]) (sym e ∙ returns))
          (elim order [
            | inl (used, o) ↦ record { order = v.order; ordered = o; unique = unique }
            | inr (idle, (l₁, l₂, split, o)) ↦ record {
              order = i ∷ (l₁ ++ l₂);
              ordered = o;
              unique = unique;
            }
          ]))
]

Step-Inv : (c d : Bcache) → Step c d → Inv c → Inv d
Step-Inv c d (gets dev blockno i _ e) v = bget-Inv dev blockno i c d e v
Step-Inv c _ (fills disk i) v = fill-Inv disk i c v
Step-Inv c _ (edits i new) v = set_buf-Inv i (record (c.buf i) { bytes = new }) c refl refl v
Step-Inv c d (releases holds i _ lt e) v = brelse-Inv holds i c d lt e v
Step-Inv c _ (pins i) v =
    unfold bpin in set_buf-Inv i (record (c.buf i) { refcnt = incr (c.buf i).refcnt }) c refl refl v
Step-Inv c _ (unpins i) v =
    unfold bunpin in
    set_buf-Inv i (record (c.buf i) { refcnt = decr (c.buf i).refcnt }) c refl refl v

-- Whatever the callers do from `binit` on, the list links every buffer exactly once in both
-- directions, and no two buffers are for the same block of the same device other than 0.
pub reachable_cache-Inv : (c : Bcache) → Steps (binit zeroed) c → Inv c
reachable_cache-Inv _ stay = binit-Inv
reachable_cache-Inv c (more d _ before step) = Step-Inv d c step (reachable_cache-Inv d before)
