-- ===== src/Inodes/Numbers.antt =====
-- The numbers of a file's blocks, behind the writes of bmap.
use os_project.Prelude.{
  ℕ, ◌+◌, ◌*◌, ◌-◌, ◌/◌, ◌%◌, ◌^◌, ◌<◌, ◌≤◌, true, false, ◌&&◌, ◌==◌, leb, ltb, if◌then◌else◌,
  if_true, if_false, Bool-cases, ◌≡◌, ◌≢◌, ◌⊎◌, sym, ap, ◌∙◌, inl, inr, arith,
}
use os_project.Blocks.{bsize, Blocks}
use os_project.Inodes.{Inode, ndirect, nindirect, max_file, uint_at, put_uint, set_addr}
use os_project.Inodes.Layout.{block_no}

put_uint_byte :
    (d : Blocks) (b i v r : ℕ) → r < 4 → put_uint d b i v b (4 * i + r) ≡ v / 256 ^ r % 256
unfolding put_uint
put_uint_byte d b i v r lt =
    let place : 4 * i + r - 4 * i ≡ r = omega arith in
    if_true (b == b && leb (4 * i) (4 * i + r) && ltb (4 * i + r) (4 * i + 4)) _ (d b (4 * i + r))
      (ground arith)
    ∙ ap (λ e. v / 256 ^ e % 256) place

put_uint_other :
    (d : Blocks) (b i v k : ℕ) → (k < 4 * i) ⊎ (4 * i + 4 ≤ k) → put_uint d b i v b k ≡ d b k
unfolding put_uint
put_uint_other d b i v k out =
    if_false (b == b && leb (4 * i) k && ltb k (4 * i + 4)) _ (d b k) (ground arith)

-- A number of an indirect block, behind a write of one of its numbers.
put_uint_self : (d : Blocks) (b i v : ℕ) → v < 2 ^ 32 → uint_at (put_uint d b i v) b i ≡ v
put_uint_self d b i v lt =
    let at : 4 * i ≡ 4 * i + 0 = omega arith in
    let first : put_uint d b i v b (4 * i) ≡ v / 256 ^ 0 % 256 =
      ap (put_uint d b i v b) at ∙ put_uint_byte d b i v 0 (omega arith) in
    omega (
      arith,
      lt,
      first,
      put_uint_byte d b i v 1 (omega arith),
      put_uint_byte d b i v 2 (omega arith),
      put_uint_byte d b i v 3 (omega arith),
    )

put_uint_ne : (d : Blocks) (b i j v : ℕ) → j ≢ i → uint_at (put_uint d b i v) b j ≡ uint_at d b j
put_uint_ne d b i j v ne =
    let out : (r : ℕ) → r < 4 → (4 * j + r < 4 * i) ⊎ (4 * i + 4 ≤ 4 * j + r) =
      λ r lt. apart i j r ne lt in
    let first : (4 * j < 4 * i) ⊎ (4 * i + 4 ≤ 4 * j) = apart_first i j ne in
    omega (
      arith,
      put_uint_other d b i v (4 * j) first,
      put_uint_other d b i v (4 * j + 1) (out 1 (omega arith)),
      put_uint_other d b i v (4 * j + 2) (out 2 (omega arith)),
      put_uint_other d b i v (4 * j + 3) (out 3 (omega arith)),
    )
  where
    apart : (i j r : ℕ) → j ≢ i → r < 4 → (4 * j + r < 4 * i) ⊎ (4 * i + 4 ≤ 4 * j + r)
    apart i j r ne lt = ground arith

    apart_first : (i j : ℕ) → j ≢ i → (4 * j < 4 * i) ⊎ (4 * i + 4 ≤ 4 * j)
    apart_first i j ne = ground arith

pub put_uint_far : (d : Blocks) (b i v c k : ℕ) → c ≢ b → put_uint d b i v c k ≡ d c k
unfolding put_uint
put_uint_far d b i v c k ne = ground arith

pub no_direct : (ip : Inode) (d : Blocks) (j : ℕ) → j < ndirect → block_no ip d j ≡ ip.addrs j
no_direct ip d j lt = ground arith

pub no_indirect :
    (ip : Inode) (d : Blocks) (j : ℕ)
    → ndirect ≤ j
    → j < max_file
    → block_no ip d j
      ≡ (if ip.addrs ndirect == 0 then 0 else uint_at d (ip.addrs ndirect) (j - ndirect))
no_indirect ip d j le lt = ground arith

pub places :
    (j : ℕ) → j ≤ max_file → (j < ndirect) ⊎ (ndirect ≤ j) × (j < max_file) ⊎ (j ≡ max_file)
places j le = ground arith

pub uint_same : (d e : Blocks) (t n : ℕ) → ((k : ℕ) → e t k ≡ d t k) → uint_at e t n ≡ uint_at d t n
uint_same d e t n same =
    omega (arith, same (4 * n), same (4 * n + 1), same (4 * n + 2), same (4 * n + 3))

pub table_same :
    (d e : Blocks) (t n : ℕ)
    → (t ≢ 0 → (k : ℕ) → e t k ≡ d t k)
    → (if t == 0 then 0 else uint_at e t n) ≡ (if t == 0 then 0 else uint_at d t n)
table_same d e t n same = elim (Bool-cases (t == 0)) [
  | inl z ↦ if_true (t == 0) 0 _ z ∙ sym (if_true (t == 0) 0 _ z)
  | inr z ↦ ap (λ x. if t == 0 then 0 else x) (uint_same d e t n (same (λ h. ground arith)))
]

uint_zero :
    (e : Blocks) (a n : ℕ) → n < nindirect → ((k : ℕ) → k < bsize → e a k ≡ 0) → uint_at e a n ≡ 0
uint_zero e a n lt zeros = omega (
  arith,
  zeros (4 * n) (omega arith),
  zeros (4 * n + 1) (omega arith),
  zeros (4 * n + 2) (omega arith),
  zeros (4 * n + 3) (omega arith),
)

entries :
    (d e : Blocks) (t n a m : ℕ)
    → a < 2 ^ 32
    → ((k : ℕ) → e t k ≡ d t k)
    → uint_at (put_uint e t n a) t m ≡ (if m == n then a else uint_at d t m)
entries d e t n a m small same = elim (Bool-cases (m == n)) [
  | inl h ↦
      ap (uint_at (put_uint e t n a) t) (ground arith)
      ∙ put_uint_self e t n a small
      ∙ sym (if_true (m == n) a _ h)
  | inr h ↦
      put_uint_ne e t n m a (λ x. ground arith)
      ∙ uint_same d e t m same
      ∙ sym (if_false (m == n) a _ h)
]

shifted : (j n : ℕ) → ndirect ≤ j → (j - ndirect == n) ≡ (j == n + ndirect)
shifted j n le = ground arith

elsewhere : (j i a x : ℕ) → j ≢ i → (if j == i then a else x) ≡ x
elsewhere j i a x ne = ground arith

-- Three places for a new block.
pub numbers_direct :
    (ip : Inode) (d e : Blocks) (i a : ℕ)
    → i < ndirect
    → (ip.addrs ndirect ≢ 0 → (k : ℕ) → e (ip.addrs ndirect) k ≡ d (ip.addrs ndirect) k)
    → (j : ℕ) → j ≤ max_file
    → block_no (set_addr ip i a) e j ≡ (if j == i then a else block_no ip d j)
numbers_direct ip d e i a lt same j le = elim (places j le) [
  | inl l ↦
      no_direct (set_addr ip i a) e j l
      ∙ ap (λ x. if j == i then a else x) (sym (no_direct ip d j l))
  | inr o ↦ elim o [
    | inl (l, m) ↦
        (let kept : (set_addr ip i a).addrs ndirect ≡ ip.addrs ndirect = ground arith in
          no_indirect (set_addr ip i a) e j l m
          ∙ ap (λ t. if t == 0 then 0 else uint_at e t (j - ndirect)) kept
          ∙ table_same d e (ip.addrs ndirect) (j - ndirect) same
          ∙ sym (elsewhere j i a _ (λ h. omega arith) ∙ no_indirect ip d j l m))
    | inr l ↦
        (let kept : (set_addr ip i a).addrs ndirect ≡ ip.addrs ndirect = ground arith in
          ap (block_no (set_addr ip i a) e) l
          ∙ kept
          ∙ sym (elsewhere j i a _ (λ h. omega arith) ∙ ap (block_no ip d) l))
  ]
]

pub numbers_table :
    (ip : Inode) (d e : Blocks) (a : ℕ)
    → ip.addrs ndirect ≡ 0
    → 0 < a
    → ((k : ℕ) → k < bsize → e a k ≡ 0)
    → (j : ℕ) → j ≤ max_file
    → block_no (set_addr ip ndirect a) e j ≡ (if j == max_file then a else block_no ip d j)
numbers_table ip d e a z pos zeros j le = elim (places j le) [
  | inl l ↦
      (let kept : (set_addr ip ndirect a).addrs j ≡ ip.addrs j = ground arith in
        no_direct (set_addr ip ndirect a) e j l
        ∙ kept
        ∙ sym (elsewhere j max_file a _ (λ h. omega arith) ∙ no_direct ip d j l))
  | inr o ↦ elim o [
    | inl (l, m) ↦
        (let at : (set_addr ip ndirect a).addrs ndirect ≡ a = ground arith in
          let none_before : (ip.addrs ndirect == 0) ≡ true = ground arith in
          no_indirect (set_addr ip ndirect a) e j l m
          ∙ ap (λ t. if t == 0 then 0 else uint_at e t (j - ndirect)) at
          ∙ if_false (a == 0) 0 _ (ground arith)
          ∙ uint_zero e a (j - ndirect) (omega arith) zeros
          ∙ sym (
              elsewhere j max_file a _ (λ h. omega arith)
              ∙ no_indirect ip d j l m
              ∙ if_true (ip.addrs ndirect == 0) 0 _ none_before))
    | inr l ↦ ap (block_no (set_addr ip ndirect a) e) l ∙ ground arith
  ]
]

pub numbers_indirect :
    (ip : Inode) (d e : Blocks) (n a : ℕ)
    → ip.addrs ndirect ≢ 0
    → n < nindirect
    → a < 2 ^ 32
    → ((k : ℕ) → e (ip.addrs ndirect) k ≡ d (ip.addrs ndirect) k)
    → (j : ℕ) → j ≤ max_file
    → block_no ip (put_uint e (ip.addrs ndirect) n a) j
      ≡ (if j == n + ndirect then a else block_no ip d j)
numbers_indirect ip d e n a nz lt small same j le = elim (places j le) [
  | inl l ↦
      no_direct ip (put_uint e (ip.addrs ndirect) n a) j l
      ∙ sym (elsewhere j (n + ndirect) a _ (λ h. omega arith) ∙ no_direct ip d j l)
  | inr o ↦ elim o [
    | inl (l, m) ↦
        (let some_table : (ip.addrs ndirect == 0) ≡ false = ground arith in
          no_indirect ip (put_uint e (ip.addrs ndirect) n a) j l m
          ∙ if_false (ip.addrs ndirect == 0) 0 _ some_table
          ∙ entries d e (ip.addrs ndirect) n a (j - ndirect) small same
          ∙ ap (λ b. if b then a else uint_at d (ip.addrs ndirect) (j - ndirect)) (shifted j n l)
          ∙ ap (λ x. if j == n + ndirect then a else x)
              (sym (no_indirect ip d j l m ∙ if_false (ip.addrs ndirect == 0) 0 _ some_table)))
    | inr l ↦
        ap (block_no ip (put_uint e (ip.addrs ndirect) n a)) l
        ∙ sym (elsewhere j (n + ndirect) a _ (λ h. omega arith) ∙ ap (block_no ip d) l)
  ]
]
