-- ===== src/Inodes/Mapping.antt =====
-- bmap finds the block of a place in a file, or gives it one.
use os_project.Prelude.{
  ℕ, ◌+◌, ◌-◌, ◌<◌, ◌≤◌, true, not, ◌==◌, ltb, none, some, if◌then◌else◌, if_true, if_false,
  Bool-cases, ◌≡◌, ◌≢◌, ◌⊎◌, refl, sym, ap, ◌∙◌, inl, inr, arith,
}
use mathlib.Core.Path.{subst}
use os_project.Blocks.{Superblock, Blocks, balloc}
use os_project.Blocks.Bitmap.{in_use}
use os_project.Blocks.Disk.{GivenOut, balloc_lem}
use os_project.Inodes.{
  Inode, Found, ndirect, nindirect, max_file, uint_at, put_uint, set_addr, own_block, indirect,
  bmap,
}
use os_project.Inodes.Layout.{block_no, Layout, Data}
use os_project.Inodes.Numbers.{
  put_uint_far, no_direct, no_indirect, numbers_direct, numbers_table, numbers_indirect,
}
use os_project.Inodes.Growth.{Grown, Grown-refl, Grown-trans, given-Grown}

-- A block or none left: what a call of balloc for number `i` of a file ends in.
abbrev pub Blocked : Superblock → Inode → Blocks → ℕ → Found → Type 0
Blocked sb ip d i f =
    Grown sb 0 0 ip d f.1 f.2
    × ((f.0 ≢ 0) × (block_no f.1 f.2 i ≡ f.0)
        ⊎ (f.0 ≡ 0) × (block_no f.1 f.2 i ≡ 0) × ((y : ℕ) → y < sb.size → in_use sb f.2 y ≡ true))

own_block-has :
    (sb : Superblock) (ip : Inode) (d : Blocks) (i : ℕ)
    → ip.addrs i ≢ 0
    → own_block sb ip d i ≡ (ip.addrs i, ip, d)
unfolding own_block
own_block-has sb ip d i nz = ground arith

own_block-full :
    (sb : Superblock) (ip : Inode) (d : Blocks) (i : ℕ)
    → ip.addrs i ≡ 0
    → balloc sb d ≡ (0, d)
    → own_block sb ip d i ≡ (0, ip, d)
unfolding own_block
own_block-full sb ip d i z e = ground arith

own_block-new :
    (sb : Superblock) (ip : Inode) (d : Blocks) (i a : ℕ) (e : Blocks)
    → ip.addrs i ≡ 0
    → 0 < a
    → balloc sb d ≡ (a, e)
    → own_block sb ip d i ≡ (a, set_addr ip i a, e)
unfolding own_block
own_block-new sb ip d i a e z pos h = ground arith

-- The indirect block is in use, and not in the bitmap.
table-Data :
    (sb : Superblock) (ip : Inode) (d : Blocks)
    → Layout sb ip d
    → ip.addrs ndirect ≢ 0
    → Data sb ip d (ip.addrs ndirect)
table-Data sb ip d lay nz = lay.used max_file (omega arith) nz

-- balloc changes nothing of a block in use but the bitmap.
old_block :
    (sb : Superblock) (ip : Inode) (d e : Blocks) (a t k : ℕ)
    → GivenOut sb d a e
    → Data sb ip d t
    → e t k ≡ d t k
old_block sb ip d e a t k out data_block =
    out.others t k (λ h. absurd (ground (arith, out.free_before, data_block.0, ap (in_use sb d) h)))
      (data_block.2 a out.in_disk)

own_block-direct :
    (sb : Superblock) (ip : Inode) (d : Blocks) (i : ℕ)
    → Layout sb ip d
    → i < ndirect
    → Blocked sb ip d i (own_block sb ip d i)
own_block-direct sb ip d i lay lt = elim (Bool-cases (ip.addrs i == 0)) [
  | inr e ↦
      let nz : ip.addrs i ≢ 0 = λ h. ground arith in
      subst (Blocked sb ip d i) (sym (own_block-has sb ip d i nz))
        (Grown-refl lay, inl (nz, no_direct ip d i lt))
  | inl e ↦
      let z : ip.addrs i ≡ 0 = ground arith in
      elim (balloc_lem sb d lay.marks lay.bitmap_inside) [
        | inl (full, busy) ↦
            subst (Blocked sb ip d i) (sym (own_block-full sb ip d i z full))
              (Grown-refl lay, inr (refl, no_direct ip d i lt ∙ z, busy))
        | inr (a, e, got, out) ↦
            let numbers =
              numbers_direct ip d e i a lt λ nz k.
                old_block sb ip d e a (ip.addrs ndirect) k out (table-Data sb ip d lay nz) in
            subst (Blocked sb ip d i) (sym (own_block-new sb ip d i a e z out.positive got)) (
              given-Grown sb ip (set_addr ip i a) d e e a i lay out (no_direct ip d i lt ∙ z) refl
                  refl numbers (λ c k off. refl),
              inl (
                λ h. omega (arith, out.positive),
                numbers i (omega arith) ∙ if_true (i == i) a _ (ground arith),
              ),
            )
      ]
]

own_block-table :
    (sb : Superblock) (ip : Inode) (d : Blocks)
    → Layout sb ip d
    → Blocked sb ip d max_file (own_block sb ip d ndirect)
own_block-table sb ip d lay = elim (Bool-cases (ip.addrs ndirect == 0)) [
  | inr e ↦
      let nz : ip.addrs ndirect ≢ 0 = λ h. ground arith in
      subst (Blocked sb ip d max_file) (sym (own_block-has sb ip d ndirect nz))
        (Grown-refl lay, inl (nz, refl))
  | inl e ↦
      let z : ip.addrs ndirect ≡ 0 = ground arith in
      elim (balloc_lem sb d lay.marks lay.bitmap_inside) [
        | inl (full, busy) ↦
            subst (Blocked sb ip d max_file) (sym (own_block-full sb ip d ndirect z full))
              (Grown-refl lay, inr (refl, z, busy))
        | inr (a, e, got, out) ↦
            let numbers = numbers_table ip d e a z out.positive out.zeros in
            subst (Blocked sb ip d max_file)
              (sym (own_block-new sb ip d ndirect a e z out.positive got))
              (
                given-Grown sb ip (set_addr ip ndirect a) d e e a max_file lay out z refl refl
                    numbers (λ c k off. refl),
                inl (λ h. omega (arith, out.positive), numbers max_file (omega arith)),
              )
      ]
]

indirect-has :
    (sb : Superblock) (ip : Inode) (d : Blocks) (b n : ℕ)
    → uint_at d b n ≢ 0
    → indirect sb ip d b n ≡ (uint_at d b n, ip, d)
unfolding indirect
indirect-has sb ip d b n nz = if_true (not (uint_at d b n == 0)) _ _ (ground arith)

-- The rest of that function.
abbrev after_balloc : Inode → ℕ → ℕ → ℕ × Blocks → Found
after_balloc ip b n r = if r.0 == 0 then (0, ip, r.1) else (r.0, ip, put_uint r.1 b n r.0)

indirect-none :
    (sb : Superblock) (ip : Inode) (d : Blocks) (b n : ℕ)
    → uint_at d b n ≡ 0
    → indirect sb ip d b n ≡ after_balloc ip b n (balloc sb d)
unfolding indirect
indirect-none sb ip d b n z = if_false (not (uint_at d b n == 0)) _ _ (ground arith)

indirect-Blocked :
    (sb : Superblock) (ip : Inode) (d : Blocks) (n : ℕ)
    → Layout sb ip d
    → ip.addrs ndirect ≢ 0
    → n < nindirect
    → Blocked sb ip d (n + ndirect) (indirect sb ip d (ip.addrs ndirect) n)
indirect-Blocked sb ip d n lay nz lt =
    let t = ip.addrs ndirect in
    let number : block_no ip d (n + ndirect) ≡ uint_at d t n =
      no_indirect ip d (n + ndirect) (omega arith) (omega arith)
      ∙ if_false (t == 0) 0 _ (ground arith)
      ∙ ap (uint_at d t) (omega arith) in
    elim (Bool-cases (uint_at d t n == 0)) [
      | inr e ↦
          let has : uint_at d t n ≢ 0 = λ h. ground arith in
          subst (Blocked sb ip d (n + ndirect)) (sym (indirect-has sb ip d t n has))
            (Grown-refl lay, inl (has, number))
      | inl e ↦
          let z : uint_at d t n ≡ 0 = ground arith in
          elim (balloc_lem sb d lay.marks lay.bitmap_inside) [
            | inl (full, busy) ↦
                subst (Blocked sb ip d (n + ndirect))
                  (sym (indirect-none sb ip d t n z ∙ ap (after_balloc ip t n) full))
                  (Grown-refl lay, inr (refl, number ∙ z, busy))
            | inr (a, e, got, out) ↦
                let numbers =
                  numbers_indirect ip d e n a nz lt (omega (arith, lay.small, out.in_disk))
                    λ k. old_block sb ip d e a t k out (table-Data sb ip d lay nz) in
                subst (Blocked sb ip d (n + ndirect))
                  (sym (
                    indirect-none sb ip d t n z
                    ∙ ap (after_balloc ip t n) got
                    ∙ if_false (a == 0) _ _ (ground (arith, out.positive))))
                  (
                    given-Grown sb ip ip d e (put_uint e t n a) a (n + ndirect) lay out (number ∙ z)
                        refl refl numbers (λ c k off. put_uint_far e t n a c k (off nz)),
                    inl (
                      λ h. omega (arith, out.positive),
                      numbers (n + ndirect) (omega arith)
                          ∙ if_true (n + ndirect == n + ndirect) a _ (ground arith),
                    ),
                  )
          ]
    ]

bmap-direct :
    (sb : Superblock) (ip : Inode) (d : Blocks) (bn : ℕ)
    → bn < ndirect
    → bmap sb ip d bn ≡ some (own_block sb ip d bn)
unfolding bmap
bmap-direct sb ip d bn lt = if_true (ltb bn ndirect) _ _ (ground arith)

-- The second half of bmap.
abbrev through : Superblock → ℕ → Found → Found
through sb n f = if f.0 == 0 then f else indirect sb f.1 f.2 f.0 n

bmap-indirect :
    (sb : Superblock) (ip : Inode) (d : Blocks) (bn : ℕ)
    → ndirect ≤ bn
    → bn < max_file
    → bmap sb ip d bn ≡ some (through sb (bn - ndirect) (own_block sb ip d ndirect))
unfolding bmap
bmap-indirect sb ip d bn le lt =
    if_false (ltb bn ndirect) _ _ (ground arith)
    ∙ if_true (ltb (bn - ndirect) nindirect) _ none (ground arith)

through-Blocked :
    (sb : Superblock) (ip : Inode) (d : Blocks) (n : ℕ) (f : Found)
    → n < nindirect
    → Blocked sb ip d max_file f
    → Blocked sb ip d (n + ndirect) (through sb n f)
through-Blocked sb ip d n f lt (grown, ends) = elim ends [
  | inl (nz, number) ↦
      let has : f.1.addrs ndirect ≢ 0 = λ z. nz (sym number ∙ z) in
      let (more, found) = indirect-Blocked sb f.1 f.2 n grown.layout has lt in
      subst (Blocked sb ip d (n + ndirect))
        (ap (λ t. indirect sb f.1 f.2 t n) number ∙ sym (if_false (f.0 == 0) f _ (ground arith)))
        (Grown-trans grown more, found)
  | inr (z, number, busy) ↦
      subst (Blocked sb ip d (n + ndirect)) (sym (if_true (f.0 == 0) f _ (ground arith))) (
        grown,
        inr (
          z,
          no_indirect f.1 f.2 (n + ndirect) (omega arith) (omega arith)
              ∙ if_true (f.1.addrs ndirect == 0) 0 _ (ground (arith, number)),
          busy,
        ),
      )
]

-- In a well-formed file bmap keeps every byte of the file, its other blocks and all other blocks in
-- use, and returns the block at the place, which the file has then; or it returns 0, and then the
-- file has none there and every block of the disk is in use.
pub bmap_lem :
    (sb : Superblock) (ip : Inode) (d : Blocks) (bn : ℕ)
    → Layout sb ip d
    → bn < max_file
    → (f : Found) × (bmap sb ip d bn ≡ some f) × Blocked sb ip d bn f
bmap_lem sb ip d bn lay lt = elim (Bool-cases (ltb bn ndirect)) [
  | inl e ↦
      let l : bn < ndirect = ground arith in
      (own_block sb ip d bn, bmap-direct sb ip d bn l, own_block-direct sb ip d bn lay l)
  | inr e ↦
      let l : ndirect ≤ bn = ground arith in
      let back : bn - ndirect + ndirect ≡ bn = omega arith in
      (
        through sb (bn - ndirect) (own_block sb ip d ndirect),
        bmap-indirect sb ip d bn l lt,
        subst (λ (i : ℕ). Blocked sb ip d i (through sb (bn - ndirect) (own_block sb ip d ndirect)))
            back
            (through-Blocked sb ip d (bn - ndirect) (own_block sb ip d ndirect) (omega arith)
              (own_block-table sb ip d lay)),
      )
]
