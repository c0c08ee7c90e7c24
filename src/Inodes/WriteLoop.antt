-- ===== src/Inodes/WriteLoop.antt =====
-- The loop of writei puts the bytes of its source into the file and changes no other byte.
use os_project.Prelude.{
  ℕ, zero, suc, ◌+◌, ◌*◌, ◌-◌, ◌/◌, ◌%◌, ◌<◌, ◌≤◌, true, false, ◌&&◌, ◌==◌, leb, ltb, min, Option,
  none, some, if_true, Bool-cases, Option-cases, ◌≡◌, ◌≢◌, ◌⊎◌, refl, sym, ap, ◌∙◌, inl, inr, arith,
}
use mathlib.Core.Path.{subst}
use os_project.Blocks.{bsize, Superblock, Blocks}
use os_project.Blocks.Bitmap.{in_use}
use os_project.Inodes.{Inode, Found, max_file, bmap}
use os_project.Inodes.Content.{put_bytes, round_bytes, Written, write_loop}
use os_project.Inodes.Layout.{block_no, Layout}
use os_project.Inodes.Growth.{byte, Grown, Grown-refl, Grown-trans, Grown-widen, Grown-stretch}
use os_project.Inodes.Writing.{put_byte_lem, put-Grown, same_block_no}
use os_project.Inodes.Mapping.{bmap_lem}

pub round_lem :
    (off left : ℕ)
    → 0 < left
    → (0 < round_bytes off left)
      × (round_bytes off left ≤ left)
      × (off % bsize + round_bytes off left ≤ bsize)
round_lem off left h = ground arith

same_place : (off left i : ℕ) → i < round_bytes off left → (off + i) / bsize ≡ off / bsize
same_place off left i lt = ground arith

module _ (src : ℕ → ℕ) (fault : ℕ → Option ℕ) (sb : Superblock) where
  -- The bytes from `tot` to the total are in the file, and no byte outside the range has changed. If
  -- bytes are left, the disk is full or a copy has failed.
  pub record Wrote (ip : Inode) (d : Blocks) (off tot left : ℕ) (w : Written) : Type 0 where
    pub grown : Grown sb off (off + left) ip d w.inode w.disk
    pub at_least : tot ≤ w.total
    pub at_most : w.total ≤ tot + left
    pub bytes : (i : ℕ) → tot + i < w.total → byte w.inode w.disk (off + i) ≡ src (tot + i)
    pub mapped : (i : ℕ) → tot + i < w.total → block_no w.inode w.disk ((off + i) / bsize) ≢ 0
    pub ends :
        (w.total ≡ tot + left)
        ⊎ ((y : ℕ) → y < sb.size → in_use sb w.disk y ≡ true)
        ⊎ (fault w.total ≢ none)

  -- The four ways of a round.
  loop_end :
      (f : ℕ) (ip : Inode) (d : Blocks) (off tot : ℕ)
      → write_loop f src fault sb ip d off tot 0
        ≡ some (record { total = tot; inode = ip; disk = d })
  unfolding write_loop
  loop_end zero ip d off tot = refl
  loop_end (suc f) ip d off tot = refl

  module _ (f : ℕ) (ip : Inode) (d : Blocks) (off tot left : ℕ) (b : Found)
      (more : (left == 0) ≡ false) (found : bmap sb ip d (off / bsize) ≡ some b) where
    loop_full :
        (b.0 == 0) ≡ true
        → write_loop (suc f) src fault sb ip d off tot left
          ≡ some (record { total = tot; inode = b.1; disk = b.2 })
    unfolding write_loop
    loop_full e = ground arith

    loop_fault :
        (j : ℕ)
        → (b.0 == 0) ≡ false
        → fault tot ≡ some j
        → write_loop (suc f) src fault sb ip d off tot left
          ≡ some (record {
            total = tot;
            inode = b.1;
            disk = put_bytes src tot (min j (round_bytes off left)) b.2 b.0 (off % bsize);
          })
    unfolding write_loop
    loop_fault j e h = ground arith

    loop_next :
        (b.0 == 0) ≡ false
        → fault tot ≡ none
        → write_loop (suc f) src fault sb ip d off tot left
          ≡ write_loop f src fault sb b.1
              (put_bytes src tot (round_bytes off left) b.2 b.0 (off % bsize))
              (off + round_bytes off left)
              (tot + round_bytes off left)
              (left - round_bytes off left)
    unfolding write_loop
    loop_next e h = ground arith

  Wrote-next :
      (ip ip1 : Inode) (d d1 : Blocks) (off tot left m : ℕ) (w : Written)
      → off + left ≤ max_file * bsize
      → 0 < m
      → m ≤ left
      → Grown sb off (off + left) ip d ip1 d1
      → ((i : ℕ) → i < m → byte ip1 d1 (off + i) ≡ src (tot + i))
      → ((i : ℕ) → i < m → block_no ip1 d1 ((off + i) / bsize) ≢ 0)
      → Wrote ip1 d1 (off + m) (tot + m) (left - m) w
      → Wrote ip d off tot left w
  Wrote-next ip ip1 d d1 off tot left m w room some_bytes le first stored there rest = record {
    grown = Grown-trans first (Grown-stretch (omega arith) (omega arith) rest.grown);
    at_least = omega (arith, rest.at_least);
    at_most = omega (arith, rest.at_most);
    bytes = λ i lt. elim (Bool-cases (ltb i m)) [
      | inl e ↦
          rest.grown.bytes (off + i) (before i (ground arith)) (inl (ground arith))
          ∙ stored i (ground arith)
      | inr e ↦
          let at : off + i ≡ off + m + (i - m) = ground arith in
          let from : tot + m + (i - m) ≡ tot + i = ground arith in
          ap (byte w.inode w.disk) at ∙ rest.bytes (i - m) (omega arith) ∙ ap src from
    ];
    mapped = λ i lt. elim (Bool-cases (ltb i m)) [
      | inl e ↦ λ z.
          let l : i < m = ground arith in
          there i l (
            sym (rest.grown.numbers ((off + i) / bsize) (omega (arith, before i l)) (there i l))
            ∙ z)
      | inr e ↦ λ z.
          let at : off + m + (i - m) ≡ off + i = ground arith in
          let from : tot + m + (i - m) ≡ tot + i = ground arith in
          rest.mapped (i - m) (omega arith) (ap (λ o. block_no w.inode w.disk (o / bsize)) at ∙ z)
    ];
    ends = elim rest.ends [ inl e ↦ inl (omega arith) | inr o ↦ inr o ];
  }
    where
      before : (i : ℕ) → i < m → off + i < max_file * bsize
      before i l = omega arith

  -- As many rounds as bytes are enough.
  pub write_loop-Wrote :
      (f : ℕ) (ip : Inode) (d : Blocks) (off tot left : ℕ)
      → Layout sb ip d
      → off + left ≤ max_file * bsize
      → left ≤ f
      → (w : Written) × (write_loop f src fault sb ip d off tot left ≡ some w)
        × Wrote ip d off tot left w
  write_loop-Wrote f ip d off tot zero lay room fuel = (
    _,
    loop_end f ip d off tot,
    record {
      grown = Grown-refl lay;
      at_least = omega arith;
      at_most = omega arith;
      bytes = λ i lt. absurd (omega arith);
      mapped = λ i lt. absurd (omega arith);
      ends = inl (omega arith);
    },
  )
  write_loop-Wrote zero ip d off tot (suc left) lay room fuel = absurd (omega arith)
  write_loop-Wrote (suc f) ip d off tot (suc left) lay room fuel =
      let (b, found, (grown, ends)) = bmap_lem sb ip d (off / bsize) lay (omega arith) in
      elim ends [
        | inr (z, missing, busy) ↦ (
          _,
          loop_full f ip d off tot (suc left) b (ground arith) found (ground arith),
          record {
            grown = Grown-widen grown;
            at_least = omega arith;
            at_most = omega arith;
            bytes = λ i lt. absurd (omega arith);
            mapped = λ i lt. absurd (omega arith);
            ends = inr (inl busy);
          },
        )
        | inl (nz, number) ↦
            let here : block_no b.1 b.2 (off / bsize) ≢ 0 = λ z. nz (sym number ∙ z) in
            let m = round_bytes off (suc left) in
            let (some_bytes, le, inside) = round_lem off (suc left) (omega arith) in
            elim (Option-cases (fault tot)) [
              | inr (j, e) ↦ (
                _,
                loop_fault f ip d off tot (suc left) b (ground arith) found j (ground arith) e,
                record {
                  grown = Grown-trans (Grown-widen grown) (
                      subst
                        (λ (c : ℕ).
                          Grown sb off (off + suc left) b.1 b.2 b.1
                            (put_bytes src tot (min j m) b.2 c (off % bsize)))
                        number
                        (put-Grown sb b.1 b.2 src tot (min j m) off grown.layout (omega arith) here
                          (omega arith) (omega arith) (omega arith)));
                  at_least = omega arith;
                  at_most = omega arith;
                  bytes = λ i lt. absurd (omega arith);
                  mapped = λ i lt. absurd (omega arith);
                  ends = inr (inr (λ z. absurd (ground (arith, sym e ∙ z))));
                },
              )
              | inl e ↦
                  let c = block_no b.1 b.2 (off / bsize) in
                  let d1 = put_bytes src tot m b.2 c (off % bsize) in
                  let put : Grown sb off (off + suc left) b.1 b.2 b.1 d1 =
                    put-Grown sb b.1 b.2 src tot m off grown.layout (omega arith) here inside
                      (omega arith) (omega arith) in
                  let (w, ran, rest) =
                    write_loop-Wrote f b.1 d1 (off + m) (tot + m) (suc left - m) put.layout
                      (omega arith) (omega arith) in
                  (
                    w,
                    loop_next f ip d off tot (suc left) b (ground arith) found (ground arith) e
                        ∙ ap
                            (λ c.
                              write_loop f src fault sb b.1
                                (put_bytes src tot m b.2 c (off % bsize)) (off + m) (tot + m)
                                (suc left - m))
                            (sym number)
                        ∙ ran,
                    Wrote-next ip b.1 d d1 off tot (suc left) m w room some_bytes le
                        (Grown-trans (Grown-widen grown) put)
                        (λ i lt.
                          put_byte_lem sb b.1 b.2 src tot m off grown.layout (omega arith) here
                            inside (off + i) (omega arith)
                          ∙ if_true (leb off (off + i) && ltb (off + i) (off + m)) _ _
                              (ground arith)
                          ∙ ap src (omega arith))
                        (λ i lt z. here (
                          sym (
                            same_block_no sb b.1 b.2 src tot m off grown.layout (omega arith) here
                              inside (off / bsize))
                          ∙ ap (block_no b.1 d1) (sym (same_place off (suc left) i lt))
                          ∙ z))
                        rest,
                  )
            ]
      ]
