-- ===== src/Inodes/Emptying.antt =====
-- The three steps of itrunc free all blocks of a file.
use os_project.Prelude.{
  ℕ, ◌+◌, ◌-◌, ◌<◌, ◌≤◌, true, false, ◌==◌, if_true, if_false, ◌≡◌, ◌≢◌, sym, ap, ◌∙◌, inl, inr,
  arith,
}
use mathlib.Core.Path.{subst}
use os_project.Blocks.{Superblock, Blocks, bblock}
use os_project.Blocks.Bitmap.{in_use}
use os_project.Inodes.{Inode, ndirect, nindirect, max_file, uint_at}
use os_project.Inodes.Layout.{block_no, Layout}
use os_project.Inodes.Growth.{Outside}
use os_project.Inodes.Numbers.{no_direct, no_indirect, places, uint_same}
use os_project.Inodes.Freeing.{Busy, Freed, Dropped, Dropped-falls, Dropped-kept, Dropped-gone}

-- The blocks of the file have become free, and no other one; no block outside the bitmap has changed.
pub record FreedAll (sb : Superblock) (ip : Inode) (d e : Blocks) : Type 0 where
  pub gone : (j : ℕ) → j ≤ max_file → block_no ip d j ≢ 0 → in_use sb e (block_no ip d j) ≡ false
  pub kept : (y : ℕ) → Outside ip d y → in_use sb e y ≡ in_use sb d y
  pub others : (c k : ℕ) → ((y : ℕ) → y < sb.size → c ≢ bblock y sb) → e c k ≡ d c k

module _ (sb : Superblock) (ip : Inode) (d : Blocks) (lay : Layout sb ip d) where
  abbrev t : ℕ
  t = ip.addrs ndirect

  pub direct-Busy : Busy sb ip.addrs 0 (0 + ndirect) d
  direct-Busy = record {
    taken = λ i le lt nz.
        let e = no_direct ip d i (omega arith) in
        ap (in_use sb d) (sym e) ∙ (lay.used i (omega arith) (λ z. nz (sym e ∙ z))).0;
    distinct = λ i j le lt le' lt' nz same.
        let e = no_direct ip d i (omega arith) in
        lay.distinct i j (omega arith) (omega arith) (λ z. nz (sym e ∙ z))
          (e ∙ same ∙ sym (no_direct ip d j (omega arith)));
  }

  off_direct :
      (d1 : Blocks) (c k : ℕ)
      → Freed sb ip.addrs 0 (0 + ndirect) d d1
      → ((y : ℕ) → y < sb.size → c ≢ bblock y sb)
      → d1 c k ≡ d c k
  off_direct d1 c k freed off = freed.others c k (λ i le lt nz.
      let e = no_direct ip d i (omega arith) in
      off (ip.addrs i)
        (subst (λ (b : ℕ). b < sb.size) e (lay.used i (omega arith) (λ z. nz (sym e ∙ z))).1))

  -- Without an indirect block.
  pub short_file :
      (d1 : Blocks) → t ≡ 0 → Freed sb ip.addrs 0 (0 + ndirect) d d1 → FreedAll sb ip d d1
  short_file d1 z freed = record {
    gone = λ j le nz. elim (places j le) [
      | inl lt ↦
          let e = no_direct ip d j lt in
          ap (in_use sb d1) e ∙ freed.gone j (omega arith) (omega arith) (λ h. nz (e ∙ h))
      | inr (inl (from, lt)) ↦
          absurd (nz (no_indirect ip d j from lt ∙ if_true (t == 0) 0 _ (ground arith)))
      | inr (inr e) ↦ absurd (nz (ap (block_no ip d) e ∙ z))
    ];
    kept = λ y out. freed.kept y (λ i le lt nz s.
        let e = no_direct ip d i (omega arith) in
        out i (omega arith) (λ h. nz (sym e ∙ h)) (s ∙ sym e));
    others = λ c k off. off_direct d1 c k freed off;
  }

  -- With one: it is as in `d` when it is read.
  module _ (d1 : Blocks) (nz : t ≢ 0) (freed : Freed sb ip.addrs 0 (0 + ndirect) d d1) where
    entry : (i : ℕ) → i < nindirect → uint_at d1 t i ≡ block_no ip d (i + ndirect)
    entry i lt =
        let at : i ≡ i + ndirect - ndirect = omega arith in
        uint_same d d1 t i (λ k. off_direct d1 t k freed (lay.used max_file (omega arith) nz).2)
        ∙ ap (uint_at d t) at
        ∙ sym (
            no_indirect ip d (i + ndirect) (omega arith) (omega arith)
            ∙ if_false (t == 0) 0 _ (ground arith))

    -- The blocks of the file that are no direct ones are still in use.
    pub still :
        (j : ℕ)
        → ndirect ≤ j
        → j ≤ max_file
        → block_no ip d j ≢ 0
        → in_use sb d1 (block_no ip d j) ≡ true
    still j from le here =
        freed.kept (block_no ip d j) (λ i le' lt nz' s.
          let e = no_direct ip d i (omega arith) in
          omega (arith, from, lt, lay.distinct j i le (omega arith) here (s ∙ sym e)))
        ∙ (lay.used j le here).0

    pub table-Busy : Busy sb (uint_at d1 t) 0 (0 + nindirect) d1
    table-Busy = record {
      taken = λ i le lt here.
          let e = entry i (omega arith) in
          ap (in_use sb d1) e ∙ still (i + ndirect) (omega arith) (omega arith) (λ z. here (e ∙ z));
      distinct = λ i j le lt le' lt' here same.
          let e = entry i (omega arith) in
          let s : i + ndirect ≡ j + ndirect =
            lay.distinct (i + ndirect) (j + ndirect) (omega arith) (omega arith) (λ z. here (e ∙ z))
              (sym e ∙ same ∙ entry j (omega arith)) in
          omega arith;
    }

    pub table_off : (i : ℕ) → i < nindirect → uint_at d1 t i ≢ 0 → t ≢ bblock (uint_at d1 t i) sb
    table_off i lt here =
        let e = entry i lt in
        (lay.used max_file (omega arith) nz).2 (uint_at d1 t i) (
          subst (λ (b : ℕ). b < sb.size) (sym e)
            (lay.used (i + ndirect) (omega arith) (λ z. here (e ∙ z))).1)

    pub table_apart : (i : ℕ) → i < nindirect → t ≢ uint_at d1 t i
    table_apart i lt s =
        omega (
          arith,
          lay.distinct max_file (i + ndirect) (omega arith) (omega arith) nz (s ∙ entry i lt),
        )

    pub long_file :
        (d2 d3 : Blocks)
        → Freed sb (uint_at d1 t) 0 (0 + nindirect) d1 d2
        → Dropped sb t d2 d3
        → FreedAll sb ip d d3
    long_file d2 d3 more last = record {
      gone = λ j le here. elim (places j le) [
        | inl lt ↦
            let e = no_direct ip d j lt in
            ap (in_use sb d3) e
            ∙ Dropped-falls last (ip.addrs j) (
                more.falls (ip.addrs j)
                  (freed.gone j (omega arith) (omega arith) (λ z. here (e ∙ z))))
        | inr (inl (from, lt)) ↦
            let back : j - ndirect + ndirect ≡ j = omega arith in
            let e : uint_at d1 t (j - ndirect) ≡ block_no ip d j =
              entry (j - ndirect) (omega arith) ∙ ap (block_no ip d) back in
            ap (in_use sb d3) (sym e)
            ∙ Dropped-falls last (uint_at d1 t (j - ndirect))
                (more.gone (j - ndirect) (omega arith) (omega arith) (λ z. here (sym e ∙ z)))
        | inr (inr e) ↦ ap (λ i. in_use sb d3 (block_no ip d i)) e ∙ Dropped-gone last
      ];
      kept = λ y out.
          Dropped-kept last y (out max_file (omega arith) nz)
          ∙ more.kept y (λ i le lt here s.
            let e = entry i (omega arith) in
            out (i + ndirect) (omega arith) (λ z. here (e ∙ z)) (s ∙ e))
          ∙ freed.kept y (λ i le lt here s.
            let e = no_direct ip d i (omega arith) in
            out i (omega arith) (λ z. here (sym e ∙ z)) (s ∙ sym e));
      others = λ c k off.
          last.others c k (off t (lay.used max_file (omega arith) nz).1)
          ∙ more.others c k (λ i le lt here.
            let e = entry i (omega arith) in
            off (uint_at d1 t i) (
              subst (λ (b : ℕ). b < sb.size) (sym e)
                (lay.used (i + ndirect) (omega arith) (λ z. here (e ∙ z))).1))
          ∙ off_direct d1 c k freed off;
    }
