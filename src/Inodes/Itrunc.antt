-- ===== src/Inodes/Itrunc.antt =====
-- itrunc empties a file.
use os_project.Prelude.{
  ℕ, ◌+◌, ◌/◌, ◌%◌, ◌<◌, ◌≤◌, Bool, true, false, ◌==◌, Option, none, some, if_true, if_false,
  Bool-cases, ◌≡◌, ◌≢◌, refl, sym, ap, ◌∙◌, inl, inr, arith,
}
use mathlib.Core.Path.{subst}
use os_project.Blocks.{bpb, Superblock, Blocks, bblock, bfree, test_bit}
use os_project.Blocks.Bitmap.{in_use}
use os_project.Inodes.{
  Inode, set_addr, ndirect, nindirect, max_file, uint_at, iblock, iupdate, free_direct,
  free_indirect, free_rest, itrunc,
}
use os_project.Inodes.Layout.{block_no, Layout}
use os_project.Inodes.Growth.{Outside}
use os_project.Inodes.Numbers.{no_direct, no_indirect, places}
use os_project.Inodes.Writei.{resize, iupdate_away}
use os_project.Inodes.Freeing.{Freed, bfree-Dropped}
use os_project.Inodes.FreeLoops.{Cleared, free_indirect-Freed, free_direct-Freed}
use os_project.Inodes.Emptying.{
  FreedAll, direct-Busy, short_file, still, table-Busy, table_off, table_apart, long_file,
}

-- The file has no block left.
pub record Emptied (sb : Superblock) (ip : Inode) (d : Blocks) (ip' : Inode) (d' : Blocks)
    : Type 0 where
  pub layout : Layout sb ip' d'
  pub none_left : (j : ℕ) → j ≤ max_file → block_no ip' d' j ≡ 0
  pub no_size : ip'.size ≡ 0
  pub same_inum : ip'.inum ≡ ip.inum
  pub gone : (j : ℕ) → j ≤ max_file → block_no ip d j ≢ 0 → in_use sb d' (block_no ip d j) ≡ false
  pub kept : (y : ℕ) → y < sb.size → Outside ip d y → in_use sb d' y ≡ in_use sb d y
  pub others :
      (c k : ℕ) → ((y : ℕ) → y < sb.size → c ≢ bblock y sb) → c ≢ iblock ip.inum sb → d' c k ≡ d c k

-- The steps of itrunc.
rest_none :
    (sb : Superblock) (ip : Inode) (d : Blocks)
    → ip.addrs ndirect ≡ 0
    → free_rest sb ip d ≡ some (ip, d)
unfolding free_rest
rest_none sb ip d z = ground arith

zero_test : (n : ℕ) → n ≢ 0 → (n == 0) ≡ false
zero_test n nz = ground arith

-- What free_rest does behind each of its tests.
abbrev clear_table : Inode → Option Blocks → Option (Inode × Blocks)
clear_table ip none = none
clear_table ip (some d') = some (set_addr ip ndirect 0, d')

abbrev free_table : Superblock → Inode → Option Blocks → Option (Inode × Blocks)
free_table sb ip none = none
free_table sb ip (some freed) = clear_table ip (bfree (ip.addrs ndirect) sb freed)

abbrev rest_from : Superblock → Inode → Blocks → Bool → Option (Inode × Blocks)
rest_from sb ip d true = some (ip, d)
rest_from sb ip d false = free_table sb ip (free_indirect nindirect 0 sb (ip.addrs ndirect) d)

rest_some :
    (sb : Superblock) (ip : Inode) (d d2 d3 : Blocks)
    → ip.addrs ndirect ≢ 0
    → free_indirect nindirect 0 sb (ip.addrs ndirect) d ≡ some d2
    → bfree (ip.addrs ndirect) sb d2 ≡ some d3
    → free_rest sb ip d ≡ some (set_addr ip ndirect 0, d3)
unfolding free_rest
rest_some sb ip d d2 d3 nz got last =
    ap (rest_from sb ip d) (zero_test (ip.addrs ndirect) nz)
    ∙ ap (free_table sb ip) got
    ∙ ap (clear_table ip) last

abbrev empty_inode : Superblock → Option (Inode × Blocks) → Option (Inode × Blocks)
empty_inode sb none = none
empty_inode sb (some t) = some (resize t.0 0, iupdate sb (resize t.0 0) t.1)

abbrev behind_direct : Superblock → Option (Inode × Blocks) → Option (Inode × Blocks)
behind_direct sb none = none
behind_direct sb (some r) = empty_inode sb (free_rest sb r.0 r.1)

itrunc_runs :
    (sb : Superblock) (ip ip1 ip2 : Inode) (d d1 d2 : Blocks)
    → free_direct ndirect 0 sb ip d ≡ some (ip1, d1)
    → free_rest sb ip1 d1 ≡ some (ip2, d2)
    → itrunc sb ip d ≡ some (resize ip2 0, iupdate sb (resize ip2 0) d2)
unfolding itrunc
itrunc_runs sb ip ip1 ip2 d d1 d2 one two = ap (behind_direct sb) one ∙ ap (empty_inode sb) two

-- What the three loops make of the file.
record Loops (sb : Superblock) (ip : Inode) (d : Blocks) (ip2 : Inode) (d2 : Blocks) : Type 0 where
  pub all : FreedAll sb ip d d2
  pub zeros : (i : ℕ) → i ≤ ndirect → ip2.addrs i ≡ 0
  pub same_inum : ip2.inum ≡ ip.inum

module _ (sb : Superblock) (ip : Inode) (d : Blocks) (lay : Layout sb ip d) where
  free_rest-Loops :
      (ip1 : Inode) (d1 : Blocks)
      → Cleared 0 (0 + ndirect) ip ip1
      → Freed sb ip.addrs 0 (0 + ndirect) d d1
      → (ip2 : Inode) × (d2 : Blocks) × (free_rest sb ip1 d1 ≡ some (ip2, d2))
        × Loops sb ip d ip2 d2
  free_rest-Loops ip1 d1 cleared freed =
      let same : ip1.addrs ndirect ≡ ip.addrs ndirect = cleared.rest ndirect (inr (omega arith)) in
      elim (Bool-cases (ip.addrs ndirect == 0)) [
        | inl e ↦
            let z : ip.addrs ndirect ≡ 0 = ground arith in
            (
              ip1,
              d1,
              rest_none sb ip1 d1 (same ∙ z),
              record {
                all = short_file sb ip d lay d1 z freed;
                zeros = λ i le. elim (Bool-cases (i == ndirect)) [
                  | inl h ↦ let s : i ≡ ndirect = ground arith in ap ip1.addrs s ∙ same ∙ z
                  | inr h ↦ cleared.zeros i (omega arith) (ground arith)
                ];
                same_inum = cleared.same_inum;
              },
            )
        | inr e ↦
            let nz : ip.addrs ndirect ≢ 0 = λ h. ground arith in
            let (d2, ran, more) =
              free_indirect-Freed sb (uint_at d1 (ip.addrs ndirect)) (ip.addrs ndirect) nindirect 0
                d1 (λ i. refl) (λ i le lt. table_off sb ip d lay d1 nz freed i (omega arith))
                (table-Busy sb ip d lay d1 nz freed) in
            let (d3, last) = bfree-Dropped sb (ip.addrs ndirect) d2 (
              more.kept (ip.addrs ndirect)
                (λ i le lt here. table_apart sb ip d lay d1 nz freed i (omega arith))
              ∙ still sb ip d lay d1 nz freed max_file (omega arith) (omega arith) nz) in
            (
              set_addr ip1 ndirect 0,
              d3,
              rest_some sb ip1 d1 d2 d3 (λ z. nz (sym same ∙ z))
                  (ap (λ t. free_indirect nindirect 0 sb t d1) same ∙ ran)
                  (ap (λ t. bfree t sb d2) same ∙ last.returns),
              record {
                all = long_file sb ip d lay d1 nz freed d2 d3 more last;
                zeros = λ i le. elim (Bool-cases (i == ndirect)) [
                  | inl h ↦ if_true (i == ndirect) 0 (ip1.addrs i) h
                  | inr h ↦
                      if_false (i == ndirect) 0 (ip1.addrs i) h
                      ∙ cleared.zeros i (omega arith) (ground arith)
                ];
                same_inum = cleared.same_inum;
              },
            )
      ]

  -- The write of the inode keeps it that way.
  module _ (ip2 : Inode) (d2 : Blocks) (loops : Loops sb ip d ip2 d2) where
    abbrev left : Inode
    left = resize ip2 0

    abbrev e : Blocks
    e = iupdate sb left d2

    none_left : (j : ℕ) → j ≤ max_file → block_no left e j ≡ 0
    none_left j le = elim (places j le) [
      | inl lt ↦ no_direct left e j lt ∙ loops.zeros j (omega arith)
      | inr (inl (from, lt)) ↦
          no_indirect left e j from lt
          ∙ if_true (left.addrs ndirect == 0) 0 _
              (ground (arith, loops.zeros ndirect (omega arith)))
      | inr (inr h) ↦ ap (block_no left e) h ∙ loops.zeros ndirect (omega arith)
    ]

    away : (c k : ℕ) → c ≢ iblock ip.inum sb → e c k ≡ d2 c k
    away c k ne = iupdate_away sb left d2 c k (λ h. ne (h ∙ ap (λ n. iblock n sb) loops.same_inum))

    marks_kept : (y : ℕ) → y < sb.size → in_use sb e y ≡ in_use sb d2 y
    marks_kept y lt =
        ap (λ x. test_bit x (y % bpb % 8))
          (away (bblock y sb) (y % bpb / 8) (λ h. lay.home_apart y lt (sym h)))

    kept : (y : ℕ) → y < sb.size → Outside ip d y → in_use sb e y ≡ in_use sb d y
    kept y lt out = marks_kept y lt ∙ loops.all.kept y out

    off_file : (b y : ℕ) → y < sb.size → b ≡ bblock y sb → Outside ip d b
    off_file b y lt h j le here s = (lay.used j le here).2 y lt (sym s ∙ h)

    iblock-Outside : Outside ip d (iblock ip.inum sb)
    iblock-Outside j le here s = (lay.used j le here).3 (sym s)

    emptied-Layout : Layout sb left e
    emptied-Layout = record {
      marks = record {
        boot =
            kept 0 (omega (arith, lay.home_inside)) (λ j le here s. here (sym s)) ∙ lay.marks.boot;
        bitmap = λ b lt.
            kept (bblock b sb) (lay.bitmap_inside b lt) (off_file (bblock b sb) b lt refl)
            ∙ lay.marks.bitmap b lt;
      };
      bitmap_inside = lay.bitmap_inside;
      small = lay.small;
      home =
          subst (λ (n : ℕ). in_use sb e (iblock n sb) ≡ true) (sym loops.same_inum)
            (kept (iblock ip.inum sb) lay.home_inside iblock-Outside ∙ lay.home);
      home_inside = subst (λ (n : ℕ). iblock n sb < sb.size) (sym loops.same_inum) lay.home_inside;
      home_apart =
          subst (λ (n : ℕ). (y : ℕ) → y < sb.size → iblock n sb ≢ bblock y sb) (sym loops.same_inum)
            lay.home_apart;
      used = λ j le here. absurd (here (none_left j le));
      distinct = λ i j le le' here s. absurd (here (none_left i le));
    }

    loops-Emptied : Emptied sb ip d left e
    loops-Emptied = record {
      layout = emptied-Layout;
      none_left = none_left;
      no_size = refl;
      same_inum = loops.same_inum;
      gone = λ j le here.
          marks_kept (block_no ip d j) (lay.used j le here).1 ∙ loops.all.gone j le here;
      kept = kept;
      others = λ c k off off_home. away c k off_home ∙ loops.all.others c k off;
    }

  -- In a well-formed file itrunc meets no panic: behind it the file has the size 0 and no block, just
  -- the blocks that it had have become free, and no block but those of the bitmap and that of the
  -- inode has changed.
  pub itrunc_lem :
      (ip' : Inode) × (d' : Blocks) × (itrunc sb ip d ≡ some (ip', d')) × Emptied sb ip d ip' d'
  itrunc_lem =
      let (ip1, d1, ran, cleared, freed) =
        free_direct-Freed sb ip.addrs ndirect 0 ip d (λ k le. refl) (direct-Busy sb ip d lay) in
      let (ip2, d2, rest, loops) = free_rest-Loops ip1 d1 cleared freed in
      (
        resize ip2 0,
        iupdate sb (resize ip2 0) d2,
        itrunc_runs sb ip ip1 ip2 d d1 d2 ran rest,
        loops-Emptied ip2 d2 loops,
      )
