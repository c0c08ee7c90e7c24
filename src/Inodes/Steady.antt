-- ===== src/Inodes/Steady.antt =====
-- Writes that leave the bitmap and the indirect block as they are keep a file's blocks.
use os_project.Prelude.{
  ℕ, ◌-◌, ◌%◌, ◌/◌, ◌<◌, ◌==◌, ltb, if◌then◌else◌, ◌≡◌, ◌≢◌, sym, ap, ◌∙◌, arith,
}
use mathlib.Core.Path.{subst}
use os_project.Blocks.{bpb, Superblock, Blocks, bblock, test_bit}
use os_project.Blocks.Bitmap.{in_use}
use os_project.Inodes.{Inode, ndirect, max_file, iblock}
use os_project.Inodes.Layout.{block_no, Layout, Data}
use os_project.Inodes.Numbers.{table_same}

module _ (sb : Superblock) (ip : Inode) (d e : Blocks) (lay : Layout sb ip d)
    (table : ip.addrs ndirect ≢ 0 → (k : ℕ) → e (ip.addrs ndirect) k ≡ d (ip.addrs ndirect) k)
    (bitmap : (y k : ℕ) → y < sb.size → e (bblock y sb) k ≡ d (bblock y sb) k) where
  pub same_number : (j : ℕ) → block_no ip e j ≡ block_no ip d j
  same_number j =
      ap (λ x. if j == max_file then ip.addrs ndirect else if ltb j ndirect then ip.addrs j else x)
        (table_same d e (ip.addrs ndirect) (j - ndirect) table)

  pub same_mark : (y : ℕ) → y < sb.size → in_use sb e y ≡ in_use sb d y
  same_mark y lt = ap (λ x. test_bit x (y % bpb % 8)) (bitmap y (y % bpb / 8) lt)

  same_Data : (b : ℕ) → Data sb ip d b → Data sb ip e b
  same_Data b (u, lt, off_bitmap, off_home) = (same_mark b lt ∙ u, lt, off_bitmap, off_home)

  pub same-Layout : Layout sb ip e
  same-Layout = record {
    marks = record {
      boot = same_mark 0 (omega (arith, lay.home_inside)) ∙ lay.marks.boot;
      bitmap = λ b lt. same_mark (bblock b sb) (lay.bitmap_inside b lt) ∙ lay.marks.bitmap b lt;
    };
    bitmap_inside = lay.bitmap_inside;
    small = lay.small;
    home = same_mark (iblock ip.inum sb) lay.home_inside ∙ lay.home;
    home_inside = lay.home_inside;
    home_apart = lay.home_apart;
    used = λ j le nz.
        subst (Data sb ip e) (sym (same_number j))
          (same_Data (block_no ip d j) (lay.used j le (λ z. nz (same_number j ∙ z))));
    distinct = λ i j le le' nz same.
        lay.distinct i j le le' (λ z. nz (same_number i ∙ z))
          (sym (same_number i) ∙ same ∙ same_number j);
  }
