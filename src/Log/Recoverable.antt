-- ===== src/Log/Recoverable.antt =====
-- Disks that a recovery of Xv6/kernel/log.c brings to given contents, also where it is cut off.
use os_project.Prelude.{
  ℕ, suc, ◌+◌, ◌-◌, ◌≤◌, ◌<◌, ◌≡◌, ◌≢◌, ap, ap₂, sym, ◌∙◌, refl, inl, inr, true, false, Bool-cases,
  List, [], ◌∷◌, ◌==◌, length, get_or, arith, ℕ_discrete,
}
use mathlib.Core.Path.{subst}
use os_project.Log.{
  Block, Disk, log_size, Log, Machine, bwrite, install_loop, install_trans, set_header, write_head,
  read_entries, read_header, read_head, recover_from_log,
}
use os_project.Log.Phases.{
  has, IsHome, AllHome, Logged, IsHome-of_has, Logged-frame, Installs, install_loop-Installs,
}

read_entries_lem :
    (xs : List ℕ) (i : ℕ) (block : Block)
    → ((j : ℕ) → j < length xs → block (suc (i + j)) ≡ get_or xs j 0)
    → read_entries (length xs) i block ≡ xs
unfolding read_entries
read_entries_lem [] i block h = refl
read_entries_lem (x ∷ xs) i block h =
    ap₂ ◌∷◌ (ap block (omega arith) ∙ h 0 (omega arith))
      (read_entries_lem xs (i + 1) block λ j lt. ap block (omega arith) ∙ h (suc j) (omega arith))

-- What `write_head` puts into the header block, `read_head` gets out of it.
pub read_header-set_header : (xs : List ℕ) (block : Block) → read_header (set_header xs block) ≡ xs
unfolding read_header set_header
read_header-set_header xs block = read_entries_lem xs 0 _ λ j lt. ground arith

-- The machine is started again: nothing is cached, and `power` writes will reach the disk.
unfoldable pub reboot : ℕ → Disk → Machine
reboot power d = record { disk = d; cache = d; pins = λ x. 0; power = power }

-- The disk after a start of the machine that is cut off after `power` writes.
unfoldable pub recovered : ℕ → Log → Disk → Disk
unfolding reboot recover_from_log
recovered power l d = (recover_from_log l (reboot power d)).1.disk

-- The same after several starts, one after the other.
unfoldable pub recovered_often : List ℕ → Log → Disk → Disk
unfolding recovered
recovered_often [] l d = d
recovered_often (p ∷ ps) l d = recovered_often ps l (recovered p l d)

module _ (start size : ℕ) where
  -- A recovery of this disk gives the home blocks the contents `v`.
  pub record Recoverable (d : Disk) (v : ℕ → Block) (bs : List ℕ) : Type 0 where
    pub header : read_header (d start) ≡ bs
    pub homes : AllHome start size bs
    pub short : length bs ≤ log_size
    pub fits : length bs < size
    pub logged : Logged start size d 0 bs v
    pub rest : (x : ℕ) → IsHome start size x → has x bs ≡ false → d x ≡ v x

module _ (start : ℕ) where
  -- `write_head` of the machine `s`, whose power may be gone.
  pub record WritesHead (lh : List ℕ) (s t : Machine) : Type 0 where
    pub others : (x : ℕ) → x ≢ start → t.disk x ≡ s.disk x
    pub cache_others : (x : ℕ) → x ≢ start → t.cache x ≡ s.cache x
    pub spent : t.power ≡ s.power - 1
    pub cut : (x : ℕ) → s.power ≡ 0 → t.disk x ≡ s.disk x
    pub header : s.power ≢ 0 → read_header (t.disk start) ≡ lh

pub write_head-WritesHead : (l : Log) (s : Machine) → WritesHead l.start l.lh s (write_head l s)
unfolding write_head bwrite
write_head-WritesHead l s = record {
  others = λ x ne. ground arith;
  cache_others = λ x ne. ground arith;
  spent = refl;
  cut = λ x p. ground arith;
  header = λ p.
      let on : (s.power == 0) ≡ false = ground arith in
      let here : (l.start == l.start) ≡ true = ground arith in
      rw (on, here) (read_header-set_header l.lh (s.cache l.start));
}

module _ (start size : ℕ) where
  not_home :
      (bs : List ℕ) (x : ℕ)
      → AllHome start size bs
      → start ≤ x
      → x < start + size
      → has x bs ≡ false
  not_home bs x h lo hi = elim (Bool-cases (has x bs)) [
    | inl i ↦ absurd (ground (arith, IsHome-of_has start size bs x h i))
    | inr o ↦ o
  ]

  -- The disk is as recoverable after a loss of power at the end of an installation.
  still_Recoverable :
      {v : ℕ → Block} {bs : List ℕ} {s t u : Machine}
      → Recoverable start size s.disk v bs
      → Installs start size bs v s t
      → WritesHead start [] t u
      → t.power ≡ 0
      → Recoverable start size u.disk v bs
  still_Recoverable {v} {bs} {s} {t} {u} r i w off = record {
    header =
        ap read_header (
          w.cut start off
          ∙ i.disk_same start (not_home bs start r.homes (omega arith) (omega (arith, r.fits))))
        ∙ r.header;
    homes = r.homes;
    short = r.short;
    fits = r.fits;
    logged =
        Logged-frame start size bs 0 s.disk u.disk v (omega (arith, r.fits)) r.logged
          λ x lo hi. w.cut x off ∙ i.disk_same x (not_home bs x r.homes (omega arith) hi);
    rest = λ x home out. w.cut x off ∙ i.disk_same x out ∙ r.rest x home out;
  }

  -- With power left, the transaction is installed and its header erased.
  now_clean :
      {v : ℕ → Block} {bs : List ℕ} {s t u : Machine}
      → Recoverable start size s.disk v bs
      → Installs start size bs v s t
      → WritesHead start [] t u
      → t.power ≢ 0
      → Recoverable start size u.disk v []
  now_clean {v} {bs} {s} {t} {u} r i w on = record {
    header = w.header on;
    homes = tt;
    short = omega arith;
    fits = omega (arith, r.fits);
    logged = tt;
    rest = λ x home out. w.others x (ground arith) ∙ elim (Bool-cases (has x bs)) [
      | inl inside ↦ i.installed on x inside
      | inr outside ↦ i.disk_same x outside ∙ r.rest x home outside
    ];
  }

  -- Either way, and the log is empty where power was left.
  pub settle :
      {v : ℕ → Block} {bs : List ℕ} {s t u : Machine}
      → Recoverable start size s.disk v bs
      → Installs start size bs v s t
      → WritesHead start [] t u
      → (cs : List ℕ) × Recoverable start size u.disk v cs × (t.power ≢ 0 → cs ≡ [])
  settle {bs} {t} r i w = elim (ℕ_discrete t.power 0) [
    | yes off ↦ (bs, still_Recoverable r i w off, λ on. absurd (on off))
    | no on ↦ ([], now_clean r i w on, λ p. refl)
  ]

-- A start of the machine, cut off or not, leaves the disk recoverable to the same contents; with
-- power for the log's blocks and its header it leaves the log empty.
pub recovered-Recoverable :
    (power : ℕ) (l : Log) (d : Disk) (v : ℕ → Block) (bs : List ℕ)
    → Recoverable l.start l.size d v bs
    → (cs : List ℕ) × Recoverable l.start l.size (recovered power l d) v cs
      × (log_size < power → cs ≡ [])
unfolding recovered reboot recover_from_log read_head install_trans
recovered-Recoverable power l d v bs r =
    let bs' = read_header (d l.start) in
    let r' = subst (λ c. Recoverable l.start l.size d v c) (sym r.header) r in
    let s = reboot power d in
    let i =
      install_loop-Installs l.start l.size true bs' 0 v s r'.homes (omega (arith, r'.fits))
        r'.logged in
    let w = write_head-WritesHead (record l { lh = [] }) (install_loop true l.start 0 bs' s) in
    let (cs, r'', empty) = settle l.start l.size r' i w in
    (cs, r'', λ enough. empty (omega (arith, i.spent, r'.short)))

pub recovered_often-Recoverable :
    (ps : List ℕ) (l : Log) (d : Disk) (v : ℕ → Block) (bs : List ℕ)
    → Recoverable l.start l.size d v bs
    → (cs : List ℕ) × Recoverable l.start l.size (recovered_often ps l d) v cs
unfolding recovered_often
recovered_often-Recoverable [] l d v bs r = (bs, r)
recovered_often-Recoverable (p ∷ ps) l d v bs r =
    let (cs, r', _) = recovered-Recoverable p l d v bs r in
    recovered_often-Recoverable ps l (recovered p l d) v cs r'

-- Any recoveries that are cut off, and one that is not, bring out the contents.
pub recovered-eq :
    (l : Log) (d : Disk) (v : ℕ → Block) (bs ps : List ℕ) (power : ℕ)
    → Recoverable l.start l.size d v bs
    → log_size < power
    → let e = recovered power l (recovered_often ps l d) in
      (read_header (e l.start) ≡ []) × ((x : ℕ) → IsHome l.start l.size x → e x ≡ v x)
recovered-eq l d v bs ps power r enough =
    let (cs, r') = recovered_often-Recoverable ps l d v bs r in
    let (es, r'', empty) = recovered-Recoverable power l (recovered_often ps l d) v cs r' in
    let e = empty enough in (r''.header ∙ e, λ x home. r''.rest x home (ap (has x) e))
