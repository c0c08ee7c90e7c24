-- ===== src/Log/Crash.antt =====
-- A commit of Xv6/kernel/log.c that a loss of power cuts off anywhere, and the recovery after it.
use os_project.Prelude.{
  ℕ, ◌+◌, ◌*◌, ◌≤◌, ◌<◌, ◌≡◌, ◌≢◌, ◌⊎◌, ap, sym, ◌∙◌, refl, inl, inr, false, Bool-cases, List, [],
  ◌∷◌, ltb, length, arith, ℕ_discrete,
}
use os_project.Log.{
  Disk, log_size, Log, Machine, install_loop, install_trans, write_head, read_header,
  write_log_loop, write_log, commit,
}
use os_project.Log.Recoverable.{
  recovered, recovered_often, Recoverable, WritesHead, write_head-WritesHead, settle, recovered-eq,
}
use os_project.Log.Phases.{
  has, IsHome, AllHome, Logged-frame, WritesLog, write_log_loop-WritesLog, install_loop-Installs,
}

-- The state in which `commit` is called: no transaction is on the disk, the blocks to commit are outside
-- the log and fit it, and only they differ from the disk.
pub record Ready (l : Log) (s : Machine) : Type 0 where
  pub clean : read_header (s.disk l.start) ≡ []
  pub homes : AllHome l.start l.size l.lh
  pub short : length l.lh ≤ log_size
  pub fits : length l.lh < l.size
  pub agrees : (x : ℕ) → IsHome l.start l.size x → has x l.lh ≡ false → s.cache x ≡ s.disk x

old-Recoverable : {l : Log} {s : Machine} → Ready l s → Recoverable l.start l.size s.disk s.disk []
old-Recoverable r = record {
  header = r.clean;
  homes = tt;
  short = omega arith;
  fits = omega (arith, r.fits);
  logged = tt;
  rest = λ x home out. refl;
}

-- Behind `write_log` and `write_head`, with the power still on, the new contents are on the disk.
committed-Recoverable :
    {l : Log} {s t u : Machine}
    → Ready l s
    → WritesLog l.start l.size 0 l.lh s t
    → WritesHead l.start l.lh t u
    → t.power ≢ 0
    → Recoverable l.start l.size u.disk s.cache l.lh
committed-Recoverable {l} {s} {t} {u} r wl wh on = record {
  header = wh.header on;
  homes = r.homes;
  short = r.short;
  fits = r.fits;
  logged =
      Logged-frame l.start l.size l.lh 0 t.disk u.disk s.cache (omega (arith, r.fits))
        (wl.logged on) λ x lo hi. wh.others x (omega arith);
  rest = λ x home out.
      wh.others x (ground arith)
      ∙ wl.disk_same x (omega (arith, r.fits))
      ∙ sym (r.agrees x home out);
}

-- A loss of power before the header leaves the old contents.
lost-Recoverable :
    {l : Log} {s t : Machine} (d : Disk)
    → Ready l s
    → WritesLog l.start l.size 0 l.lh s t
    → ((x : ℕ) → d x ≡ t.disk x)
    → Recoverable l.start l.size d s.disk []
lost-Recoverable {l} {s} {t} d r wl same = record {
  header = ap read_header (same l.start ∙ wl.disk_same l.start (omega arith)) ∙ r.clean;
  homes = tt;
  short = omega arith;
  fits = omega (arith, r.fits);
  logged = tt;
  rest = λ x home out. same x ∙ wl.disk_same x (omega (arith, r.fits));
}

-- More than the writes of a commit: each block into the log and to its home, and two headers.
abbrev pub IsEnough : Log → Machine → Type 0
IsEnough l s = 2 * length l.lh + 1 < s.power

-- The disk behind a commit, whenever the power went: recoverable to the old or to the new contents.
commit-Recoverable :
    (l : Log) (s : Machine)
    → Ready l s
    → let d = (commit l s).1.disk in
      Recoverable l.start l.size d s.disk [] × (IsEnough l s → length l.lh ≡ 0)
      ⊎ ((cs : List ℕ) × Recoverable l.start l.size d s.cache cs × (IsEnough l s → cs ≡ []))
unfolding commit write_log install_trans
commit-Recoverable l s r = elim (Bool-cases (ltb 0 (length l.lh))) [
  | inr nothing ↦ inl (rw nothing (old-Recoverable r), λ enough. ground arith)
  | inl some_block ↦
      let wl = write_log_loop-WritesLog l.start l.size l.lh 0 s r.homes (omega (arith, r.fits)) in
      let t = write_log_loop l.start 0 l.lh s in
      let wh = write_head-WritesHead l t in
      let u = write_head l t in
      let cached =
        Logged-frame l.start l.size l.lh 0 t.cache u.cache s.cache (omega (arith, r.fits)) wl.cached
          (λ x lo hi. wh.cache_others x (omega arith)) in
      let i =
        install_loop-Installs l.start l.size false l.lh 0 s.cache u r.homes (omega (arith, r.fits))
          cached in
      let w = write_head-WritesHead (record l { lh = [] }) (install_loop false l.start 0 l.lh u) in
      rw some_block (elim (ℕ_discrete t.power 0) [
        | yes off ↦ inl (
          lost-Recoverable _ r wl λ x.
              w.cut x (omega (arith, i.spent, wh.spent))
              ∙ i.untouched x (omega (arith, wh.spent))
              ∙ wh.cut x off,
          λ enough. absurd (omega (arith, wl.spent)),
        )
        | no on ↦
            let (cs, r', empty) = settle l.start l.size (committed-Recoverable r wl wh on) i w in
            inr (cs, r', λ enough. empty (omega (arith, i.spent, wh.spent, wl.spent)))
      ])
]

-- A transaction is atomic. Let the log be ready to commit: the header on the disk is empty, the blocks
-- of the transaction are outside the blocks of the log and at most LOGSIZE, with room for them behind
-- the header, and no other block outside the log differs between the cache and the disk. Then if the
-- power goes at any write of the commit, and again at any writes of any number of recoveries, the
-- first recovery that has power for more than LOGSIZE writes leaves every block outside the log with
-- its old contents, or every one with its new contents, and an empty log.
pub commit_atomic :
    (l : Log) (s : Machine)
    → Ready l s
    → (ps : List ℕ) (power : ℕ) → log_size < power
    → let d = recovered power l (recovered_often ps l (commit l s).1.disk) in
      (read_header (d l.start) ≡ [])
      × (((x : ℕ) → IsHome l.start l.size x → d x ≡ s.disk x)
          ⊎ ((x : ℕ) → IsHome l.start l.size x → d x ≡ s.cache x))
commit_atomic l s r ps power enough = elim (commit-Recoverable l s r) [
  | inl (old, _) ↦
      let (header, same) = recovered-eq l _ s.disk [] ps power old enough in (header, inl same)
  | inr (cs, new, _) ↦
      let (header, same) = recovered-eq l _ s.cache cs ps power new enough in (header, inr same)
]

nothing : (bs : List ℕ) (x : ℕ) → length bs ≡ 0 → has x bs ≡ false
nothing [] x e = refl
nothing (b ∷ bs) x e = absurd (omega arith)

-- On a log that is ready to commit (the header on the disk empty, the blocks of the transaction
-- outside the blocks of the log and at most LOGSIZE, with room for them behind the header, and no
-- other block outside the log different in the cache and on the disk), a commit with power for all of
-- its writes leaves every block outside the log with its new contents on the disk, and an empty log.
pub commit_durable :
    (l : Log) (s : Machine)
    → Ready l s
    → IsEnough l s
    → let d = (commit l s).1.disk in
      (read_header (d l.start) ≡ []) × ((x : ℕ) → IsHome l.start l.size x → d x ≡ s.cache x)
commit_durable l s r enough = elim (commit-Recoverable l s r) [
  | inl (old, none_logged) ↦ (
    old.header,
    λ x home. old.rest x home refl ∙ sym (r.agrees x home (nothing l.lh x (none_logged enough))),
  )
  | inr (cs, new, empty) ↦
      let e = empty enough in (new.header ∙ e, λ x home. new.rest x home (ap (has x) e))
]
