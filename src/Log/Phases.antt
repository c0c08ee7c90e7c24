-- ===== src/Log/Phases.antt =====
-- The loops of a commit in Xv6/kernel/log.c, cut off by a loss of power anywhere.
use os_project.Prelude.{
  ℕ, ◌+◌, ◌-◌, ◌≤◌, ◌<◌, ◌≡◌, ◌≢◌, ◌⊎◌, ◌∙◌, refl, Bool, true, false, ◌||◌, List, [], ◌∷◌, ◌==◌,
  if◌then◌else◌, length, arith,
}
use os_project.Log.{Block, Machine, bwrite, copy_block, bunpin, install_loop, write_log_loop}

abbrev pub has : ℕ → List ℕ → Bool
has a [] = false
has a (x ∷ xs) = (x == a) || has a xs

-- Pins play no part in what reaches the disk.
bunpin_same :
    (recovering : Bool) (b : ℕ) (s : Machine)
    → let t = if recovering then s else bunpin b s in
      (t.disk ≡ s.disk) × (t.cache ≡ s.cache) × (t.power ≡ s.power)
unfolding bunpin
bunpin_same true b s = (refl, refl, refl)
bunpin_same false b s = (refl, refl, refl)

module _ (start size : ℕ) where
  -- A block outside the log, which has `size` blocks, the header at `start` the first of them.
  abbrev pub IsHome : ℕ → Type 0
  IsHome x = (x < start) ⊎ (start + size ≤ x)

  abbrev pub AllHome : List ℕ → Type 0
  AllHome [] = Unit {0}
  AllHome (b ∷ bs) = IsHome b × AllHome bs

  -- From log block `tail` on, the blocks of `d` hold what `v` has for the blocks `bs`.
  abbrev pub Logged : (ℕ → Block) → ℕ → List ℕ → (ℕ → Block) → Type 0
  Logged d tail [] v = Unit {0}
  Logged d tail (b ∷ bs) v = (d (start + tail + 1) ≡ v b) × Logged d (tail + 1) bs v

  pub IsHome-of_has : (bs : List ℕ) (x : ℕ) → AllHome bs → has x bs ≡ true → IsHome x
  IsHome-of_has [] x h i = cc
  IsHome-of_has (b ∷ bs) x h i = ground (arith, IsHome-of_has bs x h.1)

  pub Logged-frame :
      (bs : List ℕ) (tail : ℕ) (d e : ℕ → Block) (v : ℕ → Block)
      → tail + length bs < size
      → Logged d tail bs v
      → ((x : ℕ) → start + tail < x → x < start + size → e x ≡ d x)
      → Logged e tail bs v
  Logged-frame [] tail d e v fits h same = tt
  Logged-frame (b ∷ bs) tail d e v fits h same = (
    same (start + tail + 1) (omega arith) (omega arith) ∙ h.0,
    Logged-frame bs (tail + 1) d e v (omega arith) h.1 λ x lo hi. same x (omega arith) hi,
  )

  pub Logged-values :
      (bs : List ℕ) (tail : ℕ) (d v w : ℕ → Block)
      → AllHome bs
      → Logged d tail bs v
      → ((x : ℕ) → IsHome x → has x bs ≡ true → v x ≡ w x)
      → Logged d tail bs w
  Logged-values [] tail d v w homes h same = tt
  Logged-values (b ∷ bs) tail d v w homes h same = (
    h.0 ∙ same b homes.0 (ground arith),
    Logged-values bs (tail + 1) d v w homes.1 h.1 λ x home i. same x home (ground arith),
  )

  -- `write_log` writes only to log blocks, and if there is power left behind it, they hold the new
  -- contents of the blocks of the transaction.
  pub record WritesLog (tail : ℕ) (bs : List ℕ) (s t : Machine) : Type 0 where
    pub disk_same :
        (x : ℕ) → (x ≤ start + tail) ⊎ (start + tail + length bs < x) → t.disk x ≡ s.disk x
    pub cache_same :
        (x : ℕ) → (x ≤ start + tail) ⊎ (start + tail + length bs < x) → t.cache x ≡ s.cache x
    pub spent : t.power ≡ s.power - length bs
    pub logged : t.power ≢ 0 → Logged t.disk tail bs s.cache
    pub cached : Logged t.cache tail bs s.cache

  pub write_log_loop-WritesLog :
      (bs : List ℕ) (tail : ℕ) (s : Machine)
      → AllHome bs
      → tail + length bs < size
      → WritesLog tail bs s (write_log_loop start tail bs s)
  unfolding write_log_loop bwrite copy_block
  write_log_loop-WritesLog [] tail s h fits = record {
    disk_same = λ x o. refl;
    cache_same = λ x o. refl;
    spent = omega arith;
    logged = λ p. tt;
    cached = tt;
  }
  write_log_loop-WritesLog (b ∷ bs) tail s h fits =
      let one = bwrite (start + tail + 1) (copy_block (start + tail + 1) b s) in
      let rest = write_log_loop-WritesLog bs (tail + 1) one h.1 (omega arith) in
      record {
        disk_same = λ x o. ground (arith, rest.disk_same x);
        cache_same = λ x o. ground (arith, rest.cache_same x);
        spent = omega (arith, rest.spent);
        logged = λ p. (
          ground (arith, rest.disk_same (start + tail + 1), rest.spent),
          Logged-values bs (tail + 1) (write_log_loop start (tail + 1) bs one).disk one.cache
              s.cache h.1 (rest.logged p) λ x home i. ground arith,
        );
        cached = (
          ground (arith, rest.cache_same (start + tail + 1)),
          Logged-values bs (tail + 1) (write_log_loop start (tail + 1) bs one).cache one.cache
              s.cache h.1 rest.cached λ x home i. ground arith,
        );
      }

  -- `install_trans` writes only to the home blocks of the transaction. There it leaves the old
  -- contents or the logged ones, and the logged ones if there is power left behind it.
  pub record Installs (bs : List ℕ) (v : ℕ → Block) (s t : Machine) : Type 0 where
    pub disk_same : (x : ℕ) → has x bs ≡ false → t.disk x ≡ s.disk x
    pub cache_same : (x : ℕ) → has x bs ≡ false → t.cache x ≡ s.cache x
    pub cache_new : (x : ℕ) → has x bs ≡ true → t.cache x ≡ v x
    pub spent : t.power ≡ s.power - length bs
    pub installed : t.power ≢ 0 → (x : ℕ) → has x bs ≡ true → t.disk x ≡ v x
    pub untouched : (x : ℕ) → s.power ≡ 0 → t.disk x ≡ s.disk x

  pub install_loop-Installs :
      (recovering : Bool) (bs : List ℕ) (tail : ℕ) (v : ℕ → Block) (s : Machine)
      → AllHome bs
      → tail + length bs < size
      → Logged s.cache tail bs v
      → Installs bs v s (install_loop recovering start tail bs s)
  unfolding install_loop bwrite copy_block bunpin
  install_loop-Installs recovering [] tail v s h fits logged = record {
    disk_same = λ x o. refl;
    cache_same = λ x o. refl;
    cache_new = λ x i. cc;
    spent = omega arith;
    installed = λ p x i. cc;
    untouched = λ x p. refl;
  }
  install_loop-Installs recovering (b ∷ bs) tail v s h fits logged =
      let written = bwrite b (copy_block b (start + tail + 1) s) in
      let one = if recovering then written else bunpin b written in
      let shown : (one.disk ≡ written.disk)
          × (one.cache ≡ written.cache)
          × (one.power ≡ written.power) =
        bunpin_same recovering b written in
      let kept =
        Logged-frame bs (tail + 1) s.cache one.cache v (omega arith) logged.1
          λ x lo hi. ground (arith, shown) in
      let rest = install_loop-Installs recovering bs (tail + 1) v one h.1 (omega arith) kept in
      record {
        disk_same = λ x o. ground (arith, rest.disk_same x);
        cache_same = λ x o. ground (arith, rest.cache_same x);
        cache_new = λ x i. ground (arith, rest.cache_same x, rest.cache_new x);
        spent = omega (arith, rest.spent);
        installed = λ p x i. ground (arith, rest.disk_same x, rest.installed p x, rest.spent);
        untouched = λ x p. ground (arith, rest.untouched x, shown);
      }
