-- ===== src/Log/Caching.antt =====
-- How a system call of the file system changes blocks between `begin_op` and `end_op`: it reads one,
-- changes it in the cache, and calls `log_write` (Xv6/kernel/log.c). Between the calls bio.c may drop
-- any block from the cache that is not pinned.
use os_project.Prelude.{
  ℕ, ◌+◌, ◌-◌, ◌<◌, ◌≡◌, ap, sym, ◌∙◌, refl, inl, inr, Bool, true, false, ◌&&◌, ◌||◌, Bool-cases,
  some, List, [], ◌∷◌, ◌==◌, if◌then◌else◌, length, arith,
}
use mathlib.Core.Path.{subst}
use os_project.Log.{Block, log_size, Log, Machine, bpin, absorb, log_write, read_header}
use os_project.Log.Phases.{has, IsHome, AllHome}
use os_project.Log.Crash.{Ready}

-- The holder of block `b` changes it in memory.
unfoldable pub modify : ℕ → Block → Machine → Machine
modify b v s = record s { cache = λ x. if x == b then v else s.cache x }

-- A block that nobody pins may be dropped, and is read from the disk when it is next asked for.
unfoldable pub drop_block : ℕ → Machine → Machine
drop_block b s = record s { cache = λ x. if x == b && s.pins b == 0 then s.disk x else s.cache x }

-- Each block of the transaction is pinned.
abbrev pub Pinned : Log → Machine → Type 0
Pinned l s = (x : ℕ) → has x l.lh ≡ true → 0 < s.pins x

has-absorb : (x b : ℕ) (bs : List ℕ) → has x (absorb b bs) ≡ ((x == b) || has x bs)
unfolding absorb
has-absorb x b [] = ground arith
has-absorb x b (c ∷ bs) = ground (arith, has-absorb x b bs)

AllHome-absorb :
    (start size b : ℕ) (bs : List ℕ)
    → IsHome start size b
    → AllHome start size bs
    → AllHome start size (absorb b bs)
unfolding absorb
AllHome-absorb start size b [] h hs = (h, tt)
AllHome-absorb start size b (c ∷ bs) h hs = elim (Bool-cases (c == b)) [
  | inl same ↦ rw same (h, hs.1)
  | inr other ↦ rw other (hs.0, AllHome-absorb start size b bs h hs.1)
]

pub length-absorb :
    (b : ℕ) (bs : List ℕ) → length (absorb b bs) ≡ (if has b bs then length bs else length bs + 1)
unfolding absorb
length-absorb b [] = refl
length-absorb b (c ∷ bs) = ground (arith, length-absorb b bs)

-- What a `log_write` that returns has done.
pub record Logs (b : ℕ) (l : Log) (s : Machine) (l' : Log) (s' : Machine) : Type 0 where
  pub room : length l.lh < log_size
  pub space : length l.lh < l.size - 1
  pub begun : 0 < l.outstanding
  pub log : l' ≡ record l { lh = absorb b l.lh }
  pub machine : s' ≡ (if has b l.lh then s else bpin b s)

pub log_write-Logs :
    (b : ℕ) (l : Log) (s : Machine) {l' : Log} {s' : Machine}
    → log_write b l s ≡ some (l', s')
    → Logs b l s l' s'
unfolding log_write
log_write-Logs b l s {l'} {s'} e = record {
  room = ground arith;
  space = ground arith;
  begun = ground arith;
  log = ground arith;
  machine = ground (arith, length-absorb b l.lh);
}

-- A pin changes no block.
bpin_lem :
    (known : Bool) (b : ℕ) (s : Machine)
    → let t = if known then s else bpin b s in
      (t.disk ≡ s.disk)
      × (t.cache ≡ s.cache)
      × ((x : ℕ) → t.pins x ≡ (if known then s.pins x else s.pins x + (if x == b then 1 else 0)))
unfolding bpin
bpin_lem true b s = (refl, refl, λ x. refl)
bpin_lem false b s = (refl, refl, λ x. ground arith)

-- The log is ready to commit, its blocks are pinned, and the commit covers the contents `v` of `b`.
pub record Covered (b : ℕ) (v : Block) (l : Log) (s : Machine) : Type 0 where
  pub ready : Ready l s
  pub pinned : Pinned l s
  pub content : s.cache b ≡ v
  pub logged : has b l.lh ≡ true

modified-Covered :
    (l : Log) (s : Machine) (b : ℕ) (v : Block)
    → Ready l s
    → Pinned l s
    → IsHome l.start l.size b
    → length l.lh < log_size
    → length l.lh < l.size - 1
    → let m = modify b v s in
      Covered b v (record l { lh = absorb b l.lh }) (if has b l.lh then m else bpin b m)
unfolding modify
modified-Covered l s b v r pinned home room space =
    let m = modify b v s in
    let (disk, cache, pins) = bpin_lem (has b l.lh) b m in
    let here : (b == b) ≡ true = ground arith in
    record {
      ready = record {
        clean = ap (λ d. read_header (d l.start)) disk ∙ r.clean;
        homes = AllHome-absorb l.start l.size b l.lh home r.homes;
        short = ground (arith, length-absorb b l.lh);
        fits = ground (arith, length-absorb b l.lh);
        agrees = λ x at out.
            let missing : (x == b) ≡ false = ground (arith, has-absorb x b l.lh) in
            ap (λ c. c x) cache
            ∙ rw missing (r.agrees x at (ground (arith, has-absorb x b l.lh)))
            ∙ sym (ap (λ d. d x) disk);
      };
      pinned = λ x i. ground (arith, has-absorb x b l.lh, pins x, pinned x);
      content = ap (λ c. c b) cache ∙ rw here;
      logged = ground (arith, has-absorb b b l.lh);
    }

-- Let the log be ready to commit (the header on the disk empty, the blocks of the transaction outside
-- the blocks of the log and at most LOGSIZE, with room for them behind the header, and no other block
-- outside the log different in the cache and on the disk) and its blocks pinned. A change of a block
-- outside the log, with the `log_write` behind it if that does not panic, keeps the log ready to
-- commit and its blocks pinned, and the commit will cover the change.
pub log_write-Covered :
    (l : Log) (s : Machine) (b : ℕ) (v : Block)
    → Ready l s
    → Pinned l s
    → IsHome l.start l.size b
    → (l' : Log) (s' : Machine) → log_write b l (modify b v s) ≡ some (l', s')
    → Covered b v l' s'
log_write-Covered l s b v r pinned home l' s' e =
    let w = log_write-Logs b l (modify b v s) e in
    subst (λ t. Covered b v l' t) (sym w.machine)
      (subst (λ k. Covered b v k (if has b l.lh then modify b v s else bpin b (modify b v s)))
        (sym w.log) (modified-Covered l s b v r pinned home w.room w.space))

drop_same :
    (l : Log) (s : Machine) (b x : ℕ)
    → Ready l s
    → Pinned l s
    → IsHome l.start l.size x
    → (drop_block b s).cache x ≡ s.cache x
unfolding drop_block
drop_same l s b x r pinned home = elim (Bool-cases ((x == b) && (s.pins b == 0))) [
  | inr kept ↦ rw kept
  | inl dropped ↦ rw dropped (
      sym (
        r.agrees x home (elim (Bool-cases (has x l.lh)) [
          | inl i ↦ absurd (ground (arith, pinned x i))
          | inr o ↦ o
        ])))
]

-- While the log is ready and its blocks pinned, dropping any block that may be dropped loses nothing:
-- each block outside the log still reads the same, and the log stays ready.
pub drop_block-Ready :
    (l : Log) (s : Machine) (b : ℕ)
    → Ready l s
    → Pinned l s
    → Ready l (drop_block b s)
      × ((x : ℕ) → IsHome l.start l.size x → (drop_block b s).cache x ≡ s.cache x)
drop_block-Ready l s b r pinned = (
  unfold drop_block in
      record {
        clean = r.clean;
        homes = r.homes;
        short = r.short;
        fits = r.fits;
        agrees = λ x home out. drop_same l s b x r pinned home ∙ r.agrees x home out;
      },
  λ x home. drop_same l s b x r pinned home,
)
