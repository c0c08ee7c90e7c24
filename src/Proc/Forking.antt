-- ===== src/Proc/Forking.antt =====
-- The entry that `fork` of Xv6/kernel/proc.c leaves, and the one that `freeproc` leaves, field by field.
use os_project.Prelude.{
  ℕ, ◌+◌, ◌<◌, ◌≡◌, ◌≢◌, ◌⊎◌, inl, inr, refl, ap, sym, ◌∙◌, Bool, true, false, ◌||◌, not, Option,
  Bool-cases, none, some, [], ◌==◌, if◌then◌else◌, if_true, if_false, arith,
}
use mathlib.Core.Path.{subst}
use os_project.Proc.Table.{
  Proc, Table, ProcState, unused, used, sleeping, runnable, running, zombie, nothing, nproc,
  is_unused,
}
use os_project.Proc.Life.{freeproc, fork}
use os_project.Proc.Begin.{claimed, child, released, fork_entry, fork_cases}

-- The entry `q` is as unused as before its first process, but for the files and the directory, which
-- are those of `p`.
pub record Released (p q : Proc) : Type 0 where
  pub state : q.state ≡ unused
  pub pid : q.pid ≡ 0
  pub parent : q.parent ≡ none
  pub chan : q.chan ≡ nothing
  pub killed : q.killed ≡ false
  pub xstate : q.xstate ≡ 0
  pub sz : q.sz ≡ 0
  pub pagetable : q.pagetable ≡ 0
  pub trapframe : q.trapframe ≡ 0
  pub name : q.name ≡ []
  pub ofile : q.ofile ≡ p.ofile
  pub cwd : q.cwd ≡ p.cwd

pub freeproc-Released :
    (p np : Proc) → p.ofile ≡ np.ofile → p.cwd ≡ np.cwd → Released np (freeproc p)
unfolding freeproc
freeproc-Released p np files dir = record {
  state = refl;
  pid = refl;
  parent = refl;
  chan = refl;
  killed = refl;
  xstate = refl;
  sz = refl;
  pagetable = refl;
  trapframe = refl;
  name = refl;
  ofile = files;
  cwd = dir;
}

-- The entry `q` is a child of `cur`, which is `p`, in an entry that was `np`. The register a0 is word 14
-- of the trapframe. The killed flag, the channel, the status, and the files that the caller does not
-- have, are those of `np`.
pub record Child (page pagetable pid cur : ℕ) (p np q : Proc) : Type 0 where
  pub state : q.state ≡ runnable
  pub same_pid : q.pid ≡ pid
  pub parent : q.parent ≡ some cur
  pub sz : q.sz ≡ p.sz
  pub cwd : q.cwd ≡ p.cwd
  pub name : q.name ≡ p.name
  pub files : (fd f : ℕ) → p.ofile fd ≡ some f → q.ofile fd ≡ some f
  pub no_file : (fd : ℕ) → p.ofile fd ≡ none → q.ofile fd ≡ np.ofile fd
  pub returns_zero : q.frame 14 ≡ 0
  pub registers : (x : ℕ) → x ≢ 14 → q.frame x ≡ p.frame x
  pub same_trapframe : q.trapframe ≡ page
  pub same_pagetable : q.pagetable ≡ pagetable
  pub killed : q.killed ≡ np.killed
  pub chan : q.chan ≡ np.chan
  pub xstate : q.xstate ≡ np.xstate

child-Child :
    (page : ℕ) (junk : ℕ → ℕ) (pagetable cur : ℕ) (t : Table) (p np : Proc)
    → Child page pagetable t.nextpid cur p np (child cur p (claimed page junk pagetable t np))
child-Child page junk pagetable cur t p np = record {
  state = refl;
  same_pid = refl;
  parent = refl;
  sz = refl;
  cwd = refl;
  name = refl;
  files = λ fd f e. ground (arith, e);
  no_file = λ fd e. ground (arith, e);
  returns_zero = refl;
  registers = λ x ne. if_false (x == 14) 0 (p.frame x) (ground arith);
  same_trapframe = refl;
  same_pagetable = refl;
  killed = refl;
  chan = refl;
  xstate = refl;
}

pub is_unused_lem : (s : ProcState) → is_unused s ≡ true → s ≡ unused
is_unused_lem unused e = refl
is_unused_lem used e = absurd (ground arith)
is_unused_lem sleeping e = absurd (ground arith)
is_unused_lem runnable e = absurd (ground arith)
is_unused_lem running e = absurd (ground arith)
is_unused_lem zombie e = absurd (ground arith)

-- What `fork` returns where it takes entry `i`.
abbrev pub Forked :
    (page pagetable : ℕ) (copied : Bool) (cur i : ℕ) → Table → Option ℕ × Table → Type 0
Forked page pagetable copied cur i t (r, u) =
    ((page ≡ 0) ⊎ (pagetable ≡ 0) ⊎ (copied ≡ false))
      × (r ≡ none)
      × Released (t.procs i) (u.procs i)
    ⊎ (page ≢ 0)
      × (pagetable ≢ 0)
      × (copied ≡ true)
      × (r ≡ some t.nextpid)
      × Child page pagetable t.nextpid cur (t.procs cur) (t.procs i) (u.procs i)

module _ (page : ℕ) (junk : ℕ → ℕ) (pagetable : ℕ) (copied : Bool) (cur i : ℕ) (t u : Table)
    (r : Option ℕ)
    (returns : r ≡ (if (page == 0 || pagetable == 0) || not copied then none else some t.nextpid))
    (here : u.procs i ≡ fork_entry page junk pagetable copied cur t (t.procs i)) where
  abbrev np : Proc
  np = t.procs i

  no_memory : (page == 0 || pagetable == 0) ≡ true → u.procs i ≡ released junk np
  no_memory e = here ∙ if_true (page == 0 || pagetable == 0) _ _ e

  not_copied :
      (page == 0 || pagetable == 0) ≡ false
      → copied ≡ false
      → u.procs i ≡ freeproc (claimed page junk pagetable t np)
  not_copied e c =
      here ∙ if_false (page == 0 || pagetable == 0) _ _ e ∙ if_true (not copied) _ _ (ground arith)

  forked :
      (page == 0 || pagetable == 0) ≡ false
      → copied ≡ true
      → u.procs i ≡ child cur (t.procs cur) (claimed page junk pagetable t np)
  forked e c =
      here ∙ if_false (page == 0 || pagetable == 0) _ _ e ∙ if_false (not copied) _ _ (ground arith)

  failure : (page == 0 || pagetable == 0) ≡ true → (page ≡ 0) ⊎ (pagetable ≡ 0) ⊎ (copied ≡ false)
  failure e = elim (Bool-cases (page == 0)) [
    | inl z ↦ inl (ground arith)
    | inr z ↦ inr (inl (ground arith))
  ]

  entry-Forked : Forked page pagetable copied cur i t (r, u)
  entry-Forked = elim (Bool-cases (page == 0 || pagetable == 0)) [
    | inl e ↦ inl (
      failure e,
      ground (arith, returns),
      subst (Released np) (sym (no_memory e))
          (freeproc-Released (record np { frame = junk }) np refl refl),
    )
    | inr e ↦ elim (Bool-cases copied) [
      | inr c ↦ inl (
        inr (inr c),
        ground (arith, returns),
        subst (Released np) (sym (not_copied e c))
            (freeproc-Released (claimed page junk pagetable t np) np refl refl),
      )
      | inl c ↦ inr (
        (λ z. absurd (ground arith)),
        (λ z. absurd (ground arith)),
        c,
        ground (arith, returns),
        subst (Child page pagetable t.nextpid cur (t.procs cur) np) (sym (forked e c))
            (child-Child page junk pagetable cur t (t.procs cur) np),
      )
    ]
  ]

-- `fork` fails without a change where no entry is unused. Else it takes an unused entry and the next
-- pid, and changes no other entry. Where there is no memory it fails, and the entry is unused again,
-- with every field cleared but its files and its directory. Else it returns that pid, and the entry is
-- a runnable child of the caller with the new trapframe and page table, and with the size, files,
-- directory, name and registers of the caller, but for a0, which is 0.
pub fork_lem :
    (page : ℕ) (junk : ℕ → ℕ) (pagetable : ℕ) (copied : Bool) (cur : ℕ) (t : Table)
    → (fork page junk pagetable copied cur t ≡ (none, t))
        × ((j : ℕ) → j < nproc → (t.procs j).state ≢ unused)
      ⊎ (i : ℕ) × (i < nproc)
        × ((t.procs i).state ≡ unused)
        × ((j : ℕ) → j ≢ i → (fork page junk pagetable copied cur t).1.procs j ≡ t.procs j)
        × ((fork page junk pagetable copied cur t).1.nextpid ≡ t.nextpid + 1)
        × ((fork page junk pagetable copied cur t).1.initproc ≡ t.initproc)
        × Forked page pagetable copied cur i t (fork page junk pagetable copied cur t)
fork_lem page junk pagetable copied cur t = elim (fork_cases page junk pagetable copied cur t) [
  | inl (e, none_there) ↦
      inl (e, λ j lt z. absurd (ground (arith, none_there j lt, ap is_unused z)))
  | inr (i, lt, free, returns, placed) ↦ inr (
    i,
    lt,
    is_unused_lem (t.procs i).state free,
    placed.others,
    placed.nextpid,
    placed.initproc,
    entry-Forked page junk pagetable copied cur i t (fork page junk pagetable copied cur t).1
        (fork page junk pagetable copied cur t).0 returns placed.here,
  )
]
