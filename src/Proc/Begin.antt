-- ===== src/Proc/Begin.antt =====
-- What `allocproc` and `fork` of Xv6/kernel/proc.c return.
use os_project.Prelude.{
  ℕ, ◌+◌, ◌<◌, ◌≡◌, ◌≢◌, ◌⊎◌, inl, inr, refl, ap, sym, ◌∙◌, Bool, true, false, ◌||◌, not, Option,
  none, some, ◌==◌, if◌then◌else◌, arith, if_false,
}
use mathlib.Core.Path.{subst}
use os_project.Proc.Table.{Proc, Table, used, runnable, nproc, put, is_unused, set_proc}
use os_project.Proc.Life.{freeproc, find_unused, allocproc, allocpid, fork, a0, dup_files}
use os_project.Proc.Loops.{put_cases}
use os_project.Proc.Scans.{find_unused_lem}

-- The table with the next pid given out, and `p` in entry `i`.
abbrev pub next : ℕ → Proc → Table → Table
next i p t = record t { procs = put t.procs i p; nextpid = t.nextpid + 1 }

-- The entry as `allocproc` claims it.
abbrev pub claimed : ℕ → (ℕ → ℕ) → ℕ → Table → Proc → Proc
claimed page junk pagetable t p = record p {
  pid = t.nextpid;
  state = used;
  trapframe = page;
  frame = junk;
  pagetable = pagetable;
}

-- The entry behind a failure.
abbrev pub released : (ℕ → ℕ) → Proc → Proc
released junk p = freeproc (record p { frame = junk })

pub put_here : (procs : ℕ → Proc) (i : ℕ) (p : Proc) → put procs i p i ≡ p
put_here procs i p =
    put_cases (λ k q. k ≡ i → q ≡ p) procs i p i (λ e. refl) (λ ne. absurd (ne refl)) refl

put-put :
    (procs : ℕ → Proc) (i : ℕ) (p q : Proc) (j : ℕ) → put (put procs i p) i q j ≡ put procs i q j
put-put procs i p q j =
    put_cases (λ k r. r ≡ put procs i q k) (put procs i p) i q j (sym (put_here procs i q))
      (λ ne.
        if_false (j == i) p (procs j) (ground arith)
        ∙ sym (if_false (j == i) q (procs j) (ground arith)))

-- `allocproc` by the entry that it finds.
unfoldable pub allocated : ℕ → (ℕ → ℕ) → ℕ → Table → Option ℕ → Option ℕ × Table
allocated page junk pagetable t none = (none, t)
allocated page junk pagetable t (some i) =
    if page == 0
    then (none, next i (released junk (t.procs i)) t)
    else if pagetable == 0
    then (none, next i (released junk (t.procs i)) t)
    else (some i, next i (claimed page junk pagetable t (t.procs i)) t)

pub allocproc-allocated :
    (page : ℕ) (junk : ℕ → ℕ) (pagetable : ℕ) (t : Table)
    → allocproc page junk pagetable t ≡ allocated page junk pagetable t (find_unused nproc 0 t)
unfolding allocproc allocated freeproc set_proc allocpid
allocproc-allocated page junk pagetable t = refl

-- The child of `cur`, which is `p`, in the claimed entry `np`.
abbrev pub child : ℕ → Proc → Proc → Proc
child cur p np = record np {
  sz = p.sz;
  frame = λ x. if x == a0 then 0 else p.frame x;
  ofile = dup_files p.ofile np.ofile;
  cwd = p.cwd;
  name = p.name;
  parent = some cur;
  state = runnable;
}

-- `fork` by what `allocproc` returns.
forked : Bool → ℕ → Table → Option ℕ × Table → Option ℕ × Table
forked copied cur t r = elim r.0 [
  | none ↦ (none, r.1)
  | some i ↦
      if not copied
      then (none, set_proc r.1 i (freeproc (r.1.procs i)))
      else (some (r.1.procs i).pid, set_proc r.1 i (child cur (t.procs cur) (r.1.procs i)))
]

fork-forked :
    (page : ℕ) (junk : ℕ → ℕ) (pagetable : ℕ) (copied : Bool) (cur : ℕ) (t : Table)
    → fork page junk pagetable copied cur t ≡ forked copied cur t (allocproc page junk pagetable t)
unfolding fork forked
fork-forked page junk pagetable copied cur t = refl

-- The three outcomes of `allocproc`: no entry is unused; or one is, and there is no memory for it, so
-- that the pid is used up and the entry released; or the entry is claimed.
pub allocproc_lem :
    (page : ℕ) (junk : ℕ → ℕ) (pagetable : ℕ) (t : Table)
    → (allocproc page junk pagetable t ≡ (none, t))
        × ((j : ℕ) → j < nproc → is_unused (t.procs j).state ≡ false)
      ⊎ ((i : ℕ) × (i < nproc)
          × (is_unused (t.procs i).state ≡ true)
          × (allocproc page junk pagetable t ≡ (
              if page == 0 || pagetable == 0
              then (none, next i (released junk (t.procs i)) t)
              else (some i, next i (claimed page junk pagetable t (t.procs i)) t))))
allocproc_lem page junk pagetable t = elim (find_unused_lem nproc 0 t) [
  | inl (e, none_there) ↦ inl (
    allocproc-allocated page junk pagetable t
        ∙ ap (allocated page junk pagetable t) e
        ∙ unfold allocated in refl,
    λ j lt. none_there j (ground arith),
  )
  | inr (i, inside, free, e) ↦ inr (
    i,
    ground arith,
    free,
    allocproc-allocated page junk pagetable t
        ∙ ap (allocated page junk pagetable t) e
        ∙ unfold allocated in either (page == 0) (pagetable == 0) _ _,
  )
]
  where
    either :
        {A : Type 0} (b c : Bool) (x y : A)
        → (if b then x else if c then x else y) ≡ (if b || c then x else y)
    either b c x y = ground arith

-- The table `u` has `p` in entry `i`, the next pid is given out, and all else is as in `t`.
pub record Placed (i : ℕ) (p : Proc) (t u : Table) : Type 0 where
  pub here : u.procs i ≡ p
  pub others : (j : ℕ) → j ≢ i → u.procs j ≡ t.procs j
  pub nextpid : u.nextpid ≡ t.nextpid + 1
  pub initproc : u.initproc ≡ t.initproc

Placed-next : (i : ℕ) (p q : Proc) (t : Table) → Placed i q t (set_proc (next i p t) i q)
unfolding set_proc
Placed-next i p q t = record {
  here = put_here (put t.procs i p) i q;
  others = λ j ne. put-put t.procs i p q j ∙ if_false (j == i) q (t.procs j) (ground arith);
  nextpid = refl;
  initproc = refl;
}

forked_lem :
    (b copied : Bool) (cur i : ℕ) (p q : Proc) (t : Table)
    → ((forked copied cur t (if b then (none, next i p t) else (some i, next i q t))).0
        ≡ (if b || not copied then none else some q.pid))
      × Placed i
          (if b then p else if not copied then freeproc q else child cur (t.procs cur) q)
          t
          (forked copied cur t (if b then (none, next i p t) else (some i, next i q t))).1
unfolding forked
forked_lem true copied cur i p q t = (
  refl,
  record {
    here = put_here t.procs i p;
    others = λ j ne. if_false (j == i) p (t.procs j) (ground arith);
    nextpid = refl;
    initproc = refl;
  },
)
forked_lem false false cur i p q t = (
  refl,
  subst (λ r. Placed i (freeproc r) t (set_proc (next i q t) i (freeproc (put t.procs i q i))))
      (put_here t.procs i q) (Placed-next i q (freeproc (put t.procs i q i)) t),
)
forked_lem false true cur i p q t = (
  ap (λ r. some r.pid) (put_here t.procs i q),
  subst
      (λ r.
        Placed i (child cur (t.procs cur) r) t
          (set_proc (next i q t) i (child cur (t.procs cur) (put t.procs i q i))))
      (put_here t.procs i q) (Placed-next i q (child cur (t.procs cur) (put t.procs i q i)) t),
)

-- The entry that `fork` leaves in a slot that held `np`: released, or the child.
abbrev pub fork_entry :
    (page : ℕ) (junk : ℕ → ℕ) (pagetable : ℕ) (copied : Bool) (cur : ℕ) → Table → Proc → Proc
fork_entry page junk pagetable copied cur t np =
    if page == 0 || pagetable == 0
    then released junk np
    else if not copied
    then freeproc (claimed page junk pagetable t np)
    else child cur (t.procs cur) (claimed page junk pagetable t np)

-- `fork` by the entry that it takes.
pub fork_cases :
    (page : ℕ) (junk : ℕ → ℕ) (pagetable : ℕ) (copied : Bool) (cur : ℕ) (t : Table)
    → (fork page junk pagetable copied cur t ≡ (none, t))
        × ((j : ℕ) → j < nproc → is_unused (t.procs j).state ≡ false)
      ⊎ ((i : ℕ) × (i < nproc)
          × (is_unused (t.procs i).state ≡ true)
          × ((fork page junk pagetable copied cur t).0
              ≡ (if (page == 0 || pagetable == 0) || not copied then none else some t.nextpid))
          × Placed i
              (fork_entry page junk pagetable copied cur t (t.procs i))
              t
              (fork page junk pagetable copied cur t).1)
fork_cases page junk pagetable copied cur t = elim (allocproc_lem page junk pagetable t) [
  | inl (e, none_there) ↦ inl (
    fork-forked page junk pagetable copied cur t
        ∙ ap (forked copied cur t) e
        ∙ unfold forked in refl,
    none_there,
  )
  | inr (i, lt, free, e) ↦
      (let f = fork-forked page junk pagetable copied cur t ∙ ap (forked copied cur t) e in
        let r =
          forked_lem (page == 0 || pagetable == 0) copied cur i (released junk (t.procs i))
            (claimed page junk pagetable t (t.procs i)) t in
        inr (
          i,
          lt,
          free,
          ap (λ r. r.0) f ∙ r.0,
          subst (λ r. Placed i (fork_entry page junk pagetable copied cur t (t.procs i)) t r.1)
              (sym f) r.1,
        ))
]
