-- ===== src/Proc/Leaving.antt =====
-- What `exit` of Xv6/kernel/proc.c leaves behind, field by field.
use os_project.Prelude.{
  ℕ, zero, suc, ◌+◌, ◌<◌, ◌≡◌, ◌≢◌, ◌⊎◌, inl, inr, refl, sym, ap, ◌∙◌, Bool, true, false, ◌&&◌,
  Option, some, none, Bool-cases, ◌==◌, ltb, if◌then◌else◌, if_true, if_false, arith,
}
use mathlib.Core.Path.{subst}
use os_project.Proc.Table.{
  Proc, Table, unused, sleeping, runnable, zombie, Chan, entry, nproc, is_child, is_sleeping,
  chan_eq, set_proc, wakeup, chan_of,
}
use os_project.Proc.Life.{close_files, reparent_loop, reparent, exit}
use os_project.Proc.Loops.{put_cases, wakeup_lem}
use os_project.Proc.Effects.{Kept, is_waiting}
use os_project.Proc.Exit.{
  closed, orphaned, told, dead, buried, buried-other, exit-unfolded, buried-Exited, exit_cases,
}
use os_project.Proc.Reaping.{child_test}

-- The entry may have been woken, and may have another parent; all else is as it was.
pub record Untouched (p q : Proc) : Type 0 where
  pub state : (q.state ≡ p.state) ⊎ (p.state ≡ sleeping) × (q.state ≡ runnable)
  pub pid : q.pid ≡ p.pid
  pub killed : q.killed ≡ p.killed
  pub chan : q.chan ≡ p.chan
  pub xstate : q.xstate ≡ p.xstate
  pub sz : q.sz ≡ p.sz
  pub pagetable : q.pagetable ≡ p.pagetable
  pub trapframe : q.trapframe ≡ p.trapframe
  pub frame : q.frame ≡ p.frame
  pub ofile : q.ofile ≡ p.ofile
  pub cwd : q.cwd ≡ p.cwd
  pub name : q.name ≡ p.name

-- The process has left with a status, its files and its directory closed.
pub record Gone (status : ℕ) (p q : Proc) : Type 0 where
  pub state : q.state ≡ zombie
  pub xstate : q.xstate ≡ status
  pub no_file : (fd : ℕ) → fd < 16 → q.ofile fd ≡ none
  pub no_cwd : q.cwd ≡ none
  pub pid : q.pid ≡ p.pid
  pub killed : q.killed ≡ p.killed
  pub chan : q.chan ≡ p.chan
  pub sz : q.sz ≡ p.sz
  pub pagetable : q.pagetable ≡ p.pagetable
  pub trapframe : q.trapframe ≡ p.trapframe
  pub frame : q.frame ≡ p.frame
  pub name : q.name ≡ p.name

-- An entry without its state and its parent.
abbrev strip : Proc → Proc
strip p = record p { state = unused; parent = none }

strip-if : (b : Bool) (p : Proc) → strip (if b then record p { state = runnable } else p) ≡ strip p
strip-if true p = refl
strip-if false p = refl

strip-wakeup :
    (cur : ℕ) (c : Chan) (t : Table) (j : ℕ) → strip ((wakeup cur c t).procs j) ≡ strip (t.procs j)
strip-wakeup cur c t j = ap strip ((wakeup_lem cur c t).1 j) ∙ strip-if _ (t.procs j)

strip-give :
    (t : Table) (i j : ℕ) (q : Option ℕ)
    → strip ((set_proc t i (record (t.procs i) { parent = q })).procs j) ≡ strip (t.procs j)
unfolding set_proc
strip-give t i j q =
    put_cases (λ k p. strip p ≡ strip (t.procs k)) t.procs i (record (t.procs i) { parent = q }) j
      refl (λ ne. refl)

strip-reparent_loop :
    (n i cur : ℕ) (t : Table) (j : ℕ)
    → strip ((reparent_loop n i cur t).procs j) ≡ strip (t.procs j)
unfolding reparent_loop
strip-reparent_loop zero i cur t j = refl
strip-reparent_loop (suc n) i cur t j = elim (Bool-cases (is_child (t.procs i).parent cur)) [
  | inl mine ↦
      let given = set_proc t i (record (t.procs i) { parent = some t.initproc }) in
      ap (λ u. strip ((reparent_loop n (i + 1) cur u).procs j))
        (if_true (is_child (t.procs i).parent cur) (wakeup cur (entry t.initproc) given) t mine)
      ∙ (strip-reparent_loop n (i + 1) cur (wakeup cur (entry t.initproc) given) j
          ∙ strip-wakeup cur (entry t.initproc) given j
          ∙ strip-give t i j (some t.initproc))
  | inr other ↦
      ap (λ u. strip ((reparent_loop n (i + 1) cur u).procs j))
        (if_false (is_child (t.procs i).parent cur)
          (wakeup cur (entry t.initproc)
            (set_proc t i (record (t.procs i) { parent = some t.initproc })))
          t other)
      ∙ strip-reparent_loop n (i + 1) cur t j
]

strip-told :
    (cur : ℕ) (t : Table) (j : ℕ)
    → strip ((told cur t).procs j) ≡ strip ((close_files cur t).procs j)
unfolding reparent
strip-told cur t j =
    strip-wakeup cur (chan_of ((orphaned cur t).procs cur).parent) (orphaned cur t) j
    ∙ strip-reparent_loop nproc 0 cur (close_files cur t) j

close_files-other :
    (cur : ℕ) (t : Table) (j : ℕ) → j ≢ cur → (close_files cur t).procs j ≡ t.procs j
unfolding close_files set_proc
close_files-other cur t j ne =
    if_false (j == cur) (closed cur (t.procs cur)) (t.procs j) (ground arith)

close_files_self : (cur : ℕ) (t : Table) → (close_files cur t).procs cur ≡ closed cur (t.procs cur)
unfolding close_files set_proc
close_files_self cur t =
    if_true (cur == cur) (closed cur (t.procs cur)) (t.procs cur) (ground arith)

buried_here :
    (status cur : ℕ) (u : Table) → (buried status cur u).procs cur ≡ dead status (u.procs cur)
unfolding buried set_proc
buried_here status cur u =
    if_true (cur == cur) (dead status (u.procs cur)) (u.procs cur) (ground arith)

Kept-Untouched : (p q : Proc) → Kept p q → strip q ≡ strip p → Untouched p q
Kept-Untouched p q k e = record {
  state = k.state;
  pid = k.pid;
  killed = k.killed;
  chan = k.chan;
  xstate = ap (λ (r : Proc). r.xstate) e;
  sz = ap (λ (r : Proc). r.sz) e;
  pagetable = ap (λ (r : Proc). r.pagetable) e;
  trapframe = ap (λ (r : Proc). r.trapframe) e;
  frame = ap (λ (r : Proc). r.frame) e;
  ofile = ap (λ (r : Proc). r.ofile) e;
  cwd = ap (λ (r : Proc). r.cwd) e;
  name = ap (λ (r : Proc). r.name) e;
}

dead-Gone :
    (status cur : ℕ) (p q : Proc) → strip q ≡ strip (closed cur p) → Gone status p (dead status q)
unfolding dead
dead-Gone status cur p q e = record {
  state = refl;
  xstate = refl;
  no_file = λ fd lt.
      ap (λ (r : Proc). r.ofile fd) e ∙ if_true (ltb fd 16) none (p.ofile fd) (ground arith);
  no_cwd = ap (λ (r : Proc). r.cwd) e;
  pid = ap (λ (r : Proc). r.pid) e;
  killed = ap (λ (r : Proc). r.killed) e;
  chan = ap (λ (r : Proc). r.chan) e;
  sz = ap (λ (r : Proc). r.sz) e;
  pagetable = ap (λ (r : Proc). r.pagetable) e;
  trapframe = ap (λ (r : Proc). r.trapframe) e;
  frame = ap (λ (r : Proc). r.frame) e;
  name = ap (λ (r : Proc). r.name) e;
}

-- The table `u` when process `cur` of table `t` has left with `status`.
pub record Left (status cur : ℕ) (t u : Table) : Type 0 where
  pub self : Gone status (t.procs cur) (u.procs cur)
  pub others : (j : ℕ) → j ≢ cur → Untouched (t.procs j) (u.procs j)
  pub given :
      (j : ℕ) → j < nproc → (t.procs j).parent ≡ some cur → (u.procs j).parent ≡ some t.initproc
  pub not_given : (j : ℕ) → (t.procs j).parent ≢ some cur → (u.procs j).parent ≡ (t.procs j).parent
  pub parent_awake :
      (i : ℕ)
      → (t.procs cur).parent ≡ some i
      → i < nproc
      → i ≢ cur
      → (u.procs i).state ≡ sleeping
      → (u.procs i).chan ≢ entry i
  pub init_awake :
      (j : ℕ)
      → j < nproc
      → (t.procs j).parent ≡ some cur
      → t.initproc < nproc
      → (u.procs t.initproc).state ≡ sleeping
      → (u.procs t.initproc).chan ≢ entry t.initproc
  pub nextpid : u.nextpid ≡ t.nextpid
  pub initproc : u.initproc ≡ t.initproc

asleep_waits : (i : ℕ) (p : Proc) → is_waiting i p ≡ false → p.state ≡ sleeping → p.chan ≢ entry i
asleep_waits i p e s c =
    absurd (ground (arith, e, ap is_sleeping s, ap (λ x. chan_eq x (entry i)) c))

not_child : (p : Option ℕ) (cur : ℕ) → p ≢ some cur → is_child p cur ≡ false
not_child none cur ne = refl
not_child (some i) cur ne = elim (Bool-cases (i == cur)) [
  | inl e ↦ absurd (ne (ap some (ground arith)))
  | inr e ↦ e
]

buried-Left :
    (status cur : ℕ) (t : Table)
    → cur ≢ t.initproc
    → Left status cur t (buried status cur (told cur t))
buried-Left status cur t ne =
    let u = told cur t in
    let x = buried-Exited status cur t ne in
    record {
      self = subst (Gone status (t.procs cur)) (sym (buried_here status cur u)) (
          dead-Gone status cur (t.procs cur) (u.procs cur)
            (strip-told cur t cur ∙ ap strip (close_files_self cur t)));
      others = λ j other.
          Kept-Untouched (t.procs j) ((buried status cur u).procs j) (x.others j other) (
            ap strip (sym (buried-other status cur u j other))
            ∙ strip-told cur t j
            ∙ ap strip (close_files-other cur t j other));
      given = λ j lt mine.
          let child = child_test (t.procs j).parent cur mine in
          x.parents j ∙ if_true (ltb j nproc && is_child (t.procs j).parent cur) _ _ (ground arith);
      not_given = λ j other.
          let stranger = not_child (t.procs j).parent cur other in
          x.parents j
          ∙ if_false (ltb j nproc && is_child (t.procs j).parent cur) _ _ (ground arith);
      parent_awake = λ i e lt other.
          asleep_waits i ((buried status cur u).procs i) (x.parent_awake i e lt other);
      init_awake = λ j lt mine in_table.
          asleep_waits t.initproc ((buried status cur u).procs t.initproc)
            (x.init_awake j lt (child_test (t.procs j).parent cur mine) in_table);
      nextpid = x.rest.0;
      initproc = x.rest.1;
    }

-- `exit` panics in the init process. Else the process is a zombie with the status, its files and its
-- directory are closed, and it keeps its other fields; each of its children in the table has the init
-- process for its parent, and no other entry changes its parent. Another process is at most woken up,
-- all its other fields kept. A process of the table that is the parent, and the init process if there
-- is such a child, does not sleep on its own entry any more.
pub exit_lem :
    (status cur : ℕ) (t : Table)
    → (cur ≡ t.initproc) × (exit status cur t ≡ none)
      ⊎ (cur ≢ t.initproc) × (u : Table) × (exit status cur t ≡ some u) × Left status cur t u
exit_lem status cur t = elim (exit_cases status cur t) [
  | inl panics ↦ inl panics
  | inr (ne, _) ↦ inr (
    ne,
    buried status cur (told cur t),
    exit-unfolded status cur t ne,
    buried-Left status cur t ne,
  )
]
