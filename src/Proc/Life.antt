-- ===== src/Proc/Life.antt =====
-- How a process of Xv6/kernel/proc.c begins and ends: allocproc, freeproc, fork, reparent, exit, wait.
use os_project.Prelude.{
  [], ℕ, zero, suc, ◌+◌, Bool, false, ◌&&◌, ◌||◌, not, Option, none, some, ◌==◌, ltb, if◌then◌else◌,
  List, ◌∷◌,
}
use os_project.Memory.{page_size}
use os_project.Proc.Table.{
  Proc, Table, unused, used, runnable, zombie, nothing, entry, nproc, is_unused, is_zombie,
  is_child, set_proc, wakeup, killed, sleep_enter, chan_of,
}

-- NOFILE
abbrev pub nofile : ℕ
nofile = 16

-- `procinit` leaves every entry so, less its kernel stack: zero, as all of `proc`.
abbrev pub blank_proc : Proc
blank_proc = record {
  state = unused;
  chan = nothing;
  killed = false;
  xstate = 0;
  pid = 0;
  parent = none;
  sz = 0;
  pagetable = 0;
  trapframe = 0;
  frame = λ x. 0;
  ofile = λ fd. none;
  cwd = none;
  name = [];
}

-- The first byte of the name is cleared, the files and the directory are left. The pages that the
-- process had go to `kfree` and `proc_freepagetable`.
unfoldable pub freeproc : Proc → Proc
freeproc p = record p {
  trapframe = 0;
  pagetable = 0;
  sz = 0;
  pid = 0;
  parent = none;
  name = [];
  chan = nothing;
  killed = false;
  xstate = 0;
  state = unused;
}

-- The loop of `allocproc`: the first unused entry.
unfoldable pub find_unused : ℕ → ℕ → Table → Option ℕ
find_unused zero i t = none
find_unused (suc n) i t =
    let rest = find_unused n (i + 1) t in if is_unused (t.procs i).state then some i else rest

-- `allocpid`. The counter is an int; it is assumed not to reach 2^31.
unfoldable pub allocpid : Table → ℕ × Table
allocpid t = (t.nextpid, record t { nextpid = t.nextpid + 1 })

-- `page` is what `kalloc` returns, with the words `junk` in it, and `pagetable` what
-- `proc_pagetable` returns; 0 is a failure.
unfoldable pub allocproc : (page : ℕ) (junk : ℕ → ℕ) (pagetable : ℕ) → Table → Option ℕ × Table
unfolding find_unused allocpid freeproc set_proc
allocproc page junk pagetable t = elim (find_unused nproc 0 t) [
  | none ↦ (none, t)
  | some i ↦
      (let (pid, t₁) = allocpid t in
        let p = record (t.procs i) { pid = pid; state = used; trapframe = page; frame = junk } in
        if page == 0
        then (none, set_proc t₁ i (freeproc p))
        else if pagetable == 0
        then (none, set_proc t₁ i (freeproc p))
        else (some i, set_proc t₁ i (record p { pagetable = pagetable })))
]

-- The register a0, the fifteenth word of a trapframe.
abbrev pub a0 : ℕ
a0 = 14

-- `if(p->ofile[i]) np->ofile[i] = filedup(p->ofile[i])`
abbrev pub dup_files : (ℕ → Option ℕ) → (ℕ → Option ℕ) → ℕ → Option ℕ
dup_files mine theirs fd = elim (mine fd) [ none ↦ theirs fd | some f ↦ some f ]

-- `copied` says that `uvmcopy` succeeded. The number is the pid of the child; `none` is -1.
unfoldable pub fork :
    (page : ℕ) (junk : ℕ → ℕ) (pagetable : ℕ) (copied : Bool) (cur : ℕ) → Table → Option ℕ × Table
unfolding allocproc freeproc set_proc
fork page junk pagetable copied cur t =
    let p = t.procs cur in
    let (found, t₁) = allocproc page junk pagetable t in
    elim found [
      | none ↦ (none, t₁)
      | some i ↦
          (let np = t₁.procs i in
            if not copied then (none, set_proc t₁ i (freeproc np)) else (
              some np.pid,
              set_proc t₁ i (record np {
                sz = p.sz;
                frame = λ x. if x == a0 then 0 else p.frame x;
                ofile = dup_files p.ofile np.ofile;
                cwd = p.cwd;
                name = p.name;
                parent = some cur;
                state = runnable;
              }),
            ))
    ]

-- "initcode"
abbrev pub initcode_name : List ℕ
initcode_name = 105 ∷ 110 ∷ 105 ∷ 116 ∷ 99 ∷ 111 ∷ 100 ∷ 101 ∷ []

-- The registers that `userinit` sets: epc, the third word of a trapframe, and sp, the sixth.
abbrev pub first_frame : (ℕ → ℕ) → ℕ → ℕ
first_frame frame x = if x == 3 then 0 else if x == 6 then page_size else frame x

-- `root` is what `namei("/")` returns; `none` is a fault, as the result of `allocproc` is not checked.
-- What `uvmfirst` does to the page table is left out.
unfoldable pub userinit : (page : ℕ) (junk : ℕ → ℕ) (pagetable root : ℕ) → Table → Option Table
unfolding allocproc set_proc
userinit page junk pagetable root t =
    let (found, t₁) = allocproc page junk pagetable t in
    elim found [
      | none ↦ none
      | some i ↦ some (
          set_proc (record t₁ { initproc = i }) i
            (record (t₁.procs i) {
              sz = page_size;
              frame = first_frame (t₁.procs i).frame;
              name = initcode_name;
              cwd = some root;
              state = runnable;
            }))
    ]

-- The table that `procinit` leaves. The counter starts at 1, and no process is the init process yet.
abbrev pub blank_table : Table
blank_table = record { procs = λ i. blank_proc; nextpid = 1; initproc = 0 }

-- The loop of `reparent`, called by `cur`, for the children of `cur`.
unfoldable pub reparent_loop : ℕ → ℕ → ℕ → Table → Table
unfolding set_proc wakeup
reparent_loop zero i cur t = t
reparent_loop (suc n) i cur t =
    let given = set_proc t i (record (t.procs i) { parent = some t.initproc }) in
    reparent_loop n (i + 1) cur
      (if is_child (t.procs i).parent cur then wakeup cur (entry t.initproc) given else t)

unfoldable pub reparent : ℕ → Table → Table
unfolding reparent_loop
reparent cur t = reparent_loop nproc 0 cur t

-- The files and the directory that `exit` closes.
unfoldable pub close_files : ℕ → Table → Table
unfolding set_proc
close_files cur t = set_proc t cur (record (t.procs cur) {
  ofile = λ fd. if ltb fd nofile then none else (t.procs cur).ofile fd;
  cwd = none;
})

-- `exit` up to its call of `sched`; `none` is the panic "init exiting".
unfoldable pub exit : (status cur : ℕ) → Table → Option Table
unfolding close_files reparent wakeup set_proc
exit status cur t =
    if cur == t.initproc
    then none
    else (let t₁ = reparent cur (close_files cur t) in
        let t₂ = wakeup cur (chan_of (t₁.procs cur).parent) t₁ in
        some (set_proc t₂ cur (record (t₂.procs cur) { xstate = status; state = zombie })))

-- What the scan of `wait` finds among the children of `cur`.
pub data Scan : Type 0 where
  found : ℕ → Scan
  no_zombie : (havekids : Bool) → Scan

unfoldable pub wait_scan : ℕ → ℕ → Bool → ℕ → Table → Scan
wait_scan zero i havekids cur t = no_zombie havekids
wait_scan (suc n) i havekids cur t =
    let p = t.procs i in
    let mine = is_child p.parent cur in
    let rest = wait_scan n (i + 1) (havekids || mine) cur t in
    if mine && is_zombie p.state then found i else rest

pub data Waited : Type 0 where
  reaped : (pid : ℕ) → Waited
  failed : Waited
  asleep : Waited

-- One round of the loop of `wait`, up to its return or its call of `sched` in `sleep`. `wants` is
-- `addr != 0`, and `stored` says that `copyout` succeeded.
unfoldable pub wait : (wants stored : Bool) (cur : ℕ) → Table → Waited × Table
unfolding wait_scan freeproc set_proc killed sleep_enter
wait wants stored cur t = elim (wait_scan nproc 0 false cur t) [
  | found i ↦
      if wants && not stored
      then (failed, t)
      else (reaped (t.procs i).pid, set_proc t i (freeproc (t.procs i)))
  | no_zombie havekids ↦
      if not havekids || killed cur t then (failed, t) else (asleep, sleep_enter cur (entry cur) t)
]
