-- ===== src/Proc/Table.antt =====
-- The process table of Xv6/kernel/proc.h and proc.c, and the functions that move a process between
-- running, runnable and sleeping.
use os_project.Prelude.{
  List, ℕ, zero, suc, ◌+◌, Bool, true, false, ◌&&◌, Option, none, some, List, ◌==◌, if◌then◌else◌,
}

-- NPROC
abbrev pub nproc : ℕ
nproc = 64

pub data ProcState : Type 0 where
  unused used sleeping runnable running zombie : ProcState

abbrev pub is_unused : ProcState → Bool
is_unused unused = true
is_unused _ = false

abbrev pub is_sleeping : ProcState → Bool
is_sleeping sleeping = true
is_sleeping _ = false

abbrev pub is_runnable : ProcState → Bool
is_runnable runnable = true
is_runnable _ = false

abbrev pub is_running : ProcState → Bool
is_running running = true
is_running _ = false

abbrev pub is_zombie : ProcState → Bool
is_zombie zombie = true
is_zombie _ = false

-- What a process may sleep on: nothing, the entry of a process, or another address.
pub data Chan : Type 0 where
  nothing : Chan
  entry : ℕ → Chan
  other : ℕ → Chan

abbrev pub chan_eq : Chan → Chan → Bool
chan_eq nothing nothing = true
chan_eq (entry i) (entry j) = i == j
chan_eq (other a) (other b) = a == b
chan_eq _ _ = false

-- `struct proc`, less its lock, its kernel stack and its context. Processes are named by their index
-- in the table, files and inodes by some number. `frame` is the content of the trapframe page,
-- and `name` the bytes before the NUL.
pub record Proc : Type 0 where
  pub state : ProcState
  pub chan : Chan
  pub killed : Bool
  pub xstate : ℕ
  pub pid : ℕ
  pub parent : Option ℕ
  pub sz : ℕ
  pub pagetable : ℕ
  pub trapframe : ℕ
  pub frame : ℕ → ℕ
  pub ofile : ℕ → Option ℕ
  pub cwd : Option ℕ
  pub name : List ℕ

-- `proc`, `nextpid` and `initproc`.
pub record Table : Type 0 where
  pub procs : ℕ → Proc
  pub nextpid : ℕ
  pub initproc : ℕ

abbrev pub put : (ℕ → Proc) → ℕ → Proc → ℕ → Proc
put procs i p j = if j == i then p else procs j

unfoldable pub set_proc : Table → ℕ → Proc → Table
set_proc t i p = record t { procs = put t.procs i p }

abbrev pub chan_of : Option ℕ → Chan
chan_of none = nothing
chan_of (some i) = entry i

abbrev pub is_child : Option ℕ → ℕ → Bool
is_child none i = false
is_child (some j) i = j == i

-- What `wakeup` does to one entry.
unfoldable pub wake : Chan → Proc → Proc
wake c p = if is_sleeping p.state && chan_eq p.chan c then record p { state = runnable } else p

-- The loop of `wakeup`, called by process `cur`, with the entries left and the index.
unfoldable pub wakeup_loop : ℕ → ℕ → ℕ → Chan → Table → Table
unfolding set_proc wake
wakeup_loop zero i cur c t = t
wakeup_loop (suc n) i cur c t =
    wakeup_loop n (i + 1) cur c (if i == cur then t else set_proc t i (wake c (t.procs i)))

unfoldable pub wakeup : ℕ → Chan → Table → Table
unfolding wakeup_loop
wakeup cur c t = wakeup_loop nproc 0 cur c t

-- `sleep` up to its call of `sched`, and behind it.
unfoldable pub sleep_enter : ℕ → Chan → Table → Table
unfolding set_proc
sleep_enter cur c t = set_proc t cur (record (t.procs cur) { chan = c; state = sleeping })

unfoldable pub sleep_leave : ℕ → Table → Table
unfolding set_proc
sleep_leave cur t = set_proc t cur (record (t.procs cur) { chan = nothing })

-- `yield` up to its call of `sched`.
unfoldable pub yield : ℕ → Table → Table
unfolding set_proc
yield cur t = set_proc t cur (record (t.procs cur) { state = runnable })

-- `scheduler` at one entry: whether it switches to that process, and the table.
unfoldable pub dispatch : ℕ → Table → Bool × Table
unfolding set_proc
dispatch i t =
    if is_runnable (t.procs i).state
    then (true, set_proc t i (record (t.procs i) { state = running }))
    else (false, t)

unfoldable pub mark_killed : Proc → Proc
mark_killed p = record p {
  killed = true;
  state = if is_sleeping p.state then runnable else p.state;
}

-- The loop of `kill`; the Boolean is that it returns 0, and not -1.
unfoldable pub kill_loop : ℕ → ℕ → ℕ → Table → Bool × Table
unfolding set_proc mark_killed
kill_loop zero i pid t = (false, t)
kill_loop (suc n) i pid t =
    let rest = kill_loop n (i + 1) pid t in
    if (t.procs i).pid == pid then (true, set_proc t i (mark_killed (t.procs i))) else rest

unfoldable pub kill : ℕ → Table → Bool × Table
unfolding kill_loop
kill pid t = kill_loop nproc 0 pid t

unfoldable pub setkilled : ℕ → Table → Table
unfolding set_proc
setkilled i t = set_proc t i (record (t.procs i) { killed = true })

unfoldable pub killed : ℕ → Table → Bool
killed i t = (t.procs i).killed
