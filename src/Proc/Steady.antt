-- ===== src/Proc/Steady.antt =====
-- The functions of Xv6/kernel/proc.c that end and begin no process keep the invariant.
use os_project.Prelude.{
  ℕ, ◌≡◌, inl, inr, refl, sym, Bool, true, false, ◌&&◌, Bool-cases, if◌then◌else◌, arith, if_true,
  if_false,
}
use mathlib.Core.Path.{subst}
use os_project.Proc.Table.{
  Proc, Table, ProcState, unused, used, sleeping, running, runnable, zombie, Chan, nothing, other,
  is_unused, is_zombie, is_running, is_sleeping, is_runnable, wakeup, kill, mark_killed, setkilled,
  yield, dispatch, sleep_enter, sleep_leave,
}
use os_project.Proc.Loops.{wakeup_lem}
use os_project.Proc.Scans.{kill_lem}
use os_project.Proc.Effects.{Kept, is_waiting-Kept, is_unused-Kept, is_zombie-Kept, wakeup-Kept}
use os_project.Proc.Inv.{Inv, Calm, Calm-Inv, set_proc-Inv}

Kept-Calm : {p q : Proc} (k : ℕ) → Kept p q → q.parent ≡ p.parent → Calm k p q
Kept-Calm {p} {q} k h e = record {
  pid = h.pid;
  parent = e;
  used = is_unused-Kept h;
  waits = is_waiting-Kept k h;
  zombie = is_zombie-Kept h;
}

pub wakeup-Inv : (cur : ℕ) (c : Chan) (t : Table) → Inv t → Inv (wakeup cur c t)
wakeup-Inv cur c t v =
    Calm-Inv t (wakeup cur c t) (wakeup_lem cur c t).0
      (λ j. let k = wakeup-Kept cur c t j in Kept-Calm j k.0 k.1) v

mark_killed-Calm : (k : ℕ) (p : Proc) → Calm k p (mark_killed p)
unfolding mark_killed
mark_killed-Calm k p = record {
  pid = refl;
  parent = refl;
  used = same_test p.state;
  waits = λ h. absurd (not_asleep p.state _ h);
  zombie = alive p.state;
}
  where
    same_test : (s : ProcState) → is_unused (if is_sleeping s then runnable else s) ≡ is_unused s
    same_test unused = refl
    same_test used = refl
    same_test sleeping = refl
    same_test runnable = refl
    same_test running = refl
    same_test zombie = refl

    not_asleep :
        (s : ProcState) (b : Bool)
        → (is_sleeping (if is_sleeping s then runnable else s) && b) ≡ true
        → ⊥
    not_asleep unused b e = ground arith
    not_asleep used b e = ground arith
    not_asleep sleeping b e = ground arith
    not_asleep runnable b e = ground arith
    not_asleep running b e = ground arith
    not_asleep zombie b e = ground arith

    alive :
        (s : ProcState)
        → is_zombie s ≡ false
        → is_zombie (if is_sleeping s then runnable else s) ≡ false
    alive unused e = refl
    alive used e = refl
    alive sleeping e = refl
    alive runnable e = refl
    alive running e = refl
    alive zombie e = e

pub kill-Inv : (pid : ℕ) (t : Table) → Inv t → Inv (kill pid t).1
kill-Inv pid t v = elim (kill_lem pid t) [
  | inl (e, nowhere) ↦ subst (λ r. Inv r.1) (sym e) v
  | inr (k, lt, at, e) ↦
      subst (λ r. Inv r.1) (sym e)
        (set_proc-Inv t k (mark_killed (t.procs k)) (mark_killed-Calm k (t.procs k)) v)
]

pub setkilled-Inv : (i : ℕ) (t : Table) → Inv t → Inv (setkilled i t)
unfolding setkilled
setkilled-Inv i t v =
    set_proc-Inv t i (record (t.procs i) { killed = true })
      (record { pid = refl; parent = refl; used = refl; waits = λ h. h; zombie = λ h. h }) v

pub is_running_lem : (s : ProcState) → is_running s ≡ true → is_unused s ≡ false
is_running_lem unused e = absurd (ground arith)
is_running_lem used e = refl
is_running_lem sleeping e = refl
is_running_lem runnable e = refl
is_running_lem running e = refl
is_running_lem zombie e = refl

is_runnable_lem : (s : ProcState) → is_runnable s ≡ true → is_unused s ≡ false
is_runnable_lem unused e = absurd (ground arith)
is_runnable_lem used e = refl
is_runnable_lem sleeping e = refl
is_runnable_lem runnable e = refl
is_runnable_lem running e = refl
is_runnable_lem zombie e = refl

pub yield-Inv :
    (cur : ℕ) (t : Table) → is_running (t.procs cur).state ≡ true → Inv t → Inv (yield cur t)
unfolding yield
yield-Inv cur t runs v =
    set_proc-Inv t cur (record (t.procs cur) { state = runnable })
      (record {
        pid = refl;
        parent = refl;
        used = sym (is_running_lem (t.procs cur).state runs);
        waits = λ h. absurd (ground arith);
        zombie = λ h. refl;
      })
      v

pub dispatch-Inv : (i : ℕ) (t : Table) → Inv t → Inv (dispatch i t).1
unfolding dispatch
dispatch-Inv i t v = elim (Bool-cases (is_runnable (t.procs i).state)) [
  | inl ready ↦
      subst (λ (r : Bool × Table). Inv r.1)
        (sym (if_true (is_runnable (t.procs i).state) _ _ ready))
        (set_proc-Inv t i (record (t.procs i) { state = running })
          (record {
            pid = refl;
            parent = refl;
            used = sym (is_runnable_lem (t.procs i).state ready);
            waits = λ h. absurd (ground arith);
            zombie = λ h. refl;
          })
          v)
  | inr idle ↦
      subst (λ (r : Bool × Table). Inv r.1)
        (sym (if_false (is_runnable (t.procs i).state) _ _ idle)) v
]

pub sleep_enter-Inv :
    (cur a : ℕ) (t : Table)
    → is_running (t.procs cur).state ≡ true
    → Inv t
    → Inv (sleep_enter cur (other a) t)
unfolding sleep_enter
sleep_enter-Inv cur a t runs v =
    set_proc-Inv t cur (record (t.procs cur) { chan = other a; state = sleeping })
      (record {
        pid = refl;
        parent = refl;
        used = sym (is_running_lem (t.procs cur).state runs);
        waits = λ h. absurd (ground arith);
        zombie = λ h. refl;
      })
      v

pub sleep_leave-Inv :
    (cur : ℕ) (t : Table) → is_running (t.procs cur).state ≡ true → Inv t → Inv (sleep_leave cur t)
unfolding sleep_leave
sleep_leave-Inv cur t runs v =
    set_proc-Inv t cur (record (t.procs cur) { chan = nothing })
      (record {
        pid = refl;
        parent = refl;
        used = refl;
        waits = λ h. absurd (ground arith);
        zombie = λ h. h;
      })
      v
