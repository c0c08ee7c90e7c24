-- ===== src/Spinlock/Exclusion.antt =====
-- Several processors that use the spin locks of Xv6/kernel/spinlock.c in turn.
use os_project.Prelude.{
  ℕ, ◌≡◌, ◌≢◌, ◌⊎◌, inl, inr, refl, ap, sym, ◌∙◌, Bool, true, false, ◌||◌, Option, none, some, ◌==◌,
  if◌then◌else◌, if_true, if_false, arith, ℕ_discrete,
}
use mathlib.Core.Path.{subst}
use os_project.Spinlock.{
  Cpu, pop_off, Lock, is_cpu, acquire_enter, swap, acquire_exit, release_enter, release_exit,
}

-- What a processor is about to do: nothing with a lock, try the swap of a lock again, store itself into
-- the lock that it got, or make the lock free.
pub data Phase : Type 0 where
  idle : Phase
  spinning : ℕ → Phase
  marking : ℕ → Phase
  freeing : ℕ → Phase

pub record State : Type 0 where
  pub cpus : ℕ → Cpu
  pub phase : ℕ → Phase
  pub locks : ℕ → Lock

abbrev pub at : {A : Type 0} → (ℕ → A) → ℕ → A → ℕ → A
at f i x j = if j == i then x else f j

-- The steps of processor `i` with lock `a`.
pub data Step (s : State) : State → Type 0 where
  enters :
      (i a : ℕ) (q : Cpu)
      → s.phase i ≡ idle
      → acquire_enter i (s.cpus i) (s.locks a) ≡ some q
      → Step s (record s { cpus = at s.cpus i q; phase = at s.phase i (spinning a) })
  gets :
      (i a : ℕ)
      → s.phase i ≡ spinning a
      → (swap (s.locks a)).0 ≡ true
      → Step s
          (record s { phase = at s.phase i (marking a); locks = at s.locks a (swap (s.locks a)).1 })
  misses :
      (i a : ℕ)
      → s.phase i ≡ spinning a
      → (swap (s.locks a)).0 ≡ false
      → Step s (record s { locks = at s.locks a (swap (s.locks a)).1 })
  marks :
      (i a : ℕ)
      → s.phase i ≡ marking a
      → Step s (record s {
        phase = at s.phase i idle;
        locks = at s.locks a (acquire_exit i (s.locks a));
      })
  leaves :
      (i a : ℕ) (k : Lock)
      → s.phase i ≡ idle
      → release_enter i (s.locks a) ≡ some k
      → Step s (record s { phase = at s.phase i (freeing a); locks = at s.locks a k })
  frees :
      (i a : ℕ) (q : Cpu)
      → s.phase i ≡ freeing a
      → pop_off (s.cpus i) ≡ some q
      → Step s (record {
        cpus = at s.cpus i q;
        phase = at s.phase i idle;
        locks = at s.locks a (release_exit (s.locks a));
      })

pub data Steps (s : State) : State → Type 0 where
  stay : Steps s s
  more : (u w : State) → Steps s u → Step u w → Steps s w

-- A processor owns a lock from the swap that gets it to the store that frees it. By phase and holder:
abbrev pub is_phase : Phase → ℕ → Bool
is_phase (marking b) a = b == a
is_phase (freeing b) a = b == a
is_phase idle a = false
is_phase (spinning b) a = false

abbrev pub owner : Phase → Option ℕ → (i a : ℕ) → Bool
owner p h i a = is_phase p a || is_cpu i h

abbrev pub owns : State → ℕ → ℕ → Bool
owns s i a = owner (s.phase i) (s.locks a).cpu i a

pub record Inv (s : State) : Type 0 where
  pub locked : (i a : ℕ) → owns s i a ≡ true → (s.locks a).locked ≡ true
  pub unique : (i j a : ℕ) → owns s i a ≡ true → owns s j a ≡ true → i ≡ j
  pub freed : (i a : ℕ) → s.phase i ≡ freeing a → (s.locks a).cpu ≡ none

pub at_cases :
    {A : Type 0} (P : ℕ → A → Type 0) (f : ℕ → A) (i : ℕ) (x : A) (j : ℕ)
    → P i x
    → (j ≢ i → P j (f j))
    → P j (at f i x j)
at_cases P f i x j here there = elim (ℕ_discrete j i) [
  | yes e ↦
      subst (P j) (sym (if_true (j == i) x (f j) (ground arith))) (subst (λ k. P k x) (sym e) here)
  | no ne ↦ subst (P j) (sym (if_false (j == i) x (f j) (ground arith))) (there ne)
]

-- What a step of processor `i` to phase `p` that leaves lock `a` as `l` has to keep to.
pub record Fair (s : State) (i : ℕ) (p : Phase) (a : ℕ) (l : Lock) : Type 0 where
  pub others : (j : ℕ) → j ≢ i → owner (s.phase j) l.cpu j a ≡ true → owns s j a ≡ true
  pub elsewhere : (b : ℕ) → b ≢ a → owner p (s.locks b).cpu i b ≡ true → owns s i b ≡ true
  pub itself : owner p l.cpu i a ≡ true → (owns s i a ≡ true) ⊎ ((s.locks a).locked ≡ false)
  pub locked :
      (owner p l.cpu i a ≡ true → l.locked ≡ true)
      × ((j : ℕ) → j ≢ i → owner (s.phase j) l.cpu j a ≡ true → l.locked ≡ true)
  pub freed : (j : ℕ) → j ≢ i → s.phase j ≡ freeing a → l.cpu ≡ none
  pub frees_own : (b : ℕ) → p ≡ freeing b → (b ≡ a) × (l.cpu ≡ none)

unfoldable pub moved : State → (ℕ → Cpu) → ℕ → Phase → ℕ → Lock → State
moved s cs i p a l = record { cpus = cs; phase = at s.phase i p; locks = at s.locks a l }

module _ (s : State) (cs : ℕ → Cpu) (i : ℕ) (p : Phase) (a : ℕ) (l : Lock) (v : Inv s)
    (f : Fair s i p a l) where
  before :
      (j b : ℕ)
      → owns (moved s cs i p a l) j b ≡ true
      → (owns s j b ≡ true) ⊎ ((j ≡ i) × (b ≡ a) × ((s.locks a).locked ≡ false))
  unfolding moved
  before j b =
      at_cases
        (λ j q.
          owner q (at s.locks a l b).cpu j b ≡ true
          → (owns s j b ≡ true) ⊎ ((j ≡ i) × (b ≡ a) × ((s.locks a).locked ≡ false)))
        s.phase i p j
        (at_cases
          (λ b k.
            owner p k.cpu i b ≡ true
            → (owns s i b ≡ true) ⊎ ((i ≡ i) × (b ≡ a) × ((s.locks a).locked ≡ false)))
          s.locks a l b
          (λ o. elim (f.itself o) [ inl own ↦ inl own | inr free ↦ inr (refl, refl, free) ])
          (λ ne o. inl (f.elsewhere b ne o)))
        (λ ne.
          at_cases
            (λ b k.
              owner (s.phase j) k.cpu j b ≡ true
              → (owns s j b ≡ true) ⊎ ((j ≡ i) × (b ≡ a) × ((s.locks a).locked ≡ false)))
            s.locks a l b (λ o. inl (f.others j ne o)) (λ ne' o. inl o))

  moved_locked :
      (j b : ℕ)
      → owns (moved s cs i p a l) j b ≡ true
      → ((moved s cs i p a l).locks b).locked ≡ true
  unfolding moved
  moved_locked j b =
      at_cases (λ b k. owner (at s.phase i p j) k.cpu j b ≡ true → k.locked ≡ true) s.locks a l b
        (at_cases (λ j q. owner q l.cpu j a ≡ true → l.locked ≡ true) s.phase i p j f.locked.0
          (f.locked.1 j))
        (λ ne.
          at_cases (λ j q. owner q (s.locks b).cpu j b ≡ true → (s.locks b).locked ≡ true) s.phase i
            p j (λ o. v.locked i b (f.elsewhere b ne o)) (λ ne' o. v.locked j b o))

  pub moved-Inv : Inv (moved s cs i p a l)
  moved-Inv = record {
    locked = moved_locked;
    unique = λ j k b o o'. elim (before j b o) [
      | inl own ↦ elim (before k b o') [
        | inl own' ↦ v.unique j k b own own'
        | inr (e, here, free) ↦
            absurd
              (let locked = v.locked j a (subst (λ c. owns s j c ≡ true) here own) in ground arith)
      ]
      | inr (e, here, free) ↦ elim (before k b o') [
        | inl own' ↦
            absurd
              (let locked = v.locked k a (subst (λ c. owns s k c ≡ true) here own') in ground arith)
        | inr (e', here', free') ↦ e ∙ sym e'
      ]
    ];
    freed = λ j b.
        unfold moved in
        at_cases (λ j q. q ≡ freeing b → (at s.locks a l b).cpu ≡ none) s.phase i p j
          (λ e.
            (let (same, no_holder) = f.frees_own b e in
              subst (λ c. (at s.locks a l c).cpu ≡ none) (sym same)
                (ap (λ (k : Lock). k.cpu) (if_true (a == a) l (s.locks a) (ground arith))
                  ∙ no_holder)))
          (λ ne.
            at_cases (λ b k. s.phase j ≡ freeing b → k.cpu ≡ none) s.locks a l b (f.freed j ne)
              (λ ne' e. v.freed j b e));
  }
