-- ===== src/Spinlock/Nesting.antt =====
-- push_off and pop_off of Xv6/kernel/spinlock.c in matching pairs.
use os_project.Prelude.{
  ◌<◌, ◌≡◌, refl, ap, sym, ◌∙◌, false, Option, none, some, ◌==◌, ltb, if_false, arith, ℕ_discrete,
}
use mathlib.Core.Path.{subst}
use os_project.Spinlock.{Cpu, push_off, pop_off}

-- Calls in matching pairs, one after another and inside one another.
pub data Paired : Type 0 where
  done : Paired
  pair : (inner behind : Paired) → Paired

-- The calls on one processor; `none` is a panic.
unfoldable pub run_paired : Paired → Cpu → Option Cpu
run_paired done c = some c
run_paired (pair inner behind) c = elim (run_paired inner (push_off c)) [
  | none ↦ none
  | some d ↦ (elim (pop_off d) [ none ↦ none | some e ↦ run_paired behind e ])
]

-- Interrupts are off while a call is open.
abbrev pub IsMasked : Cpu → Type 0
IsMasked c = 0 < c.noff → c.intr ≡ false

-- The same depth and interrupts; and the same state to go back to, if a call is open.
pub record Restored (c d : Cpu) : Type 0 where
  pub noff : d.noff ≡ c.noff
  pub intr : d.intr ≡ c.intr
  pub intena : 0 < c.noff → d.intena ≡ c.intena

-- The call of pop_off that matches a push_off.
matched :
    (c d : Cpu)
    → IsMasked c
    → Restored (push_off c) d
    → (e : Cpu) × (pop_off d ≡ some e) × Restored c e
unfolding push_off pop_off
matched c d masked r =
    let n = r.noff in
    let off = r.intr in
    let back = r.intena (omega arith) in
    (
      _,
      if_false d.intr none _ off ∙ if_false (ltb d.noff 1) none _ (ground arith),
      record {
        noff = ground arith;
        intr = elim (ℕ_discrete c.noff 0) [
          | yes outer ↦ ground arith
          | no inner ↦ (let closed = masked (omega arith) in ground arith)
        ];
        intena = λ pos. back ∙ if_false (c.noff == 0) c.intr c.intena (ground arith);
      },
    )

push_off-IsMasked : (c : Cpu) → IsMasked (push_off c)
unfolding push_off
push_off-IsMasked c pos = refl

Restored-IsMasked : {c d : Cpu} → Restored c d → IsMasked c → IsMasked d
Restored-IsMasked r masked pos = r.intr ∙ masked (subst (λ n. 0 < n) r.noff pos)

Restored-trans : {c d e : Cpu} → Restored c d → Restored d e → Restored c e
Restored-trans r s = record {
  noff = s.noff ∙ r.noff;
  intr = s.intr ∙ r.intr;
  intena = λ pos. s.intena (subst (λ n. 0 < n) (sym r.noff) pos) ∙ r.intena pos;
}

-- On a processor whose interrupts are off while a call is open, calls of push_off and pop_off in
-- matching pairs do not panic, and leave the depth and the interrupts as they were.
pub run_paired-Restored :
    (p : Paired) (c : Cpu) → IsMasked c → (d : Cpu) × (run_paired p c ≡ some d) × Restored c d
unfolding run_paired
run_paired-Restored done c masked =
    (c, refl, record { noff = refl; intr = refl; intena = λ pos. refl })
run_paired-Restored (pair inner behind) c masked =
    let (d, e₁, r₁) = run_paired-Restored inner (push_off c) (push_off-IsMasked c) in
    let (e, e₂, r₂) = matched c d masked r₁ in
    let (f, e₃, r₃) = run_paired-Restored behind e (Restored-IsMasked r₂ masked) in
    (
      f,
      ap
            (λ (o : Option Cpu). elim o [
              | none ↦ none
              | some d ↦ (elim (pop_off d) [ none ↦ none | some e ↦ run_paired behind e ])
            ])
            e₁
          ∙ ap (λ (o : Option Cpu). elim o [ none ↦ none | some e ↦ run_paired behind e ]) e₂
          ∙ e₃,
      Restored-trans r₂ r₃,
    )
