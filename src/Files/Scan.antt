-- ===== src/Files/Scan.antt =====
-- What `filealloc`, `filedup` and `fileclose` of Xv6/kernel/file.c return.
use os_project.Prelude.{
  ℕ, zero, suc, ◌+◌, ◌-◌, ◌<◌, ◌≡◌, ◌⊎◌, inl, inr, refl, ap, sym, ◌∙◌, ap₂, true, Bool-cases,
  Option, none, some, ◌==◌, ltb, if◌then◌else◌, if_true, if_false, arith, ℕ_discrete,
}
use mathlib.Core.Path.{subst}
use os_project.Memory.{in_range}
use os_project.Files.{
  nfile, File, Ftable, set_file, find_file, filealloc, filedup, fileclose, nothing, closing,
  fd_none,
}

find_file_lem :
    (n i : ℕ) (t : Ftable)
    → (find_file n i t ≡ none) × ((j : ℕ) → in_range i n j ≡ true → 0 < (t j).ref)
      ⊎ ((k : ℕ) × (in_range i n k ≡ true) × ((t k).ref ≡ 0) × (find_file n i t ≡ some k))
unfolding find_file
find_file_lem zero i t = inl (refl, λ j inside. absurd (ground arith))
find_file_lem (suc n) i t = elim (Bool-cases ((t i).ref == 0)) [
  | inl hit ↦ inr (i, ground arith, ground arith, if_true ((t i).ref == 0) (some i) _ hit)
  | inr miss ↦ elim (find_file_lem n (i + 1) t) [
    | inl (e, used) ↦ inl (
      if_false ((t i).ref == 0) (some i) _ miss ∙ e,
      λ j inside. elim (ℕ_discrete j i) [
        | yes same ↦ subst (λ k. 0 < (t k).ref) (sym same) (ground arith)
        | no ne ↦ used j (ground arith)
      ],
    )
    | inr (k, inside, free, e) ↦
        inr (k, ground arith, free, if_false ((t i).ref == 0) (some i) _ miss ∙ e)
  ]
]

pub filealloc_lem :
    (t : Ftable)
    → (filealloc t ≡ none) × ((j : ℕ) → j < nfile → 0 < (t j).ref)
      ⊎ ((k : ℕ) × (k < nfile)
          × ((t k).ref ≡ 0)
          × (filealloc t ≡ some (k, set_file t k (record (t k) { ref = 1 }))))
unfolding filealloc
filealloc_lem t = elim (find_file_lem nfile 0 t) [
  | inl (e, used) ↦ inl (ap result e, λ j lt. used j (ground arith))
  | inr (k, inside, free, e) ↦ inr (k, ground arith, free, ap result e)
]
  where
    result : Option ℕ → Option (ℕ × Ftable)
    result o = elim o [ none ↦ none | some i ↦ some (i, set_file t i (record (t i) { ref = 1 })) ]

pub filedup_lem :
    (i : ℕ) (t : Ftable)
    → 0 < (t i).ref
    → filedup i t ≡ some (set_file t i (record (t i) { ref = (t i).ref + 1 }))
unfolding filedup
filedup_lem i t pos = if_false (ltb (t i).ref 1) none _ (ground arith)

-- The entry behind `fileclose`.
abbrev pub closed : File → File
closed f =
    if f.ref == 1 then record f { ref = 0; file_type = fd_none } else record f { ref = f.ref - 1 }

pub fileclose_lem :
    (i : ℕ) (t : Ftable)
    → 0 < (t i).ref
    → fileclose i t
      ≡ some ((if (t i).ref == 1 then closing (t i) else nothing), set_file t i (closed (t i)))
unfolding fileclose
fileclose_lem i t pos =
    if_false (ltb (t i).ref 1) none _ (ground arith) ∙ (elim (Bool-cases ((t i).ref == 1)) [
      | inl last ↦
          if_false (ltb 0 ((t i).ref - 1)) _ _ (ground arith)
          ∙ sym (
              ap₂ (λ c f. some (c, set_file t i f))
                (if_true ((t i).ref == 1) (closing (t i)) nothing last)
                (if_true ((t i).ref == 1) (record (t i) { ref = 0; file_type = fd_none })
                  (record (t i) { ref = (t i).ref - 1 }) last))
      | inr shared ↦
          if_true (ltb 0 ((t i).ref - 1)) _ _ (ground arith)
          ∙ sym (
              ap₂ (λ c f. some (c, set_file t i f))
                (if_false ((t i).ref == 1) (closing (t i)) nothing shared)
                (if_false ((t i).ref == 1) (record (t i) { ref = 0; file_type = fd_none })
                  (record (t i) { ref = (t i).ref - 1 }) shared))
    ])
