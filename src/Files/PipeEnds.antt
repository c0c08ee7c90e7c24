-- ===== src/Files/PipeEnds.antt =====
-- What `pipealloc` of Xv6/kernel/pipe.c does to the table of open files.
use os_project.Prelude.{
  ℕ, ◌-◌, ◌<◌, ◌≡◌, ◌≢◌, ◌⊎◌, inl, inr, refl, ap, sym, ◌∙◌, true, false, Bool-cases, Option, none,
  some, ◌==◌, if◌then◌else◌, if_true, if_false, arith, ℕ_discrete,
}
use mathlib.Core.Path.{subst}
use os_project.Files.{
  nfile, File, Ftable, set_file, filealloc, Closing, fd_none, fd_pipe, pipe_end, close_one,
  pipealloc,
}
use os_project.Files.Scan.{filealloc_lem, fileclose_lem, closed}

abbrev claimed : File → File
claimed f = record f { ref = 1 }

set_here : (t : Ftable) (i : ℕ) (f : File) → set_file t i f i ≡ f
set_here t i f = if_true (i == i) f (t i) (ground arith)

set_there : (t : Ftable) (i j : ℕ) (f : File) → j ≢ i → set_file t i f j ≡ t j
set_there t i j f ne = if_false (j == i) f (t j) (ground arith)

-- Closing a file with one user drops that user.
close_one_lem :
    (i : ℕ) (t : Ftable) → (t i).ref ≡ 1 → close_one i t ≡ some (set_file t i (closed (t i)))
close_one_lem i t one =
    ap (λ (o : Option (Closing × Ftable)). elim o [ none ↦ none | some r ↦ some r.1 ])
      (fileclose_lem i t (subst (λ n. 0 < n) (sym one) (omega arith)))

closed_ref : (f : File) → f.ref ≡ 1 → (closed f).ref ≡ 0
closed_ref f one =
    ap (λ (g : File). g.ref)
      (if_true (f.ref == 1) (record f { ref = 0; file_type = fd_none })
        (record f { ref = f.ref - 1 }) (ground arith))

-- No count has changed.
abbrev pub SameCounts : Ftable → Ftable → Type 0
SameCounts t u = (j : ℕ) → (u j).ref ≡ (t j).ref

-- The two ends are in `f₀` and `f₁`, which nobody used; no other file has changed.
pub record Ends (page f₀ f₁ : ℕ) (t u : Ftable) : Type 0 where
  pub apart : f₀ ≢ f₁
  pub free : ((t f₀).ref ≡ 0) × ((t f₁).ref ≡ 0)
  pub reader : u f₀ ≡ record (t f₀) {
    ref = 1;
    file_type = fd_pipe;
    readable = true;
    writable = false;
    pipe = page;
  }
  pub writer : u f₁ ≡ record (t f₁) {
    ref = 1;
    file_type = fd_pipe;
    readable = false;
    writable = true;
    pipe = page;
  }
  pub others : (j : ℕ) → j ≢ f₀ → j ≢ f₁ → u j ≡ t j

-- A count that is 0, then 1, then 0 again.
undone :
    (t : Ftable) (i : ℕ)
    → (t i).ref ≡ 0
    → SameCounts t
        (set_file (set_file t i (claimed (t i))) i (closed (set_file t i (claimed (t i)) i)))
undone t i free j = elim (ℕ_discrete j i) [
  | yes same ↦
      ap
        (λ k.
          (set_file (set_file t i (claimed (t i))) i (closed (set_file t i (claimed (t i)) i))
            k).ref)
        same
      ∙ ap (λ (f : File). f.ref)
          (set_here (set_file t i (claimed (t i))) i (closed (set_file t i (claimed (t i)) i)))
      ∙ closed_ref (set_file t i (claimed (t i)) i)
          (ap (λ (f : File). f.ref) (set_here t i (claimed (t i))))
      ∙ sym free
      ∙ ap (λ k. (t k).ref) (sym same)
  | no ne ↦
      ap (λ (f : File). f.ref)
        (set_there (set_file t i (claimed (t i))) i j (closed (set_file t i (claimed (t i)) i)) ne
          ∙ set_there t i j (claimed (t i)) ne)
]

-- No two files are free.
abbrev pub Crowded : Ftable → Type 0
Crowded t = (j k : ℕ) → j < nfile → k < nfile → j ≢ k → (t j).ref ≡ 0 → 0 < (t k).ref

-- The outcomes of `pipealloc`.
abbrev pub Failed : ℕ → Ftable → Type 0
Failed page t =
    (u : Ftable) × (pipealloc page t ≡ some (none, u)) × SameCounts t u × ((page ≡ 0) ⊎ Crowded t)

abbrev pub Made : ℕ → Ftable → Type 0
Made page t =
    (f₀ : ℕ) × (f₁ : ℕ) × (u : Ftable) × (pipealloc page t ≡ some (some (f₀, f₁), u))
    × Ends page f₀ f₁ t u

-- `pipealloc` by the two files that it is given.
after_second : ℕ → ℕ → Ftable → Option (ℕ × Ftable) → Option (Option (ℕ × ℕ) × Ftable)
after_second page f₀ t₁ o = elim o [
  | none ↦ (elim (close_one f₀ t₁) [ none ↦ none | some t₂ ↦ some (none, t₂) ])
  | some s ↦
      (let (f₁, t₂) = s in
        if page == 0
        then (elim (close_one f₀ t₂) [
          | none ↦ none
          | some t₃ ↦ (elim (close_one f₁ t₃) [ none ↦ none | some t₄ ↦ some (none, t₄) ])
        ])
        else (let t₃ = set_file t₂ f₀ (pipe_end false page (t₂ f₀)) in
            some (some (f₀, f₁), set_file t₃ f₁ (pipe_end true page (t₃ f₁)))))
]

after_first : ℕ → Ftable → Option (ℕ × Ftable) → Option (Option (ℕ × ℕ) × Ftable)
after_first page t o = elim o [
  | none ↦ some (none, t)
  | some r ↦ (let (f₀, t₁) = r in after_second page f₀ t₁ (filealloc t₁))
]

pipealloc-after : (page : ℕ) (t : Ftable) → pipealloc page t ≡ after_first page t (filealloc t)
unfolding pipealloc after_first after_second
pipealloc-after page t = refl

-- With one file allocated in `f₀`, and none left.
no_second :
    (page f₀ : ℕ) (t : Ftable)
    → (t f₀).ref ≡ 0
    → (u : Ftable) × (after_second page f₀ (set_file t f₀ (claimed (t f₀))) none ≡ some (none, u))
      × SameCounts t u
unfolding after_second
no_second page f₀ t free =
    let t₁ = set_file t f₀ (claimed (t f₀)) in
    (
      set_file t₁ f₀ (closed (t₁ f₀)),
      ap (λ (o : Option Ftable). elim o [ none ↦ none | some t₂ ↦ some (none, t₂) ])
          (close_one_lem f₀ t₁ (ap (λ (f : File). f.ref) (set_here t f₀ (claimed (t f₀))))),
      undone t f₀ free,
    )

module _ (t : Ftable) (f₀ f₁ : ℕ) (ne : f₁ ≢ f₀) where
  one : Ftable
  one = set_file t f₀ (claimed (t f₀))

  both : Ftable
  both = set_file one f₁ (claimed (one f₁))

  both_first : both f₀ ≡ claimed (t f₀)
  unfolding both one
  both_first =
      set_there (set_file t f₀ (claimed (t f₀))) f₁ f₀ _ (λ e. ne (sym e))
      ∙ set_here t f₀ (claimed (t f₀))

  both_second : both f₁ ≡ claimed (t f₁)
  unfolding both one
  both_second =
      set_here (set_file t f₀ (claimed (t f₀))) f₁ _
      ∙ ap claimed (set_there t f₀ f₁ (claimed (t f₀)) ne)

  both_other : (j : ℕ) → j ≢ f₀ → j ≢ f₁ → both j ≡ t j
  unfolding both one
  both_other j ne₀ ne₁ =
      set_there (set_file t f₀ (claimed (t f₀))) f₁ j _ ne₁ ∙ set_there t f₀ j (claimed (t f₀)) ne₀

  -- Two more assignments to the same two files.
  rewritten :
      (g₀ g₁ : File) (j : ℕ)
      → ((j ≡ f₀) × (set_file (set_file both f₀ g₀) f₁ g₁ j ≡ g₀))
        ⊎ ((j ≡ f₁) × (set_file (set_file both f₀ g₀) f₁ g₁ j ≡ g₁))
        ⊎ ((j ≢ f₀) × (j ≢ f₁) × (set_file (set_file both f₀ g₀) f₁ g₁ j ≡ t j))
  rewritten g₀ g₁ j = elim (ℕ_discrete j f₁) [
    | yes e ↦ inr (
        inl (e, ap (set_file (set_file both f₀ g₀) f₁ g₁) e ∙ set_here (set_file both f₀ g₀) f₁ g₁))
    | no ne₁ ↦ elim (ℕ_discrete j f₀) [
      | yes e ↦ inl (
        e,
        set_there (set_file both f₀ g₀) f₁ j g₁ ne₁
            ∙ ap (set_file both f₀ g₀) e
            ∙ set_here both f₀ g₀,
      )
      | no ne₀ ↦ inr (
          inr (
            ne₀,
            ne₁,
            set_there (set_file both f₀ g₀) f₁ j g₁ ne₁
                ∙ set_there both f₀ j g₀ ne₀
                ∙ both_other j ne₀ ne₁,
          ))
    ]
  ]

  no_page :
      (page : ℕ)
      → (page == 0) ≡ true
      → (t f₀).ref ≡ 0
      → (t f₁).ref ≡ 0
      → (u : Ftable) × (after_second page f₀ one (some (f₁, both)) ≡ some (none, u))
        × SameCounts t u
  unfolding after_second
  no_page page zero_page free₀ free₁ =
      let g₀ = closed (both f₀) in
      let t₃ = set_file both f₀ g₀ in
      let g₁ = closed (t₃ f₁) in
      let one₀ : (both f₀).ref ≡ 1 = ap (λ (f : File). f.ref) both_first in
      let one₁ : (t₃ f₁).ref ≡ 1 =
        ap (λ (f : File). f.ref) (set_there both f₀ f₁ g₀ ne ∙ both_second) in
      (
        set_file t₃ f₁ g₁,
        if_true (page == 0) _ _ zero_page
            ∙ ap
                (λ (o : Option Ftable). elim o [
                  | none ↦ none
                  | some t₃ ↦ (elim (close_one f₁ t₃) [ none ↦ none | some t₄ ↦ some (none, t₄) ])
                ])
                (close_one_lem f₀ both one₀)
            ∙ ap (λ (o : Option Ftable). elim o [ none ↦ none | some t₄ ↦ some (none, t₄) ])
                (close_one_lem f₁ t₃ one₁),
        λ j. elim (rewritten g₀ g₁ j) [
          | inl (e, f) ↦
              ap (λ (f : File). f.ref) f
              ∙ closed_ref (both f₀) one₀
              ∙ sym free₀
              ∙ ap (λ k. (t k).ref) (sym e)
          | inr (inl (e, f)) ↦
              ap (λ (f : File). f.ref) f
              ∙ closed_ref (t₃ f₁) one₁
              ∙ sym free₁
              ∙ ap (λ k. (t k).ref) (sym e)
          | inr (inr (ne₀, ne₁, f)) ↦ ap (λ (f : File). f.ref) f
        ],
      )

  with_page :
      (page : ℕ)
      → (page == 0) ≡ false
      → (t f₀).ref ≡ 0
      → (t f₁).ref ≡ 0
      → (u : Ftable) × (after_second page f₀ one (some (f₁, both)) ≡ some (some (f₀, f₁), u))
        × Ends page f₀ f₁ t u
  unfolding after_second
  with_page page some_page free₀ free₁ =
      let g₀ = pipe_end false page (both f₀) in
      let t₃ = set_file both f₀ g₀ in
      let g₁ = pipe_end true page (t₃ f₁) in
      (
        set_file t₃ f₁ g₁,
        if_false (page == 0) _ _ some_page,
        record {
          apart = λ e. ne (sym e);
          free = (free₀, free₁);
          reader =
              set_there t₃ f₁ f₀ g₁ (λ e. ne (sym e))
              ∙ set_here both f₀ g₀
              ∙ ap (pipe_end false page) both_first;
          writer =
              set_here t₃ f₁ g₁
              ∙ ap (pipe_end true page) (set_there both f₀ f₁ g₀ ne ∙ both_second);
          others = λ j ne₀ ne₁.
              set_there t₃ f₁ j g₁ ne₁ ∙ set_there both f₀ j g₀ ne₀ ∙ both_other j ne₀ ne₁;
        },
      )

first_taken :
    (page f₀ : ℕ) (t t₁ : Ftable)
    → filealloc t ≡ some (f₀, t₁)
    → pipealloc page t ≡ after_second page f₀ t₁ (filealloc t₁)
first_taken page f₀ t t₁ e =
    pipealloc-after page t ∙ ap (after_first page t) e ∙ unfold after_first in refl

-- With two files free.
two_free :
    (page f₀ f₁ : ℕ) (t : Ftable)
    → f₁ ≢ f₀
    → (t f₀).ref ≡ 0
    → (t f₁).ref ≡ 0
    → pipealloc page t
      ≡ after_second page f₀ (set_file t f₀ (claimed (t f₀))) (
          some (
            f₁,
            set_file
                (set_file t f₀ (claimed (t f₀)))
                f₁
                (claimed (set_file t f₀ (claimed (t f₀)) f₁)),
          ))
    → Failed page t ⊎ (page ≢ 0) × Made page t
unfolding one both
two_free page f₀ f₁ t ne free₀ free₁ e = elim (Bool-cases (page == 0)) [
  | inl zero_page ↦
      (let (u, f, same) = no_page t f₀ f₁ ne page zero_page free₀ free₁ in
        inl (u, e ∙ f, same, inl (ground arith)))
  | inr some_page ↦
      (let (u, f, ends) = with_page t f₀ f₁ ne page some_page free₀ free₁ in
        inr ((λ z. (let wrong = z in ground arith)), (f₀, f₁, u, e ∙ f, ends)))
]

-- `pipealloc` does not panic. If it fails, there is no page or no two files are free, and each file has
-- as many users as before. Else it returns two files that nobody used, each of the pipe in the page and
-- with one user, the first only for reading and the second only for writing, and changes no other file.
pub pipealloc_lem : (page : ℕ) (t : Ftable) → Failed page t ⊎ (page ≢ 0) × Made page t
pipealloc_lem page t = elim (filealloc_lem t) [
  | inl (e, full) ↦ inl (
    t,
    pipealloc-after page t ∙ ap (after_first page t) e ∙ unfold after_first in refl,
    λ j. refl,
    inr (λ j k lt lt' ne free. full k lt'),
  )
  | inr (f₀, lt₀, free₀, e₀) ↦
      (let t₁ = set_file t f₀ (claimed (t f₀)) in
        elim (filealloc_lem t₁) [
          | inl (e₁, full) ↦
              (let (u, f, same) = no_second page f₀ t free₀ in
                inl (
                  u,
                  first_taken page f₀ t t₁ e₀ ∙ ap (after_second page f₀ t₁) e₁ ∙ f,
                  same,
                  inr (crowded f₀ full),
                ))
          | inr (f₁, lt₁, free₁, e₁) ↦
              two_free page f₀ f₁ t (other f₀ f₁ free₁) free₀
                (ap (λ (f : File). f.ref)
                    (sym (set_there t f₀ f₁ (claimed (t f₀)) (other f₀ f₁ free₁)))
                  ∙ free₁)
                (first_taken page f₀ t t₁ e₀ ∙ ap (after_second page f₀ t₁) e₁)
        ])
]
  where
    crowded :
        (f₀ : ℕ) → ((j : ℕ) → j < nfile → 0 < (set_file t f₀ (claimed (t f₀)) j).ref) → Crowded t
    crowded f₀ full j k lt lt' ne free = elim (ℕ_discrete k f₀) [
      | yes same ↦ absurd (
          let used =
            subst (λ (f : File). 0 < f.ref)
              (set_there t f₀ j (claimed (t f₀)) (λ e. ne (e ∙ sym same))) (full j lt) in
          ground arith)
      | no other ↦
          subst (λ (f : File). 0 < f.ref) (set_there t f₀ k (claimed (t f₀)) other) (full k lt')
    ]

    other : (f₀ f₁ : ℕ) → (set_file t f₀ (claimed (t f₀)) f₁).ref ≡ 0 → f₁ ≢ f₀
    other f₀ f₁ free same =
        let used =
          ap (λ k. (set_file t f₀ (claimed (t f₀)) k).ref) same
          ∙ ap (λ (f : File). f.ref) (set_here t f₀ (claimed (t f₀))) in
        ground arith
