-- ===== src/Inodes/Paths.antt =====
-- skipelem of Xv6/kernel/fs.c. A path is its characters up to the NUL, and a name in a directory is
-- its characters up to the NUL or to the end of the DIRSIZ bytes.
use os_project.Prelude.{
  ℕ, zero, suc, true, false, ◌==◌, Option, none, some, List, [], ◌∷◌, ◌++◌, take, Bool-cases, ◌≡◌,
  refl, sym, ap, ◌∙◌, inl, inr, arith,
}

abbrev pub dirsiz : ℕ
dirsiz = 14

-- The character '/'.
abbrev pub slash : ℕ
slash = 47

-- `while(*path == '/') path++`
unfoldable pub skip_slashes : List ℕ → List ℕ
skip_slashes [] = []
skip_slashes (c ∷ path) = elim (c == slash) [ true ↦ skip_slashes path | false ↦ c ∷ path ]

-- `while(*path != '/' && *path != 0) path++`: what it goes over, and what is left.
unfoldable pub first_elem : List ℕ → List ℕ × List ℕ
first_elem [] = ([], [])
first_elem (c ∷ path) = elim (c == slash) [
  | true ↦ ([], c ∷ path)
  | false ↦ (c ∷ (first_elem path).0, (first_elem path).1)
]

-- The name and what is left of the path; `none` is the return of 0.
unfoldable pub skipelem : List ℕ → Option (List ℕ × List ℕ)
unfolding skip_slashes first_elem
skipelem path = elim (skip_slashes path) [
  | [] ↦ none
  | c ∷ rest ↦ some (take dirsiz (first_elem (c ∷ rest)).0, skip_slashes (first_elem (c ∷ rest)).1)
]

-- The names that the calls of skipelem on a path and on what each leaves return, up to the 0.
pub data Walk : List ℕ → List (List ℕ) → Type 0 where
  done : {path : List ℕ} → skipelem path ≡ none → Walk path []
  step :
      {path name rest : List ℕ} {names : List (List ℕ)}
      → skipelem path ≡ some (name, rest)
      → Walk rest names
      → Walk path (name ∷ names)

-- `n` slashes in front.
abbrev pub slashes : ℕ → List ℕ → List ℕ
slashes zero path = path
slashes (suc n) path = slash ∷ slashes n path

-- An element is not empty and has no slash.
pub data NoSlash : List ℕ → Type 0 where
  empty : NoSlash []
  more : {c : ℕ} {cs : List ℕ} → (c == slash) ≡ false → NoSlash cs → NoSlash (c ∷ cs)

-- Elements with one slash and `n` more in front of each, and `last` slashes at the end.
abbrev pub join : List (ℕ × List ℕ) → ℕ → List ℕ
join [] last = slashes last []
join ((n, e) ∷ parts) last = slash ∷ slashes n (e ++ join parts last)

pub data Elements : List (ℕ × List ℕ) → Type 0 where
  no_part : Elements []
  part :
      {n c : ℕ} {cs : List ℕ} {parts : List (ℕ × List ℕ)}
      → NoSlash (c ∷ cs)
      → Elements parts
      → Elements ((n, c ∷ cs) ∷ parts)

-- Each cut to DIRSIZ characters.
abbrev pub cut_names : List (ℕ × List ℕ) → List (List ℕ)
cut_names [] = []
cut_names ((n, e) ∷ parts) = take dirsiz e ∷ cut_names parts

skip-slashes : (n : ℕ) (path : List ℕ) → skip_slashes (slashes n path) ≡ skip_slashes path
unfolding skip_slashes
skip-slashes zero path = refl
skip-slashes (suc n) path = skip-slashes n path

skip_none : (c : ℕ) (cs : List ℕ) → (c == slash) ≡ false → skip_slashes (c ∷ cs) ≡ c ∷ cs
unfolding skip_slashes
skip_none c cs e = ground arith

first_here :
    (c : ℕ) (path : List ℕ)
    → (c == slash) ≡ false
    → first_elem (c ∷ path) ≡ (c ∷ (first_elem path).0, (first_elem path).1)
unfolding first_elem
first_here c path e = ground arith

-- What follows an element is empty or begins with a slash.
data Ended : List ℕ → Type 0 where
  at_end : Ended []
  at_slash : (rest : List ℕ) → Ended (slash ∷ rest)

first_elem-here : (path : List ℕ) → Ended path → first_elem path ≡ ([], path)
unfolding first_elem
first_elem-here path at_end = refl
first_elem-here path (at_slash rest) = refl

first_elem-append : (e rest : List ℕ) → NoSlash e → Ended rest → first_elem (e ++ rest) ≡ (e, rest)
first_elem-append [] rest ok end = first_elem-here rest end
first_elem-append (c ∷ cs) rest (more other ok) end =
    first_here c (cs ++ rest) other ∙ ap (λ r. (c ∷ r.0, r.1)) (first_elem-append cs rest ok end)

join-Ended : (parts : List (ℕ × List ℕ)) (last : ℕ) → Ended (join parts last)
join-Ended [] zero = at_end
join-Ended [] (suc last) = at_slash (slashes last [])
join-Ended ((n, e) ∷ parts) last = at_slash (slashes n (e ++ join parts last))

-- What skipelem does behind the leading slashes.
abbrev name_of : List ℕ → Option (List ℕ × List ℕ)
name_of [] = none
name_of (c ∷ rest) =
    some (take dirsiz (first_elem (c ∷ rest)).0, skip_slashes (first_elem (c ∷ rest)).1)

skipelem-name : (path ahead : List ℕ) → skip_slashes path ≡ ahead → skipelem path ≡ name_of ahead
unfolding skipelem
skipelem-name path ahead e = ap name_of e

skip_here :
    (c : ℕ) (path : List ℕ) → (c == slash) ≡ true → skip_slashes (c ∷ path) ≡ skip_slashes path
unfolding skip_slashes
skip_here c path e = ground arith

skip_twice : (path : List ℕ) → skip_slashes (skip_slashes path) ≡ skip_slashes path
skip_twice [] = unfold skip_slashes in refl
skip_twice (c ∷ path) = elim (Bool-cases (c == slash)) [
  | inl e ↦ ap skip_slashes (skip_here c path e) ∙ skip_twice path ∙ sym (skip_here c path e)
  | inr e ↦ ap skip_slashes (skip_none c path e)
]

walk_lem :
    (parts : List (ℕ × List ℕ)) (last : ℕ) (path : List ℕ)
    → Elements parts
    → skip_slashes path ≡ skip_slashes (join parts last)
    → Walk path (cut_names parts)
walk_lem [] last path ok e =
    done (skipelem-name path [] (e ∙ skip-slashes last [] ∙ unfold skip_slashes in refl))
walk_lem ((n, []) ∷ parts) last path ok e = elim ok [ ]
walk_lem ((n, c ∷ cs) ∷ parts) last path (part (more other ok) rest) e =
    let ahead : skip_slashes path ≡ c ∷ (cs ++ join parts last) =
      e
      ∙ skip-slashes (suc n) (c ∷ (cs ++ join parts last))
      ∙ skip_none c (cs ++ join parts last) other in
    step
      (skipelem-name path (c ∷ (cs ++ join parts last)) ahead
        ∙ ap (λ r. some (take dirsiz r.0, skip_slashes r.1))
            (first_elem-append (c ∷ cs) (join parts last) (more other ok) (join-Ended parts last)))
      (walk_lem parts last (skip_slashes (join parts last)) rest (skip_twice (join parts last)))

-- Calls of skipelem take a path apart: on nonempty elements without a slash, joined by any positive
-- numbers of slashes and with any number of slashes behind, with or without slashes in front, they
-- return the elements in order, each cut to DIRSIZ characters, and then 0.
pub skipelem-join :
    (parts : List (ℕ × List ℕ)) (last : ℕ)
    → Elements parts
    → Walk (join parts last) (cut_names parts)
      × Walk (skip_slashes (join parts last)) (cut_names parts)
skipelem-join parts last ok = (
  walk_lem parts last (join parts last) ok refl,
  walk_lem parts last (skip_slashes (join parts last)) ok (skip_twice (join parts last)),
)
