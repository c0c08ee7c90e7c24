-- ===== src/Files/Holders.antt =====
-- The reference counts of Xv6/kernel/file.c and those who hold a file.
use os_project.Prelude.{
  ℕ, ◌+◌, ◌-◌, ◌<◌, ◌≡◌, ◌≢◌, inl, inr, refl, ap, sym, ◌∙◌, false, Bool-cases, Option, none, some,
  ◌==◌, if◌then◌else◌, if_true, if_false, arith, ℕ_discrete,
}
use mathlib.Core.Path.{subst}
use os_project.Files.{
  nfile, File, Ftable, set_file, filealloc, filedup, fileclose, Closing, nothing, close_pipe,
  put_inode, closing, FileType, fd_none, fd_pipe, fd_inode, fd_device,
}
use os_project.Files.Scan.{filealloc_lem, filedup_lem, fileclose_lem, closed}

-- The table, and by how many descriptors and other pointers each file is held.
pub record State : Type 0 where
  pub files : Ftable
  pub held : ℕ → ℕ

abbrev pub set_count : (ℕ → ℕ) → ℕ → ℕ → ℕ → ℕ
set_count held i n j = if j == i then n else held j

-- A file is allocated, or it is duplicated, changed but for its count, or closed by who holds it.
pub data Step (s : State) : State → Type 0 where
  allocates :
      (i : ℕ) (t : Ftable)
      → filealloc s.files ≡ some (i, t)
      → Step s (record { files = t; held = set_count s.held i (s.held i + 1) })
  duplicates :
      (i : ℕ) (t : Ftable)
      → 0 < s.held i
      → filedup i s.files ≡ some t
      → Step s (record { files = t; held = set_count s.held i (s.held i + 1) })
  changes :
      (i : ℕ) (f : File)
      → f.ref ≡ (s.files i).ref
      → Step s (record s { files = set_file s.files i f })
  closes :
      (i : ℕ) (c : Closing) (t : Ftable)
      → 0 < s.held i
      → fileclose i s.files ≡ some (c, t)
      → Step s (record { files = t; held = set_count s.held i (s.held i - 1) })

pub data Steps (s : State) : State → Type 0 where
  stay : Steps s s
  more : (u w : State) → Steps s u → Step u w → Steps s w

-- The table before the first call: zero.
abbrev pub no_files : State
no_files = record {
  files = λ i. record {
    file_type = fd_none;
    ref = 0;
    readable = false;
    writable = false;
    pipe = 0;
    ip = 0;
    off = 0;
    major = 0;
  };
  held = λ i. 0;
}

abbrev Counted : State → Type 0
Counted s = (i : ℕ) → (s.files i).ref ≡ s.held i

some_inj : {A : Type 0} {x y : A} → some x ≡ some y → x ≡ y
some_inj {A} {x} {y} e = ap (λ (o : Option A). elim o [ none ↦ x | some z ↦ z ]) e

set_file-ref :
    (t : Ftable) (i : ℕ) (f : File) (held : ℕ → ℕ) (n : ℕ)
    → f.ref ≡ n
    → ((j : ℕ) → (t j).ref ≡ held j)
    → (j : ℕ) → (set_file t i f j).ref ≡ set_count held i n j
set_file-ref t i f held n e counted j = elim (ℕ_discrete j i) [
  | yes same ↦
      ap (λ (g : File). g.ref) (if_true (j == i) f (t j) (ground arith))
      ∙ e
      ∙ sym (if_true (j == i) n (held j) (ground arith))
  | no ne ↦
      ap (λ (g : File). g.ref) (if_false (j == i) f (t j) (ground arith))
      ∙ counted j
      ∙ sym (if_false (j == i) n (held j) (ground arith))
]

closed-ref : (f : File) → 0 < f.ref → (closed f).ref ≡ f.ref - 1
closed-ref f pos = elim (Bool-cases (f.ref == 1)) [
  | inl last ↦
      ap (λ (g : File). g.ref)
        (if_true (f.ref == 1) (record f { ref = 0; file_type = fd_none })
          (record f { ref = f.ref - 1 }) last)
      ∙ ground arith
  | inr shared ↦
      ap (λ (g : File). g.ref)
        (if_false (f.ref == 1) (record f { ref = 0; file_type = fd_none })
          (record f { ref = f.ref - 1 }) shared)
]

Step-Counted : (s u : State) → Step s u → Counted s → Counted u
Step-Counted s _ (allocates i t e) c = elim (filealloc_lem s.files) [
  | inl (f, full) ↦ λ j. absurd (let wrong = sym f ∙ e in ground arith)
  | inr (k, lt, free, f) ↦
      (let same = some_inj (sym f ∙ e) in
        subst (λ (r : ℕ × Ftable). (j : ℕ) → (r.1 j).ref ≡ set_count s.held r.0 (s.held r.0 + 1) j)
          same
          (set_file-ref s.files k (record (s.files k) { ref = 1 }) s.held (s.held k + 1)
            (let none_yet = sym (c k) ∙ free in ground arith) c))
]
Step-Counted s _ (duplicates i t pos e) c =
    let same = some_inj (sym (filedup_lem i s.files (subst (λ n. 0 < n) (sym (c i)) pos)) ∙ e) in
    subst (λ (t : Ftable). (j : ℕ) → (t j).ref ≡ set_count s.held i (s.held i + 1) j) same
      (set_file-ref s.files i (record (s.files i) { ref = (s.files i).ref + 1 }) s.held
        (s.held i + 1) (ap (λ n. n + 1) (c i)) c)
Step-Counted s _ (changes i f e) c =
    λ j. set_file-ref s.files i f s.held (s.held i) (e ∙ c i) c j ∙ unchanged j
  where
    unchanged : (j : ℕ) → set_count s.held i (s.held i) j ≡ s.held j
    unchanged j = elim (ℕ_discrete j i) [
      | yes same ↦ if_true (j == i) (s.held i) (s.held j) (ground arith) ∙ ap s.held (sym same)
      | no ne ↦ if_false (j == i) (s.held i) (s.held j) (ground arith)
    ]
Step-Counted s _ (closes i k t pos e) c =
    let held_ref = subst (λ n. 0 < n) (sym (c i)) pos in
    let same = some_inj (sym (fileclose_lem i s.files held_ref) ∙ e) in
    subst (λ (r : Closing × Ftable). (j : ℕ) → (r.1 j).ref ≡ set_count s.held i (s.held i - 1) j)
      same
      (set_file-ref s.files i (closed (s.files i)) s.held (s.held i - 1)
        (closed-ref (s.files i) held_ref ∙ ap (λ n. n - 1) (c i)) c)

Steps-Counted : (s u : State) → Steps s u → Counted s → Counted u
Steps-Counted s _ stay c = c
Steps-Counted s u (more w _ before step) c = Step-Counted w u step (Steps-Counted s w before c)

-- What the last close of a file is to do: close this end of its pipe, or release its inode.
pub data Acts (f : File) : Closing → Type 0 where
  on_pipe : f.file_type ≡ fd_pipe → Acts f (close_pipe f.pipe f.writable)
  on_inode : f.file_type ≡ fd_inode → Acts f (put_inode f.ip)
  on_device : f.file_type ≡ fd_device → Acts f (put_inode f.ip)
  on_none : f.file_type ≡ fd_none → Acts f nothing

closing-Acts : (f : File) → Acts f (closing f)
closing-Acts f = by_type f.file_type refl
  where
    by_type : (k : FileType) → f.file_type ≡ k → Acts f (closing f)
    by_type fd_none e =
        let does : closing f ≡ nothing = ground arith in subst (Acts f) (sym does) (on_none e)
    by_type fd_pipe e =
        let does : closing f ≡ close_pipe f.pipe f.writable = ground arith in
        subst (Acts f) (sym does) (on_pipe e)
    by_type fd_inode e =
        let does : closing f ≡ put_inode f.ip = ground arith in
        subst (Acts f) (sym does) (on_inode e)
    by_type fd_device e =
        let does : closing f ≡ put_inode f.ip = ground arith in
        subst (Acts f) (sym does) (on_device e)

-- What a holder can rely on.
pub record Safe (s : State) : Type 0 where
  pub fresh : (i : ℕ) (t : Ftable) → filealloc s.files ≡ some (i, t) → s.held i ≡ 0
  pub full : filealloc s.files ≡ none → (i : ℕ) → i < nfile → 0 < s.held i
  pub dup : (i : ℕ) → 0 < s.held i → (t : Ftable) × (filedup i s.files ≡ some t)
  pub close :
      (i : ℕ)
      → 0 < s.held i
      → (c : Closing) × (t : Ftable) × (fileclose i s.files ≡ some (c, t))
        × (s.held i ≡ 1 → Acts (s.files i) c)
        × (s.held i ≢ 1 → c ≡ nothing)

-- In every state that the calls can reach from the empty table, `filealloc` returns a file that nobody
-- holds, and fails only if every file is held; who holds a file can duplicate and close it without a
-- panic. A close by the last holder closes the file's end of its pipe, or releases its inode if it is
-- an inode or a device; any other close does neither.
pub held_files-Safe : (s : State) → Steps no_files s → Safe s
held_files-Safe s steps =
    let c = Steps-Counted no_files s steps (λ i. refl) in
    record {
      fresh = λ i t e. elim (filealloc_lem s.files) [
        | inl (f, all_used) ↦ absurd (let wrong = sym f ∙ e in ground arith)
        | inr (k, lt, free, f) ↦
            (let same = ap (λ (r : ℕ × Ftable). r.0) (some_inj (sym f ∙ e)) in
              subst (λ j. s.held j ≡ 0) same (sym (c k) ∙ free))
      ];
      full = λ e i lt. elim (filealloc_lem s.files) [
        | inl (f, all_used) ↦ subst (λ n. 0 < n) (c i) (all_used i lt)
        | inr (k, lt', free, f) ↦ absurd (let wrong = sym e ∙ f in ground arith)
      ];
      dup = λ i pos. (_, filedup_lem i s.files (subst (λ n. 0 < n) (sym (c i)) pos));
      close = λ i pos. (
        (if s.held i == 1 then closing (s.files i) else nothing),
        set_file s.files i (closed (s.files i)),
        fileclose_lem i s.files (subst (λ n. 0 < n) (sym (c i)) pos)
            ∙ ap
                (λ n. some (
                  (if n == 1 then closing (s.files i) else nothing),
                  set_file s.files i (closed (s.files i)),
                ))
                (c i),
        (λ last.
            subst (Acts (s.files i))
              (sym (if_true (s.held i == 1) (closing (s.files i)) nothing (ground arith)))
              (closing-Acts (s.files i))),
        λ shared. if_false (s.held i == 1) (closing (s.files i)) nothing (ground arith),
      );
    }
