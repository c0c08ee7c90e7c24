-- ===== src/Files/Chunks.antt =====
-- The calls of `writei` that `filewrite` of Xv6/kernel/file.c makes for one write to an inode.
use os_project.Prelude.{
  ℕ, zero, suc, ◌+◌, ◌-◌, ◌≤◌, ◌<◌, ◌≡◌, ◌≢◌, ◌⊎◌, inl, inr, refl, ap, sym, ◌∙◌, Bool, true, false,
  not, Bool-cases, Option, none, some, List, [], ◌∷◌, ◌==◌, ltb, min, if◌then◌else◌, if_true,
  if_false, arith,
}
use mathlib.Core.Path.{subst}
use os_project.Files.{
  File, FileType, fd_none, fd_pipe, fd_inode, fd_device, Chunk, max_write, write_chunks, filewrite,
}

-- The bytes that a call reports.
abbrev pub reported : Option ℕ → ℕ
reported none = 0
reported (some r) = r

-- From byte `i` of `n` and offset `off` on, the calls take the bytes in order, without a gap, and at
-- most `max_write` at a time. They go on to the end, or to the first call that does not write all that
-- it is given; the offset moves by what was reported.
abbrev pub Run : (Chunk → Option ℕ) → (n i off : ℕ) → Bool → ℕ → List Chunk → Type 0
Run writei n i off done off' [] = (done ≡ true) × (i ≡ n) × (off' ≡ off)
Run writei n i off done off' (c ∷ cs) =
    (c.from ≡ i)
    × (c.at ≡ off)
    × (0 < c.size)
    × (c.size ≤ max_write)
    × (c.size ≤ n - i)
    × ((writei c ≡ some c.size) × Run writei n (i + c.size) (off + c.size) done off' cs
        ⊎ (writei c ≢ some c.size)
          × (cs ≡ [])
          × (done ≡ false)
          × (off' ≡ off + reported (writei c)))

abbrev chunk : ℕ → ℕ → ℕ → Chunk
chunk n i off = record { from = i; at = off; size = min (n - i) max_write }

some_other : (r n : ℕ) → r ≢ n → some r ≢ some n
some_other r n ne e = ne (ap reported e)

plus_zero : (n : ℕ) → n ≡ n + 0
plus_zero n = omega arith

-- One round, by what the call returns.
round :
    (writei : Chunk → Option ℕ) (n i off : ℕ) (rest : Bool × ℕ × List Chunk) (o : Option ℕ)
    → i < n
    → writei (chunk n i off) ≡ o
    → Run writei n (i + min (n - i) max_write) (off + min (n - i) max_write) rest.0 rest.1 rest.2
    → (let r : Bool × ℕ × List Chunk = elim o [
      | none ↦ (false, off, chunk n i off ∷ [])
      | some r ↦
          if r == min (n - i) max_write
          then (rest.0, rest.1, chunk n i off ∷ rest.2)
          else (false, off + r, chunk n i off ∷ [])
    ] in
        Run writei n i off r.0 r.1 r.2)
round writei n i off rest none lt e run = (
  refl,
  refl,
  omega arith,
  omega arith,
  omega arith,
  inr (
    (λ f. (let wrong = sym e ∙ f in ground arith)),
    refl,
    refl,
    plus_zero off ∙ ap (λ o. off + reported o) (sym e),
  ),
)
round writei n i off rest (some r) lt e run = elim (Bool-cases (r == min (n - i) max_write)) [
  | inl all ↦
      subst (λ (s : Bool × ℕ × List Chunk). Run writei n i off s.0 s.1 s.2)
        (sym (
          if_true (r == min (n - i) max_write) (rest.0, rest.1, chunk n i off ∷ rest.2)
            (false, off + r, chunk n i off ∷ []) all))
        (refl, refl, omega arith, omega arith, omega arith, inl (e ∙ ap some (equal r _ all), run))
  | inr short ↦
      subst (λ (s : Bool × ℕ × List Chunk). Run writei n i off s.0 s.1 s.2)
        (sym (
          if_false (r == min (n - i) max_write) (rest.0, rest.1, chunk n i off ∷ rest.2)
            (false, off + r, chunk n i off ∷ []) short))
        (
          refl,
          refl,
          omega arith,
          omega arith,
          omega arith,
          inr (
            (λ f. some_other r (min (n - i) max_write) (unequal r _ short) (sym e ∙ f)),
            refl,
            refl,
            ap (λ o. off + reported o) (sym e),
          ),
        )
]
  where
    equal : (a b : ℕ) → (a == b) ≡ true → a ≡ b
    equal a b e = ground arith

    unequal : (a b : ℕ) → (a == b) ≡ false → a ≢ b
    unequal a b e f = ground arith

write_chunks-Run :
    (writei : Chunk → Option ℕ) (fuel n i off : ℕ)
    → i ≤ n
    → n - i < fuel
    → (let r = write_chunks writei fuel n i off in Run writei n i off r.0 r.1 r.2)
unfolding write_chunks
write_chunks-Run writei zero n i off le enough = absurd (omega arith)
write_chunks-Run writei (suc fuel) n i off le enough = elim (Bool-cases (ltb i n)) [
  | inl more ↦
      subst (λ (s : Bool × ℕ × List Chunk). Run writei n i off s.0 s.1 s.2)
        (sym (if_true (ltb i n) _ _ more))
        (round writei n i off
          (write_chunks writei fuel n (i + min (n - i) max_write) (off + min (n - i) max_write))
          (writei (chunk n i off)) (ground arith) refl
          (write_chunks-Run writei fuel n (i + min (n - i) max_write) (off + min (n - i) max_write)
            (omega arith) (let lt : i < n = ground arith in omega arith)))
  | inr done ↦
      subst (λ (s : Bool × ℕ × List Chunk). Run writei n i off s.0 s.1 s.2)
        (sym (if_false (ltb i n) _ _ done)) (ground arith, ground arith, refl)
]

on_inode :
    {A : Type 0} (k : FileType) (x y z w : A)
    → k ≡ fd_inode
    → (elim k as (λ _. A) [ fd_none ↦ x | fd_pipe ↦ y | fd_inode ↦ z | fd_device ↦ w ]) ≡ z
on_inode {A} k x y z w e =
    subst
      (λ k. (elim k as (λ _. A) [ fd_none ↦ x | fd_pipe ↦ y | fd_inode ↦ z | fd_device ↦ w ]) ≡ z)
      (sym e) refl

-- What a write to an inode returns.
abbrev pub Written : (Chunk → Option ℕ) → File → ℕ → Option (Option ℕ × File × List Chunk) → Type 0
Written writei f n r =
    (done : Bool) × (off : ℕ) × (cs : List Chunk) × (r
      ≡ some ((if done then some n else none), record f { off = off }, cs))
    × Run writei n 0 f.off done off cs

-- A write of `n` bytes to an inode that is open for writing makes such a run of calls, from the offset
-- of the file on; it returns `n` if they go on to the end and else -1, and leaves the offset behind
-- what was reported.
pub filewrite-Written :
    (piped : Option ℕ) (device : Option (Option ℕ)) (writei : Chunk → Option ℕ) (f : File) (n : ℕ)
    → f.writable ≡ true
    → f.file_type ≡ fd_inode
    → Written writei f n (filewrite piped device writei f n)
filewrite-Written piped device writei f n opened inode =
    let r = write_chunks writei (n + 1) n 0 f.off in
    (r.0, r.1, r.2, result, write_chunks-Run writei (n + 1) n 0 f.off (omega arith) (omega arith))
  where
    result :
        filewrite piped device writei f n
        ≡ some (
          (if (write_chunks writei (n + 1) n 0 f.off).0 then some n else none),
          record f { off = (write_chunks writei (n + 1) n 0 f.off).1 },
          (write_chunks writei (n + 1) n 0 f.off).2,
        )
    result =
        unfold filewrite in
        if_false (not f.writable) (some (none, f, [])) _ (ap not opened)
        ∙ on_inode f.file_type _ _ _ _ inode
