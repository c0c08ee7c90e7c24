-- ===== src/Vm/Tests.antt =====
-- Runs of vm.c on six pages, and its theorems there: a table of each level maps the address 0 to the
-- page `data`, and two pages are free.
use os_project.Prelude.{
  some, ◌^◌, ◌%◌, ◌/◌, ap₂, ap, ◌∙◌, ℕ, zero, suc, ◌⊎◌, inl, inr, sym, ◌+◌, ◌-◌, ◌*◌, ◌/◌, ◌%◌, ◌^◌,
  ◌<◌, true, false, ◌==◌, if◌then◌else◌, [], ◌∷◌, ◌≡◌, refl, arith,
}
use mathlib.Core.Path.{subst}
use os_project.Memory.{poke, Mem, page_size, phys_stop, in_range}
use os_project.Kalloc.{Words, Kmem}
use os_project.Vm.Space.{Ghost, Inv, find}
use os_project.Kalloc.{is_page}
use os_project.Kalloc.Chain.{count}
use os_project.Vm.Copy.{words, copyin, copyin_loop}
use os_project.Vm.CopyIn.{phys, copyin-Copied, Copied}
use os_project.Vm.Translation.{tables_of, no_free, user_pa}
use os_project.Strings.{memmove}
use os_project.Vm.Taking.{page_of, is_mapped}
use os_project.Vm.Unmapping.{Owned, Unmapped, uvmunmap-Unmapped}
use os_project.Vm.{pa2pte, pte2pa, is_valid, walkaddr, uvmunmap}

abbrev first_page : ℕ
first_page = phys_stop - 6 * page_size

abbrev root : ℕ
root = first_page

abbrev middle : ℕ
middle = first_page + page_size

abbrev last_table : ℕ
last_table = first_page + 2 * page_size

abbrev data_page : ℕ
data_page = first_page + 3 * page_size

abbrev free_page : ℕ
free_page = first_page + 4 * page_size

abbrev free_page_2 : ℕ
free_page_2 = first_page + 5 * page_size

-- Mapped to read and write for users.
abbrev words_there : Words
words_there a =
    if a == root
    then pa2pte middle + 1
    else if a == middle
    then pa2pte last_table + 1
    else if a == last_table
    then pa2pte data_page + 23
    else if a == free_page
    then free_page_2
    else if a == data_page
    then 42
    else 0

abbrev kmem : Kmem
kmem = record { freelist = free_page; word = words_there }

abbrev ghost : Ghost
ghost = record {
  free = free_page ∷ free_page_2 ∷ [];
  rank = λ q. if q == root then 3 else if q == middle then 2 else if q == last_table then 1 else 0;
  place = λ q. 0;
}

upper : (q : ℕ) → 1 < ghost.rank q → (q ≡ root) ⊎ (q ≡ middle)
upper q r = ground arith

root_index : (i : ℕ) → i < 512 → is_valid (words_there (root + 8 * i)) ≡ true → i ≡ 0
root_index i lt valid = ground arith

middle_index : (i : ℕ) → i < 512 → is_valid (words_there (middle + 8 * i)) ≡ true → i ≡ 0
middle_index i lt valid = ground arith

abbrev Leads : ℕ → ℕ → Type 0
Leads q i =
    (suc (ghost.rank (pte2pa (words_there (q + 8 * i)))) ≡ ghost.rank q)
    × (ghost.place (pte2pa (words_there (q + 8 * i))) ≡ ghost.place q * 512 + i)

kmem-Inv : Inv first_page kmem ghost
kmem-Inv = record {
  chain = (refl, ground arith, refl, (refl, ground arith, refl, refl));
  once = λ q. ground arith;
  pages = λ q lt. ground arith;
  tree = λ q i r lt valid. elim (upper q r) [
    | inl e ↦
        let at : i ≡ 0 =
          root_index i lt (subst (λ (p : ℕ). is_valid (words_there (p + 8 * i)) ≡ true) e valid) in
        subst (λ (p : ℕ). Leads p i) (sym e) (subst (λ (j : ℕ). Leads root j) (sym at) (refl, refl))
    | inr e ↦
        let at : i ≡ 0 =
          middle_index i lt
            (subst (λ (p : ℕ). is_valid (words_there (p + 8 * i)) ≡ true) e valid) in
        subst (λ (p : ℕ). Leads p i) (sym e)
          (subst (λ (j : ℕ). Leads middle j) (sym at) (refl, refl))
  ];
}

-- A mapping at 2^30 needs both free pages.
abbrev far_va : ℕ
far_va = 2 ^ 30

only_zero : (P : ℕ → Type 0) → P 0 → (j : ℕ) → j < 1 → P j
only_zero P p j l = subst P (omega arith) p

data_page-Owned : Owned first_page kmem ghost root 0 1 true
data_page-Owned = record {
  leaf = only_zero (λ (j : ℕ). is_mapped (find 2 words_there root (0 + j * page_size)) ≡ true) refl;
  page = λ e.
      only_zero
        (λ (j : ℕ).
          (is_page first_page (page_of kmem root (0 + j * page_size)) ≡ true)
          × (ghost.rank (page_of kmem root (0 + j * page_size)) ≡ 0)
          × (count (page_of kmem root (0 + j * page_size)) ghost.free ≡ 0))
        (refl, refl, refl);
  distinct = λ e i j l m. absurd (omega arith);
}

uvmunmap-Unmapped_example :
    (k' : Kmem) × (uvmunmap first_page kmem root 0 1 true ≡ some k')
    × Unmapped first_page kmem ghost root 0 1 true k'
uvmunmap-Unmapped_example =
    uvmunmap-Unmapped first_page kmem ghost root 0 1 true (ground arith) kmem-Inv refl refl
      (ground arith) data_page-Owned

-- The same words, byte by byte.
abbrev bytes_there : Mem
bytes_there x = words_there (x / 8 * 8) / 256 ^ (x % 8) % 256

byte_there : (a j : ℕ) → a % 8 ≡ 0 → j < 8 → bytes_there (a + j) ≡ words_there a / 256 ^ j % 256
byte_there a j al l =
    let word : (a + j) / 8 * 8 ≡ a = omega arith in
    let place : (a + j) % 8 ≡ j = omega arith in
    ap₂ (λ b c. words_there b / 256 ^ c % 256) word place

word_there : (a : ℕ) → a % 8 ≡ 0 → words bytes_there a ≡ words_there a
word_there a al =
    let small : words_there a < 2 ^ 64 = ground arith in
    let first : bytes_there a ≡ words_there a % 256 =
      (let plus : a ≡ a + 0 = omega arith in
        ap bytes_there plus ∙ byte_there a 0 al (omega arith) ∙ omega arith) in
    omega (
      arith,
      small,
      first,
      byte_there a 1 al (omega arith),
      byte_there a 2 al (omega arith),
      byte_there a 3 al (omega arith),
      byte_there a 4 al (omega arith),
      byte_there a 5 al (omega arith),
      byte_there a 6 al (omega arith),
      byte_there a 7 al (omega arith),
    )

bytes-Inv : Inv first_page (tables_of bytes_there) (no_free ghost)
bytes-Inv = record {
  chain = refl;
  once = λ q. omega arith;
  pages = λ q lt. ((kmem-Inv.pages q lt).0, refl);
  tree = λ q i r lt valid.
      let e : words bytes_there (q + 8 * i) ≡ words_there (q + 8 * i) =
        word_there (q + 8 * i) (ground (arith, (kmem-Inv.pages q (omega arith)).0)) in
      let t = kmem-Inv.tree q i r lt (ap is_valid (sym e) ∙ valid) in
      (ap (λ a. suc (ghost.rank (pte2pa a))) e ∙ t.0, ap (λ a. ghost.place (pte2pa a)) e ∙ t.1);
}

only_two : (P : ℕ → Type 0) → P 0 → P 1 → (j : ℕ) → j < 2 → P j
only_two P p r zero l = p
only_two P p r (suc j) l = subst P (omega arith) r

-- Two bytes from the address 0 on.
copyin-Copied_example :
    Copied bytes_there
      (user_pa bytes_there root)
      4096
      0
      2
      bytes_there
      (copyin bytes_there root 4096 0 2)
copyin-Copied_example =
    copyin-Copied first_page bytes_there ghost root 4096 0 2 (ground arith) bytes-Inv refl
      (λ p x r h. ground (arith, (kmem-Inv.pages p r).0))
      (only_two (λ (i : ℕ). in_range 4096 2 (phys (user_pa bytes_there root) (0 + i)) ≡ false) refl
        refl)

copyin_runs : (copyin bytes_there root 4096 0 2).0 ≡ true
unfolding copyin copyin_loop memmove walkaddr
copyin_runs = refl

-- The page behind is not mapped.
copyin_fails : (copyin bytes_there root 4096 4095 2).0 ≡ false
unfolding copyin copyin_loop memmove walkaddr poke
copyin_fails = refl
