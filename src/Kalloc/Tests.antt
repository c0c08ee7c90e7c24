-- ===== src/Kalloc/Tests.antt =====
-- kalloc.c on a machine with two free pages, and its theorems there.
use os_project.Prelude.{ℕ, ◌≡◌, ◌⊎◌, refl, true, false, some, List, [], ◌∷◌, arith, if◌then◌else◌}
use os_project.Memory.{page_size, in_range}
use os_project.Kalloc.{Words, Kmem, fill, put_word, is_page, kfree, freerange, kinit, kalloc}
use os_project.Kalloc.Chain.{count, Holds, kfree-Holds, kalloc-cons}
use os_project.Kalloc.Boot.{kinit-Holds}
use os_project.Kalloc.Pages.{State, take, Reach, boot, next, kalloc_fresh}

abbrev low : ℕ
low = 0x87ffd123

abbrev blank : Words
blank x = 0

-- after the two calls of `kfree` that `kinit` makes
abbrev booted : Kmem
booted = record {
  freelist = 0x87fff000;
  word =
      put_word (fill (put_word (fill blank 0x87ffe000 1) 0x87ffe000 0) 0x87fff000 1) 0x87fff000
        0x87ffe000;
}

kinit_two_pages : kinit low blank ≡ some booted
unfolding kinit freerange kfree
kinit_two_pages = refl

-- Pages come off the list in the reverse order of their addresses.
kalloc_twice : kalloc (kalloc booted).1 ≡ (0x87ffe000, (kalloc (kalloc booted).1).1)
unfolding kalloc fill put_word
kalloc_twice = refl

kalloc_third : (kalloc (kalloc (kalloc booted).1).1).0 ≡ 0
unfolding kalloc fill put_word
kalloc_third = refl

booted-Holds : Holds low booted (0x87fff000 ∷ 0x87ffe000 ∷ [])
unfolding put_word fill
booted-Holds = (refl, ground arith, refl, (refl, ground arith, refl, refl))

one-Holds : Holds low (kalloc booted).1 (0x87ffe000 ∷ [])
unfolding kalloc put_word fill
one-Holds = (refl, ground arith, refl, refl)

kfree-Holds_example :
    (k' : Kmem) × (kfree low (kalloc booted).1 0x87fff000 ≡ some k')
    × Holds low k' (0x87fff000 ∷ 0x87ffe000 ∷ [])
    × ((x : ℕ) → in_range 0x87fff000 page_size x ≡ false → k'.word x ≡ (kalloc booted).1.word x)
kfree-Holds_example =
    kfree-Holds low (kalloc booted).1 0x87fff000 (0x87ffe000 ∷ []) (omega arith) refl one-Holds refl

kalloc-cons_example :
    let (r, k') = kalloc booted in
    (r ≡ 0x87fff000)
    × Holds low k' (0x87ffe000 ∷ [])
    × ((y : ℕ) → in_range 0x87fff000 page_size y ≡ false → k'.word y ≡ booted.word y)
kalloc-cons_example = kalloc-cons low booted 0x87fff000 (0x87ffe000 ∷ []) booted-Holds refl

kinit-Holds_example :
    (k : Kmem) × (ys : List ℕ) × (kinit low blank ≡ some k)
    × Holds low k ys
    × ((q : ℕ) → count q ys ≡ (if is_page low q then 1 else 0))
kinit-Holds_example = kinit-Holds low (omega arith) blank (omega arith)

-- A caller takes the first page.
abbrev one_held : State
one_held = record { kmem = (kalloc booted).1; held = 0x87fff000 ∷ [] }

one_held-Reach : Reach low one_held
unfolding kalloc put_word fill
one_held-Reach =
    next (boot blank booted kinit_two_pages) (take 0x87fff000 (kalloc booted).1 refl (ground arith))

kalloc_fresh_example :
    ((kalloc one_held.kmem).0 ≡ 0) × ((q : ℕ) → is_page low q ≡ true → count q one_held.held ≡ 1)
    ⊎ (is_page low (kalloc one_held.kmem).0 ≡ true)
      × (count (kalloc one_held.kmem).0 one_held.held ≡ 0)
kalloc_fresh_example = kalloc_fresh low (omega arith) (omega arith) one_held-Reach
