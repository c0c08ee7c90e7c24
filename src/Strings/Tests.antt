-- ===== src/Strings/Tests.antt =====
-- string.c on short texts, and its theorems at those.
use os_project.Prelude.{ℕ, zero, suc, ◌+◌, ◌<◌, ◌≡◌, ◌≢◌, ◌↔◌, refl, arith, [], ◌∷◌, get_or}
use os_project.Prelude.Int.{pos, negsuc}
use os_project.Memory.{Mem, poke}
use os_project.Strings.{memset, memmove, memcmp, strncmp, safestrcpy}
use os_project.Strings.Moves.{memset_lem, memmove_lem}
use os_project.Strings.Compare.{Same, memcmp_iff, IsText}

-- "init" at 0, "inode" at 8, zeros elsewhere.
abbrev texts : Mem
texts x =
    get_or (b'i' ∷ b'n' ∷ b'i' ∷ b't' ∷ 0 ∷ 0 ∷ 0 ∷ 0 ∷ b'i' ∷ b'n' ∷ b'o' ∷ b'd' ∷ b'e' ∷ []) x 0

-- The move overlaps its source from above, and the last byte still arrives.
overlapping : memmove texts 1 0 4 4 ≡ b't'
unfolding memmove poke
overlapping = refl

init_below_inode : strncmp texts 0 8 14 ≡ negsuc 5
unfolding strncmp
init_below_inode = refl

cut_name : safestrcpy texts 20 8 3 21 ≡ b'n'
unfolding safestrcpy poke
cut_name = refl

closed_name : safestrcpy texts 20 8 3 22 ≡ 0
unfolding safestrcpy poke
closed_name = refl

memset_lem_example : memset texts 8 0x101 5 9 ≡ 1
memset_lem_example = memset_lem texts 8 0x101 5 9

memmove_lem_example : memmove texts 1 0 4 4 ≡ b't'
memmove_lem_example = memmove_lem texts 1 0 4 4

memcmp_iff_example : (memcmp texts 0 8 2 ≡ pos 0) ↔ Same texts 0 8 2
memcmp_iff_example = memcmp_iff texts 0 8 2

first_two : (i : ℕ) → i < 2 → texts (11 + i) ≢ 0
first_two zero lt = ground arith
first_two (suc zero) lt = ground arith
first_two (suc (suc i)) lt = absurd (omega arith)

-- "de", the end of "inode"
tail-IsText : IsText texts 11 2
tail-IsText = record { ends = refl; inside = first_two }
