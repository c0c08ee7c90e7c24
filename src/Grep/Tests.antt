-- ===== src/Grep/Tests.antt =====
-- Runs of the matcher of grep.c, and its theorem at a pattern and a text.
use os_project.Prelude.{true, false, [], ◌∷◌, ◌≡◌, refl, ◌↔◌}
use os_project.Grep.{Text, match, match_from, matchhere, matchstar}
use os_project.Grep.Matching.{Finds, match_iff}

-- "a.*c$", "^b", "*", and "xabbc"
abbrev pattern_end : Text
pattern_end = 97 ∷ 46 ∷ 42 ∷ 99 ∷ 36 ∷ []

abbrev pattern_start : Text
pattern_start = 94 ∷ 98 ∷ []

abbrev pattern_star : Text
pattern_star = 42 ∷ []

abbrev text : Text
text = 120 ∷ 97 ∷ 98 ∷ 98 ∷ 99 ∷ []

finds_end : match pattern_end text ≡ true
unfolding match match_from matchhere matchstar
finds_end = refl

not_at_start : match pattern_start text ≡ false
unfolding match match_from matchhere matchstar
not_at_start = refl

-- A star that stands first is an ordinary byte.
star_alone : match pattern_star (120 ∷ 42 ∷ []) ≡ true
unfolding match match_from matchhere matchstar
star_alone = refl

match_iff_example : (match pattern_end text ≡ true) ↔ Finds pattern_end text
match_iff_example = match_iff pattern_end text
