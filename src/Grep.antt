-- ===== src/Grep.antt =====
-- The matcher of Xv6/user/grep.c: match, matchhere and matchstar. A string is the list of its bytes
-- before the NUL, so `re[0] == '\0'` is the empty list.
mod Tests
pub mod Matching
use os_project.Prelude.{ℕ, ◌==◌, if◌then◌else◌, Bool, true, false, ◌||◌, List, [], ◌∷◌}

abbrev pub Text : Type 0
Text = List ℕ

-- The characters '^', '$', '*' and '.'
abbrev pub caret : ℕ
caret = 94

abbrev pub dollar : ℕ
dollar = 36

abbrev pub star : ℕ
star = 42

abbrev pub dot : ℕ
dot = 46

-- The do loop of matchstar over the text and its NUL; `here` is matchhere for the rest of the
-- pattern.
unfoldable pub matchstar : ℕ → (Text → Bool) → Text → Bool
matchstar c here [] = here []
matchstar c here (t ∷ ts) =
    let rest = matchstar c here ts in
    if here (t ∷ ts) then true else if t == c || c == dot then rest else false

-- `re[1]` is the NUL where the pattern has one byte.
unfoldable pub matchhere : Text → Text → Bool
unfolding matchstar
matchhere [] text = true
matchhere (c ∷ []) [] = c == dollar
matchhere (c ∷ []) (t ∷ ts) = if c == dollar then false else c == dot || c == t
matchhere (c ∷ d ∷ re) [] = if d == star then matchstar c (matchhere re) [] else false
matchhere (c ∷ d ∷ re) (t ∷ ts) =
    let rest = matchhere (d ∷ re) ts in
    if d == star
    then matchstar c (matchhere re) (t ∷ ts)
    else if c == dot || c == t
    then rest
    else false

-- The do loop of match, over the text and its terminating NUL.
unfoldable pub match_from : Text → Text → Bool
unfolding matchhere
match_from re [] = matchhere re []
match_from re (t ∷ ts) = let rest = match_from re ts in if matchhere re (t ∷ ts) then true else rest

unfoldable pub match : Text → Text → Bool
unfolding match_from matchhere
match [] text = match_from [] text
match (c ∷ re) text = if c == caret then matchhere re text else match_from (c ∷ re) text
