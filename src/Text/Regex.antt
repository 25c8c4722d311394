-- ===== src/Text/Regex.antt =====
-- Regular expressions, for the patterns that the program hands to `re`: matching by derivatives.
use js_ng.Prelude.{ℕ, zero, suc, Bool, true, false, ◌&&◌, ◌||◌, [], ◌∷◌, if◌then◌else◌, eqb, Str}

pub data Regex : Type 0 where
  never empty : Regex
  chars : (ℕ → Bool) → Regex
  cat alt : Regex → Regex → Regex
  star : Regex → Regex

nullable : Regex → Bool
nullable never = false
nullable empty = true
nullable (chars p) = false
nullable (cat r s) = nullable r && nullable s
nullable (alt r s) = nullable r || nullable s
nullable (star r) = true

derive : ℕ → Regex → Regex
unfolding nullable
derive c never = never
derive c empty = never
derive c (chars p) = if p c then empty else never
derive c (cat r s) =
    let right = derive c s in
    if nullable r then alt (cat (derive c r) s) right else cat (derive c r) s
derive c (alt r s) = alt (derive c r) (derive c s)
derive c (star r) = cat (derive c r) (star r)

-- The whole text matches.
unfoldable pub matches : Regex → Str → Bool
unfolding nullable derive
matches r [] = nullable r
matches r (c ∷ s) = matches (derive c r) s

unfoldable pub one_of : ℕ → Regex
one_of c = chars (λ d. eqb d c)

unfoldable pub plus : Regex → Regex
plus r = cat r (star r)

unfoldable pub optional : Regex → Regex
optional r = alt empty r

-- r{n}
unfoldable pub times : ℕ → Regex → Regex
times zero r = empty
times (suc n) r = cat r (times n r)

-- re.match(r"^…$", s): the `$` also stands before a line feed at the end.
unfoldable pub match_all : Regex → Str → Bool
unfolding matches one_of optional
match_all r s = matches (cat r (optional (one_of 10))) s

-- re.search(…, s): a part of the text matches.
unfoldable pub search_in : Regex → Str → Bool
unfolding matches
search_in r s = matches (cat (star (chars (λ _. true))) (cat r (star (chars (λ _. true))))) s
