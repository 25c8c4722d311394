-- ===== src/Schema/Normalize.antt =====
-- data/schema/schema.py, _normalize_string.
use js_ng.Prelude.{Bool, true, false, not, ◌&&◌, ◌||◌, [], ◌∷◌, ℕ, eqb, if◌then◌else◌, Str}
use js_ng.Text.{strip}

-- The variables of the loop, and whether the result ends with a line feed
pub record Scan : Type 0 where
  pub in_comment : Bool
  pub in_string : Bool
  pub string_char : ℕ
  pub ended : Bool

-- string_char is None at first, which no character is.
abbrev pub start : Scan
start = record { in_comment = false; in_string = false; string_char = 0; ended = false }

unfoldable pub track_comment : ℕ → Scan → Scan
track_comment c st =
    if eqb c b'#'
    then record st { in_comment = true }
    else if eqb c 10
    then record st { in_comment = false }
    else st

unfoldable pub track_string : ℕ → Scan → Scan
track_string c st =
    if eqb c b'"' || eqb c b'\''
    then (if st.in_string && eqb c st.string_char
        then record st { in_string = false }
        else if not st.in_string
        then record st { in_string = true; string_char = c }
        else st)
    else st

-- The tests before the `continue`s
unfoldable pub is_skipped : ℕ → Scan → Bool
is_skipped c st =
    not st.in_comment && not st.in_string && (eqb c b' ' || eqb c 9) || eqb c 10 && st.ended

-- One turn: the variables afterwards
unfoldable pub turn : ℕ → Scan → Scan
unfolding track_comment track_string is_skipped
turn c st =
    let seen = track_string c (track_comment c st) in
    if is_skipped c seen then seen else record seen { ended = eqb c 10 }

-- Whether the turn drops its character
unfoldable pub drops : ℕ → Scan → Bool
unfolding track_comment track_string is_skipped
drops c st = is_skipped c (track_string c (track_comment c st))

-- The loop
unfoldable pub scan : Scan → Str → Str
unfolding turn drops
scan st [] = []
scan st (c ∷ s) = let rest = scan (turn c st) s in if drops c st then rest else c ∷ rest

unfoldable pub normalize_string : Str → Str
unfolding scan strip
normalize_string s = scan start (strip s)
