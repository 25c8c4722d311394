-- ===== src/Text.antt =====
-- The operations on texts that the program takes from Python's `str`, `int` and `re`.
pub mod Regex
pub mod Split
pub mod Replace
pub mod Strip
pub mod Decimal
pub mod Utf8
use js_ng.Prelude.{
  ℕ, zero, suc, ◌+◌, ◌-◌, ◌*◌, ◌<◌, Bool, true, false, ◌&&◌, ◌||◌, Option, none, some, List, [],
  ◌∷◌, ◌++◌, if◌then◌else◌, leb, eqb, Str, ℤ, pos, negsuc,
}

-- The white space of `str.strip`.
unfoldable pub is_space : ℕ → Bool
is_space c =
    leb 9 c && leb c 13
    || leb 28 c && leb c 32
    || eqb c 0x85
    || eqb c 0xa0
    || eqb c 0x1680
    || leb 0x2000 c && leb c 0x200a
    || eqb c 0x2028
    || eqb c 0x2029
    || eqb c 0x202f
    || eqb c 0x205f
    || eqb c 0x3000

unfoldable pub lstrip_by : (ℕ → Bool) → Str → Str
lstrip_by p [] = []
lstrip_by p (c ∷ s) = let rest = lstrip_by p s in if p c then rest else c ∷ s

unfoldable pub rstrip_by : (ℕ → Bool) → Str → Str
rstrip_by p [] = []
rstrip_by p (c ∷ s) = elim (rstrip_by p s) [ [] ↦ if p c then [] else c ∷ [] | d ∷ t ↦ c ∷ d ∷ t ]

-- s.strip()
unfoldable pub strip : Str → Str
unfolding is_space lstrip_by rstrip_by
strip s = rstrip_by is_space (lstrip_by is_space s)

-- s.lower(), on the letters of ASCII.
unfoldable pub lower : Str → Str
lower [] = []
lower (c ∷ s) = (if leb b'A' c && leb c b'Z' then c + 32 else c) ∷ lower s

-- s.replace(c, "") for a text c of one character
unfoldable pub remove_char : ℕ → Str → Str
remove_char c [] = []
remove_char c (d ∷ s) = let rest = remove_char c s in if eqb d c then rest else d ∷ rest

unfoldable pub is_digit : ℕ → Bool
is_digit c = leb b'0' c && leb c b'9'

-- The digits of `int(s)` behind the first: single underscores may stand between digits.
unfoldable pub digits_value : ℕ → Str → Option ℕ
unfolding is_digit
digits_value n [] = some n
digits_value n (c ∷ []) = if is_digit c then some (n * 10 + (c - 48)) else none
digits_value n (c ∷ d ∷ s) =
    let plain = digits_value (n * 10 + (c - 48)) (d ∷ s) in
    let under = digits_value (n * 10 + (d - 48)) s in
    if is_digit c then plain else if eqb c b'_' && is_digit d then under else none

unfoldable pub unsigned_value : Str → Option ℕ
unfolding digits_value
unsigned_value [] = none
unsigned_value (c ∷ s) = if is_digit c then digits_value (c - 48) s else none

abbrev pub negate : ℕ → ℤ
negate zero = pos zero
negate (suc n) = negsuc n

-- int(s) of a stripped text in ASCII digits; `none` is its `ValueError`.
unfoldable pub int_of : Str → Option ℤ
unfolding unsigned_value
int_of [] = none
int_of (c ∷ s) =
    if eqb c b'-'
    then elim (unsigned_value s) [ none ↦ none | some n ↦ some (negate n) ]
    else elim (unsigned_value (if eqb c b'+' then s else c ∷ s)) [
      | none ↦ none
      | some n ↦ some (pos n)
    ]

-- s.split(c), for a separator of one character
unfoldable pub split : ℕ → Str → List Str
split c [] = [] ∷ []
split c (d ∷ s) =
    let rest = split c s in
    if eqb d c then [] ∷ rest else (elim rest [ [] ↦ (d ∷ []) ∷ [] | w ∷ ws ↦ (d ∷ w) ∷ ws ])

-- c.join(words)
unfoldable pub join : ℕ → List Str → Str
join c [] = []
join c (w ∷ []) = w
join c (w ∷ v ∷ ws) = w ++ c ∷ join c (v ∷ ws)

-- s.replace(c, t), for a text c of one character
unfoldable pub replace_char : ℕ → Str → Str → Str
replace_char c t [] = []
replace_char c t (d ∷ s) = if eqb d c then t ++ replace_char c t s else d ∷ replace_char c t s

-- t.startswith(s)
unfoldable pub is_prefix : Str → Str → Bool
is_prefix [] t = true
is_prefix (c ∷ s) [] = false
is_prefix (c ∷ s) (d ∷ t) = eqb c d && is_prefix s t

-- `s in t` for texts
unfoldable pub occurs_in : Str → Str → Bool
unfolding is_prefix
occurs_in [] [] = true
occurs_in (c ∷ s) [] = false
occurs_in s (c ∷ t) = let rest = occurs_in s t in if is_prefix s (c ∷ t) then true else rest
