-- ===== src/Text/Utf8.antt =====
-- s.encode() and b.decode() of Python, in UTF-8.
use js_ng.Prelude.{
  ℕ, zero, suc, ◌+◌, ◌-◌, ◌*◌, ◌/◌, ◌%◌, Bool, ◌&&◌, not, Option, none, some, [], ◌∷◌, ◌++◌, ltb,
  leb, length, if◌then◌else◌, Str,
}

-- s.encode()
unfoldable pub utf8 : Str → Str
utf8 [] = []
utf8 (c ∷ s) =
    (if ltb c 128
      then c ∷ []
      else if ltb c 2048
      then (192 + c / 64) ∷ (128 + c % 64) ∷ []
      else if ltb c 65536
      then (224 + c / 4096) ∷ (128 + c / 64 % 64) ∷ (128 + c % 64) ∷ []
      else (240 + c / 262144) ∷ (128 + c / 4096 % 64) ∷ (128 + c / 64 % 64) ∷ (128 + c % 64) ∷ [])
    ++ utf8 s

is_tail : ℕ → Bool
is_tail b = leb 128 b && ltb b 192

-- The characters of two, three and four bytes, behind the first byte
two : ℕ → Str → Option (ℕ × Str)
unfolding is_tail
two a (b ∷ s) = if is_tail b then some ((a - 192) * 64 + (b - 128), s) else none
two a _ = none

three : ℕ → Str → Option (ℕ × Str)
unfolding is_tail
three a (b ∷ c ∷ s) =
    let n = (a - 224) * 4096 + (b - 128) * 64 + (c - 128) in
    if is_tail b && is_tail c && leb 2048 n && not (leb 0xd800 n && leb n 0xdfff)
    then some (n, s)
    else none
three a _ = none

four : ℕ → Str → Option (ℕ × Str)
unfolding is_tail
four a (b ∷ c ∷ d ∷ s) =
    let n = (a - 240) * 262144 + (b - 128) * 4096 + (c - 128) * 64 + (d - 128) in
    if is_tail b && is_tail c && is_tail d && leb 0x10000 n && leb n 0x10ffff
    then some (n, s)
    else none
four a _ = none

next : Str → Option (ℕ × Str)
unfolding two three four
next [] = none
next (a ∷ s) =
    if ltb a 128
    then some (a, s)
    else if ltb a 194
    then none
    else if ltb a 224
    then two a s
    else if ltb a 240
    then three a s
    else if ltb a 245
    then four a s
    else none

-- On fuel: a text has no more characters than bytes.
decode_on : ℕ → Str → Option Str
unfolding next
decode_on f [] = some []
decode_on zero (a ∷ s) = none
decode_on (suc f) (a ∷ s) = elim (next (a ∷ s)) [
  | none ↦ none
  | some (c, rest) ↦ elim (decode_on f rest) [ none ↦ none | some t ↦ some (c ∷ t) ]
]

-- b.decode(); `none` is its UnicodeDecodeError.
unfoldable pub decode : Str → Option Str
unfolding decode_on
decode s = decode_on (length s) s
