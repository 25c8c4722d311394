-- ===== src/Gedis/Resp.antt =====
-- The protocol of redis: what a client reads of the bytes that a server sends.
use js_ng.Prelude.{
  ℕ, zero, suc, ◌&&◌, Option, none, some, [], ◌∷◌, str_eq, nat_eq, eqb, take, drop, if◌then◌else◌,
  Str, ℤ, pos, negsuc,
}
use js_ng.Text.{negate}
use js_ng.Text.Decimal.{number_from}

mutual
  pub data Reply : Type 0 where
    nothing : Reply
    simple : Str → Reply
    failure : Str → Reply
    number : ℤ → Reply
    string : Str → Reply
    array : Replies → Reply

  pub data Replies : Type 0 where
    nil : Replies
    cons : Reply → Replies → Replies

-- The bytes up to the first \r\n, and those behind it
unfoldable pub read_line : Str → Option (Str × Str)
read_line [] = none
read_line (c ∷ []) = none
read_line (c ∷ d ∷ s) =
    let rest = read_line (d ∷ s) in
    if eqb c 13 && eqb d 10
    then some ([], s)
    else elim rest [ none ↦ none | some (line, after) ↦ some (c ∷ line, after) ]

unfoldable pub read_number : Str → Option ℤ
unfolding number_from
read_number [] = none
read_number (c ∷ s) =
    if eqb c b'-'
    then elim (number_from 0 s) [ none ↦ none | some n ↦ some (negate n) ]
    else elim (number_from 0 (c ∷ s)) [ none ↦ none | some n ↦ some (pos n) ]

unfoldable pub after_newline : Str → Option Str
after_newline (c ∷ d ∷ s) = if eqb c 13 && eqb d 10 then some s else none
after_newline _ = none

-- A text of so many bytes, and what is behind the \r\n after it
unfoldable pub read_string : ℕ → Str → Option (Str × Str)
unfolding after_newline
read_string n s = elim (after_newline (drop n s)) [
  | none ↦ none
  | some rest ↦ some (take n s, rest)
]

unfoldable pub read_many : (Str → Option (Reply × Str)) → ℕ → Str → Option (Replies × Str)
read_many read zero s = some (nil, s)
read_many read (suc n) s = elim (read s) [
  | none ↦ none
  | some (r, rest) ↦ elim (read_many read n rest) [
    | none ↦ none
    | some (rs, after) ↦ some (cons r rs, after)
  ]
]

-- What the first line says, by its first byte
unfoldable pub read_typed :
    (ℕ → Str → Option (Replies × Str)) → ℕ → Str → Str → Option (Reply × Str)
unfolding read_number read_string
read_typed many kind line s =
    if eqb kind b'+'
    then some (simple line, s)
    else if eqb kind b'-'
    then some (failure line, s)
    else elim (read_number line) [
      | none ↦ none
      | some (pos n) ↦
          if eqb kind b':'
          then some (number (pos n), s)
          else if eqb kind b'$'
          then (elim (read_string n s) [ none ↦ none | some (t, after) ↦ some (string t, after) ])
          else if eqb kind b'*'
          then (elim (many n s) [ none ↦ none | some (rs, after) ↦ some (array rs, after) ])
          else none
      | some (negsuc n) ↦
          if eqb kind b':'
          then some (number (negsuc n), s)
          else if eqb kind b'$'
          then some (nothing, s)
          else none
    ]

unfoldable pub read_after :
    (ℕ → Str → Option (Replies × Str)) → ℕ → Option (Str × Str) → Option (Reply × Str)
unfolding read_typed
read_after many kind none = none
read_after many kind (some (line, rest)) = read_typed many kind line rest

-- One reply; arrays may stand in each other as deep as the fuel says.
unfoldable pub read_reply : ℕ → Str → Option (Reply × Str)
unfolding read_line read_many read_after
read_reply zero s = none
read_reply (suc f) [] = none
read_reply (suc f) (kind ∷ s) = read_after (read_many (read_reply f)) kind (read_line s)
