-- ===== src/Schema/Matched.antt =====
-- A property that is written as a line, and the groups of the match.
use mathlib.Core.List.{append_assoc}
use js_ng.Prelude.{
  ℕ, zero, suc, ◌≡◌, refl, ap, ◌∙◌, Bool, true, false, not, ◌&&◌, Option, none, some, [], ◌∷◌, ◌++◌,
  ◌==◌, str_eq, eqb, leb, length, take, if◌then◌else◌, Str, str, arith,
}
use js_ng.Schema.Line.{
  span, Groups, to_bracket, match_type, match_pointer, match_comment, is_star, is_name_char,
  is_default_char, match_value, match_equals, equals_after, match_name, match_line,
}

-- A property as it is written; a type, a pointer or a comment that is empty is left out.
pub record PropLine : Type 0 where
  pub unique : Bool
  pub name : Str
  pub stars : ℕ
  pub default_value : Str
  pub type_code : Str
  pub pointer : Str
  pub comment : Str

abbrev pub marked : ℕ → Str → Str
marked c [] = []
marked c (x ∷ s) = c ∷ x ∷ s

abbrev pub bracketed : Str → Str
bracketed [] = []
bracketed (x ∷ s) = b'(' ∷ x ∷ s ++ b')' ∷ []

abbrev stars_of : ℕ → Str
stars_of zero = []
stars_of (suc n) = b'*' ∷ stars_of n

-- The part behind the equals sign, and the line
unfoldable pub value_text : PropLine → Str
value_text l =
    l.default_value ++ (bracketed l.type_code ++ (marked b'!' l.pointer ++ marked b'#' l.comment))

unfoldable pub line_of : PropLine → Str
unfolding value_text
line_of l =
    let rest = l.name ++ (stars_of l.stars ++ b'=' ∷ value_text l) in
    if l.unique then b'&' ∷ rest else rest

unfoldable pub all_in : (ℕ → Bool) → Str → Bool
all_in p [] = true
all_in p (c ∷ s) = p c && all_in p s

abbrev pub is_not : ℕ → ℕ → Bool
is_not c d = not (eqb d c)

-- A property that can be written: no mark of the syntax stands in a part where it would end it, and
-- the name is neither empty nor id, and does not begin with the mark of a unique property.
pub record IsWritable (l : PropLine) : Type 0 where
  pub named : leb 1 (length l.name) ≡ true
  pub name_chars : all_in is_name_char l.name ≡ true
  pub first_char : all_in (is_not b'&') (take 1 l.name) ≡ true
  pub not_id : (l.name == str "id") ≡ false
  pub few_stars : leb l.stars 3 ≡ true
  pub default_chars : all_in is_default_char l.default_value ≡ true
  pub type_chars : all_in (is_not b')') l.type_code ≡ true
  pub pointer_chars : all_in (is_not b'#') l.pointer ≡ true

-- A text at which a span stops
abbrev Stops : (ℕ → Bool) → Str → Type 0
Stops p [] = Unit {0}
Stops p (c ∷ s) = p c ≡ false

both : (a b : Bool) → (a && b) ≡ true → (a ≡ true) × (b ≡ true)
both true b h = (refl, h)
both false b h = absurd (ground (arith, h))

span_lem :
    (p : ℕ → Bool) (xs rest : Str)
    → all_in p xs ≡ true
    → Stops p rest
    → span p (xs ++ rest) ≡ (xs, rest)
unfolding span all_in
span_lem p [] [] h k = refl
span_lem p [] (c ∷ s) h k = rw k refl
span_lem p (x ∷ xs) rest h k =
    let (hx, hs) = both (p x) (all_in p xs) h in
    rw hx (ap (λ r. (x ∷ r.0, r.1)) (span_lem p xs rest hs k))

to_bracket_lem :
    (xs rest : Str)
    → all_in (is_not b')') xs ≡ true
    → to_bracket (xs ++ b')' ∷ rest) ≡ some (xs ++ b')' ∷ [], rest)
unfolding to_bracket all_in
to_bracket_lem [] rest h = refl
to_bracket_lem (x ∷ xs) rest h = ground (arith, to_bracket_lem xs rest)

to_bracket_assoc :
    (xs rest : Str)
    → all_in (is_not b')') xs ≡ true
    → to_bracket (xs ++ b')' ∷ [] ++ rest) ≡ some (xs ++ b')' ∷ [], rest)
to_bracket_assoc xs rest h =
    ap to_bracket (append_assoc xs (b')' ∷ []) rest) ∙ to_bracket_lem xs rest h

abbrev behind_open : Str → Option (Str × Str) → Str × Str
behind_open s o = elim o [ none ↦ ([], b'(' ∷ s) | some (xs, after) ↦ (b'(' ∷ xs, after) ]

-- What the groups are of a line
unfoldable pub groups_of : PropLine → Groups
groups_of l = record {
  unique = l.unique;
  name = l.name;
  qualifier = l.stars;
  default_value = l.default_value;
  prop_type = bracketed l.type_code;
  pointer_type = marked b'!' l.pointer;
  comment = marked b'#' l.comment;
}

match_comment_lem : (s : Str) → match_comment (marked b'#' s) ≡ marked b'#' s
unfolding match_comment
match_comment_lem [] = refl
match_comment_lem (c ∷ s) = refl

marked-Stops : (t : Str) → Stops (is_not b'#') (marked b'#' t)
marked-Stops [] = tt
marked-Stops (x ∷ t) = refl

match_pointer_lem :
    (s t : Str)
    → all_in (is_not b'#') s ≡ true
    → match_pointer (marked b'!' s ++ marked b'#' t) ≡ (marked b'!' s, marked b'#' t)
unfolding match_pointer
match_pointer_lem [] [] h = refl
match_pointer_lem [] (x ∷ t) h = refl
match_pointer_lem (c ∷ s) t h =
    ap (λ r. (b'!' ∷ r.0, r.1)) (span_lem (is_not b'#') (c ∷ s) (marked b'#' t) h (marked-Stops t))

match_type_lem :
    (s p t : Str)
    → all_in (is_not b')') s ≡ true
    → match_type (bracketed s ++ (marked b'!' p ++ marked b'#' t))
      ≡ (bracketed s, marked b'!' p ++ marked b'#' t)
unfolding match_type
match_type_lem [] [] [] h = refl
match_type_lem [] [] (x ∷ t) h = refl
match_type_lem [] (x ∷ p) t h = refl
match_type_lem (c ∷ s) p t h =
    let rest = marked b'!' p ++ marked b'#' t in
    ap (behind_open (c ∷ s ++ b')' ∷ [] ++ rest)) (to_bracket_assoc (c ∷ s) rest h)

abbrev tail_of : PropLine → Str
tail_of l = bracketed l.type_code ++ (marked b'!' l.pointer ++ marked b'#' l.comment)

tail_of-Stops :
    (s p t : Str) → Stops is_default_char (bracketed s ++ (marked b'!' p ++ marked b'#' t))
tail_of-Stops [] [] [] = tt
tail_of-Stops [] [] (x ∷ t) = refl
tail_of-Stops [] (x ∷ p) t = refl
tail_of-Stops (x ∷ s) p t = refl

match_value-value_text :
    (l : PropLine) → IsWritable l → match_value l.unique l.name l.stars (value_text l) ≡ groups_of l
unfolding match_value value_text groups_of
match_value-value_text l w =
    rw
      (
        span_lem is_default_char l.default_value (tail_of l) w.default_chars
            (tail_of-Stops l.type_code l.pointer l.comment),
        match_type_lem l.type_code l.pointer l.comment w.type_chars,
        match_pointer_lem l.pointer l.comment w.pointer_chars,
        match_comment_lem l.comment,
      )
      refl

length-stars_of : (n : ℕ) → length (stars_of n) ≡ n
length-stars_of zero = refl
length-stars_of (suc n) = ap suc (length-stars_of n)

stars_in : (n : ℕ) → all_in is_star (stars_of n) ≡ true
unfolding all_in
stars_in zero = refl
stars_in (suc n) = stars_in n

match_equals_lem :
    (l : PropLine)
    → IsWritable l
    → match_equals l.unique l.name (stars_of l.stars ++ b'=' ∷ value_text l) ≡ some (groups_of l)
unfolding match_equals
match_equals_lem l w =
    ap (equals_after l.unique l.name)
      (span_lem is_star (stars_of l.stars) (b'=' ∷ value_text l) (stars_in l.stars) refl)
    ∙ rw (length-stars_of l.stars, w.few_stars, match_value-value_text l w) refl

stars_of-Stops : (n : ℕ) (s : Str) → Stops is_name_char (stars_of n ++ b'=' ∷ s)
stars_of-Stops zero s = refl
stars_of-Stops (suc n) s = refl

match_name_lem :
    (l : PropLine)
    → IsWritable l
    → match_name l.unique (l.name ++ (stars_of l.stars ++ b'=' ∷ value_text l)) ≡ some (groups_of l)
unfolding match_name
match_name_lem l w =
    rw
      (
        span_lem is_name_char l.name (stars_of l.stars ++ b'=' ∷ value_text l) w.name_chars
            (stars_of-Stops l.stars (value_text l)),
        w.named,
        match_equals_lem l w,
      )
      refl

match_line_marked :
    (s : Str) (g : Groups) → match_name true s ≡ some g → match_line (b'&' ∷ s) ≡ some g
unfolding match_line
match_line_marked s g e = rw e refl

match_line_plain :
    (s r : Str) (g : Groups)
    → leb 1 (length s) ≡ true
    → all_in (is_not b'&') (take 1 s) ≡ true
    → match_name false (s ++ r) ≡ some g
    → match_line (s ++ r) ≡ some g
unfolding match_line all_in
match_line_plain [] r g n h e = absurd (ground (arith, n))
match_line_plain (c ∷ s) r g n h e = ground (arith, h, e)

match_line_either :
    (u : Bool) (s r : Str) (g : Groups)
    → leb 1 (length s) ≡ true
    → all_in (is_not b'&') (take 1 s) ≡ true
    → match_name u (s ++ r) ≡ some g
    → match_line (if u then b'&' ∷ (s ++ r) else s ++ r) ≡ some g
match_line_either true s r g n h e = match_line_marked (s ++ r) g e
match_line_either false s r g n h e = match_line_plain s r g n h e

pub match_line-line_of : (l : PropLine) → IsWritable l → match_line (line_of l) ≡ some (groups_of l)
unfolding line_of
match_line-line_of l w =
    match_line_either l.unique l.name (stars_of l.stars ++ b'=' ∷ value_text l) (groups_of l)
      w.named w.first_char (match_name_lem l w)
