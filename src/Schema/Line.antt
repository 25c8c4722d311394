-- ===== src/Schema/Line.antt =====
-- data/schema/schema.py: a line that describes a property.
use js_ng.Prelude.{
  ℕ, ◌-◌, Bool, true, false, not, ◌&&◌, ◌||◌, Option, none, some, [], ◌∷◌, ◌==◌, str_eq, nat_eq,
  eqb, leb, length, take, drop, get_elem?, if◌then◌else◌, Str, str,
}
use js_ng.Prelude.Result.{Result, ok, err, runtime_error, name_error, ◌>>=◌}
use js_ng.Text.{is_digit}
use js_ng.Types.{JsType, Data, Python, get_js_type}

-- The start of a text whose characters pass a test, and the rest
unfoldable pub span : (ℕ → Bool) → Str → Str × Str
span p [] = ([], [])
span p (c ∷ s) = let (xs, rest) = span p s in if p c then (c ∷ xs, rest) else ([], c ∷ s)

-- The groups of a match, the type and what follows it with their marks
pub record Groups : Type 0 where
  pub unique : Bool
  pub name : Str
  pub qualifier : ℕ
  pub default_value : Str
  pub prop_type : Str
  pub pointer_type : Str
  pub comment : Str

-- \(.*?\), behind the opening bracket: up to the first closing one
unfoldable pub to_bracket : Str → Option (Str × Str)
to_bracket [] = none
to_bracket (c ∷ s) =
    let rest = to_bracket s in
    if eqb c b')'
    then some (b')' ∷ [], s)
    else elim rest [ none ↦ none | some (xs, after) ↦ some (c ∷ xs, after) ]

-- ((?:\(.*?\))?)
unfoldable pub match_type : Str → Str × Str
unfolding to_bracket
match_type [] = ([], [])
match_type (c ∷ s) =
    if eqb c b'('
    then (elim (to_bracket s) [ none ↦ ([], c ∷ s) | some (xs, after) ↦ (c ∷ xs, after) ])
    else ([], c ∷ s)

-- ((?:\![^#]*)?)
unfoldable pub match_pointer : Str → Str × Str
unfolding span
match_pointer [] = ([], [])
match_pointer (c ∷ s) =
    if eqb c b'!'
    then (let (xs, after) = span (λ d. not (eqb d b'#')) s in (c ∷ xs, after))
    else ([], c ∷ s)

-- ((?:#.*)?); a line has no line feed.
unfoldable pub match_comment : Str → Str
match_comment [] = []
match_comment (c ∷ s) = if eqb c b'#' then c ∷ s else []

abbrev pub is_star : ℕ → Bool
is_star c = eqb c b'*'

-- [^=*] and [^(!#]
abbrev pub is_name_char : ℕ → Bool
is_name_char c = not (eqb c b'=' || eqb c b'*')

abbrev pub is_default_char : ℕ → Bool
is_default_char c = not (eqb c b'(' || eqb c b'!' || eqb c b'#')

-- What is behind the equals sign
unfoldable pub match_value : Bool → Str → ℕ → Str → Groups
unfolding span match_type match_pointer match_comment
match_value unique name qualifier s =
    let (value, s1) = span is_default_char s in
    let (prop_type, s2) = match_type s1 in
    let (pointer, s3) = match_pointer s2 in
    record {
      unique = unique;
      name = name;
      qualifier = qualifier;
      default_value = value;
      prop_type = prop_type;
      pointer_type = pointer;
      comment = match_comment s3;
    }

-- The equals sign behind at most three stars
abbrev pub equals_after : Bool → Str → Str × Str → Option Groups
equals_after unique name (stars, []) = none
equals_after unique name (stars, c ∷ after) =
    if leb (length stars) 3 && eqb c b'='
    then some (match_value unique name (length stars) after)
    else none

unfoldable pub match_equals : Bool → Str → Str → Option Groups
unfolding span
match_equals unique name s = equals_after unique name (span is_star s)

-- The name and what follows, behind the mark of a unique property
unfoldable pub match_name : Bool → Str → Option Groups
unfolding span match_equals
match_name unique s =
    let (name, rest) = span is_name_char s in
    if leb 1 (length name) then match_equals unique name rest else none

-- re.match(RE, line): a & that no name follows is a name itself.
unfoldable pub match_line : Str → Option Groups
unfolding match_name
match_line [] = none
match_line (c ∷ s) =
    if eqb c b'&'
    then (elim (match_name true s) [ none ↦ match_name false (c ∷ s) | some g ↦ some g ])
    else match_name false (c ∷ s)

-- s.isdigit(), of ASCII
unfoldable pub is_digit_text : Str → Bool
unfolding is_digit
is_digit_text [] = false
is_digit_text (c ∷ []) = is_digit c
is_digit_text (c ∷ d ∷ s) = is_digit c && is_digit_text (d ∷ s)

-- _is_float: the parts around the first dot
unfoldable pub is_float : Str → Bool
unfolding span is_digit_text
is_float s =
    let (a, rest) = span (λ c. not (eqb c b'.')) s in
    elim rest [ [] ↦ false | _ ∷ b ↦ is_digit_text a && is_digit_text b ]

-- The same quotation mark at both ends
unfoldable pub is_quoted : Str → Bool
is_quoted s = leb 2 (length s) && (elim (get_elem? s 0) [
  | none ↦ false
  | some q ↦
      (eqb q b'"' || eqb q b'\'')
      && (elim (get_elem? s (length s - 1)) [ none ↦ false | some r ↦ eqb q r ])
])

-- _infer_type
unfoldable pub infer_type : Str → Result Str
unfolding is_quoted is_float is_digit_text str_eq
infer_type s =
    if is_quoted s
    then ok (str "S")
    else if is_float s
    then ok (str "F")
    else if is_digit_text s
    then ok (str "I")
    else if s == str "[]"
    then ok (str "L")
    else if s == str "true" || s == str "false"
    then ok (str "B")
    else err runtime_error

-- value[1:-1] of a quoted text
unfoldable pub unquote : Str → Str
unfolding is_quoted
unquote s = if is_quoted s then take (length s - 2) (drop 1 s) else s

pub record Property : Type 0 where
  pub index : Bool
  pub index_key : Bool
  pub index_text : Bool
  pub unique : Bool
  pub type_and_default : JsType × Data
  pub comment : Str
  pub defaultvalue : Str
  pub name : Str

-- The property of a match
unfoldable pub property_of : Python → Groups → Result Property
unfolding infer_type unquote get_js_type str_eq
property_of python g =
    if g.name == str "id"
    then err name_error
    else (let inner = drop 1 g.prop_type in
        let value = unquote g.default_value in
        let pointer = drop 1 g.pointer_type in
        let defaultvalue = elim pointer as (λ _. Str) [ [] ↦ value | c ∷ s ↦ c ∷ s ] in
        (elim (take (length inner - 1) inner) as (λ _. Result Str) [
          | [] ↦ infer_type g.default_value
          | c ∷ s ↦ ok (c ∷ s)
        ])
        >>= λ prop_type. get_js_type python prop_type defaultvalue >>= λ t. ok (record {
          index = g.name == str "name" || g.unique || eqb g.qualifier 1;
          index_key = eqb g.qualifier 2;
          index_text = eqb g.qualifier 3;
          unique = g.unique;
          type_and_default = t;
          comment = drop 1 g.comment;
          defaultvalue = defaultvalue;
          name = g.name;
        }))

-- _parse_prop
abbrev pub matched_property : Python → Option Groups → Result Property
matched_property python none = err runtime_error
matched_property python (some g) = property_of python g

unfoldable pub parse_prop : Python → Str → Result Property
unfolding match_line
parse_prop python line = matched_property python (match_line line)
