-- ===== src/Schema/Whole.antt =====
-- A schema that is written as a text is parsed back.
use js_ng.Prelude.{
  ◌≡◌, refl, ap, ◌∙◌, true, List, none, some, [], ◌∷◌, ◌++◌, take, Str, str, str_eq, arith, inl,
  inr,
}
use js_ng.Prelude.Dict.{Dict, lookup, insert}
use js_ng.Prelude.Result.{key_error, Result, Result-cases, ok, err, ◌>>=◌}
use js_ng.Text.{split, join}
use js_ng.Text.Split.{HasNo, AllHaveNo, split_words, split_word, split-join}
use js_ng.Types.{Python}
use js_ng.Schema.Normalize.{normalize_string}
use js_ng.Schema.Line.{Property, parse_prop}
use js_ng.Schema.Parse.{
  Schema, new_schema, correct_url_number, parse_system_prop, pair_of, add_line, add_lines,
  parse_schema,
}
use js_ng.Schema.Matched.{PropLine, IsWritable, line_of, all_in, is_not}
use js_ng.Schema.RoundTrip.{described, parse_prop-line_of}

-- A line among the lines of a schema: it is one line, and does not begin as that of the url does.
pub record IsLine (l : PropLine) : Type 0 where
  pub written : IsWritable l
  pub first : all_in (is_not b'@') (take 1 (line_of l)) ≡ true
  pub whole : HasNo 10 (line_of l)

abbrev pub AreLines : List PropLine → Type 0
AreLines [] = Unit {0}
AreLines (l ∷ ls) = IsLine l × AreLines ls

abbrev pub lines_of : List PropLine → List Str
lines_of [] = []
lines_of (l ∷ ls) = line_of l ∷ lines_of ls

-- The text of a schema
unfoldable pub schema_text : Str → List PropLine → Str
unfolding join
schema_text url ls = join 10 ((str "@url=" ++ url) ∷ lines_of ls)

-- The text has no white space to drop, it says once what its url is, and the url is one word.
pub record IsTidy (url : Str) (ls : List PropLine) : Type 0 where
  pub normal : normalize_string (schema_text url ls) ≡ schema_text url ls
  pub one_url : correct_url_number (schema_text url ls) ≡ true
  pub url_line : HasNo 10 url
  pub url_uncommented : HasNo b'#' url
  pub url_value : HasNo b'=' url

-- The properties by name, each described by its line; the last of a name is kept.
unfoldable pub described_all :
    Python → List PropLine → Dict Str Property → Result (Dict Str Property)
unfolding described insert
described_all python [] props = ok props
described_all python (l ∷ ls) props =
    described python l >>= λ p. described_all python ls (insert p.name p props)

add_line_plain :
    (python : Python) (s : Str) (schema : Schema)
    → all_in (is_not b'@') (take 1 s) ≡ true
    → add_line python s schema
      ≡ (parse_prop python s >>= λ p. ok (record schema { props = insert p.name p schema.props }))
unfolding add_line all_in
add_line_plain python [] schema h = refl
add_line_plain python (c ∷ s) schema h = ground (arith, h)

-- The properties of a schema, replaced
abbrev with_props : Schema → Result (Dict Str Property) → Result Schema
with_props schema r = r >>= λ ps. ok (record schema { props = ps })

add_lines-lines_of :
    (python : Python) (ls : List PropLine) (schema : Schema)
    → AreLines ls
    → add_lines python (lines_of ls) schema
      ≡ with_props schema (described_all python ls schema.props)
unfolding add_lines described_all
add_lines-lines_of python [] schema w = refl
add_lines-lines_of python (l ∷ ls) schema (here, below) =
    let line = add_line_plain python (line_of l) schema here.first in
    let parsed = parse_prop-line_of python l here.written in
    elim (Result-cases (described python l)) [
      | inl (p, e) ↦
          rw (line, parsed, e)
            (add_lines-lines_of python ls (record schema { props = insert p.name p schema.props })
              below)
      | inr (x, e) ↦ rw (line, parsed, e) refl
    ]

parse_system_prop_url :
    (url : Str)
    → HasNo b'#' url
    → HasNo b'=' url
    → parse_system_prop (str "url=" ++ url) ≡ ok (str "url", url)
unfolding parse_system_prop
parse_system_prop_url url h k =
    rw (split_word b'#' (str "url=" ++ url) (refl, (refl, (refl, (refl, h))))) (
      ap pair_of (
        split_words b'=' (str "url") url (refl, (refl, (refl, tt)))
        ∙ ap (λ ws. str "url" ∷ ws) (split_word b'=' url k)))

lines-AllHaveNo : (ls : List PropLine) → AreLines ls → AllHaveNo 10 (lines_of ls)
lines-AllHaveNo [] w = tt
lines-AllHaveNo (l ∷ ls) (here, below) = (here.whole, lines-AllHaveNo ls below)

split-schema_text :
    (url : Str) (ls : List PropLine)
    → HasNo 10 url
    → AreLines ls
    → split 10 (schema_text url ls) ≡ (str "@url=" ++ url) ∷ lines_of ls
unfolding schema_text
split-schema_text url ls h w =
    split-join 10 (str "@url=" ++ url) (lines_of ls) (refl, (refl, (refl, (refl, (refl, h)))))
      (lines-AllHaveNo ls w)

-- A schema with a url and nothing else
abbrev with_url : Str → Schema
with_url url = record new_schema { system_props = (str "url", url) ∷ [] }

add_url :
    (python : Python) (url : Str)
    → HasNo b'#' url
    → HasNo b'=' url
    → add_line python (str "@url=" ++ url) new_schema ≡ ok (with_url url)
unfolding add_line
add_url python url h k = rw (parse_system_prop_url url h k) refl

-- The schema of a url and of properties
unfoldable pub schema_of : Str → Dict Str Property → Schema
schema_of url props = record { url = url; system_props = (str "url", url) ∷ []; props = props }

-- What parse_schema does with the lines
abbrev finished : Result Schema → Result Schema
finished r = r >>= λ schema. elim (lookup (str "url") schema.system_props) [
  | none ↦ err key_error
  | some url ↦ ok (record schema { url = url })
]

finished-with_props :
    (url : Str) (r : Result (Dict Str Property))
    → finished (with_props (with_url url) r) ≡ (r >>= λ props. ok (schema_of url props))
unfolding lookup schema_of str_eq
finished-with_props url (ok props) = refl
finished-with_props url (err x) = refl

-- A schema that is written as a text, its url on the first line and a property on each further one,
-- is parsed back to its url and its properties by name, each as its line describes it; where one
-- names a type that there is not, or has a default that shows no type, to the error of the first
-- such line. The text is one that _normalize_string leaves as it is and in which @url occurs once.
pub parse_schema-schema_text :
    (python : Python) (url : Str) (ls : List PropLine)
    → IsTidy url ls
    → AreLines ls
    → parse_schema python (schema_text url ls)
      ≡ (described_all python ls [] >>= λ props. ok (schema_of url props))
unfolding parse_schema add_lines
parse_schema-schema_text python url ls tidy w =
    rw
      (
        tidy.normal,
        tidy.one_url,
        split-schema_text url ls tidy.url_line w,
        add_url python url tidy.url_uncommented tidy.url_value,
        add_lines-lines_of python ls (with_url url) w,
      )
      (finished-with_props url (described_all python ls []))
