-- ===== src/Schema/RoundTrip.antt =====
-- A property that is written as a line is parsed back.
use js_ng.Prelude.{
  ℕ, ◌-◌, ◌≡◌, refl, ap, ◌∙◌, ◌||◌, [], ◌∷◌, ◌++◌, ◌==◌, str_eq, eqb, length, take, drop,
  length-append, take-append, Str, str, arith,
}
use js_ng.Prelude.Result.{Result, ok, ◌>>=◌}
use js_ng.Types.{Python, get_js_type}
use js_ng.Schema.Line.{matched_property, infer_type, unquote, Property, property_of, parse_prop}
use js_ng.Schema.Matched.{
  PropLine, marked, bracketed, IsWritable, line_of, groups_of, match_line-line_of,
}

drop-marked : (c : ℕ) (s : Str) → drop 1 (marked c s) ≡ s
drop-marked c [] = refl
drop-marked c (x ∷ s) = refl

take_before : (s : Str) (c : ℕ) → take (length (s ++ c ∷ []) - 1) (s ++ c ∷ []) ≡ s
take_before s c =
    take-append s (c ∷ []) (length (s ++ c ∷ []) - 1) (rw (length-append s (c ∷ [])) (omega arith))

inner-bracketed : (s : Str) → take (length (drop 1 (bracketed s)) - 1) (drop 1 (bracketed s)) ≡ s
inner-bracketed [] = refl
inner-bracketed (x ∷ s) = take_before (x ∷ s) b')'

-- The default that a line gives: what it points to, or the text without its quotation marks
unfoldable pub given_default : PropLine → Str
given_default l = elim l.pointer [ [] ↦ unquote l.default_value | c ∷ s ↦ c ∷ s ]

-- The type that a line gives, or that of its default
unfoldable pub given_type : PropLine → Result Str
given_type l = elim l.type_code [ [] ↦ infer_type l.default_value | c ∷ s ↦ ok (c ∷ s) ]

-- The property that a line describes
unfoldable pub described : Python → PropLine → Result Property
unfolding given_default given_type
described python l = given_type l >>= λ code. get_js_type python code (given_default l) >>= λ t.
    ok (record {
      index = l.name == str "name" || l.unique || eqb l.stars 1;
      index_key = eqb l.stars 2;
      index_text = eqb l.stars 3;
      unique = l.unique;
      type_and_default = t;
      comment = l.comment;
      defaultvalue = given_default l;
      name = l.name;
    })

property_of-groups_of :
    (python : Python) (l : PropLine)
    → IsWritable l
    → property_of python (groups_of l) ≡ described python l
unfolding property_of described given_default given_type groups_of
property_of-groups_of python l w =
    rw
      (
        w.not_id,
        inner-bracketed l.type_code,
        drop-marked b'!' l.pointer,
        drop-marked b'#' l.comment,
      )
      refl

-- A line that is written of a property (its mark if it is unique, its name, at most three stars,
-- the default, the type in brackets, the pointer and the comment, each where it is not empty) is
-- parsed back to what it describes: the property with this name, comment and default, of the type
-- given or of that which the default has, indexed as the stars, the mark or the name say; where
-- there is no such type, the error of it.
pub parse_prop-line_of :
    (python : Python) (l : PropLine)
    → IsWritable l
    → parse_prop python (line_of l) ≡ described python l
unfolding parse_prop
parse_prop-line_of python l w =
    ap (matched_property python) (match_line-line_of l w) ∙ property_of-groups_of python l w
