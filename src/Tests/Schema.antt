-- ===== src/Tests/Schema.antt =====
-- Lines of schemas, of which no literal is a list.
use js_ng.Prelude.{List, ◌∷◌, ◌≡◌, refl, true, false, none, [], Str, str, str_eq, pos}
use js_ng.Prelude.Result.{◌>>=◌, ok, err, runtime_error}
use js_ng.Types.{Data, Python, integer, get_js_type}
use js_ng.Schema.Normalize.{normalize_string}
use js_ng.Schema.Idempotent.{normalize_string_idem}
use js_ng.Schema.Line.{unquote}
use js_ng.Schema.Parse.{parse_schema, correct_url_number}
use js_ng.Schema.Whole.{
  AreLines, IsTidy, schema_text, described_all, schema_of, parse_schema-schema_text,
}
use js_ng.Text.Split.{HasNo}
use js_ng.Schema.Matched.{PropLine, IsWritable, line_of, all_in}
use js_ng.Schema.RoundTrip.{described}

abbrev python : Python
python = record { float_of = λ s. none; literal_eval = λ s. none; repr = λ d. [] }

abbrev loose : Str
loose = str " @url = a \n\n name * = 'my name' # the name \n"

normalize_string_idem_example : normalize_string (normalize_string loose) ≡ normalize_string loose
normalize_string_idem_example = normalize_string_idem loose

tight : normalize_string loose ≡ str "@url=a\nname*='my name'# the name"
unfolding normalize_string
tight = refl

abbrev age : PropLine
age = record {
  unique = true;
  name = str "age";
  stars = 2;
  default_value = str "'12'";
  type_code = str "I";
  pointer = [];
  comment = str " in years";
}

age-IsWritable : IsWritable age
unfolding all_in str_eq
age-IsWritable = record {
  named = refl;
  name_chars = refl;
  first_char = refl;
  not_id = refl;
  few_stars = refl;
  default_chars = refl;
  type_chars = refl;
  pointer_chars = refl;
}

-- The line, and the property
age_line : line_of age ≡ str "&age**='12'(I)# in years"
unfolding line_of
age_line = refl

age_property :
    described python age
    ≡ ok (record {
      index = true;
      index_key = true;
      index_text = false;
      unique = true;
      type_and_default = (integer, Data.int (pos 12));
      comment = str " in years";
      defaultvalue = str "12";
      name = str "age";
    })
unfolding described str_eq get_js_type unquote
age_property = refl

abbrev title : PropLine
title = record {
  unique = false;
  name = str "name";
  stars = 0;
  default_value = str "''";
  type_code = [];
  pointer = [];
  comment = [];
}

abbrev person : List PropLine
person = title ∷ age ∷ []

age-HasNo : HasNo 10 (line_of age)
unfolding line_of
age-HasNo = (
  refl,
  (
    refl,
    (
      refl,
      (
        refl,
        (
          refl,
          (
            refl,
            (
              refl,
              (
                refl,
                (
                  refl,
                  (
                    refl,
                    (
                      refl,
                      (
                        refl,
                        (
                          refl,
                          (
                            refl,
                            (
                              refl,
                              (
                                refl,
                                (refl, (refl, (refl, (refl, (refl, (refl, (refl, (refl, tt)))))))),
                              ),
                            ),
                          ),
                        ),
                      ),
                    ),
                  ),
                ),
              ),
            ),
          ),
        ),
      ),
    ),
  ),
)

person-AreLines : AreLines person
unfolding line_of all_in str_eq
person-AreLines = (
  record {
    written = record {
      named = refl;
      name_chars = refl;
      first_char = refl;
      not_id = refl;
      few_stars = refl;
      default_chars = refl;
      type_chars = refl;
      pointer_chars = refl;
    };
    first = refl;
    whole = (refl, (refl, (refl, (refl, (refl, (refl, (refl, tt)))))));
  },
  (record { written = age-IsWritable; first = refl; whole = age-HasNo }, tt),
)

person-IsTidy : IsTidy (str "a.person") person
unfolding schema_text line_of normalize_string correct_url_number str_eq
person-IsTidy = record {
  normal = refl;
  one_url = refl;
  url_line = (refl, (refl, (refl, (refl, (refl, (refl, (refl, (refl, tt))))))));
  url_uncommented = (refl, (refl, (refl, (refl, (refl, (refl, (refl, (refl, tt))))))));
  url_value = (refl, (refl, (refl, (refl, (refl, (refl, (refl, (refl, tt))))))));
}

parse_schema-schema_text_example :
    parse_schema python (schema_text (str "a.person") person)
    ≡ (described_all python person [] >>= λ props. ok (schema_of (str "a.person") props))
parse_schema-schema_text_example =
    parse_schema-schema_text python (str "a.person") person person-IsTidy person-AreLines

no_url : parse_schema python (str "name=''") ≡ err runtime_error
unfolding parse_schema str_eq
no_url = refl
