-- ===== src/Base/Field/Scalar.antt =====
-- `validate` and `from_raw` of the field classes that hold no other field (core/base/fields.py).
use js_ng.Prelude.{
  ℕ, Bool, true, false, not, ◌&&◌, ◌||◌, Option, none, some, List, [], ◌∷◌, str_eq, contains,
  if◌then◌else◌, ltb, Str, str, ℤ, pos, negsuc, eqb,
}
use js_ng.Prelude.Result.{
  Result, ok, err, guard, ◌>>=◌, ◌>>◌, validation_error, value_error, type_error, attribute_error,
}
use js_ng.Base.Value.{
  Value, null, bool, int, text, foreign, list, dict, member, factory, nil, end, Foreign, PyType,
  int_type, str_type, foreign_type, is_instance, less_than, length_of,
}
use js_ng.Base.Field.Data.{Library, Validator, Options, enum_call}
use js_ng.Base.Field.Patterns.{email_regex, path_regex, tel_regex, validate_pattern}
use js_ng.Text.{strip, lower, int_of, remove_char}

-- `for validator in self.validators: validator(value)`
unfoldable pub run_validators : List Validator → Value → Result (Unit {0})
run_validators [] v = ok tt
run_validators (f ∷ fs) v = do f v; run_validators fs v

abbrev pub is_null : Value → Bool
is_null null = true
is_null _ = false

-- Field.validate
unfoldable pub base_validate : Options → Value → Result (Unit {0})
unfolding run_validators
base_validate o v = do
  guard (not (is_null v && o.required)) validation_error
  run_validators o.validators v

-- Typed.validate
unfoldable pub typed_validate : PyType → Options → Value → Result (Unit {0})
unfolding is_instance base_validate
typed_validate t o v = do base_validate o v; guard (is_null v || is_instance v t) validation_error

unfoldable pub min_check : Option ℤ → Value → Result (Unit {0})
unfolding less_than
min_check none v = ok tt
min_check (some m) v = elim (less_than v m) [
  | none ↦ err type_error
  | some b ↦ guard (not b) validation_error
]

-- Integer.validate
unfoldable pub integer_validate : Option ℤ → Options → Value → Result (Unit {0})
unfolding typed_validate min_check
integer_validate m o v = do typed_validate int_type o v; min_check m v

unfoldable pub maxlen_check : Option ℕ → Value → Result (Unit {0})
unfolding length_of
maxlen_check none v = ok tt
maxlen_check (some m) v = elim (length_of v) [
  | none ↦ err type_error
  | some n ↦ guard (not (ltb m n)) validation_error
]

-- String.validate, which Secret inherits
unfoldable pub string_validate : Option ℕ → Options → Value → Result (Unit {0})
unfolding typed_validate maxlen_check
string_validate m o v = do typed_validate str_type o v; maxlen_check m v

-- Email.validate
unfoldable pub email_validate : Options → Value → Result (Unit {0})
unfolding base_validate validate_pattern
email_validate o v = do base_validate o v; validate_pattern email_regex v

-- Path.validate
unfoldable pub path_validate : Options → Value → Result (Unit {0})
unfolding base_validate validate_pattern
path_validate o v = do base_validate o v; validate_pattern path_regex v

-- Tel.validate
unfoldable pub tel_validate : Options → Value → Result (Unit {0})
unfolding base_validate validate_pattern
tel_validate o v = do base_validate o v; validate_pattern tel_regex v

abbrev true_words : List Str
true_words = str "yes" ∷ str "on" ∷ str "true" ∷ []

abbrev false_words : List Str
false_words = str "no" ∷ str "off" ∷ str "false" ∷ []

unfoldable pub bool_of_text : Str → Value
unfolding contains
bool_of_text s =
    if contains true_words s
    then bool true
    else if contains false_words s
    then bool false
    else text s

-- Tel.from_raw: five signs are taken out of a text; None is kept.
unfoldable pub clean_tel : Str → Str
unfolding remove_char
clean_tel s =
    remove_char b' ' (remove_char b')' (remove_char b'(' (remove_char b'-' (remove_char b',' s))))

unfoldable pub tel_from_raw : Value → Result Value
unfolding clean_tel
tel_from_raw null = ok null
tel_from_raw (text s) = ok (text (clean_tel s))
tel_from_raw v = err attribute_error

-- Integer.from_raw: a text that is no number is left as it is.
unfoldable pub integer_from_raw : Value → Value
unfolding strip int_of
integer_from_raw (text s) = elim (int_of (strip s)) [ none ↦ text s | some n ↦ int n ]
integer_from_raw v = v

-- Enum.from_raw: a ValueError leaves the value as it is.
unfoldable pub enum_from_raw : Str → List Value → Value → Result Value
unfolding enum_call
enum_from_raw c ws v = elim (enum_call c ws v) [ ok w ↦ ok w | err e ↦ ok v ]

-- Enum.to_raw
unfoldable pub enum_to_raw : Value → Result Value
enum_to_raw (member c v) = ok v
enum_to_raw v = err attribute_error

-- The class that the factory field is given makes a factory object.
unfoldable pub factory_validate : Options → Value → Result (Unit {0})
unfolding base_validate
factory_validate o v = do
  base_validate o v
  guard (elim v [ factory n ↦ true | _ ↦ false ]) validation_error

module _ (lib : Library) where
  -- bool(v) of a number
  unfoldable pub truth : Value → Bool
  truth null = false
  truth (bool b) = b
  truth (int (pos n)) = not (eqb n 0)
  truth (int (negsuc n)) = true
  truth (text []) = false
  truth (foreign c n) = lib.truthy c n
  truth (list nil) = false
  truth (dict end) = false
  truth _ = true

  -- Boolean.from_raw
  unfoldable pub boolean_from_raw : Value → Value
  unfolding lower strip bool_of_text truth
  boolean_from_raw (text s) = bool_of_text (strip (lower s))
  boolean_from_raw (bool b) = bool b
  boolean_from_raw (int n) = bool (truth (int n))
  boolean_from_raw (foreign Foreign.float n) = bool (truth (foreign Foreign.float n))
  boolean_from_raw (foreign Foreign.complex n) = bool (truth (foreign Foreign.complex n))
  boolean_from_raw v = v

  -- Float.from_raw
  unfoldable pub float_from_raw : Value → Value
  unfolding strip
  float_from_raw (text s) = elim (lib.float_of (strip s)) [
    | none ↦ text s
    | some n ↦ foreign Foreign.float n
  ]
  float_from_raw v = v

  -- URL.validate
  unfoldable pub url_validate : Options → Value → Result (Unit {0})
  unfolding base_validate
  url_validate o v = do base_validate o v; b ← lib.has_netloc v; guard b validation_error

  -- IPAddress.validate: every exception of the parser is a ValidationError.
  unfoldable pub ip_validate : Options → Value → Result (Unit {0})
  unfolding base_validate
  ip_validate o v = do base_validate o v; guard (lib.ip_interface v) validation_error

  -- DateTimeMixin.get_arrow_obj
  unfoldable pub get_arrow_obj : Str → Value → Result ℕ
  get_arrow_obj format (foreign Foreign.time n) = lib.strptime (lib.strftime n format) format
  get_arrow_obj format (text s) = lib.strptime s format
  get_arrow_obj format v = lib.arrow_get v

  abbrev parsed : Foreign → Value → Result ℕ → Result Value
  parsed t v (ok n) = ok (foreign t (lib.part t n))
  parsed t v (err value_error) = ok v
  parsed t v (err e) = err e

  -- DateTimeMixin.from_raw: what cannot be parsed is left for `validate`.
  unfoldable pub moment_from_raw : Foreign → Str → Value → Result Value
  unfolding get_arrow_obj
  moment_from_raw t format (bool b) = parsed t (bool b) (get_arrow_obj format (bool b))
  moment_from_raw t format (int n) = parsed t (int n) (get_arrow_obj format (int n))
  moment_from_raw t format (foreign Foreign.float n) =
      parsed t (foreign Foreign.float n) (get_arrow_obj format (foreign Foreign.float n))
  moment_from_raw t format (text s) = parsed t (text s) (get_arrow_obj format (text s))
  moment_from_raw t format v = ok v

  -- DateTimeMixin.to_raw
  unfoldable pub moment_to_raw : Str → Value → Result Value
  unfolding get_arrow_obj
  moment_to_raw format v = do n ← get_arrow_obj format v; ok (int (lib.timestamp n))

  abbrev is_text : Value → Bool
  is_text (text s) = true
  is_text _ = false

  -- DateTimeMixin.validate, then Typed.validate
  unfoldable pub moment_validate : Foreign → Str → Options → Value → Result (Unit {0})
  unfolding moment_from_raw typed_validate
  moment_validate t format o v = do
    w ← moment_from_raw t format v
    guard (not (is_text w)) validation_error
    typed_validate (foreign_type t) o v
