-- ===== src/Types.antt =====
-- data/types/types.py: the types of schema properties, on texts.
pub mod Laws
pub mod Patterns
use js_ng.Prelude.{
  ℕ, Bool, true, false, ◌&&◌, ◌||◌, Option, none, some, List, [], ◌∷◌, ◌==◌, str_eq, if◌then◌else◌,
  eqb, leb, length, get_elem?, ◌-◌, Str, str, ℤ,
}
use js_ng.Prelude.Result.{Result, ok, err, value_error, type_error, key_error, ◌>>=◌}
use js_ng.Text.{strip, int_of}
use js_ng.Text.Decimal.{show, show_bool}

-- Data of Python; the values of floats are numbered, as are the objects of other classes, of which
-- only those are meant that a loop cannot go over.
mutual
  pub data Data : Type 0 where
    nothing : Data
    int : ℤ → Data
    float : ℕ → Data
    bool : Bool → Data
    text : Str → Data
    list : Items → Data
    other : ℕ → Data

  pub data Items : Type 0 where
    nil : Items
    cons : Data → Items → Items

-- The classes; `list_of` is List with its subtype.
pub data JsType : Type 0 where
  string integer boolean floating js_object : JsType
  list_of : JsType → JsType

-- What is not of this module: float(s), ast.literal_eval(s), which raises for none, and the repr of
-- floats, lists and other objects.
pub record Python : Type 0 where
  pub float_of : Str → Option ℕ
  pub literal_eval : Str → Option Data
  pub repr : Data → Str

abbrev pub is_some : {A : Type 0} → Option A → Bool
is_some none = false
is_some (some a) = true

-- The brackets around a list
unfoldable pub in_brackets : Str → Bool
in_brackets s =
    leb 2 (length s)
    && (elim (get_elem? s 0) [ none ↦ false | some c ↦ eqb c b'[' ])
    && (elim (get_elem? s (length s - 1)) [ none ↦ false | some c ↦ eqb c b']' ])

-- The default that the constructors take in place of a default that is empty or None
unfoldable pub fallback : JsType → Str
fallback string = []
fallback integer = str "0"
fallback boolean = str "False"
fallback floating = str "0.0"
fallback js_object = []
fallback (list_of t) = str "[]"

-- The types of one letter in get_js_type
unfoldable pub letter_type : Str → Result JsType
unfolding str_eq
letter_type s =
    if s == []
    then ok string
    else if s == str "S"
    then ok string
    else if s == str "I"
    then ok integer
    else if s == str "B"
    then ok boolean
    else if s == str "F"
    then ok floating
    else if s == str "O"
    then ok js_object
    else err key_error

-- get_js_type: the type, without its default
unfoldable pub type_of : Str → Result JsType
unfolding letter_type
type_of [] = letter_type []
type_of (c ∷ s) =
    let inner = type_of s in
    if eqb c b'L' then (inner >>= λ t. ok (list_of t)) else letter_type (c ∷ s)

module _ (python : Python) where
  -- str(e)
  unfoldable pub str_of : Data → Str
  unfolding show show_bool
  str_of nothing = str "None"
  str_of (int i) = show i
  str_of (bool b) = show_bool b
  str_of (text s) = s
  str_of d = python.repr d

  -- check of the classes but List
  unfoldable pub check_scalar : JsType → Str → Bool
  unfolding strip int_of str_eq
  check_scalar string s = true
  check_scalar integer s = is_some (int_of (strip s))
  check_scalar boolean s = s == str "True" || s == str "False"
  check_scalar floating s = is_some (python.float_of s)
  check_scalar js_object s = true
  check_scalar (list_of t) s = false

  -- from_str of the classes but List
  unfoldable pub scalar_from_str : JsType → Str → Data
  unfolding strip int_of str_eq
  scalar_from_str string s = text s
  scalar_from_str integer s = elim (int_of (strip s)) [ none ↦ nothing | some i ↦ int i ]
  scalar_from_str boolean s =
      if s == str "True" then bool true else if s == str "False" then bool false else nothing
  scalar_from_str floating s = elim (python.float_of s) [ none ↦ nothing | some f ↦ float f ]
  scalar_from_str js_object s = text s
  scalar_from_str (list_of t) s = nothing

  -- List._deep_check, of the list type with the given subtype
  unfoldable mutual
    unfolding check_scalar str_of

    pub deep_check : JsType → Data → Bool
    deep_check t (list es) = deep_check_all t es
    deep_check t _ = false

    pub deep_check_all : JsType → Items → Bool
    deep_check_all t nil = true
    deep_check_all (list_of t) (cons e es) = deep_check t e && deep_check_all (list_of t) es
    deep_check_all t (cons e es) = check_scalar t (str_of e) && deep_check_all t es

  -- List._deep_parse; a text that is not empty, and what is no list, raises.
  unfoldable mutual
    unfolding scalar_from_str str_of

    pub deep_parse : JsType → Data → Result Data
    deep_parse t (list es) = deep_parse_all t es >>= λ ds. ok (list ds)
    deep_parse t (text []) = ok (text [])
    deep_parse t _ = err type_error

    pub deep_parse_all : JsType → Items → Result Items
    deep_parse_all t nil = ok nil
    deep_parse_all (list_of t) (cons e es) =
        deep_parse t e >>= λ d. deep_parse_all (list_of t) es >>= λ ds. ok (cons d ds)
    deep_parse_all t (cons e es) =
        deep_parse_all t es >>= λ ds. ok (cons (scalar_from_str t (str_of e)) ds)

  -- check
  unfoldable pub check : JsType → Str → Bool
  unfolding check_scalar deep_check in_brackets
  check (list_of t) s =
      in_brackets s && (elim (python.literal_eval s) [ none ↦ false | some d ↦ deep_check t d ])
  check t s = check_scalar t s

  -- from_str
  unfoldable pub from_str : JsType → Str → Result Data
  unfolding scalar_from_str deep_parse
  from_str (list_of js_object) s = ok (text s)
  from_str (list_of t) s = elim (python.literal_eval s) [
    | none ↦ err value_error
    | some d ↦ deep_parse t d
  ]
  from_str t s = ok (scalar_from_str t s)

  -- The constructors: the attribute default
  unfoldable pub default_of : JsType → Str → Result Data
  unfolding from_str fallback
  default_of string s = ok (text s)
  default_of t [] = from_str t (fallback t)
  default_of t (c ∷ s) = from_str t (c ∷ s)

  -- get_js_type: the type and its default, which is given or empty
  unfoldable pub get_js_type : Str → Str → Result (JsType × Data)
  unfolding type_of default_of
  get_js_type s default_value = type_of s >>= λ t. default_of t default_value >>= λ d. ok (t, d)
