-- ===== src/Base/Field/Data.antt =====
-- The field classes as one data type, with the options that each keeps (core/base/fields.py, the
-- `__init__`s), and the calls of other libraries that they make.
use js_ng.Prelude.{
  ℕ, Bool, true, false, Option, none, some, List, [], ◌∷◌, ◌==◌, str_eq, nat_eq, if◌then◌else◌, Str,
  str, ℤ, pos, ltbℤ, not, ◌&&◌,
}
use js_ng.Prelude.Result.{Result, ok, err, value_error}
use js_ng.Base.Value.{Value, null, bool, int, text, member, Foreign, PyType}

-- What the fields call outside the program. Objects of those libraries are numbered.
pub record Library : Type 0 where
  -- bool(x) of a float or a complex number
  pub truthy : Foreign → ℕ → Bool
  -- float(s); `none` is its ValueError
  pub float_of : Str → Option ℕ
  -- whether urlparse(v) has a scheme and a netloc
  pub has_netloc : Value → Result Bool
  -- whether ipaddress.ip_interface(v) returns
  pub ip_interface : Value → Bool
  -- arrow.Arrow.strptime(s, format).to("utc")
  pub strptime : Str → Str → Result ℕ
  -- arrow.get(v)
  pub arrow_get : Value → Result ℕ
  -- t.strftime(format)
  pub strftime : ℕ → Str → Str
  -- .datetime, .date() and .time() of an arrow object
  pub part : Foreign → ℕ → ℕ
  -- .to("utc").timestamp of an arrow object
  pub timestamp : ℕ → ℤ

-- A function that raises if it does not accept the value.
abbrev pub Validator : Type 0
Validator = Value → Result (Unit {0})

pub record Options : Type 0 where
  pub default : Value
  pub required : Bool
  pub indexed : Bool
  pub readonly : Bool
  pub validators : List Validator

-- Field(default=v)
unfoldable pub field_options : Value → Options
field_options v = record {
  default = v;
  required = false;
  indexed = false;
  readonly = false;
  validators = [];
}

mutual
  pub data Field : Type 0 where
    plain boolean float email path url tel ip_address : Options → Field
    typed : PyType → Options → Field
    -- min
    integer : Option ℤ → Options → Field
    -- maxlen
    string secret : Option ℕ → Options → Field
    -- the name and the fields of the embedded class
    object : Str → Fields → Options → Field
    list : Field → Options → Field
    -- the name of the enum, and the values of its members in order
    enum : Str → List Value → Options → Field
    -- DateTime, Date and Time, with the format
    moment : Foreign → Str → Options → Field
    -- whether the factory is a stored one
    factory : Bool → Options → Field

  -- The `_fields` of a class, in order.
  pub data Fields : Type 0 where
    no_fields : Fields
    with_field : Str → Field → Fields → Fields

unfoldable pub options_of : Field → Options
options_of (plain o) = o
options_of (boolean o) = o
options_of (float o) = o
options_of (email o) = o
options_of (path o) = o
options_of (url o) = o
options_of (tel o) = o
options_of (ip_address o) = o
options_of (typed t o) = o
options_of (integer m o) = o
options_of (string m o) = o
options_of (secret m o) = o
options_of (object c fs o) = o
options_of (list f o) = o
options_of (enum c vs o) = o
options_of (moment t format o) = o
options_of (factory stored o) = o

-- isinstance(field, fields.Secret), isinstance(field, fields.Factory), isinstance(field, fields.Object)
abbrev pub is_secret : Field → Bool
is_secret (secret m o) = true
is_secret _ = false

abbrev pub is_factory : Field → Bool
is_factory (factory stored o) = true
is_factory _ = false

abbrev pub is_object : Field → Bool
is_object (object c fs o) = true
is_object _ = false

-- Boolean()
unfoldable pub boolean_field : Field
unfolding field_options
boolean_field = boolean (field_options (bool false))

-- Integer(min=m)
unfoldable pub integer_field : Option ℤ → Field
unfolding field_options
integer_field m = integer m (field_options (int (pos 0)))

-- String(maxlen=m)
unfoldable pub string_field : Option ℕ → Field
unfolding field_options
string_field m = string m (field_options null)

-- Secret(maxlen=m)
unfoldable pub secret_field : Option ℕ → Field
unfolding field_options
secret_field m = secret m (field_options null)

-- Enum(enum_type): the default is the first member.
unfoldable pub enum_field : Str → Value → List Value → Field
unfolding field_options
enum_field c v vs = enum c (v ∷ vs) (field_options (member c v))

-- DateTime(format_=f), Date(format_=f), Time(format_=f): an empty format is replaced.
unfoldable pub moment_format : Foreign → Option Str → Str
moment_format t (some (c ∷ s)) = c ∷ s
moment_format Foreign.datetime _ = str "%Y-%m-%d %H:%M"
moment_format Foreign.date _ = str "%Y-%m-%d"
moment_format _ _ = str "%H:%M"

unfoldable pub moment_field : Foreign → Option Str → Field
unfolding field_options moment_format
moment_field t f = moment t (moment_format t f) (field_options null)

-- Factory(type_, stored=b): always read only.
unfoldable pub factory_field : Bool → Field
unfolding field_options
factory_field stored = factory stored (record (field_options null) { readonly = true })

-- Email(), Path(), URL(), Tel() and IPAddress() have the empty text for a default.
unfoldable pub email_field : Field
unfolding field_options
email_field = email (field_options (text []))

-- `==` between the values that an enum may give its members.
unfoldable pub same_scalar : Value → Value → Bool
same_scalar null null = true
same_scalar (bool true) (bool b) = b
same_scalar (bool false) (bool b) = not b
same_scalar (int m) (int n) = not (ltbℤ m n) && not (ltbℤ n m)
same_scalar (text s) (text t) = s == t
same_scalar _ _ = false

unfoldable pub find_value : Value → List Value → Option Value
unfolding same_scalar
find_value v [] = none
find_value v (w ∷ ws) = if same_scalar v w then some w else find_value v ws

-- enum_type(v)
unfoldable pub enum_call : Str → List Value → Value → Result Value
unfolding find_value
enum_call c ws (member d v) = if d == c then ok (member d v) else err value_error
enum_call c ws v = elim (find_value v ws) [ none ↦ err value_error | some w ↦ ok (member c w) ]
