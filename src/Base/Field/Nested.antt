-- ===== src/Base/Field/Nested.antt =====
-- `from_raw`, `to_raw` and `validate` of every field class, with those that hold other fields
-- (core/base/fields.py: Object and List), and the methods of an instance that they call
-- (core/base/meta.py: Base.__init__, _set_data, _get_data and validate).
use js_ng.Prelude.{none, some, ◌∷◌, if◌then◌else◌, Str}
use js_ng.Prelude.Result.{
  Result, ok, err, ◌>>=◌, ◌>>◌, validation_error, value_error, attribute_error,
}
use js_ng.Base.Value.{
  Value, null, list, dict, object, factory, Items, nil, cons, Entries, end, get, put, map_items,
  iterate, Foreign, PyType, base_type, bool_type,
}
use js_ng.Base.Field.Data.{
  Library, Field, Fields, plain, typed, boolean, integer, float, string, secret, enum, email, path,
  url, tel, ip_address, moment, no_fields, with_field, field_options, is_secret, is_factory,
  options_of,
}
use js_ng.Base.Field.Scalar.{
  base_validate, typed_validate, integer_validate, string_validate, email_validate, path_validate,
  tel_validate, url_validate, ip_validate, moment_validate, factory_validate, boolean_from_raw,
  integer_from_raw, float_from_raw, tel_from_raw, enum_from_raw, enum_to_raw, moment_from_raw,
  moment_to_raw, truth,
}

-- The `except (ValidationError, ValueError): pass` of _set_data.
unfoldable pub absorb : Str → Entries → Result Value → Result Entries
absorb n attrs (ok v) = ok (put n v attrs)
absorb n attrs (err validation_error) = ok attrs
absorb n attrs (err value_error) = ok attrs
absorb n attrs (err e) = err e

-- The `except AttributeError` of Object.validate.
unfoldable pub no_attribute_error : Result (Unit {0}) → Result (Unit {0})
no_attribute_error (err attribute_error) = err validation_error
no_attribute_error r = r

unfoldable pub validate_items : (Value → Result (Unit {0})) → Items → Result (Unit {0})
validate_items f nil = ok tt
validate_items f (cons v vs) = do f v; validate_items f vs

-- The items that List.validate looks at.
unfoldable pub items_or_none : Value → Result Items
unfolding iterate
items_or_none null = ok nil
items_or_none v = iterate v

-- f"__{name}"
abbrev pub mark : Str → Str
mark n = b'_' ∷ b'_' ∷ n

-- The key that `_get_data` gives to a field.
abbrev pub data_key : Str → Field → Str
data_key n f = if is_secret f then mark n else n

module _ (lib : Library) where
  unfoldable mutual
    unfolding boolean_from_raw integer_from_raw float_from_raw tel_from_raw enum_from_raw
        moment_from_raw iterate absorb truth map_items

    pub from_raw : Field → Value → Result Value
    from_raw (boolean o) v = ok (boolean_from_raw lib v)
    from_raw (integer m o) v = ok (integer_from_raw v)
    from_raw (float o) v = ok (float_from_raw lib v)
    from_raw (tel o) v = tel_from_raw v
    from_raw (enum c vs o) v = enum_from_raw c vs v
    from_raw (moment t format o) v = moment_from_raw lib t format v
    from_raw (Field.object c fs o) (dict d) = do
      new ← init_values fs end end
      attrs ← set_data fs d new
      ok (object c attrs)
    from_raw (Field.list f o) v =
        if truth lib v
        then (do vs ← iterate v; ws ← map_items (from_raw f) vs; ok (list ws))
        else ok (list nil)
    from_raw f v = ok v

    -- Base.__init__: the fields of the class, the values given, and the attributes set so far.
    pub init_values : Fields → Entries → Entries → Result Entries
    init_values no_fields values attrs = ok attrs
    init_values (with_field n f fs) values attrs = do
      v ← (if is_factory f then ok (factory n) else from_raw f (options_of f).default)
      init_values fs values
          (put n (if is_factory f then v else elim (get n values) [ none ↦ v | some w ↦ w ]) attrs)

    -- Base._set_data
    pub set_data : Fields → Entries → Entries → Result Entries
    set_data no_fields new attrs = ok attrs
    set_data (with_field n f fs) new attrs = do
      attrs' ← elim (get n new) [ none ↦ ok attrs | some v ↦ absorb n attrs (from_raw f v) ]
      set_data fs new attrs'

  -- getattr(self, name), through the property of the field
  unfoldable pub get_attr : Str → Field → Entries → Result Value
  get_attr n f attrs = elim (get n attrs) [
    | none ↦ from_raw f (options_of f).default
    | some v ↦ ok v
  ]

  unfoldable mutual
    unfolding get_attr enum_to_raw moment_to_raw iterate truth map_items

    pub to_raw : Field → Value → Result Value
    to_raw (enum c vs o) v = enum_to_raw v
    to_raw (moment t format o) v = moment_to_raw lib format v
    to_raw (Field.object c fs o) (object d attrs) = do raw ← get_data fs attrs end; ok (dict raw)
    to_raw (Field.object c fs o) v = err attribute_error
    to_raw (Field.list f o) v =
        if truth lib v
        then (do vs ← iterate v; ws ← map_items (to_raw f) vs; ok (list ws))
        else ok (list nil)
    to_raw (Field.factory stored o) v = ok null
    to_raw f v = ok v

    -- Base._get_data: the fields of the class, the attributes, and the data so far.
    pub get_data : Fields → Entries → Entries → Result Entries
    get_data no_fields attrs raw = ok raw
    get_data (with_field n f fs) attrs raw = do
      raw' ←
          (if is_factory f
            then ok raw
            else do v ← get_attr n f attrs; w ← to_raw f v; ok (put (data_key n f) w raw))
      get_data fs attrs raw'

  unfoldable mutual
    unfolding get_attr base_validate typed_validate integer_validate string_validate email_validate
        path_validate tel_validate url_validate ip_validate moment_validate factory_validate
        no_attribute_error validate_items items_or_none

    pub validate : Field → Value → Result (Unit {0})
    validate (plain o) v = base_validate o v
    validate (typed t o) v = typed_validate t o v
    validate (boolean o) v = typed_validate bool_type o v
    validate (integer m o) v = integer_validate m o v
    validate (float o) v = typed_validate (PyType.foreign_type Foreign.float) o v
    validate (string m o) v = string_validate m o v
    validate (secret m o) v = string_validate m o v
    validate (email o) v = email_validate o v
    validate (path o) v = path_validate o v
    validate (url o) v = url_validate lib o v
    validate (tel o) v = tel_validate o v
    validate (ip_address o) v = ip_validate lib o v
    validate (enum c vs o) v = typed_validate (PyType.enum_type c) o v
    validate (moment t format o) v = moment_validate lib t format o v
    validate (Field.factory stored o) v = factory_validate o v
    validate (Field.object c fs o) (object d attrs) = do
      typed_validate (base_type c) o (object d attrs)
      no_attribute_error (validate_fields fs attrs)
    validate (Field.object c fs o) v = do typed_validate (base_type c) o v; err validation_error
    validate (Field.list f o) v = do
      base_validate o v
      vs ← items_or_none v
      validate_items (validate f) vs

    -- Base.validate
    pub validate_fields : Fields → Entries → Result (Unit {0})
    validate_fields no_fields attrs = ok tt
    validate_fields (with_field n f fs) attrs = do
      v ← get_attr n f attrs
      validate f v
      validate_fields fs attrs

  -- Object(type_): the default is a new instance.
  unfoldable pub object_field : Str → Fields → Entries → Result Field
  unfolding from_raw
  object_field c fs kwargs = do
    attrs ← init_values fs kwargs end
    ok (Field.object c fs (field_options (object c attrs)))
