-- ===== src/Base/Instance.antt =====
-- The property of a field of an instance (core/base/meta.py, get_field_property): reading and setting,
-- with the event that a change sends.
pub mod Laws
use js_ng.Prelude.{◌≡◌, Bool, true, false, not, Option, none, some, Str}
use js_ng.Prelude.Result.{Result, ok, err, guard, ◌>>=◌, ◌>>◌, validation_error, attribute_error}
use js_ng.Base.Value.{Value, Entries, get, put}
use js_ng.Base.Field.Data.{Library, Field, Fields, no_fields, with_field, options_of, is_object}
use js_ng.Base.Field.Nested.{from_raw, validate, get_attr}

-- AttributeUpdateEvent of core/base/events.py, beside the instance
pub record AttributeUpdate : Type 0 where
  pub name : Str
  pub new_value : Value

module _ (lib : Library) where
  -- The setter. Embedded objects are told their parent by `value.parent = self`; `parent` is a
  -- property of Base with no setter, so that this raises.
  unfoldable pub set_attr : Str → Field → Value → Entries → Result (Entries × AttributeUpdate)
  set_attr n f v attrs = do
    guard (not (options_of f).readonly) validation_error
    w ← from_raw lib f v
    validate lib f w
    guard (not (is_object f)) attribute_error
    ok (put n w attrs, record { name = n; new_value = w })
