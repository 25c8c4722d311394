-- ===== src/Base/Store/Storable.antt =====
-- The values that a field keeps when its instance is saved and loaded, class by class
-- (core/base/fields.py).
use js_ng.Prelude.{◌≡◌, none, str_eq, Str}
use js_ng.Prelude.Result.{ok, ◌>>=◌}
use js_ng.Base.Value.{
  Value, null, bool, int, text, list, dict, object, member, Items, nil, cons, Entries, end, entry,
  get,
}
use js_ng.Base.Field.Data.{
  Library, Field, Fields, no_fields, with_field, plain, typed, boolean, integer, string, secret,
  enum, email, path, url, tel, ip_address, options_of, enum_call,
}
use js_ng.Base.Field.Scalar.{clean_tel}
use js_ng.Base.Field.Nested.{from_raw}
use js_ng.Base.Store.Config.{Vault}
use js_ng.Base.Store.Chain.{IsName}

-- What JSON gives back as it was.
abbrev pub IsScalar : Value → Type 0
IsScalar null = Unit
IsScalar (bool b) = Unit
IsScalar (int n) = Unit
IsScalar (text s) = Unit
IsScalar _ = ⊥

abbrev mutual
  pub IsJson : Value → Type 0
  IsJson null = Unit
  IsJson (bool b) = Unit
  IsJson (int n) = Unit
  IsJson (text s) = Unit
  IsJson (list vs) = IsJsonItems vs
  IsJson (dict d) = IsJsonEntries d
  IsJson _ = ⊥

  pub IsJsonItems : Items → Type 0
  IsJsonItems nil = Unit
  IsJsonItems (cons v vs) = IsJson v × IsJsonItems vs

  pub IsJsonEntries : Entries → Type 0
  IsJsonEntries end = Unit
  IsJsonEntries (entry k v d) = (get k d ≡ none) × IsJson v × IsJsonEntries d

-- What is documented of the box and of JSON: they undo what they did.
pub record IsLawful (vault : Vault) : Type 0 where
  pub decrypt-encrypt : (s : Str) → vault.decrypt (vault.encrypt s) ≡ ok s
  pub loads-dumps : (v : Value) → IsJson v → (vault.dumps v >>= vault.loads) ≡ ok v

abbrev IsText : Value → Type 0
IsText (text s) = Unit
IsText _ = ⊥

-- A value that a field with no other field in it writes and reads as a scalar.
abbrev pub KeptScalar : Field → Value → Type 0
KeptScalar (plain o) v = IsScalar v
KeptScalar (typed t o) v = IsScalar v
KeptScalar (boolean o) (bool b) = Unit
KeptScalar (integer m o) (int n) = Unit
KeptScalar (string m o) v = IsScalar v
KeptScalar (email o) v = IsScalar v
KeptScalar (path o) v = IsScalar v
KeptScalar (url o) v = IsScalar v
KeptScalar (ip_address o) v = IsScalar v
KeptScalar (tel o) (text s) = clean_tel s ≡ s
KeptScalar (enum c vs o) (member d v) = IsScalar v × (enum_call c vs v ≡ ok (member d v))
KeptScalar _ _ = ⊥

abbrev pub KeptItems : Field → Items → Type 0
KeptItems f nil = Unit
KeptItems f (cons v vs) = KeptScalar f v × KeptItems f vs

abbrev mutual
  -- Lists are kept if their items are scalars; objects, if all of their fields are.
  pub Kept : Library → Field → Value → Type 0
  Kept lib (secret m o) v = IsText v
  Kept lib (Field.list f o) (list vs) = KeptItems f vs
  Kept lib (Field.object c fs o) (object d attrs) = (d ≡ c) × Storable lib fs attrs
  Kept lib f v = KeptScalar f v

  -- The attributes are those of the fields, in order, under distinct names, each is kept, and the
  -- defaults can be read.
  pub Storable : Library → Fields → Entries → Type 0
  Storable lib no_fields end = Unit
  Storable lib (with_field n f fs) (entry m v a) =
      (n ≡ m)
      × IsName m
      × (get m a ≡ none)
      × Kept lib f v
      × ((x : Value) × (from_raw lib f (options_of f).default ≡ ok x))
      × Storable lib fs a
  Storable lib _ _ = ⊥
