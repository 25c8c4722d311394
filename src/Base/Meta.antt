-- ===== src/Base/Meta.antt =====
-- The fields of a class (core/base/meta.py, BaseMeta): its own and those of its bases.
pub mod Inherited
use js_ng.Prelude.{Option, none, some, List, [], ◌∷◌, Str, str_eq}
use js_ng.Prelude.Dict.{Dict, insert}
use js_ng.Base.Field.Data.{Field}

-- d.update(e)
unfoldable pub update {ℓ} : {V : Type ℓ} → Dict Str V → Dict Str V → Dict Str V
update d [] = d
update d ((k, v) ∷ e) = update (insert k v d) e

-- What stands in the body of a class: a field, or something else
pub data Attr (A : Type 0) : Type 0 where
  field : Field → Attr A
  other : A → Attr A

-- What stands in the class: the property of a field, or something else
pub data ClassAttr (A : Type 0) : Type 0 where
  property : Str → Field → ClassAttr A
  plain : A → ClassAttr A

-- super_fields; a base that has no _fields is `none`.
unfoldable pub super_fields : List (Option (Dict Str Field)) → Dict Str Field → Dict Str Field
unfolding update
super_fields [] found = found
super_fields (none ∷ based) found = super_fields based found
super_fields (some fields ∷ based) found = super_fields based (update found fields)

module _ {A : Type 0} where
  unfoldable pub as_attrs : Dict Str Field → Dict Str (Attr A)
  as_attrs [] = []
  as_attrs ((k, f) ∷ fields) = (k, field f) ∷ as_attrs fields

  -- `attrs.update(super_fields)`
  unfoldable pub all_attrs : List (Option (Dict Str Field)) → Dict Str (Attr A) → Dict Str (Attr A)
  unfolding update super_fields as_attrs
  all_attrs based attrs = update attrs (as_attrs (super_fields based []))

  -- The loop over the attributes: cls_fields and new_attrs
  unfoldable pub cls_fields : Dict Str (Attr A) → Dict Str Field → Dict Str Field
  cls_fields [] found = found
  cls_fields ((k, field f) ∷ attrs) found = cls_fields attrs (insert k f found)
  cls_fields ((k, other a) ∷ attrs) found = cls_fields attrs found

  unfoldable pub new_attrs : Dict Str (Attr A) → Dict Str (ClassAttr A) → Dict Str (ClassAttr A)
  new_attrs [] found = found
  new_attrs ((k, field f) ∷ attrs) found = new_attrs attrs (insert k (property k f) found)
  new_attrs ((k, other a) ∷ attrs) found = new_attrs attrs (insert k (plain a) found)

  -- BaseMeta.__new__: the attributes and the _fields of the new class
  unfoldable pub new_class :
      List (Option (Dict Str Field)) → Dict Str (Attr A) → Dict Str (ClassAttr A) × Dict Str Field
  unfolding all_attrs cls_fields new_attrs
  new_class based attrs =
      (new_attrs (all_attrs based attrs) [], cls_fields (all_attrs based attrs) [])
