-- ===== src/Base/Meta/Inherited.antt =====
-- Which field of a class stands under a name.
use js_ng.Prelude.{
  ◌≡◌, refl, ap, ◌∙◌, Option, none, some, List, [], ◌∷◌, ◌==◌, str_eq, arith, Str, Bool-cases, inl,
  inr, Option-cases, ==→eq,
}
use js_ng.Prelude.Dict.{Dict, lookup, insert, lookup-insert, insert-NodupKeys, NodupKeys}
use js_ng.Base.Field.Data.{Field}
use js_ng.Base.Meta.{
  update, Attr, field, other, ClassAttr, property, plain, super_fields, as_attrs, all_attrs,
  cls_fields, new_attrs, new_class,
}

-- The first value, or else the second
abbrev pub or_else {ℓ} : {V : Type ℓ} → Option V → Option V → Option V
or_else (some v) o = some v
or_else none o = o

lookup-update {ℓ} :
    {V : Type ℓ} (n : Str) (d e : Dict Str V)
    → NodupKeys e
    → lookup n (update d e) ≡ or_else (lookup n e) (lookup n d)
unfolding update lookup
lookup-update n d [] u = refl
lookup-update n d ((k, v) ∷ e) u = elim (Bool-cases (n == k)) [
  | inl same ↦
      let gone = ap (λ j. lookup j e) (==→eq n k same) ∙ u.0 in
      ground (arith, same, gone, lookup-update n (insert k v d) e u.1, lookup-insert n k v d)
  | inr apart ↦ ground (arith, apart, lookup-update n (insert k v d) e u.1, lookup-insert n k v d)
]

update-NodupKeys {ℓ} : {V : Type ℓ} (d e : Dict Str V) → NodupKeys d → NodupKeys (update d e)
unfolding update
update-NodupKeys d [] u = u
update-NodupKeys d ((k, v) ∷ e) u = update-NodupKeys (insert k v d) e (insert-NodupKeys k v d u)

-- The field of a name in the last base that has one
unfoldable pub last_field : Str → List (Option (Dict Str Field)) → Option Field
last_field n [] = none
last_field n (none ∷ based) = last_field n based
last_field n (some fields ∷ based) = or_else (last_field n based) (lookup n fields)

-- The fields of a base, which are a dict
abbrev pub AreDicts : List (Option (Dict Str Field)) → Type 0
AreDicts [] = Unit
AreDicts (none ∷ based) = AreDicts based
AreDicts (some fields ∷ based) = NodupKeys fields × AreDicts based

lookup-super_fields :
    (n : Str) (based : List (Option (Dict Str Field))) (found : Dict Str Field)
    → AreDicts based
    → lookup n (super_fields based found) ≡ or_else (last_field n based) (lookup n found)
unfolding super_fields last_field
lookup-super_fields n [] found u = refl
lookup-super_fields n (none ∷ based) found u = lookup-super_fields n based found u
lookup-super_fields n (some fields ∷ based) found u =
    ground (
      arith,
      lookup-super_fields n based (update found fields) u.1,
      lookup-update n found fields u.0,
    )

super_fields-NodupKeys :
    (based : List (Option (Dict Str Field))) (found : Dict Str Field)
    → NodupKeys found
    → NodupKeys (super_fields based found)
unfolding super_fields
super_fields-NodupKeys [] found u = u
super_fields-NodupKeys (none ∷ based) found u = super_fields-NodupKeys based found u
super_fields-NodupKeys (some fields ∷ based) found u =
    super_fields-NodupKeys based (update found fields) (update-NodupKeys found fields u)

module _ {A : Type 0} where
  unfoldable pub field_of : Option (Attr A) → Option Field
  field_of (some (field f)) = some f
  field_of _ = none

  -- What becomes of an attribute
  unfoldable pub become : Str → Option (Attr A) → Option (ClassAttr A)
  become n none = none
  become n (some (field f)) = some (property n f)
  become n (some (other a)) = some (plain a)

  unfoldable as_attr : Option Field → Option (Attr A)
  as_attr none = none
  as_attr (some f) = some (field f)

  lookup-as_attrs :
      (n : Str) (fields : Dict Str Field)
      → lookup n (as_attrs {A = A} fields) ≡ as_attr (lookup n fields)
  unfolding lookup as_attrs as_attr
  lookup-as_attrs n [] = refl
  lookup-as_attrs n ((k, f) ∷ fields) = ground (arith, lookup-as_attrs n fields)

  lookup-cls_fields :
      (n : Str) (attrs : Dict Str (Attr A)) (found : Dict Str Field)
      → NodupKeys attrs
      → lookup n (cls_fields attrs found) ≡ or_else (field_of (lookup n attrs)) (lookup n found)
  unfolding cls_fields lookup field_of
  lookup-cls_fields n [] found u = refl
  lookup-cls_fields n ((k, other a) ∷ attrs) found u = elim (Bool-cases (n == k)) [
    | inl same ↦
        let gone = ap (λ j. lookup j attrs) (==→eq n k same) ∙ u.0 in
        ground (arith, same, gone, lookup-cls_fields n attrs found u.1)
    | inr apart ↦ ground (arith, apart, lookup-cls_fields n attrs found u.1)
  ]
  lookup-cls_fields n ((k, field f) ∷ attrs) found u = elim (Bool-cases (n == k)) [
    | inl same ↦
        let gone = ap (λ j. lookup j attrs) (==→eq n k same) ∙ u.0 in
        ground (
          arith,
          same,
          gone,
          lookup-cls_fields n attrs (insert k f found) u.1,
          lookup-insert n k f found,
        )
    | inr apart ↦
        ground (
          arith,
          apart,
          lookup-cls_fields n attrs (insert k f found) u.1,
          lookup-insert n k f found,
        )
  ]

  lookup-new_attrs :
      (n : Str) (attrs : Dict Str (Attr A)) (found : Dict Str (ClassAttr A))
      → NodupKeys attrs
      → lookup n (new_attrs attrs found) ≡ or_else (become n (lookup n attrs)) (lookup n found)
  unfolding new_attrs lookup become
  lookup-new_attrs n [] found u = refl
  lookup-new_attrs n ((k, other a) ∷ attrs) found u = elim (Bool-cases (n == k)) [
    | inl same ↦
        let gone = ap (λ j. lookup j attrs) (==→eq n k same) ∙ u.0 in
        ground (
          arith,
          same,
          gone,
          lookup-new_attrs n attrs (insert k (plain a) found) u.1,
          lookup-insert n k (plain a) found,
        )
    | inr apart ↦ ground (
      arith,
      apart,
      lookup-new_attrs n attrs (insert k (plain a) found) u.1,
      lookup-insert n k (plain a) found,
    )
  ]
  lookup-new_attrs n ((k, field f) ∷ attrs) found u = elim (Bool-cases (n == k)) [
    | inl same ↦
        let gone = ap (λ j. lookup j attrs) (==→eq n k same) ∙ u.0 in
        let renamed : Path (Option (ClassAttr A)) (some (property n f)) (some (property k f)) =
          ap (λ j. some (property j f)) (==→eq n k same) in
        ground (
          arith,
          same,
          gone,
          renamed,
          lookup-new_attrs n attrs (insert k (property k f) found) u.1,
          lookup-insert n k (property k f) found,
        )
    | inr apart ↦ ground (
      arith,
      apart,
      lookup-new_attrs n attrs (insert k (property k f) found) u.1,
      lookup-insert n k (property k f) found,
    )
  ]

as_attrs-NodupKeys :
    (A : Type 0) (fields : Dict Str Field) → NodupKeys fields → NodupKeys (as_attrs {A = A} fields)
unfolding as_attrs as_attr
as_attrs-NodupKeys A [] u = tt
as_attrs-NodupKeys A ((k, f) ∷ fields) u =
    (lookup-as_attrs k fields ∙ ap as_attr u.0, as_attrs-NodupKeys A fields u.1)

module _ {A : Type 0} (based : List (Option (Dict Str Field))) (attrs : Dict Str (Attr A)) where
  supers-NodupKeys : NodupKeys (as_attrs {A = A} (super_fields based []))
  supers-NodupKeys =
      as_attrs-NodupKeys A (super_fields based []) (super_fields-NodupKeys based [] tt)

  all_attrs-NodupKeys : NodupKeys attrs → NodupKeys (all_attrs based attrs)
  unfolding all_attrs
  all_attrs-NodupKeys u = update-NodupKeys attrs (as_attrs (super_fields based [])) u

  lookup-all_attrs :
      (n : Str)
      → AreDicts based
      → lookup n (all_attrs based attrs) ≡ or_else (as_attr (last_field n based)) (lookup n attrs)
  unfolding all_attrs as_attr lookup
  lookup-all_attrs n u =
      let first = lookup-update n attrs (as_attrs (super_fields based [])) supers-NodupKeys in
      let second = lookup-as_attrs {A = A} n (super_fields based []) in
      let third = lookup-super_fields n based [] u in
      elim (Option-cases (last_field n based)) [
        | inl e ↦ ground (arith, e, first, second, third)
        | inr (f, e) ↦ ground (arith, e, first, second, third)
      ]

  -- Under a name for which a base has a field, a new class has the field of the last such base, with its
  -- property, even if its own body has a field or something else there; under every other name it has
  -- what its body has. The names in the body, and those of the fields of each base, are distinct.
  pub lookup-new_class :
      (n : Str)
      → NodupKeys attrs
      → AreDicts based
      → (lookup n (new_class based attrs).1
          ≡ or_else (last_field n based) (field_of (lookup n attrs)))
        × (lookup n (new_class based attrs).0 ≡ (elim (last_field n based) [
          | some f ↦ some (property n f)
          | none ↦ become n (lookup n attrs)
        ]))
  unfolding new_class lookup field_of become as_attr
  lookup-new_class n u v =
      let all = lookup-all_attrs n v in
      let first = lookup-cls_fields n (all_attrs based attrs) [] (all_attrs-NodupKeys u) in
      let second = lookup-new_attrs n (all_attrs based attrs) [] (all_attrs-NodupKeys u) in
      elim (Option-cases (last_field n based)) [
        | inr (f, e) ↦ (ground (arith, e, all, first), ground (arith, e, all, second))
        | inl e ↦ elim (Option-cases (lookup n attrs)) [
          | inl g ↦ (ground (arith, e, g, all, first), ground (arith, e, g, all, second))
          | inr (field f, g) ↦ (ground (arith, e, g, all, first), ground (arith, e, g, all, second))
          | inr (other a, g) ↦ (ground (arith, e, g, all, first), ground (arith, e, g, all, second))
        ]
      ]
