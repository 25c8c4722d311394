-- ===== src/Tests/Meta.antt =====
-- A class that declares a field again which one of its two bases has.
use js_ng.Prelude.{ℕ, ◌≡◌, refl, none, some, List, [], ◌∷◌, Option, Str, str, str_eq, pos}
use js_ng.Prelude.Dict.{Dict, lookup, insert}
use js_ng.Base.Value.{int}
use js_ng.Base.Field.Data.{Field, integer, field_options, boolean_field}
use js_ng.Base.Meta.{Attr, field, other, property, new_class}
use js_ng.Base.Meta.Inherited.{or_else, last_field, field_of, become, lookup-new_class}

abbrev port_80 : Field
port_80 = integer none (field_options (int (pos 80)))

abbrev port_443 : Field
port_443 = integer none (field_options (int (pos 443)))

abbrev bases : List (Option (Dict Str Field))
bases = some ((str "port", port_80) ∷ (str "ssl", boolean_field) ∷ []) ∷ none ∷ []

abbrev body : Dict Str (Attr ℕ)
body = (str "port", field port_443) ∷ (str "start", other 1) ∷ []

lookup-new_class_example :
    (lookup (str "port") (new_class bases body).1
      ≡ or_else (last_field (str "port") bases) (field_of (lookup (str "port") body)))
    × (lookup (str "port") (new_class bases body).0 ≡ (elim (last_field (str "port") bases) [
      | some f ↦ some (property (str "port") f)
      | none ↦ become (str "port") (lookup (str "port") body)
    ]))
unfolding lookup str_eq
lookup-new_class_example =
    lookup-new_class bases body (str "port") (refl, (refl, tt)) ((refl, (refl, tt)), tt)

inherited_port : lookup (str "port") (new_class bases body).1 ≡ some port_80
unfolding new_class lookup insert str_eq
inherited_port = refl
