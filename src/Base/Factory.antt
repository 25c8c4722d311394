-- ===== src/Base/Factory.antt =====
-- Factories of instances (core/base/factory.py): `Factory` here, `StoredFactory` in the child.
pub mod Laws
pub mod Stored
pub mod Listing
pub mod Reload
use js_ng.Prelude.{
  ℕ, ◌≡◌, Bool, true, false, not, ◌&&◌, ◌||◌, Option, none, some, List, [], ◌∷◌, ◌==◌, str_eq, leb,
  eqb, if◌then◌else◌, Str, str, ℤ, pos, succ, prec, zero,
}
use js_ng.Prelude.Dict.{Dict, lookup, insert, erase, keys}
use js_ng.Prelude.Result.{
  Result, ok, err, Error, guard, ◌>>=◌, ◌>>◌, value_error, duplicate_error, type_error,
  attribute_error,
}
use js_ng.Base.Value.{Entries, end}
use js_ng.Base.Field.Data.{Library, Fields}
use js_ng.Base.Field.Nested.{init_values}

-- The instances are attributes of the factory object, by their names.
pub record Factory : Type 0 where
  pub instances : Dict Str Entries
  -- `none` once the attribute was deleted
  pub count : Option ℤ

-- Factory(type_)
abbrev pub new_factory : Factory
new_factory = record { instances = []; count = some (pos 0) }

-- What the factory object has under a name, beside its instances and `count`: a method or another
-- value that is true, or a property with no setter whose value is None.
pub data Own : Type 0 where
  absent present unset : Own

-- InstanceCreateEvent and InstanceDeleteEvent of core/base/events.py
pub data Event : Type 0 where
  instance_create : Str → Entries → Event
  instance_delete : Str → Event

is_word : ℕ → Bool
is_word c = leb b'a' c && leb c b'z' || leb b'A' c && leb c b'Z' || eqb c b'_'

all_word : Str → Bool
unfolding is_word
all_word [] = true
all_word (c ∷ s) = (is_word c || leb b'0' c && leb c b'9') && all_word s

-- name.isidentifier(), of a text in ASCII
unfoldable pub is_identifier : Str → Bool
unfolding is_word all_word
is_identifier [] = false
is_identifier (c ∷ s) = is_word c && all_word s

-- The factory of the instances of a class with these fields, over the attributes of its own.
module _ (lib : Library) (fields : Fields) (own : Str → Own) where
  -- Factory.find; None is `none`. Another value that is false is no instance either.
  unfoldable pub find : Str → Factory → Result (Option Entries)
  find n f = elim (lookup n f.instances) [
    | some a ↦ ok (some a)
    | none ↦
        if n == str "count"
        then (elim f.count [
          | none ↦ ok none
          | some (pos zero) ↦ ok none
          | some _ ↦ err value_error
        ])
        else (elim (own n) [ present ↦ err value_error | _ ↦ ok none ])
  ]

  -- `setattr(self, name, instance)` and `self.count += 1`: an instance in the place of the counter
  -- cannot be added to, and a property without a setter cannot be set.
  unfoldable pub place : Str → Entries → Factory → Result (Factory × Event)
  place n a f = if n == str "count" then err type_error else (elim (own n) [
    | unset ↦ err attribute_error
    | _ ↦ elim f.count [
      | none ↦ err attribute_error
      | some c ↦ ok (
        record f { instances = insert n a f.instances; count = some (succ c) },
        instance_create n a,
      )
    ]
  ])

  -- Factory.new, with the keyword arguments of the instance
  unfoldable pub new : Str → Entries → Factory → Result (Factory × Event)
  unfolding find place
  new n kwargs f = do
    guard (is_identifier n) value_error
    found ← find n f
    guard (elim found [ none ↦ true | some _ ↦ false ]) duplicate_error
    a ← init_values lib fields kwargs end
    place n a f

  -- Factory.get: the instance, and the factory with it.
  unfoldable pub get_or_new : Str → Entries → Factory → Result Factory
  get_or_new n kwargs f = do
    found ← find n f
    elim found [ some a ↦ ok f | none ↦ do (g, ev) ← new n kwargs f; ok g ]

  -- `if hasattr(self, name): delattr(self, name)`; what stands in the class cannot be deleted.
  unfoldable pub remove_attr : Str → Factory → Result Factory
  remove_attr n f = elim (lookup n f.instances) [
    | some a ↦ ok (record f { instances = erase n f.instances })
    | none ↦
        if n == str "count"
        then ok (record f { count = none })
        else (elim (own n) [ absent ↦ ok f | _ ↦ err attribute_error ])
  ]

  -- Factory.delete: the counter falls first.
  unfoldable pub delete : Str → Factory → Result (Factory × Event)
  unfolding remove_attr
  delete n f = elim f.count [
    | none ↦ err attribute_error
    | some c ↦ do g ← remove_attr n (record f { count = some (prec c) }); ok (g, instance_delete n)
  ]

  -- Factory.list_all
  unfoldable pub list_all : Factory → List Str
  unfolding keys
  list_all f = keys f.instances
