-- ===== src/Base/Factory/Stored.antt =====
-- StoredFactory (core/base/factory.py) over what its store holds at the factory's location: the
-- instance names with the JSON texts written for them. Nested factories are not loaded here.
use js_ng.Prelude.{Bool, none, some, List, [], ◌∷◌, str_eq, contains, if◌then◌else◌, Str}
use js_ng.Prelude.Dict.{Dict, lookup, insert, erase, keys}
use js_ng.Prelude.Result.{Result, ok, err, ◌>>=◌, ◌>>◌, name_error, key_error, not_found_error}
use js_ng.Base.Value.{Entries, end}
use js_ng.Base.Field.Data.{Library, Fields}
use js_ng.Base.Field.Nested.{set_data, validate_fields}
use js_ng.Base.Instance.{AttributeUpdate}
use js_ng.Base.Store.Config.{Vault, opened_config}
use js_ng.Base.Store.RoundTrip.{save_instance}
use js_ng.Base.Factory.{Factory, Own, Event, new, delete, list_all}

pub record StoredFactory (vault : Vault) : Type 0 where
  pub factory : Factory
  pub store : Dict Str vault.Json

add_new : List Str → List Str → List Str
add_new names [] = names
add_new names (n ∷ more) = add_new (if contains names n then names else n ∷ names) more

module _ (lib : Library) (vault : Vault) (fields : Fields) (own : Str → Own) where
  -- StoredFactory._validate_and_save_instance
  unfoldable pub validate_and_save :
      Str → Entries → Dict Str vault.Json → Result (Dict Str vault.Json)
  validate_and_save n a store = do
    validate_fields lib fields a
    j ← save_instance lib vault fields a
    ok (insert n j store)

  -- StoredFactory._try_save_instance: its call names a variable that is not defined, and `except`
  -- takes the NameError as it takes every other.
  unfoldable pub try_save : Dict Str vault.Json → Dict Str vault.Json
  try_save store =
      let saved : Result (Dict Str vault.Json) = err name_error in
      elim saved [ ok after ↦ after | err e ↦ store ]

  -- StoredFactory.handle, for an update of an instance that is, or is not, this factory's
  unfoldable pub handle : Bool → AttributeUpdate → StoredFactory vault → StoredFactory vault
  unfolding try_save
  handle mine ev s = if mine then record s { store = try_save s.store } else s

  -- StoredFactory.new
  unfoldable pub stored_new :
      Str → Entries → StoredFactory vault → Result (StoredFactory vault × Event)
  stored_new n kwargs s = do
    (f, ev) ← new lib fields own n kwargs s.factory
    ok (record s { factory = f }, ev)

  -- One round of StoredFactory._load
  unfoldable pub load_one : Str → Dict Str vault.Json → Factory → Result Factory
  load_one n store f = do
    (g, ev) ← new lib fields own n end f
    j ← elim (lookup n store) [ none ↦ err not_found_error | some j ↦ ok j ]
    config ← opened_config vault j
    fresh ← elim (lookup n g.instances) [ none ↦ err key_error | some a ↦ ok a ]
    a ← set_data lib fields config fresh
    ok (record g { instances = insert n a g.instances })

  -- StoredFactory._load, of the names in the order that the store lists them in, which is any.
  unfoldable pub load : List Str → Dict Str vault.Json → Factory → Result Factory
  load [] store f = ok f
  load (n ∷ names) store f = do g ← load_one n store f; load names store g

  -- StoredFactory.delete
  unfoldable pub stored_delete : Str → StoredFactory vault → Result (StoredFactory vault × Event)
  stored_delete n s = do
    (f, ev) ← delete lib fields own n s.factory
    ok (record { factory = f; store = erase n s.store }, ev)

  -- StoredFactory.list_all, the union of two sets: each name once.
  unfoldable pub stored_list_all : StoredFactory vault → List Str
  unfolding add_new
  stored_list_all s = add_new (keys s.store) (list_all lib fields own s.factory)
