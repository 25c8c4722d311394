-- ===== src/Bcdb/Database.antt =====
-- data/bcdb: the queries of bcdb.py, and how a model creates and saves objects.
use js_ng.Prelude.{
  ℕ, zero, suc, ◌+◌, false, not, Option, none, some, List, [], ◌∷◌, ◌==◌, nat_eq, str_eq,
  if◌then◌else◌, Str, str, map,
}
use js_ng.Prelude.Dict.{Dict, lookup, insert}
use js_ng.Prelude.Result.{Result, ok, err, guard, runtime_error, ◌>>=◌, ◌>>◌}
use js_ng.Bcdb.{
  Value, number, value_eq, index_eq, value_le, Property, Schema, JsObj, Bcdb, getattr, id_of,
  set_from_dict, load_obj_from_dict, get_dict, set_index, row_of, ids_between,
}

-- BCDB.save_obj: the old value of a property
unfoldable pub old_value : Str → Option JsObj → Result (Option Value)
unfolding getattr
old_value n none = ok none
old_value n (some was) = getattr n was >>= λ w. ok (some w)

-- _assert_uniqueness: what was found has to be the object itself.
unfoldable pub assert_owner : JsObj → Option JsObj → Result (Unit {0})
unfolding id_of
assert_owner o none = ok tt
assert_owner o (some other) = id_of other >>= λ j. id_of o >>= λ i. guard (j == i) runtime_error

-- One model of a database, of the given schema
module _ (schema : Schema) where
  -- RedisStorageClient.get, get_item_by_id
  unfoldable pub get_item_by_id : ℕ → Bcdb → Result (Option JsObj)
  unfolding lookup load_obj_from_dict
  get_item_by_id i db = elim (lookup i db.objects) [
    | none ↦ ok none
    | some d ↦ load_obj_from_dict schema d >>= λ o. ok (some o)
  ]

  unfoldable pub get_items : List ℕ → Bcdb → Result (List (Option JsObj))
  unfolding get_item_by_id
  get_items [] db = ok []
  get_items (i ∷ is) db = get_item_by_id i db >>= λ o. get_items is db >>= λ os. ok (o ∷ os)

  -- RedisStorageClient.get_keys_in_model; redis gives the keys in an order of its own.
  unfoldable pub get_keys_in_model : Dict ℕ JsObj → Result (List JsObj)
  unfolding load_obj_from_dict
  get_keys_in_model [] = ok []
  get_keys_in_model ((i, d) ∷ ds) =
      load_obj_from_dict schema d >>= λ o. get_keys_in_model ds >>= λ os. ok (o ∷ os)

  -- get_item_from_index; an id of 0 counts as none.
  unfoldable pub get_item_from_index : Str → Value → Bcdb → Result (Option JsObj)
  unfolding lookup get_item_by_id
  get_item_from_index key v db = elim (lookup key schema) [
    | none ↦ err runtime_error
    | some p ↦ guard p.index runtime_error >> elim (lookup (key, v) db.indexer) [
      | none ↦ ok none
      | some zero ↦ ok none
      | some (suc i) ↦ get_item_by_id (suc i) db
    ]
  ]

  -- get_item_from_index_set
  unfoldable pub get_item_from_index_set : Str → Value → Value → Bcdb → Result (List (Option JsObj))
  unfolding lookup get_items ids_between
  get_item_from_index_set key min max db = elim (lookup key schema) [
    | none ↦ err runtime_error
    | some p ↦ guard p.index_key runtime_error >> get_items (ids_between key min max db.rows) db
  ]

  -- The loop of get_entry
  unfoldable pub first_with : Str → Value → List JsObj → Result (Option JsObj)
  unfolding getattr value_eq
  first_with key v [] = ok none
  first_with key v (o ∷ os) =
      getattr key o >>= λ w. if w == v then ok (some o) else first_with key v os

  -- get_entry, get_by
  unfoldable pub get_entry : Str → Value → Bcdb → Result (Option JsObj)
  unfolding lookup get_item_from_index get_item_from_index_set get_keys_in_model first_with
  get_entry key v db = elim (lookup key schema) [
    | none ↦ err runtime_error
    | some p ↦
        if p.index
        then get_item_from_index key v db
        else if p.index_key
        then (get_item_from_index_set key v v db >>= λ found. elim found [
          | [] ↦ ok none
          | o ∷ _ ↦ ok o
        ])
        else (get_keys_in_model db.objects >>= first_with key v)
  ]

  -- The loop of get_range
  unfoldable pub between : Str → Value → Value → List JsObj → Result (List JsObj)
  unfolding getattr value_le
  between key min max [] = ok []
  between key min max (o ∷ os) = getattr key o >>= λ v. value_le min v >>= λ low.
      (if low then value_le v max else ok false) >>= λ both.
      between key min max os >>= λ rest. ok (if both then o ∷ rest else rest)

  -- get_range, of which the test of index_key is the wrong way round
  unfoldable pub get_range : Str → Value → Value → Bcdb → Result (List (Option JsObj))
  unfolding lookup get_item_from_index_set get_keys_in_model between
  get_range key min max db = elim (lookup key schema) [
    | none ↦ err runtime_error
    | some p ↦
        if not p.index_key
        then get_item_from_index_set key min max db
        else (get_keys_in_model db.objects >>= λ os.
            between key min max os >>= λ found. ok (map some found))
  ]

  -- BCDB.save_obj: one property
  unfoldable pub save_index : Str → Property → JsObj → ℕ → Bcdb → Result Bcdb
  unfolding getattr get_entry old_value set_index
  save_index n p o i db = get_entry (str "id") (number i) db >>= λ was. getattr n o >>= λ v.
      old_value n was >>= λ old. ok (if p.index then set_index n v i old db else db)

  -- BCDB.save_obj: the loop
  unfoldable pub save_indexes : Schema → JsObj → ℕ → Bcdb → Result Bcdb
  unfolding save_index
  save_indexes [] o i db = ok db
  save_indexes ((n, p) ∷ ps) o i db = save_index n p o i db >>= save_indexes ps o i

  -- BCDB.save_obj, without the index of texts
  unfoldable pub bcdb_save_obj : JsObj → Bcdb → Result Bcdb
  unfolding id_of row_of save_indexes get_dict insert
  bcdb_save_obj o db = id_of o >>= λ i. row_of schema o >>= λ row.
      save_indexes schema o i (record db { rows = insert i row db.rows }) >>= λ after.
      get_dict schema o >>= λ d. ok (record after { objects = insert i d after.objects })

  -- _assert_uniqueness: one property
  unfoldable pub assert_unique : Str → Property → JsObj → Bcdb → Result (Unit {0})
  unfolding getattr get_entry assert_owner
  assert_unique n p o db =
      if p.unique then (getattr n o >>= λ v. get_entry n v db >>= assert_owner o) else ok tt

  -- _assert_uniqueness
  unfoldable pub assert_uniqueness : Schema → JsObj → Bcdb → Result (Unit {0})
  unfolding assert_unique
  assert_uniqueness [] o db = ok tt
  assert_uniqueness ((n, p) ∷ ps) o db = assert_unique n p o db >> assert_uniqueness ps o db

  -- ModelBase.save_obj
  unfoldable pub save_obj : JsObj → Bcdb → Result Bcdb
  unfolding assert_uniqueness bcdb_save_obj
  save_obj o db = assert_uniqueness schema o db >> bcdb_save_obj o db

  -- ModelBase.create_obj, with the counter of ids
  unfoldable pub create_obj : Dict Str Value → Bcdb → Result (JsObj × Bcdb)
  unfolding insert set_from_dict
  create_obj values db =
      set_from_dict schema (insert (str "id") (number (db.lastid + 1)) values) [] >>= λ o.
      ok (o, record db { lastid = db.lastid + 1 })
