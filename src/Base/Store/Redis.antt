-- ===== src/Base/Store/Redis.antt =====
-- core/base/store.py, RedisStore: instances as keys of redis.
pub mod Laws
pub mod Listing
use js_ng.Prelude.{
  ℕ, zero, suc, ◌-◌, Bool, true, false, not, ◌&&◌, Option, none, some, List, [], ◌∷◌, ◌++◌, ◌==◌,
  str_eq, nat_eq, starts, contains, if◌then◌else◌, Str, str, eqb, length,
}
use js_ng.Prelude.Dict.{Dict, lookup, insert, remove_if}
use js_ng.Prelude.Result.{Result, ok, err, response_error, ◌>>=◌}
use js_ng.Text.{lstrip_by}
use js_ng.Text.Replace.{replace}
use js_ng.Base.Store.Location.{Location, location_name, Op, write, delete}

-- The database, as far as it holds texts
abbrev pub Redis : Type 0 → Type 0
Redis D = Dict Str D

-- redis.keys, of a pattern; what a pattern matches is told by redis.
unfoldable pub keys_of : {D : Type 0} → (Str → Str → Bool) → Str → Redis D → List Str
keys_of matches pattern [] = []
keys_of matches pattern ((k, d) ∷ db) =
    let rest = keys_of matches pattern db in if matches pattern k then k ∷ rest else rest

-- The store of a location
module _ (location : Location) where
  -- RedisStore.get_key
  unfoldable pub get_key : Str → Str
  unfolding location_name
  get_key n = location_name location ++ b'.' ∷ n

  -- RedisStore.read; None is `none`.
  unfoldable pub read_key : {D : Type 0} → Str → Redis D → Option D
  unfolding get_key
  read_key n db = lookup (get_key n) db

  -- The name of a key in list_all
  unfoldable pub name_of_key : Str → Str
  unfolding location_name replace
  name_of_key k = lstrip_by (λ c. eqb c b'.') (replace (location_name location) [] k)

  unfoldable pub plain_names : List Str → List Str
  unfolding name_of_key
  plain_names [] = []
  plain_names (k ∷ ks) =
      let rest = plain_names ks in
      if contains (name_of_key k) b'.' then rest else name_of_key k ∷ rest

  -- RedisStore.write
  unfoldable pub write_key : {D : Type 0} → Str → D → Redis D → Redis D
  unfolding get_key
  write_key n d db = insert (get_key n) d db

-- With what the patterns of redis match
module _ (matches : Str → Str → Bool) (location : Location) where
  -- RedisStore.get_location_keys
  unfoldable pub get_location_keys : {D : Type 0} → Redis D → List Str
  unfolding location_name keys_of
  get_location_keys db = keys_of matches (location_name location ++ str ".*") db

  -- RedisStore.list_all
  unfoldable pub list_keys : {D : Type 0} → Redis D → List Str
  unfolding get_location_keys plain_names
  list_keys db = plain_names location (get_location_keys db)

  -- RedisStore.get_instance_keys
  unfoldable pub get_instance_keys : {D : Type 0} → Str → Redis D → List Str
  unfolding location_name keys_of
  get_instance_keys n db = keys_of matches (location_name location ++ b'.' ∷ n ++ str "*") db

  -- RedisStore.delete; the command needs a key at least.
  unfoldable pub delete_keys : {D : Type 0} → Str → Redis D → Result (Redis D)
  unfolding get_instance_keys
  delete_keys n db = elim (get_instance_keys n db) [
    | [] ↦ err response_error
    | k ∷ ks ↦ ok (remove_if (λ j. contains (k ∷ ks) j) db)
  ]

  -- Calls one after another, until one raises
  unfoldable pub run_keys : {D : Type 0} → List (Op D) → Redis D → Result (Redis D)
  unfolding write_key delete_keys
  run_keys [] db = ok db
  run_keys (write n d ∷ ops) db = run_keys ops (write_key location n d db)
  run_keys (delete n ∷ ops) db = delete_keys n db >>= λ after. run_keys ops after
