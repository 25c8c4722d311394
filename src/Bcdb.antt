-- ===== src/Bcdb.antt =====
-- data/bcdb: bcdb.py, clients.py and models/base.py, for one model of a database.
pub mod Database
pub mod Reload
pub mod Indexed
pub mod Unique
use native.Mathlib.Decide.{ℕ_discrete}
use js_ng.Prelude.{
  ℕ, zero, suc, ◌+◌, Bool, true, false, not, ◌&&◌, ◌||◌, Option, none, some, List, [], ◌∷◌, ◌==◌,
  Eq, nat_eq, str_eq, leb, ltb, eqb, if◌then◌else◌, Str, str, Str-discrete, map,
}
use js_ng.Prelude.Dict.{Dict, lookup, insert, erase}
use js_ng.Prelude.Result.{
  Result, ok, err, guard, runtime_error, attribute_error, value_error, type_error, ◌>>=◌, ◌>>◌,
}

-- The values of properties. Those of one property have one type, so that their texts differ when they do.
pub data Value : Type 0 where
  number : ℕ → Value
  word : Str → Value

unfoldable pub Value-discrete : Discrete Value
unfolding ℕ_discrete Str-discrete
Value-discrete = hlevel (ℕ_discrete, Str-discrete)

unfoldable pub IndexKey-discrete : Discrete (Str × Value)
unfolding Str-discrete Value-discrete
IndexKey-discrete = hlevel (Str-discrete, Value-discrete)

instance unfoldable pub value_eq : Eq Value
unfolding Value-discrete
value_eq = record { dec = Value-discrete }

instance unfoldable pub index_eq : Eq (Str × Value)
unfolding IndexKey-discrete
index_eq = record { dec = IndexKey-discrete }

-- Python's order of texts
unfoldable pub word_le : Str → Str → Bool
word_le [] t = true
word_le (c ∷ s) [] = false
word_le (c ∷ s) (d ∷ t) = ltb c d || eqb c d && word_le s t

-- `v <= w`
unfoldable pub value_le : Value → Value → Result Bool
unfolding word_le
value_le (number i) (number j) = ok (leb i j)
value_le (word s) (word t) = ok (word_le s t)
value_le _ _ = err type_error

-- The order of a column of sqlite: numbers, then texts
unfoldable pub column_le : Value → Value → Bool
unfolding word_le
column_le (number i) (number j) = leb i j
column_le (number i) (word t) = true
column_le (word s) (number j) = false
column_le (word s) (word t) = word_le s t

unfoldable pub is_truthy : Value → Bool
is_truthy (number zero) = false
is_truthy (number (suc _)) = true
is_truthy (word []) = false
is_truthy (word (_ ∷ _)) = true

-- Property: what the model uses of it, and of its type. Both texts and numbers can stand in data.
pub record Property : Type 0 where
  pub unique : Bool
  pub index : Bool
  pub index_key : Bool
  pub check : Value → Bool
  pub from_str : Value → Value
  pub default_value : Value

abbrev pub Schema : Type 0
Schema = Dict Str Property

-- The attributes of an object
abbrev pub JsObj : Type 0
JsObj = Dict Str Value

-- What redis and sqlite keep of a model: its objects and the counter of ids, the index from a property
-- and its value to an id, and the rows of the table by their id.
pub record Bcdb : Type 0 where
  pub objects : Dict ℕ JsObj
  pub lastid : ℕ
  pub indexer : Dict (Str × Value) ℕ
  pub rows : Dict ℕ JsObj

unfoldable pub getattr : Str → JsObj → Result Value
unfolding lookup
getattr n o = elim (lookup n o) [ none ↦ err attribute_error | some v ↦ ok v ]

-- obj.id
unfoldable pub id_of : JsObj → Result ℕ
unfolding getattr
id_of o = getattr (str "id") o >>= λ v. elim v [ number i ↦ ok i | word s ↦ err type_error ]

-- ModelBase.set_from_dict, for properties that hold no object
unfoldable pub set_from_dict : Schema → Dict Str Value → JsObj → Result JsObj
unfolding lookup insert
set_from_dict [] d o = ok o
set_from_dict ((n, p) ∷ ps) d o = elim (lookup n d) [
  | none ↦ set_from_dict ps d (insert n p.default_value o)
  | some v ↦ guard (p.check v) value_error >> set_from_dict ps d (insert n (p.from_str v) o)
]

-- ModelBase.load_obj_from_dict
unfoldable pub load_obj_from_dict : Schema → Dict Str Value → Result JsObj
unfolding set_from_dict
load_obj_from_dict schema d = set_from_dict schema d []

-- The loop of ModelBase.get_dict
unfoldable pub dict_of : Schema → JsObj → Dict Str Value → Result (Dict Str Value)
unfolding getattr insert
dict_of [] o d = ok d
dict_of ((n, p) ∷ ps) o d = getattr n o >>= λ v. dict_of ps o (insert n v d)

-- ModelBase.get_dict
unfoldable pub get_dict : Schema → JsObj → Result (Dict Str Value)
unfolding dict_of
get_dict schema o = dict_of schema o []

-- RedisIndexClient.set: the old value is removed first.
unfoldable pub without_old : Str → Option Value → Dict (Str × Value) ℕ → Dict (Str × Value) ℕ
unfolding erase is_truthy
without_old n none indexer = indexer
without_old n (some w) indexer = if is_truthy w then erase (n, w) indexer else indexer

-- RedisIndexClient.set
unfoldable pub set_index : Str → Value → ℕ → Option Value → Bcdb → Bcdb
unfolding insert without_old
set_index n v i old db = record db { indexer = insert (n, v) i (without_old n old db.indexer) }

-- SQLiteIndexSetClient.set: the row of an object
unfoldable pub row_of : Schema → JsObj → Result JsObj
unfolding getattr str_eq
row_of [] o = ok []
row_of ((n, p) ∷ ps) o =
    if not (n == str "id") && p.index_key
    then (getattr n o >>= λ v. row_of ps o >>= λ row. ok ((n, v) ∷ row))
    else row_of ps o

-- SQLiteIndexSetClient.get
unfoldable pub ids_between : Str → Value → Value → Dict ℕ JsObj → List ℕ
unfolding lookup column_le
ids_between key min max [] = []
ids_between key min max ((i, row) ∷ rows) =
    let rest = ids_between key min max rows in
    elim (lookup key row) [
      | none ↦ rest
      | some v ↦ if column_le min v && column_le v max then i ∷ rest else rest
    ]
