-- ===== src/Tests/Bcdb.antt =====
-- A model of users, whose name is unique, and one of its objects.
use js_ng.Prelude.{nat_eq, str_eq, ◌≡◌, refl, Bool, true, false, some, [], ◌∷◌, Str, str}
use js_ng.Prelude.Dict.{Dict, lookup, has_key, insert, erase}
use js_ng.Prelude.Result.{Error, ok, err}
use js_ng.Bcdb.{
  Value, number, word, value_eq, index_eq, is_truthy, Property, Schema, JsObj, Bcdb, getattr, id_of,
  set_from_dict, load_obj_from_dict, dict_of, get_dict, without_old, set_index, row_of,
}
use js_ng.Bcdb.Database.{
  get_item_by_id, get_item_from_index, get_entry, old_value, save_index, save_indexes,
  bcdb_save_obj, assert_owner, assert_unique, assert_uniqueness, save_obj, create_obj,
}
use js_ng.Bcdb.Reload.{IsSettled, IsSchema}
use js_ng.Bcdb.Unique.{save_obj_duplicate}
use js_ng.Bcdb.Indexed.{get_entry-save_obj}

-- A type that takes all values as they are
abbrev plain : Bool → Bool → Value → Property
plain unique index v = record {
  unique = unique;
  index = index;
  index_key = false;
  check = λ w. true;
  from_str = λ w. w;
  default_value = v;
}

abbrev users : Schema
users =
    (str "name", plain true true (word []))
    ∷ (str "age", plain false false (number 0))
    ∷ (str "id", plain true true (number 0))
    ∷ []

plain-IsSettled : (unique index : Bool) (v : Value) → IsSettled (plain unique index v)
unfolding IsSettled
plain-IsSettled unique index v = ((λ w h. (refl, refl)), refl, refl)

users-IsSchema : IsSchema users
unfolding IsSchema has_key lookup str_eq
users-IsSchema = (
  refl,
  plain-IsSettled true true (word []),
  (refl, plain-IsSettled false false (number 0), (refl, plain-IsSettled true true (number 0), tt)),
)

abbrev no_users : Bcdb
no_users = record { objects = []; lastid = 0; indexer = []; rows = [] }

abbrev about_ann : Dict Str Value
about_ann = (str "name", word (str "ann")) ∷ []

abbrev ann : JsObj
ann = (str "name", word (str "ann")) ∷ (str "age", number 0) ∷ (str "id", number 1) ∷ []

abbrev numbered : Dict Str Value
numbered = (str "name", word (str "ann")) ∷ (str "id", number 1) ∷ []

ann_made : create_obj users about_ann no_users ≡ ok (ann, record no_users { lastid = 1 })
unfolding create_obj set_from_dict lookup insert str_eq
ann_made = refl

ann_loaded : load_obj_from_dict users numbered ≡ ok ann
unfolding load_obj_from_dict set_from_dict lookup insert str_eq
ann_loaded = refl

abbrev one_user : Bcdb
one_user = elim (save_obj users ann no_users) [ ok db ↦ db | err e ↦ no_users ]

ann_saved : save_obj users ann no_users ≡ ok one_user
unfolding assert_unique assert_owner save_obj bcdb_save_obj assert_uniqueness save_indexes
    save_index old_value set_index without_old get_entry get_item_from_index get_item_by_id id_of
    getattr get_dict dict_of row_of lookup insert erase is_truthy str_eq nat_eq index_eq value_eq
ann_saved = refl

get_entry-save_obj_example :
    get_entry users (str "name") (word (str "ann")) one_user ≡ ok (some ann)
get_entry-save_obj_example =
    get_entry-save_obj users numbered ann 0 no_users one_user (str "name")
      (plain true true (word [])) (word (str "ann")) users-IsSchema ann_loaded
      (unfold id_of getattr lookup str_eq in refl) (unfold lookup str_eq in refl) refl
      (unfold getattr lookup str_eq in refl) ann_saved

-- Another user of the same name
abbrev double : JsObj
double = (str "name", word (str "ann")) ∷ (str "age", number 7) ∷ (str "id", number 2) ∷ []

save_obj_duplicate_example : (e : Error) × (save_obj users double one_user ≡ err e)
save_obj_duplicate_example =
    save_obj_duplicate users numbered ann double 0 2 no_users one_user (str "name")
      (plain true true (word [])) (word (str "ann")) users-IsSchema ann_loaded
      (unfold id_of getattr lookup str_eq in refl) (unfold lookup str_eq in refl) refl refl
      (unfold getattr lookup str_eq in refl) ann_saved (unfold id_of getattr lookup str_eq in refl)
      (unfold nat_eq in refl) (unfold getattr lookup str_eq in refl)
