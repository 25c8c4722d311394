-- ===== src/Tests/Base.antt =====
-- A class with a secret, an embedded object and a list, its instances, and a store that writes the
-- values themselves.
use js_ng.Prelude.{
  List, length, ◌≡◌, refl, true, false, none, some, [], ◌∷◌, Str, str, pos, str_eq, ◌==◌,
  if◌then◌else◌,
}
use js_ng.Prelude.Dict.{Dict, lookup, insert, keys}
use js_ng.Prelude.Result.{ok, ◌>>=◌}
use js_ng.Base.Value.{
  Value, null, bool, int, text, list, object, nil, cons, Entries, end, entry, get, put,
}
use js_ng.Base.Field.Data.{
  Library, Options, Field, Fields, no_fields, with_field, boolean, integer, secret, options_of,
}
use js_ng.Base.Field.Nested.{validate_fields, validate, from_raw, init_values}
use js_ng.Base.Instance.{set_attr, AttributeUpdate}
use js_ng.Base.Instance.Laws.{set_attr-validate_fields, IsFieldOf}
use js_ng.Base.Store.Config.{Vault}
use js_ng.Base.Store.Storable.{IsLawful, Storable}
use js_ng.Base.Store.RoundTrip.{save_instance, load_instance, load-save}
use js_ng.Base.Factory.{
  Factory, Own, absent, present, new, new_factory, delete, find, get_or_new, instance_delete,
  instance_create, is_identifier,
}
use js_ng.Base.Factory.Laws.{IsCounted, find-new, delete-IsCounted}
use js_ng.Base.Factory.Stored.{load}
use js_ng.Base.Factory.Reload.{AllStorable, Saves, load-Saves}
use js_ng.Base.Factory.Listing.{IsListing}

-- A library of which the tests use nothing.
abbrev pub lib : Library
lib = record {
  truthy = λ c n. true;
  float_of = λ s. none;
  has_netloc = λ v. ok true;
  ip_interface = λ v. true;
  strptime = λ s format. ok 0;
  arrow_get = λ v. ok 0;
  strftime = λ n format. [];
  part = λ c n. n;
  timestamp = λ n. pos n;
}

abbrev pub plain_vault : Vault
plain_vault = record {
  Json = Value;
  encrypt = λ s. b'!' ∷ s;
  decrypt = λ s. elim s [ [] ↦ ok [] | c ∷ t ↦ ok t ];
  dumps = λ v. ok v;
  loads = λ v. ok v;
}

plain_vault-IsLawful : IsLawful plain_vault
plain_vault-IsLawful = record { decrypt-encrypt = λ s. refl; loads-dumps = λ v h. refl }

abbrev with_default : Value → Options
with_default v = record {
  default = v;
  required = false;
  indexed = false;
  readonly = false;
  validators = [];
}

abbrev address_fields : Fields
address_fields =
    with_field (str "active") (boolean (with_default (bool false)))
      (with_field (str "token") (secret none (with_default null)) no_fields)

abbrev address : Entries
address = entry (str "active") (bool true) (entry (str "token") (text (str "xyz")) end)

abbrev new_address : Value
new_address =
    object (str "Address") (entry (str "active") (bool false) (entry (str "token") null end))

abbrev user_fields : Fields
user_fields = with_field (str "uid") (integer (some (pos 5)) (with_default (int (pos 0)))) (
    with_field (str "password") (secret none (with_default null)) (
      with_field (str "home")
        (Field.object (str "Address") address_fields (with_default new_address))
        (with_field (str "levels")
          (Field.list (integer none (with_default (int (pos 0)))) (with_default null)) no_fields)))

abbrev user : Entries
user = entry (str "uid") (int (pos 7)) (
    entry (str "password") (text (str "hunter2")) (
      entry (str "home") (object (str "Address") address)
        (entry (str "levels") (list (cons (int (pos 1)) (cons (int (pos 2)) nil))) end)))

user-Storable : Storable lib user_fields user
unfolding get str_eq from_raw options_of
user-Storable = (
  refl,
  refl,
  refl,
  tt,
  (int (pos 0), refl),
  (
    refl,
    refl,
    refl,
    tt,
    (null, refl),
    (
      refl,
      refl,
      refl,
      (refl, (refl, refl, refl, tt, (bool false, refl), (refl, refl, refl, tt, (null, refl), tt))),
      (new_address, refl),
      (refl, refl, refl, (tt, (tt, tt)), (list nil, refl), tt),
    ),
  ),
)

load-save_example :
    (save_instance lib plain_vault user_fields user >>= load_instance lib plain_vault user_fields)
    ≡ ok user
load-save_example = load-save lib plain_vault user_fields user plain_vault-IsLawful user-Storable

user_valid : validate_fields lib user_fields user ≡ ok tt
unfolding validate get str_eq
user_valid = refl

abbrev uid : Field
uid = integer (some (pos 5)) (with_default (int (pos 0)))

abbrev user_9 : Entries
user_9 = entry (str "uid") (int (pos 9)) (
    entry (str "password") (text (str "hunter2")) (
      entry (str "home") (object (str "Address") address)
        (entry (str "levels") (list (cons (int (pos 1)) (cons (int (pos 2)) nil))) end)))

abbrev uid_update : AttributeUpdate
uid_update = record { name = str "uid"; new_value = int (pos 9) }

set_uid : set_attr lib (str "uid") uid (text (str " +9 ")) user ≡ ok (user_9, uid_update)
unfolding set_attr from_raw validate options_of put str_eq
set_uid = refl

uid-IsFieldOf : IsFieldOf (str "uid") uid user_fields
unfolding str_eq
uid-IsFieldOf = (λ e. refl, (λ e. cc e, (λ e. cc e, (λ e. cc e, tt))))

set_attr-validate_fields_example : validate_fields lib user_fields user_9 ≡ ok tt
set_attr-validate_fields_example =
    set_attr-validate_fields lib (str "uid") uid (text (str " +9 ")) user_fields user user_9
      uid_update uid-IsFieldOf set_uid user_valid

-- A factory whose only own attribute is the method `new`.
abbrev own : Str → Own
own n = if n == str "new" then present else absent

abbrev ann : Str
ann = str "ann"

abbrev one_user : Factory
one_user = record { instances = (ann, user) ∷ []; count = some (pos 1) }

made_ann : new lib user_fields own ann user new_factory ≡ ok (one_user, instance_create ann user)
unfolding new is_identifier lookup insert str_eq from_raw options_of get put
made_ann = refl

find-new_example :
    (a : Entries) × (init_values lib user_fields user end ≡ ok a)
    × (find lib user_fields own ann one_user ≡ ok (some a))
    × ((j : Str)
        → (j == ann) ≡ false
        → lookup j one_user.instances ≡ lookup j new_factory.instances)
    × (lookup ann new_factory.instances ≡ none)
    × (is_identifier ann ≡ true)
    × (instance_create ann user ≡ instance_create ann a)
find-new_example =
    find-new lib user_fields own ann user new_factory one_user (instance_create ann user) made_ann

one_user-IsCounted : IsCounted one_user
unfolding lookup
one_user-IsCounted = record { counted = refl; nodup = (refl, tt) }

ann_free : own ann ≡ absent
unfolding str_eq
ann_free = refl

ann_no_count : (ann == str "count") ≡ false
unfolding str_eq
ann_no_count = refl

ann_there : lookup ann one_user.instances ≡ some user
unfolding lookup str_eq
ann_there = refl

ann_missing : lookup ann new_factory.instances ≡ none
unfolding lookup
ann_missing = refl

new_factory-IsCounted : IsCounted new_factory
new_factory-IsCounted = record { counted = refl; nodup = tt }

delete-IsCounted_example :
    (g : Factory) × (delete lib user_fields own ann one_user ≡ ok (g, instance_delete ann))
    × IsCounted g
    × ((j : Str) → lookup j g.instances ≡ (if j == ann then none else lookup j one_user.instances))
delete-IsCounted_example =
    delete-IsCounted lib user_fields own ann user one_user one_user-IsCounted ann_free ann_no_count
      ann_there

got_ann : get_or_new lib user_fields own ann user new_factory ≡ ok one_user
unfolding get_or_new new is_identifier lookup insert str_eq from_raw options_of get put
got_ann = refl

users-AllStorable : AllStorable lib plain_vault user_fields own ((ann, user) ∷ [])
unfolding lookup is_identifier
users-AllStorable = (
  refl,
  record { identifier = refl; no_own = ann_free; no_count = ann_no_count },
  user-Storable,
  user_valid,
  tt,
)

load-Saves_example :
    (store : Dict Str plain_vault.Json) × Saves lib plain_vault user_fields own
      ((ann, user) ∷ [])
      store
    × ((names : List Str)
        → IsListing names store
        → (g : Factory) × (load lib plain_vault user_fields own names store new_factory ≡ ok g)
          × ((n : Str) → lookup n g.instances ≡ lookup n ((ann, user) ∷ []))
          × (keys g.instances ≡ names)
          × (g.count ≡ some (pos (length names))))
load-Saves_example =
    load-Saves lib plain_vault user_fields own ((ann, user) ∷ []) plain_vault-IsLawful
      users-AllStorable
