-- ===== src/Tests/Store.antt =====
-- Two instances in a store, one of a name that begins with the other's.
use js_ng.Prelude.{
  nat_eq, ◌≡◌, refl, ap, true, Bool, ◌++◌, none, some, [], ◌∷◌, List, Str, str, str_eq, path_eq,
  ◌==◌, starts, contains,
}
use js_ng.Prelude.Result.{ok, err, not_found_error}
use js_ng.Base.Store.Location.{
  location_path, Location, Op, write, delete, replay, from_type, location_name,
}
use js_ng.Base.Store.Files.{
  delete_files, is_there, get_instance_root, config_root, join_path, walk_from, but_last, FilePath,
  FileSystem, run_files, read_file,
}
use js_ng.Base.Store.FilesLaws.{is_file_name, AreFileNames, file_view, read_file-run_files}
use js_ng.Prelude.Dict.{insert, remove_if}
use js_ng.Text.{split, join, lstrip_by}
use js_ng.Base.Store.Redis.{
  list_keys, get_key, get_instance_keys, keys_of, Redis, run_keys, read_key, delete_keys, write_key,
}
use mathlib.Core.Quot
use js_ng.Base.Store.Redis.Laws.{IsGlob, is_literal, read_key-run_keys}

-- What a pattern with a star at its end matches
without_star : Str → Str
without_star [] = []
without_star (c ∷ []) = []
without_star (c ∷ d ∷ s) = c ∷ without_star (d ∷ s)

abbrev at_start : Str → Str → Bool
unfolding without_star
at_start pattern k = starts (without_star pattern) k

star_off : (s : Str) → without_star (s ++ str "*") ≡ s
unfolding without_star
star_off [] = refl
star_off (c ∷ []) = refl
star_off (c ∷ d ∷ s) = ap (λ t. c ∷ t) (star_off (d ∷ s))

at_start-IsGlob : IsGlob at_start
unfolding at_start starts
at_start-IsGlob = record { literal = λ s k h. ap (λ t. starts t k) (star_off s) }

abbrev root : FilePath
root = str "root" ∷ []

abbrev clients : Location
clients = from_type (str "jumpscale.clients") (str "Redis")

abbrev calls : List (Op Str)
calls = write (str "a") (str "1") ∷ write (str "ab") (str "2") ∷ delete (str "a") ∷ []

abbrev no_files : FileSystem Str
no_files = []

calls-AreFileNames : AreFileNames calls
unfolding is_file_name contains nat_eq str_eq
calls-AreFileNames = (refl, (refl, (refl, tt)))

ab_named : is_file_name (str "ab") ≡ true
unfolding is_file_name contains nat_eq str_eq
ab_named = refl

read_file-run_files_example :
    read_file root clients (str "ab") (run_files root clients calls no_files)
    ≡ elim (replay (λ m k. m == k) calls (file_view root clients no_files) (str "ab")) [
      | none ↦ err not_found_error
      | some d ↦ ok d
    ]
read_file-run_files_example =
    read_file-run_files root clients calls no_files (str "ab") calls-AreFileNames ab_named

abbrev no_keys : Redis Str
no_keys = []

abbrev after_calls : Redis Str
after_calls = elim (run_keys at_start clients calls no_keys) [ ok db ↦ db | err e ↦ [] ]

clients_literal : is_literal (location_name clients) ≡ true
unfolding is_literal contains nat_eq location_name join
clients_literal = refl

read_key-run_keys_example :
    read_key clients (str "ab") after_calls
    ≡ replay starts calls (λ k. read_key clients k no_keys) (str "ab")
read_key-run_keys_example =
    read_key-run_keys clients at_start at_start-IsGlob calls no_keys after_calls (str "ab")
      clients_literal (unfold is_literal contains nat_eq in (refl, tt))
      (unfold at_start run_keys write_key delete_keys get_key get_instance_keys keys_of
          location_name join insert remove_if contains starts str_eq nat_eq in
        refl)

-- Two instances, of which one is deleted
abbrev two_names : List Str
two_names = str "x" ∷ str "yz" ∷ []

abbrev two_calls : List (Op Str)
two_calls = write (str "x") (str "1") ∷ write (str "yz") (str "2") ∷ delete (str "x") ∷ []

abbrev two_keys : Redis Str
two_keys = elim (run_keys at_start clients two_calls no_keys) [ ok db ↦ db | err e ↦ [] ]

-- A name with that of its location in it is listed without it.
shortened :
    list_keys at_start (str "a" ∷ []) (write_key (str "a" ∷ []) (str "banana") (str "1") no_keys)
    ≡ str "bnn" ∷ []
unfolding at_start list_keys write_key get_key location_name join insert starts contains str_eq
    nat_eq lstrip_by
shortened = refl

-- A name of two dots takes away what other locations have.
all_gone :
    delete_files root
      (str "a" ∷ [])
      (str "..")
      ((str "root" ∷ str "b" ∷ str "c" ∷ str "data" ∷ [], str "1") ∷ [])
    ≡ []
unfolding delete_files is_there get_instance_root config_root location_path location_name join_path
    walk_from but_last split join starts remove_if str_eq nat_eq
all_gone = refl
