-- ===== src/Config.antt =====
-- core/config/config.py: the configuration file, and how missing settings come into it.
pub mod Key
pub mod Laws
use js_ng.Prelude.{
  Bool, true, false, not, Option, none, some, ◌==◌, str_eq, if◌then◌else◌, Str, str, ℤ, pos, negsuc,
  nat_eq, ◌++◌, [], ◌∷◌,
}
use js_ng.Text.{occurs_in}
use js_ng.Prelude.Result.{Result, ok, err, type_error, store_type_not_found, key_error, ◌>>=◌}

-- The values of a TOML file that are no tables; arrays, which no setting of the program is, are left
-- out.
pub data Setting : Type 0 where
  flag : Bool → Setting
  number : ℤ → Setting
  string : Str → Setting

-- A table is a list of keys with their values, in the order of the dict.
mutual
  pub data Toml : Type 0 where
    setting : Setting → Toml
    table : Table → Toml

  pub data Table : Type 0 where
    nil : Table
    cons : Str → Toml → Table → Table

unfoldable pub get_key : Str → Table → Option Toml
get_key k nil = none
get_key k (cons j v t) = if k == j then some v else get_key k t

-- `current[k] = v`
unfoldable pub set_key : Str → Toml → Table → Table
set_key k v nil = cons k v nil
set_key k v (cons j w t) = if k == j then cons j v t else cons j w (set_key k v t)

-- `key not in current`, and then an assignment or an index, where `current` is a flag or a number:
-- only an empty table of defaults leaves it; the texts are like that, but for a key that they contain
-- and that has no table.
unfoldable pub copy_to_setting : Table → Setting → Result (Unit {0})
copy_to_setting nil s = ok tt
copy_to_setting (cons k (setting v) d) (string s) =
    let rest = copy_to_setting d (string s) in if occurs_in k s then rest else err type_error
copy_to_setting (cons k v d) s = err type_error

-- migrate_config.copy_missing, which leaves `current` as given back
unfoldable mutual
  unfolding get_key set_key copy_to_setting

  pub copy_missing : Table → Table → Result Table
  copy_missing nil cur = ok cur
  copy_missing (cons k v d) cur = elim (get_key k cur) [
    | none ↦ copy_missing d (set_key k v cur)
    | some w ↦ copy_into v w >>= λ w'. copy_missing d (set_key k w' cur)
  ]

  pub copy_into : Toml → Toml → Result Toml
  copy_into (setting v) w = ok w
  copy_into (table d) (setting s) = copy_to_setting d s >>= λ u. ok (setting s)
  copy_into (table d) (table t) = copy_missing d t >>= λ t'. ok (table t')

-- get_default_config; `in_root` puts a path under the directory of the configuration.
abbrev pub get_default_config : (Str → Str) → Table
get_default_config in_root = cons (str "debug") (setting (flag true)) (
    cons (str "logging")
      (table (
        cons (str "redis")
          (table (
            cons (str "enabled") (setting (flag true)) (
              cons (str "level") (setting (number (pos 15))) (
                cons (str "max_size") (setting (number (pos 1000))) (
                  cons (str "dump") (setting (flag true))
                    (cons (str "dump_dir") (setting (string (in_root (str "logs/redis")))) nil))))))
          (cons (str "filesystem")
            (table (
              cons (str "enabled") (setting (flag true)) (
                cons (str "level") (setting (number (pos 15))) (
                  cons (str "log_dir") (setting (string (in_root (str "logs/fs/log.txt"))))
                    (cons (str "rotation") (setting (string (str "5 MB"))) nil)))))
            nil)))
      (cons (str "alerts")
        (table (
          cons (str "enabled") (setting (flag true))
            (cons (str "level") (setting (number (pos 40))) nil)))
        (cons (str "ssh_key_path") (setting (string [])) (
          cons (str "private_key_path") (setting (string [])) (
            cons (str "stores")
              (table (
                cons (str "redis")
                  (table (
                    cons (str "hostname") (setting (string (str "localhost")))
                      (cons (str "port") (setting (number (pos 6379))) nil)))
                  (cons (str "filesystem")
                    (table
                      (cons (str "path") (setting (string (in_root (str "secureconfig")))) nil))
                    nil)))
              (cons (str "store") (setting (string (str "filesystem"))) nil))))))

-- migrate_config, of the file's content
unfoldable pub migrate_config : (Str → Str) → Table → Result Table
unfolding copy_missing
migrate_config in_root cur = copy_missing (get_default_config in_root) cur

-- Environment.get_store_config, where the stores are a table
unfoldable pub get_store_config : Str → Table → Result Toml
unfolding get_key
get_store_config name config = elim (get_key (str "stores") config) [
  | none ↦ err key_error
  | some (setting s) ↦ err type_error
  | some (table stores) ↦ elim (get_key name stores) [
    | none ↦ err store_type_not_found
    | some c ↦ ok c
  ]
]

-- Environment.get_logging_config
unfoldable pub get_logging_config : Table → Result Toml
unfolding get_key
get_logging_config config = elim (get_key (str "logging") config) [
  | none ↦ err key_error
  | some c ↦ ok c
]

-- Environment.get_private_key_path
unfoldable pub get_private_key_path : Table → Result Toml
unfolding get_key
get_private_key_path config = elim (get_key (str "private_key_path") config) [
  | none ↦ err key_error
  | some c ↦ ok c
]

-- `not private_key_path`
unfoldable pub is_falsy : Toml → Bool
is_falsy (setting (flag b)) = not b
is_falsy (setting (number (pos n))) = n == 0
is_falsy (setting (number (negsuc n))) = false
is_falsy (setting (string s)) = s == []
is_falsy (table nil) = true
is_falsy (table (cons k v t)) = false

-- Environment.get_private_key: the path of the file that it reads, and the configuration afterwards.
-- A key that is missing is generated (generate_key) next to the configuration.
unfoldable pub get_private_key : (Str → Str) → Table → Result (Toml × Table)
unfolding get_private_key_path set_key is_falsy
get_private_key in_root config = do
  path ← get_private_key_path config
  let generated = setting (string (in_root (str "privatekey") ++ str ".priv"))
  ok (
      if is_falsy path
      then (generated, set_key (str "private_key_path") generated config)
      else (path, config))
