-- ===== src/Tests/Config.antt =====
-- A configuration with settings of its own.
use js_ng.Prelude.{◌≡◌, refl, true, false, some, [], ◌∷◌, ◌++◌, Str, str, str_eq, pos}
use js_ng.Prelude.Result.{ok, err}
use js_ng.Config.{
  Table, setting, table, nil, cons, number, flag, string, copy_missing, migrate_config,
}
use js_ng.Config.Laws.{migrate_config-Keeps, value_at}

abbrev in_root : Str → Str
in_root p = str "/root/.config/jumpscale/" ++ p

abbrev own : Table
own =
    cons (str "stores")
      (table (cons (str "redis") (table (cons (str "port") (setting (number (pos 7000))) nil)) nil))
      (cons (str "debug") (setting (flag false)) nil)

abbrev migrated : Table
migrated = elim (migrate_config in_root own) [ ok t ↦ t | err e ↦ nil ]

migrate_config-Keeps_example :
    value_at (str "stores" ∷ str "redis" ∷ str "port" ∷ []) (table migrated)
    ≡ some (setting (number (pos 7000)))
unfolding migrate_config copy_missing str_eq
migrate_config-Keeps_example =
    migrate_config-Keeps in_root own migrated (str "stores" ∷ str "redis" ∷ str "port" ∷ [])
      (number (pos 7000)) refl refl

abbrev defaults : Table
defaults = cons (str "debug") (setting (flag true)) (cons (str "store") (setting (string [])) nil)

abbrev merged : Table
merged = elim (copy_missing defaults own) [ ok t ↦ t | err e ↦ nil ]
