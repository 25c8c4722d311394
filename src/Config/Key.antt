-- ===== src/Config/Key.antt =====
-- The private key is generated once.
use js_ng.Prelude.{
  ◌≡◌, refl, sym, ◌∙◌, true, false, none, some, [], ◌∷◌, ◌++◌, arith, ◌==◌, str_eq, ==_refl, Str,
  str, Option-cases, inl, inr, Bool-cases,
}
use js_ng.Prelude.Result.{Result, ok, err, key_error}
use js_ng.Config.{
  Toml, Table, setting, string, get_key, set_key, get_private_key_path, get_private_key, is_falsy,
}
use js_ng.Config.Laws.{get-set}

append-priv : (s : Str) → (s ++ str ".priv" == []) ≡ false
append-priv [] = ground arith
append-priv (c ∷ s) = ground arith

abbrev key_name : Str
key_name = str "private_key_path"

abbrev generated : (Str → Str) → Toml
generated in_root = setting (string (in_root (str "privatekey") ++ str ".priv"))

generated_is_truthy : (in_root : Str → Str) → is_falsy (generated in_root) ≡ false
unfolding is_falsy
generated_is_truthy in_root = append-priv (in_root (str "privatekey"))

key_there :
    (in_root : Str → Str) (config : Table) (v : Toml)
    → get_key key_name config ≡ some v
    → is_falsy v ≡ false
    → get_private_key in_root config ≡ ok (v, config)
unfolding get_private_key
key_there in_root config v e f = rw (get_private_key_path, e, f) refl

key_generated :
    (in_root : Str → Str) (config : Table) (v : Toml)
    → get_key key_name config ≡ some v
    → is_falsy v ≡ true
    → get_private_key in_root config
      ≡ ok (generated in_root, set_key key_name (generated in_root) config)
unfolding get_private_key
key_generated in_root config v e f = rw (get_private_key_path, e, f) refl

key_missing :
    (in_root : Str → Str) (config : Table)
    → get_key key_name config ≡ none
    → get_private_key in_root config ≡ err key_error
unfolding get_private_key
key_missing in_root config e = rw (get_private_key_path, e) refl

err_ok : {p : Toml × Table} → Path (Result (Toml × Table)) (err key_error) (ok p) → ⊥
err_ok h = cc h

same_pair :
    (x path : Toml) (c after : Table) (in_root : Str → Str)
    → Path (Result (Toml × Table)) (ok (x, c)) (ok (path, after))
    → get_private_key in_root c ≡ ok (x, c)
    → get_private_key in_root after ≡ ok (path, after)
same_pair x path c after in_root h k = cc (h, k)

-- A second get of the private key reads the file of the first and changes nothing: a key is generated
-- at most once.
pub get_private_key_twice :
    (in_root : Str → Str) (config after : Table) (path : Toml)
    → get_private_key in_root config ≡ ok (path, after)
    → get_private_key in_root after ≡ ok (path, after)
get_private_key_twice in_root config after path h = elim (Option-cases (get_key key_name config)) [
  | inl e ↦ absurd (err_ok (sym (key_missing in_root config e) ∙ h))
  | inr (v, e) ↦ elim (Bool-cases (is_falsy v)) [
    | inl f ↦
        same_pair (generated in_root) path (set_key key_name (generated in_root) config) after
          in_root (sym (key_generated in_root config v e f) ∙ h)
          (key_there in_root (set_key key_name (generated in_root) config) (generated in_root)
            (get-set key_name key_name (generated in_root) config ∙ (rw (==_refl key_name) refl))
            (generated_is_truthy in_root))
    | inr f ↦
        same_pair v path config after in_root (sym (key_there in_root config v e f) ∙ h)
          (key_there in_root config v e f)
  ]
]
