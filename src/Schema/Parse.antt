-- ===== src/Schema/Parse.antt =====
-- data/schema/schema.py: parse_schema.
use js_ng.Prelude.{
  ℕ, zero, suc, ◌-◌, Bool, none, some, List, [], ◌∷◌, str_eq, eqb, starts, nat_eq, length,
  if◌then◌else◌, Str, str,
}
use js_ng.Prelude.Dict.{Dict, lookup, insert}
use js_ng.Prelude.Result.{Result, ok, err, runtime_error, value_error, key_error, ◌>>=◌}
use js_ng.Text.{split}
use js_ng.Types.{Python}
use js_ng.Schema.Normalize.{normalize_string}
use js_ng.Schema.Line.{Property, parse_prop}

-- s.count(t), of a text t that is not empty; so many characters are still of an occurrence.
unfoldable pub count_from : Str → ℕ → Str → ℕ
unfolding starts nat_eq
count_from t k [] = 0
count_from t (suc k) (c ∷ s) = count_from t k s
count_from t zero (c ∷ s) =
    let hit = starts t (c ∷ s) in
    let rest = count_from t (if hit then length t - 1 else 0) s in if hit then suc rest else rest

pub record Schema : Type 0 where
  pub url : Str
  pub system_props : Dict Str Str
  pub props : Dict Str Property

abbrev pub new_schema : Schema
new_schema = record { url = []; system_props = []; props = [] }

-- _correct_url_number, which parse_schema writes out
unfoldable pub correct_url_number : Str → Bool
unfolding count_from
correct_url_number s = eqb (count_from (str "@url") 0 s) 1

-- The pair that the caller takes the parts for
abbrev pub pair_of : List Str → Result (Str × Str)
pair_of (name ∷ value ∷ []) = ok (name, value)
pair_of _ = err value_error

-- _parse_system_prop, of a line without its @
unfoldable pub parse_system_prop : Str → Result (Str × Str)
unfolding split
parse_system_prop line = elim (split b'#' line) [
  | [] ↦ err value_error
  | kept ∷ _ ↦ pair_of (split b'=' kept)
]

module _ (python : Python) where
  -- One line
  unfoldable pub add_line : Str → Schema → Result Schema
  unfolding parse_prop insert
  add_line [] schema =
      parse_prop python [] >>= λ p. ok (record schema { props = insert p.name p schema.props })
  add_line (c ∷ line) schema =
      if eqb c b'@'
      then (parse_system_prop line >>= λ (name, value).
          ok (record schema { system_props = insert name value schema.system_props }))
      else (parse_prop python (c ∷ line) >>= λ p.
          ok (record schema { props = insert p.name p schema.props }))

  unfoldable pub add_lines : List Str → Schema → Result Schema
  unfolding add_line
  add_lines [] schema = ok schema
  add_lines (line ∷ lines) schema = add_line line schema >>= add_lines lines

  -- parse_schema
  unfoldable pub parse_schema : Str → Result Schema
  unfolding normalize_string correct_url_number split add_lines lookup str_eq
  parse_schema s =
      let normal = normalize_string s in
      if correct_url_number normal
      then (add_lines (split 10 normal) new_schema >>= λ schema.
          elim (lookup (str "url") schema.system_props) [
            | none ↦ err key_error
            | some url ↦ ok (record schema { url = url })
          ])
      else err runtime_error
