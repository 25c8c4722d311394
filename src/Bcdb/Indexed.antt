-- ===== src/Bcdb/Indexed.antt =====
-- What is found after an object is saved.
use js_ng.Prelude.{
  some-inj, ℕ, zero, suc, ◌≡◌, refl, sym, ap, ◌∙◌, Bool, true, false, Option, none, some, [], ◌∷◌,
  ◌==◌, nat_eq, str_eq, if◌then◌else◌, Str, str, arith, Bool-cases, inl, inr, ==→eq, ==_refl,
}
use js_ng.Prelude.Dict.{Dict, lookup, insert, lookup-insert, lookup-erase}
use js_ng.Prelude.Result.{ok, ok-inj, ◌>>=◌, >>=-eq-ok, >>-eq-ok}
use js_ng.Bcdb.{
  Value, number, index_eq, Property, Schema, JsObj, Bcdb, getattr, id_of, load_obj_from_dict,
  get_dict, without_old, set_index, row_of,
}
use js_ng.Bcdb.Database.{
  get_item_by_id, get_item_from_index, get_entry, old_value, save_index, save_indexes,
  bcdb_save_obj, assert_uniqueness, save_obj,
}
use js_ng.Bcdb.Reload.{IsSchema, load_obj_from_dict-get_dict}

abbrev keyed : Str → Value → Str × Value
keyed n v = (n, v)

abbrev is_zero : ℕ → Bool
is_zero zero = true
is_zero (suc i) = false

-- Entries of two properties differ.
other_key : (key n : Str) (v w : Value) → (key == n) ≡ false → (keyed key v == keyed n w) ≡ false
other_key key n v w e = elim (Bool-cases (keyed key v == keyed n w)) [
  | inl f ↦
      let same : key ≡ n = ap (λ k. k.0) (==→eq (keyed key v) (keyed n w) f) in
      absurd (ground (arith, e, same))
  | inr f ↦ f
]

lookup-without_old :
    (key n : Str) (v : Value) (old : Option Value) (indexer : Dict (Str × Value) ℕ)
    → (key == n) ≡ false
    → lookup (keyed key v) (without_old n old indexer) ≡ lookup (keyed key v) indexer
unfolding without_old
lookup-without_old key n v none indexer e = refl
lookup-without_old key n v (some w) indexer e =
    ground (arith, lookup-erase (keyed key v) (keyed n w) indexer, other_key key n v w e)

set_index_here :
    (key n : Str) (v w : Value) (i : ℕ) (old : Option Value) (db : Bcdb)
    → (key == n) ≡ true
    → v ≡ w
    → lookup (keyed key v) (set_index n w i old db).indexer ≡ some i
unfolding set_index
set_index_here key n v w i old db e now =
    lookup-insert (keyed key v) (keyed n w) i (without_old n old db.indexer)
    ∙ rw (==→eq key n e, now, ==_refl (keyed n w)) refl

set_index_other :
    (key n : Str) (v w : Value) (i : ℕ) (old : Option Value) (db : Bcdb)
    → (key == n) ≡ false
    → lookup (keyed key v) (set_index n w i old db).indexer ≡ lookup (keyed key v) db.indexer
unfolding set_index
set_index_other key n v w i old db e =
    lookup-insert (keyed key v) (keyed n w) i (without_old n old db.indexer)
    ∙ rw (other_key key n v w e) (lookup-without_old key n v old db.indexer e)

module _ (schema : Schema) (o : JsObj) (i : ℕ) where
  -- What one property does
  save_index_lem :
      (n : Str) (p : Property) (db after : Bcdb)
      → save_index schema n p o i db ≡ ok after
      → (v : Value) × (old : Option Value) × (getattr n o ≡ ok v)
        × (after ≡ (if p.index then set_index n v i old db else db))
  unfolding save_index
  save_index_lem n p db after h =
      let next = λ (v : Value) (w : Option Value). if p.index then set_index n v i w db else db in
      let read = λ (was : Option JsObj) (v : Value). old_value n was >>= λ w. ok (next v w) in
      let (was, _, h1) =
        >>=-eq-ok (get_entry schema (str "id") (number i) db)
          (λ was. getattr n o >>= λ v. read was v) h in
      let (v, got, h2) = >>=-eq-ok (getattr n o) (read was) h1 in
      let (w, _, h3) = >>=-eq-ok (old_value n was) (λ w. ok (next v w)) h2 in
      (v, w, got, ok-inj (sym h3))

  -- The entry of an attribute that is set stays.
  save_index_keeps :
      (n : Str) (p : Property) (db after : Bcdb) (key : Str) (v : Value)
      → save_index schema n p o i db ≡ ok after
      → getattr key o ≡ ok v
      → lookup (keyed key v) db.indexer ≡ some i
      → lookup (keyed key v) after.indexer ≡ some i
  save_index_keeps n p db after key v h got there =
      let (w, old, has, same) = save_index_lem n p db after h in
      elim (Bool-cases (key == n)) [
        | inl e ↦
            let now : v ≡ w = ok-inj (sym got ∙ ap (λ k. getattr k o) (==→eq key n e) ∙ has) in
            ground (arith, same, there, set_index_here key n v w i old db e now)
        | inr e ↦ ground (arith, same, there, set_index_other key n v w i old db e)
      ]

  -- The entry of an indexed property is set.
  save_index_sets :
      (n : Str) (p : Property) (db after : Bcdb) (v : Value)
      → p.index ≡ true
      → save_index schema n p o i db ≡ ok after
      → getattr n o ≡ ok v
      → lookup (keyed n v) after.indexer ≡ some i
  save_index_sets n p db after v indexed h got =
      let (w, old, has, same) = save_index_lem n p db after h in
      ground
        (arith, same, indexed, set_index_here n n v w i old db (==_refl n) (ok-inj (sym got ∙ has)))

  save_indexes_keeps :
      (ps : Schema) (db after : Bcdb) (key : Str) (v : Value)
      → save_indexes schema ps o i db ≡ ok after
      → getattr key o ≡ ok v
      → lookup (keyed key v) db.indexer ≡ some i
      → lookup (keyed key v) after.indexer ≡ some i
  unfolding save_indexes
  save_indexes_keeps [] db after key v h got there = rw (ok-inj (sym h)) there
  save_indexes_keeps ((n, p) ∷ ps) db after key v h got there =
      let (next, h1, h2) =
        >>=-eq-ok (save_index schema n p o i db) (save_indexes schema ps o i) h in
      save_indexes_keeps ps next after key v h2 got
        (save_index_keeps n p db next key v h1 got there)

  -- After the loop, the entry of each indexed property is set.
  save_indexes_sets :
      (ps : Schema) (db after : Bcdb) (key : Str) (p : Property) (v : Value)
      → lookup key ps ≡ some p
      → p.index ≡ true
      → save_indexes schema ps o i db ≡ ok after
      → getattr key o ≡ ok v
      → lookup (keyed key v) after.indexer ≡ some i
  unfolding save_indexes lookup
  save_indexes_sets [] db after key p v has indexed h got = cc has
  save_indexes_sets ((n, q) ∷ ps) db after key p v has indexed h got =
      let (next, h1, h2) =
        >>=-eq-ok (save_index schema n q o i db) (save_indexes schema ps o i) h in
      elim (Bool-cases (key == n)) [
        | inl e ↦
            let same : n ≡ key = sym (==→eq key n e) in
            let here : q ≡ p = some-inj (ground (arith, has, e)) in
            save_indexes_keeps ps next after key v h2 got (
              ap (λ k. lookup (keyed k v) next.indexer) (sym same)
              ∙ save_index_sets n q db next v (ap (λ r. r.index) here ∙ indexed) h1
                  (ap (λ k. getattr k o) same ∙ got))
        | inr e ↦ save_indexes_sets ps next after key p v (ground (arith, has, e)) indexed h2 got
      ]

-- What save_obj does when it raises nothing
save_obj_lem :
    (schema : Schema) (o : JsObj) (i : ℕ) (db after : Bcdb) (d : Dict Str Value)
    → id_of o ≡ ok i
    → get_dict schema o ≡ ok d
    → save_obj schema o db ≡ ok after
    → (start : Bcdb) × (mid : Bcdb) × (save_indexes schema schema o i start ≡ ok mid)
      × (after ≡ record mid { objects = insert i d mid.objects })
unfolding save_obj bcdb_save_obj
save_obj_lem schema o i db after d id kept h =
    let put = λ (m : Bcdb) (e : Dict Str Value). record m { objects = insert i e m.objects } in
    let (_, h0) = >>-eq-ok (assert_uniqueness schema schema o db) (bcdb_save_obj schema o db) h in
    let rest = λ (j : ℕ). row_of schema o >>= λ row.
    save_indexes schema schema o j (record db { rows = insert j row db.rows }) >>= λ m.
    get_dict schema o >>= λ e. ok (record m { objects = insert j e m.objects }) in
    let h1 : rest i ≡ ok after = sym (ap (λ r. r >>= rest) id) ∙ h0 in
    let (row, _, h2) =
      >>=-eq-ok (row_of schema o)
        (λ row. save_indexes schema schema o i (record db { rows = insert i row db.rows }) >>= λ m.
          get_dict schema o >>= λ e. ok (put m e))
        h1 in
    let start = record db { rows = insert i row db.rows } in
    let (mid, h3, h4) =
      >>=-eq-ok (save_indexes schema schema o i start)
        (λ m. get_dict schema o >>= λ e. ok (put m e)) h2 in
    let h5 : ok (put mid d) ≡ ok after = sym (ap (λ r. r >>= λ e. ok (put mid e)) kept) ∙ h4 in
    (start, mid, h3, ok-inj (sym h5))

-- A get by an indexed property whose entry is there
get_entry_found :
    (schema : Schema) (key : Str) (p : Property) (v : Value) (i : ℕ) (d : Dict Str Value)
    (o : JsObj) (db : Bcdb)
    → lookup key schema ≡ some p
    → p.index ≡ true
    → is_zero i ≡ false
    → lookup (keyed key v) db.indexer ≡ some i
    → lookup i db.objects ≡ some d
    → load_obj_from_dict schema d ≡ ok o
    → get_entry schema key v db ≡ ok (some o)
unfolding get_entry get_item_from_index get_item_by_id
get_entry_found schema key p v zero d o db has indexed nz set there loaded = cc nz
get_entry_found schema key p v (suc i) d o db has indexed nz set there loaded =
    ground (arith, has, indexed, set, there, loaded)

-- An object that was made of a dict, by a schema whose types leave alone what they have converted, is
-- saved under an id that is not 0. Then a get by an indexed property and the object's value of it
-- gives this object.
pub get_entry-save_obj :
    (schema : Schema) (values : Dict Str Value) (o : JsObj) (i : ℕ) (db after : Bcdb) (key : Str)
    (p : Property) (v : Value)
    → IsSchema schema
    → load_obj_from_dict schema values ≡ ok o
    → id_of o ≡ ok (suc i)
    → lookup key schema ≡ some p
    → p.index ≡ true
    → getattr key o ≡ ok v
    → save_obj schema o db ≡ ok after
    → get_entry schema key v after ≡ ok (some o)
get_entry-save_obj schema values o i db after key p v is_schema made id has indexed got h =
    let (d, kept, loaded) =
      >>=-eq-ok (get_dict schema o) (load_obj_from_dict schema)
        (load_obj_from_dict-get_dict schema values o is_schema made) in
    let (start, mid, h1, same) = save_obj_lem schema o (suc i) db after d id kept h in
    let set = save_indexes_sets schema o (suc i) schema start mid key p v has indexed h1 got in
    rw same (
      get_entry_found schema key p v (suc i) d o
        (record mid { objects = insert (suc i) d mid.objects }) has indexed refl set
        (lookup-insert (suc i) (suc i) d mid.objects ∙ rw (==_refl (suc i)) refl) loaded)
